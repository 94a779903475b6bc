-- ===== src/TrustFile/Keep.antt =====
-- `keep` of src/MQTTBridge/trustfile.py: judge without the lock, and again under it before writing.
-- `before` is the file as the first judgement reads it, `during` as it is once the lock is held or was
-- not got: what other writers did in between lies between the two.
pub mod Forgets
use mathlib.Core.Path.{subst}
use mathlib.Core.Option.{some-injective, none-ne-some}
use enigma2_mqtt_bridge.Common.{
  ℕ, ◌≡◌, ◌≢◌, refl, sym, ap, ◌∙◌, ◌⊎◌, inl, inr, Bool, true, false, not, Option, none, some, List,
  [], ◌∷◌, String, ◌==◌, string_eq, contains, if◌then◌else◌, arith, Bool-cases, Option-cases,
}
use enigma2_mqtt_bridge.Common.Result.{Result, ok, err, ok-injective}
use enigma2_mqtt_bridge.Common.Dict.{Dict}
use enigma2_mqtt_bridge.Json.{Value}
use enigma2_mqtt_bridge.Ed25519.{Bytes}
use enigma2_mqtt_bridge.Trust.Platform.{Platform}
use enigma2_mqtt_bridge.Trust.Keys.{Reason, replay, Key, key_ids}
use enigma2_mqtt_bridge.Trust.Memory.{BadMemory, Memory}
use enigma2_mqtt_bridge.Trust.State.{State, part_of, memory_for, store}
use enigma2_mqtt_bridge.Trust.State.Written.{IsOwn, store-keeps_silenced}
use enigma2_mqtt_bridge.Trust.Authentic.{by_id-found, accept_sound}
use enigma2_mqtt_bridge.Trust.Rule.{judge-iff-IsAdmissible}
use enigma2_mqtt_bridge.Trust.Accept.{Accepted, accept}
use enigma2_mqtt_bridge.TrustFile.Lock.{LockOutcome, locked, lock_busy, lock_failed}
use enigma2_mqtt_bridge.TrustFile.{
  Disk, holds, Source, Verdict, accepted, taken_back, write_failed, trust_busy, Held, Judgement,
  read_state, state_or_empty, with_held, judge_replay, judge_taken, judge_result, held_part,
  judge_refused, judge_accepted, judge_state, judge_read, judge_pair, is_held_pair, take_back,
}

pub record Outcome : Type 0 where
  pub verdict : Verdict
  pub held : Option Held
  pub disk : Disk

-- `verdict in (ACCEPT, TAKEN_BACK)`
abbrev pub is_kept : Verdict → Bool
is_kept accepted = true
is_kept taken_back = true
is_kept _ = false

-- The body under the lock: a write of a judgement made on a fresh read.
keep_locked : (State → Bytes) → Judgement → Disk → Bool → Outcome
keep_locked dump fresh during writes =
    if not (is_kept fresh.verdict)
    then record { verdict = fresh.verdict; held = none; disk = during }
    else if not writes
    then record { verdict = write_failed; held = none; disk = during }
    else record {
      verdict = fresh.verdict;
      held = fresh.held;
      disk = elim fresh.next [ none ↦ during | some state ↦ holds (dump state) ];
    }

under_lock : (State → Bytes) → LockOutcome → Judgement → Disk → Bool → Outcome
unfolding keep_locked
under_lock dump locked fresh during writes = keep_locked dump fresh during writes
under_lock dump lock_busy fresh during writes = record {
  verdict = trust_busy;
  held = none;
  disk = during;
}
under_lock dump lock_failed fresh during writes = record {
  verdict = write_failed;
  held = none;
  disk = during;
}

unfoldable pub keep :
    Platform
    → (State → Bytes)
    → Disk
    → LockOutcome
    → Disk
    → Bool
    → Option (List Key)
    → Bool
    → Bytes
    → Bytes
    → Source
    → Outcome
unfolding under_lock
keep platform dump before lock during writes keys acceptance index_raw signature_raw source =
    let first = judge_pair platform before keys acceptance index_raw signature_raw source in
    let fresh = judge_pair platform during keys acceptance index_raw signature_raw source in
    if not (is_kept first.verdict)
    then record { verdict = first.verdict; held = none; disk = during }
    else under_lock dump lock fresh during writes

module _ (dump : State → Bytes) (during : Disk) (fresh : Judgement) where
  -- The disk is as the other writers left it, or holds the state of the fresh judgement.
  abbrev Leaves : Disk → Type 0
  Leaves disk =
      (disk ≡ during)
      ⊎ ((state : State) × (fresh.next ≡ some state)
          × (disk ≡ holds (dump state))
          × (is_kept fresh.verdict ≡ true))

  written-Leaves :
      (next : Option State)
      → fresh.next ≡ next
      → is_kept fresh.verdict ≡ true
      → Leaves (elim next [ none ↦ during | some state ↦ holds (dump state) ])
  written-Leaves none e k = inl refl
  written-Leaves (some state) e k = inr (state, e, refl, k)

  written_if-Leaves :
      (kept writes : Bool)
      → is_kept fresh.verdict ≡ kept
      → Leaves (
          if not kept
          then during
          else if not writes
          then during
          else elim fresh.next [ none ↦ during | some state ↦ holds (dump state) ])
  written_if-Leaves false writes k = inl refl
  written_if-Leaves true false k = inl refl
  written_if-Leaves true true k = written-Leaves fresh.next refl k

  keep_locked-disk :
      (writes : Bool)
      → (keep_locked dump fresh during writes).disk ≡ (
          if not (is_kept fresh.verdict)
          then during
          else if not writes
          then during
          else elim fresh.next [ none ↦ during | some state ↦ holds (dump state) ])
  unfolding keep_locked
  keep_locked-disk writes = ground arith

  keep_locked-Leaves : (writes : Bool) → Leaves (keep_locked dump fresh during writes).disk
  keep_locked-Leaves writes =
      subst Leaves (sym (keep_locked-disk writes))
        (written_if-Leaves (is_kept fresh.verdict) writes refl)

  under_lock-Leaves :
      (lock : LockOutcome) (writes : Bool) → Leaves (under_lock dump lock fresh during writes).disk
  unfolding under_lock
  under_lock-Leaves locked writes = keep_locked-Leaves writes
  under_lock-Leaves lock_busy writes = inl refl
  under_lock-Leaves lock_failed writes = inl refl

module _ (platform : Platform) where
  -- Whatever another writer did since the first judgement, `keep` leaves the disk as that writer left
  -- it, or replaces it by the state of a judgement made on that very disk, which accepted the pair.
  pub keep-fresh :
      (dump : State → Bytes) (before : Disk) (lock : LockOutcome) (during : Disk) (writes : Bool)
      (keys : Option (List Key)) (acceptance : Bool) (index_raw signature_raw : Bytes)
      (source : Source)
      → let fresh = judge_pair platform during keys acceptance index_raw signature_raw source in
        let o =
          keep platform dump before lock during writes keys acceptance index_raw signature_raw
            source in
        (o.disk ≡ during)
        ⊎ ((state : State) × (fresh.next ≡ some state)
            × (o.disk ≡ holds (dump state))
            × (is_kept fresh.verdict ≡ true))
  unfolding keep
  keep-fresh dump before lock during writes keys acceptance index_raw signature_raw source =
      elim (Bool-cases (
        is_kept
          (judge_pair platform before keys acceptance index_raw signature_raw source).verdict)) [
            | inr ended ↦ rw ended (inl refl)
            | inl passed ↦ rw passed (
                under_lock-Leaves dump during
                  (judge_pair platform during keys acceptance index_raw signature_raw source) lock
                  writes)
          ]
