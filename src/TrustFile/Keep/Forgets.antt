-- ===== src/TrustFile/Keep/Forgets.antt =====
-- What `keep` may do to what the trust file remembers.
use mathlib.Core.Path.{subst}
use mathlib.Core.Bool.{Bool-set}
use mathlib.Core.Logic.{∥∥₁_elim}
use mathlib.Core.List.{Perm, Permᴰ}
use enigma2_mqtt_bridge.Common.{
  ◌≡◌, refl, sym, ◌∙◌, inl, inr, Bool, true, false, ◌&&◌, ◌||◌, Option, none, some, List, [], ◌∷◌,
  String, string_eq, contains, Bool-cases, arith,
}
use enigma2_mqtt_bridge.Common.Result.{Result, ok, err, ok-injective}
use enigma2_mqtt_bridge.Common.Dict.{Dict}
use enigma2_mqtt_bridge.Json.{Value}
use enigma2_mqtt_bridge.Ed25519.{Bytes}
use enigma2_mqtt_bridge.Trust.Platform.{Platform}
use enigma2_mqtt_bridge.Trust.Keys.{Reason, replay, Key, key_ids}
use enigma2_mqtt_bridge.Trust.Memory.{Memory}
use enigma2_mqtt_bridge.Trust.State.{Part, State, part_of, shares, memory_for}
use enigma2_mqtt_bridge.Trust.State.Kept.{part_silences, memory_for-silenced}
use enigma2_mqtt_bridge.Trust.State.Written.{IsOwn, store-keeps_silenced}
use enigma2_mqtt_bridge.Trust.Authentic.{by_id-found, accept_sound}
use enigma2_mqtt_bridge.Trust.Rule.{judge-iff-IsAdmissible}
use enigma2_mqtt_bridge.Trust.Accept.{Accepted, accept}
use enigma2_mqtt_bridge.TrustFile.Lock.{LockOutcome}
use enigma2_mqtt_bridge.TrustFile.{
  Disk, holds, Source, Held, read_state, state_or_empty, with_held, judge_replay, judge_taken,
  judge_result, held_part, judge_refused, judge_accepted, judge_state, judge_read, judge_pair,
  is_held_pair,
}
use enigma2_mqtt_bridge.TrustFile.Keep.{keep, keep-fresh}

-- The entries of a lineage: the fingerprint, the keys, and what is silenced.
abbrev pub rows : Part → List (String × List String × List String)
rows [] = []
rows ((name, entry) ∷ part) = (name, entry.entry_keys, entry.entry_memory.silenced) ∷ rows part

abbrev row_silences : List String → String → String × List String × List String → Bool
row_silences held id (name, ids, silenced) = shares held ids && contains id silenced

abbrev any_silences : List String → String → List (String × List String × List String) → Bool
any_silences held id [] = false
any_silences held id (row ∷ rest) = row_silences held id row || any_silences held id rest

part_silences-rows :
    (held : List String) (id : String) (part : Part)
    → part_silences held id part ≡ any_silences held id (rows part)
part_silences-rows held id [] = refl
part_silences-rows held id ((name, entry) ∷ part) = rw (part_silences-rows held id part) refl

or_swap : (a b c : Bool) → (a || (b || c)) ≡ (b || (a || c))
or_swap a b c = ground arith

any_silences-reordered :
    (held : List String) (id : String) {one two : List (String × List String × List String)}
    → Permᴰ one two
    → any_silences held id one ≡ any_silences held id two
any_silences-reordered held id Permᴰ.nil = refl
any_silences-reordered held id (Permᴰ.cons same p) =
    rw (same, any_silences-reordered held id p) refl
any_silences-reordered held id (Permᴰ.swap {a} {b} {l = l} first second) =
    rw (← first, ← second)
      (or_swap (row_silences held id a) (row_silences held id b) (any_silences held id l))
any_silences-reordered held id (Permᴰ.trans p q) =
    any_silences-reordered held id p ∙ any_silences-reordered held id q

any_silences-Perm :
    (held : List String) (id : String) (one two : List (String × List String × List String))
    → Perm one two
    → any_silences held id one ≡ any_silences held id two
any_silences-Perm held id one two p =
    ∥∥₁_elim p (Bool-set (any_silences held id one) (any_silences held id two))
      (λ d. any_silences-reordered held id d)

-- A reader makes the same of the entries in any order.
reread :
    (again state : State) (reader : List Key) (acceptance : Bool) (id : String)
    → Perm (rows (part_of again acceptance)) (rows (part_of state acceptance))
    → contains id (memory_for state reader acceptance).silenced ≡ true
    → contains id (memory_for again reader acceptance).silenced ≡ true
reread again state reader acceptance id reordered h =
    rw
      (memory_for-silenced, part_silences-rows, any_silences-Perm (key_ids reader) id _ _ reordered)
      (rw (memory_for-silenced, part_silences-rows) at h)

module _ (platform : Platform) where
  module _ (keys : List Key) (acceptance : Bool) (reader : List Key) (id : String) where
    -- What one judgement may do to a state: the reader still has the key `id` silenced.
    abbrev Keeps : Option State → Option State → Type 0
    Keeps before none = Unit
    Keeps before (some next) =
        contains id (memory_for (state_or_empty before) reader acceptance).silenced ≡ true
        → contains id (memory_for next reader acceptance).silenced ≡ true

    own_state : (state : State) → Keeps (some state) (some state)
    unfolding state_or_empty
    own_state state h = h

    Keeps-self : (before : Option State) → Keeps before before
    Keeps-self none = tt
    Keeps-self (some state) = own_state state

    judge_taken-Keeps :
        (taken : Option Held) (before : Option State) (part : Dict String Value)
        → Keeps before (judge_taken platform taken before acceptance part).next
    unfolding judge_taken with_held memory_for part_of
    judge_taken-Keeps none before part = Keeps-self before
    judge_taken-Keeps (some held) before part = λ h. h

    judge_replay-Keeps :
        (before : Option State) (memory : Memory) (index_raw signature_raw : Bytes)
        (source : Source)
        → Keeps before
            (judge_replay platform before memory keys acceptance index_raw signature_raw
              source).next
    unfolding judge_replay
    judge_replay-Keeps before memory index_raw signature_raw source =
        elim (Bool-cases
          (is_held_pair platform (held_part before acceptance) index_raw signature_raw)) [
            | inl same_pair ↦ rw same_pair (Keeps-self before)
            | inr other ↦ rw other (judge_taken-Keeps _ before _)
          ]

    judge_accepted-Keeps :
        (before : Option State) (result : Accepted) (index_raw signature_raw : Bytes)
        (source : Source)
        → IsOwn platform keys (part_of (state_or_empty before) acceptance)
        → accept platform index_raw signature_raw keys
            (memory_for (state_or_empty before) keys acceptance)
          ≡ ok result
        → Keeps before
            (judge_accepted platform result before keys acceptance index_raw signature_raw
              source).next
    unfolding judge_accepted with_held memory_for part_of
    judge_accepted-Keeps before result index_raw signature_raw source own e h =
        let memory : Memory = memory_for (state_or_empty before) keys acceptance in
        let (authentic, _, admissible, remembered) =
          accept_sound platform index_raw signature_raw keys memory result e in
        store-keeps_silenced platform (state_or_empty before) keys acceptance result.accepted.index
          result.accepted.key result.memory reader id own
          (by_id-found keys result.accepted.key.key_id result.accepted.key authentic.held).1
          ((judge-iff-IsAdmissible result.accepted.index result.accepted.key keys memory
              result.memory).1
            (admissible, remembered))
          h

    judge_refused-Keeps :
        (reason : Reason) (before : Option State) (memory : Memory)
        (index_raw signature_raw : Bytes) (source : Source)
        → Keeps before
            (judge_refused platform reason before memory keys acceptance index_raw signature_raw
              source).next
    unfolding judge_refused
    judge_refused-Keeps replay before memory index_raw signature_raw source =
        judge_replay-Keeps before memory index_raw signature_raw source
    judge_refused-Keeps _ before memory index_raw signature_raw source = Keeps-self before

    judge_result-Keeps :
        (r : Result Reason Accepted) (before : Option State) (index_raw signature_raw : Bytes)
        (source : Source)
        → IsOwn platform keys (part_of (state_or_empty before) acceptance)
        → accept platform index_raw signature_raw keys
            (memory_for (state_or_empty before) keys acceptance)
          ≡ r
        → Keeps before
            (judge_result platform r before
              (memory_for (state_or_empty before) keys acceptance)
              keys
              acceptance
              index_raw
              signature_raw
              source).next
    unfolding judge_result
    judge_result-Keeps (ok result) before index_raw signature_raw source own e =
        judge_accepted-Keeps before result index_raw signature_raw source own e
    judge_result-Keeps (err reason) before index_raw signature_raw source own e =
        judge_refused-Keeps reason before _ index_raw signature_raw source

    judge_state-Keeps :
        (before : Option State) (index_raw signature_raw : Bytes) (source : Source)
        → IsOwn platform keys (part_of (state_or_empty before) acceptance)
        → Keeps before
            (judge_state platform before keys acceptance index_raw signature_raw source).next
    unfolding judge_state
    judge_state-Keeps before index_raw signature_raw source own =
        judge_result-Keeps _ before index_raw signature_raw source own refl

  pub judge_pair-read :
      (disk : Disk) (keys : List Key) (acceptance : Bool) (index_raw signature_raw : Bytes)
      (source : Source) (found : Option State)
      → read_state platform disk ≡ ok found
      → judge_pair platform disk (some keys) acceptance index_raw signature_raw source
        ≡ judge_state platform found keys acceptance index_raw signature_raw source
  unfolding judge_pair judge_read
  judge_pair-read disk keys acceptance index_raw signature_raw source found read =
      rw (read, judge_read) refl

  -- `keep` never makes a reader forget: whatever stood in the trust file when the lock was held, a key
  -- that it silenced for any reader of the lineage is silenced for that reader in what `keep` leaves,
  -- provided that the state it writes reads back with the lineage's entries in any order, each with its
  -- keys and its silenced keys, and that the file's entry under the key set's fingerprint, if there
  -- is one, was written for those keys.
  pub keep-never_forgets :
      (dump : State → Bytes) (before : Disk) (lock : LockOutcome) (during : Disk) (writes : Bool)
      (keys : List Key) (acceptance : Bool) (index_raw signature_raw : Bytes) (source : Source)
      (reader : List Key) (id : String) (found left : Option State)
      → read_state platform during ≡ ok found
      → IsOwn platform keys (part_of (state_or_empty found) acceptance)
      → ((state : State)
          → (judge_state platform found keys acceptance index_raw signature_raw source).next
            ≡ some state
          → (again : State) × (read_state platform (holds (dump state)) ≡ ok (some again))
            × Perm (rows (part_of again acceptance)) (rows (part_of state acceptance)))
      → read_state platform
          (keep platform dump before lock during writes
            (some keys)
            acceptance
            index_raw
            signature_raw
            source).disk
        ≡ ok left
      → contains id (memory_for (state_or_empty found) reader acceptance).silenced ≡ true
      → contains id (memory_for (state_or_empty left) reader acceptance).silenced ≡ true
  unfolding state_or_empty
  keep-never_forgets dump before lock during writes keys acceptance index_raw signature_raw source
        reader id found left read own back after h =
      elim (keep-fresh platform dump before lock during writes (some keys) acceptance index_raw
        signature_raw source) [
          | inl untouched ↦
              let same : found ≡ left = ok-injective (sym read ∙ (rw untouched at after)) in
              rw same at h
          | inr (state, next, disk, _) ↦
              let n : (judge_state platform found keys acceptance index_raw signature_raw
                    source).next
                  ≡ some state =
                rw
                  (judge_pair-read during keys acceptance index_raw signature_raw source found read)
                  at next in
              let (again, reads, reordered) = back state n in
              let same : some again ≡ left = ok-injective (sym reads ∙ (rw disk at after)) in
              rw (← same) (
                reread again state reader acceptance id reordered (
                  subst (Keeps keys acceptance reader id found) n
                    (judge_state-Keeps keys acceptance reader id found index_raw signature_raw
                      source own)
                    h))
        ]
