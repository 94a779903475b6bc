-- ===== src/Tests/Kept.antt =====
-- The trust file's theorems at small inputs.
use mathlib.Core.Path.{subst}
use mathlib.Core.List.{Perm}
use mathlib.Core.List.Perm
use enigma2_mqtt_bridge.Common.{
  ◌≡◌, ◌⊎◌, refl, sym, ap, true, false, none, some, [], ◌∷◌, string_eq, option_eq, contains, ◌∙◌,
}
use enigma2_mqtt_bridge.Common.Result.{ok}
use enigma2_mqtt_bridge.Common.Dict.{lookup, insert, erase}
use enigma2_mqtt_bridge.Common.Sorting.{sort_by}
use enigma2_mqtt_bridge.Json.{as_dict}
use enigma2_mqtt_bridge.Trust.Format.{is_hex_of, is_key_id}
use enigma2_mqtt_bridge.Trust.Keys.{fingerprint}
use enigma2_mqtt_bridge.Trust.Memory.{checked_ids, check_members}
use enigma2_mqtt_bridge.Trust.Accept.{accept}
use enigma2_mqtt_bridge.Trust.State.{State, part_of, check_state, store, memory_for}
use enigma2_mqtt_bridge.TrustFile.{
  Judgement, accepted, holds, source_relay, read_state, state_or_empty, judge_state, judge_pair,
}
use enigma2_mqtt_bridge.TrustFile.Lock.{locked}
use enigma2_mqtt_bridge.TrustFile.Keep.{is_kept, keep, keep-fresh}
use enigma2_mqtt_bridge.TrustFile.Keep.Forgets.{rows, judge_pair-read, keep-never_forgets}
use enigma2_mqtt_bridge.Tests.{
  hash_text, older_name, held_value, older_bytes, newer_bytes, low_key, both_keys, index_bytes,
  signature_file_bytes, toy,
}
use enigma2_mqtt_bridge.Tests.Rule.{toy_index, toy_authentic, toy_authenticated}
use enigma2_mqtt_bridge.Tests.Stored.{
  small_judged, next_memory, older_state, older-IsOwn, older_silenced,
}

abbrev newer_state : State
newer_state = record older_state {
  release =
      (
        hash_text,
        record {
          entry_keys = "00000000000000aa" ∷ "00000000000000bb" ∷ [];
          entry_memory = record {
            serials = ("00000000000000bb", 11) ∷ [];
            silenced = "00000000000000aa" ∷ "00000000000000cc" ∷ [];
          };
          entry_others = [];
        },
      )
      ∷ (
        older_name,
        record {
          entry_keys = "00000000000000aa" ∷ [];
          entry_memory = record { serials = []; silenced = "00000000000000cc" ∷ [] };
          entry_others = [];
        },
      )
      ∷ [];
  others = ("held", held_value) ∷ [];
}

older_read : read_state toy (holds older_bytes) ≡ ok (some older_state)
unfolding read_state toy as_dict check_state lookup string_eq is_hex_of checked_ids erase is_key_id
    check_members
older_read = refl

newer_read : read_state toy (holds newer_bytes) ≡ ok (some newer_state)
unfolding read_state toy as_dict check_state lookup string_eq is_hex_of checked_ids erase is_key_id
    check_members
newer_read = refl

newer_accepted :
    accept toy index_bytes signature_file_bytes both_keys (memory_for older_state both_keys false)
    ≡ ok (record { accepted = toy_authentic; memory = next_memory })
unfolding accept
newer_accepted = rw (toy_authenticated, small_judged) refl

abbrev newer_judgement : Judgement
newer_judgement = record {
  verdict = accepted;
  held = some (record { index = toy_index; source = source_relay });
  next = some newer_state;
}

newer_judged :
    judge_state toy (some older_state) both_keys false index_bytes signature_file_bytes source_relay
    ≡ newer_judgement
unfolding judge_state store string_eq sort_by fingerprint toy lookup insert as_dict state_or_empty
newer_judged = rw newer_accepted refl

newer_pair :
    judge_pair toy
      (holds older_bytes)
      (some both_keys)
      false
      index_bytes
      signature_file_bytes
      source_relay
    ≡ newer_judgement
newer_pair =
    judge_pair-read toy (holds older_bytes) both_keys false index_bytes signature_file_bytes
      source_relay (some older_state) older_read
    ∙ newer_judged

newer_kept :
    (keep toy
      (λ state. newer_bytes)
      (holds older_bytes)
      locked
      (holds older_bytes)
      true
      (some both_keys)
      false
      index_bytes
      signature_file_bytes
      source_relay).disk
    ≡ holds newer_bytes
unfolding keep
newer_kept = rw newer_pair refl

keep-fresh_example :
    let fresh =
      judge_pair toy
        (holds older_bytes)
        (some both_keys)
        false
        index_bytes
        signature_file_bytes
        source_relay in
    let o =
      keep toy
        (λ state. newer_bytes)
        (holds older_bytes)
        locked
        (holds older_bytes)
        true
        (some both_keys)
        false
        index_bytes
        signature_file_bytes
        source_relay in
    (o.disk ≡ holds older_bytes)
    ⊎ ((state : State) × (fresh.next ≡ some state)
        × (o.disk ≡ holds newer_bytes)
        × (is_kept fresh.verdict ≡ true))
keep-fresh_example =
    keep-fresh toy (λ state. newer_bytes) (holds older_bytes) locked (holds older_bytes) true
      (some both_keys) false index_bytes signature_file_bytes source_relay

newer_back :
    (state : State)
    → (judge_state toy
        (some older_state)
        both_keys
        false
        index_bytes
        signature_file_bytes
        source_relay).next
      ≡ some state
    → (again : State) × (read_state toy (holds newer_bytes) ≡ ok (some again))
      × Perm (rows (part_of again false)) (rows (part_of state false))
unfolding part_of
newer_back state e =
    let same : newer_state ≡ state =
      ap (λ o. elim o [ none ↦ newer_state | some found ↦ found ])
        (sym (ap (λ j. j.next) newer_judged) ∙ e) in
    (
      newer_state,
      newer_read,
      subst (λ s. Perm (rows newer_state.release) (rows s.release)) same (Perm.refl _),
    )

keep-never_forgets_example :
    contains "00000000000000cc"
      (memory_for (state_or_empty (some newer_state)) (low_key ∷ []) false).silenced
    ≡ true
unfolding state_or_empty
keep-never_forgets_example =
    keep-never_forgets toy (λ state. newer_bytes) (holds older_bytes) locked (holds older_bytes)
      true both_keys false index_bytes signature_file_bytes source_relay (low_key ∷ [])
      "00000000000000cc" (some older_state) (some newer_state) older_read older-IsOwn newer_back
      (rw newer_kept newer_read) older_silenced
