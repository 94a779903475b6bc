-- ===== src/Tests/Stored.antt =====
-- The stored state's theorems at small inputs.
use mathlib.Core.Option.{some-injective}
use enigma2_mqtt_bridge.Common.{◌≡◌, refl, sym, ap, true, false, [], ◌∷◌, string_eq, contains}
use enigma2_mqtt_bridge.Common.Result.{ok}
use enigma2_mqtt_bridge.Common.Dict.{lookup, insert, has_key}
use enigma2_mqtt_bridge.Common.Sorting.{sort_by, sorted_set}
use enigma2_mqtt_bridge.Trust.Keys.{fingerprint}
use enigma2_mqtt_bridge.Trust.Memory.{Memory, rank_floor, remember}
use enigma2_mqtt_bridge.Trust.Accept.{judge}
use enigma2_mqtt_bridge.Trust.State.{State, part_of, memory_for, store}
use enigma2_mqtt_bridge.Trust.State.Written.{IsOwn, store-keeps_silenced}
use enigma2_mqtt_bridge.Tests.Rule.{toy_index}
use enigma2_mqtt_bridge.Tests.{hash_text, older_name, low_key, high_key, both_keys, toy}

-- An entry of the reader of both keys, and one of a reader that held the lower key alone.
abbrev pub older_state : State
older_state = record {
  schema = 1;
  release =
      (
        hash_text,
        record {
          entry_keys = "00000000000000aa" ∷ "00000000000000bb" ∷ [];
          entry_memory = record { serials = ("00000000000000bb", 10) ∷ []; silenced = [] };
          entry_others = [];
        },
      )
      ∷ (
        older_name,
        record {
          entry_keys = "00000000000000aa" ∷ [];
          entry_memory = record { serials = []; silenced = "00000000000000cc" ∷ [] };
          entry_others = [];
        },
      )
      ∷ [];
  acceptance = [];
  others = [];
}

abbrev pub next_memory : Memory
next_memory = record {
  serials = ("00000000000000bb", 11) ∷ [];
  silenced = "00000000000000aa" ∷ "00000000000000cc" ∷ [];
}

pub older-IsOwn : IsOwn toy both_keys (part_of older_state false)
unfolding lookup fingerprint toy part_of string_eq sort_by
older-IsOwn entry e = ap (λ w. w.entry_keys) (sym (some-injective _ _ e))

pub small_judged :
    judge toy_index high_key both_keys (memory_for older_state both_keys false) ≡ ok next_memory
unfolding judge memory_for sorted_set string_eq rank_floor has_key remember insert
small_judged = refl

pub older_silenced :
    contains "00000000000000cc" (memory_for older_state (low_key ∷ []) false).silenced ≡ true
unfolding memory_for sorted_set string_eq
older_silenced = refl

store-keeps_silenced_example :
    contains "00000000000000cc"
      (memory_for (store toy older_state both_keys next_memory false) (low_key ∷ []) false).silenced
    ≡ true
unfolding string_eq
store-keeps_silenced_example =
    store-keeps_silenced toy older_state both_keys false toy_index high_key next_memory
      (low_key ∷ []) "00000000000000cc" older-IsOwn refl small_judged older_silenced
