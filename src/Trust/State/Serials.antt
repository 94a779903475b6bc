-- ===== src/Trust/State/Serials.antt =====
-- `store` after `judge`: the serials that readers are taught.
use mathlib.Core.Option.{some-injective}
use enigma2_mqtt_bridge.Common.{
  ℕ, ◌≤◌, ◌≡◌, inl, inr, Bool, true, Option, none, some, List, [], ◌∷◌, String, ◌==◌, string_eq,
  contains, arith, Bool-cases,
}
use enigma2_mqtt_bridge.Common.Dict.{Dict, lookup, insert}
use enigma2_mqtt_bridge.Common.Sorting.{sort_by, text_le}
use enigma2_mqtt_bridge.Trust.Platform.{Platform}
use enigma2_mqtt_bridge.Trust.Keys.{Key, key_ids, fingerprint}
use enigma2_mqtt_bridge.Trust.Memory.{Memory}
use enigma2_mqtt_bridge.Trust.State.{
  Entry, Part, State, part_of, shares, memory_for, written_entry, written_part, store,
}
use enigma2_mqtt_bridge.Trust.State.Kept.{larger, largest, part_serial, memory_for-serials}
use enigma2_mqtt_bridge.Trust.State.Written.{part_of-store}

-- A serial is known, and is at least `s`.
abbrev pub AtLeast : ℕ → Option ℕ → Type 0
AtLeast s none = ⊥
AtLeast s (some t) = s ≤ t

AtLeast-left : (s : ℕ) (a b : Option ℕ) → AtLeast s a → AtLeast s (larger a b)
AtLeast-left s none b h = absurd h
AtLeast-left s (some t) none h = h
AtLeast-left s (some t) (some u) h = omega arith

AtLeast-right : (s : ℕ) (a b : Option ℕ) → AtLeast s b → AtLeast s (larger a b)
AtLeast-right s none b h = h
AtLeast-right s (some t) none h = absurd h
AtLeast-right s (some t) (some u) h = omega arith

AtLeast-largest :
    (s : ℕ) (id : String) (d : Dict String ℕ) → lookup id d ≡ some s → AtLeast s (largest id d)
unfolding lookup
AtLeast-largest s id [] e = absurd (cc)
AtLeast-largest s id ((j, t) ∷ d) e = elim (Bool-cases (id == j)) [
  | inl same ↦
      let f : t ≡ s = some-injective _ _ (rw same at e) in
      rw same (AtLeast-left s (some t) (largest id d) (omega arith))
  | inr other ↦ rw other (AtLeast-largest s id d (rw other at e))
]

AtLeast-inserted :
    (name : String) (new : Entry) (held : List String) (id : String) (s : ℕ) (part : Part)
    → shares held new.entry_keys ≡ true
    → lookup id new.entry_memory.serials ≡ some s
    → AtLeast s (part_serial held id (insert name new part))
unfolding insert
AtLeast-inserted name new held id s [] sh e =
    rw sh (AtLeast-left s (largest id new.entry_memory.serials) none (AtLeast-largest s id _ e))
AtLeast-inserted name new held id s ((j, w) ∷ part) sh e = elim (Bool-cases (name == j)) [
  | inl same ↦
      rw (same, sh)
        (AtLeast-left s (largest id new.entry_memory.serials) (part_serial held id part)
          (AtLeast-largest s id _ e))
  | inr other ↦ rw other (behind (AtLeast-inserted name new held id s part sh e))
]
  where
    behind :
        AtLeast s (part_serial held id (insert name new part))
        → AtLeast s (part_serial held id ((j, w) ∷ insert name new part))
    behind h = elim (Bool-cases (shares held w.entry_keys)) [
      | inl same ↦ rw same (AtLeast-right s (largest id w.entry_memory.serials) _ h)
      | inr apart ↦ rw apart h
    ]

-- A reader that shares a key with the one that stored, and holds the key `id`, judges that key's
-- next index against the stored serial or a higher one.
pub store-teaches_serial :
    (platform : Platform) (state : State) (keys : List Key) (acceptance : Bool) (memory : Memory)
    (reader : List Key) (id : String) (s : ℕ)
    → shares (key_ids reader) (sort_by text_le (key_ids keys)) ≡ true
    → contains id (key_ids reader) ≡ true
    → lookup id memory.serials ≡ some s
    → AtLeast s (
        lookup id
          (memory_for (store platform state keys memory acceptance) reader acceptance).serials)
unfolding written_part written_entry
store-teaches_serial platform state keys acceptance memory reader id s sh held e =
    rw (memory_for-serials, held, part_of-store)
      (AtLeast-inserted (fingerprint platform keys) _ (key_ids reader) id s
        (part_of state acceptance) sh e)
