-- ===== src/Trust/State/Written.antt =====
-- `store` after `judge`: no reader, whatever keys it holds, forgets what the state knew.
use mathlib.Core.Option.{some-injective}
use enigma2_mqtt_bridge.Common.{
  ◌≡◌, refl, ◌∙◌, inl, inr, Bool, true, false, not, ◌&&◌, ◌||◌, some, List, [], ◌∷◌, String, ◌==◌,
  string_eq, contains, arith, Bool-cases, eq_of_test,
}
use enigma2_mqtt_bridge.Common.Result.{ok}
use enigma2_mqtt_bridge.Common.Dict.{lookup, insert}
use enigma2_mqtt_bridge.Common.Sorting.{sort_by, text_le, contains-sort_by}
use enigma2_mqtt_bridge.Trust.Platform.{Platform}
use enigma2_mqtt_bridge.Trust.Keys.{Key, key_ids, fingerprint}
use enigma2_mqtt_bridge.Trust.Memory.{Memory}
use enigma2_mqtt_bridge.Trust.Index.{Index}
use enigma2_mqtt_bridge.Trust.Accept.{judge}
use enigma2_mqtt_bridge.Trust.History.{start, later, take_in, History-silenced}
use enigma2_mqtt_bridge.Trust.State.{
  Entry, Part, State, part_of, shares, memory_for, written_entry, written_part, store,
}
use enigma2_mqtt_bridge.Trust.State.Kept.{part_silences, memory_for-silenced}

-- The name of a key set names that set: an entry under it was written by a reader of those keys.
abbrev pub IsOwn : Platform → List Key → Part → Type 0
IsOwn platform keys part =
    (entry : Entry)
    → lookup (fingerprint platform keys) part ≡ some entry
    → entry.entry_keys ≡ sort_by text_le (key_ids keys)

-- The other lineage is not touched.
pub memory_for-store_other_lineage :
    (platform : Platform) (state : State) (keys other_keys : List Key) (memory : Memory)
    (acceptance : Bool)
    → memory_for (store platform state keys memory acceptance) other_keys (not acceptance)
      ≡ memory_for state other_keys (not acceptance)
unfolding store memory_for part_of
memory_for-store_other_lineage platform state keys other_keys memory true = refl
memory_for-store_other_lineage platform state keys other_keys memory false = refl

pub part_of-store :
    (platform : Platform) (state : State) (keys : List Key) (memory : Memory) (acceptance : Bool)
    → part_of (store platform state keys memory acceptance) acceptance
      ≡ written_part platform (part_of state acceptance) keys memory
unfolding store part_of
part_of-store platform state keys memory true = refl
part_of-store platform state keys memory false = refl

or_true : (c : Bool) → (c || true) ≡ true
or_true true = refl
or_true false = refl

or_keep : (a b c d : Bool) → (b ≡ true → c ≡ true) → (a && b || d) ≡ true → (a && c || d) ≡ true
or_keep false b c d f h = h
or_keep true true c d f h = rw (f refl) refl
or_keep true false c d f h = rw h (or_true c)

or_right : (a b c : Bool) → (b ≡ true → c ≡ true) → (a || b) ≡ true → (a || c) ≡ true
or_right true b c f h = refl
or_right false b c f h = f h

module _ (name : String) (new : Entry) (held : List String) (id : String) where
  -- Writing an entry over one of the same keys, with at least its silenced keys, loses none.
  part_silences-insert :
      (part : Part)
      → ((old : Entry)
          → lookup name part ≡ some old
          → (old.entry_keys ≡ new.entry_keys)
            × (contains id old.entry_memory.silenced ≡ true
                → contains id new.entry_memory.silenced ≡ true))
      → part_silences held id part ≡ true
      → part_silences held id (insert name new part) ≡ true
  unfolding insert lookup
  part_silences-insert [] keep h = absurd (cc)
  part_silences-insert ((j, w) ∷ part) keep h = elim (Bool-cases (name == j)) [
    | inl same ↦
        let (k, g) = keep w (rw same refl) in
        rw (same, ← k)
          (or_keep (shares held w.entry_keys) (contains id w.entry_memory.silenced)
            (contains id new.entry_memory.silenced) (part_silences held id part) g h)
    | inr other ↦ rw other (
        or_right (shares held w.entry_keys && contains id w.entry_memory.silenced)
          (part_silences held id part) (part_silences held id (insert name new part))
          (part_silences-insert part (λ old e. keep old (rw other e))) h)
  ]

  -- The entry that was written is consulted by every reader that shares a key with it.
  part_silences-inserted :
      (part : Part)
      → shares held new.entry_keys ≡ true
      → contains id new.entry_memory.silenced ≡ true
      → part_silences held id (insert name new part) ≡ true
  unfolding insert
  part_silences-inserted [] sh h = rw (sh, h) refl
  part_silences-inserted ((j, w) ∷ part) sh h = elim (Bool-cases (name == j)) [
    | inl same ↦ rw (same, sh, h) refl
    | inr other ↦ rw other (ground (arith, part_silences-inserted part sh h))
  ]

part_silences-lookup :
    (name : String) (old : Entry) (held : List String) (id : String) (part : Part)
    → lookup name part ≡ some old
    → shares held old.entry_keys ≡ true
    → contains id old.entry_memory.silenced ≡ true
    → part_silences held id part ≡ true
unfolding lookup
part_silences-lookup name old held id [] e sh h = absurd (cc)
part_silences-lookup name old held id ((j, w) ∷ part) e sh h = elim (Bool-cases (name == j)) [
  | inl same ↦ let f : w ≡ old = some-injective _ _ (rw same at e) in rw (f, sh, h) refl
  | inr other ↦
      or_right (shares held w.entry_keys && contains id w.entry_memory.silenced) true
        (part_silences held id part)
        (λ _. part_silences-lookup name old held id part (rw other at e) sh h) (or_true _)
]

shares_of :
    (a : String) (held ids : List String)
    → contains a held ≡ true
    → contains a ids ≡ true
    → shares held ids ≡ true
unfolding shares
shares_of a held [] h k = absurd (cc)
shares_of a held (id ∷ ids) h k = elim (Bool-cases (a == id)) [
  | inl same ↦ rw (← eq_of_test a id same, h) refl
  | inr other ↦
      or_right (contains id held) true (shares held ids)
        (λ _. shares_of a held ids h (rw other at k)) (or_true _)
]

shares_self :
    (a : String) (ids : List String)
    → contains a ids ≡ true
    → shares ids (sort_by text_le ids) ≡ true
shares_self a ids h = shares_of a ids (sort_by text_le ids) h (contains-sort_by text_le a ids ∙ h)

module _ (platform : Platform) (state : State) (keys : List Key) (acceptance : Bool) where
  -- What an own entry silenced, the memory that is judged with has silenced.
  own_entry-silenced :
      (old : Entry) (a id : String)
      → IsOwn platform keys (part_of state acceptance)
      → contains a (key_ids keys) ≡ true
      → lookup (fingerprint platform keys) (part_of state acceptance) ≡ some old
      → contains id old.entry_memory.silenced ≡ true
      → contains id (memory_for state keys acceptance).silenced ≡ true
  own_entry-silenced old a id own held e q = rw memory_for-silenced (
      part_silences-lookup (fingerprint platform keys) old (key_ids keys) id
        (part_of state acceptance) e (rw (own old e) (shares_self a (key_ids keys) held)) q)

  -- What the state silenced for any reader of a lineage stays silenced for that reader when
  -- another one, whatever its key set, stores what it accepted, provided that the entry under its key
  -- set's fingerprint, if there is one, was written for those keys.
  pub store-keeps_silenced :
      (index : Index) (key : Key) (memory : Memory) (reader : List Key) (id : String)
      → IsOwn platform keys (part_of state acceptance)
      → contains key.key_id (key_ids keys) ≡ true
      → judge index key keys (memory_for state keys acceptance) ≡ ok memory
      → contains id (memory_for state reader acceptance).silenced ≡ true
      → contains id
          (memory_for (store platform state keys memory acceptance) reader acceptance).silenced
        ≡ true
  unfolding written_part written_entry
  store-keeps_silenced index key memory reader id own held j h =
      rw (memory_for-silenced, part_of-store)
        (part_silences-insert (fingerprint platform keys) _ (key_ids reader) id
          (part_of state acceptance)
          (λ old e. (
            own old e,
            λ q.
                History-silenced id (later start (take_in index key keys j))
                  (own_entry-silenced old key.key_id id own held e q),
          ))
          (rw memory_for-silenced at h))

  -- A reader that shares a key with the one that stored learns every key that it has silenced.
  pub store-teaches_silenced :
      (memory : Memory) (reader : List Key) (id : String)
      → shares (key_ids reader) (sort_by text_le (key_ids keys)) ≡ true
      → contains id memory.silenced ≡ true
      → contains id
          (memory_for (store platform state keys memory acceptance) reader acceptance).silenced
        ≡ true
  unfolding written_part written_entry
  store-teaches_silenced memory reader id sh h =
      rw (memory_for-silenced, part_of-store)
        (part_silences-inserted (fingerprint platform keys) _ (key_ids reader) id
          (part_of state acceptance) sh h)
