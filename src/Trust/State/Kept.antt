-- ===== src/Trust/State/Kept.antt =====
-- `memory_for` after `store`: nothing that was learned is lost, and the two lineages never meet.
use enigma2_mqtt_bridge.Common.{
  ℕ, max, ◌≡◌, refl, sym, ap, ◌∙◌, inl, inr, Bool, true, false, ◌&&◌, ◌||◌, Option, none, some,
  List, [], ◌∷◌, String, ◌==◌, string_eq, contains, if◌then◌else◌, arith, Bool-cases, eq_of_test,
}
use enigma2_mqtt_bridge.Common.Dict.{Dict, lookup, insert, lookup-insert, lookup-nil}
use enigma2_mqtt_bridge.Common.Sorting.{contains-append, contains-sorted_set}
use enigma2_mqtt_bridge.Trust.Keys.{Key, key_ids}
use enigma2_mqtt_bridge.Trust.Memory.{Memory}
use enigma2_mqtt_bridge.Trust.State.{
  Entry, Part, State, part_of, shares, raised, absorb_serials, absorb_entry, absorb_part,
  sealed_memory, memory_for,
}

-- The larger of two known numbers.
abbrev pub larger : Option ℕ → Option ℕ → Option ℕ
larger none o = o
larger (some a) none = some a
larger (some a) (some b) = some (max a b)

-- What a part says of one key, to a reader that holds the keys `held`.
abbrev pub part_silences : List String → String → Part → Bool
part_silences held id [] = false
part_silences held id ((name, entry) ∷ part) =
    shares held entry.entry_keys && contains id entry.entry_memory.silenced
    || part_silences held id part

abbrev pub largest : String → Dict String ℕ → Option ℕ
largest id [] = none
largest id ((j, s) ∷ d) = if id == j then larger (some s) (largest id d) else largest id d

abbrev pub part_serial : List String → String → Part → Option ℕ
part_serial held id [] = none
part_serial held id ((name, entry) ∷ part) =
    if shares held entry.entry_keys
    then larger (largest id entry.entry_memory.serials) (part_serial held id part)
    else part_serial held id part

larger-none : (o : Option ℕ) → larger o none ≡ o
larger-none none = refl
larger-none (some a) = refl

larger_assoc : (a b c : Option ℕ) → larger (larger a b) c ≡ larger a (larger b c)
larger_assoc none b c = refl
larger_assoc (some a) none c = refl
larger_assoc (some a) (some b) none = refl
larger_assoc (some a) (some b) (some c) = ap some (omega arith)

larger-raised :
    (s : ℕ) (o r : Option ℕ) → larger (some (raised s o)) r ≡ larger o (larger (some s) r)
unfolding raised
larger-raised s none r = refl
larger-raised s (some old) none = ap some (omega arith)
larger-raised s (some old) (some t) = ap some (omega arith)

absorb_serials-lookup :
    (held : List String) (id : String) (d acc : Dict String ℕ)
    → lookup id (absorb_serials held d acc)
      ≡ (if contains id held then larger (lookup id acc) (largest id d) else lookup id acc)
unfolding absorb_serials
absorb_serials-lookup held id [] acc = ground (arith, larger-none (lookup id acc))
absorb_serials-lookup held id ((j, s) ∷ d) acc = elim (Bool-cases (contains j held)) [
  | inr other ↦ rw other (absorb_serials-lookup held id d acc ∙ ground (arith, eq_of_test id j))
  | inl kept ↦ rw kept (
      rw (absorb_serials-lookup held id d (insert j (raised s (lookup j acc)) acc), lookup-insert)
        (elim (Bool-cases (id == j)) [
          | inr ne ↦ rw ne refl
          | inl same ↦
              let e : j ≡ id = sym (eq_of_test id j same) in
              let kept_id : contains id held ≡ true = rw e at kept in
              rw (same, kept_id, e) (larger-raised s (lookup id acc) (largest id d))
        ]))
]

or_shuffle : (a b c : Bool) → ((a || b) || c) ≡ (a || (b || c))
or_shuffle a b c = ground arith

absorb_entry-silenced :
    (held : List String) (id : String) (entry : Entry) (m : Memory)
    → contains id (absorb_entry held entry m).silenced ≡ (
        contains id m.silenced
        || shares held entry.entry_keys && contains id entry.entry_memory.silenced)
unfolding absorb_entry
absorb_entry-silenced held id entry m = elim (Bool-cases (shares held entry.entry_keys)) [
  | inl same ↦ rw same (contains-append id m.silenced entry.entry_memory.silenced)
  | inr apart ↦ rw apart (ground arith)
]

absorb_part-silenced :
    (held : List String) (id : String) (part : Part) (m : Memory)
    → contains id (absorb_part held part m).silenced
      ≡ (contains id m.silenced || part_silences held id part)
unfolding absorb_part
absorb_part-silenced held id [] m = ground arith
absorb_part-silenced held id ((name, entry) ∷ part) m =
    absorb_part-silenced held id part (absorb_entry held entry m)
    ∙ rw absorb_entry-silenced (
        or_shuffle (contains id m.silenced)
          (shares held entry.entry_keys && contains id entry.entry_memory.silenced)
          (part_silences held id part))

absorb_entry-serials :
    (held : List String) (id : String) (entry : Entry) (m : Memory)
    → lookup id (absorb_entry held entry m).serials ≡ (
        if shares held entry.entry_keys && contains id held
        then larger (lookup id m.serials) (largest id entry.entry_memory.serials)
        else lookup id m.serials)
unfolding absorb_entry
absorb_entry-serials held id entry m = elim (Bool-cases (shares held entry.entry_keys)) [
  | inl same ↦ rw same (absorb_serials-lookup held id entry.entry_memory.serials m.serials)
  | inr apart ↦ rw apart refl
]

absorb_part-serials :
    (held : List String) (id : String) (part : Part) (m : Memory)
    → lookup id (absorb_part held part m).serials ≡ (
        if contains id held
        then larger (lookup id m.serials) (part_serial held id part)
        else lookup id m.serials)
unfolding absorb_part
absorb_part-serials held id [] m = ground (arith, larger-none (lookup id m.serials))
absorb_part-serials held id ((name, entry) ∷ part) m =
    absorb_part-serials held id part (absorb_entry held entry m)
    ∙ rw absorb_entry-serials (
        ground (
          arith,
          larger_assoc (lookup id m.serials) (largest id entry.entry_memory.serials)
              (part_serial held id part),
        ))

-- What a reader judges with: every key that an entry sharing a key with its set has silenced, and
-- for each key that it holds the largest serial that such an entry has of it.
pub memory_for-silenced :
    (state : State) (keys : List Key) (acceptance : Bool) (id : String)
    → contains id (memory_for state keys acceptance).silenced
      ≡ part_silences (key_ids keys) id (part_of state acceptance)
unfolding memory_for sealed_memory
memory_for-silenced state keys acceptance id =
    contains-sorted_set id _ ∙ absorb_part-silenced (key_ids keys) id (part_of state acceptance) _

pub memory_for-serials :
    (state : State) (keys : List Key) (acceptance : Bool) (id : String)
    → lookup id (memory_for state keys acceptance).serials ≡ (
        if contains id (key_ids keys)
        then part_serial (key_ids keys) id (part_of state acceptance)
        else none)
unfolding memory_for sealed_memory
memory_for-serials state keys acceptance id =
    absorb_part-serials (key_ids keys) id (part_of state acceptance)
      (record { serials = []; silenced = [] })
    ∙ simp lookup-nil
