-- ===== src/Trust/State.antt =====
-- The stored state: `check_state`, `memory_for` and `store` of src/MQTTBridge/trust.py. Members that
-- this build does not know are kept as they are, in the state and in each entry.
pub mod Kept
pub mod Written
pub mod Serials
use enigma2_mqtt_bridge.Common.{
  ℕ, Bool, true, false, not, Option, none, some, List, [], ◌∷◌, ◌++◌, String, string_eq, contains,
  leb, eqb, length, any, max, if◌then◌else◌,
}
use enigma2_mqtt_bridge.Common.Result.{Result, ok, ◌>>=◌, ◌>>◌, guard, or_raise}
use enigma2_mqtt_bridge.Common.Dict.{Dict, lookup, insert, erase}
use enigma2_mqtt_bridge.Common.Sorting.{sorted_set, sort_by, text_le}
use enigma2_mqtt_bridge.Json.{Value, whole, as_dict, as_list}
use enigma2_mqtt_bridge.Trust.Platform.{Platform}
use enigma2_mqtt_bridge.Trust.Format.{is_hex_of}
use enigma2_mqtt_bridge.Trust.Keys.{Key, key_ids, fingerprint}
use enigma2_mqtt_bridge.Trust.Memory.{BadMemory, bad_memory, Memory, checked_ids, check_members}

pub record Entry : Type 0 where
  pub entry_keys : List String
  pub entry_memory : Memory
  pub entry_others : Dict String Value

abbrev pub Part : Type 0
Part = Dict String Entry

pub record State : Type 0 where
  pub schema : ℕ
  pub release : Part
  pub acceptance : Part
  pub others : Dict String Value

abbrev pub state_schema : ℕ
state_schema = 1

unfoldable pub empty_state : State
empty_state = record { schema = state_schema; release = []; acceptance = []; others = [] }

without : List String → Dict String Value → Dict String Value
without [] d = d
without (name ∷ names) d = without names (erase name d)

check_entry : Value → Result BadMemory Entry
unfolding without
check_entry value = do
  fields ← or_raise (as_dict value) bad_memory
  keys_value ← or_raise (lookup "keys" fields) bad_memory
  ids ← or_raise (as_list keys_value) bad_memory
  guard (not (eqb (length ids) 0)) bad_memory
  keys ← checked_ids ids
  memory ← check_members fields
  ok (record {
    entry_keys = keys;
    entry_memory = memory;
    entry_others = without ("keys" ∷ "serials" ∷ "silenced" ∷ []) fields;
  })

check_part : Dict String Value → Result BadMemory Part
unfolding check_entry
check_part [] = ok []
check_part ((name, value) ∷ rest) = do
  guard (is_hex_of 64 name) bad_memory
  entry ← check_entry value
  part ← check_part rest
  ok ((name, entry) ∷ part)

-- `None` is a reader that has never stored anything.
unfoldable pub check_state : Option Value → Result BadMemory State
unfolding check_part without empty_state
check_state none = ok empty_state
check_state (some value) = do
  fields ← or_raise (as_dict value) bad_memory
  schema_value ← or_raise (lookup "schema" fields) bad_memory
  release_value ← or_raise (lookup "release" fields) bad_memory
  acceptance_value ← or_raise (lookup "acceptance" fields) bad_memory
  schema ← or_raise (whole schema_value) bad_memory
  guard (leb 1 schema) bad_memory
  release_fields ← or_raise (as_dict release_value) bad_memory
  release ← check_part release_fields
  acceptance_fields ← or_raise (as_dict acceptance_value) bad_memory
  acceptance ← check_part acceptance_fields
  ok (record {
    schema = schema;
    release = release;
    acceptance = acceptance;
    others = without ("schema" ∷ "release" ∷ "acceptance" ∷ []) fields;
  })

-- `state[_lineage(acceptance)]`
unfoldable pub part_of : State → Bool → Part
part_of state true = state.acceptance
part_of state false = state.release

-- `held & set(ids)`
unfoldable pub shares : List String → List String → Bool
shares held ids = any (λ id. contains id held) ids

-- `max(serial, serials.get(id, 0))`
raised : ℕ → Option ℕ → ℕ
raised serial none = serial
raised serial (some old) = max serial old

-- The largest serial of each held key, entry by entry.
absorb_serials : List String → Dict String ℕ → Dict String ℕ → Dict String ℕ
unfolding raised
absorb_serials held [] serials = serials
absorb_serials held ((id, serial) ∷ rest) serials =
    absorb_serials held rest
      (if contains id held then insert id (raised serial (lookup id serials)) serials else serials)

absorb_entry : List String → Entry → Memory → Memory
unfolding absorb_serials shares
absorb_entry held entry memory =
    if shares held entry.entry_keys
    then record {
      serials = absorb_serials held entry.entry_memory.serials memory.serials;
      silenced = memory.silenced ++ entry.entry_memory.silenced;
    }
    else memory

absorb_part : List String → Part → Memory → Memory
unfolding absorb_entry
absorb_part held [] memory = memory
absorb_part held ((name, entry) ∷ part) memory =
    absorb_part held part (absorb_entry held entry memory)

sealed_memory : Memory → Memory
sealed_memory memory = record memory { silenced = sorted_set memory.silenced }

unfoldable pub memory_for : State → List Key → Bool → Memory
unfolding absorb_part sealed_memory part_of
memory_for state keys acceptance =
    sealed_memory (
      absorb_part (key_ids keys) (part_of state acceptance)
        (record { serials = []; silenced = [] }))

-- The entry that `store` writes over the one of the same fingerprint, if there is one.
pub written_entry : Option Entry → List Key → Memory → Entry
written_entry old keys memory = record {
  entry_keys = sort_by text_le (key_ids keys);
  entry_memory = memory;
  entry_others = elim old [ none ↦ [] | some entry ↦ entry.entry_others ];
}

pub written_part : Platform → Part → List Key → Memory → Part
unfolding written_entry
written_part platform part keys memory =
    let name : String = fingerprint platform keys in
    insert name (written_entry (lookup name part) keys memory) part

unfoldable pub store : Platform → State → List Key → Memory → Bool → State
unfolding written_part
store platform state keys memory true = record state {
  schema = max state.schema state_schema;
  acceptance = written_part platform state.acceptance keys memory;
}
store platform state keys memory false = record state {
  schema = max state.schema state_schema;
  release = written_part platform state.release keys memory;
}
