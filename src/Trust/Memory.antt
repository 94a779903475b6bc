-- ===== src/Trust/Memory.antt =====
-- A reader's memory: `check_memory`, `rank_floor` and `remember` of src/MQTTBridge/trust.py.
-- A memory that passed `check_memory` is a `Memory`; its members that no reader knows are not kept,
-- since nothing reads them.
use enigma2_mqtt_bridge.Common.{
  ℕ, Option, none, some, List, [], ◌∷◌, ◌++◌, String, string_eq, leb, ltb, max, if◌then◌else◌,
}
use enigma2_mqtt_bridge.Common.Result.{Result, ok, ◌>>=◌, ◌>>◌, guard, or_raise}
use enigma2_mqtt_bridge.Common.Dict.{Dict, lookup, insert, has_key}
use enigma2_mqtt_bridge.Common.Sorting.{sorted_set}
use enigma2_mqtt_bridge.Json.{Value, whole, text, as_dict, as_list}
use enigma2_mqtt_bridge.Trust.Format.{is_key_id}
use enigma2_mqtt_bridge.Trust.Keys.{Key}

-- The exception `BadMemory`.
pub data BadMemory : Type 0 where
  bad_memory : BadMemory

pub record Memory : Type 0 where
  pub serials : Dict String ℕ
  pub silenced : List String

unfoldable pub empty_memory : Memory
empty_memory = record { serials = []; silenced = [] }

-- `serials` maps key ids to whole numbers from 1 on.
checked_serials : Dict String Value → Result BadMemory (Dict String ℕ)
checked_serials [] = ok []
checked_serials ((id, value) ∷ rest) = do
  guard (is_key_id id) bad_memory
  serial ← or_raise (whole value) bad_memory
  guard (leb 1 serial) bad_memory
  serials ← checked_serials rest
  ok ((id, serial) ∷ serials)

-- A list of key ids.
unfoldable pub checked_ids : List Value → Result BadMemory (List String)
checked_ids [] = ok []
checked_ids (value ∷ rest) = do
  id ← or_raise (text value) bad_memory
  guard (is_key_id id) bad_memory
  ids ← checked_ids rest
  ok (id ∷ ids)

-- The two members of a memory, wherever they stand.
unfoldable pub check_members : Dict String Value → Result BadMemory Memory
unfolding checked_serials checked_ids
check_members fields = do
  serials_value ← or_raise (lookup "serials" fields) bad_memory
  silenced_value ← or_raise (lookup "silenced" fields) bad_memory
  pairs ← or_raise (as_dict serials_value) bad_memory
  serials ← checked_serials pairs
  ids ← or_raise (as_list silenced_value) bad_memory
  silenced ← checked_ids ids
  ok (record { serials = serials; silenced = silenced })

-- `None` is a reader that has accepted nothing.
unfoldable pub check_memory : Option Value → Result BadMemory Memory
unfolding check_members empty_memory
check_memory none = ok empty_memory
check_memory (some value) = do fields ← or_raise (as_dict value) bad_memory; check_members fields

-- `rank_floor`: 0 where no key of the set was accepted.
unfoldable pub rank_floor : List Key → Memory → ℕ
rank_floor [] memory = 0
rank_floor (key ∷ keys) memory =
    let rest : ℕ = rank_floor keys memory in
    if has_key key.key_id memory.serials then max key.key_rank rest else rest

-- The ids of the keys ranked below `rank`.
unfoldable pub ranked_below : ℕ → List Key → List String
ranked_below rank [] = []
ranked_below rank (other ∷ keys) =
    let rest : List String = ranked_below rank keys in
    if ltb other.key_rank rank then other.key_id ∷ rest else rest

unfoldable pub remember : Memory → Key → ℕ → List Key → Memory
unfolding ranked_below
remember memory key serial keys = record {
  serials = insert key.key_id serial memory.serials;
  silenced = sorted_set (memory.silenced ++ ranked_below key.key_rank keys);
}
