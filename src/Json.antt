-- ===== src/Json.antt =====
-- JSON values as Python's `json.loads` gives them, with the pairs of an object in the order in
-- which they were written. The parser itself is a parameter of what uses it.
use enigma2_mqtt_bridge.Common.{
  ℕ, Bool, true, false, not, ◌&&◌, Option, none, some, List, [], ◌∷◌, String, string_eq, contains,
}
use enigma2_mqtt_bridge.Common.Int.{ℤ, pos}
use enigma2_mqtt_bridge.Common.Dict.{Dict, insert}

-- A number with a fraction or an exponent is kept by its spelling; nothing here computes with one.
-- `constant` is `NaN`, `Infinity` or `-Infinity`, which Python's parser takes unless it is told not to.
mutual
  pub data Value : Type 0 where
    null : Value
    bool : Bool → Value
    int : ℤ → Value
    float : String → Value
    constant : String → Value
    str : String → Value
    arr : Items → Value
    obj : Members → Value

  pub data Items : Type 0 where
    nil : Items
    cons : Value → Items → Items

  pub data Members : Type 0 where
    end : Members
    member : String → Value → Members → Members

abbrev pub items : Items → List Value
items nil = []
items (cons v vs) = v ∷ items vs

abbrev pub pairs : Members → Dict String Value
pairs end = []
pairs (member k v ms) = (k, v) ∷ pairs ms

-- `dict(pairs)`: the last of two equal names wins, at the place of the first.
unfoldable pub dict_from : Dict String Value → Dict String Value → Dict String Value
unfolding insert
dict_from [] d = d
dict_from ((k, v) ∷ ms) d = dict_from ms (insert k v d)

unfoldable pub members : Members → Dict String Value
unfolding dict_from
members ms = dict_from (pairs ms) []

abbrev names : Members → List String
names end = []
names (member k v ms) = k ∷ names ms

-- No object in the value, at any depth, names a member twice, and no constant stands in it.
unfoldable mutual
  pub is_strict : Value → Bool
  is_strict (arr vs) = items_strict vs
  is_strict (obj ms) = members_strict ms
  is_strict null = true
  is_strict (bool b) = true
  is_strict (int n) = true
  is_strict (float s) = true
  is_strict (constant s) = false
  is_strict (str s) = true

  items_strict : Items → Bool
  items_strict nil = true
  items_strict (cons v vs) = is_strict v && items_strict vs

  members_strict : Members → Bool
  members_strict end = true
  members_strict (member k v ms) = not (contains k (names ms)) && (is_strict v && members_strict ms)

-- `isinstance(value, int) and not isinstance(value, bool)`, for the whole numbers from 0 on, which
-- are all that a caller accepts.
abbrev pub whole : Value → Option ℕ
whole (int (pos n)) = some n
whole _ = none

abbrev pub text : Value → Option String
text (str s) = some s
text _ = none

abbrev pub as_list : Value → Option (List Value)
as_list (arr vs) = some (items vs)
as_list _ = none

unfoldable pub as_dict : Value → Option (Dict String Value)
unfolding members
as_dict (obj ms) = some (members ms)
as_dict _ = none
