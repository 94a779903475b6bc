-- ===== src/Trust/Format.antt =====
-- The patterns of src/MQTTBridge/trust.py, each matched whole.
use enigma2_mqtt_bridge.Common.{
  ℕ, Bool, false, not, ◌&&◌, ◌||◌, List, [], ◌∷◌, ◌*◌, ◌+◌, ◌-◌, map, String, leb, eqb, length, all,
}
use enigma2_mqtt_bridge.Common.Text.{codes, is_digit, is_lower, is_hex, split_on}

-- `[0-9a-f]{n}`
unfoldable pub is_hex_of : ℕ → String → Bool
is_hex_of n value = eqb (length (codes value)) n && all is_hex (codes value)

unfoldable pub is_key_id : String → Bool
unfolding is_hex_of
is_key_id = is_hex_of 16

-- `0|[1-9][0-9]*`
unfoldable pub is_number : List ℕ → Bool
is_number [] = false
is_number (c ∷ []) = is_digit c
is_number (c ∷ cs) = is_digit c && not (eqb c b'0') && all is_digit cs

is_triple : List (List ℕ) → Bool
unfolding is_number
is_triple (a ∷ b ∷ c ∷ []) = is_number a && is_number b && is_number c
is_triple _ = false

-- `_VERSION`: three numbers with a dot between them.
unfoldable pub is_version : String → Bool
unfolding is_triple split_on
is_version value = is_triple (split_on b'.' (codes value))

-- `int(part)`
digits_value : ℕ → List ℕ → ℕ
digits_value acc [] = acc
digits_value acc (c ∷ cs) = digits_value (acc * 10 + (c - b'0')) cs

unfoldable pub version_key : String → List ℕ
unfolding digits_value split_on
version_key value = map (digits_value 0) (split_on b'.' (codes value))

-- `[a-z0-9][a-z0-9+.-]*`
is_name_start : ℕ → Bool
is_name_start c = is_lower c || is_digit c

is_name_part : ℕ → Bool
unfolding is_name_start
is_name_part c = is_name_start c || eqb c b'+' || eqb c b'.' || eqb c b'-'

is_name : List ℕ → Bool
unfolding is_name_start is_name_part
is_name [] = false
is_name (c ∷ cs) = is_name_start c && all is_name_part cs

unfoldable pub is_dependency : String → Bool
unfolding is_name
is_dependency value = is_name (codes value)

-- The characters that `str.strip` takes off.
is_space : ℕ → Bool
is_space c =
    leb 9 c && leb c 13
    || leb 28 c && leb c 32
    || eqb c 0x85
    || eqb c 0xa0
    || eqb c 0x1680
    || leb 0x2000 c && leb c 0x200a
    || eqb c 0x2028
    || eqb c 0x2029
    || eqb c 0x202f
    || eqb c 0x205f
    || eqb c 0x3000

-- `not value.strip()`
unfoldable pub is_blank : String → Bool
unfolding is_space
is_blank value = all is_space (codes value)
