-- ===== src/Common/Text.antt =====
-- Texts as code points, and the decimal notation of a number.
use Prim.Native.Char.{code}
use Prim.Native.String.{String}
use Prim.Native.Nat.{ℕ, zero, suc, ◌+◌, ◌/◌, ◌%◌}
use mathlib.Core.Bool.{Bool, ◌&&◌, ◌||◌}
use mathlib.Core.List.{List, [], ◌∷◌}
use enigma2_mqtt_bridge.Common.Tests.{ltb, leb, eqb}
use enigma2_mqtt_bridge.Common.Equality.{if◌then◌else◌}

-- The code points of a text: its bytes, if it is ASCII.
abbrev pub codes : String → List ℕ
codes String.[] = []
codes (String.◌∷◌ c s) = code c ∷ codes s

abbrev pub is_digit : ℕ → Bool
is_digit c = leb b'0' c && leb c b'9'

abbrev pub is_lower : ℕ → Bool
is_lower c = leb b'a' c && leb c b'z'

abbrev pub is_upper : ℕ → Bool
is_upper c = leb b'A' c && leb c b'Z'

-- `[0-9a-f]`
abbrev pub is_hex : ℕ → Bool
is_hex c = is_digit c || leb b'a' c && leb c b'f'

-- The digits of a number behind `acc`; `fuel` bounds their count, and `n` is below `10 ^ fuel`.
decimal_loop : ℕ → ℕ → List ℕ → List ℕ
decimal_loop zero n acc = acc
decimal_loop (suc fuel) n acc =
    let here = (b'0' + n % 10) ∷ acc in
    let rest = decimal_loop fuel (n / 10) here in if ltb n 10 then here else rest

-- `str(n)`, in ASCII
unfoldable pub decimal : ℕ → List ℕ
unfolding decimal_loop
decimal n = decimal_loop (suc n) n []

-- `text.split(separator)` on one character.
unfoldable pub split_on : ℕ → List ℕ → List (List ℕ)
split_on c [] = [] ∷ []
split_on c (x ∷ xs) =
    let rest = split_on c xs in
    if eqb x c then [] ∷ rest else elim rest [ [] ↦ (x ∷ []) ∷ [] | w ∷ ws ↦ (x ∷ w) ∷ ws ]
