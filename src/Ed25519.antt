-- ===== src/Ed25519.antt =====
-- Ed25519 verification, src/MQTTBridge/ed25519.py. A Python integer that may be negative is taken
-- to its remainder at once: the code's own `% P` then gives the same value. SHA-512 is the argument
-- `sha512` of `verify`.
pub mod Residues
pub mod Roots
pub mod Strict
use enigma2_mqtt_bridge.Common.{
  ℕ, zero, suc, ◌+◌, ◌-◌, ◌*◌, ◌/◌, ◌%◌, ◌^◌, Bool, true, false, not, ◌&&◌, ◌||◌, Option, none,
  some, List, [], ◌∷◌, ◌++◌, length, take, drop, ltb, leb, eqb, if◌then◌else◌,
}

abbrev pub Bytes : Type 0
Bytes = List ℕ

-- The field prime and the order of the base point.
abbrev pub prime : ℕ
prime = 2 ^ 255 - 19

abbrev pub order : ℕ
order = 2 ^ 252 + 27742317777372353535851937790883648493

abbrev pub public_key_bytes : ℕ
public_key_bytes = 32

abbrev pub signature_bytes : ℕ
signature_bytes = 64

-- `(a - b) % P`
abbrev pub sub_mod : ℕ → ℕ → ℕ
sub_mod a b = (a % prime + (prime - b % prime)) % prime

-- Python's `pow(b, e, P)`, by repeated squaring over at most `fuel` binary digits of `e`.
pow_mod_fuel : ℕ → ℕ → ℕ → ℕ
pow_mod_fuel zero b e = 1
pow_mod_fuel (suc fuel) b e =
    let rest = pow_mod_fuel fuel (b * b % prime) (e / 2) in
    if eqb (e % 2) 1 then b * rest % prime else rest

pub pow_mod : ℕ → ℕ → ℕ
unfolding pow_mod_fuel
pow_mod b e = pow_mod_fuel 256 b e

pub curve_d : ℕ
unfolding pow_mod
curve_d = (prime - 121665) * pow_mod 121666 (prime - 2) % prime

pub sqrt_m1 : ℕ
unfolding pow_mod
sqrt_m1 = pow_mod 2 ((prime - 1) / 4)

-- Points are (X, Y, Z, T) with x = X/Z, y = Y/Z and x*y = T/Z.
pub record Point : Type 0 where
  pub px : ℕ
  pub py : ℕ
  pub pz : ℕ
  pub pt : ℕ

abbrev pub identity : Point
identity = record { px = 0; py = 1; pz = 1; pt = 0 }

pub add : Point → Point → Point
unfolding curve_d
add one two =
    let a : ℕ = sub_mod one.py one.px * sub_mod two.py two.px % prime in
    let b : ℕ = (one.py + one.px) * (two.py + two.px) % prime in
    let c : ℕ = 2 * one.pt * two.pt * curve_d % prime in
    let d : ℕ = 2 * one.pz * two.pz % prime in
    let e : ℕ = sub_mod b a in
    let f : ℕ = sub_mod d c in
    let g : ℕ = d + c in
    let h : ℕ = b + a in
    record { px = e * f % prime; py = g * h % prime; pz = f * g % prime; pt = e * h % prime }

-- The loop of `_multiply`; `fuel` bounds the binary digits of the scalar.
pub multiply_loop : ℕ → ℕ → Point → Point → Point
multiply_loop zero scalar point result = result
multiply_loop (suc fuel) scalar point result = elim (ltb 0 scalar) [
  | false ↦ result
  | true ↦
      multiply_loop fuel (scalar / 2) (add point point)
        (if eqb (scalar % 2) 1 then add result point else result)
]

pub multiply : ℕ → Point → Point
unfolding multiply_loop add
multiply scalar point = multiply_loop 256 scalar point identity

pub equal : Point → Point → Bool
equal one two =
    if not (eqb (sub_mod (one.px * two.pz) (two.px * one.pz)) 0)
    then false
    else eqb (sub_mod (one.py * two.pz) (two.py * one.pz)) 0

-- The candidate square root, corrected by a square root of -1 when that is needed.
corrected : ℕ → ℕ → ℕ
unfolding sqrt_m1
corrected x2 x = if not (eqb (sub_mod (x * x) x2) 0) then x * sqrt_m1 % prime else x

-- `x2`, the square that the point's `x` must have.
pub square_of_x : ℕ → ℕ
unfolding pow_mod curve_d
square_of_x y = sub_mod (y * y) 1 * pow_mod (curve_d * y * y + 1) (prime - 2) % prime

-- The root with the wanted sign, or none when the candidate is no root.
signed_root : ℕ → ℕ → ℕ → Option ℕ
signed_root x2 sign x =
    if not (eqb (sub_mod (x * x) x2) 0)
    then none
    else some (if not (eqb (x % 2) sign) then prime - x else x)

root_of : ℕ → ℕ → Option ℕ
unfolding corrected pow_mod signed_root
root_of x2 sign = signed_root x2 sign (corrected x2 (pow_mod x2 ((prime + 3) / 8)))

unfoldable pub recover_x : ℕ → ℕ → Option ℕ
unfolding root_of square_of_x
recover_x y sign =
    if leb prime y
    then none
    else (let x2 : ℕ = square_of_x y in
        if eqb x2 0 then (if eqb sign 0 then some 0 else none) else root_of x2 sign)

-- `int.from_bytes(encoded, "little")`
unfoldable pub from_bytes : Bytes → ℕ
from_bytes [] = 0
from_bytes (b ∷ bs) = b + 256 * from_bytes bs

point_at : ℕ → ℕ → Option Point
unfolding recover_x
point_at y sign = elim (recover_x y sign) [
  | none ↦ none
  | some x ↦ some (record { px = x; py = y; pz = 1; pt = x * y % prime })
]

unfoldable pub decode_point : Bytes → Option Point
unfolding point_at from_bytes
decode_point encoded =
    if not (eqb (length encoded) 32)
    then none
    else point_at (from_bytes encoded % 2 ^ 255) (from_bytes encoded / 2 ^ 255)

base_y : ℕ
unfolding pow_mod
base_y = 4 * pow_mod 5 (prime - 2) % prime

-- The module's `B`; `_B_X` is a number, since `_recover_x` finds one there (`base_point_known`).
pub base_point : Point
unfolding base_y recover_x
base_point =
    let x : ℕ = elim (recover_x base_y 0) [ none ↦ 0 | some x ↦ x ] in
    record { px = x; py = base_y; pz = 1; pt = x * base_y % prime }

-- The last lines of `verify`, for the decoded points, the response and the challenge.
unfoldable pub check_equation : Point → Point → ℕ → ℕ → Bool
unfolding multiply add equal base_point
check_equation a_point r_point s k =
    equal (multiply s base_point) (add r_point (multiply k a_point))

-- `verify` from the decoded points on.
verify_points : (Bytes → Bytes) → Bytes → Bytes → Bytes → Option Point → Option Point → Bool
verify_points sha512 public_key message signature (some a_point) (some r_point) =
    let s : ℕ = from_bytes (drop 32 signature) in
    if leb order s
    then false
    else check_equation a_point r_point s
        (from_bytes (sha512 (take 32 signature ++ (public_key ++ message))) % order)
verify_points sha512 public_key message signature _ _ = false

unfoldable pub verify : (Bytes → Bytes) → Bytes → Bytes → Bytes → Bool
unfolding verify_points
verify sha512 public_key message signature =
    if not (eqb (length public_key) public_key_bytes)
      || not (eqb (length signature) signature_bytes)
    then false
    else verify_points sha512 public_key message signature (decode_point public_key)
        (decode_point (take 32 signature))
