-- ===== src/Ed25519/Roots.antt =====
-- `_recover_x` and `decode_point`: what they return, and that a point has one spelling.
use native.Mathlib.Nat.{mod-lt, mod-eq_of_lt, pow-suc}
use enigma2_mqtt_bridge.Common.{
  ℕ, zero, suc, ◌+◌, ◌-◌, ◌*◌, ◌/◌, ◌%◌, ◌^◌, ◌<◌, ◌≡◌, ◌≢◌, refl, sym, ◌∙◌, inl, inr, false, not,
  none, some, [], ◌∷◌, arith, leb, eqb, if◌then◌else◌, length, Bool-cases, not-leb→lt, eqb→eq,
  Option-cases, All,
}
use mathlib.Core.Path.{subst}
use mathlib.Core.Option.{some-injective, none-ne-some}
use enigma2_mqtt_bridge.Ed25519.Residues.{mod-square_complement}
use enigma2_mqtt_bridge.Ed25519.{
  Bytes, Point, prime, sub_mod, pow_mod_fuel, pow_mod, corrected, square_of_x, signed_root, root_of,
  recover_x, from_bytes, point_at, decode_point,
}

pub sub_mod-eq_zero : (a b : ℕ) → sub_mod a b ≡ 0 → a % prime ≡ b % prime
sub_mod-eq_zero a b h = omega arith

pow_mod_fuel-lt-prime : (fuel b e : ℕ) → pow_mod_fuel fuel b e < prime
unfolding pow_mod_fuel
pow_mod_fuel-lt-prime zero b e = omega arith
pow_mod_fuel-lt-prime (suc fuel) b e = ground (
  arith,
  pow_mod_fuel-lt-prime fuel (b * b % prime) (e / 2),
  mod-lt (b * pow_mod_fuel fuel (b * b % prime) (e / 2)) {m = prime} (omega arith),
)

pow_mod-lt-prime : (b e : ℕ) → pow_mod b e < prime
unfolding pow_mod
pow_mod-lt-prime b e = pow_mod_fuel-lt-prime 256 b e

corrected-lt-prime : (x2 x : ℕ) → x < prime → corrected x2 x < prime
unfolding corrected
corrected-lt-prime x2 x h = ground arith

-- What `_recover_x` promises of the root it returns.
pub record IsRoot (x2 sign x : ℕ) : Type 0 where
  pub below : x < prime
  pub parity : x % 2 ≡ sign
  pub square : x * x % prime ≡ x2 % prime

root-pos : (x2 x : ℕ) → x2 % prime ≢ 0 → x * x % prime ≡ x2 % prime → 0 < x
root-pos x2 zero ne sq = absurd (ne (sym sq))
root-pos x2 (suc x) ne sq = omega arith

chosen-IsRoot :
    (x2 sign x : ℕ)
    → x < prime
    → sign < 2
    → x2 % prime ≢ 0
    → x * x % prime ≡ x2 % prime
    → IsRoot x2 sign (if not (eqb (x % 2) sign) then prime - x else x)
chosen-IsRoot x2 sign x lt s ne sq = elim (Bool-cases (eqb (x % 2) sign)) [
  | inl same ↦ rw same (record { below = lt; parity = ground arith; square = sq })
  | inr other ↦
      let pos : 0 < x = root-pos x2 x ne sq in
      rw other (record {
        below = omega arith;
        parity = ground arith;
        square = mod-square_complement prime x (omega arith) ∙ sq;
      })
]

signed_root-IsRoot :
    (x2 sign c x : ℕ)
    → c < prime
    → sign < 2
    → x2 % prime ≢ 0
    → signed_root x2 sign c ≡ some x
    → IsRoot x2 sign x
unfolding signed_root
signed_root-IsRoot x2 sign c x lt s ne h = elim (Bool-cases (eqb (sub_mod (c * c) x2) 0)) [
  | inl found ↦
      let k : some (if not (eqb (c % 2) sign) then prime - c else c) ≡ some x = rw found at h in
      subst (IsRoot x2 sign) (some-injective _ _ k)
        (chosen-IsRoot x2 sign c lt s ne (sub_mod-eq_zero (c * c) x2 (ground arith)))
  | inr lost ↦ absurd (none-ne-some x (rw lost at h))
]

root_of-IsRoot :
    (x2 sign x : ℕ) → sign < 2 → x2 % prime ≢ 0 → root_of x2 sign ≡ some x → IsRoot x2 sign x
unfolding root_of
root_of-IsRoot x2 sign x s ne h =
    let c : ℕ = pow_mod x2 ((prime + 3) / 8) in
    signed_root-IsRoot x2 sign (corrected x2 c) x
      (corrected-lt-prime x2 c (pow_mod-lt-prime x2 ((prime + 3) / 8))) s ne h

square_of_x-lt-prime : (y : ℕ) → square_of_x y < prime
unfolding square_of_x
square_of_x-lt-prime y = mod-lt _ (omega arith)

square-nonzero : (x2 : ℕ) → x2 < prime → eqb x2 0 ≡ false → x2 % prime ≢ 0
square-nonzero x2 lt h = rw (mod-eq_of_lt lt) (ground arith)

zero-IsRoot :
    (x2 sign x : ℕ) → x2 ≡ 0 → (if eqb sign 0 then some 0 else none) ≡ some x → IsRoot x2 sign x
zero-IsRoot x2 sign x z h =
    let e : x ≡ 0 = ground arith in
    let f : sign ≡ 0 = ground arith in
    rw (e, f, z) (record { below = omega arith; parity = refl; square = refl })

-- A recovered `x` is a canonical root: `y` and `x` are below the prime, `x` has the sign that was
-- asked for, and its square is the one that the curve gives for `y`.
pub recover_x-IsRoot :
    (y sign x : ℕ)
    → sign < 2
    → recover_x y sign ≡ some x
    → (y < prime) × IsRoot (square_of_x y) sign x
unfolding recover_x
recover_x-IsRoot y sign x s h = elim (Bool-cases (leb prime y)) [
  | inl big ↦ absurd (none-ne-some x (rw big at h))
  | inr small ↦ elim (Bool-cases (eqb (square_of_x y) 0)) [
    | inl zero_square ↦ (
      not-leb→lt _ _ small,
      zero-IsRoot (square_of_x y) sign x (eqb→eq _ _ zero_square) (rw (small, zero_square) at h),
    )
    | inr nonzero ↦ (
      not-leb→lt _ _ small,
      root_of-IsRoot (square_of_x y) sign x s
          (square-nonzero (square_of_x y) (square_of_x-lt-prime y) nonzero)
          (rw (small, nonzero) at h),
    )
  ]
]

pub from_bytes-injective :
    (xs ys : Bytes)
    → All (λ b. b < 256) xs
    → All (λ b. b < 256) ys
    → length xs ≡ length ys
    → from_bytes xs ≡ from_bytes ys
    → xs ≡ ys
unfolding from_bytes
from_bytes-injective [] [] bx by l h = refl
from_bytes-injective [] (y ∷ ys) bx by l h = absurd (omega arith)
from_bytes-injective (x ∷ xs) [] bx by l h = absurd (omega arith)
from_bytes-injective (x ∷ xs) (y ∷ ys) bx by l h =
    cc (lemma_head, from_bytes-injective xs ys bx.1 by.1 (omega arith) (omega arith))
  where
    lemma_head : x ≡ y
    lemma_head = omega arith

from_bytes-lt : (xs : Bytes) → All (λ b. b < 256) xs → from_bytes xs < 256 ^ length xs
unfolding from_bytes
from_bytes-lt [] b = omega arith
from_bytes-lt (x ∷ xs) b = rw pow-suc (omega (arith, from_bytes-lt xs b.1))

same_number : (m n : ℕ) → m % 2 ^ 255 ≡ n % 2 ^ 255 → m / 2 ^ 255 ≡ n / 2 ^ 255 → m ≡ n
same_number m n low high = omega arith

-- What `decode_point` promises of the point at a `y` and a sign.
pub record IsDecoded (y sign : ℕ) (p : Point) : Type 0 where
  pub ordinate : p.py ≡ y
  pub ordinate_below : y < prime
  pub root : IsRoot (square_of_x y) sign p.px
  pub affine : p.pz ≡ 1
  pub product : p.pt ≡ p.px * p.py % prime

point_at-IsDecoded :
    (y sign : ℕ) (p : Point) → sign < 2 → point_at y sign ≡ some p → IsDecoded y sign p
unfolding point_at
point_at-IsDecoded y sign p s h = elim (Option-cases (recover_x y sign)) [
  | inl lost ↦ absurd (none-ne-some p (rw (lost, point_at) at h))
  | inr (x, e) ↦
      let r : (y < prime) × IsRoot (square_of_x y) sign x = recover_x-IsRoot y sign x s e in
      subst (IsDecoded y sign) (some-injective _ _ (rw (e, point_at) at h)) (record {
        ordinate = refl;
        ordinate_below = r.0;
        root = r.1;
        affine = refl;
        product = refl;
      })
]

-- A decoded point is canonical: 32 bytes spell its `y`, which is below the prime, and the sign
-- of its `x`, which is a square root of what the curve gives for that `y`.
pub decode_point-IsDecoded :
    (encoded : Bytes) (p : Point)
    → All (λ b. b < 256) encoded
    → decode_point encoded ≡ some p
    → (length encoded ≡ 32)
      × IsDecoded (from_bytes encoded % 2 ^ 255) (from_bytes encoded / 2 ^ 255) p
unfolding decode_point
decode_point-IsDecoded encoded p bytes h = elim (Bool-cases (eqb (length encoded) 32)) [
  | inr other ↦ absurd (none-ne-some p (rw other at h))
  | inl size ↦
      let e : length encoded ≡ 32 = eqb→eq _ _ size in
      let big : from_bytes encoded < 256 ^ 32 = rw e at (from_bytes-lt encoded bytes) in
      (e, point_at-IsDecoded _ _ p (omega arith) (rw size at h))
]

-- A point has exactly one spelling: two encodings that decode to the same point are the same.
pub decode_point-injective :
    (one two : Bytes) (p : Point)
    → All (λ b. b < 256) one
    → All (λ b. b < 256) two
    → decode_point one ≡ some p
    → decode_point two ≡ some p
    → one ≡ two
decode_point-injective one two p b1 b2 h1 h2 =
    let (l1, d1) = decode_point-IsDecoded one p b1 h1 in
    let (l2, d2) = decode_point-IsDecoded two p b2 h2 in
    from_bytes-injective one two b1 b2 (l1 ∙ sym l2) (
      same_number (from_bytes one) (from_bytes two) (sym d1.ordinate ∙ d2.ordinate)
        (sym d1.root.parity ∙ d2.root.parity))
