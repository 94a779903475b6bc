-- ===== src/Ed25519/Strict.antt =====
-- `verify`: what an accepted signature is, and that `_multiply` ends by its own test.
use mathlib.Core.Bool.{false≢true}
use native.Mathlib.Nat.{pow-suc}
use enigma2_mqtt_bridge.Common.{
  ℕ, zero, suc, ◌*◌, ◌/◌, ◌%◌, ◌^◌, ◌<◌, ◌≡◌, refl, sym, ◌∙◌, All, ◌∷◌, [], length-drop,
  take-append-drop, ◌↔◌, inl, inr, true, false, Option, some, ◌++◌, arith, ltb, leb, eqb, length,
  take, drop, Bool-cases, not-leb→lt, eqb→eq,
}
use enigma2_mqtt_bridge.Ed25519.Roots.{
  sub_mod-eq_zero, from_bytes-injective, IsDecoded, decode_point-IsDecoded,
}
use enigma2_mqtt_bridge.Ed25519.{
  Bytes, Point, order, from_bytes, decode_point, check_equation, verify_points, verify,
  multiply_loop, multiply, base_point, equal, sub_mod, prime, add,
}

lt→not-leb : (a b : ℕ) → b < a → leb a b ≡ false
lt→not-leb a b h = ground arith

half_lt : (f n : ℕ) → n < 2 ^ suc f → n / 2 < 2 ^ f
half_lt f n h = let e : n < 2 ^ f * 2 = rw pow-suc at h in omega arith

-- Two projective points are one affine point: x = X/Z and y = Y/Z, with the divisions multiplied out.
abbrev pub SamePoint : Point → Point → Type 0
SamePoint p q =
    ((p.px * q.pz) % prime ≡ (q.px * p.pz) % prime)
    × ((p.py * q.pz) % prime ≡ (q.py * p.pz) % prime)

sub_mod-of_eq : (a b : ℕ) → a % prime ≡ b % prime → sub_mod a b ≡ 0
sub_mod-of_eq a b h = omega arith

equal-SamePoint : (p q : Point) → equal p q ≡ true → SamePoint p q
unfolding equal
equal-SamePoint p q h = elim (Bool-cases (eqb (sub_mod (p.px * q.pz) (q.px * p.pz)) 0)) [
  | inr apart ↦ absurd (false≢true (rw apart at h))
  | inl same ↦
      (sub_mod-eq_zero _ _ (eqb→eq _ _ same), sub_mod-eq_zero _ _ (eqb→eq _ _ (rw same at h)))
]

SamePoint-equal : (p q : Point) → SamePoint p q → equal p q ≡ true
unfolding equal
SamePoint-equal p q (x, y) =
    rw (sub_mod-of_eq (p.px * q.pz) (q.px * p.pz) x, sub_mod-of_eq (p.py * q.pz) (q.py * p.pz) y)
      refl

All-take : (n : ℕ) (xs : Bytes) → All (λ b. b < 256) xs → All (λ b. b < 256) (take n xs)
All-take zero xs h = tt
All-take (suc n) [] h = tt
All-take (suc n) (x ∷ xs) h = (h.0, All-take n xs h.1)

All-drop : (n : ℕ) (xs : Bytes) → All (λ b. b < 256) xs → All (λ b. b < 256) (drop n xs)
All-drop zero xs h = h
All-drop (suc n) [] h = tt
All-drop (suc n) (x ∷ xs) h = All-drop n xs h.1

module _ (sha512 : Bytes → Bytes) where
  abbrev pub challenge : Bytes → Bytes → Bytes → ℕ
  challenge public_key message signature =
      from_bytes (sha512 (take 32 signature ++ (public_key ++ message))) % order

  -- An accepted signature: two halves of 32 bytes, the points that the key and the first half
  -- name, a response below the order, and the equation between them.
  pub record IsSigned (public_key message signature : Bytes) : Type 0 where
    pub key_size : length public_key ≡ 32
    pub size : length signature ≡ 64
    pub a_point : Point
    pub r_point : Point
    pub key_point : decode_point public_key ≡ some a_point
    pub first_half : decode_point (take 32 signature) ≡ some r_point
    pub response : from_bytes (drop 32 signature) < order
    pub equation :
        SamePoint
          (multiply (from_bytes (drop 32 signature)) base_point)
          (add r_point (multiply (challenge public_key message signature) a_point))

  verify_complete : (k m s : Bytes) → IsSigned k m s → verify sha512 k m s ≡ true
  unfolding verify check_equation
  verify_complete k m s h =
      rw (h.key_size, h.size, h.key_point, h.first_half, lt→not-leb _ _ h.response)
        (SamePoint-equal (multiply (from_bytes (drop 32 s)) base_point)
          (add h.r_point (multiply (challenge k m s) h.a_point)) h.equation)

  verify_points_sound :
      (k m s : Bytes) (a r : Option Point)
      → length k ≡ 32
      → length s ≡ 64
      → decode_point k ≡ a
      → decode_point (take 32 s) ≡ r
      → verify_points sha512 k m s a r ≡ true
      → IsSigned k m s
  unfolding verify_points check_equation
  verify_points_sound k m s (some a) (some r) lk ls ea er h =
      elim (Bool-cases (leb order (from_bytes (drop 32 s)))) [
        | inl big ↦ absurd (false≢true (rw big at h))
        | inr small ↦ record {
          key_size = lk;
          size = ls;
          a_point = a;
          r_point = r;
          key_point = ea;
          first_half = er;
          response = not-leb→lt _ _ small;
          equation =
              equal-SamePoint (multiply (from_bytes (drop 32 s)) base_point)
                (add r (multiply (challenge k m s) a)) (rw small at h);
        }
      ]
  verify_points_sound k m s _ _ lk ls ea er h = absurd (false≢true h)

  verify_sound : (k m s : Bytes) → verify sha512 k m s ≡ true → IsSigned k m s
  unfolding verify
  verify_sound k m s h = elim (Bool-cases (eqb (length k) 32)) [
    | inr bad ↦ absurd (false≢true (rw bad at h))
    | inl size_k ↦ elim (Bool-cases (eqb (length s) 64)) [
      | inr bad ↦ absurd (false≢true (rw (size_k, bad) at h))
      | inl size_s ↦
          verify_points_sound k m s _ _ (eqb→eq _ _ size_k) (eqb→eq _ _ size_s) refl refl
            (rw (size_k, size_s) at h)
    ]
  ]

  pub verify-iff-IsSigned : (k m s : Bytes) → (verify sha512 k m s ≡ true) ↔ IsSigned k m s
  verify-iff-IsSigned k m s = (verify_sound k m s, verify_complete k m s)

  -- A signature by the strict rule: its two points are the ones that its bytes spell.
  pub record IsStrict (public_key message signature : Bytes) : Type 0 where
    pub signed : IsSigned public_key message signature
    pub key_spelled :
        IsDecoded (from_bytes public_key % 2 ^ 255) (from_bytes public_key / 2 ^ 255) signed.a_point
    pub half_spelled :
        IsDecoded
          (from_bytes (take 32 signature) % 2 ^ 255)
          (from_bytes (take 32 signature) / 2 ^ 255)
          signed.r_point

  IsStrict-of_signed :
      (k m s : Bytes)
      → All (λ b. b < 256) k
      → All (λ b. b < 256) s
      → IsSigned k m s
      → IsStrict k m s
  IsStrict-of_signed k m s k_bytes s_bytes h = record {
    signed = h;
    key_spelled = (decode_point-IsDecoded k h.a_point k_bytes h.key_point).1;
    half_spelled =
        (decode_point-IsDecoded (take 32 s) h.r_point (All-take 32 s s_bytes) h.first_half).1;
  }

  -- For bytes, `verify` accepts exactly the signatures of 64 bytes, under keys of 32, whose key and first
  -- half decode to points A and R, whose second half is a number S below the order, and for which
  -- S·B and R + H·A are one affine point, H being the hash of the first half, the key and the message,
  -- modulo the order. The points are those that the bytes spell: `y` is their lower 255 bits and below the
  -- prime, `x` is below the prime, has the parity that the top bit says, and its square is the one that
  -- belongs to `y`.
  pub verify-iff-IsStrict :
      (k m s : Bytes)
      → All (λ b. b < 256) k
      → All (λ b. b < 256) s
      → (verify sha512 k m s ≡ true) ↔ IsStrict k m s
  verify-iff-IsStrict k m s k_bytes s_bytes = (
    λ good. IsStrict-of_signed k m s k_bytes s_bytes (verify_sound k m s good),
    λ strict. verify_complete k m s strict.signed,
  )

  -- The response has one spelling: of the signatures of one message under one key with one first half
  -- whose responses are the same number modulo the order, `verify` accepts one at most.
  pub verify-not_malleable :
      (k m s t : Bytes)
      → All (λ b. b < 256) s
      → All (λ b. b < 256) t
      → verify sha512 k m s ≡ true
      → verify sha512 k m t ≡ true
      → take 32 s ≡ take 32 t
      → from_bytes (drop 32 s) % order ≡ from_bytes (drop 32 t) % order
      → s ≡ t
  verify-not_malleable k m s t s_bytes t_bytes s_good t_good first response =
      let one = verify_sound k m s s_good in
      let two = verify_sound k m t t_good in
      let low : from_bytes (drop 32 s) < order = one.response in
      let low' : from_bytes (drop 32 t) < order = two.response in
      let same : from_bytes (drop 32 s) ≡ from_bytes (drop 32 t) = omega arith in
      let second : drop 32 s ≡ drop 32 t =
        from_bytes-injective (drop 32 s) (drop 32 t) (All-drop 32 s s_bytes) (All-drop 32 t t_bytes)
          (rw (length-drop, length-drop, one.size, two.size) refl) same in
      sym (take-append-drop 32 s) ∙ rw (first, second) (take-append-drop 32 t)

-- The fuel of the loop bounds the digits of the scalar, and more fuel changes nothing.
pub multiply_loop-fuel :
    (f g scalar : ℕ) (point result : Point)
    → scalar < 2 ^ f
    → scalar < 2 ^ g
    → multiply_loop f scalar point result ≡ multiply_loop g scalar point result
unfolding multiply_loop
multiply_loop-fuel zero zero scalar point result hf hg = refl
multiply_loop-fuel zero (suc g) scalar point result hf hg = let e : scalar ≡ 0 = omega arith in rw e
multiply_loop-fuel (suc f) zero scalar point result hf hg = let e : scalar ≡ 0 = omega arith in rw e
multiply_loop-fuel (suc f) (suc g) scalar point result hf hg = elim (Bool-cases (ltb 0 scalar)) [
  | inr stop ↦ rw (stop, multiply_loop)
  | inl more ↦
      rw (more, multiply_loop)
        (multiply_loop-fuel f g (scalar / 2) (add point point) _ (half_lt f scalar hf)
          (half_lt g scalar hg))
]
