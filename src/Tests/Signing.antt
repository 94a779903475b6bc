-- ===== src/Tests/Signing.antt =====
-- The signature's theorems at small inputs.
use enigma2_mqtt_bridge.Common.{◌≡◌, ◌<◌, ◌↔◌, refl, true, false, some, [], ◌∷◌, ◌++◌, arith}
use enigma2_mqtt_bridge.Ed25519.{
  Bytes, prime, identity, recover_x, check_equation, square_of_x, decode_point, verify,
}
use enigma2_mqtt_bridge.Ed25519.Roots.{IsRoot, recover_x-IsRoot, decode_point-injective}
use enigma2_mqtt_bridge.Ed25519.Strict.{IsStrict, verify-iff-IsStrict, verify-not_malleable}
use enigma2_mqtt_bridge.Tests.{neutral_bytes, base_bytes, easy_signature}

abbrev zero_hash : Bytes → Bytes
zero_hash raw = []

-- The response 0 raised by the order.
abbrev raised_signature : Bytes
raised_signature =
    neutral_bytes
    ++ (0xed ∷ 0xd3 ∷ 0xf5 ∷ 0x5c ∷ 0x1a ∷ 0x63 ∷ 0x12 ∷ 0x58 ∷ 0xd6 ∷ 0x9c ∷ 0xf7 ∷ 0xa2 ∷ 0xde
        ∷ 0xf9 ∷ 0xde ∷ 0x14 ∷ 0 ∷ 0 ∷ 0 ∷ 0 ∷ 0 ∷ 0 ∷ 0 ∷ 0 ∷ 0 ∷ 0 ∷ 0 ∷ 0 ∷ 0 ∷ 0 ∷ 0 ∷ 0x10
        ∷ [])

easy_verified : verify zero_hash base_bytes (1 ∷ []) easy_signature ≡ true
unfolding verify decode_point check_equation
easy_verified = refl

raised_refused : verify zero_hash base_bytes (1 ∷ []) raised_signature ≡ false
unfolding verify decode_point check_equation
raised_refused = refl

verify-not_malleable_example : easy_signature ≡ easy_signature
verify-not_malleable_example =
    verify-not_malleable zero_hash base_bytes (1 ∷ []) easy_signature easy_signature (ground arith)
      (ground arith) easy_verified easy_verified refl refl

verify-iff-IsStrict_example :
    (verify zero_hash base_bytes (1 ∷ []) easy_signature ≡ true)
    ↔ IsStrict zero_hash base_bytes (1 ∷ []) easy_signature
verify-iff-IsStrict_example =
    verify-iff-IsStrict zero_hash base_bytes (1 ∷ []) easy_signature (ground arith) (ground arith)

neutral_decoded : decode_point neutral_bytes ≡ some identity
unfolding decode_point
neutral_decoded = refl

decode_point-injective_example : neutral_bytes ≡ neutral_bytes
decode_point-injective_example =
    decode_point-injective neutral_bytes neutral_bytes identity (ground arith) (ground arith)
      neutral_decoded neutral_decoded

neutral_x : recover_x 1 0 ≡ some 0
unfolding recover_x
neutral_x = refl

recover_x-IsRoot_example : (1 < prime) × IsRoot (square_of_x 1) 0 0
recover_x-IsRoot_example = recover_x-IsRoot 1 0 0 (ground arith) neutral_x
