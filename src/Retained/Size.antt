-- ===== src/Retained/Size.antt =====
-- The quick test of `_oversize` never changes its answer.
use enigma2_mqtt_bridge.Common.{
  ℕ, ◌+◌, ◌*◌, ◌≤◌, ◌≡◌, List, [], ◌∷◌, length, ltb, if◌then◌else◌, arith,
}
use enigma2_mqtt_bridge.Retained.{
  max_packet_bytes, packet_overhead_bytes, character_bytes, utf8_length, over_bound, oversize,
}

character_bytes-le : (c : ℕ) → character_bytes c ≤ 4
character_bytes-le c = ground arith

utf8_length-le : (text : List ℕ) → utf8_length text ≤ length text * 4
utf8_length-le [] = omega arith
utf8_length-le (c ∷ text) = omega (arith, utf8_length-le text, character_bytes-le c)

-- Without the quick test that spares the encoding of a short text, the answer is the same: the bytes of the
-- topic and the payload in UTF-8 and of the packet around them, where they are over the bound, and
-- else 0.
pub oversize-exact :
    (topic payload : List ℕ)
    → let size = packet_overhead_bytes + utf8_length topic + utf8_length payload in
      oversize topic payload ≡ (if ltb max_packet_bytes size then size else 0)
unfolding oversize over_bound
oversize-exact topic payload = ground (arith, utf8_length-le topic, utf8_length-le payload)
