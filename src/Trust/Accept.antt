-- ===== src/Trust/Accept.antt =====
-- The rule for a signed index: `authenticate`, `judge` and `accept` of src/MQTTBridge/trust.py.
use enigma2_mqtt_bridge.Common.{
  ℕ, ◌+◌, false, ◌&&◌, Option, none, some, List, ◌==◌, string_eq, contains, leb, ltb, length,
  if◌then◌else◌,
}
use enigma2_mqtt_bridge.Common.Result.{Result, ok, err, ◌>>=◌, ◌>>◌, guard, or_raise}
use enigma2_mqtt_bridge.Common.Dict.{lookup}
use enigma2_mqtt_bridge.Ed25519.{Bytes, verify}
use enigma2_mqtt_bridge.Trust.Platform.{Platform}
use enigma2_mqtt_bridge.Trust.Keys.{
  Reason, too_large, unknown_key, bad_signature, key_mismatch, rank, replay, jump, first_sight, Key,
  by_id,
}
use enigma2_mqtt_bridge.Trust.Memory.{Memory, rank_floor, remember}
use enigma2_mqtt_bridge.Trust.Index.{Index, max_index_bytes, parse_signature, parse_index}

abbrev pub max_jump : ℕ
max_jump = 1000

pub record Authentic : Type 0 where
  pub index : Index
  pub key : Key

unfoldable pub authenticate : Platform → Bytes → Bytes → List Key → Result Reason Authentic
authenticate platform index_raw signature_raw keys = do
  guard (leb (length index_raw) max_index_bytes) too_large
  signed ← parse_signature platform signature_raw
  key ← or_raise (by_id keys signed.signer_id) unknown_key
  guard (verify platform.sha512 key.public index_raw signed.signature) bad_signature
  index ← parse_index platform index_raw false
  guard (index.index_key == key.key_id) key_mismatch
  ok (record { index = index; key = key })

-- The serial's test: against the last accepted one of the key, or against the key's baseline.
unfoldable pub check_serial : ℕ → Option ℕ → ℕ → Result Reason (Unit {0})
check_serial baseline none serial =
    guard (leb baseline serial && leb serial (baseline + max_jump)) first_sight
check_serial baseline (some stored) serial =
    if leb serial stored
    then err replay
    else if ltb (stored + max_jump) serial
    then err jump
    else ok tt

unfoldable pub judge : Index → Key → List Key → Memory → Result Reason Memory
unfolding check_serial
judge index key keys memory =
    if contains key.key_id memory.silenced
    then err rank
    else if ltb key.key_rank (rank_floor keys memory)
    then err rank
    else (check_serial key.baseline (lookup key.key_id memory.serials) index.serial
        >> ok (remember memory key index.serial keys))

pub record Accepted : Type 0 where
  pub accepted : Authentic
  pub memory : Memory

unfoldable pub accept : Platform → Bytes → Bytes → List Key → Memory → Result Reason Accepted
unfolding authenticate judge
accept platform index_raw signature_raw keys memory = do
  found ← authenticate platform index_raw signature_raw keys
  next ← judge found.index found.key keys memory
  ok (record { accepted = found; memory = next })
