-- ===== src/Trust/Platform.antt =====
-- What the index's readers take from Python's library: the hashes, base64 and the JSON parser.
use enigma2_mqtt_bridge.Common.{Option, String}
use enigma2_mqtt_bridge.Json.{Value}
use enigma2_mqtt_bridge.Ed25519.{Bytes}

pub record Platform : Type 0 where
  -- `hashlib.sha256(...).hexdigest()` and `hashlib.sha512(...).digest()`
  pub sha256_hex : Bytes → String
  pub sha512 : Bytes → Bytes
  -- `base64.b64encode(...).decode("ascii")` and `base64.b64decode(..., validate=True)`; none where it raises
  pub b64encode : Bytes → String
  pub b64decode : String → Option Bytes
  -- `json.loads(raw.decode("utf-8"))`; none where it raises
  pub loads : Bytes → Option Value
