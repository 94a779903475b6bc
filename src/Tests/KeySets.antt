-- ===== src/Tests/KeySets.antt =====
-- The key sets' theorem at a small input.
use enigma2_mqtt_bridge.Common.{◌≡◌, refl, List, [], ◌∷◌, string_eq}
use enigma2_mqtt_bridge.Common.Result.{ok}
use enigma2_mqtt_bridge.Common.Sorting.{sort_by}
use enigma2_mqtt_bridge.Common.Int.{pos}
use enigma2_mqtt_bridge.Json.{str, int}
use enigma2_mqtt_bridge.Ed25519.{decode_point}
use enigma2_mqtt_bridge.Trust.Keys.{Key, RawKey, check_keys}
use enigma2_mqtt_bridge.Tests.{base_bytes, toy}

abbrev raw_keys : List RawKey
raw_keys =
    record {
      raw_id = str "0123456789abcdef";
      raw_rank = int (pos 3);
      raw_public = base_bytes;
      raw_baseline = int (pos 0);
    }
    ∷ []

abbrev one_key : List Key
one_key =
    record { key_id = "0123456789abcdef"; key_rank = 3; public = base_bytes; baseline = 0 } ∷ []

one_checked : check_keys toy raw_keys ≡ ok one_key
unfolding check_keys toy decode_point string_eq sort_by
one_checked = refl
