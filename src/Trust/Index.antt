-- ===== src/Trust/Index.antt =====
-- The signature file and the index: `parse_signature` and `parse_index` of src/MQTTBridge/trust.py.
-- All refusals of an index's members have one reason, so they are read first and then judged.
pub mod Checked
use Prim.Native.String.{◌++◌ as ◌<>◌}
use enigma2_mqtt_bridge.Common.{
  ℕ, Bool, true, false, not, ◌&&◌, ◌||◌, ◌*◌, Option, none, some, List, [], ◌∷◌, map, String, ◌==◌,
  string_eq, contains, leb, ltb, eqb, length, all,
}
use enigma2_mqtt_bridge.Common.Result.{Result, ok, ◌>>=◌, ◌>>◌, guard, or_raise}
use enigma2_mqtt_bridge.Common.Dict.{Dict, lookup, has_key, keys}
use enigma2_mqtt_bridge.Json.{Value, null, bool, str, is_strict, whole, text, as_dict, as_list}
use enigma2_mqtt_bridge.Trust.Release.{
  Release, package_name, member_of, check_releases, only_members, release_is_known,
}
use enigma2_mqtt_bridge.Ed25519.{Bytes, signature_bytes}
use enigma2_mqtt_bridge.Trust.Platform.{Platform}
use enigma2_mqtt_bridge.Trust.Format.{
  is_key_id, is_hex_of, is_version, version_key, is_dependency, is_blank,
}
use enigma2_mqtt_bridge.Trust.Keys.{
  Reason, too_large, malformed_signature, malformed_index, distinct,
}

abbrev pub max_index_bytes : ℕ
max_index_bytes = 64 * 1024

abbrev pub max_signature_bytes : ℕ
max_signature_bytes = 1024

abbrev pub index_schema : ℕ
index_schema = 1

-- `_json`: strict JSON, or a refusal with `reason`.
unfoldable pub read_json : Platform → Bytes → Reason → Result Reason Value
read_json platform raw reason = do
  value ← or_raise (platform.loads raw) reason
  guard (is_strict value) reason
  ok value

pub record Signature : Type 0 where
  pub signer_id : String
  pub signature : Bytes

unfoldable pub parse_signature : Platform → Bytes → Result Reason Signature
unfolding read_json
parse_signature platform raw = do
  guard (leb (length raw) max_signature_bytes) too_large
  value ← read_json platform raw malformed_signature
  fields ← or_raise (as_dict value) malformed_signature
  algorithm ← or_raise (lookup "algorithm" fields) malformed_signature
  name ← or_raise (text algorithm) malformed_signature
  guard (name == "ed25519") malformed_signature
  wanted_value ← or_raise (lookup "key_id" fields) malformed_signature
  wanted ← or_raise (text wanted_value) malformed_signature
  guard (is_key_id wanted) malformed_signature
  encoded_value ← or_raise (lookup "signature" fields) malformed_signature
  encoded ← or_raise (text encoded_value) malformed_signature
  bytes ← or_raise (platform.b64decode encoded) malformed_signature
  guard (eqb (length bytes) signature_bytes) malformed_signature
  ok (record { signer_id = wanted; signature = bytes })

pub record Index : Type 0 where
  pub serial : ℕ
  pub issued : ℕ
  pub index_key : String
  pub floor : String
  pub releases : List Release

abbrev pub versions : List Release → List String
versions = map (λ r. r.version)

abbrev top_members : List String
top_members = "schema" ∷ "package" ∷ "serial" ∷ "issued" ∷ "key_id" ∷ "floor" ∷ "releases" ∷ []

-- Python compares tuples from the left.
unfoldable pub tuple_le : List ℕ → List ℕ → Bool
tuple_le [] ys = true
tuple_le (x ∷ xs) [] = false
tuple_le (x ∷ xs) (y ∷ ys) = ltb x y || eqb x y && tuple_le xs ys

-- Each version is not above the one before it.
newest_first : List String → Bool
unfolding tuple_le
newest_first [] = true
newest_first (v ∷ []) = true
newest_first (v ∷ (w ∷ vs)) = tuple_le (version_key w) (version_key v) && newest_first (w ∷ vs)

-- The members at the top, before they are judged.
pub record Header : Type 0 where
  pub header_schema : ℕ
  pub header_package : String
  pub header_index : Index
  pub header_listed : List Value

-- The tests that `parse_index` makes of the members at the top.
pub is_header : Header → Bool
is_header h =
    eqb h.header_schema index_schema
    && h.header_package == package_name
    && leb 1 h.header_index.serial
    && is_key_id h.header_index.index_key
    && is_version h.header_index.floor
    && distinct (versions h.header_index.releases)

-- What a tool asks beside that: no unknown member, and the newest release first.
is_strict_index : Dict String Value → Header → Bool
unfolding release_is_known newest_first
is_strict_index fields h =
    only_members top_members fields
    && all release_is_known h.header_listed
    && newest_first (versions h.header_index.releases)

pub read_header : Dict String Value → Result Reason Header
unfolding member_of check_releases
read_header fields = do
  schema ← member_of whole "schema" fields
  named ← member_of text "package" fields
  serial ← member_of whole "serial" fields
  issued ← member_of whole "issued" fields
  id ← member_of text "key_id" fields
  floor ← member_of text "floor" fields
  listed ← member_of as_list "releases" fields
  releases ← check_releases listed
  ok (record {
    header_schema = schema;
    header_package = named;
    header_index = record {
      serial = serial;
      issued = issued;
      index_key = id;
      floor = floor;
      releases = releases;
    };
    header_listed = listed;
  })

unfoldable pub parse_index : Platform → Bytes → Bool → Result Reason Index
unfolding read_json read_header is_header is_strict_index
parse_index platform raw strict = do
  guard (leb (length raw) max_index_bytes) too_large
  value ← read_json platform raw malformed_index
  fields ← or_raise (as_dict value) malformed_index
  header ← read_header fields
  guard (is_header header) malformed_index
  guard (not strict || is_strict_index fields header) malformed_index
  ok header.header_index
