-- ===== src/Tests.antt =====
-- The data of the tests: two keys, an index with one release, its signature file, and a platform
-- that reads these and nothing else. The witnesses stand in the modules below this one.
pub mod Signing
pub mod Rule
pub mod Stored
pub mod Kept
pub mod Keypress
pub mod Dispatch
pub mod Sound
pub mod KeySets
pub mod Standby
pub mod Updating
pub mod Logged
pub mod Topics
pub mod Reconnect
use enigma2_mqtt_bridge.Common.{
  ℕ, Bool, false, Option, none, some, List, [], ◌∷◌, ◌++◌, String, ◌==◌, if◌then◌else◌,
}
use enigma2_mqtt_bridge.Common.Int.{pos}
use enigma2_mqtt_bridge.Json.{
  Value, Items, nil, cons, Members, end, member, null, bool, int, str, arr, obj,
}
use enigma2_mqtt_bridge.Ed25519.{Bytes}
use enigma2_mqtt_bridge.Trust.Platform.{Platform}
use enigma2_mqtt_bridge.Trust.Keys.{Key, bytes_eq}

abbrev pub zeros : Bytes
zeros =
    0 ∷ 0 ∷ 0 ∷ 0 ∷ 0 ∷ 0 ∷ 0 ∷ 0 ∷ 0 ∷ 0 ∷ 0 ∷ 0 ∷ 0 ∷ 0 ∷ 0 ∷ 0 ∷ 0 ∷ 0 ∷ 0 ∷ 0 ∷ 0 ∷ 0 ∷ 0 ∷ 0
    ∷ 0 ∷ 0 ∷ 0 ∷ 0 ∷ 0 ∷ 0 ∷ 0 ∷ []

-- The neutral point, and the base point.
abbrev pub neutral_bytes : Bytes
neutral_bytes = 1 ∷ zeros

abbrev pub base_bytes : Bytes
base_bytes =
    88 ∷ 102 ∷ 102 ∷ 102 ∷ 102 ∷ 102 ∷ 102 ∷ 102 ∷ 102 ∷ 102 ∷ 102 ∷ 102 ∷ 102 ∷ 102 ∷ 102 ∷ 102
    ∷ 102 ∷ 102 ∷ 102 ∷ 102 ∷ 102 ∷ 102 ∷ 102 ∷ 102 ∷ 102 ∷ 102 ∷ 102 ∷ 102 ∷ 102 ∷ 102 ∷ 102 ∷ 102
    ∷ []

-- With a hash of 0, the neutral point and the response 0 sign every message for every key.
abbrev pub easy_signature : Bytes
easy_signature = neutral_bytes ++ (0 ∷ zeros)

abbrev pub low_key : Key
low_key = record { key_id = "00000000000000aa"; key_rank = 1; public = base_bytes; baseline = 10 }

abbrev pub high_key : Key
high_key = record {
  key_id = "00000000000000bb";
  key_rank = 2;
  public = neutral_bytes;
  baseline = 10;
}

abbrev pub both_keys : List Key
both_keys = low_key ∷ high_key ∷ []

abbrev pub hash_text : String
hash_text = "0123456789abcdef0123456789abcdef0123456789abcdef0123456789abcdef"

abbrev release_value : Value
release_value = obj (
    member "version" (str "1.2.0") (
      member "filename" (str "enigma2-plugin-extensions-mqttbridge_1.2.0_all.ipk") (
        member "size" (int (pos 1000)) (
          member "sha256" (str hash_text) (
            member "commit" (str "0123456789abcdef0123456789abcdef01234567") (
              member "commit_time" (int (pos 1700000000)) (
                member "contract" (int (pos 1)) (
                  member "min_integration" null (
                    member "depends" (arr nil)
                      (member "self_update" (bool false) (member "withdrawn" null end)))))))))))

abbrev index_value : Value
index_value = obj (
    member "schema" (int (pos 1)) (
      member "package" (str "enigma2-plugin-extensions-mqttbridge") (
        member "serial" (int (pos 11)) (
          member "issued" (int (pos 1700000000)) (
            member "key_id" (str "00000000000000bb") (
              member "floor" (str "1.0.0")
                (member "releases" (arr (cons release_value nil)) end)))))))

abbrev signature_value : Value
signature_value = obj (
    member "algorithm" (str "ed25519")
      (member "key_id" (str "00000000000000bb") (member "signature" (str "c2ln") end)))

-- The bytes of the two files, and of the trust file once it was written.
abbrev pub index_bytes : Bytes
index_bytes = 73 ∷ []

abbrev pub signature_file_bytes : Bytes
signature_file_bytes = 83 ∷ []

-- The trust file before and after the index is kept.
abbrev pub older_name : String
older_name = "fedcba9876543210fedcba9876543210fedcba9876543210fedcba9876543210"

abbrev older_entry : Value
older_entry = obj (
    member "keys" (arr (cons (str "00000000000000aa") nil)) (
      member "serials" (obj end) (member "silenced" (arr (cons (str "00000000000000cc") nil)) end)))

-- What the reader of both keys wrote when it accepted the serial 10.
abbrev own_entry : Value
own_entry = obj (
    member "keys" (arr (cons (str "00000000000000aa") (cons (str "00000000000000bb") nil))) (
      member "serials" (obj (member "00000000000000bb" (int (pos 10)) end))
        (member "silenced" (arr nil) end)))

abbrev newer_entry : Value
newer_entry = obj (
    member "keys" (arr (cons (str "00000000000000aa") (cons (str "00000000000000bb") nil))) (
      member "serials" (obj (member "00000000000000bb" (int (pos 11)) end)) (
        member "silenced" (arr (cons (str "00000000000000aa") (cons (str "00000000000000cc") nil)))
          end)))

abbrev pub held_value : Value
held_value = obj (
    member "release"
      (obj (
        member "index" (str "c2ln")
          (member "sig" (str "c2ln") (member "source" (str "relay") end))))
      end)

abbrev older_value : Value
older_value = obj (
    member "acceptance" (obj end) (
      member "release" (obj (member hash_text own_entry (member older_name older_entry end)))
        (member "schema" (int (pos 1)) end)))

abbrev newer_value : Value
newer_value = obj (
    member "acceptance" (obj end) (
      member "held" held_value (
        member "release" (obj (member hash_text newer_entry (member older_name older_entry end)))
          (member "schema" (int (pos 1)) end))))

abbrev pub older_bytes : Bytes
older_bytes = 79 ∷ []

abbrev pub newer_bytes : Bytes
newer_bytes = 78 ∷ []

toy_loads : Bytes → Option Value
toy_loads raw =
    if raw == index_bytes
    then some index_value
    else if raw == signature_file_bytes
    then some signature_value
    else if raw == older_bytes
    then some older_value
    else if raw == newer_bytes
    then some newer_value
    else none

unfoldable pub toy : Platform
unfolding toy_loads bytes_eq
toy = record {
  sha256_hex = λ raw. hash_text;
  sha512 = λ raw. [];
  b64encode = λ raw. "c2ln";
  b64decode = λ spelled. some easy_signature;
  loads = toy_loads;
}
