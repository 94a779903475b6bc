-- ===== src/Trust/Release.antt =====
-- One release of the index: `_check_release` of src/MQTTBridge/trust.py. All its refusals have one
-- reason, so the members are read first and then judged.
use Prim.Native.String.{◌++◌ as ◌<>◌}
use enigma2_mqtt_bridge.Common.{
  ℕ, Bool, true, false, not, ◌&&◌, ◌*◌, Option, none, some, List, [], ◌∷◌, String, ◌==◌, string_eq,
  contains, leb, ltb, all,
}
use enigma2_mqtt_bridge.Common.Result.{Result, ok, ◌>>=◌, ◌>>◌, guard, or_raise}
use enigma2_mqtt_bridge.Common.Dict.{Dict, lookup, keys}
use enigma2_mqtt_bridge.Json.{Value, null, bool, str, whole, text, as_dict, as_list}
use enigma2_mqtt_bridge.Trust.Format.{is_hex_of, is_version, is_dependency, is_blank}
use enigma2_mqtt_bridge.Trust.Keys.{Reason, malformed_index}

abbrev pub max_package_bytes : ℕ
max_package_bytes = 8 * 1024 * 1024

abbrev pub package_name : String
package_name = "enigma2-plugin-extensions-mqttbridge"

pub record Release : Type 0 where
  pub version : String
  pub filename : String
  pub size : ℕ
  pub sha256 : String
  pub commit : String
  pub commit_time : ℕ
  pub contract : ℕ
  pub min_integration : Option String
  pub depends : List String
  pub self_update : Bool
  pub withdrawn : Option String

-- `None` or a text.
optional_text : Value → Option (Option String)
optional_text null = some none
optional_text (str s) = some (some s)
optional_text _ = none

truth : Value → Option Bool
truth (bool b) = some b
truth _ = none

texts : List Value → Option (List String)
texts [] = some []
texts (str s ∷ values) = elim (texts values) [ none ↦ none | some ts ↦ some (s ∷ ts) ]
texts (_ ∷ values) = none

unfoldable pub member_of :
    {A : Type 0} → (Value → Option A) → String → Dict String Value → Result Reason A
member_of read name fields = do
  value ← or_raise (lookup name fields) malformed_index
  or_raise (read value) malformed_index

pub read_release : Dict String Value → Result Reason Release
unfolding member_of optional_text truth texts
read_release fields = do
  v ← member_of text "version" fields
  f ← member_of text "filename" fields
  n ← member_of whole "size" fields
  h ← member_of text "sha256" fields
  c ← member_of text "commit" fields
  t ← member_of whole "commit_time" fields
  k ← member_of whole "contract" fields
  m ← member_of optional_text "min_integration" fields
  listed ← member_of as_list "depends" fields
  d ← or_raise (texts listed) malformed_index
  s ← member_of truth "self_update" fields
  w ← member_of optional_text "withdrawn" fields
  ok (record {
    version = v;
    filename = f;
    size = n;
    sha256 = h;
    commit = c;
    commit_time = t;
    contract = k;
    min_integration = m;
    depends = d;
    self_update = s;
    withdrawn = w;
  })

none_or : (String → Bool) → Option String → Bool
none_or test none = true
none_or test (some value) = test value

-- The tests that `_check_release` makes of the members.
unfoldable pub is_release : Release → Bool
unfolding none_or
is_release r =
    is_version r.version
    && r.filename == (package_name <> ("_" <> (r.version <> "_all.ipk")))
    && ltb 0 r.size
    && leb r.size max_package_bytes
    && is_hex_of 64 r.sha256
    && is_hex_of 40 r.commit
    && ltb 0 r.commit_time
    && none_or is_version r.min_integration
    && all is_dependency r.depends
    && none_or (λ reason. not (is_blank reason)) r.withdrawn

unfoldable pub check_release : Value → Result Reason Release
unfolding read_release is_release
check_release value = do
  fields ← or_raise (as_dict value) malformed_index
  release ← read_release fields
  guard (is_release release) malformed_index
  ok release

unfoldable pub check_releases : List Value → Result Reason (List Release)
unfolding check_release
check_releases [] = ok []
check_releases (value ∷ values) = do
  release ← check_release value
  releases ← check_releases values
  ok (release ∷ releases)

abbrev pub only_members : List String → Dict String Value → Bool
only_members known fields = all (λ name. contains name known) (keys fields)

abbrev release_members : List String
release_members =
    "version" ∷ "filename" ∷ "size" ∷ "sha256" ∷ "commit" ∷ "commit_time" ∷ "contract"
    ∷ "min_integration" ∷ "depends" ∷ "self_update" ∷ "withdrawn" ∷ []

unfoldable pub release_is_known : Value → Bool
release_is_known value = elim (as_dict value) [
  | none ↦ false
  | some fields ↦ only_members release_members fields
]
