-- ===== src/Trust/Keys.antt =====
-- Key sets: `check_keys`, `keys_from_data`, `fingerprint`, `by_id`, `refuse_release_keys` and
-- `configured` of src/MQTTBridge/trust.py.
pub mod Separate
pub mod Checked
use Prim.Native.String
use enigma2_mqtt_bridge.Common.{
  ℕ, Bool, true, false, not, ◌&&◌, ◌||◌, Option, none, some, List, [], ◌∷◌, ◌++◌, map, String, ◌==◌,
  string_eq, nat_eq, Eq, ℕ_discrete, contains, leb, eqb, length, any, if◌then◌else◌,
}
use mathlib.Core.List.{flat_map}
use enigma2_mqtt_bridge.Common.{option_eq}
use enigma2_mqtt_bridge.Common.Result.{Result, ok, err, ◌>>=◌, ◌>>◌, guard, or_raise}
use enigma2_mqtt_bridge.Common.Text.{codes, decimal}
use enigma2_mqtt_bridge.Common.Dict.{Dict, lookup}
use enigma2_mqtt_bridge.Common.Sorting.{sort_by, text_le}
use enigma2_mqtt_bridge.Json.{Value, whole, text, as_dict}
use enigma2_mqtt_bridge.Ed25519.{Bytes, decode_point, public_key_bytes}
use enigma2_mqtt_bridge.Trust.Platform.{Platform}

-- `REASONS`
pub data Reason : Type 0 where
  too_large malformed_signature unknown_key bad_signature malformed_index : Reason
  key_mismatch rank replay jump first_sight : Reason

pub record Key : Type 0 where
  pub key_id : String
  pub key_rank : ℕ
  pub public : Bytes
  pub baseline : ℕ

-- A key as it is handed in, before its fields are checked.
pub record RawKey : Type 0 where
  pub raw_id : Value
  pub raw_rank : Value
  pub raw_public : Bytes
  pub raw_baseline : Value

bytes_dec : Discrete Bytes
unfolding ℕ_discrete
bytes_dec = hlevel ℕ_discrete

instance unfoldable pub bytes_eq : Eq Bytes
unfolding bytes_dec
bytes_eq = record { dec = bytes_dec }

abbrev pub by_rank : Key → Key → Bool
by_rank a b = leb a.key_rank b.key_rank

abbrev pub by_key_id : Key → Key → Bool
by_key_id a b = text_le a.key_id b.key_id

abbrev pub key_ids : List Key → List String
key_ids = map (λ key. key.key_id)

abbrev pub key_ranks : List Key → List ℕ
key_ranks = map (λ key. key.key_rank)

-- `len(set(xs)) == len(xs)`
abbrev pub distinct {ℓ} : {A : Type ℓ} ⦃e : Eq A⦄ → List A → Bool
distinct [] = true
distinct (x ∷ xs) = not (contains x xs) && distinct xs

-- `by_id`: the first key of that id.
unfoldable pub by_id : List Key → String → Option Key
by_id [] wanted = none
by_id (key ∷ keys) wanted = if key.key_id == wanted then some key else by_id keys wanted

-- `main_key`: the first key of the lowest rank.
lower_of : Key → Option Key → Key
lower_of key none = key
lower_of key (some other) = if leb key.key_rank other.key_rank then key else other

unfoldable pub main_key : List Key → Option Key
unfolding lower_of
main_key [] = none
main_key (key ∷ keys) = some (lower_of key (main_key keys))

module _ (platform : Platform) where
  -- `key_id(public)`
  unfoldable pub derived_id : Bytes → String
  derived_id public = String.slice (platform.sha256_hex public) 0 16

  -- One key's checks. Every refusal of a key set has the same reason.
  unfoldable pub check_key : RawKey → Result Reason Key
  unfolding derived_id
  check_key raw = do
    guard (eqb (length raw.raw_public) public_key_bytes) malformed_index
    _ ← or_raise (decode_point raw.raw_public) malformed_index
    id ← or_raise (text raw.raw_id) malformed_index
    guard (id == derived_id raw.raw_public) malformed_index
    r ← or_raise (whole raw.raw_rank) malformed_index
    guard (leb 1 r) malformed_index
    b ← or_raise (whole raw.raw_baseline) malformed_index
    ok (record { key_id = id; key_rank = r; public = raw.raw_public; baseline = b })

  check_each : List RawKey → Result Reason (List Key)
  unfolding check_key
  check_each [] = ok []
  check_each (raw ∷ raws) = do key ← check_key raw; keys ← check_each raws; ok (key ∷ keys)

  -- `check_keys`: the set ordered by rank.
  unfoldable pub check_keys : List RawKey → Result Reason (List Key)
  unfolding check_each
  check_keys raws = do
    guard (not (eqb (length raws) 0)) malformed_index
    keys ← check_each raws
    guard (distinct (key_ids keys)) malformed_index
    guard (distinct (key_ranks keys)) malformed_index
    ok (sort_by by_rank keys)

  raw_key_from : Dict String Value → Result Reason RawKey
  raw_key_from item = do
    id ← or_raise (lookup "key_id" item) malformed_index
    r ← or_raise (lookup "rank" item) malformed_index
    encoded ← or_raise (lookup "public" item) malformed_index
    spelled ← or_raise (text encoded) malformed_index
    public ← or_raise (platform.b64decode spelled) malformed_index
    b ← or_raise (lookup "baseline" item) malformed_index
    ok (record { raw_id = id; raw_rank = r; raw_public = public; raw_baseline = b })

  raw_keys_from : List Value → Result Reason (List RawKey)
  unfolding raw_key_from
  raw_keys_from [] = ok []
  raw_keys_from (item ∷ items) = do
    fields ← or_raise (as_dict item) malformed_index
    raw ← raw_key_from fields
    raws ← raw_keys_from items
    ok (raw ∷ raws)

  unfoldable pub keys_from_data : List Value → Result Reason (List Key)
  unfolding raw_keys_from
  keys_from_data items = do raws ← raw_keys_from items; check_keys raws

  -- One line of the fingerprint, in ASCII.
  fingerprint_line : Key → Bytes
  fingerprint_line key =
      codes key.key_id
      ++ (b' ' ∷ decimal key.key_rank)
      ++ (b' ' ∷ codes (platform.b64encode key.public))
      ++ (b'\n' ∷ [])

  unfoldable pub fingerprint : List Key → String
  unfolding fingerprint_line
  fingerprint keys = platform.sha256_hex (flat_map fingerprint_line (sort_by by_key_id keys))

-- `MAIN` and `SPARE`, `public` decoded.
abbrev pub main_release_key : Key
main_release_key = record {
  key_id = "5de3b24c97e88660";
  key_rank = 1;
  public =
      223 ∷ 211 ∷ 93 ∷ 159 ∷ 203 ∷ 192 ∷ 145 ∷ 229 ∷ 128 ∷ 133 ∷ 130 ∷ 24 ∷ 90 ∷ 243 ∷ 110 ∷ 109
      ∷ 236 ∷ 202 ∷ 184 ∷ 94 ∷ 69 ∷ 255 ∷ 150 ∷ 152 ∷ 228 ∷ 77 ∷ 110 ∷ 163 ∷ 232 ∷ 82 ∷ 158 ∷ 164
      ∷ [];
  baseline = 0;
}

abbrev pub spare_release_key : Key
spare_release_key = record {
  key_id = "c72fd83e3e514a25";
  key_rank = 2;
  public =
      212 ∷ 93 ∷ 154 ∷ 142 ∷ 27 ∷ 3 ∷ 161 ∷ 59 ∷ 170 ∷ 0 ∷ 103 ∷ 85 ∷ 217 ∷ 3 ∷ 135 ∷ 117 ∷ 25 ∷ 124
      ∷ 133 ∷ 94 ∷ 1 ∷ 210 ∷ 67 ∷ 68 ∷ 211 ∷ 28 ∷ 21 ∷ 26 ∷ 186 ∷ 71 ∷ 117 ∷ 251 ∷ [];
  baseline = 0;
}

-- `EMBEDDED`
abbrev pub embedded : List Key
embedded = main_release_key ∷ spare_release_key ∷ []

-- The two exceptions of `configured`.
pub data KeySetError : Type 0 where
  refused : Reason → KeySetError
  overlapping_keys : KeySetError

pub is_release_key : Key → Bool
is_release_key key =
    contains key.key_id (key_ids embedded)
    || contains key.public (map (λ release. release.public) embedded)

unfoldable pub refuse_release_keys : List Key → Result KeySetError (List Key)
unfolding is_release_key
refuse_release_keys keys = if any is_release_key keys then err overlapping_keys else ok keys

-- `ORIGIN`
abbrev pub release_origin : String
release_origin = "https://deltasystems-pl.github.io/enigma2-mqtt-bridge/feed/"

-- `buildid.LOADED_OVERRIDES`: the origin and the key set that an acceptance build may carry.
pub record Overrides : Type 0 where
  pub override_origin : Option String
  pub index_keys : Option (List Value)

pub record Configured : Type 0 where
  pub origin : String
  pub keys : List Key
  pub acceptance : Bool

chosen_origin : Option String → String
chosen_origin none = release_origin
chosen_origin (some origin) = if origin == "" then release_origin else origin

-- The key set of an acceptance build.
acceptance_keys : Platform → Option (List Value) → Result KeySetError (List Key)
acceptance_keys platform none = ok embedded
acceptance_keys platform (some []) = ok embedded
acceptance_keys platform (some (item ∷ items)) = elim (keys_from_data platform (item ∷ items)) [
  | err reason ↦ err (refused reason)
  | ok keys ↦ refuse_release_keys keys
]

-- `overrides or {}`
carried : Option Overrides → Overrides
carried none = record { override_origin = none; index_keys = none }
carried (some overrides) = overrides

-- What an acceptance build uses.
acceptance_build : Platform → Overrides → Result KeySetError Configured
unfolding chosen_origin acceptance_keys
acceptance_build platform o = do
  keys ← acceptance_keys platform o.index_keys
  ok (record { origin = chosen_origin o.override_origin; keys = keys; acceptance = true })

-- `flavour` is that of `build`, none where there is no build identity.
unfoldable pub configured :
    Platform → Option String → Option Overrides → Result KeySetError Configured
unfolding acceptance_build carried
configured platform flavour overrides =
    if not (flavour == some "acceptance")
    then ok (record { origin = release_origin; keys = embedded; acceptance = false })
    else acceptance_build platform (carried overrides)
