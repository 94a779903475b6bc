-- ===== src/Tests/Rule.antt =====
-- The rule's theorems at small inputs.
use mathlib.Core.List.{Memᴰ}
use enigma2_mqtt_bridge.Common.{
  ℕ, ◌+◌, ◌*◌, ◌≤◌, ◌≡◌, ◌≢◌, ◌⊎◌, ◌↔◌, refl, true, false, Option, none, some, [], ◌∷◌, String,
  string_eq, option_eq, ap, arith,
}
use enigma2_mqtt_bridge.Common.Dict.{lookup, insert, has_key}
use enigma2_mqtt_bridge.Common.Sorting.{sorted_set}
use enigma2_mqtt_bridge.Common.Result.{ok, ◌>>=◌, err}
use enigma2_mqtt_bridge.Json.{is_strict, as_dict}
use enigma2_mqtt_bridge.Ed25519.{verify, decode_point, check_equation}
use enigma2_mqtt_bridge.Trust.Format.{is_version, is_hex_of, is_key_id}
use enigma2_mqtt_bridge.Trust.Keys.{
  by_id, rank, replay, embedded, release_origin, Configured, configured,
}
use enigma2_mqtt_bridge.Trust.Keys.Separate.{IsSeparate, configured-separates}
use enigma2_mqtt_bridge.Trust.Memory.{Memory, rank_floor, remember, empty_memory}
use enigma2_mqtt_bridge.Trust.Release.{Release}
use enigma2_mqtt_bridge.Trust.Index.{Index, parse_signature, parse_index}
use enigma2_mqtt_bridge.Trust.Index.Checked.{IsWellFormed, parse_index-IsWellFormed}
use enigma2_mqtt_bridge.Trust.Accept.{max_jump, Authentic, authenticate, judge, accept}
use enigma2_mqtt_bridge.Trust.Rule.{IsAdmissible, judge-iff-IsAdmissible, Refusal, judge-Refusal}
use enigma2_mqtt_bridge.Trust.History.{
  take_in, History, start, later, judge-silenced_for_good, judge-outranked_for_good,
  judge-never_again, History-serial_bound,
}
use enigma2_mqtt_bridge.Trust.Authentic.{IsAuthentic, authenticate-IsAuthentic, accept_sound}
use enigma2_mqtt_bridge.Tests.{low_key, high_key, both_keys, index_bytes, signature_file_bytes, toy}

abbrev bare_index : ℕ → Index
bare_index serial = record {
  serial = serial;
  issued = 0;
  index_key = "00000000000000bb";
  floor = "1.0.0";
  releases = [];
}

-- The memory after the higher key's index 11.
abbrev after_high : Memory
after_high = record { serials = ("00000000000000bb", 11) ∷ []; silenced = "00000000000000aa" ∷ [] }

abbrev after_twelve : Memory
after_twelve = record {
  serials = ("00000000000000bb", 12) ∷ [];
  silenced = "00000000000000aa" ∷ [];
}

high_accepted : judge (bare_index 11) high_key both_keys empty_memory ≡ ok after_high
unfolding judge remember empty_memory string_eq rank_floor has_key insert lookup sorted_set
high_accepted = refl

twelve_accepted : judge (bare_index 12) high_key both_keys after_high ≡ ok after_twelve
unfolding judge remember string_eq rank_floor has_key insert lookup sorted_set
twelve_accepted = refl

replayed : judge (bare_index 11) high_key both_keys after_high ≡ err replay
unfolding judge remember string_eq rank_floor has_key insert lookup sorted_set
replayed = refl

abbrev next_run : History after_high after_twelve
next_run = later start (take_in (bare_index 12) high_key both_keys twelve_accepted)

abbrev whole_run : History empty_memory after_twelve
whole_run =
    later (later start (take_in (bare_index 11) high_key both_keys high_accepted))
      (take_in (bare_index 12) high_key both_keys twelve_accepted)

judge-iff-IsAdmissible_example :
    (judge (bare_index 11) high_key both_keys empty_memory ≡ ok after_high) ↔ (
      IsAdmissible (bare_index 11) high_key both_keys empty_memory
      × (after_high ≡ remember empty_memory high_key 11 both_keys))
judge-iff-IsAdmissible_example =
    judge-iff-IsAdmissible (bare_index 11) high_key both_keys empty_memory after_high

judge-Refusal_example : Refusal (bare_index 11) high_key both_keys after_high replay
judge-Refusal_example = judge-Refusal (bare_index 11) high_key both_keys after_high replay replayed

judge-silenced_for_good_example :
    judge (bare_index 50) low_key (low_key ∷ []) after_twelve ≡ err rank
unfolding string_eq
judge-silenced_for_good_example =
    judge-silenced_for_good {m = after_high} {n = after_twelve} (bare_index 50) low_key
      (low_key ∷ []) refl next_run

judge-outranked_for_good_example :
    judge (bare_index 50) low_key (low_key ∷ []) after_twelve ≡ err rank
judge-outranked_for_good_example =
    judge-outranked_for_good empty_memory after_high after_twelve (bare_index 11) (bare_index 50)
      high_key low_key both_keys (low_key ∷ []) high_accepted (Memᴰ.head refl) (ground arith)
      next_run

judge-never_again_example : judge (bare_index 11) high_key both_keys after_twelve ≢ ok after_twelve
judge-never_again_example =
    judge-never_again empty_memory after_high after_twelve after_twelve (bare_index 11)
      (bare_index 11) high_key high_key both_keys both_keys high_accepted next_run refl
      (ground arith)

History-serial_bound_example : 12 ≤ 10 + max_jump * 2
unfolding empty_memory lookup string_eq
History-serial_bound_example =
    History-serial_bound {m = empty_memory} {n = after_twelve} "00000000000000bb" 10 12 whole_run
      refl (λ e. ground arith, (λ e. ground arith, tt)) refl

abbrev pub toy_release : Release
toy_release = record {
  version = "1.2.0";
  filename = "enigma2-plugin-extensions-mqttbridge_1.2.0_all.ipk";
  size = 1000;
  sha256 = "0123456789abcdef0123456789abcdef0123456789abcdef0123456789abcdef";
  commit = "0123456789abcdef0123456789abcdef01234567";
  commit_time = 1700000000;
  contract = 1;
  min_integration = none;
  depends = [];
  self_update = false;
  withdrawn = none;
}

abbrev pub toy_index : Index
toy_index = record {
  serial = 11;
  issued = 1700000000;
  index_key = "00000000000000bb";
  floor = "1.0.0";
  releases = toy_release ∷ [];
}

toy_parsed : parse_index toy index_bytes false ≡ ok toy_index
unfolding parse_index toy is_strict string_eq as_dict lookup is_version is_hex_of is_key_id
toy_parsed = refl

parse_index-IsWellFormed_example : IsWellFormed index_bytes toy_index
parse_index-IsWellFormed_example =
    parse_index-IsWellFormed toy index_bytes false toy_index toy_parsed

abbrev pub toy_authentic : Authentic
toy_authentic = record { index = toy_index; key = high_key }

pub toy_authenticated :
    authenticate toy index_bytes signature_file_bytes both_keys ≡ ok toy_authentic
unfolding authenticate toy parse_signature is_strict string_eq as_dict lookup is_key_id by_id verify
    decode_point check_equation parse_index is_version
toy_authenticated = refl

authenticate-IsAuthentic_example :
    IsAuthentic toy index_bytes signature_file_bytes both_keys toy_authentic
authenticate-IsAuthentic_example =
    authenticate-IsAuthentic toy index_bytes signature_file_bytes both_keys toy_authentic
      toy_authenticated

toy_accepted :
    accept toy index_bytes signature_file_bytes both_keys empty_memory
    ≡ ok (record { accepted = toy_authentic; memory = after_high })
unfolding accept
toy_accepted = rw toy_authenticated (
    ap (λ r. r >>= (λ next. ok (record { accepted = toy_authentic; memory = next }))) high_accepted)

accept_sound_example :
    IsAuthentic toy index_bytes signature_file_bytes both_keys toy_authentic
    × IsWellFormed index_bytes toy_index
    × IsAdmissible toy_index high_key both_keys empty_memory
    × (after_high ≡ remember empty_memory high_key 11 both_keys)
accept_sound_example =
    accept_sound toy index_bytes signature_file_bytes both_keys empty_memory
      (record { accepted = toy_authentic; memory = after_high }) toy_accepted

abbrev other_build : Configured
other_build = record { origin = release_origin; keys = embedded; acceptance = false }

abbrev release_flavour : Option String
release_flavour = some "release"

plain_configured : configured toy release_flavour none ≡ ok other_build
unfolding configured string_eq option_eq
plain_configured = refl

configured-separates_example :
    ((release_flavour ≢ some "acceptance") × (other_build ≡ other_build))
    ⊎ ((release_flavour ≡ some "acceptance") × ((false ≡ true) × IsSeparate embedded))
configured-separates_example =
    configured-separates toy release_flavour none other_build plain_configured
