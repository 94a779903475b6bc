-- ===== src/Trust/Index/Checked.antt =====
-- What an index and a release that were accepted as well formed are known to be.
use mathlib.Core.Path.{subst}
use enigma2_mqtt_bridge.Common.{
  ◌≤◌, ◌<◌, ◌≡◌, Bool, true, not, ◌||◌, List, [], ◌∷◌, String, string_eq, leb, length, arith, All,
  leb→le,
}
use enigma2_mqtt_bridge.Common.Result.{ok, or_raise, >>=-eq-ok, guard-eq-ok, ok-injective}
use enigma2_mqtt_bridge.Common.Dict.{Dict}
use enigma2_mqtt_bridge.Json.{Value, whole, text, as_dict, as_list}
use enigma2_mqtt_bridge.Ed25519.{Bytes}
use enigma2_mqtt_bridge.Trust.Platform.{Platform}
use enigma2_mqtt_bridge.Trust.Format.{is_version, is_key_id, is_hex_of}
use enigma2_mqtt_bridge.Trust.Keys.{malformed_index, too_large, distinct}
use enigma2_mqtt_bridge.Trust.Release.{
  Release, read_release, is_release, check_release, check_releases, member_of, max_package_bytes,
}
use enigma2_mqtt_bridge.Trust.Index.{
  Index, versions, parse_index, read_json, Header, read_header, is_header, is_strict_index,
  max_index_bytes,
}

-- What a reader may rely on in each release it is offered.
pub record IsUsable (r : Release) : Type 0 where
  pub named : is_version r.version ≡ true
  pub nonempty : 0 < r.size
  pub fits : r.size ≤ max_package_bytes
  pub hashed : is_hex_of 64 r.sha256 ≡ true
  pub committed : is_hex_of 40 r.commit ≡ true
  pub dated : 0 < r.commit_time

IsUsable-of : (r : Release) → is_release r ≡ true → IsUsable r
unfolding is_release
IsUsable-of r h = record {
  named = ground arith;
  nonempty = ground arith;
  fits = ground arith;
  hashed = ground arith;
  committed = ground arith;
  dated = ground arith;
}

check_release-IsUsable : (v : Value) (r : Release) → check_release v ≡ ok r → IsUsable r
unfolding check_release
check_release-IsUsable v r h =
    let (fields, e, h1) = >>=-eq-ok (or_raise (as_dict v) malformed_index) _ h in
    let (release, e2, h2) = >>=-eq-ok (read_release fields) _ h1 in
    let (t, h3) = guard-eq-ok (is_release release) malformed_index (ok release) h2 in
    subst IsUsable (ok-injective h3) (IsUsable-of release t)

check_releases-IsUsable :
    (vs : List Value) (rs : List Release) → check_releases vs ≡ ok rs → All IsUsable rs
unfolding check_releases
check_releases-IsUsable [] rs h = subst (All IsUsable) (ok-injective h) tt
check_releases-IsUsable (v ∷ vs) rs h =
    let (r, e, h1) = >>=-eq-ok (check_release v) _ h in
    let (rest, e2, h2) = >>=-eq-ok (check_releases vs) _ h1 in
    subst (All IsUsable) (ok-injective h2)
      (check_release-IsUsable v r e, check_releases-IsUsable vs rest e2)

-- What `parse_index` promises of the index it returns.
pub record IsWellFormed (raw : Bytes) (index : Index) : Type 0 where
  pub small : length raw ≤ max_index_bytes
  pub numbered : 1 ≤ index.serial
  pub signer : is_key_id index.index_key ≡ true
  pub lowest : is_version index.floor ≡ true
  pub usable : All IsUsable index.releases
  pub listed_once : distinct (versions index.releases) ≡ true

read_header-IsUsable :
    (fields : Dict String Value) (header : Header)
    → read_header fields ≡ ok header
    → All IsUsable header.header_index.releases
unfolding read_header
read_header-IsUsable fields header h0 =
    let (schema, _, h1) = >>=-eq-ok (member_of whole "schema" fields) _ h0 in
    let (named, _, h2) = >>=-eq-ok (member_of text "package" fields) _ h1 in
    let (serial, _, h3) = >>=-eq-ok (member_of whole "serial" fields) _ h2 in
    let (issued, _, h4) = >>=-eq-ok (member_of whole "issued" fields) _ h3 in
    let (id, _, h5) = >>=-eq-ok (member_of text "key_id" fields) _ h4 in
    let (floor, _, h6) = >>=-eq-ok (member_of text "floor" fields) _ h5 in
    let (listed, _, h7) = >>=-eq-ok (member_of as_list "releases" fields) _ h6 in
    let (releases, checked, h8) = >>=-eq-ok (check_releases listed) _ h7 in
    subst (λ k. All IsUsable k.header_index.releases) (ok-injective h8)
      (check_releases-IsUsable listed releases checked)

header-IsWellFormed :
    (raw : Bytes) (header : Header)
    → length raw ≤ max_index_bytes
    → All IsUsable header.header_index.releases
    → is_header header ≡ true
    → IsWellFormed raw header.header_index
unfolding is_header
header-IsWellFormed raw header small usable h = record {
  small = small;
  numbered = ground arith;
  signer = ground arith;
  lowest = ground arith;
  usable = usable;
  listed_once = ground arith;
}

-- An index that parses is within its size, has a serial from 1 on, names a key id and a version as
-- its floor, lists no version twice, and every release in it is usable: its version is plain, its
-- size is 1 to 8 MiB, its hash and commit are hexadecimal of their length and its date is positive.
pub parse_index-IsWellFormed :
    (platform : Platform) (raw : Bytes) (strict : Bool) (index : Index)
    → parse_index platform raw strict ≡ ok index
    → IsWellFormed raw index
unfolding parse_index
parse_index-IsWellFormed platform raw strict index h0 =
    let (small, h1) = guard-eq-ok (leb (length raw) max_index_bytes) too_large _ h0 in
    let (value, _, h2) = >>=-eq-ok (read_json platform raw malformed_index) _ h1 in
    let (fields, _, h3) = >>=-eq-ok (or_raise (as_dict value) malformed_index) _ h2 in
    let (header, read, h4) = >>=-eq-ok (read_header fields) _ h3 in
    let (judged, h5) = guard-eq-ok (is_header header) malformed_index _ h4 in
    let (_, h6) = guard-eq-ok (not strict || is_strict_index fields header) malformed_index _ h5 in
    subst (IsWellFormed raw) (ok-injective h6) (
      header-IsWellFormed raw header (leb→le _ _ small) (read_header-IsUsable fields header read)
        judged)
