-- ===== src/UpdateHelper/Choose.antt =====
-- Which version may be installed: `unmet`, `floor_of`, `relay_ok` and the methods `check_relay`, `choose`,
-- `download` and `cross_check` of src/MQTTBridge/updatehelper.py.
pub mod Calm
pub mod Installable
pub mod Rules
use enigma2_mqtt_bridge.Common.{
  ℕ, ◌<◌, Bool, true, false, not, ◌&&◌, ◌||◌, Option, none, some, List, [], ◌∷◌, String, ◌==◌,
  string_eq, nat_eq, option_eq, contains, eqb, ltb, if◌then◌else◌,
}
use enigma2_mqtt_bridge.Common.Result.{Result, ok, err}
use enigma2_mqtt_bridge.Trust.Format.{is_version, version_key}
use enigma2_mqtt_bridge.Trust.Release.{Release}
use enigma2_mqtt_bridge.Trust.Index.{Index, tuple_le}
use enigma2_mqtt_bridge.UpdateHelper.State.{
  Reason, unreachable, unknown_version, withdrawn, below_floor, incompatible, depends, downgrade,
  checksum, relay, download, bad_package, Integration, Relay, Request, Transaction, M, pure, ◌>>=◌,
  ◌>>◌, fail, modify, when,
}
use enigma2_mqtt_bridge.UpdateHelper.RelayUrl.{relay_ok}
use enigma2_mqtt_bridge.UpdateHelper.Receiver.{World, ask, clock}

-- `version_key(a) < version_key(b)`
unfoldable pub version_lt : String → String → Bool
version_lt a b = not (tuple_le (version_key b) (version_key a))

pub unmet_dependency : List String → List String → Option Reason
unmet_dependency [] installed = none
unmet_dependency (name ∷ names) installed =
    if contains name installed then unmet_dependency names installed else some depends

-- The reason of `unmet`; its detail is left out. An integration that has not said its version is like
-- none at all.
too_old : Option String → String → Bool → Bool
unfolding version_lt
too_old (some known) minimum integration_mode = not (is_version known) || version_lt known minimum
too_old none minimum integration_mode = integration_mode

version_of : Option Integration → Option String
version_of none = none
version_of (some integration) = integration.version

pub other_contract : ℕ → Option Integration → Bool
other_contract contract none = false
other_contract contract (some integration) = not (integration.contract == some contract)

pub missing_minimum : Option String → Option Integration → Bool → Bool
unfolding too_old version_of
missing_minimum none integration integration_mode = false
missing_minimum (some minimum) integration integration_mode =
    too_old (version_of integration) minimum integration_mode

unfoldable pub unmet :
    Release → ℕ → Option Integration → Bool → Option (List String) → Option Reason
unfolding other_contract missing_minimum unmet_dependency
unmet release contract integration integration_mode installed =
    if not (eqb release.contract contract)
    then some incompatible
    else if other_contract release.contract integration
    then some incompatible
    else if missing_minimum release.min_integration integration integration_mode
    then some incompatible
    else elim installed [ none ↦ none | some names ↦ unmet_dependency release.depends names ]

pub raised_floor : String → Option String → String
unfolding version_lt
raised_floor floor none = floor
raised_floor floor (some wanted) =
    if is_version wanted && version_lt floor wanted then wanted else floor

wanted_floor : Option Integration → Option String
wanted_floor none = none
wanted_floor (some integration) = integration.plugin_min

unfoldable pub floor_of : Index → Option Integration → String
unfolding raised_floor wanted_floor
floor_of index integration = raised_floor index.floor (wanted_floor integration)

pub find_release : String → List Release → Option Release
find_release target [] = none
find_release target (r ∷ releases) =
    if r.version == target then some r else find_release target releases

-- `DOWNGRADE_ORIGINS`
abbrev pub downgrade_origins : List String
downgrade_origins = "screen" ∷ "page" ∷ []

unfoldable pub may_downgrade : Request → Bool
may_downgrade request = request.downgrade_allowed && contains request.started_by downgrade_origins

unfoldable pub is_lower : Request → Bool
unfolding version_lt
is_lower request = version_lt request.target request.from_version

pub other_checksum : Option String → String → Bool
other_checksum none sha256 = false
other_checksum (some wanted) sha256 = not (wanted == sha256)

-- The rules of `choose` for an entry of the index.
pub judge_entry : Index → Request → Option (List String) → Release → Result Reason Release
unfolding unmet floor_of version_lt is_lower may_downgrade other_checksum
judge_entry index request installed entry =
    if not (entry.withdrawn == none)
    then err withdrawn
    else if version_lt request.target (floor_of index request.integration)
    then err below_floor
    else elim (unmet entry request.contract request.integration request.integration_mode
        installed) [
          | some reason ↦ err reason
          | none ↦
              if is_lower request && not (may_downgrade request)
              then err downgrade
              else if other_checksum request.sha256 entry.sha256
              then err checksum
              else ok entry
        ]

unfoldable pub choose_from : Option Index → Request → Option (List String) → Result Reason Release
unfolding judge_entry find_release
choose_from none request installed = err unreachable
choose_from (some index) request installed = elim (find_release request.target index.releases) [
  | none ↦ err unknown_version
  | some entry ↦ judge_entry index request installed entry
]

unfoldable pub or_fail : {A : Type 0} → Result Reason A → M A
or_fail (ok a) = pure a
or_fail (err reason) = fail reason

-- `if test: raise Fail(reason)`
unfoldable pub refuse_if : Bool → Reason → M (Unit {0})
refuse_if true reason = fail reason
refuse_if false reason = pure tt

bad_relay : Option Relay → ℕ → Bool
bad_relay none now = false
bad_relay (some r) now = not (relay_ok r now)

-- The package's answer: its size and its hash, where there is one.
is_signed : Option (ℕ × String) → Release → Result Reason (Unit {0})
is_signed none entry = err download
is_signed (some (size, hash)) entry =
    if eqb size entry.size && hash == entry.sha256 then ok tt else err bad_package

other_digest : Option String → Release → Bool
other_digest none entry = false
other_digest (some digest) entry = not (digest == entry.sha256)

module _ (world : World) (request : Request) where
  unfoldable pub check_relay : M (Unit {0})
  unfolding ask refuse_if bad_relay
  check_relay = do now ← ask world world.epoch; refuse_if (bad_relay request.relay now) relay

  -- With a relay the origin is not asked for an index.
  fetch_from : Option Relay → M (Option Index)
  unfolding ask or_fail
  fetch_from (some r) = pure none
  fetch_from none = ask world world.fetched_index >>= or_fail

  fetch_index : M (Option Index)
  unfolding fetch_from
  fetch_index = fetch_from request.relay

  held_index : Option Index → M (Option Index)
  unfolding ask
  held_index (some index) = pure (some index)
  held_index none = ask world world.held_index

  -- The packages are read before the rules are judged; reading them changes nothing.
  unfoldable pub choose : M Release
  unfolding fetch_index held_index ask or_fail
  choose = do
    fetched ← fetch_index
    index ← held_index fetched
    installed ← ask world world.installed_packages
    modify (λ t. record t { lower = is_lower request })
    or_fail (choose_from index request installed)

  unfoldable pub download_package : Release → M (Unit {0})
  unfolding ask or_fail is_signed
  download_package entry = do body ← ask world world.fetched_package; or_fail (is_signed body entry)

  -- `release_page` is the digest that the release page gives, in small letters, if it gives one.
  unfoldable pub cross_check : Release → M (Unit {0})
  unfolding ask refuse_if other_digest
  cross_check entry =
      if not (elim request.relay [ none ↦ true | some _ ↦ false ]) || request.acceptance
      then pure tt
      else (do
        digest ← ask world world.release_page
        refuse_if (other_digest digest entry) bad_package)
