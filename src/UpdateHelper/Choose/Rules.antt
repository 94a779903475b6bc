-- ===== src/UpdateHelper/Choose/Rules.antt =====
-- The rules that `choose` of src/MQTTBridge/updatehelper.py keeps, and the order of versions.
use mathlib.Core.Path.{subst}
use enigma2_mqtt_bridge.Common.{
  ◌≡◌, refl, ◌⊎◌, inl, inr, Bool, true, false, not, ◌&&◌, ◌||◌, Option, none, some, List, String,
  string_eq, nat_eq, option_eq, arith, Option-cases, eq_of_test, eqb→eq,
}
use enigma2_mqtt_bridge.Common.Result.{ok}
use enigma2_mqtt_bridge.Trust.Format.{is_version}
use enigma2_mqtt_bridge.Trust.Release.{Release}
use enigma2_mqtt_bridge.Trust.Index.{Index}
use enigma2_mqtt_bridge.UpdateHelper.State.{Request, Integration}
use enigma2_mqtt_bridge.UpdateHelper.Choose.{
  version_lt, floor_of, find_release, may_downgrade, is_lower, judge_entry, choose_from,
  other_contract, missing_minimum, too_old, other_checksum, version_of, wanted_floor,
}
use enigma2_mqtt_bridge.UpdateHelper.Choose.Installable.{
  IsInstallable, Fits, find_release-Mem, unmet_dependency-All, above_floors, unmet-none, Judged,
  judge_entry-ok,
}

not-false : {b : Bool} → not b ≡ false → b ≡ true
not-false {b} h = ground arith

or_right : (a b : Bool) → (a || b) ≡ false → b ≡ false
or_right a b h = ground arith

or_left : (a b : Bool) → (a || b) ≡ false → a ≡ false
or_left a b h = ground arith

known_of :
    (version : Option String) (mode : Bool) (minimum : String)
    → too_old version minimum mode ≡ false
    → ((known : String) × (version ≡ some known)
        × (is_version known ≡ true)
        × (version_lt known minimum ≡ false))
      ⊎ ((version ≡ none) × (mode ≡ false))
unfolding too_old
known_of none mode minimum h = inr (refl, h)
known_of (some known) mode minimum h =
    let sound = or_left (not (is_version known)) (version_lt known minimum) h in
    inl
      (known, refl, not-false sound, or_right (not (is_version known)) (version_lt known minimum) h)

Fits-of_unmet :
    (entry : Release) (integration : Integration) (mode : Bool)
    → other_contract entry.contract (some integration) ≡ false
    → missing_minimum entry.min_integration (some integration) mode ≡ false
    → Fits integration mode entry
unfolding other_contract missing_minimum version_of
Fits-of_unmet entry integration mode contract minimum = record {
  same_contract = eq_of_test _ _ (not-false contract);
  new_enough = λ m e. known_of integration.version mode m (rw e at minimum);
}

unsaid_of :
    (entry : Release) (mode : Bool) (minimum : String)
    → entry.min_integration ≡ some minimum
    → missing_minimum entry.min_integration none mode ≡ false
    → mode ≡ false
unfolding missing_minimum too_old version_of
unsaid_of entry mode minimum e h = rw e at h

admitted_of :
    (request : Request)
    → (is_lower request && not (may_downgrade request)) ≡ false
    → version_lt request.target request.from_version ≡ true
    → (request.downgrade_allowed ≡ true)
      × ((request.started_by ≡ "screen") ⊎ (request.started_by ≡ "page"))
unfolding is_lower may_downgrade
admitted_of request h lower = ground arith

checksum_of :
    (wanted : Option String) (w sha256 : String)
    → wanted ≡ some w
    → other_checksum wanted sha256 ≡ false
    → w ≡ sha256
unfolding other_checksum
checksum_of wanted w sha256 e h = eq_of_test _ _ (not-false (rw e at h))

plugin_min_of :
    (request : Request) (integration : Integration) (wanted : String)
    → request.integration ≡ some integration
    → integration.plugin_min ≡ some wanted
    → wanted_floor request.integration ≡ some wanted
unfolding wanted_floor
plugin_min_of request integration wanted e w = rw (e, w) refl

IsInstallable-of_release :
    (index : Index) (request : Request) (installed : Option (List String)) (r : Release)
    → find_release request.target index.releases ≡ some r
    → Judged index request installed r
    → IsInstallable index request installed r
unfolding floor_of
IsInstallable-of_release index request installed r found (kept, high, met, admitted, checksum) =
    let (contract, same, minimum, names_met) = unmet-none r _ _ _ installed met in
    let (there, version) = find_release-Mem request.target index.releases r found in
    let floors = above_floors request.target index.floor (wanted_floor request.integration) high in
    record {
      listed = there;
      is_target = version;
      not_withdrawn = kept;
      above_floor = floors.0;
      above_plugin_min = λ i w e v k. floors.1 w (plugin_min_of request i w e v) k;
      same_contract = eqb→eq _ _ contract;
      fits = λ i e. Fits-of_unmet r i request.integration_mode (rw e at same) (rw e at minimum);
      said_its_version =
          λ m e none_said. unsaid_of r request.integration_mode m e (rw none_said at minimum);
      depends_installed = λ names e. unmet_dependency-All r.depends names (names_met names e);
      downgrade_admitted = admitted_of request admitted;
      same_checksum = λ w e. checksum_of request.sha256 w r.sha256 e checksum;
    }

installable :
    (index : Index) (request : Request) (installed : Option (List String)) (r entry : Release)
    → find_release request.target index.releases ≡ some r
    → judge_entry index request installed r ≡ ok entry
    → IsInstallable index request installed entry
unfolding floor_of
installable index request installed r entry found h =
    let (same, fields) = judge_entry-ok index request installed r entry h in
    subst (IsInstallable index request installed) same
      (IsInstallable-of_release index request installed r found fields)

-- A release that `choose` returns is on the index under the version asked for, is not withdrawn, is not
-- below the index's floor nor below the lowest version that the integration takes, and has the contract
-- of the plugin and of the integration. If it asks for a lowest integration, the integration says a
-- proper version that is not below it, or says none or is not there and none is in use. It has its
-- dependencies installed where the packages can be read, is lower than the running version only where
-- the request admits a downgrade and was made on the screen or on the page, and has the checksum that
-- the request names, if it names one.
pub choose_from-IsInstallable :
    (index : Index) (request : Request) (installed : Option (List String)) (entry : Release)
    → choose_from (some index) request installed ≡ ok entry
    → IsInstallable index request installed entry
unfolding choose_from
choose_from-IsInstallable index request installed entry h =
    elim (Option-cases (find_release request.target index.releases)) [
      | inl nothing ↦ cc (rw (nothing, choose_from) at h)
      | inr (r, found) ↦
          installable index request installed r entry found (rw (found, choose_from) at h)
    ]
