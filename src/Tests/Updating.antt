-- ===== src/Tests/Updating.antt =====
-- The witnesses of the update helper: a receiver on which the update of the tests' release goes well, and
-- one whose opkg fails.
use enigma2_mqtt_bridge.Common.{
  ℕ, ◌+◌, string_eq, option_eq, nat_eq, ℕ_discrete, arith, true, false, none, some, List, [], ◌∷◌,
  ltb, if◌then◌else◌, ◌≡◌, refl, ◌⊎◌,
}
use enigma2_mqtt_bridge.Common.Result.{ok}
use enigma2_mqtt_bridge.Tests.Rule.{toy_release, toy_index}
use enigma2_mqtt_bridge.UpdateHelper.State.{
  Request, End, Transaction, new_tree, mixed_tree, done, installed,
}
use enigma2_mqtt_bridge.UpdateHelper.Receiver.{World, taken}
use enigma2_mqtt_bridge.Trust.Format.{is_version, version_key}
use enigma2_mqtt_bridge.Trust.Index.{Index, tuple_le}
use enigma2_mqtt_bridge.Trust.Release.{Release}
use enigma2_mqtt_bridge.UpdateHelper.Choose.{choose_from}
use enigma2_mqtt_bridge.UpdateHelper.Choose.Installable.{IsInstallable}
use enigma2_mqtt_bridge.UpdateHelper.Choose.Rules.{choose_from-IsInstallable}
use enigma2_mqtt_bridge.UpdateHelper.State.{◌>>=◌, pure, get, modify, catch, raise}
use enigma2_mqtt_bridge.UpdateHelper.Receiver.{clock}
use enigma2_mqtt_bridge.UpdateHelper.Waiting.{
  seconds, wait_until, wait, stop_wait, plugin_wait, await_from, await_restart,
}
use enigma2_mqtt_bridge.UpdateHelper.Waiting.Rounds.{wait_more_rounds}
use enigma2_mqtt_bridge.UpdateHelper.Waiting.Restart.{await_restart_more_rounds}
use enigma2_mqtt_bridge.UpdateHelper.Rollback.{gone, finally, recorded_service}
use enigma2_mqtt_bridge.UpdateHelper.Rollback.Looks.{gone-IsForward}
use enigma2_mqtt_bridge.UpdateHelper.Forward.{prove_from}
use enigma2_mqtt_bridge.UpdateHelper.Forward.Proof.{Evidence, prove_from-Evidence}
use enigma2_mqtt_bridge.UpdateHelper.Run.{run, new_transaction}
use enigma2_mqtt_bridge.UpdateHelper.Ends.{IsUp, IsHonest}
use enigma2_mqtt_bridge.UpdateHelper.Run.Net.{run-IsHonest, run-starts_interface}

abbrev toy_request : Request
toy_request = record {
  id = "a1";
  target = "1.2.0";
  from_version = "1.1.0";
  started_by = "screen";
  downgrade_allowed = false;
  enigma2_pid = 400;
  acceptance = false;
  contract = 1;
  integration = none;
  integration_mode = false;
  sha256 = none;
  relay = none;
}

-- The plugin restarts the interface after the fortieth thing asked: then another process runs.
abbrev processes : ℕ → List ℕ
processes n = if ltb n 40 then 400 ∷ [] else 500 ∷ []

abbrev good_world : World
good_world = record {
  passes = λ n. 1000;
  epoch = λ n. 1700000000;
  signal = λ n. none;
  loses = λ n. false;
  raises = λ n. none;
  makes_lock = λ n. true;
  owner = λ n. some "a1";
  is_stale = λ n. false;
  renames = λ n. true;
  writes = λ n. true;
  marker_there = λ n. true;
  enigma2_pids = processes;
  enigma2_look = λ n. some (processes n);
  has_log_open = λ n pid. true;
  webif_page = λ n. some 200;
  statusinfo = λ n. none;
  withdraw_file = λ n. none;
  restart_file = λ n. true;
  started_file = λ n. none;
  fetched_index = λ n. ok (some toy_index);
  held_index = λ n. none;
  installed_packages = λ n. some [];
  fetched_package =
      λ n. some (1000, "0123456789abcdef0123456789abcdef0123456789abcdef0123456789abcdef");
  package_ok = λ n. true;
  release_page = λ n. none;
  has_space = λ n. true;
  takes_snapshot = λ n. taken;
  manifest_ok = λ n. true;
  opkg = λ n. some 0;
  opkg_leaves = λ n. new_tree;
  init_code = λ n. some 0;
  restores = λ n. done;
  restore_leaves = λ n. mixed_tree;
  writes_lastservice = λ n. true;
  log_writable = λ n. true;
  drill_file = λ n. false;
}

-- opkg stops half way, and the interface that asked is gone.
abbrev bad_world : World
bad_world = record good_world {
  opkg = λ n. some 255;
  opkg_leaves = λ n. mixed_tree;
  enigma2_pids = λ n. if ltb n 31 then 400 ∷ [] else [];
  enigma2_look = λ n. if ltb n 60 then some [] else some (600 ∷ []);
}

good_run :
    (run good_world toy_request (new_transaction 0)).1.ends
    ≡ record { outcome = installed; cause = none } ∷ []
unfolding run new_transaction ◌>>=◌ get modify catch pure finally nat_eq ℕ_discrete choose_from
    string_eq option_eq tuple_le version_key
good_run = refl

bad_run : (run bad_world toy_request (new_transaction 0)).1.runlevels ≡ 3 ∷ 4 ∷ []
unfolding run new_transaction ◌>>=◌ get modify catch pure finally nat_eq ℕ_discrete choose_from
    string_eq option_eq tuple_le version_key raise recorded_service
bad_run = refl

run-IsHonest_example :
    let t = (run good_world toy_request (new_transaction 0)).1 in
    (t.ends ≡ [])
    ⊎ (e : End) × (t.ends ≡ e ∷ []) × IsHonest e.outcome e.cause t.committed t.tree t.lost
run-IsHonest_example = run-IsHonest good_world toy_request 0

run-starts_interface_example : IsUp (run bad_world toy_request (new_transaction 0)).1.runlevels
run-starts_interface_example = run-starts_interface bad_world toy_request 0

-- A release that asks for an integration and a package, and a request under an integration that fits.
abbrev paired_release : Release
paired_release = record toy_release {
  min_integration = some "2.0.0";
  depends = "python3-core" ∷ [];
}

abbrev paired_index : Index
paired_index = record toy_index { releases = paired_release ∷ [] }

abbrev paired_request : Request
paired_request = record toy_request {
  integration =
      some (record { contract = some 1; version = some "2.1.0"; plugin_min = some "1.1.0" });
  integration_mode = true;
}

paired_choice :
    choose_from (some paired_index) paired_request (some ("python3-core" ∷ [])) ≡ ok paired_release
unfolding choose_from string_eq option_eq nat_eq ℕ_discrete tuple_le version_key is_version
paired_choice = refl

choose_from-IsInstallable_example :
    IsInstallable paired_index paired_request (some ("python3-core" ∷ [])) paired_release
choose_from-IsInstallable_example =
    choose_from-IsInstallable paired_index paired_request (some ("python3-core" ∷ []))
      paired_release paired_choice

wait_more_rounds_example :
    (clock good_world >>= λ now.
    wait_until good_world 40 (gone good_world) (now + seconds stop_wait))
      (new_transaction 7)
    ≡ wait good_world (gone good_world) stop_wait (new_transaction 7)
wait_more_rounds_example =
    wait_more_rounds good_world (gone good_world) (gone-IsForward good_world) stop_wait 40
      (new_transaction 7) (omega arith)

await_restart_more_rounds_example :
    (clock good_world >>= λ now.
    await_from good_world toy_request 1000 false (now + seconds plugin_wait))
      (new_transaction 7)
    ≡ await_restart good_world toy_request (new_transaction 7)
await_restart_more_rounds_example =
    await_restart_more_rounds good_world toy_request 1000 (new_transaction 7) (omega arith)

-- At the proof, with the release chosen.
abbrev proving_now : Transaction
unfolding new_transaction
proving_now = record (new_transaction 7) { asks = 50; entry = some toy_release }

toy_proof :
    (prove_from good_world toy_request 62 false (400 ∷ []) 120_000_000 proving_now).0 ≡ ok true
unfolding prove_from clock ◌>>=◌ pure get proving_now nat_eq ℕ_discrete
toy_proof = refl

prove_from-Evidence_example : Evidence good_world toy_release (400 ∷ [])
unfolding proving_now
prove_from-Evidence_example =
    prove_from-Evidence good_world toy_request toy_release 62 (400 ∷ []) 120_000_000 proving_now
      refl toy_proof
