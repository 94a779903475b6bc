-- ===== src/UpdateHelper/Forward.antt =====
-- The forward path of src/MQTTBridge/updatehelper.py: `check`, `phase`, `forward` up to the restart,
-- `prove` and `commit`.
pub mod Calm
pub mod Honest
pub mod Proof
use enigma2_mqtt_bridge.Common.{
  ℕ, zero, suc, ◌+◌, min, Bool, true, false, not, ◌&&◌, ◌||◌, Option, none, some, List, [], ◌∷◌,
  ◌++◌, ◌==◌, nat_eq, option_eq, string_eq, contains, any, leb, ltb, eqb, if◌then◌else◌, String,
}
use enigma2_mqtt_bridge.Trust.Release.{Release}
use enigma2_mqtt_bridge.UpdateHelper.State.{
  Reason, interrupted, time_limit, bad_package, no_space, opkg_busy, snapshot_failed,
  internal_error, opkg_failed, manifest, not_started, Fail, fail_of, Raised, failed, lock_lost,
  Phase, downloading, verifying, snapshotting, installing, proving, installed, Request, Transaction,
  M, pure, ◌>>=◌, ◌>>◌, catch, raise_if_lost, fail, modify, get, when, is_some,
}
use enigma2_mqtt_bridge.UpdateHelper.Receiver.{
  World, Snapshot, taken, opkg_is_busy, not_taken, ask, clock, sleep,
}
use enigma2_mqtt_bridge.UpdateHelper.Choose.{
  may_downgrade, refuse_if, check_relay, choose, download_package, cross_check,
}
use enigma2_mqtt_bridge.UpdateHelper.Waiting.{seconds}
use enigma2_mqtt_bridge.UpdateHelper.Ending.{write_status, marker, release, finish}
use enigma2_mqtt_bridge.UpdateHelper.Rollback.{rollback}

abbrev pub proof_window : ℕ
proof_window = 120

of_snapshot : Snapshot → M (Unit {0})
of_snapshot taken = modify (λ t. record t { snapshot = true })
of_snapshot opkg_is_busy = fail opkg_busy
of_snapshot not_taken = fail snapshot_failed

-- The processes that were not seen beside the one that asked.
new_processes : List ℕ → List ℕ → List ℕ
new_processes [] before = []
new_processes (pid ∷ pids) before =
    let rest = new_processes pids before in if contains pid before then rest else pid ∷ rest

-- OpenWebif answers, and not with 404.
pub answers : Option ℕ → Bool
answers none = false
answers (some status) = not (eqb status 404)

-- The started file names the entry's version and commit.
pub names_entry : Option (String × String) → Option Release → Bool
names_entry (some (version, commit)) (some entry) =
    version == entry.version && commit == entry.commit
names_entry _ _ = false

is_self_updating : Option Release → Bool
is_self_updating none = false
is_self_updating (some entry) = entry.self_update

module _ (world : World) (request : Request) where
  unfoldable pub original_running : M Bool
  unfolding ask
  original_running = do
    pids ← ask world world.enigma2_pids
    pure (contains request.enigma2_pid pids)

  check_original : Bool → M (Unit {0})
  unfolding original_running refuse_if
  check_original true = pure tt
  check_original false = do running ← original_running; refuse_if (not running) interrupted

  unfoldable pub check : M (Unit {0})
  unfolding clock refuse_if check_original
  check = do
    raise_if_lost
    signalled ← get (λ t. t.signalled)
    refuse_if (is_some signalled) interrupted
    deadline ← get (λ t. t.deadline)
    now ← clock world
    refuse_if (ltb deadline now) time_limit
    changed ← get (λ t. t.files_changed)
    check_original changed

  unfoldable pub phase : Phase → M (Unit {0})
  unfolding write_status check
  phase name = do write_status world name; check

  -- opkg: from here on the tree is whatever opkg leaves.
  unfoldable pub run_opkg : Bool → M (Option ℕ)
  unfolding ask
  run_opkg forced = do
    modify (λ t. record t { opkg_runs = forced ∷ t.opkg_runs; tree = world.opkg_leaves t.asks })
    ask world world.opkg

  pub fetch : M Release
  unfolding phase check_relay choose check download_package
  fetch = do
    phase downloading
    check_relay world request
    entry ← choose world request
    modify (λ t. record t { entry = some entry })
    check
    download_package world request entry
    pure entry

  pub verify_package : Release → M (Unit {0})
  unfolding phase ask refuse_if cross_check
  verify_package entry = do
    phase verifying
    fine ← ask world world.package_ok
    refuse_if (not fine) bad_package
    cross_check world request entry
    space ← ask world world.has_space
    refuse_if (not space) no_space

  pub snapshot_step : M (Unit {0})
  unfolding phase ask of_snapshot
  snapshot_step = do
    phase snapshotting
    snapshot ← ask world world.takes_snapshot
    of_snapshot snapshot

  -- No marker, no package manager.
  pub before_opkg : M (Unit {0})
  unfolding phase ask refuse_if marker check
  before_opkg = do
    phase installing
    written ← ask world world.writes
    refuse_if (not written) internal_error
    marked ← marker world
    refuse_if (not marked) internal_error
    check

  pub after_opkg : Option ℕ → M (Unit {0})
  unfolding ask refuse_if check
  after_opkg code = do
    refuse_if (not (code == some 0)) opkg_failed
    fine ← ask world world.manifest_ok
    refuse_if (not fine) manifest
    check

  -- The `try` of `forward`.
  unfoldable pub install : M (Unit {0})
  unfolding fetch verify_package snapshot_step before_opkg run_opkg after_opkg
  install = do
    entry ← fetch
    verify_package entry
    snapshot_step
    lower ← get (λ t. t.lower)
    before_opkg
    modify (λ t. record t { files_changed = true })
    code ← run_opkg (lower && may_downgrade request)
    after_opkg code

  unfoldable pub commit : M ℕ
  unfolding release ask finish
  commit = do
    modify (λ t. record t { committed = true })
    release world request
    ask world (λ n. tt)
    finish world request installed none
    pure 0

  -- Tier 1: the new plugin's own word. Tier 2: its log is open in a new process, or OpenWebif answers.
  by_word : M Bool
  unfolding ask names_entry
  by_word = do
    file ← ask world world.started_file
    entry ← get (λ t. t.entry)
    pure (names_entry file entry)

  by_page : List ℕ → M Bool
  unfolding ask answers
  by_page [] = pure false
  by_page (pid ∷ pids) = do
    writable ← get (λ t. t.logs_writable)
    if writable then pure false else (do page ← ask world world.webif_page; pure (answers page))

  by_log_or_page : Bool → List ℕ → M Bool
  unfolding by_page
  by_log_or_page true pids = pure true
  by_log_or_page false pids = by_page pids

  is_proved : Bool → List ℕ → M Bool
  unfolding is_self_updating by_word by_log_or_page
  is_proved fd_seen pids = do
    entry ← get (λ t. t.entry)
    if is_self_updating entry then by_word else by_log_or_page fd_seen pids

  look_at_logs : Bool → List ℕ → M Bool
  unfolding ask
  look_at_logs fd_seen pids = do
    seen ← ask world (λ n. any (world.has_log_open n) pids)
    pure (fd_seen || seen)

  unfoldable pub prove_from : ℕ → Bool → List ℕ → ℕ → M Bool
  unfolding ask clock sleep seconds new_processes look_at_logs is_proved
  prove_from zero fd_seen before window = pure false
  prove_from (suc rounds) fd_seen before window =
      let rest = λ (seen : Bool). prove_from rounds seen before window in
      ask world world.enigma2_pids >>= λ all_pids.
      look_at_logs fd_seen (new_processes all_pids before) >>= λ seen.
      is_proved seen (new_processes all_pids before) >>= λ proved.
      if proved
      then pure true
      else (clock world >>= λ now.
          if leb window now then pure false else (sleep world (seconds 2) >> rest seen))

  -- A window that the deadline cut short ends as `time_limit`.
  unproved : Bool → Fail
  unproved cut = fail_of (if cut then time_limit else not_started)

  unfoldable pub prove : M ℕ
  unfolding write_status marker clock seconds prove_from commit unproved rollback
  prove = do
    write_status world proving
    marker world
    opened ← clock world
    deadline ← get (λ t. t.deadline)
    known ← get (λ t. t.restart_pids)
    let window = min (opened + seconds proof_window) deadline
    proved ← prove_from 62 false (request.enigma2_pid ∷ known) window
    if proved
        then commit
        else rollback world request (unproved (ltb window (opened + seconds proof_window)))
