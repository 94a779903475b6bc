-- ===== src/UpdateHelper/Run.antt =====
-- The transaction of src/MQTTBridge/updatehelper.py as a whole: the lock's `claim` and `reclaim`, `forward`
-- from the restart on, the ways back, and `run`.
pub mod Undo
pub mod Honest
pub mod Recovery
pub mod Net
use enigma2_mqtt_bridge.Common.{
  ℕ, zero, suc, ◌+◌, ◌*◌, Bool, true, false, not, ◌&&◌, ◌||◌, Option, none, some, List, [], ◌∷◌,
  ◌++◌, ◌==◌, nat_eq, option_eq, string_eq, contains, if◌then◌else◌, String,
}
use enigma2_mqtt_bridge.Common.Result.{Result, ok, err}
use enigma2_mqtt_bridge.UpdateHelper.State.{
  Reason, busy, interrupted, time_limit, internal_error, not_started, question, retraction, standby,
  recording, epg_import, drill, bad_request, Fail, fail_of, Raised, failed, lock_lost, os_error,
  other, Phase, downloading, restarting, Outcome, withdrawn_before_restart, failed_end,
  interrupted_end, Restored, done, Request, Transaction, M, pure, ◌>>=◌, ◌>>◌, catch, raise, fail,
  modify, get, when, is_some, old_tree, at_start,
}
use enigma2_mqtt_bridge.UpdateHelper.Receiver.{World, ask, clock}
use enigma2_mqtt_bridge.UpdateHelper.Choose.{refuse_if}
use enigma2_mqtt_bridge.UpdateHelper.Waiting.{
  Word, restarted, withdrew, timed_out, signal_came, seconds, await_restart,
}
use enigma2_mqtt_bridge.UpdateHelper.Ending.{write_status, marker, release, finish}
use enigma2_mqtt_bridge.UpdateHelper.Rollback.{
  is_done, is_failed, restore_failure, is_exception, guarded_from_all, finally, put_back, rollback,
}
use enigma2_mqtt_bridge.UpdateHelper.Forward.{original_running, install, prove}

abbrev pub forward_limit : ℕ
forward_limit = 15 * 60

is_interrupted : Reason → Bool
is_interrupted interrupted = true
is_interrupted _ = false

is_busy : Reason → Bool
is_busy busy = true
is_busy _ = false

-- `WITHDRAW_REASONS`
is_withdraw_reason : Reason → Bool
is_withdraw_reason question = true
is_withdraw_reason retraction = true
is_withdraw_reason standby = true
is_withdraw_reason recording = true
is_withdraw_reason epg_import = true
is_withdraw_reason _ = false

reason_said : Option (Option Reason) → Reason
unfolding is_withdraw_reason
reason_said (some (some reason)) = if is_withdraw_reason reason then reason else question
reason_said _ = question

is_timed_out : Word → Bool
is_timed_out timed_out = true
is_timed_out _ = false

is_withdrawn : Outcome → Bool
is_withdrawn withdrawn_before_restart = true
is_withdrawn _ = false

-- Its own failure, or any other exception that goes on.
only_fail : Raised → M (Option Fail)
only_fail (failed failure) = pure (some failure)
only_fail lock_lost = raise lock_lost
only_fail os_error = raise os_error
only_fail (other b) = raise (other b)

module _ (world : World) (request : Request) where
  pub note_restart : M (Unit {0})
  unfolding clock
  note_restart = do now ← clock world; modify (λ t. record t { restarted_at = some now })

  undo_in_place : Fail → Outcome → M ℕ
  unfolding put_back original_running note_restart rollback finish restore_failure
  undo_in_place failure outcome = do
    restored ← put_back world
    running ← original_running world request
    restore ← get (λ t. t.restore)
    if not running then (do note_restart; rollback world request failure) else (do
      finish world request (if is_done (some restored) then outcome else failed_end)
          (some (restore_failure failure restore))
      pure 1)

  gone_already : Option ℕ → M Bool
  unfolding original_running
  gone_already (some at) = pure true
  gone_already none = do running ← original_running world request; pure (not running)

  unfoldable pub undo : Fail → Outcome → M ℕ
  unfolding gone_already note_restart rollback undo_in_place
  undo failure outcome = do
    restarted_at ← get (λ t. t.restarted_at)
    gone ← gone_already restarted_at
    if gone
        then (do when (not (is_some restarted_at)) note_restart; rollback world request failure)
        else undo_in_place failure outcome

  pub drop_snapshot : M (Unit {0})
  unfolding ask
  drop_snapshot = do
    taken ← get (λ t. t.snapshot)
    when taken (do ask world (λ n. tt); modify (λ t. record t { snapshot = false }))

  pub end_unchanged : Fail → Outcome → M ℕ
  unfolding drop_snapshot finish
  end_unchanged failure outcome = do
    drop_snapshot
    finish world request outcome (some failure)
    pure 1

  unfoldable pub before_restart_failed : Fail → M ℕ
  unfolding undo end_unchanged is_interrupted
  before_restart_failed failure = do
    changed ← get (λ t. t.files_changed)
    let outcome = if is_interrupted failure.reason then interrupted_end else failed_end
    if changed then undo failure outcome else end_unchanged failure outcome

  -- Why it is withdrawn, and what that makes the end.
  withdraw_failure : Word → M (Fail × Outcome)
  unfolding ask reason_said is_timed_out
  withdraw_failure signal_came = pure (fail_of interrupted, interrupted_end)
  withdraw_failure word = do
    asked ← ask world world.restart_file
    if is_timed_out word && not asked then pure (fail_of time_limit, failed_end) else (do
      said ← ask world world.withdraw_file
      pure (fail_of (reason_said said), withdrawn_before_restart))

  end_withdrawn : Word → M ℕ
  unfolding withdraw_failure finish restore_failure is_withdrawn
  end_withdrawn word = do
    (failure, outcome) ← withdraw_failure word
    restore ← get (λ t. t.restore)
    let result = if is_done restore then outcome else failed_end
    finish world request result (some (restore_failure failure restore))
    pure (if is_withdrawn result then 0 else 1)

  unfoldable pub withdraw : Word → M ℕ
  unfolding put_back original_running note_restart rollback prove end_withdrawn
  withdraw word = do
    restored ← put_back world
    running ← original_running world request
    if running then end_withdrawn word else (do
      note_restart
      if is_failed (some restored)
          then prove world request
          else rollback world request (fail_of not_started))

  drill_requested : M Bool
  unfolding ask
  drill_requested = if request.acceptance then ask world world.drill_file else pure false

  go_on : Word → M ℕ
  unfolding prove withdraw
  go_on restarted = prove world request
  go_on word = withdraw word

  ask_for_restart : M ℕ
  unfolding write_status marker await_restart go_on
  ask_for_restart = do
    write_status world restarting
    marker world
    word ← await_restart world request
    go_on word

  unfoldable pub after_install : M ℕ
  unfolding ask note_restart rollback drill_requested ask_for_restart
  after_install = do
    writable ← ask world world.log_writable
    status ← ask world world.statusinfo
    running ← ask world world.enigma2_pids
    modify (λ t. record t {
      logs_writable = writable;
      before = status;
      restart_pids = request.enigma2_pid ∷ running;
    })
    if not (contains request.enigma2_pid running)
        then (do note_restart; rollback world request (fail_of interrupted))
        else (do
          wanted ← drill_requested
          if wanted then rollback world request (fail_of drill) else ask_for_restart)

  after_try : Option Fail → M ℕ
  unfolding before_restart_failed after_install
  after_try (some failure) = before_restart_failed failure
  after_try none = after_install

  unfoldable pub forward : M ℕ
  unfolding install only_fail after_try
  forward = do failure ← catch (do install world request; pure none) only_fail; after_try failure

  -- The lock's directory is made, or taken over from a stale owner, judged twice.
  retire : M (Unit {0})
  unfolding ask refuse_if
  retire = do
    stale ← ask world world.is_stale
    refuse_if (not stale) busy
    renamed ← ask world world.renames
    refuse_if (not renamed) busy
    still_stale ← ask world world.is_stale
    when (not still_stale) (do ask world world.renames; fail busy)
    made ← ask world world.makes_lock
    refuse_if (not made) busy

  unfoldable pub claim : M (Unit {0})
  unfolding ask retire
  claim = do
    made ← ask world world.makes_lock
    when (not made) retire
    written ← ask world world.writes
    when (not written) (raise os_error)
    modify (λ t. record t { holding = true; claimed = true })

  -- Whether the owner record names another transaction.
  owned_by_another : M Bool
  unfolding ask
  owned_by_another = do
    owner ← ask world world.owner
    pure (is_some owner && not (owner == some request.id))

  unfoldable pub recover : Fail → M (Unit {0})
  unfolding undo drop_snapshot
  recover failure = do
    t ← get (λ t. t)
    if t.committed || t.rolling_back || t.ended
        then pure tt
        else if t.files_changed
        then (undo failure failed_end >> pure tt)
        else drop_snapshot

  finish_unless_ended : Outcome → Reason → M (Unit {0})
  unfolding finish
  finish_unless_ended outcome reason = do
    ended ← get (λ t. t.ended)
    when (not ended) (finish world request outcome (some (fail_of reason)))

  -- The last net.
  unfoldable pub last_net : Raised → M ℕ
  unfolding finish_unless_ended recover
  last_net lock_lost = do finish_unless_ended interrupted_end interrupted; pure 1
  last_net e = do
    guarded_from_all (recover (fail_of internal_error)) (pure tt)
    finish_unless_ended failed_end internal_error
    if is_exception e then pure 1 else raise e

  unfoldable pub forward_in_net : M ℕ
  unfolding forward last_net release
  forward_in_net = finally (catch forward last_net) (release world request)

  -- The lock was not got: said, unless the directory may be the holder's own.
  end_unclaimed : Fail → M ℕ
  unfolding finish
  end_unclaimed failure = do finish world request failed_end (some failure); pure 1

  claim_failed : Raised → M ℕ
  unfolding owned_by_another end_unclaimed is_busy
  claim_failed (failed failure) =
      if is_busy failure.reason
      then (do another ← owned_by_another; if another then end_unclaimed failure else pure 1)
      else end_unclaimed failure
  claim_failed os_error = end_unclaimed (fail_of internal_error)
  claim_failed e = raise e

  -- The lock, or the code of the end without it.
  try_to_claim : M (Option ℕ)
  unfolding claim claim_failed
  try_to_claim = catch (do claim; pure none) (λ e. do code ← claim_failed e; pure (some code))

  after_claim : Option ℕ → M ℕ
  unfolding forward_in_net
  after_claim (some code) = pure code
  after_claim none = forward_in_net

  unfoldable pub run : M ℕ
  unfolding clock seconds try_to_claim after_claim
  run = do
    now ← clock world
    modify (λ t. record t { phase = downloading; deadline = now + seconds forward_limit })
    claimed ← try_to_claim
    after_claim claimed

-- `Transaction.__init__`, with the old version on disk.
unfoldable pub new_transaction : ℕ → Transaction
new_transaction now = record {
  now = now;
  asks = 0;
  signalled = none;
  lost = false;
  holding = false;
  claimed = false;
  files_changed = false;
  snapshot = false;
  entry = none;
  deadline = 0;
  before = none;
  logs_writable = true;
  restarted_at = none;
  restart_pids = [];
  lower = false;
  ended = false;
  committed = false;
  rolling_back = false;
  vars = at_start;
  phase = downloading;
  restore = none;
  lastservice_said = false;
  tree = old_tree;
  markers = 0;
  opkg_runs = [];
  runlevels = [];
  ends = [];
}
