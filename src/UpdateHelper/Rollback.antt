-- ===== src/UpdateHelper/Rollback.antt =====
-- R2 of src/MQTTBridge/updatehelper.py: `put_back`, `restore_failure`, `start_interface`,
-- `put_lastservice`, `verify` and `rollback`.
pub mod Calm
pub mod Restores
pub mod Steps
pub mod Looks
pub mod Honest
use enigma2_mqtt_bridge.Common.{
  ℕ, zero, suc, ◌+◌, Bool, true, false, not, ◌&&◌, ◌||◌, Option, none, some, List, [], ◌∷◌, ◌==◌,
  nat_eq, option_eq, string_eq, contains, any, ltb, if◌then◌else◌, String,
}
use enigma2_mqtt_bridge.Common.Result.{Result, ok, err}
use enigma2_mqtt_bridge.UpdateHelper.State.{
  Reason, time_limit, not_stopped, interface_not_started, restore_failed, restore_incomplete, Fail,
  fail_of, Raised, failed, lock_lost, os_error, other, rolling_back, rolled_back_end, failed_end,
  Restored, done, partial, not_restored, cut_off, StatusInfo, RollbackVars, at_start, Tree,
  old_tree, Request, Transaction, M, pure, ◌>>=◌, ◌>>◌, catch, raise, modify, get, when, discard,
  is_some,
}
use enigma2_mqtt_bridge.UpdateHelper.Receiver.{World, ask, clock, sleep}
use enigma2_mqtt_bridge.UpdateHelper.Waiting.{
  seconds, wait, has_new, stop_wait, start_wait, start_again_wait,
}
use enigma2_mqtt_bridge.UpdateHelper.Ending.{write_status, marker, finish}

abbrev pub is_done : Option Restored → Bool
is_done (some done) = true
is_done _ = false

abbrev pub is_failed : Option Restored → Bool
is_failed (some not_restored) = true
is_failed (some cut_off) = true
is_failed _ = false

-- The failure that an end reports.
unfoldable pub restore_failure : Fail → Option Restored → Fail
restore_failure failure none = failure
restore_failure failure (some done) = failure
restore_failure failure (some partial) = fail_of restore_incomplete
restore_failure failure (some not_restored) = fail_of restore_failed
restore_failure failure (some cut_off) = fail_of restore_failed

-- `except Exception`: a failure of the helper's own is one, too.
abbrev pub is_exception : Raised → Bool
is_exception (failed failure) = true
is_exception lock_lost = true
is_exception os_error = true
is_exception (other b) = b

-- `except Exception`, or `except BaseException`, with what is done instead.
abbrev pub guarded : {A : Type 0} → M A → M A → M A
guarded m instead = catch m (λ e. if is_exception e then instead else raise e)

abbrev pub guarded_from_all : {A : Type 0} → M A → M A → M A
guarded_from_all m instead = catch m (λ e. instead)

-- `finally`: what the second part raises takes the place of what the first did.
unfoldable pub finally : {A : Type 0} → M A → M (Unit {0}) → M A
unfolding ◌>>=◌
finally m after t = let (r, t') = m t in (after >> (λ t''. (r, t''))) t'

abbrev set_vars : (RollbackVars → RollbackVars) → M (Unit {0})
set_vars change = modify (λ t. record t { vars = change t.vars })

-- With the code back the tree is the old one; else it is what the attempt left.
abbrev tree_after : Restored → Tree → Tree
tree_after done left = old_tree
tree_after partial left = old_tree
tree_after _ left = left

abbrev pub rollback_limit : ℕ
rollback_limit = 300

is_none_left : Option (List ℕ) → Bool
is_none_left (some []) = true
is_none_left _ = false

abbrev pub is_time_limit : Reason → Bool
is_time_limit time_limit = true
is_time_limit _ = false

unfoldable pub still_runs : Bool → Bool → Option (List ℕ) → Bool
unfolding is_none_left
still_runs started stopped running = not started && not stopped && not (is_none_left running)

unfoldable pub end_failure : Fail → Option Restored → Bool → Bool → Fail
unfolding restore_failure
end_failure failure restore started still =
    if is_done restore && not started
    then fail_of (if still then not_stopped else interface_not_started)
    else restore_failure failure restore

unfoldable pub of_rollback : Fail → Fail
of_rollback failure =
    if is_time_limit failure.reason then record failure { rolled_back = true } else failure

unfoldable pub recorded_service : Option StatusInfo → Option String
recorded_service none = none
recorded_service (some status) = status.service

module _ (world : World) where
  note_restore : Restored → M (Unit {0})
  note_restore outcome = modify (λ t. record t { restore = some outcome })

  restore_snapshot : M Restored
  unfolding ask
  restore_snapshot = do
    left ← get (λ t. world.restore_leaves t.asks)
    outcome ← get (λ t. world.restores t.asks)
    modify (λ t. record t { tree = tree_after outcome left })
    ask world (λ n. tt)
    pure outcome

  -- The settings block is left out.
  unfoldable pub put_back : M Restored
  unfolding restore_snapshot note_restore
  put_back =
      guarded (do outcome ← restore_snapshot; note_restore outcome; pure outcome)
        (do note_restore not_restored; pure not_restored)

  unfoldable pub run_init : ℕ → M (Option ℕ)
  unfolding ask
  run_init level = do
    modify (λ t. record t { runlevels = level ∷ t.runlevels })
    ask world world.init_code

  -- `INIT_3_TRIES` is two.
  unfoldable pub start_interface : M (Unit {0})
  unfolding run_init sleep seconds
  start_interface = do
    code ← run_init 3
    when (not (code == some 0)) (do sleep world (seconds 2); discard (run_init 3))

  say_lastservice : M (Unit {0})
  say_lastservice = modify (λ t. record t { lastservice_said = true })

  pub put_lastservice : Bool → Option String → M (Unit {0})
  unfolding ask say_lastservice
  put_lastservice stopped service =
      when (stopped && is_some service)
        (guarded (do ask world (λ n. tt); say_lastservice) say_lastservice)

  -- Nothing runs any more; a look that could not be made does not say so.
  note_look : Option (List ℕ) → M Bool
  unfolding is_none_left
  note_look none = pure false
  note_look (some pids) = do
    set_vars (λ v. record v { survivors = pids; looked = true })
    pure (is_none_left (some pids))

  pub gone : M Bool
  unfolding ask note_look
  gone = do look ← ask world world.enigma2_look; note_look look

  -- A new process runs, and none of the survivors beside it.
  pub came_back : M Bool
  unfolding ask has_new
  came_back = do
    look ← ask world world.enigma2_look
    v ← get (λ t. t.vars)
    pure (elim look [
      | none ↦ false
      | some pids ↦
          (v.stopped || v.looked)
          && not (any (λ pid. contains pid v.survivors) pids)
          && has_new pids v.survivors
    ])

  pub record_state : M (Option StatusInfo)
  unfolding write_status marker ask
  record_state = do
    before ← get (λ t. t.before)
    guarded
        (do
          write_status world rolling_back
          marker world
          status ← ask world world.statusinfo
          pure (if is_some status then status else before))
        (pure before)

  stop_restore_start : Option String → M (Unit {0})
  unfolding run_init wait gone put_back put_lastservice start_interface
  stop_restore_start service = do
    run_init 4
    stopped ← wait world gone stop_wait
    set_vars (λ v. record v { stopped = stopped })
    put_back
    set_vars (λ v. record v { put_back_done = true })
    put_lastservice stopped service
    set_vars (λ v. record v { starting = true })
    start_interface
    set_vars (λ v. record v { sent = true })

  -- The steps that the unit had not reached, each guarded.
  make_up_stop : M (Unit {0})
  unfolding gone
  make_up_stop = do
    stopped ← guarded_from_all gone (pure false)
    set_vars (λ v. record v { stopped = stopped })

  make_up_restore : M (Unit {0})
  unfolding put_back note_restore
  make_up_restore = guarded_from_all (discard put_back) (note_restore cut_off)

  make_up_service : Option String → M (Unit {0})
  unfolding put_lastservice say_lastservice
  make_up_service service = do
    v ← get (λ t. t.vars)
    guarded_from_all (put_lastservice v.stopped service) say_lastservice

  make_up : Option String → M (Unit {0})
  unfolding make_up_stop make_up_restore make_up_service
  make_up service = do
    v ← get (λ t. t.vars)
    when (not v.stopped) make_up_stop
    when (not v.put_back_done) make_up_restore
    said ← get (λ t. t.lastservice_said)
    when (not said) (make_up_service service)

  cut_short : Option String → M (Unit {0})
  unfolding make_up start_interface
  cut_short service = do
    v ← get (λ t. t.vars)
    when (not v.sent) (do when (not v.starting) (make_up service); start_interface)

  -- Once `init 4` may have been sent.
  unfoldable pub stop_to_start : Option String → M (Unit {0})
  unfolding stop_restore_start cut_short
  stop_to_start service = do
    modify (λ t. record t { rolling_back = true; vars = at_start })
    finally (stop_restore_start service) (cut_short service)

  -- Whether an interface started, and the last look where none did.
  start_again : Bool → M (Bool × Option (List ℕ))
  unfolding ask start_interface wait came_back is_none_left
  start_again stopped = do
    running ← ask world world.enigma2_look
    if stopped || is_none_left running
        then (do
          start_interface
          started ← wait world came_back start_again_wait
          if started
              then pure (true, none)
              else (do look ← ask world world.enigma2_look; pure (false, look)))
        else pure (false, running)

  wait_for_start : M (Bool × Option (List ℕ))
  unfolding wait came_back start_again
  wait_for_start = do
    started ← wait world came_back start_wait
    v ← get (λ t. t.vars)
    if started then pure (true, none) else start_again v.stopped

  -- R3 is left out but for what it may raise.
  pub verify : Bool → ℕ → M (Unit {0})
  unfolding clock ask
  verify false limit = pure tt
  verify true limit = do
    now ← clock world
    when (ltb now limit) (guarded (ask world (λ n. tt)) (pure tt))

module _ (world : World) (request : Request) where
  unfoldable pub rollback : Fail → M ℕ
  unfolding clock seconds record_state stop_to_start wait_for_start verify finish
  rollback failure = do
    now ← clock world
    recorded ← record_state world
    stop_to_start world (recorded_service recorded)
    (started, running) ← wait_for_start world
    verify world (started && is_some recorded) (now + seconds rollback_limit)
    restore ← get (λ t. t.restore)
    v ← get (λ t. t.vars)
    finish world request (if is_done restore && started then rolled_back_end else failed_end) (
        some (
          end_failure (of_rollback failure) restore started (still_runs started v.stopped running)))
    pure 1
