-- ===== src/UpdateHelper/Waiting.antt =====
-- The waits of src/MQTTBridge/updatehelper.py: `wait` and `await_restart`. A loop sleeps once in a round,
-- so the rounds given are those that the clock leaves, and one.
pub mod Calm
pub mod Rounds
pub mod Forward
pub mod Restart
use enigma2_mqtt_bridge.Common.{
  ℕ, zero, suc, ◌+◌, ◌*◌, min, Bool, true, false, not, ◌&&◌, ◌||◌, Option, none, some, List, [],
  ◌∷◌, ◌++◌, ◌==◌, nat_eq, contains, any, leb, if◌then◌else◌,
}
use enigma2_mqtt_bridge.UpdateHelper.State.{
  Raised, lock_lost, restarting, Request, Transaction, M, pure, ◌>>=◌, ◌>>◌, raise_if_lost, modify,
  get, when, is_some,
}
use enigma2_mqtt_bridge.UpdateHelper.Receiver.{World, ask, clock, sleep}
use enigma2_mqtt_bridge.UpdateHelper.Ending.{write_status}

-- Times in microseconds.
unfoldable pub seconds : ℕ → ℕ
seconds n = n * 1_000_000

abbrev pub stop_wait : ℕ
stop_wait = 30

abbrev pub start_wait : ℕ
start_wait = 120

abbrev pub start_again_wait : ℕ
start_again_wait = 60

abbrev pub plugin_wait : ℕ
plugin_wait = 180

-- A process of the list that is none of the others.
unfoldable pub has_new : List ℕ → List ℕ → Bool
has_new pids others = any (λ pid. not (contains pid others)) pids

module _ (world : World) where
  unfoldable pub wait_until : ℕ → M Bool → ℕ → M Bool
  unfolding clock sleep seconds
  wait_until zero condition limit = pure false
  wait_until (suc rounds) condition limit =
      let rest = wait_until rounds condition limit in
      condition >>= λ met.
      if met
      then pure true
      else (clock world >>= λ now.
          if leb limit now then pure false else (sleep world (seconds 1) >> rest))

  unfoldable pub wait : M Bool → ℕ → M Bool
  unfolding wait_until
  wait condition time = do
    now ← clock world
    wait_until (suc (suc time)) condition (now + seconds time)

-- The plugin's word.
pub data Word : Type 0 where
  restarted withdrew timed_out signal_came : Word

module _ (world : World) (request : Request) where
  abbrev old_pid : ℕ
  old_pid = request.enigma2_pid

  restarted_now : M Word
  unfolding clock
  restarted_now = do
    now ← clock world
    modify (λ t. record t { restarted_at = some now })
    pure restarted

  -- The ways out of a round, in the order in which the code asks; `none` goes on.
  pub look_at_processes : List ℕ → M (Option Word)
  unfolding has_new restarted_now
  look_at_processes pids =
      if contains old_pid pids
      then (do modify (λ t. record t { restart_pids = t.restart_pids ++ pids }); pure none)
      else (do
        known ← get (λ t. t.restart_pids)
        if has_new pids known then (do word ← restarted_now; pure (some word)) else pure none)

  pub look_at_word : M (Option Word)
  unfolding ask raise_if_lost
  look_at_word = do
    file ← ask world world.withdraw_file
    if is_some file then pure (some withdrew) else (do
      raise_if_lost
      signal ← get (λ t. t.signalled)
      pure (if is_some signal then some signal_came else none))

  -- `asked` and `limit` after the round.
  pub look_at_request : Bool → ℕ → M (Bool × ℕ)
  unfolding ask clock write_status seconds
  look_at_request true limit = pure (true, limit)
  look_at_request false limit = do
    file ← ask world world.restart_file
    if file
        then (do
          now ← clock world
          write_status world restarting
          pure (true, now + seconds plugin_wait))
        else pure (false, limit)

  out_of_time : Bool → List ℕ → M Word
  unfolding restarted_now
  out_of_time asked pids =
      if not (contains old_pid pids) && asked then restarted_now else pure timed_out

  -- The rest of a round, after the plugin's word.
  go_round : (Bool × ℕ → M Word) → Bool → ℕ → List ℕ → M Word
  unfolding look_at_request clock out_of_time sleep seconds
  go_round rest asked limit pids = do
    next ← look_at_request asked limit
    now ← clock world
    deadline ← get (λ t. t.deadline)
    if leb (min next.1 deadline) now
        then out_of_time next.0 pids
        else (sleep world (seconds 1) >> rest next)

  after_word : (Bool × ℕ → M Word) → Bool → ℕ → List ℕ → Option Word → M Word
  unfolding go_round
  after_word rest asked limit pids (some word) = pure word
  after_word rest asked limit pids none = go_round rest asked limit pids

  after_look : (Bool × ℕ → M Word) → Bool → ℕ → List ℕ → Option Word → M Word
  unfolding look_at_word after_word
  after_look rest asked limit pids (some word) = pure word
  after_look rest asked limit pids none = look_at_word >>= after_word rest asked limit pids

  unfoldable pub await_from : ℕ → Bool → ℕ → M Word
  unfolding ask look_at_processes after_look
  await_from zero asked limit = pure timed_out
  await_from (suc rounds) asked limit =
      let rest = λ (next : Bool × ℕ). await_from rounds next.0 next.1 in
      ask world world.enigma2_pids >>= λ pids.
      look_at_processes pids >>= after_look rest asked limit pids

  -- Twice the wait for the plugin: the limit is set once more when the restart is asked for.
  unfoldable pub await_restart : M Word
  unfolding await_from
  await_restart = do now ← clock world; await_from 364 false (now + seconds plugin_wait)
