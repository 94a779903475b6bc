-- ===== src/UpdateHelper/Waiting/Calm.antt =====
-- Waiting leaves the core of the transaction alone.
use enigma2_mqtt_bridge.Common.{
  ℕ, zero, suc, ◌+◌, refl, Bool, true, false, Option, none, some, List,
}
use enigma2_mqtt_bridge.UpdateHelper.State.{Request, M}
use enigma2_mqtt_bridge.UpdateHelper.Receiver.{World}
use enigma2_mqtt_bridge.UpdateHelper.Waiting.{
  seconds, plugin_wait, wait_until, wait, restarted_now, look_at_processes, look_at_word,
  look_at_request, out_of_time, await_from, await_restart, Word, go_round, after_word, after_look,
}
use enigma2_mqtt_bridge.UpdateHelper.Ending.Calm.{write_status-IsCalm}
use enigma2_mqtt_bridge.UpdateHelper.Logic.{
  IsCalm, IsCalm-bind, pure-IsCalm, get-IsCalm, IsCalm-if, modify-IsCalm, ask-IsCalm, clock-IsCalm,
  sleep-IsCalm, raise_if_lost-IsCalm,
}

module _ (world : World) where
  pub wait_until-IsCalm :
      (rounds : ℕ) (condition : M Bool) (limit : ℕ)
      → IsCalm condition
      → IsCalm (wait_until world rounds condition limit)
  unfolding wait_until
  wait_until-IsCalm zero condition limit h = pure-IsCalm false
  wait_until-IsCalm (suc rounds) condition limit h = IsCalm-bind h (λ met.
      IsCalm-if met (pure-IsCalm true) (
        IsCalm-bind (clock-IsCalm world) (λ now.
          IsCalm-if _ (pure-IsCalm false) (
            IsCalm-bind (sleep-IsCalm world _) (λ u. wait_until-IsCalm rounds condition limit h)))))

  pub wait-IsCalm :
      (condition : M Bool) (time : ℕ) → IsCalm condition → IsCalm (wait world condition time)
  unfolding wait
  wait-IsCalm condition time h =
      IsCalm-bind (clock-IsCalm world)
        (λ now. wait_until-IsCalm (suc (suc time)) condition (now + seconds time) h)

module _ (world : World) (request : Request) where
  restarted_now-IsCalm : IsCalm (restarted_now world request)
  unfolding restarted_now
  restarted_now-IsCalm =
      IsCalm-bind (clock-IsCalm world)
        (λ now. IsCalm-bind (modify-IsCalm _ (λ t. refl) (λ t. refl)) (λ u. pure-IsCalm _))

  look_at_processes-IsCalm : (pids : List ℕ) → IsCalm (look_at_processes world request pids)
  unfolding look_at_processes
  look_at_processes-IsCalm pids =
      IsCalm-if _ (IsCalm-bind (modify-IsCalm _ (λ t. refl) (λ t. refl)) (λ u. pure-IsCalm _)) (
        IsCalm-bind (get-IsCalm _) (λ known.
          IsCalm-if _ (IsCalm-bind restarted_now-IsCalm (λ word. pure-IsCalm _)) (pure-IsCalm _)))

  look_at_request-IsCalm :
      (asked : Bool) (limit : ℕ) → IsCalm (look_at_request world request asked limit)
  unfolding look_at_request
  look_at_request-IsCalm true limit = pure-IsCalm _
  look_at_request-IsCalm false limit = IsCalm-bind (ask-IsCalm world _) (λ file.
      IsCalm-if file
        (IsCalm-bind (clock-IsCalm world)
          (λ now. IsCalm-bind (write_status-IsCalm world _) (λ u. pure-IsCalm _)))
        (pure-IsCalm _))

  out_of_time-IsCalm :
      (asked : Bool) (pids : List ℕ) → IsCalm (out_of_time world request asked pids)
  unfolding out_of_time
  out_of_time-IsCalm asked pids = IsCalm-if _ restarted_now-IsCalm (pure-IsCalm _)

  look_at_word-IsCalm : IsCalm (look_at_word world request)
  unfolding look_at_word
  look_at_word-IsCalm = IsCalm-bind (ask-IsCalm world _) (λ file. IsCalm-if _ (pure-IsCalm _) (
      IsCalm-bind raise_if_lost-IsCalm (λ u. IsCalm-bind (get-IsCalm _) (λ signal. pure-IsCalm _))))

  module _ (rest : Bool × ℕ → M Word) (h : (next : Bool × ℕ) → IsCalm (rest next)) where
    go_round-IsCalm :
        (asked : Bool) (limit : ℕ) (pids : List ℕ)
        → IsCalm (go_round world request rest asked limit pids)
    unfolding go_round
    go_round-IsCalm asked limit pids = IsCalm-bind (look_at_request-IsCalm asked limit) (λ next.
        IsCalm-bind (clock-IsCalm world) (λ now. IsCalm-bind (get-IsCalm _) (λ deadline.
          IsCalm-if _ (out_of_time-IsCalm _ pids)
            (IsCalm-bind (sleep-IsCalm world _) (λ u. h next)))))

    after_word-IsCalm :
        (asked : Bool) (limit : ℕ) (pids : List ℕ) (said : Option Word)
        → IsCalm (after_word world request rest asked limit pids said)
    unfolding after_word
    after_word-IsCalm asked limit pids (some word) = pure-IsCalm word
    after_word-IsCalm asked limit pids none = go_round-IsCalm asked limit pids

    after_look-IsCalm :
        (asked : Bool) (limit : ℕ) (pids : List ℕ) (back : Option Word)
        → IsCalm (after_look world request rest asked limit pids back)
    unfolding after_look
    after_look-IsCalm asked limit pids (some word) = pure-IsCalm word
    after_look-IsCalm asked limit pids none =
        IsCalm-bind look_at_word-IsCalm (after_word-IsCalm asked limit pids)

  await_from-IsCalm :
      (rounds : ℕ) (asked : Bool) (limit : ℕ) → IsCalm (await_from world request rounds asked limit)
  unfolding await_from
  await_from-IsCalm zero asked limit = pure-IsCalm _
  await_from-IsCalm (suc rounds) asked limit = IsCalm-bind (ask-IsCalm world _) (λ pids.
      IsCalm-bind (look_at_processes-IsCalm pids)
        (after_look-IsCalm _ (λ next. await_from-IsCalm rounds next.0 next.1) asked limit pids))

  pub await_restart-IsCalm : IsCalm (await_restart world request)
  unfolding await_restart
  await_restart-IsCalm =
      IsCalm-bind (clock-IsCalm world)
        (λ now. await_from-IsCalm 364 false (now + seconds plugin_wait))
