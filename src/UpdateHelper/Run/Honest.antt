-- ===== src/UpdateHelper/Run/Honest.antt =====
-- Every run of the helper ends honestly, whatever the receiver answers, whatever is raised and whenever.
use enigma2_mqtt_bridge.Common.{
  ◌≡◌, refl, sym, ◌∙◌, inl, inr, Bool, true, false, not, ◌&&◌, some, if◌then◌else◌,
}
use enigma2_mqtt_bridge.UpdateHelper.State.{
  Fail, fail_of, time_limit, Outcome, withdrawn_before_restart, failed_end, interrupted_end,
  Restored, Request, pure, ◌>>=◌,
}
use enigma2_mqtt_bridge.UpdateHelper.Receiver.{World, ask}
use enigma2_mqtt_bridge.UpdateHelper.Waiting.{Word, restarted, withdrew, timed_out, signal_came}
use enigma2_mqtt_bridge.UpdateHelper.Waiting.Calm.{await_restart-IsCalm}
use enigma2_mqtt_bridge.UpdateHelper.Ending.Calm.{write_status-IsCalm, marker-IsCalm}
use enigma2_mqtt_bridge.UpdateHelper.Rollback.{restore_failure}
use enigma2_mqtt_bridge.UpdateHelper.Rollback.Honest.{keeps_Changed, rollback_lem}
use enigma2_mqtt_bridge.UpdateHelper.Forward.Calm.{original_running-IsCalm}
use enigma2_mqtt_bridge.UpdateHelper.Forward.Honest.{prove_lem}
use enigma2_mqtt_bridge.UpdateHelper.Run.{
  before_restart_failed, is_interrupted, withdraw_failure, end_withdrawn, withdraw, reason_said,
  go_on, ask_for_restart, after_install, drill_requested,
}
use enigma2_mqtt_bridge.UpdateHelper.Logic.{
  Core, core, IsCalm, ask-IsCalm, pure-IsCalm, IsCalm-if, modify-IsCalm,
}
use enigma2_mqtt_bridge.UpdateHelper.Does.{
  Does, does_bind, does_weaken, does_get, does_pure, does_if, does_if_known,
}
use enigma2_mqtt_bridge.UpdateHelper.Ends.{
  Unchanged, Changed, Restoring, Going, Broken, Ended, finish_lem,
}
use enigma2_mqtt_bridge.UpdateHelper.Run.Undo.{
  restore_failure-IsHonest, IsPlain, put_back-Changed, keeps_Restoring, after_restart, undo_lem,
  end_unchanged_lem,
}

pub Going-Changed : (c : Core) → Going c → c.files_changed ≡ true → Changed c
Going-Changed c (inl h) e = absurd (cc)
Going-Changed c (inr h) e = h

Going-Unchanged : (c : Core) → Going c → c.files_changed ≡ false → Unchanged c
Going-Unchanged c (inl h) e = h
Going-Unchanged c (inr h) e = absurd (cc)

IsPlain-of : (b : Bool) → IsPlain (if b then interrupted_end else failed_end)
IsPlain-of true = inr (inl refl)
IsPlain-of false = inl refl

module _ (world : World) (request : Request) where
  pub before_restart_failed_lem :
      (failure : Fail)
      → Does (λ t. Going (core t)) (before_restart_failed world request failure) (λ a. Ended) Broken
  unfolding before_restart_failed
  before_restart_failed_lem failure = does_bind (does_get _) (λ changed.
      does_if_known changed
        (does_weaken (λ t p. Going-Changed (core t) p.0.0 (sym p.0.1 ∙ p.1)) (λ a t p. p)
          (λ e t p. p)
          (undo_lem world request failure _ (IsPlain-of (is_interrupted failure.reason))))
        (does_weaken (λ t p. Going-Unchanged (core t) p.0.0 (sym p.0.1 ∙ p.1)) (λ a t p. p)
          (λ e t p. p)
          (end_unchanged_lem world request failure _ (IsPlain-of (is_interrupted failure.reason)))))

  withdraw_other :
      (r : Restored) (late : Bool)
      → Does {A = Fail × Outcome}
          (λ t. Restoring r (core t))
          (do
            asked ← ask world world.restart_file
            if late && not asked then pure (fail_of time_limit, failed_end) else (do
              said ← ask world world.withdraw_file
              pure (fail_of (reason_said said), withdrawn_before_restart)))
          (λ a t. Restoring r (core t) × IsPlain a.1)
          Broken
  withdraw_other r late = does_bind (keeps_Restoring world request r (ask-IsCalm world _)) (λ asked.
      does_if _ (does_pure _ (λ t p. (p, inl refl))) (
        does_bind (keeps_Restoring world request r (ask-IsCalm world _))
          (λ said. does_pure _ (λ t p. (p, inr (inr refl))))))

  withdraw_failure_lem :
      (r : Restored) (word : Word)
      → Does
          (λ t. Restoring r (core t))
          (withdraw_failure world request word)
          (λ a t. Restoring r (core t) × IsPlain a.1)
          Broken
  unfolding withdraw_failure
  withdraw_failure_lem r signal_came = does_pure _ (λ t p. (p, inr (inl refl)))
  withdraw_failure_lem r restarted = withdraw_other r false
  withdraw_failure_lem r withdrew = withdraw_other r false
  withdraw_failure_lem r timed_out = withdraw_other r true

  end_withdrawn_lem :
      (r : Restored) (word : Word)
      → Does (λ t. Restoring r (core t)) (end_withdrawn world request word) (λ a. Ended) Broken
  unfolding end_withdrawn
  end_withdrawn_lem r word = does_bind (withdraw_failure_lem r word) (λ (failure, outcome).
      does_bind (does_get _) (λ restore.
        does_bind
          (does_weaken
            (λ t p. (
              inr p.0.0.0,
              rw (p.1 ∙ p.0.0.1) (
                  restore_failure-IsHonest failure r outcome t.tree t.committed t.lost p.0.0.2
                    p.0.1),
            ))
            (λ a t p. p) (λ e t p. p)
            (finish_lem world request _ (some (restore_failure failure restore))))
          (λ u. does_pure _ (λ t p. p))))

  withdraw_lem :
      (word : Word) → Does (λ t. Changed (core t)) (withdraw world request word) (λ a. Ended) Broken
  unfolding withdraw
  withdraw_lem word = does_bind (put_back-Changed world request) (λ r.
      does_bind (keeps_Restoring world request r (original_running-IsCalm world request))
        (λ running. does_if running (end_withdrawn_lem r word) (
          does_weaken (λ t p. p.0) (λ a t p. p) (λ e t p. p)
            (after_restart world request
              (does_if _ (prove_lem world request) (rollback_lem world request _))))))

  go_on_lem :
      (word : Word) → Does (λ t. Changed (core t)) (go_on world request word) (λ a. Ended) Broken
  unfolding go_on
  go_on_lem restarted = prove_lem world request
  go_on_lem withdrew = withdraw_lem withdrew
  go_on_lem timed_out = withdraw_lem timed_out
  go_on_lem signal_came = withdraw_lem signal_came

  ask_for_restart_lem :
      Does (λ t. Changed (core t)) (ask_for_restart world request) (λ a. Ended) Broken
  unfolding ask_for_restart
  ask_for_restart_lem = does_bind (keeps_Changed (write_status-IsCalm world _)) (λ u.
      does_bind (keeps_Changed (marker-IsCalm world))
        (λ marked. does_bind (keeps_Changed (await_restart-IsCalm world request)) go_on_lem))

  drill_requested-IsCalm : IsCalm (drill_requested world request)
  unfolding drill_requested
  drill_requested-IsCalm = IsCalm-if _ (ask-IsCalm world _) (pure-IsCalm _)

  pub after_install_lem :
      Does (λ t. Changed (core t)) (after_install world request) (λ a. Ended) Broken
  unfolding after_install
  after_install_lem = does_bind (keeps_Changed (ask-IsCalm world _)) (λ writable.
      does_bind (keeps_Changed (ask-IsCalm world _)) (λ status.
        does_bind (keeps_Changed (ask-IsCalm world _)) (λ running.
          does_bind (keeps_Changed (modify-IsCalm _ (λ t. refl) (λ t. refl))) (λ u.
            does_if _ (after_restart world request (rollback_lem world request _)) (
              does_bind (keeps_Changed drill_requested-IsCalm)
                (λ wanted. does_if wanted (rollback_lem world request _) ask_for_restart_lem))))))
