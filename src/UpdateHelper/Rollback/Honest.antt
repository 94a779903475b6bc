-- ===== src/UpdateHelper/Rollback/Honest.antt =====
-- A rollback ends honestly.
use mathlib.Core.Path.{subst}
use enigma2_mqtt_bridge.UpdateHelper.Ending.{finish}
use enigma2_mqtt_bridge.Common.{
  ℕ, ◌≡◌, ◌∙◌, refl, sym, inl, inr, Bool, true, false, ◌&&◌, Option, some, List, [], if◌then◌else◌,
}
use enigma2_mqtt_bridge.UpdateHelper.State.{
  Fail, failed_end, rolled_back_end, Tree, Restored, done, partial, not_restored, cut_off, Request,
  M, pure, ◌>>=◌, ◌>>◌, get,
}
use enigma2_mqtt_bridge.UpdateHelper.Receiver.{World}
use enigma2_mqtt_bridge.UpdateHelper.Waiting.{start_wait, start_again_wait}
use enigma2_mqtt_bridge.UpdateHelper.Waiting.Calm.{wait-IsCalm}
use enigma2_mqtt_bridge.UpdateHelper.Rollback.{
  start_interface, end_failure, of_rollback, still_runs, restore_failure, is_done, came_back,
  start_again, wait_for_start, rollback, recorded_service,
}
use enigma2_mqtt_bridge.UpdateHelper.Rollback.Calm.{
  came_back-IsCalm, record_state-IsCalm, verify-IsCalm,
}
use enigma2_mqtt_bridge.UpdateHelper.Rollback.Steps.{stop_to_start_lem}
use enigma2_mqtt_bridge.UpdateHelper.Rollback.Restores.{start_interface_lem}
use enigma2_mqtt_bridge.UpdateHelper.Logic.{core, IsCalm, ask-IsCalm, clock-IsCalm}
use enigma2_mqtt_bridge.UpdateHelper.After.{does_some}
use enigma2_mqtt_bridge.UpdateHelper.Does.{
  Does, does_bind, does_weaken, does_get, does_pure, does_if,
}
use enigma2_mqtt_bridge.UpdateHelper.Ends.{
  IsHonest, IsBack, Changed, Restoring, Broken, Ended, calm_keeps, finish_lem,
}

end_failure-IsHonest :
    (failure : Fail) (r : Restored) (tree : Tree) (committed lost started still : Bool)
    → IsBack (some r) tree
    → IsHonest
        (if is_done (some r) && started then rolled_back_end else failed_end)
        (some (end_failure failure (some r) started still).reason)
        committed
        tree
        lost
unfolding end_failure restore_failure
end_failure-IsHonest failure done tree committed lost true still h = h
end_failure-IsHonest failure done tree committed lost false still h = inl h
end_failure-IsHonest failure partial tree committed lost started still h = inl h
end_failure-IsHonest failure not_restored tree committed lost started still h = inr (inl refl)
end_failure-IsHonest failure cut_off tree committed lost started still h = inr (inl refl)

module _ (world : World) where
  keeps_Restoring :
      {A : Type 0} {m : M A} (r : Restored)
      → IsCalm m
      → Does (λ t. Restoring r (core t)) m (λ a t. Restoring r (core t)) Broken
  keeps_Restoring r h = calm_keeps (Restoring r) (λ c p. inr p.0) h

  restarts :
      (r : Restored)
      → Does
          (λ t. Restoring r (core t))
          (start_interface world)
          (λ u t. Restoring r (core t))
          Broken
  restarts r =
      does_weaken (λ t p. (p.0.0, p.0.1, p.1, p.2)) (λ a t p. ((p.0.0, p.0.1, p.1), p.0.2, p.0.3))
        (λ e t p. (inl (inr (p.0.0.0, p.0.0.1, p.0.1)), p.1))
        (start_interface_lem world
          (λ c l.
            (c.files_changed ≡ true)
            × (c.ends ≡ [])
            × (c.restore ≡ some r)
            × IsBack (some r) c.tree)
          (λ c l l' m p. p) (λ c l levels p. p))

  start_again_lem :
      (r : Restored) (stopped : Bool)
      → Does
          (λ t. Restoring r (core t))
          (start_again world stopped)
          (λ a t. Restoring r (core t))
          Broken
  unfolding start_again
  start_again_lem r stopped = does_bind (keeps_Restoring r (ask-IsCalm world _)) (λ running.
      does_if _
        (does_bind (restarts r) (λ u.
          does_bind
            (keeps_Restoring r
              (wait-IsCalm world (came_back world) start_again_wait (came_back-IsCalm world)))
            (λ started. does_if started (does_pure _ (λ t p. p)) (
              does_bind (keeps_Restoring r (ask-IsCalm world _))
                (λ look. does_pure _ (λ t p. p))))))
        (does_pure _ (λ t p. p)))

  wait_for_start_lem :
      (r : Restored)
      → Does (λ t. Restoring r (core t)) (wait_for_start world) (λ a t. Restoring r (core t)) Broken
  unfolding wait_for_start
  wait_for_start_lem r =
      does_bind
        (keeps_Restoring r
          (wait-IsCalm world (came_back world) start_wait (came_back-IsCalm world)))
        (λ started. does_bind (does_get _) (λ v.
          does_weaken (λ t p. p.0) (λ a t p. p) (λ e t p. p)
            (does_if started (does_pure _ (λ t p. p)) (start_again_lem r v.stopped))))

pub keeps_Changed :
    {A : Type 0} {m : M A}
    → IsCalm m
    → Does (λ t. Changed (core t)) m (λ a t. Changed (core t)) Broken
keeps_Changed h = calm_keeps Changed (λ c p. inr p) h

module _ (world : World) (request : Request) where
  rollback_end :
      (r : Restored) (failure : Fail) (started : Bool) (running : Option (List ℕ))
      → Does {A = ℕ}
          (λ t. Restoring r (core t))
          (do
            restore ← get (λ t. t.restore)
            v ← get (λ t. t.vars)
            finish world request
                (if is_done restore && started then rolled_back_end else failed_end)
                (some (
                  end_failure
                    (of_rollback failure)
                    restore
                    started
                    (still_runs started v.stopped running)))
            pure 1)
          (λ a. Ended)
          Broken
  rollback_end r failure started running = does_bind (does_get _) (λ restore.
      does_bind (does_get _) (λ v.
        does_bind
          (does_weaken
            (λ t ((back, e), same_vars). (
              inr back.0,
              subst
                  (λ (o : Option Restored).
                    IsHonest (if is_done o && started then rolled_back_end else failed_end)
                      (some
                        (end_failure (of_rollback failure) o started
                          (still_runs started v.stopped running)).reason)
                      t.committed t.tree t.lost)
                  (sym (e ∙ back.1))
                  (end_failure-IsHonest (of_rollback failure) r t.tree t.committed t.lost started
                    (still_runs started v.stopped running) back.2),
            ))
            (λ a t p. p) (λ e t p. p) (finish_lem world request _ _))
          (λ u. does_pure 1 (λ t p. p))))

  -- A rollback ends the transaction, honestly.
  pub rollback_lem :
      (failure : Fail)
      → Does (λ t. Changed (core t)) (rollback world request failure) (λ a. Ended) Broken
  unfolding rollback
  rollback_lem failure = does_bind (keeps_Changed (clock-IsCalm world)) (λ now.
      does_bind (keeps_Changed (record_state-IsCalm world)) (λ recorded.
        does_bind
          (does_weaken (λ t p. p) (λ a t p. p) (λ e t p. (inl (inr p.0), p.1))
            (stop_to_start_lem world (recorded_service recorded)))
          (λ u. does_some (λ r. does_bind (wait_for_start_lem world r) (λ (started, running).
            does_bind (keeps_Restoring world r (verify-IsCalm world _ _))
              (λ u. rollback_end r failure started running))))))
