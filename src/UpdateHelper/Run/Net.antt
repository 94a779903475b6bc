-- ===== src/UpdateHelper/Run/Net.antt =====
-- The whole run: the claim, the forward path in its net, and what is left when it is over.
use enigma2_mqtt_bridge.Common.{ℕ, ◌≡◌, refl, ◌⊎◌, inl, inr, Option, none, some, [], ◌∷◌}
use enigma2_mqtt_bridge.UpdateHelper.State.{
  Fail, fail_of, fail, busy, internal_error, Raised, failed, lock_lost, os_error, other, failed_end,
  End, Request, M, ◌>>◌,
}
use enigma2_mqtt_bridge.UpdateHelper.Receiver.{World, ask}
use enigma2_mqtt_bridge.UpdateHelper.Choose.Calm.{refuse_if-IsCalm}
use enigma2_mqtt_bridge.UpdateHelper.Run.{
  retire, claim, owned_by_another, is_busy, end_unclaimed, claim_failed, try_to_claim, after_claim,
  run, new_transaction,
}
use enigma2_mqtt_bridge.UpdateHelper.Run.Undo.{Unchanged-Ready}
use enigma2_mqtt_bridge.UpdateHelper.Logic.{
  core, IsCalm, ask-IsCalm, clock-IsCalm, IsCalm-bind, pure-IsCalm, modify-IsCalm, when-IsCalm,
  fail-IsCalm, IsCalm-os_error,
}
use enigma2_mqtt_bridge.UpdateHelper.After.{does_catch, does_raise}
use enigma2_mqtt_bridge.UpdateHelper.Does.{
  On, does_calm, Holds, Does, does_bind, does_weaken, does_pure, does_if,
}
use enigma2_mqtt_bridge.UpdateHelper.Ends.{
  Unchanged, Settled, IsUp, IsHonest, stable_core, finish_lem,
}
use enigma2_mqtt_bridge.UpdateHelper.Run.Recovery.{
  Anyhow, Settled-after, IsHonest-of, IsUp-of, forward_in_net_lem,
}

module _ (world : World) (request : Request) where
  IsCalm-busy : IsCalm {A = Unit {0}} (do ask world world.renames; fail busy)
  IsCalm-busy = IsCalm-bind (ask-IsCalm world _) (λ renamed. fail-IsCalm busy)

  retire-IsCalm : IsCalm (retire world request)
  unfolding retire
  retire-IsCalm = IsCalm-bind (ask-IsCalm world _) (λ stale.
      IsCalm-bind (refuse_if-IsCalm _ _) (λ u. IsCalm-bind (ask-IsCalm world _) (λ renamed.
        IsCalm-bind (refuse_if-IsCalm _ _) (λ u. IsCalm-bind (ask-IsCalm world _) (λ still_stale.
          IsCalm-bind (when-IsCalm _ IsCalm-busy)
            (λ u. IsCalm-bind (ask-IsCalm world _) (λ made. refuse_if-IsCalm _ _)))))))

  claim-IsCalm : IsCalm (claim world request)
  unfolding claim
  claim-IsCalm = IsCalm-bind (ask-IsCalm world _) (λ made.
      IsCalm-bind (when-IsCalm _ retire-IsCalm) (λ u. IsCalm-bind (ask-IsCalm world _) (λ written.
        IsCalm-bind (when-IsCalm _ IsCalm-os_error)
          (λ u. modify-IsCalm _ (λ t. refl) (λ t. refl)))))

  owned_by_another-IsCalm : IsCalm (owned_by_another world request)
  unfolding owned_by_another
  owned_by_another-IsCalm = IsCalm-bind (ask-IsCalm world _) (λ owner. pure-IsCalm _)

  end_unclaimed_lem :
      (failure : Fail)
      → Does
          (λ t. Unchanged (core t))
          (end_unclaimed world request failure)
          (λ code. Holds Settled)
          Anyhow
  unfolding end_unclaimed Anyhow
  end_unclaimed_lem failure =
      does_bind
        (does_weaken (λ t p. Unchanged-Ready world request failure failed_end t p (inl refl))
          (λ a t p. p) (λ e t p. p.0) (finish_lem world request failed_end (some failure)))
        (λ u. does_pure 1 (λ t p. inr p))

  keeps_Unchanged :
      {A : Type 0} {m : M A}
      → IsCalm m
      → Does (λ t. Unchanged (core t)) m (λ a t. Unchanged (core t)) Anyhow
  unfolding Anyhow
  keeps_Unchanged h = does_calm (stable_core Unchanged) (λ e t p fair. inl (inl p)) h

  claim_failed_lem :
      (e : Raised)
      → Does (λ t. Unchanged (core t)) (claim_failed world request e) (λ code. Holds Settled) Anyhow
  unfolding claim_failed Anyhow
  claim_failed_lem (failed failure) =
      does_if (is_busy failure.reason)
        (does_bind (keeps_Unchanged owned_by_another-IsCalm) (λ another.
          does_if another (end_unclaimed_lem failure) (does_pure 1 (λ t p. inl (inl p)))))
        (end_unclaimed_lem failure)
  claim_failed_lem os_error = end_unclaimed_lem (fail_of internal_error)
  claim_failed_lem lock_lost = does_raise _ (λ t p. inl (inl p))
  claim_failed_lem (other b) = does_raise _ (λ t p. inl (inl p))

  -- After the attempt to get the lock.
  abbrev Claimed : Option ℕ → On
  Claimed none t = Unchanged (core t)
  Claimed (some code) t = Holds Settled t

  try_to_claim_lem : Does (λ t. Unchanged (core t)) (try_to_claim world request) (Claimed) Anyhow
  unfolding try_to_claim
  try_to_claim_lem =
      does_catch
        (does_bind
          (does_calm {E = λ e t. Unchanged (core t)} (stable_core Unchanged) (λ e t p fair. p)
            claim-IsCalm)
          (λ u. does_pure {Q = Claimed} none (λ t p. p)))
        (λ e.
          does_bind (claim_failed_lem e) (λ code. does_pure {Q = Claimed} (some code) (λ t p. p)))

  after_claim_lem :
      (claimed : Option ℕ)
      → Does (Claimed claimed) (after_claim world request claimed) (λ code. Holds Settled) Anyhow
  unfolding after_claim
  after_claim_lem none = forward_in_net_lem world request
  after_claim_lem (some code) = does_pure code (λ t p. p)

  pub run_lem : Does (λ t. Unchanged (core t)) (run world request) (λ code. Holds Settled) Anyhow
  unfolding run
  run_lem = does_bind (keeps_Unchanged (clock-IsCalm world)) (λ now.
      does_bind (keeps_Unchanged (modify-IsCalm _ (λ t. refl) (λ t. refl)))
        (λ u. does_bind try_to_claim_lem after_claim_lem))

  run-Settled : (now : ℕ) → Holds Settled (run world request (new_transaction now)).1
  unfolding new_transaction Anyhow
  run-Settled now =
      let t = new_transaction now in
      Settled-after (run world request t).0 (run world request t).1
        (run_lem.after t (refl, refl, refl, tt))

  -- Whatever the receiver answers, and whatever is raised whenever it is asked, one run of the helper
  -- writes at most one end, and that end is true: `installed` only with the new version committed,
  -- `rolled_back` and `withdrawn_before_restart` only with the old version on disk, `failed` with the old
  -- version on disk or with the reason `restore_failed` or `internal_error`, and `interrupted` with the
  -- old version on disk or with the lock lost.
  pub run-IsHonest :
      (now : ℕ)
      → let t = (run world request (new_transaction now)).1 in
        (t.ends ≡ [])
        ⊎ (e : End) × (t.ends ≡ e ∷ []) × IsHonest e.outcome e.cause t.committed t.tree t.lost
  run-IsHonest now =
      let t = (run world request (new_transaction now)).1 in
      IsHonest-of (core t) t.lost (run-Settled now)

  -- Whatever the receiver answers, and whatever is raised whenever it is asked, after a run of the helper
  -- the last runlevel that it asked `init` for, if it asked for any, is 3, which starts the interface.
  pub run-starts_interface : (now : ℕ) → IsUp (run world request (new_transaction now)).1.runlevels
  run-starts_interface now =
      let t = (run world request (new_transaction now)).1 in
      IsUp-of (core t) t.lost (run-Settled now)
