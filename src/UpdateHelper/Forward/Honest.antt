-- ===== src/UpdateHelper/Forward/Honest.antt =====
-- The forward path up to the package manager and through it, the proof, and the commit.
use enigma2_mqtt_bridge.Common.{◌≡◌, refl, inl, inr, Bool, true, false, none}
use enigma2_mqtt_bridge.UpdateHelper.State.{Raised, installed, Request, M}
use enigma2_mqtt_bridge.UpdateHelper.Receiver.{World}
use enigma2_mqtt_bridge.UpdateHelper.Ending.Calm.{
  write_status-IsCalm, marker-IsCalm, release-IsCalm,
}
use enigma2_mqtt_bridge.UpdateHelper.Rollback.Honest.{keeps_Changed, rollback_lem}
use enigma2_mqtt_bridge.UpdateHelper.Forward.{run_opkg, install, commit, prove}
use enigma2_mqtt_bridge.UpdateHelper.Forward.Calm.{
  fetch-IsCalm, verify_package-IsCalm, snapshot_step-IsCalm, before_opkg-IsCalm, after_opkg-IsCalm,
  prove_from-IsCalm,
}
use enigma2_mqtt_bridge.UpdateHelper.Logic.{
  Core, core, IsCalm, IsFair, ask-IsCalm, clock-IsCalm, get-IsCalm,
}
use enigma2_mqtt_bridge.UpdateHelper.After.{calm_stays, does_modify}
use enigma2_mqtt_bridge.UpdateHelper.Does.{On, Does, does_bind, does_weaken, does_pure, does_if}
use enigma2_mqtt_bridge.UpdateHelper.Ends.{
  Unchanged, Changed, Going, Broken, Ended, calm_keeps, finish_lem,
}

-- An exception while the transaction goes on.
abbrev pub Stopped : Raised → On
Stopped e t = Going (core t) × IsFair e t.lost

pub stays_Unchanged :
    {A : Type 0} {m : M A}
    → IsCalm m
    → Does (λ t. Unchanged (core t)) m (λ a t. Unchanged (core t)) Stopped
stays_Unchanged h =
    does_weaken (λ t p. p) (λ a t p. p) (λ e t p. (inl p.0, p.1))
      (calm_stays (λ c l. Unchanged c) (λ c l l' m p. p) h)

stays_Changed :
    {A : Type 0} {m : M A}
    → IsCalm m
    → Does (λ t. Changed (core t)) m (λ a t. Changed (core t)) Stopped
stays_Changed h =
    does_weaken (λ t p. p) (λ a t p. p) (λ e t p. (inr p.0, p.1))
      (calm_stays (λ c l. Changed c) (λ c l l' m p. p) h)

-- The new version was proved.
abbrev Proved : Core → Type 0
Proved c = Changed c × (c.committed ≡ true)

keeps_Proved :
    {A : Type 0} {m : M A}
    → IsCalm m
    → Does (λ t. Proved (core t)) m (λ a t. Proved (core t)) Broken
keeps_Proved h = calm_keeps Proved (λ c p. inr p.0) h

module _ (world : World) (request : Request) where
  run_opkg_lem :
      (forced : Bool)
      → Does
          (λ t. Changed (core t))
          (run_opkg world request forced)
          (λ a t. Changed (core t))
          Stopped
  unfolding run_opkg
  run_opkg_lem forced =
      does_bind (does_modify _ (λ t p. p)) (λ u. stays_Changed (ask-IsCalm world _))

  -- Where the forward path stops, it stops with the old version on disk, or from the package manager on.
  pub install_lem :
      Does (λ t. Unchanged (core t)) (install world request) (λ u t. Changed (core t)) Stopped
  unfolding install
  install_lem = does_bind (stays_Unchanged (fetch-IsCalm world request)) (λ entry.
      does_bind (stays_Unchanged (verify_package-IsCalm world request entry)) (λ u.
        does_bind (stays_Unchanged (snapshot_step-IsCalm world request)) (λ u.
          does_bind (stays_Unchanged (get-IsCalm _)) (λ lower.
            does_bind (stays_Unchanged (before_opkg-IsCalm world request)) (λ u.
              does_bind (does_modify {Q = λ t. Changed (core t)} _ (λ t p. (refl, p.2, p.3))) (λ u.
                does_bind (run_opkg_lem _)
                  (λ code. stays_Changed (after_opkg-IsCalm world request code))))))))

  -- A commit ends the transaction as installed.
  commit_lem : Does (λ t. Changed (core t)) (commit world request) (λ a. Ended) Broken
  unfolding commit
  commit_lem = does_bind (does_modify {Q = λ t. Proved (core t)} _ (λ t p. (p, refl))) (λ u.
      does_bind (keeps_Proved (release-IsCalm world request)) (λ u.
        does_bind (keeps_Proved (ask-IsCalm world _)) (λ u.
          does_bind
            (does_weaken (λ t p. (inr p.0, p.1)) (λ a t p. p) (λ e t p. p)
              (finish_lem world request installed none))
            (λ u. does_pure 0 (λ t p. p)))))

  pub prove_lem : Does (λ t. Changed (core t)) (prove world request) (λ a. Ended) Broken
  unfolding prove
  prove_lem = does_bind (keeps_Changed (write_status-IsCalm world _)) (λ u.
      does_bind (keeps_Changed (marker-IsCalm world)) (λ marked.
        does_bind (keeps_Changed (clock-IsCalm world)) (λ opened.
          does_bind (keeps_Changed (get-IsCalm _)) (λ deadline.
            does_bind (keeps_Changed (get-IsCalm _)) (λ known.
              does_bind (keeps_Changed (prove_from-IsCalm world request 62 false _ _))
                (λ proved. does_if proved commit_lem (rollback_lem world request _)))))))
