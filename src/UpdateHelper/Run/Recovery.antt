-- ===== src/UpdateHelper/Run/Recovery.antt =====
-- The nets under the forward path: what is left when something is raised in it.
use native.Mathlib.Omega.{arith}
use enigma2_mqtt_bridge.Common.{
  ℕ, ◌≡◌, refl, sym, ap, ◌∙◌, ◌⊎◌, inl, inr, Bool, true, false, not, ◌||◌, Option, none, some, [],
  ◌∷◌, if◌then◌else◌,
}
use enigma2_mqtt_bridge.Common.Result.{Result, ok, err}
use enigma2_mqtt_bridge.UpdateHelper.State.{
  Fail, fail_of, Reason, interrupted, internal_error, Raised, failed, lock_lost, os_error, other,
  Outcome, failed_end, interrupted_end, End, Request, Transaction, M, pure, ◌>>◌, raise,
}
use enigma2_mqtt_bridge.UpdateHelper.Receiver.{World}
use enigma2_mqtt_bridge.UpdateHelper.Ending.Calm.{release-IsCalm}
use enigma2_mqtt_bridge.UpdateHelper.Rollback.{is_exception, guarded_from_all}
use enigma2_mqtt_bridge.UpdateHelper.Forward.Honest.{Stopped, install_lem}
use enigma2_mqtt_bridge.UpdateHelper.Run.{
  forward, only_fail, recover, undo, finish_unless_ended, last_net, forward_in_net, after_try,
}
use enigma2_mqtt_bridge.UpdateHelper.Run.Honest.{
  before_restart_failed_lem, after_install_lem, Going-Changed,
}
use enigma2_mqtt_bridge.UpdateHelper.Run.Undo.{undo_lem, drop_snapshot-IsCalm}
use enigma2_mqtt_bridge.UpdateHelper.Logic.{Core, core, IsCalm}
use enigma2_mqtt_bridge.UpdateHelper.After.{
  calm_stays, does_catch, does_raise, does_when_known, does_guarded_from_all, does_finally,
}
use enigma2_mqtt_bridge.UpdateHelper.Does.{
  On, After, Fact, Holds, Lasts, Does, does_bind, does_weaken, does_get, does_pure, does_if,
  does_if_known, true-ne-false,
}
use enigma2_mqtt_bridge.UpdateHelper.Ends.{
  Unchanged, Changed, Going, Settled, Over-mono, IsUp, IsHonest, Broken, Ended, finish_lem,
}

Settled-Lasts : Lasts Settled
Settled-Lasts c l l' m (inl h) = inl h
Settled-Lasts c l l' m (inr h) = inr (Over-mono c l l' m h)

-- What is settled, also when something is raised.
unfoldable pub Anyhow : Raised → On
Anyhow e = Holds Settled

keeps_Settled :
    {A : Type 0} {m : M A} → IsCalm m → Does (Holds Settled) m (λ a. Holds Settled) Anyhow
unfolding Anyhow
keeps_Settled h =
    does_weaken (λ t p. p) (λ a t p. p) (λ e t p. p.0) (calm_stays Settled Settled-Lasts h)

keeps_Anyhow :
    {A : Type 0} {m : M A} (e : Raised) → IsCalm m → Does (Anyhow e) m (λ a. Anyhow e) Anyhow
unfolding Anyhow
keeps_Anyhow e h = keeps_Settled h

-- After the `try` of `forward`.
abbrev Tried : Option Fail → On
Tried none t = Changed (core t)
Tried (some failure) t = Going (core t)

only_fail_lem : (e : Raised) → Does (Stopped e) (only_fail e) Tried Broken
unfolding only_fail
only_fail_lem (failed failure) = does_pure _ (λ t p. p.0)
only_fail_lem lock_lost = does_raise _ (λ t p. (inl p.0, p.1))
only_fail_lem os_error = does_raise _ (λ t p. (inl p.0, p.1))
only_fail_lem (other b) = does_raise _ (λ t p. (inl p.0, p.1))

Going-of : (t : Transaction) → Holds Settled t → t.ended ≡ false → Going (core t)
Going-of t (inl h) e = h
Going-of t (inr h) e = absurd (true-ne-false (sym h.0 ∙ e))

ended_of : (b b' : Bool) → b ≡ b' → not b ≡ true → b' ≡ false
ended_of true b' e h = absurd (true-ne-false (sym h))
ended_of false b' e h = sym e

or_false : (a b c : Bool) → (a || b || c) ≡ false → c ≡ false
or_false a b c h = ground arith

to_undo :
    (t0 t : Transaction)
    → ((Holds Settled t × (t0 ≡ t)) × ((t0.committed || t0.rolling_back || t0.ended) ≡ false))
      × (t0.files_changed ≡ true)
    → Changed (core t)
to_undo t0 t (((settled, same), unsettled), changed) =
    Going-Changed (core t)
      (Going-of t settled
        (sym (ap (λ x. x.ended) same) ∙ or_false t0.committed t0.rolling_back t0.ended unsettled))
      (sym (ap (λ x. x.files_changed) same) ∙ changed)

first_part :
    (e : Raised) {m : M ℕ}
    → Does (Holds Settled) m (λ code. Holds Settled) Anyhow
    → Does (Broken e) m (λ code. Holds Settled) Anyhow
first_part e h = does_weaken (λ t p. p.0) (λ a t p. p) (λ e t p. p) h

pub Settled-after :
    (r : Result Raised ℕ) (t : Transaction)
    → After {A = ℕ} (λ code. Holds Settled) Anyhow r t
    → Holds Settled t
unfolding Anyhow
Settled-after (ok code) t h = h
Settled-after (err e) t h = h

pub IsHonest-of :
    (c : Core) (lost : Bool)
    → Settled c lost
    → (c.ends ≡ [])
      ⊎ (e : End) × (c.ends ≡ e ∷ []) × IsHonest e.outcome e.cause c.committed c.tree lost
IsHonest-of c lost (inl (inl h)) = inl h.2
IsHonest-of c lost (inl (inr h)) = inl h.1
IsHonest-of c lost (inr (marked, up, e, one, honest)) = inr (e, one, honest)

pub IsUp-of : (c : Core) (lost : Bool) → Settled c lost → IsUp c.runlevels
IsUp-of c lost (inl (inl h)) = h.3
IsUp-of c lost (inl (inr h)) = h.2
IsUp-of c lost (inr h) = h.1

module _ (world : World) (request : Request) where
  go_forward :
      (failure : Option Fail)
      → Does (Tried failure) (after_try world request failure) (λ a. Ended) Broken
  unfolding after_try
  go_forward none = after_install_lem world request
  go_forward (some failure) = before_restart_failed_lem world request failure

  forward_lem : Does (λ t. Unchanged (core t)) (forward world request) (λ a. Ended) Broken
  unfolding forward
  forward_lem =
      does_bind
        (does_catch
          (does_bind (install_lem world request) (λ u. does_pure {Q = Tried} none (λ t p. p)))
          only_fail_lem)
        go_forward

  finish_unless_ended_lem :
      (outcome : Outcome) (reason : Reason) (F : Fact)
      → ((t : Transaction) → Holds F t → IsHonest outcome (some reason) t.committed t.tree t.lost)
      → Does
          (λ t. Holds Settled t × Holds F t)
          (finish_unless_ended world request outcome reason)
          (λ u. Holds Settled)
          Anyhow
  unfolding finish_unless_ended Anyhow
  finish_unless_ended_lem outcome reason F honest = does_bind (does_get _) (λ ended.
      does_when_known (not ended)
        (does_weaken
          (λ t p. (Going-of t p.0.0.0 (ended_of ended t.ended p.0.1 p.1), honest t p.0.0.1))
          (λ a t p. inr p) (λ e t p. p.0)
          (finish_lem world request outcome (some (fail_of reason))))
        (λ t p. p.0.0))

  undo_settles :
      (failure : Fail)
      → Does
          (λ t. Changed (core t))
          (undo world request failure failed_end >> pure tt)
          (λ u. Holds Settled)
          Anyhow
  unfolding Anyhow
  undo_settles failure =
      does_bind
        (does_weaken (λ t p. p) (λ a t p. p) (λ e t p. p.0)
          (undo_lem world request failure failed_end (inl refl)))
        (λ code. does_pure tt (λ t p. inr p))

  recover_lem :
      (failure : Fail)
      → Does (Holds Settled) (recover world request failure) (λ u. Holds Settled) Anyhow
  unfolding recover Anyhow
  recover_lem failure = does_bind (does_get _) (λ t0.
      does_if_known (t0.committed || t0.rolling_back || t0.ended) (does_pure tt (λ t p. p.0.0)) (
        does_if_known t0.files_changed
          (does_weaken (λ t p. to_undo t0 t p) (λ a t p. p) (λ e t p. p) (undo_settles failure))
          (does_weaken (λ t p. p.0.0.0) (λ a t p. p) (λ e t p. p)
            (keeps_Settled (drop_snapshot-IsCalm world request)))))

  other_net_lem :
      (e : Raised)
      → Does {A = ℕ}
          (Holds Settled)
          (do
            guarded_from_all (recover world request (fail_of internal_error)) (pure tt)
            finish_unless_ended world request failed_end internal_error
            if is_exception e then pure 1 else raise e)
          (λ code. Holds Settled)
          Anyhow
  unfolding Anyhow
  other_net_lem e =
      does_bind
        (does_guarded_from_all {N = Holds Settled} (recover_lem _) (λ x t p. p)
          (does_pure tt (λ t p. p)))
        (λ u.
          does_bind
            (does_weaken (λ t p. (p, tt)) (λ a t p. p) (λ x t p. p)
              (finish_unless_ended_lem failed_end internal_error (λ c l. Unit)
                (λ t p. inr (inr refl))))
            (λ u. does_if (is_exception e) (does_pure 1 (λ t p. p)) (does_raise e (λ t p. p))))

  last_net_lem :
      (e : Raised) → Does (Broken e) (last_net world request e) (λ code. Holds Settled) Anyhow
  unfolding last_net Anyhow
  last_net_lem lock_lost =
      does_bind
        (does_weaken (λ t p. p) (λ a t p. p) (λ e t p. p)
          (finish_unless_ended_lem interrupted_end interrupted (λ c l. l ≡ true) (λ t p. inr p)))
        (λ u. does_pure 1 (λ t p. p))
  last_net_lem (failed failure) = first_part (failed failure) (other_net_lem (failed failure))
  last_net_lem os_error = first_part os_error (other_net_lem os_error)
  last_net_lem (other b) = first_part (other b) (other_net_lem (other b))

  forward_settles :
      Does (λ t. Unchanged (core t)) (forward world request) (λ code. Holds Settled) Broken
  forward_settles = does_weaken (λ t p. p) (λ a t p. inr p) (λ e t p. p) forward_lem

  pub forward_in_net_lem :
      Does (λ t. Unchanged (core t)) (forward_in_net world request) (λ code. Holds Settled) Anyhow
  unfolding forward_in_net
  forward_in_net_lem =
      does_finally {F = Anyhow} (does_catch forward_settles last_net_lem)
        (λ code. keeps_Settled (release-IsCalm world request))
        (λ e. keeps_Anyhow e (release-IsCalm world request))
