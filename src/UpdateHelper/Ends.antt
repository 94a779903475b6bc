-- ===== src/UpdateHelper/Ends.antt =====
-- Where a transaction stands, and what its end may say.
use mathlib.Core.Path.{subst}
use enigma2_mqtt_bridge.Common.{
  ℕ, ◌≡◌, refl, ap, ◌⊎◌, inl, inr, Bool, true, false, Option, some, List, [], ◌∷◌,
}
use enigma2_mqtt_bridge.UpdateHelper.State.{
  Reason, restore_failed, internal_error, Fail, Raised, Outcome, installed,
  withdrawn_before_restart, rolled_back_end, failed_end, interrupted_end, End, Tree, old_tree,
  Restored, done, partial, finished, Request, Transaction, M,
}
use enigma2_mqtt_bridge.UpdateHelper.Receiver.{World}
use enigma2_mqtt_bridge.UpdateHelper.Ending.{finish, reason_of}
use enigma2_mqtt_bridge.UpdateHelper.Ending.Calm.{write_status-IsCalm, tidy-IsCalm}
use enigma2_mqtt_bridge.UpdateHelper.Logic.{
  Core, core, IsSame, IsCalm, IsFair, ask-IsCalm, get-IsCalm,
}
use enigma2_mqtt_bridge.UpdateHelper.After.{does_modify}
use enigma2_mqtt_bridge.UpdateHelper.Does.{On, Does, does_bind, does_calm}

-- The last runlevel that was asked for, if any was, starts the interface.
abbrev pub IsUp : List ℕ → Type 0
IsUp [] = Unit
IsUp (level ∷ levels) = level ≡ 3

-- What an end says is so: `installed` only when the new version was proved; `rolled_back` and
-- `withdrawn_before_restart` only with the old version on disk; and any other end with the old version
-- on disk, or with the reason that says that it is not, or with the lock lost.
abbrev pub IsHonest : Outcome → Option Reason → Bool → Tree → Bool → Type 0
IsHonest installed cause committed tree lost = committed ≡ true
IsHonest withdrawn_before_restart cause committed tree lost = tree ≡ old_tree
IsHonest rolled_back_end cause committed tree lost = tree ≡ old_tree
IsHonest failed_end cause committed tree lost =
    (tree ≡ old_tree) ⊎ ((cause ≡ some restore_failed) ⊎ (cause ≡ some internal_error))
IsHonest interrupted_end cause committed tree lost = (tree ≡ old_tree) ⊎ (lost ≡ true)

abbrev pub IsBack : Option Restored → Tree → Type 0
IsBack (some done) tree = tree ≡ old_tree
IsBack (some partial) tree = tree ≡ old_tree
IsBack _ tree = Unit

-- Before the package manager, and from then on.
abbrev pub Unchanged : Core → Type 0
Unchanged c = (c.files_changed ≡ false) × (c.tree ≡ old_tree) × (c.ends ≡ []) × IsUp c.runlevels

abbrev pub Changed : Core → Type 0
Changed c = (c.files_changed ≡ true) × (c.ends ≡ []) × IsUp c.runlevels

-- After a restore that returned.
abbrev pub Restoring : Restored → Core → Type 0
Restoring r c = Changed c × (c.restore ≡ some r) × IsBack (some r) c.tree

abbrev pub Over : Core → Bool → Type 0
Over c lost =
    (c.ended ≡ true)
    × IsUp c.runlevels
    × (e : End) × (c.ends ≡ e ∷ [])
    × IsHonest e.outcome e.cause c.committed c.tree lost

abbrev pub IsOpen : Core → Type 0
IsOpen c = (c.ends ≡ []) × IsUp c.runlevels

pub IsOpen-of_Unchanged : (c : Core) → Unchanged c → IsOpen c
IsOpen-of_Unchanged c (a, b, e, u) = (e, u)

-- The runs that are not over.
abbrev pub Going : Core → Type 0
Going c = Unchanged c ⊎ Changed c

abbrev pub Settled : Core → Bool → Type 0
Settled c lost = Going c ⊎ Over c lost

abbrev pub Broken : Raised → On
Broken e t = Settled (core t) t.lost × IsFair e t.lost

abbrev pub Ended : On
Ended t = Over (core t) t.lost

IsHonest-mono :
    (outcome : Outcome) (cause : Option Reason) (committed : Bool) (tree : Tree) (l l' : Bool)
    → (l ≡ true → l' ≡ true)
    → IsHonest outcome cause committed tree l
    → IsHonest outcome cause committed tree l'
IsHonest-mono installed cause committed tree l l' mono h = h
IsHonest-mono withdrawn_before_restart cause committed tree l l' mono h = h
IsHonest-mono rolled_back_end cause committed tree l l' mono h = h
IsHonest-mono failed_end cause committed tree l l' mono h = h
IsHonest-mono interrupted_end cause committed tree l l' mono (inl h) = inl h
IsHonest-mono interrupted_end cause committed tree l l' mono (inr h) = inr (mono h)

pub Over-mono : (c : Core) (l l' : Bool) → (l ≡ true → l' ≡ true) → Over c l → Over c l'
Over-mono c l l' mono (marked, up, e, one, honest) =
    (marked, up, e, one, IsHonest-mono e.outcome e.cause c.committed c.tree l l' mono honest)

pub stable_core : (P : Core → Type 0) (t u : Transaction) → IsSame t u → P (core t) → P (core u)
stable_core P t u same p = subst P same.0 p

pub stable_Ended : (t u : Transaction) → IsSame t u → Ended t → Ended u
stable_Ended t u same p =
    Over-mono (core u) t.lost u.lost same.1 (subst (λ c. Over c t.lost) same.0 p)

-- A calm call keeps where the transaction stands, and raises with it.
pub calm_keeps :
    {A : Type 0} {m : M A} (P : Core → Type 0)
    → ((c : Core) → P c → Going c)
    → IsCalm m
    → Does (λ t. P (core t)) m (λ a t. P (core t)) Broken
calm_keeps P going h = does_calm (stable_core P) (λ e t p fair. (inl (going (core t) p), fair)) h

pub calm_keeps_Ended : {A : Type 0} {m : M A} → IsCalm m → Does Ended m (λ a. Ended) Broken
calm_keeps_Ended h = does_calm stable_Ended (λ e t p fair. (inr p, fair)) h

-- A transaction that goes on, and an end that will be honest.
abbrev pub Ready : Outcome → Option Reason → On
Ready outcome cause t = Going (core t) × IsHonest outcome cause t.committed t.tree t.lost

-- The same, once it is marked as ended.
Marked : Outcome → Option Reason → On
Marked outcome cause t = Ready outcome cause t × (t.ended ≡ true)

stable_Marked :
    (outcome : Outcome) (cause : Option Reason) (t u : Transaction)
    → IsSame t u
    → Marked outcome cause t
    → Marked outcome cause u
unfolding Marked
stable_Marked outcome cause t u same ((going, honest), marked) = (
  (
    subst Going same.0 going,
    IsHonest-mono outcome cause u.committed u.tree t.lost u.lost same.1
        (subst (λ (c : Core). IsHonest outcome cause c.committed c.tree t.lost) same.0 honest),
  ),
  subst (λ (c : Core). c.ended ≡ true) same.0 marked,
)

keeps_Marked :
    {A : Type 0} {m : M A} (outcome : Outcome) (cause : Option Reason)
    → IsCalm m
    → Does (Marked outcome cause) m (λ a. Marked outcome cause) Broken
unfolding Marked
keeps_Marked outcome cause h =
    does_calm (stable_Marked outcome cause) (λ e t p fair. (inl p.0.0, fair)) h

Going-IsOpen : (c : Core) → Going c → IsOpen c
Going-IsOpen c (inl (a, b, e, u)) = (e, u)
Going-IsOpen c (inr (a, e, u)) = (e, u)

marked-Marked :
    (outcome : Outcome) (cause : Option Reason) (t : Transaction)
    → Ready outcome cause t
    → Marked outcome cause (record t { ended = true })
unfolding Marked
marked-Marked outcome cause t (going, honest) = ((going, honest), refl)

written-Ended :
    (outcome : Outcome) (cause : Option Reason) (t : Transaction)
    → Marked outcome cause t
    → Ended (record t { ends = record { outcome = outcome; cause = cause } ∷ t.ends })
unfolding Marked
written-Ended outcome cause t ((going, honest), marked) =
    let (none_yet, up) = Going-IsOpen (core t) going in
    (
      marked,
      up,
      record { outcome = outcome; cause = cause },
      ap (λ l. record { outcome = outcome; cause = cause } ∷ l) none_yet,
      honest,
    )

module _ (world : World) (request : Request) where
  -- An end that is honest when it is begun is written, and honest when it stands.
  pub finish_lem :
      (outcome : Outcome) (failure : Option Fail)
      → Does
          (Ready outcome (reason_of failure))
          (finish world request outcome failure)
          (λ u. Ended)
          Broken
  unfolding finish
  finish_lem outcome failure =
      does_bind (does_modify _ (marked-Marked outcome (reason_of failure))) (λ u.
        does_bind (keeps_Marked outcome _ (ask-IsCalm world _)) (λ u.
          does_bind (keeps_Marked outcome _ (write_status-IsCalm world finished)) (λ u.
            does_bind (does_modify _ (written-Ended outcome (reason_of failure))) (λ u.
              does_bind (calm_keeps_Ended (ask-IsCalm world _)) (λ u.
                does_bind (calm_keeps_Ended (get-IsCalm _))
                  (λ claimed. calm_keeps_Ended (tidy-IsCalm world request claimed)))))))
