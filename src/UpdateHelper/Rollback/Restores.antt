-- ===== src/UpdateHelper/Rollback/Restores.antt =====
-- A restore and the start of the interface: what they leave of a transaction, whatever is raised.
use enigma2_mqtt_bridge.Common.{ℕ, ◌≡◌, refl, Bool, true, false, Option, some, List, [], ◌∷◌}
use enigma2_mqtt_bridge.UpdateHelper.State.{
  Raised, Tree, Restored, done, partial, not_restored, cut_off,
}
use enigma2_mqtt_bridge.UpdateHelper.Receiver.{World}
use enigma2_mqtt_bridge.UpdateHelper.Rollback.{
  tree_after, note_restore, restore_snapshot, put_back, run_init, start_interface,
}
use enigma2_mqtt_bridge.UpdateHelper.Logic.{
  Core, core, IsFair, IsFair-mono, ask-IsCalm, sleep-IsCalm,
}
use enigma2_mqtt_bridge.UpdateHelper.After.{calm_stays, does_modify, does_guarded, does_when}
use enigma2_mqtt_bridge.UpdateHelper.Does.{
  On, Fact, Holds, Lasts, Does, does_bind, does_weaken, does_get, does_pure,
}
use enigma2_mqtt_bridge.UpdateHelper.Ends.{IsUp, IsBack}

abbrev pub Fairly : Fact → Raised → On
Fairly P e t = Holds P t × IsFair e t.lost

tree_after-IsBack : (r : Restored) (left : Tree) → IsBack (some r) (tree_after r left)
tree_after-IsBack done left = refl
tree_after-IsBack partial left = refl
tree_after-IsBack not_restored left = tt
tree_after-IsBack cut_off left = tt

-- With a fact also the restore that it was, or the runlevel.
abbrev pub AndBack : Fact → Restored → Fact
AndBack P r c l = P c l × (c.restore ≡ some r) × IsBack (some r) c.tree

abbrev pub AndUp : Fact → Fact
AndUp P c l = P c l × IsUp c.runlevels

module _ (world : World) (P : Fact) (lasts : Lasts P) where
  -- A restore, whatever else holds that does not speak of the tree or of the restore.
  module _
      (keep : (c : Core) (l : Bool) (r : Option Restored) (tree : Tree)
        → P c l
        → P (record c { restore = r; tree = tree }) l) where
    restore_snapshot_lem :
        Does
          (Holds P)
          (restore_snapshot world)
          (λ r t. Holds P t × IsBack (some r) t.tree)
          (Fairly P)
    unfolding restore_snapshot
    restore_snapshot_lem = does_bind (does_get _) (λ left. does_bind (does_get _) (λ outcome.
        does_bind
          (does_modify _ (λ t p. (
            keep (core t) t.lost t.restore (tree_after outcome left) p.0.0,
            tree_after-IsBack outcome left,
          )))
          (λ u.
            does_bind
              (does_weaken (λ t p. p) (λ a t p. p) (λ e t p. (p.0.0, p.1))
                (calm_stays (λ c l. P c l × IsBack (some outcome) c.tree)
                  (λ c l l' m p. (lasts c l l' m p.0, p.1)) (ask-IsCalm world _)))
              (λ u. does_pure outcome (λ t p. p)))))

    note_lem :
        (r : Restored) {E : Raised → On}
        → Does
            (λ t. Holds P t × IsBack (some r) t.tree)
            (note_restore world r)
            (λ u. Holds (AndBack P r))
            E
    unfolding note_restore
    note_lem r = does_modify _ (λ t p. (keep (core t) t.lost (some r) t.tree p.0, refl, p.1))

    pub put_back_lem : Does (Holds P) (put_back world) (λ r. Holds (AndBack P r)) (Fairly P)
    unfolding put_back
    put_back_lem =
        does_guarded
          (does_bind restore_snapshot_lem
            (λ r. does_bind (note_lem r) (λ u. does_pure r (λ t p. p))))
          (λ e t p. p.0)
          (does_bind
            (does_weaken (λ t p. (p, tt)) (λ a t p. p) (λ e t p. p) (note_lem not_restored))
            (λ u. does_pure not_restored (λ t p. p)))

  module _
      (keep : (c : Core) (l : Bool) (levels : List ℕ)
        → P c l
        → P (record c { runlevels = levels }) l) where
    AndUp-Lasts : Lasts (AndUp P)
    AndUp-Lasts c l l' m p = (lasts c l l' m p.0, p.1)

    run_init_lem : Does (Holds P) (run_init world 3) (λ a. Holds (AndUp P)) (Fairly (AndUp P))
    unfolding run_init
    run_init_lem =
        does_bind (does_modify _ (λ t p. (keep (core t) t.lost (3 ∷ t.runlevels) p, refl)))
          (λ u. calm_stays (AndUp P) AndUp-Lasts (ask-IsCalm world _))

    pub start_interface_lem :
        Does (Holds P) (start_interface world) (λ a. Holds (AndUp P)) (Fairly (AndUp P))
    unfolding start_interface
    start_interface_lem = does_bind run_init_lem (λ code.
        does_when _
          (does_bind (calm_stays (AndUp P) AndUp-Lasts (sleep-IsCalm world _)) (λ u.
            does_bind (does_weaken (λ t p. p.0) (λ a t p. p) (λ e t p. p) run_init_lem)
              (λ code. does_pure tt (λ t p. p))))
          (λ t p. p))

-- Within the unit that stops, restores and starts: nothing is said of the runlevel until it is done.
abbrev pub Within : Bool → Fact
Within sent c l = (c.files_changed ≡ true) × (c.ends ≡ []) × (c.sent ≡ sent)

-- The same while an exception is on its way.
abbrev pub During : Raised → Fact
During e c l = Within false c l × IsFair e l

pub Within-Lasts : (sent : Bool) → Lasts (Within sent)
Within-Lasts sent c l l' m p = p

pub During-Lasts : (e : Raised) → Lasts (During e)
During-Lasts e c l l' m p = (p.0, IsFair-mono e l l' m p.1)

pub Put-Lasts : (sent : Bool) (r : Restored) → Lasts (AndBack (Within sent) r)
Put-Lasts sent r c l l' m p = p
