-- ===== src/UpdateHelper/Run/Undo.antt =====
-- The ways back of src/MQTTBridge/updatehelper.py end honestly: `undo`, and an end with nothing changed.
use enigma2_mqtt_bridge.Common.{
  ℕ, ◌≡◌, refl, ◌∙◌, ◌⊎◌, inl, inr, Bool, Option, none, some, if◌then◌else◌,
}
use enigma2_mqtt_bridge.UpdateHelper.State.{
  Fail, Outcome, withdrawn_before_restart, failed_end, interrupted_end, Tree, Restored, done,
  partial, not_restored, cut_off, Request, Transaction, M, ◌>>◌,
}
use enigma2_mqtt_bridge.UpdateHelper.Receiver.{World}
use enigma2_mqtt_bridge.UpdateHelper.Rollback.{is_done, restore_failure, put_back}
use enigma2_mqtt_bridge.UpdateHelper.Rollback.Restores.{put_back_lem}
use enigma2_mqtt_bridge.UpdateHelper.Rollback.Honest.{keeps_Changed, rollback_lem}
use enigma2_mqtt_bridge.UpdateHelper.Forward.Calm.{original_running-IsCalm}
use enigma2_mqtt_bridge.UpdateHelper.Run.{
  note_restart, undo_in_place, gone_already, undo, drop_snapshot, end_unchanged,
}
use enigma2_mqtt_bridge.UpdateHelper.Logic.{
  core, IsCalm, ask-IsCalm, clock-IsCalm, get-IsCalm, IsCalm-bind, pure-IsCalm, modify-IsCalm,
  when-IsCalm,
}
use enigma2_mqtt_bridge.UpdateHelper.Does.{
  Does, does_bind, does_weaken, does_get, does_pure, does_if,
}
use enigma2_mqtt_bridge.UpdateHelper.Ends.{
  Unchanged, Changed, Restoring, IsBack, IsHonest, Broken, Ended, Ready, calm_keeps, finish_lem,
}

-- An end that a restore allows.
pub restore_failure-IsHonest :
    (failure : Fail) (r : Restored) (outcome : Outcome) (tree : Tree) (committed lost : Bool)
    → IsBack (some r) tree
    → (outcome ≡ failed_end) ⊎ ((outcome ≡ interrupted_end) ⊎ (outcome ≡ withdrawn_before_restart))
    → IsHonest
        (if is_done (some r) then outcome else failed_end)
        (some (restore_failure failure (some r)).reason)
        committed
        tree
        lost
unfolding restore_failure
restore_failure-IsHonest failure done outcome tree committed lost h (inl e) = rw e (inl h)
restore_failure-IsHonest failure done outcome tree committed lost h (inr (inl e)) = rw e (inl h)
restore_failure-IsHonest failure done outcome tree committed lost h (inr (inr e)) = rw e h
restore_failure-IsHonest failure partial outcome tree committed lost h e = inl h
restore_failure-IsHonest failure not_restored outcome tree committed lost h e = inr (inl refl)
restore_failure-IsHonest failure cut_off outcome tree committed lost h e = inr (inl refl)

-- The outcomes of the ends that are not a rollback's or a commit's.
abbrev pub IsPlain : Outcome → Type 0
IsPlain outcome =
    (outcome ≡ failed_end) ⊎ ((outcome ≡ interrupted_end) ⊎ (outcome ≡ withdrawn_before_restart))

module _ (world : World) (request : Request) where
  note_restart-IsCalm : IsCalm (note_restart world request)
  unfolding note_restart
  note_restart-IsCalm =
      IsCalm-bind (clock-IsCalm world) (λ now. modify-IsCalm _ (λ t. refl) (λ t. refl))

  pub put_back-Changed :
      Does (λ t. Changed (core t)) (put_back world) (λ r t. Restoring r (core t)) Broken
  put_back-Changed =
      does_weaken (λ t p. p) (λ a t p. p) (λ e t p. (inl (inr p.0), p.1))
        (put_back_lem world (λ c l. Changed c) (λ c l l' m p. p) (λ c l r tree p. p))

  pub keeps_Restoring :
      {A : Type 0} {m : M A} (r : Restored)
      → IsCalm m
      → Does (λ t. Restoring r (core t)) m (λ a t. Restoring r (core t)) Broken
  keeps_Restoring r h = calm_keeps (Restoring r) (λ c p. inr p.0) h

  pub after_restart :
      {A : Type 0} {m : M A}
      → Does (λ t. Changed (core t)) m (λ a. Ended) Broken
      → Does (λ t. Changed (core t)) (note_restart world request >> m) (λ a. Ended) Broken
  after_restart h = does_bind (keeps_Changed note_restart-IsCalm) (λ u. h)

  undo_in_place_lem :
      (failure : Fail) (outcome : Outcome)
      → IsPlain outcome
      → Does
          (λ t. Changed (core t))
          (undo_in_place world request failure outcome)
          (λ a. Ended)
          Broken
  unfolding undo_in_place
  undo_in_place_lem failure outcome plain = does_bind put_back-Changed (λ r.
      does_bind (keeps_Restoring r (original_running-IsCalm world request)) (λ running.
        does_bind (does_get _) (λ restore.
          does_if _
            (does_weaken (λ t p. p.0.0) (λ a t p. p) (λ e t p. p)
              (after_restart (rollback_lem world request failure)))
            (does_bind
              (does_weaken
                (λ t p. (
                  inr p.0.0,
                  rw (p.1 ∙ p.0.1) (
                      restore_failure-IsHonest failure r outcome t.tree t.committed t.lost p.0.2
                        plain),
                ))
                (λ a t p. p) (λ e t p. p)
                (finish_lem world request _ (some (restore_failure failure restore))))
              (λ u. does_pure 1 (λ t p. p))))))

  gone_already-IsCalm : (at : Option ℕ) → IsCalm (gone_already world request at)
  unfolding gone_already
  gone_already-IsCalm (some at) = pure-IsCalm _
  gone_already-IsCalm none =
      IsCalm-bind (original_running-IsCalm world request) (λ running. pure-IsCalm _)

  pub undo_lem :
      (failure : Fail) (outcome : Outcome)
      → IsPlain outcome
      → Does (λ t. Changed (core t)) (undo world request failure outcome) (λ a. Ended) Broken
  unfolding undo
  undo_lem failure outcome plain = does_bind (keeps_Changed (get-IsCalm _)) (λ restarted_at.
      does_bind (keeps_Changed (gone_already-IsCalm restarted_at)) (λ gone.
        does_if gone
          (does_bind (keeps_Changed (when-IsCalm _ note_restart-IsCalm))
            (λ u. rollback_lem world request failure))
          (undo_in_place_lem failure outcome plain)))

  pub drop_snapshot-IsCalm : IsCalm (drop_snapshot world request)
  unfolding drop_snapshot
  drop_snapshot-IsCalm = IsCalm-bind (get-IsCalm _) (λ taken.
      when-IsCalm taken
        (IsCalm-bind (ask-IsCalm world _) (λ u. modify-IsCalm _ (λ t. refl) (λ t. refl))))

  -- An end with nothing changed.
  pub Unchanged-Ready :
      (failure : Fail) (outcome : Outcome) (t : Transaction)
      → Unchanged (core t)
      → IsPlain outcome
      → Ready outcome (some failure.reason) t
  Unchanged-Ready failure outcome t h (inl e) = (inl h, rw e (inl h.1))
  Unchanged-Ready failure outcome t h (inr (inl e)) = (inl h, rw e (inl h.1))
  Unchanged-Ready failure outcome t h (inr (inr e)) = (inl h, rw e h.1)

  pub end_unchanged_lem :
      (failure : Fail) (outcome : Outcome)
      → IsPlain outcome
      → Does
          (λ t. Unchanged (core t))
          (end_unchanged world request failure outcome)
          (λ a. Ended)
          Broken
  unfolding end_unchanged
  end_unchanged_lem failure outcome plain =
      does_bind (calm_keeps Unchanged (λ c p. inl p) drop_snapshot-IsCalm) (λ u.
        does_bind
          (does_weaken (λ t p. Unchanged-Ready failure outcome t p plain) (λ a t p. p) (λ e t p. p)
            (finish_lem world request outcome (some failure)))
          (λ u. does_pure 1 (λ t p. p)))
