-- ===== src/UpdateHelper/Rollback/Calm.antt =====
-- The parts of a rollback that leave the core of the transaction alone.
use enigma2_mqtt_bridge.Common.{
  ℕ, refl, inl, inr, Bool, true, false, ◌&&◌, Option, none, some, List, String, if◌then◌else◌,
  Bool-cases,
}
use enigma2_mqtt_bridge.Common.Result.{Result, ok, err}
use enigma2_mqtt_bridge.UpdateHelper.State.{Raised, Transaction, M, catch, handled, raise, is_some}
use enigma2_mqtt_bridge.UpdateHelper.Receiver.{World}
use enigma2_mqtt_bridge.UpdateHelper.Rollback.{
  is_exception, guarded, say_lastservice, put_lastservice, gone, note_look, came_back, record_state,
  verify,
}
use enigma2_mqtt_bridge.UpdateHelper.Ending.Calm.{write_status-IsCalm, marker-IsCalm}
use enigma2_mqtt_bridge.UpdateHelper.Logic.{
  IsSame, IsSame-trans, FairResult, IsFair, IsCalm, IsSame-refl, IsCalm-bind, pure-IsCalm,
  get-IsCalm, when-IsCalm, modify-IsCalm, ask-IsCalm, clock-IsCalm,
}

module _ {A : Type 0} where
  -- An exception goes on as it came, or what is done instead is calm.
  again_or : (e : Raised) (instead : M A) → M A
  again_or e instead = if is_exception e then instead else raise e

  again_or-calm :
      (e : Raised) (instead : M A) (t : Transaction)
      → IsFair e t.lost
      → IsCalm instead
      → IsSame t (again_or e instead t).1
        × FairResult (again_or e instead t).0 (again_or e instead t).1.lost
  unfolding again_or raise
  again_or-calm e instead t fair h = elim (Bool-cases (is_exception e)) [
    | inl caught ↦ rw (caught, again_or) (h.same t, h.fair t)
    | inr goes_on ↦ rw (goes_on, again_or) (IsSame-refl t, fair)
  ]

  handled-calm :
      (s t : Transaction) (r : Result Raised A) (instead : M A)
      → IsSame s t
      → FairResult r t.lost
      → IsCalm instead
      → let after = handled r (λ e. again_or e instead) t in
        IsSame s after.1 × FairResult after.0 after.1.lost
  handled-calm s t (ok a) instead same fair h = (same, tt)
  handled-calm s t (err e) instead same fair h =
      let (same', fair') = again_or-calm e instead t fair h in
      (IsSame-trans s t (again_or e instead t).1 same same', fair')

  pub guarded-IsCalm : {m instead : M A} → IsCalm m → IsCalm instead → IsCalm (guarded m instead)
  unfolding catch again_or
  guarded-IsCalm {m} {instead} h k = record {
    same = λ t. (handled-calm t (m t).1 (m t).0 instead (h.same t) (h.fair t) k).0;
    fair = λ t. (handled-calm t (m t).1 (m t).0 instead (h.same t) (h.fair t) k).1;
  }

module _ (world : World) where
  say_lastservice-IsCalm : IsCalm (say_lastservice world)
  unfolding say_lastservice
  say_lastservice-IsCalm = modify-IsCalm _ (λ t. refl) (λ t. refl)

  pub put_lastservice-IsCalm :
      (stopped : Bool) (service : Option String) → IsCalm (put_lastservice world stopped service)
  unfolding put_lastservice
  put_lastservice-IsCalm stopped service = when-IsCalm (stopped && is_some service) (
      guarded-IsCalm (IsCalm-bind (ask-IsCalm world _) (λ u. say_lastservice-IsCalm))
        say_lastservice-IsCalm)

  note_look-IsCalm : (look : Option (List ℕ)) → IsCalm (note_look world look)
  unfolding note_look
  note_look-IsCalm none = pure-IsCalm _
  note_look-IsCalm (some pids) =
      IsCalm-bind (modify-IsCalm _ (λ t. refl) (λ t. refl)) (λ u. pure-IsCalm _)

  pub gone-IsCalm : IsCalm (gone world)
  unfolding gone
  gone-IsCalm = IsCalm-bind (ask-IsCalm world _) note_look-IsCalm

  pub came_back-IsCalm : IsCalm (came_back world)
  unfolding came_back
  came_back-IsCalm =
      IsCalm-bind (ask-IsCalm world _) (λ look. IsCalm-bind (get-IsCalm _) (λ v. pure-IsCalm _))

  pub record_state-IsCalm : IsCalm (record_state world)
  unfolding record_state
  record_state-IsCalm = IsCalm-bind (get-IsCalm _) (λ before.
      guarded-IsCalm
        (IsCalm-bind (write_status-IsCalm world _) (λ u.
          IsCalm-bind (marker-IsCalm world)
            (λ written. IsCalm-bind (ask-IsCalm world _) (λ status. pure-IsCalm _))))
        (pure-IsCalm before))

  pub verify-IsCalm : (wanted : Bool) (limit : ℕ) → IsCalm (verify world wanted limit)
  unfolding verify
  verify-IsCalm false limit = pure-IsCalm tt
  verify-IsCalm true limit =
      IsCalm-bind (clock-IsCalm world)
        (λ now. when-IsCalm _ (guarded-IsCalm (ask-IsCalm world _) (pure-IsCalm tt)))
