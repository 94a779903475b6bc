-- ===== src/UpdateHelper/Ending/Calm.antt =====
-- The writes of a transaction leave its core alone.
use enigma2_mqtt_bridge.Common.{refl, Bool, true, false, ◌&&◌, option_eq, string_eq}
use enigma2_mqtt_bridge.UpdateHelper.State.{Phase, Request}
use enigma2_mqtt_bridge.UpdateHelper.Receiver.{World}
use enigma2_mqtt_bridge.UpdateHelper.Ending.{write_status, marker, owns, drop_lock, release, tidy}
use enigma2_mqtt_bridge.UpdateHelper.Logic.{
  IsCalm, IsCalm-bind, pure-IsCalm, get-IsCalm, when-IsCalm, modify-IsCalm, ask-IsCalm,
}

module _ (world : World) where
  pub write_status-IsCalm : (phase : Phase) → IsCalm (write_status world phase)
  unfolding write_status
  write_status-IsCalm phase =
      IsCalm-bind (modify-IsCalm _ (λ t. refl) (λ t. refl)) (λ u. ask-IsCalm world _)

  pub marker-IsCalm : IsCalm (marker world)
  unfolding marker
  marker-IsCalm = IsCalm-bind (ask-IsCalm world _) (λ written.
      IsCalm-bind (when-IsCalm written (modify-IsCalm _ (λ t. refl) (λ t. refl)))
        (λ u. pure-IsCalm _))

module _ (world : World) (request : Request) where
  owns-IsCalm : IsCalm (owns world request)
  unfolding owns
  owns-IsCalm = IsCalm-bind (ask-IsCalm world _) (λ owner. pure-IsCalm _)

  drop_lock-IsCalm : (held : Bool) → IsCalm (drop_lock world request held)
  unfolding drop_lock
  drop_lock-IsCalm false = pure-IsCalm tt
  drop_lock-IsCalm true =
      IsCalm-bind (modify-IsCalm _ (λ t. refl) (λ t. refl))
        (λ u. IsCalm-bind owns-IsCalm (λ own. when-IsCalm own (ask-IsCalm world _)))

  pub release-IsCalm : IsCalm (release world request)
  unfolding release
  release-IsCalm = IsCalm-bind (get-IsCalm _) drop_lock-IsCalm

  pub tidy-IsCalm : (claimed : Bool) → IsCalm (tidy world request claimed)
  unfolding tidy
  tidy-IsCalm false = pure-IsCalm tt
  tidy-IsCalm true = IsCalm-bind (ask-IsCalm world _) (λ u.
      IsCalm-bind (ask-IsCalm world _) (λ there. IsCalm-bind (get-IsCalm _) (λ chosen.
        IsCalm-bind
          (when-IsCalm (chosen && there)
            (IsCalm-bind (marker-IsCalm world) (λ written. pure-IsCalm tt)))
          (λ u. IsCalm-bind release-IsCalm (λ u. ask-IsCalm world _)))))
