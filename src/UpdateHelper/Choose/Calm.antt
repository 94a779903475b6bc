-- ===== src/UpdateHelper/Choose/Calm.antt =====
-- Choosing and fetching the package leave the core of the transaction alone.
use enigma2_mqtt_bridge.Common.{refl, Bool, true, false, Option, none, some}
use enigma2_mqtt_bridge.Common.Result.{Result, ok, err}
use enigma2_mqtt_bridge.Trust.Index.{Index}
use enigma2_mqtt_bridge.Trust.Release.{Release}
use enigma2_mqtt_bridge.UpdateHelper.State.{Reason, Relay, Request}
use enigma2_mqtt_bridge.UpdateHelper.Receiver.{World}
use enigma2_mqtt_bridge.UpdateHelper.Choose.{
  or_fail, refuse_if, check_relay, fetch_index, fetch_from, held_index, choose, download_package,
  cross_check,
}
use enigma2_mqtt_bridge.UpdateHelper.Logic.{
  IsCalm, IsCalm-bind, pure-IsCalm, IsCalm-if, modify-IsCalm, ask-IsCalm, fail-IsCalm,
}

or_fail-IsCalm : {A : Type 0} (r : Result Reason A) → IsCalm (or_fail r)
unfolding or_fail
or_fail-IsCalm (ok a) = pure-IsCalm a
or_fail-IsCalm (err reason) = fail-IsCalm reason

pub refuse_if-IsCalm : (test : Bool) (reason : Reason) → IsCalm (refuse_if test reason)
unfolding refuse_if
refuse_if-IsCalm true reason = fail-IsCalm reason
refuse_if-IsCalm false reason = pure-IsCalm tt

module _ (world : World) (request : Request) where
  pub check_relay-IsCalm : IsCalm (check_relay world request)
  unfolding check_relay
  check_relay-IsCalm = IsCalm-bind (ask-IsCalm world _) (λ now. refuse_if-IsCalm _ _)

  fetch_from-IsCalm : (r : Option Relay) → IsCalm (fetch_from world request r)
  unfolding fetch_from
  fetch_from-IsCalm (some r) = pure-IsCalm _
  fetch_from-IsCalm none = IsCalm-bind (ask-IsCalm world _) or_fail-IsCalm

  held_index-IsCalm : (index : Option Index) → IsCalm (held_index world request index)
  unfolding held_index
  held_index-IsCalm (some index) = pure-IsCalm _
  held_index-IsCalm none = ask-IsCalm world _

  pub choose-IsCalm : IsCalm (choose world request)
  unfolding choose fetch_index
  choose-IsCalm = IsCalm-bind (fetch_from-IsCalm request.relay) (λ fetched.
      IsCalm-bind (held_index-IsCalm fetched) (λ index.
        IsCalm-bind (ask-IsCalm world _) (λ installed.
          IsCalm-bind (modify-IsCalm _ (λ t. refl) (λ t. refl)) (λ u. or_fail-IsCalm _))))

  pub download_package-IsCalm : (entry : Release) → IsCalm (download_package world request entry)
  unfolding download_package
  download_package-IsCalm entry = IsCalm-bind (ask-IsCalm world _) (λ body. or_fail-IsCalm _)

  pub cross_check-IsCalm : (entry : Release) → IsCalm (cross_check world request entry)
  unfolding cross_check
  cross_check-IsCalm entry =
      IsCalm-if _ (pure-IsCalm tt)
        (IsCalm-bind (ask-IsCalm world _) (λ digest. refuse_if-IsCalm _ _))
