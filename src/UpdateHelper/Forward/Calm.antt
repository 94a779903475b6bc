-- ===== src/UpdateHelper/Forward/Calm.antt =====
-- Before the package manager, and while the new version is waited for, the core of the transaction is
-- left alone.
use enigma2_mqtt_bridge.Common.{ℕ, zero, suc, refl, Bool, true, false, Option, List, [], ◌∷◌}
use enigma2_mqtt_bridge.Trust.Release.{Release}
use enigma2_mqtt_bridge.UpdateHelper.State.{Phase, Request}
use enigma2_mqtt_bridge.UpdateHelper.Receiver.{World, Snapshot, taken, opkg_is_busy, not_taken}
use enigma2_mqtt_bridge.UpdateHelper.Choose.Calm.{
  refuse_if-IsCalm, check_relay-IsCalm, choose-IsCalm, download_package-IsCalm, cross_check-IsCalm,
}
use enigma2_mqtt_bridge.UpdateHelper.Ending.Calm.{write_status-IsCalm, marker-IsCalm}
use enigma2_mqtt_bridge.UpdateHelper.Forward.{
  of_snapshot, original_running, check_original, check, phase, fetch, verify_package, snapshot_step,
  before_opkg, after_opkg, by_word, by_page, by_log_or_page, is_proved, look_at_logs, prove_from,
}
use enigma2_mqtt_bridge.UpdateHelper.Logic.{
  IsCalm, IsCalm-bind, pure-IsCalm, get-IsCalm, IsCalm-if, modify-IsCalm, ask-IsCalm, clock-IsCalm,
  sleep-IsCalm, fail-IsCalm, raise_if_lost-IsCalm,
}

of_snapshot-IsCalm : (s : Snapshot) → IsCalm (of_snapshot s)
unfolding of_snapshot
of_snapshot-IsCalm taken = modify-IsCalm _ (λ t. refl) (λ t. refl)
of_snapshot-IsCalm opkg_is_busy = fail-IsCalm _
of_snapshot-IsCalm not_taken = fail-IsCalm _

module _ (world : World) (request : Request) where
  pub original_running-IsCalm : IsCalm (original_running world request)
  unfolding original_running
  original_running-IsCalm = IsCalm-bind (ask-IsCalm world _) (λ pids. pure-IsCalm _)

  check_original-IsCalm : (changed : Bool) → IsCalm (check_original world request changed)
  unfolding check_original
  check_original-IsCalm true = pure-IsCalm tt
  check_original-IsCalm false =
      IsCalm-bind original_running-IsCalm (λ running. refuse_if-IsCalm _ _)

  check-IsCalm : IsCalm (check world request)
  unfolding check
  check-IsCalm = IsCalm-bind raise_if_lost-IsCalm (λ u. IsCalm-bind (get-IsCalm _) (λ signalled.
      IsCalm-bind (refuse_if-IsCalm _ _) (λ u. IsCalm-bind (get-IsCalm _) (λ deadline.
        IsCalm-bind (clock-IsCalm world) (λ now.
          IsCalm-bind (refuse_if-IsCalm _ _)
            (λ u. IsCalm-bind (get-IsCalm _) check_original-IsCalm))))))

  phase-IsCalm : (name : Phase) → IsCalm (phase world request name)
  unfolding phase
  phase-IsCalm name = IsCalm-bind (write_status-IsCalm world name) (λ u. check-IsCalm)

  pub fetch-IsCalm : IsCalm (fetch world request)
  unfolding fetch
  fetch-IsCalm = IsCalm-bind (phase-IsCalm _) (λ u.
      IsCalm-bind (check_relay-IsCalm world request) (λ u.
        IsCalm-bind (choose-IsCalm world request) (λ entry.
          IsCalm-bind (modify-IsCalm _ (λ t. refl) (λ t. refl)) (λ u. IsCalm-bind check-IsCalm (λ u.
            IsCalm-bind (download_package-IsCalm world request entry) (λ u. pure-IsCalm entry))))))

  pub verify_package-IsCalm : (entry : Release) → IsCalm (verify_package world request entry)
  unfolding verify_package
  verify_package-IsCalm entry = IsCalm-bind (phase-IsCalm _) (λ u.
      IsCalm-bind (ask-IsCalm world _) (λ fine. IsCalm-bind (refuse_if-IsCalm _ _) (λ u.
        IsCalm-bind (cross_check-IsCalm world request entry)
          (λ u. IsCalm-bind (ask-IsCalm world _) (λ space. refuse_if-IsCalm _ _)))))

  pub snapshot_step-IsCalm : IsCalm (snapshot_step world request)
  unfolding snapshot_step
  snapshot_step-IsCalm =
      IsCalm-bind (phase-IsCalm _) (λ u. IsCalm-bind (ask-IsCalm world _) of_snapshot-IsCalm)

  pub before_opkg-IsCalm : IsCalm (before_opkg world request)
  unfolding before_opkg
  before_opkg-IsCalm = IsCalm-bind (phase-IsCalm _) (λ u.
      IsCalm-bind (ask-IsCalm world _) (λ written. IsCalm-bind (refuse_if-IsCalm _ _) (λ u.
        IsCalm-bind (marker-IsCalm world)
          (λ marked. IsCalm-bind (refuse_if-IsCalm _ _) (λ u. check-IsCalm)))))

  pub after_opkg-IsCalm : (code : Option ℕ) → IsCalm (after_opkg world request code)
  unfolding after_opkg
  after_opkg-IsCalm code = IsCalm-bind (refuse_if-IsCalm _ _) (λ u.
      IsCalm-bind (ask-IsCalm world _)
        (λ fine. IsCalm-bind (refuse_if-IsCalm _ _) (λ u. check-IsCalm)))

  by_word-IsCalm : IsCalm (by_word world request)
  unfolding by_word
  by_word-IsCalm =
      IsCalm-bind (ask-IsCalm world _) (λ file. IsCalm-bind (get-IsCalm _) (λ entry. pure-IsCalm _))

  by_page-IsCalm : (pids : List ℕ) → IsCalm (by_page world request pids)
  unfolding by_page
  by_page-IsCalm [] = pure-IsCalm _
  by_page-IsCalm (pid ∷ pids) = IsCalm-bind (get-IsCalm _) (λ writable.
      IsCalm-if writable (pure-IsCalm _) (IsCalm-bind (ask-IsCalm world _) (λ page. pure-IsCalm _)))

  by_log_or_page-IsCalm :
      (seen : Bool) (pids : List ℕ) → IsCalm (by_log_or_page world request seen pids)
  unfolding by_log_or_page
  by_log_or_page-IsCalm true pids = pure-IsCalm _
  by_log_or_page-IsCalm false pids = by_page-IsCalm pids

  is_proved-IsCalm : (seen : Bool) (pids : List ℕ) → IsCalm (is_proved world request seen pids)
  unfolding is_proved
  is_proved-IsCalm seen pids =
      IsCalm-bind (get-IsCalm _)
        (λ entry. IsCalm-if _ by_word-IsCalm (by_log_or_page-IsCalm seen pids))

  look_at_logs-IsCalm :
      (seen : Bool) (pids : List ℕ) → IsCalm (look_at_logs world request seen pids)
  unfolding look_at_logs
  look_at_logs-IsCalm seen pids = IsCalm-bind (ask-IsCalm world _) (λ open_now. pure-IsCalm _)

  pub prove_from-IsCalm :
      (rounds : ℕ) (seen : Bool) (before : List ℕ) (window : ℕ)
      → IsCalm (prove_from world request rounds seen before window)
  unfolding prove_from
  prove_from-IsCalm zero seen before window = pure-IsCalm _
  prove_from-IsCalm (suc rounds) seen before window = IsCalm-bind (ask-IsCalm world _) (λ all_pids.
      IsCalm-bind (look_at_logs-IsCalm seen _) (λ seen'.
        IsCalm-bind (is_proved-IsCalm seen' _) (λ proved. IsCalm-if proved (pure-IsCalm true) (
          IsCalm-bind (clock-IsCalm world) (λ now. IsCalm-if _ (pure-IsCalm false) (
            IsCalm-bind (sleep-IsCalm world _)
              (λ u. prove_from-IsCalm rounds seen' before window)))))))
