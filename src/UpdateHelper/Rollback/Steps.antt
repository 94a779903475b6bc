-- ===== src/UpdateHelper/Rollback/Steps.antt =====
-- The restore and the start of a rollback, and the unit that they make.
use enigma2_mqtt_bridge.Common.{refl, ap, ◌∙◌, Bool, true, false, not, Option, String}
use enigma2_mqtt_bridge.UpdateHelper.State.{Raised, Restored, M, ◌>>◌, when}
use enigma2_mqtt_bridge.UpdateHelper.Receiver.{World}
use enigma2_mqtt_bridge.UpdateHelper.Rollback.{
  note_restore, run_init, start_interface, make_up_stop, make_up_restore, make_up_service, make_up,
  cut_short, stop_restore_start, stop_to_start, set_vars, say_lastservice, put_lastservice, gone,
}
use enigma2_mqtt_bridge.UpdateHelper.Waiting.{stop_wait}
use enigma2_mqtt_bridge.UpdateHelper.Waiting.Calm.{wait-IsCalm}
use enigma2_mqtt_bridge.UpdateHelper.Rollback.Calm.{gone-IsCalm, put_lastservice-IsCalm}
use enigma2_mqtt_bridge.UpdateHelper.Logic.{core, IsFair, ask-IsCalm}
use enigma2_mqtt_bridge.UpdateHelper.After.{
  calm_stays, does_modify, does_guarded_from_all, does_finally, does_when, does_when_true,
  does_when_false, does_some,
}
use enigma2_mqtt_bridge.UpdateHelper.Does.{
  On, Holds, Does, does_bind, does_weaken, does_get, does_pure,
}
use enigma2_mqtt_bridge.UpdateHelper.Ends.{Changed, Restoring}
use enigma2_mqtt_bridge.UpdateHelper.Rollback.Restores.{
  Fairly, AndBack, AndUp, put_back_lem, start_interface_lem, Within, During, Within-Lasts,
  During-Lasts, Put-Lasts,
}

module _ (world : World) (service : Option String) where
  stopped_unit :
      Does
        (Holds (Within false))
        (run_init world 4)
        (λ a. Holds (Within false))
        (Fairly (Within false))
  unfolding run_init
  stopped_unit =
      does_bind (does_modify _ (λ t p. p))
        (λ u. calm_stays (Within false) (Within-Lasts false) (ask-IsCalm world _))

  -- After the restore: the channel, and the start.
  started_unit :
      (stopped : Bool) (r : Restored)
      → Does
          (Holds (AndBack (Within false) r))
          (do
            set_vars (λ v. record v { put_back_done = true })
            put_lastservice world stopped service
            set_vars (λ v. record v { starting = true })
            start_interface world
            set_vars (λ v. record v { sent = true }))
          (λ u. Holds (AndUp (AndBack (Within true) r)))
          (Fairly (Within false))
  started_unit stopped r = does_bind (does_modify _ (λ t p. p)) (λ u.
      does_bind
        (does_weaken (λ t p. p) (λ a t p. p) (λ e t p. (p.0.0, p.1))
          (calm_stays (AndBack (Within false) r) (Put-Lasts false r)
            (put_lastservice-IsCalm world stopped service)))
        (λ u. does_bind (does_modify _ (λ t p. p)) (λ u.
          does_bind
            (does_weaken (λ t p. p) (λ a t p. p) (λ e t p. (p.0.0.0, p.1))
              (start_interface_lem world (AndBack (Within false) r) (Put-Lasts false r)
                (λ c l levels p. p)))
            (λ u. does_modify _ (λ t (((changed, none_yet, unsent), restore, back), up).
              (((changed, none_yet, refl), restore, back), up))))))

  -- The unit: the restore returned and the interface was started, or it was not sent.
  unit_lem :
      Does
        (Holds (Within false))
        (stop_restore_start world service)
        (λ u t. (r : Restored) × Holds (AndUp (AndBack (Within true) r)) t)
        (Fairly (Within false))
  unfolding stop_restore_start
  unit_lem = does_bind stopped_unit (λ code.
      does_bind
        (calm_stays (Within false) (Within-Lasts false)
          (wait-IsCalm world (gone world) stop_wait (gone-IsCalm world)))
        (λ stopped. does_bind (does_modify _ (λ t p. p)) (λ u.
          does_bind (put_back_lem world (Within false) (Within-Lasts false) (λ c l r tree p. p))
            (λ r. does_weaken (λ t p. p) (λ a t p. (r, p)) (λ e t p. p) (started_unit stopped r)))))

-- What is made up raises nothing.
never : Raised → On
never e t = ⊥

module _ (world : World) (service : Option String) (x : Raised) where
  make_up_stop_lem : Does (Holds (During x)) (make_up_stop world) (λ u. Holds (During x)) never
  unfolding make_up_stop
  make_up_stop_lem =
      does_bind
        (does_guarded_from_all (calm_stays (During x) (During-Lasts x) (gone-IsCalm world))
          (λ e t p. p.0) (does_pure false (λ t p. p)))
        (λ stopped. does_modify _ (λ t p. p))

  make_up_restore_lem :
      Does (Holds (During x)) (make_up_restore world) (λ u. Holds (During x)) never
  unfolding make_up_restore note_restore
  make_up_restore_lem =
      does_guarded_from_all
        (does_bind (put_back_lem world (During x) (During-Lasts x) (λ c l r tree p. p))
          (λ r. does_pure tt (λ t p. p.0)))
        (λ e t p. p.0) (does_modify _ (λ t p. p))

  make_up_service_lem :
      Does (Holds (During x)) (make_up_service world service) (λ u. Holds (During x)) never
  unfolding make_up_service say_lastservice
  make_up_service_lem = does_bind (does_get _) (λ v.
      does_guarded_from_all
        (does_weaken (λ t p. p.0) (λ a t p. p) (λ e t p. p)
          (calm_stays (During x) (During-Lasts x) (put_lastservice-IsCalm world v.stopped service)))
        (λ e t p. p.0) (does_modify _ (λ t p. p)))

  -- A part that may be left out.
  when_lem :
      (b : Bool) {m : M (Unit {0})} {E : Raised → On}
      → Does (Holds (During x)) m (λ u. Holds (During x)) E
      → Does (Holds (During x)) (when b m) (λ u. Holds (During x)) E
  when_lem b h = does_when b h (λ t p. p)

  make_up_lem : Does (Holds (During x)) (make_up world service) (λ u. Holds (During x)) never
  unfolding make_up
  make_up_lem = does_bind (does_get _) (λ v.
      does_bind
        (does_weaken (λ t p. p.0) (λ a t p. p) (λ e t p. p)
          (when_lem (not v.stopped) make_up_stop_lem))
        (λ u. does_bind (when_lem (not v.put_back_done) make_up_restore_lem) (λ u.
          does_bind (does_get _) (λ said.
            does_weaken (λ t p. p.0) (λ a t p. p) (λ e t p. p)
              (when_lem (not said) make_up_service_lem)))))

  -- However the unit was cut short, it ends with the interface started.
  cut_short_lem :
      Does
        (Holds (During x))
        (cut_short world service)
        (λ u t. Changed (core t) × IsFair x t.lost)
        (λ e t. Changed (core t) × IsFair e t.lost)
  unfolding cut_short never
  cut_short_lem = does_bind (does_get _) (λ v.
      does_when_true (not v.sent) (λ t p. ap (λ w. not w.sent) p.1 ∙ ap not p.0.0.2)
        (does_bind
          (does_weaken (λ t p. p.0) (λ a t p. p) (λ e t h. absurd h)
            (when_lem (not v.starting) make_up_lem))
          (λ u.
            does_weaken (λ t p. p) (λ a t p. ((p.0.0.0, p.0.0.1, p.1), p.0.1))
              (λ e t p. ((p.0.0.0.0, p.0.0.0.1, p.0.1), p.1))
              (start_interface_lem world (During x) (During-Lasts x) (λ c l levels p. p)))))

module _ (world : World) (service : Option String) where
  not_cut_short :
      (r : Restored) {E : Raised → On}
      → Does
          (Holds (AndUp (AndBack (Within true) r)))
          (cut_short world service)
          (λ u t. Restoring r (core t))
          E
  unfolding cut_short
  not_cut_short r = does_bind (does_get _) (λ v.
      does_when_false (not v.sent) _ (λ t p. ap (λ w. not w.sent) p.1 ∙ ap not p.0.0.0.2)
        (λ t p. ((p.0.0.0.0, p.0.0.0.1, p.0.1), p.0.0.1, p.0.0.2)))

  -- Whatever happens between, `init 3` follows `init 4`; and where nothing is raised, the restore
  -- returned.
  pub stop_to_start_lem :
      Does
        (λ t. Changed (core t))
        (stop_to_start world service)
        (λ u t. (r : Restored) × Restoring r (core t))
        (λ e t. Changed (core t) × IsFair e t.lost)
  unfolding stop_to_start
  stop_to_start_lem =
      does_bind (does_modify {Q = Holds (Within false)} _ (λ t p. (p.0, p.1, refl))) (λ u.
        does_finally (unit_lem world service)
          (λ u.
            does_some
              (λ r. does_weaken (λ t p. p) (λ a t p. (r, p)) (λ e t p. p) (not_cut_short r)))
          (λ e. cut_short_lem world service e))
