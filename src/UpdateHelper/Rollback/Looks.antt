-- ===== src/UpdateHelper/Rollback/Looks.antt =====
-- The two conditions that a rollback waits for never turn the clock back, so its waits end.
use enigma2_mqtt_bridge.Common.{ℕ, Option, none, some, List}
use enigma2_mqtt_bridge.UpdateHelper.Receiver.{World}
use enigma2_mqtt_bridge.UpdateHelper.Waiting.Rounds.{IsForward, ask-IsForward}
use enigma2_mqtt_bridge.UpdateHelper.Rollback.{gone, came_back, note_look}
use enigma2_mqtt_bridge.UpdateHelper.After.{does_modify}
use enigma2_mqtt_bridge.UpdateHelper.Does.{does_bind, does_weaken, does_get, does_pure}

module _ (world : World) where
  note_look-IsForward : (look : Option (List ℕ)) → IsForward (note_look world look)
  unfolding note_look
  note_look-IsForward none b = does_pure _ (λ t h. h)
  note_look-IsForward (some pids) b =
      does_bind (does_modify _ (λ t h. h)) (λ u. does_pure _ (λ t h. h))

  pub gone-IsForward : IsForward (gone world)
  unfolding gone
  gone-IsForward b = does_bind (ask-IsForward world _ b) (λ look. note_look-IsForward look b)

  pub came_back-IsForward : IsForward (came_back world)
  unfolding came_back
  came_back-IsForward b = does_bind (ask-IsForward world _ b) (λ look.
      does_bind (does_weaken (λ t p. p) (λ a t p. p.0) (λ e t p. p) (does_get _))
        (λ v. does_pure _ (λ t h. h)))
