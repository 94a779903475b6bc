-- ===== src/Tests/Standby.antt =====
-- The standby publisher's theorems at a short run.
use enigma2_mqtt_bridge.Common.{
  option_eq, nat_eq, ℕ_discrete, ◌≡◌, refl, true, false, none, some, [], ◌∷◌,
}
use enigma2_mqtt_bridge.Power.{
  Image, calls_at_once, Power, new_power, start, stop, close_screen, settle,
}
use enigma2_mqtt_bridge.Power.Hooked.{
  Reached, at_first, then_step, starts, stops, IsHooked, Reached-IsHooked,
}
use enigma2_mqtt_bridge.Power.Silent.{IsSilent, Reached-IsSilent}

abbrev image : Image
image = record {
  module_there = true;
  standby_there = true;
  quit_there = true;
  notifications_there = true;
  power_raises = none;
  notification_raises = none;
  open_raises = none;
  on_close_there = true;
  counter_there = true;
  add_notifier = some calls_at_once;
  removes = true;
}

-- Started while a standby screen shows, on an older image.
abbrev started : Power
started = (start image (new_power (some 7))).1

abbrev started_run : Reached image started
started_run = then_step (at_first (some 7)) (starts (new_power (some 7)))

started_hooks : (started.hooks ≡ 7 ∷ []) × (started.published ≡ "standby" ∷ [])
unfolding start option_eq nat_eq ℕ_discrete
started_hooks = (refl, refl)

Reached-IsHooked_example : IsHooked started.shown started.hooks started.attached_to
Reached-IsHooked_example = Reached-IsHooked image started_run

abbrev closed : Power
closed = settle image (close_screen 7 started)

closed_says : closed.published ≡ "standby" ∷ "on" ∷ []
unfolding settle close_screen start option_eq nat_eq ℕ_discrete
closed_says = refl

abbrev stopped : Power
stopped = stop image started

stopped_idle : stopped.counter_held ≡ false
unfolding stop start option_eq nat_eq ℕ_discrete
stopped_idle = refl

abbrev stopped_run : Reached image stopped
stopped_run = then_step started_run (stops started)

Reached-IsSilent_example : IsSilent stopped
Reached-IsSilent_example =
    Reached-IsSilent image refl (λ e. cc) stopped_run ((tt, refl), tt) stopped_idle

-- Started twice, the publisher stands in the list twice, and one stop leaves one entry.
twice_told : (stop image (start image started).1).notified ≡ 1
unfolding stop start option_eq nat_eq ℕ_discrete
twice_told = refl
