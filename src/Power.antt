-- ===== src/Power.antt =====
-- Standby and the ways of leaving the room, src/MQTTBridge/power.py. An enigma2 image is what this file
-- asks of it, with the words of what it raises; the standby screens are numbers, compared as Python's `is`
-- does. The log is left out.
pub mod Hooked
pub mod Silent
use enigma2_mqtt_bridge.Common.{
  ℕ, ◌+◌, ◌-◌, Bool, true, false, ◌&&◌, not, Option, none, some, List, [], ◌∷◌, ◌++◌, String, ◌==◌,
  nat_eq, option_eq, string_eq, contains, if◌then◌else◌,
}

-- `addNotifier`: it takes the keyword, or is older and makes a call at once, or raises: before it has
-- added anything, or from that call.
pub data Adding : Type 0 where
  takes_keyword calls_at_once raises calls_and_raises : Adding

pub record Image : Type 0 where
  -- `Screens.Standby`, its `Standby` and its `TryQuitMainloop`, and `Tools.Notifications`
  pub module_there : Bool
  pub standby_there : Bool
  pub quit_there : Bool
  pub notifications_there : Bool
  -- what `Power()`, `AddNotification` and `session.open` raise
  pub power_raises : Option String
  pub notification_raises : Option String
  pub open_raises : Option String
  -- `onClose` of the standby screen
  pub on_close_there : Bool
  -- `config.misc.standbyCounter`, its `addNotifier`, and whether a notifier can be taken off it
  pub counter_there : Bool
  pub add_notifier : Option Adding
  pub removes : Bool

-- What enigma2 is asked to do.
pub data Asked : Type 0 where
  power_button standby_queued : Asked
  quit_opened : ℕ → Asked

-- The receiver and the publisher: `shown` is `inStandby`, `hooks` the screens that carry `_left_standby`
-- in their `onClose`, and `notified` how often `_entered_standby` stands in the counter's list.
pub record Power : Type 0 where
  pub shown : Option ℕ
  pub asked : List Asked
  pub hooks : List ℕ
  pub notified : ℕ
  pub counter_held : Bool
  pub attached_to : Option ℕ
  pub settling : Bool
  pub published : List String

abbrev pub new_power : Option ℕ → Power
new_power shown = record {
  shown = shown;
  asked = [];
  hooks = [];
  notified = 0;
  counter_held = false;
  attached_to = none;
  settling = false;
  published = [];
}

unfoldable pub in_standby : Image → Power → Option Bool
in_standby image p =
    if image.module_there then elim p.shown [ none ↦ some false | some _ ↦ some true ] else none

unfoldable pub state : Image → Power → String
unfolding in_standby
state image p = elim (in_standby image p) [
  | none ↦ "on"
  | some standby ↦ if standby then "standby" else "on"
]

asks : Asked → Option String → Power → Option String × Power
asks request none p = (none, record p { asked = p.asked ++ (request ∷ []) })
asks request (some words) p = (some words, p)

unfoldable pub wake : Image → Power → Option String × Power
unfolding asks
wake image p =
    if image.module_there
    then elim p.shown [ none ↦ (none, p) | some _ ↦ asks power_button image.power_raises p ]
    else (some "this image has no Screens.Standby", p)

queue_standby : Image → Power → Option String × Power
unfolding asks
queue_standby image p =
    if not image.standby_there
    then (some "this image has no Screens.Standby.Standby", p)
    else if not image.notifications_there
    then (some "this image has no Tools.Notifications", p)
    else asks standby_queued image.notification_raises p

unfoldable pub enter_standby : Image → Power → Option String × Power
unfolding queue_standby
enter_standby image p =
    if image.module_there
    then elim p.shown [ none ↦ queue_standby image p | some _ ↦ (none, p) ]
    else (some "this image has no Screens.Standby", p)

-- `session` is whether there is one.
unfoldable pub can_quit : Image → Bool → Option String
can_quit image session =
    if not image.module_there
    then some "this image has no Screens.Standby"
    else if not image.quit_there
    then some "this image has no TryQuitMainloop"
    else if not session
    then some "there is no session to open the shutdown screen in"
    else none

unfoldable pub quit_mainloop : Image → Bool → ℕ → Power → Option String × Power
unfolding asks
quit_mainloop image session retvalue p =
    if not image.module_there
    then (some "this image has no Screens.Standby", p)
    else if not image.quit_there
    then (some "this image has no TryQuitMainloop", p)
    else if not session
    then (some "there is no session to open the shutdown screen in", p)
    else asks (quit_opened retvalue) image.open_raises p

unfoldable pub publish_now : Image → Power → Power
unfolding state
publish_now image p = record p { published = p.published ++ (state image p ∷ []) }

hook_onto : Image → ℕ → Power → Power
hook_onto image screen p =
    if (p.attached_to == some screen)
    then p
    else if image.on_close_there
    then record p { hooks = screen ∷ p.hooks; attached_to = some screen }
    else p

-- `_attach_to_standby_screen`
unfoldable pub attach_to_standby_screen : Image → Power → Power
unfolding hook_onto
attach_to_standby_screen image p =
    if image.module_there
    then elim p.shown [ none ↦ p | some screen ↦ hook_onto image screen p ]
    else p

-- `hook.remove`: the first one
unfoldable pub remove_hook : ℕ → List ℕ → List ℕ
remove_hook screen [] = []
remove_hook screen (hook ∷ hooks) =
    let rest = remove_hook screen hooks in if screen == hook then hooks else hook ∷ rest

unfoldable pub detach_from_standby_screen : Power → Power
unfolding remove_hook
detach_from_standby_screen p = elim p.attached_to [
  | none ↦ p
  | some screen ↦ record p { hooks = remove_hook screen p.hooks; attached_to = none }
]

unfoldable pub entered_standby : Image → Power → Power
unfolding attach_to_standby_screen publish_now
entered_standby image p = publish_now image (attach_to_standby_screen image p)

unfoldable pub left_standby : Power → Power
left_standby p = record p { attached_to = none; settling = true }

-- The counter is held, and a screen that shows already is attached to.
hold_counter : Image → Power → Bool × Power
unfolding attach_to_standby_screen
hold_counter image p = (true, attach_to_standby_screen image (record p { counter_held = true }))

-- The counter's list is one entry longer.
unfoldable pub add_notifier_to : Power → Power
add_notifier_to p = record p { notified = p.notified + 1 }

-- `PowerPublisher.start`
unfoldable pub start : Image → Power → Bool × Power
unfolding hold_counter entered_standby add_notifier_to
start image p =
    if image.module_there && image.counter_there
    then elim image.add_notifier [
      | none ↦ (false, p)
      | some takes_keyword ↦ hold_counter image (add_notifier_to p)
      | some calls_at_once ↦ hold_counter image (entered_standby image (add_notifier_to p))
      | some raises ↦ (false, p)
      | some calls_and_raises ↦ (false, entered_standby image (add_notifier_to p))
    ]
    else (false, p)

-- `PowerPublisher.stop`: one entry is taken off the counter's list.
unfoldable pub stop : Image → Power → Power
unfolding detach_from_standby_screen
stop image p =
    if p.counter_held
    then detach_from_standby_screen (record p {
      settling = false;
      counter_held = false;
      notified = if image.removes then p.notified - 1 else p.notified;
    })
    else record p { settling = false }

-- The ticker of `_settle` fires once.
unfoldable pub settle : Image → Power → Power
unfolding publish_now
settle image p = if p.settling then publish_now image (record p { settling = false }) else p

-- enigma2 closes the standby screen: `onClose` is run, and the screen is gone with its hooks. A second
-- run of `_left_standby` would change nothing, so that one is written for all of the screen's hooks.
unfoldable pub without_screen : ℕ → List ℕ → List ℕ
without_screen screen [] = []
without_screen screen (hook ∷ hooks) =
    let rest = without_screen screen hooks in if screen == hook then rest else hook ∷ rest

unfoldable pub close_screen : ℕ → Power → Power
unfolding left_standby without_screen
close_screen screen p =
    let after = if contains screen p.hooks then left_standby p else p in
    record after { shown = none; hooks = without_screen screen p.hooks }
