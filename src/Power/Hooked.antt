-- ===== src/Power/Hooked.antt =====
-- Where the publisher's hook is, over any run of events.
use mathlib.Core.Option.{some-injective, some-ne-none}
use enigma2_mqtt_bridge.Common.{
  ℕ, ◌<◌, ◌-◌, if◌then◌else◌, ◌≡◌, ◌∙◌, refl, sym, ◌⊎◌, inl, inr, true, false, ◌&&◌, Option, none,
  some, List, [], ◌∷◌, ◌==◌, nat_eq, option_eq, string_eq, arith, Bool-cases, Option-cases,
  test_refl,
}
use enigma2_mqtt_bridge.Power.{
  Image, takes_keyword, calls_at_once, raises, calls_and_raises, Power, new_power, publish_now,
  hook_onto, attach_to_standby_screen, remove_hook, detach_from_standby_screen, entered_standby,
  left_standby, hold_counter, add_notifier_to, start, stop, settle, without_screen, close_screen,
}

module _ (image : Image) where
  -- A standby screen opens while none shows; the counter tells of it; it closes; the settle ticker fires;
  -- the publisher is started and stopped.
  pub data Step : Power → Power → Type 0 where
    opens : (p : Power) (screen : ℕ) → p.shown ≡ none → Step p (record p { shown = some screen })
    tells : (p : Power) → 0 < p.notified → Step p (entered_standby image p)
    closes : (p : Power) (screen : ℕ) → p.shown ≡ some screen → Step p (close_screen screen p)
    settles : (p : Power) → Step p (settle image p)
    starts : (p : Power) → Step p (start image p).1
    stops : (p : Power) → Step p (stop image p)

  pub data Reached : Power → Type 0 where
    at_first : (shown : Option ℕ) → Reached (new_power shown)
    then_step : {p q : Power} → Reached p → Step p q → Reached q

-- The one hook is on the screen that shows, and only if the publisher is attached to it.
abbrev pub IsHooked : Option ℕ → List ℕ → Option ℕ → Type 0
IsHooked shown hooks attached =
    ((attached ≡ none) × (hooks ≡ []))
    ⊎ ((screen : ℕ) × (attached ≡ some screen) × (shown ≡ some screen) × (hooks ≡ screen ∷ []))

abbrev Hooked : Power → Type 0
Hooked p = IsHooked p.shown p.hooks p.attached_to

module _ (image : Image) where
  hook_onto-IsHooked :
      (screen : ℕ) (p : Power)
      → p.shown ≡ some screen
      → Hooked p
      → Hooked (hook_onto image screen p)
  unfolding hook_onto
  hook_onto-IsHooked screen p e h = elim (Bool-cases (p.attached_to == some screen)) [
    | inl same ↦ rw same h
    | inr other ↦ elim (Bool-cases image.on_close_there) [
      | inr missing ↦ rw (other, missing) h
      | inl there ↦
          rw (other, there)
            (elim h [
              | inl (free, no_hooks) ↦ inr (screen, refl, e, rw no_hooks refl)
              | inr (s, attached, shown, hooks) ↦ absurd (ground arith)
            ])
    ]
  ]

  attach-IsHooked : (p : Power) → Hooked p → Hooked (attach_to_standby_screen image p)
  unfolding attach_to_standby_screen
  attach-IsHooked p h = elim (Bool-cases image.module_there) [
    | inr missing ↦ rw missing h
    | inl there ↦ elim (Option-cases p.shown) [
      | inl none_shown ↦ rw (there, none_shown) h
      | inr (screen, e) ↦ rw (there, e) (hook_onto-IsHooked screen p e h)
    ]
  ]

  close_screen-IsHooked :
      (screen : ℕ) (p : Power) → p.shown ≡ some screen → Hooked p → Hooked (close_screen screen p)
  unfolding close_screen left_standby without_screen
  close_screen-IsHooked screen p e (inl (free, no_hooks)) = inl (rw no_hooks free, rw no_hooks refl)
  close_screen-IsHooked screen p e (inr (s, attached, shown, hooks)) =
      let same : screen ≡ s = some-injective _ _ (sym e ∙ shown) in
      inl (rw (hooks, same, test_refl s) refl, rw (hooks, same, test_refl s) refl)

  detach-IsHooked : (p : Power) → Hooked p → Hooked (detach_from_standby_screen p)
  unfolding detach_from_standby_screen remove_hook
  detach-IsHooked p (inl (free, no_hooks)) = rw free (inl (refl, no_hooks))
  detach-IsHooked p (inr (s, attached, shown, hooks)) =
      rw attached (inl (refl, rw (hooks, test_refl s) refl))

  entered_standby-IsHooked : (p : Power) → Hooked p → Hooked (entered_standby image p)
  unfolding entered_standby publish_now
  entered_standby-IsHooked p h = attach-IsHooked p h

  start-IsHooked : (p : Power) → Hooked p → Hooked (start image p).1
  unfolding start hold_counter add_notifier_to
  start-IsHooked p h = elim (Bool-cases (image.module_there && image.counter_there)) [
    | inr missing ↦ rw missing h
    | inl there ↦ elim (Option-cases image.add_notifier) [
      | inl no_notifier ↦ rw (there, no_notifier) h
      | inr (takes_keyword, e) ↦
          rw (there, e) (attach-IsHooked (record (add_notifier_to p) { counter_held = true }) h)
      | inr (calls_at_once, e) ↦
          let called = entered_standby image (add_notifier_to p) in
          rw (there, e)
            (attach-IsHooked (record called { counter_held = true })
              (entered_standby-IsHooked (add_notifier_to p) h))
      | inr (raises, e) ↦ rw (there, e) h
      | inr (calls_and_raises, e) ↦ rw (there, e) (entered_standby-IsHooked (add_notifier_to p) h)
    ]
  ]

  stop-IsHooked : (p : Power) → Hooked p → Hooked (stop image p)
  unfolding stop
  stop-IsHooked p h = elim (Bool-cases p.counter_held) [
    | inr idle ↦ rw idle h
    | inl held ↦
        let stopped = record p {
          settling = false;
          counter_held = false;
          notified = if image.removes then p.notified - 1 else p.notified;
        } in
        rw held (detach-IsHooked stopped h)
  ]

  Step-IsHooked : {p q : Power} → Hooked p → Step image p q → Hooked q
  unfolding settle publish_now
  Step-IsHooked h (opens p screen dark) = elim h [
    | inl free ↦ inl free
    | inr (s, attached, shown, hooks) ↦ absurd (some-ne-none _ (sym shown ∙ dark))
  ]
  Step-IsHooked h (tells p told) = entered_standby-IsHooked p h
  Step-IsHooked h (closes p screen e) = close_screen-IsHooked screen p e h
  Step-IsHooked h (settles p) = elim (Bool-cases p.settling) [
    | inl pending ↦ rw pending h
    | inr idle ↦ rw idle h
  ]
  Step-IsHooked h (starts p) = start-IsHooked p h
  Step-IsHooked h (stops p) = stop-IsHooked p h

  -- In any run the publisher's hook is on one screen at most, once: on the standby screen that shows, if
  -- the publisher is attached to it, and on none if it is not.
  pub Reached-IsHooked : {p : Power} → Reached image p → IsHooked p.shown p.hooks p.attached_to
  Reached-IsHooked (at_first shown) = inl (refl, refl)
  Reached-IsHooked (then_step run step) = Step-IsHooked (Reached-IsHooked run) step
