-- ===== src/Power/Silent.antt =====
-- A publisher that is not started, and what is asked before the goodbye to the broker.
use enigma2_mqtt_bridge.Common.{
  ℕ, ◌+◌, ◌-◌, ◌≡◌, ◌≢◌, ◌∙◌, refl, ◌⊎◌, inl, inr, Bool, true, false, ◌&&◌, none, some, [], ◌∷◌,
  ◌++◌, ◌==◌, nat_eq, option_eq, contains, String, test_refl, arith, Bool-cases, Option-cases,
}
use enigma2_mqtt_bridge.Power.{
  Image, takes_keyword, calls_at_once, raises, calls_and_raises, quit_opened, Power, publish_now,
  hook_onto, attach_to_standby_screen, detach_from_standby_screen, entered_standby, left_standby,
  without_screen, remove_hook, hold_counter, add_notifier_to, start, stop, settle, close_screen,
  can_quit, quit_mainloop,
}
use enigma2_mqtt_bridge.Power.Hooked.{
  Step, opens, tells, closes, settles, starts, stops, Reached, at_first, then_step, IsHooked,
  Reached-IsHooked,
}

-- Nothing will call it: not the counter, not a screen, and not the ticker.
abbrev pub IsSilent : Power → Type 0
IsSilent p = (p.notified ≡ 0) × (p.settling ≡ false) × (p.attached_to ≡ none) × (p.hooks ≡ [])

abbrev Tidy : Power → Type 0
Tidy p = ((p.counter_held ≡ true) × (p.notified ≡ 1)) ⊎ IsSilent p

-- What a screen is attached to says nothing of the counter.
attach-counter :
    (image : Image) (p : Power)
    → ((attach_to_standby_screen image p).counter_held ≡ p.counter_held)
      × ((attach_to_standby_screen image p).notified ≡ p.notified)
unfolding attach_to_standby_screen hook_onto
attach-counter image p = elim (Bool-cases image.module_there) [
  | inr missing ↦ rw missing (refl, refl)
  | inl there ↦ elim (Option-cases p.shown) [
    | inl dark ↦ rw (there, dark) (refl, refl)
    | inr (screen, e) ↦ elim (Bool-cases (p.attached_to == some screen)) [
      | inl same ↦ rw (there, e, same) (refl, refl)
      | inr other ↦ elim (Bool-cases image.on_close_there) [
        | inl hookable ↦ rw (there, e, other, hookable) (refl, refl)
        | inr bare ↦ rw (there, e, other, bare) (refl, refl)
      ]
    ]
  ]
]

entered_standby-counter :
    (image : Image) (p : Power)
    → ((entered_standby image p).counter_held ≡ p.counter_held)
      × ((entered_standby image p).notified ≡ p.notified)
unfolding entered_standby publish_now
entered_standby-counter image p = attach-counter image p

-- The end of a start: the counter is held, with one entry more than before it.
held-Tidy :
    (image : Image) (p called : Power)
    → p.notified ≡ 0
    → called.notified ≡ p.notified + 1
    → Tidy (attach_to_standby_screen image (record called { counter_held = true }))
held-Tidy image p called untold told =
    let (held, kept) = attach-counter image (record called { counter_held = true }) in
    inl (held, kept ∙ (rw untold at told))

start-Tidy :
    (image : Image) (p : Power)
    → image.add_notifier ≢ some calls_and_raises
    → p.counter_held ≡ false
    → Tidy p
    → Tidy (start image p).1
unfolding start hold_counter add_notifier_to
start-Tidy image p sound idle (inl (held, told)) = absurd (ground arith)
start-Tidy image p sound idle (inr silent) =
    elim (Bool-cases (image.module_there && image.counter_there)) [
      | inr missing ↦ rw missing (inr silent)
      | inl there ↦ elim (Option-cases image.add_notifier) [
        | inl no_notifier ↦ rw (there, no_notifier) (inr silent)
        | inr (takes_keyword, e) ↦
            rw (there, e) (held-Tidy image p (add_notifier_to p) silent.0 refl)
        | inr (calls_at_once, e) ↦
            rw (there, e)
              (held-Tidy image p (entered_standby image (add_notifier_to p)) silent.0
                (entered_standby-counter image (add_notifier_to p)).1)
        | inr (raises, e) ↦ rw (there, e) (inr silent)
        | inr (calls_and_raises, e) ↦ absurd (sound e)
      ]
    ]

detach-IsSilent :
    (p : Power)
    → p.notified ≡ 0
    → p.settling ≡ false
    → IsHooked p.shown p.hooks p.attached_to
    → IsSilent (detach_from_standby_screen p)
unfolding detach_from_standby_screen remove_hook
detach-IsSilent p untold settled (inl (free, no_hooks)) = rw free (untold, settled, refl, no_hooks)
detach-IsSilent p untold settled (inr (s, attached, shown, hooks)) =
    rw attached (untold, settled, refl, rw (hooks, test_refl s) refl)

stop-Tidy :
    (image : Image) (p : Power)
    → image.removes ≡ true
    → IsHooked p.shown p.hooks p.attached_to
    → Tidy p
    → Tidy (stop image p)
unfolding stop
stop-Tidy image p able h tidy = elim (Bool-cases p.counter_held) [
  | inl held ↦
      let stopped = record p {
        settling = false;
        counter_held = false;
        notified = p.notified - 1;
      } in
      let untold : p.notified - 1 ≡ 0 = elim tidy [
        | inl (_, told) ↦ rw told refl
        | inr silent ↦ rw silent.0 refl
      ] in
      rw (held, able) (inr (detach-IsSilent stopped untold refl h))
  | inr idle ↦ rw idle (elim tidy [
    | inl (held, told) ↦ absurd (ground arith)
    | inr (untold, settled, free, no_hooks) ↦ inr (untold, refl, free, no_hooks)
  ])
]

close_screen-Tidy : (screen : ℕ) (p : Power) → Tidy p → Tidy (close_screen screen p)
unfolding close_screen left_standby without_screen
close_screen-Tidy screen p (inl held) = elim (Bool-cases (contains screen p.hooks)) [
  | inl hooked ↦ rw hooked (inl held)
  | inr free ↦ rw free (inl held)
]
close_screen-Tidy screen p (inr (untold, settled, free, no_hooks)) =
    rw no_hooks (inr (untold, settled, free, refl))

at_rest : (p : Power) → Tidy p → Tidy (record p { settling = false })
at_rest p (inl held) = inl held
at_rest p (inr (untold, settled, free, no_hooks)) = inr (untold, refl, free, no_hooks)

settle-Tidy : (image : Image) (p : Power) → Tidy p → Tidy (settle image p)
unfolding settle publish_now
settle-Tidy image p h = elim (Bool-cases p.settling) [
  | inl pending ↦ rw pending (at_rest p h)
  | inr idle ↦ rw idle (at_rest p h)
]

module _ (image : Image) where
  -- A start is made while the counter is not held.
  abbrev pub IsFresh : {p q : Power} → Step image p q → Type 0
  IsFresh (starts p) = p.counter_held ≡ false
  IsFresh (opens p screen dark) = Unit
  IsFresh (tells p told) = Unit
  IsFresh (closes p screen shown) = Unit
  IsFresh (settles p) = Unit
  IsFresh (stops p) = Unit

  abbrev pub StartsFresh : {p : Power} → Reached image p → Type 0
  StartsFresh (at_first shown) = Unit
  StartsFresh (then_step run step) = StartsFresh run × IsFresh step

module _ (image : Image) (able : image.removes ≡ true)
    (sound : image.add_notifier ≢ some calls_and_raises) where
  Step-Tidy :
      {p q : Power}
      → Reached image p
      → Tidy p
      → (step : Step image p q) → IsFresh image step
      → Tidy q
  Step-Tidy run h (opens p screen dark) fresh = h
  Step-Tidy run h (tells p told) fresh = elim h [
    | inl (held, once) ↦
        let (still, kept) = entered_standby-counter image p in inl (still ∙ held, kept ∙ once)
    | inr (untold, settled, free, no_hooks) ↦ absurd (omega arith)
  ]
  Step-Tidy run h (closes p screen e) fresh = close_screen-Tidy screen p h
  Step-Tidy run h (settles p) fresh = settle-Tidy image p h
  Step-Tidy run h (starts p) fresh = start-Tidy image p sound fresh h
  Step-Tidy run h (stops p) fresh = stop-Tidy image p able (Reached-IsHooked image run) h

  Reached-Tidy : {p : Power} → (run : Reached image p) → StartsFresh image run → Tidy p
  Reached-Tidy (at_first shown) fresh = inr (refl, refl, refl, refl)
  Reached-Tidy (then_step run step) (before, fresh) =
      Step-Tidy run (Reached-Tidy run before) step fresh

  -- Once the publisher has been stopped, or while it has not been started, nothing is left that would call
  -- it: it does not stand in the list of the counter, the ticker is not running, and no standby screen
  -- carries its hook. This is so in any run in which it is not started a second time before it is
  -- stopped, if the image can take a notifier off the counter and does not raise from the call that
  -- an older `addNotifier` makes at once.
  pub Reached-IsSilent :
      {p : Power}
      → (run : Reached image p) → StartsFresh image run
      → p.counter_held ≡ false
      → IsSilent p
  Reached-IsSilent run fresh idle = elim (Reached-Tidy run fresh) [
    | inl (held, once) ↦ absurd (cc)
    | inr silent ↦ silent
  ]

-- What `quit_mainloop` does after the question that was asked before the goodbye: where `can_quit` gives a
-- reason it is refused for that reason and enigma2 is asked nothing; where it gives none, nothing but an
-- exception of the image's own can keep the shutdown screen from being opened.
pub quit_mainloop-can_quit :
    (image : Image) (session : Bool) (retvalue : ℕ) (p : Power)
    → ((reason : String) × (can_quit image session ≡ some reason)
        × (quit_mainloop image session retvalue p ≡ (some reason, p)))
      ⊎ ((can_quit image session ≡ none)
          × (((words : String) × (image.open_raises ≡ some words)
                × (quit_mainloop image session retvalue p ≡ (some words, p)))
              ⊎ ((image.open_raises ≡ none)
                  × (quit_mainloop image session retvalue p
                      ≡ (none, record p { asked = p.asked ++ (quit_opened retvalue ∷ []) })))))
unfolding can_quit quit_mainloop
quit_mainloop-can_quit image session retvalue p = elim (Bool-cases image.module_there) [
  | inr no_module ↦ rw no_module (inl (_, refl, refl))
  | inl there ↦ elim (Bool-cases image.quit_there) [
    | inr no_quit ↦ rw (there, no_quit) (inl (_, refl, refl))
    | inl quit ↦ elim (Bool-cases session) [
      | inr no_session ↦ rw (there, quit, no_session) (inl (_, refl, refl))
      | inl in_session ↦ elim (Option-cases image.open_raises) [
        | inl opened ↦ rw (there, quit, in_session, opened) (inr (refl, inr (refl, refl)))
        | inr (words, raised) ↦
            rw (there, quit, in_session, raised) (inr (refl, inl (words, refl, refl)))
      ]
    ]
  ]
]
