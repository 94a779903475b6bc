-- ===== src/Combo/Binding.antt =====
-- The binding of the press combo: what it leaves in the image's action map, and what it reports.
use mathlib.Core.Option.{some-ne-none}
use mathlib.Core.List.{append-nil, append_assoc}
use enigma2_mqtt_bridge.Common.{
  ℕ, zero, suc, ◌^◌, ◌≡◌, ◌≢◌, refl, sym, ap, ◌∙◌, ◌⊎◌, inl, inr, Bool, true, false, Option, none,
  some, List, [], ◌∷◌, ◌++◌, Bool-cases, Option-cases, arith, ◌&&◌,
}
use enigma2_mqtt_bridge.Combo.{
  Choice, Refusal, fallback_code, Action, flag_of, actions, ActionMap, Image, Combo, reset, unbind,
  bind, report, not_bindable, or_unbound, bind_choice, finish_bind, bind_calls,
}

-- Nothing of the plugin is in the action map.
abbrev pub IsFree : Combo → ActionMap → Type 0
IsFree c map =
    (c.bound ≡ none) × (c.bound_action ≡ false) × (map.mapped ≡ []) × (map.handler ≡ false)

-- One mapping for each flag.
abbrev pub mappings : ℕ → List (ℕ × ℕ)
mappings code = (code, 1) ∷ ((code, 2) ∷ ((code, 4) ∷ ((code, 8) ∷ [])))

-- One key is bound: its four mappings stand, and the handler.
abbrev pub IsBound : Combo → ActionMap → Type 0
IsBound c map =
    (key : Choice) × (code : ℕ) × (c.bound ≡ some key)
    × (c.bound_action ≡ true)
    × (map.mapped ≡ mappings code)
    × (map.handler ≡ true)

abbrev pub IsTidy : Combo → ActionMap → Type 0
IsTidy c map = IsFree c map ⊎ IsBound c map

-- The image takes a binding back when it is asked to.
abbrev pub GivesBack : Image → Type 0
GivesBack image =
    (image.has_map ≡ true) × (image.unbinds_action ≡ true) × (image.unbinds_domain ≡ true)

unbind-IsFree_at :
    (image : Image) (c : Combo) (map : ActionMap)
    → GivesBack image
    → ((c.bound_action ≡ true) ⊎ (map.handler ≡ false))
    → IsFree (unbind image c map).0 (unbind image c map).1
unfolding unbind reset
unbind-IsFree_at image c map (has, action, domain) h = rw (has, action, domain) (ground arith)

-- What was bound is taken back whole.
pub unbind-IsFree :
    (image : Image) (c : Combo) (map : ActionMap)
    → GivesBack image
    → IsTidy c map
    → IsFree (unbind image c map).0 (unbind image c map).1
unbind-IsFree image c map gives (inl free) = unbind-IsFree_at image c map gives (inr free.3)
unbind-IsFree image c table gives (inr (key, code, e, acts, mapped, handler)) =
    unbind-IsFree_at image c table gives (inl acts)

-- The mappings of some flags.
flag_mappings : ℕ → List Action → List (ℕ × ℕ)
flag_mappings code [] = []
flag_mappings code (action ∷ flags) = (code, 2 ^ flag_of action) ∷ flag_mappings code flags

-- What some calls leave, whether one raised or not.
abbrev Leaves : ℕ → List Action → ActionMap → Bool × ActionMap → Type 0
Leaves code flags map (done, after) =
    ((done ≡ false) × (after.handler ≡ map.handler))
    ⊎ ((done ≡ true)
        × (after.handler ≡ true)
        × (after.mapped ≡ map.mapped ++ flag_mappings code flags))

one_more :
    (code : ℕ) (action : Action) (flags : List Action) (map : ActionMap) {result : Bool × ActionMap}
    → Leaves code flags
        (record map { mapped = map.mapped ++ ((code, 2 ^ flag_of action) ∷ []) })
        result
    → Leaves code (action ∷ flags) map result
unfolding flag_mappings
one_more code action flags map (inl raised) = inl raised
one_more code action flags map (inr (done, handler, mapped)) =
    inr (done, handler, mapped ∙ append_assoc map.mapped _ _)

bind_calls-Leaves :
    (at : Option ℕ) (code : ℕ) (flags : List Action) (map : ActionMap)
    → Leaves code flags map (bind_calls at code flags map)
unfolding bind_calls flag_mappings
bind_calls-Leaves (some zero) code flags map = inl (refl, refl)
bind_calls-Leaves none code [] map = inr (refl, refl, sym (append-nil map.mapped))
bind_calls-Leaves (some (suc n)) code [] map = inr (refl, refl, sym (append-nil map.mapped))
bind_calls-Leaves none code (action ∷ flags) map = one_more code action flags map (
    bind_calls-Leaves none code flags
      (record map { mapped = map.mapped ++ ((code, 2 ^ flag_of action) ∷ []) }))
bind_calls-Leaves (some (suc n)) code (action ∷ flags) map = one_more code action flags map (
    bind_calls-Leaves (some n) code flags
      (record map { mapped = map.mapped ++ ((code, 2 ^ flag_of action) ∷ []) }))

finish_bind-IsTidy :
    (image : Image) (key : Choice) (code : ℕ) (c : Combo) (map : ActionMap)
    (result : Bool × ActionMap)
    → GivesBack image
    → IsFree c map
    → Leaves code actions map result
    → IsTidy (finish_bind image key c result).0 (finish_bind image key c result).1
unfolding finish_bind flag_mappings
finish_bind-IsTidy image key code c map (done, after) gives (unbound, idle, nothing, unhandled)
      leaves =
    elim leaves [
      | inl (raised, handler) ↦ rw raised (
          inl (
            unbind-IsFree_at image (record c { refusal = some not_bindable }) after gives
              (inr (handler ∙ unhandled))))
      | inr (bound, handler, mapped) ↦
          rw bound (inr (key, code, refl, refl, rw nothing at mapped, handler))
    ]

bind_choice-IsTidy :
    (image : Image) (code : Choice → Option ℕ) (choice : Option Choice) (c : Combo)
    (map : ActionMap)
    → GivesBack image
    → IsFree c map
    → IsTidy (bind_choice image code choice c map).0 (bind_choice image code choice c map).1
unfolding bind_choice
bind_choice-IsTidy image code none c map gives free = inl free
bind_choice-IsTidy image code (some key) c map gives free =
    elim (Bool-cases (image.has_map && image.can_bind)) [
      | inr refuses ↦ rw refuses (inl free)
      | inl binds ↦ rw binds (
          finish_bind-IsTidy image key _ c map _ gives free
            (bind_calls-Leaves image.raises_at _ actions map))
    ]

-- A rebind leaves one binding whole or none at all: on an image that takes bindings back when asked,
-- whatever was bound before and whichever call of the new binding raises, afterwards either one
-- key has its four mappings and the handler, or nothing of the plugin is in the action map.
pub bind-IsTidy :
    (image : Image) (code : Choice → Option ℕ) (choice : Option Choice) (presses gap_ms : ℕ)
    (c : Combo) (map : ActionMap)
    → GivesBack image
    → IsTidy c map
    → let (after, left) = bind image code choice presses gap_ms c map in IsTidy after left
unfolding bind
bind-IsTidy image code choice presses gap_ms c map gives tidy =
    bind_choice-IsTidy image code choice _ _ gives (unbind-IsFree image c map gives tidy)

-- A combo that is not bound says why.
abbrev IsExplained : Combo → Type 0
IsExplained c = report c ≢ (none, none)

or_unbound-said : (r : Option Refusal) → or_unbound r ≢ none
or_unbound-said none = λ e. cc
or_unbound-said (some refusal) = λ e. cc

unbind-refusal :
    (image : Image) (c : Combo) (map : ActionMap)
    → ((unbind image c map).0.bound ≡ none)
      × ((unbind image c map).0.refusal ≡ or_unbound c.refusal)
unfolding unbind
unbind-refusal image c map = elim (Bool-cases image.has_map) [
  | inl has ↦ rw has (refl, refl)
  | inr lacks ↦ rw lacks (refl, refl)
]

explained : (c : Combo) → (c.bound ≡ none → c.refusal ≢ none) → IsExplained c
unfolding report
explained c h e = elim (Option-cases c.bound) [
  | inl free ↦ h free (ap (λ r. r.1) (rw free at e))
  | inr (key, bound) ↦ absurd (some-ne-none _ (ap (λ r. r.0) (rw bound at e)))
]

finish_bind-IsExplained :
    (image : Image) (key : Choice) (c : Combo) (result : Bool × ActionMap)
    → IsExplained (finish_bind image key c result).0
unfolding finish_bind
finish_bind-IsExplained image key c (true, map) = explained _ (λ e. cc)
finish_bind-IsExplained image key c (false, map) = explained _ (λ e.
    rw (unbind-refusal image (record c { refusal = some not_bindable }) map).1
      (or_unbound-said (some not_bindable)))

bind_choice-IsExplained :
    (image : Image) (code : Choice → Option ℕ) (choice : Option Choice) (c : Combo)
    (map : ActionMap)
    → IsExplained (bind_choice image code choice c map).0
unfolding bind_choice
bind_choice-IsExplained image code none c map = explained _ (λ e. λ f. cc)
bind_choice-IsExplained image code (some key) c map =
    elim (Bool-cases (image.has_map && image.can_bind)) [
      | inr refuses ↦
          rw refuses (explained (record c { refusal = some not_bindable }) (λ e. λ f. cc))
      | inl binds ↦ rw binds (
          finish_bind-IsExplained image key c (
            bind_calls image.raises_at (elim (code key) [ none ↦ fallback_code key | some n ↦ n ])
              actions map))
    ]

-- `report` never answers nothing: whatever the image does and whatever was bound before, after a bind
-- it gives the settings of the bound key, or the reason that none is bound.
pub bind-IsExplained :
    (image : Image) (code : Choice → Option ℕ) (choice : Option Choice) (presses gap_ms : ℕ)
    (c : Combo) (map : ActionMap)
    → report (bind image code choice presses gap_ms c map).0 ≢ (none, none)
unfolding bind
bind-IsExplained image code choice presses gap_ms c map =
    bind_choice-IsExplained image code choice _ _
