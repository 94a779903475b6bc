-- ===== src/BackKey/Shared.antt =====
-- The mapping that the screens share, over any run of openings and closings.
use mathlib.Core.Path.{subst}
use mathlib.Core.Option.{some-injective, some-ne-none}
use enigma2_mqtt_bridge.Common.{
  ℕ, suc, ◌-◌, ◌<◌, ◌≡◌, ◌∙◌, refl, sym, ap, ◌⊎◌, inl, inr, Bool, true, false, not, ◌||◌, Option,
  none, some, List, [], ◌∷◌, ◌++◌, ◌==◌, nat_eq, option_eq, eqb, if◌then◌else◌, arith, All,
  Bool-cases, test_refl,
}
use enigma2_mqtt_bridge.BackKey.{
  Image, Mapped, nothing_mapped, map_key, unmap_key, BackKey, bind_handler, bind_at, bind, unbind,
  if_bound, attach, drop_handler,
}

-- The screens that are open, with their bindings.
pub record Screens : Type 0 where
  pub open_screens : List BackKey
  pub mapped : Mapped

-- A screen opens, and gets its binding if the image can bind; or the screen that opened last closes,
-- and lets go of its binding.
pub data Step (instance_id : ℕ) : Screens → Screens → Type 0 where
  opens :
      (image : Image) (dialog : ℕ) (s : Screens) (back : BackKey) (after : Mapped)
      → image.instance_id ≡ some instance_id
      → image.unbinds_domain ≡ true
      → attach image dialog s.mapped ≡ (some back, after)
      → Step instance_id s (record { open_screens = back ∷ s.open_screens; mapped = after })
  stays_unbound :
      (image : Image) (dialog : ℕ) (s : Screens) (after : Mapped)
      → image.instance_id ≡ some instance_id
      → image.unbinds_domain ≡ true
      → attach image dialog s.mapped ≡ (none, after)
      → Step instance_id s (record s { mapped = after })
  closes :
      (image : Image) (before after : List BackKey) (back : BackKey) (m : Mapped)
      → image.instance_id ≡ some instance_id
      → image.unbinds_domain ≡ true
      → Step instance_id
          (record { open_screens = before ++ (back ∷ after); mapped = m })
          (record { open_screens = before ++ after; mapped = (unbind image back m).1 })

pub data Reached (instance_id : ℕ) : Screens → Type 0 where
  at_first : Reached instance_id (record { open_screens = []; mapped = nothing_mapped })
  then_step : {s t : Screens} → Reached instance_id s → Step instance_id s t → Reached instance_id t

abbrev pub count_open : List BackKey → ℕ
count_open [] = 0
count_open (back ∷ backs) = suc (count_open backs)

-- What is mapped while `n` screens hold the key.
abbrev pub IsShared : ℕ → ℕ → Mapped → Type 0
IsShared instance_id n m =
    (m.count ≡ n)
    × (((n ≡ 0) × (m.mappings ≡ 0)) ⊎ ((m.actions ≡ some instance_id) × (m.mappings ≡ 1) × (0 < n)))

-- Whether `map_key` maps the key, or only counts.
maps_anew :
    (instance_id n : ℕ) (m : Mapped)
    → IsShared instance_id n m
    → ((n ≡ 0) × (m.mappings ≡ 0) × ((not (m.actions == some instance_id) || eqb m.count 0) ≡ true))
      ⊎ ((m.actions ≡ some instance_id)
          × (m.mappings ≡ 1)
          × ((not (m.actions == some instance_id) || eqb m.count 0) ≡ false))
maps_anew instance_id n m (count, inl (zero_open, unmapped)) =
    inl (zero_open, unmapped, ground arith)
maps_anew instance_id n m (count, inr (actions, mapped, some_open)) =
    inr (actions, mapped, rw (actions, test_refl (some instance_id)) (ground arith))

map_key-IsShared :
    (image : Image) (instance_id n : ℕ) (m : Mapped)
    → IsShared instance_id n m
    → ((map_key image instance_id m).0 ≡ true
        → IsShared instance_id (suc n) (map_key image instance_id m).1)
      × ((map_key image instance_id m).0 ≡ false
          → IsShared instance_id n (map_key image instance_id m).1)
unfolding map_key
map_key-IsShared image instance_id n m shared = elim (maps_anew instance_id n m shared) [
  | inr (actions, mapped, counts) ↦
      rw counts ((λ h. (ground arith, inr (actions, mapped, ground arith))), λ h. cc)
  | inl (zero_open, unmapped, anew) ↦ elim (Bool-cases image.binds_key) [
    | inl binds ↦
        rw (anew, binds) ((λ h. (ground arith, inr (refl, ground arith, ground arith))), λ h. cc)
    | inr fails ↦ rw (anew, fails) ((λ h. cc), λ h. shared)
  ]
]

unmap_key-IsShared :
    (image : Image) (instance_id n : ℕ) (m : Mapped)
    → image.unbinds_domain ≡ true
    → IsShared instance_id (suc n) m
    → IsShared instance_id n (unmap_key image (some instance_id) m)
unfolding unmap_key
unmap_key-IsShared image instance_id n m works (count, inl (none_open, _)) = absurd (omega arith)
unmap_key-IsShared image instance_id n m works (count, inr (actions, mapped, _)) =
    let held : (m.actions == some instance_id) ≡ true = rw actions (test_refl (some instance_id)) in
    elim (Bool-cases (eqb (m.count - 1) 0)) [
      | inl last ↦ rw (held, last, works) (ground arith, inl (ground arith, refl))
      | inr more ↦ rw (held, more) (ground arith, inr (actions, mapped, ground arith))
    ]

-- What a binding leaves, bound or not.
abbrev Leaves : ℕ → ℕ → BackKey × Mapped → Type 0
Leaves instance_id n (back, after) =
    ((back.bound ≡ true) × IsShared instance_id (suc n) after)
    ⊎ ((back.bound ≡ false) × IsShared instance_id n after)

bind_handler-Leaves :
    (image : Image) (instance_id n : ℕ) (back : BackKey) (r : Bool × Mapped)
    → image.unbinds_domain ≡ true
    → back.bound ≡ false
    → (r.0 ≡ true → IsShared instance_id (suc n) r.1) × (r.0 ≡ false → IsShared instance_id n r.1)
    → Leaves instance_id n (bind_handler image instance_id back r)
unfolding bind_handler
bind_handler-Leaves image instance_id n back (false, m) works free (h1, h0) = inr (free, h0 refl)
bind_handler-Leaves image instance_id n back (true, m) works free (h1, h0) =
    elim (Bool-cases image.binds_action) [
      | inl binds ↦ rw binds (inl (refl, h1 refl))
      | inr fails ↦ rw fails (inr (free, unmap_key-IsShared image instance_id n m works (h1 refl)))
    ]

bind_at-Leaves :
    (image : Image) (instance_id n : ℕ) (back : BackKey) (m : Mapped)
    → image.unbinds_domain ≡ true
    → back.bound ≡ false
    → IsShared instance_id n m
    → Leaves instance_id n (bind_at image (some instance_id) back m)
unfolding bind_at
bind_at-Leaves image instance_id n back m works free shared =
    elim (Bool-cases image.has_bind_action) [
      | inl has ↦ rw has (
          bind_handler-Leaves image instance_id n back _ works free
            (map_key-IsShared image instance_id n m shared))
      | inr lacks ↦ rw lacks (inr (free, shared))
    ]

-- What `attach` leaves, whether it gives a binding or not.
abbrev Attaches : ℕ → ℕ → Option BackKey × Mapped → Type 0
Attaches instance_id n (given, after) =
    ((back : BackKey) × (given ≡ some back)
      × (back.bound ≡ true)
      × IsShared instance_id (suc n) after)
    ⊎ ((given ≡ none) × IsShared instance_id n after)

if_bound-Leaves :
    (instance_id n : ℕ) (r : BackKey × Mapped)
    → Leaves instance_id n r
    → Attaches instance_id n (if_bound r)
unfolding if_bound
if_bound-Leaves instance_id n (back, after) (inl (bound, shared)) =
    inl (back, rw bound refl, bound, shared)
if_bound-Leaves instance_id n (back, after) (inr (free, shared)) = inr (rw free refl, shared)

attach-leaves :
    (image : Image) (instance_id n dialog : ℕ) (m : Mapped)
    → image.instance_id ≡ some instance_id
    → image.unbinds_domain ≡ true
    → IsShared instance_id n m
    → Attaches instance_id n (attach image dialog m)
unfolding attach bind
attach-leaves image instance_id n dialog m same works shared =
    let back : BackKey = record { dialog = dialog; bound = false } in
    subst (λ i. Attaches instance_id n (if_bound (bind_at image i back m))) (sym same)
      (if_bound-Leaves instance_id n (bind_at image (some instance_id) back m)
        (bind_at-Leaves image instance_id n back m works refl shared))

drop_handler-mapped :
    (image : Image) (instance_id n : ℕ) (back : BackKey) (m : Mapped)
    → image.instance_id ≡ some instance_id
    → image.unbinds_domain ≡ true
    → back.bound ≡ true
    → IsShared instance_id (suc n) m
    → IsShared instance_id n (unbind image back m).1
unfolding unbind
drop_handler-mapped image instance_id n back m same works bound shared =
    elim (Bool-cases image.unbinds_action) [
      | inl drops ↦
          rw (bound, drops)
            (subst
              (λ i.
                IsShared instance_id n
                  (unmap_key image i (record m { handlers = drop_handler back.dialog m.handlers })))
              (sym same)
              (unmap_key-IsShared image instance_id n
                (record m { handlers = drop_handler back.dialog m.handlers }) works shared))
      | inr keeps ↦
          rw (bound, keeps)
            (subst (λ i. IsShared instance_id n (unmap_key image i m)) (sym same)
              (unmap_key-IsShared image instance_id n m works shared))
    ]

AllBound : List BackKey → Type 0
AllBound backs = All (λ back. back.bound ≡ true) backs

-- Taking one screen out of the open ones.
without-AllBound :
    (before after : List BackKey) (back : BackKey)
    → AllBound (before ++ (back ∷ after))
    → (back.bound ≡ true)
      × AllBound (before ++ after)
      × (count_open (before ++ (back ∷ after)) ≡ suc (count_open (before ++ after)))
unfolding AllBound
without-AllBound [] after back (bound, rest) = (bound, rest, refl)
without-AllBound (b ∷ before) after back (b_bound, rest) =
    let (bound, others, count) = without-AllBound before after back rest in
    (bound, (b_bound, others), ap suc count)

Reached-AllBound :
    (instance_id : ℕ) (s : Screens)
    → Reached instance_id s
    → AllBound s.open_screens × IsShared instance_id (count_open s.open_screens) s.mapped
unfolding AllBound nothing_mapped
Reached-AllBound instance_id s at_first = (tt, (refl, inl (refl, refl)))
Reached-AllBound instance_id t (then_step r (opens image dialog s back after same works e)) =
    let (all_bound, shared) = Reached-AllBound instance_id s r in
    elim (attach-leaves image instance_id _ dialog s.mapped same works shared) [
      | inl (given, some_given, bound, next) ↦
          let g : given ≡ back = some-injective _ _ (sym some_given ∙ ap (λ p. p.0) e) in
          (
            (subst (λ b. b.bound ≡ true) g bound, all_bound),
            subst (IsShared instance_id (suc (count_open s.open_screens))) (ap (λ p. p.1) e) next,
          )
      | inr (none_given, next) ↦ absurd (some-ne-none _ (sym (ap (λ p. p.0) e) ∙ none_given))
    ]
Reached-AllBound instance_id t (then_step r (stays_unbound image dialog s after same works e)) =
    let (all_bound, shared) = Reached-AllBound instance_id s r in
    elim (attach-leaves image instance_id _ dialog s.mapped same works shared) [
      | inl (given, some_given, bound, next) ↦
          absurd (some-ne-none _ (sym some_given ∙ ap (λ p. p.0) e))
      | inr (none_given, next) ↦ (all_bound, rw (ap (λ p. p.1) e) at next)
    ]
Reached-AllBound instance_id t (then_step r (closes image before after back m same works)) =
    let (all_bound, shared) = Reached-AllBound instance_id _ r in
    let (bound, others, count) = without-AllBound before after back all_bound in
    (
      others,
      drop_handler-mapped image instance_id (count_open (before ++ after)) back m same works bound
          (rw count at shared),
    )

-- One mapping serves all the screens: in every state that openings and closings of screens reach, in
-- any order and whatever of the binding fails, the key is mapped once while a screen holds it, and
-- not at all when none does, and the count is the number of the screens that hold it. The image is
-- one whose action map stays the same and gives a key domain back.
pub Reached-IsShared :
    (instance_id : ℕ) (s : Screens)
    → Reached instance_id s
    → (s.mapped.count ≡ count_open s.open_screens)
      × (s.mapped.mappings ≡ (if eqb (count_open s.open_screens) 0 then 0 else 1))
Reached-IsShared instance_id s r =
    let (_, (count, which)) = Reached-AllBound instance_id s r in
    (
      count,
      elim which [
        | inl (none_open, unmapped) ↦ rw none_open unmapped
        | inr (_, mapped, some_open) ↦
            let e : eqb (count_open s.open_screens) 0 ≡ false = ground arith in rw e mapped
      ],
    )
