-- ===== src/Combo/Counting.antt =====
-- The counting of the press combo.
use mathlib.Core.Path.{subst}
use enigma2_mqtt_bridge.Common.{
  ℕ, suc, ◌+◌, ◌-◌, ◌*◌, ◌≤◌, ◌<◌, ◌≡◌, ◌∙◌, sym, refl, Bool, true, false, Option, none, some, List,
  [], ◌∷◌, leb, nat_eq, option_eq, test_refl, Bool-cases, inl, inr, ◌⊎◌, ◌↔◌, arith, if◌then◌else◌,
  length,
}
use enigma2_mqtt_bridge.Common.Result.{Result, ok, err}
use enigma2_mqtt_bridge.Combo.{
  Choice, Combo, Action, make, break, repeat, long, is_player_key, reset, round_ms, counts_on,
  counted, Seen, Raised, raises, handle_action, handle_bound, screen_action, live_action,
  counting_action,
}

-- A run of presses over one dialog, at the given times, and how often it opened the menu.
abbrev pub press_all : Combo → ℕ → List ℕ → Combo × ℕ
press_all c dialog [] = (c, 0)
press_all c dialog (now ∷ times) =
    let (next, opens) = counted c dialog now in
    let (end, n) = press_all next dialog times in (end, if opens then suc n else n)

-- Each press comes within the gap of the one before it, which was at `last`.
abbrev pub Quick : ℕ → ℕ → List ℕ → Type 0
Quick gap last [] = Unit
Quick gap last (now ∷ times) = (round_ms (now - last) ≤ gap) × Quick gap now times

module _ (presses gap dialog : ℕ) where
  -- Where the count stands: at none, or at some presses of which the last came at `last`.
  record AtCount (c : Combo) (last k : ℕ) : Type 0 where
    wanted : c.presses ≡ presses
    within : c.gap_ms ≡ gap
    stands : c.count ≡ k
    fewer : k < presses
    since : ((k ≡ 0) × (c.last ≡ none)) ⊎ ((c.last ≡ some last) × (c.dialog ≡ some dialog))

  -- The number of this press.
  counted-number :
      (c : Combo) (last now k : ℕ)
      → AtCount c last k
      → round_ms (now - last) ≤ gap
      → (if counts_on c dialog now then suc c.count else 1) ≡ suc k
  unfolding counts_on
  counted-number c last now k at h = elim at.since [
    | inl (zero_count, none_last) ↦ rw (none_last, zero_count) refl
    | inr (some_last, same) ↦
        rw (some_last, same, at.within, at.stands) (ground (arith, test_refl (some dialog)))
  ]

  -- One press within the gap: the count goes up, or the menu opens and the count starts again.
  counted-AtCount :
      (c : Combo) (last now k : ℕ)
      → AtCount c last k
      → round_ms (now - last) ≤ gap
      → ((suc k ≡ presses)
          × (next : Combo) × (counted c dialog now ≡ (next, true))
          × AtCount next now 0)
        ⊎ ((next : Combo) × (counted c dialog now ≡ (next, false)) × AtCount next now (suc k))
  unfolding counted reset
  counted-AtCount c last now k at h = elim (Bool-cases (leb presses (suc k))) [
    | inl full ↦ inl (
      ground arith,
      reset c,
      rw (counted-number c last now k at h, at.wanted, full) refl,
      record {
        wanted = at.wanted;
        within = at.within;
        stands = refl;
        fewer = ground arith;
        since = inl (refl, refl);
      },
    )
    | inr more ↦ inr (
      record c { count = suc k; last = some now; dialog = some dialog },
      rw (counted-number c last now k at h, at.wanted, more) refl,
      record {
        wanted = at.wanted;
        within = at.within;
        stands = refl;
        fewer = ground arith;
        since = inr (refl, refl);
      },
    )
  ]

  press_all-AtCount :
      (times : List ℕ) (c : Combo) (last k : ℕ)
      → AtCount c last k
      → Quick gap last times
      → ((press_all c dialog times).1 * presses + (press_all c dialog times).0.count
          ≡ k + length times)
        × ((press_all c dialog times).0.count < presses)
  press_all-AtCount [] c last k at quick = rw at.stands (grind arith, at.fewer)
  press_all-AtCount (now ∷ times) c last k at (first, rest) =
      elim (counted-AtCount c last now k at first) [
        | inl (full, next, e, at_next) ↦
            let (sum, small) = press_all-AtCount times next now 0 at_next rest in
            rw e (grind arith, small)
        | inr (next, e, at_next) ↦
            let (sum, small) = press_all-AtCount times next now (suc k) at_next rest in
            rw e (grind arith, small)
      ]

round_ms-same : (now gap : ℕ) → round_ms (now - now) ≤ gap
unfolding round_ms
round_ms-same now gap = let e : now - now ≡ 0 = omega arith in rw e (ground arith)

-- N presses make a menu: from no press counted, in a run of presses over one dialog, each within the
-- gap of the one before it, the menu opens at every N-th one and at no other, and what is counted
-- after it are the presses left over.
pub presses_open :
    (c : Combo) (dialog first : ℕ) (times : List ℕ)
    → c.count ≡ 0
    → c.last ≡ none
    → 0 < c.presses
    → Quick c.gap_ms first times
    → let (end, opened) = press_all c dialog (first ∷ times) in
      (opened * c.presses + end.count ≡ suc (length times)) × (end.count < c.presses)
presses_open c dialog first times none_counted none_last some_wanted quick =
    let at : AtCount c.presses c.gap_ms dialog c first 0 = record {
      wanted = refl;
      within = refl;
      stands = none_counted;
      fewer = some_wanted;
      since = inl (refl, none_last);
    } in
    let (sum, small) =
      press_all-AtCount c.presses c.gap_ms dialog (first ∷ times) c first 0 at
        (round_ms-same first c.gap_ms, quick) in
    (sum ∙ (omega arith), small)

counting_action-consumes :
    (c : Combo) (action : Action) (dialog now : ℕ)
    → (counting_action c action dialog now).consumed ≡ true
unfolding counting_action
counting_action-consumes c make dialog now = refl
counting_action-consumes c break dialog now = refl
counting_action-consumes c repeat dialog now = refl
counting_action-consumes c long dialog now = refl

live_action-consumes :
    (c : Combo) (action : Action) (player : Bool) (live : Result Raised Bool) (dialog now : ℕ)
    → ((live_action c action player live dialog now).consumed ≡ true)
      ↔ ((player ≡ true) ⊎ (live ≡ ok true))
unfolding live_action
live_action-consumes c action true live dialog now =
    (λ h. inl refl, λ h. counting_action-consumes c action dialog now)
live_action-consumes c action false (ok true) dialog now =
    (λ h. inr refl, λ h. counting_action-consumes c action dialog now)
live_action-consumes c action false (ok false) dialog now =
    (λ h. cc, λ h. elim h [ inl e ↦ cc | inr e ↦ cc ])
live_action-consumes c action false (err raises) dialog now =
    (λ h. cc, λ h. elim h [ inl e ↦ cc | inr e ↦ cc ])

screen_action-consumes :
    (c : Combo) (key : Choice) (action : Action) (screen : Result Raised (Option ℕ))
    (live : Result Raised Bool) (now : ℕ)
    → ((screen_action c key action screen live now).consumed ≡ true) ↔ (
        (dialog : ℕ) × (screen ≡ ok (some dialog))
        × ((is_player_key key ≡ true) ⊎ (live ≡ ok true)))
unfolding screen_action
screen_action-consumes c key action (err raises) live now = (λ h. cc, λ (d, h, _). cc)
screen_action-consumes c key action (ok none) live now = (λ h. cc, λ (d, h, _). cc)
screen_action-consumes c key action (ok (some dialog)) live now = (
  λ h. (dialog, refl, (live_action-consumes c action (is_player_key key) live dialog now).0 h),
  λ (d, e, h). (live_action-consumes c action (is_player_key key) live dialog now).1 h,
)

-- Where the key counts, every event of it is consumed, and where it does not, none is: the answer is
-- the same for the make, the break, the repeats and the long press. The key counts where there is
-- a dialog to open the menu over, which for a key that is not one of the players' is the info bar.
-- An exception of the image's passes the key on.
pub handle_action-consumes :
    (c : Combo) (key : Choice) (action : Action) (seen : Seen)
    → c.bound ≡ some key
    → ((handle_action c true (some action) seen).consumed ≡ true) ↔ (
        (dialog : ℕ) × (seen.screen ≡ ok (some dialog))
        × ((is_player_key key ≡ true) ⊎ (seen.live ≡ ok true)))
unfolding handle_action handle_bound
handle_action-consumes c key action seen e =
    subst
      (λ b. ((handle_bound b c action seen).consumed ≡ true) ↔ (
        (dialog : ℕ) × (seen.screen ≡ ok (some dialog))
        × ((is_player_key key ≡ true) ⊎ (seen.live ≡ ok true))))
      (sym e) (screen_action-consumes c key action seen.screen seen.live seen.now)
