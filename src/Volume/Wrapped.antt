-- ===== src/Volume/Wrapped.antt =====
-- Wrapping the volume control's methods and putting them back.
use mathlib.Core.Path.{subst}
use mathlib.Core.Bool.{false≢true}
use mathlib.Core.Option.{some-ne-none, some-injective}
use enigma2_mqtt_bridge.Common.{
  ◌≡◌, ◌∙◌, refl, sym, ap, ◌⊎◌, inl, inr, Bool, true, false, ◌&&◌, Option, none, some, List, [],
  ◌∷◌, String, ◌==◌, string_eq, eq_of_test, test_refl, Bool-cases, Option-cases, if◌then◌else◌,
}
use enigma2_mqtt_bridge.Common.Dict.{Dict, lookup, insert, lookup-insert}
use enigma2_mqtt_bridge.Volume.{
  Method, wrapper, is_marked, Control, with_wrapper, with_original, to_wrap, wrap_one, wrap_all,
  unwrap_one, unwrap_all,
}

module _ (settable : String → Bool) where
  -- The methods that are put back are not wrappers.
  abbrev AllPlain : Dict String Method → Type 0
  AllPlain [] = Unit
  AllPlain ((name, m) ∷ originals) = (is_marked (some m) ≡ false) × AllPlain originals

  -- What `unwrap_all` leaves under a name.
  abbrev put_back : Option Method → Bool → Option Method → Option Method
  put_back none may now = now
  put_back (some m) may now = if is_marked now && may then some m else now

  unwrap_one_self :
      (k : String) (m : Method) (control : Control)
      → lookup k (unwrap_one settable k m control)
        ≡ put_back (some m) (settable k) (lookup k control)
  unfolding unwrap_one
  unwrap_one_self k m control = elim (Bool-cases (is_marked (lookup k control) && settable k)) [
    | inl ours ↦ rw (ours, lookup-insert, test_refl k) refl
    | inr theirs ↦ rw theirs refl
  ]

  unwrap_one-other :
      (k name : String) (m : Method) (control : Control)
      → (k == name) ≡ false
      → lookup k (unwrap_one settable name m control) ≡ lookup k control
  unfolding unwrap_one
  unwrap_one-other k name m control other =
      elim (Bool-cases (is_marked (lookup name control) && settable name)) [
        | inl ours ↦ rw (ours, lookup-insert, other) refl
        | inr theirs ↦ rw theirs refl
      ]

  -- Putting back twice is putting back once, since what was put back is no wrapper.
  put_back-plain :
      (old : Option Method) (m : Method) (may : Bool) (now : Option Method)
      → is_marked (some m) ≡ false
      → (old ≡ none) ⊎ ((p : Method) × (old ≡ some p))
      → put_back old may (put_back (some m) may now) ≡ put_back (some m) may now
  put_back-plain none m may now plain h = refl
  put_back-plain (some p) m may now plain h = elim (Bool-cases (is_marked now && may)) [
    | inl ours ↦ rw (ours, plain) refl
    | inr theirs ↦ rw (theirs, theirs) refl
  ]

  unwrap_all-lookup :
      (k : String) (originals : Dict String Method) (control : Control)
      → AllPlain originals
      → lookup k (unwrap_all settable originals control)
        ≡ put_back (lookup k originals) (settable k) (lookup k control)
  unfolding unwrap_all lookup
  unwrap_all-lookup k [] control plain = refl
  unwrap_all-lookup k ((name, m) ∷ originals) control (plain, rest) =
      unwrap_all-lookup k originals (unwrap_one settable name m control) rest
      ∙ elim (Bool-cases (k == name)) [
        | inr other ↦ rw (other, unwrap_one-other k name m control other) refl
        | inl same ↦
            let e : name ≡ k = sym (eq_of_test k name same) in
            rw same (
              subst
                (λ n.
                  put_back (lookup k originals) (settable k)
                    (lookup k (unwrap_one settable n m control))
                  ≡ put_back (some m) (settable k) (lookup k control))
                (sym e)
                (rw (unwrap_one_self k m control) (
                  put_back-plain (lookup k originals) m (settable k) (lookup k control) plain
                    (Option-cases (lookup k originals)))))
      ]

  -- A method that is wrapped is there, is no wrapper, and can be set.
  to_wrap-some :
      (name : String) (control : Control) (m : Method)
      → to_wrap settable name control ≡ some m
      → (lookup name control ≡ some m) × (is_marked (some m) ≡ false) × (settable name ≡ true)
  unfolding to_wrap
  to_wrap-some name control m h = elim (Option-cases (lookup name control)) [
    | inl nothing ↦ absurd (some-ne-none _ (sym (rw (nothing, to_wrap) at h)))
    | inr (found, there) ↦ elim (Bool-cases (is_marked (some found))) [
      | inl ours ↦ absurd (some-ne-none _ (sym (rw (there, to_wrap, ours) at h)))
      | inr plain ↦ elim (Bool-cases (settable name)) [
        | inr fixed ↦ absurd (some-ne-none _ (sym (rw (there, to_wrap, plain, fixed) at h)))
        | inl sets ↦
            let same : found ≡ m = some-injective _ _ (rw (there, to_wrap, plain, sets) at h) in
            (there ∙ ap some same, subst (λ f. is_marked (some f) ≡ false) same plain, sets)
      ]
    ]
  ]

  with_original-AllPlain :
      (name : String) (control : Control) (o : Option Method) (originals : Dict String Method)
      → to_wrap settable name control ≡ o
      → AllPlain originals
      → AllPlain (with_original name o originals)
  with_original-AllPlain name control none originals e rest = rest
  with_original-AllPlain name control (some m) originals e rest =
      ((to_wrap-some name control m e).1, rest)

  wrap_all-AllPlain :
      (names : List String) (control : Control) → AllPlain (wrap_all settable names control).1
  unfolding wrap_all
  wrap_all-AllPlain [] control = tt
  wrap_all-AllPlain (name ∷ names) control =
      with_original-AllPlain name control _
        (wrap_all settable names (wrap_one settable name control)).1 refl
        (wrap_all-AllPlain names (wrap_one settable name control))

  -- What stays a wrapper when the others are put back was not recorded among them.
  put_back-wrapper :
      (old : Option Method) (m : Method) (now : Option Method)
      → ((p : Method) → old ≡ some p → is_marked (some p) ≡ false)
      → put_back old true now ≡ some (wrapper m)
      → (now ≡ some (wrapper m)) × (old ≡ none)
  put_back-wrapper none m now plain h = (h, refl)
  put_back-wrapper (some p) m now plain h = elim (Bool-cases (is_marked now && true)) [
    | inl ours ↦
        let e : p ≡ wrapper m = some-injective _ _ (rw ours at h) in
        absurd (false≢true (sym (plain p refl) ∙ ap (λ q. is_marked (some q)) e))
    | inr theirs ↦
        let e : now ≡ some (wrapper m) = rw theirs at h in
        absurd (false≢true (sym theirs ∙ ap (λ o. is_marked o && true) e))
  ]

  AllPlain-lookup :
      (k : String) (originals : Dict String Method) (p : Method)
      → AllPlain originals
      → lookup k originals ≡ some p
      → is_marked (some p) ≡ false
  unfolding lookup
  AllPlain-lookup k [] p plain h = cc
  AllPlain-lookup k ((name, m) ∷ originals) p (plain, rest) h = elim (Bool-cases (k == name)) [
    | inl same ↦ subst (λ q. is_marked (some q) ≡ false) (some-injective _ _ (rw same at h)) plain
    | inr other ↦ AllPlain-lookup k originals p rest (rw other at h)
  ]

  with_original_self :
      (name : String) (control after : Control) (m : Method) (originals : Dict String Method)
      → to_wrap settable name control ≡ some m
      → AllPlain originals
      → lookup name (unwrap_all settable originals after) ≡ some (wrapper m)
      → lookup name (unwrap_all settable ((name, m) ∷ originals) after) ≡ lookup name control
  unfolding lookup
  with_original_self name control after m originals e plain stands =
      let (there, m_plain, sets) = to_wrap-some name control m e in
      let back : put_back (lookup name originals) true (lookup name after) ≡ some (wrapper m) =
        subst (λ may. put_back (lookup name originals) may (lookup name after) ≡ some (wrapper m))
          sets (sym (unwrap_all-lookup name originals after plain) ∙ stands) in
      let (now, _) =
        put_back-wrapper (lookup name originals) m (lookup name after)
          (λ p. AllPlain-lookup name originals p plain) back in
      unwrap_all-lookup name ((name, m) ∷ originals) after (m_plain, plain)
      ∙ rw (test_refl name, sets, now, there) refl

  with_original-other :
      (k name : String) (control after : Control) (m : Method) (originals : Dict String Method)
      → (k == name) ≡ false
      → AllPlain originals
      → lookup k (unwrap_all settable originals after) ≡ lookup k (insert name (wrapper m) control)
      → lookup k (unwrap_all settable ((name, m) ∷ originals) after) ≡ lookup k control
  unfolding unwrap_all
  with_original-other k name control after m originals other plain stands =
      unwrap_all-lookup k originals (unwrap_one settable name m after) plain
      ∙ ap (put_back (lookup k originals) (settable k)) (unwrap_one-other k name m after other)
      ∙ sym (unwrap_all-lookup k originals after plain)
      ∙ stands
      ∙ rw (lookup-insert, other) refl

  -- One name more: what the others put back is what stood there with the wrapper of this name.
  with_original-lookup :
      (k name : String) (control after : Control) (o : Option Method)
      (originals : Dict String Method)
      → to_wrap settable name control ≡ o
      → AllPlain originals
      → ((j : String)
          → lookup j (unwrap_all settable originals after) ≡ lookup j (with_wrapper name o control))
      → lookup k (unwrap_all settable (with_original name o originals) after) ≡ lookup k control
  with_original-lookup k name control after none originals e plain others = others k
  with_original-lookup k name control after (some m) originals e plain others =
      elim (Bool-cases (k == name)) [
        | inr other ↦ with_original-other k name control after m originals other plain (others k)
        | inl same ↦
            subst
              (λ j. lookup j (unwrap_all settable ((name, m) ∷ originals) after) ≡ lookup j control)
              (sym (eq_of_test k name same))
              (with_original_self name control after m originals e plain
                (others name ∙ rw (lookup-insert, test_refl name) refl))
      ]

  -- What `_wrap` did, `_unwrap` undoes: under every name stands again what stood there before, whichever
  -- methods the control has, whichever of them can be set, and whatever wrappers of others it
  -- had already.
  pub unwrap_all-wrap_all :
      (k : String) (names : List String) (control : Control)
      → let (after, originals) = wrap_all settable names control in
        lookup k (unwrap_all settable originals after) ≡ lookup k control
  unfolding wrap_all wrap_one unwrap_all
  unwrap_all-wrap_all k [] control = refl
  unwrap_all-wrap_all k (name ∷ names) control =
      with_original-lookup k name control
        (wrap_all settable names (wrap_one settable name control)).0 (to_wrap settable name control)
        (wrap_all settable names (wrap_one settable name control)).1 refl
        (wrap_all-AllPlain names (wrap_one settable name control))
        (λ j. unwrap_all-wrap_all j names (wrap_one settable name control))
