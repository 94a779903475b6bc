-- ===== src/Common/Sorting.antt =====
-- Python's `sorted`, which is stable, by an order given as a test; and sets as ascending lists.
use Prim.Native.Nat.{Ordering}
use Prim.Native.String
use Prim.Native.String.{String}
use mathlib.Core.Path.{◌≡◌, refl, ◌∙◌}
use mathlib.Core.Bool.{Bool, true, false, ◌||◌}
use mathlib.Core.List.{List, [], ◌∷◌, ◌++◌, Perm}
use mathlib.Core.List.Perm
use native.Mathlib.Omega.{arith}
use enigma2_mqtt_bridge.Common.Equality.{Eq, ◌==◌, contains, dedupe, string_eq, if◌then◌else◌}

-- `a <= b` of two Python texts.
abbrev pub text_le : String → String → Bool
text_le a b = elim (String.compare a b) [ Ordering.gt ↦ false | _ ↦ true ]

module _ {ℓ} {A : Type ℓ} (le : A → A → Bool) where
  unfoldable pub insert_by : A → List A → List A
  insert_by x [] = x ∷ []
  insert_by x (y ∷ ys) = if le x y then x ∷ (y ∷ ys) else y ∷ insert_by x ys

  unfoldable pub sort_by : List A → List A
  unfolding insert_by
  sort_by [] = []
  sort_by (x ∷ xs) = insert_by x (sort_by xs)

  pub insert_by-perm : (x : A) (ys : List A) → Perm (insert_by x ys) (x ∷ ys)
  unfolding insert_by
  insert_by-perm x [] = Perm.refl (x ∷ [])
  insert_by-perm x (y ∷ ys) =
      elim (le x y) as (λ b. Perm (if b then x ∷ (y ∷ ys) else y ∷ insert_by x ys) (x ∷ (y ∷ ys))) [
        | true ↦ Perm.refl _
        | false ↦ Perm.trans (Perm.cons y (insert_by-perm x ys)) (Perm.swap x y ys)
      ]

  pub sort_by-perm : (xs : List A) → Perm (sort_by xs) xs
  unfolding sort_by
  sort_by-perm [] = Perm.refl []
  sort_by-perm (x ∷ xs) = Perm.trans (insert_by-perm x (sort_by xs)) (Perm.cons x (sort_by-perm xs))

module _ {ℓ} {A : Type ℓ} ⦃e : Eq A⦄ where
  pub contains-append :
      (a : A) (xs ys : List A) → contains a (xs ++ ys) ≡ (contains a xs || contains a ys)
  contains-append a [] ys = refl
  contains-append a (x ∷ xs) ys = ground (arith, contains-append a xs ys)

  pub contains-dedupe : (a : A) (xs : List A) → contains a (dedupe xs) ≡ contains a xs
  contains-dedupe a [] = refl
  contains-dedupe a (x ∷ xs) = ground (arith, contains-dedupe a xs, contains-dedupe x xs)

  pub contains-insert_by :
      (le : A → A → Bool) (a x : A) (xs : List A)
      → contains a (insert_by le x xs) ≡ (a == x || contains a xs)
  unfolding insert_by
  contains-insert_by le a x [] = refl
  contains-insert_by le a x (y ∷ ys) = ground (arith, contains-insert_by le a x ys)

  pub contains-sort_by :
      (le : A → A → Bool) (a : A) (xs : List A) → contains a (sort_by le xs) ≡ contains a xs
  unfolding sort_by
  contains-sort_by le a [] = refl
  contains-sort_by le a (x ∷ xs) =
      ground (arith, contains-sort_by le a xs, contains-insert_by le a x (sort_by le xs))

-- `sorted(set(texts))`
unfoldable pub sorted_set : List String → List String
unfolding sort_by
sorted_set texts = sort_by text_le (dedupe texts)

pub contains-sorted_set :
    (t : String) (ts : List String) → contains t (sorted_set ts) ≡ contains t ts
unfolding sorted_set
contains-sorted_set t ts = contains-sort_by text_le t (dedupe ts) ∙ contains-dedupe t ts
