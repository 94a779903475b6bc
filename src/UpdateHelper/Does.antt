-- ===== src/UpdateHelper/Does.antt =====
-- What holds after a call of a transaction, whether it returns or raises: the calls in a row, and the tests.
use mathlib.Core.Path.{subst}
use enigma2_mqtt_bridge.Common.{◌≡◌, ◌≢◌, refl, Bool, true, false, if◌then◌else◌}
use enigma2_mqtt_bridge.Common.Result.{Result, ok, err}
use enigma2_mqtt_bridge.UpdateHelper.State.{Raised, Transaction, M, pure, continue, ◌>>=◌, get}
use enigma2_mqtt_bridge.UpdateHelper.Logic.{Core, core, IsSame, IsCalm, FairResult, IsFair}

abbrev pub On : Type 1
On = Transaction → Type 0

-- What the core and the lock decide, where a lost lock never hurts.
abbrev pub Fact : Type 1
Fact = Core → Bool → Type 0

abbrev pub Holds : Fact → On
Holds P t = P (core t) t.lost

abbrev pub Lasts : Fact → Type 0
Lasts P = (c : Core) (l l' : Bool) → (l ≡ true → l' ≡ true) → P c l → P c l'

pub Holds-stable : (P : Fact) → Lasts P → (t u : Transaction) → IsSame t u → Holds P t → Holds P u
Holds-stable P lasts t u same p =
    lasts (core u) t.lost u.lost same.1 (subst (λ c. P c t.lost) same.0 p)

abbrev pub After : {A : Type 0} → (A → On) → (Raised → On) → Result Raised A → Transaction → Type 0
After Q E (ok a) t = Q a t
After Q E (err e) t = E e t

pub record Does {A : Type 0} (P : On) (m : M A) (Q : A → On) (E : Raised → On) : Type 0 where
  pub after : (t : Transaction) → P t → After Q E (m t).0 (m t).1

pub true-ne-false : true ≢ false
true-ne-false h = cc

module _ {A B : Type 0} where
  continue-After :
      (R : A → On) (Q : B → On) (E : Raised → On) (r : Result Raised A) (next : A → M B)
      (t : Transaction)
      → After R E r t
      → ((a : A) → Does (R a) (next a) Q E)
      → After Q E (continue r next t).0 (continue r next t).1
  continue-After R Q E (ok a) next t h k = (k a).after t h
  continue-After R Q E (err e) next t h k = h

  pub does_bind :
      {P : On} {R : A → On} {Q : B → On} {E : Raised → On} {m : M A} {next : A → M B}
      → Does P m R E
      → ((a : A) → Does (R a) (next a) Q E)
      → Does P (m >>= next) Q E
  unfolding ◌>>=◌
  does_bind {R} {Q} {E} {m} {next} h k = record {
    after = λ t p. continue-After R Q E (m t).0 next (m t).1 (h.after t p) k;
  }

module _ {A : Type 0} where
  After-mono :
      (Q R : A → On) (E F : Raised → On) (r : Result Raised A) (t : Transaction)
      → ((a : A) → Q a t → R a t)
      → ((e : Raised) → E e t → F e t)
      → After Q E r t
      → After R F r t
  After-mono Q R E F (ok a) t q e h = q a h
  After-mono Q R E F (err x) t q e h = e x h

  pub does_weaken :
      {m : M A} {P P' : On} {Q Q' : A → On} {E E' : Raised → On}
      → ((t : Transaction) → P' t → P t)
      → ((a : A) (t : Transaction) → Q a t → Q' a t)
      → ((e : Raised) (t : Transaction) → E e t → E' e t)
      → Does P m Q E
      → Does P' m Q' E'
  does_weaken {m} {P} {P'} {Q} {Q'} {E} {E'} p q e h = record {
    after = λ t x.
        After-mono Q Q' E E' (m t).0 (m t).1 (λ a. q a (m t).1) (λ x. e x (m t).1)
          (h.after t (p t x));
  }

  After-calm :
      (P : On) (E : Raised → On) (r : Result Raised A) (t : Transaction)
      → P t
      → FairResult r t.lost
      → ((e : Raised) → P t → IsFair e t.lost → E e t)
      → After (λ a. P) E r t
  After-calm P E (ok a) t p fair h = p
  After-calm P E (err e) t p fair h = h e p fair

  -- A calm call keeps what only the core and the lock decide.
  pub does_calm :
      {m : M A} {P : On} {E : Raised → On}
      → ((t u : Transaction) → IsSame t u → P t → P u)
      → ((e : Raised) (t : Transaction) → P t → IsFair e t.lost → E e t)
      → IsCalm m
      → Does P m (λ a. P) E
  does_calm {m} {P} {E} stable broken h = record {
    after = λ t p.
        After-calm P E (m t).0 (m t).1 (stable t (m t).1 (h.same t) p) (h.fair t)
          (λ e. broken e (m t).1);
  }

  pub does_pure :
      {P : On} {Q : A → On} {E : Raised → On} (a : A)
      → ((t : Transaction) → P t → Q a t)
      → Does P (pure a) Q E
  unfolding pure
  does_pure a h = record { after = h }

  pub does_get :
      {P : On} {E : Raised → On} (read : Transaction → A)
      → Does P (get read) (λ a t. P t × (a ≡ read t)) E
  unfolding get
  does_get read = record { after = λ t p. (p, refl) }

  pub does_if :
      {P : On} {Q : A → On} {E : Raised → On} (b : Bool) {m n : M A}
      → Does P m Q E
      → Does P n Q E
      → Does P (if b then m else n) Q E
  does_if true h k = h
  does_if false h k = k

  -- Where the test tells something.
  pub does_if_known :
      {P : On} {Q : A → On} {E : Raised → On} (b : Bool) {m n : M A}
      → Does (λ t. P t × (b ≡ true)) m Q E
      → Does (λ t. P t × (b ≡ false)) n Q E
      → Does P (if b then m else n) Q E
  does_if_known true h k = record { after = λ t p. h.after t (p, refl) }
  does_if_known false h k = record { after = λ t p. k.after t (p, refl) }
