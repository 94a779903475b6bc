-- ===== src/UpdateHelper/After.antt =====
-- What holds after a call of a transaction: where something is caught, and where more is known.
use enigma2_mqtt_bridge.Common.{◌≡◌, refl, sym, ◌⊎◌, inl, inr, Bool, true, false}
use enigma2_mqtt_bridge.Common.Result.{Result, ok, err}
use enigma2_mqtt_bridge.UpdateHelper.State.{
  Raised, Transaction, M, continue, ◌>>=◌, ◌>>◌, raise, modify, when, catch, handled,
}
use enigma2_mqtt_bridge.UpdateHelper.Rollback.{is_exception, guarded, guarded_from_all, finally}
use enigma2_mqtt_bridge.UpdateHelper.Logic.{IsCalm, IsFair}
use enigma2_mqtt_bridge.UpdateHelper.Does.{
  On, Fact, Holds, Lasts, Holds-stable, After, Does, true-ne-false, does_weaken, does_calm,
  does_pure, does_if,
}

module _ {A : Type 0} where
  After-handled :
      (Q : A → On) (E F : Raised → On) (r : Result Raised A) (handler : Raised → M A)
      (t : Transaction)
      → After Q E r t
      → ((e : Raised) → Does (E e) (handler e) Q F)
      → After Q F (handled r handler t).0 (handled r handler t).1
  After-handled Q E F (ok a) handler t h k = h
  After-handled Q E F (err e) handler t h k = (k e).after t h

  pub does_catch :
      {m : M A} {handler : Raised → M A} {P : On} {Q : A → On} {E F : Raised → On}
      → Does P m Q E
      → ((e : Raised) → Does (E e) (handler e) Q F)
      → Does P (catch m handler) Q F
  unfolding catch
  does_catch {m} {handler} {P} {Q} {E} {F} h k = record {
    after = λ t p. After-handled Q E F (m t).0 handler (m t).1 (h.after t p) k;
  }

  pub does_raise :
      {P : On} {Q : A → On} {E : Raised → On} (e : Raised)
      → ((t : Transaction) → P t → E e t)
      → Does P (raise e) Q E
  unfolding raise
  does_raise e h = record { after = h }

  pub does_guarded :
      {m instead : M A} {P N : On} {Q : A → On} {E : Raised → On}
      → Does P m Q E
      → ((e : Raised) (t : Transaction) → E e t → N t)
      → Does N instead Q E
      → Does P (guarded m instead) Q E
  does_guarded h lower k = does_catch h (λ e.
      does_if (is_exception e) (does_weaken (lower e) (λ a t q. q) (λ x t q. q) k)
        (does_raise e (λ t q. q)))

  pub does_guarded_from_all :
      {m instead : M A} {P N : On} {Q : A → On} {E F : Raised → On}
      → Does P m Q E
      → ((e : Raised) (t : Transaction) → E e t → N t)
      → Does N instead Q F
      → Does P (guarded_from_all m instead) Q F
  does_guarded_from_all h lower k =
      does_catch h (λ e. does_weaken (lower e) (λ a t q. q) (λ x t q. q) k)

  module _ (Q : A → On) (E : Raised → On) where
    returns_again :
        (a : A) (u : Result Raised (Unit {0})) (t : Transaction)
        → After (λ x. Q a) E u t
        → let end = continue u (λ x t'. (ok a, t')) t in After Q E end.0 end.1
    returns_again a (ok x) t h = h
    returns_again a (err e) t h = h

    raises_again :
        (e : Raised) (u : Result Raised (Unit {0})) (t : Transaction)
        → After (λ x. E e) E u t
        → let end : Result Raised A × Transaction = continue u (λ x t'. (err e, t')) t in
          After Q E end.0 end.1
    raises_again e (ok x) t h = h
    raises_again e (err e') t h = h

    After-finally :
        (R : A → On) (F : Raised → On) (r : Result Raised A) (after : M (Unit {0}))
        (t : Transaction)
        → After R F r t
        → ((a : A) → Does (R a) after (λ x. Q a) E)
        → ((e : Raised) → Does (F e) after (λ x. E e) E)
        → let end = (after >> (λ t'. (r, t'))) t in After Q E end.0 end.1
    unfolding ◌>>=◌
    After-finally R F (ok a) after t h q f =
        returns_again a (after t).0 (after t).1 ((q a).after t h)
    After-finally R F (err e) after t h q f =
        raises_again e (after t).0 (after t).1 ((f e).after t h)

  pub does_finally :
      {m : M A} {last : M (Unit {0})} {P : On} {R Q : A → On} {E F : Raised → On}
      → Does P m R F
      → ((a : A) → Does (R a) last (λ x. Q a) E)
      → ((e : Raised) → Does (F e) last (λ x. E e) E)
      → Does P (finally m last) Q E
  unfolding finally
  does_finally {m} {last} {P} {R} {Q} {E} {F} h q f = record {
    after = λ t p. After-finally Q E R F (m t).0 last (m t).1 (h.after t p) q f;
  }

pub does_modify :
    {P : On} {Q : On} {E : Raised → On} (change : Transaction → Transaction)
    → ((t : Transaction) → P t → Q (change t))
    → Does P (modify change) (λ u. Q) E
unfolding modify
does_modify change h = record { after = h }

pub does_when :
    {P Q : On} {E : Raised → On} (b : Bool) {m : M (Unit {0})}
    → Does P m (λ u. Q) E
    → ((t : Transaction) → P t → Q t)
    → Does P (when b m) (λ u. Q) E
does_when true h k = h
does_when false h k = does_pure tt k

-- What the test tells.
pub does_when_known :
    {P Q : On} {E : Raised → On} (b : Bool) {m : M (Unit {0})}
    → Does (λ t. P t × (b ≡ true)) m (λ u. Q) E
    → ((t : Transaction) → P t → Q t)
    → Does P (when b m) (λ u. Q) E
does_when_known true h k = record { after = λ t p. h.after t (p, refl) }
does_when_known false h k = does_pure tt k

-- A test whose answer is known.
pub does_when_true :
    {P : On} {Q : Unit {0} → On} {E : Raised → On} (b : Bool) {m : M (Unit {0})}
    → ((t : Transaction) → P t → b ≡ true)
    → Does P m Q E
    → Does P (when b m) Q E
does_when_true true known h = h
does_when_true false known h = record { after = λ t p. absurd (true-ne-false (sym (known t p))) }

pub does_when_false :
    {P : On} {Q : Unit {0} → On} {E : Raised → On} (b : Bool) (m : M (Unit {0}))
    → ((t : Transaction) → P t → b ≡ false)
    → ((t : Transaction) → P t → Q tt t)
    → Does P (when b m) Q E
does_when_false true m known h = record { after = λ t p. absurd (true-ne-false (known t p)) }
does_when_false false m known h = does_pure tt h

-- What is known for some value.
pub does_some :
    {A X : Type 0} {P : X → On} {m : M A} {Q : A → On} {E : Raised → On}
    → ((x : X) → Does (P x) m Q E)
    → Does (λ t. (x : X) × P x t) m Q E
does_some h = record { after = λ t p. (h p.0).after t p.1 }

-- One of two things is known.
pub does_either :
    {A : Type 0} {P P' : On} {m : M A} {Q : A → On} {E : Raised → On}
    → Does P m Q E
    → Does P' m Q E
    → Does (λ t. P t ⊎ P' t) m Q E
does_either h k = record { after = λ t p. elim p [ inl x ↦ h.after t x | inr x ↦ k.after t x ] }

-- A calm call keeps a fact, also when it raises, and raises fairly.
pub calm_stays :
    {A : Type 0} {m : M A} (P : Fact)
    → Lasts P
    → IsCalm m
    → Does (Holds P) m (λ a. Holds P) (λ e t. Holds P t × IsFair e t.lost)
calm_stays P lasts h = does_calm (Holds-stable P lasts) (λ e t p fair. (p, fair)) h
