-- ===== src/UpdateHelper/Logic.antt =====
-- Rules for the calls of a transaction: what a call leaves alone, and what holds after it.
use enigma2_mqtt_bridge.Common.{
  ℕ, ◌≡◌, refl, sym, ◌∙◌, inl, inr, Bool, true, false, Option, List, ◌+◌, Option-cases,
  if◌then◌else◌,
}
use enigma2_mqtt_bridge.Common.Result.{Result, ok, err}
use enigma2_mqtt_bridge.UpdateHelper.State.{
  Reason, fail, Raised, failed, lock_lost, os_error, other, End, Tree, Restored, Transaction, M,
  pure, continue, raise_lost, raise_if_lost, ◌>>=◌, raise, modify, get, when,
}
use enigma2_mqtt_bridge.UpdateHelper.Receiver.{World, meanwhile, ask, clock, sleep}

-- What most of the calls leave alone.
pub record Core : Type 0 where
  pub ended : Bool
  pub committed : Bool
  pub files_changed : Bool
  pub restore : Option Restored
  pub tree : Tree
  pub ends : List End
  pub runlevels : List ℕ
  pub sent : Bool

abbrev pub core : Transaction → Core
core t = record {
  ended = t.ended;
  committed = t.committed;
  files_changed = t.files_changed;
  restore = t.restore;
  tree = t.tree;
  ends = t.ends;
  runlevels = t.runlevels;
  sent = t.vars.sent;
}

-- A lock that is lost stays lost.
abbrev pub IsSame : Transaction → Transaction → Type 0
IsSame t u = (core t ≡ core u) × (t.lost ≡ true → u.lost ≡ true)

-- `LockLost` is raised only with the lock lost.
abbrev pub IsFair : Raised → Bool → Type 0
IsFair lock_lost lost = lost ≡ true
IsFair _ lost = Unit

abbrev pub FairResult : {A : Type 0} → Result Raised A → Bool → Type 0
FairResult (ok a) lost = Unit
FairResult (err e) lost = IsFair e lost

pub record IsCalm {A : Type 0} (m : M A) : Type 0 where
  pub same : (t : Transaction) → IsSame t (m t).1
  pub fair : (t : Transaction) → FairResult (m t).0 (m t).1.lost

pub IsSame-refl : (t : Transaction) → IsSame t t
IsSame-refl t = (refl, λ h. h)

pub IsSame-trans : (s t u : Transaction) → IsSame s t → IsSame t u → IsSame s u
IsSame-trans s t u (e, l) (e', l') = (e ∙ e', λ h. l' (l h))

pub IsFair-mono : (e : Raised) (l l' : Bool) → (l ≡ true → l' ≡ true) → IsFair e l → IsFair e l'
IsFair-mono lock_lost l l' mono h = mono h
IsFair-mono (failed failure) l l' mono h = tt
IsFair-mono os_error l l' mono h = tt
IsFair-mono (other b) l l' mono h = tt

module _ {A B : Type 0} where
  continue-IsSame :
      (s t : Transaction) (r : Result Raised A) (next : A → M B)
      → IsSame s t
      → ((a : A) → IsCalm (next a))
      → IsSame s (continue r next t).1
  continue-IsSame s t (ok a) next same h = IsSame-trans s t (next a t).1 same ((h a).same t)
  continue-IsSame s t (err e) next same h = same

  continue-fair :
      (t : Transaction) (r : Result Raised A) (next : A → M B)
      → FairResult r t.lost
      → ((a : A) → IsCalm (next a))
      → FairResult (continue r next t).0 (continue r next t).1.lost
  continue-fair t (ok a) next fair h = (h a).fair t
  continue-fair t (err e) next fair h = fair

  pub IsCalm-bind :
      {m : M A} {next : A → M B} → IsCalm m → ((a : A) → IsCalm (next a)) → IsCalm (m >>= next)
  unfolding ◌>>=◌
  IsCalm-bind {m} {next} h k = record {
    same = λ t. continue-IsSame t (m t).1 (m t).0 next (h.same t) k;
    fair = λ t. continue-fair (m t).1 (m t).0 next (h.fair t) k;
  }

module _ {A : Type 0} where
  pub pure-IsCalm : (a : A) → IsCalm (pure a)
  unfolding pure
  pure-IsCalm a = record { same = IsSame-refl; fair = λ t. tt }

  pub get-IsCalm : (read : Transaction → A) → IsCalm (get read)
  unfolding get
  get-IsCalm read = record { same = IsSame-refl; fair = λ t. tt }

  pub IsCalm-if : (b : Bool) {m n : M A} → IsCalm m → IsCalm n → IsCalm (if b then m else n)
  IsCalm-if true h k = h
  IsCalm-if false h k = k

  -- Only `LockLost` has something to be shown for.
  pub fail-IsCalm : (reason : Reason) → IsCalm {A = A} (fail reason)
  unfolding raise
  fail-IsCalm reason = record { same = IsSame-refl; fair = λ t. tt }

pub IsCalm-os_error : {A : Type 0} → IsCalm {A = A} (raise os_error)
unfolding raise
IsCalm-os_error = record { same = IsSame-refl; fair = λ t. tt }

raise_lost-IsSame : (b : Bool) (t : Transaction) → IsSame t (raise_lost b t).1
unfolding raise_lost
raise_lost-IsSame true t = IsSame-refl t
raise_lost-IsSame false t = IsSame-refl t

raise_lost-fair :
    (b : Bool) (t : Transaction)
    → t.lost ≡ b
    → FairResult (raise_lost b t).0 (raise_lost b t).1.lost
unfolding raise_lost
raise_lost-fair true t e = e
raise_lost-fair false t e = tt

pub raise_if_lost-IsCalm : IsCalm raise_if_lost
unfolding raise_if_lost
raise_if_lost-IsCalm = record {
  same = λ t. raise_lost-IsSame t.lost t;
  fair = λ t. raise_lost-fair t.lost t refl;
}

pub when-IsCalm : (b : Bool) {m : M (Unit {0})} → IsCalm m → IsCalm (when b m)
when-IsCalm true h = h
when-IsCalm false h = pure-IsCalm tt

-- A change of what is not in the core.
pub modify-IsCalm :
    (change : Transaction → Transaction)
    → ((t : Transaction) → core t ≡ core (change t))
    → ((t : Transaction) → t.lost ≡ (change t).lost)
    → IsCalm (modify change)
unfolding modify
modify-IsCalm change same same_lost = record {
  same = λ t. (same t, λ h. sym (same_lost t) ∙ h);
  fair = λ t. tt;
}

module _ (world : World) where
  meanwhile-IsSame : (t : Transaction) → IsSame t (meanwhile world t)
  unfolding meanwhile
  meanwhile-IsSame t = (refl, λ h. rw h refl)

  ask-IsSame : {A : Type 0} (answer : ℕ → A) (t : Transaction) → IsSame t (ask world answer t).1
  unfolding ask
  ask-IsSame answer t = elim (Option-cases (world.raises t.asks)) [
    | inl none_raised ↦ rw (none_raised, ask) (meanwhile-IsSame t)
    | inr (b, raised) ↦ rw (raised, ask) (meanwhile-IsSame t)
  ]

  ask-fair :
      {A : Type 0} (answer : ℕ → A) (t : Transaction)
      → FairResult (ask world answer t).0 (ask world answer t).1.lost
  unfolding ask
  ask-fair answer t = elim (Option-cases (world.raises t.asks)) [
    | inl none_raised ↦ rw (none_raised, ask) tt
    | inr (b, raised) ↦ rw (raised, ask) tt
  ]

  pub ask-IsCalm : {A : Type 0} (answer : ℕ → A) → IsCalm (ask world answer)
  ask-IsCalm answer = record { same = ask-IsSame answer; fair = ask-fair answer }

  pub clock-IsCalm : IsCalm (clock world)
  unfolding clock
  clock-IsCalm = IsCalm-bind (ask-IsCalm _) (λ u. get-IsCalm _)

  pub sleep-IsCalm : (time : ℕ) → IsCalm (sleep world time)
  unfolding sleep
  sleep-IsCalm time =
      IsCalm-bind (ask-IsCalm _)
        (λ u. modify-IsCalm (λ t. record t { now = t.now + time }) (λ t. refl) (λ t. refl))
