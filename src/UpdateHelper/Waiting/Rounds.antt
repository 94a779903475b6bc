-- ===== src/UpdateHelper/Waiting/Rounds.antt =====
-- The waits of src/MQTTBridge/updatehelper.py end by the clock: the rounds that the model gives them are
-- enough, for every receiver.
use enigma2_mqtt_bridge.Common.{
  ℕ, zero, suc, ◌+◌, ◌≤◌, ◌≡◌, ◌≢◌, refl, inl, inr, Bool, true, false, leb, Option-cases,
  if◌then◌else◌, arith, nat_eq,
}
use enigma2_mqtt_bridge.Common.Result.{Result, ok, err}
use enigma2_mqtt_bridge.UpdateHelper.State.{Raised, Transaction, M, continue, ◌>>=◌}
use enigma2_mqtt_bridge.UpdateHelper.Receiver.{World, meanwhile, ask, clock, sleep}
use enigma2_mqtt_bridge.UpdateHelper.Waiting.{seconds, wait_until, wait}
use enigma2_mqtt_bridge.UpdateHelper.After.{does_modify}
use enigma2_mqtt_bridge.UpdateHelper.Does.{On, After, Does, does_bind, does_get}

-- The clock has reached `b`.
abbrev pub Since : ℕ → On
Since b t = b ≤ t.now

abbrev pub Any : Raised → On
Any e t = Unit

-- A call that never turns the clock back.
abbrev pub IsForward : {A : Type 0} → M A → Type 0
IsForward {A} m = (b : ℕ) → Does {A = A} (Since b) m (λ a. Since b) Any

-- Two calls do the same, where the first thing holds.
abbrev pub Agree : {A : Type 0} → On → M A → M A → Type 0
Agree P m n = (t : Transaction) → P t → m t ≡ n t

module _ {A B : Type 0} where
  continue-Agree :
      (R : A → On) (r : Result Raised A) (next other : A → M B) (t : Transaction)
      → After {A = A} R Any r t
      → ((a : A) → Agree (R a) (next a) (other a))
      → continue r next t ≡ continue r other t
  continue-Agree R (ok a) next other t h k = k a t h
  continue-Agree R (err e) next other t h k = refl

  pub Agree-bind :
      {P : On} {R : A → On} {m : M A} {next other : A → M B}
      → Does P m R Any
      → ((a : A) → Agree (R a) (next a) (other a))
      → Agree P (m >>= next) (m >>= other)
  unfolding ◌>>=◌
  Agree-bind {R} {m} {next} {other} h k t p =
      continue-Agree R (m t).0 next other (m t).1 (h.after t p) k

pub Agree-if :
    {A : Type 0} {P : On} (b : Bool) (m : M A) {n n' : M A}
    → Agree (λ t. P t × (b ≡ false)) n n'
    → Agree P (if b then m else n) (if b then m else n')
Agree-if true m h t p = refl
Agree-if false m h t p = h t (p, refl)

pub Agree-weaken :
    {A : Type 0} {P P' : On} {m n : M A}
    → ((t : Transaction) → P' t → P t)
    → Agree P m n
    → Agree P' m n
Agree-weaken w h t p = h t (w t p)

-- A limit that the clock has reached is never found to lie ahead.
reached : (limit b now now' : ℕ) → limit ≤ b → b ≤ now → now' ≡ now → leb limit now' ≢ false
reached limit b now now' h k e f = ground arith

module _ (world : World) where
  -- What a later clock keeps, a call that asks keeps.
  pub advance_ask :
      {A : Type 0} (answer : ℕ → A) (P : ℕ → Type 0)
      → ((n n' : ℕ) → n ≤ n' → P n → P n')
      → Does (λ t. P t.now) (ask world answer) (λ a t. P t.now) Any
  unfolding ask meanwhile
  advance_ask answer P later = record {
    after = λ t h. elim (Option-cases (world.raises t.asks)) [
      | inl none_raised ↦ rw (none_raised, ask) (later t.now _ (omega arith) h)
      | inr (x, raised) ↦ rw (raised, ask) tt
    ];
  }

  pub ask-IsForward : {A : Type 0} (answer : ℕ → A) → IsForward (ask world answer)
  ask-IsForward answer b = advance_ask answer (λ n. b ≤ n) (λ n n' h k. omega arith)

  pub reads_clock : (b : ℕ) → Does (Since b) (clock world) (λ a t. Since b t × (a ≡ t.now)) Any
  unfolding clock
  reads_clock b = does_bind (ask-IsForward (λ n. tt) b) (λ u. does_get _)

  pub sleeps : (b time : ℕ) → Does (Since b) (sleep world time) (λ u. Since (b + time)) Any
  unfolding sleep
  sleeps b time = does_bind (ask-IsForward (λ n. tt) b) (λ u. does_modify _ (λ t h. omega arith))

  -- Once the limit is at most `rounds` seconds away, `rounds` and one are enough.
  wait_until_settles :
      (condition : M Bool)
      → IsForward condition
      → (rounds more limit b : ℕ) → limit ≤ b + seconds rounds
      → rounds ≤ more
      → Agree
          (Since b)
          (wait_until world (suc more) condition limit)
          (wait_until world (suc rounds) condition limit)
  unfolding wait_until seconds
  wait_until_settles condition forward zero more limit b near enough =
      Agree-bind (forward b) (λ met. Agree-if met _ (
        Agree-weaken (λ t p. p.0)
          (Agree-bind (reads_clock b) (λ now.
            Agree-if (leb limit now) _
              (λ t p. absurd (reached limit b t.now now (omega arith) p.0.0 p.0.1 p.1))))))
  wait_until_settles condition forward (suc rounds) zero limit b near enough = absurd (omega arith)
  wait_until_settles condition forward (suc rounds) (suc more) limit b near enough =
      Agree-bind (forward b) (λ met. Agree-if met _ (
        Agree-weaken (λ t p. p.0)
          (Agree-bind (reads_clock b) (λ now. Agree-if (leb limit now) _ (
            Agree-weaken (λ t p. p.0.0)
              (Agree-bind (sleeps b 1_000_000) (λ u.
                wait_until_settles condition forward rounds more limit (b + 1_000_000) (omega arith)
                  (omega arith))))))))

  wait_until-Agree :
      (condition : M Bool)
      → IsForward condition
      → (time rounds now : ℕ) → suc (suc time) ≤ rounds
      → Agree
          (λ t. Since 0 t × (now ≡ t.now))
          (wait_until world rounds condition (now + seconds time))
          (wait_until world (suc (suc time)) condition (now + seconds time))
  unfolding seconds
  wait_until-Agree condition forward time zero now enough = absurd (omega arith)
  wait_until-Agree condition forward time (suc rounds) now enough =
      Agree-weaken {P = Since now} (λ t p. omega arith)
        (wait_until_settles condition forward (suc time) rounds (now + seconds time) now
          (omega arith) (omega arith))

  -- A wait whose condition never turns the clock back ends by its condition or by the clock, and not
  -- because the model's rounds run out: with any more rounds than `wait` is given, it returns, raises and
  -- does the same.
  pub wait_more_rounds :
      (condition : M Bool)
      → IsForward condition
      → (time rounds : ℕ) (t : Transaction) → suc (suc time) ≤ rounds
      → (clock world >>= λ now. wait_until world rounds condition (now + seconds time)) t
        ≡ wait world condition time t
  unfolding wait seconds
  wait_more_rounds condition forward time rounds t enough =
      Agree-bind (reads_clock 0) (λ now. wait_until-Agree condition forward time rounds now enough)
        t (omega arith)
