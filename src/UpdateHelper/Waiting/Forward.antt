-- ===== src/UpdateHelper/Waiting/Forward.antt =====
-- The calls in a round of `await_restart` of src/MQTTBridge/updatehelper.py never turn the clock back.
use enigma2_mqtt_bridge.Common.{
  ℕ, zero, suc, ◌+◌, ◌≤◌, min, ◌≡◌, ◌≢◌, refl, ◌⊎◌, inl, inr, Bool, true, false, List, leb, arith,
}
use enigma2_mqtt_bridge.UpdateHelper.State.{
  Raised, Request, Transaction, M, raise_if_lost, raise_lost, get, restarting, Phase,
}
use enigma2_mqtt_bridge.UpdateHelper.Receiver.{World, clock}
use enigma2_mqtt_bridge.UpdateHelper.Waiting.{
  seconds, restarted_now, look_at_processes, look_at_word, look_at_request,
}
use enigma2_mqtt_bridge.UpdateHelper.Waiting.Rounds.{
  Since, Any, IsForward, ask-IsForward, reads_clock,
}
use enigma2_mqtt_bridge.UpdateHelper.Ending.{write_status}
use enigma2_mqtt_bridge.UpdateHelper.After.{does_modify}
use enigma2_mqtt_bridge.UpdateHelper.Does.{
  On, After, Does, does_bind, does_weaken, does_get, does_pure, does_if,
}

raise_lost-forward :
    (b : ℕ) (lost : Bool) (t : Transaction)
    → Since b t
    → After {A = Unit {0}} (λ u. Since b) Any (raise_lost lost t).0 (raise_lost lost t).1
unfolding raise_lost
raise_lost-forward b true t h = tt
raise_lost-forward b false t h = h

raise_if_lost-IsForward : IsForward raise_if_lost
unfolding raise_if_lost
raise_if_lost-IsForward b = record { after = λ t. raise_lost-forward b t.lost t }

-- A fact that does not change.
pub does_fact :
    {A : Type 0} {X : Type 0} {P : On} {m : M A} {Q : A → On} {E : Raised → On}
    → (X → Does P m Q E)
    → Does (λ t. P t × X) m Q E
does_fact h = record { after = λ t p. (h p.1).after t p.0 }

get-IsForward : {A : Type 0} (read : Transaction → A) → IsForward (get read)
get-IsForward read b = does_weaken (λ t p. p) (λ a t p. p.0) (λ e t p. p) (does_get read)

-- What a round makes of `asked` and `limit`.
abbrev pub Next : Bool → ℕ → ℕ → Bool × ℕ → Type 0
Next asked limit now next =
    ((next.0 ≡ asked) × (next.1 ≡ limit))
    ⊎ ((next.0 ≡ true) × (next.1 ≤ now + 180_000_000) × (asked ≡ false))

pub Next-later :
    (asked : Bool) (limit now now' : ℕ) (next : Bool × ℕ)
    → now ≤ now'
    → Next asked limit now next
    → Next asked limit now' next
Next-later asked limit now now' next h (inl same) = inl same
Next-later asked limit now now' next h (inr (a, l, f)) = inr (a, omega arith, f)

-- The rounds that are enough: once more the wait for the plugin while nothing was asked for.
abbrev pub budget : Bool → ℕ → ℕ
budget true rounds = rounds
budget false rounds = rounds + 182

pub budget_step :
    (asked next : Bool) (rounds m : ℕ)
    → next ≡ asked
    → budget asked (suc rounds) ≤ suc m
    → budget next rounds ≤ m
budget_step true true rounds m same e = omega arith
budget_step false false rounds m same e = omega arith
budget_step true false rounds m same e = cc
budget_step false true rounds m same e = cc

pub budget_asked :
    (asked next : Bool) (rounds m : ℕ)
    → next ≡ true
    → asked ≡ false
    → budget asked rounds ≤ suc m
    → budget next 179 ≤ m
budget_asked false true rounds m was first e = omega arith
budget_asked true next rounds m was first e = cc
budget_asked false false rounds m was first e = cc

pub ended :
    (limit b now deadline next : ℕ)
    → limit ≤ b
    → b ≤ now
    → next ≡ limit
    → leb (min next deadline) now ≢ false
ended limit b now deadline next h k e f = ground arith

-- Without a round left, the limit is reached.
pub nothing_left :
    (asked : Bool) (rounds limit b now deadline : ℕ) (next : Bool × ℕ)
    → limit ≤ b + seconds rounds
    → budget asked rounds ≤ 0
    → b ≤ now
    → Next asked limit now next
    → leb (min next.1 deadline) now ≢ false
unfolding seconds
nothing_left true zero limit b now deadline next near e since (inl (same, l)) =
    ended limit b now deadline next.1 (omega arith) since l
nothing_left true zero limit b now deadline next near e since (inr (was, l, first)) = λ ahead. cc
nothing_left true (suc rounds) limit b now deadline next near e since what =
    λ ahead. absurd (omega arith)
nothing_left false rounds limit b now deadline next near e since what =
    λ ahead. absurd (omega arith)

module _ (world : World) (request : Request) where
  clock-IsForward : IsForward (clock world)
  clock-IsForward b = does_weaken (λ t p. p) (λ a t p. p.0) (λ e t p. p) (reads_clock world b)

  write_status-IsForward : (phase : Phase) → IsForward (write_status world phase)
  unfolding write_status
  write_status-IsForward phase b =
      does_bind (does_modify _ (λ t h. h)) (λ u. ask-IsForward world _ b)

  restarted_now-IsForward : IsForward (restarted_now world request)
  unfolding restarted_now
  restarted_now-IsForward b =
      does_bind (clock-IsForward b)
        (λ now. does_bind (does_modify _ (λ t h. h)) (λ u. does_pure _ (λ t h. h)))

  pub look_at_processes-IsForward :
      (pids : List ℕ) → IsForward (look_at_processes world request pids)
  unfolding look_at_processes
  look_at_processes-IsForward pids b =
      does_if _ (does_bind (does_modify _ (λ t h. h)) (λ u. does_pure _ (λ t h. h))) (
        does_bind (get-IsForward _ b) (λ known.
          does_if _ (does_bind (restarted_now-IsForward b) (λ word. does_pure _ (λ t h. h)))
            (does_pure _ (λ t h. h))))

  pub look_at_word-IsForward : IsForward (look_at_word world request)
  unfolding look_at_word
  look_at_word-IsForward b = does_bind (ask-IsForward world _ b) (λ file.
      does_if _ (does_pure _ (λ t h. h)) (
        does_bind (raise_if_lost-IsForward b)
          (λ u. does_bind (get-IsForward _ b) (λ signal. does_pure _ (λ t h. h)))))

  pub look_at_request-Next :
      (asked : Bool) (limit b : ℕ)
      → Does
          (Since b)
          (look_at_request world request asked limit)
          (λ next t. Since b t × Next asked limit t.now next)
          Any
  unfolding look_at_request seconds
  look_at_request-Next true limit b = does_pure _ (λ t h. (h, inl (refl, refl)))
  look_at_request-Next false limit b = does_bind (ask-IsForward world _ b) (λ file.
      does_if file
        (does_bind (reads_clock world b) (λ now.
          does_weaken {P = λ t. Since now t × (b ≤ now)} (λ t p. (omega arith, omega arith))
            (λ a t p. p) (λ e t p. p)
            (does_fact (λ since.
              does_bind (write_status-IsForward restarting now)
                (λ u. does_pure _ (λ t h. (omega arith, inr (refl, omega arith, refl))))))))
        (does_pure _ (λ t h. (h, inl (refl, refl)))))
