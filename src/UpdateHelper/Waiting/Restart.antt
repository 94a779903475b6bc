-- ===== src/UpdateHelper/Waiting/Restart.antt =====
-- `await_restart` of src/MQTTBridge/updatehelper.py ends by the plugin's word, by a new process, by a signal
-- or by the clock: the rounds that the model gives it are enough, for every receiver.
use enigma2_mqtt_bridge.Common.{
  ℕ, zero, suc, ◌+◌, ◌≤◌, min, ◌≡◌, refl, inl, inr, Bool, false, Option, none, some, List, leb,
  arith,
}
use enigma2_mqtt_bridge.UpdateHelper.State.{Request, Transaction, M, ◌>>=◌}
use enigma2_mqtt_bridge.UpdateHelper.Receiver.{World, clock}
use enigma2_mqtt_bridge.UpdateHelper.Waiting.{
  seconds, plugin_wait, Word, go_round, after_word, after_look, await_from, await_restart,
}
use enigma2_mqtt_bridge.UpdateHelper.Waiting.Rounds.{
  Since, Any, Agree, Agree-bind, Agree-if, Agree-weaken, advance_ask, ask-IsForward, reads_clock,
  sleeps,
}
use enigma2_mqtt_bridge.UpdateHelper.Does.{Does, does_bind, does_weaken, does_get}
use enigma2_mqtt_bridge.UpdateHelper.Waiting.Forward.{
  Next, Next-later, budget, budget_step, budget_asked, ended, nothing_left,
  look_at_processes-IsForward, look_at_word-IsForward, look_at_request-Next,
}

module _ (world : World) (request : Request) where
  -- What is left of the wait does the same, a second after a round that did not end it.
  abbrev GoesOn : ℕ → Bool → ℕ → (Bool × ℕ → M Word) → (Bool × ℕ → M Word) → Type 0
  GoesOn b asked limit rest other =
      (next : Bool × ℕ) (now deadline : ℕ)
      → b ≤ now
      → Next asked limit now next
      → leb (min next.1 deadline) now ≡ false
      → Agree (Since (now + 1_000_000)) (rest next) (other next)

  clock-Next :
      (asked : Bool) (limit b : ℕ) (next : Bool × ℕ)
      → Does
          (λ t. Since b t × Next asked limit t.now next)
          (clock world)
          (λ now t. (now ≡ t.now) × (b ≤ now) × Next asked limit now next)
          Any
  unfolding clock
  clock-Next asked limit b next =
      does_bind
        (advance_ask world (λ n. tt) (λ n. (b ≤ n) × Next asked limit n next)
          (λ n n' h p. (omega arith, Next-later asked limit n n' next h p.1)))
        (λ u.
          does_weaken (λ t p. p) (λ now t p. (p.1, rw p.1 p.0.0, rw p.1 p.0.1)) (λ e t p. p)
            (does_get (λ t. t.now)))

  go_round-Agree :
      (rest other : Bool × ℕ → M Word) (asked : Bool) (limit b : ℕ) (pids : List ℕ)
      → GoesOn b asked limit rest other
      → Agree
          (Since b)
          (go_round world request rest asked limit pids)
          (go_round world request other asked limit pids)
  unfolding go_round seconds
  go_round-Agree rest other asked limit b pids go =
      Agree-bind (look_at_request-Next world request asked limit b) (λ next.
        Agree-bind (clock-Next asked limit b next) (λ now.
          Agree-bind
            (does_weaken (λ t p. p) (λ a t p. p.0) (λ e t p. p) (does_get (λ t. t.deadline)))
            (λ deadline. Agree-if (leb (min next.1 deadline) now) _ (λ t p.
              Agree-bind (sleeps world now 1_000_000) (λ u. go next now deadline p.0.1 p.0.2 p.1) t
                (omega arith)))))

  after_word-Agree :
      (rest other : Bool × ℕ → M Word) (asked : Bool) (limit b : ℕ) (pids : List ℕ)
      (word : Option Word)
      → GoesOn b asked limit rest other
      → Agree
          (Since b)
          (after_word world request rest asked limit pids word)
          (after_word world request other asked limit pids word)
  unfolding after_word
  after_word-Agree rest other asked limit b pids (some word) go = λ t p. refl
  after_word-Agree rest other asked limit b pids none go =
      go_round-Agree rest other asked limit b pids go

  after_look-Agree :
      (rest other : Bool × ℕ → M Word) (asked : Bool) (limit b : ℕ) (pids : List ℕ)
      (word : Option Word)
      → GoesOn b asked limit rest other
      → Agree
          (Since b)
          (after_look world request rest asked limit pids word)
          (after_look world request other asked limit pids word)
  unfolding after_look
  after_look-Agree rest other asked limit b pids (some word) go = λ t p. refl
  after_look-Agree rest other asked limit b pids none go =
      Agree-bind (look_at_word-IsForward world request b)
        (λ word. after_word-Agree rest other asked limit b pids word go)

  await_from-Agree :
      (m m' : ℕ) (asked : Bool) (limit b : ℕ)
      → GoesOn b asked limit
          (λ next. await_from world request m next.0 next.1)
          (λ next. await_from world request m' next.0 next.1)
      → Agree
          (Since b)
          (await_from world request (suc m) asked limit)
          (await_from world request (suc m') asked limit)
  unfolding await_from
  await_from-Agree m m' asked limit b go = Agree-bind (ask-IsForward world _ b) (λ pids.
      Agree-bind (look_at_processes-IsForward world request pids b)
        (λ word. after_look-Agree _ _ asked limit b pids word go))

  abbrev Settles : ℕ → ℕ → Type 0
  Settles m m' =
      (rounds : ℕ) (asked : Bool) (limit b : ℕ)
      → limit ≤ b + seconds rounds
      → budget asked rounds ≤ m
      → budget asked rounds ≤ m'
      → Agree (Since b) (await_from world request (suc m) asked limit)
          (await_from world request (suc m') asked limit)

  -- A round that goes on has a second less to go, or the wait for the plugin from now on.
  goes_on :
      (m m' rounds : ℕ) (asked : Bool) (limit b : ℕ)
      → Settles m m'
      → limit ≤ b + seconds rounds
      → budget asked rounds ≤ suc m
      → budget asked rounds ≤ suc m'
      → GoesOn b asked limit
          (λ next. await_from world request (suc m) next.0 next.1)
          (λ next. await_from world request (suc m') next.0 next.1)
  unfolding seconds
  goes_on m m' zero asked limit b ih near e e' next now deadline since (inl (same, l)) ahead =
      absurd (ended limit b now deadline next.1 (omega arith) since l ahead)
  goes_on m m' (suc rounds) asked limit b ih near e e' next now deadline since (inl (same, l))
        ahead =
      ih rounds next.0 next.1 (now + 1_000_000) (omega arith)
        (budget_step asked next.0 rounds m same e) (budget_step asked next.0 rounds m' same e')
  goes_on m m' rounds asked limit b ih near e e' next now deadline since (inr (was, l, first))
        ahead =
      ih 179 next.0 next.1 (now + 1_000_000) (omega arith)
        (budget_asked asked next.0 rounds m was first e)
        (budget_asked asked next.0 rounds m' was first e')

  await_from-Settles : (m m' : ℕ) → Settles m m'
  await_from-Settles zero m' rounds asked limit b near e e' =
      await_from-Agree zero m' asked limit b (λ next now deadline since what ahead.
        absurd (nothing_left asked rounds limit b now deadline next near e since what ahead))
  await_from-Settles (suc m) zero rounds asked limit b near e e' =
      await_from-Agree (suc m) zero asked limit b (λ next now deadline since what ahead.
        absurd (nothing_left asked rounds limit b now deadline next near e' since what ahead))
  await_from-Settles (suc m) (suc m') rounds asked limit b near e e' =
      await_from-Agree (suc m) (suc m') asked limit b
        (goes_on m m' rounds asked limit b (await_from-Settles m m') near e e')

  await_from-Agree_budget :
      (rounds now : ℕ)
      → 364 ≤ rounds
      → Agree
          (λ t. Since 0 t × (now ≡ t.now))
          (await_from world request rounds false (now + seconds plugin_wait))
          (await_from world request 364 false (now + seconds plugin_wait))
  unfolding seconds
  await_from-Agree_budget zero now enough = absurd (omega arith)
  await_from-Agree_budget (suc rounds) now enough =
      Agree-weaken {P = Since now} (λ t p. omega arith)
        (await_from-Settles rounds 363 180 false (now + seconds plugin_wait) now (omega arith)
          (omega arith) (omega arith))

  -- The wait for the restart ends by the plugin's word, by a new process, by a signal, by the lost lock, by
  -- the clock or by what is raised, and not because the model's rounds run out: with any more rounds than
  -- `await_restart` is given, it returns, raises and does the same, whatever the receiver answers.
  pub await_restart_more_rounds :
      (rounds : ℕ) (t : Transaction)
      → 364 ≤ rounds
      → (clock world >>= λ now. await_from world request rounds false (now + seconds plugin_wait)) t
        ≡ await_restart world request t
  unfolding await_restart
  await_restart_more_rounds rounds t enough =
      Agree-bind (reads_clock world 0) (λ now. await_from-Agree_budget rounds now enough) t
        (omega arith)
