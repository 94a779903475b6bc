-- ===== src/UpdateHelper/Forward/Proof.antt =====
-- What `prove` of src/MQTTBridge/updatehelper.py takes for a proof that the new version runs.
use enigma2_mqtt_bridge.Common.{
  ℕ, zero, suc, ◌≡◌, refl, sym, ap, ◌∙◌, ◌⊎◌, inl, inr, Bool, true, false, ◌||◌, Option, some, List,
  [], ◌∷◌, any, leb, contains, nat_eq, Option-cases, Bool-cases, String,
}
use enigma2_mqtt_bridge.Common.Result.{Result, ok, err, ok-injective}
use enigma2_mqtt_bridge.Trust.Release.{Release}
use enigma2_mqtt_bridge.UpdateHelper.State.{Raised, Request, Transaction, M, get}
use enigma2_mqtt_bridge.UpdateHelper.Receiver.{World, meanwhile, ask, clock, sleep}
use enigma2_mqtt_bridge.UpdateHelper.Waiting.Rounds.{Any}
use enigma2_mqtt_bridge.UpdateHelper.Waiting.Forward.{does_fact}
use enigma2_mqtt_bridge.UpdateHelper.Forward.{
  new_processes, answers, names_entry, is_self_updating, by_word, by_page, by_log_or_page,
  is_proved, look_at_logs, prove_from,
}
use enigma2_mqtt_bridge.UpdateHelper.After.{does_modify}
use enigma2_mqtt_bridge.UpdateHelper.Does.{
  On, After, Does, does_bind, does_weaken, does_get, does_pure, does_if, does_if_known,
}

-- The log open in a process that did not run before, or an answer of the receiver's web server, or the
-- word of the plugin.
abbrev pub LogSeen : World → List ℕ → Type 0
LogSeen world before =
    (n : ℕ) × (pid : ℕ) × (world.has_log_open n pid ≡ true) × (contains pid before ≡ false)

abbrev pub PageSeen : World → Type 0
PageSeen world = (n : ℕ) × (answers (world.webif_page n) ≡ true)

abbrev pub WordSaid : World → Release → Type 0
WordSaid world entry = (n : ℕ) × (names_entry (world.started_file n) (some entry) ≡ true)

abbrev pub Evidence : World → Release → List ℕ → Type 0
Evidence world entry before =
    (entry.self_update ≡ true → WordSaid world entry)
    × (entry.self_update ≡ false → LogSeen world before ⊎ PageSeen world)

-- The release that is being installed.
abbrev Installing : Release → On
Installing entry t = t.entry ≡ some entry

any_new :
    (world : World) (n : ℕ) (pids before : List ℕ)
    → any (λ pid. world.has_log_open n pid) (new_processes pids before) ≡ true
    → LogSeen world before
unfolding new_processes
any_new world n [] before h = cc
any_new world n (pid ∷ pids) before h = elim (Bool-cases (contains pid before)) [
  | inl old ↦ any_new world n pids before (rw old at h)
  | inr fresh ↦ elim (Bool-cases (world.has_log_open n pid)) [
    | inl seen ↦ (n, pid, seen, fresh)
    | inr unseen ↦ any_new world n pids before (rw (fresh, unseen) at h)
  ]
]

module _ (world : World) (request : Request) (entry : Release) where
  abbrev Keeps : {A : Type 0} → M A → Type 0
  Keeps {A} m = Does {A = A} (Installing entry) m (λ a. Installing entry) Any

  asked :
      {A : Type 0} (answer : ℕ → A)
      → Does
          (Installing entry)
          (ask world answer)
          (λ a t. Installing entry t × (n : ℕ) × (a ≡ answer n))
          Any
  unfolding ask meanwhile
  asked answer = record {
    after = λ t h. elim (Option-cases (world.raises t.asks)) [
      | inl none_raised ↦ rw (none_raised, ask) (h, t.asks, refl)
      | inr (x, raised) ↦ rw (raised, ask) tt
    ];
  }

  ask-Keeps : {A : Type 0} (answer : ℕ → A) → Keeps (ask world answer)
  ask-Keeps answer = does_weaken (λ t p. p) (λ a t p. p.0) (λ e t p. p) (asked answer)

  get-Keeps : {A : Type 0} (read : Transaction → A) → Keeps (get read)
  get-Keeps read = does_weaken (λ t p. p) (λ a t p. p.0) (λ e t p. p) (does_get read)

  clock-Keeps : Keeps (clock world)
  unfolding clock
  clock-Keeps = does_bind (ask-Keeps _) (λ u. get-Keeps _)

  sleep-Keeps : (time : ℕ) → Keeps (sleep world time)
  unfolding sleep
  sleep-Keeps time = does_bind (ask-Keeps _) (λ u. does_modify _ (λ t h. h))

  -- A test that is true only with what `X` says.
  abbrev Shows : Type 0 → M Bool → Type 0
  Shows X m = Does (Installing entry) m (λ b t. Installing entry t × (b ≡ true → X)) Any

  look_at_logs-Shows :
      (seen : Bool) (pids before : List ℕ)
      → (seen ≡ true → LogSeen world before)
      → Shows (LogSeen world before) (look_at_logs world request seen (new_processes pids before))
  unfolding look_at_logs
  look_at_logs-Shows seen pids before known =
      does_bind (asked _)
        (λ found. does_pure _ (λ t p. (p.0, λ e. shown seen found (p.1, p.2) e known)))
    where
      shown :
          (seen found : Bool)
          → (n : ℕ) × (found ≡ any (λ pid. world.has_log_open n pid) (new_processes pids before))
          → (seen || found) ≡ true
          → (seen ≡ true → LogSeen world before)
          → LogSeen world before
      shown true found a e known = known refl
      shown false found (n, same) e known = any_new world n pids before (sym same ∙ e)

  by_word-Shows : Shows (WordSaid world entry) (by_word world request)
  unfolding by_word
  by_word-Shows = does_bind (asked _) (λ file.
      does_bind (does_get _) (λ held.
        does_pure _ (λ t p. (p.0.0, λ e. (p.0.1, said file held (p.0.2) (p.1 ∙ p.0.0) e)))))
    where
      said :
          (file : Option (String × String)) (held : Option Release)
          {found : Option (String × String)}
          → file ≡ found
          → held ≡ some entry
          → names_entry file held ≡ true
          → names_entry found (some entry) ≡ true
      said file held same is_entry h = rw (same, is_entry) at h

  by_page-Shows : (pids : List ℕ) → Shows (PageSeen world) (by_page world request pids)
  unfolding by_page
  by_page-Shows [] = does_pure _ (λ t p. (p, λ e. cc))
  by_page-Shows (pid ∷ pids) = does_bind (get-Keeps _) (λ writable.
      does_if writable (does_pure _ (λ t p. (p, λ e. cc))) (
        does_bind (asked _)
          (λ page. does_pure _ (λ t p. (p.0, λ e. (p.1, ap answers (sym p.2) ∙ e))))))

  by_log_or_page-Shows :
      (seen : Bool) (pids before : List ℕ)
      → (seen ≡ true → LogSeen world before)
      → Shows (LogSeen world before ⊎ PageSeen world) (by_log_or_page world request seen pids)
  unfolding by_log_or_page
  by_log_or_page-Shows true pids before known = does_pure true (λ t p. (p, λ e. inl (known refl)))
  by_log_or_page-Shows false pids before known =
      does_weaken (λ t p. p) (λ a t p. (p.0, λ e. inr (p.1 e))) (λ e t p. p) (by_page-Shows pids)

  is_proved-Shows :
      (seen : Bool) (pids before : List ℕ)
      → (seen ≡ true → LogSeen world before)
      → Shows (Evidence world entry before) (is_proved world request seen pids)
  unfolding is_proved is_self_updating
  is_proved-Shows seen pids before known = does_bind (does_get _) (λ held.
      does_if_known (is_self_updating held)
        (does_weaken (λ t p. (p.0.0, rw (p.0.1 ∙ p.0.0) at p.1)) (λ a t p. p) (λ e t p. p)
          (does_fact (λ (own : entry.self_update ≡ true).
            does_weaken (λ t p. p) (λ a t p. (p.0, λ e. (λ _. p.1 e, λ other. cc))) (λ e t p. p)
              by_word-Shows)))
        (does_weaken (λ t p. (p.0.0, rw (p.0.1 ∙ p.0.0) at p.1)) (λ a t p. p) (λ e t p. p)
          (does_fact (λ (own : entry.self_update ≡ false).
            does_weaken (λ t p. p) (λ a t p. (p.0, λ e. (λ other. cc, λ _. p.1 e))) (λ e t p. p)
              (by_log_or_page-Shows seen pids before known)))))

  prove_from-Shows :
      (rounds : ℕ) (seen : Bool) (before : List ℕ) (window : ℕ)
      → (seen ≡ true → LogSeen world before)
      → Shows (Evidence world entry before) (prove_from world request rounds seen before window)
  unfolding prove_from
  prove_from-Shows zero seen before window known = does_pure false (λ t p. (p, λ e. cc))
  prove_from-Shows (suc rounds) seen before window known = does_bind (ask-Keeps _) (λ all_pids.
      does_bind (look_at_logs-Shows seen all_pids before known) (λ now_seen. does_fact (λ shown.
        does_bind (is_proved-Shows now_seen (new_processes all_pids before) before shown) (λ proved.
          does_if_known proved (does_pure true (λ t p. (p.0.0, λ e. p.0.1 p.1))) (
            does_weaken (λ t p. p.0.0) (λ a t p. p) (λ e t p. p)
              (does_bind clock-Keeps (λ now.
                does_if (leb window now) (does_pure false (λ t p. (p, λ e. cc))) (
                  does_bind (sleep-Keeps _)
                    (λ u. prove_from-Shows rounds now_seen before window shown)))))))))

  -- The new version is taken for proved only with evidence: for a release that updates itself, a started
  -- file of the plugin that names the release's version and commit; for any other, the plugin's log open
  -- in a process that did not run before the restart, or an answer of the web server that is not 404.
  pub prove_from-Evidence :
      (rounds : ℕ) (before : List ℕ) (window : ℕ) (t : Transaction)
      → t.entry ≡ some entry
      → (prove_from world request rounds false before window t).0 ≡ ok true
      → Evidence world entry before
  prove_from-Evidence rounds before window t installing proved =
      shown (prove_from world request rounds false before window t).0
        (prove_from world request rounds false before window t).1
        ((prove_from-Shows rounds false before window (λ e. cc)).after t installing) proved
    where
      shown :
          (r : Result Raised Bool) (t' : Transaction)
          → After {A = Bool}
              (λ b u. Installing entry u × (b ≡ true → Evidence world entry before))
              Any
              r
              t'
          → r ≡ ok true
          → Evidence world entry before
      shown (ok b) t' h e = h.1 (ok-injective e)
      shown (err x) t' h e = cc
