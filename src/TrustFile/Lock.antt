-- ===== src/TrustFile/Lock.antt =====
-- `trust_lock` of src/MQTTBridge/trustfile.py: a `flock` that is asked for until the deadline.
use enigma2_mqtt_bridge.Common.{
  ℕ, ◌+◌, ◌*◌, ◌≤◌, ◌≢◌, Option, none, some, List, [], ◌∷◌, leb, length, Bool-cases, inl, inr,
  if◌then◌else◌, arith,
}

pub data LockOutcome : Type 0 where
  locked lock_busy lock_failed : LockOutcome

-- One `flock`: it took the lock, another holds it, or it raised another error.
pub data Attempt : Type 0 where
  took would_block broke : Attempt

-- The loop over its attempts, each with the clock's reading after it; none while it still waits.
-- The caller's body runs after `locked`; `lock_busy` is the exception `TrustBusy`.
pub wait_for_lock : ℕ → List (Attempt × ℕ) → Option LockOutcome
wait_for_lock deadline [] = none
wait_for_lock deadline ((took, now) ∷ rest) = some locked
wait_for_lock deadline ((broke, now) ∷ rest) = some lock_failed
wait_for_lock deadline ((would_block, now) ∷ rest) =
    let later = wait_for_lock deadline rest in if leb deadline now then some lock_busy else later

-- `sleep(poll)` lies between two attempts.
abbrev pub Spaced : ℕ → ℕ → List (Attempt × ℕ) → Type 0
Spaced poll now [] = Unit
Spaced poll now ((a, t) ∷ rest) = (now ≤ t) × Spaced poll (t + poll) rest

-- The loop ends: with a sleep of `poll` between attempts, no more are made than fit before the
-- deadline, and one.
pub wait_for_lock_ends :
    (poll now deadline : ℕ) (first : Attempt × ℕ) (rest : List (Attempt × ℕ))
    → Spaced poll now (first ∷ rest)
    → deadline ≤ now + poll * length rest
    → wait_for_lock deadline (first ∷ rest) ≢ none
unfolding wait_for_lock
wait_for_lock_ends poll now deadline (took, t) rest s h = λ e. cc
wait_for_lock_ends poll now deadline (broke, t) rest s h = λ e. cc
wait_for_lock_ends poll now deadline (would_block, t) [] s h = ground arith
wait_for_lock_ends poll now deadline (would_block, t) (next ∷ rest) (later, spaced) h =
    elim (Bool-cases (leb deadline t)) [
      | inl over ↦ rw over (λ e. cc)
      | inr waits ↦ λ e.
          wait_for_lock_ends poll (t + poll) deadline next rest spaced (ground arith)
            (rw waits at e)
    ]
