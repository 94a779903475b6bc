-- ===== src/UpdateHelper/Ending.antt =====
-- What a transaction of src/MQTTBridge/updatehelper.py writes of itself, and its end: `write_status`,
-- `marker`, `release` and `finish`. What the files hold besides is left out.
pub mod Calm
use enigma2_mqtt_bridge.Common.{
  ℕ, suc, Bool, true, false, ◌&&◌, Option, none, some, List, [], ◌∷◌, String, ◌==◌, string_eq,
  option_eq, if◌then◌else◌,
}
use enigma2_mqtt_bridge.UpdateHelper.State.{
  Reason, Fail, Phase, finished, Outcome, installed, End, Request, Transaction, M, pure, ◌>>=◌,
  ◌>>◌, modify, get, when, discard, is_some,
}
use enigma2_mqtt_bridge.UpdateHelper.Receiver.{World, ask}

abbrev pub reason_of : Option Fail → Option Reason
reason_of none = none
reason_of (some failure) = some failure.reason

module _ (world : World) where
  -- The status that could not be written is not written: no error of it is let out.
  unfoldable pub write_status : Phase → M (Unit {0})
  unfolding ask
  write_status phase = do modify (λ t. record t { phase = phase }); ask world (λ n. tt)

  -- Whether the marker was written.
  unfoldable pub marker : M Bool
  unfolding ask
  marker = do
    written ← ask world world.writes
    when written (modify (λ t. record t { markers = suc t.markers }))
    pure written

module _ (world : World) (request : Request) where
  -- The owner record is this transaction's.
  unfoldable pub owns : M Bool
  unfolding ask
  owns = do owner ← ask world world.owner; pure (owner == some request.id)

  drop_lock : Bool → M (Unit {0})
  unfolding owns ask
  drop_lock false = pure tt
  drop_lock true = do
    modify (λ t. record t { holding = false })
    own ← owns
    when own (ask world (λ n. tt))

  unfoldable pub release : M (Unit {0})
  unfolding drop_lock
  release = do held ← get (λ t. t.holding); drop_lock held

  -- The directories and the last-transaction record are this transaction's only with the lock.
  pub tidy : Bool → M (Unit {0})
  unfolding ask marker release
  tidy false = pure tt
  tidy true = do
    ask world (λ n. tt)
    there ← ask world world.marker_there
    chosen ← get (λ t. is_some t.entry)
    when (chosen && there) (discard (marker world))
    release
    ask world (λ n. tt)

  unfoldable pub finish : Outcome → Option Fail → M (Unit {0})
  unfolding write_status ask tidy
  finish outcome failure = do
    modify (λ t. record t { ended = true })
    ask world (λ n. tt)
    write_status world finished
    modify
        (λ t. record t { ends = record { outcome = outcome; cause = reason_of failure } ∷ t.ends })
    ask world (λ n. tt)
    claimed ← get (λ t. t.claimed)
    tidy claimed
