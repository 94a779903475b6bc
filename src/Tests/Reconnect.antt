-- ===== src/Tests/Reconnect.antt =====
-- The witnesses of the late events: an event under message id 7 beside a state publish under 8, and a later
-- event under 9.
use enigma2_mqtt_bridge.Common.{
  ℕ, ◌≡◌, refl, Bool, true, false, Option, none, some, [], ◌∷◌, nat_eq, ℕ_discrete,
}
use enigma2_mqtt_bridge.Common.Dict.{lookup}
use enigma2_mqtt_bridge.MqttClient.{
  Info, Message, Paho, Tracked, is_refused, track_transient, drop_transient,
}
use enigma2_mqtt_bridge.MqttClient.Late.{
  queued, track_all, drop_transient-exact, drop_transient-drops,
}

abbrev event : Info
event = record { identity = 1; mid = some 7; rc = some 0 }

abbrev later_event : Info
later_event = record { identity = 3; mid = some 9; rc = some 0 }

abbrev waiting : ℕ → Message
waiting identity = record { owner = some identity; waits_for_puback = true }

abbrev client : Option Paho
client = some (record {
  out_messages = (7, waiting 1) ∷ ((8, waiting 2) ∷ ((9, waiting 3) ∷ []));
  inflight = 3;
})

abbrev never : Info → Bool
never info = false

abbrev tracked : Tracked
tracked = (7, event) ∷ ((9, later_event) ∷ [])

state_stays : queued 8 client ≡ some (waiting 2)
unfolding lookup nat_eq ℕ_discrete
state_stays = refl

drop_transient-exact_example :
    let after = (drop_transient tracked client).1 in
    (after.0 ≡ []) × (queued 8 after.1 ≡ some (waiting 2))
drop_transient-exact_example = drop_transient-exact tracked 8 2 (waiting 2) client state_stays refl

event_waits : queued 7 client ≡ some (waiting 1)
unfolding lookup nat_eq ℕ_discrete
event_waits = refl

drop_transient-drops_example :
    queued 7
      (drop_transient
        (track_all ((never, later_event) ∷ []) (track_transient never event []))
        client).1.1
    ≡ none
unfolding is_refused
drop_transient-drops_example =
    drop_transient-drops never event 7 [] ((never, later_event) ∷ []) (waiting 1) client refl refl
      ((refl, refl), tt) event_waits refl
