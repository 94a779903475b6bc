-- ===== src/MqttClient.antt =====
-- The events of src/MQTTBridge/mqttclient.py that must not arrive late: `publish` with `transient`,
-- `_track_transient`, `_drop_transient`, `withdraw_publish` and `_withdraw`. What paho answers and what it
-- holds in its outgoing queue are arguments.
pub mod Late
use enigma2_mqtt_bridge.Common.{
  ℕ, suc, ◌+◌, ◌-◌, Bool, true, false, not, Option, none, some, List, [], ◌∷◌, eqb, ◌==◌, nat_eq,
  if◌then◌else◌,
}
use enigma2_mqtt_bridge.Common.Dict.{Dict, lookup, insert, erase}

-- `MQTTMessageInfo`: which one it is, and its members, where it has them.
pub record Info : Type 0 where
  pub identity : ℕ
  pub mid : Option ℕ
  pub rc : Option ℕ

-- A message of `_out_messages`, with the identity of its `info`; it waits for its PUBACK or not.
pub record Message : Type 0 where
  pub owner : Option ℕ
  pub waits_for_puback : Bool

-- The client of paho, with and without the queue that the plugin knows.
pub record Paho : Type 0 where
  pub out_messages : Dict ℕ Message
  pub inflight : ℕ

unfoldable pub is_other : Option ℕ → ℕ → Bool
is_other none identity = false
is_other (some owner) identity = not (eqb owner identity)

without : ℕ → Message → Paho → Paho
without mid message paho = record {
  out_messages = erase mid paho.out_messages;
  inflight = if message.waits_for_puback then paho.inflight - 1 else paho.inflight;
}

-- Whether the message was taken out, and the client after it.
withdraw : ℕ → ℕ → Paho → Bool × Paho
unfolding without is_other
withdraw mid identity paho = elim (lookup mid paho.out_messages) [
  | none ↦ (false, paho)
  | some message ↦
      if is_other message.owner identity then (false, paho) else (true, without mid message paho)
]

-- `withdraw_publish`; `none` is a client without such a queue.
unfoldable pub withdraw_publish : Info → Option Paho → Bool × Option Paho
unfolding withdraw
withdraw_publish info none = (false, none)
withdraw_publish info (some paho) = elim info.mid [
  | none ↦ (false, some paho)
  | some mid ↦ let (taken, after) = withdraw mid info.identity paho in (taken, some after)
]

abbrev pub Tracked : Type 0
Tracked = Dict ℕ Info

-- Those that the broker does not have yet.
unsettled : (Info → Bool) → Tracked → Tracked
unsettled settled [] = []
unsettled settled ((mid, info) ∷ tracked) =
    let rest = unsettled settled tracked in if settled info then rest else (mid, info) ∷ rest

-- `getattr(info, "rc", 0)`
unfoldable pub is_refused : Info → Bool
is_refused info = elim info.rc [ none ↦ false | some rc ↦ not (eqb rc 0) ]

unfoldable pub track_transient : (Info → Bool) → Info → Tracked → Tracked
unfolding unsettled is_refused
track_transient settled info tracked = elim info.mid [
  | none ↦ tracked
  | some mid ↦ if is_refused info then tracked else insert mid info (unsettled settled tracked)
]

-- The tracked ones are withdrawn one after another, and counted.
unfoldable pub drop_all : Tracked → Option Paho → ℕ × Option Paho
unfolding withdraw_publish
drop_all [] client = (0, client)
drop_all ((mid, info) ∷ tracked) client =
    let (taken, after) = withdraw_publish info client in
    let (dropped, last) = drop_all tracked after in (if taken then suc dropped else dropped, last)

-- `_drop_transient`: nothing is tracked any more.
unfoldable pub drop_transient : Tracked → Option Paho → ℕ × (Tracked × Option Paho)
unfolding drop_all
drop_transient tracked client =
    let (dropped, after) = drop_all tracked client in (dropped, ([], after))
