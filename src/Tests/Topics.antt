-- ===== src/Tests/Topics.antt =====
-- The witnesses of the retained topics: a tuner that is published, published again with another stamp, and
-- taken back.
use enigma2_mqtt_bridge.Common.{
  ◌≡◌, refl, true, false, some, [], ◌∷◌, String, string_eq, option_eq, ◌==◌,
}
use enigma2_mqtt_bridge.Common.Dict.{lookup}
use enigma2_mqtt_bridge.Retained.{Bridge, is_quiet, oversize, publish_state, retract}
use enigma2_mqtt_bridge.Retained.Size.{oversize-exact}
use enigma2_mqtt_bridge.Retained.Topics.{IsConsistent}
use enigma2_mqtt_bridge.Retained.Known.{
  Reached, at_start, session_changes, publishes_state, retracts, Reached-IsConsistent,
  publish_state-current,
}

-- The key leaves the payload's stamp out; here every payload of a topic says the same.
abbrev key_of : String → String → String
key_of topic payload = topic

abbrev tuner : String
tuner = "enigma2/a1/tuner"

abbrev fresh : Bridge
fresh = record {
  root = "enigma2/a1/";
  has_client = true;
  connected = true;
  closed = false;
  silent = false;
  known = "enigma2/a1/old" ∷ [];
  published = [];
  not_published = [];
  sent = [];
}

fresh_run : Reached key_of fresh
fresh_run = session_changes true true false false (at_start "enigma2/a1/" ("enigma2/a1/old" ∷ []))

named : (tuner == "") ≡ false
unfolding string_eq
named = refl

published_run : Reached key_of (publish_state true tuner "{}" tuner true fresh)
published_run = publishes_state true tuner "{}" true named fresh_run

Reached-IsConsistent_example :
    IsConsistent key_of (retract tuner (publish_state true tuner "{}" tuner true fresh))
Reached-IsConsistent_example = Reached-IsConsistent key_of (retracts tuner published_run)

publish_state-current_example :
    (payload : String) × (lookup tuner (publish_state true tuner "{}" tuner true fresh).sent
      ≡ some payload)
    × (tuner ≡ tuner)
unfolding is_quiet oversize
publish_state-current_example =
    publish_state-current key_of true tuner "{}" fresh_run named refl refl

-- A letter of two bytes: one character, and eight bytes with the overhead.
oversize-exact_example : oversize (260 ∷ []) [] ≡ 0
oversize-exact_example = oversize-exact (260 ∷ []) []
