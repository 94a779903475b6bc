-- ===== src/Tests/Dispatch.antt =====
-- The dispatcher's theorems at small inputs.
use enigma2_mqtt_bridge.Common.{
  ◌≤◌, ◌≡◌, refl, true, false, none, some, List, [], ◌∷◌, String, ◌==◌, string_eq, arith,
}
use enigma2_mqtt_bridge.Common.Dict.{keys, lookup}
use enigma2_mqtt_bridge.Json.{as_dict, end, member, str, obj}
use enigma2_mqtt_bridge.Envelope.{Python, id_problem, unwrap}
use enigma2_mqtt_bridge.Envelope.Clean.{IsClean, unwrap-IsClean}
use enigma2_mqtt_bridge.Commands.{
  Bridge, Handler, Dispatcher, cleared, worked, mqtt, execute, handle, payload_size,
}
use enigma2_mqtt_bridge.Commands.Discarded.{Message, handle_all, live, handle_all-live}
use enigma2_mqtt_bridge.Commands.Answers.{
  IsAnswered, execute-IsAnswered, IsHandled, handle-IsHandled,
}

-- Every payload is the envelope of a mute command.
abbrev python : Python
python = record {
  strip = λ words. words;
  opens_object = λ words. true;
  loads = λ words. some (obj (member "id" (str "ha-17") (member "payload" (str "on") end)));
  dumps = λ value. none;
  encodable = λ words. true;
  utf8_length = λ words. 4;
  decode = λ raw. "envelope";
  redact = λ words. words;
}

abbrev mute_handler : Handler
mute_handler id words origin consents = worked

abbrev bridge : Bridge
bridge = record {
  command_name = λ topic. some "mute";
  handlers = λ name. some mute_handler;
  doors = λ name. none;
  silent = false;
}

abbrev idle : Dispatcher
idle = record { discarded_retained = []; current_id = none; problems_said = []; sent = [] }

ha_id : (unwrap python "envelope").command_id ≡ some "ha-17"
unfolding unwrap as_dict keys string_eq lookup id_problem
ha_id = refl

unwrap-IsClean_example : IsClean python "ha-17"
unwrap-IsClean_example = unwrap-IsClean python "envelope" "ha-17" ha_id

execute-IsAnswered_example :
    IsAnswered python bridge "mute"
      (some "ha-17")
      mute_handler
      "on"
      mqtt
      false
      idle
      (execute python bridge "mute" mute_handler "on" mqtt false (some "ha-17") idle)
execute-IsAnswered_example =
    execute-IsAnswered python bridge "mute" (some "ha-17") mute_handler "on" mqtt false idle

abbrev mute : String
mute = "mute"

not_relay : (mute == "relay") ≡ false
unfolding string_eq
not_relay = refl

small_payload : payload_size (some (1 ∷ [])) ≤ 4096
unfolding payload_size
small_payload = ground arith

handle-IsHandled_example :
    IsHandled python bridge "mute" "envelope" idle
      (handle python bridge "cmd/mute" (some (1 ∷ [])) false idle)
handle-IsHandled_example =
    handle-IsHandled python bridge "cmd/mute" "mute" (some (1 ∷ [])) idle refl small_payload
      not_relay

abbrev messages : List Message
messages =
    record { topic = "cmd/mute"; payload = some (2 ∷ []); retain = true }
    ∷ record { topic = "cmd/mute"; payload = some (1 ∷ []); retain = false }
    ∷ []

handle_all-live_example :
    handle_all python bridge messages idle
    ≡ record (handle_all python bridge (live python bridge messages) idle) {
      discarded_retained = "cmd/mute" ∷ [];
    }
handle_all-live_example = handle_all-live python bridge messages idle

-- The mute command is run once.
messages_answered : (handle_all python bridge messages idle).sent ≡ cleared ∷ []
unfolding handle unwrap execute payload_size as_dict keys string_eq lookup id_problem
messages_answered = refl
