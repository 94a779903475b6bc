-- ===== src/Envelope.antt =====
-- The envelope of a command, of src/MQTTBridge/commands.py: `id_problem`, `unwrap` and what they use.
-- Python's text and JSON functions are arguments.
pub mod Clean
use Prim.Native.String.{◌++◌ as ◌<>◌}
use enigma2_mqtt_bridge.Common.{
  ℕ, ◌+◌, Bool, true, false, not, ◌&&◌, ◌||◌, Option, none, some, List, [], ◌∷◌, ◌++◌, String, ◌==◌,
  string_eq, contains, length, leb, ltb, eqb, all, if◌then◌else◌,
}
use enigma2_mqtt_bridge.Common.Text.{codes, is_digit, is_lower, is_upper}
use enigma2_mqtt_bridge.Common.Dict.{Dict, lookup, keys}
use enigma2_mqtt_bridge.Json.{Value, str, obj, text, as_dict}
use enigma2_mqtt_bridge.Ed25519.{Bytes}

abbrev pub command_id_limit : ℕ
command_id_limit = 64

-- `str.strip`, `str.startswith("{")`, `json.loads` and `json.dumps` (none where they raise), whether
-- UTF-8 can hold a text and in how many bytes, and `decode`; and `redact` of log.py. A parsed object
-- has each of its names once.
pub record Python : Type 0 where
  pub strip : String → String
  pub opens_object : String → Bool
  pub loads : String → Option Value
  pub dumps : Value → Option String
  pub encodable : String → Bool
  pub utf8_length : String → ℕ
  pub decode : Option Bytes → String
  pub redact : String → String

pub data Problem : Type 0 where
  not_a_string empty too_long bad_character secret : Problem

-- `COMMAND_ID_CHARACTERS`
abbrev pub is_id_character : ℕ → Bool
is_id_character c =
    is_lower c || is_upper c || is_digit c || eqb c b'.' || eqb c b'_' || eqb c b':' || eqb c b'-'

text_problem : Python → String → Option Problem
text_problem python value =
    if value == ""
    then some empty
    else if ltb command_id_limit (length (codes value))
    then some too_long
    else if not (all is_id_character (codes value))
    then some bad_character
    else if not (python.redact value == value)
    then some secret
    else none

unfoldable pub id_problem : Python → Value → Option Problem
unfolding text_problem
id_problem python (str value) = text_problem python value
id_problem python _ = some not_a_string

-- The command's own payload, its id, and why an id is dropped.
pub record Unwrapped : Type 0 where
  pub payload : String
  pub command_id : Option String
  pub problem : Option Problem

abbrev unopened : String → Unwrapped
unopened text = record { payload = text; command_id = none; problem = none }

-- `_inner`, for the two shapes that a command's payload has.
inner : Python → Value → Option String
inner python (str value) = some value
inner python (obj ms) = python.dumps (obj ms)
inner python _ = none

-- `set(envelope) == {ENVELOPE_ID, ENVELOPE_PAYLOAD}`, as its two members.
envelope_members : Dict String Value → Option (Value × Value)
envelope_members fields =
    if all (λ name. name == "id" || name == "payload") (keys fields)
    then elim (lookup "id" fields) [
      | none ↦ none
      | some id ↦ elim (lookup "payload" fields) [ none ↦ none | some payload ↦ some (id, payload) ]
    ]
    else none

-- The envelope of a text that opens an object.
envelope : Python → String → Option (Value × Value)
envelope python stripped = elim (python.loads stripped) [
  | none ↦ none
  | some value ↦ elim (as_dict value) [ none ↦ none | some fields ↦ envelope_members fields ]
]

abbrev id_of : Option Problem → Value → Option String
id_of (some problem) id = none
id_of none id = text id

open_envelope : Python → String → Value → Option String → Unwrapped
open_envelope python arrived id none = unopened arrived
open_envelope python arrived id (some payload) =
    if python.encodable payload
    then record {
      payload = payload;
      command_id = id_of (id_problem python id) id;
      problem = id_problem python id;
    }
    else unopened arrived

unwrap_envelope : Python → String → Option (Value × Value) → Unwrapped
unfolding open_envelope inner
unwrap_envelope python arrived none = unopened arrived
unwrap_envelope python arrived (some (id, payload)) =
    open_envelope python arrived id (inner python payload)

unfoldable pub unwrap : Python → String → Unwrapped
unfolding unwrap_envelope envelope envelope_members
unwrap python arrived =
    let stripped : String = python.strip arrived in
    if not (python.opens_object stripped)
    then unopened arrived
    else unwrap_envelope python arrived (envelope python stripped)
