-- ===== src/Commands.antt =====
-- The command dispatcher, src/MQTTBridge/commands.py: what arrives from the broker or from a page is
-- bounded, taken out of its envelope, run by its handler and answered on `last_error`. The handlers,
-- the bridge and Python's text and JSON functions are arguments.
pub mod Answers
pub mod Discarded
use Prim.Native.String.{◌++◌ as ◌<>◌}
use enigma2_mqtt_bridge.Common.{
  ℕ, ◌+◌, Bool, true, false, not, ◌&&◌, ◌||◌, Option, none, some, List, [], ◌∷◌, ◌++◌, String, ◌==◌,
  string_eq, contains, length, leb, ltb, eqb, all, if◌then◌else◌,
}
use enigma2_mqtt_bridge.Common.Text.{codes, is_digit, is_lower, is_upper}
use enigma2_mqtt_bridge.Common.Dict.{Dict, lookup, keys}
use enigma2_mqtt_bridge.Json.{Value, str, obj, text, as_dict}
use enigma2_mqtt_bridge.Ed25519.{Bytes}
use enigma2_mqtt_bridge.Envelope.{Python, Problem, Unwrapped, unwrap}

abbrev pub max_payload_bytes : ℕ
max_payload_bytes = 4096

pub data Origin : Type 0 where
  mqtt page screen : Origin

-- A sentence for `last_error`, with its reason code where the command defines one.
pub record Refusal : Type 0 where
  pub sentence : String
  pub reason : Option String

-- What a handler did: nothing to say, a refusal, or an exception with its type's name.
pub data Outcome : Type 0 where
  worked : Outcome
  refuses : Refusal → Outcome
  raised : String → String → Outcome

-- What the bridge is asked to send, the newest last.
pub data Sent : Type 0 where
  last_error : String → Refusal → Option String → Sent
  unretained : String → Refusal → Option String → Sent
  cleared : Sent
  relayed : String → Sent

pub record Dispatcher : Type 0 where
  pub discarded_retained : List String
  pub current_id : Option String
  pub problems_said : List Problem
  pub sent : List Sent

-- A handler sees the id of the command it runs for. `consents` is `downgrade=True`.
abbrev pub Handler : Type 0
Handler = Option String → String → Origin → Bool → Outcome

pub record Bridge : Type 0 where
  pub command_name : String → Option String
  pub handlers : String → Option Handler
  -- `doors_refusal` of the self-update, and whether an update has made the plugin silent
  pub doors : String → Option String
  pub silent : Bool

send : Sent → Dispatcher → Dispatcher
send message d = record d { sent = d.sent ++ (message ∷ []) }

plain : String → Refusal
plain sentence = record { sentence = sentence; reason = none }

-- `DOORS_REASONS`
doors_refusal : String → String → Refusal
unfolding plain
doors_refusal name sentence =
    if contains name ("list" ∷ "play_recording" ∷ "delete_recording" ∷ "recordings_refresh" ∷ [])
    then record { sentence = sentence; reason = some "busy" }
    else plain sentence

refuse : String → Refusal → Option String → Dispatcher → Option Refusal × Dispatcher
unfolding send
refuse name refusal id d = (some refusal, send (last_error name refusal id) d)

-- The doors are closed: said, or not, while an update is silent.
closed_doors : Bridge → String → Refusal → Option String → Dispatcher → Option Refusal × Dispatcher
unfolding refuse send
closed_doors bridge name refusal id d =
    if bridge.silent && name == "list"
    then (some refusal, send (unretained name refusal id) d)
    else if bridge.silent
    then (some refusal, d)
    else refuse name refusal id d

answer : Python → String → Option String → Outcome → Dispatcher → Option Refusal × Dispatcher
unfolding refuse send plain
answer python name id worked d = (none, send cleared d)
answer python name id (refuses refusal) d = refuse name refusal id d
answer python name id (raised kind words) d =
    refuse name (plain (kind <> (": " <> python.redact words))) id d

handled :
    Python
    → Bridge
    → String
    → Handler
    → String
    → Origin
    → Bool
    → Option String
    → Dispatcher
    → Option Refusal × Dispatcher
unfolding closed_doors answer doors_refusal
handled python bridge name handler words origin consents id d = elim (bridge.doors name) [
  | some sentence ↦ closed_doors bridge name (doors_refusal name sentence) id d
  | none ↦ answer python name id (handler d.current_id words origin consents) d
]

-- `_execute`: the id is the command's while its handler runs, and the one before it afterwards.
unfoldable pub execute :
    Python
    → Bridge
    → String
    → Handler
    → String
    → Origin
    → Bool
    → Option String
    → Dispatcher
    → Option Refusal × Dispatcher
unfolding handled
execute python bridge name handler words origin consents id d =
    let (refusal, after) =
      handled python bridge name handler words origin consents id (record d { current_id = id }) in
    (refusal, record after { current_id = d.current_id })

note_problem : Option Problem → Dispatcher → Dispatcher
note_problem none d = d
note_problem (some problem) d = record d { problems_said = problem ∷ d.problems_said }

run_named :
    Python
    → Bridge
    → String
    → Option Handler
    → String
    → Origin
    → Bool
    → Option String
    → Dispatcher
    → Option Refusal × Dispatcher
unfolding execute refuse plain
run_named python bridge name none words origin consents id d =
    refuse name (plain "unknown command") id d
run_named python bridge name (some handler) words origin consents id d =
    execute python bridge name handler words origin consents id d

-- A command of the broker that is neither retained nor too large.
handle_command : Python → Bridge → String → Option Bytes → Dispatcher → Bool × Dispatcher
unfolding run_named note_problem send
handle_command python bridge name payload d =
    if name == "relay"
    then (true, send (relayed (python.decode payload)) d)
    else let unwrapped : Unwrapped = unwrap python (python.decode payload) in
      let (refusal, after) =
        run_named python bridge name (bridge.handlers name) unwrapped.payload mqtt false
          unwrapped.command_id (note_problem unwrapped.problem d) in
      (elim refusal [ none ↦ true | some _ ↦ false ], after)

unfoldable pub payload_size : Option Bytes → ℕ
payload_size none = 0
payload_size (some raw) = length raw

handle_named :
    Python → Bridge → String → String → Option Bytes → Bool → Dispatcher → Bool × Dispatcher
unfolding handle_command payload_size
handle_named python bridge topic name payload retain d =
    if retain
    then (false, record d { discarded_retained = topic ∷ d.discarded_retained })
    else if ltb max_payload_bytes (payload_size payload)
    then (false, d)
    else handle_command python bridge name payload d

unfoldable pub handle :
    Python → Bridge → String → Option Bytes → Bool → Dispatcher → Bool × Dispatcher
unfolding handle_named
handle python bridge topic payload retain d = elim (bridge.command_name topic) [
  | none ↦ (false, d)
  | some name ↦ handle_named python bridge topic name payload retain d
]

-- `run`: a command from the page or from the receiver's own screen.
unfoldable pub run :
    Python → Bridge → String → String → Origin → Bool → Dispatcher → Option Refusal × Dispatcher
unfolding run_named plain
run python bridge name words origin consents d =
    if ltb max_payload_bytes (python.utf8_length words)
    then (some (plain "the command is over the 4096 byte limit"), d)
    else if name == "relay"
    then (none, d)
    else run_named python bridge name (bridge.handlers name) words origin consents none d
