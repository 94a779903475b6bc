-- ===== src/TrustFile.antt =====
-- The trust file, src/MQTTBridge/trustfile.py: reading it, judging a pair of files against it, and
-- keeping an accepted one. The file system is a `Disk`; the text that `json.dump` writes for a state
-- is the argument `dump` of `keep`. The members of the file that `trust.py` does not know, `held`
-- among them, are the state's `others`.
pub mod Lock
pub mod Keep
use enigma2_mqtt_bridge.Common.{
  ℕ, ◌*◌, ◌+◌, Bool, true, false, ◌&&◌, Option, none, some, List, [], ◌∷◌, String, ◌==◌, string_eq,
  nat_eq, option_eq, leb, length, if◌then◌else◌,
}
use enigma2_mqtt_bridge.Common.Result.{Result, ok, err, ◌>>=◌, ◌>>◌, guard, or_raise}
use enigma2_mqtt_bridge.Common.Dict.{Dict, lookup, insert}
use enigma2_mqtt_bridge.Json.{Value, Members, end, member, str, obj, text, as_dict}
use enigma2_mqtt_bridge.Ed25519.{Bytes}
use enigma2_mqtt_bridge.Trust.Platform.{Platform}
use enigma2_mqtt_bridge.Trust.Keys.{Reason, replay, Key, bytes_eq}
use enigma2_mqtt_bridge.Trust.Memory.{BadMemory, bad_memory, Memory}
use enigma2_mqtt_bridge.Trust.State.{State, empty_state, check_state, memory_for, store}
use enigma2_mqtt_bridge.Trust.Index.{Index}
use enigma2_mqtt_bridge.Trust.Accept.{Authentic, authenticate, Accepted, accept}

-- What stands at the trust file's path.
pub data Disk : Type 0 where
  missing unreadable : Disk
  holds : Bytes → Disk

pub data Source : Type 0 where
  source_origin source_relay : Source

-- `accepted` is `ACCEPT`; a refusal carries the rule's reason.
pub data Verdict : Type 0 where
  accepted taken_back unchanged write_failed trust_busy error_bad_memory error_bad_keys : Verdict
  refused : Reason → Verdict

-- `held`: the index and where it came from.
pub record Held : Type 0 where
  pub index : Index
  pub source : Source

-- The verdict, what is held after it, and the state to write.
pub record Judgement : Type 0 where
  pub verdict : Verdict
  pub held : Option Held
  pub next : Option State

abbrev max_state_bytes : ℕ
max_state_bytes = 512 * 1024

unfoldable pub read_state : Platform → Disk → Result BadMemory (Option State)
read_state platform missing = ok none
read_state platform unreadable = err bad_memory
read_state platform (holds raw) = do
  guard (leb (length raw) max_state_bytes) bad_memory
  value ← or_raise (platform.loads raw) bad_memory
  fields ← or_raise (as_dict value) bad_memory
  state ← check_state (some value)
  ok (some state)

abbrev lineage_of : Bool → String
lineage_of true = "acceptance"
lineage_of false = "release"

-- `state if state is not None else empty_state()`
unfoldable pub state_or_empty : Option State → State
state_or_empty none = empty_state
state_or_empty (some state) = state

-- A member that is an object, and an empty one where there is none.
object_at : String → Dict String Value → Dict String Value
object_at name fields = elim (lookup name fields) [
  | none ↦ []
  | some value ↦ elim (as_dict value) [ none ↦ [] | some inner ↦ inner ]
]

held_part : Option State → Bool → Dict String Value
unfolding object_at
held_part none acceptance = []
held_part (some state) acceptance =
    object_at (lineage_of acceptance) (object_at "held" state.others)

object : Dict String Value → Members
object [] = end
object ((name, value) ∷ rest) = member name value (object rest)

pub with_held : State → Bool → Dict String Value → State
unfolding object_at object
with_held state acceptance part =
    let held : Dict String Value =
      insert (lineage_of acceptance) (obj (object part)) (object_at "held" state.others) in
    record state { others = insert "held" (obj (object held)) state.others }

abbrev result_option : {E A : Type 0} → Result E A → Option A
result_option (ok a) = some a
result_option (err e) = none

-- `unb64(part.get(name))`
unb64_at : Platform → String → Dict String Value → Option Bytes
unb64_at platform name part = result_option (do
  value ← or_raise (lookup name part) bad_memory
  spelled ← or_raise (text value) bad_memory
  or_raise (platform.b64decode spelled) bad_memory)

abbrev source_at : Option Value → Source
source_at none = source_origin
source_at (some (str name)) = if name == "relay" then source_relay else source_origin
source_at (some _) = source_origin

-- The held index, if the keys still sign it.
authentic : Platform → Dict String Value → List Key → Option Held
unfolding unb64_at
authentic platform part keys = result_option (do
  index_raw ← or_raise (unb64_at platform "index" part) bad_memory
  signature_raw ← or_raise (unb64_at platform "sig" part) bad_memory
  found ← or_raise (result_option (authenticate platform index_raw signature_raw keys)) bad_memory
  ok (record { index = found.index; source = source_at (lookup "source" part) }))

-- `dict(part, index=b64(index_raw), sig=b64(signature_raw), source=source)`
kept_part : Platform → Dict String Value → Bytes → Bytes → Source → Dict String Value
kept_part platform part index_raw signature_raw source =
    let spelled : String = elim source [ source_origin ↦ "origin" | source_relay ↦ "relay" ] in
    insert "source" (str spelled) (
      insert "sig" (str (platform.b64encode signature_raw))
        (insert "index" (str (platform.b64encode index_raw)) part))

-- Its first component; the part that goes with it is `kept_part`.
take_back : Platform → Bytes → Bytes → Dict String Value → Memory → Source → List Key → Option Held
unfolding authentic
take_back platform index_raw signature_raw part memory source keys =
    elim (authentic platform part keys) [
      | some held ↦ none
      | none ↦ elim (authenticate platform index_raw signature_raw keys) [
        | err reason ↦ none
        | ok found ↦
            if lookup found.key.key_id memory.serials == some found.index.serial
            then some (record { index = found.index; source = source })
            else none
      ]
    ]

same_bytes : Option Bytes → Bytes → Bool
same_bytes none raw = false
same_bytes (some held) raw = held == raw

is_held_pair : Platform → Dict String Value → Bytes → Bytes → Bool
unfolding unb64_at same_bytes
is_held_pair platform part index_raw signature_raw =
    same_bytes (unb64_at platform "index" part) index_raw
    && same_bytes (unb64_at platform "sig" part) signature_raw

judge_taken : Platform → Option Held → Option State → Bool → Dict String Value → Judgement
unfolding with_held state_or_empty
judge_taken platform none before acceptance part = record {
  verdict = refused replay;
  held = none;
  next = before;
}
judge_taken platform (some held) before acceptance part = record {
  verdict = taken_back;
  held = some held;
  next = some (with_held (state_or_empty before) acceptance part);
}

judge_replay :
    Platform → Option State → Memory → List Key → Bool → Bytes → Bytes → Source → Judgement
unfolding held_part kept_part take_back is_held_pair judge_taken
judge_replay platform before memory keys acceptance index_raw signature_raw source =
    let part : Dict String Value = held_part before acceptance in
    if is_held_pair platform part index_raw signature_raw
    then record { verdict = unchanged; held = none; next = before }
    else judge_taken platform (take_back platform index_raw signature_raw part memory source keys)
        before acceptance (kept_part platform part index_raw signature_raw source)

judge_refused :
    Platform → Reason → Option State → Memory → List Key → Bool → Bytes → Bytes → Source → Judgement
unfolding judge_replay
judge_refused platform replay before memory keys acceptance index_raw signature_raw source =
    judge_replay platform before memory keys acceptance index_raw signature_raw source
judge_refused platform reason before memory keys acceptance index_raw signature_raw source =
    record { verdict = refused reason; held = none; next = before }

judge_accepted :
    Platform → Accepted → Option State → List Key → Bool → Bytes → Bytes → Source → Judgement
unfolding held_part kept_part with_held state_or_empty
judge_accepted platform result before keys acceptance index_raw signature_raw source =
    let stored : State = store platform (state_or_empty before) keys result.memory acceptance in
    record {
      verdict = accepted;
      held = some (record { index = result.accepted.index; source = source });
      next = some (
          with_held stored acceptance
            (kept_part platform (held_part before acceptance) index_raw signature_raw source));
    }

judge_result :
    Platform
    → Result Reason Accepted
    → Option State
    → Memory
    → List Key
    → Bool
    → Bytes
    → Bytes
    → Source
    → Judgement
unfolding judge_accepted judge_refused
judge_result platform (ok result) before memory keys acceptance index_raw signature_raw source =
    judge_accepted platform result before keys acceptance index_raw signature_raw source
judge_result platform (err reason) before memory keys acceptance index_raw signature_raw source =
    judge_refused platform reason before memory keys acceptance index_raw signature_raw source

-- `judge` once the file is read.
unfoldable pub judge_state :
    Platform → Option State → List Key → Bool → Bytes → Bytes → Source → Judgement
unfolding judge_result state_or_empty
judge_state platform before keys acceptance index_raw signature_raw source =
    let memory : Memory = memory_for (state_or_empty before) keys acceptance in
    judge_result platform (accept platform index_raw signature_raw keys memory) before memory keys
      acceptance index_raw signature_raw source

judge_read :
    Platform
    → Result BadMemory (Option State)
    → List Key
    → Bool
    → Bytes
    → Bytes
    → Source
    → Judgement
unfolding judge_state
judge_read platform (ok before) keys acceptance index_raw signature_raw source =
    judge_state platform before keys acceptance index_raw signature_raw source
judge_read platform (err e) keys acceptance index_raw signature_raw source = record {
  verdict = error_bad_memory;
  held = none;
  next = none;
}

-- `judge` of trustfile.py. No keys are a build whose keys are bad.
unfoldable pub judge_pair :
    Platform → Disk → Option (List Key) → Bool → Bytes → Bytes → Source → Judgement
unfolding judge_read read_state
judge_pair platform disk none acceptance index_raw signature_raw source = record {
  verdict = error_bad_keys;
  held = none;
  next = none;
}
judge_pair platform disk (some keys) acceptance index_raw signature_raw source =
    judge_read platform (read_state platform disk) keys acceptance index_raw signature_raw source
