-- ===== src/Commands/Discarded.antt =====
-- Messages that are no commands, in a run of messages.
use enigma2_mqtt_bridge.Common.{
  ◌≡◌, ◌⊎◌, refl, inl, inr, Bool, true, false, not, ◌&&◌, Option, none, some, List, [], ◌∷◌, String,
  ◌==◌, string_eq, leb, ltb, if◌then◌else◌, arith, Bool-cases, Option-cases,
}
use enigma2_mqtt_bridge.Ed25519.{Bytes}
use enigma2_mqtt_bridge.Envelope.{Python, Problem, Unwrapped, unwrap}
use enigma2_mqtt_bridge.Commands.{
  max_payload_bytes, mqtt, Refusal, Outcome, worked, refuses, raised, Dispatcher, Handler, Bridge,
  send, refuse, closed_doors, doors_refusal, answer, handled, execute, run_named, note_problem,
  handle_command, handle_named, handle, payload_size,
}

-- What a broker delivers.
pub record Message : Type 0 where
  pub topic : String
  pub payload : Option Bytes
  pub retain : Bool

module _ (python : Python) (bridge : Bridge) where
  abbrev pub handle_all : List Message → Dispatcher → Dispatcher
  handle_all [] d = d
  handle_all (m ∷ ms) d = handle_all ms (handle python bridge m.topic m.payload m.retain d).1

  -- On a command's topic, not retained, and of 4096 bytes at most.
  abbrev pub is_live : Message → Bool
  is_live m =
      elim (bridge.command_name m.topic) [ none ↦ false | some _ ↦ true ]
      && not m.retain
      && leb (payload_size m.payload) max_payload_bytes

  abbrev pub live : List Message → List Message
  live [] = []
  live (m ∷ ms) = if is_live m then m ∷ live ms else live ms

  -- The topics of the retained commands, the newest first, before those that were noted already.
  abbrev pub noted : List Message → List String → List String
  noted [] topics = topics
  noted (m ∷ ms) topics = noted ms (
      if elim (bridge.command_name m.topic) [ none ↦ false | some _ ↦ true ] && m.retain
      then m.topic ∷ topics
      else topics)

  abbrev with_notes : List String → Dispatcher → Dispatcher
  with_notes topics d = record d { discarded_retained = topics }

  -- The notes make no difference to a command, and it keeps them.
  abbrev Ignores : (Dispatcher → Option Refusal × Dispatcher) → Type 0
  Ignores f =
      (topics : List String) (d : Dispatcher)
      → f (with_notes topics d) ≡ ((f d).0, with_notes topics (f d).1)

  closed_doors-Ignores :
      (name : String) (r : Refusal) (id : Option String) → Ignores (closed_doors bridge name r id)
  unfolding closed_doors refuse send
  closed_doors-Ignores name r id topics d = elim (Bool-cases bridge.silent) [
    | inr loud ↦ rw loud refl
    | inl quiet ↦ elim (Bool-cases (name == "list")) [
      | inl list ↦ rw (quiet, list) refl
      | inr other ↦ rw (quiet, other) refl
    ]
  ]

  answer-Ignores :
      (name : String) (id : Option String) (o : Outcome) → Ignores (answer python name id o)
  unfolding answer refuse send
  answer-Ignores name id worked topics d = refl
  answer-Ignores name id (refuses r) topics d = refl
  answer-Ignores name id (raised kind words) topics d = refl

  handled-Ignores :
      (name : String) (handler : Handler) (words : String) (id : Option String)
      → Ignores (handled python bridge name handler words mqtt false id)
  unfolding handled
  handled-Ignores name handler words id topics d = elim (Option-cases (bridge.doors name)) [
    | inl open_doors ↦
        rw (open_doors, handled)
          (answer-Ignores name id (handler d.current_id words mqtt false) topics d)
    | inr (sentence, closed) ↦
        rw (closed, handled) (closed_doors-Ignores name (doors_refusal name sentence) id topics d)
  ]

  run_named-Ignores :
      (name : String) (found : Option Handler) (words : String) (id : Option String)
      → Ignores (run_named python bridge name found words mqtt false id)
  unfolding run_named execute refuse send
  run_named-Ignores name none words id topics d = refl
  run_named-Ignores name (some handler) words id topics d =
      rw (handled-Ignores name handler words id topics (record d { current_id = id })) refl

  note_problem-notes :
      (problem : Option Problem) (topics : List String) (d : Dispatcher)
      → note_problem problem (with_notes topics d) ≡ with_notes topics (note_problem problem d)
  unfolding note_problem
  note_problem-notes none topics d = refl
  note_problem-notes (some problem) topics d = refl

  handle_command-notes :
      (name : String) (payload : Option Bytes) (topics : List String) (d : Dispatcher)
      → (handle_command python bridge name payload (with_notes topics d)).1
        ≡ with_notes topics (handle_command python bridge name payload d).1
  unfolding handle_command send
  handle_command-notes name payload topics d = elim (Bool-cases (name == "relay")) [
    | inl relay ↦ rw relay refl
    | inr command ↦
        let u : Unwrapped = unwrap python (python.decode payload) in
        rw
          (
            command,
            note_problem-notes u.problem topics d,
            run_named-Ignores name (bridge.handlers name) u.payload u.command_id topics
                (note_problem u.problem d),
          )
          refl
  ]

  -- One message: it is live and keeps the notes, or it leaves all but the notes as it is.
  handle-notes :
      (topic : String) (payload : Option Bytes) (retain : Bool) (topics : List String)
      (d : Dispatcher)
      → let m : Message = record { topic = topic; payload = payload; retain = retain } in
        let after = λ (e : Dispatcher). (handle python bridge topic payload retain e).1 in
        ((is_live m ≡ true)
          × (noted (m ∷ []) topics ≡ topics)
          × (after (with_notes topics d) ≡ with_notes topics (after d)))
        ⊎ ((is_live m ≡ false)
            × (after (with_notes topics d) ≡ with_notes (noted (m ∷ []) topics) d))
  unfolding handle handle_named
  handle-notes topic payload retain topics d = elim (Option-cases (bridge.command_name topic)) [
    | inl unnamed ↦ rw (unnamed, handle) (inr (refl, refl))
    | inr (name, named) ↦ elim (Bool-cases retain) [
      | inl kept ↦ rw (named, kept, handle) (inr (refl, refl))
      | inr fresh ↦ elim (Bool-cases (ltb max_payload_bytes (payload_size payload))) [
        | inl big ↦
            let large : leb (payload_size payload) max_payload_bytes ≡ false = ground arith in
            rw (named, fresh, big, large, handle) (inr (refl, refl))
        | inr small ↦
            let fits : leb (payload_size payload) max_payload_bytes ≡ true = ground arith in
            rw (named, fresh, small, fits, handle)
              (inl (refl, refl, handle_command-notes name payload topics d))
      ]
    ]
  ]

  live-notes :
      (messages : List Message) (topics : List String) (d : Dispatcher)
      → handle_all messages (with_notes topics d)
        ≡ with_notes (noted messages topics) (handle_all (live messages) d)
  live-notes [] topics d = refl
  live-notes (m ∷ ms) topics d = elim (handle-notes m.topic m.payload m.retain topics d) [
    | inl (alive, same, after) ↦
        rw (alive, same, after)
          (live-notes ms topics (handle python bridge m.topic m.payload m.retain d).1)
    | inr (dead, after) ↦ rw (dead, after) (live-notes ms (noted (m ∷ []) topics) d)
  ]

  -- However many messages lie between the commands that are retained, over 4096 bytes or on no
  -- command's topic, a run of messages leaves what its other messages leave by themselves: the same is
  -- sent, in the same order, with the same problems noted and the same current id. Only the topics of
  -- those that were retained are noted, the newest first.
  pub handle_all-live :
      (messages : List Message) (d : Dispatcher)
      → handle_all messages d ≡ record (handle_all (live messages) d) {
        discarded_retained = noted messages d.discarded_retained;
      }
  handle_all-live messages d = live-notes messages d.discarded_retained d
