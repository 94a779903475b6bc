-- ===== src/Commands/Answers.antt =====
-- What the dispatcher promises of each command.
use Prim.Native.String.{◌++◌ as ◌<>◌}
use enigma2_mqtt_bridge.Common.{
  ◌≤◌, ◌≡◌, refl, ◌⊎◌, inl, inr, Bool, true, false, Option, none, some, [], ◌∷◌, ◌++◌, String, ◌==◌,
  string_eq, ltb, arith, Bool-cases, Option-cases, eq_of_test,
}
use enigma2_mqtt_bridge.Ed25519.{Bytes}
use enigma2_mqtt_bridge.Envelope.{Python, Problem, Unwrapped, unwrap}
use enigma2_mqtt_bridge.Commands.{
  max_payload_bytes, Origin, mqtt, Refusal, Outcome, worked, refuses, raised, last_error,
  unretained, cleared, Dispatcher, Handler, Bridge, send, refuse, plain, closed_doors,
  doors_refusal, answer, handled, execute, run_named, note_problem, handle_command, handle_named,
  handle, payload_size,
}

module _ (python : Python) where
  module _ (bridge : Bridge) (name : String) (id : Option String) where
    -- The refusal of a command: it is returned, and sent as its `last_error` under its id.
    abbrev pub IsRefused : Refusal → Dispatcher → Option Refusal × Dispatcher → Type 0
    IsRefused r d result =
        (result.0 ≡ some r) × (result.1.sent ≡ d.sent ++ (last_error name r id ∷ []))

    -- What is said of the outcome of a handler.
    abbrev pub IsSaid : Outcome → Dispatcher → Option Refusal × Dispatcher → Type 0
    IsSaid outcome d result =
        ((outcome ≡ worked) × (result.0 ≡ none) × (result.1.sent ≡ d.sent ++ (cleared ∷ [])))
        ⊎ ((r : Refusal) × ((outcome ≡ refuses r)
              ⊎ ((kind : String) × (words : String) × (outcome ≡ raised kind words)
                  × (r ≡ record {
                    sentence = kind <> (": " <> python.redact words);
                    reason = none;
                  })))
            × IsRefused r d result)

    -- What is said of a command whose doors are closed.
    abbrev pub IsShut : String → Dispatcher → Option Refusal × Dispatcher → Type 0
    IsShut sentence d result =
        (r : Refusal) × (r.sentence ≡ sentence)
        × (result.0 ≡ some r)
        × (((bridge.silent ≡ false) × IsRefused r d result)
            ⊎ ((bridge.silent ≡ true)
                × (name ≡ "list")
                × (result.1.sent ≡ d.sent ++ (unretained name r id ∷ [])))
            ⊎ ((bridge.silent ≡ true) × ((name == "list") ≡ false) × (result.1.sent ≡ d.sent)))

    module _ (handler : Handler) (words : String) (origin : Origin) (consents : Bool) where
      -- Before and after one command that has a handler.
      abbrev pub IsAnswered : Dispatcher → Option Refusal × Dispatcher → Type 0
      IsAnswered d result =
          (result.1.current_id ≡ d.current_id)
          × (((bridge.doors name ≡ none) × IsSaid (handler id words origin consents) d result)
              ⊎ ((sentence : String) × (bridge.doors name ≡ some sentence)
                  × IsShut sentence d result))

    -- A command that is run, or is not known.
    abbrev pub IsRun :
        Option Handler → String → Origin → Bool → Dispatcher → Option Refusal × Dispatcher → Type 0
    IsRun found words origin consents d result =
        ((found ≡ none)
          × (result.1.current_id ≡ d.current_id)
          × IsRefused (record { sentence = "unknown command"; reason = none }) d result)
        ⊎ ((handler : Handler) × (found ≡ some handler)
            × IsAnswered handler words origin consents d result)

    doors_sentence : (sentence : String) → (doors_refusal name sentence).sentence ≡ sentence
    unfolding doors_refusal plain
    doors_sentence sentence = ground arith

    closed_doors-IsShut :
        (sentence : String) (d : Dispatcher)
        → IsShut sentence d (closed_doors bridge name (doors_refusal name sentence) id d)
    unfolding closed_doors send refuse
    closed_doors-IsShut sentence d = elim (Bool-cases bridge.silent) [
      | inr loud ↦ rw loud (_, doors_sentence sentence, refl, inl (refl, (refl, refl)))
      | inl quiet ↦ elim (Bool-cases (name == "list")) [
        | inl list ↦
            rw (quiet, list)
              (_, doors_sentence sentence, refl, inr (inl (refl, eq_of_test _ _ list, refl)))
        | inr other ↦
            rw (quiet, other) (_, doors_sentence sentence, refl, inr (inr (refl, refl, refl)))
      ]
    ]

    answer-IsSaid :
        (outcome : Outcome) (d : Dispatcher) → IsSaid outcome d (answer python name id outcome d)
    unfolding answer send refuse plain
    answer-IsSaid worked d = inl (refl, refl, refl)
    answer-IsSaid (refuses r) d = inr (r, inl refl, (refl, refl))
    answer-IsSaid (raised kind words) d = inr (_, inr (kind, words, refl, refl), (refl, refl))

    handled-IsSaid :
        (handler : Handler) (words : String) (origin : Origin) (consents : Bool) (d : Dispatcher)
        → let result = handled python bridge name handler words origin consents id d in
          ((bridge.doors name ≡ none)
            × IsSaid (handler d.current_id words origin consents) d result)
          ⊎ ((sentence : String) × (bridge.doors name ≡ some sentence) × IsShut sentence d result)
    unfolding handled
    handled-IsSaid handler words origin consents d = elim (Option-cases (bridge.doors name)) [
      | inl open_doors ↦
          rw (open_doors, handled)
            (inl (refl, answer-IsSaid (handler d.current_id words origin consents) d))
      | inr (sentence, closed) ↦
          rw (closed, handled) (inr (sentence, refl, closed_doors-IsShut sentence d))
    ]

    -- A command that is run is answered for what its handler did, which sees the command's own id; after
    -- it the id is the one before it. If the doors are open, one message is sent: it clears `last_error`
    -- when the handler worked, and carries the refusal or the exception's words, redacted, under the
    -- command's id when it did not, which is also what is returned. If they are closed their sentence is
    -- returned, and sent likewise; only an update that has made the plugin silent sends it unretained,
    -- for a `list`, or not at all.
    pub execute-IsAnswered :
        (handler : Handler) (words : String) (origin : Origin) (consents : Bool) (d : Dispatcher)
        → IsAnswered handler words origin consents d
            (execute python bridge name handler words origin consents id d)
    unfolding execute
    execute-IsAnswered handler words origin consents d =
        (refl, handled-IsSaid handler words origin consents (record d { current_id = id }))

    run_named-IsRun :
        (found : Option Handler) (words : String) (origin : Origin) (consents : Bool)
        (d : Dispatcher)
        → IsRun found words origin consents d
            (run_named python bridge name found words origin consents id d)
    unfolding run_named refuse send plain
    run_named-IsRun none words origin consents d = inl (refl, refl, (refl, refl))
    run_named-IsRun (some handler) words origin consents d =
        inr (handler, refl, execute-IsAnswered handler words origin consents d)

  -- What `handle` leaves of a command from the broker.
  abbrev pub IsHandled : Bridge → String → String → Dispatcher → Bool × Dispatcher → Type 0
  IsHandled bridge name arrived d result =
      (refusal : Option Refusal) × IsRun bridge name (unwrap python arrived).command_id
        (bridge.handlers name) (unwrap python arrived).payload mqtt false d (refusal, result.1)
      × (result.0 ≡ elim refusal [ none ↦ true | some _ ↦ false ])

  note_problem-IsRun :
      (bridge : Bridge) (name : String) (id : Option String) (found : Option Handler)
      (words : String) (problem : Option Problem) (d : Dispatcher) (r : Option Refusal × Dispatcher)
      → IsRun bridge name id found words mqtt false (note_problem problem d) r
      → IsRun bridge name id found words mqtt false d r
  unfolding note_problem
  note_problem-IsRun bridge name id found words none d r h = h
  note_problem-IsRun bridge name id found words (some problem) d r h = h

  -- A message of the broker that is not retained, is not over 4096 bytes and is not `relay` is run as
  -- the command of its envelope: a name without a handler is refused as unknown, and any other is
  -- answered for what its handler did with the envelope's payload, or for its closed doors, under the
  -- id of the envelope if that may be said back and under none if not. The result is whether the
  -- command worked.
  pub handle-IsHandled :
      (bridge : Bridge) (topic name : String) (payload : Option Bytes) (d : Dispatcher)
      → bridge.command_name topic ≡ some name
      → payload_size payload ≤ max_payload_bytes
      → (name == "relay") ≡ false
      → IsHandled bridge name (python.decode payload) d (handle python bridge topic payload false d)
  unfolding handle handle_named handle_command
  handle-IsHandled bridge topic name payload d named fits command =
      let small : ltb max_payload_bytes (payload_size payload) ≡ false = ground arith in
      let u : Unwrapped = unwrap python (python.decode payload) in
      let r : Option Refusal × Dispatcher =
        run_named python bridge name (bridge.handlers name) u.payload mqtt false u.command_id
          (note_problem u.problem d) in
      rw (named, handle, small, command)
        (
          r.0,
          note_problem-IsRun bridge name u.command_id (bridge.handlers name) u.payload u.problem d r
              (run_named-IsRun bridge name u.command_id (bridge.handlers name) u.payload mqtt false
                (note_problem u.problem d)),
          refl,
        )
