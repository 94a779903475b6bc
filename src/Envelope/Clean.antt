-- ===== src/Envelope/Clean.antt =====
-- The ids that come out of an envelope.
use mathlib.Core.Path.{subst}
use mathlib.Core.Option.{some-ne-none, some-injective}
use enigma2_mqtt_bridge.Common.{
  ◌≤◌, ◌≡◌, ◌≢◌, sym, inl, inr, true, Option, none, some, String, ◌==◌, string_eq, eq_of_test,
  ne_of_test, length, ltb, all, arith, Bool-cases, Option-cases,
}
use enigma2_mqtt_bridge.Common.Text.{codes}
use enigma2_mqtt_bridge.Json.{Value, str}
use enigma2_mqtt_bridge.Envelope.{
  command_id_limit, Python, is_id_character, text_problem, id_problem, id_of, open_envelope,
  unwrap_envelope, unwrap,
}

module _ (python : Python) where
  -- An id that may be said back.
  pub record IsClean (id : String) : Type 0 where
    pub nonempty : id ≢ ""
    pub short : length (codes id) ≤ command_id_limit
    pub spelled : all is_id_character (codes id) ≡ true
    pub not_secret : python.redact id ≡ id

  text_problem-IsClean : (id : String) → text_problem python id ≡ none → IsClean id
  unfolding text_problem
  text_problem-IsClean id h = elim (Bool-cases (id == "")) [
    | inl is_empty ↦ absurd (some-ne-none _ (rw is_empty at h))
    | inr filled ↦ elim (Bool-cases (ltb command_id_limit (length (codes id)))) [
      | inl long ↦ absurd (some-ne-none _ (rw (filled, long) at h))
      | inr short ↦ elim (Bool-cases (all is_id_character (codes id))) [
        | inr wrong ↦ absurd (some-ne-none _ (rw (filled, short, wrong) at h))
        | inl spelled ↦ elim (Bool-cases (python.redact id == id)) [
          | inr held ↦ absurd (some-ne-none _ (rw (filled, short, spelled, held) at h))
          | inl free ↦ record {
            nonempty = ne_of_test id "" filled;
            short = ground arith;
            spelled = spelled;
            not_secret = eq_of_test _ _ free;
          }
        ]
      ]
    ]
  ]

  id_of-IsClean :
      (value : Value) (id : String) → id_of (id_problem python value) value ≡ some id → IsClean id
  unfolding id_problem
  id_of-IsClean (str value) id h = elim (Option-cases (text_problem python value)) [
    | inl none_found ↦
        subst IsClean (some-injective _ _ (rw none_found at h))
          (text_problem-IsClean value none_found)
    | inr (problem, found) ↦ absurd (some-ne-none _ (sym (rw found at h)))
  ]
  id_of-IsClean _ id h = absurd (some-ne-none _ (sym h))

  open_envelope-IsClean :
      (arrived id : String) (value : Value) (payload : Option String)
      → (open_envelope python arrived value payload).command_id ≡ some id
      → IsClean id
  unfolding open_envelope
  open_envelope-IsClean arrived id value none h = absurd (some-ne-none _ (sym h))
  open_envelope-IsClean arrived id value (some payload) h =
      elim (Bool-cases (python.encodable payload)) [
        | inl fits ↦ id_of-IsClean value id (rw fits at h)
        | inr broken ↦ absurd (some-ne-none _ (sym (rw broken at h)))
      ]

  unwrap_envelope-IsClean :
      (arrived id : String) (found : Option (Value × Value))
      → (unwrap_envelope python arrived found).command_id ≡ some id
      → IsClean id
  unfolding unwrap_envelope
  unwrap_envelope-IsClean arrived id none h = absurd (some-ne-none _ (sym h))
  unwrap_envelope-IsClean arrived id (some (value, payload)) h =
      open_envelope-IsClean arrived id value _ h

  -- An id that comes out of an envelope may be said back: it is not empty, has at most 64 characters,
  -- each of them one of the allowed ones, and holds no registered secret, since redacting it
  -- changes nothing.
  pub unwrap-IsClean :
      (arrived id : String) → (unwrap python arrived).command_id ≡ some id → IsClean id
  unfolding unwrap
  unwrap-IsClean arrived id h = elim (Bool-cases (python.opens_object (python.strip arrived))) [
    | inl opens ↦ unwrap_envelope-IsClean arrived id _ (rw opens at h)
    | inr other ↦ absurd (some-ne-none _ (sym (rw other at h)))
  ]
