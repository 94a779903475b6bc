-- ===== src/Log/Hidden.antt =====
-- No secret that was registered reaches the log.
use mathlib.Core.Path.{subst}
use enigma2_mqtt_bridge.Common.{
  ℕ, zero, suc, ◌-◌, ◌≡◌, ◌≢◌, refl, sym, ◌∙◌, ◌⊎◌, inl, inr, true, false, not, ◌&&◌, Option, none,
  some, List, [], ◌∷◌, ◌++◌, length, all, contains, eqb, ◌==◌, arith, Bool-cases, Option-cases,
  eq_of_test,
}
use enigma2_mqtt_bridge.Common.Sorting.{sort_by, contains-sort_by}
use enigma2_mqtt_bridge.Trust.Keys.{bytes_eq}
use enigma2_mqtt_bridge.Log.{
  Text, redacted, has_text, register_secret, starts_with, occurs, replace_from, is_empty,
  replace_secret, scrub, longer_first, redact, format_line, log_line,
}

-- A secret without the mark's own character.
abbrev pub IsStarless : Text → Type 0
IsStarless text = all (λ c. not (eqb c b'*')) text ≡ true

true-ne-false : true ≢ false
true-ne-false h = cc

not_a_mark :
    (x : ℕ) (part rest : Text) → IsStarless (x ∷ part) → starts_with (x ∷ part) (b'*' ∷ rest) ≢ true
unfolding starts_with
not_a_mark x part rest plain h = ground arith

-- What starts a text with its secrets marked started the text.
starts_with-replace_from :
    (old part text : Text)
    → IsStarless part
    → starts_with part (replace_from old 0 text) ≡ true
    → starts_with part text ≡ true
unfolding starts_with replace_from
starts_with-replace_from old [] text plain h = refl
starts_with-replace_from old (x ∷ part) [] plain h = h
starts_with-replace_from old (x ∷ part) (c ∷ text) plain h =
    elim (Bool-cases (starts_with old (c ∷ text))) [
      | inl found ↦ absurd (
          not_a_mark x part (b'*' ∷ b'*' ∷ replace_from old (length old - 1) text) plain
            (rw (found, replace_from) at h))
      | inr other ↦
          let k : (eqb x c && starts_with part (replace_from old 0 text)) ≡ true =
            rw (other, replace_from) at h in
          let k' : eqb x c ≡ true = ground arith in
          let k'' : starts_with part (replace_from old 0 text) ≡ true = ground arith in
          let rest = starts_with-replace_from old part text (ground arith) k'' in ground arith
    ]

-- Nothing without a mark starts in one.
marks :
    (x : ℕ) (part rest : Text)
    → IsStarless (x ∷ part)
    → occurs (x ∷ part) rest ≡ false
    → occurs (x ∷ part) (redacted ++ rest) ≡ false
unfolding occurs starts_with
marks x part rest plain h = ground arith

-- A character that starts no match and no occurrence.
not_here :
    (old : Text) (x : ℕ) (part : Text) (c : ℕ) (text : Text)
    → IsStarless (x ∷ part)
    → starts_with old (c ∷ text) ≡ false
    → starts_with (x ∷ part) (c ∷ text) ≡ false
    → occurs (x ∷ part) (replace_from old 0 text) ≡ false
    → occurs (x ∷ part) (c ∷ replace_from old 0 text) ≡ false
unfolding occurs replace_from
not_here old x part c text plain other h rest =
    elim (Bool-cases (starts_with (x ∷ part) (c ∷ replace_from old 0 text))) [
      | inr absent ↦ rw (absent, occurs) rest
      | inl there ↦ absurd (
          true-ne-false (
            sym (
              starts_with-replace_from old (x ∷ part) (c ∷ text) plain
                (rw (other, replace_from) there))
            ∙ h))
    ]

-- What does not occur in a text does not occur in it with another secret marked.
occurs-replace_from :
    (old : Text) (x : ℕ) (part : Text) (skip : ℕ) (text : Text)
    → IsStarless (x ∷ part)
    → occurs (x ∷ part) text ≡ false
    → occurs (x ∷ part) (replace_from old skip text) ≡ false
unfolding occurs starts_with replace_from
occurs-replace_from old x part skip [] plain h = h
occurs-replace_from old x part (suc skip) (c ∷ text) plain h =
    occurs-replace_from old x part skip text plain (ground arith)
occurs-replace_from old x part zero (c ∷ text) plain h =
    elim (Bool-cases (starts_with old (c ∷ text))) [
      | inl found ↦
          rw (found, replace_from)
            (marks x part _ plain
              (occurs-replace_from old x part (length old - 1) text plain (ground arith)))
      | inr other ↦
          rw (other, replace_from)
            (not_here old x part c text plain other (ground arith)
              (occurs-replace_from old x part 0 text plain (ground arith)))
    ]

-- The secret that is marked does not occur any more.
occurs-replace_from_self :
    (x : ℕ) (secret : Text) (skip : ℕ) (text : Text)
    → IsStarless (x ∷ secret)
    → occurs (x ∷ secret) (replace_from (x ∷ secret) skip text) ≡ false
unfolding occurs starts_with replace_from
occurs-replace_from_self x secret skip [] plain = refl
occurs-replace_from_self x secret (suc skip) (c ∷ text) plain =
    occurs-replace_from_self x secret skip text plain
occurs-replace_from_self x secret zero (c ∷ text) plain =
    elim (Bool-cases (starts_with (x ∷ secret) (c ∷ text))) [
      | inl found ↦
          rw (found, replace_from)
            (marks x secret _ plain
              (occurs-replace_from_self x secret (length (x ∷ secret) - 1) text plain))
      | inr other ↦
          rw (other, replace_from)
            (not_here (x ∷ secret) x secret c text plain other other
              (occurs-replace_from_self x secret 0 text plain))
    ]

-- Not empty, and without the mark's own character.
abbrev IsHideable : Text → Type 0
IsHideable secret = (is_empty secret ≡ false) × IsStarless secret

replace_secret-hides :
    (secret text : Text) → IsHideable secret → occurs secret (replace_secret secret text) ≡ false
unfolding replace_secret is_empty
replace_secret-hides [] text h = cc
replace_secret-hides (x ∷ secret) text (some_text, plain) =
    elim (Bool-cases (occurs (x ∷ secret) text)) [
      | inl there ↦ rw (there, replace_secret) (occurs-replace_from_self x secret 0 text plain)
      | inr absent ↦ rw (absent, replace_secret) absent
    ]

replace_secret-keeps_hidden :
    (other secret text : Text)
    → IsHideable secret
    → occurs secret text ≡ false
    → occurs secret (replace_secret other text) ≡ false
unfolding replace_secret is_empty
replace_secret-keeps_hidden other [] text h absent = cc
replace_secret-keeps_hidden other (x ∷ secret) text (some_text, plain) absent =
    elim (Bool-cases (not (is_empty other) && occurs other text)) [
      | inl there ↦
          rw (there, replace_secret) (occurs-replace_from other x secret 0 text plain absent)
      | inr unmarked ↦ rw (unmarked, replace_secret) absent
    ]

scrub-keeps_hidden :
    (secrets : List Text) (secret text : Text)
    → IsHideable secret
    → occurs secret text ≡ false
    → occurs secret (scrub secrets text) ≡ false
unfolding scrub
scrub-keeps_hidden [] secret text h absent = absent
scrub-keeps_hidden (other ∷ secrets) secret text h absent =
    scrub-keeps_hidden secrets secret (replace_secret other text) h
      (replace_secret-keeps_hidden other secret text h absent)

scrub-hides :
    (secrets : List Text) (secret text : Text)
    → IsHideable secret
    → contains secret secrets ≡ true
    → occurs secret (scrub secrets text) ≡ false
unfolding scrub
scrub-hides [] secret text h listed = cc
scrub-hides (other ∷ secrets) secret text h listed = elim (Bool-cases (secret == other)) [
  | inl same ↦ scrub-keeps_hidden secrets secret (replace_secret other text) h (
      subst (λ s. occurs secret (replace_secret s text) ≡ false) (eq_of_test _ _ same)
        (replace_secret-hides secret text h))
  | inr differs ↦ scrub-hides secrets secret (replace_secret other text) h (ground arith)
]

redact-hides :
    (secrets : List Text) (secret text : Text)
    → IsHideable secret
    → contains secret secrets ≡ true
    → occurs secret (redact secrets text) ≡ false
unfolding redact
redact-hides secrets secret text h listed =
    scrub-hides (sort_by longer_first secrets) secret text h
      (contains-sort_by longer_first secret secrets ∙ listed)

-- The secrets after a run of registrations, the last one first.
abbrev pub registered : List (Option Text) → List Text
registered [] = []
registered (value ∷ values) = register_secret value (registered values)

not_blank : (value : Text) → has_text value ≡ true → is_empty value ≡ false
unfolding has_text is_empty
not_blank [] h = sym h
not_blank (c ∷ value) h = refl

register_secret-registers :
    (value : Text) (secrets : List Text)
    → has_text value ≡ true
    → contains value (register_secret (some value) secrets) ≡ true
unfolding register_secret
register_secret-registers value secrets h = ground arith

register_secret-keeps :
    (value : Option Text) (secret : Text) (secrets : List Text)
    → contains secret secrets ≡ true
    → contains secret (register_secret value secrets) ≡ true
unfolding register_secret
register_secret-keeps none secret secrets h = h
register_secret-keeps (some value) secret secrets h = ground arith

registered-keeps :
    (later earlier : List (Option Text)) (secret : Text)
    → contains secret (registered earlier) ≡ true
    → contains secret (registered (later ++ earlier)) ≡ true
registered-keeps [] earlier secret h = h
registered-keeps (value ∷ later) earlier secret h =
    register_secret-keeps value secret _ (registered-keeps later earlier secret h)

format_line-hides :
    (render : Text → Option Text) (stand_in : Text) (secrets : List Text) (message : Option Text)
    (secret : Text)
    → IsHideable secret
    → contains secret secrets ≡ true
    → (occurs secret (format_line render stand_in secrets message) ≡ false)
      ⊎ (format_line render stand_in secrets message ≡ stand_in)
unfolding format_line
format_line-hides render stand_in secrets none secret h listed = inr refl
format_line-hides render stand_in secrets (some message) secret h listed =
    elim (Option-cases (render message)) [
      | inl raised ↦ inr (rw (raised, format_line) refl)
      | inr (line, rendered) ↦
          inl (rw (rendered, format_line) (redact-hides secrets secret line h listed))
    ]

-- A value that was registered, that is not blank and that does not hold the mark's character `*`, is in no
-- line of the log, whatever was registered before and after it and whatever the message and its
-- rendering are; the one other line there is, is the fixed one that stands in for a record that could
-- not be formatted.
pub log_line-hides :
    (render : Text → Option Text) (stand_in : Text) (later earlier : List (Option Text))
    (message : Option Text) (secret : Text)
    → has_text secret ≡ true
    → IsStarless secret
    → let secrets = registered (later ++ (some secret ∷ earlier)) in
      (occurs secret (log_line render stand_in secrets message) ≡ false)
      ⊎ (log_line render stand_in secrets message ≡ stand_in)
unfolding log_line
log_line-hides render stand_in later earlier message secret text plain =
    format_line-hides render stand_in _ _ secret (not_blank secret text, plain)
      (registered-keeps later (some secret ∷ earlier) secret
        (register_secret-registers secret (registered earlier) text))
