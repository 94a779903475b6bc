-- ===== src/Retained/Topics.antt =====
-- What the state file knows and what was last published, topic by topic.
use mathlib.Core.Option.{some-injective, none-ne-some}
use enigma2_mqtt_bridge.Common.{
  ◌≡◌, ◌≢◌, sym, ap, ◌∙◌, inl, inr, true, false, ◌||◌, some, List, [], ◌∷◌, String, contains,
  if◌then◌else◌, ◌==◌, string_eq, option_eq, arith, Bool-cases, eq_of_test, ne_of_test,
}
use enigma2_mqtt_bridge.Common.Dict.{
  Dict, lookup, insert, erase, lookup-insert, lookup-erase, lookup-nil, lookup-insert_self,
  lookup-insert_ne,
}
use enigma2_mqtt_bridge.Retained.{Bridge, remember, forget}

contains-remember :
    (other topic : String) (known : List String)
    → (topic == "") ≡ false
    → contains other (remember topic known) ≡ (other == topic || contains other known)
unfolding remember
contains-remember other topic known named = ground arith

contains-forget :
    (other topic : String) (known : List String)
    → contains other (forget topic known) ≡ (if topic == other then false else contains other known)
unfolding forget
contains-forget other topic [] = ground arith
contains-forget other topic (t ∷ known) = ground (arith, contains-forget other topic known)

insert_here :
    (t topic payload : String) (sent : Dict String String)
    → (t == topic) ≡ true
    → lookup t (insert topic payload sent) ≡ some payload
insert_here t topic payload sent h = ground (arith, lookup-insert t topic payload sent)

pub nothing_said : (topic value : String) → lookup topic [] ≢ some value
nothing_said topic value e = none-ne-some value (sym (lookup-nil topic) ∙ e)

empty_said : (p : String) → "" ≡ p → (p == "") ≢ false
empty_said p h n = ground (arith, h, n)

apart :
    (t topic : String) (known : List String)
    → (t == topic) ≡ false
    → (if topic == t then false else contains t known) ≡ contains t known
apart t topic known h = ground arith

erased :
    (t topic key : String) (published : Dict String String)
    → (t == topic) ≡ true
    → lookup t (erase topic published) ≢ some key
erased t topic key published h e = ground (arith, lookup-erase t topic published)

pub kept :
    (t topic key : String) (published : Dict String String)
    → (t == topic) ≡ false
    → lookup t (erase topic published) ≡ some key
    → lookup t published ≡ some key
kept t topic key published h e = ground (arith, lookup-erase t topic published)

-- Each topic that was last given a payload is known to the state file.
abbrev pub Tracks : List String → Dict String String → Type 0
Tracks known sent =
    (topic payload : String)
    → lookup topic sent ≡ some payload
    → (payload == "") ≡ false
    → contains topic known ≡ true

pub Tracks-insert :
    (topic payload : String) (known : List String) (sent : Dict String String)
    → (topic == "") ≡ false
    → Tracks known sent
    → Tracks (remember topic known) (insert topic payload sent)
Tracks-insert topic payload known sent named h t p e n =
    ground (arith, contains-remember t topic known named, lookup-insert t topic payload sent, h t p)

-- A topic that was given an empty payload may be forgotten.
pub Tracks-forget :
    (topic : String) (known : List String) (sent : Dict String String)
    → Tracks known sent
    → Tracks (forget topic known) (insert topic "" sent)
Tracks-forget topic known sent h t p e n = elim (Bool-cases (t == topic)) [
  | inl same ↦
      absurd (empty_said p (some-injective _ _ (sym (insert_here t topic "" sent same) ∙ e)) n)
  | inr differs ↦
      contains-forget t topic known
      ∙ apart t topic known differs
      ∙ h t p (sym (lookup-insert_ne t topic "" sent (ne_of_test _ _ differs)) ∙ e) n
]

module _ (key_of : String → String → String) where
  -- What the next comparison is made with belongs to the payload that was last given.
  abbrev pub Agrees : Dict String String → Dict String String → Type 0
  Agrees published sent =
      (topic key : String)
      → lookup topic published ≡ some key
      → (payload : String) × (lookup topic sent ≡ some payload) × (key_of topic payload ≡ key)

  pub Agrees-insert :
      (topic payload : String) (published sent : Dict String String)
      → Agrees published sent
      → Agrees (insert topic (key_of topic payload) published) (insert topic payload sent)
  Agrees-insert topic payload published sent h t k e = elim (Bool-cases (t == topic)) [
    | inl same ↦
        let q : t ≡ topic = eq_of_test _ _ same in
        (
          payload,
          ap (λ x. lookup x (insert topic payload sent)) q ∙ lookup-insert_self topic payload sent,
          ap (λ x. key_of x payload) q
              ∙ some-injective _ _ (
                  sym (lookup-insert_self topic (key_of topic payload) published)
                  ∙ ap (λ x. lookup x (insert topic (key_of topic payload) published)) (sym q)
                  ∙ e),
        )
    | inr differs ↦
        let ne = ne_of_test _ _ differs in
        let (p, there, its) =
          h t k (sym (lookup-insert_ne t topic (key_of topic payload) published ne) ∙ e) in
        (p, lookup-insert_ne t topic payload sent ne ∙ there, its)
  ]

  pub Agrees-erase :
      (topic : String) (published sent sent' : Dict String String)
      → ((t : String) → t ≢ topic → lookup t sent' ≡ lookup t sent)
      → Agrees published sent
      → Agrees (erase topic published) sent'
  Agrees-erase topic published sent sent' same h t k e = elim (Bool-cases (t == topic)) [
    | inl at ↦ absurd (erased t topic k published at e)
    | inr differs ↦
        let ne = ne_of_test _ _ differs in
        let (p, there, its) = h t k (kept t topic k published differs e) in
        (p, same t ne ∙ there, its)
  ]

  pub record IsConsistent (b : Bridge) : Type 0 where
    pub tracked : Tracks b.known b.sent
    pub current : Agrees b.published b.sent
