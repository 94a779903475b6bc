-- ===== src/MqttClient/Late.antt =====
-- A connect takes the events that were not acknowledged out of the queue, and nothing else.
use mathlib.Core.Option.{some-injective}
use enigma2_mqtt_bridge.Common.{
  ℕ, ◌≡◌, ◌≢◌, refl, ap, ◌∙◌, inl, inr, Bool, true, false, ◌&&◌, ◌||◌, Option, none, some, List, [],
  ◌∷◌, eqb, ◌==◌, nat_eq, option_eq, if◌then◌else◌, arith, Bool-cases, Option-cases, All,
}
use enigma2_mqtt_bridge.Common.Dict.{
  lookup, insert, lookup-erase, lookup-insert_self, lookup-insert_ne,
}
use enigma2_mqtt_bridge.MqttClient.{
  Info, Message, Paho, is_other, without, withdraw, withdraw_publish, Tracked, unsettled,
  is_refused, track_transient, drop_all, drop_transient,
}

-- What stands in the queue under a mid; a client without a queue has nothing.
abbrev pub queued : ℕ → Option Paho → Option Message
queued mid none = none
queued mid (some paho) = lookup mid paho.out_messages

abbrev pub is_mid : Option ℕ → ℕ → Bool
is_mid none mid = false
is_mid (some key) mid = eqb key mid

-- Whether an event of the list is the one with this mid and identity.
abbrev pub names : ℕ → ℕ → Tracked → Bool
names mid identity [] = false
names mid identity ((key, info) ∷ tracked) =
    is_mid info.mid mid && eqb info.identity identity || names mid identity tracked

withdraw-queued :
    (key identity mid owner : ℕ) (message : Message) (paho : Paho)
    → lookup mid paho.out_messages ≡ some message
    → message.owner ≡ some owner
    → lookup mid (withdraw key identity paho).1.out_messages
      ≡ (if eqb key mid && eqb identity owner then none else some message)
unfolding withdraw without is_other
withdraw-queued key identity mid owner message paho there owned =
    ground (arith, lookup-erase mid key paho.out_messages, there, owned)

withdraw-nothing :
    (key identity mid : ℕ) (paho : Paho)
    → lookup mid paho.out_messages ≡ none
    → lookup mid (withdraw key identity paho).1.out_messages ≡ none
unfolding withdraw without
withdraw-nothing key identity mid paho h = ground (arith, lookup-erase mid key paho.out_messages, h)

withdraw_publish-queued :
    (info : Info) (mid owner : ℕ) (message : Message) (client : Option Paho)
    → queued mid client ≡ some message
    → message.owner ≡ some owner
    → queued mid (withdraw_publish info client).1
      ≡ (if is_mid info.mid mid && eqb info.identity owner then none else some message)
unfolding withdraw_publish
withdraw_publish-queued info mid owner message none there owned = cc
withdraw_publish-queued info mid owner message (some paho) there owned =
    elim (Option-cases info.mid) [
      | inl none_known ↦ rw none_known there
      | inr (key, known) ↦
          rw known (withdraw-queued key info.identity mid owner message paho there owned)
    ]

withdraw_publish-nothing :
    (info : Info) (mid : ℕ) (client : Option Paho)
    → queued mid client ≡ none
    → queued mid (withdraw_publish info client).1 ≡ none
unfolding withdraw_publish
withdraw_publish-nothing info mid none h = refl
withdraw_publish-nothing info mid (some paho) h = elim (Option-cases info.mid) [
  | inl none_known ↦ rw none_known h
  | inr (key, known) ↦ rw known (withdraw-nothing key info.identity mid paho h)
]

drop_all-nothing :
    (tracked : Tracked) (mid : ℕ) (client : Option Paho)
    → queued mid client ≡ none
    → queued mid (drop_all tracked client).1 ≡ none
unfolding drop_all
drop_all-nothing [] mid client h = h
drop_all-nothing ((key, info) ∷ tracked) mid client h =
    drop_all-nothing tracked mid (withdraw_publish info client).1
      (withdraw_publish-nothing info mid client h)

drop_all-queued :
    (tracked : Tracked) (mid owner : ℕ) (message : Message) (client : Option Paho)
    → queued mid client ≡ some message
    → message.owner ≡ some owner
    → queued mid (drop_all tracked client).1
      ≡ (if names mid owner tracked then none else some message)
unfolding drop_all
drop_all-queued [] mid owner message client there owned = there
drop_all-queued ((key, info) ∷ tracked) mid owner message client there owned =
    let step = withdraw_publish-queued info mid owner message client there owned in
    elim (Bool-cases (is_mid info.mid mid && eqb info.identity owner)) [
      | inl named ↦
          rw named
            (drop_all-nothing tracked mid (withdraw_publish info client).1 (rw named at step))
      | inr other ↦ rw other (
          drop_all-queued tracked mid owner message (withdraw_publish info client).1
            (rw other at step) owned)
    ]

-- When a connection is made, exactly the tracked events leave paho's queue before it is sent again: a
-- message that stands there with its `info` goes if that is a tracked one's, and stays as it is if
-- not; and nothing is tracked afterwards.
pub drop_transient-exact :
    (tracked : Tracked) (mid owner : ℕ) (message : Message) (client : Option Paho)
    → queued mid client ≡ some message
    → message.owner ≡ some owner
    → let after = (drop_transient tracked client).1 in
      (after.0 ≡ [])
      × (queued mid after.1 ≡ (if names mid owner tracked then none else some message))
unfolding drop_transient
drop_transient-exact tracked mid owner message client there owned =
    (refl, drop_all-queued tracked mid owner message client there owned)

-- What was tracked later: whether each was settled then, and the publish.
abbrev pub track_all : List ((Info → Bool) × Info) → Tracked → Tracked
track_all [] tracked = tracked
track_all ((settled, info) ∷ later) tracked = track_all later (track_transient settled info tracked)

kept_apart :
    (settled : Info → Bool) (mid key : ℕ) (other info : Info) (tracked : Tracked)
    → (mid == key) ≡ false
    → lookup mid (unsettled settled tracked) ≡ some info
    → lookup mid (unsettled settled ((key, other) ∷ tracked)) ≡ some info
unfolding unsettled lookup
kept_apart settled mid key other info tracked differs h = elim (Bool-cases (settled other)) [
  | inl done ↦ rw (done, unsettled) h
  | inr open_still ↦ rw (open_still, differs, unsettled, lookup) h
]

other_mid : (key mid : ℕ) → eqb key mid ≡ false → mid ≢ key
other_mid key mid h = ground arith

here : (mid identity : ℕ) (b : Bool) → (eqb mid mid && eqb identity identity || b) ≡ true
here mid identity b = ground arith

or_true : (a b : Bool) → b ≡ true → (a || b) ≡ true
or_true a b h = ground arith

if_true : (b : Bool) (x : Option Message) → b ≡ true → (if b then none else x) ≡ none
if_true b x h = rw h refl

lookup-unsettled :
    (settled : Info → Bool) (mid : ℕ) (info : Info) (tracked : Tracked)
    → settled info ≡ false
    → lookup mid tracked ≡ some info
    → lookup mid (unsettled settled tracked) ≡ some info
unfolding unsettled lookup
lookup-unsettled settled mid info [] open_still h = h
lookup-unsettled settled mid info ((key, other) ∷ tracked) open_still h =
    elim (Bool-cases (mid == key)) [
      | inl same ↦
          let e : other ≡ info = some-injective _ _ (rw (same, lookup) at h) in
          rw (e, open_still, same, lookup) refl
      | inr differs ↦
          kept_apart settled mid key other info tracked differs
            (lookup-unsettled settled mid info tracked open_still (rw (differs, lookup) at h))
    ]

track_transient-sent :
    (settled : Info → Bool) (info : Info) (mid : ℕ) (tracked : Tracked)
    → info.mid ≡ some mid
    → is_refused info ≡ false
    → track_transient settled info tracked ≡ insert mid info (unsettled settled tracked)
unfolding track_transient
track_transient-sent settled info mid tracked at_mid sent = cc

lookup-track_transient :
    (settled : Info → Bool) (mid : ℕ) (info other : Info) (tracked : Tracked)
    → settled info ≡ false
    → is_mid other.mid mid ≡ false
    → lookup mid tracked ≡ some info
    → lookup mid (track_transient settled other tracked) ≡ some info
unfolding track_transient
lookup-track_transient settled mid info other tracked open_still apart h =
    elim (Option-cases other.mid) [
      | inl none_known ↦ rw none_known h
      | inr (key, known) ↦ elim (Bool-cases (is_refused other)) [
        | inl refused ↦ rw (known, refused) h
        | inr sent ↦
            ap (lookup mid) (track_transient-sent settled other key tracked known sent)
            ∙ lookup-insert_ne mid key other (unsettled settled tracked)
                (other_mid key mid (rw known at apart))
            ∙ lookup-unsettled settled mid info tracked open_still h
      ]
    ]

lookup-track_all :
    (later : List ((Info → Bool) × Info)) (mid : ℕ) (info : Info) (tracked : Tracked)
    → All (λ step. (step.0 info ≡ false) × (is_mid step.1.mid mid ≡ false)) later
    → lookup mid tracked ≡ some info
    → lookup mid (track_all later tracked) ≡ some info
lookup-track_all [] mid info tracked steps h = h
lookup-track_all ((settled, other) ∷ later) mid info tracked (step, steps) h =
    lookup-track_all later mid info (track_transient settled other tracked) steps
      (lookup-track_transient settled mid info other tracked step.0 step.1 h)

names-lookup :
    (mid : ℕ) (info : Info) (tracked : Tracked)
    → info.mid ≡ some mid
    → lookup mid tracked ≡ some info
    → names mid info.identity tracked ≡ true
unfolding lookup
names-lookup mid info [] at_mid h = cc
names-lookup mid info ((key, other) ∷ tracked) at_mid h = elim (Bool-cases (mid == key)) [
  | inl same ↦
      let e : other ≡ info = some-injective _ _ (rw (same, lookup) at h) in
      rw (e, at_mid) (here mid info.identity _)
  | inr differs ↦ or_true _ _ (names-lookup mid info tracked at_mid (rw (differs, lookup) at h))
]

-- An event that was handed to paho is not sent again after a connection is made, whatever was handed over
-- after it: if the broker never acknowledged it and no later event got its message id, and its message
-- still stands in paho's queue, the connect takes it out.
pub drop_transient-drops :
    (settled : Info → Bool) (info : Info) (mid : ℕ) (tracked : Tracked)
    (later : List ((Info → Bool) × Info)) (message : Message) (client : Option Paho)
    → info.mid ≡ some mid
    → is_refused info ≡ false
    → All (λ step. (step.0 info ≡ false) × (is_mid step.1.mid mid ≡ false)) later
    → queued mid client ≡ some message
    → message.owner ≡ some info.identity
    → queued mid
        (drop_transient (track_all later (track_transient settled info tracked)) client).1.1
      ≡ none
unfolding track_transient
drop_transient-drops settled info mid tracked later message client at_mid sent steps there owned =
    let known = lookup-track_all later mid info (track_transient settled info tracked) steps (
      ap (lookup mid) (track_transient-sent settled info mid tracked at_mid sent)
      ∙ lookup-insert_self mid info (unsettled settled tracked)) in
    let last = track_all later (track_transient settled info tracked) in
    (drop_transient-exact last mid info.identity message client there owned).1
    ∙ if_true _ _ (names-lookup mid info last at_mid known)
