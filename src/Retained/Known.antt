-- ===== src/Retained/Known.antt =====
-- The state file knows every topic that may stand on the broker, and a publish that is left out would have
-- said nothing new.
use mathlib.Core.Path.{subst}
use enigma2_mqtt_bridge.Common.{
  ℕ, ◌≡◌, ◌≢◌, sym, inl, inr, Bool, true, false, not, ◌&&◌, ◌||◌, some, List, [], String, contains,
  eqb, if◌then◌else◌, ◌==◌, string_eq, option_eq, arith, Bool-cases, eq_of_test,
}
use enigma2_mqtt_bridge.Common.Dict.{
  Dict, lookup, insert, erase, lookup-insert_self, lookup-insert_ne,
}
use enigma2_mqtt_bridge.Common.Text.{codes}
use enigma2_mqtt_bridge.Retained.{
  Bridge, oversize, is_quiet, is_in_tree, take_back, set_default, withhold, record_sent,
  publish_raw, publish_state, retract, forget_published,
}
use enigma2_mqtt_bridge.Retained.Topics.{
  nothing_said, Tracks, Tracks-insert, Tracks-forget, Agrees, Agrees-insert, Agrees-erase,
  IsConsistent,
}

module _ (key_of : String → String → String) where
  module _ (b : Bridge) (h : IsConsistent key_of b) where
    record_sent-IsConsistent :
        (topic payload : String)
        → (topic == "") ≡ false
        → IsConsistent key_of (record_sent topic payload (key_of topic payload) b)
    unfolding record_sent
    record_sent-IsConsistent topic payload named = record {
      tracked = Tracks-insert topic payload b.known b.sent named h.tracked;
      current = Agrees-insert key_of topic payload b.published b.sent h.current;
    }

    -- Only the topic that is taken back changes.
    take_back-Tracks :
        (taken : Bool) (topic : String)
        → Tracks (take_back taken topic b).known (take_back taken topic b).sent
    unfolding take_back
    take_back-Tracks taken topic = elim (Bool-cases (b.closed || b.silent)) [
      | inl quiet ↦ rw quiet h.tracked
      | inr loud ↦ elim (Bool-cases (not b.connected || not (contains topic b.known))) [
        | inl nothing_there ↦ rw (loud, nothing_there) h.tracked
        | inr there ↦ elim (Bool-cases (not taken)) [
          | inl lost ↦ rw (loud, there, lost) h.tracked
          | inr told ↦ rw (loud, there, told) (Tracks-forget topic b.known b.sent h.tracked)
        ]
      ]
    ]

    take_back-apart :
        (taken : Bool) (topic t : String)
        → t ≢ topic
        → lookup t (take_back taken topic b).sent ≡ lookup t b.sent
    unfolding take_back
    take_back-apart taken topic t ne = ground (arith, lookup-insert_ne t topic "" b.sent ne)

    take_back-published :
        (taken : Bool) (topic : String) → (take_back taken topic b).published ≡ b.published
    unfolding take_back
    take_back-published taken topic = ground arith

    -- What is listed as too big, what is known of the session and the root change nothing here.
    with_sizes : (sizes : Dict String ℕ) → IsConsistent key_of (record b { not_published = sizes })
    with_sizes sizes = record { tracked = h.tracked; current = h.current }

  sent-IsConsistent :
      (topic payload : String) (retain : Bool) (b : Bridge)
      → (topic == "") ≡ false
      → IsConsistent key_of b
      → let kept = if retain then record_sent topic payload (key_of topic payload) b else b in
        IsConsistent key_of (record kept { not_published = erase topic kept.not_published })
  sent-IsConsistent topic payload false b named h = with_sizes b h _
  sent-IsConsistent topic payload true b named h =
      with_sizes (record_sent topic payload (key_of topic payload) b)
        (record_sent-IsConsistent b h topic payload named) _

  withhold-IsConsistent :
      (taken : Bool) (topic : String) (size : ℕ) (retain : Bool) (b : Bridge)
      → IsConsistent key_of b
      → IsConsistent key_of (withhold taken topic size retain b)
  unfolding withhold
  withhold-IsConsistent taken topic size false b h = h
  withhold-IsConsistent taken topic size true b h =
      let sizes = set_default topic size b.not_published in
      let listed = record b { not_published = sizes } in
      let back = take_back taken topic listed in
      let fine = with_sizes b h sizes in
      elim (Bool-cases (is_in_tree b topic)) [
        | inr outside ↦ rw outside fine
        | inl inside ↦ rw inside (record {
          tracked = take_back-Tracks listed fine taken topic;
          current =
              Agrees-erase key_of topic back.published b.sent back.sent
                (take_back-apart listed fine taken topic)
                (subst (λ p. Agrees key_of p b.sent)
                  (sym (take_back-published listed fine taken topic)) h.current);
        })
      ]

  publish_raw-IsConsistent :
      (taken : Bool) (topic payload : String) (retain : Bool) (b : Bridge)
      → (topic == "") ≡ false
      → IsConsistent key_of b
      → IsConsistent key_of (publish_raw taken topic payload (key_of topic payload) retain b)
  unfolding publish_raw
  publish_raw-IsConsistent taken topic payload retain b named h = elim (Bool-cases (is_quiet b)) [
    | inl quiet ↦ rw (quiet, publish_raw) h
    | inr loud ↦ elim (Bool-cases (not (eqb (oversize (codes topic) (codes payload)) 0))) [
      | inl big ↦ rw (loud, big, publish_raw) (withhold-IsConsistent taken topic _ retain b h)
      | inr fits ↦ rw (loud, fits, publish_raw) (sent-IsConsistent topic payload retain b named h)
    ]
  ]

  publish_state-IsConsistent :
      (taken : Bool) (topic encoded : String) (retain : Bool) (b : Bridge)
      → (topic == "") ≡ false
      → IsConsistent key_of b
      → IsConsistent key_of (publish_state taken topic encoded (key_of topic encoded) retain b)
  unfolding publish_state
  publish_state-IsConsistent taken topic encoded retain b named h =
      elim (Bool-cases (retain && lookup topic b.published == some (key_of topic encoded))) [
        | inl unchanged ↦ rw (unchanged, publish_state) h
        | inr changed ↦
            rw (changed, publish_state)
              (publish_raw-IsConsistent taken topic encoded retain b named h)
      ]

  retract-IsConsistent :
      (topic : String) (b : Bridge) → IsConsistent key_of b → IsConsistent key_of (retract topic b)
  unfolding retract
  retract-IsConsistent topic b h = elim (Bool-cases (is_quiet b)) [
    | inl quiet ↦ rw (quiet, retract) h
    | inr loud ↦
        rw (loud, retract)
          (record {
            tracked = Tracks-forget topic b.known b.sent h.tracked;
            current =
                Agrees-erase key_of topic b.published b.sent (insert topic "" b.sent)
                  (λ t ne. lookup-insert_ne t topic "" b.sent ne) h.current;
          })
  ]

  forget_published-IsConsistent :
      (b : Bridge) → IsConsistent key_of b → IsConsistent key_of (forget_published b)
  unfolding forget_published
  forget_published-IsConsistent b h = record {
    tracked = h.tracked;
    current = λ t k e. absurd (nothing_said t k e);
  }

  -- What may happen to a bridge.
  pub data Reached : Bridge → Type 0 where
    at_start :
        (root : String) (known : List String)
        → Reached (record {
          root = root;
          has_client = false;
          connected = false;
          closed = false;
          silent = false;
          known = known;
          published = [];
          not_published = [];
          sent = [];
        })
    publishes :
        (taken : Bool) (topic payload : String) (retain : Bool) {b : Bridge}
        → (topic == "") ≡ false
        → Reached b
        → Reached (publish_raw taken topic payload (key_of topic payload) retain b)
    publishes_state :
        (taken : Bool) (topic encoded : String) (retain : Bool) {b : Bridge}
        → (topic == "") ≡ false
        → Reached b
        → Reached (publish_state taken topic encoded (key_of topic encoded) retain b)
    retracts : (topic : String) {b : Bridge} → Reached b → Reached (retract topic b)
    forgets : {b : Bridge} → Reached b → Reached (forget_published b)
    session_changes :
        (has_client connected closed silent : Bool) {b : Bridge}
        → Reached b
        → Reached (record b {
          has_client = has_client;
          connected = connected;
          closed = closed;
          silent = silent;
        })

  -- However a bridge publishes, withholds and retracts, and however its session comes and goes: a topic
  -- whose last payload is not empty is known to the state file, so it can be retracted later, also by
  -- another process; and the key that the next publish is compared with is that of the last payload.
  pub Reached-IsConsistent : {b : Bridge} → Reached b → IsConsistent key_of b
  Reached-IsConsistent (at_start root known) = record {
    tracked = λ t p e n. absurd (nothing_said t p e);
    current = λ t k e. absurd (nothing_said t k e);
  }
  Reached-IsConsistent (publishes taken topic payload retain {b} named run) =
      publish_raw-IsConsistent taken topic payload retain b named (Reached-IsConsistent run)
  Reached-IsConsistent (publishes_state taken topic encoded retain {b} named run) =
      publish_state-IsConsistent taken topic encoded retain b named (Reached-IsConsistent run)
  Reached-IsConsistent (retracts topic {b} run) =
      retract-IsConsistent topic b (Reached-IsConsistent run)
  Reached-IsConsistent (forgets {b} run) =
      forget_published-IsConsistent b (Reached-IsConsistent run)
  Reached-IsConsistent (session_changes has_client connected closed silent run) =
      let h = Reached-IsConsistent run in record { tracked = h.tracked; current = h.current }

  published_key :
      (taken : Bool) (topic encoded : String) (b : Bridge)
      → is_quiet b ≡ false
      → oversize (codes topic) (codes encoded) ≡ 0
      → lookup topic (publish_state taken topic encoded (key_of topic encoded) true b).published
        ≡ some (key_of topic encoded)
  unfolding publish_state publish_raw record_sent
  published_key taken topic encoded b loud fits =
      elim (Bool-cases (lookup topic b.published == some (key_of topic encoded))) [
        | inl unchanged ↦ rw (unchanged, publish_state) (eq_of_test _ _ unchanged)
        | inr changed ↦
            rw (changed, publish_state, publish_raw, loud, fits)
              (lookup-insert_self topic (key_of topic encoded) b.published)
      ]

  -- After a state was published, on a session that publishes at all and with a payload that fits in a packet,
  -- the payload last given for the topic is one that the comparison takes for this one, whether the
  -- publish went out or was left out as unchanged.
  pub publish_state-current :
      (taken : Bool) (topic encoded : String) {b : Bridge}
      → Reached b
      → (topic == "") ≡ false
      → is_quiet b ≡ false
      → oversize (codes topic) (codes encoded) ≡ 0
      → (payload : String) × (lookup topic
            (publish_state taken topic encoded (key_of topic encoded) true b).sent
          ≡ some payload)
        × (key_of topic payload ≡ key_of topic encoded)
  publish_state-current taken topic encoded {b} run named loud fits =
      (publish_state-IsConsistent taken topic encoded true b named
          (Reached-IsConsistent run)).current
        topic (key_of topic encoded) (published_key taken topic encoded b loud fits)
