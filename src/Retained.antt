-- ===== src/Retained.antt =====
-- The retained topics of src/MQTTBridge/bridge.py: `_oversize`, `publish_raw`, `_withhold`, `_take_back`,
-- `publish_state`, `retract`, `forget_published`, and the topics that the state file knows. The client's
-- answer is an argument; log lines, the page's copies and the report on `info` are left out.
pub mod Topics
pub mod Known
pub mod Size
use enigma2_mqtt_bridge.Common.{
  ℕ, zero, suc, ◌+◌, ◌*◌, Bool, true, false, not, ◌&&◌, ◌||◌, Option, none, some, List, [], ◌∷◌,
  String, length, contains, eqb, leb, ltb, if◌then◌else◌, ◌==◌, string_eq, option_eq,
}
use enigma2_mqtt_bridge.Common.Dict.{Dict, lookup, insert, erase}
use enigma2_mqtt_bridge.Common.Text.{codes}
use enigma2_mqtt_bridge.Log.{starts_with}

abbrev pub max_packet_bytes : ℕ
max_packet_bytes = 1000000

abbrev pub packet_overhead_bytes : ℕ
packet_overhead_bytes = 1 + 4 + 2

-- The bytes of a character in UTF-8.
abbrev pub character_bytes : ℕ → ℕ
character_bytes c = if ltb c 128 then 1 else if ltb c 2048 then 2 else if ltb c 65536 then 3 else 4

abbrev pub utf8_length : List ℕ → ℕ
utf8_length [] = 0
utf8_length (c ∷ text) = character_bytes c + utf8_length text

over_bound : ℕ → ℕ
over_bound size = if ltb max_packet_bytes size then size else 0

-- `_oversize` of a text: the bytes of the packet where that is over the bound, else 0.
unfoldable pub oversize : List ℕ → List ℕ → ℕ
unfolding over_bound
oversize topic payload =
    if leb (packet_overhead_bytes + (length topic + length payload) * 4) max_packet_bytes
    then 0
    else over_bound (packet_overhead_bytes + utf8_length topic + utf8_length payload)

pub record Bridge : Type 0 where
  -- the start of the node's own tree
  pub root : String
  pub has_client : Bool
  pub connected : Bool
  pub closed : Bool
  pub silent : Bool
  -- the state file's topics
  pub known : List String
  -- `_published`: what the next comparison is made with; and `_not_published`
  pub published : Dict String String
  pub not_published : Dict String ℕ
  -- the payload of each topic that the client was last given to be retained
  pub sent : Dict String String

pub remember : String → List String → List String
remember topic known = if topic == "" || contains topic known then known else topic ∷ known

pub forget : String → List String → List String
forget topic [] = []
forget topic (other ∷ known) =
    let rest = forget topic known in if topic == other then rest else other ∷ rest

unfoldable pub is_quiet : Bridge → Bool
is_quiet b = not b.has_client || b.closed || b.silent

is_in_tree : Bridge → String → Bool
unfolding starts_with
is_in_tree b topic = starts_with (codes b.root) (codes topic)

-- The retained copy is taken back once the broker can be told, and forgotten when the client took it.
take_back : Bool → String → Bridge → Bridge
unfolding forget
take_back taken topic b =
    if b.closed || b.silent
    then b
    else if not b.connected || not (contains topic b.known)
    then b
    else if not taken
    then b
    else record b { sent = insert topic "" b.sent; known = forget topic b.known }

set_default : String → ℕ → Dict String ℕ → Dict String ℕ
set_default topic size sizes = elim (lookup topic sizes) [
  | none ↦ insert topic size sizes
  | some _ ↦ sizes
]

withhold : Bool → String → ℕ → Bool → Bridge → Bridge
unfolding set_default is_in_tree take_back
withhold taken topic size false b = b
withhold taken topic size true b =
    let listed = record b { not_published = set_default topic size b.not_published } in
    let back = take_back taken topic listed in
    if is_in_tree b topic then record back { published = erase topic back.published } else listed

record_sent : String → String → String → Bridge → Bridge
unfolding remember
record_sent topic payload change_key b = record b {
  sent = insert topic payload b.sent;
  known = remember topic b.known;
  published = insert topic change_key b.published;
}

unfoldable pub publish_raw : Bool → String → String → String → Bool → Bridge → Bridge
unfolding is_quiet oversize withhold record_sent
publish_raw taken topic payload change_key retain b =
    let size = oversize (codes topic) (codes payload) in
    let kept = if retain then record_sent topic payload change_key b else b in
    if is_quiet b
    then b
    else if not (eqb size 0)
    then withhold taken topic size retain b
    else record kept { not_published = erase topic kept.not_published }

-- Only when it has changed.
unfoldable pub publish_state : Bool → String → String → String → Bool → Bridge → Bridge
unfolding publish_raw
publish_state taken topic encoded change_key retain b =
    if retain && lookup topic b.published == some change_key
    then b
    else publish_raw taken topic encoded change_key retain b

unfoldable pub retract : String → Bridge → Bridge
unfolding is_quiet forget
retract topic b = if is_quiet b then b else record b {
  sent = insert topic "" b.sent;
  known = forget topic b.known;
  published = erase topic b.published;
  not_published = erase topic b.not_published;
}

unfoldable pub forget_published : Bridge → Bridge
forget_published b = record b { published = [] }
