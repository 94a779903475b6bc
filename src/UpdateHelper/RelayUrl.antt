-- ===== src/UpdateHelper/RelayUrl.antt =====
-- `RELAY_URL` and `relay_ok` of src/MQTTBridge/updatehelper.py.
use enigma2_mqtt_bridge.Common.{
  ℕ, ◌+◌, ◌-◌, ◌*◌, Bool, true, false, ◌&&◌, ◌||◌, Option, none, some, List, [], ◌∷◌, String, eqb,
  leb, ltb, all, length, ◌≡◌, refl, if◌then◌else◌,
}
use enigma2_mqtt_bridge.Common.Text.{codes, is_digit, is_lower, is_upper}
use enigma2_mqtt_bridge.UpdateHelper.State.{Relay}

-- The text after a fixed start.
after : List ℕ → List ℕ → Option (List ℕ)
after [] text = some text
after (c ∷ cs) [] = none
after (c ∷ cs) (d ∷ text) = if eqb c d then after cs text else none

-- The longest start of characters that pass, and what follows.
span : (ℕ → Bool) → List ℕ → List ℕ × List ℕ
span test [] = ([], [])
span test (c ∷ cs) =
    let (start, rest) = span test cs in if test c then (c ∷ start, rest) else ([], c ∷ cs)

is_host_part : ℕ → Bool
is_host_part c = is_lower c || is_upper c || is_digit c || eqb c b'.' || eqb c b'-'

is_token_part : ℕ → Bool
is_token_part c = is_lower c || is_upper c || is_digit c || eqb c b'_' || eqb c b'-'

port_value : ℕ → List ℕ → ℕ
port_value acc [] = acc
port_value acc (c ∷ cs) = port_value (acc * 10 + (c - b'0')) cs

is_port : List ℕ → Bool
unfolding port_value
is_port digits =
    leb 1 (length digits)
    && leb (length digits) 5
    && ltb 0 (port_value 0 digits)
    && ltb (port_value 0 digits) 65536

-- From the path on: the fixed path, and a token of 43 characters.
is_path : List ℕ → Bool
unfolding after is_token_part
is_path text = elim (after (codes "/api/enigma2_mqtt/relay/") text) [
  | none ↦ false
  | some token ↦ eqb (length token) 43 && all is_token_part token
]

-- From the port on, if there is one.
is_port_and_path : List ℕ → Bool
unfolding span is_port is_path
is_port_and_path text = elim (after (codes ":") text) [
  | none ↦ is_path text
  | some rest ↦ let (digits, path) = span is_digit rest in is_port digits && is_path path
]

is_host_on : List ℕ → Bool
unfolding span is_host_part is_port_and_path
is_host_on text =
    let (host, rest) = span is_host_part text in
    leb 1 (length host) && leb (length host) 253 && is_port_and_path rest

-- The scheme: `http` or `https`.
is_relay_url : String → Bool
unfolding after is_host_on
is_relay_url url = elim (after (codes "http://") (codes url)) [
  | some rest ↦ is_host_on rest
  | none ↦ elim (after (codes "https://") (codes url)) [
    | some rest ↦ is_host_on rest
    | none ↦ false
  ]
]

-- An expiry that is not a whole number, or below zero, is `none`.
is_ahead : Option ℕ → ℕ → Bool
is_ahead none now = false
is_ahead (some expires) now = ltb now expires

unfoldable pub relay_ok : Relay → ℕ → Bool
unfolding is_relay_url is_ahead
relay_ok relay now = is_relay_url relay.url && is_ahead relay.expires now

relay_accepted :
    relay_ok
      (record {
        url =
            "http://10.0.0.2:8123/api/enigma2_mqtt/relay/AAAAAAAAAAAAAAAAAAAAAAAAAAAAAAAAAAAAAAAAA_-";
        expires = some 11;
      })
      10
    ≡ true
unfolding relay_ok
relay_accepted = refl
