-- ===== src/Combo.antt =====
-- The press combo, src/MQTTBridge/combo.py: its binding in the image's action map and the counting of
-- its presses. The clock is read in microseconds. What the image may do at each call, raising
-- included, is an argument.
pub mod Keymap
pub mod Counting
pub mod Binding
use enigma2_mqtt_bridge.Common.{
  ℕ, zero, suc, ◌+◌, ◌-◌, ◌/◌, ◌%◌, ◌^◌, Bool, true, false, not, ◌&&◌, ◌||◌, Option, none, some,
  List, [], ◌∷◌, ◌++◌, ◌==◌, nat_eq, option_eq, leb, ltb, eqb, if◌then◌else◌, String,
}
use enigma2_mqtt_bridge.Common.Result.{Result, ok, err}

-- The choices that name a key; `OFF` is none where a choice is optional.
pub data Choice : Type 0 where
  previous exit playpause stop : Choice

pub data Refusal : Type 0 where
  switched_off not_bindable unbound : Refusal

-- `PLAYER_KEYS`: they count in the players as well as in live TV.
abbrev pub is_player_key : Choice → Bool
is_player_key previous = true
is_player_key _ = false

-- `FALLBACK_CODES`
abbrev pub fallback_code : Choice → ℕ
fallback_code previous = 412
fallback_code exit = 174
fallback_code playpause = 164
fallback_code stop = 128

-- The actions of the context, one for each flag of the driver.
pub data Action : Type 0 where
  make break repeat long : Action

abbrev pub flag_of : Action → ℕ
flag_of make = 0
flag_of break = 1
flag_of repeat = 2
flag_of long = 3

abbrev pub actions : List Action
actions = make ∷ break ∷ repeat ∷ long ∷ []

-- What the plugin has in the image's action map: the mappings of its domain, each a code and a
-- flag's bit, and whether its handler is bound.
pub record ActionMap : Type 0 where
  pub mapped : List (ℕ × ℕ)
  pub handler : Bool

-- What the image can do, and what raises: `raises_at` is the call of `bind` that does.
pub record Image : Type 0 where
  pub has_map : Bool
  pub can_bind : Bool
  pub raises_at : Option ℕ
  pub unbinds_action : Bool
  pub unbinds_domain : Bool

pub record Combo : Type 0 where
  pub choice : Option Choice
  pub presses : ℕ
  pub gap_ms : ℕ
  pub bound : Option Choice
  pub refusal : Option Refusal
  pub bound_action : Bool
  pub raised : Bool
  pub count : ℕ
  pub last : Option ℕ
  pub dialog : Option ℕ

-- `__init__`; the presses and the gap are not read before a key is bound.
unfoldable pub new_combo : Combo
new_combo = record {
  choice = none;
  presses = 0;
  gap_ms = 0;
  bound = none;
  refusal = some switched_off;
  bound_action = false;
  raised = false;
  count = 0;
  last = none;
  dialog = none;
}

unfoldable pub reset : Combo → Combo
reset c = record c { count = 0; last = none; dialog = none }

abbrev or_unbound : Option Refusal → Option Refusal
or_unbound none = some unbound
or_unbound (some refusal) = some refusal

unfoldable pub unbind : Image → Combo → ActionMap → Combo × ActionMap
unfolding reset
unbind image c map =
    let ended : Combo = record (reset c) {
      refusal = or_unbound c.refusal;
      bound_action = false;
      bound = none;
    } in
    if not image.has_map then (ended, map) else (
      ended,
      record {
        mapped = if image.unbinds_domain then [] else map.mapped;
        handler = if c.bound_action && image.unbinds_action then false else map.handler;
      },
    )

abbrev earlier : Option ℕ → Option ℕ
earlier (some (suc n)) = some n
earlier at = at

-- The calls of `bindKey`, then that of `bindAction`; false where one raised.
bind_calls : Option ℕ → ℕ → List Action → ActionMap → Bool × ActionMap
bind_calls (some zero) code flags map = (false, map)
bind_calls at code [] map = (true, record map { handler = true })
bind_calls at code (action ∷ flags) map =
    bind_calls (earlier at) code flags
      (record map { mapped = map.mapped ++ ((code, 2 ^ flag_of action) ∷ []) })

-- The end of `bind`, once the calls were made.
finish_bind : Image → Choice → Combo → Bool × ActionMap → Combo × ActionMap
unfolding unbind
finish_bind image choice c (true, map) =
    (record c { bound_action = true; bound = some choice }, map)
finish_bind image choice c (false, map) =
    unbind image (record c { refusal = some not_bindable }) map

-- What `bind` does after its own `unbind`; `code` is the image's code for the key.
bind_choice : Image → (Choice → Option ℕ) → Option Choice → Combo → ActionMap → Combo × ActionMap
unfolding bind_calls finish_bind
bind_choice image code none c map = (record c { refusal = some switched_off }, map)
bind_choice image code (some choice) c map =
    if not (image.has_map && image.can_bind)
    then (record c { refusal = some not_bindable }, map)
    else finish_bind image choice c (
        bind_calls image.raises_at (elim (code choice) [ none ↦ fallback_code choice | some n ↦ n ])
          actions map)

-- The return value of the source is the field `bound`.
unfoldable pub bind :
    Image → (Choice → Option ℕ) → Option Choice → ℕ → ℕ → Combo → ActionMap → Combo × ActionMap
unfolding unbind bind_choice
bind image code choice presses gap_ms c map =
    let (ended, left) = unbind image c map in
    bind_choice image code choice
      (record ended { choice = choice; presses = presses; gap_ms = gap_ms; refusal = none }) left

-- `round(seconds * 1000)`, from microseconds: to the nearest, and from half-way to the even one.
unfoldable pub round_ms : ℕ → ℕ
round_ms us =
    let low : ℕ = us / 1000 in
    if ltb (us % 1000) 500
    then low
    else if ltb 500 (us % 1000)
    then suc low
    else if eqb (low % 2) 0
    then low
    else suc low

unfoldable pub counts_on : Combo → ℕ → ℕ → Bool
unfolding round_ms
counts_on c dialog now = elim c.last [
  | none ↦ false
  | some last ↦ c.dialog == some dialog && leb (round_ms (now - last)) c.gap_ms
]

-- `_counted`: the new count, and whether the menu is to open.
unfoldable pub counted : Combo → ℕ → ℕ → Combo × Bool
unfolding counts_on reset
counted c dialog now =
    let n : ℕ = if counts_on c dialog now then suc c.count else 1 in
    if leb c.presses n
    then (reset c, true)
    else (record c { count = n; last = some now; dialog = some dialog }, false)

-- The exception that a call of the image's raises.
pub data Raised : Type 0 where
  raises : Raised

-- What the handler sees: the executing dialog, and whether it is the info bar.
pub record Seen : Type 0 where
  pub screen : Result Raised (Option ℕ)
  pub live : Result Raised Bool
  pub now : ℕ

-- An answer of `_action`: whether the event is consumed, and whether the menu is opened.
pub record Answer : Type 0 where
  pub after : Combo
  pub consumed : Bool
  pub opened : Bool

abbrev passed_on : Combo → Answer
passed_on c = record { after = c; consumed = false; opened = false }

counting_action : Combo → Action → ℕ → ℕ → Answer
unfolding counted
counting_action c make dialog now =
    let (next, opens) = counted c dialog now in
    record { after = next; consumed = true; opened = opens }
counting_action c _ dialog now = record { after = c; consumed = true; opened = false }

-- Over a dialog, for a key that may count over the info bar alone.
live_action : Combo → Action → Bool → Result Raised Bool → ℕ → ℕ → Answer
unfolding counting_action reset
live_action c action true live dialog now = counting_action c action dialog now
live_action c action false (ok true) dialog now = counting_action c action dialog now
live_action c action false (ok false) dialog now = passed_on (reset c)
live_action c action false (err raises) dialog now = passed_on (record c { raised = true })

screen_action : Combo → Choice → Action → Result Raised (Option ℕ) → Result Raised Bool → ℕ → Answer
unfolding live_action reset
screen_action c key action (err raises) live now = passed_on (record c { raised = true })
screen_action c key action (ok none) live now = passed_on (reset c)
screen_action c key action (ok (some dialog)) live now =
    live_action c action (is_player_key key) live dialog now

handle_bound : Option Choice → Combo → Action → Seen → Answer
unfolding screen_action
handle_bound none c action seen = passed_on c
handle_bound (some key) c action seen = screen_action c key action seen.screen seen.live seen.now

-- `_action`, for the plugin's own context; an unknown action is none.
unfoldable pub handle_action : Combo → Bool → Option Action → Seen → Answer
unfolding handle_bound
handle_action c false action seen = passed_on c
handle_action c true none seen = passed_on c
handle_action c true (some action) seen = handle_bound c.bound c action seen

-- `report`: the settings of a bound combo, or why it is not bound.
unfoldable pub report : Combo → Option (Choice × (ℕ × ℕ)) × Option Refusal
report c = elim c.bound [
  | none ↦ (none, c.refusal)
  | some key ↦ (some (key, (c.presses, c.gap_ms)), none)
]
