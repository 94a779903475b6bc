-- ===== src/Combo/Keymap.antt =====
-- What the combo's key is taken from: `live_context`, `read_keymap` and `button_setup_assignments` of
-- src/MQTTBridge/combo.py, over a keymap that is read as its `map` elements. The small letters are
-- those of ASCII, which is all that the comparisons can tell.
use mathlib.Core.Path.{subst}
use mathlib.Core.Option.{some-injective}
use enigma2_mqtt_bridge.Common.{
  ℕ, zero, suc, ◌+◌, ◌/◌, ◌%◌, ◌≡◌, ◌∙◌, ◌⊎◌, sym, refl, Bool, true, false, not, ◌&&◌, ◌||◌, Option,
  none, some, List, [], ◌∷◌, ◌++◌, String, ◌==◌, string_eq, contains, eqb, ltb, any, if◌then◌else◌,
  arith, Bool-cases, inl, inr, eq_of_test,
}
use Prim.Native.String.{◌++◌ as ◌<>◌}
use enigma2_mqtt_bridge.Common.Text.{codes, decimal, is_upper}
use enigma2_mqtt_bridge.Common.Sorting.{contains-append}
use enigma2_mqtt_bridge.Trust.Keys.{bytes_eq}

-- One `key` element, and a `map` element with those below it.
pub record KeyElement : Type 0 where
  pub key_id : String
  pub mapto : String

pub record MapElement : Type 0 where
  pub context : String
  pub elements : List KeyElement

abbrev lower : List ℕ → List ℕ
lower [] = []
lower (c ∷ cs) = (if is_upper c then c + 32 else c) ∷ lower cs

abbrev starts_with : List ℕ → List ℕ → Bool
starts_with [] text = true
starts_with (p ∷ ps) [] = false
starts_with (p ∷ ps) (c ∷ cs) = eqb p c && starts_with ps cs

-- `part in text`
abbrev stands_in : List ℕ → List ℕ → Bool
stands_in part [] = starts_with part []
stands_in part (c ∷ cs) = starts_with part (c ∷ cs) || stands_in part cs

unfoldable pub live_context : String → Bool → Bool
live_context name players =
    stands_in (codes "infobar") (lower (codes name))
    || players
      && (starts_with (codes "MoviePlayer") (codes name)
          || starts_with (codes "MediaPlayer") (codes name))

hex_digit : ℕ → ℕ
hex_digit n = if ltb n 10 then b'0' + n else 87 + n

-- The hexadecimal digits of a number behind `acc`; `fuel` bounds their count.
hex_loop : ℕ → ℕ → List ℕ → List ℕ
unfolding hex_digit
hex_loop zero n acc = acc
hex_loop (suc fuel) n acc =
    let here = hex_digit (n % 16) ∷ acc in
    let rest = hex_loop fuel (n / 16) here in if ltb n 16 then here else rest

-- `hex(n)`
unfoldable pub hex : ℕ → List ℕ
unfolding hex_loop
hex n = codes "0x" ++ hex_loop (suc n) n []

-- Whether an element's id is the key's: its name, or its code in decimal or in hexadecimal.
unfoldable pub names_key : String → Option ℕ → List ℕ → Bool
unfolding hex
names_key name none raw = raw == codes name
names_key name (some code) raw = raw == codes name || raw == decimal code || raw == hex code

unfoldable pub is_key_element : String → Option ℕ → KeyElement → Bool
unfolding names_key
is_key_element name code key =
    (names_key name code (codes key.key_id) || names_key name code (lower (codes key.key_id)))
    && not (key.mapto == "")

-- `BUTTON_SETUP_CONTEXTS`
unfoldable pub is_setup_context : String → Bool
is_setup_context context = contains context ("ButtonSetupActions" ∷ "HotkeyActions" ∷ [])

-- `if value not in values: values.append(value)`
unfoldable pub add_once : String → List String → List String
add_once value values = if contains value values then values else values ++ (value ∷ [])

-- The functions and the button setup's names, so far.
pub record Found : Type 0 where
  pub functions : List String
  pub setup_names : List String

unfoldable pub function_name : String → KeyElement → String
function_name context key = context <> ("." <> key.mapto)

module _ (name : String) (code : Option ℕ) (players : Bool) where
  -- One `key` element under the context of its `map` element.
  unfoldable pub read_element : String → KeyElement → Found → Found
  unfolding is_key_element is_setup_context live_context add_once function_name
  read_element context key found =
      if not (is_key_element name code key)
      then found
      else if is_setup_context context
      then record found { setup_names = add_once key.mapto found.setup_names }
      else if live_context context players
      then record found { functions = add_once (function_name context key) found.functions }
      else found

  unfoldable pub read_elements : String → List KeyElement → Found → Found
  unfolding read_element
  read_elements context [] found = found
  read_elements context (key ∷ keys) found =
      read_elements context keys (read_element context key found)

  unfoldable pub read_maps : List MapElement → Found → Found
  unfolding read_elements
  read_maps [] found = found
  read_maps (mapping ∷ maps) found =
      read_maps maps (read_elements mapping.context mapping.elements found)

  -- `read_keymap`; no elements are a file that cannot be read or parsed.
  unfoldable pub read_keymap : Option (List MapElement) → Option Found
  unfolding read_maps
  read_keymap none = none
  read_keymap (some maps) = some (read_maps maps (record { functions = []; setup_names = [] }))

-- `value.strip()` is a parameter, as is the image's setting of a section and a name.
abbrev has_text : (String → String) → Option String → Bool
has_text strip none = false
has_text strip (some value) = not (strip value == "")

unfoldable pub button_setup_assignments :
    (String → String) → (String → String → Option String) → List String → List String
button_setup_assignments strip setting [] = []
button_setup_assignments strip setting (name ∷ names) =
    let rest : List String = button_setup_assignments strip setting names in
    if has_text strip (setting "ButtonSetup" name) || has_text strip (setting "hotkey" name)
    then ("ButtonSetup." <> name) ∷ rest
    else rest

-- `replaces`
unfoldable pub replaces :
    (String → String) → (String → String → Option String) → Option Found → Option (List String)
unfolding button_setup_assignments
replaces strip setting none = none
replaces strip setting (some found) =
    some (found.functions ++ button_setup_assignments strip setting found.setup_names)

or_swap : (a b c : Bool) → (a || (b || c)) ≡ (b || a || c)
or_swap true true c = refl
or_swap true false c = refl
or_swap false true c = refl
or_swap false false c = refl

known :
    (wanted value : String) (values : List String)
    → ((wanted == value) ≡ true) ⊎ ((wanted == value) ≡ false)
    → contains value values ≡ true
    → contains wanted values ≡ (wanted == value || contains wanted values)
known wanted value values (inl same) there =
    rw same (subst (λ w. contains w values ≡ true) (sym (eq_of_test wanted value same)) there)
known wanted value values (inr other) there = rw other refl

contains-add_once :
    (wanted value : String) (values : List String)
    → contains wanted (add_once value values) ≡ (wanted == value || contains wanted values)
unfolding add_once
contains-add_once wanted value values = elim (Bool-cases (contains value values)) [
  | inl there ↦ rw there (known wanted value values (Bool-cases (wanted == value)) there)
  | inr new ↦ rw (new, contains-append) (ground arith)
]

module _ (name : String) (code : Option ℕ) (players : Bool) (function : String) where
  -- The element maps the key to that function, in a context of live TV or of a player.
  abbrev pub gives : String → KeyElement → Bool
  gives context key =
      is_key_element name code key
      && not (is_setup_context context)
      && live_context context players
      && function == function_name context key

  abbrev pub mapping_gives : MapElement → Bool
  mapping_gives mapping = any (gives mapping.context) mapping.elements

  read_element-functions :
      (context : String) (key : KeyElement) (found : Found)
      → contains function (read_element name code players context key found).functions
        ≡ (gives context key || contains function found.functions)
  unfolding read_element
  read_element-functions context key found = elim (Bool-cases (is_key_element name code key)) [
    | inr other ↦ rw other refl
    | inl here ↦ elim (Bool-cases (is_setup_context context)) [
      | inl setup ↦ rw (here, setup) refl
      | inr plain ↦ elim (Bool-cases (live_context context players)) [
        | inr dead ↦ rw (here, plain, dead) refl
        | inl live ↦ rw (here, plain, live, contains-add_once) refl
      ]
    ]
  ]

  read_elements-functions :
      (context : String) (keys : List KeyElement) (found : Found)
      → contains function (read_elements name code players context keys found).functions
        ≡ (any (gives context) keys || contains function found.functions)
  unfolding read_elements
  read_elements-functions context [] found = refl
  read_elements-functions context (key ∷ keys) found =
      read_elements-functions context keys (read_element name code players context key found)
      ∙ rw read_element-functions (or_swap (any (gives context) keys) (gives context key) _)

  read_maps-functions :
      (maps : List MapElement) (found : Found)
      → contains function (read_maps name code players maps found).functions
        ≡ (any mapping_gives maps || contains function found.functions)
  unfolding read_maps
  read_maps-functions [] found = refl
  read_maps-functions (mapping ∷ maps) found =
      read_maps-functions maps
        (read_elements name code players mapping.context mapping.elements found)
      ∙ rw read_elements-functions (or_swap (any mapping_gives maps) (mapping_gives mapping) _)

  -- A function is named exactly when some element of the keymap maps the key to it, by its name or by
  -- its code in decimal or hexadecimal, in a context that the info bar or, for a key of the players,
  -- a player binds, and that is not the button setup's.
  pub read_keymap-functions :
      (maps : List MapElement) (found : Found)
      → read_keymap name code players (some maps) ≡ some found
      → contains function found.functions ≡ any mapping_gives maps
  unfolding read_keymap
  read_keymap-functions maps found e =
      subst (λ f. contains function f.functions ≡ any mapping_gives maps) (some-injective _ _ e)
        (read_maps-functions maps (record { functions = []; setup_names = [] }) ∙ ground arith)
