-- ===== src/Log.antt =====
-- What reaches the plugin's log: `register_secret`, `forget_secrets`, `redact`, the filter and the formatter
-- of src/MQTTBridge/log.py. Texts are lists of code points. The file and its rotation are left out.
pub mod Hidden
use enigma2_mqtt_bridge.Common.{
  ℕ, zero, suc, ◌+◌, ◌-◌, Bool, true, false, not, ◌&&◌, ◌||◌, Option, none, some, List, [], ◌∷◌,
  ◌++◌, String, length, any, contains, eqb, leb, if◌then◌else◌, ◌==◌,
}
use enigma2_mqtt_bridge.Common.Sorting.{sort_by}
use enigma2_mqtt_bridge.Common.Text.{codes}
use enigma2_mqtt_bridge.Trust.Keys.{bytes_eq}

abbrev pub Text : Type 0
Text = List ℕ

-- `REDACTED`
abbrev pub redacted : Text
redacted = b'*' ∷ b'*' ∷ b'*' ∷ []

-- What `str.strip` takes away.
is_space : ℕ → Bool
is_space c =
    leb 9 c && leb c 13
    || leb 28 c && leb c 32
    || eqb c 133
    || eqb c 160
    || eqb c 5760
    || leb 8192 c && leb c 8202
    || eqb c 8232
    || eqb c 8233
    || eqb c 8239
    || eqb c 8287
    || eqb c 12288

unfoldable pub has_text : Text → Bool
unfolding is_space
has_text text = any (λ c. not (is_space c)) text

-- A value that is no text is `none`.
unfoldable pub register_secret : Option Text → List Text → List Text
unfolding has_text
register_secret none secrets = secrets
register_secret (some value) secrets =
    if has_text value && not (contains value secrets) then value ∷ secrets else secrets

-- `text.startswith(start)`
unfoldable pub starts_with : Text → Text → Bool
starts_with [] text = true
starts_with (c ∷ start) [] = false
starts_with (c ∷ start) (d ∷ text) = eqb c d && starts_with start text

-- `part in text`
unfoldable pub occurs : Text → Text → Bool
unfolding starts_with
occurs part [] = starts_with part []
occurs part (c ∷ text) = starts_with part (c ∷ text) || occurs part text

-- `text.replace(old, REDACTED)` from the left, with the characters of a match still to be skipped.
unfoldable pub replace_from : Text → ℕ → Text → Text
unfolding starts_with
replace_from old skip [] = []
replace_from old (suc skip) (c ∷ text) = replace_from old skip text
replace_from old zero (c ∷ text) =
    let found = starts_with old (c ∷ text) in
    let rest = replace_from old (if found then length old - 1 else 0) text in
    if found then redacted ++ rest else c ∷ rest

is_empty : Text → Bool
is_empty [] = true
is_empty (c ∷ text) = false

replace_secret : Text → Text → Text
unfolding is_empty occurs replace_from
replace_secret secret text =
    if not (is_empty secret) && occurs secret text then replace_from secret 0 text else text

scrub : List Text → Text → Text
unfolding replace_secret
scrub [] text = text
scrub (secret ∷ secrets) text = scrub secrets (replace_secret secret text)

-- `sorted(_secrets, key=len, reverse=True)`
abbrev longer_first : Text → Text → Bool
longer_first a b = leb (length b) (length a)

unfoldable pub redact : List Text → Text → Text
unfolding scrub sort_by
redact secrets text = scrub (sort_by longer_first secrets) text

-- The message that the filter leaves: what cannot be formatted is not written.
abbrev unformattable : Text
unformattable = codes "<unformattable log record>"

has_any : List Text → Bool
has_any [] = false
has_any (secret ∷ secrets) = true

filter_message : List Text → Option Text → Option Text
unfolding redact has_any
filter_message secrets none = if has_any secrets then some unformattable else none
filter_message secrets (some message) =
    if has_any secrets then some (redact secrets message) else some message

-- The line that the formatter makes of a message: `render` is `logging.Formatter.format`, with `none` for
-- what it raises; the line that stands in then holds no message and no exception.
format_line : (Text → Option Text) → Text → List Text → Option Text → Text
unfolding redact
format_line render stand_in secrets none = stand_in
format_line render stand_in secrets (some message) = elim (render message) [
  | none ↦ stand_in
  | some line ↦ redact secrets line
]

-- A record's way to the file.
unfoldable pub log_line : (Text → Option Text) → Text → List Text → Option Text → Text
unfolding filter_message format_line
log_line render stand_in secrets message =
    format_line render stand_in secrets (filter_message secrets message)
