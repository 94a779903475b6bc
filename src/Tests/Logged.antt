-- ===== src/Tests/Logged.antt =====
-- The witness of the log: a password that was registered between two other values.
use enigma2_mqtt_bridge.Common.{◌≡◌, refl, ◌⊎◌, false, Option, none, some, List, [], ◌∷◌}
use enigma2_mqtt_bridge.Common.Text.{codes}
use enigma2_mqtt_bridge.Trust.Keys.{bytes_eq}
use enigma2_mqtt_bridge.Log.{Text, has_text, register_secret, redact, occurs, log_line}
use enigma2_mqtt_bridge.Log.Hidden.{registered, log_line-hides}

abbrev password : Text
password = codes "swordfish"

abbrev message : Text
message = codes "login with swordfish failed"

abbrev values : List (Option Text)
values = some (codes "sword") ∷ (some password ∷ (none ∷ []))

marked : redact (registered values) message ≡ codes "login with *** failed"
unfolding redact register_secret bytes_eq
marked = refl

log_line-hides_example :
    (occurs password (log_line some [] (registered values) (some message)) ≡ false)
    ⊎ (log_line some [] (registered values) (some message) ≡ [])
unfolding has_text
log_line-hides_example =
    log_line-hides some [] (some (codes "sword") ∷ []) (none ∷ []) (some message) password refl refl
