-- ===== src/Passthrough.antt =====
-- Whether a track is handed on undecoded: `passthrough_for` of src/MQTTBridge/audio.py.
pub mod Sure
use enigma2_mqtt_bridge.Common.{
  Bool, true, false, not, Option, none, some, List, [], ◌∷◌, String, ◌==◌, string_eq, nat_eq,
  option_eq, if◌then◌else◌,
}
use enigma2_mqtt_bridge.Audio.{Codec, mp2, ac3, eac3, aac, aac_he, dts, dts_hd, lpcm, Track}

-- A setting of `config.av`: a word in small letters, or a yes or no.
pub data Setting : Type 0 where
  word : String → Setting
  flag : Bool → Setting

-- `_decides`
unfoldable pub decides : Setting → Option Bool
decides (flag downmix) = some (not downmix)
decides (word w) =
    if w == "passthrough" then some true else if w == "downmix" then some false else none

-- `SETTINGS` and `TRANSCODES`
abbrev pub settings_of : Codec → List String
settings_of ac3 = "downmix_ac3" ∷ []
settings_of eac3 = "downmix_ac3plus" ∷ "transcodeac3plus" ∷ []
settings_of aac = "downmix_aac" ∷ []
settings_of aac_he = "downmix_aacplus" ∷ []
settings_of dts = "downmix_dts" ∷ []
settings_of dts_hd = "dtshd" ∷ []
settings_of _ = []

abbrev pub transcode_of : Codec → Option String
transcode_of aac = some "transcodeaac"
transcode_of aac_he = some "transcodeaac"
transcode_of _ = none

abbrev pub is_always_decoded : Codec → Bool
is_always_decoded mp2 = true
is_always_decoded lpcm = true
is_always_decoded _ = false

-- Whether a transcode of the codec is switched on.
unfoldable pub transcodes : (String → Option Setting) → Option String → Bool
transcodes setting none = false
transcodes setting (some name) = elim (setting name) [
  | none ↦ false
  | some s ↦ elim s [ word w ↦ not (w == "off") | flag b ↦ false ]
]

-- The first setting that the image has.
first_setting : (String → Option Setting) → List String → Option Bool
unfolding decides
first_setting setting [] = none
first_setting setting (name ∷ names) =
    let rest : Option Bool = first_setting setting names in
    elim (setting name) [ none ↦ rest | some s ↦ decides s ]

unfoldable pub passthrough_for : (String → Option Setting) → Option Codec → Option Bool
unfolding transcodes first_setting
passthrough_for setting none = none
passthrough_for setting (some codec) =
    if is_always_decoded codec
    then some false
    else if transcodes setting (transcode_of codec)
    then none
    else first_setting setting (settings_of codec)

-- `passthrough_of`: that of the first active track.
unfoldable pub passthrough_of : (String → Option Setting) → List Track → Option Bool
unfolding passthrough_for
passthrough_of setting [] = none
passthrough_of setting (track ∷ tracks) =
    let rest : Option Bool = passthrough_of setting tracks in
    if track.active then passthrough_for setting track.track_codec else rest
