-- ===== src/Tests/Sound.antt =====
-- The audio track's and the volume's theorems at small inputs.
use mathlib.Core.Option.{some-ne-none}
use enigma2_mqtt_bridge.Common.{
  suc, ◌<◌, ◌≡◌, ◌≢◌, if◌then◌else◌, refl, sym, ◌∙◌, Bool, true, false, not, Option, none, some, [],
  ◌∷◌, String, ◌==◌, string_eq, arith,
}
use enigma2_mqtt_bridge.Common.Int.{pos}
use enigma2_mqtt_bridge.Common.Dict.{lookup}
use enigma2_mqtt_bridge.Audio.{
  eac3, Words, Player, ActiveTrack, new_track, ask_codec, reads_track, looked, active_index, count,
}
use enigma2_mqtt_bridge.Audio.Fresh.{Reached, at_first, asks, looks_by, Reached-young}
use enigma2_mqtt_bridge.Passthrough.{Setting, word, transcodes, passthrough_for}
use enigma2_mqtt_bridge.Volume.{
  Hardware, Image, original, Control, wrapped_names, wrap_all, unwrap_all,
}
use enigma2_mqtt_bridge.Volume.Wrapped.{unwrap_all-wrap_all}

abbrev words : Words
words = record { strip = λ w. w; lower = λ w. w }

abbrev player : Player
player = record {
  has_selection = true;
  track_count = some (pos 1);
  current_track = some (pos 0);
  track_info = λ index. some (record { description = some "ac3"; language = none; pid = none });
  reference = some "1:0:1";
}

abbrev asked : ActiveTrack
asked = looked (ask_codec words player (new_track (some 6)))

abbrev asked_run :
    Reached words 6 asked (suc (if reads_track player (new_track (some 6)) then 0 else 0))
asked_run = looks_by (asks player at_first)

asked_key : asked.key ≡ some (some "1:0:1", 0)
unfolding looked ask_codec new_track active_index count
asked_key = refl

asked_held : asked.key ≢ none
asked_held e = some-ne-none _ (sym asked_key ∙ e)

Reached-young_example : suc (if reads_track player (new_track (some 6)) then 0 else 0) < 6
Reached-young_example =
    Reached-young words 6 asked (suc (if reads_track player (new_track (some 6)) then 0 else 0))
      (ground arith) asked_run asked_held

abbrev loud : Hardware
loud = record { left = 40; right = 40; muted = false }

abbrev toggle : Hardware → Hardware
toggle h = record h { muted = not h.muted }

abbrev image : Image
image = record {
  reports = true;
  reports_after = true;
  has_setter = true;
  setter_raises = false;
  has_instance = true;
  has_toggle = true;
  toggle_raises = false;
}

abbrev all_settable : String → Bool
all_settable name = true

abbrev control : Control
control = ("volUp", original 1) ∷ ("volMute", original 2) ∷ []

unwrap_all-wrap_all_example :
    let (after, originals) = wrap_all all_settable wrapped_names control in
    lookup "volUp" (unwrap_all all_settable originals after) ≡ lookup "volUp" control
unwrap_all-wrap_all_example = unwrap_all-wrap_all all_settable "volUp" wrapped_names control

abbrev mixed : String → Option Setting
mixed name = if name == "transcodeac3plus" then some (word "passthrough") else none

eac3_passed : passthrough_for mixed (some eac3) ≡ some true
unfolding passthrough_for transcodes string_eq
eac3_passed = refl
