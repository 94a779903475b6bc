-- ===== src/Audio.antt =====
-- The audio track being played, src/MQTTBridge/audio.py: the tracks, the codec of the active one, read
-- once for each track. What the playing service and the
-- image's settings answer are arguments; none stands for a call that raises or is not there.
pub mod Fresh
use Prim.Native.String
use enigma2_mqtt_bridge.Common.{
  ℕ, zero, suc, ◌+◌, min, Bool, true, false, not, ◌&&◌, Option, none, some, List, [], ◌∷◌, String,
  ◌==◌, string_eq, nat_eq, option_eq, eqb, leb, if◌then◌else◌,
}
use enigma2_mqtt_bridge.Common.Int.{ℤ, pos, negsuc}

pub data Codec : Type 0 where
  mp2 ac3 eac3 aac aac_he dts dts_hd lpcm dra ac4 : Codec

abbrev pub max_tracks : ℕ
max_tracks = 32

abbrev text_limit : ℕ
text_limit = 64

-- `CODECS`
unfoldable pub known_codec : String → Option Codec
known_codec word =
    if word == "mpeg"
    then some mp2
    else if word == "ac3"
    then some ac3
    else if word == "dolby digital"
    then some ac3
    else if word == "ac3+"
    then some eac3
    else if word == "dolby digital +"
    then some eac3
    else if word == "dolby atmos"
    then some eac3
    else if word == "aac"
    then some aac
    else if word == "aac-lc"
    then some aac
    else if word == "aac-he"
    then some aac_he
    else if word == "he-aac"
    then some aac_he
    else if word == "dts"
    then some dts
    else if word == "dts-hd"
    then some dts_hd
    else if word == "lpcm"
    then some lpcm
    else if word == "dra"
    then some dra
    else if word == "ac4"
    then some ac4
    else if word == "dolby ac-4"
    then some ac4
    else none

-- `str.strip` and `str.lower`
pub record Words : Type 0 where
  pub strip : String → String
  pub lower : String → String

unfoldable pub codec_name : Words → Option String → Option Codec
unfolding known_codec
codec_name words none = none
codec_name words (some description) = known_codec (words.lower (words.strip description))

-- What a track's description answers.
pub record TrackInfo : Type 0 where
  pub description : Option String
  pub language : Option String
  pub pid : Option ℤ

-- The playing service's track selection, and the reference that plays.
pub record Player : Type 0 where
  pub has_selection : Bool
  pub track_count : Option ℤ
  pub current_track : Option ℤ
  pub track_info : ℕ → Option TrackInfo
  pub reference : Option String

abbrev natural : Option ℤ → Option ℕ
natural none = none
natural (some (pos n)) = some n
natural (some (negsuc n)) = none

-- `_count`
unfoldable pub count : Player → Option ℕ
count player = natural player.track_count

any_tracks : Option ℕ → Bool
any_tracks none = false
any_tracks (some n) = not (eqb n 0)

unfoldable pub active_index : Player → Option ℕ
unfolding any_tracks count
active_index player =
    if not player.has_selection
    then none
    else if any_tracks (count player)
    then natural player.current_track
    else none

-- `_text`
bounded_text : Words → Option String → Option String
bounded_text words none = none
bounded_text words (some value) =
    let short : String = String.slice (words.strip value) 0 text_limit in
    if short == "" then none else some short

pub record Track : Type 0 where
  pub track_index : ℕ
  pub track_description : Option String
  pub track_language : Option String
  pub track_pid : Option ℕ
  pub track_codec : Option Codec
  pub active : Bool

no_info : TrackInfo
no_info = record { description = none; language = none; pid = none }

read_track : Words → Player → Option ℕ → ℕ → Track
unfolding bounded_text no_info
read_track words player current index =
    let info : TrackInfo = elim (player.track_info index) [ none ↦ no_info | some info ↦ info ] in
    let described : Option String = bounded_text words info.description in
    record {
      track_index = index;
      track_description = described;
      track_language = bounded_text words info.language;
      track_pid = natural info.pid;
      track_codec = codec_name words described;
      active = current == some index;
    }

-- The tracks from `index` on, `n` of them.
tracks_from : Words → Player → Option ℕ → ℕ → ℕ → List Track
unfolding read_track
tracks_from words player current zero index = []
tracks_from words player current (suc n) index =
    read_track words player current index ∷ tracks_from words player current n (suc index)

unfoldable pub read_tracks : Words → Player → Option (List Track)
unfolding tracks_from count
read_tracks words player = if not player.has_selection then none else elim (count player) [
  | none ↦ none
  | some n ↦ some (tracks_from words player (natural player.current_track) (min n max_tracks) 0)
]

-- `ActiveTrack`
pub record ActiveTrack : Type 0 where
  pub reread_looks : Option ℕ
  pub looks : ℕ
  pub key : Option (Option String × ℕ)
  pub codec : Option Codec
  pub failed : Bool

unfoldable pub new_track : Option ℕ → ActiveTrack
new_track reread = record {
  reread_looks = reread;
  looks = 0;
  key = none;
  codec = none;
  failed = false;
}

unfoldable pub forget : ActiveTrack → ActiveTrack
forget t = record t { key = none; failed = false }

count_look : Option ℕ → ActiveTrack → ActiveTrack
unfolding forget
count_look none t = t
count_look (some n) t =
    if eqb n 0
    then t
    else if leb n (suc t.looks)
    then forget (record t { looks = suc t.looks })
    else record t { looks = suc t.looks }

unfoldable pub looked : ActiveTrack → ActiveTrack
unfolding count_look forget
looked t = count_look t.reread_looks (if t.failed then forget t else t)

abbrev same_key : Option (Option String × ℕ) → Option String → ℕ → Bool
same_key none reference index = false
same_key (some (old, n)) reference index = old == reference && eqb n index

-- Whether an ask reads the track's description, which it does where the key is another.
unfoldable pub reads_track : Player → ActiveTrack → Bool
unfolding active_index
reads_track player t = elim (active_index player) [
  | none ↦ false
  | some index ↦ not (same_key t.key player.reference index)
]

read_codec : Words → Option TrackInfo → ActiveTrack → ActiveTrack
unfolding bounded_text
read_codec words none t = record t { codec = none; failed = true }
read_codec words (some info) t = record t {
  codec = codec_name words (bounded_text words info.description);
  failed = false;
}

-- `codec`, for the index that plays; its answer is the field `codec` where an index plays.
codec_at : Words → Player → Option ℕ → ActiveTrack → ActiveTrack
unfolding read_codec
codec_at words player none t = record t { key = none }
codec_at words player (some index) t =
    if same_key t.key player.reference index
    then t
    else record (read_codec words (player.track_info index) (record t { looks = 0 })) {
      key = some (player.reference, index);
    }

unfoldable pub ask_codec : Words → Player → ActiveTrack → ActiveTrack
unfolding codec_at
ask_codec words player t = codec_at words player (active_index player) t
