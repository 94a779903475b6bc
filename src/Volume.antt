-- ===== src/Volume.antt =====
-- The volume, src/MQTTBridge/volume.py: setting the level, muting, and the wrappers that the publisher
-- puts around enigma2's volume methods to hear of every change. The steps of the on-screen bar, which
-- are never worth a failure, are left out.
pub mod Wrapped
pub mod Muting
use enigma2_mqtt_bridge.Common.{
  ℕ, zero, suc, ◌+◌, min, Bool, true, false, not, ◌&&◌, Option, none, some, List, [], ◌∷◌, String,
  ◌==◌, string_eq, leb, if◌then◌else◌,
}
use enigma2_mqtt_bridge.Common.Dict.{Dict, lookup, insert}
use enigma2_mqtt_bridge.Common.Int.{ℤ, pos, negsuc}

abbrev pub maximum : ℕ
maximum = 100

unfoldable pub clamp : ℤ → ℕ
clamp (pos level) = min maximum level
clamp (negsuc n) = 0

-- The hardware's level of both channels and its mute, and whether it answers and obeys.
pub record Hardware : Type 0 where
  pub left : ℕ
  pub right : ℕ
  pub muted : Bool

-- Why a command could not be carried out.
pub data Failure : Type 0 where
  no_volume_control not_reported no_instance no_method raised would_not : Failure

-- What the image lets the plugin do: read the volume, reach a control that sets it, toggle the mute.
pub record Image : Type 0 where
  pub reports : Bool
  pub reports_after : Bool
  pub has_setter : Bool
  pub setter_raises : Bool
  pub has_instance : Bool
  pub has_toggle : Bool
  pub toggle_raises : Bool

-- `set_level`
unfoldable pub set_level : Image → ℤ → Hardware → Option Failure × Hardware
unfolding clamp
set_level image level h =
    if not image.has_setter
    then (some no_volume_control, h)
    else if image.setter_raises
    then (some raised, h)
    else (none, record h { left = clamp level; right = clamp level })

abbrev same : Bool → Bool → Bool
same true b = b
same false b = not b

-- The end of `set_muted`: the state is read back.
read_back : Image → Bool → Hardware → Option Failure × Hardware
read_back image muted h =
    if image.reports_after && not (same h.muted muted) then (some would_not, h) else (none, h)

-- `set_muted`; `toggle` is what enigma2's `volMute` does to the hardware.
unfoldable pub set_muted :
    Image → (Hardware → Hardware) → Bool → Hardware → Option Failure × Hardware
unfolding read_back
set_muted image toggle muted h =
    if not image.reports
    then (some not_reported, h)
    else if same h.muted muted
    then (none, h)
    else if not image.has_instance
    then (some no_instance, h)
    else if not image.has_toggle
    then (some no_method, h)
    else if image.toggle_raises
    then (some raised, h)
    else read_back image muted (toggle h)

-- A method of the volume control: somebody else's, or a wrapper of the plugin's with its marker.
pub data Method : Type 0 where
  original : ℕ → Method
  wrapper : Method → Method

abbrev pub is_marked : Option Method → Bool
is_marked (some (wrapper m)) = true
is_marked _ = false

abbrev pub Control : Type 0
Control = Dict String Method

-- `WRAPPED`
abbrev pub wrapped_names : List String
wrapped_names = "setVolume" ∷ "volUp" ∷ "volDown" ∷ "volMute" ∷ []

-- The control with a wrapper of that method, and the originals with it.
abbrev pub with_wrapper : String → Option Method → Control → Control
with_wrapper name none control = control
with_wrapper name (some m) control = insert name (wrapper m) control

abbrev pub with_original : String → Option Method → Dict String Method → Dict String Method
with_original name none originals = originals
with_original name (some m) originals = (name, m) ∷ originals

module _ (settable : String → Bool) where
  -- The method of that name, if it is to be wrapped and can be.
  unfoldable pub to_wrap : String → Control → Option Method
  to_wrap name control = elim (lookup name control) [
    | none ↦ none
    | some m ↦ if is_marked (some m) then none else if settable name then some m else none
  ]

  unfoldable pub wrap_one : String → Control → Control
  unfolding to_wrap
  wrap_one name control = with_wrapper name (to_wrap name control) control

  -- The loop of `_wrap`: the control, and the originals that were wrapped.
  unfoldable pub wrap_all : List String → Control → Control × Dict String Method
  unfolding wrap_one to_wrap
  wrap_all [] control = (control, [])
  wrap_all (name ∷ names) control =
      let (after, originals) = wrap_all names (wrap_one name control) in
      (after, with_original name (to_wrap name control) originals)

  unfoldable pub unwrap_one : String → Method → Control → Control
  unwrap_one name m control =
      if is_marked (lookup name control) && settable name then insert name m control else control

  -- The loop of `_unwrap`.
  unfoldable pub unwrap_all : Dict String Method → Control → Control
  unfolding unwrap_one
  unwrap_all [] control = control
  unwrap_all ((name, m) ∷ originals) control = unwrap_all originals (unwrap_one name m control)

-- The publisher: whether it holds a control and its originals, and its retries.
pub record VolumePublisher : Type 0 where
  pub holds_control : Bool
  pub originals : Dict String Method
  pub bind_attempts : ℕ
  pub stopped : Bool
  pub retry_due : Bool

abbrev pub bind_retry_limit : ℕ
bind_retry_limit = 20

-- `_wrap`, with enigma2's control, if there is one yet: whether it is bound.
unfoldable pub wrap :
    (String → Bool) → VolumePublisher → Option Control → Bool × (VolumePublisher × Option Control)
unfolding wrap_all
wrap settable p none = (p.holds_control, (p, none))
wrap settable p (some control) =
    if p.holds_control
    then (true, (p, some control))
    else let (after, originals) = wrap_all settable wrapped_names control in
      (true, (record p { holds_control = true; originals = originals }, some after))

unfoldable pub schedule_wrap : VolumePublisher → VolumePublisher
schedule_wrap p =
    if p.stopped
    then p
    else if leb bind_retry_limit p.bind_attempts
    then p
    else record p { bind_attempts = suc p.bind_attempts; retry_due = true }

-- The end of `start` and of `_retry_wrap`: bound, or asked for again.
unfoldable pub wrap_or_retry :
    (String → Bool) → VolumePublisher → Option Control → VolumePublisher × Option Control
unfolding wrap schedule_wrap
wrap_or_retry settable p control =
    let (bound, (next, after)) = wrap settable p control in
    (if bound then next else schedule_wrap next, after)

-- `start`, where `reports` says that the image gives the volume; the service's events and the ticker
-- are left out.
unfoldable pub start :
    (String → Bool)
    → Bool
    → VolumePublisher
    → Option Control
    → Bool × (VolumePublisher × Option Control)
unfolding wrap_or_retry
start settable reports p control =
    if not reports
    then (false, (p, control))
    else (true, wrap_or_retry settable (record p { stopped = false; bind_attempts = 0 }) control)

unfoldable pub retry :
    (String → Bool) → VolumePublisher → Option Control → VolumePublisher × Option Control
unfolding wrap_or_retry
retry settable p control = wrap_or_retry settable (record p { retry_due = false }) control

-- `stop`, with `_unwrap`.
unfoldable pub stop :
    (String → Bool) → VolumePublisher → Option Control → VolumePublisher × Option Control
unfolding unwrap_all
stop settable p control = (
  record p { stopped = true; retry_due = false; holds_control = false; originals = [] },
  elim control [
    | none ↦ none
    | some c ↦ some (if p.holds_control then unwrap_all settable p.originals c else c)
  ],
)
