-- ===== src/BackKey.antt =====
-- The Back key of the plugin's screens, src/MQTTBridge/backkey.py: one mapping of the key is shared by
-- all open screens and counted. What the image can do at each call is an argument.
pub mod Shared
use enigma2_mqtt_bridge.Common.{
  ℕ, zero, suc, ◌+◌, ◌-◌, Bool, true, false, not, ◌&&◌, ◌||◌, Option, none, some, List, [], ◌∷◌,
  ◌==◌, nat_eq, option_eq, eqb, if◌then◌else◌,
}

-- `eActionMap.getInstance()`, by identity, and which of its methods are there and do not raise.
pub record Image : Type 0 where
  pub instance_id : Option ℕ
  pub binds_key : Bool
  pub has_bind_action : Bool
  pub binds_action : Bool
  pub unbinds_action : Bool
  pub unbinds_domain : Bool

-- `_mapped`, how often the key is mapped in the plugin's domain, and the dialogs whose handler stands in
-- the action map.
pub record Mapped : Type 0 where
  pub actions : Option ℕ
  pub count : ℕ
  pub mappings : ℕ
  pub handlers : List ℕ

unfoldable pub nothing_mapped : Mapped
nothing_mapped = record { actions = none; count = 0; mappings = 0; handlers = [] }

-- `_map`: whether it could, and what is mapped then.
unfoldable pub map_key : Image → ℕ → Mapped → Bool × Mapped
map_key image instance_id m =
    if not (m.actions == some instance_id) || eqb m.count 0
    then if image.binds_key
      then (true, record m { actions = some instance_id; count = 1; mappings = suc m.mappings })
      else (false, m)
    else (true, record m { count = suc m.count })

-- `_unmap`
unfoldable pub unmap_key : Image → Option ℕ → Mapped → Mapped
unmap_key image none m = m
unmap_key image (some instance_id) m =
    if not (m.actions == some instance_id)
    then m
    else if not (eqb (m.count - 1) 0)
    then record m { count = m.count - 1 }
    else record m {
      actions = none;
      count = m.count - 1;
      mappings = if image.unbinds_domain then 0 else m.mappings;
    }

-- The `BackKey` of one dialog.
pub record BackKey : Type 0 where
  pub dialog : ℕ
  pub bound : Bool

-- The end of `bind`, once the key is mapped.
bind_handler : Image → ℕ → BackKey → Bool × Mapped → BackKey × Mapped
unfolding unmap_key
bind_handler image instance_id back (false, m) = (back, m)
bind_handler image instance_id back (true, m) =
    if image.binds_action
    then (record back { bound = true }, record m { handlers = back.dialog ∷ m.handlers })
    else (back, unmap_key image (some instance_id) m)

bind_at : Image → Option ℕ → BackKey → Mapped → BackKey × Mapped
unfolding bind_handler map_key
bind_at image none back m = (back, m)
bind_at image (some instance_id) back m =
    if image.has_bind_action
    then bind_handler image instance_id back (map_key image instance_id m)
    else (back, m)

-- `bind`; its return value is the field `bound`.
unfoldable pub bind : Image → BackKey → Mapped → BackKey × Mapped
unfolding bind_at
bind image back m = bind_at image image.instance_id back m

abbrev drop_handler : ℕ → List ℕ → List ℕ
drop_handler dialog [] = []
drop_handler dialog (d ∷ ds) = if eqb dialog d then ds else d ∷ drop_handler dialog ds

unfoldable pub unbind : Image → BackKey → Mapped → BackKey × Mapped
unfolding unmap_key
unbind image back m = if not back.bound then (back, m) else (
  record back { bound = false },
  unmap_key image image.instance_id (
      if image.unbinds_action
      then record m { handlers = drop_handler back.dialog m.handlers }
      else m),
)

-- `_action`: whether the event is consumed, and whether the screen is cancelled. `ours` says that the
-- context and the action are the plugin's; `current` is the executing dialog, `cancels` that the
-- screen's `cancel` does not raise.
unfoldable pub handle_action : BackKey → Bool → Option ℕ → Bool → Bool × Bool
handle_action back ours current cancels =
    if not ours || not back.bound
    then (false, false)
    else if not (current == some back.dialog)
    then (false, false)
    else (cancels, cancels)

if_bound : BackKey × Mapped → Option BackKey × Mapped
if_bound (back, after) = (if back.bound then some back else none, after)

-- `attach`: the binding of a new screen, or none where the key cannot be bound.
unfoldable pub attach : Image → ℕ → Mapped → Option BackKey × Mapped
unfolding bind if_bound
attach image dialog m = if_bound (bind image (record { dialog = dialog; bound = false }) m)
