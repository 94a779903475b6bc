-- ===== src/Tests/Keypress.antt =====
-- The press combo's and the Back key's theorems at small inputs.
use enigma2_mqtt_bridge.Common.{
  ℕ, ◌+◌, ◌*◌, ◌<◌, ◌≡◌, inl, refl, true, false, Option, none, some, List, [], ◌∷◌, eqb, string_eq,
  option_eq, nat_eq, if◌then◌else◌, arith,
}
use enigma2_mqtt_bridge.Common.Result.{ok}
use enigma2_mqtt_bridge.Trust.Keys.{bytes_eq}
use enigma2_mqtt_bridge.Combo.{Choice, previous, ActionMap, Image, Combo, new_combo, Seen, round_ms}
use enigma2_mqtt_bridge.Combo.Counting.{Quick, press_all, presses_open}
use enigma2_mqtt_bridge.Combo.Binding.{IsTidy}
use enigma2_mqtt_bridge.Combo.Keymap.{MapElement, Found, read_keymap}
use enigma2_mqtt_bridge.BackKey as Back
use enigma2_mqtt_bridge.BackKey.{Mapped, BackKey, attach, nothing_mapped}
use enigma2_mqtt_bridge.BackKey.Shared.{
  Screens, Reached, at_first, then_step, opens, count_open, Reached-IsShared,
}

-- Three presses of the Back key, each within 600 ms.
abbrev bound_combo : Combo
bound_combo = record {
  choice = some previous;
  presses = 3;
  gap_ms = 600;
  bound = some previous;
  refusal = none;
  bound_action = true;
  raised = false;
  count = 0;
  last = none;
  dialog = none;
}

abbrev four_times : List ℕ
four_times = 500000 ∷ 900000 ∷ 1300000 ∷ []

four-Quick : Quick 600 100000 four_times
unfolding round_ms
four-Quick = (ground arith, (ground arith, (ground arith, tt)))

presses_open_example :
    let (end, opened) = press_all bound_combo 7 (100000 ∷ four_times) in
    (opened * 3 + end.count ≡ 4) × (end.count < 3)
presses_open_example =
    presses_open bound_combo 7 100000 four_times refl refl (ground arith) four-Quick

abbrev over_live : Seen
over_live = record { screen = ok (some 7); live = ok false; now = 100000 }

-- An image whose fourth call raises.
abbrev failing_image : Image
failing_image = record {
  has_map = true;
  can_bind = true;
  raises_at = some 3;
  unbinds_action = true;
  unbinds_domain = true;
}

abbrev empty_map : ActionMap
empty_map = record { mapped = []; handler = false }

abbrev no_codes : Choice → Option ℕ
no_codes key = none

new_IsTidy : IsTidy new_combo empty_map
unfolding new_combo
new_IsTidy = inl (refl, refl, refl, refl)

abbrev small_keymap : List MapElement
small_keymap =
    record {
      context = "InfobarChannelSelection";
      elements = record { key_id = "KEY_PREVIOUS"; mapto = "historyBack" } ∷ [];
    }
    ∷ []

abbrev small_found : Found
small_found = record { functions = "InfobarChannelSelection.historyBack" ∷ []; setup_names = [] }

small_read : read_keymap "KEY_PREVIOUS" (some 412) true (some small_keymap) ≡ some small_found
unfolding read_keymap bytes_eq string_eq
small_read = refl

abbrev able_image : Back.Image
able_image = record {
  instance_id = some 1;
  binds_key = true;
  has_bind_action = true;
  binds_action = true;
  unbinds_action = true;
  unbinds_domain = true;
}

abbrev open_menu : Screens
open_menu = record {
  open_screens = record { dialog = 5; bound = true } ∷ [];
  mapped = record { actions = some 1; count = 1; mappings = 1; handlers = 5 ∷ [] };
}

menu_attached :
    attach able_image 5 nothing_mapped
    ≡ (some (record { dialog = 5; bound = true }), open_menu.mapped)
unfolding attach option_eq nothing_mapped
menu_attached = refl

abbrev menu_reached : Reached 1 open_menu
menu_reached = then_step at_first (
    opens able_image 5 (record { open_screens = []; mapped = nothing_mapped })
      (record { dialog = 5; bound = true }) open_menu.mapped refl refl menu_attached)

Reached-IsShared_example :
    (open_menu.mapped.count ≡ count_open open_menu.open_screens)
    × (open_menu.mapped.mappings ≡ (if eqb (count_open open_menu.open_screens) 0 then 0 else 1))
Reached-IsShared_example = Reached-IsShared 1 open_menu menu_reached
