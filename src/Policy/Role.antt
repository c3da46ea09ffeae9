-- ===== src/Policy/Role.antt =====
-- zigbee_firmware_target.h and zigbee_reset_policy.h: decisions by the role of the radio.
use Prim.Native.String.{String}
use text.Mathlib.Text.{◌==◌ as str_eq}
use text.Mathlib.TextEquality.{eq_iff}
use zigbee_gateway.Common.{
  ◌≡◌, arith, Bool, true, false, not, ◌&&◌, ◌||◌, List, [], ◌∷◌, if◌then◌else◌,
}

pub data ZigbeeResetCompletionPolicy : Type 0 where
  wait_for_znp_reset_ind settle_only : ZigbeeResetCompletionPolicy

unfoldable pub zigbee_reset_completion_policy : String → ZigbeeResetCompletionPolicy
zigbee_reset_completion_policy role =
    if str_eq role "Router" then settle_only else wait_for_znp_reset_ind

-- `std::find(…) != end()`
unfoldable pub holds : List String → String → Bool
holds [] role = false
holds (r ∷ rs) role = str_eq r role || holds rs role

-- The lambda `available`.
unfoldable pub is_available : List String → String → Bool
unfolding holds
is_available available_roles role = not (str_eq role "") && holds available_roles role

unfoldable pub front_or_empty : List String → String
front_or_empty [] = ""
front_or_empty (r ∷ rs) = r

unfoldable pub select_initial_firmware_role : List String → String → String → String → String
unfolding is_available front_or_empty
select_initial_firmware_role available_roles saved_target_role current_radio_role preferred_role =
    if is_available available_roles saved_target_role
    then saved_target_role
    else if is_available available_roles current_radio_role
    then current_radio_role
    else if is_available available_roles preferred_role
    then preferred_role
    else front_or_empty available_roles

-- If there is any role, the selected one is among the available roles.
pub select-holds :
    (r : String) (rs : List String) (saved current preferred : String)
    → holds (r ∷ rs) (select_initial_firmware_role (r ∷ rs) saved current preferred) ≡ true
unfolding select_initial_firmware_role
select-holds r rs saved current preferred = ground (arith, eq_iff r r)
