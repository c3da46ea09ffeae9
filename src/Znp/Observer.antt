-- ===== src/Znp/Observer.antt =====
-- zigbee_znp_observer.h: which frames are decoded, and the role that they show.
use mathlib.Core.Option.{Option, none, some}
use Prim.Native.String.{String}
use zigbee_gateway.Common.{
  ℕ, ◌+◌, bit_and, bit_or, Bool, true, false, ◌&&◌, ◌||◌, List, [], ◌∷◌, leb, ◌==◌, if◌then◌else◌,
  u16, u32, ◌<<◌, get_or, replicate,
}

-- `no_observation` is NONE.
pub data ZnpObservationType : Type 0 where
  no_observation sys_version util_device_info zdo_ext_network_info : ZnpObservationType
  zdo_state_change : ZnpObservationType

pub record ZnpObservation : Type 0 where
  pub type : ZnpObservationType
  pub major : ℕ
  pub minor : ℕ
  pub maintenance : ℕ
  pub revision : ℕ
  pub active_ieee_lsb : List ℕ
  pub device_capabilities : ℕ
  pub device_state : ℕ
  pub pan_id : ℕ
  pub extended_pan_id_lsb : List ℕ
  pub parent_ieee_lsb : List ℕ
  pub channel : ℕ

abbrev pub new_observation : ZnpObservation
new_observation = record {
  type = no_observation;
  major = 0;
  minor = 0;
  maintenance = 0;
  revision = 0;
  active_ieee_lsb = replicate 8 0;
  device_capabilities = 0;
  device_state = 0;
  pan_id = 0;
  extended_pan_id_lsb = replicate 8 0;
  parent_ieee_lsb = replicate 8 0;
  channel = 0;
}

pub data ZnpObservedRole : Type 0 where
  unknown coordinator router end_device : ZnpObservedRole

unfoldable pub znp_observed_role : ℕ → ℕ → ZnpObservedRole
znp_observed_role device_capabilities device_state =
    if device_state == 6
    then end_device
    else if device_state == 7
    then router
    else if device_state == 8 || device_state == 9
    then coordinator
    else let capability = bit_and device_capabilities 0x07 in
      if capability == 0x01
      then coordinator
      else if capability == 0x02
      then router
      else if capability == 0x04
      then end_device
      else unknown

unfoldable pub znp_observed_role_name : ZnpObservedRole → String
znp_observed_role_name coordinator = "Coordinator"
znp_observed_role_name router = "Router"
znp_observed_role_name end_device = "End Device"
znp_observed_role_name unknown = "Unknown"

unfoldable pub znp_device_state_is_on_network : ℕ → Bool
znp_device_state_is_on_network state = state == 6 || (state == 7 || state == 9)

-- The loops that copy eight bytes, from `payload[start]` on.
abbrev pub eight_bytes : List ℕ → ℕ → List ℕ
eight_bytes payload start =
    get_or payload (start + 0) 0
    ∷ get_or payload (start + 1) 0
    ∷ get_or payload (start + 2) 0
    ∷ get_or payload (start + 3) 0
    ∷ get_or payload (start + 4) 0
    ∷ get_or payload (start + 5) 0
    ∷ get_or payload (start + 6) 0
    ∷ get_or payload (start + 7) 0
    ∷ []

unfoldable pub observe_sys_version : List ℕ → ZnpObservation
observe_sys_version payload = record new_observation {
  type = sys_version;
  major = get_or payload 2 0;
  minor = get_or payload 3 0;
  maintenance = get_or payload 4 0;
  revision =
      bit_or
        (bit_or (bit_or (get_or payload 5 0) (u32 (get_or payload 6 0 << 8)))
          (u32 (get_or payload 7 0 << 16)))
        (u32 (get_or payload 8 0 << 24));
}

unfoldable pub observe_device_info : List ℕ → ZnpObservation
observe_device_info payload = record new_observation {
  type = util_device_info;
  active_ieee_lsb = eight_bytes payload 1;
  device_capabilities = get_or payload 11 0;
  device_state = get_or payload 12 0;
}

unfoldable pub observe_ext_network_info : List ℕ → ZnpObservation
observe_ext_network_info payload = record new_observation {
  type = zdo_ext_network_info;
  device_state = get_or payload 2 0;
  pan_id = u16 (bit_or (get_or payload 3 0) (get_or payload 4 0 << 8));
  extended_pan_id_lsb = eight_bytes payload 7;
  parent_ieee_lsb = eight_bytes payload 15;
  channel = get_or payload 23 0;
}

unfoldable pub observe_state_change : List ℕ → ZnpObservation
observe_state_change payload = record new_observation {
  type = zdo_state_change;
  device_state = get_or payload 0 0;
}

-- The observation is none for a null pointer, and otherwise the object that the pointer names. It
-- is returned as the call leaves it.
unfoldable pub decode_znp_observation :
    ℕ → ℕ → Option (List ℕ) → ℕ → Option ZnpObservation → Bool × Option ZnpObservation
unfolding observe_sys_version observe_device_info observe_ext_network_info observe_state_change
decode_znp_observation cmd0 cmd1 none count observation = (false, observation)
decode_znp_observation cmd0 cmd1 (some payload) count none = (false, none)
decode_znp_observation cmd0 cmd1 (some payload) count (some observation) =
    if (cmd0 == 0x61 && cmd1 == 0x02) && leb 9 count
    then (true, some (observe_sys_version payload))
    else if ((cmd0 == 0x67 && cmd1 == 0x00) && leb 14 count) && get_or payload 0 0 == 0x00
    then (true, some (observe_device_info payload))
    else if (cmd0 == 0x65 && cmd1 == 0x50) && count == 24
    then (true, some (observe_ext_network_info payload))
    else if (cmd0 == 0x45 && cmd1 == 0xC0) && count == 1
    then (true, some (observe_state_change payload))
    else (false, some new_observation)
