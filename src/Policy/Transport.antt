-- ===== src/Policy/Transport.antt =====
-- zigbee_transport_mode.h: the transport modes, and the status of restored metadata.
use mathlib.Core.Option.{Option, none, some}
use Prim.Native.String.{String}
use zigbee_gateway.Common.{
  ℕ, ◌≡◌, ◌≢◌, ◌↔◌, arith, Bool, true, false, not, ◌&&◌, leb, ◌==◌, if◌then◌else◌,
}

pub data ZigbeeTransportMode : Type 0 where
  tcp usb_bridged usb_direct : ZigbeeTransportMode

abbrev pub zigbee_transport_mode_count : ℕ
zigbee_transport_mode_count = 3

unfoldable pub mode_code : ZigbeeTransportMode → ℕ
mode_code tcp = 0
mode_code usb_bridged = 1
mode_code usb_direct = 2

unfoldable pub zigbee_transport_mode_name : ZigbeeTransportMode → String
zigbee_transport_mode_name tcp = "TCP"
zigbee_transport_mode_name usb_bridged = "USB Bridged"
zigbee_transport_mode_name usb_direct = "USB Direct"

-- The cast of an index in range.
unfoldable pub mode_of_code : ℕ → ZigbeeTransportMode
mode_of_code index = if index == 0 then tcp else if index == 1 then usb_bridged else usb_direct

-- The mode is none for a null pointer, and is returned as the call leaves it.
unfoldable pub zigbee_transport_mode_from_index :
    ℕ → Option ZigbeeTransportMode → Bool × Option ZigbeeTransportMode
unfolding mode_of_code
zigbee_transport_mode_from_index index none = (false, none)
zigbee_transport_mode_from_index index (some mode) =
    if leb zigbee_transport_mode_count index
    then (false, some mode)
    else (true, some (mode_of_code index))

unfoldable pub zigbee_transport_uses_tcp : ZigbeeTransportMode → Bool
unfolding mode_code
zigbee_transport_uses_tcp mode = mode_code mode == 0

unfoldable pub zigbee_transport_uses_software_bridge : ZigbeeTransportMode → Bool
unfolding mode_code
zigbee_transport_uses_software_bridge mode = mode_code mode == 1

unfoldable pub zigbee_transport_uses_direct_pin : ZigbeeTransportMode → Bool
unfolding mode_code
zigbee_transport_uses_direct_pin mode = mode_code mode == 2

-- The texts that the status function returns.
pub data RestoredStatus : Type 0 where
  awaiting_observation unavailable cached restored : RestoredStatus

unfoldable pub zigbee_restored_metadata_status :
    ZigbeeTransportMode → Bool → Bool → Bool → RestoredStatus
unfolding mode_code
zigbee_restored_metadata_status mode physical_identity_available running_image_available awaiting =
    if running_image_available && awaiting
    then awaiting_observation
    else if not physical_identity_available
    then unavailable
    else if not running_image_available
    then awaiting_observation
    else if mode_code mode == 2
    then cached
    else restored

-- Metadata shows as restored or cached exactly if the physical identity and an image that awaits no
-- observation are available, and then as cached exactly in the direct mode.
pub restored_status_iff :
    (mode : ZigbeeTransportMode) (physical image awaiting : Bool)
    → let status = zigbee_restored_metadata_status mode physical image awaiting in
      let known = (physical ≡ true) × (image ≡ true) × (awaiting ≡ false) in
      ((status ≡ cached) ↔ (known × (mode ≡ usb_direct)))
      × ((status ≡ restored) ↔ (known × (mode ≢ usb_direct)))
unfolding zigbee_restored_metadata_status
restored_status_iff tcp physical image awaiting = ground arith
restored_status_iff usb_bridged physical image awaiting = ground arith
restored_status_iff usb_direct physical image awaiting = ground arith
