-- ===== src/Policy/Tests.antt =====
-- The decisions at concrete settings.
use zigbee_gateway.Common.{◌≡◌, ◌≢◌, ◌↔◌, true, false, [], ◌∷◌}
use zigbee_gateway.Policy.Transport.{
  usb_bridged, usb_direct, cached, restored, zigbee_restored_metadata_status, restored_status_iff,
}
use zigbee_gateway.Policy.Role.{holds, select_initial_firmware_role, select-holds}

restored_status_iff_example :
    let status = zigbee_restored_metadata_status usb_bridged true true false in
    let known = (true ≡ true) × (true ≡ true) × (false ≡ false) in
    ((status ≡ cached) ↔ (known × (usb_bridged ≡ usb_direct)))
    × ((status ≡ restored) ↔ (known × (usb_bridged ≢ usb_direct)))
restored_status_iff_example = restored_status_iff usb_bridged true true false

select-holds_example :
    holds
      ("Router" ∷ "Coordinator" ∷ [])
      (select_initial_firmware_role ("Router" ∷ "Coordinator" ∷ []) "" "Coordinator" "Router")
    ≡ true
select-holds_example = select-holds "Router" ("Coordinator" ∷ []) "" "Coordinator" "Router"
