-- ===== src/Usb/Ownership.antt =====
-- The bridge runs only as the owner of the radio UART.
use mathlib.Core.Option.{Option, none, some}
use zigbee_gateway.Common.{◌≡◌, ◌↔◌, ◌⊎◌, arith, true, false}
use zigbee_gateway.Serial.Owner.{ZigbeeSerialOwner, unowned, usb_bridge, same_owner}
use zigbee_gateway.Serial.Uart.{UartComponent}
use zigbee_gateway.Serial.Gate.{ZigbeeSerialInterface, claim, release, drain}
use zigbee_gateway.Usb.Bridge.{ZigbeeUsbBridge, start, stop}

abbrev pub owner_of : {U : Type 0} → Option (ZigbeeSerialInterface U) → ZigbeeSerialOwner
owner_of none = unowned
owner_of (some s) = s.owner

-- A bridge that is stopped and has both UARTs starts exactly if nobody else owns the radio, and
-- owns it then; a stop gives the radio back, and leaves the bridge stopped.
pub stop-start :
    {U V : Type 0} (radio : UartComponent U) (usb : UartComponent V) (b : ZigbeeUsbBridge U V)
    (s : ZigbeeSerialInterface U) (v : V)
    → b.active ≡ false
    → b.serial ≡ some s
    → b.usb_uart ≡ some v
    → let (c, done) = start radio usb b in
      let d = stop radio usb c in
      ((done ≡ true) ↔ ((s.owner ≡ unowned) ⊎ (s.owner ≡ usb_bridge)))
      × (c.active ≡ done)
      × ((done ≡ false) ⊎ ((owner_of c.serial ≡ usb_bridge) × (owner_of d.serial ≡ unowned)))
      × (d.active ≡ false)
unfolding start stop claim release drain same_owner
stop-start radio usb b s v inactive has_serial has_uart = ground arith
