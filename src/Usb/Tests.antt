-- ===== src/Usb/Tests.antt =====
-- The bridge between two concrete UARTs.
use mathlib.Core.Option.{none, some}
use zigbee_gateway.Common.{ℕ, ◌≡◌, ◌↔◌, ◌⊎◌, refl, true, false}
use zigbee_gateway.Serial.Owner.{unowned, usb_bridge}
use zigbee_gateway.Serial.Uart.{UartComponent}
use zigbee_gateway.Serial.Gate.{ZigbeeSerialInterface}
use zigbee_gateway.Stream.Pump.{reset}
use zigbee_gateway.Usb.Bridge.{ZigbeeUsbBridge, start, stop}
use zigbee_gateway.Usb.Ownership.{owner_of, stop-start}

-- A UART that counts the bytes waiting on it, all of them 0.
abbrev waiting : UartComponent ℕ
waiting = record {
  available = λ u. u;
  read_byte = λ u. (some 0, 0);
  read_array = λ u n. (none, u);
  write_byte = λ u b. u;
  write_array = λ u out. u;
  flush = λ u. u;
}

abbrev free_radio : ZigbeeSerialInterface ℕ
free_radio = record { uart = some 3; owner = unowned }

abbrev bridge : ZigbeeUsbBridge ℕ ℕ
bridge = record { serial = some free_radio; usb_uart = some 5; buffers = reset; active = false }

stop-start_example :
    let (c, done) = start waiting waiting bridge in
    let d = stop waiting waiting c in
    ((done ≡ true) ↔ ((free_radio.owner ≡ unowned) ⊎ (free_radio.owner ≡ usb_bridge)))
    × (c.active ≡ done)
    × ((done ≡ false) ⊎ ((owner_of c.serial ≡ usb_bridge) × (owner_of d.serial ≡ unowned)))
    × (d.active ≡ false)
stop-start_example = stop-start waiting waiting bridge free_radio 5 refl refl refl
