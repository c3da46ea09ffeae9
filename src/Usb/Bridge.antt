-- ===== src/Usb/Bridge.antt =====
-- `ZigbeeUsbBridge` of zigbee_usb_bridge.h and zigbee_usb_bridge.cpp. The two UARTs are parameters,
-- and a null pointer is `none`. The endpoints stand for the pointers that the setters give them.
use mathlib.Core.Option.{Option, none, some}
use zigbee_gateway.Common.{Bool, true, false, if◌then◌else◌}
use zigbee_gateway.Serial.Owner.{usb_bridge}
use zigbee_gateway.Serial.Uart.{UartComponent}
use zigbee_gateway.Serial.Gate.{ZigbeeSerialInterface, claim, release, drain}
use zigbee_gateway.Stream.Pump.{Buffers, reset, Pumped, pump}
use zigbee_gateway.Stream.Adapters.{
  ZigbeeRadioStreamEndpoint, radio_endpoint, uart_endpoint, uart_drain,
}

pub record ZigbeeUsbBridge (U V : Type 0) : Type 0 where
  pub serial : Option (ZigbeeSerialInterface U)
  pub usb_uart : Option V
  pub buffers : Buffers
  pub active : Bool

module _ {U V : Type 0} (radio : UartComponent U) (usb : UartComponent V) where
  -- `serial_->drain(USB_BRIDGE)`, if the pointer is not null.
  abbrev pub drained : Option (ZigbeeSerialInterface U) → Option (ZigbeeSerialInterface U)
  drained none = none
  drained (some s) = some (drain radio s usb_bridge)

  -- The drain and the release at the end of `stop`.
  abbrev pub let_go : Option (ZigbeeSerialInterface U) → Option (ZigbeeSerialInterface U)
  let_go none = none
  let_go (some s) = some (release (drain radio s usb_bridge) usb_bridge)

  -- `start` behind its first test, for the two pointers.
  abbrev pub start_with :
      ZigbeeUsbBridge U V → Option (ZigbeeSerialInterface U) → Option V → ZigbeeUsbBridge U V × Bool
  start_with b none usb_uart = (b, false)
  start_with b (some s) none = (b, false)
  start_with b (some s) (some v) =
      let (s', granted) = claim s usb_bridge in
      if granted
      then (
        record {
          serial = some (drain radio s' usb_bridge);
          usb_uart = uart_drain usb (some v);
          buffers = reset;
          active = true;
        },
        true,
      )
      else (record b { serial = some s' }, false)

  unfoldable pub start : ZigbeeUsbBridge U V → ZigbeeUsbBridge U V × Bool
  start b = if b.active then (b, true) else start_with b b.serial b.usb_uart

  abbrev pub pumped :
      Option (Pumped (Option V) (ZigbeeRadioStreamEndpoint U)) → Option (ZigbeeUsbBridge U V)
  pumped none = none
  pumped (some out) = some (record {
    serial = out.right.serial;
    usb_uart = out.left;
    buffers = out.buffers;
    active = true;
  })

  -- `loop`: `none` is the fuel of the pump run out. A result other than active is only logged.
  unfoldable pub loop : ZigbeeUsbBridge U V → Option (ZigbeeUsbBridge U V)
  loop b =
      if b.active
      then pumped (
          pump (uart_endpoint usb) (radio_endpoint radio) true b.usb_uart
            (record { serial = b.serial; owner = usb_bridge }) b.buffers)
      else some b

  unfoldable pub stop : ZigbeeUsbBridge U V → ZigbeeUsbBridge U V
  stop b =
      if b.active
      then record {
        serial = let_go b.serial;
        usb_uart = uart_drain usb b.usb_uart;
        buffers = reset;
        active = false;
      }
      else b

  unfoldable pub reset_buffers : ZigbeeUsbBridge U V → ZigbeeUsbBridge U V
  reset_buffers b = record b {
    serial = drained b.serial;
    usb_uart = uart_drain usb b.usb_uart;
    buffers = reset;
  }
