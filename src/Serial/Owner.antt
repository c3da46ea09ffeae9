-- ===== src/Serial/Owner.antt =====
-- zigbee_serial_owner.h: who may use the radio UART.
use zigbee_gateway.Common.{ℕ, Bool, ◌||◌, ◌==◌}

pub data ZigbeeSerialOwner : Type 0 where
  unowned local tcp_normal tcp_maintenance usb_bridge : ZigbeeSerialOwner

-- The value of the enumerator.
unfoldable pub owner_code : ZigbeeSerialOwner → ℕ
owner_code unowned = 0
owner_code local = 1
owner_code tcp_normal = 2
owner_code tcp_maintenance = 3
owner_code usb_bridge = 4

-- `a == b` on the enumeration.
unfoldable pub same_owner : ZigbeeSerialOwner → ZigbeeSerialOwner → Bool
unfolding owner_code
same_owner a b = owner_code a == owner_code b

unfoldable pub zigbee_serial_owner_allows_passive_znp_observation : ZigbeeSerialOwner → Bool
unfolding same_owner
zigbee_serial_owner_allows_passive_znp_observation owner =
    same_owner owner tcp_normal || same_owner owner usb_bridge
