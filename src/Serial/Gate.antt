-- ===== src/Serial/Gate.antt =====
-- `ZigbeeSerialInterface` of zigbee_serial.h. A method returns the interface after the call, with
-- its result. The UART is a null pointer if `uart` is `none`.
use mathlib.Core.Option.{Option, none, some}
use zigbee_gateway.Common.{
  ℕ, zero, suc, ◌+◌, Bool, true, false, not, ◌&&◌, ◌||◌, List, ◌==◌, if◌then◌else◌,
}
use zigbee_gateway.Serial.Owner.{
  ZigbeeSerialOwner, unowned, local, tcp_normal, tcp_maintenance, usb_bridge, same_owner,
}
use zigbee_gateway.Serial.Uart.{UartComponent}

pub record ZigbeeSerialInterface (U : Type 0) : Type 0 where
  pub uart : Option U
  pub owner : ZigbeeSerialOwner

module _ {U : Type 0} where
  unfoldable pub set_uart : ZigbeeSerialInterface U → Option U → ZigbeeSerialInterface U
  set_uart s u = record s { uart = u }

  unfoldable pub is_local_owner : ZigbeeSerialInterface U → Bool
  unfolding same_owner
  is_local_owner s = same_owner s.owner local

  unfoldable pub is_tcp_owner : ZigbeeSerialInterface U → Bool
  unfolding same_owner
  is_tcp_owner s = same_owner s.owner tcp_normal || same_owner s.owner tcp_maintenance

  unfoldable pub is_stream_owner : ZigbeeSerialInterface U → Bool
  unfolding is_tcp_owner same_owner
  is_stream_owner s = is_tcp_owner s || same_owner s.owner usb_bridge

  unfoldable pub claim :
      ZigbeeSerialInterface U → ZigbeeSerialOwner → ZigbeeSerialInterface U × Bool
  unfolding same_owner
  claim s owner =
      if same_owner owner unowned
      then (s, false)
      else if not (same_owner s.owner unowned) && not (same_owner s.owner owner)
      then (s, false)
      else (record s { owner = owner }, true)

  unfoldable pub set_owner : ZigbeeSerialInterface U → ZigbeeSerialOwner → ZigbeeSerialInterface U
  set_owner s owner = record s { owner = owner }

  unfoldable pub release : ZigbeeSerialInterface U → ZigbeeSerialOwner → ZigbeeSerialInterface U
  unfolding same_owner
  release s owner = if same_owner s.owner owner then record s { owner = unowned } else s

module _ {U : Type 0} (ops : UartComponent U) where
  -- The local operations act on the UART only under the local owner.
  unfoldable pub available : ZigbeeSerialInterface U → ℕ
  unfolding is_local_owner
  available s =
      if not (is_local_owner s) then 0 else elim s.uart [ none ↦ 0 | some u ↦ ops.available u ]

  -- What a read returns, and the interface with the UART after it.
  abbrev pub with_reply :
      {A : Type 0} → ZigbeeSerialInterface U → Option A × U → ZigbeeSerialInterface U × Option A
  with_reply s (reply, u) = (record s { uart = some u }, reply)

  unfoldable pub read_byte : ZigbeeSerialInterface U → ZigbeeSerialInterface U × Option ℕ
  unfolding is_local_owner
  read_byte s =
      if is_local_owner s
      then elim s.uart [ none ↦ (s, none) | some u ↦ with_reply s (ops.read_byte u) ]
      else (s, none)

  unfoldable pub read_array :
      ZigbeeSerialInterface U → ℕ → ZigbeeSerialInterface U × Option (List ℕ)
  unfolding is_local_owner
  read_array s n =
      if is_local_owner s
      then elim s.uart [ none ↦ (s, none) | some u ↦ with_reply s (ops.read_array u n) ]
      else (s, none)

  unfoldable pub write_byte : ZigbeeSerialInterface U → ℕ → ZigbeeSerialInterface U
  unfolding is_local_owner
  write_byte s b =
      if is_local_owner s
      then elim s.uart [ none ↦ s | some u ↦ record s { uart = some (ops.write_byte u b) } ]
      else s

  unfoldable pub write_array : ZigbeeSerialInterface U → List ℕ → ZigbeeSerialInterface U
  unfolding is_local_owner
  write_array s out =
      if is_local_owner s
      then elim s.uart [ none ↦ s | some u ↦ record s { uart = some (ops.write_array u out) } ]
      else s

  unfoldable pub flush : ZigbeeSerialInterface U → ZigbeeSerialInterface U
  unfolding is_local_owner
  flush s =
      if is_local_owner s
      then elim s.uart [ none ↦ s | some u ↦ record s { uart = some (ops.flush u) } ]
      else s

  -- The stream operations want the caller's own token.
  unfoldable pub stream_available : ZigbeeSerialInterface U → ZigbeeSerialOwner → ℕ
  unfolding is_stream_owner same_owner
  stream_available s owner =
      if not (is_stream_owner s) || not (same_owner s.owner owner)
      then 0
      else elim s.uart [ none ↦ 0 | some u ↦ ops.available u ]

  unfoldable pub stream_read_array :
      ZigbeeSerialInterface U → ZigbeeSerialOwner → ℕ → ZigbeeSerialInterface U × Option (List ℕ)
  unfolding is_stream_owner same_owner
  stream_read_array s owner n =
      if is_stream_owner s && same_owner s.owner owner
      then elim s.uart [ none ↦ (s, none) | some u ↦ with_reply s (ops.read_array u n) ]
      else (s, none)

  unfoldable pub stream_write_array :
      ZigbeeSerialInterface U → ZigbeeSerialOwner → List ℕ → ZigbeeSerialInterface U × Bool
  unfolding is_stream_owner same_owner
  stream_write_array s owner out =
      if not (is_stream_owner s) || not (same_owner s.owner owner)
      then (s, false)
      else elim s.uart [
        | none ↦ (s, false)
        | some u ↦ (record s { uart = some (ops.write_array u out) }, true)
      ]

  -- The loop of `drain`, on fuel.
  unfoldable pub drain_loop : ℕ → U → U
  drain_loop zero u = u
  drain_loop (suc fuel) u = elim (ops.available u == 0) [
    | true ↦ u
    | false ↦ elim (ops.read_byte u).0 [
      | none ↦ (ops.read_byte u).1
      | some b ↦ drain_loop fuel (ops.read_byte u).1
    ]
  ]

  unfoldable pub drain : ZigbeeSerialInterface U → ZigbeeSerialOwner → ZigbeeSerialInterface U
  unfolding same_owner drain_loop
  drain s owner = if not (same_owner s.owner owner) then s else elim s.uart [
    | none ↦ s
    | some u ↦ record s { uart = some (drain_loop (ops.available u + 1) u) }
  ]
