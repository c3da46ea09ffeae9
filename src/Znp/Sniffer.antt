-- ===== src/Znp/Sniffer.antt =====
-- The passive sniffer of zigbee_gateway.cpp: `sniff_byte_` reassembles the frames of each direction,
-- and queues the observations of the radio's frames. Logs are left out.
use mathlib.Core.Option.{Option, none, some}
use zigbee_gateway.Common.{
  ℕ, ◌+◌, Bool, true, false, not, ◌&&◌, List, [], ◌∷◌, ◌++◌, ltb, leb, ◌==◌, if◌then◌else◌, length,
  take, drop, replicate, get_or, u8, ◌>>◌, bit_and,
}
use zigbee_gateway.Serial.Owner.{
  ZigbeeSerialOwner, zigbee_serial_owner_allows_passive_znp_observation,
}
use zigbee_gateway.Znp.Frame.{znp_frame_fcs_valid}
use zigbee_gateway.Znp.Observer.{ZnpObservation, new_observation, decode_znp_observation}

pub data UartDirection : Type 0 where
  uart_direction_rx uart_direction_tx : UartDirection

-- The member `length` is named `count`.
pub record ZnpSnifferState : Type 0 where
  pub state : ℕ
  pub count : ℕ
  pub cmd0 : ℕ
  pub cmd1 : ℕ
  pub index : ℕ
  pub payload : List ℕ

abbrev pub new_sniffer : ZnpSnifferState
new_sniffer = record {
  state = 0;
  count = 0;
  cmd0 = 0;
  cmd1 = 0;
  index = 0;
  payload = replicate 256 0;
}

-- `reset_sniffer_`, which leaves the payload.
unfoldable pub reset_sniffer : ZnpSnifferState → ZnpSnifferState
reset_sniffer s = record s { state = 0; count = 0; cmd0 = 0; cmd1 = 0; index = 0 }

-- The members of the gateway that the sniffer reads and writes. The queue is the list of the first
-- `pending_znp_observation_count_` entries of its array of 8, and `published` holds the bytes whose signed
-- values the sensor of the transmit power, if it is set, was given.
pub record Observed : Type 0 where
  pub sniffer_enabled : Bool
  pub owner : ZigbeeSerialOwner
  pub tx_sniffer : ZnpSnifferState
  pub rx_sniffer : ZnpSnifferState
  pub pending_znp_observations : List ZnpObservation
  pub tx_power_sensor : Bool
  pub published : List ℕ

abbrev pub pending_capacity : ℕ
pending_capacity = 8

-- A list without its first entry.
abbrev pub tail_of : {A : Type 0} → List A → List A
tail_of [] = []
tail_of (x ∷ xs) = xs

-- `queue_znp_observation_`
unfoldable pub queue_znp_observation : Observed → ZnpObservation → Observed
queue_znp_observation g o =
    if not (zigbee_serial_owner_allows_passive_znp_observation g.owner) then g else record g {
      pending_znp_observations =
          (if length g.pending_znp_observations == pending_capacity
            then tail_of g.pending_znp_observations
            else g.pending_znp_observations)
          ++ (o ∷ []);
    }

-- `array[index] = byte`, for an index in range.
abbrev pub put : List ℕ → ℕ → ℕ → List ℕ
put array index byte = take index array ++ (byte ∷ drop (index + 1) array)

-- The cases 0 to 4 of the switch, and the default one.
unfoldable pub sniff_state : ZnpSnifferState → ℕ → ZnpSnifferState
unfolding reset_sniffer
sniff_state s byte =
    if s.state == 0
    then (if byte == 0xFE then record s { state = 1; index = 0 } else s)
    else if s.state == 1
    then record s { count = byte; state = 2 }
    else if s.state == 2
    then record s { cmd0 = byte; state = 3 }
    else if s.state == 3
    then record s { cmd1 = byte; state = if s.count == 0 then 5 else 4 }
    else if s.state == 4
    then (let stored =
          if ltb s.index (length s.payload)
          then record s { payload = put s.payload s.index byte; index = u8 (s.index + 1) }
          else s in
        if leb stored.count stored.index then record stored { state = 5 } else stored)
    else reset_sniffer s

-- The payload byte that is the signed power in dBm.
unfoldable pub transmit_power : ZnpSnifferState → Option ℕ
transmit_power s =
    if s.cmd1 == 0x14 && s.count == 1
    then some (get_or s.payload 0 0)
    else if s.cmd1 == 0x0F && (leb 2 s.count && get_or s.payload 0 0 == 0x00)
    then some (get_or s.payload 1 0)
    else none

abbrev pub is_rx : UartDirection → Bool
is_rx uart_direction_rx = true
is_rx uart_direction_tx = false

-- What case 5 does with a decoded observation.
abbrev pub queue_decoded : Observed → Bool × Option ZnpObservation → Observed
queue_decoded g (true, some o) = queue_znp_observation g o
queue_decoded g (_, _) = g

abbrev pub publish : Observed → Option ℕ → Observed
publish g none = g
publish g (some dbm) =
    if g.tx_power_sensor then record g { published = g.published ++ (dbm ∷ []) } else g

-- Case 5, the check byte, without the reset behind it.
unfoldable pub sniff_frame : Observed → UartDirection → ZnpSnifferState → ℕ → Observed
unfolding queue_znp_observation transmit_power
sniff_frame g direction s byte =
    let fcs_ok = znp_frame_fcs_valid s.count s.cmd0 s.cmd1 s.payload byte in
    let command_type = bit_and (s.cmd0 >> 5) 0x07 in
    let g' =
      if fcs_ok && is_rx direction
      then queue_decoded g
          (decode_znp_observation s.cmd0 s.cmd1 (some s.payload) s.count (some new_observation))
      else g in
    if fcs_ok && (command_type == 1 && bit_and s.cmd0 0x1F == 0x01)
    then publish g' (transmit_power s)
    else g'

abbrev pub sniffer_of : Observed → UartDirection → ZnpSnifferState
sniffer_of g uart_direction_rx = g.rx_sniffer
sniffer_of g uart_direction_tx = g.tx_sniffer

abbrev pub with_sniffer : Observed → UartDirection → ZnpSnifferState → Observed
with_sniffer g uart_direction_rx s = record g { rx_sniffer = s }
with_sniffer g uart_direction_tx s = record g { tx_sniffer = s }

-- `sniff_byte_`
unfoldable pub sniff_byte : Observed → UartDirection → ℕ → Observed
unfolding reset_sniffer sniff_state sniff_frame
sniff_byte g direction byte =
    if not g.sniffer_enabled
    then record g {
      tx_sniffer = reset_sniffer g.tx_sniffer;
      rx_sniffer = reset_sniffer g.rx_sniffer;
    }
    else let s = sniffer_of g direction in
      if s.state == 5
      then with_sniffer (sniff_frame g direction s byte) direction (reset_sniffer s)
      else with_sniffer g direction (sniff_state s byte)

unfoldable pub sniff_all : Observed → UartDirection → List ℕ → Observed
sniff_all g direction [] = g
sniff_all g direction (b ∷ bs) = sniff_all (sniff_byte g direction b) direction bs
