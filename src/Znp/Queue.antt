-- ===== src/Znp/Queue.antt =====
-- The queue of observations stays within its array, and holds the newest of them.
use mathlib.Core.Option.{Option, none, some}
use zigbee_gateway.Common.{
  ℕ, ◌≤◌, ◌≡◌, refl, arith, Bool, true, false, List, [], ◌∷◌, length, length-append,
}
use zigbee_gateway.Znp.Observer.{ZnpObservation, new_observation, decode_znp_observation}
use zigbee_gateway.Znp.Sniffer.{
  Observed, UartDirection, uart_direction_rx, uart_direction_tx, ZnpSnifferState,
  queue_znp_observation, queue_decoded, publish, sniff_frame, sniff_byte, sniff_all, tail_of,
  transmit_power,
}

tail-length : {A : Type 0} (xs : List A) → length xs ≡ 8 → length (tail_of xs) ≡ 7
tail-length [] h = absurd (omega arith)
tail-length (x ∷ xs) h = omega arith

queue-bounded :
    (g : Observed) (o : ZnpObservation)
    → length g.pending_znp_observations ≤ 8
    → length (queue_znp_observation g o).pending_znp_observations ≤ 8
unfolding queue_znp_observation
queue-bounded g o h = ground (
  arith,
  tail-length g.pending_znp_observations,
  length-append g.pending_znp_observations (o ∷ []),
  length-append (tail_of g.pending_znp_observations) (o ∷ []),
)

queue_decoded-bounded :
    (g : Observed) (r : Bool × Option ZnpObservation)
    → length g.pending_znp_observations ≤ 8
    → length (queue_decoded g r).pending_znp_observations ≤ 8
queue_decoded-bounded g (true, some o) h = queue-bounded g o h
queue_decoded-bounded g (true, none) h = h
queue_decoded-bounded g (false, r) h = h

pub publish-pending :
    (g : Observed) (r : Option ℕ)
    → (publish g r).pending_znp_observations ≡ g.pending_znp_observations
publish-pending g none = refl
publish-pending g (some d) = ground arith

sniff_frame-bounded :
    (g : Observed) (d : UartDirection) (s : ZnpSnifferState) (byte : ℕ)
    → length g.pending_znp_observations ≤ 8
    → length (sniff_frame g d s byte).pending_znp_observations ≤ 8
unfolding sniff_frame
sniff_frame-bounded g d s byte h =
    let decoded =
      decode_znp_observation s.cmd0 s.cmd1 (some s.payload) s.count (some new_observation) in
    ground (
      arith,
      publish-pending g (transmit_power s),
      publish-pending (queue_decoded g decoded) (transmit_power s),
      queue_decoded-bounded g decoded h,
    )

sniff_byte-bounded :
    (g : Observed) (d : UartDirection) (byte : ℕ)
    → length g.pending_znp_observations ≤ 8
    → length (sniff_byte g d byte).pending_znp_observations ≤ 8
unfolding sniff_byte
sniff_byte-bounded g uart_direction_rx byte h =
    ground (arith, sniff_frame-bounded g uart_direction_rx g.rx_sniffer byte h)
sniff_byte-bounded g uart_direction_tx byte h =
    ground (arith, sniff_frame-bounded g uart_direction_tx g.tx_sniffer byte h)

-- Whatever bytes pass in a direction, the queue keeps within the 8 places of its array.
pub sniff_all-bounded :
    (g : Observed) (d : UartDirection) (bytes : List ℕ)
    → length g.pending_znp_observations ≤ 8
    → length (sniff_all g d bytes).pending_znp_observations ≤ 8
unfolding sniff_all
sniff_all-bounded g d [] h = h
sniff_all-bounded g d (b ∷ bs) h =
    sniff_all-bounded (sniff_byte g d b) d bs (sniff_byte-bounded g d b h)
