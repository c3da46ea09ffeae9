-- ===== src/Serial/Drain.antt =====
-- `drain` empties the UART, and its fuel is enough.
use mathlib.Core.Option.{some}
use zigbee_gateway.Common.{
  ℕ, zero, suc, ◌+◌, ◌<◌, ◌≡◌, ◌≢◌, arith, ◌==◌, Bool-cases, inl, inr, ==→eq,
}
use zigbee_gateway.Serial.Uart.{UartComponent, IsReadable}
use zigbee_gateway.Serial.Gate.{ZigbeeSerialInterface, drain_loop, drain}

module _ {U : Type 0} (ops : UartComponent U) (readable : IsReadable ops) where
  drain_loop-available :
      (fuel : ℕ) (u : U) → ops.available u < fuel → ops.available (drain_loop ops fuel u) ≡ 0
  unfolding drain_loop
  drain_loop-available zero u h = absurd (omega arith)
  drain_loop-available (suc fuel) u h = elim (Bool-cases (ops.available u == 0)) [
    | inl done ↦ rw (done, drain_loop) (==→eq _ _ done)
    | inr more ↦
        let some_left : ops.available u ≢ 0 = ground arith in
        let (b, e) = readable.read_byte_some u some_left in
        rw (more, drain_loop)
          (rw (e, drain_loop)
            (drain_loop-available fuel (ops.read_byte u).1
              (omega (arith, readable.read_byte_available u some_left))))
  ]

  -- The owner's drain leaves no byte to read, and leaves the ownership as it was.
  pub drain-available :
      (s : ZigbeeSerialInterface U) (u : U)
      → s.uart ≡ some u
      → (v : U) × (drain ops s s.owner ≡ record s { uart = some v }) × (ops.available v ≡ 0)
  unfolding drain
  drain-available s u e = (
    drain_loop ops (ops.available u + 1) u,
    ground arith,
    drain_loop-available (ops.available u + 1) u (omega arith),
  )
