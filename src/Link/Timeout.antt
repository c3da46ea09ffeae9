-- ===== src/Link/Timeout.antt =====
-- A byte that does not come is waited for until the timeout has passed.
use mathlib.Core.Option.{Option, some}
use zigbee_gateway.Common.{
  ℕ, zero, suc, ◌+◌, ◌-◌, ◌%◌, ◌^◌, ◌≤◌, ◌<◌, ◌≡◌, ◌≢◌, refl, arith, ltb, ◌==◌, Bool-cases, inl,
  inr, ◌⊎◌, ltb→lt,
}
use zigbee_gateway.Link.Port.{Port, elapsed, read_loop, uart_read_byte_t}

-- `ticks` is a clock that does not wrap. `delay(1)` takes 1 to 1000 ms, and a byte that is available
-- can be read.
pub record IsClocked {W : Type 0} (port : Port W) (ticks : W → ℕ) : Type 0 where
  pub millis_ticks : (w : W) → port.millis w ≡ ticks w % 2 ^ 32
  pub delay_least : (w : W) → ticks w + 1 ≤ ticks (port.delay w 1)
  pub delay_most : (w : W) → ticks (port.delay w 1) ≤ ticks w + 1000
  pub read_some : (w : W) → port.available w ≢ 0 → (b : ℕ) × ((port.read_byte w).1 ≡ some b)

module _ {W : Type 0} (port : Port W) (ticks : W → ℕ) (clocked : IsClocked port ticks) where
  -- What a read gives: a byte, or the time has passed since the `start`.
  abbrev pub Waited : ℕ → ℕ → Option ℕ × W → Type 0
  Waited start t r = ((b : ℕ) × (r.0 ≡ some b)) ⊎ (t ≤ elapsed (port.millis r.1) (start % 2 ^ 32))

  elapsed-ticks :
      (w : W) (start : ℕ)
      → start ≤ ticks w
      → ticks w < start + 2 ^ 32
      → elapsed (port.millis w) (start % 2 ^ 32) ≡ ticks w - start
  elapsed-ticks w start h k = omega (arith, clocked.millis_ticks w)

  read_loop-Waited :
      (fuel start t : ℕ) (w : W)
      → t ≤ 2 ^ 31
      → start ≤ ticks w
      → ticks w < start + t + 1000
      → start + t < ticks w + fuel
      → Waited start t (read_loop port fuel (start % 2 ^ 32) t w)
  unfolding read_loop
  read_loop-Waited zero start t w small from to enough = inr (omega (arith, elapsed-ticks w start))
  read_loop-Waited (suc fuel) start t w small from to enough =
      elim (Bool-cases (ltb (elapsed (port.millis w) (start % 2 ^ 32)) t)) [
        | inr late ↦ rw (late, read_loop) (inr (ground arith))
        | inl early ↦ elim (Bool-cases (port.available w == 0)) [
          | inl empty ↦
              rw (early, read_loop)
                (rw (empty, read_loop)
                  (read_loop-Waited fuel start t (port.delay w 1) small
                    (omega (arith, clocked.delay_least w))
                    (omega (arith, clocked.delay_most w, elapsed-ticks w start, ltb→lt _ _ early))
                    (omega (arith, clocked.delay_least w))))
          | inr ready ↦
              let (b, e) = clocked.read_some w (ground arith) in
              rw (early, read_loop) (rw (ready, read_loop) (rw (e, read_loop) (inl (b, refl))))
        ]
      ]

  -- A read with a timeout of at most 2 ^ 31 ms gives a byte, or returns only when the timeout has
  -- passed on the clock: the rounds that it makes are enough.
  pub read_byte_t-waits :
      (t : ℕ) (w : W)
      → t ≤ 2 ^ 31
      → let (result, v) = uart_read_byte_t port t w in
        ((b : ℕ) × (result ≡ some b)) ⊎ (t ≤ elapsed (port.millis v) (port.millis w))
  unfolding uart_read_byte_t
  read_byte_t-waits t w small =
      rw (clocked.millis_ticks w)
        (read_loop-Waited (t + 1) (ticks w) t w small (omega arith) (omega arith) (omega arith))
