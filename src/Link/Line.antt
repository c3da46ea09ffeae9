-- ===== src/Link/Line.antt =====
-- A port on whose line bytes arrive in time, and what the helpers read from it.
use mathlib.Core.Option.{some}
use zigbee_gateway.Common.{
  ℕ, zero, suc, ◌+◌, ◌-◌, ◌*◌, ◌%◌, ◌^◌, ◌≤◌, ◌<◌, ◌≡◌, ◌≢◌, refl, arith, true, false, List, [],
  ◌∷◌, ◌++◌, ltb, ◌==◌, length, All, Bool-cases, inl, inr,
}
use zigbee_gateway.Link.Port.{
  Port, elapsed, read_loop, uart_read_byte_t, seek_loop, uart_read_exact_t,
}

-- `rest` is the bytes that the peer sends and that are not read yet, `ticks` is a clock that does not
-- wrap, and `due` is the time on it by which the next byte is there to be read. A read takes at most
-- `step` ms, and so does a `delay(1)`, which takes at least 1 ms; the byte behind one that is read
-- comes within `gap` ms.
pub record IsLine {W : Type 0} (port : Port W) (rest : W → List ℕ) (ticks due : W → ℕ)
    (gap step : ℕ) : Type 0 where
  pub millis_ticks : (w : W) → port.millis w ≡ ticks w % 2 ^ 32
  pub ready :
      (w : W) (b : ℕ) (bs : List ℕ) → rest w ≡ b ∷ bs → due w ≤ ticks w → port.available w ≢ 0
  pub read_front :
      (w : W) (b : ℕ) (bs : List ℕ)
      → rest w ≡ b ∷ bs
      → port.available w ≢ 0
      → ((port.read_byte w).1 ≡ some b)
        × (rest (port.read_byte w).0 ≡ bs)
        × (ticks w ≤ ticks (port.read_byte w).0)
        × (ticks (port.read_byte w).0 ≤ ticks w + step)
        × (due (port.read_byte w).0 ≤ ticks (port.read_byte w).0 + gap)
  pub delay_waits :
      (w : W) (b : ℕ) (bs : List ℕ)
      → rest w ≡ b ∷ bs
      → port.available w ≡ 0
      → (rest (port.delay w 1) ≡ b ∷ bs)
        × (ticks w + 1 ≤ ticks (port.delay w 1))
        × (ticks (port.delay w 1) ≤ ticks w + step)
        × (due (port.delay w 1) ≡ due w)

module _ {W : Type 0} (port : Port W) (rest : W → List ℕ) (ticks due : W → ℕ) (gap step : ℕ)
    (line : IsLine port rest ticks due gap step) where
  -- The test of the loops, before the timeout has passed.
  early :
      (w : W) (start t : ℕ)
      → start ≤ ticks w
      → ticks w < start + t
      → t ≤ 2 ^ 32
      → ltb (elapsed (port.millis w) (start % 2 ^ 32)) t ≡ true
  early w start t from before small =
      let passed : elapsed (port.millis w) (start % 2 ^ 32) ≡ ticks w - start =
        omega (arith, line.millis_ticks w) in
      rw passed (ground arith)

  -- A wait for a byte that is not there ends in time for the byte.
  late : (w : W) (b : ℕ) (bs : List ℕ) → rest w ≡ b ∷ bs → port.available w ≡ 0 → ticks w < due w
  late w b bs e empty = elim (Bool-cases (ltb (ticks w) (due w))) [
    | inl h ↦ ground arith
    | inr h ↦ absurd (line.ready w b bs e (ground arith) empty)
  ]

  read_loop-front :
      (fuel start t : ℕ) (w : W) (b : ℕ) (bs : List ℕ)
      → rest w ≡ b ∷ bs
      → t ≤ 2 ^ 32
      → start ≤ ticks w
      → ticks w < start + t
      → due w + step < start + t
      → start + t < ticks w + fuel
      → (v : W) × (read_loop port fuel (start % 2 ^ 32) t w ≡ (some b, v))
        × (rest v ≡ bs)
        × (due v ≤ ticks v + gap)
  unfolding read_loop
  read_loop-front zero start t w b bs e small from before in_time enough = absurd (omega arith)
  read_loop-front (suc fuel) start t w b bs e small from before in_time enough =
      elim (Bool-cases (port.available w == 0)) [
        | inl empty ↦
            let none_yet : port.available w ≡ 0 = ground arith in
            let waited = line.delay_waits w b bs e none_yet in
            let behind = late w b bs e none_yet in
            let (v, f, a, k) =
              read_loop-front fuel start t (port.delay w 1) b bs waited.0 small
                (omega (arith, waited)) (omega (arith, waited, behind)) (omega (arith, waited))
                (omega (arith, waited)) in
            (v, rw (early w start t from before small, read_loop) (rw (empty, read_loop) f), a, k)
        | inr there ↦
            let front = line.read_front w b bs e (ground arith) in
            (
              (port.read_byte w).0,
              rw (early w start t from before small, read_loop)
                  (rw (there, read_loop) (rw (front.0, read_loop) refl)),
              front.1,
              front.4,
            )
      ]

  read_byte_t-front :
      (w : W) (b : ℕ) (bs : List ℕ) (t : ℕ)
      → rest w ≡ b ∷ bs
      → due w ≤ ticks w + gap
      → gap + step < t
      → t ≤ 2 ^ 32
      → (v : W) × (uart_read_byte_t port t w ≡ (some b, v))
        × (rest v ≡ bs)
        × (due v ≤ ticks v + gap)
  unfolding uart_read_byte_t
  read_byte_t-front w b bs t e soon h small = rw (line.millis_ticks w) (
      read_loop-front (t + 1) (ticks w) t w b bs e small (omega arith) (omega arith) (omega arith)
        (omega arith))

  -- What is read of bytes that come in time.
  pub read_exact_t-front :
      (xs more : List ℕ) (w : W) (t : ℕ)
      → rest w ≡ xs ++ more
      → due w ≤ ticks w + gap
      → gap + step < t
      → t ≤ 2 ^ 32
      → (v : W) × (uart_read_exact_t port (length xs) t w ≡ (some xs, v))
        × (rest v ≡ more)
        × (due v ≤ ticks v + gap)
  unfolding uart_read_exact_t
  read_exact_t-front [] more w t e soon h small = (w, refl, e, soon)
  read_exact_t-front (x ∷ xs) more w t e soon h small =
      let (u, f, a, s) = read_byte_t-front w x (xs ++ more) t e soon h small in
      let (v, g, c, k) = read_exact_t-front xs more u t a s h small in (v, rw f (rw g refl), c, k)

  -- Bytes that are no start of a frame are passed over, one by one, up to the start. The time that
  -- is left is enough for them.
  pub seek-skip :
      (junk bs : List ℕ) (fuel start t : ℕ) (w : W)
      → rest w ≡ junk ++ 0xFE ∷ bs
      → All (λ b. b ≢ 0xFE) junk
      → t ≤ 2 ^ 32
      → start ≤ ticks w
      → ticks w + length junk * (gap + 2 * step) < start + t
      → due w + step + length junk * (gap + 2 * step) < start + t
      → length junk + start + t < ticks w + fuel
      → (v : W) × (seek_loop port fuel 0xFE (start % 2 ^ 32) t w ≡ (true, v))
        × (rest v ≡ bs)
        × (due v ≤ ticks v + gap)
  unfolding seek_loop
  seek-skip junk bs zero start t w e other small from before in_time enough = absurd (omega arith)
  seek-skip [] bs (suc fuel) start t w e other small from before in_time enough =
      elim (Bool-cases (port.available w == 0)) [
        | inl empty ↦
            let none_yet : port.available w ≡ 0 = ground arith in
            let waited = line.delay_waits w 0xFE bs e none_yet in
            let behind = late w 0xFE bs e none_yet in
            let (v, f, a, k) =
              seek-skip [] bs fuel start t (port.delay w 1) waited.0 other small
                (omega (arith, waited)) (omega (arith, waited, behind)) (omega (arith, waited))
                (omega (arith, waited)) in
            (
              v,
              rw (early w start t from (omega arith) small, seek_loop) (rw (empty, seek_loop) f),
              a,
              k,
            )
        | inr there ↦
            let front = line.read_front w 0xFE bs e (ground arith) in
            (
              (port.read_byte w).0,
              rw (early w start t from (omega arith) small, seek_loop)
                  (rw (there, seek_loop) (rw (front.0, seek_loop) refl)),
              front.1,
              front.4,
            )
      ]
  seek-skip (x ∷ junk) bs (suc fuel) start t w e other small from before in_time enough =
      let next = junk ++ 0xFE ∷ bs in
      let paced : suc (length junk) * (gap + 2 * step)
          ≡ gap + 2 * step + length junk * (gap + 2 * step) =
        grind arith in
      elim (Bool-cases (port.available w == 0)) [
        | inl empty ↦
            let none_yet : port.available w ≡ 0 = ground arith in
            let waited = line.delay_waits w x next e none_yet in
            let behind = late w x next e none_yet in
            let (v, f, a, k) =
              seek-skip (x ∷ junk) bs fuel start t (port.delay w 1) waited.0 other small
                (omega (arith, waited)) (omega (arith, waited, behind)) (omega (arith, waited))
                (omega (arith, waited)) in
            (
              v,
              rw (early w start t from (omega arith) small, seek_loop) (rw (empty, seek_loop) f),
              a,
              k,
            )
        | inr there ↦
            let front = line.read_front w x next e (ground arith) in
            let (v, f, a, k) =
              seek-skip junk bs fuel start t (port.read_byte w).0 front.1 other.1 small
                (omega (arith, front)) (omega (arith, front, paced)) (omega (arith, front, paced))
                (omega (arith, front)) in
            let passed : (x == 0xFE) ≡ false = ground (arith, other.0) in
            (
              v,
              rw (early w start t from (omega arith) small, seek_loop)
                  (rw (there, seek_loop) (rw (front.0, seek_loop) (rw (passed, seek_loop) f))),
              a,
              k,
            )
      ]
