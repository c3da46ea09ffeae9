-- ===== src/Link/Port.antt =====
-- The reading and writing helpers of protocol.h. A function runs on the port, which is the serial
-- interface as its local owner sees it, with the clock of ESPHome; it returns its result and the port
-- after it.
use mathlib.Core.Option.{Option, none, some}
use zigbee_gateway.Common.{
  ℕ, zero, suc, ◌+◌, ◌-◌, ◌%◌, ◌^◌, Bool, true, false, List, [], ◌∷◌, ltb, ◌==◌,
}
use zigbee_gateway.Serial.Uart.{UartComponent}
use zigbee_gateway.Serial.Gate
use zigbee_gateway.Serial.Gate.{ZigbeeSerialInterface}

pub record Port (W : Type 0) : Type 0 where
  pub available : W → ℕ
  pub read_byte : W → W × Option ℕ
  pub write_byte : W → ℕ → W
  pub write_array : W → List ℕ → W
  pub flush : W → W
  pub millis : W → ℕ
  pub delay : W → ℕ → W

-- The port of a serial interface: `millis` and `delay` are parameters, over a UART that is in step
-- with the clock.
abbrev pub serial_port :
    {U : Type 0}
    → UartComponent U
    → (ZigbeeSerialInterface U → ℕ)
    → (ZigbeeSerialInterface U → ℕ → ZigbeeSerialInterface U)
    → Port (ZigbeeSerialInterface U)
serial_port uart millis delay = record {
  available = Gate.available uart;
  read_byte = Gate.read_byte uart;
  write_byte = Gate.write_byte uart;
  write_array = Gate.write_array uart;
  flush = Gate.flush uart;
  millis = millis;
  delay = delay;
}

abbrev pub M : Type 0 → Type 0 → Type 0
M W A = W → A × W

infixl 5 ◌>>=◌ ◌>>◌
abbrev pub ◌>>=◌ : {W A B : Type 0} → M W A → (A → M W B) → M W B
◌>>=◌ m f w = f (m w).0 (m w).1

abbrev pub ◌>>◌ : {W A B : Type 0} → M W A → M W B → M W B
m >> k = m >>= λ _. k

abbrev pub pure : {W A : Type 0} → A → M W A
pure a w = (a, w)

-- `a - b` on `uint32_t`.
abbrev pub elapsed : ℕ → ℕ → ℕ
elapsed a b = (a + 2 ^ 32 - b) % 2 ^ 32

module _ {W : Type 0} (port : Port W) where
  abbrev pub now : M W ℕ
  now w = (port.millis w, w)

  abbrev pub send : List ℕ → M W (Unit {0})
  send out w = (tt, port.flush (port.write_array w out))

  abbrev pub wait : ℕ → M W (Unit {0})
  wait ms w = (tt, port.delay w ms)

  -- The loop of `uart_read_byte_t`, from the time `start`. Each round that goes on waits for a
  -- millisecond, so one round more than the timeout is enough.
  unfoldable pub read_loop : ℕ → ℕ → ℕ → M W (Option ℕ)
  read_loop zero start timeout_ms w = (none, w)
  read_loop (suc fuel) start timeout_ms w = elim (ltb (elapsed (port.millis w) start) timeout_ms) [
    | false ↦ (none, w)
    | true ↦ elim (port.available w == 0) [
      | true ↦ read_loop fuel start timeout_ms (port.delay w 1)
      | false ↦ elim (port.read_byte w).1 [
        | some b ↦ (some b, (port.read_byte w).0)
        | none ↦ read_loop fuel start timeout_ms (port.read_byte w).0
      ]
    ]
  ]

  unfoldable pub uart_read_byte_t : ℕ → M W (Option ℕ)
  unfolding read_loop
  uart_read_byte_t timeout_ms w = read_loop (timeout_ms + 1) (port.millis w) timeout_ms w

  -- The loop of `uart_drain`, on as many rounds as bytes are available, and one more.
  unfoldable pub drain_loop : ℕ → W → W
  drain_loop zero w = w
  drain_loop (suc fuel) w = elim (port.available w == 0) [
    | true ↦ w
    | false ↦ elim (port.read_byte w).1 [
      | none ↦ (port.read_byte w).0
      | some b ↦ drain_loop fuel (port.read_byte w).0
    ]
  ]

  unfoldable pub uart_drain : M W (Unit {0})
  unfolding drain_loop
  uart_drain w = (tt, drain_loop (port.available w + 1) w)

  -- The loop of `uart_seek_byte`. It may read any number of bytes without a wait, and its fuel is a
  -- parameter.
  unfoldable pub seek_loop : ℕ → ℕ → ℕ → ℕ → M W Bool
  seek_loop zero value start timeout_ms w = (false, w)
  seek_loop (suc fuel) value start timeout_ms w =
      elim (ltb (elapsed (port.millis w) start) timeout_ms) [
        | false ↦ (false, w)
        | true ↦ elim (port.available w == 0) [
          | true ↦ seek_loop fuel value start timeout_ms (port.delay w 1)
          | false ↦ elim (port.read_byte w).1 [
            | none ↦ seek_loop fuel value start timeout_ms (port.delay (port.read_byte w).0 1)
            | some b ↦ elim (b == value) [
              | true ↦ (true, (port.read_byte w).0)
              | false ↦ seek_loop fuel value start timeout_ms (port.read_byte w).0
            ]
          ]
        ]
      ]

  unfoldable pub uart_seek_byte : ℕ → ℕ → ℕ → M W Bool
  unfolding seek_loop
  uart_seek_byte fuel value timeout_ms w = seek_loop fuel value (port.millis w) timeout_ms w

  -- A byte in front of what follows it, if all was read.
  abbrev pub put_front : ℕ → Option (List ℕ) → Option (List ℕ)
  put_front b none = none
  put_front b (some bytes) = some (b ∷ bytes)

  -- What follows a byte that was read, or was not.
  abbrev pub after_byte : M W (Option (List ℕ)) → Option ℕ → M W (Option (List ℕ))
  after_byte rest none w = (none, w)
  after_byte rest (some b) w = (put_front b (rest w).0, (rest w).1)

  -- The bytes that were stored, if all of them came in time.
  unfoldable pub uart_read_exact_t : ℕ → ℕ → M W (Option (List ℕ))
  uart_read_exact_t zero per_byte_timeout_ms w = (some [], w)
  uart_read_exact_t (suc n) per_byte_timeout_ms w =
      after_byte (uart_read_exact_t n per_byte_timeout_ms)
        (uart_read_byte_t per_byte_timeout_ms w).0 (uart_read_byte_t per_byte_timeout_ms w).1

  -- The loops that read and drop bytes until one does not come.
  unfoldable pub discard_bytes : ℕ → ℕ → W → W
  discard_bytes zero per_byte_timeout_ms w = w
  discard_bytes (suc n) per_byte_timeout_ms w = elim (uart_read_byte_t per_byte_timeout_ms w).0 [
    | none ↦ (uart_read_byte_t per_byte_timeout_ms w).1
    | some b ↦ discard_bytes n per_byte_timeout_ms (uart_read_byte_t per_byte_timeout_ms w).1
  ]
