-- ===== src/Serial/Uart.antt =====
-- The `uart::UARTComponent` of ESPHome, which this repository does not hold: its operations, and
-- what the gateway relies on of them.
use mathlib.Core.Option.{Option, none, some}
use zigbee_gateway.Common.{ℕ, ◌<◌, ◌≡◌, ◌≢◌, List, ◌++◌, length}

-- `available` is the number of bytes received and not yet read. A read that fails is `none`.
pub record UartComponent (U : Type 0) : Type 0 where
  pub available : U → ℕ
  pub read_byte : U → Option ℕ × U
  pub read_array : U → ℕ → Option (List ℕ) × U
  pub write_byte : U → ℕ → U
  pub write_array : U → List ℕ → U
  pub flush : U → U

-- A byte that is available can be read, and is then no longer available.
pub record IsReadable {U : Type 0} (uart : UartComponent U) : Type 0 where
  pub read_byte_some : (u : U) → uart.available u ≢ 0 → (b : ℕ) × ((uart.read_byte u).0 ≡ some b)
  pub read_byte_available :
      (u : U) → uart.available u ≢ 0 → uart.available (uart.read_byte u).1 < uart.available u

-- `delivered` is all that was read so far, and `written` all that was written.
pub record IsUart {U : Type 0} (uart : UartComponent U) (delivered written : U → List ℕ)
    : Type 0 where
  pub read_array_length :
      (u : U) (n : ℕ) {bytes : List ℕ} → (uart.read_array u n).0 ≡ some bytes → length bytes ≡ n
  pub read_array_delivered :
      (u : U) (n : ℕ) {bytes : List ℕ}
      → (uart.read_array u n).0 ≡ some bytes
      → delivered (uart.read_array u n).1 ≡ delivered u ++ bytes
  pub read_array_failed :
      (u : U) (n : ℕ)
      → (uart.read_array u n).0 ≡ none
      → delivered (uart.read_array u n).1 ≡ delivered u
  pub read_array_written : (u : U) (n : ℕ) → written (uart.read_array u n).1 ≡ written u
  pub write_array_written :
      (u : U) (out : List ℕ) → written (uart.write_array u out) ≡ written u ++ out
  pub write_array_delivered :
      (u : U) (out : List ℕ) → delivered (uart.write_array u out) ≡ delivered u
