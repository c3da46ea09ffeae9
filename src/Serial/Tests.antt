-- ===== src/Serial/Tests.antt =====
-- The serial interface over a concrete UART.
use mathlib.Core.Option.{Option, none, some}
use zigbee_gateway.Common.{
  ℕ, ◌<◌, ◌≡◌, ◌≢◌, refl, arith, false, List, [], ◌∷◌, ◌++◌, length, take, drop, leb, if◌then◌else◌,
}
use zigbee_gateway.Serial.Owner.{local, tcp_normal, usb_bridge}
use zigbee_gateway.Serial.Uart.{UartComponent, IsReadable}
use zigbee_gateway.Serial.Gate.{ZigbeeSerialInterface, drain}
use zigbee_gateway.Serial.Exclusion.{
  transfer, transfer-other, put_byte, contend, claims, releases, contend-others,
}
use zigbee_gateway.Serial.Drain.{drain-available}

-- The bytes that wait, and those that were written.
record Line : Type 0 where
  waiting : List ℕ
  written : List ℕ

next_byte : List ℕ → Line → Option ℕ × Line
next_byte [] u = (none, u)
next_byte (x ∷ xs) u = (some x, record u { waiting = xs })

line : UartComponent Line
line = record {
  available = λ u. length u.waiting;
  read_byte = λ u. next_byte u.waiting u;
  read_array = λ u n.
      if leb n (length u.waiting)
      then (some (take n u.waiting), record u { waiting = drop n u.waiting })
      else (none, u);
  write_byte = λ u b. record u { written = u.written ++ (b ∷ []) };
  write_array = λ u out. record u { written = u.written ++ out };
  flush = λ u. u;
}

next_byte-some : (w : List ℕ) (u : Line) → length w ≢ 0 → (b : ℕ) × ((next_byte w u).0 ≡ some b)
unfolding next_byte
next_byte-some [] u h = absurd (h refl)
next_byte-some (x ∷ xs) u h = (x, refl)

next_byte-waiting :
    (w : List ℕ) (u : Line) → length w ≢ 0 → length (next_byte w u).1.waiting < length w
unfolding next_byte
next_byte-waiting [] u h = absurd (h refl)
next_byte-waiting (x ∷ xs) u h = omega arith

line-IsReadable : IsReadable line
unfolding line
line-IsReadable = record {
  read_byte_some = λ u h. next_byte-some u.waiting u h;
  read_byte_available = λ u h. next_byte-waiting u.waiting u h;
}

abbrev busy_line : Line
busy_line = record { waiting = 1 ∷ 2 ∷ 3 ∷ []; written = [] }

abbrev owned : ZigbeeSerialInterface Line
owned = record { uart = some busy_line; owner = usb_bridge }

drain-available_example :
    (v : Line) × (drain line owned usb_bridge ≡ record owned { uart = some v })
    × (line.available v ≡ 0)
drain-available_example = drain-available line line-IsReadable owned busy_line refl

transfer-other_example : transfer line owned (put_byte 7) ≡ owned
transfer-other_example = transfer-other line owned (put_byte 7) (λ e. cc)

contend-others_example :
    contend owned (claims local ∷ releases tcp_normal ∷ claims tcp_normal ∷ []) ≡ (owned, false)
contend-others_example =
    contend-others owned (claims local ∷ releases tcp_normal ∷ claims tcp_normal ∷ []) (λ e. cc)
      ((λ e. cc), ((λ e. cc), ((λ e. cc), tt)))
