-- ===== src/Link/Tests.antt =====
-- The exchanges over a concrete line.
use mathlib.Core.Option.{Option, none, some}
use zigbee_gateway.Common.{
  ℕ, suc, ◌+◌, ◌%◌, ◌^◌, ◌≤◌, ◌≡◌, ◌≢◌, ◌⊎◌, refl, arith, List, [], ◌∷◌, ◌++◌, length, ap, leb,
  if◌then◌else◌,
}
use zigbee_gateway.Znp.Frame.{znp_send}
use zigbee_gateway.Link.Port.{Port, elapsed, uart_read_byte_t}
use zigbee_gateway.Link.Znp.{znp_recv_once}
use zigbee_gateway.Link.Loader.{read_packet}
use zigbee_gateway.Link.Line.{IsLine}
use zigbee_gateway.Link.Frames.{recv_once-send}
use zigbee_gateway.Link.Packets.{read_packet-sent}
use zigbee_gateway.Link.Timeout.{IsClocked, read_byte_t-waits}

-- The bytes that are sent and not read yet, those that were written, the milliseconds since the
-- start, and the time by which the next byte is there. A read takes 1 ms, and the next byte comes
-- 2 ms behind it.
record Wire : Type 0 where
  waiting : List ℕ
  written : List ℕ
  ticks : ℕ
  due : ℕ

next_byte : List ℕ → Wire → Wire × Option ℕ
next_byte [] w = (w, none)
next_byte (b ∷ bs) w = (record w { waiting = bs; ticks = w.ticks + 1; due = w.ticks + 3 }, some b)

abbrev wire : Port Wire
wire = record {
  available = λ w. if leb w.due w.ticks then length w.waiting else 0;
  read_byte = λ w. next_byte w.waiting w;
  write_byte = λ w b. record w { written = w.written ++ (b ∷ []) };
  write_array = λ w out. record w { written = w.written ++ out };
  flush = λ w. w;
  millis = λ w. w.ticks % 2 ^ 32;
  delay = λ w ms. record w { ticks = w.ticks + ms };
}

there :
    (w : Wire) (b : ℕ) (bs : List ℕ) → w.waiting ≡ b ∷ bs → w.due ≤ w.ticks → wire.available w ≢ 0
there w b bs e h =
    let some_bytes : length w.waiting ≡ suc (length bs) = ap (λ (xs : List ℕ). length xs) e in
    ground arith

read_front :
    (xs : List ℕ) (w : Wire) (b : ℕ) (bs : List ℕ)
    → xs ≡ b ∷ bs
    → ((next_byte xs w).1 ≡ some b)
      × ((next_byte xs w).0.waiting ≡ bs)
      × (w.ticks ≤ (next_byte xs w).0.ticks)
      × ((next_byte xs w).0.ticks ≤ w.ticks + 1)
      × ((next_byte xs w).0.due ≤ (next_byte xs w).0.ticks + 2)
unfolding next_byte
read_front [] w b bs e = cc
read_front (x ∷ xs) w b bs e = ground arith

read_some : (xs : List ℕ) (w : Wire) → length xs ≢ 0 → (b : ℕ) × ((next_byte xs w).1 ≡ some b)
unfolding next_byte
read_some [] w h = absurd (h refl)
read_some (b ∷ bs) w h = (b, refl)

wire-IsLine : IsLine wire (λ w. w.waiting) (λ w. w.ticks) (λ w. w.due) 2 1
wire-IsLine = record {
  millis_ticks = λ w. refl;
  ready = there;
  read_front = λ w b bs e h. read_front w.waiting w b bs e;
  delay_waits = λ w b bs e h. (e, omega arith, omega arith, refl);
}

wire-IsClocked : IsClocked wire (λ w. w.ticks)
wire-IsClocked = record {
  millis_ticks = λ w. refl;
  delay_least = λ w. omega arith;
  delay_most = λ w. omega arith;
  read_some = λ w h. read_some w.waiting w (ground arith);
}

abbrev silent : Wire
silent = record { waiting = []; written = []; ticks = 7; due = 9 }

abbrev framed : Wire
framed = record silent { waiting = 1 ∷ 2 ∷ [] ++ (znp_send 0x45 0xC0 (9 ∷ []) 1 ++ (8 ∷ [])) }

abbrev packed : Wire
packed = record silent { waiting = 3 ∷ 0x40 ∷ 0x40 ∷ 8 ∷ [] }

-- Two bytes in front take at most 2 * 4 ms, and the frame starts 3 ms later: 12 ms are enough.
recv_once-send_example :
    (v : Wire) × (znp_recv_once wire 20 16 12 4 framed
      ≡ (some (record { cmd0 = 0x45; cmd1 = 0xC0; bytes = 9 ∷ [] }), v))
    × (v.waiting ≡ 8 ∷ [])
    × (v.due ≤ v.ticks + 2)
recv_once-send_example =
    recv_once-send wire (λ w. w.waiting) (λ w. w.ticks) (λ w. w.due) 2 1 wire-IsLine 0x45 0xC0
      (9 ∷ []) (1 ∷ 2 ∷ []) (8 ∷ []) framed 20 16 12 4 refl (omega arith)
      ((λ e. omega arith), ((λ e. omega arith), tt)) (omega arith) (omega arith) (omega arith)
      (omega arith) (omega arith) (omega arith)

read_packet-sent_example :
    (v : Wire) × (read_packet wire 8 50 50 packed
      ≡ (some (0x40 ∷ []), wire.flush (wire.write_array v (0x00 ∷ 0xCC ∷ []))))
    × (v.waiting ≡ 8 ∷ [])
read_packet-sent_example =
    read_packet-sent wire (λ w. w.waiting) (λ w. w.ticks) (λ w. w.due) 2 1 wire-IsLine (0x40 ∷ [])
      (8 ∷ []) packed 8 50 50 refl (omega arith) (λ e. omega arith) (omega arith) (omega arith)
      (omega arith) (omega arith) (omega arith)

read_byte_t-waits_example :
    let (result, v) = uart_read_byte_t wire 20 silent in
    ((b : ℕ) × (result ≡ some b)) ⊎ (20 ≤ elapsed (wire.millis v) (wire.millis silent))
read_byte_t-waits_example =
    read_byte_t-waits wire (λ w. w.ticks) wire-IsClocked 20 silent (omega arith)
