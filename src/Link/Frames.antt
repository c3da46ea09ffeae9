-- ===== src/Link/Frames.antt =====
-- A frame that a peer sends is the frame that is received.
use mathlib.Core.List.{append_assoc}
use mathlib.Core.Option.{some}
use zigbee_gateway.Common.{
  ℕ, ◌+◌, ◌*◌, ◌^◌, ◌≤◌, ◌<◌, ◌≡◌, ◌≢◌, refl, ap, ◌∙◌, arith, false, List, [], ◌∷◌, ◌++◌, ltb,
  length, ==_refl, take, take-length, All,
}
use zigbee_gateway.Znp.Frame.{znp_fcs, znp_send}
use zigbee_gateway.Link.Port.{Port, uart_seek_byte}
use zigbee_gateway.Link.Znp.{after_header, znp_recv_once}
use zigbee_gateway.Link.Line.{IsLine, read_exact_t-front, seek-skip}

-- The bytes of a frame that is sent, with what comes behind it.
send-laid :
    (cmd0 cmd1 : ℕ) (bytes more : List ℕ)
    → znp_send cmd0 cmd1 bytes (length bytes) ++ more
      ≡ 0xFE ∷ (length bytes ∷ cmd0 ∷ cmd1 ∷ [])
        ++ (bytes ++ znp_fcs (length bytes) cmd0 cmd1 bytes ∷ more)
unfolding znp_send
send-laid cmd0 cmd1 bytes more =
    ap (λ (xs : List ℕ). 0xFE ∷ length bytes ∷ cmd0 ∷ cmd1 ∷ xs)
      (middle (znp_fcs (length bytes) cmd0 cmd1 bytes))
  where
    middle : (f : ℕ) → (take (length bytes) bytes ++ (f ∷ [])) ++ more ≡ bytes ++ f ∷ more
    middle f = rw (take-length bytes) (append_assoc bytes (f ∷ []) more)

module _ {W : Type 0} (port : Port W) (rest : W → List ℕ) (ticks due : W → ℕ) (gap step : ℕ)
    (line : IsLine port rest ticks due gap step) where
  -- The data and the check byte.
  after_header-sent :
      (cmd0 cmd1 : ℕ) (bytes more : List ℕ) (w : W) (capacity t : ℕ)
      → rest w ≡ bytes ++ znp_fcs (length bytes) cmd0 cmd1 bytes ∷ more
      → due w ≤ ticks w + gap
      → length bytes ≤ capacity
      → gap + step < t
      → t ≤ 2 ^ 32
      → (v : W) × (after_header port capacity t (some (length bytes ∷ cmd0 ∷ cmd1 ∷ [])) w
          ≡ (some (record { cmd0 = cmd0; cmd1 = cmd1; bytes = bytes }), v))
        × (rest v ≡ more)
        × (due v ≤ ticks v + gap)
  after_header-sent cmd0 cmd1 bytes more w capacity t e soon fits h small =
      let (u, f, k, s) =
        read_exact_t-front port rest ticks due gap step line bytes _ w t e soon h small in
      let (v, g, l, z) =
        read_exact_t-front port rest ticks due gap step line
          (znp_fcs (length bytes) cmd0 cmd1 bytes ∷ []) more u t k s h small in
      let room : ltb capacity (length bytes) ≡ false = ground arith in
      (v, rw room (rw f (rw g (rw (==_refl (znp_fcs (length bytes) cmd0 cmd1 bytes)) refl))), l, z)

  -- On a line where each byte comes within `gap` ms of the one before, and the first within `gap`
  -- ms from now, and where a read or a wait of a millisecond takes at most `step` ms: what a peer
  -- sends with `znp_send` is received as it was sent, and what comes behind it is left on the
  -- line, at that pace. Bytes in front that are no start of a frame are passed over, if the start
  -- timeout exceeds `gap + 2 * step` ms for each of them and `gap + step` ms for the start of the
  -- frame. The data fits the buffer, the timeout of a byte exceeds `gap + step` ms, and the fuel
  -- exceeds the bytes passed over and the start timeout together. A timeout is at most 2 ^ 32 ms.
  pub recv_once-send :
      (cmd0 cmd1 : ℕ) (bytes junk more : List ℕ) (w : W) (fuel capacity start_ms byte_ms : ℕ)
      → rest w ≡ junk ++ (znp_send cmd0 cmd1 bytes (length bytes) ++ more)
      → due w ≤ ticks w + gap
      → All (λ b. b ≢ 0xFE) junk
      → length bytes ≤ capacity
      → length junk * (gap + 2 * step) + gap + step < start_ms
      → start_ms ≤ 2 ^ 32
      → gap + step < byte_ms
      → byte_ms ≤ 2 ^ 32
      → length junk + start_ms < fuel
      → (v : W) × (znp_recv_once port fuel capacity start_ms byte_ms w
          ≡ (some (record { cmd0 = cmd0; cmd1 = cmd1; bytes = bytes }), v))
        × (rest v ≡ more)
        × (due v ≤ ticks v + gap)
  unfolding znp_recv_once uart_seek_byte
  recv_once-send cmd0 cmd1 bytes junk more w fuel capacity start_ms byte_ms e soon other fits h
        start_word k byte_word enough =
      let frame = znp_fcs (length bytes) cmd0 cmd1 bytes in
      let laid : rest w
          ≡ junk ++ 0xFE ∷ ((length bytes ∷ cmd0 ∷ cmd1 ∷ []) ++ (bytes ++ frame ∷ more)) =
        e ∙ ap (λ (xs : List ℕ). junk ++ xs) (send-laid cmd0 cmd1 bytes more) in
      let (u, f, a, soon_u) =
        seek-skip port rest ticks due gap step line junk _ fuel (ticks w) start_ms w laid other
          start_word (omega arith) (omega arith) (omega arith) (omega arith) in
      let (v, g, b, soon_v) =
        read_exact_t-front port rest ticks due gap step line (length bytes ∷ cmd0 ∷ cmd1 ∷ []) _ u
          byte_ms a soon_u k byte_word in
      let (z, i, c, soon_z) =
        after_header-sent cmd0 cmd1 bytes more v capacity byte_ms b soon_v fits k byte_word in
      (z, rw (line.millis_ticks w) (rw f (rw g i)), c, soon_z)
