-- ===== src/Link/Znp.antt =====
-- The ZNP exchanges of protocol.h: `znp_send`, `znp_recv_once`, `znp_recv_until` and `znp_exec`.
use mathlib.Core.Option.{Option, none, some}
use zigbee_gateway.Common.{
  ℕ, zero, suc, ◌+◌, Bool, true, false, not, List, [], ◌∷◌, ltb, ◌==◌, if◌then◌else◌, take, ◌&&◌,
}
use zigbee_gateway.Znp.Frame.{znp_fcs}
use zigbee_gateway.Link.Port.{
  Port, M, ◌>>=◌, ◌>>◌, pure, wait, elapsed, uart_drain, uart_seek_byte, uart_read_exact_t,
  discard_bytes,
}

-- The outputs of a receive: the command bytes and the data, which are `len` bytes.
pub record ZnpFrame : Type 0 where
  pub cmd0 : ℕ
  pub cmd1 : ℕ
  pub bytes : List ℕ

-- The parameters of `znp_exec`, and the fuel of its waits.
pub record Exchange : Type 0 where
  pub fuel : ℕ
  pub sreq_cmd0 : ℕ
  pub sreq_cmd1 : ℕ
  pub exp_cmd0 : ℕ
  pub exp_cmd1 : ℕ
  pub scratch_capacity : ℕ
  pub start_timeout_ms : ℕ
  pub byte_timeout_ms : ℕ
  pub overall_timeout_ms : ℕ
  pub post_send_gap_ms : ℕ
  pub sreq_data : List ℕ
  pub sreq_len : ℕ

module _ {W : Type 0} (port : Port W) where
  -- `znp_send`: the header, the data if there is any, and the check byte.
  unfoldable pub znp_send_to : ℕ → ℕ → List ℕ → ℕ → W → W
  unfolding znp_fcs
  znp_send_to cmd0 cmd1 bytes len w =
      let w' = port.write_array w (0xFE ∷ len ∷ cmd0 ∷ cmd1 ∷ []) in
      let w'' = if len == 0 then w' else port.write_array w' (take len bytes) in
      port.flush (port.write_byte w'' (znp_fcs len cmd0 cmd1 bytes))

  -- The check byte against the frame.
  abbrev pub checked : ℕ → ℕ → ℕ → List ℕ → Option (List ℕ) → Option ZnpFrame
  checked len cmd0 cmd1 bytes (some (fcs ∷ [])) =
      if fcs == znp_fcs len cmd0 cmd1 bytes
      then some (record { cmd0 = cmd0; cmd1 = cmd1; bytes = bytes })
      else none
  checked len cmd0 cmd1 bytes _ = none

  -- The data and the check byte of a frame that fits.
  abbrev pub after_data : ℕ → ℕ → ℕ → ℕ → Option (List ℕ) → M W (Option ZnpFrame)
  after_data byte_timeout_ms len cmd0 cmd1 none w = (none, w)
  after_data byte_timeout_ms len cmd0 cmd1 (some bytes) w =
      let r = uart_read_exact_t port 1 byte_timeout_ms w in (checked len cmd0 cmd1 bytes r.0, r.1)

  -- A header, whose three bytes are read one by one.
  abbrev pub after_header : ℕ → ℕ → Option (List ℕ) → M W (Option ZnpFrame)
  after_header data_capacity byte_timeout_ms (some (len ∷ cmd0 ∷ cmd1 ∷ [])) w =
      if ltb data_capacity len
      then (none, discard_bytes port (len + 1) byte_timeout_ms w)
      else let r = uart_read_exact_t port len byte_timeout_ms w in
        after_data byte_timeout_ms len cmd0 cmd1 r.0 r.1
  after_header data_capacity byte_timeout_ms _ w = (none, w)

  unfoldable pub znp_recv_once : ℕ → ℕ → ℕ → ℕ → M W (Option ZnpFrame)
  unfolding znp_fcs
  znp_recv_once fuel data_capacity start_timeout_ms byte_timeout_ms w =
      let (found, w') = uart_seek_byte port fuel 0xFE start_timeout_ms w in
      if not found
      then (none, w')
      else let r = uart_read_exact_t port 3 byte_timeout_ms w' in
        after_header data_capacity byte_timeout_ms r.0 r.1

  -- A frame that was received, against the predicate; `rest` goes on.
  abbrev pub after_receive :
      (ZnpFrame → Bool) → M W (Option ZnpFrame) → Option ZnpFrame → M W (Option ZnpFrame)
  after_receive pred rest none w = rest w
  after_receive pred rest (some frame) w = elim (pred frame) [
    | true ↦ (some frame, w)
    | false ↦ rest w
  ]

  -- The loop of `znp_recv_until`, from the time `start`, on fuel.
  unfoldable pub until_loop : ℕ → (ZnpFrame → Bool) → ℕ → ℕ → ℕ → ℕ → ℕ → M W (Option ZnpFrame)
  until_loop zero pred start data_capacity start_timeout_ms byte_timeout_ms overall w = (none, w)
  until_loop (suc fuel) pred start data_capacity start_timeout_ms byte_timeout_ms overall w =
      elim (ltb (elapsed (port.millis w) start) overall) [
        | false ↦ (none, w)
        | true ↦
            let r = znp_recv_once fuel data_capacity start_timeout_ms byte_timeout_ms w in
            after_receive pred
              (until_loop fuel pred start data_capacity start_timeout_ms byte_timeout_ms overall)
              r.0 r.1
      ]

  -- `znp_recv_until`, with the frame that matched.
  unfoldable pub znp_recv_until : ℕ → (ZnpFrame → Bool) → ℕ → ℕ → ℕ → ℕ → M W (Option ZnpFrame)
  unfolding until_loop
  znp_recv_until fuel pred data_capacity start_timeout_ms byte_timeout_ms overall w =
      until_loop fuel pred (port.millis w) data_capacity start_timeout_ms byte_timeout_ms overall w

  -- Whether a frame is the answer that is expected.
  abbrev pub answers : ℕ → ℕ → ZnpFrame → Bool
  answers exp_cmd0 exp_cmd1 frame = (frame.cmd0 == exp_cmd0) && (frame.cmd1 == exp_cmd1)

  -- One attempt of `znp_exec`: the request, the gap behind it, and the wait for the answer.
  unfoldable pub ask_once : Exchange → M W (Option ZnpFrame)
  unfolding znp_recv_until znp_send_to
  ask_once x = do
    uart_drain port
    (λ w. (tt, znp_send_to x.sreq_cmd0 x.sreq_cmd1 x.sreq_data x.sreq_len w))
    if x.post_send_gap_ms == 0 then pure tt else wait port x.post_send_gap_ms
    znp_recv_until x.fuel (answers x.exp_cmd0 x.exp_cmd1) x.scratch_capacity x.start_timeout_ms
        x.byte_timeout_ms x.overall_timeout_ms

  -- The end of an attempt: the line is drained, whether the answer came or not.
  abbrev pub or_again : M W (Option ZnpFrame) → Option ZnpFrame → M W (Option ZnpFrame)
  or_again rest none = do uart_drain port; rest
  or_again rest (some frame) = do uart_drain port; pure (some frame)

  -- `znp_exec`, over the attempts left, of which there are at most 254; `on_match` is given the data
  -- of the frame.
  unfoldable pub znp_exec : ℕ → Exchange → M W (Option ZnpFrame)
  unfolding ask_once
  znp_exec zero x = pure none
  znp_exec (suc attempts) x = do answer ← ask_once x; or_again (znp_exec attempts x) answer
