-- ===== src/Link/Loader.antt =====
-- The bootloader exchanges of protocol.h: the command response, the packet that follows it, and
-- `bsl_get_status`, `bsl_sync` and `bsl_exec`.
use mathlib.Core.Option.{Option, none, some}
use zigbee_gateway.Common.{
  ℕ, zero, suc, ◌-◌, bit_and, Bool, true, false, not, List, [], ◌∷◌, ltb, ◌==◌, if◌then◌else◌, u8,
  get_or,
}
use zigbee_gateway.Bsl.Response.{
  ZigbeeBslCommandResponse, invalid, ack, nak, ZigbeeBslCommandResponseParser, new_parser, push,
}
use zigbee_gateway.Bsl.Frame.{checksum}
use zigbee_gateway.Link.Port.{
  Port, M, ◌>>=◌, ◌>>◌, pure, elapsed, send, uart_drain, uart_read_exact_t, discard_bytes,
}

abbrev pub is_ack : ZigbeeBslCommandResponse → Bool
is_ack ack = true
is_ack _ = false

module _ {W : Type 0} (port : Port W) where
  -- A byte that was pushed: the response that it completes, or the rest of the loop.
  abbrev pub after_push :
      (ZigbeeBslCommandResponseParser → M W ZigbeeBslCommandResponse)
      → ZigbeeBslCommandResponseParser × ZigbeeBslCommandResponse
      → M W ZigbeeBslCommandResponse
  after_push rest (p, invalid) w = rest p w
  after_push rest (p, ack) w = (ack, w)
  after_push rest (p, nak) w = (nak, w)

  -- The loop of `bsl_read_command_response`, from the time `started`, on fuel.
  unfoldable pub response_loop :
      ℕ → ℕ → ℕ → ZigbeeBslCommandResponseParser → M W ZigbeeBslCommandResponse
  unfolding push
  response_loop zero started timeout_ms p w = (invalid, w)
  response_loop (suc fuel) started timeout_ms p w =
      elim (ltb (elapsed (port.millis w) started) timeout_ms) [
        | false ↦ (invalid, w)
        | true ↦ elim (port.available w == 0) [
          | true ↦ response_loop fuel started timeout_ms p (port.delay w 1)
          | false ↦ elim (port.read_byte w).1 [
            | none ↦ response_loop fuel started timeout_ms p (port.delay (port.read_byte w).0 1)
            | some byte ↦
                after_push (response_loop fuel started timeout_ms) (push p byte)
                  (port.read_byte w).0
          ]
        ]
      ]

  unfoldable pub bsl_read_command_response : ℕ → ℕ → M W ZigbeeBslCommandResponse
  unfolding response_loop
  bsl_read_command_response fuel timeout_ms w =
      response_loop fuel (port.millis w) timeout_ms new_parser w

  unfoldable pub bsl_expect_ack : ℕ → ℕ → M W Bool
  bsl_expect_ack fuel timeout_ms = do
    response ← bsl_read_command_response fuel timeout_ms
    pure (is_ack response)

  unfoldable pub bsl_host_ack : M W (Unit {0})
  bsl_host_ack = send port (0x00 ∷ 0xCC ∷ [])

  unfoldable pub bsl_host_nak : M W (Unit {0})
  bsl_host_nak = send port (0x00 ∷ 0x33 ∷ [])

  abbrev pub refuse : M W (Option (List ℕ))
  refuse = do bsl_host_nak; pure none

  -- A payload, against the checksum of its header: the packet is acknowledged or refused.
  unfoldable pub judge : ℕ → Option (List ℕ) → M W (Option (List ℕ))
  unfolding bsl_host_ack bsl_host_nak checksum
  judge chk none = refuse
  judge chk (some payload) =
      if not (u8 (bit_and (checksum 0 payload) 0xFF) == chk)
      then refuse
      else do bsl_host_ack; pure (some payload)

  -- The packet behind the header: its payload if it is not too long for the buffer.
  unfoldable pub read_payload : ℕ → ℕ → Option (List ℕ) → M W (Option (List ℕ))
  unfolding bsl_host_nak
  read_payload capacity payload_timeout_ms (some (packet_len ∷ chk ∷ [])) w =
      if ltb packet_len 3
      then refuse w
      else if ltb capacity (packet_len - 2)
      then refuse (discard_bytes port (packet_len - 2) payload_timeout_ms w)
      else let r = uart_read_exact_t port (packet_len - 2) payload_timeout_ms w in judge chk r.0 r.1
  read_payload capacity payload_timeout_ms _ w = (none, w)

  -- What `bsl_get_status` and `bsl_exec` do alike, behind the acknowledgement of the command: the
  -- payload of a packet that is well formed, which is then acknowledged.
  unfoldable pub read_packet : ℕ → ℕ → ℕ → M W (Option (List ℕ))
  read_packet capacity header_timeout_ms payload_timeout_ms = do
    header ← uart_read_exact_t port 2 header_timeout_ms
    read_payload capacity payload_timeout_ms header

  -- The first byte of a payload.
  abbrev pub status_of : Option (List ℕ) → Option ℕ
  status_of none = none
  status_of (some payload) = some (get_or payload 0 0)

  -- The status byte, if the exchange succeeds.
  unfoldable pub bsl_get_status : ℕ → ℕ → ℕ → ℕ → M W (Option ℕ)
  bsl_get_status fuel ack_timeout_ms header_timeout_ms payload_timeout_ms = do
    send port (0x03 ∷ 0x23 ∷ 0x23 ∷ [])
    acked ← bsl_expect_ack fuel ack_timeout_ms
    if not acked then pure none else do
      payload ← read_packet 8 header_timeout_ms payload_timeout_ms
      pure (status_of payload)

  unfoldable pub bsl_sync : ℕ → ℕ → M W Bool
  bsl_sync fuel ack_timeout_ms = do
    uart_drain port
    send port (0x55 ∷ 0x55 ∷ [])
    bsl_expect_ack fuel ack_timeout_ms

  -- One attempt of `bsl_exec`.
  unfoldable pub exec_once : ℕ → List ℕ → ℕ → ℕ → ℕ → ℕ → M W (Option (List ℕ))
  exec_once fuel cmd scratch_capacity ack_timeout_ms header_timeout_ms payload_timeout_ms = do
    send port cmd
    acked ← bsl_expect_ack fuel ack_timeout_ms
    if not acked
        then pure none
        else read_packet scratch_capacity header_timeout_ms payload_timeout_ms

  -- The reply of an attempt, or what the attempts left give.
  abbrev pub or_retry : M W (Option (List ℕ)) → Option (List ℕ) → M W (Option (List ℕ))
  or_retry rest none = rest
  or_retry rest (some payload) = pure (some payload)

  -- `bsl_exec`, over the attempts left; the payload is what `on_reply` is given.
  unfoldable pub bsl_exec : ℕ → ℕ → List ℕ → ℕ → ℕ → ℕ → ℕ → M W (Option (List ℕ))
  bsl_exec zero fuel cmd scratch_capacity ack_timeout_ms header_timeout_ms payload_timeout_ms =
      pure none
  bsl_exec (suc attempts) fuel cmd scratch_capacity ack_timeout_ms header_timeout_ms
        payload_timeout_ms =
      do
        reply ←
            exec_once fuel cmd scratch_capacity ack_timeout_ms header_timeout_ms payload_timeout_ms
        or_retry
            (bsl_exec attempts fuel cmd scratch_capacity ack_timeout_ms header_timeout_ms
              payload_timeout_ms)
            reply
