-- ===== src/Server/Client.antt =====
-- `ZigbeeTcpServer::Client`, and the loops that read from a client that does not own the UART. The
-- socket is the parameter of Stream/Sockets.
use mathlib.Core.Option.{Option, none, some}
use Prim.Native.String.{String}
use zigbee_gateway.Common.{
  ℕ, zero, suc, ◌+◌, min, Bool, true, false, ◌||◌, List, [], ◌++◌, ◌==◌, length, take, u32,
}
use zigbee_gateway.Stream.Pump.{sub_size}
use zigbee_gateway.Stream.Sockets.{SocketResult, moved, errno, Socket}

abbrev pub prebuffer_size : ℕ
prebuffer_size = 512

abbrev pub io_chunk_size : ℕ
io_chunk_size = 256

abbrev pub loop_io_budget : ℕ
loop_io_budget = 1024

-- `prebuffer` is the first `prebuffer_length` bytes of the array.
pub record Client (S : Type 0) : Type 0 where
  pub socket : Option S
  pub identifier : String
  pub connected_at : ℕ
  pub bytes_received : ℕ
  pub bytes_discarded : ℕ
  pub prebuffer : List ℕ

abbrev pub no_client : {S : Type 0} → Client S
no_client = record {
  socket = none;
  identifier = "";
  connected_at = 0;
  bytes_received = 0;
  bytes_discarded = 0;
  prebuffer = [];
}

abbrev pub is_some : {A : Type 0} → Option A → Bool
is_some none = false
is_some (some a) = true

abbrev pub connected : {S : Type 0} → Client S → Bool
connected c = is_some c.socket

module _ {S : Type 0} (sockets : Socket S) where
  abbrev pub would_block_code : ℕ → Bool
  would_block_code code = code == sockets.ewouldblock || code == sockets.eagain

  -- A client whose socket took in some bytes.
  abbrev pub received : Client S → ℕ → List ℕ → S → Client S
  received c count bytes sock = record c {
    socket = some sock;
    bytes_received = u32 (c.bytes_received + count);
    prebuffer = c.prebuffer ++ take count bytes;
  }

  -- `std::min({sizeof(chunk), free, budget})`
  abbrev pub wanted : Client S → ℕ → ℕ
  wanted c budget = min (min io_chunk_size (sub_size prebuffer_size (length c.prebuffer))) budget

  -- What follows a read, if `again` is the rest of the loop.
  abbrev pub after_receive :
      (ℕ → Client S → S → Client S × Bool)
      → ℕ
      → Client S
      → SocketResult
      → List ℕ
      → S
      → Client S × Bool
  after_receive again budget c (moved zero) bytes sock = (record c { socket = some sock }, false)
  after_receive again budget c (moved (suc n)) bytes sock =
      again (sub_size budget (suc n)) (received c (suc n) bytes sock) sock
  after_receive again budget c (errno code) bytes sock =
      (record c { socket = some sock }, would_block_code code)

  -- The loop of `collect_prebuffer_`. Each turn that goes on takes at least one byte of the budget,
  -- which is the fuel that it starts with.
  unfoldable pub collect_loop : ℕ → ℕ → Client S → S → Client S × Bool
  collect_loop zero budget c sock = (c, true)
  collect_loop (suc fuel) budget c sock = elim (budget == 0) [
    | true ↦ (c, true)
    | false ↦ elim (sub_size prebuffer_size (length c.prebuffer) == 0) [
      | true ↦ (c, false)
      | false ↦
          let (result, bytes, sock') = sockets.read sock (wanted c budget) in
          after_receive (collect_loop fuel) budget c result bytes sock'
    ]
  ]

  unfoldable pub collect_prebuffer : Client S → Client S × Bool
  unfolding collect_loop
  collect_prebuffer c = elim c.socket [
    | none ↦ (c, false)
    | some sock ↦ collect_loop loop_io_budget loop_io_budget c sock
  ]

  abbrev pub discarded : Client S → ℕ → S → Client S
  discarded c count sock = record c {
    socket = some sock;
    bytes_discarded = u32 (c.bytes_discarded + count);
  }

  abbrev pub after_discard :
      (ℕ → Client S → S → Client S × Bool) → ℕ → Client S → SocketResult → S → Client S × Bool
  after_discard again budget c (moved zero) sock = (record c { socket = some sock }, false)
  after_discard again budget c (moved (suc n)) sock =
      again (sub_size budget (suc n)) (discarded c (suc n) sock) sock
  after_discard again budget c (errno code) sock =
      (record c { socket = some sock }, would_block_code code)

  -- The loop of `drain_parked_`: the second result is false if the socket is to be closed.
  unfoldable pub discard_loop : ℕ → ℕ → Client S → S → Client S × Bool
  discard_loop zero budget c sock = (c, true)
  discard_loop (suc fuel) budget c sock = elim (budget == 0) [
    | true ↦ (c, true)
    | false ↦
        let (result, bytes, sock') = sockets.read sock (min io_chunk_size budget) in
        after_discard (discard_loop fuel) budget c result sock'
  ]
