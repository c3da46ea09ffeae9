-- ===== src/Server/Tests.antt =====
-- The server over concrete sockets and a concrete UART.
use mathlib.Core.Option.{none, some}
use zigbee_gateway.Common.{
  ℕ, zero, suc, ◌≤◌, ◌≡◌, refl, arith, true, false, List, [], ◌∷◌, length, take, drop, length-take,
  replicate,
}
use zigbee_gateway.Tcp.State.{initial_state}
use zigbee_gateway.Tcp.Valid.{initial_state-IsSound}
use zigbee_gateway.Serial.Owner.{unowned}
use zigbee_gateway.Serial.Uart.{UartComponent}
use zigbee_gateway.Stream.Pump.{reset}
use zigbee_gateway.Stream.Total.{reset-IsUsable}
use zigbee_gateway.Stream.Counting.{IsSocket, ReadsAll}
use zigbee_gateway.Stream.Sockets.{SocketResult, moved, errno, Socket}
use zigbee_gateway.Server.Client.{no_client}
use zigbee_gateway.Server.Record.{ZigbeeTcpServer, ParentCall}
use zigbee_gateway.Server.Handlers.{Listener}
use zigbee_gateway.Server.Agreement.{Agrees}
use zigbee_gateway.Server.Run.{Command, starts, loops, asks_bsl, serve, serve-Agrees}

-- A socket is the bytes that wait on it; an empty one would block, and a write takes all.
queue_read : List ℕ → ℕ → SocketResult × List ℕ × List ℕ
queue_read [] n = (errno 11, [], [])
queue_read (x ∷ xs) n = (moved (length (take n (x ∷ xs))), take n (x ∷ xs), drop n (x ∷ xs))

queues : Socket (List ℕ)
queues = record {
  read = queue_read;
  write = λ s out. (moved (length out), s);
  ewouldblock = 11;
  eagain = 11;
}

read_moved :
    (s : List ℕ) (n : ℕ) {count : ℕ}
    → (queue_read s n).0 ≡ moved count
    → (length (queue_read s n).1 ≡ count) × (count ≤ n)
unfolding queue_read
read_moved [] n h = cc
read_moved (x ∷ xs) n h = ground (arith, length-take n (x ∷ xs))

queues-IsSocket : IsSocket queues
unfolding queues
queues-IsSocket = record {
  read_moved = λ s n h. read_moved s n h;
  write_moved = λ s out h. ground arith;
}

-- A UART on which zeros wait.
abbrev zeros : UartComponent ℕ
zeros = record {
  available = λ u. u;
  read_byte = λ u. (some 0, 0);
  read_array = λ u n. (some (replicate n 0), 0);
  write_byte = λ u b. u;
  write_array = λ u out. u;
  flush = λ u. u;
}

replicate-length : (n : ℕ) → length {A = ℕ} (replicate n 0) ≡ n
replicate-length zero = refl
replicate-length (suc n) = omega (arith, replicate-length n)

zeros-ReadsAll : ReadsAll zeros
zeros-ReadsAll = record { read_array_length = λ u n h. ground (arith, replicate-length n) }

-- The connections that wait to be accepted.
abbrev backlog : Listener (List (List ℕ)) (List ℕ)
backlog = record {
  accept = λ l. elim l [ [] ↦ (none, []) | s ∷ rest ↦ (some (s, "client"), rest) ];
  setblocking = λ s. (true, s);
}

abbrev leaves : ParentCall → ℕ → ℕ
leaves c u = u

abbrev fresh : ZigbeeTcpServer (List ℕ) ℕ (List (List ℕ))
fresh = record {
  parent = true;
  serial = record { uart = some 3; owner = unowned };
  pending_timeout_ms = 30000;
  park_timeout_ms = 600000;
  last_start_attempt_ms = 0;
  started = false;
  server = none;
  active = no_client;
  pending = no_client;
  parked = no_client;
  state = initial_state;
  bsl_armed_at = 0;
  parked_at = 0;
  stream_pump = reset;
  sensors = λ x. false;
  last_published_connection_count = 7;
  last_published_state_revision = 7;
  calls = [];
  published = [];
  closed = [];
}

fresh-Agrees : Agrees fresh
fresh-Agrees = record {
  active_socket = refl;
  pending_socket = refl;
  parked_socket = refl;
  sound = initial_state-IsSound;
  buffers = reset-IsUsable;
}

-- The server starts with two connections waiting, one with some bytes, and is asked for the
-- bootloader.
abbrev commands : List (Command (List (List ℕ)))
commands =
    starts
      (record {
        is_connected = true;
        created = some ((1 ∷ 2 ∷ []) ∷ [] ∷ []);
        nonblocking = true;
        bound = true;
        listens = true;
      })
      10000
    ∷ loops 10001 10002
    ∷ asks_bsl 10003
    ∷ []

serve-Agrees_example :
    (t : ZigbeeTcpServer (List ℕ) ℕ (List (List ℕ))) × (serve queues zeros backlog leaves fresh
        commands
      ≡ some t)
    × Agrees t
serve-Agrees_example =
    serve-Agrees queues zeros backlog leaves queues-IsSocket zeros-ReadsAll fresh commands
      fresh-Agrees
