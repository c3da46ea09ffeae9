-- ===== src/Stream/Endpoint.antt =====
-- `ZigbeeStreamEndpoint` of zigbee_stream_pump.h: what the pump calls, and the contract of a
-- non-blocking endpoint that its comment states.
use zigbee_gateway.Common.{ℕ, ◌≤◌, ◌≡◌, ◌≢◌, List, [], ◌++◌, length, take}

pub data ZigbeeStreamIoState : Type 0 where
  progress would_block closed error : ZigbeeStreamIoState

-- `error` of the source is named `code`.
pub record ZigbeeStreamIoResult : Type 0 where
  pub state : ZigbeeStreamIoState
  pub count : ℕ
  pub code : ℕ

abbrev pub io_progress : ℕ → ZigbeeStreamIoResult
io_progress count = record { state = progress; count = count; code = 0 }

abbrev pub io_would_block : ZigbeeStreamIoResult
io_would_block = record { state = would_block; count = 0; code = 0 }

abbrev pub io_closed : ZigbeeStreamIoResult
io_closed = record { state = closed; count = 0; code = 0 }

abbrev pub io_failed : ℕ → ZigbeeStreamIoResult
io_failed code = record { state = error; count = 0; code = code }

-- A reply of `read`, with the bytes that it stored at the start of the caller's array, and the
-- endpoint after the call.
pub record ReadReply (E : Type 0) : Type 0 where
  pub result : ZigbeeStreamIoResult
  pub bytes : List ℕ
  pub endpoint : E

pub record WriteReply (E : Type 0) : Type 0 where
  pub result : ZigbeeStreamIoResult
  pub endpoint : E

pub record ZigbeeStreamEndpoint (E : Type 0) : Type 0 where
  pub read : E → ℕ → ReadReply E
  pub write : E → List ℕ → WriteReply E

-- The contract. `received` is all that the endpoint has delivered to its reader so far, and `sent`
-- all that it has taken from its writer.
pub record IsEndpoint {E : Type 0} (ops : ZigbeeStreamEndpoint E) (received sent : E → List ℕ)
    : Type 0 where
  pub read_counts :
      (e : E) (n : ℕ)
      → (ops.read e n).result.state ≡ progress
      → (length (ops.read e n).bytes ≡ (ops.read e n).result.count)
        × ((ops.read e n).result.count ≤ n)
  pub read_idle :
      (e : E) (n : ℕ) → (ops.read e n).result.state ≢ progress → (ops.read e n).bytes ≡ []
  pub read_received :
      (e : E) (n : ℕ) → received (ops.read e n).endpoint ≡ received e ++ (ops.read e n).bytes
  pub write_counts :
      (e : E) (data' : List ℕ)
      → (ops.write e data').result.state ≡ progress
      → (ops.write e data').result.count ≤ length data'
  pub write_sent :
      (e : E) (data' : List ℕ)
      → (ops.write e data').result.state ≡ progress
      → sent (ops.write e data').endpoint ≡ sent e ++ take (ops.write e data').result.count data'
  pub write_idle :
      (e : E) (data' : List ℕ)
      → (ops.write e data').result.state ≢ progress
      → sent (ops.write e data').endpoint ≡ sent e
  pub read_sent : (e : E) (n : ℕ) → sent (ops.read e n).endpoint ≡ sent e
  pub write_received : (e : E) (data' : List ℕ) → received (ops.write e data').endpoint ≡ received e
