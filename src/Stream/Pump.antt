-- ===== src/Stream/Pump.antt =====
-- `ZigbeeStreamPump` of zigbee_stream_pump.h. The two endpoints are parameters; a call returns
-- them, and the buffers, as they are afterwards.
use mathlib.Core.Option.{Option, none, some}
use zigbee_gateway.Common.{
  ℕ, zero, suc, ◌+◌, ◌-◌, ◌*◌, ◌%◌, ◌^◌, min, Bool, true, false, not, ◌||◌, List, ◌++◌, ltb, ◌==◌,
  if◌then◌else◌, length, take, drop, replicate,
}
use zigbee_gateway.Stream.Endpoint.{
  ZigbeeStreamIoState, progress, would_block, closed, error, ReadReply, WriteReply,
  ZigbeeStreamEndpoint,
}

pub data ZigbeeStreamPumpResult : Type 0 where
  active left_closed right_closed left_error right_error : ZigbeeStreamPumpResult

abbrev pub buffer_size : ℕ
buffer_size = 1024

abbrev pub io_chunk_size : ℕ
io_chunk_size = 256

abbrev pub loop_io_budget : ℕ
loop_io_budget = 1024

-- The member `length` is named `count`, and `data` is named `bytes`.
pub record DirectionBuffer : Type 0 where
  pub bytes : List ℕ
  pub offset : ℕ
  pub count : ℕ

unfoldable pub empty_buffer : DirectionBuffer
empty_buffer = record { bytes = replicate buffer_size 0; offset = 0; count = 0 }

pub record Buffers : Type 0 where
  pub left_to_right : DirectionBuffer
  pub right_to_left : DirectionBuffer

unfoldable pub reset : Buffers
reset = record { left_to_right = empty_buffer; right_to_left = empty_buffer }

-- The first argument is `none` for a null pointer; the list is the `length` bytes from `data`.
unfoldable pub queue_left_to_right : Option (List ℕ) → Buffers → Buffers × Bool
queue_left_to_right none b = (b, true)
queue_left_to_right (some data') b =
    if length data' == 0
    then (b, true)
    else if not (b.left_to_right.count == 0) || ltb (length b.left_to_right.bytes) (length data')
    then (b, false)
    else (
      record b {
        left_to_right = record b.left_to_right {
          bytes = data' ++ drop (length data') b.left_to_right.bytes;
          count = length data';
        };
      },
      true,
    )

unfoldable pub has_pending_data : Buffers → Bool
has_pending_data b = not (b.left_to_right.count == 0) || not (b.right_to_left.count == 0)

-- `size_t` subtraction.
abbrev pub sub_size : ℕ → ℕ → ℕ
sub_size a b = (a + 2 ^ 64 - b) % 2 ^ 64

-- The variables of the loop in `pump_direction_`.
pub record Flow (S T : Type 0) : Type 0 where
  pub source : S
  pub target : T
  pub buffer : DirectionBuffer
  pub budget : ℕ

pub data Turn (S T : Type 0) : Type 0 where
  go_on : Flow S T → Turn S T
  finish : Flow S T → ZigbeeStreamPumpResult → Turn S T

-- The four results that `pump` hands to `pump_direction_`.
pub record Codes : Type 0 where
  pub source_closed : ZigbeeStreamPumpResult
  pub source_error : ZigbeeStreamPumpResult
  pub target_closed : ZigbeeStreamPumpResult
  pub target_error : ZigbeeStreamPumpResult

-- What `target->write` is handed: `std::min(buffer.length, budget)` bytes from the offset on.
abbrev pub outgoing : {S T : Type 0} → Flow S T → List ℕ
outgoing f = take (min f.buffer.count f.budget) (drop f.buffer.offset f.buffer.bytes)

-- `std::min({IO_CHUNK_SIZE, buffer.data.size(), budget})`
abbrev pub requested : {S T : Type 0} → Flow S T → ℕ
requested f = min (min io_chunk_size (length f.buffer.bytes)) f.budget

module _ {S T : Type 0} (source : ZigbeeStreamEndpoint S) (target : ZigbeeStreamEndpoint T)
    (codes : Codes) where
  -- The `switch` on the result of the write.
  unfoldable pub after_write : Flow S T → ZigbeeStreamIoState → WriteReply T → Turn S T
  after_write f progress r =
      if r.result.count == 0 || ltb f.buffer.count r.result.count
      then finish (record f { target = r.endpoint }) codes.target_error
      else let left = sub_size f.buffer.count r.result.count in
        go_on (record {
          source = f.source;
          target = r.endpoint;
          buffer = record {
            bytes = f.buffer.bytes;
            offset = if left == 0 then 0 else f.buffer.offset + r.result.count;
            count = left;
          };
          budget = sub_size f.budget r.result.count;
        })
  after_write f would_block r = finish (record f { target = r.endpoint }) active
  after_write f closed r = finish (record f { target = r.endpoint }) codes.target_closed
  after_write f error r = finish (record f { target = r.endpoint }) codes.target_error

  -- The `switch` on the result of the read, which has stored its bytes in the buffer's array.
  unfoldable pub after_read : Flow S T → ZigbeeStreamIoState → ReadReply S → Turn S T
  after_read f progress r =
      let stored = r.bytes ++ drop (length r.bytes) f.buffer.bytes in
      if r.result.count == 0 || ltb (requested f) r.result.count
      then finish (record f { source = r.endpoint; buffer = record f.buffer { bytes = stored } })
          codes.source_error
      else go_on (record f {
        source = r.endpoint;
        buffer = record { bytes = stored; offset = 0; count = r.result.count };
      })
  after_read f would_block r = finish (record f { source = r.endpoint }) active
  after_read f closed r = finish (record f { source = r.endpoint }) codes.source_closed
  after_read f error r = finish (record f { source = r.endpoint }) codes.source_error

  -- The body of the loop.
  unfoldable pub turn : Flow S T → Turn S T
  unfolding after_write after_read
  turn f =
      if not (f.buffer.count == 0)
      then (let r = target.write f.target (outgoing f) in after_write f r.result.state r)
      else (let r = source.read f.source (requested f) in after_read f r.result.state r)

  -- The loop, on fuel: `none` is the fuel run out.
  unfoldable pub pump_loop : ℕ → Flow S T → Option (Flow S T × ZigbeeStreamPumpResult)
  unfolding turn
  pump_loop zero f = none
  pump_loop (suc fuel) f = elim (f.budget == 0) [
    | true ↦ some (f, active)
    | false ↦ elim (turn f) [ go_on f' ↦ pump_loop fuel f' | finish f' result ↦ some (f', result) ]
  ]

-- A write takes at least one byte of the budget, and a read is followed by a write.
abbrev pub loop_fuel : ℕ
loop_fuel = 2 * loop_io_budget + 2

unfoldable pub pump_direction :
    {S T : Type 0}
    → ZigbeeStreamEndpoint S
    → ZigbeeStreamEndpoint T
    → Codes
    → S
    → T
    → DirectionBuffer
    → Option (Flow S T × ZigbeeStreamPumpResult)
unfolding pump_loop
pump_direction source target codes s t b =
    pump_loop source target codes loop_fuel
      (record { source = s; target = t; buffer = b; budget = loop_io_budget })

abbrev pub left_codes : Codes
left_codes = record {
  source_closed = left_closed;
  source_error = left_error;
  target_closed = right_closed;
  target_error = right_error;
}

abbrev pub right_codes : Codes
right_codes = record {
  source_closed = right_closed;
  source_error = right_error;
  target_closed = left_closed;
  target_error = left_error;
}

pub record Pumped (L R : Type 0) : Type 0 where
  pub left : L
  pub right : R
  pub buffers : Buffers
  pub result : ZigbeeStreamPumpResult

abbrev pub is_active : ZigbeeStreamPumpResult → Bool
is_active active = true
is_active _ = false

-- The second direction, run only while the first one is active.
unfoldable pub pump_back :
    {L R : Type 0}
    → ZigbeeStreamEndpoint L
    → ZigbeeStreamEndpoint R
    → DirectionBuffer
    → Flow L R × ZigbeeStreamPumpResult
    → Option (Pumped L R)
unfolding pump_direction
pump_back left right b (f, result) =
    if not (is_active result)
    then some (record {
      left = f.source;
      right = f.target;
      buffers = record { left_to_right = f.buffer; right_to_left = b };
      result = result;
    })
    else elim (pump_direction right left right_codes f.target f.source b) [
      | none ↦ none
      | some (g, back) ↦ some (record {
        left = g.target;
        right = g.source;
        buffers = record { left_to_right = f.buffer; right_to_left = g.buffer };
        result = back;
      })
    ]

-- `pump`; the flag says that neither endpoint is a null pointer.
unfoldable pub pump :
    {L R : Type 0}
    → ZigbeeStreamEndpoint L
    → ZigbeeStreamEndpoint R
    → Bool
    → L
    → R
    → Buffers
    → Option (Pumped L R)
unfolding pump_direction pump_back
pump left right both_set l r b =
    if not both_set
    then some (record { left = l; right = r; buffers = b; result = right_error })
    else elim (pump_direction left right left_codes l r b.left_to_right) [
      | none ↦ none
      | some step ↦ pump_back left right b.right_to_left step
    ]
