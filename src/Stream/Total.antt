-- ===== src/Stream/Total.antt =====
-- The pump returns whatever the endpoints deliver, if they count their bytes, and leaves buffers
-- that it can use again.
use mathlib.Core.Option.{Option, some}
use zigbee_gateway.Common.{
  ℕ, zero, suc, ◌+◌, ◌≤◌, ◌<◌, min, ◌≡◌, refl, arith, true, false, List, ◌++◌, ◌==◌, ◌||◌, ltb,
  length, drop, Bool-cases, inl, inr, length-append, length-take, length-drop, length-replicate,
  not,
}
use zigbee_gateway.Stream.Endpoint.{
  ZigbeeStreamIoState, progress, would_block, closed, error, ZigbeeStreamEndpoint,
}
use zigbee_gateway.Stream.Pump.{
  reset, empty_buffer, queue_left_to_right, DirectionBuffer, Buffers, buffer_size, loop_io_budget,
  Flow, Turn, go_on, finish, Codes, outgoing, requested, after_write, after_read, turn, pump_loop,
  loop_fuel, ZigbeeStreamPumpResult, pump_direction, pump_back, left_codes, right_codes, Pumped,
  pump, is_active,
}
use zigbee_gateway.Stream.Relay.{measure}

-- What a result counts is within what was asked for, and is what a read has stored.
pub record IsCounted {E : Type 0} (ops : ZigbeeStreamEndpoint E) : Type 0 where
  pub read_counts :
      (e : E) (n : ℕ)
      → (ops.read e n).result.state ≡ progress
      → (length (ops.read e n).bytes ≡ (ops.read e n).result.count)
        × ((ops.read e n).result.count ≤ n)
  pub write_counts :
      (e : E) (data' : List ℕ)
      → (ops.write e data').result.state ≡ progress
      → (ops.write e data').result.count ≤ length data'

-- A buffer that is empty starts at its front.
pub record IsReady (b : DirectionBuffer) : Type 0 where
  pub fits : b.offset + b.count ≤ buffer_size
  pub size : length b.bytes ≡ buffer_size
  pub front : b.count ≡ 0 → b.offset ≡ 0

module _ {S T : Type 0} (source : ZigbeeStreamEndpoint S) (target : ZigbeeStreamEndpoint T)
    (codes : Codes) (from : IsCounted source) (to : IsCounted target) where
  abbrev pub Usable : Flow S T → Type 0
  Usable f = IsReady f.buffer × (f.budget ≤ loop_io_budget)

  abbrev pub Goes : ℕ → Turn S T → Type 0
  Goes m (go_on f) = Usable f × (measure f < m)
  Goes m (finish f result) = Usable f

  after_write-Goes :
      (f : Flow S T)
      → Usable f
      → (f.buffer.count == 0) ≡ false
      → (st : ZigbeeStreamIoState) → (target.write f.target (outgoing f)).result.state ≡ st
      → Goes (measure f) (after_write source target codes f st (target.write f.target (outgoing f)))
  unfolding after_write measure
  after_write-Goes f h busy progress e = ground (
    arith,
    to.write_counts f.target (outgoing f) e,
    length-take (min f.buffer.count f.budget) (drop f.buffer.offset f.buffer.bytes),
  )
  after_write-Goes f h busy would_block e = h
  after_write-Goes f h busy closed e = h
  after_write-Goes f h busy error e = h

  after_read-Goes :
      (f : Flow S T)
      → Usable f
      → (f.buffer.count == 0) ≡ true
      → (f.budget == 0) ≡ false
      → (st : ZigbeeStreamIoState) → (source.read f.source (requested f)).result.state ≡ st
      → Goes (measure f) (after_read source target codes f st (source.read f.source (requested f)))
  unfolding after_read measure
  after_read-Goes f h free budgeted progress e =
      let r = source.read f.source (requested f) in
      let counts = from.read_counts f.source (requested f) e in
      let stored : length (r.bytes ++ drop (length r.bytes) f.buffer.bytes) ≡ 1024 = omega (
        arith,
        counts,
        h.0.size,
        length-append r.bytes (drop (length r.bytes) f.buffer.bytes),
        length-drop (length r.bytes) f.buffer.bytes,
      ) in
      elim (Bool-cases (r.result.count == 0 || ltb (requested f) r.result.count)) [
        | inl bad ↦ rw bad (record { fits = h.0.fits; size = stored; front = h.0.front }, h.1)
        | inr good ↦ rw good (
          (
            record { fits = omega (arith, counts, h.0.size); size = stored; front = λ e. refl },
            h.1,
          ),
          ground arith,
        )
      ]
  after_read-Goes f h free budgeted would_block e = h
  after_read-Goes f h free budgeted closed e = h
  after_read-Goes f h free budgeted error e = h

  turn-Goes :
      (f : Flow S T)
      → Usable f
      → (f.budget == 0) ≡ false
      → Goes (measure f) (turn source target codes f)
  unfolding turn
  turn-Goes f h budgeted = elim (Bool-cases (f.buffer.count == 0)) [
    | inl free ↦ rw free (after_read-Goes f h free budgeted _ refl)
    | inr busy ↦ rw busy (after_write-Goes f h busy _ refl)
  ]

  -- A result whose flow can be used again.
  abbrev pub Ends : Option (Flow S T × ZigbeeStreamPumpResult) → Type 0
  Ends o = (out : Flow S T × ZigbeeStreamPumpResult) × (o ≡ some out) × Usable out.0

  pump_loop-Ends :
      (fuel : ℕ) (f : Flow S T)
      → measure f < fuel
      → Usable f
      → Ends (pump_loop source target codes fuel f)
  unfolding pump_loop
  pump_loop-Ends zero f m h = absurd (omega arith)
  pump_loop-Ends (suc fuel) f m h = elim (Bool-cases (f.budget == 0)) [
    | inl spent ↦ rw (spent, pump_loop) ((f, ZigbeeStreamPumpResult.active), refl, h)
    | inr more ↦
        rw (more, pump_loop)
          (step (turn source target codes f) (turn-Goes f h more)
            (λ g k u. pump_loop-Ends fuel g k u))
  ]
    where
      step :
          (t : Turn S T)
          → Goes (measure f) t
          → ((g : Flow S T)
              → measure g < fuel
              → Usable g
              → Ends (pump_loop source target codes fuel g))
          → Ends (elim t [
            | go_on g ↦ pump_loop source target codes fuel g
            | finish g result ↦ some (g, result)
          ])
      step (go_on g) k again = again g (omega (arith, k)) k.0
      step (finish g result) k again = ((g, result), refl, k)

  pump_direction-Ends :
      (s : S) (t : T) (b : DirectionBuffer)
      → IsReady b
      → Ends (pump_direction source target codes s t b)
  unfolding pump_direction measure
  pump_direction-Ends s t b h =
      pump_loop-Ends loop_fuel
        (record { source = s; target = t; buffer = b; budget = loop_io_budget }) (ground arith)
        (h, omega arith)

-- What the pump leaves, if it returns.
pub record IsUsable (b : Buffers) : Type 0 where
  pub left_ready : IsReady b.left_to_right
  pub right_ready : IsReady b.right_to_left

module _ {L R : Type 0} (left : ZigbeeStreamEndpoint L) (right : ZigbeeStreamEndpoint R)
    (left_counted : IsCounted left) (right_counted : IsCounted right) where
  pump_back-ends :
      (b : DirectionBuffer)
      → IsReady b
      → (step : Flow L R × ZigbeeStreamPumpResult) → IsReady step.0.buffer
      → (out : Pumped L R) × (pump_back left right b step ≡ some out) × IsUsable out.buffers
  unfolding pump_back
  pump_back-ends b h (f, result) k = elim (Bool-cases (is_active result)) [
    | inl going ↦
        let (back, e, u) =
          pump_direction-Ends right left right_codes right_counted left_counted f.target f.source b
            h in
        rw (going, pump_back)
          (rw e (
            record {
              left = back.0.target;
              right = back.0.source;
              buffers = record { left_to_right = f.buffer; right_to_left = back.0.buffer };
              result = back.1;
            },
            refl,
            record { left_ready = k; right_ready = u.0 },
          ))
    | inr over ↦
        rw (over, pump_back)
          (
            record {
              left = f.source;
              right = f.target;
              buffers = record { left_to_right = f.buffer; right_to_left = b };
              result = result;
            },
            refl,
            record { left_ready = k; right_ready = h },
          )
  ]

  -- From usable buffers, between endpoints that count their bytes, the pump returns within its
  -- fuel, with usable buffers.
  pub pump_total :
      (l : L) (r : R) (b : Buffers)
      → IsUsable b
      → (out : Pumped L R) × (pump left right true l r b ≡ some out) × IsUsable out.buffers
  unfolding pump
  pump_total l r b h =
      let (step, e, u) =
        pump_direction-Ends left right left_codes left_counted right_counted l r b.left_to_right
          h.left_ready in
      rw e (pump_back-ends b.right_to_left h.right_ready step u.0)

-- The buffers after a reset are usable, and so are those with some bytes queued.
pub reset-IsUsable : IsUsable reset
unfolding reset empty_buffer
reset-IsUsable = record {
  left_ready = record {
    fits = omega arith;
    size = length-replicate {A = ℕ} buffer_size 0;
    front = λ e. refl;
  };
  right_ready = record {
    fits = omega arith;
    size = length-replicate {A = ℕ} buffer_size 0;
    front = λ e. refl;
  };
}

pub queue_left_to_right-IsUsable :
    (bytes : List ℕ) (b : Buffers) → IsUsable b → IsUsable (queue_left_to_right (some bytes) b).0
unfolding queue_left_to_right
queue_left_to_right-IsUsable bytes b h = elim (Bool-cases (length bytes == 0)) [
  | inl empty ↦ rw empty h
  | inr more ↦
      rw more
        (elim (Bool-cases
          (not (b.left_to_right.count == 0) || ltb (length b.left_to_right.bytes) (length bytes))) [
            | inl full ↦ rw full h
            | inr free ↦ rw free (record {
              left_ready = record {
                fits = ground (arith, h.left_ready.front, h.left_ready.size);
                size = ground (
                  arith,
                  h.left_ready.size,
                  length-append bytes (drop (length bytes) b.left_to_right.bytes),
                  length-drop (length bytes) b.left_to_right.bytes,
                );
                front = λ e. ground arith;
              };
              right_ready = h.right_ready;
            })
          ])
]
