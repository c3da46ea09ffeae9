-- ===== src/Stream/Delivery.antt =====
-- Each call of the pump ends within its fuel, and relays what it reads in order and in full.
use mathlib.Core.Option.{some}
use zigbee_gateway.Common.{
  ℕ, zero, suc, ◌+◌, ◌*◌, ◌≤◌, ◌<◌, ◌≡◌, refl, arith, true, false, List, if◌then◌else◌, [], ◌++◌,
  ◌==◌, length, Bool-cases, inl, inr, length-replicate,
}
use zigbee_gateway.Stream.Endpoint.{ZigbeeStreamEndpoint, IsEndpoint}
use zigbee_gateway.Stream.Pump.{
  DirectionBuffer, loop_io_budget, buffer_size, empty_buffer, Flow, Turn, go_on, finish, Codes,
  turn, pump_loop, loop_fuel, pump_direction, ZigbeeStreamPumpResult, Buffers, pump, pump_back,
  Pumped, left_codes, right_codes, is_active,
}
use zigbee_gateway.Stream.Relay.{
  queued, IsBuffer, IsRelayed, measure, Kept, after_write-Kept, after_read-Kept,
}

module _ {S T : Type 0} (source : ZigbeeStreamEndpoint S) (target : ZigbeeStreamEndpoint T)
    (codes : Codes) (received given : S → List ℕ) (taken sent : T → List ℕ)
    (from : IsEndpoint source received given) (to : IsEndpoint target taken sent)
    (before gave took : List ℕ) (work : ℕ) where
  abbrev Good : Flow S T → Type 0
  Good f = IsRelayed received given taken sent before gave took work f

  abbrev Progress : ℕ → Turn S T → Type 0
  Progress m t =
      Kept source target codes received given taken sent from to before gave took work m t

  turn-Progress :
      (f : Flow S T)
      → Good f
      → (f.budget == 0) ≡ false
      → Progress (measure f) (turn source target codes f)
  unfolding turn
  turn-Progress f h budgeted = elim (Bool-cases (f.buffer.count == 0)) [
    | inl free ↦ rw free (
        after_read-Kept source target codes received given taken sent from to before gave took work
          f h free budgeted _ refl)
    | inr busy ↦ rw busy (
        after_write-Kept source target codes received given taken sent from to before gave took work
          f h busy _ refl)
  ]

  pump_loop-Good :
      (fuel : ℕ) (f : Flow S T)
      → measure f < fuel
      → Good f
      → (out : Flow S T × ZigbeeStreamPumpResult) × (pump_loop source target codes fuel f
          ≡ some out)
        × Good out.0
  unfolding pump_loop
  pump_loop-Good zero f m h = absurd (omega arith)
  pump_loop-Good (suc fuel) f m h = elim (Bool-cases (f.budget == 0)) [
    | inl spent ↦ rw (spent, pump_loop) ((f, ZigbeeStreamPumpResult.active), refl, h)
    | inr budgeted ↦
        rw (budgeted, pump_loop)
          (step (turn source target codes f) (turn-Progress f h budgeted) (pump_loop-Good fuel))
  ]
    where
      step :
          (t : Turn S T)
          → Progress (measure f) t
          → ((g : Flow S T)
              → measure g < fuel
              → Good g
              → (out : Flow S T × ZigbeeStreamPumpResult) × (pump_loop source target codes fuel g
                  ≡ some out)
                × Good out.0)
          → (out : Flow S T × ZigbeeStreamPumpResult) × (elim t [
            | go_on g ↦ pump_loop source target codes fuel g
            | finish g result ↦ some (g, result)
          ]
              ≡ some out)
            × Good out.0
      step (go_on g) k again = again g (omega (arith, k)) k.0
      step (finish g result) k again = ((g, result), refl, k)

  -- One direction, from a buffer that holds back `queued b`.
  pub pump_direction-Good :
      (s : S) (t : T) (b : DirectionBuffer)
      → IsBuffer b
      → given s ≡ gave
      → taken t ≡ took
      → length (sent t) + loop_io_budget ≤ work
      → before ++ received s ≡ sent t ++ queued b
      → (out : Flow S T × ZigbeeStreamPumpResult) × (pump_direction source target codes s t b
          ≡ some out)
        × Good out.0
  unfolding pump_direction
  pump_direction-Good s t b fits same_given same_taken bound start =
      pump_loop-Good loop_fuel
        (record { source = s; target = t; buffer = b; budget = loop_io_budget })
        (unfold measure in enough b.count)
        (record {
          buffer = fits;
          budget = omega arith;
          spent = bound;
          relayed = start;
          source_same = same_given;
          target_same = same_taken;
        })
    where
      enough : (n : ℕ) → 2 * loop_io_budget + (if n == 0 then 1 else 0) < loop_fuel
      enough n = ground arith

-- `reset` leaves nothing queued, in buffers that a pump can use.
pub reset-queued : (IsBuffer empty_buffer) × (queued empty_buffer ≡ [])
unfolding empty_buffer
reset-queued = (record { fits = omega arith; size = length-replicate {A = ℕ} buffer_size 0 }, refl)

module _ {L R : Type 0} (left : ZigbeeStreamEndpoint L) (right : ZigbeeStreamEndpoint R)
    (from_left to_left : L → List ℕ) (from_right to_right : R → List ℕ)
    (left_ok : IsEndpoint left from_left to_left)
    (right_ok : IsEndpoint right from_right to_right) where
  -- What the pump leaves: usable buffers, each stream relayed in order up to what is queued, and at
  -- most one loop budget sent each way.
  pub record IsPumped (forward backward : List ℕ) (l : L) (r : R) (out : Pumped L R) : Type 0 where
    pub left_buffer : IsBuffer out.buffers.left_to_right
    pub right_buffer : IsBuffer out.buffers.right_to_left
    pub left_relayed :
        forward ++ from_left out.left ≡ to_right out.right ++ queued out.buffers.left_to_right
    pub right_relayed :
        backward ++ from_right out.right ≡ to_left out.left ++ queued out.buffers.right_to_left
    pub right_bound : length (to_right out.right) ≤ length (to_right r) + loop_io_budget
    pub left_bound : length (to_left out.left) ≤ length (to_left l) + loop_io_budget

  module _ (forward backward : List ℕ) (l : L) (r : R) (b : Buffers)
      (left_fits : IsBuffer b.left_to_right) (right_fits : IsBuffer b.right_to_left)
      (left_start : forward ++ from_left l ≡ to_right r ++ queued b.left_to_right)
      (right_start : backward ++ from_right r ≡ to_left l ++ queued b.right_to_left) where
    second :
        (f : Flow L R)
        → IsRelayed from_left to_left from_right to_right forward
            (to_left l)
            (from_right r)
            (length (to_right r) + loop_io_budget)
            f
        → (step : Flow R L × ZigbeeStreamPumpResult) × (pump_direction right left right_codes
              f.target f.source b.right_to_left
            ≡ some step)
          × IsRelayed from_right to_right from_left to_left backward
              (to_right f.target)
              (from_left f.source)
              (length (to_left l) + loop_io_budget)
              step.0
    second f h =
        pump_direction-Good right left right_codes from_right to_right from_left to_left right_ok
          left_ok backward (to_right f.target) (from_left f.source)
          (length (to_left l) + loop_io_budget) f.target f.source b.right_to_left right_fits refl
          refl (rw h.source_same (omega arith)) (rw (h.source_same, h.target_same) right_start)

    joined :
        (f : Flow L R)
        → IsRelayed from_left to_left from_right to_right forward
            (to_left l)
            (from_right r)
            (length (to_right r) + loop_io_budget)
            f
        → (g : Flow R L) (back : ZigbeeStreamPumpResult)
        → IsRelayed from_right to_right from_left to_left backward
            (to_right f.target)
            (from_left f.source)
            (length (to_left l) + loop_io_budget)
            g
        → IsPumped forward backward l r (record {
          left = g.target;
          right = g.source;
          buffers = record { left_to_right = f.buffer; right_to_left = g.buffer };
          result = back;
        })
    joined f h g back k = record {
      left_buffer = h.buffer;
      right_buffer = k.buffer;
      left_relayed = rw (k.source_same, k.target_same) h.relayed;
      right_relayed = k.relayed;
      right_bound = rw k.source_same (omega (arith, h.spent));
      left_bound = omega (arith, k.spent);
    }

    pump_back-IsPumped :
        (step : Flow L R × ZigbeeStreamPumpResult)
        → IsRelayed from_left to_left from_right to_right forward
            (to_left l)
            (from_right r)
            (length (to_right r) + loop_io_budget)
            step.0
        → (out : Pumped L R) × (pump_back left right b.right_to_left step ≡ some out)
          × IsPumped forward backward l r out
    unfolding pump_back
    pump_back-IsPumped (f, result) h = elim (Bool-cases (is_active result)) [
      | inl on ↦ let (step, e, k) = second f h in rw (on, e) ((_, refl, joined f h step.0 step.1 k))
      | inr off ↦ rw off (
        record {
          left = f.source;
          right = f.target;
          buffers = record { left_to_right = f.buffer; right_to_left = b.right_to_left };
          result = result;
        },
        refl,
        record {
          left_buffer = h.buffer;
          right_buffer = right_fits;
          left_relayed = h.relayed;
          right_relayed = rw (h.source_same, h.target_same) right_start;
          right_bound = omega (arith, h.spent);
          left_bound = rw h.source_same (omega arith);
        },
      )
    ]

    -- Between endpoints that keep the contract, and from usable buffers, a pump ends within its
    -- fuel. What each side has delivered is, in order and in full, what the other side has taken
    -- and then what is queued, and each side is sent at most one loop budget of bytes.
    pub pump-IsPumped :
        (out : Pumped L R) × (pump left right true l r b ≡ some out)
        × IsPumped forward backward l r out
    unfolding pump
    pump-IsPumped =
        let (step, e, h) =
          pump_direction-Good left right left_codes from_left to_left from_right to_right left_ok
            right_ok forward (to_left l) (from_right r) (length (to_right r) + loop_io_budget) l r
            b.left_to_right left_fits refl refl (omega arith) left_start in
        rw e (pump_back-IsPumped step h)
