-- ===== src/Tcp/Valid.antt =====
-- The invariant of `ZigbeeTcpState`: what `valid` tests, and where the radio may be in its ROM
-- bootloader.
use zigbee_gateway.Common.{◌≡◌, ◌≢◌, ◌⊎◌, arith, true, false, List, [], ◌∷◌}
use zigbee_gateway.Tcp.State.{
  ZigbeeTcpState, idle, provisional, normal, maintenance, initial_state, valid,
}
use zigbee_gateway.Tcp.Run.{Call, accept, payload, bsl, reset, end_active, perform, run, history}

pub record IsSound (s : ZigbeeTcpState) : Type 0 where
  pub pending_beside : s.pending ≡ true → (s.active ≡ provisional) ⊎ (s.active ≡ normal)
  pub parked_beside : s.parked ≡ true → s.active ≡ maintenance
  pub armed_before : s.bsl_armed ≡ true → s.active ≢ maintenance
  pub entered_where :
      s.bsl_entered ≡ true → (s.active ≡ maintenance) ⊎ ((s.active ≡ idle) × (s.bsl_armed ≡ true))

-- `valid` holds of every state that satisfies the invariant.
pub valid-IsSound : (s : ZigbeeTcpState) → IsSound s → valid s ≡ true
unfolding valid
valid-IsSound s h = ground arith

pub initial_state-IsSound : IsSound initial_state
initial_state-IsSound = ground arith

pub perform-IsSound : (s : ZigbeeTcpState) (c : Call) → IsSound s → IsSound (perform s c)
unfolding perform
perform-IsSound s accept h = ground arith
perform-IsSound s payload h = ground arith
perform-IsSound s (bsl received) h = ground arith
perform-IsSound s (reset received) h = ground arith
perform-IsSound s end_active h = ground arith
perform-IsSound s _ h = ground arith

run-IsSound : (s : ZigbeeTcpState) (cs : List Call) → IsSound s → IsSound (run s cs)
unfolding run
run-IsSound s [] h = h
run-IsSound s (c ∷ cs) h = run-IsSound (perform s c) cs (perform-IsSound s c h)

pub history-IsSound : (cs : List Call) → IsSound (history cs)
unfolding history
history-IsSound cs = run-IsSound initial_state cs initial_state-IsSound

-- Every state that calls of the public methods reach, in any number and order, passes `valid`,
-- and has its bootloader flag set only under a maintenance client or, with no client, while one is
-- awaited.
pub history-valid :
    (cs : List Call)
    → let s = history cs in
      (valid s ≡ true)
      × ((s.bsl_entered ≡ false)
          ⊎ (s.active ≡ maintenance)
          ⊎ ((s.active ≡ idle) × (s.bsl_armed ≡ true)))
history-valid cs = (
  valid-IsSound (history cs) (history-IsSound cs),
  ground (arith, (history-IsSound cs).entered_where),
)
