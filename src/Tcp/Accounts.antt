-- ===== src/Tcp/Accounts.antt =====
-- The counters and the revision number against the calls that were made.
use zigbee_gateway.Common.{
  ℕ, ◌+◌, ◌^◌, ◌<◌, ◌≡◌, arith, Bool, true, false, not, ◌&&◌, List, [], ◌∷◌, u32,
}
use zigbee_gateway.Tcp.State.{
  ZigbeeTcpState, ZigbeeTcpAcceptAction, initial_state, reject, accept_client, is_maintenance,
  is_provisional,
}
use zigbee_gateway.Tcp.Valid.{IsSound, initial_state-IsSound, perform-IsSound}
use zigbee_gateway.Tcp.Run.{Call, accept, payload, expire_pending, recovered, perform, run, history}

abbrev pub one_if : Bool → ℕ
one_if true = 1
one_if false = 0

abbrev pub is_reject : ZigbeeTcpAcceptAction → Bool
is_reject reject = true
is_reject _ = false

-- Whether a call turns a client away, times a waiting client out, reports a recovery.
abbrev pub turns_away : ZigbeeTcpState → Call → Bool
turns_away s accept = is_reject (accept_client s).1
turns_away s _ = false

abbrev pub times_out : ZigbeeTcpState → Call → Bool
times_out s expire_pending = true
times_out s _ = false

abbrev pub recovers : ZigbeeTcpState → Call → Bool
recovers s recovered = true
recovers s _ = false

-- Whether a maintenance session stands after a call and not before it.
abbrev pub opens_maintenance : ZigbeeTcpState → Call → Bool
opens_maintenance s c = not (is_maintenance s.active) && is_maintenance (perform s c).active

-- Every call is an event but for a payload outside a provisional session.
abbrev pub is_event : ZigbeeTcpState → Call → Bool
is_event s payload = is_provisional s.active
is_event s _ = true

-- How many of the calls meet a test in the state in which they are made.
pub tally : (ZigbeeTcpState → Call → Bool) → ZigbeeTcpState → List Call → ℕ
tally test s [] = 0
tally test s (c ∷ cs) = one_if (test s c) + tally test (perform s c) cs

-- A word that each call raises by one if it meets the test, and otherwise leaves.
module _ (word : ZigbeeTcpState → ℕ) (test : ZigbeeTcpState → Call → Bool)
    (counts : (s : ZigbeeTcpState) (c : Call)
      → IsSound s
      → word s < 2 ^ 32
      → word (perform s c) ≡ u32 (word s + one_if (test s c))) where
  run-tally :
      (s : ZigbeeTcpState) (cs : List Call)
      → IsSound s
      → word s < 2 ^ 32
      → word (run s cs) ≡ u32 (word s + tally test s cs)
  unfolding run tally
  run-tally s [] v h = omega arith
  run-tally s (c ∷ cs) v h = omega (
    arith,
    counts s c v h,
    run-tally (perform s c) cs (perform-IsSound s c v) (omega (arith, counts s c v h)),
  )

count_rejected :
    (s : ZigbeeTcpState) (c : Call)
    → IsSound s
    → s.counters.rejected_connections < 2 ^ 32
    → (perform s c).counters.rejected_connections
      ≡ u32 (s.counters.rejected_connections + one_if (turns_away s c))
unfolding perform
count_rejected s accept v h = ground arith
count_rejected s _ v h = ground arith

count_timeouts :
    (s : ZigbeeTcpState) (c : Call)
    → IsSound s
    → s.counters.pending_timeouts < 2 ^ 32
    → (perform s c).counters.pending_timeouts
      ≡ u32 (s.counters.pending_timeouts + one_if (times_out s c))
unfolding perform
count_timeouts s accept v h = ground arith
count_timeouts s _ v h = ground arith

count_maintenance :
    (s : ZigbeeTcpState) (c : Call)
    → IsSound s
    → s.counters.maintenance_sessions < 2 ^ 32
    → (perform s c).counters.maintenance_sessions
      ≡ u32 (s.counters.maintenance_sessions + one_if (opens_maintenance s c))
unfolding perform
count_maintenance s accept v h = ground arith
count_maintenance s _ v h = ground arith

count_recoveries :
    (s : ZigbeeTcpState) (c : Call)
    → IsSound s
    → s.counters.recovery_resets < 2 ^ 32
    → (perform s c).counters.recovery_resets
      ≡ u32 (s.counters.recovery_resets + one_if (recovers s c))
unfolding perform
count_recoveries s accept v h = ground arith
count_recoveries s _ v h = ground arith

count_events :
    (s : ZigbeeTcpState) (c : Call)
    → IsSound s
    → s.revision < 2 ^ 32
    → (perform s c).revision ≡ u32 (s.revision + one_if (is_event s c))
unfolding perform
count_events s accept v h = ground arith
count_events s _ v h = ground arith

-- After any calls the four counters are, modulo 2 ^ 32, the number of clients that were turned
-- away, of `timeout_pending` calls, of calls that began a maintenance session, and of
-- `record_recovery_reset` calls, and the revision number is that of all calls but the payloads
-- that came outside a provisional session.
pub history-counters :
    (cs : List Call)
    → let s = history cs in
      (s.counters.rejected_connections ≡ u32 (tally turns_away initial_state cs))
      × (s.counters.pending_timeouts ≡ u32 (tally times_out initial_state cs))
      × (s.counters.maintenance_sessions ≡ u32 (tally opens_maintenance initial_state cs))
      × (s.counters.recovery_resets ≡ u32 (tally recovers initial_state cs))
      × (s.revision ≡ u32 (tally is_event initial_state cs))
unfolding history
history-counters cs = (
  from_zero _ _
      (at_start (λ s. s.counters.rejected_connections) turns_away count_rejected (omega arith)),
  from_zero _ _
      (at_start (λ s. s.counters.pending_timeouts) times_out count_timeouts (omega arith)),
  from_zero _ _ (
      at_start (λ s. s.counters.maintenance_sessions) opens_maintenance count_maintenance
        (omega arith)),
  from_zero _ _
      (at_start (λ s. s.counters.recovery_resets) recovers count_recoveries (omega arith)),
  from_zero _ _ (at_start (λ s. s.revision) is_event count_events (omega arith)),
)
  where
    from_zero : (w n : ℕ) → w ≡ u32 (0 + n) → w ≡ u32 n
    from_zero w n h = omega arith

    at_start :
        (word : ZigbeeTcpState → ℕ) (test : ZigbeeTcpState → Call → Bool)
        → ((s : ZigbeeTcpState) (c : Call)
            → IsSound s
            → word s < 2 ^ 32
            → word (perform s c) ≡ u32 (word s + one_if (test s c)))
        → word initial_state < 2 ^ 32
        → word (run initial_state cs) ≡ u32 (word initial_state + tally test initial_state cs)
    at_start word test counts h =
        run-tally word test counts initial_state cs initial_state-IsSound h
