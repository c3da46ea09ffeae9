-- ===== src/Tcp/State.antt =====
-- `ZigbeeTcpState` of zigbee_tcp_state.h: the roles of the TCP clients and the bootloader
-- rendezvous. A method that mutates the object returns the new record beside its result.
use zigbee_gateway.Common.{ℕ, ◌+◌, Bool, true, false, not, ◌&&◌, ◌||◌, if◌then◌else◌, u32}

pub data ZigbeeTcpActiveState : Type 0 where
  idle provisional normal maintenance : ZigbeeTcpActiveState

pub data ZigbeeTcpAcceptAction : Type 0 where
  activate_provisional activate_maintenance activate_maintenance_and_enter_bsl :
      ZigbeeTcpAcceptAction
  hold_pending take_over_with_new_client reject : ZigbeeTcpAcceptAction

pub data ZigbeeTcpBslAction : Type 0 where
  apply_to_active take_over_with_pending arm_and_wait enter_bsl_and_wait : ZigbeeTcpBslAction

pub data ZigbeeTcpResetAction : Type 0 where
  apply_to_active take_over_with_pending reset_only : ZigbeeTcpResetAction

pub data ZigbeeTcpDisconnectAction : Type 0 where
  normal_ended promote_pending finish_maintenance provisional_ended : ZigbeeTcpDisconnectAction

pub data ZigbeeTcpEvent : Type 0 where
  initialized provisional_client_connected normal_session_started : ZigbeeTcpEvent
  pending_client_connected connection_rejected pending_client_disconnected : ZigbeeTcpEvent
  pending_client_timed_out pending_client_promoted bsl_rendezvous_armed : ZigbeeTcpEvent
  maintenance_session_started radio_reset_requested normal_session_ended : ZigbeeTcpEvent
  maintenance_session_finished bsl_rendezvous_timed_out parked_client_disconnected : ZigbeeTcpEvent
  parked_client_timed_out recovery_reset server_shutdown bsl_entered_event : ZigbeeTcpEvent
  provisional_client_disconnected : ZigbeeTcpEvent

pub record ZigbeeTcpCounters : Type 0 where
  pub rejected_connections : ℕ
  pub pending_timeouts : ℕ
  pub maintenance_sessions : ℕ
  pub recovery_resets : ℕ

pub record ZigbeeTcpDisconnectResult : Type 0 where
  pub action : ZigbeeTcpDisconnectAction
  pub recover_radio : Bool

pub record ZigbeeTcpState : Type 0 where
  pub active : ZigbeeTcpActiveState
  pub pending : Bool
  pub parked : Bool
  pub bsl_armed : Bool
  pub bsl_entered : Bool
  pub last_event : ZigbeeTcpEvent
  pub counters : ZigbeeTcpCounters
  pub revision : ℕ

abbrev pub is_idle : ZigbeeTcpActiveState → Bool
is_idle idle = true
is_idle _ = false

abbrev pub is_provisional : ZigbeeTcpActiveState → Bool
is_provisional provisional = true
is_provisional _ = false

abbrev pub is_normal : ZigbeeTcpActiveState → Bool
is_normal normal = true
is_normal _ = false

abbrev pub is_maintenance : ZigbeeTcpActiveState → Bool
is_maintenance maintenance = true
is_maintenance _ = false

-- The members' initial values.
abbrev pub initial_state : ZigbeeTcpState
initial_state = record {
  active = idle;
  pending = false;
  parked = false;
  bsl_armed = false;
  bsl_entered = false;
  last_event = initialized;
  counters = record {
    rejected_connections = 0;
    pending_timeouts = 0;
    maintenance_sessions = 0;
    recovery_resets = 0;
  };
  revision = 0;
}

-- `record_event_`
unfoldable pub record_event : ZigbeeTcpEvent → ZigbeeTcpState → ZigbeeTcpState
record_event event s = record s { last_event = event; revision = u32 (s.revision + 1) }

-- `record_maintenance_started_`
unfoldable pub record_maintenance_started : ZigbeeTcpState → ZigbeeTcpState
unfolding record_event
record_maintenance_started s = record_event maintenance_session_started (record s {
  counters = record s.counters { maintenance_sessions = u32 (s.counters.maintenance_sessions + 1) };
})

unfoldable pub accept_client : ZigbeeTcpState → ZigbeeTcpState × ZigbeeTcpAcceptAction
unfolding record_event record_maintenance_started
accept_client s =
    if is_idle s.active
    then (if s.bsl_armed
        then (
          record_maintenance_started
              (record s { active = maintenance; bsl_armed = false; bsl_entered = true }),
          if not s.bsl_entered then activate_maintenance_and_enter_bsl else activate_maintenance,
        )
        else (
          record_event provisional_client_connected (record s { active = provisional }),
          activate_provisional,
        ))
    else if (is_normal s.active || is_provisional s.active) && not s.pending
    then (if s.bsl_armed
        then (
          record_maintenance_started (record s {
            parked = true;
            active = maintenance;
            bsl_armed = false;
            bsl_entered = true;
          }),
          take_over_with_new_client,
        )
        else (record_event pending_client_connected (record s { pending = true }), hold_pending))
    else (
      record_event connection_rejected (record s {
        counters = record s.counters {
          rejected_connections = u32 (s.counters.rejected_connections + 1);
        };
      }),
      reject,
    )

unfoldable pub receive_active_payload : ZigbeeTcpState → ZigbeeTcpState × Bool
unfolding record_event
receive_active_payload s =
    if not (is_provisional s.active)
    then (s, false)
    else (record_event normal_session_started (record s { active = normal }), true)

unfoldable pub request_bsl : ZigbeeTcpState → Bool → ZigbeeTcpState × ZigbeeTcpBslAction
unfolding record_event record_maintenance_started
request_bsl s active_has_received_bytes =
    if is_maintenance s.active
    then (
      record_event bsl_entered_event (record s { bsl_armed = false; bsl_entered = true }),
      apply_to_active,
    )
    else if s.pending
    then (
      record_maintenance_started (record s {
        pending = false;
        parked = not (is_idle s.active);
        active = maintenance;
        bsl_armed = false;
        bsl_entered = true;
      }),
      take_over_with_pending,
    )
    else if not (is_idle s.active) && not active_has_received_bytes
    then (
      record_maintenance_started
          (record s { active = maintenance; bsl_armed = false; bsl_entered = true }),
      apply_to_active,
    )
    else if not (is_idle s.active)
    then (record_event bsl_rendezvous_armed (record s { bsl_armed = true }), arm_and_wait)
    else (
      record_event bsl_rendezvous_armed (record s { bsl_armed = true; bsl_entered = true }),
      enter_bsl_and_wait,
    )

unfoldable pub request_reset : ZigbeeTcpState → Bool → ZigbeeTcpState × ZigbeeTcpResetAction
unfolding record_event record_maintenance_started
request_reset s active_has_received_bytes =
    if s.pending
    then (
      record_maintenance_started (record s {
        pending = false;
        parked = not (is_idle s.active);
        active = maintenance;
        bsl_armed = false;
        bsl_entered = false;
      }),
      take_over_with_pending,
    )
    else if is_maintenance s.active || (not (is_idle s.active) && not active_has_received_bytes)
    then (let begin_maintenance = not (is_maintenance s.active) in
        let t = record s { active = maintenance; bsl_armed = false; bsl_entered = false } in
        (
          if begin_maintenance
              then record_maintenance_started t
              else record_event radio_reset_requested t,
          apply_to_active,
        ))
    else (
      record_event radio_reset_requested (record s { bsl_armed = false; bsl_entered = false }),
      reset_only,
    )

unfoldable pub disconnect_active : ZigbeeTcpState → ZigbeeTcpState × ZigbeeTcpDisconnectResult
unfolding record_event
disconnect_active s =
    if is_maintenance s.active
    then (
      record_event maintenance_session_finished
          (record s { active = idle; parked = false; bsl_armed = false; bsl_entered = false }),
      record { action = finish_maintenance; recover_radio = s.bsl_entered },
    )
    else if s.pending
    then (
      record_event pending_client_promoted (record s { active = provisional; pending = false }),
      record { action = promote_pending; recover_radio = false },
    )
    else let was_provisional = is_provisional s.active in
      (
        record_event
            (if was_provisional then provisional_client_disconnected else normal_session_ended)
            (record s { active = idle }),
        record {
          action = if was_provisional then provisional_ended else normal_ended;
          recover_radio = false;
        },
      )

unfoldable pub disconnect_pending : ZigbeeTcpState → ZigbeeTcpState
unfolding record_event
disconnect_pending s = record_event pending_client_disconnected (record s { pending = false })

unfoldable pub timeout_pending : ZigbeeTcpState → ZigbeeTcpState
unfolding record_event
timeout_pending s = record_event pending_client_timed_out (record s {
  pending = false;
  counters = record s.counters { pending_timeouts = u32 (s.counters.pending_timeouts + 1) };
})

unfoldable pub disconnect_parked : ZigbeeTcpState → ZigbeeTcpState
unfolding record_event
disconnect_parked s = record_event parked_client_disconnected (record s { parked = false })

unfoldable pub timeout_parked : ZigbeeTcpState → ZigbeeTcpState
unfolding record_event
timeout_parked s = record_event parked_client_timed_out (record s { parked = false })

unfoldable pub expire_bsl_rendezvous : ZigbeeTcpState → ZigbeeTcpState × Bool
unfolding record_event
expire_bsl_rendezvous s = (
  record_event bsl_rendezvous_timed_out (record s { bsl_armed = false; bsl_entered = false }),
  s.bsl_entered,
)

unfoldable pub record_recovery_reset : ZigbeeTcpState → ZigbeeTcpState
unfolding record_event
record_recovery_reset s = record_event recovery_reset (record s {
  counters = record s.counters { recovery_resets = u32 (s.counters.recovery_resets + 1) };
})

unfoldable pub shutdown : ZigbeeTcpState → ZigbeeTcpState
unfolding record_event
shutdown s = record_event server_shutdown (record s {
  active = idle;
  pending = false;
  parked = false;
  bsl_armed = false;
  bsl_entered = false;
})

unfoldable pub valid : ZigbeeTcpState → Bool
valid s =
    if s.pending && (not (is_provisional s.active) && not (is_normal s.active))
    then false
    else if s.parked && not (is_maintenance s.active)
    then false
    else if s.bsl_armed && is_maintenance s.active
    then false
    else true
