-- ===== src/Znp/Tests.antt =====
-- The observer at concrete frames.
use mathlib.Core.Option.{some}
use zigbee_gateway.Common.{
  ℕ, ◌≡◌, ◌↔◌, ◌⊎◌, ◌%◌, arith, ◌≤◌, refl, length, List, true, false, [], ◌∷◌, ◌++◌,
}
use zigbee_gateway.Znp.Frame.{
  znp_fcs, znp_frame_fcs_valid, ones, covered, fcs_valid_iff, fcs_valid-damage,
}
use zigbee_gateway.Znp.Observer.{
  coordinator, router, end_device, znp_observed_role, decode_znp_observation, new_observation,
}
use zigbee_gateway.Serial.Owner.{tcp_normal, zigbee_serial_owner_allows_passive_znp_observation}
use zigbee_gateway.Znp.Sniffer.{Observed, uart_direction_rx, new_sniffer, sniff_byte, sniff_all}
use zigbee_gateway.Znp.Queue.{sniff_all-bounded}
use zigbee_gateway.Znp.Newest.{newest}
use zigbee_gateway.Znp.Observation.{SentFrame, stream, observations, IsWatching, sniff_all-stream}
use zigbee_gateway.Znp.Bounds.{observed_role_iff, decode-take}

fcs_valid_iff_example :
    (znp_frame_fcs_valid 1 0x45 0xC0 (9 ∷ []) 0x8D ≡ true)
    ↔ ((k : ℕ) → ones k (covered 1 0x45 0xC0 (9 ∷ []) 0x8D) % 2 ≡ 0)
fcs_valid_iff_example = fcs_valid_iff 1 0x45 0xC0 (9 ∷ []) 0x8D

fcs_valid-damage_example :
    znp_frame_fcs_valid 2 0x45 0xC0 (9 ∷ 2 ∷ []) (znp_fcs 2 0x45 0xC0 (9 ∷ 1 ∷ [])) ≡ false
fcs_valid-damage_example = fcs_valid-damage 0x45 0xC0 1 2 (9 ∷ []) [] (λ e. omega arith)

abbrev state_code : ℕ
state_code = 9

abbrev capability : ℕ
capability = 2

observed_role_iff_example :
    let decided = (state_code ≡ 6) ⊎ (state_code ≡ 7) ⊎ (state_code ≡ 8) ⊎ (state_code ≡ 9) in
    ((znp_observed_role capability state_code ≡ coordinator)
      ↔ ((state_code ≡ 8) ⊎ (state_code ≡ 9) ⊎ ((¬ decided) × (capability % 8 ≡ 1))))
    × ((znp_observed_role capability state_code ≡ router)
        ↔ ((state_code ≡ 7) ⊎ ((¬ decided) × (capability % 8 ≡ 2))))
    × ((znp_observed_role capability state_code ≡ end_device)
        ↔ ((state_code ≡ 6) ⊎ ((¬ decided) × (capability % 8 ≡ 4))))
observed_role_iff_example = observed_role_iff capability state_code

decode-take_example :
    decode_znp_observation 0x45 0xC0 (some (9 ∷ [])) 1 (some new_observation)
    ≡ decode_znp_observation 0x45 0xC0 (some (9 ∷ 77 ∷ [])) 1 (some new_observation)
decode-take_example = decode-take 1 (9 ∷ 77 ∷ []) 0x45 0xC0 (some new_observation)

abbrev watching : Observed
watching = record {
  sniffer_enabled = true;
  owner = tcp_normal;
  tx_sniffer = new_sniffer;
  rx_sniffer = new_sniffer;
  pending_znp_observations = [];
  tx_power_sensor = true;
  published = [];
}

-- ZDO_STATE_CHANGE_IND with state 9.
abbrev state_change : List ℕ
state_change = 0xFE ∷ 1 ∷ 0x45 ∷ 0xC0 ∷ 9 ∷ 0x8D ∷ []

state_change_seen :
    length (sniff_all watching uart_direction_rx state_change).pending_znp_observations ≡ 1
unfolding sniff_all sniff_byte znp_frame_fcs_valid decode_znp_observation
    zigbee_serial_owner_allows_passive_znp_observation
state_change_seen = refl

sniff_all-bounded_example :
    length (sniff_all watching uart_direction_rx state_change).pending_znp_observations ≤ 8
sniff_all-bounded_example = sniff_all-bounded watching uart_direction_rx state_change (omega arith)

abbrev two_frames : List SentFrame
two_frames =
    record { noise = 7 ∷ []; cmd0 = 0x45; cmd1 = 0xC0; bytes = 9 ∷ [] }
    ∷ record { noise = []; cmd0 = 0x45; cmd1 = 0xC4; bytes = [] }
    ∷ []

watching-IsWatching : IsWatching watching
unfolding zigbee_serial_owner_allows_passive_znp_observation
watching-IsWatching = record {
  enabled = refl;
  allowed = refl;
  seeking = refl;
  size = refl;
  few = omega arith;
}

-- Of the two frames the first is an observation.
two_frames_observed : length (observations two_frames) ≡ 1
unfolding decode_znp_observation
two_frames_observed = refl

sniff_all-stream_example :
    let after = sniff_all watching uart_direction_rx (stream two_frames) in
    IsWatching after
    × (after.tx_sniffer ≡ new_sniffer)
    × (after.pending_znp_observations ≡ newest ([] ++ observations two_frames))
sniff_all-stream_example =
    sniff_all-stream watching two_frames watching-IsWatching
      ((((λ e. omega arith), tt), omega arith), ((tt, omega arith), tt))
