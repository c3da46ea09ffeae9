-- ===== src/Cache/Tests.antt =====
-- The cached records at concrete texts.
use mathlib.Core.Option.{some}
use zigbee_gateway.Common.{
  ℕ, refl, ◌<◌, ◌≡◌, ◌≢◌, ◌↔◌, ◌&&◌, arith, bit_and, true, List, [], ◌∷◌, length, IsWord,
  if◌then◌else◌,
}
use zigbee_gateway.Cache.Records.{
  NetworkSnapshotCache, network_snapshot_all_known, initialize_physical_identity_cache,
  initialize_running_image_cache, initialize_network_snapshot_cache,
}
use zigbee_gateway.Cache.Text.{
  zigbee_cache_text_is_terminated, copy_zigbee_cache_text, c_string, copy_text_lem,
}
use zigbee_gateway.Cache.Operations.{
  install, mark_network_connection_unknown, valid_physical_identity_cache,
  valid_running_image_cache, valid_network_snapshot_cache,
}
use zigbee_gateway.Cache.Validity.{
  network_of, fits, initialize-valid, mark_unknown-valid, install-valid,
}
use zigbee_gateway.Cache.History.{
  NetworkEvent, connection_lost, recommissioned, erased, after_events, IsAfter,
  after_events-IsAfter,
}

-- "7.1.1" and "Router".
abbrev firmware_text : List ℕ
firmware_text = 55 ∷ 46 ∷ 49 ∷ 46 ∷ 49 ∷ []

abbrev role_text : List ℕ
role_text = 82 ∷ 111 ∷ 117 ∷ 116 ∷ 101 ∷ 114 ∷ []

copy_text_lem_example :
    let (array, copied) = copy_zigbee_cache_text 16 (some firmware_text) in
    (length array ≡ 16)
    × (zigbee_cache_text_is_terminated array ≡ true)
    × ((copied ≡ true) ↔ ((length firmware_text ≢ 0) × (length firmware_text < 16)))
    × (c_string array ≡ (if copied then firmware_text else []))
copy_text_lem_example = copy_text_lem 16 firmware_text (λ e. omega arith) (ground arith)

initialize-valid_example :
    (valid_physical_identity_cache (initialize_physical_identity_cache 5) ≡ true)
    × (valid_running_image_cache (initialize_running_image_cache 5) ≡ true)
    × (valid_network_snapshot_cache (initialize_network_snapshot_cache 5) ≡ true)
initialize-valid_example = initialize-valid 5

mark_unknown-valid_example :
    let c = initialize_network_snapshot_cache 5 in
    let d = network_of (mark_network_connection_unknown (some c)) c in
    (valid_network_snapshot_cache d ≡ true)
    × (bit_and d.known 4 ≡ 0)
    × (bit_and d.known 27 ≡ bit_and c.known 27)
    × (d ≡ record c { known = d.known; on_network = 0 })
mark_unknown-valid_example =
    mark_unknown-valid (initialize_network_snapshot_cache 5) (initialize-valid 5).2

-- The radio is erased, commissioned again, and then loses its network.
abbrev happened : List NetworkEvent
happened = erased ∷ recommissioned ∷ connection_lost ∷ []

abbrev known_network : NetworkSnapshotCache
known_network = record (initialize_network_snapshot_cache 5) {
  known = network_snapshot_all_known;
  on_network = 1;
}

known_network-valid : valid_network_snapshot_cache known_network ≡ true
unfolding valid_network_snapshot_cache initialize_network_snapshot_cache
    zigbee_cache_text_is_terminated
known_network-valid = refl

known_network-IsWord : IsWord known_network.generation
unfolding initialize_network_snapshot_cache
known_network-IsWord = omega arith

after_events-IsAfter_example : IsAfter known_network happened (after_events known_network happened)
after_events-IsAfter_example =
    after_events-IsAfter known_network happened known_network-valid known_network-IsWord

install-valid_example :
    let c = initialize_running_image_cache 5 in
    let (d, done) = install c (some firmware_text) (some role_text) in
    (valid_running_image_cache d ≡ true)
    × (done ≡ (fits firmware_text && fits role_text))
    × (d.awaiting_observation ≡ 1)
    × (d.known ≡ (if done then 9 else 0))
    × (c_string d.firmware ≡ (if done then firmware_text else []))
    × (c_string d.role ≡ (if done then role_text else []))
install-valid_example =
    install-valid (initialize_running_image_cache 5) firmware_text role_text (ground arith)
      (ground arith) (initialize-valid 5).1
