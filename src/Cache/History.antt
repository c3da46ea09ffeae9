-- ===== src/Cache/History.antt =====
-- The record of the network through any sequence of the events that change it.
use mathlib.Core.Option.{Option, none, some}
use zigbee_gateway.Common.{
  ℕ, suc, ◌+◌, ◌≡◌, refl, ap, ◌∙◌, arith, bit_and, Bool, true, false, List, [], ◌∷◌, ◌==◌,
  if◌then◌else◌, u32, IsWord,
}
use zigbee_gateway.Cache.Records.{NetworkSnapshotCache, initialize_network_snapshot_cache}
use zigbee_gateway.Cache.Text.{zigbee_cache_text_is_terminated}
use zigbee_gateway.Cache.Operations.{
  mark_network_connection_unknown, clear_network_snapshot_for_recommissioning,
  record_local_radio_erase, valid_network_snapshot_cache,
}
use zigbee_gateway.Cache.Validity.{network_of, mark_unknown-valid}

-- The loss of the connection, a recommissioning, and an erase of the radio.
pub data NetworkEvent : Type 0 where
  connection_lost recommissioned erased : NetworkEvent

unfoldable pub after_event : NetworkSnapshotCache → NetworkEvent → NetworkSnapshotCache
after_event c connection_lost = network_of (mark_network_connection_unknown (some c)) c
after_event c recommissioned = network_of (clear_network_snapshot_for_recommissioning (some c)) c
after_event c erased = network_of (record_local_radio_erase (some c)) c

unfoldable pub after_events : NetworkSnapshotCache → List NetworkEvent → NetworkSnapshotCache
after_events c [] = c
after_events c (e ∷ es) = after_events (after_event c e) es

-- How many of the events start a record anew.
abbrev pub restarts : List NetworkEvent → ℕ
restarts [] = 0
restarts (connection_lost ∷ es) = restarts es
restarts (recommissioned ∷ es) = suc (restarts es)
restarts (erased ∷ es) = suc (restarts es)

-- What an event says of the connection: bit 2 of `known`, which is kept where there is no event.
abbrev pub connection_by : ℕ → Option NetworkEvent → ℕ
connection_by known none = known
connection_by known (some connection_lost) = 0
connection_by known (some recommissioned) = 0
connection_by known (some erased) = 4

-- Whether nothing happened.
abbrev pub no_event : List NetworkEvent → Bool
no_event [] = true
no_event (e ∷ es) = false

-- The later one of two events, of which the second may be missing.
abbrev pub later : NetworkEvent → Option NetworkEvent → Option NetworkEvent
later e none = some e
later e (some l) = some l

abbrev pub last_event : List NetworkEvent → Option NetworkEvent
last_event [] = none
last_event (e ∷ es) = later e (last_event es)

connection_by-later :
    (known : ℕ) (e : NetworkEvent) (l : Option NetworkEvent)
    → connection_by (connection_by known (some e)) l ≡ connection_by known (later e l)
connection_by-later known e none = refl
connection_by-later known e (some connection_lost) = refl
connection_by-later known e (some recommissioned) = refl
connection_by-later known e (some erased) = refl

recommissioned-valid :
    (c : NetworkSnapshotCache)
    → let d = after_event c recommissioned in
      (valid_network_snapshot_cache d ≡ true)
      × (d.generation ≡ u32 (c.generation + 1))
      × (bit_and d.known 4 ≡ 0)
      × (bit_and d.known 27 ≡ 0)
      × (d.on_network ≡ 0)
unfolding after_event clear_network_snapshot_for_recommissioning valid_network_snapshot_cache
    initialize_network_snapshot_cache zigbee_cache_text_is_terminated
recommissioned-valid c = (refl, refl, refl, refl, refl)

erased-valid :
    (c : NetworkSnapshotCache)
    → let d = after_event c erased in
      (valid_network_snapshot_cache d ≡ true)
      × (d.generation ≡ u32 (c.generation + 1))
      × (bit_and d.known 4 ≡ 4)
      × (bit_and d.known 27 ≡ 0)
      × (d.on_network ≡ 0)
unfolding after_event record_local_radio_erase valid_network_snapshot_cache
    initialize_network_snapshot_cache zigbee_cache_text_is_terminated
erased-valid c = (refl, refl, refl, refl, refl)

lost-valid :
    (c : NetworkSnapshotCache)
    → valid_network_snapshot_cache c ≡ true
    → let d = after_event c connection_lost in
      (valid_network_snapshot_cache d ≡ true)
      × (d.generation ≡ c.generation)
      × (bit_and d.known 4 ≡ 0)
      × (bit_and d.known 27 ≡ bit_and c.known 27)
      × (d.on_network ≡ 0)
unfolding after_event mark_network_connection_unknown
lost-valid c h =
    let (valid, lost, kept, same) = mark_unknown-valid c h in (valid, refl, lost, kept, refl)

-- What a record tells after some events, against the record before them.
pub record IsAfter (c : NetworkSnapshotCache) (es : List NetworkEvent) (d : NetworkSnapshotCache)
    : Type 0 where
  pub valid : valid_network_snapshot_cache d ≡ true
  pub counted : d.generation ≡ u32 (c.generation + restarts es)
  pub connection : bit_and d.known 4 ≡ connection_by (bit_and c.known 4) (last_event es)
  pub facts : bit_and d.known 27 ≡ (if restarts es == 0 then bit_and c.known 27 else 0)
  pub off_network : d.on_network ≡ (if no_event es then c.on_network else 0)

after_event-IsAfter :
    (c : NetworkSnapshotCache) (e : NetworkEvent)
    → valid_network_snapshot_cache c ≡ true
    → IsWord c.generation
    → IsAfter c (e ∷ []) (after_event c e)
after_event-IsAfter c connection_lost h w =
    let (valid, same, lost, kept, off) = lost-valid c h in
    record {
      valid = valid;
      counted = omega (arith, same);
      connection = lost;
      facts = kept;
      off_network = off;
    }
after_event-IsAfter c recommissioned h w =
    let (valid, next, lost, none_left, off) = recommissioned-valid c in
    record {
      valid = valid;
      counted = next;
      connection = lost;
      facts = none_left;
      off_network = off;
    }
after_event-IsAfter c erased h w =
    let (valid, next, known, none_left, off) = erased-valid c in
    record {
      valid = valid;
      counted = next;
      connection = known;
      facts = none_left;
      off_network = off;
    }

restarts-step :
    (e : NetworkEvent) (es : List NetworkEvent)
    → restarts (e ∷ es) ≡ restarts (e ∷ []) + restarts es
restarts-step connection_lost es = omega arith
restarts-step recommissioned es = omega arith
restarts-step erased es = omega arith

IsAfter-trans :
    (c : NetworkSnapshotCache) (e : NetworkEvent) (es : List NetworkEvent)
    (d f : NetworkSnapshotCache)
    → IsAfter c (e ∷ []) d
    → IsAfter d es f
    → IsAfter c (e ∷ es) f
IsAfter-trans c e es d f first then_rest = record {
  valid = then_rest.valid;
  counted = omega (arith, first.counted, then_rest.counted, restarts-step e es);
  connection =
      then_rest.connection
      ∙ ap (λ (k : ℕ). connection_by k (last_event es)) first.connection
      ∙ connection_by-later (bit_and c.known 4) e (last_event es);
  facts = ground (arith, first.facts, then_rest.facts, restarts-step e es);
  off_network = off es then_rest.off_network;
}
  where
    off :
        (rest : List NetworkEvent)
        → f.on_network ≡ (if no_event rest then d.on_network else 0)
        → f.on_network ≡ 0
    off [] h = h ∙ first.off_network
    off (x ∷ xs) h = h

-- From a valid record of the network, any sequence of losses of the connection, recommissionings and
-- erases of the radio leaves a valid record. Its generation has gone up by the number of
-- recommissionings and erases, modulo 2 ^ 32. The connection is known as the last event has it: after
-- an erase, and not after the others. The four other facts are known as before until there was a
-- recommissioning or an erase, and none of them after that; and after any event `on_network` is 0.
pub after_events-IsAfter :
    (c : NetworkSnapshotCache) (es : List NetworkEvent)
    → valid_network_snapshot_cache c ≡ true
    → IsWord c.generation
    → IsAfter c es (after_events c es)
unfolding after_events
after_events-IsAfter c [] h w = record {
  valid = h;
  counted = omega arith;
  connection = refl;
  facts = refl;
  off_network = refl;
}
after_events-IsAfter c (e ∷ es) h w =
    let first = after_event-IsAfter c e h w in
    IsAfter-trans c e es (after_event c e) (after_events (after_event c e) es) first
      (after_events-IsAfter (after_event c e) es first.valid (omega (arith, first.counted)))
