-- ===== src/Znp/Observation.antt =====
-- What the queue of observations holds after a stream of frames.
use mathlib.Core.List.{append_assoc}
use mathlib.Core.Option.{Option, some}
use zigbee_gateway.Common.{
  ℕ, ◌-◌, ◌≤◌, ◌≡◌, ◌≢◌, refl, sym, ap, ◌∙◌, arith, Bool, true, List, [], ◌∷◌, ◌++◌, length, take,
  length-drop, take-length, All, ==_refl,
}
use zigbee_gateway.Serial.Owner.{zigbee_serial_owner_allows_passive_znp_observation}
use zigbee_gateway.Znp.Frame.{znp_fcs, znp_frame_fcs_valid, znp_send}
use zigbee_gateway.Znp.Observer.{ZnpObservation, new_observation, decode_znp_observation}
use zigbee_gateway.Znp.Bounds.{decode-take}
use zigbee_gateway.Znp.Sniffer.{
  Observed, uart_direction_rx, ZnpSnifferState, reset_sniffer, queue_decoded, sniff_frame,
  sniff_byte, sniff_all, transmit_power,
}
use zigbee_gateway.Znp.Queue.{publish-pending}
use zigbee_gateway.Znp.Newest.{
  seen, newest, newest-newest, all-newest_nil, Kept, queue_decoded-Kept, publish-Kept,
  queue_decoded-newest,
}
use zigbee_gateway.Znp.Assembly.{receiving, frame-sniffed}

-- A frame that the radio sends, with bytes in front of it that are no start of a frame.
pub record SentFrame : Type 0 where
  pub noise : List ℕ
  pub cmd0 : ℕ
  pub cmd1 : ℕ
  pub bytes : List ℕ

abbrev pub IsSendable : SentFrame → Type 0
IsSendable f = All (λ b. b ≢ 0xFE) f.noise × (length f.bytes ≤ 255)

abbrev pub stream : List SentFrame → List ℕ
stream [] = []
stream (f ∷ fs) = f.noise ++ (znp_send f.cmd0 f.cmd1 f.bytes (length f.bytes) ++ stream fs)

-- What the decoder finds in the data of a frame.
abbrev pub decoded : SentFrame → Bool × Option ZnpObservation
decoded f =
    decode_znp_observation f.cmd0 f.cmd1 (some f.bytes) (length f.bytes) (some new_observation)

abbrev pub observations : List SentFrame → List ZnpObservation
observations [] = []
observations (f ∷ fs) = seen (decoded f) ++ observations fs

-- A frame that passes the check, and what the decoder makes of it.
sniff_frame-pending :
    (g : Observed) (t : ZnpSnifferState) (byte : ℕ) (r : Bool × Option ZnpObservation)
    → znp_frame_fcs_valid t.count t.cmd0 t.cmd1 t.payload byte ≡ true
    → decode_znp_observation t.cmd0 t.cmd1 (some t.payload) t.count (some new_observation) ≡ r
    → (sniff_frame g uart_direction_rx t byte).pending_znp_observations
      ≡ (queue_decoded g r).pending_znp_observations
unfolding sniff_frame
sniff_frame-pending g t byte r ok e =
    ground (arith, publish-pending (queue_decoded g r) (transmit_power t))

sniff_frame-Kept :
    (g : Observed) (t : ZnpSnifferState) (byte : ℕ)
    → Kept g (sniff_frame g uart_direction_rx t byte)
unfolding sniff_frame
sniff_frame-Kept g t byte =
    let r = decode_znp_observation t.cmd0 t.cmd1 (some t.payload) t.count (some new_observation) in
    ground (
      arith,
      queue_decoded-Kept g r,
      publish-Kept (queue_decoded g r) (transmit_power t),
      publish-Kept g (transmit_power t),
    )

-- The sniffer's check and decoder, on its array, against the frame that was sent.
held-valid :
    (count cmd0 cmd1 : ℕ) (array : List ℕ) (f : SentFrame)
    → count ≡ length f.bytes
    → cmd0 ≡ f.cmd0
    → cmd1 ≡ f.cmd1
    → take (length f.bytes) array ≡ f.bytes
    → znp_frame_fcs_valid count cmd0 cmd1 array (znp_fcs (length f.bytes) f.cmd0 f.cmd1 f.bytes)
      ≡ true
unfolding znp_frame_fcs_valid znp_fcs
held-valid count cmd0 cmd1 array f n a b held = rw (n, a, b, held, take-length f.bytes) (==_refl _)

held-decoded :
    (count cmd0 cmd1 : ℕ) (array : List ℕ) (f : SentFrame)
    → count ≡ length f.bytes
    → cmd0 ≡ f.cmd0
    → cmd1 ≡ f.cmd1
    → take (length f.bytes) array ≡ f.bytes
    → decode_znp_observation cmd0 cmd1 (some array) count (some new_observation) ≡ decoded f
held-decoded count cmd0 cmd1 array f n a b held =
    rw (n, a, b)
      (sym (decode-take (length f.bytes) array f.cmd0 f.cmd1 (some new_observation))
        ∙ ap
            (λ (p : List ℕ).
              decode_znp_observation f.cmd0 f.cmd1 (some p) (length f.bytes) (some new_observation))
            held)

-- A gateway that observes, between two frames.
pub record IsWatching (g : Observed) : Type 0 where
  pub enabled : g.sniffer_enabled ≡ true
  pub allowed : zigbee_serial_owner_allows_passive_znp_observation g.owner ≡ true
  pub seeking : g.rx_sniffer.state ≡ 0
  pub size : length g.rx_sniffer.payload ≡ 256
  pub few : length g.pending_znp_observations ≤ 8

newest-length : (xs : List ZnpObservation) → length (newest xs) ≤ 8
newest-length xs = omega (arith, length-drop (length xs - 8) xs)

-- The bytes of a frame, with what comes behind it.
send-laid :
    (f : SentFrame) (more : List ℕ)
    → f.noise ++ (znp_send f.cmd0 f.cmd1 f.bytes (length f.bytes) ++ more)
      ≡ f.noise
        ++ 0xFE
          ∷ length f.bytes
          ∷ f.cmd0
          ∷ f.cmd1
          ∷ (f.bytes ++ znp_fcs (length f.bytes) f.cmd0 f.cmd1 f.bytes ∷ more)
unfolding znp_send
send-laid f more =
    ap (λ (xs : List ℕ). f.noise ++ 0xFE ∷ length f.bytes ∷ f.cmd0 ∷ f.cmd1 ∷ xs)
      (ap (λ (xs : List ℕ). (xs ++ znp_fcs (length f.bytes) f.cmd0 f.cmd1 f.bytes ∷ []) ++ more)
          (take-length f.bytes)
        ∙ append_assoc f.bytes (znp_fcs (length f.bytes) f.cmd0 f.cmd1 f.bytes ∷ []) more)

-- The check byte ends a frame, and the sniffer starts over.
check-sniffed :
    (g : Observed) (t : ZnpSnifferState) (check : ℕ) (more : List ℕ)
    → g.sniffer_enabled ≡ true
    → t.state ≡ 5
    → sniff_all (receiving g t) uart_direction_rx (check ∷ more)
      ≡ sniff_all
          (receiving (sniff_frame (receiving g t) uart_direction_rx t check) (reset_sniffer t))
          uart_direction_rx
          more
unfolding sniff_all
check-sniffed g t check more on at_check =
    let step : sniff_byte (receiving g t) uart_direction_rx check
        ≡ receiving (sniff_frame (receiving g t) uart_direction_rx t check) (reset_sniffer t) =
      unfold sniff_byte in ground arith in
    ap (λ (h : Observed). sniff_all h uart_direction_rx more) step

-- One frame of a stream.
frame-observed :
    (g : Observed) (f : SentFrame)
    → IsWatching g
    → IsSendable f
    → (h : Observed) × IsWatching h
      × (h.tx_sniffer ≡ g.tx_sniffer)
      × (h.pending_znp_observations ≡ newest (g.pending_znp_observations ++ seen (decoded f)))
      × ((more : List ℕ)
          → sniff_all g uart_direction_rx
              (f.noise ++ (znp_send f.cmd0 f.cmd1 f.bytes (length f.bytes) ++ more))
            ≡ sniff_all h uart_direction_rx more)
frame-observed g f w sendable =
    let (t, whole, e) =
      frame-sniffed g w.enabled g.rx_sniffer f.cmd0 f.cmd1 f.noise f.bytes w.seeking w.size
        sendable.0 sendable.1 in
    let check = znp_fcs (length f.bytes) f.cmd0 f.cmd1 f.bytes in
    let g' = receiving g t in
    let h = receiving (sniff_frame g' uart_direction_rx t check) (reset_sniffer t) in
    let kept = sniff_frame-Kept g' t check in
    let pending : h.pending_znp_observations
        ≡ newest (g.pending_znp_observations ++ seen (decoded f)) =
      sniff_frame-pending g' t check (decoded f)
        (held-valid t.count t.cmd0 t.cmd1 t.payload f whole.counted whole.first whole.second
          whole.held)
        (held-decoded t.count t.cmd0 t.cmd1 t.payload f whole.counted whole.first whole.second
          whole.held)
      ∙ queue_decoded-newest g' (decoded f) w.allowed w.few in
    (
      h,
      record {
        enabled = kept.0 ∙ w.enabled;
        allowed = ap zigbee_serial_owner_allows_passive_znp_observation kept.1 ∙ w.allowed;
        seeking = unfold reset_sniffer in refl;
        size = unfold reset_sniffer in whole.size;
        few = omega (
          arith,
          ap (λ (q : List ZnpObservation). length q) pending,
          newest-length (g.pending_znp_observations ++ seen (decoded f)),
        );
      },
      kept.2,
      pending,
      (λ more.
          ap (sniff_all g uart_direction_rx) (send-laid f more)
          ∙ e (check ∷ more)
          ∙ check-sniffed g t check more w.enabled whole.at_check),
    )

-- From a gateway that observes and is between two frames, any stream of frames from the radio, each of
-- at most 255 data bytes and with bytes in front that are no start of a frame, leaves it so. The
-- queue then holds the newest 8 of the observations that it held and those that the decoder finds in
-- the data of the frames, in their order. The sniffer of the other direction is as it was.
pub sniff_all-stream :
    (g : Observed) (fs : List SentFrame)
    → IsWatching g
    → All IsSendable fs
    → let h = sniff_all g uart_direction_rx (stream fs) in
      IsWatching h
      × (h.tx_sniffer ≡ g.tx_sniffer)
      × (h.pending_znp_observations ≡ newest (g.pending_znp_observations ++ observations fs))
unfolding sniff_all
sniff_all-stream g [] w sendable = (w, refl, all-newest_nil g.pending_znp_observations w.few)
sniff_all-stream g (f ∷ fs) w sendable =
    let (h, w', tx, pending, e) = frame-observed g f w sendable.0 in
    let (done, tx', all) = sniff_all-stream h fs w' sendable.1 in
    rw (e (stream fs)) (
      done,
      tx' ∙ tx,
      all
          ∙ ap (λ (q : List ZnpObservation). newest (q ++ observations fs)) pending
          ∙ newest-newest (g.pending_znp_observations ++ seen (decoded f)) (observations fs)
          ∙ ap newest
              (append_assoc g.pending_znp_observations (seen (decoded f)) (observations fs)),
    )
