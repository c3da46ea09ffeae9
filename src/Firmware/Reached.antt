-- ===== src/Firmware/Reached.antt =====
-- The public methods of the manager, and then any calls, turns and task steps in any order.
use mathlib.Core.Option.{Option, none, some}
use zigbee_gateway.Common.{
  ℕ, ◌≡◌, refl, arith, Bool, true, false, not, List, [], ◌∷◌, ◌==◌, if-rule, replicate,
}
use zigbee_gateway.Firmware.Types.{
  FlashState, checking_freshness, preparing_download, checking_download, entering_bsl, complete,
  failed, FirmwareEntry, staging_header_size,
}
use zigbee_gateway.Firmware.Parts.{EspPartition, IsFlash, Sha256, IsSha}
use zigbee_gateway.Firmware.Manager.{
  Answers, ZigbeeFirmwareManager, complete_update, publish_flash_progress, begin_flash_stage,
  publish_status, is_active_state, flash_active, staged_image_matches,
}
use zigbee_gateway.Firmware.Staging.{invalidate_staged, invalidate_at}
use zigbee_gateway.Firmware.Update.{
  start_firmware_update, start_at, start_if_selected, start_selected, start_staged,
  start_firmware_probe, or_use_staged, or_show_failure, invalidate_staged_firmware,
  firmware_probe_task,
}
use zigbee_gateway.Firmware.Verified.{
  Quiet, Busy, NoDownload, NoRadio, Verified, Holds, fail-Holds, start_download-Holds,
}
use zigbee_gateway.Firmware.Handling.{is_flashing, of_flashing, to_flashing, use_staged-Good}
use zigbee_gateway.Firmware.Loading.{Loading, begins-Loading, event-Loading, ends-Loading}
use zigbee_gateway.Firmware.Safety.{
  At, of_state, of_Loading, to_loading, radio_state, probe_state, inactive-Quiet,
}
use zigbee_gateway.Firmware.History.{loop-Kept}
use zigbee_gateway.Firmware.Run.{
  Command, updates, invalidates, turns, probe_over, download_starts, download_receives,
  download_over, radio_reports, radio_over, gateway_completes, step, run, radio_reported,
  radio_ended,
}

module _ {C P : Type 0} (bytes : P → List ℕ) (given : C → List ℕ) (hash : List ℕ → List ℕ)
    (radio_size : ℕ) (flash : EspPartition P) (law : IsFlash flash bytes) (sha : Sha256 C)
    (sha_law : IsSha sha given hash) where
  abbrev Fine : ZigbeeFirmwareManager C P → Type 0
  Fine m = Holds bytes given hash radio_size m

  or_staged-Fine :
      (a : Answers) (m : ZigbeeFirmwareManager C P)
      → Quiet m
      → Fine (or_use_staged sha (start_firmware_probe a m))
  unfolding start_firmware_probe begin_flash_stage
  or_staged-Fine a m q =
      if-rule (λ (r : ZigbeeFirmwareManager C P × Bool). Fine (or_use_staged sha r)) (not a.created)
        (λ _.
          use_staged-Good bytes given hash radio_size sha sha_law _ (record {
            no_probe = (refl, refl);
            no_download = q.no_download;
            no_radio = q.no_radio;
          }))
        (λ _. (q.no_download, q.no_radio, refl))

  staged-Fine :
      (a : Answers) (m : ZigbeeFirmwareManager C P)
      → Quiet m
      → Fine (start_staged flash radio_size sha a m)
  unfolding start_staged
  staged-Fine a m q =
      let m' = record m {
        flash_image_size = m.staged_header.image_size;
        flash_image_digest = m.staged_header.digest;
      } in
      let quiet : Quiet m' = record {
        no_probe = q.no_probe;
        no_download = q.no_download;
        no_radio = q.no_radio;
      } in
      if-rule Fine (not a.connected)
        (λ _. use_staged-Good bytes given hash radio_size sha sha_law m' quiet)
        (λ _. or_staged-Fine a m' quiet)

  selected-Fine :
      (a : Answers) (entry : FirmwareEntry) (m : ZigbeeFirmwareManager C P)
      → Quiet m
      → Fine (start_selected flash radio_size sha a entry m)
  unfolding start_selected publish_flash_progress
  selected-Fine a entry m q =
      let m' = publish_flash_progress 0 (record m {
        flash_entry = entry;
        flash_image_size = 0;
        flash_image_digest = replicate 32 0;
        last_flash_progress = 255;
        next_flash_progress_log = 10;
      }) in
      let quiet : Quiet m' = record {
        no_probe = q.no_probe;
        no_download = q.no_download;
        no_radio = q.no_radio;
      } in
      if-rule Fine (staged_image_matches entry m') (λ _. staged-Fine a m' quiet)
        (λ _.
          if-rule Fine (not a.connected) (λ _. fail-Holds bytes given hash radio_size _ m' quiet)
            (λ _. start_download-Holds bytes given hash radio_size flash a _ m' quiet))

  if_selected-Fine :
      (a : Answers) (selected : Option FirmwareEntry) (m : ZigbeeFirmwareManager C P)
      → Quiet m
      → Fine (start_if_selected flash radio_size sha a selected m)
  if_selected-Fine a none m q = fail-Holds bytes given hash radio_size _ m q
  if_selected-Fine a (some entry) m q = selected-Fine a entry m q

  start_at-Fine :
      (a : Answers) (o : Option P) (busy : Bool) (selected : Option FirmwareEntry)
      (m : ZigbeeFirmwareManager C P)
      → Quiet m
      → Fine (start_at flash radio_size sha a o busy selected m)
  start_at-Fine a none busy selected m q = fail-Holds bytes given hash radio_size _ m q
  start_at-Fine a (some p) busy selected m q =
      if-rule Fine busy (λ _. fail-Holds bytes given hash radio_size _ m q)
        (λ _. if_selected-Fine a selected m q)

  inactive-At :
      (st : FlashState) (m : ZigbeeFirmwareManager C P)
      → is_active_state st ≡ false
      → Quiet m
      → At bytes given hash radio_size st m
  unfolding is_active_state
  inactive-At FlashState.idle m e h = h
  inactive-At complete m e h = h
  inactive-At failed m e h = h
  inactive-At checking_freshness m e h = cc
  inactive-At preparing_download m e h = cc
  inactive-At FlashState.downloading m e h = cc
  inactive-At checking_download m e h = cc
  inactive-At entering_bsl m e h = cc
  inactive-At FlashState.erasing m e h = cc
  inactive-At FlashState.writing m e h = cc
  inactive-At FlashState.verifying m e h = cc
  inactive-At FlashState.restarting m e h = cc

  shown-Fine :
      (o : Option P) (m : ZigbeeFirmwareManager C P)
      → is_active_state m.flash_state ≡ false
      → Quiet m
      → Fine (or_show_failure (invalidate_at flash true o m))
  unfolding invalidate_staged publish_status
  shown-Fine none m e q =
      inactive-At m.flash_state _ e
        (record { no_probe = q.no_probe; no_download = q.no_download; no_radio = q.no_radio })
  shown-Fine (some p) m e q =
      if-rule (λ (r : ZigbeeFirmwareManager C P × Bool). Fine (or_show_failure r))
        (not ((flash.erase_range p 0 staging_header_size).0 == 0))
        (λ _.
          inactive-At m.flash_state _ e
            (record { no_probe = q.no_probe; no_download = q.no_download; no_radio = q.no_radio }))
        (λ _.
          inactive-At m.flash_state _ e
            (record { no_probe = q.no_probe; no_download = q.no_download; no_radio = q.no_radio }))

  Loading-Fine : {m : ZigbeeFirmwareManager C P} → Loading m → Fine m
  Loading-Fine {m} l = of_Loading bytes given hash radio_size m.flash_state m l.state l

  settled : (m : ZigbeeFirmwareManager C P) → Busy m → Busy (complete_update m)
  unfolding complete_update
  settled m h = record { held = ground (arith, h.held); apart = h.apart }

  complete-At :
      (st : FlashState) (m : ZigbeeFirmwareManager C P)
      → At bytes given hash radio_size st m
      → At bytes given hash radio_size st (complete_update m)
  unfolding complete_update
  complete-At FlashState.idle m h = record {
    no_probe = h.no_probe;
    no_download = h.no_download;
    no_radio = h.no_radio;
  }
  complete-At complete m h = record {
    no_probe = h.no_probe;
    no_download = h.no_download;
    no_radio = h.no_radio;
  }
  complete-At failed m h = record {
    no_probe = h.no_probe;
    no_download = h.no_download;
    no_radio = h.no_radio;
  }
  complete-At checking_freshness m h = h
  complete-At preparing_download m h = h
  complete-At FlashState.downloading m h = h
  complete-At checking_download m h = (
    record { no_probe = h.0.no_probe; no_download = h.0.no_download; no_radio = h.0.no_radio },
    record { within = h.1.within; read = h.1.read; hashed = h.1.hashed; summed = h.1.summed },
  )
  complete-At entering_bsl m h = (h.0, h.1, settled m h.2, h.3)
  complete-At FlashState.erasing m h = (h.0, h.1, settled m h.2, h.3)
  complete-At FlashState.writing m h = (h.0, h.1, settled m h.2, h.3)
  complete-At FlashState.verifying m h = (h.0, h.1, settled m h.2, h.3)
  complete-At FlashState.restarting m h = (h.0, h.1, settled m h.2, h.3)

  complete-Fine : (m : ZigbeeFirmwareManager C P) → Fine m → Fine (complete_update m)
  unfolding complete_update
  complete-Fine m h = complete-At m.flash_state m h

  probe-Fine :
      (reply : Option (ℕ × ℕ)) (etag : List ℕ) (m : ZigbeeFirmwareManager C P)
      → m.flash_state ≡ checking_freshness
      → NoDownload m
      → NoRadio m
      → Fine (firmware_probe_task reply etag m)
  unfolding firmware_probe_task
  probe-Fine none etag m e d r = of_state bytes given hash radio_size _ e (d, r, refl)
  probe-Fine (some (error, status)) etag m e d r =
      of_state bytes given hash radio_size _ e (d, r, refl)

  step-Fine :
      (c : Command) (m : ZigbeeFirmwareManager C P) → Fine m → Fine (step flash radio_size sha c m)
  unfolding step start_firmware_update invalidate_staged_firmware flash_active invalidate_staged
      radio_reported radio_ended
  step-Fine (updates busy selected a) m h =
      if-rule Fine (is_active_state m.flash_state) (λ _. h)
        (λ off.
          start_at-Fine a m.partition busy selected m
            (inactive-Quiet bytes given hash radio_size m.flash_state m off h))
  step-Fine invalidates m h =
      if-rule Fine (is_active_state m.flash_state) (λ _. h)
        (λ off.
          shown-Fine m.partition m off
            (inactive-Quiet bytes given hash radio_size m.flash_state m off h))
  step-Fine (turns text a) m h =
      loop-Kept bytes given hash radio_size flash law sha sha_law a text m h
  step-Fine (probe_over reply etag) m h =
      if-rule Fine m.probe_running
        (λ on.
          let (e, d, r, apart) =
            probe_state bytes given hash radio_size m.flash_state m (ground arith) h in
          probe-Fine reply etag m e d r)
        (λ _. h)
  step-Fine download_starts m h =
      if-rule Fine m.download_running
        (λ on.
          let l = to_loading bytes given hash radio_size m.flash_state m refl (ground arith) h in
          Loading-Fine (begins-Loading flash sha m l))
        (λ _. h)
  step-Fine (download_receives event) m h =
      if-rule Fine m.download_running
        (λ on.
          let l = to_loading bytes given hash radio_size m.flash_state m refl (ground arith) h in
          Loading-Fine (event-Loading flash sha event m l))
        (λ _. h)
  step-Fine (download_over end) m h =
      if-rule Fine m.download_running
        (λ on.
          let l = to_loading bytes given hash radio_size m.flash_state m refl (ground arith) h in
          Loading-Fine (ends-Loading flash sha end m l))
        (λ _. h)
  step-Fine (radio_reports st progress) m h =
      if-rule Fine m.radio_flash_running
        (λ on.
          let e = radio_state bytes given hash radio_size m.flash_state m (ground arith) h in
          let w = to_flashing bytes given hash radio_size m.flash_state m e h in
          of_flashing bytes given hash radio_size m.flash_state _ e
            (w.0, w.1, record { held = w.2.held; apart = w.2.apart }, w.3))
        (λ _. h)
  step-Fine (radio_over result) m h =
      if-rule Fine m.radio_flash_running
        (λ on.
          let e = radio_state bytes given hash radio_size m.flash_state m (ground arith) h in
          let w = to_flashing bytes given hash radio_size m.flash_state m e h in
          of_flashing bytes given hash radio_size m.flash_state _ e
            (w.0, w.1, record { held = ground (arith, w.2.held); apart = refl }, w.3))
        (λ _. h)
  step-Fine gateway_completes m h = complete-Fine m h

  run-Fine :
      (cs : List Command) (m : ZigbeeFirmwareManager C P)
      → Fine m
      → Fine (run flash radio_size sha cs m)
  unfolding run
  run-Fine [] m h = h
  run-Fine (c ∷ cs) m h = run-Fine cs (step flash radio_size sha c m) (step-Fine c m h)

  -- From a manager without an update under way, whatever calls are made of the public methods, turns
  -- of the main loop are taken, steps the tasks take and answers the world gives, in any number and
  -- order: in each state in which the radio may be written, what the staging partition holds has the
  -- expected length and digest, the CRC that the bootloader is told, the flash size of the radio, and
  -- a boot configuration that passes the validation. The flash size, where the gateway knows it, is
  -- always the same.
  pub run-Verified :
      (cs : List Command) (m : ZigbeeFirmwareManager C P)
      → is_active_state m.flash_state ≡ false
      → Quiet m
      → is_flashing (run flash radio_size sha cs m).flash_state ≡ true
      → Verified bytes given hash radio_size (run flash radio_size sha cs m)
  run-Verified cs m off q on =
      let h = run-Fine cs m (inactive-At m.flash_state m off q) in
      (to_flashing bytes given hash radio_size (run flash radio_size sha cs m).flash_state _ on h).3
