-- ===== src/Firmware/History.antt =====
-- Any calls of the public methods, turns of the main loop and steps of the tasks, in any order, keep
-- what holds of the manager.
use zigbee_gateway.Common.{ℕ, ◌≡◌, refl, ap, arith, false, not, ◌&&◌, List, ◌==◌, if-rule}
use zigbee_gateway.Firmware.Types.{
  FlashState, checking_freshness, preparing_download, checking_download, entering_bsl, complete,
  failed, DownloadPhase, erasing_staging,
}
use zigbee_gateway.Firmware.Parts.{EspPartition, IsFlash, Sha256, IsSha}
use zigbee_gateway.Firmware.Manager.{
  Answers, ZigbeeFirmwareManager, publish_flash_progress, begin_flash_stage,
}
use zigbee_gateway.Firmware.Update.{
  loop, advance, progress_of, received_progress, update_download_progress,
  handle_firmware_probe_result,
}
use zigbee_gateway.Firmware.Verified.{Quiet, Holds, start_download-Holds}
use zigbee_gateway.Firmware.Advance.{check-Good}
use zigbee_gateway.Firmware.Handling.{
  is_flashing, to_flashing, radio_status-Good, use_staged-Good, download_result-Good,
  start_task-Good, finish-Good, radio_result-Good,
}
use zigbee_gateway.Firmware.Loading.{Loading, is_loading}
use zigbee_gateway.Firmware.Safety.{At, of_state, of_Loading, to_loading, radio_state, probe_state}

module _ {C P : Type 0} (bytes : P → List ℕ) (given : C → List ℕ) (hash : List ℕ → List ℕ)
    (radio_size : ℕ) (flash : EspPartition P) (law : IsFlash flash bytes) (sha : Sha256 C)
    (sha_law : IsSha sha given hash) where
  abbrev pub Kept : ZigbeeFirmwareManager C P → Type 0
  Kept m = Holds bytes given hash radio_size m

  received-Kept : (m : ZigbeeFirmwareManager C P) → Loading m → Kept (received_progress m)
  unfolding publish_flash_progress
  received-Kept m h =
      let r = of_Loading bytes given hash radio_size m.flash_state in
      if-rule Kept (m.download_total == 0) (λ _. r m h.state h)
        (λ _. r _ h.state (record {
          state = h.state;
          no_probe = h.no_probe;
          no_radio = h.no_radio;
          apart = h.apart;
        }))

  progress-Kept :
      (phase : DownloadPhase) (st : FlashState) (size : ℕ) (m : ZigbeeFirmwareManager C P)
      → Loading m
      → Kept (progress_of phase st size m)
  unfolding publish_flash_progress begin_flash_stage
  progress-Kept erasing_staging st size m h =
      of_Loading bytes given hash radio_size m.flash_state _ h.state
        (record { state = h.state; no_probe = h.no_probe; no_radio = h.no_radio; apart = h.apart })
  progress-Kept DownloadPhase.idle st size m h = received-Kept m h
  progress-Kept DownloadPhase.downloading preparing_download size m h =
      received-Kept (begin_flash_stage FlashState.downloading "Downloading firmware" m)
        (record { state = refl; no_probe = h.no_probe; no_radio = h.no_radio; apart = h.apart })
  progress-Kept DownloadPhase.downloading FlashState.idle size m h = received-Kept m h
  progress-Kept DownloadPhase.downloading checking_freshness size m h = received-Kept m h
  progress-Kept DownloadPhase.downloading FlashState.downloading size m h = received-Kept m h
  progress-Kept DownloadPhase.downloading checking_download size m h = received-Kept m h
  progress-Kept DownloadPhase.downloading entering_bsl size m h = received-Kept m h
  progress-Kept DownloadPhase.downloading FlashState.erasing size m h = received-Kept m h
  progress-Kept DownloadPhase.downloading FlashState.writing size m h = received-Kept m h
  progress-Kept DownloadPhase.downloading FlashState.verifying size m h = received-Kept m h
  progress-Kept DownloadPhase.downloading FlashState.restarting size m h = received-Kept m h
  progress-Kept DownloadPhase.downloading complete size m h = received-Kept m h
  progress-Kept DownloadPhase.downloading failed size m h = received-Kept m h

  module _ (a : Answers) where
    advance-Kept :
        (st : FlashState) (m : ZigbeeFirmwareManager C P)
        → m.flash_state ≡ st
        → At bytes given hash radio_size st m
        → Kept (advance flash radio_size sha a st m)
    unfolding advance update_download_progress
    advance-Kept preparing_download m e h =
        progress-Kept m.download_phase m.flash_state flash.size m
          (record { state = ap is_loading e; no_probe = h.0; no_radio = h.1; apart = h.2 })
    advance-Kept FlashState.downloading m e h =
        progress-Kept m.download_phase m.flash_state flash.size m
          (record { state = ap is_loading e; no_probe = h.0; no_radio = h.1; apart = h.2 })
    advance-Kept checking_download m e h =
        check-Good bytes given hash radio_size flash law a sha m sha_law e h.0 h.1
    advance-Kept entering_bsl m e h =
        if-rule Kept m.radio_flash_running
          (λ _. radio_status-Good bytes given hash radio_size m (ap is_flashing e) h)
          (λ _.
            if-rule Kept
              (m.gateway && (a.ready && (m.local_update_active && not m.local_update_settling)))
              (λ ready. start_task-Good bytes given hash radio_size a m e (ground arith) h)
              (λ _. of_state bytes given hash radio_size m e h))
    advance-Kept FlashState.erasing m e h =
        radio_status-Good bytes given hash radio_size m (ap is_flashing e) h
    advance-Kept FlashState.writing m e h =
        radio_status-Good bytes given hash radio_size m (ap is_flashing e) h
    advance-Kept FlashState.verifying m e h =
        radio_status-Good bytes given hash radio_size m (ap is_flashing e) h
    advance-Kept FlashState.restarting m e h =
        if-rule Kept (m.gateway && not m.local_update_active)
          (λ off. finish-Good bytes given hash radio_size m (ground arith) h)
          (λ _. of_state bytes given hash radio_size m e h)
    advance-Kept FlashState.idle m e h = of_state bytes given hash radio_size m e h
    advance-Kept checking_freshness m e h = of_state bytes given hash radio_size m e h
    advance-Kept complete m e h = of_state bytes given hash radio_size m e h
    advance-Kept failed m e h = of_state bytes given hash radio_size m e h

    pub loop-Kept :
        (text : List ℕ) (m : ZigbeeFirmwareManager C P)
        → Kept m
        → Kept (loop flash radio_size sha a text m)
    unfolding loop handle_firmware_probe_result
    loop-Kept text m h =
        if-rule Kept m.probe_done
          (λ done.
            let (st, no_download, no_radio, apart) =
              probe_state bytes given hash radio_size m.flash_state m (ground arith) h in
            let quiet : Quiet (record m { probe_done = false }) = record {
              no_probe = (ground arith, refl);
              no_download = no_download;
              no_radio = no_radio;
            } in
            if-rule Kept (m.probe_result.error == 0 && m.probe_result.status_code == 200)
              (λ _. start_download-Holds bytes given hash radio_size flash a _ _ quiet)
              (λ _. use_staged-Good bytes given hash radio_size sha sha_law _ quiet))
          (λ _.
            if-rule Kept m.download_done
              (λ done.
                let l =
                  to_loading bytes given hash radio_size m.flash_state m refl (ground arith) h in
                download_result-Good bytes given hash radio_size sha sha_law _ (record {
                  no_probe = l.no_probe;
                  no_download = (ground (arith, l.apart), refl);
                  no_radio = l.no_radio;
                }))
              (λ _.
                if-rule Kept m.radio_flash_done
                  (λ done.
                    let e =
                      radio_state bytes given hash radio_size m.flash_state m (ground arith) h in
                    let w = to_flashing bytes given hash radio_size m.flash_state m e h in
                    radio_result-Good bytes given hash radio_size text _ e
                      (ground (arith, w.2.apart), refl)
                      (
                        w.0,
                        w.1,
                        record {
                          held = ground (arith, w.2.held, w.2.apart);
                          apart = ground (arith, w.2.apart);
                        },
                        w.3,
                      ))
                  (λ _. advance-Kept m.flash_state m refl h)))
