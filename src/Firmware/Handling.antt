-- ===== src/Firmware/Handling.antt =====
-- The results of the tasks, and the turns of the main loop, keep what holds of the manager.
use mathlib.Core.Option.{Option, none, some}
use zigbee_gateway.Common.{
  ℕ, ◌≡◌, refl, ap, arith, Bool, true, false, not, ◌&&◌, ◌||◌, List, if-rule,
}
use zigbee_gateway.Firmware.Types.{
  FlashState, checking_freshness, preparing_download, checking_download, entering_bsl, complete,
  failed, RadioFlashStage, syncing, Reason, same_stage,
}
use zigbee_gateway.Firmware.Parts.{Sha256, IsSha}
use zigbee_gateway.Firmware.Manager.{
  Answers, ZigbeeFirmwareManager, fail_firmware_update, finish_firmware_update,
  publish_flash_progress, publish_status, call_gateway, finish_update,
}
use zigbee_gateway.Firmware.Update.{
  use_staged_firmware, handle_firmware_download_result, radio_state, update_radio_flash_status,
  start_radio_flash_task, handle_radio_flash_result, is_none, check_or_fail, download_failure,
  settle_radio, record_erase,
}
use zigbee_gateway.Firmware.Verified.{
  Quiet, NoRadio, Flashing, Phase, Holds, fail-Holds, begin_check-Holds,
}

-- The states in which the radio may be written.
abbrev pub is_flashing : FlashState → Bool
is_flashing entering_bsl = true
is_flashing FlashState.erasing = true
is_flashing FlashState.writing = true
is_flashing FlashState.verifying = true
is_flashing FlashState.restarting = true
is_flashing FlashState.idle = false
is_flashing checking_freshness = false
is_flashing preparing_download = false
is_flashing FlashState.downloading = false
is_flashing checking_download = false
is_flashing complete = false
is_flashing failed = false

radio_state-is_flashing :
    (stage : RadioFlashStage) (st : FlashState)
    → is_flashing st ≡ true
    → is_flashing (radio_state stage st) ≡ true
radio_state-is_flashing RadioFlashStage.idle st h = h
radio_state-is_flashing syncing st h = refl
radio_state-is_flashing RadioFlashStage.erasing st h = refl
radio_state-is_flashing RadioFlashStage.writing st h = refl
radio_state-is_flashing RadioFlashStage.verifying st h = refl
radio_state-is_flashing RadioFlashStage.restarting st h = refl

module _ {C P : Type 0} (bytes : P → List ℕ) (given : C → List ℕ) (hash : List ℕ → List ℕ)
    (radio_size : ℕ) where
  abbrev Good : ZigbeeFirmwareManager C P → Type 0
  Good m = Holds bytes given hash radio_size m

  abbrev pub Writing : ZigbeeFirmwareManager C P → Type 0
  Writing m = Flashing bytes given hash radio_size m

  pub of_flashing :
      (st : FlashState) (m : ZigbeeFirmwareManager C P)
      → is_flashing st ≡ true
      → Writing m
      → Phase bytes given hash radio_size st m
  of_flashing entering_bsl m e h = h
  of_flashing FlashState.erasing m e h = h
  of_flashing FlashState.writing m e h = h
  of_flashing FlashState.verifying m e h = h
  of_flashing FlashState.restarting m e h = h
  of_flashing FlashState.idle m e h = cc
  of_flashing checking_freshness m e h = cc
  of_flashing preparing_download m e h = cc
  of_flashing FlashState.downloading m e h = cc
  of_flashing checking_download m e h = cc
  of_flashing complete m e h = cc
  of_flashing failed m e h = cc

  pub to_flashing :
      (st : FlashState) (m : ZigbeeFirmwareManager C P)
      → is_flashing st ≡ true
      → Phase bytes given hash radio_size st m
      → Writing m
  to_flashing entering_bsl m e h = h
  to_flashing FlashState.erasing m e h = h
  to_flashing FlashState.writing m e h = h
  to_flashing FlashState.verifying m e h = h
  to_flashing FlashState.restarting m e h = h
  to_flashing FlashState.idle m e h = cc
  to_flashing checking_freshness m e h = cc
  to_flashing preparing_download m e h = cc
  to_flashing FlashState.downloading m e h = cc
  to_flashing checking_download m e h = cc
  to_flashing complete m e h = cc
  to_flashing failed m e h = cc

  pub radio_status-Good :
      (m : ZigbeeFirmwareManager C P)
      → is_flashing m.flash_state ≡ true
      → Writing m
      → Good (update_radio_flash_status m)
  unfolding update_radio_flash_status
  radio_status-Good m e h =
      of_flashing _ _
        (if-rule (λ (st : FlashState). is_flashing st ≡ true)
          (same_stage m.radio_flash_stage m.published_radio_flash_stage) (λ _. e)
          (λ _. radio_state-is_flashing m.radio_flash_stage m.flash_state e))
        (h.0, h.1, record { held = h.2.held; apart = h.2.apart }, h.3)

  pub use_staged-Good :
      (sha : Sha256 C)
      → IsSha sha given hash
      → (m : ZigbeeFirmwareManager C P) → Quiet m
      → Good (use_staged_firmware sha m)
  unfolding use_staged_firmware publish_flash_progress
  use_staged-Good sha law m q =
      if-rule Good (not m.staged_image_valid) (λ _. fail-Holds bytes given hash radio_size _ m q)
        (λ _.
          begin_check-Holds bytes given hash radio_size sha law _
            (record { no_probe = q.no_probe; no_download = q.no_download; no_radio = q.no_radio }))

  check_or_fail-Good :
      (sha : Sha256 C) (reason : Option Reason)
      → IsSha sha given hash
      → (m : ZigbeeFirmwareManager C P) → Quiet m
      → Good (check_or_fail sha reason m)
  unfolding publish_flash_progress
  check_or_fail-Good sha (some reason) law m q = fail-Holds bytes given hash radio_size reason m q
  check_or_fail-Good sha none law m q =
      begin_check-Holds bytes given hash radio_size sha law _
        (record { no_probe = q.no_probe; no_download = q.no_download; no_radio = q.no_radio })

  pub download_result-Good :
      (sha : Sha256 C)
      → IsSha sha given hash
      → (m : ZigbeeFirmwareManager C P) → Quiet m
      → Good (handle_firmware_download_result sha m)
  unfolding handle_firmware_download_result
  download_result-Good sha law m q =
      check_or_fail-Good sha (download_failure m.download_result) law m q

  pub start_task-Good :
      (a : Answers) (m : ZigbeeFirmwareManager C P)
      → m.flash_state ≡ entering_bsl
      → (m.local_update_active && not m.local_update_settling) ≡ true
      → Writing m
      → Good (start_radio_flash_task a m)
  unfolding start_radio_flash_task finish_update call_gateway fail_firmware_update
      update_radio_flash_status publish_flash_progress
  start_task-Good a m st ready h =
      if-rule Good (m.radio_flash_running || m.radio_flash_done)
        (λ _. of_flashing m.flash_state m (ap is_flashing st) h)
        (λ still.
          if-rule Good (not a.serial)
            (λ _. record { no_probe = h.0; no_download = h.1; no_radio = ground arith })
            (λ _.
              if-rule Good (not a.created)
                (λ _. record { no_probe = h.0; no_download = h.1; no_radio = (refl, refl) })
                (λ _. (h.0, h.1, record { held = ground arith; apart = refl }, h.3))))

  pub finish-Good :
      (m : ZigbeeFirmwareManager C P)
      → m.local_update_active ≡ false
      → Writing m
      → Good (finish_firmware_update m)
  unfolding finish_firmware_update publish_flash_progress publish_status
  finish-Good m off h = record {
    no_probe = h.0;
    no_download = h.1;
    no_radio = ground (arith, h.2.held);
  }

  settle-Good :
      (text : List ℕ) (m : ZigbeeFirmwareManager C P)
      → is_flashing m.flash_state ≡ true
      → NoRadio m
      → Writing m
      → Good (settle_radio text m)
  unfolding settle_radio finish_firmware_update publish_flash_progress publish_status
  settle-Good text m e over h =
      let quiet : Quiet m = record { no_probe = h.0; no_download = h.1; no_radio = over } in
      if-rule Good (not (is_none m.radio_flash_result.error))
        (λ _. fail-Holds bytes given hash radio_size _ _ (
          if-rule Quiet m.gateway
            (λ _. record { no_probe = h.0; no_download = h.1; no_radio = over }) (λ _. quiet)))
        (λ _.
          if-rule Good m.gateway
            (λ _.
              of_flashing m.flash_state _ e
                (h.0, h.1, record { held = ground arith; apart = ground arith }, h.3))
            (λ _. record { no_probe = h.0; no_download = h.1; no_radio = over }))

  pub radio_result-Good :
      (text : List ℕ) (m : ZigbeeFirmwareManager C P)
      → is_flashing m.flash_state ≡ true
      → NoRadio m
      → Writing m
      → Good (handle_radio_flash_result text m)
  unfolding handle_radio_flash_result publish_flash_progress
  radio_result-Good text m e over h =
      settle-Good text (record_erase (update_radio_flash_status m))
        (if-rule (λ (st : FlashState). is_flashing st ≡ true)
          (same_stage m.radio_flash_stage m.published_radio_flash_stage) (λ _. e)
          (λ _. radio_state-is_flashing m.radio_flash_stage m.flash_state e))
        over (h.0, h.1, record { held = h.2.held; apart = h.2.apart }, h.3)
