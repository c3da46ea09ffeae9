-- ===== src/Firmware/Safety.antt =====
-- The manager through any calls of its public methods, turns of the main loop and steps of its
-- tasks: what holds of it in each state.
use zigbee_gateway.Common.{ℕ, ◌≡◌, refl, ap, arith, true, false, ◌&&◌, ◌||◌, List}
use zigbee_gateway.Firmware.Types.{
  FlashState, checking_freshness, preparing_download, checking_download, entering_bsl, complete,
  failed,
}
use zigbee_gateway.Firmware.Manager.{ZigbeeFirmwareManager, is_active_state}
use zigbee_gateway.Firmware.Verified.{Quiet, NoDownload, NoRadio, Phase, Holds}
use zigbee_gateway.Firmware.Handling.{is_flashing}
use zigbee_gateway.Firmware.Loading.{Loading, is_loading}
use zigbee_gateway.Firmware.Run.{run}

module _ {C P : Type 0} (bytes : P → List ℕ) (given : C → List ℕ) (hash : List ℕ → List ℕ)
    (radio_size : ℕ) where
  abbrev pub Good : ZigbeeFirmwareManager C P → Type 0
  Good m = Holds bytes given hash radio_size m

  abbrev pub At : FlashState → ZigbeeFirmwareManager C P → Type 0
  At st m = Phase bytes given hash radio_size st m

  pub of_state : {s t : FlashState} (m : ZigbeeFirmwareManager C P) → s ≡ t → At t m → At s m
  of_state m e h = rw e h

  pub of_Loading :
      (st : FlashState) (m : ZigbeeFirmwareManager C P) → is_loading st ≡ true → Loading m → At st m
  of_Loading preparing_download m e h = (h.no_probe, h.no_radio, h.apart)
  of_Loading FlashState.downloading m e h = (h.no_probe, h.no_radio, h.apart)
  of_Loading FlashState.idle m e h = cc
  of_Loading checking_freshness m e h = cc
  of_Loading checking_download m e h = cc
  of_Loading entering_bsl m e h = cc
  of_Loading FlashState.erasing m e h = cc
  of_Loading FlashState.writing m e h = cc
  of_Loading FlashState.verifying m e h = cc
  of_Loading FlashState.restarting m e h = cc
  of_Loading complete m e h = cc
  of_Loading failed m e h = cc

  -- While the download task runs, or has left a result, the state is that of a download.
  pub to_loading :
      (st : FlashState) (m : ZigbeeFirmwareManager C P)
      → m.flash_state ≡ st
      → (m.download_running || m.download_done) ≡ true
      → At st m
      → Loading m
  to_loading preparing_download m st run h = record {
    state = ap is_loading st;
    no_probe = h.0;
    no_radio = h.1;
    apart = h.2;
  }
  to_loading FlashState.downloading m st run h = record {
    state = ap is_loading st;
    no_probe = h.0;
    no_radio = h.1;
    apart = h.2;
  }
  to_loading FlashState.idle m st run h = absurd (ground arith)
  to_loading checking_freshness m st run h = absurd (ground arith)
  to_loading checking_download m st run h = absurd (ground arith)
  to_loading entering_bsl m st run h = absurd (ground arith)
  to_loading FlashState.erasing m st run h = absurd (ground arith)
  to_loading FlashState.writing m st run h = absurd (ground arith)
  to_loading FlashState.verifying m st run h = absurd (ground arith)
  to_loading FlashState.restarting m st run h = absurd (ground arith)
  to_loading complete m st run h = absurd (ground arith)
  to_loading failed m st run h = absurd (ground arith)

  -- While the radio task runs, or has left a result, the state is one of writing.
  pub radio_state :
      (st : FlashState) (m : ZigbeeFirmwareManager C P)
      → (m.radio_flash_running || m.radio_flash_done) ≡ true
      → At st m
      → is_flashing st ≡ true
  radio_state entering_bsl m run h = refl
  radio_state FlashState.erasing m run h = refl
  radio_state FlashState.writing m run h = refl
  radio_state FlashState.verifying m run h = refl
  radio_state FlashState.restarting m run h = refl
  radio_state FlashState.idle m run h = absurd (ground arith)
  radio_state checking_freshness m run h = absurd (ground arith)
  radio_state preparing_download m run h = absurd (ground arith)
  radio_state FlashState.downloading m run h = absurd (ground arith)
  radio_state checking_download m run h = absurd (ground arith)
  radio_state complete m run h = absurd (ground arith)
  radio_state failed m run h = absurd (ground arith)

  -- While the probe runs, or has left a result, the state is that of the freshness check.
  pub probe_state :
      (st : FlashState) (m : ZigbeeFirmwareManager C P)
      → (m.probe_running || m.probe_done) ≡ true
      → At st m
      → (st ≡ checking_freshness)
        × NoDownload m
        × NoRadio m
        × ((m.probe_running && m.probe_done) ≡ false)
  probe_state checking_freshness m run h = (refl, h.0, h.1, h.2)
  probe_state FlashState.idle m run h = absurd (ground arith)
  probe_state preparing_download m run h = absurd (ground arith)
  probe_state FlashState.downloading m run h = absurd (ground arith)
  probe_state checking_download m run h = absurd (ground arith)
  probe_state entering_bsl m run h = absurd (ground arith)
  probe_state FlashState.erasing m run h = absurd (ground arith)
  probe_state FlashState.writing m run h = absurd (ground arith)
  probe_state FlashState.verifying m run h = absurd (ground arith)
  probe_state FlashState.restarting m run h = absurd (ground arith)
  probe_state complete m run h = absurd (ground arith)
  probe_state failed m run h = absurd (ground arith)

  -- No task runs in a state that is not active.
  pub inactive-Quiet :
      (st : FlashState) (m : ZigbeeFirmwareManager C P)
      → is_active_state st ≡ false
      → At st m
      → Quiet m
  unfolding is_active_state
  inactive-Quiet FlashState.idle m e h = h
  inactive-Quiet complete m e h = h
  inactive-Quiet failed m e h = h
  inactive-Quiet checking_freshness m e h = cc
  inactive-Quiet preparing_download m e h = cc
  inactive-Quiet FlashState.downloading m e h = cc
  inactive-Quiet checking_download m e h = cc
  inactive-Quiet entering_bsl m e h = cc
  inactive-Quiet FlashState.erasing m e h = cc
  inactive-Quiet FlashState.writing m e h = cc
  inactive-Quiet FlashState.verifying m e h = cc
  inactive-Quiet FlashState.restarting m e h = cc
