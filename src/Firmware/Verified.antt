-- ===== src/Firmware/Verified.antt =====
-- What holds of the manager in each state of an update, and the small methods that keep it.
use mathlib.Core.Option.{Option, none, some}
use zigbee_gateway.Common.{
  ℕ, ◌-◌, ◌≤◌, ◌≡◌, arith, Bool, true, false, not, ◌&&◌, ◌||◌, List, [], length, take, drop,
}
use zigbee_gateway.Crc.Update.{zigbee_crc32, crc_bytes}
use zigbee_gateway.Ti.Image.{
  no_error, zigbee_ti_ccfg_size, zigbee_ti_image_size_is_compatible, zigbee_ti_validate_ccfg,
}
use zigbee_gateway.Firmware.Types.{
  FlashState, checking_freshness, preparing_download, checking_download, entering_bsl, complete,
  failed, Reason, staging_header_size,
}
use zigbee_gateway.Firmware.Parts.{EspPartition, Sha256, IsSha}
use zigbee_gateway.Firmware.Manager.{
  Answers, ZigbeeFirmwareManager, fail_firmware_update, begin_flash_stage,
}
use zigbee_gateway.Firmware.Staging.{invalidate_staged, invalidate_at}
use zigbee_gateway.Firmware.Download.{start_firmware_download, after_invalidation}
use zigbee_gateway.Firmware.Checking.{or_fail, on_success, begin_staged_image_check}

-- An image that is fit for the radio: it has its size, its digest and its CRC, its size is that of
-- the radio's flash, and its boot configuration lets the bootloader be entered again.
pub record IsVerified (hash : List ℕ → List ℕ) (radio_size : ℕ) (stored digest : List ℕ)
    (size crc dio : ℕ) (high : Bool) : Type 0 where
  pub full : length (take size stored) ≡ size
  pub digest_of : hash (take size stored) ≡ digest
  pub crc_of : zigbee_crc32 (take size stored) size ≡ crc
  pub compatible : zigbee_ti_image_size_is_compatible size radio_size ≡ true
  pub ccfg :
      (zigbee_ti_validate_ccfg
        (some (take zigbee_ti_ccfg_size (drop (size - zigbee_ti_ccfg_size) stored)))
        zigbee_ti_ccfg_size
        dio
        high
        0).0
      ≡ no_error

module _ {C P : Type 0} where
  abbrev pub NoProbe : ZigbeeFirmwareManager C P → Type 0
  NoProbe m = (m.probe_running ≡ false) × (m.probe_done ≡ false)

  abbrev pub NoDownload : ZigbeeFirmwareManager C P → Type 0
  NoDownload m = (m.download_running ≡ false) × (m.download_done ≡ false)

  abbrev pub NoRadio : ZigbeeFirmwareManager C P → Type 0
  NoRadio m = (m.radio_flash_running ≡ false) × (m.radio_flash_done ≡ false)

  -- No task runs, and none has left a result.
  pub record Quiet (m : ZigbeeFirmwareManager C P) : Type 0 where
    pub no_probe : NoProbe m
    pub no_download : NoDownload m
    pub no_radio : NoRadio m

  -- While the radio task runs, or its result waits, the gateway is in the update.
  pub record Busy (m : ZigbeeFirmwareManager C P) : Type 0 where
    pub held :
        ((m.radio_flash_running || m.radio_flash_done)
          && ((not m.local_update_active) || m.local_update_settling))
        ≡ false
    pub apart : (m.radio_flash_running && m.radio_flash_done) ≡ false

module _ {C P : Type 0} (bytes : P → List ℕ) (given : C → List ℕ) (hash : List ℕ → List ℕ)
    (radio_size : ℕ) where
  -- What the partition holds behind the header.
  abbrev pub content : Option P → List ℕ
  content none = []
  content (some p) = drop staging_header_size (bytes p)

  abbrev pub Verified : ZigbeeFirmwareManager C P → Type 0
  Verified m =
      IsVerified hash radio_size (content m.partition) m.flash_image_digest m.flash_image_size
        m.flash_image_crc m.bootloader_backdoor_dio m.bootloader_backdoor_active_high

  -- The part of the image that the check has read.
  pub record Checked (m : ZigbeeFirmwareManager C P) : Type 0 where
    pub within : m.flash_work_offset ≤ m.flash_image_size
    pub read : length (take m.flash_work_offset (content m.partition)) ≡ m.flash_work_offset
    pub hashed : given m.staged_image_sha ≡ take m.flash_work_offset (content m.partition)
    pub summed :
        m.staged_image_crc ≡ crc_bytes 0xFFFFFFFF (take m.flash_work_offset (content m.partition))

  -- What the radio's flash may be written with.
  abbrev pub Flashing : ZigbeeFirmwareManager C P → Type 0
  Flashing m = NoProbe m × NoDownload m × Busy m × Verified m

  abbrev pub Phase : FlashState → ZigbeeFirmwareManager C P → Type 0
  Phase FlashState.idle m = Quiet m
  Phase checking_freshness m =
      NoDownload m × NoRadio m × ((m.probe_running && m.probe_done) ≡ false)
  Phase preparing_download m =
      NoProbe m × NoRadio m × ((m.download_running && m.download_done) ≡ false)
  Phase FlashState.downloading m =
      NoProbe m × NoRadio m × ((m.download_running && m.download_done) ≡ false)
  Phase checking_download m = Quiet m × Checked m
  Phase entering_bsl m = Flashing m
  Phase FlashState.erasing m = Flashing m
  Phase FlashState.writing m = Flashing m
  Phase FlashState.verifying m = Flashing m
  Phase FlashState.restarting m = Flashing m
  Phase complete m = Quiet m
  Phase failed m = Quiet m

  abbrev pub Holds : ZigbeeFirmwareManager C P → Type 0
  Holds m = Phase m.flash_state m

  pub fail-Holds :
      (reason : Reason) (m : ZigbeeFirmwareManager C P)
      → Quiet m
      → Holds (fail_firmware_update reason m)
  unfolding fail_firmware_update
  fail-Holds reason m h = record {
    no_probe = h.no_probe;
    no_download = h.no_download;
    no_radio = h.no_radio;
  }

  -- A step that succeeds with `K`, or ends in a state that holds.
  abbrev pub Outcome :
      (ZigbeeFirmwareManager C P → Type 0) → ZigbeeFirmwareManager C P × Bool → Type 0
  Outcome K (m, true) = K m
  Outcome K (m, false) = Holds m

  pub on_success-Holds :
      (K : ZigbeeFirmwareManager C P → Type 0)
      (next : ZigbeeFirmwareManager C P → ZigbeeFirmwareManager C P)
      (r : ZigbeeFirmwareManager C P × Bool)
      → Outcome K r
      → ((m : ZigbeeFirmwareManager C P) → K m → Holds (next m))
      → Holds (on_success next r)
  on_success-Holds K next (m, true) h k = k m h
  on_success-Holds K next (m, false) h k = h

  module _ (flash : EspPartition P) where
    invalidate_at-Quiet :
        (publishes : Bool) (o : Option P) (m : ZigbeeFirmwareManager C P)
        → Quiet m
        → Quiet (invalidate_at flash publishes o m).0
    unfolding invalidate_staged
    invalidate_at-Quiet publishes none m h = h
    invalidate_at-Quiet publishes (some p) m h = ground arith

    pub invalidate-Quiet :
        (publishes : Bool) (m : ZigbeeFirmwareManager C P)
        → Quiet m
        → Quiet (invalidate_staged flash publishes m).0
    unfolding invalidate_staged
    invalidate-Quiet publishes m h = invalidate_at-Quiet publishes m.partition m h

    after_invalidation-Holds :
        (a : Answers) (reason : Reason) (r : ZigbeeFirmwareManager C P × Bool)
        → Quiet r.0
        → Holds (or_fail reason (after_invalidation flash a r))
    unfolding begin_flash_stage fail_firmware_update
    after_invalidation-Holds a reason (m, false) h = fail-Holds reason m h
    after_invalidation-Holds a reason (m, true) h = ground arith

    pub start_download-Holds :
        (a : Answers) (reason : Reason) (m : ZigbeeFirmwareManager C P)
        → Quiet m
        → Holds (or_fail reason (start_firmware_download flash a m))
    unfolding start_firmware_download
    start_download-Holds a reason m h =
        after_invalidation-Holds a reason (invalidate_staged flash false m)
          (invalidate-Quiet false m h)

  pub begin_check-Holds :
      (sha : Sha256 C)
      → IsSha sha given hash
      → (m : ZigbeeFirmwareManager C P) → Quiet m
      → Holds (begin_staged_image_check sha m)
  unfolding begin_staged_image_check crc_bytes
  begin_check-Holds sha law m h = ground (arith, law.starts_given sha.init)
