-- ===== src/Firmware/Download.antt =====
-- The download of an image into the staging partition. The task runs beside the main loop: its steps
-- are functions of their own, which the flags order.
use mathlib.Core.Option.{Option, none, some}
use zigbee_gateway.Common.{
  ℕ, zero, suc, ◌+◌, ◌/◌, ◌-◌, ◌^◌, Bool, true, false, not, List, [], ltb, ◌==◌, if◌then◌else◌,
  length, replicate,
}
use zigbee_gateway.Firmware.Types.{
  FirmwareDownloadResult, DownloadPhase, erasing_staging, downloading, preparing_download,
  staging_header_size, max_firmware_image_size,
}
use zigbee_gateway.Firmware.Parts.{EspPartition, Sha256}
use zigbee_gateway.Firmware.Manager.{Answers, ZigbeeFirmwareManager, begin_flash_stage}
use zigbee_gateway.Firmware.Staging.{invalidate_staged}

-- The bit pattern of -1.
abbrev pub esp_fail : ℕ
esp_fail = 2 ^ 32 - 1

abbrev pub new_download_result : FirmwareDownloadResult
new_download_result = record {
  error = esp_fail;
  staging_error = 0;
  status_code = esp_fail;
  declared_length = 0;
  received_length = 0;
  digest = replicate 32 0;
  body_too_large = false;
  hash_failed = false;
  etag = [];
}

-- The events of the HTTP client: a header, its name known to be that of the entity tag, or that of
-- the length with the number that the value is (if it is one); a piece of the body; any other.
pub data HttpEvent : Type 0 where
  etag_header : List ℕ → HttpEvent
  length_header : Option ℕ → HttpEvent
  body : List ℕ → HttpEvent
  other : HttpEvent

-- What the client reports once the request is over; a content length of 0 is one that is not positive.
pub record HttpEnd : Type 0 where
  pub error : ℕ
  pub status_code : ℕ
  pub content_length : ℕ

module _ {C P : Type 0} where
  abbrev pub download_started : ZigbeeFirmwareManager C P → ZigbeeFirmwareManager C P
  download_started m = record m {
    download_result = new_download_result;
    staging_erase_bytes = 0;
    download_bytes = 0;
    download_total = 0;
    download_done = false;
    download_running = true;
    download_phase = erasing_staging;
    finalize_staging_after_check = true;
  }

  -- What a task does at its end.
  unfoldable pub download_ended : ZigbeeFirmwareManager C P → ZigbeeFirmwareManager C P
  download_ended m = record m { download_running = false; download_done = true }

  abbrev pub length_declared :
      Option ℕ → ZigbeeFirmwareManager C P → ZigbeeFirmwareManager C P × Bool
  length_declared none m = (m, true)
  length_declared (some parsed) m =
      if ltb max_firmware_image_size parsed
      then (
        record m { download_result = record m.download_result { body_too_large = true } },
        false,
      )
      else (
        record m {
          download_result = record m.download_result { declared_length = parsed };
          download_total = parsed;
        },
        true,
      )

  -- What the client reports, if it could be made.
  abbrev pub requested : Option HttpEnd → ZigbeeFirmwareManager C P → ZigbeeFirmwareManager C P
  requested none m = record m { download_result = record m.download_result { error = 0x101 } }
  requested (some e) m =
      let r = record m.download_result { error = e.error; status_code = e.status_code } in
      let sized = not (e.content_length == 0) in
      record m {
        download_result = record r {
          declared_length = if sized then e.content_length else r.declared_length;
        };
        download_total = if sized then e.content_length else m.download_total;
      }

module _ {C P : Type 0} (flash : EspPartition P) where
  abbrev pub after_invalidation :
      Answers → ZigbeeFirmwareManager C P × Bool → ZigbeeFirmwareManager C P × Bool
  after_invalidation a (m, false) = (m, false)
  after_invalidation a (m, true) =
      let m' =
        begin_flash_stage preparing_download "Preparing firmware storage" (download_started m) in
      if not a.created then (record m' { download_running = false }, false) else (m', true)

  unfoldable pub start_firmware_download :
      Answers → ZigbeeFirmwareManager C P → ZigbeeFirmwareManager C P × Bool
  unfolding invalidate_staged begin_flash_stage
  start_firmware_download a m = after_invalidation a (invalidate_staged flash false m)

  -- The loop of the task that erases the partition behind the header, on fuel: a block each round.
  unfoldable pub erase_loop :
      ℕ → ℕ → P → ZigbeeFirmwareManager C P → ZigbeeFirmwareManager C P × Bool
  erase_loop zero offset p m = (m, true)
  erase_loop (suc fuel) offset p m =
      let (error, p') = flash.erase_range p offset staging_header_size in
      let rest =
        erase_loop fuel (offset + staging_header_size) p'
          (record m { partition = some p'; staging_erase_bytes = offset }) in
      if not (ltb offset flash.size)
      then (m, true)
      else if not (error == 0)
      then (
        record m {
          partition = some p';
          download_result = record m.download_result { error = error; staging_error = error };
        },
        false,
      )
      else rest

  abbrev pub erase_at : Option P → ZigbeeFirmwareManager C P → ZigbeeFirmwareManager C P × Bool
  erase_at none m = (m, true)
  erase_at (some p) m =
      erase_loop (flash.size / staging_header_size) staging_header_size p
        (record m { download_phase = erasing_staging; staging_erase_bytes = 0 })

  -- The task up to the request: a failure ends it.
  unfoldable pub download_begins : Sha256 C → ZigbeeFirmwareManager C P → ZigbeeFirmwareManager C P
  unfolding erase_loop download_ended
  download_begins sha m =
      let (m', erased) = erase_at m.partition m in
      if not erased
      then download_ended m'
      else let (started, context) = sha.starts sha.init in
        if started
        then record m' { download_phase = downloading; download_sha = context }
        else download_ended (record m' {
          download_result = record m'.download_result { hash_failed = true; error = esp_fail };
          download_phase = DownloadPhase.idle;
          download_sha = context;
        })

  abbrev pub body_at :
      Sha256 C → List ℕ → Option P → ZigbeeFirmwareManager C P → ZigbeeFirmwareManager C P × Bool
  body_at sha bytes none m = (m, false)
  body_at sha bytes (some p) m =
      let r = m.download_result in
      let (error, p') = flash.write p (staging_header_size + r.received_length) bytes in
      let written = record m { partition = some p' } in
      if not (error == 0)
      then (record written { download_result = record r { staging_error = error } }, false)
      else let (updated, context) = sha.update m.download_sha bytes in
        if not updated
        then (
          record written {
            download_result = record r { hash_failed = true };
            download_sha = context;
          },
          false,
        )
        else (
          record written {
            download_result = record r { received_length = r.received_length + length bytes };
            download_sha = context;
            download_bytes = r.received_length + length bytes;
          },
          true,
        )

  -- `firmware_http_event_handler_`; the result is whether it returns ESP_OK.
  unfoldable pub firmware_http_event :
      Sha256 C → HttpEvent → ZigbeeFirmwareManager C P → ZigbeeFirmwareManager C P × Bool
  firmware_http_event sha (etag_header value) m =
      (record m { download_result = record m.download_result { etag = value } }, true)
  firmware_http_event sha (length_header parsed) m = length_declared parsed m
  firmware_http_event sha other m = (m, true)
  firmware_http_event sha (body bytes) m =
      if length bytes == 0
      then (m, true)
      else if ltb max_firmware_image_size (m.download_result.received_length + length bytes)
      then (
        record m { download_result = record m.download_result { body_too_large = true } },
        false,
      )
      else body_at sha bytes m.partition m

  -- The task behind the request, which there was if the client could be made.
  unfoldable pub download_ends :
      Sha256 C → Option HttpEnd → ZigbeeFirmwareManager C P → ZigbeeFirmwareManager C P
  unfolding download_ended
  download_ends sha end m =
      let m' = requested end m in
      let (finished, digest) = sha.finish m'.download_sha in
      let r = m'.download_result in
      download_ended (record m' {
        download_result =
            if r.hash_failed
            then r
            else if finished
            then record r { digest = digest }
            else record r { digest = digest; hash_failed = true; error = esp_fail };
        download_phase = DownloadPhase.idle;
      })
