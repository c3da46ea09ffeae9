-- ===== src/Firmware/Types.antt =====
-- The structs and enums of zigbee_firmware_manager.h that an update uses. A `std::string` and a C
-- string are the list of their bytes, an array of characters is the list of all of its bytes.
use Prim.Native.String.{String}
use zigbee_gateway.Common.{ℕ, Bool, true, false, ◌&&◌, List, [], ◌∷◌, ◌==◌, replicate}
use zigbee_gateway.Ti.Image.{ZigbeeTiCcfgError}

abbrev pub staging_header_size : ℕ
staging_header_size = 0x1000

abbrev pub max_firmware_image_size : ℕ
max_firmware_image_size = 0xB0000

abbrev pub staging_io_block_size : ℕ
staging_io_block_size = 4096

abbrev pub staging_etag_size : ℕ
staging_etag_size = 160

abbrev pub staging_magic : ℕ
staging_magic = 0x5A465753

abbrev pub staging_schema : ℕ
staging_schema = 2

abbrev pub write_block_size : ℕ
write_block_size = 252

pub record FirmwareEntry : Type 0 where
  pub role : List ℕ
  pub filename : List ℕ
  pub version : List ℕ
  pub label : List ℕ
  pub url : List ℕ
  pub notes : List ℕ
  pub baud_rate : ℕ
  pub sort_key : ℕ

pub record StagingHeader : Type 0 where
  pub magic : ℕ
  pub schema : ℕ
  pub state : ℕ
  pub reserved : ℕ
  pub image_size : ℕ
  pub baud_rate : ℕ
  pub digest : List ℕ
  pub role : List ℕ
  pub version : List ℕ
  pub filename : List ℕ
  pub etag : List ℕ

-- `StagingHeader{}`
abbrev pub no_header : StagingHeader
no_header = record {
  magic = 0;
  schema = 0;
  state = 0;
  reserved = 0;
  image_size = 0;
  baud_rate = 0;
  digest = replicate 32 0;
  role = replicate 16 0;
  version = replicate 64 0;
  filename = replicate 128 0;
  etag = replicate staging_etag_size 0;
}

-- An `esp_err_t` is its number, 0 for ESP_OK.
pub record FirmwareDownloadResult : Type 0 where
  pub error : ℕ
  pub staging_error : ℕ
  pub status_code : ℕ
  pub declared_length : ℕ
  pub received_length : ℕ
  pub digest : List ℕ
  pub body_too_large : Bool
  pub hash_failed : Bool
  pub etag : List ℕ

pub record FirmwareProbeResult : Type 0 where
  pub error : ℕ
  pub status_code : ℕ
  pub etag : List ℕ

pub data FlashState : Type 0 where
  idle checking_freshness preparing_download downloading : FlashState
  checking_download entering_bsl erasing writing verifying : FlashState
  restarting complete failed : FlashState

pub data RadioFlashStage : Type 0 where
  idle syncing erasing writing verifying restarting : RadioFlashStage

-- `no_error` is NONE.
pub data RadioFlashError : Type 0 where
  no_error invalid_image_size bsl_sync_failed bank_erase_failed : RadioFlashError
  download_failed staging_read_failed send_data_failed staging_crc_mismatch : RadioFlashError

pub record RadioFlashResult : Type 0 where
  pub error : RadioFlashError
  pub bank_erased : Bool
  pub bootloader_reset_acknowledged : Bool
  pub rom_status : ℕ
  pub offset : ℕ
  pub local_crc : ℕ
  pub verified_crc : ℕ

pub data DownloadPhase : Type 0 where
  idle erasing_staging downloading : DownloadPhase

-- Why an update failed: a text, a text with a code behind it, the two lengths of an incomplete
-- download, or what is wrong with the boot configuration.
pub data Reason : Type 0 where
  plain : String → Reason
  coded : String → ℕ → Reason
  incomplete : ℕ → ℕ → Reason
  ccfg_error : ZigbeeTiCcfgError → Reason

-- What the status sensor shows: the text of a stage, or "Failed: " and the reason.
pub data Status : Type 0 where
  stage : String → Status
  failure : Reason → Status

-- The methods of the gateway that change it.
pub data GatewayCall : Type 0 where
  begin_local_firmware_update record_local_radio_erase : GatewayCall
  record_local_firmware_install : List ℕ → List ℕ → GatewayCall
  finish_local_firmware_update : Bool → GatewayCall

abbrev pub same_stage : RadioFlashStage → RadioFlashStage → Bool
same_stage RadioFlashStage.idle RadioFlashStage.idle = true
same_stage syncing syncing = true
same_stage RadioFlashStage.erasing RadioFlashStage.erasing = true
same_stage RadioFlashStage.writing RadioFlashStage.writing = true
same_stage RadioFlashStage.verifying RadioFlashStage.verifying = true
same_stage RadioFlashStage.restarting RadioFlashStage.restarting = true
same_stage _ _ = false

-- `==` on two texts, and `memcmp` on two arrays of one size.
unfoldable pub same_bytes : List ℕ → List ℕ → Bool
same_bytes [] [] = true
same_bytes (x ∷ xs) (y ∷ ys) = x == y && same_bytes xs ys
same_bytes _ _ = false
