-- ===== src/Firmware/Loading.antt =====
-- The steps of the download task leave the state of the update, and the other tasks, alone.
use mathlib.Core.Option.{Option, none, some}
use zigbee_gateway.Common.{
  ℕ, zero, suc, ◌+◌, ◌/◌, ◌≡◌, refl, Bool, true, false, not, ◌&&◌, List, length, ltb, ◌==◌, if-rule,
}
use zigbee_gateway.Firmware.Types.{
  FlashState, preparing_download, staging_header_size, max_firmware_image_size,
}
use zigbee_gateway.Firmware.Parts.{EspPartition, Sha256}
use zigbee_gateway.Firmware.Manager.{ZigbeeFirmwareManager}
use zigbee_gateway.Firmware.Download.{
  HttpEvent, etag_header, length_header, body, other, HttpEnd, download_begins, firmware_http_event,
  download_ends, erase_loop, erase_at, length_declared, body_at, requested,
}
use zigbee_gateway.Firmware.Verified.{NoProbe, NoRadio}

abbrev pub is_loading : FlashState → Bool
is_loading preparing_download = true
is_loading FlashState.downloading = true
is_loading _ = false

module _ {C P : Type 0} where
  -- The download task runs, in a state of a download.
  pub record Loading (m : ZigbeeFirmwareManager C P) : Type 0 where
    pub state : is_loading m.flash_state ≡ true
    pub no_probe : NoProbe m
    pub no_radio : NoRadio m
    pub apart : (m.download_running && m.download_done) ≡ false

  module _ (flash : EspPartition P) (sha : Sha256 C) where
    erase-Loading :
        (fuel offset : ℕ) (p : P) (m : ZigbeeFirmwareManager C P)
        → Loading m
        → Loading (erase_loop flash fuel offset p m).0
    unfolding erase_loop
    erase-Loading zero offset p m h = h
    erase-Loading (suc fuel) offset p m h =
        let out = flash.erase_range p offset staging_header_size in
        let next = record m { partition = some out.1; staging_erase_bytes = offset } in
        let ready : Loading next = record {
          state = h.state;
          no_probe = h.no_probe;
          no_radio = h.no_radio;
          apart = h.apart;
        } in
        let rest = erase-Loading fuel (offset + staging_header_size) out.1 next ready in
        if-rule (λ (r : ZigbeeFirmwareManager C P × Bool). Loading r.0)
          (not (ltb offset flash.size)) (λ _. h)
          (λ _.
            if-rule (λ (r : ZigbeeFirmwareManager C P × Bool). Loading r.0) (not (out.0 == 0))
              (λ _. record {
                state = h.state;
                no_probe = h.no_probe;
                no_radio = h.no_radio;
                apart = h.apart;
              })
              (λ _. rest))

    erase_at-Loading :
        (o : Option P) (m : ZigbeeFirmwareManager C P) → Loading m → Loading (erase_at flash o m).0
    erase_at-Loading none m h = h
    erase_at-Loading (some p) m h =
        erase-Loading (flash.size / staging_header_size) staging_header_size p _ (record {
          state = h.state;
          no_probe = h.no_probe;
          no_radio = h.no_radio;
          apart = h.apart;
        })

    pub begins-Loading :
        (m : ZigbeeFirmwareManager C P) → Loading m → Loading (download_begins flash sha m)
    unfolding download_begins
    begins-Loading m h =
        let e = erase_at-Loading m.partition m h in
        if-rule Loading (not (erase_at flash m.partition m).1)
          (λ _. record {
            state = e.state;
            no_probe = e.no_probe;
            no_radio = e.no_radio;
            apart = refl;
          })
          (λ _.
            if-rule Loading (sha.starts sha.init).0
              (λ _. record {
                state = e.state;
                no_probe = e.no_probe;
                no_radio = e.no_radio;
                apart = e.apart;
              })
              (λ _. record {
                state = e.state;
                no_probe = e.no_probe;
                no_radio = e.no_radio;
                apart = refl;
              }))

    body-Loading :
        (bytes : List ℕ) (o : Option P) (m : ZigbeeFirmwareManager C P)
        → Loading m
        → Loading (body_at flash sha bytes o m).0
    body-Loading bytes none m h = h
    body-Loading bytes (some p) m h =
        let out = flash.write p (staging_header_size + m.download_result.received_length) bytes in
        if-rule (λ (r : ZigbeeFirmwareManager C P × Bool). Loading r.0) (not (out.0 == 0))
          (λ _. record {
            state = h.state;
            no_probe = h.no_probe;
            no_radio = h.no_radio;
            apart = h.apart;
          })
          (λ _.
            if-rule (λ (r : ZigbeeFirmwareManager C P × Bool). Loading r.0)
              (not (sha.update m.download_sha bytes).0)
              (λ _. record {
                state = h.state;
                no_probe = h.no_probe;
                no_radio = h.no_radio;
                apart = h.apart;
              })
              (λ _. record {
                state = h.state;
                no_probe = h.no_probe;
                no_radio = h.no_radio;
                apart = h.apart;
              }))

    declared-Loading :
        (parsed : Option ℕ) (m : ZigbeeFirmwareManager C P)
        → Loading m
        → Loading (length_declared parsed m).0
    declared-Loading none m h = h
    declared-Loading (some parsed) m h =
        if-rule (λ (r : ZigbeeFirmwareManager C P × Bool). Loading r.0)
          (ltb max_firmware_image_size parsed)
          (λ _. record {
            state = h.state;
            no_probe = h.no_probe;
            no_radio = h.no_radio;
            apart = h.apart;
          })
          (λ _. record {
            state = h.state;
            no_probe = h.no_probe;
            no_radio = h.no_radio;
            apart = h.apart;
          })

    pub event-Loading :
        (event : HttpEvent) (m : ZigbeeFirmwareManager C P)
        → Loading m
        → Loading (firmware_http_event flash sha event m).0
    unfolding firmware_http_event
    event-Loading (etag_header value) m h = record {
      state = h.state;
      no_probe = h.no_probe;
      no_radio = h.no_radio;
      apart = h.apart;
    }
    event-Loading (length_header parsed) m h = declared-Loading parsed m h
    event-Loading other m h = h
    event-Loading (body bytes) m h =
        if-rule (λ (r : ZigbeeFirmwareManager C P × Bool). Loading r.0) (length bytes == 0) (λ _. h)
          (λ _.
            if-rule (λ (r : ZigbeeFirmwareManager C P × Bool). Loading r.0)
              (ltb max_firmware_image_size (m.download_result.received_length + length bytes))
              (λ _. record {
                state = h.state;
                no_probe = h.no_probe;
                no_radio = h.no_radio;
                apart = h.apart;
              })
              (λ _. body-Loading bytes m.partition m h))

    requested-Loading :
        (end : Option HttpEnd) (m : ZigbeeFirmwareManager C P)
        → Loading m
        → Loading (requested end m)
    requested-Loading none m h = record {
      state = h.state;
      no_probe = h.no_probe;
      no_radio = h.no_radio;
      apart = h.apart;
    }
    requested-Loading (some e) m h = record {
      state = h.state;
      no_probe = h.no_probe;
      no_radio = h.no_radio;
      apart = h.apart;
    }

    pub ends-Loading :
        (end : Option HttpEnd) (m : ZigbeeFirmwareManager C P)
        → Loading m
        → Loading (download_ends flash sha end m)
    unfolding download_ends
    ends-Loading end m h =
        let r = requested-Loading end m h in
        record { state = r.state; no_probe = r.no_probe; no_radio = r.no_radio; apart = refl }
