-- ===== src/Lib.antt =====
-- Verification of the Zigbee gateway: an ESPHome component that gives one client at a time the
-- UART of a TI radio, over TCP or a USB bridge, and that can take the radio through its ROM
-- bootloader to erase, write and check its firmware.
--
-- Parts, with their files under components/zigbee_gateway:
-- - Tcp (zigbee_tcp_state.h): the roles of the TCP clients and the bootloader rendezvous. State is
--   the record with one function per method, Run the calls in any order.
-- - Stream (zigbee_stream_pump.h): the duplex byte pump. Endpoint is the contract of an endpoint,
--   Pump the two directions, Adapters and Sockets the endpoints of zigbee_stream_adapters.h, Relay the invariant of one direction, Delivery the whole pump.
-- - Serial (zigbee_serial_owner.h, zigbee_serial.h): who may use the UART. Uart is the UART of
--   ESPHome as a parameter, Gate the interface, one function per method.
-- - Bsl (zigbee_bsl_frame.h): the bootloader's frames, words and responses.
-- - Ti (zigbee_ti_image.h): the boot configuration at the end of an image.
-- - Znp (zigbee_znp_observer.h, the frame of protocol.h, and sniff_byte_ of zigbee_gateway.cpp):
--   passive observation of the radio. Sniffer has the frame assembly and the queue; Assembly, Newest
--   and Observation follow a stream of frames through both.
-- - Usb (zigbee_usb_bridge.cpp): the software bridge, over the pump and the serial interface.
-- - Cache (zigbee_metadata_cache.h): the persisted records and their texts. History has the
--   record of the network through any sequence of events.
-- - Crc (zigbee_crc32.h): the checksum of images and of persisted data. Residue reads the
--   message as one number.
-- - Policy (zigbee_chip_layout.h, zigbee_firmware_target.h, zigbee_reset_policy.h,
--   zigbee_transport_mode.h): decisions by the chip, the role and the mode.
-- - Server (zigbee_tcp_server.h, zigbee_tcp_server.cpp): the TCP server. Client has the sockets of
--   its clients, Record its members, Maintenance the maintenance sessions, Handlers and Loop the
--   rest; Agreement, Steps and Run the agreement of the sockets with the state.
-- - Link (protocol.h): the exchanges with the radio, over a port that is the serial interface with a
--   clock. Port has the timed reads, Znp the frames, Loader and Commands the bootloader, Memory
--   and Reads its memory reads. Line is a line on which bytes arrive at a pace, and what is read of it.
-- - Firmware (zigbee_firmware_manager.h, zigbee_firmware_manager.cpp): an update of the radio, from its
--   start to its end. Parts has the partition and SHA-256 as parameters, Manager the members,
--   Staging the header of a staged image, Download the download task, Checking the check of the
--   image, Radio the task that writes the radio, Update the start, the results and the turns of the
--   main loop, Run the calls, turns and task steps in any order. Verified, Passing, Advance, Handling, Loading, Safety, History and
--   Reached follow what holds in each state.
-- The policy of Tcp decides which socket the pump of Stream serves; the pump's other end is the
-- UART behind the interface of Serial. Bsl, Ti and Crc serve the firmware update, Znp and Cache the
-- metadata.
--
-- A method that mutates an object returns the new record beside its result. A pointer is an Option,
-- none for null. Bytes and words are native numbers, with the wrap-around of the C++ type written
-- out. An array is the list of its bytes.
--
-- Fuel: the loop of a pump direction runs on 2 * 1024 + 2 turns, since a write takes at least a byte
-- of the budget of 1024 and a write follows each read; the loop that drains the UART runs on one
-- turn more than the bytes available, and the wait for a byte on one round more than its timeout in
-- milliseconds. bsl_read_bytes has one round for each byte that it is asked for, since a round reads at
-- least one. The waits of protocol.h that may pass over any number of bytes take their fuel as a
-- parameter. The attempts of znp_exec and bsl_exec are counted down, as the source counts them up
-- when there are at most 254.
--
-- Not modelled: sockets, UARTs and preferences of ESPHome (parameters where they are used), what the
-- gateway does when the server calls it (the calls are recorded, and their effect on the UART is a
-- parameter), the gateway but for its sniffer and the start and end of a local update, the NV scan of
-- protocol.h, and logs. Of the firmware manager, the catalogue and the selection of the target (the
-- entry that is selected is an argument) and HTTP (its events are arguments). In Run the task that
-- writes the radio may report any stage and end in any result.
pub mod Common
pub mod Tcp
pub mod Stream
pub mod Serial
pub mod Bsl
pub mod Ti
pub mod Znp
pub mod Cache
pub mod Crc
pub mod Policy
pub mod Firmware
pub mod Link
pub mod Server
pub mod Usb
