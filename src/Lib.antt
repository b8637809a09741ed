-- ===== src/Lib.antt =====
-- A model of the core of libosdp, the C implementation of the Open Supervised Device Protocol (OSDP)
-- between a control panel (CP) and its peripheral devices (PD), and proofs about it.
--
-- The program: bytes that the channel gives go into a ring buffer (RingBuffer); the packet layer
-- (Phy) frames them, checks CRC or checksum, address and sequence number, and decodes the packet,
-- with the secure channel (SecureChannel) for the MAC and the encrypted data block. The CP and PD state
-- machines above it act on commands and replies; transfers that do not fit in one packet go through
-- the multi-part engine (Multipart). Each step is counted (Metrics).
--
-- Which file models what:
--   Common: shared names, lists measured by native numbers, Boolean tests, integers.
--   Bytes: the field codec of src/osdp_common.h (bread_*, bwrite_*, BYTE_n).
--   RingBuffer: osdp_rb_* of src/osdp_common.c; `struct osdp_rb` is a record of two indices and a list.
--   Metrics: src/osdp_metrics.c; a saturating uint32_t counter for each event.
--   Multipart: src/osdp_multipart.c. Header is the fragment header, Buffer the bound-buffer data plane,
--     Lifecycle the start, cancel and finish calls, Tx the sender, Rx the receiver, and Transfer two
--     engines joined back to back.
--   Device: the part of `struct osdp_pd` (src/osdp_common.h) that the layers below work on.
--   Crypto: AES as a parameter, with the laws that the code relies on.
--   SecureChannel: src/osdp_sc.c; keys, cryptograms, the MAC chain and the data block.
--   Phy: src/osdp_phy.c. Sequence, Checksum, Build (packet_init, finalize_packet, send_packet), Header
--     (phy_validate_header), Framer (osdp_channel_receive, phy_rescan_packet_buf, phy_check_header and
--     the collecting of osdp_phy_check_packet), Check (phy_check_packet) and Decode
--     (osdp_phy_decode_packet, osdp_phy_state_reset).
--   File: src/osdp_file.c over Multipart. Sender and Receiver are the two ends of a transfer, Control what
--     the application and the scheduler call, Status the reply, and Lifetime the sequences of calls. The
--     application's file operations are functions over a state of its own. A reset of the transfer clears
--     the engine, while the events that the application was told of stay recorded.
--   Cp: src/osdp_cp.c for one PD, in a build without OPT_BUILD_OSDP_TRS. Online is the choice of a command
--     and the check of its reply, Link the life of a command on the bus (cp_phy_state_update), Machine the
--     transition tables and their effects, Update one pass of the refresh loop (state_update), Control what
--     the application calls, Build the data blocks of the commands (cp_build_command); Flush, Timing and
--     Retry hold proofs about them. `Layers` is the interface to what the state machine calls: the packet
--     layer, the builder of commands, the decoder of replies and the feature engines. Secured states, as
--     laws, what it relies on, and follows the state machine through any sequence of passes and calls.
--     Handshake is the reading of the two replies of the secure channel's handshake.
--   Pd: src/osdp_pd.c. Pd.antt itself is the reading of the commands for the application; RoundTrip and Built
--     join it to Cp/Build. Event is `struct osdp_event` and which reply carries it. Peripheral is the
--     PD's own part of `struct osdp_pd` with the application as a function `App` over all calls made to
--     it so far: the callbacks, the checks before them, osdp_pd_submit_event and the completion of an
--     event. Engines is the interface to file transfer, PIV, biometrics and transparent mode. Status is
--     the status reply built while a command is decoded. Dispatch and Decode are pd_decode_command, with
--     the handshake in Decode/Session and the engines' commands in Decode/Exchange. Reply is
--     pd_build_reply with the packet around it, with the data of the replies in Reply/Data. Update is
--     osdp_pd_update and osdp_pd_flush_events. Of the proofs, Enforced is about a PD that insists on a
--     secure channel, Ledger follows the events of a PD through any sequence of passes and submissions,
--     and of flushes while no reply waits to be sent, Records is about the commands with several records, and Handshake about the secure channel
--     between Cp and Pd, message by message, and a replayed one. Three fields of Peripheral that the code
--     does not have (calls, accepted, completed) record what the application was told and gave.
--
-- The application's completion callbacks (osdp_cp_set_command_completion_callback and its counterpart of a
-- PD) are functions, in the records of the two state machines, from what was given back before to the commands
-- or events that the callback submits. A file transfer started or a queue flushed from inside of such a
-- callback is left out. `opens` and `closes` of File, like the three fields of Peripheral, are not in the code:
-- they count the application's open and close calls.
--
-- How C is read: a pointer into a buffer is an index, or the list from there on; what a function
-- updates through a pointer, it returns. A negative error code is a constructor of an error type or
-- `none`. Unsigned arithmetic wraps by an explicit `%`. A read past the end of a list gives 0 and a
-- write past it changes nothing: the source leaves both undefined.
--
-- Loops and fuel: the search for a packet's start runs on the size of the ring, which holds fewer
-- bytes than that; the loop of exchanges between two multi-part engines runs on fuel, and the number
-- of bytes left is enough. All other loops are structural.
--
-- Not modelled: of src/osdp_pd.c the setup and teardown, osdp_pd_set_capabilities, and what lies behind
-- the interface Engines; of src/osdp_cp.c the marking of a command's security block in an open
-- channel, the fragments of transfers in
-- it, the decoder of replies other than those of the handshake, setup and teardown, osdp_cp_modify_flag
-- and the refresh over several PDs; PIV, biometrics and transparent mode (src/osdp_piv.c, src/osdp_bio.c,
-- src/osdp_trs.c), the packet and data traces, zero-copy receive, the cryptography libraries, CRC-16 and the other helpers of the utils submodule, logging, and the
-- bindings for other languages. The channel is modelled by the bytes and results that it returns.
pub mod Common
pub mod Bytes
pub mod RingBuffer
pub mod Metrics
pub mod Multipart
pub mod Device
pub mod Crypto
pub mod SecureChannel
pub mod Phy
pub mod File
pub mod Cp
pub mod Pd
