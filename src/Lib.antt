-- ===== src/Lib.antt =====
-- The WISP extended runtime (ERT) and the drivers under it: the buffers, queues and timers of wisp-base,
-- its serial port, accelerometer, converter and non-volatile memory, the wireless transmission protocol
-- (WTP) over the buffers, and the runtime with its RFID loop and file calls. The C code is under client/.
--
-- Parts, and where they are modelled:
--   Wio.Status    client/wisp-base/wio/defs.h: the status codes.
--   Wio.Buf       client/wisp-base/wio/buf.c, buf.h: `wio_buf_t`, a byte buffer with a read and a write
--                 cursor, which is also used as a ring of blocks.
--   Wio.Queue     client/wisp-base/wio/queue.c, queue.h: `wio_queue_t`, a circular queue of items.
--   Wio.Timer     client/wisp-base/wio/timer.c, timer.h: timers in a doubly linked list.
--   Wtp.Packet    client/wtp/wtp/defs.h: packet types, link states, events, parameters.
--   Wtp.Tx        client/wtp/wtp/transmission.c, transmission.h, `wtp_tx_ctrl_t`: control packets,
--                 messages cut into fragments, and (Wtp.Tx.Ack) acknowledgements.
--   Wtp.Rx        the same files, `wtp_rx_ctrl_t`: messages that have been declared (Wtp.Rx.Info),
--                 fragments that wait (Wtp.Rx.Fragments), assembly (Wtp.Rx.Assemble), and the
--                 handling of a packet (Wtp.Rx.Packet).
--   Wtp.Endpoint  client/wtp/wtp/endpoint.c, endpoint.h: `wtp_t`, with the packet handlers
--                 (Handlers), the block that the reader writes (Blockwrite), the memory that it
--                 reads (Load), checksums (Checksum), events (Events) and the calls of the
--                 program (Uplink).
--   Wtp.Link      the two controls together: fragments of one as packets for the other, and
--                 (Exchange) a message from one to the other with its acknowledgement.
--   Ert.Epc       client/wisp-ert/runtime/runtime.c: the EPC update of the RFID loop in `main`.
--   Base.Uart     client/wisp-base/wired/uart.c: `UART_SM`, its interrupt handler, and transfers by
--                 interrupts and (Polled) without.
--   Base.Spi      client/wisp-base/wired/spi.c: the port of the bus, and transactions.
--   Base.Accel    client/wisp-base/Sensors/accel.c, accel.h: the accelerometer's commands and samples.
--   Base.Fram     client/wisp-base/nvm/fram.c, fram.h: arrays in non-volatile memory, by address and
--                 (Segments) by information segment.
--   Base.Adc      client/wisp-base/Sensors/adc.c, adc.h: the converter's state and registers, and
--                 (Convert) voltages and temperatures of its readings.
--   Base.Rfid     client/wisp-base/RFID/interface.c, rfid.h, globals.h, internals/wisp-init.c: what C code
--                 and the RFID firmware share.
--   Base.Rand     client/wisp-base/rand/rand.c, client/run-once/main.c: random numbers and their table.
--   Base.Tick     client/wisp-base/Timing/timer.c: the interrupt behind the timers.
--   Ert.Setup     client/wisp-ert/runtime/runtime.c: the begin of `main`, up to the EPC.
--   Ert.Enter     the same file: `ert_enter_main`, which starts the user's routine.
--   Ert.Runtime   client/wisp-ert/runtime/runtime.c: the flags, set-up and RFID loop of `main`, the
--                 runtime's callbacks, and the user's routine that waits for a result.
--   Ert.Context   client/wisp-ert/posix/ucontext.c: `makecontext`.
--   Ert.Fs        client/wisp-ert/runtime/fs.c: the file calls over u-RPC, and their replies.
--   Common        what these share: tests on numbers, lists, machine words, copies in memory, and
--                 the monad of calls (Common.Effect).
--   Examples      runs on small inputs.
-- The endpoint owns the two controls and calls them; they own buffers and queues. The runtime takes
-- the packet buffer of the transmit control and copies its packets to the EPC memory, and hands blocks
-- and reads that the firmware reports to the endpoint. The accelerometer
-- takes the bus for each command; the serial port and the non-volatile memory stand alone.
--
-- State and operations. A struct is a record with the source's fields, a call is a function from the
-- state to an outcome: `done` for WIO_OK with what goes out through pointer arguments, `fail` for
-- another status with the state as it then is, `fault` for an access outside the memory or a division
-- by zero, `out_of_fuel` for a loop of the model that used up its fuel. `WIO_TRY` is the bind of do
-- blocks. Names are those of the C functions without their prefix.
--
-- Numbers. `int` has 16 bits on the MSP430: sums, differences and products of `uint16_t` wrap at
-- 2^16, those kept in a `uint8_t` at 2^8, and times at 2^32. Words are little-endian.
--
-- Memory. A buffer's bytes are a list from its pointer to the end of the object there. A pointer into
-- a buffer is an index, a pointer to a timer the timer's number, and NULL `none`. The queues hold
-- items instead of bytes. The fragments buffer of the receive control holds records under the index
-- where each was built; a record that a later one overlaps is no longer there, and a read of it is a
-- fault.
--
-- Fuel. The loops over linked lists, the EPC loop and the loop over a written block have fuel: one
-- more than the number of timers, of records, of the packet buffer's bytes, or of the block's bytes.
-- Each round of these loops visits another timer or record or takes at least a byte. The loops of the
-- polled serial port and of the bus have the number of bytes, and one more for the port. The wait for a
-- timer takes its fuel as an argument: the wait is for time to pass.
--
-- Devices. Interrupts of the serial port and readings of its flags are lists that the hardware gives; a
-- wait takes from its list, and runs out of fuel where the list ends. The set-up of a transfer is not
-- interrupted. What has been written to the transmit register is the list `wire`. The device on the bus
-- is a function that answers a byte and goes to a new state. The port of the bus stays in use while a
-- call waits for it, so that such a wait does not end. A register of the converter is a record of the
-- fields that the code sets; the bits of its header, its calibration words and what the hardware does
-- while a read waits are parameters. The non-volatile memory is a function from
-- addresses to bytes.
--
-- Parameters. `malloc` is a function from sizes to memory, and the sizes of types are numbers; the
-- RFID firmware is a call that may change the runtime's state, and the readings that random numbers are
-- made of are a function from their number; the
-- u-RPC library is a function from its state and a call to its next state, and in the callback of the
-- open event any call on the endpoint that gives a status; the closures of the file calls are cells that are freed once, and the callbacks of file calls are recorded and do nothing more. The
-- program's other callbacks are a function `invoke`, which may change the endpoint or the timers. While a
-- written block is handled, callbacks are taken not to write to that block. A wait ticks once a round.
--
-- Not modelled: functions that only free memory (`wio_queue_fini`, `wtp_tx_fini`, `wtp_rx_fini`,
-- `wtp_fini`), device registers of clocks, pins, conversions of the converter for random numbers and of
-- the bus, the RFID firmware in assembly, the set-up of the u-RPC library, the registers that
-- client/wisp-ert/posix saves and restores in assembly, the demo program and the Python server.
pub mod Common
pub mod Wio
pub mod Wtp
pub mod Ert
pub mod Base
pub mod Examples
