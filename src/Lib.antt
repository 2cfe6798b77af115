-- ===== src/Lib.antt =====
-- The alsa-jockey3 driver for the Reloop Jockey 3 (a Ploytec USB audio device): its codec, its MIDI
-- paths, its PCM completion handlers and operations, its stream supervision and recovery, its power
-- management and its control protocol.
--
-- The application writes PCM frames into a ring buffer. The playback completion handler takes ten
-- frames for each 512-byte packet from it, encodes them, adds one MIDI byte and resubmits the URB;
-- the capture handler decodes eight frames of each packet into the other ring. A watchdog looks at
-- the clocks the handlers leave behind and, on a stall, restarts both rings and, if that does not
-- help, spends from a budget of resets. The rate and the interfaces are programmed by transfers on
-- endpoint 0; both directions share the rate, so that one may only change it while the other has no
-- claim on it.
--
--   Codec           ploytec_codec.c: the reference codec (Codec.Reference and its child), the tables
--                   and the optimised variants (Codec.Lut64, Codec.Lut32), the batch entry points
--                   (Codec.Batch). A `u8 *` is a function from the offset; a write through it gives
--                   the new function (Codec.Memory).
--   Midi            ploytec_midi.c: `ploytec_midi_running_status_expand` is `expand`
--                   (Midi.RunningStatus). jockey3.c: `jockey3_get_next_midi_out_byte` is
--                   `get_next_midi_out_byte` (Midi.Out), the rawmidi callbacks are in Midi.Ports,
--                   `jockey3_midi_in_callback` is `midi_in_callback` (Midi.Input).
--                   Midi.Receiver describes a MIDI receiver independently of the driver.
--   Stream          jockey3.c: the per-direction state (Stream.State), the batch loop through the
--                   ring (Stream.Walk) and the packets (Stream.Packet), URB errors (Stream.Errors),
--                   the completion handlers (Stream.Capture, Stream.Playback), `jockey3_pcm_set_n`
--                   (Stream.Sizing), the hardware tables and `jockey3_pcm_pointer`
--                   (Stream.Hardware). A handler is one function from the stream and the completed
--                   URB; it gives the stream after it, what it submitted, and the buffer.
--                   Stream.Zone has the critical sections of one direction as separate steps, in any
--                   order, with `jockey3_pcm_sync_stop`, which waits between them.
--   Recovery        jockey3.c: the reset budget (Recovery.Budget), the liveness checks
--                   (Recovery.Liveness) and the watchdog's timing (Recovery.Watchdog), on 64-bit
--                   clocks (Recovery.Clock).
--   Driver          jockey3.c: the operations on the state they share, a `World` (Driver.World: the
--                   chip, the MIDI OUT side, the device with the calls made, the queued work, the
--                   log), on a `Host` that stands for the kernel and the device. Driver.Ring:
--                   `jockey3_stop_urbs`, `jockey3_start_urbs`. Driver.Device: `jockey3_set_rate`,
--                   `jockey3_initialize_ploytec`. Driver.Power: the reset and power callbacks.
--                   Driver.Reset: the reset that the driver queues. Driver.Ladder: the wait for a
--                   stream, `jockey3_run_recovery_ladder`, `jockey3_recover_urb_stream`. Driver.Tick:
--                   `jockey3_watchdog_check`, `jockey3_watchdog_work`. Driver.Pcm: the PCM operations
--                   and the rate interlock. Driver.Disconnect: `jockey3_disconnect`. Driver.Frames and
--                   its child: what they leave alone.
--   Probe           jockey3.c: the card slots (Probe.Slots), the endpoints that a device must have
--                   (Probe.Endpoints), the memory that the chip's pointers own (Probe.Parts), the
--                   device's first start (Probe.Boot), `jockey3_probe`, `jockey3_free_resources` and
--                   the end of `jockey3_disconnect` (Probe.Bind). What is taken from the kernel and
--                   given back stands in a log of calls (Probe.Calls).
--   Proto           ploytec_proto.c: each function on a device that answers transfers, with a log of
--                   the calls (Proto.Session, Proto.Calls).
--   Errno, Prelude  error numbers; shared names, Boolean tests, bits and the ranged loop.
--   Tests           the theorems at concrete inputs.
--
-- Bounds and fuel. A w-bit value keeps its wrap-around written out; the counts of URBs in flight and
-- of threads in the safe zone stop at 0, below which the driver never takes them, since a handler
-- runs for a URB that was counted and leaves a zone that it entered. The batch loop of a packet runs
-- on fuel, one unit for each frame of the packet, and each batch moves at least one frame, so that
-- the fuel never ends the loop on a ring of whole frames (Stream.Walk). The wait for a stream runs
-- on twenty rounds for each millisecond of its timeout and one more, each round a nap of half a
-- millisecond or longer, so that with jiffies of 10 ms at most the deadline ends it first
-- (Driver.Ladder.Rounds). All other loops have counts.
--
-- Parameters. `snd_rawmidi_transmit` is an argument of the MIDI slots, the ALSA core's effect on
-- `running` an argument of the handlers, `usb_submit_urb`'s answer a field of the completed URB, the
-- device behind endpoint 0 an argument of the protocol, `ilog2` an argument of the sizing,
-- `bytes_to_frames` one of the pointer, and each clock reading an argument. The allocator and the
-- calls into the ALSA and usb cores that probe makes are fields of `Kernel` (Probe.State). For the
-- operations of Driver all of these, the calls that kill URBs, reset the port and constrain a
-- substream, and what happens while a thread sleeps are fields of `Host`. So are `jiffies`, which do
-- not wrap, and `msecs_to_jiffies`.
--
-- Not modelled. Two threads inside one operation of Driver at a time: each runs from entry to
-- return, except that URBs complete, and the device may go away or be suspended, while it sleeps; no
-- URB completes between the submits of one start. The completion handlers of Stream.Capture and
-- Stream.Playback run the same way; only Stream.Zone interleaves their critical sections, and leaves
-- out those in which the watchdog keeps its notes on a stall. The locks, whose effect that is. Log
-- messages, other than the lines on a stall. The work of another thread's ladder that .prepare waits
-- out, beyond its end. The card's names and channel maps, the tables of operations and of device
-- ids, and the registration of the module, which are data for the kernel.
pub mod Prelude
pub mod Driver
pub mod Probe
pub mod Errno
pub mod Codec
pub mod Midi
pub mod Stream
pub mod Recovery
pub mod Proto
pub mod Tests
