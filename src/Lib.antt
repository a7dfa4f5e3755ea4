-- ===== src/Lib.antt =====
-- TrainUtils: libraries for model railways. This development is about its C libraries: DCC, the
-- decoder of the track signal, LocoNetCommunications, the LocoNet bus, CabBusCommunications, the bus
-- of hand-held cabs, and LCC, the bus of that name.
--
-- DCC. An interrupt gives the decoder (DCC/dcc-decoder.c) the times between edges of the track
-- signal; it makes bits of them, bits become packets, and `dcc_decoder_pump_packet` hands a packet
-- with the right check byte to a callback and to the parser (DCC/dcc-packet-parser.c), which calls
-- back for speeds and accessories.
--   Dcc/Decoder.antt  the decoder: `struct dcc_decoder` is `Decoder`, each function has its name
--     without the prefix `dcc_decoder_`, and the branches of `dcc_decoder_process_whole_bit` are
--     `data_bit`, `start_bit` and `finish_packet`. Invariant, Receive, Preamble, Packet, Checksum and
--     Signal below it hold the proofs; Receive also the bits of a packet.
--   Dcc/Parser.antt  the parser; Accessory, Speed and Setup below it hold the proofs.
--
-- LocoNetCommunications. The bytes of the bus come in one by one at a context
-- (loconet_buffer.c), `loconet_context_process` takes messages out of them for a callback, and
-- `loconet_context_write_message` sends messages. Turnouts (loconet_turnout.c), sensors
-- (loconet_sensor.c) and throttles (loconet_throttle.c) read the messages that come in and write
-- their own.
--   LocoNet/Context.antt  `struct loconet_context`, its timer and its incoming bytes.
--   LocoNet/Process.antt  `loconet_context_process`: `round` is one round of its loop, with the
--     local variables `message` and `checksum` carried along in `Loop`. Termination, Total and
--     Messages below it hold the proofs.
--   LocoNet/Write.antt  `loconet_context_write_message`; Wire below it holds the proofs.
--   LocoNet/Turnout.antt  the turnout and the sensor managers; Cache, Request and Sensor below it hold
--     the proofs.
--   LocoNet/Throttle.antt  the throttle; Select below it holds the proofs.
--
-- CabBusCommunications. A bus (`struct cabbus_context`, CabBus.c) polls its cabs one after another:
-- `cabbus_ping_step1` chooses an address and pings it, an interrupt brings the two bytes of the answer,
-- and `cabbus_ping_step2` gives the key to the cab (cabbus_cab.c), which leaves a command for the
-- client, and sends one quarter of the display. Functions keep their names without `cabbus_` and
-- `cabbus_cab_`.
--   CabBus/Text.antt  the texts and what `snprintf` makes of the formats in use.
--   CabBus/Cab.antt  `struct cabbus_cab` and what a client sets on it.
--   CabBus/Screens.antt  `cabbus_cab_output_dirty_screens`; CabBus/Keys.antt
--     `cabbus_cab_process_button_press` and its handlers.
--   CabBus/Bus.antt  the bus. The wait for the second byte has the bytes of the interrupt as a
--     parameter; the search for an address has fuel 64, the number of addresses.
--   CabBus/Flags.antt, Display.antt, Settled.antt, Changes.antt, Poll.antt, Typing.antt, Select.antt,
--     Accessory.antt, Switch.antt, Polling.antt, Invariant.antt and Answer.antt hold the proofs: the
--     byte of flags, the display, typed numbers, the polling, and the invariant.
--
-- LCC. A node (`struct lcc_context`, LCC/lcc.c) tries an alias with four CID frames, claims it when
-- nobody objected, and then takes part in the traffic: a frame that comes in is a control frame, or
-- goes to the handler of messages to all nodes, of messages to one node, or of datagrams. Functions
-- keep their names without the prefix `lcc_`.
--   Lcc/Frame.antt  LCC/lcc-common-internal.c: frames, and node and event identifiers in their data;
--     Bytes and Fields below it hold the proofs.
--   Lcc/EventList.antt  LCC/lcc-common-internal.c: `struct event_list`; Sort and Laws hold the proofs.
--   Lcc/Event.antt  LCC/lcc-event.c: the events of a node, with the calls that change them in
--     `event_call`, and the events of accessories; Invariant and Accessory hold the proofs.
--   Lcc/Node.antt  `struct lcc_context`, its setters, and how frames are written.
--   Lcc/Context.antt  LCC/lcc.c: the generation and the claim of an alias, and an incoming frame up
--     to the handler that gets it. Alias, Invariant and Collision below it hold the proofs.
--   Lcc/Whole.antt  an incoming frame with all handlers: `Station` is a node with what its context points
--     to; Others below it holds the proofs.
--   Lcc/Simple.antt and Lcc/Addressed.antt  LCC/lcc-simple.c and LCC/lcc-addressed.c: messages to all
--     nodes and to one node; Report and Info hold the proofs.
--   Lcc/Datagram.antt  LCC/lcc-datagram.c: sending; Incoming below it the handler. The contexts for
--     memory are its parameter `Handlers`. Copying, Buffer, Fragments, Delivery and Answers hold the proofs.
--   Lcc/Memory.antt  LCC/lcc-memory.c: the replies; Incoming below it the messages that come in, a
--     handler for datagrams. OnDemand, Read, Exchange and Stored hold the proofs.
--   Lcc/Cdi.antt  LCC/lcc-cdi-control.c: a configuration description that is made on demand. The functions
--     that print give the texts that they append, in order; `append_strings` cuts them into calls of the
--     callback. Chunks, Bytes and Offset below it hold the proofs; Lcc/Memory/Made.antt has the reads of it.
--   Lcc/Remote.antt  LCC/lcc-remote-memory.c: requests to the memory of other nodes; Answers, Replies,
--     Requests, Heard and Waiting below it hold the proofs.
--   Lcc/MemoryMap.antt  LCC/lcc-memory-map.c: spaces of memory that are arrays, a client of the memory
--     protocol; Stored and Served below it hold the proofs.
--   Lcc/Clock.antt  LCC/lcc-clock.c: events that report a time; Round below it holds the proofs.
--   Lcc/Firmware.antt  LCC/lcc-firmware-upgrade.c, called by the messages of the memory protocol; Write
--     holds the proofs.
--   Lcc/Gridconnect.antt  LCC/lcc-gridconnect.c: frames as text; Hex, Text, Stream and Frames hold the
--     proofs.
--
-- Common.antt has what these share: tests, lists and words over the native numbers, bitwise
-- arithmetic, exclusive or, and proofs by a run over a table. The files named Examples apply the
-- theorems to concrete runs.
--
-- A function pointer of a client is a flag that it is not NULL, and a call of it is an event of the
-- result, in the order of the calls; where the code uses what it returns, it is a function. A pointer
-- that the code tests for NULL is an `Option` where the test is modelled. Bytes and indices are
-- numbers, with `% 2 ^ 8` where the code would wrap. An access outside an array is an outcome of its
-- own, or is said where it may happen.
--
-- The loop of `loconet_context_process` runs on fuel, `running` when it is used up: with more fuel
-- than the buffer has bytes it ends on every buffer that does not hold 0xFF before 0, and the
-- theorems on messages give it two or four rounds. `discard`, the loop inside it, has one step for
-- each byte in the buffer. The two loops that wait for an interrupt are parameters of the writing
-- functions.
--
-- Not modelled: what a client's callback does to the object that calls it; text output, of
-- LocoNetCommunications/loconet_print.c and LCC/lcc-print.c; in LCC/, train control, whose functions are
-- mostly empty, the list of other nodes, which is kept for display, and the builds for small targets;
-- the programs that join CabBus to LocoNet, which drive hardware and use names that the repository does
-- not declare any more; the graphical program in GUI/, in C++; the tools, examples and tests.
pub mod Common
pub mod CabBus
pub mod Dcc
pub mod LocoNet
pub mod Lcc
