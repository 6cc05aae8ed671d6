-- ===== src/Lib.antt =====
-- A model of `raknet-rust`, a RakNet transport library, and what is proved of it.
--
-- A peer sends datagrams. A datagram carries frames, or ranges of sequence numbers that acknowledge
-- (ACK) or refuse (NACK) datagrams of the other side. A frame carries a payload, or one part of it, and
-- the indices that its reliability asks for. On arrival a session drops reliable frames that it has
-- seen, puts split payloads together, and holds ordered and sequenced frames back or drops them;
-- what comes before the session is connected waits in a pipeline. What arrives is acknowledged, and what
-- is missing is asked for, in ranges that wait in queues. What the application sends waits in a queue by
-- weight; a tick takes datagrams out of it as congestion and pacing allow, and keeps the reliable ones
-- until they are acknowledged, or sends them again. Before all that, two sides agree on an MTU
-- with packets outside of any session, and a limiter decides which addresses are heard.
--
-- The parts and their files:
-- - Common: names passed on from the libraries, `Result` with `Post` (what holds of a value, if there
--   is one), lists and maps over the native numbers; Common.Floats: the interface of `f64`.
-- - Protocol.Sequence24, src/protocol/sequence24.rs: the 24-bit numbers that wrap. A number is a ℕ,
--   `IsSeq` says that it is below 2 ^ 24.
-- - Protocol.Primitives, src/protocol/primitives.rs; Protocol.Reliability, reliability.rs;
--   Protocol.FrameHeader, frame_header.rs; Protocol.Ack, ack.rs; Protocol.Frame, frame.rs;
--   Protocol.Datagram, datagram.rs; Protocol.Connected, connected.rs: the codecs. `encode` returns the
--   bytes that `encode_raknet` appends, `decode` the value and the rest of the source, both with the
--   errors of src/error.rs (Protocol.Errors). A sub-step of a long function is a function of its own
--   (`encode_index`, `decode_split`), composed in the order of the source.
-- - Session.ReliableTracker, src/session/reliable_tracker.rs (`see`, `has_seen`);
--   Session.OrderingChannels, ordering_channels.rs (`handle_ordered`, `handle_sequenced`);
--   Session.SplitAssembler, split_assembler.rs (`add`, `prune`); Session.AckQueue, ack_queue.rs
--   (`push`, `pop_for_mtu`); Session.State, state.rs and `Session::transition_to`. Each operation takes
--   the state and returns the new one beside its answer.
-- - Session.AckFlow, Receive, Outgoing, Send, Congestion, Sent, Retransmit, Dispatch, Tick and Start,
--   src/session/mod.rs: the parts of `Session`, of which AckFlow, Receive (`Receiver`), Outgoing
--   (`Sender`), Congestion and Sent have a record of the fields that they read and write; `Session` of
--   Tick puts them together. AckFlow has `process_datagram_sequence` and
--   `drain_ack_datagram`; Receive has `ingest_datagram` and `handle_frames`, over the tracker, the
--   assembler, the ordering channels and AckFlow; Outgoing has
--   `enqueue_single_frame`, `enqueue_split_frames` and `next_weight`, and Send decides what is queued,
--   with `queue_payload_with_receipt` and `evaluate_backpressure`. Congestion has the window
--   (`on_reliable_ack`, `on_timeout`, `on_nack_loss`), the round-trip time and pacing; Sent the datagrams
--   in flight and their receipts (`track_sent_reliable_datagram`, `process_incoming_receipts` without
--   the queues it empties); Retransmit `collect_resendable`; Dispatch `pop_next_frame_for_datagram` and
--   `build_data_datagram`; Tick `on_tick`, flushing and keepalives; Start `with_tunables`.
-- - Session.Run: a session from its settings on, with any list of the calls that the transport makes of
--   it: `ingest_datagram`, `queue_payload_with_receipt`, `process_incoming_receipts` and `on_tick`.
-- - Session.Tunables, src/session/tunables.rs: the settings and their profiles, and `validate` (Checks).
-- - Handshake, src/handshake: the packets (Packets), their bytes in both directions (Encode, Decode),
--   and the second request, whose layout must be guessed (Request2).
-- - Transport.SessionPipeline, src/transport/session_pipeline.rs; Transport.RateLimiter,
--   src/transport/rate_limiter.rs, its windows, blocks and exceptions.
--
-- Parameters: Protocol.Buffers.BufInts is the layout of wide integers in the crate `bytes`, of which
-- only widths, ranges and reading back are used; Protocol.Datagram.DatagramFlags is the type that
-- `bitflags` generates, of which only `from_bits_truncate` on known bits is used.
-- Session.Send.SoftLimit is the part of a limit at which a queue defers, a product of floating-point
-- numbers, of which only that it lies between 1 and the limit is used. Common.Floats.Floats has the
-- operations of `f64`, and IsFloats the laws that are used of them: order, `max` and `clamp` on numbers,
-- and what they are on NaN. Session.Congestion.Seconds has the conversions between `Duration` and seconds.
-- Session.Dispatch.MinHeap is the choice that `BinaryHeap::pop` makes between entries of equal weight, of
-- which only that the weight is least is used. All have an instance for the tests. A byte is a ℕ, and
-- `IsByte` says that it is below 256.
--
-- Loops: `decode_frames` of a datagram runs on fuel, the length of the source; every frame takes at
-- least one byte. `release` of an ordering channel runs
-- on the number of the waiting frames and removes one in each round. `push_into` of the queue has two
-- rounds for a recursion that is at most two deep. The numbers missing before a datagram are fewer than
-- 2 ^ 23; `push_nacks` asks for them in ranges of 8192, so that 1024 rounds are enough, and
-- `extend_chunk` makes at most 8191 steps for one range. `enqueue_parts` runs on the number of the
-- parts. `pop_loop` and `fill` run on the number of the queued frames, of which they take one in each
-- round, `for_each_sequence` on 2 ^ 24, the number of all sequence numbers, and `send_new` on the limit of
-- new datagrams. All other loops go over a list.
--
-- Time is a number of nanoseconds, and a `HashMap` is a list in the order of its keys, of which nothing
-- depends on the order but that of the buffers that draining returns. The `BTreeMap` of sent datagrams is
-- a list in the order of `Sequence24`, and a `BinaryHeap` a list in any order. A panic of `clamp` while a
-- session is made is `none`; later its limits are those that were checked then.
--
-- Not modelled: of the session, the snapshot of its metrics and the zeroing of dropped buffers; the
-- processing budget of the rate limiter, which counts in floating point; the settings of the transport;
-- sockets, tasks, server, facades and telemetry, which call the modelled parts.
pub mod Common
pub mod Handshake
pub mod Protocol
pub mod Session
pub mod Transport
