-- ===== src/Lib.antt =====
-- A verification library for lidi, which sends TCP and Unix streams through a one-way network link (a
-- data diode) as UDP packets with forward error correction.
--
-- The sender cuts each client's stream into blocks (src/send/client.rs, run by src/send/server.rs),
-- numbers them (src/send/ordering.rs), codes them into packets in parallel (src/send/encoding.rs)
-- and sends the packets (src/send/udp.rs, src/udp.rs). The receiver collects packets by block
-- number (src/receive/reblock.rs), decodes in parallel (src/receive/decode.rs), hands each block
-- to its client (src/receive/dispatch.rs), whose worker writes the stream (src/receive/client.rs).
-- On top of these streams src/aux/file/ moves files and src/aux/udp/ moves datagrams. The workers
-- talk through channels, which are lists here: what a worker receives is an argument, and what it
-- sends is a part of its result or of its state.
--
--   * Prelude: bytes and little-endian integers, Rust's indexing, `Outcome` (a value, an error or a
--     panic), maps as association lists, lists over the native numbers.
--   * Stream: `io::Read` and `io::Write`. A schedule chooses how much each read returns and whether
--     it fails; `read`, `read_exact`, `write_all` and `flush` follow their documentation.
--   * Protocol: src/protocol.rs. `Protocol.RaptorQ` has `new`, `encode`, `decode` and the sizes,
--     `Protocol.Block` has `new` and the readers. `Protocol.Crate` is the interface of the
--     raptorq crate and the laws that are assumed of it; `Examples.Crate` has an instance.
--   * Send: src/send/. `Send.Client.run`, `Send.Server.start`, `Send.Ordering.start` and
--     `Send.Udp.start` are the functions `start` of their files; the threads of encoding.rs are the
--     step relation `Send.Encoding.Step`, and those of server.rs and heartbeat.rs side by side
--     `Send.Parallel.Step`.
--   * Receive: src/receive/. `Receive.Reblock.run`, `Receive.Dispatch.run` and `Receive.Client.run`
--     are the functions `start` of their files; the threads of decode.rs are the step relation
--     `Receive.Decode.Step`. `Receive.Clients` has the workers of clients.rs and of udp.rs,
--     and `Receive.Parallel.Step` is that of clients.rs in several threads. What the clients' workers
--     do to their channels between the rounds of the dispatcher are events of `Receive.Dispatch.run`.
--   * Diode: src/aux/mod.rs, the kinds of sockets on either side of the link.
--   * Udp: src/udp.rs. `Udp.send` and `Udp.recv` are over a socket that records what the kernel took.
--     Below them are the structures of libc, with pointers as places: `Udp.Address` and
--     `Udp.Messages` build and send messages, `Udp.Buffers` receives into buffers. The kernel is a
--     parameter (`Udp.Kernel`), with what its manual says as laws; `Examples.Kernel` has an instance.
--     `Udp.Options` has the sizes of buffers of src/sock_utils.rs.
--   * File: src/aux/file/. `File.Framing` has the header and the footer, `File.Send.send_file_aux` and
--     `File.Receive.receive_file` move one file, `File.Sessions` has the loops over files and
--     connections and `File.Listen` the listeners. The file system and the hash are parameters.
--   * Tunnel: src/aux/udp/. `Tunnel.send_udp_aux` and `Tunnel.receive_udp` are its two loops,
--     `Tunnel.Sessions` has the sockets and the loop over clients.
--   * Turn: block numbers, which wrap at 256, for the workers that wait for their turn.
--   * Threads: spawning in a scope, on cores. `Send.Sender` and `Receive.Receiver` have the functions
--     `new` and `start` of src/send/mod.rs and src/receive/mod.rs, and the channel to the servers.
--   * Programs: the functions `main` of the programs in src/bin/, a module for each, from their parsed
--     arguments. `Programs.Files` joins diode-send-file to diode-receive-file, and
--     `Programs.Datagrams` diode-send-udp to diode-receive-udp.
--   * Bindings: diode-file-bindings/src/lib.rs.
--   * Pipeline: the workers joined by their channels and by a link that loses nothing, or, in
--     `Pipeline.Losses`, some datagrams. `Pipeline.Servers` follows a client among those served side
--     by side, `Pipeline.Arrives` blocks from the encoders of the sender to the dispatcher of the
--     receiver, `Pipeline.Streams` and `Pipeline.Serves` a client's stream from end to end, and
--     `Pipeline.Breaks` a client whose reads fail.
--   * Examples: the theorems at concrete inputs.
--
-- Machine integers are natural numbers with their wrap-around written out; a block number is below
-- 256, a client number below 2^32. Loops over a stream have fuel: each round but the last takes a
-- byte, or in Tunnel a header, so one round more than bytes is enough. The loop of reblock.rs that
-- emits blocks has 128 rounds, since at most 127 slots of its window hold packets.
--
-- Not modelled: logging and the hashes that are only logged, conversions between error types and
-- their texts, and the parsing of arguments, which only report or are the work of other crates; the
-- write of the counter of the decoders by a reset that comes while they hold blocks; and the datagrams
-- that a failing call has sent, since the worker then ends. Which packets besides the source packets
-- are enough to decode is no documented promise of the crate: where datagrams are lost, that the
-- others can be decoded is a hypothesis.
pub mod Prelude
pub mod Protocol
pub mod Stream
pub mod Turn
pub mod Udp
pub mod Diode
pub mod Threads
pub mod Send
pub mod Receive
pub mod File
pub mod Tunnel
pub mod Programs
pub mod Bindings
pub mod Pipeline
pub mod Examples
