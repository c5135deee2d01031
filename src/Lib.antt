-- ===== src/Lib.antt =====
-- The core of leshiy, a tunnel that looks like ordinary HTTPS: the plaintext frame, the sealed
-- session, the negotiation at its start, ICMP echo relaying, the stream multiplexer, and, on the
-- server's accept path, the authentication of a ClientHello, the handshake that follows and the
-- guards behind it; then the desktop client's supervisor and split tunnelling, and the plan of
-- routes.
--
-- How the parts interact. A peer seals each frame (Core/Frame) into the byte stream of one
-- connection (Core/Session). The first frame each way is a HELLO (Core/Version), from which both
-- compute what they have agreed on. After that the multiplexer (Core/Mux) carries logical streams:
-- OPEN, DATA, DATAGRAM, WINDOW UPDATE and CLOSE frames. An ICMP stream carries echo messages
-- (Core/Icmp). Before any of this the client seals its short id and time into the session id of a
-- ClientHello, from which the server recognises it (Reality/Auth); the server asks the replay guard
-- (Reality/Replay) about it, and both ends complete a TLS 1.3 handshake in which the server's
-- certificate proves the same key (Reality/Handshake).
--
-- Files and sources.
--   Core/Error           crates/leshiy-core/src/error.rs
--   Core/Frame           crates/leshiy-core/src/frame.rs: encode, decode, is_critical, base_type
--   Core/Session         crates/leshiy-core/src/session.rs: read_sealed, write_sealed, send_frame,
--                        recv_frame; send_all and recv_all repeat the last two
--   Core/Version         crates/leshiy-core/src/version.rs: Hello, negotiate, clamp_idle_tolerance
--   Core/Icmp            crates/leshiy-core/src/icmp.rs: the echo header, checksum, v6_checksum
--   Core/Mux             crates/leshiy-core/src/mux.rs: sinks, send windows, Stream::recv
--   Core/Mux/Sender      the same file: Stream::send, parse_open_target, Mux::open and its two kin
--   Core/Mux/Reader      the same file: the reader's loop body (on_frame) and its teardown
--   Core/Mux/Flow        one stream's credit across both peers, as a step relation; Core/Mux/Progress
--   Reality/Replay       crates/leshiy-reality/src/replay.rs: check_and_record
--   Reality/ConnLimit    crates/leshiy-reality/src/connlimit.rs: try_acquire, the guard's drop, bucket
--   Reality/User         crates/leshiy-reality/src/user.rs: the in-memory store, its checks and its admin
--   Reality/Netguard     crates/leshiy-reality/src/netguard.rs: canonical_ip, check_ip
--   Tls/Record           crates/leshiy-tls/src/record.rs: Record::encode, Record::decode, read_record
--   Tls/Messages         crates/leshiy-tls/src/tls13/messages.rs: every builder and parser
--   Tls/Protected        crates/leshiy-tls/src/tls13/record.rs: seal_record, open_record
--   Tls/Suite            crates/leshiy-tls/src/tls13/suite.rs: CipherSuite, Transcript
--   Tls/Schedule         crates/leshiy-tls/src/tls13/kdf.rs and schedule.rs
--   Tls/Camouflage       crates/leshiy-tls/src/camouflage.rs: GREASE, the extension order, GREASE-ECH
--   Tls/Parser           crates/leshiy-tls/src/ja.rs: Parser
--   Tls/ClientHello      the same file: extract_client_hello_fields
--   Tls/Ja               the same file: ClientHelloView::parse, ja3, ja4, ja4_r
--   Tls/Fingerprint      crates/leshiy-tls/src/fingerprint.rs: Profile and the profiles that ship
--   Tls/Builder          crates/leshiy-tls/src/client_hello.rs: build_client_hello_with_entropy
--   Reality/Auth         crates/leshiy-reality/src/auth.rs; server.rs: classify_full; client.rs: the
--                        sealing in build_authed_client_hello
--   Reality/Client       crates/leshiy-reality/src/client.rs: build_authed_client_hello
--   Reality/Handshake    crates/leshiy-reality/src/handshake.rs: server_handshake, client_handshake and
--                        ServerHandshake::finish; crates/leshiy-tls/src/tls13/mlkem.rs
--   Reality/AcceptLoop   crates/leshiy-reality/src/acceptloop.rs: AcceptBackoff
--   Client/Supervisor    crates/leshiy-client/src/supervisor.rs: Machine::handle, backoff_delay
--   Client/Runtime       crates/leshiy-client/src/runtime.rs: the actor around the machine, as steps
--   Client/SplitTunnel   crates/leshiy-client/src/split_tunnel.rs: rule lists, SplitPlan and effective
--   Tun/RoutePlan        crates/leshiy-tun/src/route_plan.rs: from_split; Kernel is a routing table
--   Prelude              tests, lists and maps over the native numbers, bytes, laws of bit_and
-- Each part's theorems stand in the modules below it, its runs and instances in its module Tests.
--
-- Conventions. A byte is a number below 256 and a buffer a list of them; the widths of integers are
-- hypotheses (IsFrame, IsHello) or written out as remainders. An error keeps the case that made its
-- text. A function that changes an object in place returns the new one; one that a mutex or an
-- atomic protects is one step. A task that would wait on a semaphore or an empty channel is a value
-- of its own (waits, none), and the step relation of Core/Mux/Flow leaves open which of the two
-- peers moves.
--
-- Fuel. fold_loop has three rounds, of which a u32 needs two; split_chunks has one round for each
-- byte, and each round takes at least one. So have the loops of the TLS parsers and of expand. The
-- theorems about all of them are for every input.
--
-- Parameters. The cipher (snow) is the record Noise with the law that a paired state opens what the
-- other sealed; X25519, HKDF and AES-GCM are the record Crypto, its laws IsCrypto; the suites'
-- ciphers are the record Aead with IsAead; those, HKDF and HMAC are the record Primitives, to which
-- the record Toolkit adds ML-KEM, Ed25519 and HMAC-SHA512, with the laws IsToolkit; SHA-256 and MD5
-- are functions, and what the client draws at random is the record Draws; from_utf8_lossy, the
-- clocks and the equality of replay keys are arguments; so are the standard library's parsers of
-- addresses and numbers in Client/SplitTunnel (the record Text), and the answers of sockets and of
-- the system proxy in Client/Runtime.
--
-- Not modelled. The Noise handshake, the generation of the server's certificate, the writer,
-- keepalive and watchdog tasks, the bound of the command and accept queues (a full queue only delays
-- its sender), the tokens of a rate-limiting bucket, and all of the QUIC transport, the TUN engine,
-- provisioning and user-interface code. A CLOSE or an OPEN moves a sink out of the map into the list
-- of detached ones, which a Stream may still hold.
pub mod Prelude
pub mod Client
pub mod Core
pub mod Reality
pub mod Tls
pub mod Tun
