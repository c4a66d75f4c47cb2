-- ===== src/Lib.antt =====
-- A model of the TFTP stress-test harness: its packet codec (src/net/tftp_packet.cpp), its netascii
-- conversion (src/net/netascii.cpp) and its reference engine
-- (adapters/reference/tftp_reference_engine.cpp), the TFTP client and server that the tests run; the
-- impairment proxy between a client and a server (src/net/impairment_proxy.cpp) with the pipeline that
-- damages datagrams (src/net/impairments.cpp) and its generator (src/net/deterministic_prng.hpp); the packet
-- observer (src/verify/packet_observer.cpp), which counts what a proxy has seen of a transfer; the content
-- oracle (src/verify/content_oracle.cpp) with SHA-256 (src/verify/sha256.cpp), which compares what was
-- delivered with its source; and the JSON values of the metrics store (src/metrics/json_writer.cpp).
--
-- Parts. The engine reads requests and blocks with the codec, converts texts with the netascii functions,
-- negotiates options at both ends, and moves the payload with two loops, the windowed sender and the
-- windowed receiver, which share the rule that only the locked peer is listened to. The proxy parses each
-- datagram with the codec, asks the pipeline what becomes of it, schedules what the pipeline delivers and
-- writes a record, which the observer reads. The oracle hashes the source, for a text transfer in the form
-- that the netascii functions leave of it.
--   Common           numbers and their tests, lists, texts, `std::to_string` and `std::stoul`
--   Packet           TftpPacket; Compare: names; Serialize and Parse: the wire format; RoundTrip,
--                    Message, Canonical, Total: its laws; Describe: describe_packet
--   Netascii         both conversions; Laws
--   Engine           endpoints, receptions, configuration, outcomes, and the steps of a loop
--   Engine/Blocks    block_payload, total_block_count, wire_block_number
--   Engine/Resolve   resolve_ack_to_absolute, resolve_data_to_absolute
--   Engine/Receive   receive_from_locked_peer
--   Engine/Sender    run_data_sender; Window, Completes, Patience, Strangers, Honest: its
--                    laws
--   Engine/Receiver  run_data_receiver; Accept, Honest, Completes, Patience: its laws
--   Engine/Transfer  both loops on an unreliable network; Delivery: what arrives; Channel: the
--                    abstract transfer that they implement
--   Engine/Options   build_requested_option_list, apply_oack_to_client, negotiate_server_options; Laws,
--                    Agree; Verdict: what a list of options in an OACK leads to
--   Engine/Client    ReferenceClient::read_file, and write_file in Upload; Patience; Oack: an
--                    OACK that the client cannot apply
--   Engine/Server    ReferenceServer::handle_request, resolve_served_path, and what accept_loop lets
--                    through; Requests
--   Observer         observe; Counts: its DATA counters
--   Double           what the code asks of a `double`
--   Prng             DeterministicPrng; Bernoulli: the draws through a `double`; Range: the range draw
--   Impairments      ImpairmentPipeline; Laws, Off
--   Proxy            the records and tables of ImpairmentProxy; Relay: observe_and_relay, run_injection and a
--                    round of relay_loop; Injection, Laws, Sessions
--   Sha256           Sha256, sha256_digest, sha256_hex; Stream, Digest: its laws; Fips: the standard
--                    FIPS 180-4, written from its text; Agree, Hex: the code computes it
--   Oracle           compare_bytes, compare_files; Laws
--   Json             JsonValue, serialize; Parse: parse_json; Escapes, Whole, Exact, Pieces, RoundTrip,
--                    Within, Ends: its laws
--
-- State and operations. A loop of the source that blocks in a receive is a function from its variables and
-- from what the receive returns to what it sends, its variables at the next receive, and its outcome where
-- it returns: `sender_on_reception`, `receiver_on_reception`. A whole call is the fold of that function over
-- a list of receptions. Bytes are numbers, texts are lists of bytes, counters and indices wrap where the
-- source's types do: 16 bits for block numbers, 32 for indices, 64 for sizes. A division by zero and an
-- uncaught exception are results of their own. `int` counters of attempts and timeouts do not overflow here.
--
-- The network of Engine/Transfer is the list of all datagrams that one end has sent to the other. Any of
-- them can arrive at any time, any number of times or never, but unchanged; timeouts, failures and datagrams
-- of others come at any time.
--
-- The state of the proxy is its sessions, the count of its stray sockets, what is scheduled, the state of the
-- pipeline and the trace. A session and a stray socket are named by their place, and a round of the loop gets
-- what each socket has received. The state of the generator goes through every draw. A text that the JSON
-- parser has not read yet stands for the text and the position.
--
-- Rounds. The option loop of the parser has one round for each byte that is left, and each round takes two
-- bytes at least. The searches for an index have as many rounds as the source's loops. The loop around a
-- request has one round more than the retransmissions that the configuration allows. The rejection loop of
-- the range draw has 2 ^ 64 rounds, one for each state of the generator. The padding loop of SHA-256 has 64.
-- The JSON parser has two units of fuel for each character and two more: a value reads a character, and an
-- array or an object takes one unit more around each of its values.
--
-- The file system that a server or a client sees is one that nothing else changes during a call, and a file
-- that cannot be written is left as it was.
--
-- Parameters are the file system, the opening of a socket and all that it receives, the ports of sockets, the
-- clock, the injection script, and `double` with what <cmath>, <cstdio>, `std::stod` and the casts do to it.
-- One reading of the clock stands for those that the proxy takes in a round of its loop. Not modelled:
-- threads, the polling of the accept loop, `select` and the last flush of the proxy, the metrics store, the
-- fixtures, reports, the runner with its registry, the adapters of other programs and the command lines.
pub mod Common
pub mod Packet
pub mod Netascii
pub mod Engine
pub mod Observer
pub mod Prng
pub mod Sha256
pub mod Json
pub mod Double
pub mod Impairments
pub mod Proxy
pub mod Oracle
