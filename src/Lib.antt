-- ===== src/Lib.antt =====
-- Verification of SecureMailScope's passive analysis core: from the payload of TCP packets to the
-- TLS records and handshake messages that they carry, and the score over the rules' outcomes.
--
-- Packets reach the session engine of src/securemailscope/network/sessions.py, which files each with
-- a connection of its flow key (network/flows.py). A connection hands it to the reassembler of its
-- direction, network/reassembly.py, which
-- projects 32-bit sequence numbers (network/seqspace.py), stores bytes by extended sequence number
-- under two shared byte budgets (network/budget.py), and yields runs of bytes and the gaps between
-- them. src/securemailscope/protocols/reader.py gives a bounded view over the runs; tls/records.py
-- frames records over that view with the header test of protocols/framing.py; tls/handshake.py
-- joins the record bodies, splits the messages and parses their bodies with the reader of
-- tls/wire.py, and tls/extensions.py parses the extension blocks of the hellos. protocols/smtp.py
-- reads the two directions of a mail dialogue in the order of their packets, on the shared parts of
-- protocols/base.py, and says what became of a STARTTLS upgrade.
--
-- All paths are below src/securemailscope. Files, each about the source of the same place:
--   Base                     numbers, integers, lists and the tests on them
--   Evidence                 models/evidence.py: packet references, statuses, warning codes
--   Network.SequenceSpace    SequenceSpace: project, extend, to_sequence
--   Network.ByteBudget       ByteBudget: remaining, take
--   Network.Flows            normalize and FlowKey
--   Network.Reassembly       DirectionalReassembler. Intervals is the interval store with
--                            _overlapping and _insert_interval, Walk the loop of _insert over the
--                            overlaps, Limits _grant and the spending of the grant, Directional
--                            the state with observe, note_peer_ack, _insert (Insert), payload_runs,
--                            _base_ext and _build_gaps (Results), finalize (Finalize)
--   Network.Sessions         _SessionState with observe (Observe) and finalize (Finalize), _assign_roles
--                            (Roles), TCPSessionEngine with observe and _create (Engine), its finalize
--                            and payload_runs (Engine.Report)
--   Protocols.Buffer         PacketIndex and DirectionalBuffer of protocols/reader.py
--   Protocols.Cursor         StreamLine, StreamCursor and merge_span of protocols/reader.py
--   Protocols.Dialogue       DialogueDriver of protocols/reader.py
--   Protocols.Redaction      the redaction of command lines in protocols/base.py
--   Protocols.Parser         the state and the shared steps of the parsers of protocols/base.py
--   Protocols.Smtp           SmtpParser of protocols/smtp.py: Client has the lines of the client, Server
--                            the replies and the outcome of the upgrade, Run the loop over both
--   Protocols.Framing        classify_record_header, identify_handshake, _grade; Probe is
--                            probe_tls_records
--   Tls.Wire                 ByteReader; a method is a state monad that may fail
--   Tls.Loop                 the shape `while reader.remaining >= n:` and its rules
--   Tls.Records              parse_records
--   Tls.Extensions           parse_extensions, _dispatch and the parsers of single extensions
--   Tls.Handshake            HandshakeStream, parse_messages and the parsers of message bodies
--   Assessment.Scoring       compute_score of assessment/scoring.py
--   Tests                    theorems at concrete inputs
--
-- State is passed explicitly: a method that changes its object is a function from the old record to
-- the new one. The two budgets that directions share travel in the record Limits, lent to a direction
-- for each packet and read back from it. The engine's dict of active connections holds places of
-- `order`, as the source's holds references to the same objects. What is stored is
-- specified by position: byte_at gives the byte that the interval store holds at an extended
-- sequence number, and the theorems about insertion, runs and gaps are stated with it. An object
-- that the source reaches by reference, such as an interval that notes a duplicate, is found again by
-- its start, which no other interval shares.
--
-- Numbers: bytes, lengths and offsets are natural numbers, extended sequence numbers are integers.
-- Loops over lists are structural. parse_records runs on the room left under its record limit and
-- parse_messages on the bytes of its buffer. The reader loops run on fuel one more than the bytes
-- that remain, and each of their rounds takes a byte (Tls.Loop.Fuel). The loop over a mail dialogue
-- runs on fuel more than the bytes of both directions, since each line takes a byte of one.
--
-- Weights of scoring units are natural numbers of one unit, as the whole-numbered weights of the
-- default policy are; sums and the quotient that is rounded are exact, and the coverage floor is a
-- fraction.
--
-- An exception is a value as well. OverlapConflict is validated when it is made, so a conflict at a
-- negative extended sequence number raises out of _insert; the field `raised` tells that it did, the
-- state is the one that is left behind, and what the callers would do after it is not done. A sequence
-- of packets is a sequence of calls, whether or not one of them raised before; pipeline.py, which
-- feeds the engine, ends at the first that raises.
--
-- Parameters: the digests of hashlib (SHA-256, BLAKE2b) are functions that a theorem takes. Not
-- modelled: the texts of warnings and of events, the pydantic wrappers but for the check that raises,
-- the probes and boundaries of build_upgrade, and the parts of the program outside of the path above
-- (capture files, the POP3 and IMAP dialogues, conclusions on TLS, rules and findings, reports, the web
-- and command line front ends).
pub mod Base
pub mod Evidence
pub mod Network
pub mod Protocols
pub mod Tls
pub mod Assessment
mod Tests
