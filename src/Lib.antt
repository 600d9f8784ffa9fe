-- ===== src/Lib.antt =====
-- CoreDRP, a protocol that carries a sender's durable log of events to a receiver, and the decision
-- procedures around it. This library models the Python reference implementation in
-- reference/coredrp_ref and the executable rules in tools.
--
-- A sender admits completeness checkpoints to a write-ahead log (reference/coredrp_ref/wal.py), whose
-- events are chained by SHA-256 (wire.py). It drains the log over a stream of frames (transport.py) to
-- a receiver, which stores events, effects and the head of the stream in one transaction of a
-- database (storage.py) and acknowledges what it committed.
--
-- Files:
--   Prelude      lists, tests, byte strings, integers, and the lemmas that the parts share
--   Sha256       hashlib.sha256, executable
--   Result       Failure, require and the Python exceptions as values
--   Wire         reference/coredrp_ref/wire.py: genesis, payload_hash, validate, chain, charge,
--                checkpoint. The events are byte strings and numbers; the protobuf runtime and the
--                json module are the parameter Codec, and IsCodec is what they document. Wire.Chain
--                has the chain over a whole log, Wire.Link one link of it, and Wire.Collides says when
--                two byte strings have one digest.
--   Wal          reference/coredrp_ref/wal.py: class WAL. Wal.Frame has the record framing, Recover
--                and Open the constructor, Admit the methods that write and Peer those that follow
--                the receiver. The directory is a Disk; a call of the operating system that may fail
--                has its outcome in Io, AnchorOutcome or Opening: a torn write, an fsync that raises,
--                an anchor that is or is not replaced, a log file that cannot be created. The other modules of Wal are lemmas: Invariant
--                (IsOpen), Prepared, Scanning, Reopen, Extended, Durability, Crash, Keys, Retry,
--                Opened, Establish and Acks.
--   Store        reference/coredrp_ref/storage.py: the tables as lists, Session (connect, bootstrap,
--                Session.__init__) and Ingest (Session.ingest); lemmas in Rows, Stored, Taken,
--                Replay and Fencing. PostgreSQL keeps a committed transaction and drops a failed one;
--                whether the advisory lock is free is an argument.
--   Transport    reference/coredrp_ref/transport.py: the dispositions of errors, Receiver.Stream as a
--                function of the frames that arrive, the turns of drain (Drain), the whole of drain
--                over the frames of the receiver (Loop), and in Recovery the retry loop of
--                recovery.py; lemmas in Batches, Progress and Drained.
--   Clock        tools/verify_policy_clock_vectors.py: the first policy of a scope, clock evidence,
--                the grace of an unknown clock and the limits of several scopes.
--   Reconnect    tools/verify_state_vectors.py: the decisions for reconnecting, for a replaced
--                receiver and for a new epoch; its shorter rules in Rules. Those of
--                tools/verify_freeze_completion_vectors.py are in Completion, with its producers and
--                the evidence and digest of a staging in Staging; lemmas in Staging.Injective.
--   Policy       tools/financial_semantics.py: admission, withdrawal of a permission, and the change
--                of a scope to RELAY_REQUIRED.
--   Finance      tools/financial_semantics.py, its numbers: decimal and amount over fractions, binary64
--                and round_binary64 (Binary64), sorting (Sorting), select_window (Window), allocate
--                (Allocation), pps_liability, effect_bytes and the participant digest (Effects),
--                settlement_policy_source and activate_required (Settlement). A text is its bytes; a
--                difficulty in hexadecimal is its width with its value. Lemmas in Digits, Amounts,
--                Sorting.Permuted, Window.Paging, Window.Arrival, Allocation.Conservation and
--                Effects.Injective.
--   Profile      tools/verify_profile_vectors.py: shares, projections and accounting events, with the
--                stricter tools/verify_accounting_schema3_safety.py in Strict; Bitcoin transactions,
--                Merkle roots and script numbers in Bitcoin, and validate_candidate in Candidate. A
--                double is its 64 bits; the message is what the protobuf runtime parsed.
--   Shadow       reference/coredrp_ref/miningcore_shadow.py: validate_policy, and of compare the index
--                of the rows, the findings on one identity and the carry history of a recipient; its
--                ledger by tags in Ledger, and its loops with the report in Compare. A time is the
--                number that timestamp returns for it. Lemmas in Carry, Totals and Matches.
--   Requests     tools/request_encodings.py: the types and the values of Python as data (Schema), the
--                schemas of docs/coredrp-v1-request-schemas.json (Registry), integer, lp, value and
--                encode (Encoding), the preimage of an admission (Admission), group_digest (Digest),
--                the administrative bodies with their validation (Admin), and the acceptance of a
--                group of effects. Lemmas in Scalars, Injective, Arranged, Groups,
--                Admin.Validated and Admin.Accepted.
--   Audit        tools/audit_evidence.py: a bundle of events with event_hash, the events as rows (Rows),
--                and audit and audit_retained with their checks (Checks), with what Finance and
--                Requests provide; the protobuf runtime is an argument. Lemmas in Audit.Conserved.
--   Tests        a codec that satisfies IsCodec, and runs of all parts.
--
-- Bounds: reading a log recurses on fuel, one more than the number of its bytes; each record takes at
-- least one byte (Wal.Termination). The digits of a number n recurse on n + 1, its bits on n, and the
-- groups of a varint on n + 1: every step divides by at least two. The rounds over a Merkle tree are
-- bounded by its leaves, which each round halves, and the pages of a window by its rows, of which
-- each page takes at least one; reading a varint stops at a shift above 63, as the source does.
-- Every other loop follows a list. Sequences and times are unbounded numbers with the range checks of
-- the source.
--
-- Not modelled: TLS, gRPC and the process around the stream (transport.py, cli.py), fault injection
-- (faults.py), the SQL export, the details of findings and the digests over JSON of
-- miningcore_shadow.py, the shadow store (shadow.py), the mutation cases that the verifiers run on
-- vector files, and the scripts that check files of the repository.
pub mod Prelude
pub mod Sha256
pub mod Result
pub mod Wire
pub mod Wal
pub mod Store
pub mod Clock
pub mod Reconnect
pub mod Finance
pub mod Policy
pub mod Transport
pub mod Profile
pub mod Requests
pub mod Shadow
pub mod Tests
pub mod Audit
