-- ===== src/Transport/Drain.antt =====
-- drain of reference/coredrp_ref/transport.py: what the sender does with the frames that the receiver
-- sends, one at a time, between the handshake and the end of its log.
use core_drp.Prelude.{
  ℕ, ◌+◌, min, Bool, true, false, not, ◌&&◌, ◌||◌, Option, none, some, List, [], ◌∷◌, ltb, leb,
  ◌==◌, length, get_elem?, drop, if◌then◌else◌, Bytes, bytes_eq,
}
use core_drp.Result.{
  Result, ok, raise, failure, require, ◌>>=◌, ◌>>◌, event_too_large, malformed_frame,
  invalid_handshake, receiver_id_changed, resource_limit_exceeded,
}
use core_drp.Wire.{charge, max_payload, max_batch, max_charge}
use core_drp.Wire.Messages.{Event}
use core_drp.Wire.Handshake.{ServerHello}
use core_drp.Wal.{Wal, Lab, AnchorOutcome}
use core_drp.Wal.Peer.{acknowledge, bind}
use core_drp.Store.Ingest.{Batch, first_of}
use core_drp.Transport.{
  ServerFrame, server_hello, window_update, ack, heartbeat, goodbye, error, other_frame,
}

-- payload_limit, batch_events, batch_bytes, and the two limits of the hello for windows.
pub record Limits : Type 0 where
  pub payload_limit : ℕ
  pub batch_events : ℕ
  pub batch_bytes : ℕ
  pub hello_events : ℕ
  pub hello_bytes : ℕ

unfoldable pub limits_of : ServerHello → Limits
limits_of h = record {
  payload_limit = min h.max_event_payload_bytes max_payload;
  batch_events = min h.max_batch_events max_batch;
  batch_bytes = min h.max_batch_payload_bytes max_charge;
  hello_events = h.max_batch_events;
  hello_bytes = h.max_batch_payload_bytes;
}

-- The checks of the hello before it is bound.
unfoldable pub check_answer : Bytes → ServerHello → Result (Unit {0})
check_answer receiver h = do
  require (bytes_eq h.receiver_id receiver) receiver_id_changed
  require
      (ltb 0 h.max_event_payload_bytes
        && ltb 0 h.max_batch_events
        && ltb 0 h.max_batch_payload_bytes)
      invalid_handshake
  require (leb h.window_events h.max_batch_events && leb h.window_bytes h.max_batch_payload_bytes)
      invalid_handshake

-- The break: the batch holds all it may, or not the size with one event more.
abbrev pub is_full : Limits → ℕ → ℕ → ℕ → ℕ → Bool
is_full l window_events window_bytes count size =
    leb (min window_events l.batch_events) count || ltb (min window_bytes l.batch_bytes) size

abbrev pub taken : Bool → Event → Result (List Event) → Result (List Event)
taken true e rest = ok []
taken false e rest = rest >>= λ es. ok (e ∷ es)

-- for e in wal.events[wal.state['ack']:], with what the batch holds so far
unfoldable pub pick : Limits → ℕ → ℕ → ℕ → ℕ → List Event → Result (List Event)
pick l window_events window_bytes count size [] = ok []
pick l window_events window_bytes count size (e ∷ es) = do
  require (leb (length e.payload) l.payload_limit) event_too_large
  require (leb (charge e) l.batch_bytes) event_too_large
  taken (is_full l window_events window_bytes count (size + charge e)) e
      (pick l window_events window_bytes (count + 1) (size + charge e) es)

-- The variables of the loop: the log with its directory, the windows, whether the first heartbeat is
-- still to come, and the last sequence of the batch on its way.
pub record Drain : Type 0 where
  pub lab : Lab
  pub window_events : ℕ
  pub window_bytes : ℕ
  pub waiting_heartbeat : Bool
  pub inflight : Option ℕ

abbrev pub is_idle : Option ℕ → Bool
is_idle none = true
is_idle (some n) = false

abbrev pub last_of : List Event → ℕ
last_of [] = 0
last_of (e ∷ []) = e.sequence
last_of (e ∷ f ∷ es) = last_of (f ∷ es)

-- wal.hashes[n], for a sequence of the log
abbrev pub hash_of : List Bytes → ℕ → Bytes
hash_of hashes n = elim (get_elem? hashes n) [ none ↦ [] | some h ↦ h ]

abbrev pub batch_of : Wal → List Event → Batch
batch_of w es = record {
  first_sequence = first_of es;
  events = es;
  terminal_chain_hash = hash_of w.hashes (last_of es);
}

-- The loop goes on.
abbrev pub goes_on : Drain → Bool
goes_on x = x.waiting_heartbeat || ltb x.lab.wal.state.ack x.lab.wal.state.tail

abbrev pub may_send : Drain → Bool
may_send x =
    not x.waiting_heartbeat && is_idle x.inflight && ltb 0 x.window_events && ltb 0 x.window_bytes

abbrev pub sending : List Event → Drain → Option Batch × Drain
sending [] x = (none, x)
sending (e ∷ es) x =
    (some (batch_of x.lab.wal (e ∷ es)), record x { inflight = some (last_of (e ∷ es)) })

-- The first half of a turn: the batch that is sent, if one is.
unfoldable pub send_batch : Limits → Drain → Result (Option Batch × Drain)
send_batch l x = if not (may_send x) then ok (none, x) else (do
  es ← pick l x.window_events x.window_bytes 0 0 (drop x.lab.wal.state.ack x.lab.wal.events)
  ok (sending es x))

-- inflight is not None and frame.ack.committed_through_sequence==inflight
abbrev pub is_inflight : Option ℕ → ℕ → Bool
is_inflight none n = false
is_inflight (some m) n = n == m

-- The second half: the frame that comes. An exception leaves the log as `acknowledge` left it.
unfoldable pub on_answer : Limits → AnchorOutcome → ServerFrame → Drain → Result (Unit {0}) × Drain
on_answer l outcome (error code d) x = (raise (failure code), x)
on_answer l outcome (ack a) x =
    let (result, lab) =
      acknowledge a.committed_through_sequence a.committed_chain_hash outcome x.lab in
    if not (is_inflight x.inflight a.committed_through_sequence)
    then (raise (failure malformed_frame), x)
    else elim result [
      | raise problem ↦ (raise problem, record x { lab = lab })
      | ok _ ↦ (ok tt, record x { lab = lab; inflight = none })
    ]
on_answer l outcome (window_update events bytes) x =
    if not (leb events l.hello_events && leb bytes l.hello_bytes)
    then (raise (failure resource_limit_exceeded), x)
    else (ok tt, record x { window_events = events; window_bytes = bytes })
on_answer l outcome (heartbeat n) x = (ok tt, record x { waiting_heartbeat = false })
on_answer l outcome (server_hello h) x = (raise (failure malformed_frame), x)
on_answer l outcome goodbye x = (raise (failure malformed_frame), x)
on_answer l outcome other_frame x = (raise (failure malformed_frame), x)

-- The handshake: the first frame of the receiver, and the start of the loop.
abbrev pub start_drain :
    Bytes → AnchorOutcome → AnchorOutcome → ServerHello → Lab → Result Drain × Lab
start_drain receiver first second h s = elim (check_answer receiver h) [
  | raise x ↦ (raise x, s)
  | ok _ ↦
      let (result, s') = bind h first second s in
      elim result [
        | raise x ↦ (raise x, s')
        | ok _ ↦ (
          ok (record {
            lab = s';
            window_events = h.window_events;
            window_bytes = h.window_bytes;
            waiting_heartbeat = true;
            inflight = none;
          }),
          s',
        )
      ]
]

unfoldable pub greet :
    Bytes → AnchorOutcome → AnchorOutcome → ServerFrame → Lab → Result Drain × Lab
greet receiver first second (server_hello h) s = start_drain receiver first second h s
greet receiver first second (error code d) s = (raise (failure code), s)
greet receiver first second _ s = (raise (failure invalid_handshake), s)
