-- ===== src/Transport/Receiver.antt =====
-- Receiver.Stream of reference/coredrp_ref/transport.py: a function of the frames that the sender
-- sends and of the database. The frames that the receiver sends come out as a list.
use core_drp.Prelude.{
  ℕ, ◌+◌, ◌%◌, Bool, false, not, Option, none, some, List, [], ◌∷◌, ◌++◌, if◌then◌else◌, Bytes,
  bytes_eq,
}
use core_drp.Result.{
  Exception, ok, raise, failure, database_error, malformed_frame, unauthorized_sender,
  receiver_durability_unavailable,
}
use core_drp.Wire.{max_batch, max_charge}
use core_drp.Wire.Handshake.{ServerHello}
use core_drp.Wire.Messages.{Codec}
use core_drp.Store.{Db}
use core_drp.Store.Session.{Server, Session, open_session}
use core_drp.Store.Ingest.{Ack, Batch, ingest}
use core_drp.Transport.{
  ClientFrame, client_hello, batch, client_heartbeat, chain_probe_response, client_goodbye, no_body,
  ServerFrame, server_hello, window_update, ack, heartbeat, goodbye, error, disposition,
}

-- The two points at which a test may cut the connection (COREDRP_TEST_DISCONNECT).
pub data Cut : Type 0 where
  no_cut before_ingest after_ingest : Cut

-- What an exception sends: Failure and psycopg.Error have an answer, any other leaves the handler.
abbrev pub answer : Exception → List ServerFrame
answer (failure code) = error code (disposition code) ∷ []
answer database_error =
    error receiver_durability_unavailable (disposition receiver_durability_unavailable) ∷ []
answer _ = []

-- The variables of the loop over the frames.
pub record Stream : Type 0 where
  pub session : Session
  pub paused : Bool
  pub cut : Cut
  pub window_events : ℕ
  pub window_bytes : ℕ

-- What a frame leaves: the frames sent, the database, and the stream if it goes on.
pub record Reply : Type 0 where
  pub sent : List ServerFrame
  pub db : Db
  pub next : Option Stream

abbrev stopped : List ServerFrame → Db → Reply
stopped sent d = record { sent = sent; db = d; next = none }

-- 1+ack.committed_through_sequence%7
abbrev pub paused_events : Ack → ℕ
paused_events a = 1 + (a.committed_through_sequence % 7)

-- The frames of an acknowledgement, and the windows behind it.
abbrev pub acknowledged : Ack → Stream → Db → Reply
acknowledged a s d =
    if s.paused
    then record {
      sent = window_update 0 0 ∷ ack a ∷ window_update (paused_events a) 100 ∷ [];
      db = d;
      next = some (record s { window_events = paused_events a; window_bytes = 100 });
    }
    else record { sent = ack a ∷ []; db = d; next = some s }

abbrev after_ingest_of : Cut → Ack → Stream → Db → Reply
after_ingest_of after_ingest a s d = stopped [] d
after_ingest_of _ a s d = acknowledged a s d

module _ ⦃c : Codec⦄ where
  unfoldable pub take_batch : Batch → Stream → Db → Reply
  take_batch b s d =
      let (result, d') = ingest s.session b s.window_events s.window_bytes d in
      elim result [ raise x ↦ stopped (answer x) d' | ok a ↦ after_ingest_of s.cut a s d' ]

  abbrev pub on_batch : Cut → Batch → Stream → Db → Reply
  on_batch before_ingest b s d = stopped [] d
  on_batch no_cut b s d = take_batch b s d
  on_batch after_ingest b s d = take_batch b s d

  -- One turn of the loop.
  unfoldable pub on_frame : ClientFrame → Stream → Db → Reply
  on_frame (batch b) s d = on_batch s.cut b s d
  on_frame (client_heartbeat tail oldest) s d =
      let answer_to = heartbeat s.session.hello.committed_sequence in
      if s.paused
      then record {
        sent = answer_to ∷ window_update max_batch max_charge ∷ [];
        db = d;
        next = some (record s { window_events = max_batch; window_bytes = max_charge });
      }
      else record { sent = answer_to ∷ []; db = d; next = some s }
  on_frame client_goodbye s d = stopped (goodbye ∷ []) d
  on_frame (client_hello h) s d = stopped (answer (failure malformed_frame)) d
  on_frame chain_probe_response s d = stopped (answer (failure malformed_frame)) d
  on_frame no_body s d = stopped (answer (failure malformed_frame)) d

  -- The frames of a stream, one after the other, until it stops or the sender ends it.
  unfoldable pub run_frames : List ClientFrame → Stream → Db → List ServerFrame × Db
  unfolding on_frame
  run_frames [] s d = ([], d)
  run_frames (f ∷ fs) s d =
      let reply = on_frame f s d in
      elim reply.next [
        | none ↦ (reply.sent, reply.db)
        | some s' ↦ let (sent, d') = run_frames fs s' reply.db in (reply.sent ++ sent, d')
      ]

  -- The hello with its windows closed, where the receiver is paused.
  abbrev pub greeting : Bool → ServerHello → List ServerFrame
  greeting paused h =
      if paused
      then server_hello (record h { window_events = 0; window_bytes = 0 }) ∷ window_update 0 0 ∷ []
      else server_hello h ∷ []

  abbrev pub first_stream : Bool → Cut → Session → Stream
  first_stream paused cut s = record {
    session = s;
    paused = paused;
    cut = cut;
    window_events = if paused then 0 else max_batch;
    window_bytes = if paused then 0 else max_charge;
  }

  abbrev pub is_peer : Option Bytes → Bytes → Bool
  is_peer none b = false
  is_peer (some p) b = bytes_eq p b

  -- Receiver.Stream. The peer is the identity in its certificate.
  unfoldable pub serve_stream :
      Server → Bool → Bool → Cut → Option Bytes → List ClientFrame → Db → List ServerFrame × Db
  serve_stream v lock_free paused cut peer (client_hello h ∷ fs) d =
      if not (is_peer peer h.sender_id)
      then (answer (failure unauthorized_sender), d)
      else let (opened, d') = open_session v lock_free h d in
        elim opened [
          | raise x ↦ (answer x, d')
          | ok s ↦
              let (sent, d'') = run_frames fs (first_stream paused cut s) d' in
              (greeting paused s.hello ++ sent, d'')
        ]
  serve_stream v lock_free paused cut peer _ d = (answer (failure malformed_frame), d)
