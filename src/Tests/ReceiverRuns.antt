-- ===== src/Tests/ReceiverRuns.antt =====
-- Runs of the receiver's storage of reference/coredrp_ref/storage.py with the sender of Sender: a
-- stream is approved, a session opens, and a batch with the first event is taken.
use core_drp.Prelude.{List, ℕ, ◌≤◌, ◌≡◌, refl, arith, true, false, some, [], ◌∷◌, replicate, be}
use core_drp.Prelude.Int.{pos, negsuc}
use core_drp.Sha256.{sha256}
use core_drp.Result.{Exception, ok, raise, failure, resource_limit_exceeded}
use core_drp.Wire.{
  binding, uid, genesis, payload_hash, be_signed, payload_boundary, validate, chain_preimage, chain,
  charge,
}
use core_drp.Wire.Handshake.{ClientHello}
use core_drp.Store.{StreamRow, Db, find_stream}
use core_drp.Store.Session.{
  Server, Session, connect, check_client, stored_hash, check_remembered, begin_session,
  open_session, server_hello,
}
use core_drp.Store.Ingest.{
  Batch, Ack, validate_all, ancestor, link_all, confirm, append, store_event, store_all,
  check_batch, store_batch, ingest,
}
use core_drp.Store.Replay.{ack_of, after_batches, ingest_again}
use core_drp.Store.Fencing.{ingest-fenced}
use core_drp.Tests.Codec.{codec, signed_be, event_text}
use core_drp.Tests.Sender.{sender, epoch, root, first_event, first_hash}

abbrev server : Server
server = record { isolated_name = true; fsync_on = true; full_page_writes_on = true }

abbrev row : StreamRow
row = record {
  epoch = epoch;
  head = 0;
  chain = root;
  owner = 0;
  checkpoint = negsuc 0;
  last_time = pos 0;
  binding = binding;
}

-- The database behind the approval of the stream.
abbrev approved : Db
approved = record {
  identity = some (replicate 16 4, replicate 16 5);
  streams = (sender, row) ∷ [];
  events = [];
  effects = [];
  admin = [];
}

abbrev hello : ClientHello
hello = record {
  protocol_major = 1;
  protocol_minor = 1;
  sender_id = sender;
  lane_id = 0;
  log_epoch = epoch;
  earliest_retained_sequence = 1;
  durable_tail_sequence = 1;
  remembered_ack_sequence = some 0;
  remembered_ack_chain_hash = some root;
  supported_event_types = 1 ∷ [];
  remembered_contract_binding_digest = some binding;
  has_profiles = false;
  has_scope_contracts = false;
}

abbrev session : Session
session = record {
  sender = sender;
  epoch = epoch;
  owner = 1;
  hello = server_hello (replicate 16 4, replicate 16 5) row;
}

abbrev opened : Db
opened = record approved { streams = (sender, record row { owner = 1 }) ∷ [] }

session_opened : open_session server true hello approved ≡ (ok session, opened)
unfolding sha256 be binding uid genesis connect check_client stored_hash check_remembered
    begin_session open_session
session_opened = refl

abbrev first_batch : Batch
first_batch = record {
  first_sequence = 1;
  events = first_event ∷ [];
  terminal_chain_hash = first_hash;
}

abbrev first_ack : Ack
first_ack = record { committed_through_sequence = 1; committed_chain_hash = first_hash }

-- The database behind the batch.
abbrev stored : Db
stored = (ingest ⦃c = codec⦄ session first_batch 32 131072 opened).1

first_taken : ingest ⦃c = codec⦄ session first_batch 32 131072 opened ≡ (ok first_ack, stored)
unfolding sha256 be be_signed binding uid genesis payload_hash payload_boundary validate
    chain_preimage chain validate_all ancestor link_all confirm append store_event store_all
    check_batch store_batch ingest signed_be event_text charge
first_taken = refl

abbrev empty_batch : Batch
empty_batch = record { first_sequence = 1; events = []; terminal_chain_hash = root }

-- A batch that is refused, between the first one and its repetition.
abbrev refused : List (Batch × ℕ × ℕ)
refused = (empty_batch, 32, 131072) ∷ []

first_fits : check_batch ⦃c = codec⦄ first_batch 1 4096 ≡ ok tt
unfolding payload_boundary validate validate_all check_batch signed_be be_signed be charge
first_fits = refl

ingest_again_example :
    (first : StreamRow) × (row : StreamRow) × (find_stream sender stored.streams ≡ some first)
    × (first_ack ≡ ack_of first)
    × (find_stream sender (after_batches ⦃c = codec⦄ session refused stored).streams ≡ some row)
    × (first.head ≤ row.head)
    × (ingest ⦃c = codec⦄ session first_batch 1 4096
          (after_batches ⦃c = codec⦄ session refused stored)
        ≡ (ok (ack_of row), after_batches ⦃c = codec⦄ session refused stored))
ingest_again_example =
    ingest_again ⦃c = codec⦄ session first_batch 32 131072 opened stored first_ack refused 1 4096
      first_taken first_fits

empty_refused :
    ingest ⦃c = codec⦄ session empty_batch 32 131072 opened
    ≡ (raise (failure resource_limit_exceeded), opened)
unfolding check_batch ingest
empty_refused = refl

-- A second session of the same stream.
abbrev newer : Session
newer = record {
  sender = sender;
  epoch = epoch;
  owner = 2;
  hello = server_hello (replicate 16 4, replicate 16 5) row;
}

abbrev taken_over : Db
taken_over = record approved { streams = (sender, record row { owner = 2 }) ∷ [] }

newer_opened : open_session server true hello opened ≡ (ok newer, taken_over)
unfolding sha256 be binding uid genesis connect check_client stored_hash check_remembered
    begin_session open_session
newer_opened = refl

ingest-fenced_example :
    (x : Exception) × (ingest ⦃c = codec⦄ session first_batch 32 131072 taken_over
      ≡ (raise x, taken_over))
ingest-fenced_example =
    ingest-fenced ⦃c = codec⦄ server true hello opened taken_over newer session
      (record row { owner = 1 }) first_batch 32 131072 newer_opened refl refl (omega arith)
