-- ===== src/Store/Fencing.antt =====
-- Fencing of an old session (Session.__init__ and Session.ingest of
-- reference/coredrp_ref/storage.py).
use core_drp.Prelude.{
  ℕ, ◌+◌, ◌≤◌, ◌≡◌, sym, ap, ◌∙◌, inl, inr, arith, Bool, false, Option, some, none, leb, ◌==◌,
  Bytes, bytes_eq,
}
use core_drp.Result.{
  Exception, ok, raise, failure, ok-inj, >>=-eq-ok, require-eq-ok, Result-cases,
  stream_already_active,
}
use core_drp.Wire.{binding}
use core_drp.Wire.Messages.{Codec}
use core_drp.Wire.Handshake.{ClientHello}
use core_drp.Store.{StreamRow, Db, find_stream, update_stream}
use core_drp.Store.Session.{
  Server, Session, connect, check_client, check_remembered, grant, begin_session, begin_stream,
  open_session,
}
use core_drp.Store.Ingest.{Batch, check_batch, store_batch, in_stream, ingest}
use core_drp.Store.Rows.{update_stream-find}
use core_drp.Store.Taken.{transaction-ok}

abbrev taken_over : StreamRow → StreamRow → StreamRow
taken_over row r = record r { owner = row.owner + 1 }

grant-streams :
    (h : ClientHello) (row : StreamRow) (d d' : Db) (s : Session) (o : Option (Bytes × Bytes))
    → grant h row d o ≡ ok (s, d')
    → d'.streams ≡ update_stream h.sender_id (taken_over row) d.streams
grant-streams h row d d' s none e = cc
grant-streams h row d d' s (some ident) e = sym (ap (λ p. p.1.streams) (ok-inj e))

begin_session-streams :
    (h : ClientHello) (row : StreamRow) (d d' : Db) (s : Session)
    → begin_session h row d ≡ ok (s, d')
    → d'.streams ≡ update_stream h.sender_id (taken_over row) d.streams
unfolding begin_session
begin_session-streams h row d d' s e =
    let (_, e1) = require-eq-ok (bytes_eq row.epoch h.log_epoch) _ _ e in
    let (_, e2) = require-eq-ok (bytes_eq row.binding binding) _ _ e1 in
    let (_, e3) = require-eq-ok (leb row.head h.durable_tail_sequence) _ _ e2 in
    let (_, _, e4) =
      >>=-eq-ok
        (check_remembered h.sender_id h.log_epoch h.remembered_ack_sequence
          h.remembered_ack_chain_hash row d)
        _ e3 in
    grant-streams h row d d' s d.identity e4

-- The row of the stream behind a new session.
open_session-row :
    (v : Server) (lock_free : Bool) (h : ClientHello) (d d' : Db) (s : Session) (row : StreamRow)
    → open_session v lock_free h d ≡ (ok s, d')
    → find_stream h.sender_id d.streams ≡ some row
    → find_stream h.sender_id d'.streams ≡ some (taken_over row row)
unfolding open_session
open_session-row v lock_free h d d' s row e found =
    let e0 = transaction-ok d d' _ e in
    let (_, _, e1) = >>=-eq-ok (check_client h) _ e0 in
    let (_, _, e2) = >>=-eq-ok (connect v) _ e1 in
    let (_, e3) = require-eq-ok lock_free stream_already_active _ e2 in
    let begun : begin_session h row d ≡ ok (s, d') = sym (ap (begin_stream h d) found) ∙ e3 in
    ap (find_stream h.sender_id) (begin_session-streams h row d d' s begun)
    ∙ update_stream-find h.sender_id (taken_over row) d.streams found

module _ ⦃c : Codec⦄ where
  store_batch-stale :
      (s : Session) (b : Batch) (row : StreamRow) (d : Db)
      → (row.owner == s.owner) ≡ false
      → store_batch s b row d ≡ raise (failure stream_already_active)
  unfolding store_batch
  store_batch-stale s b row d h = ground (arith, h)

  -- Once a newer session of a stream is open, every batch of a session whose owner is not above
  -- the owner before it is refused, and the database stays as the newer session left it.
  pub ingest-fenced :
      (v : Server) (lock_free : Bool) (h : ClientHello) (d d' : Db) (newer older : Session)
      (row : StreamRow) (b : Batch) (window_events window_bytes : ℕ)
      → open_session v lock_free h d ≡ (ok newer, d')
      → find_stream older.sender d.streams ≡ some row
      → older.sender ≡ h.sender_id
      → older.owner ≤ row.owner
      → (x : Exception) × (ingest older b window_events window_bytes d' ≡ (raise x, d'))
  unfolding ingest
  ingest-fenced v lock_free h d d' newer older row b we wb opened found same old =
      let row_now : find_stream older.sender d'.streams ≡ some (taken_over row row) =
        ap (λ i. find_stream i d'.streams) same
        ∙ open_session-row v lock_free h d d' newer row opened
            (ap (λ i. find_stream i d.streams) (sym same) ∙ found) in
      let refused : in_stream older b d' (find_stream older.sender d'.streams)
          ≡ raise (failure stream_already_active) =
        ap (in_stream older b d') row_now
        ∙ store_batch-stale older b (taken_over row row) d' (ground (arith, old)) in
      elim (Result-cases (check_batch b we wb)) [
        | inl (_, passed) ↦ (failure stream_already_active, rw (passed, refused))
        | inr (x, failed) ↦ (x, rw failed)
      ]
