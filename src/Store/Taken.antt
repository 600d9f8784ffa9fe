-- ===== src/Store/Taken.antt =====
-- What Session.ingest (reference/coredrp_ref/storage.py) has checked of a batch that it takes, and a
-- batch that it refuses.
use core_drp.Prelude.{
  ℕ, ◌+◌, ◌≤◌, ◌≡◌, sym, ap, ◌∙◌, arith, true, ◌&&◌, inl, inr, Option-cases, some, List, leb, ◌==◌,
  Bytes, bytes_eq,
}
use core_drp.Result.{Exception, Result, ok, raise, ok-inj, >>=-eq-ok, require-eq-ok}
use core_drp.Wire.Messages.{Event, Codec}
use core_drp.Store.{StreamRow, Db, find_stream, transaction}
use core_drp.Store.Session.{Session}
use core_drp.Store.Ingest.{
  Batch, Ack, Cursor, first_of, cursor_at, commit_cursor, ancestor, link_all, store_all,
  check_batch, store_batch, in_stream, ingest,
}

pub transaction-ok :
    {A : Type 0} (d d' : Db) (m : Result (A × Db)) {a : A}
    → transaction d m ≡ (ok a, d')
    → m ≡ ok (a, d')
transaction-ok d d' (ok (b, d'')) h = ap ok (cc h)
transaction-ok d d' (raise x) h = absurd (cc (ap (λ p. p.0) h))

transaction-raise :
    {A : Type 0} (d d' : Db) (m : Result (A × Db)) {x : Exception}
    → transaction d m ≡ (raise x, d')
    → d' ≡ d
transaction-raise d d' (ok (b, d'')) h = absurd (cc (ap (λ p. p.0) h))
transaction-raise d d' (raise x) h = sym (ap (λ p. p.1) h)

module _ ⦃c : Codec⦄ where
  -- What a batch that is taken has passed, and the cursor behind it.
  pub record IsTaken (s : Session) (b : Batch) (row : StreamRow) (d : Db) (a : Ack) (d' : Db)
      : Type 0 where
    pub same_owner : (bytes_eq row.epoch s.epoch && (row.owner == s.owner)) ≡ true
    pub not_ahead : first_of b.events ≤ row.head + 1
    pub previous : Bytes
    pub from_ancestor : ancestor s.sender s.epoch (first_of b.events) d ≡ ok previous
    pub prepared : List (Event × Bytes)
    pub terminal : Bytes
    pub linked :
        link_all s.sender s.epoch (first_of b.events) previous b.events ≡ ok (prepared, terminal)
    pub at_terminal : bytes_eq terminal b.terminal_chain_hash ≡ true
    pub cursor : Cursor
    pub stored : store_all s.sender s.epoch prepared (cursor_at d row) ≡ ok cursor
    pub ack_is :
        a ≡ record { committed_through_sequence = cursor.head; committed_chain_hash = cursor.hash }
    pub db_is : d' ≡ commit_cursor s cursor

  store_batch-IsTaken :
      (s : Session) (b : Batch) (row : StreamRow) (d d' : Db) (a : Ack)
      → store_batch s b row d ≡ ok (a, d')
      → IsTaken s b row d a d'
  unfolding store_batch
  store_batch-IsTaken s b row d d' a h =
      let first = first_of b.events in
      let (own, h1) = require-eq-ok (bytes_eq row.epoch s.epoch && (row.owner == s.owner)) _ _ h in
      let (near, h2) = require-eq-ok (leb first (row.head + 1)) _ _ h1 in
      let (previous, from, h3) = >>=-eq-ok (ancestor s.sender s.epoch first d) _ h2 in
      let ((prepared, terminal), linked, h4) =
        >>=-eq-ok (link_all s.sender s.epoch first previous b.events) _ h3 in
      let (at, h5) = require-eq-ok (bytes_eq terminal b.terminal_chain_hash) _ _ h4 in
      let (u, stored, h6) =
        >>=-eq-ok (store_all s.sender s.epoch prepared (cursor_at d row)) _ h5 in
      let done = ok-inj h6 in
      record {
        same_owner = own;
        not_ahead = ground arith;
        previous = previous;
        from_ancestor = from;
        prepared = prepared;
        terminal = terminal;
        linked = linked;
        at_terminal = at;
        cursor = u;
        stored = stored;
        ack_is = sym (ap (λ p. p.0) done);
        db_is = sym (ap (λ p. p.1) done);
      }

  -- A batch that is refused leaves the database as it was.
  pub ingest-raise :
      (s : Session) (b : Batch) (window_events window_bytes : ℕ) (d d' : Db) (x : Exception)
      → ingest s b window_events window_bytes d ≡ (raise x, d')
      → d' ≡ d
  unfolding ingest
  ingest-raise s b we wb d d' x h = transaction-raise d d' _ h

  -- What a batch that is taken found.
  pub ingest-IsTaken :
      (s : Session) (b : Batch) (window_events window_bytes : ℕ) (d d' : Db) (a : Ack)
      → ingest s b window_events window_bytes d ≡ (ok a, d')
      → (row : StreamRow) × (find_stream s.sender d.streams ≡ some row) × IsTaken s b row d a d'
  unfolding ingest
  ingest-IsTaken s b we wb d d' a h =
      let taken = transaction-ok d d' _ h in
      let (_, checked, h1) = >>=-eq-ok (check_batch b we wb) _ taken in
      elim (Option-cases (find_stream s.sender d.streams)) [
        | inl missing ↦ absurd (cc (sym (ap (in_stream s b d) missing) ∙ h1))
        | inr (row, found) ↦
            (row, found, store_batch-IsTaken s b row d d' a (sym (ap (in_stream s b d) found) ∙ h1))
      ]
