-- ===== src/Store/Replay.antt =====
-- A batch that comes again, at once or later (Session.ingest of reference/coredrp_ref/storage.py).
use core_drp.Prelude.{
  ℕ, ◌+◌, ◌-◌, ◌≤◌, ◌≡◌, refl, sym, ap, ◌∙◌, arith, true, ◌&&◌, inl, inr, some, List, [], ◌∷◌, leb,
  ◌==◌, Bytes, bytes_eq,
}
use core_drp.Result.{Result-cases, ok}
use core_drp.Wire.Messages.{Event, Codec}
use core_drp.Store.{StreamRow, Db, find_stream}
use core_drp.Store.Session.{Session}
use core_drp.Store.Ingest.{
  Batch, Ack, Cursor, first_of, cursor_at, set_cursor, commit_cursor, ancestor, link_all,
  check_batch, store_batch, in_stream, ingest,
}
use core_drp.Store.Rows.{update_stream-find, update_stream-keeps}
use core_drp.Store.Stored.{
  Entries, Entries-Grown, Grown, store_all-Entries, store_all-streams, Entries-store_all,
}
use core_drp.Store.Taken.{IsTaken, ingest-IsTaken, ingest-raise}

-- The row of the stream behind a batch.
set_cursor-own :
    (s : Session) (u : Cursor) (row : StreamRow)
    → (row.owner == s.owner) ≡ true
    → set_cursor s u row
      ≡ record row { head = u.head; chain = u.hash; last_time = u.last; checkpoint = u.floor }
set_cursor-own s u row h = rw h

-- The acknowledgement of everything that a stream holds.
abbrev pub ack_of : StreamRow → Ack
ack_of row = record { committed_through_sequence = row.head; committed_chain_hash = row.chain }

-- The row behind a batch that was taken.
abbrev moved_row : StreamRow → Cursor → StreamRow
moved_row row u = record row {
  head = u.head;
  chain = u.hash;
  last_time = u.last;
  checkpoint = u.floor;
}

module _ ⦃c : Codec⦄ where
  ancestor-kept :
      (s : Session) (row : StreamRow) (d : Db) (u : Cursor) (n : ℕ)
      → n ≤ row.head + 1
      → Grown s.sender s.epoch (cursor_at d row) u
      → ancestor s.sender s.epoch n (commit_cursor s u) ≡ ancestor s.sender s.epoch n d
  unfolding ancestor
  ancestor-kept s row d u n near g = rw (g.kept (n - 1) (omega arith))

  -- A stream of the session that holds a batch, up to its head or beyond.
  record Settled (s : Session) (b : Batch) (row : StreamRow) (d : Db) : Type 0 where
    found : find_stream s.sender d.streams ≡ some row
    owned : (bytes_eq row.epoch s.epoch && (row.owner == s.owner)) ≡ true
    not_ahead : first_of b.events ≤ row.head + 1
    previous : Bytes
    from_ancestor : ancestor s.sender s.epoch (first_of b.events) d ≡ ok previous
    prepared : List (Event × Bytes)
    terminal : Bytes
    linked :
        link_all s.sender s.epoch (first_of b.events) previous b.events ≡ ok (prepared, terminal)
    at_terminal : bytes_eq terminal b.terminal_chain_hash ≡ true
    entries : Entries s.sender s.epoch prepared (cursor_at d row)

  commit_cursor-Settled :
      (s : Session) (b : Batch) (row : StreamRow) (d : Db)
      → Settled s b row d
      → commit_cursor s (cursor_at d row) ≡ d
  commit_cursor-Settled s b row d h =
      let own : (row.owner == s.owner) ≡ true = ground (arith, h.owned) in
      ap (λ x. record d { streams = x })
        (update_stream-keeps s.sender (set_cursor s (cursor_at d row)) d.streams h.found
          (set_cursor-own s (cursor_at d row) row own))

  -- What the stream holds is answered with its head, and changes nothing.
  Settled-ingest :
      (s : Session) (b : Batch) (row : StreamRow) (d : Db) (window_events window_bytes : ℕ)
      → Settled s b row d
      → check_batch b window_events window_bytes ≡ ok tt
      → ingest s b window_events window_bytes d ≡ (ok (ack_of row), d)
  unfolding ingest store_batch
  Settled-ingest s b row d we wb h checked =
      let near : leb (first_of b.events) (row.head + 1) ≡ true = ground (arith, h.not_ahead) in
      let again = Entries-store_all s.sender s.epoch h.prepared (cursor_at d row) h.entries in
      let taken : store_batch s b row d ≡ ok (ack_of row, d) =
        rw (h.owned, near, h.from_ancestor)
          (rw (h.linked, h.at_terminal) (rw (again, commit_cursor-Settled s b row d h) refl)) in
      let stream : in_stream s b d (find_stream s.sender d.streams) ≡ ok (ack_of row, d) =
        ap (in_stream s b d) h.found ∙ taken in
      rw (checked, stream) refl

  module _ (s : Session) (b : Batch) (row : StreamRow) (d d' : Db) (a : Ack)
      (found : find_stream s.sender d.streams ≡ some row) (t : IsTaken s b row d a d') where
    abbrev row' : StreamRow
    row' = moved_row row t.cursor

    own : (row.owner == s.owner) ≡ true
    own = ground (arith, t.same_owner)

    grown :
        Entries s.sender s.epoch t.prepared t.cursor
        × Grown s.sender s.epoch (cursor_at d row) t.cursor
    grown = store_all-Entries s.sender s.epoch t.prepared (cursor_at d row) t.cursor t.stored

    row_after : find_stream s.sender (commit_cursor s t.cursor).streams ≡ some row'
    row_after =
        update_stream-find s.sender (set_cursor s t.cursor) t.cursor.db.streams (
          ap (find_stream s.sender)
            (store_all-streams s.sender s.epoch t.prepared (cursor_at d row) t.cursor t.stored)
          ∙ found)
        ∙ ap some (set_cursor-own s t.cursor row own)

    behind : Grown s.sender s.epoch t.cursor (cursor_at (commit_cursor s t.cursor) row')
    behind = record { forward = omega arith; kept = λ n h. refl }

    -- Behind a batch that was taken, the stream holds it.
    taken-Settled : Settled s b row' (commit_cursor s t.cursor)
    taken-Settled = record {
      found = row_after;
      owned = t.same_owner;
      not_ahead = omega (arith, t.not_ahead, grown.1.forward);
      previous = t.previous;
      from_ancestor =
          ancestor-kept s row d t.cursor (first_of b.events) t.not_ahead grown.1 ∙ t.from_ancestor;
      prepared = t.prepared;
      terminal = t.terminal;
      linked = t.linked;
      at_terminal = t.at_terminal;
      entries = Entries-Grown s.sender s.epoch t.prepared t.cursor _ grown.0 behind;
    }

    -- And still holds every batch that it held.
    taken-kept : (old : Batch) → Settled s old row d → Settled s old row' (commit_cursor s t.cursor)
    taken-kept old h = record {
      found = row_after;
      owned = t.same_owner;
      not_ahead = omega (arith, h.not_ahead, grown.1.forward);
      previous = h.previous;
      from_ancestor =
          ancestor-kept s row d t.cursor (first_of old.events) h.not_ahead grown.1
          ∙ h.from_ancestor;
      prepared = h.prepared;
      terminal = h.terminal;
      linked = h.linked;
      at_terminal = h.at_terminal;
      entries =
          Entries-Grown s.sender s.epoch h.prepared t.cursor _
            (Entries-Grown s.sender s.epoch h.prepared (cursor_at d row) t.cursor h.entries grown.1)
            behind;
    }

  -- The stream holds a batch, with its head at a number or beyond.
  HoldsBatch : Session → Batch → ℕ → Db → Type 0
  HoldsBatch s b n d = (row : StreamRow) × Settled s b row d × (n ≤ row.head)

  ingest-HoldsBatch :
      (s : Session) (old b : Batch) (window_events window_bytes n : ℕ) (d : Db)
      → HoldsBatch s old n d
      → HoldsBatch s old n (ingest s b window_events window_bytes d).1
  unfolding HoldsBatch
  ingest-HoldsBatch s old b we wb n d (row, settled, reached) =
      let out = ingest s b we wb d in
      elim (Result-cases out.0) [
        | inr (x, e) ↦
            rw (ingest-raise s b we wb d out.1 x (ap (λ r. (r, out.1)) e)) (row, settled, reached)
        | inl (a, e) ↦
            let (row2, found, t) = ingest-IsTaken s b we wb d out.1 a (ap (λ r. (r, out.1)) e) in
            let rows : row ≡ row2 = cc (sym settled.found ∙ found) in
            let forward = (grown s b row2 d out.1 a found t).1.forward in
            rw t.db_is (
              moved_row row2 t.cursor,
              taken-kept s b row2 d out.1 a found t old (rw rows at settled),
              omega (arith, reached, ap (λ r. r.head) rows, forward),
            )
      ]

  -- The database behind further batches of a session, each of which is taken or refused.
  unfoldable pub after_batches : Session → List (Batch × ℕ × ℕ) → Db → Db
  after_batches s [] d = d
  after_batches s ((b, window_events, window_bytes) ∷ bs) d =
      after_batches s bs (ingest s b window_events window_bytes d).1

  after_batches-HoldsBatch :
      (s : Session) (old : Batch) (bs : List (Batch × ℕ × ℕ)) (n : ℕ) (d : Db)
      → HoldsBatch s old n d
      → HoldsBatch s old n (after_batches s bs d)
  unfolding after_batches
  after_batches-HoldsBatch s old [] n d h = h
  after_batches-HoldsBatch s old ((b, we, wb) ∷ bs) n d h =
      after_batches-HoldsBatch s old bs n _ (ingest-HoldsBatch s old b we wb n d h)

  -- A batch that was taken is acknowledged with the head of the stream behind it. When it comes again
  -- in the same session, after any further batches of the session (taken or refused) and with windows
  -- that it fits, it is acknowledged with the head that the stream then has, which is not before the
  -- head that the first acknowledgement named, and the database is left as it is.
  pub ingest_again :
      (s : Session) (b : Batch) (window_events window_bytes : ℕ) (d d' : Db) (a : Ack)
      (later : List (Batch × ℕ × ℕ)) (window_events' window_bytes' : ℕ)
      → ingest s b window_events window_bytes d ≡ (ok a, d')
      → check_batch b window_events' window_bytes' ≡ ok tt
      → (first : StreamRow) × (row : StreamRow) × (find_stream s.sender d'.streams ≡ some first)
        × (a ≡ ack_of first)
        × (find_stream s.sender (after_batches s later d').streams ≡ some row)
        × (first.head ≤ row.head)
        × (ingest s b window_events' window_bytes' (after_batches s later d')
            ≡ (ok (ack_of row), after_batches s later d'))
  unfolding HoldsBatch
  ingest_again s b we wb d d' a later we' wb' h checked =
      let (old, found, t) = ingest-IsTaken s b we wb d d' a h in
      let first = moved_row old t.cursor in
      let settled_first : Settled s b first d' =
        rw t.db_is (taken-Settled s b old d d' a found t) in
      let (row, settled, reached) =
        after_batches-HoldsBatch s b later first.head d' (first, settled_first, omega arith) in
      (
        first,
        row,
        settled_first.found,
        t.ack_is,
        settled.found,
        reached,
        Settled-ingest s b row (after_batches s later d') we' wb' settled checked,
      )
