-- ===== src/Store/Stored.antt =====
-- What the second loop of Session.ingest (reference/coredrp_ref/storage.py) leaves in the tables:
-- every event of the batch with its link, and everything that was there.
use core_drp.Prelude.{
  ℕ, ◌+◌, ◌≤◌, ◌≡◌, refl, sym, ap, ◌∙◌, arith, true, not, ◌&&◌, Bool-cases, inl, inr, Option, some,
  none, List, [], ◌∷◌, leb, ◌==◌, Bytes, bytes_eq, bytes_eq_refl,
}
use core_drp.Prelude.Int.{ℤ}
use core_drp.Result.{ok, ok-inj, >>=-eq-ok, require-eq-ok}
use core_drp.Wire.{validate}
use core_drp.Wire.Messages.{Event, Codec}
use core_drp.Store.{EventRow, EffectRow, find_event, has_relay}
use core_drp.Store.Ingest.{
  Cursor, confirm, confirm_row, new_row, inserted, insert, in_time, append, store_event, store_all,
}
use core_drp.Store.Rows.{find_event-same, find_event-other}

module _ ⦃c : Codec⦄ (sender epoch : Bytes) where
  -- The event is in the table, with its bytes and its link, and not beyond the head.
  pub record Entry (e : Event) (link : Bytes) (u : Cursor) : Type 0 where
    pub not_beyond : e.sequence ≤ u.head
    pub row : EventRow
    pub found : find_event sender epoch e.sequence u.db.events ≡ some row
    pub same_event : (bytes_eq row.event (c.event_bytes e) && bytes_eq row.chain link) ≡ true

  -- The cursor has gone on, and the rows up to the old head are as they were.
  pub record Grown (u v : Cursor) : Type 0 where
    pub forward : u.head ≤ v.head
    pub kept :
        (n : ℕ)
        → n ≤ u.head
        → find_event sender epoch n v.db.events ≡ find_event sender epoch n u.db.events

  Grown-refl : (u : Cursor) → Grown u u
  Grown-refl u = record { forward = omega arith; kept = λ n h. refl }

  Grown-trans : (u v w : Cursor) → Grown u v → Grown v w → Grown u w
  Grown-trans u v w g h = record {
    forward = omega (arith, g.forward, h.forward);
    kept = λ n k. h.kept n (omega (arith, g.forward)) ∙ g.kept n k;
  }

  Entry-Grown :
      (e : Event) (link : Bytes) (u v : Cursor) → Entry e link u → Grown u v → Entry e link v
  Entry-Grown e link u v x g = record {
    not_beyond = omega (arith, x.not_beyond, g.forward);
    row = x.row;
    found = g.kept e.sequence x.not_beyond ∙ x.found;
    same_event = x.same_event;
  }

  confirm_row-Entry :
      (e : Event) (link : Bytes) (u v : Cursor) (o : Option EventRow)
      → confirm_row sender epoch e link u o ≡ ok v
      → (v ≡ u)
        × (row : EventRow) × (o ≡ some row)
        × ((bytes_eq row.event (c.event_bytes e) && bytes_eq row.chain link) ≡ true)
  confirm_row-Entry e link u v none h = cc
  confirm_row-Entry e link u v (some row) h =
      let (same, done) =
        require-eq-ok (bytes_eq row.event (c.event_bytes e) && bytes_eq row.chain link) _ _ h in
      (sym (ok-inj done), row, refl, same)

  insert-inserted :
      (e : Event) (link : Bytes) (boundary : ℤ) (u v : Cursor) (o : Option EventRow)
      (x : Option EffectRow)
      → insert sender epoch e link boundary u o x ≡ ok v
      → v ≡ inserted sender epoch e link boundary u
  insert-inserted e link boundary u v none none h = sym (ok-inj h)
  insert-inserted e link boundary u v none (some effect) h = cc
  insert-inserted e link boundary u v (some row) x h = cc

  append-inserted :
      (e : Event) (link : Bytes) (u v : Cursor)
      → append sender epoch e link u ≡ ok v
      → (e.sequence ≡ u.head + 1)
        × (boundary : ℤ) × (validate e ≡ ok boundary)
        × (v ≡ inserted sender epoch e link boundary u)
  unfolding append
  append-inserted e link u v h =
      let (boundary, valid, h1) = >>=-eq-ok (validate e) _ h in
      let (next, h2) = require-eq-ok (e.sequence == u.head + 1) _ _ h1 in
      let (_, h3) = require-eq-ok (in_time sender epoch e boundary u) _ _ h2 in
      let (_, h4) = require-eq-ok (not (has_relay e.relay_event_id u.db.events)) _ _ h3 in
      (ground (arith, next), boundary, valid, insert-inserted e link boundary u v _ _ h4)

  inserted-Entry :
      (e : Event) (link : Bytes) (boundary : ℤ) (u : Cursor)
      → Entry e link (inserted sender epoch e link boundary u)
  inserted-Entry e link boundary u = record {
    not_beyond = omega arith;
    row = new_row sender epoch e link;
    found = find_event-same (new_row sender epoch e link) u.db.events;
    same_event = rw (bytes_eq_refl (c.event_bytes e), bytes_eq_refl link);
  }

  inserted-Grown :
      (e : Event) (link : Bytes) (boundary : ℤ) (u : Cursor)
      → e.sequence ≡ u.head + 1
      → Grown u (inserted sender epoch e link boundary u)
  inserted-Grown e link boundary u next = record {
    forward = omega arith;
    kept = λ n h.
        find_event-other (new_row sender epoch e link) u.db.events sender epoch n (ground arith);
  }

  -- One event of the second loop.
  store_event-Entry :
      (e : Event) (link : Bytes) (u v : Cursor)
      → store_event sender epoch e link u ≡ ok v
      → Entry e link v × Grown u v
  unfolding store_event confirm
  store_event-Entry e link u v h = elim (Bool-cases (leb e.sequence u.head)) [
    | inl below ↦
        let (same, row, found, same_event) =
          confirm_row-Entry e link u v (find_event sender epoch e.sequence u.db.events)
            (rw below at h) in
        rw same (
          record { not_beyond = ground arith; row = row; found = found; same_event = same_event },
          Grown-refl u,
        )
    | inr above ↦
        let (next, boundary, _, is) = append-inserted e link u v (rw above at h) in
        rw is (inserted-Entry e link boundary u, inserted-Grown e link boundary u next)
  ]

  -- Every event of a batch is an entry.
  abbrev pub Entries : List (Event × Bytes) → Cursor → Type 0
  Entries [] u = Unit
  Entries ((e, link) ∷ ps) u = Entry e link u × Entries ps u

  pub store_all-Entries :
      (ps : List (Event × Bytes)) (u v : Cursor)
      → store_all sender epoch ps u ≡ ok v
      → Entries ps v × Grown u v
  unfolding store_all
  store_all-Entries [] u v h = (tt, rw (ok-inj h) (Grown-refl v))
  store_all-Entries ((e, link) ∷ ps) u v h =
      let (w, first, rest) = >>=-eq-ok (store_event sender epoch e link u) _ h in
      let (entry, grown) = store_event-Entry e link u w first in
      let (entries, grown') = store_all-Entries ps w v rest in
      ((Entry-Grown e link w v entry grown', entries), Grown-trans u w v grown grown')

  -- A batch whose events are all entries changes nothing.
  Entry-store_event :
      (e : Event) (link : Bytes) (u : Cursor)
      → Entry e link u
      → store_event sender epoch e link u ≡ ok u
  unfolding store_event confirm
  Entry-store_event e link u x =
      let below : leb e.sequence u.head ≡ true = ground (arith, x.not_beyond) in
      rw below (ap (confirm_row sender epoch e link u) x.found ∙ rw x.same_event)

  pub Entries-store_all :
      (ps : List (Event × Bytes)) (u : Cursor) → Entries ps u → store_all sender epoch ps u ≡ ok u
  unfolding store_all
  Entries-store_all [] u x = refl
  Entries-store_all ((e, link) ∷ ps) u (x, xs) =
      rw (Entry-store_event e link u x) (Entries-store_all ps u xs)

  -- The loop leaves the rows of the streams alone.
  store_event-streams :
      (e : Event) (link : Bytes) (u v : Cursor)
      → store_event sender epoch e link u ≡ ok v
      → v.db.streams ≡ u.db.streams
  unfolding store_event confirm
  store_event-streams e link u v h = elim (Bool-cases (leb e.sequence u.head)) [
    | inl below ↦
        let (same, _, _, _) =
          confirm_row-Entry e link u v (find_event sender epoch e.sequence u.db.events)
            (rw below at h) in
        ap (λ w. w.db.streams) same
    | inr above ↦
        let (_, _, _, is) = append-inserted e link u v (rw above at h) in ap (λ w. w.db.streams) is
  ]

  pub store_all-streams :
      (ps : List (Event × Bytes)) (u v : Cursor)
      → store_all sender epoch ps u ≡ ok v
      → v.db.streams ≡ u.db.streams
  unfolding store_all
  store_all-streams [] u v h = ap (λ w. w.db.streams) (sym (ok-inj h))
  store_all-streams ((e, link) ∷ ps) u v h =
      let (w, first, rest) = >>=-eq-ok (store_event sender epoch e link u) _ h in
      store_all-streams ps w v rest ∙ store_event-streams e link u w first

  pub Entries-Grown :
      (ps : List (Event × Bytes)) (u v : Cursor) → Entries ps u → Grown u v → Entries ps v
  Entries-Grown [] u v x g = tt
  Entries-Grown ((e, link) ∷ ps) u v (x, xs) g =
      (Entry-Grown e link u v x g, Entries-Grown ps u v xs g)
