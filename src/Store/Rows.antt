-- ===== src/Store/Rows.antt =====
-- The tables of the receiver's database after a write (reference/coredrp_ref/storage.py).
use core_drp.Prelude.{
  ℕ, ◌≡◌, ◌∙◌, sym, refl, ap, arith, false, Bool-cases, inl, inr, some, none, List, [], ◌∷◌, ◌==◌,
  Bytes, bytes_eq, bytes_eq_refl,
}
use core_drp.Store.{StreamRow, EventRow, find_stream, update_stream, find_event}

pub find_event-same :
    (r : EventRow) (rows : List EventRow)
    → find_event r.sender r.epoch r.sequence (r ∷ rows) ≡ some r
find_event-same r rows = ground (arith, bytes_eq_refl r.sender, bytes_eq_refl r.epoch)

pub find_event-other :
    (r : EventRow) (rows : List EventRow) (sender epoch : Bytes) (n : ℕ)
    → (r.sequence == n) ≡ false
    → find_event sender epoch n (r ∷ rows) ≡ find_event sender epoch n rows
find_event-other r rows sender epoch n h = ground arith

-- A stream after an update that another update repeats.
pub update_stream-find :
    (s : Bytes) (f : StreamRow → StreamRow) (rows : List (Bytes × StreamRow)) {r : StreamRow}
    → find_stream s rows ≡ some r
    → find_stream s (update_stream s f rows) ≡ some (f r)
update_stream-find s f [] h = cc
update_stream-find s f ((k, r) ∷ rows) h = elim (Bool-cases (bytes_eq k s)) [
  | inl e ↦
      rw (e, update_stream)
        (rw (e, find_stream)
          (ap (λ o. elim o [ none ↦ none | some x ↦ some (f x) ]) (rw (e, find_stream) at h)))
  | inr e ↦
      rw (e, update_stream)
        (rw (e, find_stream) (update_stream-find s f rows (rw (e, find_stream) at h)))
]

pub update_stream-keeps :
    (s : Bytes) (f : StreamRow → StreamRow) (rows : List (Bytes × StreamRow)) {r : StreamRow}
    → find_stream s rows ≡ some r
    → f r ≡ r
    → update_stream s f rows ≡ rows
update_stream-keeps s f [] h same = refl
update_stream-keeps s f ((k, q) ∷ rows) {r} h same = elim (Bool-cases (bytes_eq k s)) [
  | inl e ↦
      let here : some q ≡ some r = rw (e, find_stream) at h in
      let is : q ≡ r = cc here in
      rw (e, update_stream) (ap (λ x. (k, x) ∷ rows) (ap f is ∙ same ∙ sym is))
  | inr e ↦
      rw (e, update_stream)
        (ap (λ x. (k, q) ∷ x) (update_stream-keeps s f rows (rw (e, find_stream) at h) same))
]
