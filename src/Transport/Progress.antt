-- ===== src/Transport/Progress.antt =====
-- What a turn of drain does (reference/coredrp_ref/transport.py): a batch is sent whenever one fits,
-- and an answer of the receiver keeps the log open and never moves its acknowledgement back.
use core_drp.Prelude.{
  ℕ, ◌+◌, ◌≤◌, ◌<◌, ◌≡◌, refl, ap, sym, ◌∙◌, ◌⊎◌, min, arith, true, inl, inr, Option, some, none,
  List, ◌∷◌, drop, leb, length, Bytes,
}
use core_drp.Result.{ok, ok-inj, ◌>>=◌, >>=-eq-ok, require-eq-ok, event_too_large}
use core_drp.Transport.Batches.{taken-eq-ok}
use core_drp.Wire.{charge}
use core_drp.Wire.Messages.{Event, Codec}
use core_drp.Wal.{AnchorOutcome}
use core_drp.Wal.Peer.{acknowledge}
use core_drp.Wal.Invariant.{IsOpen}
use core_drp.Wal.Acks.{acknowledge-IsOpen}
use core_drp.Store.Ingest.{Ack, Batch}
use core_drp.Transport.{
  ServerFrame, server_hello, window_update, ack, heartbeat, goodbye, error, other_frame,
}
use core_drp.Transport.Drain.{
  Limits, Drain, is_inflight, on_answer, is_full, pick, may_send, send_batch, sending, batch_of,
}

-- An acknowledgement that drain accepts.
accepted_ack :
    (l : Limits) (outcome : AnchorOutcome) (x x' : Drain) (a : Ack)
    → on_answer l outcome (ack a) x ≡ (ok tt, x')
    → (is_inflight x.inflight a.committed_through_sequence ≡ true)
      × (acknowledge a.committed_through_sequence a.committed_chain_hash outcome x.lab
          ≡ (ok tt, x'.lab))
unfolding on_answer
accepted_ack l outcome x x' a h =
    let expected = is_inflight x.inflight a.committed_through_sequence in
    let result = acknowledge a.committed_through_sequence a.committed_chain_hash outcome x.lab in
    (ground arith, ground arith)

inflight-some : (o : Option ℕ) (n : ℕ) → is_inflight o n ≡ true → o ≡ some n
inflight-some none n h = cc
inflight-some (some m) n h = ground arith

module _ ⦃c : Codec⦄ (log : Bytes) (l : Limits) (outcome : AnchorOutcome) (x x' : Drain)
    (is_open : IsOpen x.lab log) where
  -- What every accepted answer keeps.
  abbrev Kept : Type 0
  Kept =
      IsOpen x'.lab log
      × (x.lab.wal.state.ack ≤ x'.lab.wal.state.ack)
      × ((x'.lab ≡ x.lab) ⊎ (x.inflight ≡ some x'.lab.wal.state.ack))

  same-Kept : x'.lab ≡ x.lab → Kept
  same-Kept same = rw same (is_open, omega arith, inl refl)

  ack-Kept : (a : Ack) → on_answer l outcome (ack a) x ≡ (ok tt, x') → Kept
  ack-Kept a h =
      let (expected, acked) = accepted_ack l outcome x x' a h in
      let (is_ack, wal_is, opened) =
        acknowledge-IsOpen x.lab log is_open a.committed_through_sequence a.committed_chain_hash
          outcome x'.lab acked in
      let at : x'.lab.wal.state.ack ≡ a.committed_through_sequence = cc wal_is in
      (
        opened,
        rw at is_ack.from_ack,
        inr (inflight-some x.inflight a.committed_through_sequence expected ∙ ap some (sym at)),
      )

  -- On an open log, an answer that drain accepts keeps the log open, and the acknowledgement does
  -- not go back; it changes the log only to acknowledge exactly the batch on its way.
  pub on_answer-IsOpen :
      (f : ServerFrame)
      → on_answer l outcome f x ≡ (ok tt, x')
      → IsOpen x'.lab log
        × (x.lab.wal.state.ack ≤ x'.lab.wal.state.ack)
        × ((x'.lab ≡ x.lab) ⊎ (x.inflight ≡ some x'.lab.wal.state.ack))
  unfolding on_answer
  on_answer-IsOpen (ack a) e = ack-Kept a e
  on_answer-IsOpen (server_hello h) e = ground arith
  on_answer-IsOpen goodbye e = ground arith
  on_answer-IsOpen other_frame e = ground arith
  on_answer-IsOpen (error code d) e = ground arith
  on_answer-IsOpen (heartbeat n) e = same-Kept (ground arith)
  on_answer-IsOpen (window_update n m) e = same-Kept (ground arith)

pick-begins :
    (l : Limits) (window_events window_bytes : ℕ) (e : Event) (es batch : List Event)
    → 0 < min window_events l.batch_events
    → charge e ≤ min window_bytes l.batch_bytes
    → pick l window_events window_bytes 0 0 (e ∷ es) ≡ ok batch
    → (rest : List Event) × (batch ≡ e ∷ rest)
unfolding pick
pick-begins l we wb e es batch few small h =
    let (_, h1) = require-eq-ok (leb (length e.payload) l.payload_limit) event_too_large _ h in
    let (_, h2) = require-eq-ok (leb (charge e) l.batch_bytes) event_too_large _ h1 in
    let full = is_full l we wb 0 (0 + charge e) in
    elim (taken-eq-ok full e (pick l we wb 1 (0 + charge e) es) h2) [
      | inl (at_end, _) ↦ absurd (ground (arith, at_end))
      | inr (_, rest, _, extended) ↦ (rest, extended)
    ]

send_batch-picked :
    (l : Limits) (x x' : Drain) (b : Option Batch)
    → may_send x ≡ true
    → send_batch l x ≡ ok (b, x')
    → (batch : List Event) × (pick l x.window_events x.window_bytes 0 0
          (drop x.lab.wal.state.ack x.lab.wal.events)
        ≡ ok batch)
      × (sending batch x ≡ (b, x'))
unfolding send_batch
send_batch-picked l x x' b may h =
    let unacked = drop x.lab.wal.state.ack x.lab.wal.events in
    let chosen = pick l x.window_events x.window_bytes 0 0 unacked in
    let go : (chosen >>= λ es. ok (sending es x)) ≡ ok (b, x') = rw may at h in
    let (batch, picked, sent) = >>=-eq-ok chosen _ go in (batch, picked, ok-inj sent)

sent_first :
    (e : Event) (rest : List Event) (x x' : Drain) (b : Option Batch)
    → sending (e ∷ rest) x ≡ (b, x')
    → b ≡ some (batch_of x.lab.wal (e ∷ rest))
sent_first e rest x x' b h = sym (ap (λ p. p.0) h)

-- A turn that may send and does not raise sends a batch that begins with the next event, when the
-- batch limit is not zero and the size of that event fits the window and the batch limit.
pub send_batch-progress :
    (l : Limits) (x x' : Drain) (b : Option Batch) (e : Event) (es : List Event)
    → may_send x ≡ true
    → drop x.lab.wal.state.ack x.lab.wal.events ≡ e ∷ es
    → 0 < min x.window_events l.batch_events
    → charge e ≤ min x.window_bytes l.batch_bytes
    → send_batch l x ≡ ok (b, x')
    → (rest : List Event) × (b ≡ some (batch_of x.lab.wal (e ∷ rest)))
send_batch-progress l x x' b e es may next few small h =
    let (batch, picked, sent) = send_batch-picked l x x' b may h in
    let (rest, begins) =
      pick-begins l x.window_events x.window_bytes e es batch few small
        (sym (ap (pick l x.window_events x.window_bytes 0 0) next) ∙ picked) in
    (rest, sent_first e rest x x' b (sym (ap (λ es. sending es x) begins) ∙ sent))
