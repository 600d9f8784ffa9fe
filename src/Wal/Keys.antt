-- ===== src/Wal/Keys.antt =====
-- The keys of the sender's log, which no method of WAL forgets (reference/coredrp_ref/wal.py).
use core_drp.Prelude.{
  ℕ, ◌≡◌, refl, ap, ◌∙◌, inl, inr, Bool-cases, Option-cases, true, not, ◌||◌, none, some, [], ◌∷◌,
  ◌++◌, arith, length, ltb, ◌==◌, Bytes, bytes_eq, bytes_eq_refl,
}
use core_drp.Prelude.Int.{ℤ, ltb_ℤ}
use core_drp.Result.{Exception, Result, Result-cases, ok, raise, ok-inj, raise≢ok}
use core_drp.Wire.Handshake.{ServerHello}
use core_drp.Wal.{Anchor, AnchorOutcome, Lab, Io, Keys, find_key, anchor_after}
use core_drp.Wal.Admit.{Prepared, next_anchor, write_bytes, save, increase_cap, commit, file_bytes}
use core_drp.Wal.Peer.{check_ack, acknowledge, check_hello, bind}

find_key-append :
    (key request : Bytes) (seq : ℕ) (ks : Keys)
    → find_key key ks ≡ none
    → find_key key (ks ++ (key, request, seq) ∷ []) ≡ some (request, seq)
find_key-append key request seq [] h = rw (bytes_eq_refl key)
find_key-append key request seq ((j, r, q) ∷ ks) h =
    ground (arith, find_key-append key request seq ks)

find_key-kept :
    (key : Bytes) (held : Bytes × ℕ) (ks more : Keys)
    → find_key key ks ≡ some held
    → find_key key (ks ++ more) ≡ some held
find_key-kept key held [] more h = cc
find_key-kept key held ((j, r, q) ∷ ks) more h = elim (Bool-cases (bytes_eq j key)) [
  | inl e ↦ rw (e, find_key) (rw (e, find_key) at h)
  | inr e ↦ rw (e, find_key) (find_key-kept key held ks more (rw (e, find_key) at h))
]

-- The object holds a key.
abbrev pub Holds : Bytes → Bytes × ℕ → Lab → Type 0
Holds key held s = find_key key s.wal.keys ≡ some held

save-keys :
    (a : Anchor) (outcome : AnchorOutcome) (s : Lab) → (save a outcome s).1.wal.keys ≡ s.wal.keys
unfolding save
save-keys a outcome s = elim (Bool-cases (anchor_after outcome a s.disk.anchor_file).1) [
  | inl e ↦ rw e refl
  | inr e ↦ rw e refl
]

save-Holds :
    (key : Bytes) (held : Bytes × ℕ) (a : Anchor) (outcome : AnchorOutcome) (s : Lab)
    → Holds key held s
    → Holds key held (save a outcome s).1
save-Holds key held a outcome s h = ap (find_key key) (save-keys a outcome s) ∙ h

pub increase_cap-Holds :
    (key : Bytes) (held : Bytes × ℕ) (limit : ℤ) (io : Io) (s : Lab)
    → Holds key held s
    → Holds key held (increase_cap limit io s).1
unfolding increase_cap
increase_cap-Holds key held limit io s h = elim (Bool-cases s.wal.healthy) [
  | inr e ↦ rw e h
  | inl e ↦ elim (Bool-cases (ltb_ℤ s.wal.state.cap limit)) [
    | inr f ↦ rw (e, f, increase_cap) h
    | inl f ↦
        rw (e, f, increase_cap)
          (save-Holds key held (record s.wal.state { cap = limit }) io.anchor s h)
  ]
]

pub acknowledge-Holds :
    (key : Bytes) (held : Bytes × ℕ) (seq : ℕ) (digest : Bytes) (outcome : AnchorOutcome) (s : Lab)
    → Holds key held s
    → Holds key held (acknowledge seq digest outcome s).1
unfolding acknowledge
acknowledge-Holds key held seq digest outcome s h =
    elim (Result-cases (check_ack s.wal seq digest)) [
      | inr (x, e) ↦ rw (e, acknowledge) h
      | inl (u, e) ↦ elim (Bool-cases (seq == s.wal.state.ack)) [
        | inl f ↦ rw (e, f, acknowledge) h
        | inr f ↦
            rw (e, f, acknowledge)
              (save-Holds key held (record s.wal.state { ack = seq; ack_hash = digest }) outcome s
                h)
      ]
    ]

pub bind-Holds :
    (key : Bytes) (held : Bytes × ℕ) (hello : ServerHello) (first second : AnchorOutcome) (s : Lab)
    → Holds key held s
    → Holds key held (bind hello first second s).1
unfolding bind
bind-Holds key held hello first second s h = elim (Result-cases (check_hello s.wal hello)) [
  | inr (x, e) ↦ rw (e, bind) h
  | inl (u, e) ↦
      let bound_anchor = record s.wal.state {
        receiver = some hello.receiver_id;
        incarnation = some hello.receiver_database_epoch;
        bound = true;
      } in
      let saved_first = save-Holds key held bound_anchor first s h in
      elim (Result-cases (save bound_anchor first s).0) [
        | inr (x, f) ↦ rw (e, f, bind) saved_first
        | inl (v, f) ↦
            rw (e, f, bind)
              (acknowledge-Holds key held hello.committed_sequence hello.committed_chain_hash second
                (save bound_anchor first s).1 saved_first)
      ]
]

-- The record written and synced, before the anchor is saved.
abbrev synced_lab : Prepared → ℕ → Lab → Lab
synced_lab p n s =
    let d = write_bytes s.disk n p.bytes in
    record s { disk = record d { synced = length (file_bytes d.events_file) } }

-- The keys behind the commit of an event: with a failure those that were held, otherwise the new one
-- behind them.
pub data Committed (key : Bytes) (p : Prepared) (s : Lab) : Result ℕ × Lab → Type 0 where
  failed :
      {x : Exception} {t : Lab} (same : t.wal.keys ≡ s.wal.keys) → Committed key p s (raise x, t)
  written :
      {t : Lab} (more : t.wal.keys ≡ s.wal.keys ++ (key, p.request, p.event.sequence) ∷ [])
      → Committed key p s (ok p.event.sequence, t)

pub commit-Committed :
    (key : Bytes) (event_time boundary : ℤ) (p : Prepared) (io : Io) (s : Lab)
    → Committed key p s (commit key event_time boundary p io s)
unfolding commit save
commit-Committed key event_time boundary p io s = elim (Option-cases io.write) [
  | inl e ↦ rw (e, commit) (failed refl)
  | inr (n, e) ↦ elim (Bool-cases (ltb n (length p.bytes) || not io.fsync)) [
    | inl f ↦ rw (e, f, commit) (failed refl)
    | inr f ↦
        let kept =
          save-keys (next_anchor s.wal.state event_time boundary p) io.anchor (synced_lab p n s) in
        let outcome =
          anchor_after io.anchor (next_anchor s.wal.state event_time boundary p)
            s.disk.anchor_file in
        elim (Bool-cases outcome.1) [
          | inr g ↦ rw (e, f, g, commit) (failed kept)
          | inl g ↦
              rw (e, f, g, commit)
                (written (ap (λ ks. ks ++ (key, p.request, p.event.sequence) ∷ []) kept))
        ]
  ]
]

pub Committed-Holds :
    (key key' : Bytes) (held : Bytes × ℕ) (p : Prepared) (s : Lab) (out : Result ℕ × Lab)
    → Committed key' p s out
    → Holds key held s
    → Holds key held out.1
Committed-Holds key key' held p s (raise x, t) (failed same) h = ap (find_key key) same ∙ h
Committed-Holds key key' held p s (ok n, t) (written more) h =
    ap (find_key key) more ∙ find_key-kept key held s.wal.keys _ h

pub Committed-own :
    (key : Bytes) (p : Prepared) (s t : Lab) (seq : ℕ) (out : Result ℕ × Lab)
    → Committed key p s out
    → out ≡ (ok seq, t)
    → find_key key s.wal.keys ≡ none
    → Holds key (p.request, seq) t
Committed-own key p s t seq (raise x, u) (failed same) e fresh = absurd (raise≢ok (ap (λ o. o.0) e))
Committed-own key p s t seq (ok n, u) (written more) e fresh =
    rw (← ok-inj (ap (λ o. o.0) e), ← ap (λ o. o.1) e)
      (ap (find_key key) more ∙ find_key-append key p.request p.event.sequence s.wal.keys fresh)
