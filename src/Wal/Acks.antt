-- ===== src/Wal/Acks.antt =====
-- acknowledge, bind and increase_cap of reference/coredrp_ref/wal.py keep an open log, and the
-- acknowledged sequence never goes back.
use core_drp.Prelude.{
  some-inj, ℕ, ◌≤◌, ◌≡◌, refl, sym, ap, ◌∙◌, inl, inr, Bool, true, Option, none, some, arith,
  get_elem?, ◌==◌, Bytes, bytes_eq, bytes_eq→eq, Bool-cases, Option-cases, ◌⊎◌,
}
use core_drp.Prelude.Int.{ℤ, ◌<ℤ◌, ltb_ℤ}
use core_drp.Result.{ok, Result-cases}
use core_drp.Wire.{binding}
use core_drp.Wire.Handshake.{ServerHello}
use core_drp.Wire.Messages.{Codec}
use core_drp.Wal.{Anchor, saved, Wal, Lab, Io, AnchorOutcome}
use core_drp.Wal.Recover.{hash_at}
use core_drp.Wal.Admit.{save, increase_cap}
use core_drp.Wal.Peer.{check_ack, acknowledge, check_hello, bind}
use core_drp.Wal.Invariant.{IsOpen}
use core_drp.Wal.Establish.{hash_at-true}

-- The object and its directory after a save that returned.
abbrev pub with_anchor : Anchor → Lab → Lab
with_anchor a s = record {
  wal = record s.wal { state = a };
  disk = record s.disk { anchor_file = saved a };
}

save-eq-ok :
    (a : Anchor) (outcome : AnchorOutcome) (s s' : Lab)
    → save a outcome s ≡ (ok tt, s')
    → s' ≡ with_anchor a s
unfolding save
save-eq-ok a outcome s s' h = ground arith

-- What acknowledge asks of its arguments.
pub record IsAck (w : Wal) (seq : ℕ) (digest : Bytes) : Type 0 where
  pub from_ack : w.state.ack ≤ seq
  pub to_tail : seq ≤ w.state.tail
  pub on_hash : get_elem? w.hashes seq ≡ some digest

check_ack-IsAck :
    (w : Wal) (seq : ℕ) (digest : Bytes) → check_ack w seq digest ≡ ok tt → IsAck w seq digest
unfolding check_ack
check_ack-IsAck w seq digest h =
    let on_hash = hash_at w.hashes seq digest in
    record {
      from_ack = ground arith;
      to_tail = ground arith;
      on_hash = hash_at-true w.hashes seq digest (ground arith);
    }

module _ ⦃c : Codec⦄ (s : Lab) (log : Bytes) (is_open : IsOpen s log) where
  -- An anchor that differs in what the receiver and the operator say.
  anchor-IsOpen :
      (ack : ℕ) (ack_hash : Bytes) (receiver incarnation : Option Bytes) (bound : Bool) (cap : ℤ)
      → ack ≤ s.wal.state.tail
      → get_elem? s.wal.hashes ack ≡ some ack_hash
      → IsOpen
          (with_anchor
            (record s.wal.state {
              ack = ack;
              ack_hash = ack_hash;
              receiver = receiver;
              incarnation = incarnation;
              bound = bound;
              cap = cap;
            })
            s)
          log
  anchor-IsOpen ack ack_hash receiver incarnation bound cap within on_hash = record {
    healthy = is_open.healthy;
    file = is_open.file;
    synced = is_open.synced;
    anchored = refl;
    scanned = is_open.scanned;
    tail_end = is_open.tail_end;
    hash_count = is_open.hash_count;
    tail_hash = is_open.tail_hash;
    ack_bound = within;
    ack_hash = on_hash;
  }

  -- On an open log, an acknowledgement that is accepted is not behind the ack nor beyond the
  -- tail, and its digest is the hash there; it sets the ack and changes nothing else of the
  -- object, which stays an open log.
  pub acknowledge-IsOpen :
      (seq : ℕ) (digest : Bytes) (outcome : AnchorOutcome) (s' : Lab)
      → acknowledge seq digest outcome s ≡ (ok tt, s')
      → IsAck s.wal seq digest
        × (s'.wal ≡ record s.wal { state = record s.wal.state { ack = seq; ack_hash = digest } })
        × IsOpen s' log
  unfolding acknowledge
  acknowledge-IsOpen seq digest outcome s' h = elim (Result-cases (check_ack s.wal seq digest)) [
    | inr (x, e) ↦ ground arith
    | inl (_, e) ↦
        let a = check_ack-IsAck s.wal seq digest e in
        elim (Bool-cases (seq == s.wal.state.ack)) [
          | inl same ↦
              let unchanged : s ≡ s' = ground arith in
              let at_ack : seq ≡ s.wal.state.ack = ground arith in
              let same_hash : digest ≡ s.wal.state.ack_hash =
                some-inj (sym a.on_hash ∙ ap (get_elem? s.wal.hashes) at_ack ∙ is_open.ack_hash) in
              rw (← unchanged) (a, cc (at_ack, same_hash), is_open)
          | inr new ↦
              let changed : s'
                  ≡ with_anchor (record s.wal.state { ack = seq; ack_hash = digest }) s =
                save-eq-ok (record s.wal.state { ack = seq; ack_hash = digest }) outcome s s'
                  (ground arith) in
              rw changed (
                a,
                refl,
                anchor-IsOpen seq digest s.wal.state.receiver s.wal.state.incarnation
                    s.wal.state.bound s.wal.state.cap a.to_tail a.on_hash,
              )
        ]
  ]

  -- A larger cap that is accepted is the cap from then on, and keeps an open log.
  pub increase_cap-IsOpen :
      (cap : ℤ) (io : Io) (s' : Lab)
      → increase_cap cap io s ≡ (ok tt, s')
      → (s.wal.state.cap <ℤ cap) × (s'.wal.state.cap ≡ cap) × IsOpen s' log
  unfolding increase_cap
  increase_cap-IsOpen cap io s' h = elim (Bool-cases (ltb_ℤ s.wal.state.cap cap)) [
    | inr small ↦ ground arith
    | inl larger ↦
        let changed : s' ≡ with_anchor (record s.wal.state { cap = cap }) s =
          save-eq-ok (record s.wal.state { cap = cap }) io.anchor s s'
            (ground (arith, is_open.healthy)) in
        rw changed (
          ground arith,
          refl,
          anchor-IsOpen s.wal.state.ack s.wal.state.ack_hash s.wal.state.receiver
              s.wal.state.incarnation s.wal.state.bound cap is_open.ack_bound is_open.ack_hash,
        )
  ]

-- What a hello must say to be bound.
pub record IsBindable (w : Wal) (h : ServerHello) : Type 0 where
  pub same_receiver : (w.state.receiver ≡ none) ⊎ (w.state.receiver ≡ some h.receiver_id)
  pub from_ack : w.state.ack ≤ h.committed_sequence
  pub to_tail : h.committed_sequence ≤ w.state.tail
  pub on_hash : get_elem? w.hashes h.committed_sequence ≡ some h.committed_chain_hash
  pub same_binding : h.contract_binding_digest ≡ binding

check_hello-IsBindable : (w : Wal) (h : ServerHello) → check_hello w h ≡ ok tt → IsBindable w h
unfolding check_hello
check_hello-IsBindable w h e =
    let on_hash = hash_at w.hashes h.committed_sequence h.committed_chain_hash in
    record {
      same_receiver = elim (Option-cases w.state.receiver) [
        | inl none_yet ↦ inl none_yet
        | inr (r, known) ↦
            let same : bytes_eq r h.receiver_id ≡ true = ground arith in
            inr (rw known (ap some (bytes_eq→eq r h.receiver_id same)))
      ];
      from_ack = ground arith;
      to_tail = ground arith;
      on_hash = hash_at-true w.hashes h.committed_sequence h.committed_chain_hash (ground arith);
      same_binding = bytes_eq→eq h.contract_binding_digest binding (ground arith);
    }

-- The first save of a bind that returned.
bound_saved :
    (h : ServerHello) (first second : AnchorOutcome) (s s' : Lab)
    → check_hello s.wal h ≡ ok tt
    → bind h first second s ≡ (ok tt, s')
    → let a : Anchor = record s.wal.state {
      receiver = some h.receiver_id;
      incarnation = some h.receiver_database_epoch;
      bound = true;
    } in
      save a first s ≡ (ok tt, with_anchor a s)
unfolding bind save
bound_saved h first second s s' passed e = ground arith

module _ ⦃c : Codec⦄ (s : Lab) (log : Bytes) (is_open : IsOpen s log) where
  -- On an open log, a hello that is bound came from the receiver that is remembered, if there is
  -- one; its committed hash is the sender's hash there; and the object is then bound,
  -- acknowledged up to the committed sequence, and an open log.
  pub bind-IsOpen :
      (h : ServerHello) (first second : AnchorOutcome) (s' : Lab)
      → bind h first second s ≡ (ok tt, s')
      → IsBindable s.wal h
        × (s'.wal.state.bound ≡ true)
        × (s'.wal.state.receiver ≡ some h.receiver_id)
        × (s'.wal.state.ack ≡ h.committed_sequence)
        × (get_elem? s'.wal.hashes h.committed_sequence ≡ some h.committed_chain_hash)
        × IsOpen s' log
  unfolding bind
  bind-IsOpen h first second s' e = elim (Result-cases (check_hello s.wal h)) [
    | inr (x, refused) ↦ ground arith
    | inl (_, passed) ↦
        let a : Anchor = record s.wal.state {
          receiver = some h.receiver_id;
          incarnation = some h.receiver_database_epoch;
          bound = true;
        } in
        let s1 = with_anchor a s in
        let saved_first : save a first s ≡ (ok tt, s1) = bound_saved h first second s s' passed e in
        let acked : acknowledge h.committed_sequence h.committed_chain_hash second s1
            ≡ (ok tt, s') =
          ground arith in
        let open1 =
          anchor-IsOpen s log is_open s.wal.state.ack s.wal.state.ack_hash (some h.receiver_id)
            (some h.receiver_database_epoch) true s.wal.state.cap is_open.ack_bound
            is_open.ack_hash in
        let (_, wal_is, open2) =
          acknowledge-IsOpen s1 log open1 h.committed_sequence h.committed_chain_hash second s'
            acked in
        let b = check_hello-IsBindable s.wal h passed in
        (b, cc wal_is, cc wal_is, cc wal_is, rw wal_is b.on_hash, open2)
  ]
