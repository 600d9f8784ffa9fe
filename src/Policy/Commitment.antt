-- ===== src/Policy/Commitment.antt =====
-- RELAY_REQUIRED waits for every holder: commit_required and acknowledge_required of
-- tools/financial_semantics.py.
use core_drp.Prelude.{
  ◌≡◌, refl, sym, ap, ◌∙◌, ◌⊎◌, inl, inr, Bool, true, false, ◌&&◌, ◌||◌, some, Bool-cases, List, [],
  ◌∷◌, ◌++◌, Bytes, bytes_eq, bytes_eq→eq, bytes_eq_refl, all, arith,
}
use core_drp.Result.{ok}
use core_drp.Policy.{Pending, Ack, member, relay_required}
use core_drp.Policy.Receiver.{
  Receiver, add, subset, is_ack, acknowledge_pending, acknowledge_required, commit_pending,
  commit_required, committed_before,
}

-- The receiver after the acknowledgements of a list, accepted or not.
unfoldable pub deliver : List (Bytes × Ack) → Receiver → Receiver
deliver [] r = r
deliver ((sender, ack) ∷ l) r = deliver l (acknowledge_required sender ack r).1

-- An acknowledgement of this transition by the sender is in the list.
abbrev pub acked : Bytes → Pending → List (Bytes × Ack) → Bool
acked sender p [] = false
acked sender p ((s, ack) ∷ l) = (bytes_eq s sender && is_ack ack p) || acked sender p l

member-end :
    (s x : Bytes) (xs : List Bytes)
    → member s (xs ++ x ∷ []) ≡ true
    → (member s xs ≡ true) ⊎ (bytes_eq x s ≡ true)
member-end s x [] h = ground arith
member-end s x (y ∷ xs) h = ground (arith, member-end s x xs)

member-add :
    (s x : Bytes) (xs : List Bytes)
    → member s (add x xs) ≡ true
    → (member s xs ≡ true) ⊎ (bytes_eq x s ≡ true)
member-add s x xs h = elim (Bool-cases (member x xs)) [
  | inl e ↦ inl (rw (e, add) at h)
  | inr e ↦ member-end s x xs (rw (e, add) at h)
]

acknowledge-pending :
    (sender : Bytes) (ack : Ack) (r : Receiver) (p : Pending)
    → r.pending ≡ some p
    → acknowledge_required sender ack r ≡ acknowledge_pending sender ack r (some p)
unfolding acknowledge_required
acknowledge-pending sender ack r p h = ap (acknowledge_pending sender ack r) h

-- What an acknowledgement does to a pending transition: nothing, or its sender is added.
acknowledge-cases :
    (sender : Bytes) (ack : Ack) (r : Receiver) (p : Pending)
    → r.pending ≡ some p
    → ((acknowledge_required sender ack r).1 ≡ r)
      ⊎ ((is_ack ack p ≡ true)
          × ((acknowledge_required sender ack r).1
              ≡ record r { pending = some (record p { acks = add sender p.acks }) }))
acknowledge-cases sender ack r p h =
    let step = acknowledge-pending sender ack r p h in
    elim (Bool-cases (member sender p.required)) [
      | inr e ↦ inl (ap (λ x. x.1) step ∙ rw e)
      | inl e ↦ elim (Bool-cases (is_ack ack p)) [
        | inr f ↦ inl (ap (λ x. x.1) step ∙ rw (e, f))
        | inl f ↦ inr (f, ap (λ x. x.1) step ∙ rw (e, f))
      ]
    ]

-- The pending transition after a list of acknowledgements.
record Delivered (l : List (Bytes × Ack)) (r : Receiver) (p : Pending) : Type 0 where
  acks : List Bytes
  pending : (deliver l r).pending ≡ some (record p { acks = acks })
  holders : (deliver l r).holders ≡ r.holders
  justified : (s : Bytes) → member s acks ≡ true → (member s p.acks ≡ true) ⊎ (acked s p l ≡ true)

deliver-Delivered :
    (l : List (Bytes × Ack)) (r : Receiver) (p : Pending) → r.pending ≡ some p → Delivered l r p
unfolding deliver
deliver-Delivered [] r p h = record {
  acks = p.acks;
  pending = h;
  holders = refl;
  justified = λ s m. inl m;
}
deliver-Delivered ((sender, ack) ∷ l) r p h = elim (acknowledge-cases sender ack r p h) [
  | inl same ↦
      let d = deliver-Delivered l r p h in
      record {
        acks = d.acks;
        pending = ap (λ x. (deliver l x).pending) same ∙ d.pending;
        holders = ap (λ x. (deliver l x).holders) same ∙ d.holders;
        justified = λ s m. ground (arith, d.justified s m);
      }
  | inr (valid, changed) ↦
      let p' : Pending = record p { acks = add sender p.acks } in
      let d = deliver-Delivered l (record r { pending = some p' }) p' refl in
      record {
        acks = d.acks;
        pending = ap (λ x. (deliver l x).pending) changed ∙ d.pending;
        holders = ap (λ x. (deliver l x).holders) changed ∙ d.holders;
        justified = λ s m. elim (d.justified s m) [
          | inr there ↦ inr (ground (arith, there))
          | inl added ↦ elim (member-add s sender p.acks added) [
            | inl before ↦ inl before
            | inr same ↦ inr (ground (arith, same, valid))
          ]
        ];
      }
]

member-subset :
    (s : Bytes) (xs ys : List Bytes) → subset xs ys ≡ true → member s xs ≡ true → member s ys ≡ true
member-subset s [] ys h m = cc
member-subset s (x ∷ xs) ys h m = elim (Bool-cases (bytes_eq x s)) [
  | inl e ↦ rw (← bytes_eq→eq x s e) (ground arith)
  | inr e ↦ member-subset s xs ys (ground arith) (ground arith)
]

member-append_right :
    (s : Bytes) (xs ys : List Bytes) → member s ys ≡ true → member s (xs ++ ys) ≡ true
member-append_right s [] ys h = h
member-append_right s (x ∷ xs) ys h = ground (arith, member-append_right s xs ys h)

-- What commit_required has checked.
commit-checks :
    (r r' : Receiver) (p : Pending)
    → commit_pending r (some p) ≡ (ok tt, r')
    → (subset (p.members ++ r.holders) p.required ≡ true)
      × (subset p.required p.acks ≡ true)
      × (committed_before p.scope p.effective r.committed_through ≡ true)
      × (r'.mode ≡ relay_required)
commit-checks r r' p h =
    let holders = subset (p.members ++ r.holders) p.required in
    let all_acked = subset p.required p.acks in
    let earlier = committed_before p.scope p.effective r.committed_through in ground arith

acked-all :
    (l : List (Bytes × Ack)) (p : Pending) (holders : List Bytes)
    → ((holder : Bytes) → member holder holders ≡ true → acked holder p l ≡ true)
    → all (λ holder. acked holder p l) holders ≡ true
acked-all l p [] h = refl
acked-all l p (x ∷ xs) h =
    let here : member x (x ∷ xs) ≡ true = ground (arith, bytes_eq_refl x) in
    let rest = acked-all l p xs (λ s m. h s (ground (arith, m))) in ground (arith, h x here, rest)

-- If a transition that starts without acknowledgements is committed behind a list of delivered
-- acknowledgements, the list holds one of every holder of a permission with the generation and
-- digest of the transition, nothing that is committed in the scope is at or after the effective
-- time, and the mode is RELAY_REQUIRED; the last two whether there are holders or not.
pub commit_waits :
    (l : List (Bytes × Ack)) (r r' : Receiver) (p : Pending)
    → r.pending ≡ some p
    → p.acks ≡ []
    → commit_required (deliver l r) ≡ (ok tt, r')
    → (all (λ holder. acked holder p l) r.holders ≡ true)
      × (committed_before p.scope p.effective (deliver l r).committed_through ≡ true)
      × (r'.mode ≡ relay_required)
unfolding commit_required
commit_waits l r r' p at empty committed =
    let d = deliver-Delivered l r p at in
    let (all_holders, all_acked, earlier, mode) =
      commit-checks (deliver l r) r' (record p { acks = d.acks })
        (sym (ap (commit_pending (deliver l r)) d.pending) ∙ committed) in
    let each : (holder : Bytes) → member holder r.holders ≡ true → acked holder p l ≡ true =
      λ holder held.
        let required : member holder p.required ≡ true =
          member-subset holder (p.members ++ (deliver l r).holders) p.required all_holders
            (member-append_right holder p.members (deliver l r).holders (rw d.holders held)) in
        let in_acks = member-subset holder p.required d.acks all_acked required in
        elim (d.justified holder in_acks) [
          | inl before ↦ absurd (cc (rw empty at before))
          | inr there ↦ there
        ] in
    (acked-all l p r.holders each, earlier, mode)
