-- ===== src/Profile/Candidate/Payouts.antt =====
-- What validate_candidate of tools/verify_profile_vectors.py accepts pays out the gross reward.
use mathlib.Core.Path.{subst}
use mathlib.Core.List.{Perm, append-nil}
use core_drp.Prelude.{
  and_right, ℕ, zero, suc, ◌≡◌, refl, ap, ◌∙◌, Bool, true, ◌&&◌, Bool-cases, inl, inr, arith, ◌==◌,
  Option, none, some, List, [], ◌∷◌, ◌++◌, map, all, drop, Bytes, bytes_eq,
}
use core_drp.Prelude.Int.{pos, eq_ℤ, eq_ℤ→eq}
use core_drp.Result.{ok, ok-inj, >>=-eq-ok}
use core_drp.Profile.Bitcoin.{Reader, then_read, return, rv, repeat, parse_tx, Output, Transaction}
use core_drp.Profile.Candidate.{
  Parameters, Candidate, Declared, declares, nothing_left, declare_all, Payment, payment_of,
  remove_all, direct_payments, declared_payments, total_value, allowed_classes, indices_from,
  is_empty, accepts_header, accepts_payments, accepts_chain, accepts_transactions, accepts_block,
  validate_candidate,
}
use core_drp.Profile.Candidate.Payments.{
  total_paid, total_paid-append, remove_all-perm, AllZero, declare_all-AllZero, declared-paid,
  outs-paid, paid_in_full,
}

-- What the lines behind the loop over the commitments accept.
abbrev pub PaysOut : Candidate → List Output → Type 0
PaysOut m outs =
    (declared : Declared) × AllZero declared
    × Perm (map payment_of outs) (direct_payments m ++ declared_payments declared)
    × (total_paid (direct_payments m) ≡ pos (total_value outs))

removed-nothing-left :
    (m : Candidate) (outs : List Output) (declared : Declared) (left : Option (List Payment))
    → AllZero declared
    → remove_all (direct_payments m ++ declared_payments declared) (map payment_of outs) ≡ left
    → nothing_left left ≡ true
    → PaysOut m outs
removed-nothing-left m outs declared none z e h = cc
removed-nothing-left m outs declared (some (r ∷ rs)) z e h = cc
removed-nothing-left m outs declared (some []) z e h =
    let direct = direct_payments m in
    let zeros = declared_payments declared in
    let (perm, sum) = remove_all-perm (direct ++ zeros) (map payment_of outs) [] e in
    let whole : (direct ++ zeros) ++ [] ≡ direct ++ zeros = append-nil (direct ++ zeros) in
    (
      declared,
      z,
      subst (Perm (map payment_of outs)) whole perm,
      paid_in_full (total_paid (map payment_of outs)) (total_paid direct) (total_paid zeros)
            (total_paid []) (total_paid (direct ++ zeros)) sum (total_paid-append direct zeros)
            (declared-paid declared z) (unfold total_paid in refl)
          ∙ outs-paid outs,
    )

accepted-PaysOut :
    (m : Candidate) (outs : List Output) (indices : List ℕ) (found : Option Declared)
    → ((d : Declared) → found ≡ some d → AllZero d)
    → accepts_payments m outs indices found ≡ true
    → PaysOut m outs
accepted-PaysOut m outs indices none z h = cc
accepted-PaysOut m outs indices (some d) z h =
    removed-nothing-left m outs d
      (remove_all (direct_payments m ++ declared_payments d) (map payment_of outs)) (z d refl) refl
      (and_right (all (λ i. declares i d) indices) _ h)

-- The checks of the transactions, over the value of each.
chain_payments :
    (checked gross payments id state : Bool)
    → checked && gross && payments && id && state ≡ true
    → (gross ≡ true) × (payments ≡ true)
chain_payments checked gross payments id state h = ground arith

accepts_transactions-PaysOut :
    (m : Candidate) (params : Option Parameters) (candidate_id : Bytes) (coin : Transaction)
    (coin_full : Bytes) (later : List (Transaction × Bytes))
    → accepts_transactions m params candidate_id (coin, coin_full) later ≡ true
    → PaysOut m coin.outs × (total_paid (direct_payments m) ≡ m.gross_reward_satoshis)
unfolding accepts_transactions
accepts_transactions-PaysOut m params candidate_id coin coin_full later h =
    let found = declare_all coin.outs (allowed_classes params) m.consensus_commitments [] in
    let (gross, payments) =
      chain_payments (accepts_chain m params (coin, coin_full) later)
        (eq_ℤ (pos (total_value coin.outs)) m.gross_reward_satoshis)
        (accepts_payments m coin.outs (indices_from 0 coin.outs) found)
        (bytes_eq m.candidate_id candidate_id) (m.submission_state == 1) h in
    let pays =
      accepted-PaysOut m coin.outs (indices_from 0 coin.outs) found
        (λ d e.
          declare_all-AllZero coin.outs (allowed_classes params) m.consensus_commitments [] d refl
            e)
        payments in
    (pays, pays.3 ∙ eq_ℤ→eq (pos (total_value coin.outs)) m.gross_reward_satoshis gross)

-- The first transaction of the block of a candidate.
abbrev pub IsCoinbaseOf : Candidate → Transaction → Type 0
IsCoinbaseOf m coin =
    (count : ℕ) × (full : Bytes) × (b : Bytes) × (rest : Bytes) × (rv (drop 80 m.serialized_block)
      ≡ ok (count, b))
    × (parse_tx b ≡ ok ((coin, full), rest))

repeat-first {ℓ} :
    {A : Type ℓ} (n : ℕ) (reader : Reader A) (b : Bytes) (v : A) (vs : List A) (rest : Bytes)
    → repeat n reader b ≡ ok (v ∷ vs, rest)
    → (b' : Bytes) × (reader b ≡ ok (v, b'))
unfolding repeat
repeat-first zero reader b v vs rest h = absurd (cc (ap (λ p. p.0) (ok-inj h)))
repeat-first (suc n) reader b v vs rest h =
    let (p, e, k) =
      >>=-eq-ok (reader b) (λ p. then_read (repeat n reader) (λ more. return (p.0 ∷ more)) p.1) h in
    let (q, _, k') = >>=-eq-ok (repeat n reader p.1) (λ q. ok (p.0 ∷ q.0, q.1)) k in
    let same : p.0 ∷ q.0 ≡ v ∷ vs = ap (λ t. t.0) (ok-inj k') in
    let head : p.0 ≡ v = cc same in (p.1, e ∙ ap (λ t. ok (t, p.1)) head)

accepts_block-PaysOut :
    (m : Candidate) (params : Option Parameters) (candidate_id : Bytes) (count : ℕ) (b : Bytes)
    (txs : List (Transaction × Bytes)) (rest : Bytes)
    → rv (drop 80 m.serialized_block) ≡ ok (count, b)
    → repeat count parse_tx b ≡ ok (txs, rest)
    → accepts_block m params candidate_id (txs, rest) ≡ true
    → (coin : Transaction) × IsCoinbaseOf m coin
      × PaysOut m coin.outs
      × (total_paid (direct_payments m) ≡ m.gross_reward_satoshis)
accepts_block-PaysOut m params candidate_id count b [] rest e1 e2 h = cc
accepts_block-PaysOut m params candidate_id count b ((coin, full) ∷ later) rest e1 e2 h =
    let (pays, gross) =
      accepts_transactions-PaysOut m params candidate_id coin full later
        (and_right (is_empty rest) _ h) in
    let (b', e) = repeat-first count parse_tx b (coin, full) later rest e2 in
    (coin, (count, full, b, b', e1, e), pays, gross)

-- A candidate that is accepted pays out its block: the outputs of the coinbase, the first
-- transaction of the block, are in some order the declared payments to the miner and the recipients
-- and some commitments of value zero, and the declared payments add up to the declared gross reward.
pub validate_candidate-PaysOut :
    (m : Candidate) (params : Option Parameters) (candidate_id : Bytes)
    → validate_candidate m params candidate_id ≡ ok true
    → (coin : Transaction) × IsCoinbaseOf m coin
      × PaysOut m coin.outs
      × (total_paid (direct_payments m) ≡ m.gross_reward_satoshis)
unfolding validate_candidate
validate_candidate-PaysOut m params candidate_id h = elim (Bool-cases (accepts_header m params)) [
  | inr e ↦ absurd (cc (ok-inj (rw e at h)))
  | inl e ↦
      let h' = rw e at h in
      let (p, e1, h1) = >>=-eq-ok (rv (drop 80 m.serialized_block)) _ h' in
      let (q, e2, h2) = >>=-eq-ok (repeat p.0 parse_tx p.1) _ h1 in
      accepts_block-PaysOut m params candidate_id p.0 p.1 q.0 q.1 e1 e2 (ok-inj h2)
]
