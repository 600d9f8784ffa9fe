-- ===== src/Profile/Bitcoin/Transactions.antt =====
-- parse_tx of tools/verify_profile_vectors.py: the bytes of a transaction, and those that its
-- identifier is made of, are read as the transaction again.
use mathlib.Core.Path.{subst}
use mathlib.Core.List.{append_assoc}
use core_drp.Prelude.{
  ℕ, ◌+◌, ◌-◌, ◌/◌, ◌%◌, ◌<◌, ◌≡◌, ◌≢◌, refl, sym, ap, ◌∙◌, Bool-cases, inl, inr, Bool, false,
  arith, ◌==◌, List, [], ◌∷◌, ◌++◌, length, take, Bytes, join,
}
use core_drp.Result.{ok, ok-inj, ◌>>=◌, >>=-eq-ok}
use core_drp.Profile.Bitcoin.{
  Reader, rv, ev, ev_loop, read, then_read, return, spanned, repeat, Input, Output, parse_input,
  parse_output, has_marker, parse_marker, parse_witnesses, Transaction, seconds, firsts, nonwit_of,
  nonwit_tail, parse_rest, parse_fields, parse_body, parse_tx,
}
use core_drp.Profile.Bitcoin.Varint.{rv-ev, rv-lt}
use core_drp.Profile.Bitcoin.Prefixes.{
  read-append, read-length, spanned-append, spanned-parts, repeat-again,
}
use core_drp.Profile.Bitcoin.Fields.{
  parse_input-IsPrefix, parse_output-IsPrefix, unmarked-step, parse_body-IsPrefix,
}

-- The bytes of a transaction that parse_tx reads are what it took from the buffer, and whatever
-- stands behind them it reads them as the same transaction.
pub parse_tx-full :
    (b : Bytes) (t : Transaction) (full rest : Bytes)
    → parse_tx b ≡ ok ((t, full), rest)
    → (b ≡ full ++ rest) × ((more : Bytes) → parse_tx (full ++ more) ≡ ok ((t, full), more))
unfolding parse_tx
parse_tx-full b t full rest h = spanned-parts parse_body b t full rest parse_body-IsPrefix h

then_read-step {ℓ κ} :
    {A : Type ℓ} {B : Type κ} (first : Reader A) (next : A → Reader B) (b rest : Bytes) (a : A)
    → first b ≡ ok (a, rest)
    → then_read first next b ≡ next a rest
then_read-step first next b rest a h = ap (λ m. m >>= λ p. next p.0 p.1) h

-- A transaction with no witnesses.
abbrev pub stripped : Transaction → Transaction
stripped t = record t { witnesses = []; segwit = false }

regroup :
    (a b c d e f : Bytes) → (a ++ (b ++ (c ++ (d ++ e)))) ++ f ≡ a ++ (b ++ (c ++ (d ++ (e ++ f))))
regroup a b c d e f = simp append_assoc

has_marker-head : (x : ℕ) (b : Bytes) → 0 < x → has_marker (x ∷ b) ≡ false
has_marker-head x [] h = refl
has_marker-head x (y ∷ b) h = ground arith

-- A count that is not zero is not taken for a marker.
ev-unmarked : (n : ℕ) (more : Bytes) → 0 < n → has_marker (ev n ++ more) ≡ false
unfolding ev ev_loop
ev-unmarked n more h = elim (Bool-cases (n / 128 == 0)) [
  | inl e ↦ rw e (has_marker-head (n % 128) more (ground arith))
  | inr e ↦ rw e (has_marker-head (n % 128 + 128) (ev_loop n (n / 128) ++ more) (omega arith))
]

abbrev fields_record :
    Bytes → ℕ → List (Input × Bytes) → ℕ → List (Output × Bytes) → Bytes → Transaction
fields_record ver nin inputs nout outs lock = record {
  nonwit = nonwit_of ver nin inputs nout outs lock;
  inputs = firsts inputs;
  outs = firsts outs;
  witnesses = [];
  segwit = false;
}

-- The fields with no witnesses, where each of them is read.
read_fields :
    (ver b : Bytes) (nin : ℕ) (inputs : List (Input × Bytes)) (nout : ℕ)
    (outs : List (Output × Bytes)) (lock b1 b2 b3 b4 more : Bytes)
    → rv b ≡ ok (nin, b1)
    → repeat nin (spanned parse_input) b1 ≡ ok (inputs, b2)
    → rv b2 ≡ ok (nout, b3)
    → repeat nout (spanned parse_output) b3 ≡ ok (outs, b4)
    → read 4 b4 ≡ ok (lock, more)
    → parse_fields ver false b ≡ ok (fields_record ver nin inputs nout outs lock, more)
unfolding parse_fields parse_rest parse_witnesses
read_fields ver b nin inputs nout outs lock b1 b2 b3 b4 more e1 e2 e3 e4 e5 =
    then_read-step rv
      (λ n.
        then_read (repeat n (spanned parse_input))
          (λ ins. then_read rv (λ m. parse_rest ver false n ins m)))
      b b1 nin e1
    ∙ then_read-step (repeat nin (spanned parse_input))
        (λ ins. then_read rv (λ m. parse_rest ver false nin ins m)) b1 b2 inputs e2
    ∙ then_read-step rv (λ m. parse_rest ver false nin inputs m) b2 b3 nout e3
    ∙ then_read-step (repeat nout (spanned parse_output))
        (λ os. then_read (read 4) (λ l. return (fields_record ver nin inputs nout os l))) b3 b4 outs
        e4
    ∙ then_read-step (read 4) (λ l. return (fields_record ver nin inputs nout outs l)) b4 more lock
        e5

counted : (n : ℕ) (vs : List (Input × Bytes)) → length vs ≡ n → vs ≢ [] → 0 < n
counted n [] h e = absurd (e refl)
counted n (v ∷ vs) h e = omega arith

-- What is behind the version is read again with no witnesses.
parse_fields-again :
    (ver b : Bytes) (segwit : Bool) (t : Transaction) (rest : Bytes)
    → parse_fields ver segwit b ≡ ok (t, rest)
    → t.inputs ≢ []
    → (tail : Bytes) × (t.nonwit ≡ ver ++ tail)
      × ((more : Bytes)
          → (has_marker (tail ++ more) ≡ false)
            × (parse_fields ver false (tail ++ more) ≡ ok (stripped t, more)))
unfolding parse_fields parse_rest
parse_fields-again ver b segwit t rest h some_input =
    let (p1, e1, k1) = >>=-eq-ok (rv b) _ h in
    let (p2, e2, k2) = >>=-eq-ok (repeat p1.0 (spanned parse_input) p1.1) _ k1 in
    let (p3, e3, k3) = >>=-eq-ok (rv p2.1) _ k2 in
    let (p4, e4, k4) = >>=-eq-ok (repeat p3.0 (spanned parse_output) p3.1) _ k3 in
    let (p5, e5, k5) = >>=-eq-ok (parse_witnesses segwit p1.0 p4.1) _ k4 in
    let (p6, e6, k6) = >>=-eq-ok (read 4 p5.1) _ k5 in
    let same = ok-inj k6 in
    let made = ap (λ q. q.0) same in
    let ins = join (seconds p2.0) in
    let outs = join (seconds p4.0) in
    let lock = p6.0 in
    let (ins_size, ins_again) =
      repeat-again p1.0 parse_input p1.1 p2.0 p2.1 parse_input-IsPrefix e2 in
    let (outs_size, outs_again) =
      repeat-again p3.0 parse_output p3.1 p4.0 p4.1 parse_output-IsPrefix e4 in
    let some_ins : p2.0 ≢ [] =
      λ e. some_input (sym (ap (λ (u : Transaction). u.inputs) made) ∙ ap firsts e) in
    (
      nonwit_tail p1.0 p2.0 p3.0 p4.0 lock,
      sym (ap (λ (u : Transaction). u.nonwit) made),
      λ more.
          let regrouped : nonwit_tail p1.0 p2.0 p3.0 p4.0 lock ++ more
              ≡ ev p1.0 ++ (ins ++ (ev p3.0 ++ (outs ++ (lock ++ more)))) =
            regroup (ev p1.0) ins (ev p3.0) outs lock more in
          (
            ap has_marker regrouped
                ∙ ev-unmarked p1.0 (ins ++ (ev p3.0 ++ (outs ++ (lock ++ more))))
                    (counted p1.0 p2.0 ins_size some_ins),
            ap (parse_fields ver false) regrouped
                ∙ read_fields ver (ev p1.0 ++ (ins ++ (ev p3.0 ++ (outs ++ (lock ++ more))))) p1.0
                    p2.0 p3.0 p4.0 lock (ins ++ (ev p3.0 ++ (outs ++ (lock ++ more))))
                    (ev p3.0 ++ (outs ++ (lock ++ more))) (outs ++ (lock ++ more)) (lock ++ more)
                    more
                    (rv-ev p1.0 (ins ++ (ev p3.0 ++ (outs ++ (lock ++ more))))
                      (rv-lt b p1.0 p1.1 e1))
                    (ins_again (ev p3.0 ++ (outs ++ (lock ++ more))))
                    (rv-ev p3.0 (outs ++ (lock ++ more)) (rv-lt p2.1 p3.0 p3.1 e3))
                    (outs_again (lock ++ more))
                    (read-append 4 lock more (read-length 4 p5.1 lock p6.1 e6))
                ∙ ap (λ u. ok (stripped u, more)) made,
          ),
    )

-- The bytes that the identifier of a transaction is made of are read, whatever stands behind them,
-- as the transaction with no witnesses, where it has an input; and they are all that is read.
pub parse_tx-nonwit :
    (b : Bytes) (t : Transaction) (full rest : Bytes)
    → parse_tx b ≡ ok ((t, full), rest)
    → t.inputs ≢ []
    → (more : Bytes) → parse_tx (t.nonwit ++ more) ≡ ok ((stripped t, t.nonwit), more)
unfolding parse_tx parse_body
parse_tx-nonwit b t full rest h some_input more =
    let (p, e, k) =
      >>=-eq-ok (parse_body b) (λ p. ok ((p.0, take (length b - length p.1) b), p.1)) h in
    let same : p.0 ≡ t = ap (λ q. q.0.0) (ok-inj k) in
    let (v, e1, k1) = >>=-eq-ok (read 4 b) (λ q. then_read parse_marker (parse_fields q.0) q.1) e in
    let (w, e2, k2) = >>=-eq-ok (parse_marker v.1) (λ q. parse_fields v.0 q.0 q.1) k1 in
    let inputs : p.0.inputs ≢ [] =
      λ n. some_input (sym (ap (λ (u : Transaction). u.inputs) same) ∙ n) in
    let (tail, nonwit, again) = parse_fields-again v.0 w.1 w.0 p.0 p.1 k2 inputs in
    let (unmarked, read_again) = again more in
    let body : parse_body (p.0.nonwit ++ more) ≡ ok (stripped p.0, more) =
      ap (λ u. parse_body (u ++ more)) nonwit
      ∙ ap parse_body (append_assoc v.0 tail more)
      ∙ then_read-step (read 4) (λ ver. then_read parse_marker (parse_fields ver)) _ _ v.0
          (read-append 4 v.0 (tail ++ more) (read-length 4 b v.0 v.1 e1))
      ∙ unmarked-step v.0 (tail ++ more) unmarked
      ∙ read_again in
    let whole = spanned-append parse_body p.0.nonwit more (stripped p.0) body in
    subst
      (λ (u : Transaction).
        spanned parse_body (u.nonwit ++ more) ≡ ok ((stripped u, u.nonwit), more))
      same whole
