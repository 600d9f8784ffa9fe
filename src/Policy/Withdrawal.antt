-- ===== src/Policy/Withdrawal.antt =====
-- A permission that was withdrawn stays withdrawn: after stage_withdrawal of
-- tools/financial_semantics.py has been acknowledged, no sequence of admissions, further withdrawals
-- and changes of evidence of an older generation records anything at or after the boundary.
use core_drp.Prelude.{
  ◌≡◌, refl, sym, ap, ◌∙◌, inl, inr, arith, Bool, true, false, not, ◌&&◌, ◌||◌, some, Option-cases,
  Bool-cases, List, [], ◌∷◌, ◌++◌, all, Bytes, bytes_eq, bytes_eq→eq,
}
use core_drp.Prelude.Int.{ℤ, ◌<ℤ◌, ◌≤ℤ◌, ltb_ℤ, leb_ℤ, eq_of_parts}
use core_drp.Result.{ok}
use core_drp.Policy.{
  Sender, Evidence, Pending, Ack, lookup, lookup_or, member, not_withdrawn, scope_allows, admit,
  has_cap, add_cap, capped, records_before, through, stage_withdrawal,
}
use core_drp.Policy.Admission.{admit-cases, lookup_or-put, lookup_or-put_other}

stage-capped : (q : Bytes) (p : Pending) (s : Sender) → (stage_withdrawal q p s).1 ≡ capped q p s
unfolding stage_withdrawal
stage-capped q p s = elim (Bool-cases s.admission_history_known) [
  | inr e ↦ rw e
  | inl e ↦
      elim (Bool-cases
        (ltb_ℤ (through q s.admitted_through) p.effective && records_before q p.effective s.wal)) [
          | inl f ↦ rw e (rw f)
          | inr f ↦ rw e (rw f)
        ]
]

module _ (scope : Bytes) (generation : ℤ) where
  -- The evidence that the sender holds for the scope is of an older generation, if there is any.
  abbrev pub IsOld : Sender → Type 0
  IsOld s = (p : Evidence) → lookup scope s.policies ≡ some p → p.generation <ℤ generation

  pub data Step : Sender → Sender → Type 0 where
    admits :
        (request : Bytes) (scopes : List Bytes) (time : ℤ) (s : Sender)
        → Step s (admit request scopes time s).1
    stages : (q : Bytes) (p : Pending) (s : Sender) → Step s (stage_withdrawal q p s).1
    receives :
        (policies : List (Bytes × Evidence)) (s : Sender)
        → IsOld (record s { policies = policies })
        → Step s (record s { policies = policies })

  pub data Steps : Sender → Sender → Type 0 where
    stop : (s : Sender) → Steps s s
    next : {s t u : Sender} → Step s t → Steps t u → Steps s u

module _ (scope : Bytes) (generation boundary : ℤ) where
  -- The cap is there, no record of the scope is at or after it, and the evidence is old.
  pub record IsWithdrawn (s : Sender) : Type 0 where
    pub cap : has_cap generation boundary (lookup_or [] scope s.admission_caps) ≡ true
    pub before : records_before scope boundary s.wal ≡ true
    pub old : IsOld scope generation s

  has_cap-append :
      (caps : List (ℤ × ℤ)) (g b : ℤ)
      → has_cap generation boundary caps ≡ true
      → has_cap generation boundary (caps ++ (g, b) ∷ []) ≡ true
  has_cap-append [] g b h = cc
  has_cap-append ((g', b') ∷ caps) g b h = ground (arith, has_cap-append caps g b)

  has_cap-add_cap :
      (caps : List (ℤ × ℤ)) (g b : ℤ)
      → has_cap generation boundary caps ≡ true
      → has_cap generation boundary (add_cap g b caps) ≡ true
  has_cap-add_cap caps g b h = elim (Bool-cases (has_cap g b caps)) [
    | inl e ↦ rw (e, add_cap) h
    | inr e ↦ rw (e, add_cap) (has_cap-append caps g b h)
  ]

  -- A cap refuses every time from its boundary on to older evidence.
  not_withdrawn-cap :
      (held time : ℤ) (caps : List (ℤ × ℤ))
      → held <ℤ generation
      → boundary ≤ℤ time
      → has_cap generation boundary caps ≡ true
      → not_withdrawn held time caps ≡ false
  not_withdrawn-cap held time [] old late h = cc
  not_withdrawn-cap held time ((g, b) ∷ caps) old late h =
      ground
        (arith, eq_of_parts g generation, eq_of_parts b boundary, not_withdrawn-cap held time caps)

  records_before-append :
      (log : List (Bytes × List Bytes × ℤ)) (request : Bytes) (qs : List Bytes) (t : ℤ)
      → records_before scope boundary log ≡ true
      → (not (member scope qs) || ltb_ℤ t boundary) ≡ true
      → records_before scope boundary (log ++ (request, qs, t) ∷ []) ≡ true
  records_before-append [] request qs t h g = ground arith
  records_before-append ((r, ps, u) ∷ log) request qs t h g =
      ground (arith, records_before-append log request qs t)

  and_left : (a b : Bool) → (a && b) ≡ true → a ≡ true
  and_left true b h = refl
  and_left false b h = cc

  and_right : (a b : Bool) → (a && b) ≡ true → b ≡ true
  and_right true b h = h
  and_right false b h = cc

  module _ (s : Sender) (w : IsWithdrawn s) where
    scope_refused : (time : ℤ) → boundary ≤ℤ time → scope_allows s time scope ≡ false
    scope_refused time late = elim (Option-cases (lookup scope s.policies)) [
      | inl e ↦ rw (e, scope_allows)
      | inr (p, e) ↦
          let refused = not_withdrawn-cap p.generation time _ (w.old p e) late w.cap in
          rw (e, scope_allows) (ground (arith, refused))
    ]

    not_among :
        (time : ℤ) (scopes : List Bytes)
        → boundary ≤ℤ time
        → all (scope_allows s time) scopes ≡ true
        → member scope scopes ≡ false
    not_among time [] late h = refl
    not_among time (q ∷ qs) late h =
        let rest : all (scope_allows s time) qs ≡ true = and_right _ _ h in
        elim (Bool-cases (bytes_eq q scope)) [
          | inr e ↦ rw e (not_among time qs late rest)
          | inl e ↦
              let allowed : scope_allows s time scope ≡ true =
                rw (← bytes_eq→eq q scope e) (and_left _ _ h) in
              absurd (cc (allowed, scope_refused time late))
        ]

    allowed-before :
        (time : ℤ) (scopes : List Bytes)
        → all (scope_allows s time) scopes ≡ true
        → (not (member scope scopes) || ltb_ℤ time boundary) ≡ true
    allowed-before time scopes h = elim (Bool-cases (leb_ℤ boundary time)) [
      | inl late ↦ rw (not_among time scopes (ground arith) h)
      | inr early ↦ ground arith
    ]

    admit-IsWithdrawn :
        (request : Bytes) (scopes : List Bytes) (time : ℤ)
        → IsWithdrawn (admit request scopes time s).1
    admit-IsWithdrawn request scopes time = elim (admit-cases request scopes time s) [
      | inl (n, _, e) ↦ rw e w
      | inr (inl e) ↦ rw e w
      | inr (inr (passed, e)) ↦ rw e (record {
        cap = w.cap;
        before =
            records_before-append s.wal request scopes time w.before
              (allowed-before time scopes passed);
        old = w.old;
      })
    ]

    capped-IsWithdrawn : (q : Bytes) (p : Pending) → IsWithdrawn (capped q p s)
    capped-IsWithdrawn q p = record {
      cap = elim (Bool-cases (bytes_eq q scope)) [
        | inl e ↦
            let same = bytes_eq→eq q scope e in
            rw same (
              rw
                (lookup_or-put []
                  (add_cap p.generation p.effective (lookup_or [] scope s.admission_caps)) scope
                  s.admission_caps)
                (has_cap-add_cap (lookup_or [] scope s.admission_caps) p.generation p.effective
                  w.cap))
        | inr e ↦
            rw
              (lookup_or-put_other []
                (add_cap p.generation p.effective (lookup_or [] q s.admission_caps)) q scope
                s.admission_caps e)
              w.cap
      ];
      before = w.before;
      old = w.old;
    }

  Step-IsWithdrawn : (s t : Sender) → Step scope generation s t → IsWithdrawn s → IsWithdrawn t
  Step-IsWithdrawn _ _ (admits request scopes time s) w = admit-IsWithdrawn s w request scopes time
  Step-IsWithdrawn _ _ (stages q p s) w = rw (stage-capped q p s) (capped-IsWithdrawn s w q p)
  Step-IsWithdrawn _ _ (receives policies s old) w = record {
    cap = w.cap;
    before = w.before;
    old = old;
  }

  Steps-IsWithdrawn : (s t : Sender) → Steps scope generation s t → IsWithdrawn s → IsWithdrawn t
  Steps-IsWithdrawn _ _ (stop s) w = w
  Steps-IsWithdrawn _ _ (next {s} {t} {u} step rest) w =
      Steps-IsWithdrawn t u rest (Step-IsWithdrawn s t step w)

has_cap-end : (g b : ℤ) (caps : List (ℤ × ℤ)) → has_cap g b (caps ++ (g, b) ∷ []) ≡ true
has_cap-end g b [] = ground arith
has_cap-end g b ((g', b') ∷ caps) = ground (arith, has_cap-end g b caps)

has_cap-added : (g b : ℤ) (caps : List (ℤ × ℤ)) → has_cap g b (add_cap g b caps) ≡ true
has_cap-added g b caps = elim (Bool-cases (has_cap g b caps)) [
  | inl e ↦ rw (e, add_cap) e
  | inr e ↦ rw (e, add_cap) (has_cap-end g b caps)
]

stage-before :
    (scope : Bytes) (p : Pending) (s s' : Sender) (ack : Ack)
    → stage_withdrawal scope p s ≡ (ok ack, s')
    → records_before scope p.effective s.wal ≡ true
unfolding stage_withdrawal
stage-before scope p s s' ack h =
    let earlier = records_before scope p.effective s.wal in
    let admitted_earlier = ltb_ℤ (through scope s.admitted_through) p.effective in ground arith

-- Once a sender whose evidence for a scope is of an older generation has acknowledged the
-- withdrawal of the scope, its log holds no record of that scope at or after the effective time,
-- however many requests it then admits, withdrawals it stages and evidence it receives, as long
-- as its evidence for the scope stays of an older generation.
pub withdrawal_final :
    (scope : Bytes) (p : Pending) (s s' t : Sender) (ack : Ack)
    → IsOld scope p.generation s
    → stage_withdrawal scope p s ≡ (ok ack, s')
    → Steps scope p.generation s' t
    → records_before scope p.effective t.wal ≡ true
withdrawal_final scope p s s' t ack old h steps =
    let same : capped scope p s ≡ s' = sym (stage-capped scope p s) ∙ ap (λ r. r.1) h in
    let caps = lookup_or [] scope s.admission_caps in
    let start : IsWithdrawn scope p.generation p.effective (capped scope p s) = record {
      cap =
          rw (lookup_or-put [] (add_cap p.generation p.effective caps) scope s.admission_caps)
            (has_cap-added p.generation p.effective caps);
      before = stage-before scope p s s' ack h;
      old = old;
    } in
    (Steps-IsWithdrawn scope p.generation p.effective s' t steps (rw same at start)).before
