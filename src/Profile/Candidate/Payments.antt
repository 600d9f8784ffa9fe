-- ===== src/Profile/Candidate/Payments.antt =====
-- The payments of a candidate (tools/verify_profile_vectors.py): removing the declared ones from the
-- outputs, and what they add up to.
use mathlib.Core.Path.{subst}
use mathlib.Core.List.{Perm}
use mathlib.Core.List.Perm
use core_drp.Prelude.{
  ℕ, ◌≡◌, refl, sym, ap, ◌∙◌, true, Bool-cases, Option-cases, inl, inr, arith, ◌==◌, Option, none,
  some, some-inj, List, [], ◌∷◌, ◌++◌, map, all, get_elem?, Bytes, bytes_eq→eq,
}
use core_drp.Prelude.Int.{ℤ, pos, ◌+ℤ◌, int_laws, eq_ℤ→eq}
use core_drp.Profile.Bitcoin.{Output}
use core_drp.Profile.Candidate.{
  Declared, commitment_output, declared_output, may_declare, declare_all, Payment, payment_of,
  payment_eq, remove, remove_all, declared_payments, total_value,
}

-- The sum of what is paid.
unfoldable pub total_paid : List Payment → ℤ
total_paid [] = pos 0
total_paid (p ∷ ps) = p.0 +ℤ total_paid ps

+ℤ_assoc : (a b c : ℤ) → a +ℤ b +ℤ c ≡ a +ℤ (b +ℤ c)
+ℤ_assoc a b c = omega int_laws

+ℤ_left_comm : (a b c : ℤ) → a +ℤ (b +ℤ c) ≡ b +ℤ (a +ℤ c)
+ℤ_left_comm a b c = omega int_laws

pub total_paid-append :
    (ps qs : List Payment) → total_paid (ps ++ qs) ≡ total_paid ps +ℤ total_paid qs
unfolding total_paid
total_paid-append [] qs = omega int_laws
total_paid-append (p ∷ ps) qs =
    ap (λ t. p.0 +ℤ t) (total_paid-append ps qs)
    ∙ sym (+ℤ_assoc p.0 (total_paid ps) (total_paid qs))

payment_eq→eq : (p q : Payment) → payment_eq p q ≡ true → p ≡ q
payment_eq→eq p q h = ground (arith, eq_ℤ→eq p.0 q.0, bytes_eq→eq p.1 q.1)

-- What a removal leaves, with what it took, is what was there.
remove-perm :
    (p : Payment) (qs rs : List Payment)
    → remove p qs ≡ some rs
    → Perm qs (p ∷ rs) × (total_paid qs ≡ p.0 +ℤ total_paid rs)
unfolding remove total_paid
remove-perm p [] rs h = cc
remove-perm p (q ∷ qs) rs h = elim (Bool-cases (payment_eq q p)) [
  | inl e ↦
      let same = payment_eq→eq q p e in
      let rest : qs ≡ rs = some-inj (rw e at h) in rw (← rest, ← same) (Perm.rfl, refl)
  | inr e ↦ elim (Option-cases (remove p qs)) [
    | inl none_left ↦ absurd (cc (rw none_left at (rw e at h)))
    | inr (ts, found) ↦
        let rest : q ∷ ts ≡ rs = some-inj (rw found at (rw e at h)) in
        let (perm, sum) = remove-perm p qs ts found in
        rw (← rest) (
          Perm.trans (Perm.cons q perm) (Perm.swap p q ts),
          ap (λ t. q.0 +ℤ t) sum ∙ +ℤ_left_comm q.0 p.0 (total_paid ts),
        )
  ]
]

pub remove_all-perm :
    (ps qs rs : List Payment)
    → remove_all ps qs ≡ some rs
    → Perm qs (ps ++ rs) × (total_paid qs ≡ total_paid ps +ℤ total_paid rs)
unfolding remove_all total_paid
remove_all-perm [] qs rs h = rw (some-inj h) (Perm.rfl, omega int_laws)
remove_all-perm (p ∷ ps) qs rs h = elim (Option-cases (remove p qs)) [
  | inl none_left ↦ absurd (cc (rw (none_left, remove_all) at h))
  | inr (ts, found) ↦
      let (perm, sum) = remove-perm p qs ts found in
      let (perm', sum') = remove_all-perm ps ts rs (rw (found, remove_all) at h) in
      (
        Perm.trans perm (Perm.cons p perm'),
        sum ∙ ap (λ t. p.0 +ℤ t) sum' ∙ sym (+ℤ_assoc p.0 (total_paid ps) (total_paid rs)),
      )
]

-- Every declared output has the value zero.
abbrev pub AllZero : Declared → Type 0
AllZero declared = all (λ d. d.1.value == 0) declared ≡ true

AllZero-append :
    (declared : Declared) (i : ℕ) (o : Output)
    → AllZero declared
    → o.value == 0 ≡ true
    → AllZero (declared ++ (i, o) ∷ [])
AllZero-append [] i o h k = ground arith
AllZero-append (d ∷ declared) i o h k = ground (arith, AllZero-append declared i o)

declared_output-zero :
    (allowed : List Bytes) (declared : Declared) (c : ℕ × Bytes) (found : Option Output)
    (o : Output)
    → declared_output allowed declared c found ≡ some o
    → o.value == 0 ≡ true
declared_output-zero allowed declared c none o h = cc
declared_output-zero allowed declared c (some out) o h =
    elim (Bool-cases (may_declare allowed declared c out)) [
      | inr e ↦ absurd (cc (rw e at h))
      | inl e ↦
          let zero_value : out.value == 0 ≡ true = ground arith in
          subst (λ (u : Output). u.value == 0 ≡ true) (some-inj (rw e at h)) zero_value
    ]

pub declare_all-AllZero :
    (outs : List Output) (allowed : List Bytes) (cs : List (ℕ × Bytes)) (declared found : Declared)
    → AllZero declared
    → declare_all outs allowed cs declared ≡ some found
    → AllZero found
unfolding declare_all
declare_all-AllZero outs allowed [] declared found z h = subst AllZero (some-inj h) z
declare_all-AllZero outs allowed (c ∷ cs) declared found z h =
    elim (Option-cases (commitment_output outs allowed declared c)) [
      | inl refused ↦ absurd (cc (rw (refused, declare_all) at h))
      | inr (o, e) ↦
          declare_all-AllZero outs allowed cs (declared ++ (c.0, o) ∷ []) found
            (AllZero-append declared c.0 o z
              (declared_output-zero allowed declared c (get_elem? outs c.0) o e))
            (rw (e, declare_all) at h)
    ]

pub declared-paid :
    (declared : Declared) → AllZero declared → total_paid (declared_payments declared) ≡ pos 0
unfolding total_paid
declared-paid [] z = refl
declared-paid (d ∷ declared) z =
    let first : d.1.value ≡ 0 = ground arith in
    let rest = declared-paid declared (ground arith) in
    ap (λ (t : ℕ). pos t +ℤ total_paid (declared_payments declared)) first
    ∙ ap (λ t. pos 0 +ℤ t) rest
    ∙ omega int_laws

pub outs-paid : (outs : List Output) → total_paid (map payment_of outs) ≡ pos (total_value outs)
unfolding total_paid
outs-paid [] = refl
outs-paid (o ∷ outs) = ap (λ t. pos o.value +ℤ t) (outs-paid outs) ∙ omega int_laws

pub paid_in_full :
    (all_outs direct zeros rest both : ℤ)
    → all_outs ≡ both +ℤ rest
    → both ≡ direct +ℤ zeros
    → zeros ≡ pos 0
    → rest ≡ pos 0
    → direct ≡ all_outs
paid_in_full all_outs direct zeros rest both e f g h = sym (
    e
    ∙ ap (λ t. t +ℤ rest) (f ∙ ap (λ t. direct +ℤ t) g)
    ∙ ap (λ t. direct +ℤ pos 0 +ℤ t) h
    ∙ omega int_laws)
