-- ===== src/Policy/Admission.antt =====
-- Dictionaries after a write, and repeated requests (admit of tools/financial_semantics.py).
use core_drp.Prelude.{
  ℕ, ◌+◌, ◌≡◌, sym, ap, ◌∙◌, ◌⊎◌, inl, inr, true, false, some, Option-cases, Bool-cases, List, [],
  ◌∷◌, all, Bytes, bytes_eq, bytes_eq_refl, bytes_eq→eq,
}
use core_drp.Prelude.Int.{ℤ}
use core_drp.Result.{Result, ok, raise, value_error, ok-inj, raise≢ok}
use core_drp.Policy.{Sender, lookup, lookup_or, put, admit, admitted, scope_allows}

pub lookup-put {ℓ} :
    {A : Type ℓ} (k : Bytes) (a : A) (d : List (Bytes × A)) → lookup k (put k a d) ≡ some a
lookup-put k a [] = rw (bytes_eq_refl k)
lookup-put k a ((j, b) ∷ d) = elim (Bool-cases (bytes_eq j k)) [
  | inl e ↦ rw (e, put) (rw (e, lookup))
  | inr e ↦ rw (e, put) (rw (e, lookup) (lookup-put k a d))
]

pub lookup_or-put {ℓ} :
    {A : Type ℓ} (default a : A) (k : Bytes) (d : List (Bytes × A))
    → lookup_or default k (put k a d) ≡ a
lookup_or-put default a k [] = rw (bytes_eq_refl k)
lookup_or-put default a k ((j, b) ∷ d) = elim (Bool-cases (bytes_eq j k)) [
  | inl e ↦ rw (e, put) (rw (e, lookup_or))
  | inr e ↦ rw (e, put) (rw (e, lookup_or) (lookup_or-put default a k d))
]

pub lookup_or-put_other {ℓ} :
    {A : Type ℓ} (default a : A) (k i : Bytes) (d : List (Bytes × A))
    → bytes_eq k i ≡ false
    → lookup_or default i (put k a d) ≡ lookup_or default i d
lookup_or-put_other default a k i [] h = rw h
lookup_or-put_other default a k i ((j, b) ∷ d) h = elim (Bool-cases (bytes_eq j k)) [
  | inl e ↦
      let same : bytes_eq j i ≡ false = rw (bytes_eq→eq j k e) h in
      rw (e, put) (rw (same, lookup_or))
  | inr e ↦ elim (Bool-cases (bytes_eq j i)) [
    | inl f ↦ rw (e, put) (rw (f, lookup_or))
    | inr f ↦ rw (e, put) (rw (f, lookup_or) (lookup_or-put_other default a k i d h))
  ]
]

-- What admit does: it answers from the outcomes, it raises and changes nothing, or every check has
-- passed and the request is recorded.
pub admit-cases :
    (request : Bytes) (scopes : List Bytes) (time : ℤ) (s : Sender)
    → ((n : ℕ) × (lookup request s.outcomes ≡ some n) × (admit request scopes time s ≡ (ok n, s)))
      ⊎ ((admit request scopes time s ≡ (raise value_error, s))
          ⊎ ((all (scope_allows s time) scopes ≡ true)
              × (admit request scopes time s
                  ≡ (ok (s.last_sequence + 1), admitted request scopes time s))))
unfolding admit
admit-cases request scopes time s = elim (Option-cases (lookup request s.outcomes)) [
  | inr (n, e) ↦ inl (n, e, rw (e, admit))
  | inl e ↦ elim (Bool-cases (all (scope_allows s time) scopes)) [
    | inr f ↦ inr (inl (rw (e, admit) (rw f)))
    | inl f ↦ elim (Bool-cases s.admission_history_known) [
      | inr g ↦ inr (inl (rw (e, admit) (rw (f, g))))
      | inl g ↦ inr (inr (f, rw (e, admit) (rw (f, g))))
    ]
  ]
]

admit_held :
    (request : Bytes) (scopes : List Bytes) (time : ℤ) (s : Sender) (n : ℕ)
    → lookup request s.outcomes ≡ some n
    → admit request scopes time s ≡ (ok n, s)
unfolding admit
admit_held request scopes time s n h = rw (h, admit)

same_answer :
    {a b : ℕ} {s t : Sender} → ◌≡◌ {A = Result ℕ × Sender} (ok a, s) (ok b, t) → (a ≡ b) × (s ≡ t)
same_answer h = (ok-inj (ap (λ p. p.0) h), ap (λ p. p.1) h)

-- A request that was admitted has the same answer again, whatever scopes and time come with it, and
-- the repetition changes nothing.
pub admit_once :
    (request : Bytes) (scopes scopes' : List Bytes) (time time' : ℤ) (s s' : Sender) (n : ℕ)
    → admit request scopes time s ≡ (ok n, s')
    → admit request scopes' time' s' ≡ (ok n, s')
admit_once request scopes scopes' time time' s s' n h = elim (admit-cases request scopes time s) [
  | inl (m, held, e) ↦
      let (n_is, s_is) = same_answer (sym e ∙ h) in
      rw (← s_is, ← n_is) (admit_held request scopes' time' s m held)
  | inr (inl e) ↦ absurd (raise≢ok (ap (λ p. p.0) (sym e ∙ h)))
  | inr (inr (passed, e)) ↦
      let (n_is, s_is) = same_answer (sym e ∙ h) in
      rw (← s_is, ← n_is)
        (admit_held request scopes' time' (admitted request scopes time s) (s.last_sequence + 1)
          (lookup-put request (s.last_sequence + 1) s.outcomes))
]
