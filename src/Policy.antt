-- ===== src/Policy.antt =====
-- tools/financial_semantics.py, the distribution of a scope's relay policy: admission of a request by
-- a sender, and the withdrawal of old permissions before a scope becomes RELAY_REQUIRED. A set is a
-- list, a dictionary is an association list, and a ValueError leaves what was written before it.
pub mod Receiver
pub mod Admission
pub mod Withdrawal
pub mod Commitment
use core_drp.Prelude.{
  ℕ, suc, ◌+◌, ◌≡◌, refl, Bool, true, false, not, ◌&&◌, ◌||◌, Option, none, some, List, [], ◌∷◌,
  ◌++◌, map, any, all, if◌then◌else◌, Bytes, bytes_eq,
}
use core_drp.Prelude.Int.{ℤ, pos, negsuc, ◌+ℤ◌, leb_ℤ, ltb_ℤ, eq_ℤ, max_ℤ}
use core_drp.Result.{Result, ok, raise, value_error, ◌>>=◌, ◌>>◌}

-- d.get(k)
abbrev pub lookup {ℓ} : {A : Type ℓ} → Bytes → List (Bytes × A) → Option A
lookup k [] = none
lookup k ((j, a) ∷ d) = if bytes_eq j k then some a else lookup k d

-- d.get(k,default)
abbrev pub lookup_or {ℓ} : {A : Type ℓ} → A → Bytes → List (Bytes × A) → A
lookup_or default k [] = default
lookup_or default k ((j, a) ∷ d) = if bytes_eq j k then a else lookup_or default k d

-- d[k]=a
abbrev pub put {ℓ} : {A : Type ℓ} → Bytes → A → List (Bytes × A) → List (Bytes × A)
put k a [] = (k, a) ∷ []
put k a ((j, b) ∷ d) = if bytes_eq j k then (j, a) ∷ d else (j, b) ∷ put k a d

-- k in xs
abbrev pub member : Bytes → List Bytes → Bool
member k = any (λ j. bytes_eq j k)

-- if not ok: raise ValueError
abbrev pub demand : Bool → Result (Unit {0})
demand true = ok tt
demand false = raise value_error

-- A demand that is met, and what follows it.
pub demand-eq-ok :
    {B : Type 0} (t : Bool) (k : Result B) {b : B}
    → (demand t >> k) ≡ ok b
    → (t ≡ true) × (k ≡ ok b)
demand-eq-ok true k h = (refl, h)
demand-eq-ok false k h = cc

pub data Mode : Type 0 where
  relay_required no_relay_required other_mode : Mode

-- state['policies'][q]
pub record Evidence : Type 0 where
  pub activated : Bool
  pub authorized : Bool
  pub contract : Bool
  pub generation : ℤ
  pub from : ℤ
  pub until : ℤ
  pub mode : Mode
  pub member_of_scope : Bool

-- The state of a sender. A cap is a generation with a boundary in time, and a record of the log is a
-- request with its scopes and its time.
pub record Sender : Type 0 where
  pub outcomes : List (Bytes × ℕ)
  pub policies : List (Bytes × Evidence)
  pub admission_caps : List (Bytes × List (ℤ × ℤ))
  pub admission_history_known : Bool
  pub last_sequence : ℕ
  pub wal : List (Bytes × List Bytes × ℤ)
  pub admitted_through : List (Bytes × ℤ)

-- No cap of a later generation stands at or before the time.
abbrev pub not_withdrawn : ℤ → ℤ → List (ℤ × ℤ) → Bool
not_withdrawn held time [] = true
not_withdrawn held time ((generation, boundary) ∷ caps) =
    not (ltb_ℤ held generation && leb_ℤ boundary time) && not_withdrawn held time caps

abbrev pub mode_allows : Evidence → Mode → Bool
mode_allows p relay_required = p.member_of_scope
mode_allows p no_relay_required = true
mode_allows p other_mode = false

-- The checks of one scope.
abbrev pub scope_allows : Sender → ℤ → Bytes → Bool
scope_allows s time q = elim (lookup q s.policies) [
  | none ↦ false
  | some p ↦
      p.activated
      && p.authorized
      && p.contract
      && not_withdrawn p.generation time (lookup_or [] q s.admission_caps)
      && leb_ℤ p.from time
      && ltb_ℤ time p.until
      && mode_allows p p.mode
]

-- The greatest time admitted for a scope.
abbrev pub through : Bytes → List (Bytes × ℤ) → ℤ
through = lookup_or (negsuc 0)

abbrev pub record_through : ℤ → List Bytes → List (Bytes × ℤ) → List (Bytes × ℤ)
record_through time [] d = d
record_through time (q ∷ qs) d = record_through time qs (put q (max_ℤ time (through q d)) d)

abbrev pub admitted : Bytes → List Bytes → ℤ → Sender → Sender
admitted request scopes time s = record s {
  wal = s.wal ++ (request, scopes, time) ∷ [];
  last_sequence = s.last_sequence + 1;
  admitted_through = record_through time scopes s.admitted_through;
  outcomes = put request (s.last_sequence + 1) s.outcomes;
}

-- admit
unfoldable pub admit : Bytes → List Bytes → ℤ → Sender → Result ℕ × Sender
admit request scopes time s = elim (lookup request s.outcomes) [
  | some sequence ↦ (ok sequence, s)
  | none ↦
      if not (all (scope_allows s time) scopes)
      then (raise value_error, s)
      else if not s.admission_history_known
      then (raise value_error, s)
      else (ok (s.last_sequence + 1), admitted request scopes time s)
]

-- no_live_dependencies; a status is compared with RESOLVED_RECONCILED.
unfoldable pub no_live_dependencies : List Bool → List Bool → Bool
no_live_dependencies dependencies reconciled =
    not (any (λ d. d) dependencies) && all (λ r. r) reconciled

-- What a receiver has pending for a scope.
pub record Pending : Type 0 where
  pub required : List Bytes
  pub members : List Bytes
  pub effective : ℤ
  pub generation : ℤ
  pub digest : Bytes
  pub acks : List Bytes
  pub scope : Bytes

abbrev pub Ack : Type 0
Ack = ℤ × Bytes

abbrev pub has_cap : ℤ → ℤ → List (ℤ × ℤ) → Bool
has_cap generation boundary [] = false
has_cap generation boundary ((g, b) ∷ caps) =
    (eq_ℤ g generation && eq_ℤ b boundary) || has_cap generation boundary caps

abbrev pub add_cap : ℤ → ℤ → List (ℤ × ℤ) → List (ℤ × ℤ)
add_cap generation boundary caps =
    if has_cap generation boundary caps then caps else caps ++ (generation, boundary) ∷ []

-- The sender with the cap of a withdrawal, which stays even when the withdrawal is rejected.
abbrev pub capped : Bytes → Pending → Sender → Sender
capped scope p s = record s {
  admission_caps =
      put scope (add_cap p.generation p.effective (lookup_or [] scope s.admission_caps))
        s.admission_caps;
}

-- Every record of the scope is before the boundary.
abbrev pub records_before : Bytes → ℤ → List (Bytes × List Bytes × ℤ) → Bool
records_before scope boundary [] = true
records_before scope boundary ((request, qs, t) ∷ log) =
    (not (member scope qs) || ltb_ℤ t boundary) && records_before scope boundary log

-- stage_withdrawal: the greatest of the admitted times is compared with the boundary, so each is.
unfoldable pub stage_withdrawal : Bytes → Pending → Sender → Result Ack × Sender
stage_withdrawal scope p s =
    if not s.admission_history_known
    then (raise value_error, capped scope p s)
    else if ltb_ℤ (through scope s.admitted_through) p.effective
        && records_before scope p.effective s.wal
    then (ok (p.generation, p.digest), capped scope p s)
    else (raise value_error, capped scope p s)
