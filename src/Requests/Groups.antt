-- ===== src/Requests/Groups.antt =====
-- A group of effects is committed once (accept_group of tools/request_encodings.py).
use core_drp.Prelude.{
  ◌≡◌, refl, List, [], ◌∷◌, true, false, bytes_eq→eq, sym, ap, ◌∙◌, inl, inr, ◌&&◌, Bool-cases,
  Option, none, some, ◌==◌, length, Bytes, bytes_eq, bytes_eq_refl,
}
use core_drp.Result.{ok, Result-cases, raise≢ok}
use core_drp.Policy.{lookup, put}
use core_drp.Policy.Admission.{lookup-put}
use core_drp.Requests.{
  uuid16, replay_no_effect, commit_effects, GroupLedger, group_under, group_of, accept_group,
}

held_again :
    (ledger ledger' : GroupLedger) (key identity digest : Bytes) (o : Option (Bytes × Bytes))
    → group_under key identity digest ledger o ≡ (ok commit_effects, ledger')
    → lookup key ledger' ≡ some (identity, digest)
held_again ledger ledger' key identity digest none h =
    ap (lookup key) (sym (ap (λ p. p.1) h)) ∙ lookup-put key (identity, digest) ledger
held_again ledger ledger' key identity digest (some (i, d)) h =
    elim (Bool-cases (bytes_eq i identity && bytes_eq d digest)) [
      | inl e ↦ absurd (cc (ap (λ p. p.0) (rw e at h)))
      | inr e ↦ absurd (cc (ap (λ p. p.0) (rw e at h)))
    ]

committed-held :
    (ledger ledger' : GroupLedger) (key identity digest : Bytes)
    → group_of identity digest ledger (ok key) ≡ (ok commit_effects, ledger')
    → ((length digest == 32) ≡ true) × (lookup key ledger' ≡ some (identity, digest))
committed-held ledger ledger' key identity digest h = elim (Bool-cases (length digest == 32)) [
  | inr e ↦ absurd (cc (ap (λ p. p.0) (rw e at h)))
  | inl e ↦ (e, held_again ledger ledger' key identity digest (lookup key ledger) (rw e at h))
]

lookup-put_other :
    {A : Type 0} (k j : Bytes) (a : A) (d : List (Bytes × A))
    → bytes_eq j k ≡ false
    → lookup k (put j a d) ≡ lookup k d
lookup-put_other k j a [] h = rw h
lookup-put_other k j a ((i, b) ∷ d) h = elim (Bool-cases (bytes_eq i j)) [
  | inl e ↦
      let same : bytes_eq i k ≡ false = rw (bytes_eq→eq i j e) h in rw (e, put) (rw (same, lookup))
  | inr e ↦ elim (Bool-cases (bytes_eq i k)) [
    | inl f ↦ rw (e, put) (rw (f, lookup))
    | inr f ↦ rw (e, put) (rw (f, lookup) (lookup-put_other k j a d h))
  ]
]

-- A group that the ledger holds stays in it, whichever group comes.
group_under-held :
    (ledger : GroupLedger) (key key' identity digest : Bytes) (held : Bytes × Bytes)
    (o : Option (Bytes × Bytes))
    → lookup key' ledger ≡ o
    → lookup key ledger ≡ some held
    → lookup key (group_under key' identity digest ledger o).1 ≡ some held
group_under-held ledger key key' identity digest held (some (i, d)) is h =
    elim (Bool-cases (bytes_eq i identity && bytes_eq d digest)) [ inl e ↦ rw e h | inr e ↦ rw e h ]
group_under-held ledger key key' identity digest held none is h =
    elim (Bool-cases (bytes_eq key' key)) [
      | inl same ↦ absurd (cc (h, is, bytes_eq→eq key' key same))
      | inr other ↦ lookup-put_other key key' (identity, digest) ledger other ∙ h
    ]

accept_group-held :
    (ledger : GroupLedger) (key accounting_id identity digest : Bytes) (held : Bytes × Bytes)
    → lookup key ledger ≡ some held
    → lookup key (accept_group ledger accounting_id identity digest).1 ≡ some held
unfolding accept_group
accept_group-held ledger key accounting_id identity digest held h =
    elim (Result-cases (uuid16 accounting_id)) [
      | inr (x, e) ↦ rw e h
      | inl (key', e) ↦ elim (Bool-cases (length digest == 32)) [
        | inr f ↦ rw (e, f) h
        | inl f ↦
            rw (e, f)
              (group_under-held ledger key key' identity digest held (lookup key' ledger) refl h)
      ]
    ]

-- The ledger after some calls, each with its accounting identifier, identity and digest.
unfoldable pub accept_all : List (Bytes × Bytes × Bytes) → GroupLedger → GroupLedger
accept_all [] ledger = ledger
accept_all ((accounting_id, identity, digest) ∷ calls) ledger =
    accept_all calls (accept_group ledger accounting_id identity digest).1

accept_all-held :
    (calls : List (Bytes × Bytes × Bytes)) (ledger : GroupLedger) (key : Bytes)
    (held : Bytes × Bytes)
    → lookup key ledger ≡ some held
    → lookup key (accept_all calls ledger) ≡ some held
unfolding accept_all
accept_all-held [] ledger key held h = h
accept_all-held ((accounting_id, identity, digest) ∷ calls) ledger key held h =
    accept_all-held calls (accept_group ledger accounting_id identity digest).1 key held
      (accept_group-held ledger key accounting_id identity digest held h)

-- A group whose effects were committed is a replay without effect when it comes again with the same
-- identity and digest after any other calls, accepted or refused, and the ledger stays as those left
-- it.
pub accept_group_once :
    (ledger ledger' : GroupLedger) (accounting_id identity digest : Bytes)
    (calls : List (Bytes × Bytes × Bytes))
    → accept_group ledger accounting_id identity digest ≡ (ok commit_effects, ledger')
    → accept_group (accept_all calls ledger') accounting_id identity digest
      ≡ (ok replay_no_effect, accept_all calls ledger')
unfolding accept_group
accept_group_once ledger ledger' accounting_id identity digest calls h =
    elim (Result-cases (uuid16 accounting_id)) [
      | inr (x, e) ↦
          absurd (raise≢ok (ap (λ p. p.0) (sym (ap (group_of identity digest ledger) e) ∙ h)))
      | inl (key, e) ↦
          let (sized, held) =
            committed-held ledger ledger' key identity digest
              (sym (ap (group_of identity digest ledger) e) ∙ h) in
          ap (group_of identity digest (accept_all calls ledger')) e
          ∙ rw sized (
              ap (group_under key identity digest (accept_all calls ledger'))
                (accept_all-held calls ledger' key (identity, digest) held)
              ∙ rw (bytes_eq_refl identity, bytes_eq_refl digest))
    ]
