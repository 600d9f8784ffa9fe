-- ===== src/Policy/Receiver.antt =====
-- The receiver's side of tools/financial_semantics.py: the holders of a permission, and the change of
-- a scope to RELAY_REQUIRED.
use core_drp.Prelude.{
  Bool, true, false, not, ◌&&◌, ◌||◌, Option, none, some, List, [], ◌∷◌, ◌++◌, all, if◌then◌else◌,
  Bytes, bytes_eq,
}
use core_drp.Prelude.Int.{ℤ, pos, leb_ℤ, eq_ℤ, max_ℤ}
use core_drp.Result.{Result, ok, raise, value_error, type_error}
use core_drp.Policy.{
  Mode, relay_required, no_relay_required, other_mode, Pending, Ack, lookup_or, put, member,
}

pub record Receiver : Type 0 where
  pub pending : Option Pending
  pub mode : Mode
  pub holders : List Bytes
  pub holder_skews : List (Bytes × ℤ)
  pub committed_history_known : Bool
  pub committed_through : List (Bytes × Bytes × ℤ)

-- xs.add(x)
abbrev pub add : Bytes → List Bytes → List Bytes
add x xs = if member x xs then xs else xs ++ x ∷ []

abbrev pub subset : List Bytes → List Bytes → Bool
subset xs ys = all (λ x. member x ys) xs

-- Equality of sets.
abbrev pub same_set : List Bytes → List Bytes → Bool
same_set xs ys = subset xs ys && subset ys xs

abbrev pub no_members : List Bytes → Bool
no_members [] = true
no_members (x ∷ xs) = false

abbrev pub permits : Mode → Bool
permits no_relay_required = true
permits relay_required = false
permits other_mode = false

-- issue_no_relay
unfoldable pub issue_no_relay : Bytes → ℤ → Receiver → Result (Unit {0}) × Receiver
issue_no_relay sender skew r = elim r.pending [
  | some p ↦ (raise value_error, r)
  | none ↦ if not (permits r.mode) then (raise value_error, r) else (
    ok tt,
    record r {
      holders = add sender r.holders;
      holder_skews =
          put sender (max_ℤ skew (lookup_or (pos 0) sender r.holder_skews)) r.holder_skews;
    },
  )
]

-- prepare_required
unfoldable pub prepare_required :
    List Bytes → ℤ → ℤ → Bytes → Bytes → Receiver → Result (Unit {0}) × Receiver
prepare_required members effective generation digest scope r = elim r.pending [
  | some p ↦ (raise value_error, r)
  | none ↦ if no_members members then (raise value_error, r) else (
    ok tt,
    record r {
      pending = some (record {
        required = members ++ r.holders;
        members = members;
        effective = effective;
        generation = generation;
        digest = digest;
        acks = [];
        scope = scope;
      });
    },
  )
]

abbrev pub is_ack : Ack → Pending → Bool
is_ack (generation, digest) p = eq_ℤ generation p.generation && bytes_eq digest p.digest

-- acknowledge_required, by what is pending; without a transition None is indexed.
abbrev pub acknowledge_pending :
    Bytes → Ack → Receiver → Option Pending → Result (Unit {0}) × Receiver
acknowledge_pending sender ack r none = (raise type_error, r)
acknowledge_pending sender ack r (some p) =
    if not (member sender p.required) || not (is_ack ack p)
    then (raise value_error, r)
    else (ok tt, record r { pending = some (record p { acks = add sender p.acks }) })

unfoldable pub acknowledge_required : Bytes → Ack → Receiver → Result (Unit {0}) × Receiver
acknowledge_required sender ack r = acknowledge_pending sender ack r r.pending

-- Nothing committed in the scope is at or after the time.
abbrev pub committed_before : Bytes → ℤ → List (Bytes × Bytes × ℤ) → Bool
committed_before scope effective [] = true
committed_before scope effective ((stream, q, t) ∷ d) =
    not (bytes_eq q scope && leb_ℤ effective t) && committed_before scope effective d

-- commit_required, by what is pending
abbrev pub commit_pending : Receiver → Option Pending → Result (Unit {0}) × Receiver
commit_pending r none = (raise type_error, r)
commit_pending r (some p) =
    if not (same_set p.required (p.members ++ r.holders)) || not (same_set p.acks p.required)
    then (raise value_error, r)
    else if not r.committed_history_known
    then (raise value_error, r)
    else if not (committed_before p.scope p.effective r.committed_through)
    then (raise value_error, r)
    else (ok tt, record r { mode = relay_required; pending = none })

unfoldable pub commit_required : Receiver → Result (Unit {0}) × Receiver
commit_required r = commit_pending r r.pending
