-- ===== src/Requests.antt =====
-- tools/request_encodings.py: the acceptance of a group of accounting effects under its identity. A
-- ValueError leaves the ledger as it was.
pub mod Groups
pub mod Admission
pub mod Schema
pub mod Registry
pub mod Encoding
pub mod Digest
pub mod Scalars
pub mod Injective
pub mod Arranged
pub mod Admin
use core_drp.Prelude.{
  ℕ, ◌≡◌, Bool, true, false, not, ◌&&◌, Option, none, some, List, ◌==◌, length, if◌then◌else◌,
  Bytes, bytes_eq, nonzero, from_hex,
}
use core_drp.Result.{Result, ok, raise, value_error, ◌>>=◌, ◌>>◌}
use core_drp.Policy.{demand, lookup, put}

-- value('uuid16',x)
unfoldable pub uuid16 : Bytes → Result Bytes
uuid16 x = elim (from_hex x) [
  | none ↦ raise value_error
  | some b ↦ (do demand ((length b == 16) && nonzero b); ok b)
]

pub data GroupOutcome : Type 0 where
  replay_no_effect commit_effects : GroupOutcome

-- The identity and the digest of each accounting identifier.
abbrev pub GroupLedger : Type 0
GroupLedger = List (Bytes × (Bytes × Bytes))

abbrev pub group_under :
    Bytes → Bytes → Bytes → GroupLedger → Option (Bytes × Bytes) → Result GroupOutcome × GroupLedger
group_under key identity digest ledger none = (ok commit_effects, put key (identity, digest) ledger)
group_under key identity digest ledger (some (i, d)) =
    if bytes_eq i identity && bytes_eq d digest
    then (ok replay_no_effect, ledger)
    else (raise value_error, ledger)

abbrev pub group_of : Bytes → Bytes → GroupLedger → Result Bytes → Result GroupOutcome × GroupLedger
group_of identity digest ledger (raise x) = (raise x, ledger)
group_of identity digest ledger (ok key) =
    if length digest == 32
    then group_under key identity digest ledger (lookup key ledger)
    else (raise value_error, ledger)

-- accept_group
unfoldable pub accept_group :
    GroupLedger → Bytes → Bytes → Bytes → Result GroupOutcome × GroupLedger
accept_group ledger accounting_id identity digest =
    group_of identity digest ledger (uuid16 accounting_id)
