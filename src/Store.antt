-- ===== src/Store.antt =====
-- reference/coredrp_ref/storage.py: the tables of the receiver's database, and its transactions. The
-- statements of the source are functions on the tables; the database keeps what a committed
-- transaction wrote and drops what a failed one wrote.
pub mod Session
pub mod Ingest
pub mod Rows
pub mod Stored
pub mod Taken
pub mod Replay
pub mod Fencing
use core_drp.Prelude.{
  ℕ, ◌≡◌, Bool, true, false, ◌&&◌, ◌||◌, Option, none, some, List, [], ◌∷◌, ◌==◌, if◌then◌else◌,
  Bytes, bytes_eq,
}
use core_drp.Prelude.Int.{ℤ}
use core_drp.Result.{Result, ok, raise}

-- coredrp_ref.streams, without its key
pub record StreamRow : Type 0 where
  pub epoch : Bytes
  pub head : ℕ
  pub chain : Bytes
  pub owner : ℕ
  pub checkpoint : ℤ
  pub last_time : ℤ
  pub binding : Bytes

-- coredrp_ref.events
pub record EventRow : Type 0 where
  pub sender : Bytes
  pub epoch : Bytes
  pub sequence : ℕ
  pub relay : Bytes
  pub event : Bytes
  pub payload : Bytes
  pub chain : Bytes

-- coredrp_ref.effects
pub record EffectRow : Type 0 where
  pub sender : Bytes
  pub epoch : Bytes
  pub sequence : ℕ
  pub complete_through : ℤ

-- coredrp_ref.admin: the identifier, the request digest and the action
pub record AdminRow : Type 0 where
  pub id : Bytes
  pub request : Bytes
  pub action : Bytes

pub record Db : Type 0 where
  pub identity : Option (Bytes × Bytes)
  pub streams : List (Bytes × StreamRow)
  pub events : List EventRow
  pub effects : List EffectRow
  pub admin : List AdminRow

-- SELECT ... FROM streams WHERE sender=...
abbrev pub find_stream : Bytes → List (Bytes × StreamRow) → Option StreamRow
find_stream s [] = none
find_stream s ((k, r) ∷ rows) = if bytes_eq k s then some r else find_stream s rows

-- UPDATE streams SET ... WHERE sender=...
abbrev pub update_stream :
    Bytes → (StreamRow → StreamRow) → List (Bytes × StreamRow) → List (Bytes × StreamRow)
update_stream s f [] = []
update_stream s f ((k, r) ∷ rows) =
    if bytes_eq k s then (k, f r) ∷ rows else (k, r) ∷ update_stream s f rows

-- The primary key of events and effects.
abbrev pub same_key : Bytes → Bytes → ℕ → Bytes → Bytes → ℕ → Bool
same_key s e n s' e' n' = bytes_eq s s' && (bytes_eq e e' && (n == n'))

-- SELECT ... FROM events WHERE sender=... AND epoch=... AND sequence=...
abbrev pub find_event : Bytes → Bytes → ℕ → List EventRow → Option EventRow
find_event s e n [] = none
find_event s e n (r ∷ rows) =
    if same_key r.sender r.epoch r.sequence s e n then some r else find_event s e n rows

abbrev pub find_effect : Bytes → Bytes → ℕ → List EffectRow → Option EffectRow
find_effect s e n [] = none
find_effect s e n (r ∷ rows) =
    if same_key r.sender r.epoch r.sequence s e n then some r else find_effect s e n rows

-- SELECT 1 FROM events WHERE relay=...
abbrev pub has_relay : Bytes → List EventRow → Bool
has_relay b [] = false
has_relay b (r ∷ rows) = bytes_eq r.relay b || has_relay b rows

-- SELECT request FROM admin WHERE id=...
abbrev pub find_admin : Bytes → List AdminRow → Option AdminRow
find_admin i [] = none
find_admin i (r ∷ rows) = if bytes_eq r.id i then some r else find_admin i rows

-- with db.transaction(): an exception rolls the tables back.
abbrev pub transaction {ℓ} : {A : Type ℓ} → Db → Result (A × Db) → Result A × Db
transaction d (ok (a, d')) = (ok a, d')
transaction d (raise x) = (raise x, d)
