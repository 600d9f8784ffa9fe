-- ===== src/Wal.antt =====
-- reference/coredrp_ref/wal.py: the sender's write-ahead log. This file has the state of class WAL,
-- the directory that it writes to, and the outcomes of the operations on that directory; the
-- methods are in the modules below.
pub mod Frame
pub mod Recover
pub mod Open
pub mod Admit
pub mod Peer
pub mod Invariant
pub mod Prepared
pub mod Scanning
pub mod Reopen
pub mod Extended
pub mod Durability
pub mod Crash
pub mod Keys
pub mod Retry
pub mod Opened
pub mod Establish
pub mod Acks
pub mod Termination
use core_drp.Prelude.{
  ℕ, zero, suc, Bool, true, false, Option, none, some, List, [], ◌∷◌, Bytes, bytes_eq,
  if◌then◌else◌,
}
use core_drp.Prelude.Int.{ℤ}
use core_drp.Result.{Exception, Result, ok, raise}
use core_drp.Wire.Messages.{Event}

-- The dictionary in anchor.json. Digests and identifiers are the bytes of its hexadecimal texts.
pub record Anchor : Type 0 where
  pub sender : Bytes
  pub epoch : Bytes
  pub tail : ℕ
  pub tail_hash : Bytes
  pub ack : ℕ
  pub ack_hash : Bytes
  pub receiver : Option Bytes
  pub incarnation : Option Bytes
  pub bound : Bool
  pub cap : ℤ
  pub last_time : ℤ
  pub checkpoint : ℤ

-- anchor.json: absent, not the text of an anchor with its digest, or an anchor.
pub data AnchorFile : Type 0 where
  absent corrupt : AnchorFile
  saved : Anchor → AnchorFile

-- The directory of a log. `events_file` is what a read of events.wal returns, and its first
-- `synced` bytes have been forced to the disk.
pub record Disk : Type 0 where
  pub anchor_file : AnchorFile
  pub events_file : Option Bytes
  pub synced : ℕ

-- self.keys: a caller's key, the digest of its request as a text, and its sequence.
abbrev pub Keys : Type 0
Keys = List (Bytes × Bytes × ℕ)

abbrev pub find_key : Bytes → Keys → Option (Bytes × ℕ)
find_key k [] = none
find_key k ((j, request, seq) ∷ ks) = if bytes_eq j k then some (request, seq) else find_key k ks

-- class WAL. sender and epoch are those of the anchor.
pub record Wal : Type 0 where
  pub healthy : Bool
  pub state : Anchor
  pub events : List Event
  pub hashes : List Bytes
  pub keys : Keys

-- The log object and its directory: what a method changes.
pub record Lab : Type 0 where
  pub wal : Wal
  pub disk : Disk

-- The outcome of `atomic` on the anchor: it returned; it raised before os.replace; or it raised
-- after it, at the fsync of the directory.
pub data AnchorOutcome : Type 0 where
  replaced kept replaced_unsynced : AnchorOutcome

-- How the operating system answers one call of a method: the bytes of the record that write takes
-- (`none`: it raises OSError), whether the fsync of events.wal returns, and the anchor.
pub record Io : Type 0 where
  pub write : Option ℕ
  pub fsync : Bool
  pub anchor : AnchorOutcome

abbrev pub quiet : Io
quiet = record { write = some 16777216; fsync = true; anchor = replaced }

-- Methods that may raise; what was written before stays written.
abbrev pub Op : Type 0 → Type 0
Op A = Lab → Result A × Lab

-- The anchor file after `atomic`, and whether `atomic` returned.
abbrev pub anchor_after : AnchorOutcome → Anchor → AnchorFile → AnchorFile × Bool
anchor_after replaced a f = (saved a, true)
anchor_after kept a f = (f, false)
anchor_after replaced_unsynced a f = (saved a, false)

-- hashes[-1]
abbrev pub last_hash : List Bytes → Bytes
last_hash [] = []
last_hash (h ∷ []) = h
last_hash (h ∷ g ∷ hs) = last_hash (g ∷ hs)
