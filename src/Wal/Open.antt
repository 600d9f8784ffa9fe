-- ===== src/Wal/Open.antt =====
-- WAL.__init__ of reference/coredrp_ref/wal.py: the locks, the first anchor, and recovery.
use core_drp.Prelude.{
  Bool, true, false, not, ◌||◌, Option, none, some, [], ◌==◌, if◌then◌else◌, Bytes, bytes_eq,
}
use core_drp.Prelude.Int.{ℤ, pos, negsuc}
use core_drp.Result.{
  Result, ok, raise, failure, os_error, require, ◌>>=◌, ◌>>◌, wal_corruption, stream_already_active,
  recovery_gap, invalid_handshake, epoch_not_approved,
}
use core_drp.Wire.{genesis}
use core_drp.Wire.Messages.{Codec}
use core_drp.Wal.{
  Anchor, AnchorFile, absent, corrupt, saved, Disk, Wal, AnchorOutcome, Io, anchor_after,
}
use core_drp.Wal.Recover.{is_none, recover}

-- The outcome of creating events.wal: an OSError before there is a file, one from the fsync of the file
-- or the directory, or none.
pub data FileOutcome : Type 0 where
  not_created not_synced created : FileOutcome

-- What the process finds: whether the two lock files are free, and the outcomes of the write of a
-- first anchor and of the creation of events.wal.
pub record Opening : Type 0 where
  pub writer_free : Bool
  pub identity_free : Bool
  pub create : AnchorOutcome
  pub log : FileOutcome

-- The state of a log without events.
abbrev pub first_anchor : Bytes → Bytes → Bytes → ℤ → Anchor
first_anchor sender epoch root cap = record {
  sender = sender;
  epoch = epoch;
  tail = 0;
  tail_hash = root;
  ack = 0;
  ack_hash = root;
  receiver = none;
  incarnation = none;
  bound = false;
  cap = cap;
  last_time = pos 0;
  checkpoint = negsuc 0;
}

-- x is None or a==x
abbrev unless_given : Option Bytes → Bytes → Bool
unless_given none a = true
unless_given (some x) a = bytes_eq a x

module _ ⦃c : Codec⦄ where
  -- events.wal is created and synced, with its directory.
  unfoldable pub create_file : Anchor → FileOutcome → Io → Disk → Result Wal × Disk
  create_file a not_created io d = (raise os_error, d)
  create_file a not_synced io d = (raise os_error, record d { events_file = some []; synced = 0 })
  create_file a created io d = recover a [] io (record d { events_file = some []; synced = 0 })

  -- From the anchor that was read to the log.
  unfoldable pub open_anchor :
      Option Bytes → Option Bytes → Opening → Io → Anchor → Disk → Result Wal × Disk
  unfolding create_file
  open_anchor sender epoch o io a d =
      let checks = do
        require (unless_given sender a.sender) invalid_handshake
        require (unless_given epoch a.epoch) epoch_not_approved
        require o.identity_free stream_already_active
        require (not (is_none d.events_file) || (a.tail == 0)) wal_corruption
      in elim checks [
        | raise x ↦ (raise x, d)
        | ok _ ↦ elim d.events_file [
          | some log ↦ recover a log io d
          | none ↦ create_file a o.log io d
        ]
      ]

  -- The first anchor of a directory that has none.
  unfoldable pub create_anchor : Option Bytes → Option Bytes → ℤ → Disk → Result Anchor
  create_anchor (some sender) (some epoch) cap d = do
    require (is_none d.events_file) recovery_gap
    root ← genesis sender epoch
    ok (first_anchor sender epoch root cap)
  create_anchor _ _ cap d = raise (failure recovery_gap)

  -- The anchor is read, or a first one is written and then read.
  unfoldable pub open_file :
      Option Bytes → Option Bytes → ℤ → Opening → Io → AnchorFile → Disk → Result Wal × Disk
  open_file sender epoch cap o io (saved a) d = open_anchor sender epoch o io a d
  open_file sender epoch cap o io corrupt d = (raise (failure wal_corruption), d)
  open_file sender epoch cap o io absent d = elim (create_anchor sender epoch cap d) [
    | raise x ↦ (raise x, d)
    | ok a ↦
        let (file, returned) = anchor_after o.create a absent in
        let d' = record d { anchor_file = file } in
        if returned then open_anchor sender epoch o io a d' else (raise os_error, d')
  ]

  -- WAL(path,sender,epoch,cap)
  unfoldable pub open_wal :
      Option Bytes → Option Bytes → ℤ → Opening → Io → Disk → Result Wal × Disk
  unfolding open_file
  open_wal sender epoch cap o io d =
      if not o.writer_free
      then (raise (failure stream_already_active), d)
      else open_file sender epoch cap o io d.anchor_file d
