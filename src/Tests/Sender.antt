-- ===== src/Tests/Sender.antt =====
-- Runs of the sender's log of reference/coredrp_ref/wal.py: a fresh directory is opened, bound, and
-- takes one checkpoint.
use core_drp.Prelude.{
  ℕ, zero, suc, IsBytes, ◌<◌, ◌≡◌, refl, true, false, none, some, [], ◌∷◌, ◌++◌, arith, replicate,
  Bytes, codes, be,
}
use core_drp.Prelude.Int.{ℤ, pos}
use core_drp.Sha256.{sha256}
use core_drp.Result.{Result, ok, raise}
use core_drp.Wire.{
  binding, uid, genesis, payload_hash, be_signed, payload_boundary, validate, chain_preimage, chain,
  checkpoint,
}
use core_drp.Wire.Handshake.{ServerHello}
use core_drp.Wal.{Anchor, absent, saved, Disk, Wal, Lab, quiet, replaced}
use core_drp.Wal.Frame.{header, frame}
use core_drp.Wal.Recover.{scan_from, scan, check_anchor, read_log, recover}
use core_drp.Wal.Open.{
  created, Opening, first_anchor, open_anchor, create_anchor, open_file, open_wal,
}
use core_drp.Wal.Admit.{entry_bytes, Prepared, save, prepare, request_digest}
use core_drp.Wal.Peer.{check_ack, acknowledge, check_hello, bind}
use core_drp.Wal.Invariant.{IsOpen}
use core_drp.Wal.Acks.{bind-IsOpen}
use core_drp.Wal.Durability.{IsNew}
use core_drp.Wire.Messages.{Event}
use core_drp.Tests.Codec.{codec, signed_be, sized, record_text, event_text}

abbrev pub sender : Bytes
sender = replicate 16 1

abbrev pub epoch : Bytes
epoch = replicate 16 2

abbrev pub relay : Bytes
relay = replicate 16 3

abbrev pub key : Bytes
key = codes "first"

abbrev pub free : Opening
free = record { writer_free = true; identity_free = true; create = replaced; log = created }

abbrev pub empty_directory : Disk
empty_directory = record { anchor_file = absent; events_file = none; synced = 0 }

pub replicate-IsBytes : (n x : ℕ) → x < 256 → IsBytes (replicate n x)
replicate-IsBytes zero x h = tt
replicate-IsBytes (suc n) x h = (h, replicate-IsBytes n x h)

-- The root of the chain of this sender and epoch.
abbrev pub root : Bytes
root = sha256 (codes "CoreDRP1-GENESIS" ++ sender ++ epoch ++ (0 ∷ []))

abbrev pub cap : ℤ
cap = pos 1048576

abbrev pub blank : Lab
blank = record {
  wal = record {
    healthy = false;
    state = first_anchor sender epoch [] cap;
    events = [];
    hashes = [];
    keys = [];
  };
  disk = empty_directory;
}

abbrev pub lab_of : Result Wal × Disk → Lab
lab_of (ok w, d) = record { wal = w; disk = d }
lab_of (raise x, d) = blank

-- The log after its first opening.
abbrev pub fresh : Lab
fresh = record {
  wal = record {
    healthy = true;
    state = first_anchor sender epoch root cap;
    events = [];
    hashes = root ∷ [];
    keys = [];
  };
  disk = record {
    anchor_file = saved (first_anchor sender epoch root cap);
    events_file = some [];
    synced = 0;
  };
}

pub open_fresh :
    open_wal ⦃c = codec⦄ (some sender) (some epoch) cap free quiet empty_directory
    ≡ (ok fresh.wal, fresh.disk)
unfolding sha256 be binding uid genesis scan_from scan check_anchor read_log recover open_anchor
    create_anchor open_file open_wal
open_fresh = refl

pub fresh-IsOpen : IsOpen ⦃c = codec⦄ fresh []
unfolding sha256 be uid genesis scan_from scan
fresh-IsOpen = record {
  healthy = refl;
  file = refl;
  synced = refl;
  anchored = refl;
  scanned = refl;
  tail_end = refl;
  hash_count = refl;
  tail_hash = refl;
  ack_bound = omega arith;
  ack_hash = refl;
}

-- The receiver's answer to the first hello.
abbrev pub first_answer : ServerHello
first_answer = record {
  protocol_major = 1;
  protocol_minor = 1;
  receiver_id = replicate 16 4;
  receiver_database_epoch = replicate 16 5;
  committed_sequence = 0;
  committed_chain_hash = root;
  has_profiles = false;
  accepted_event_types = 1 ∷ [];
  max_event_payload_bytes = 4096;
  max_batch_payload_bytes = 131072;
  window_events = 32;
  window_bytes = 131072;
  contract_binding_digest = binding;
  max_batch_events = 32;
  has_scope_contracts = false;
}

abbrev pub bound_anchor : Anchor
bound_anchor = record fresh.wal.state {
  receiver = some (replicate 16 4);
  incarnation = some (replicate 16 5);
  bound = true;
}

abbrev pub bound_lab : Lab
bound_lab = record {
  wal = record fresh.wal { state = bound_anchor };
  disk = record fresh.disk { anchor_file = saved bound_anchor };
}

pub bind_fresh : bind first_answer replaced replaced fresh ≡ (ok tt, bound_lab)
unfolding sha256 be binding save check_ack acknowledge check_hello bind
bind_fresh = refl

pub bound_lab-IsOpen : IsOpen ⦃c = codec⦄ bound_lab []
bound_lab-IsOpen =
    (bind-IsOpen ⦃c = codec⦄ fresh [] fresh-IsOpen first_answer replaced replaced bound_lab
      bind_fresh).5

abbrev pub first_event : Event
first_event = record {
  sequence = 1;
  event_type = 1;
  scope = [];
  event_time_unix_ms = pos 5000;
  payload = be_signed (pos 4000);
  relay_event_id = relay;
}

abbrev pub first_hash : Bytes
first_hash = sha256 (chain_preimage ⦃c = codec⦄ root sender epoch first_event)

abbrev pub first_request : Bytes
first_request = request_digest ⦃c = codec⦄ (pos 5000) (pos 4000)

abbrev pub first : Prepared
first = record {
  event = first_event;
  chain_hash = first_hash;
  request = first_request;
  bytes = entry_bytes ⦃c = codec⦄ key first_request first_event first_hash;
}

pub first-IsNew : IsNew ⦃c = codec⦄ bound_lab [] key (pos 5000) (pos 4000) relay first
unfolding sha256 be binding uid genesis payload_hash be_signed payload_boundary validate
    chain_preimage chain checkpoint header frame prepare request_digest signed_be sized record_text
    event_text
first-IsNew = record {
  key_nonempty = omega arith;
  key_short = omega arith;
  relay_is_bytes = replicate-IsBytes 16 3 (omega arith);
  fresh = refl;
  prepared = refl;
}
