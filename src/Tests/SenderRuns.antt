-- ===== src/Tests/SenderRuns.antt =====
-- The theorems on the sender's log at the runs of Sender.
use core_drp.Prelude.{
  ◌≡◌, ◌≢◌, ◌⊎◌, refl, ap, from_be, be, arith, true, [], ◌∷◌, ◌++◌, List, replicate, some,
  get_elem?, Bytes, codes, take, length, ◌<◌,
}
use core_drp.Prelude.Int.{pos}
use core_drp.Sha256.{sha256, sha256-IsBytes}
use core_drp.Result.{ok, raise, failure, idempotency_key_conflict, wal_corruption}
use core_drp.Wire.{
  charge, binding, uid, genesis, payload_hash, be_signed, payload_boundary, validate,
  chain_preimage, chain, checkpoint,
}
use core_drp.Wire.Chain.{AllOfBytes, LogCollision, chain_log, chain_log-inj}
use core_drp.Wire.Collides.{be_signed-IsBytes}
use core_drp.Wal.{quiet, replaced, Lab, Io, Anchor, saved}
use core_drp.Wal.Peer.{hello, check_hello, bind, check_ack, acknowledge}
use core_drp.Wal.Frame.{header, frame, read_frame, read_frame-frame, read_frame-partial}
use core_drp.Wal.Admit.{save, commit, prepare, request_digest, admit_new, admit_checkpoint}
use core_drp.Wal.Invariant.{IsOpen, as_scan}
use core_drp.Wal.Extended.{after, found_after}
use core_drp.Wal.Durability.{reopen}
use core_drp.Wal.Crash.{admit_new-ok, reopen_after_crash}
use core_drp.Wal.Termination.{HasFuel, scan-HasFuel}
use core_drp.Wal.Opened.{IsLog, scan-IsLog}
use core_drp.Wal.Recover.{scan, scan_from}
use core_drp.Wal.Retry.{Call, admit_call, ack_call, after_calls, retry_once, retry_conflict}
use core_drp.Wal.Establish.{open_wal-IsOpen}
use core_drp.Wal.Acks.{IsBindable, bind-IsOpen}
use core_drp.Transport.{server_hello, heartbeat, ack}
use core_drp.Transport.Drain.{batch_of, pick, limits_of, check_answer}
use core_drp.Transport.Loop.{Arrivals, drain}
use core_drp.Transport.Drained.{IsDone, drain-IsDone}
use core_drp.Tests.Codec.{codec, codec-IsCodec, signed_be, sized, record_text, event_text}
use core_drp.Tests.Sender.{
  replicate-IsBytes, sender, epoch, relay, key, free, empty_directory, root, cap, fresh, open_fresh,
  fresh-IsOpen, first_answer, bound_lab, bind_fresh, bound_lab-IsOpen, first_event, first_hash,
  first, first-IsNew,
}

abbrev torn : Io
torn = record { write = some 40; fsync = true; anchor = replaced }

reopen_after_crash_example :
    (reopen ⦃c = codec⦄ cap free quiet
      (admit_checkpoint ⦃c = codec⦄ key (pos 5000) (pos 4000) relay torn bound_lab).1.disk).0
    ≡ found_after bound_lab key (pos 5000) (pos 4000) first 40
reopen_after_crash_example =
    reopen_after_crash ⦃c = codec⦄ codec-IsCodec bound_lab [] key (pos 5000) (pos 4000) relay first
      bound_lab-IsOpen first-IsNew free torn quiet cap
      (record { writer = refl; identity = refl; fsync = refl; anchor = refl })

open_wal-IsOpen_example :
    (log : Bytes) × IsOpen ⦃c = codec⦄ (record { wal = fresh.wal; disk = fresh.disk }) log
open_wal-IsOpen_example =
    open_wal-IsOpen ⦃c = codec⦄ (some sender) (some epoch) free quiet fresh.wal fresh.disk cap
      empty_directory open_fresh

bind-IsOpen_example :
    IsBindable fresh.wal first_answer
    × (bound_lab.wal.state.bound ≡ true)
    × (bound_lab.wal.state.receiver ≡ some first_answer.receiver_id)
    × (bound_lab.wal.state.ack ≡ first_answer.committed_sequence)
    × (get_elem? bound_lab.wal.hashes first_answer.committed_sequence
        ≡ some first_answer.committed_chain_hash)
    × IsOpen ⦃c = codec⦄ bound_lab []
bind-IsOpen_example =
    bind-IsOpen ⦃c = codec⦄ fresh [] fresh-IsOpen first_answer replaced replaced bound_lab
      bind_fresh

-- The log with the first event.
abbrev second_lab : Lab
second_lab = after bound_lab [] key (pos 5000) (pos 4000) first

first_admitted :
    admit_checkpoint ⦃c = codec⦄ key (pos 5000) (pos 4000) relay quiet bound_lab
    ≡ (ok 1, second_lab)
unfolding sha256 be binding uid genesis payload_hash be_signed payload_boundary validate
    chain_preimage chain checkpoint header frame prepare request_digest signed_be sized record_text
    event_text save commit admit_new admit_checkpoint
first_admitted = refl

admit_new-ok_example :
    (1 ≡ first.event.sequence)
    × (second_lab ≡ after bound_lab [] key (pos 5000) (pos 4000) first)
    × IsOpen ⦃c = codec⦄ second_lab ([] ++ first.bytes)
admit_new-ok_example =
    admit_new-ok ⦃c = codec⦄ codec-IsCodec bound_lab [] key (pos 5000) (pos 4000) relay first
      bound_lab-IsOpen first-IsNew quiet 1 second_lab first_admitted

-- The receiver greets, answers the heartbeat, and acknowledges the first event.
abbrev arrivals : Arrivals
arrivals =
    (replaced, server_hello first_answer)
    ∷ (replaced, heartbeat 0)
    ∷ (replaced, ack (record { committed_through_sequence = 1; committed_chain_hash = first_hash }))
    ∷ []

abbrev drained_anchor : Anchor
drained_anchor = record second_lab.wal.state { ack = 1; ack_hash = first_hash }

abbrev drained_lab : Lab
drained_lab = record {
  wal = record second_lab.wal { state = drained_anchor };
  disk = record second_lab.disk { anchor_file = saved drained_anchor };
}

drains :
    drain first_answer.receiver_id first_answer.receiver_id replaced replaced arrivals second_lab
    ≡ (ok tt, drained_lab, batch_of second_lab.wal (first_event ∷ []) ∷ [])
unfolding drain hello sha256 be binding save check_ack acknowledge check_hello bind pick limits_of
    charge be_signed check_answer chain_preimage payload_hash
drains = refl

drain-IsDone_example :
    (first_answer.receiver_id ≡ first_answer.receiver_id)
    × IsDone ⦃c = codec⦄ ([] ++ first.bytes) second_lab drained_lab
drain-IsDone_example =
    drain-IsDone ⦃c = codec⦄ ([] ++ first.bytes) first_answer.receiver_id first_answer.receiver_id
      replaced replaced arrivals second_lab drained_lab
      (batch_of second_lab.wal (first_event ∷ []) ∷ []) admit_new-ok_example.2 drains

-- A call with another key and an acknowledgement, behind the first call.
abbrev further : List Call
further =
    admit_call (codes "second") (pos 6000) (pos 5000) (replicate 16 9) quiet
    ∷ ack_call 1 first_hash replaced
    ∷ []

further_open : (after_calls ⦃c = codec⦄ further second_lab).wal.healthy ≡ true
unfolding sha256 be binding uid genesis payload_hash be_signed payload_boundary validate
    chain_preimage chain checkpoint header frame save commit prepare request_digest admit_new
    admit_checkpoint check_ack acknowledge after_calls signed_be sized record_text event_text
further_open = refl

retry_once_example :
    admit_checkpoint ⦃c = codec⦄ key
      (pos 5000)
      (pos 4000)
      (replicate 16 8)
      quiet
      (after_calls ⦃c = codec⦄ further second_lab)
    ≡ (ok 1, after_calls ⦃c = codec⦄ further second_lab)
retry_once_example =
    retry_once ⦃c = codec⦄ key (pos 5000) (pos 4000) relay quiet bound_lab second_lab 1
      first_admitted further (replicate 16 8) quiet further_open

other_request :
    request_digest ⦃c = codec⦄ (pos 5000) (pos 4000)
    ≢ request_digest ⦃c = codec⦄ (pos 6000) (pos 4000)
unfolding request_digest sha256 be be_signed
other_request e = omega (arith, ap from_be e)

retry_conflict_example :
    admit_checkpoint ⦃c = codec⦄ key
      (pos 6000)
      (pos 4000)
      (replicate 16 8)
      quiet
      (after_calls ⦃c = codec⦄ further second_lab)
    ≡ (raise (failure idempotency_key_conflict), after_calls ⦃c = codec⦄ further second_lab)
retry_conflict_example =
    retry_conflict ⦃c = codec⦄ key (pos 5000) (pos 4000) relay quiet bound_lab second_lab 1
      first_admitted further (replicate 16 8) quiet further_open (pos 6000) (pos 4000) other_request

first_chained : chain_log ⦃c = codec⦄ root sender epoch (first_event ∷ []) ≡ ok first_hash
unfolding sha256 be be_signed uid payload_hash payload_boundary validate chain_preimage chain
    chain_log signed_be
first_chained = refl

first_AllOfBytes : AllOfBytes (first_event ∷ [])
first_AllOfBytes = (
  record {
    payload_is_bytes = be_signed-IsBytes (pos 4000);
    relay_is_bytes = replicate-IsBytes 16 3 (omega arith);
  },
  tt,
)

chain_log-inj_example :
    ((root ≡ root) × (first_event ∷ [] ≡ first_event ∷ []))
    ⊎ LogCollision ⦃c = codec⦄ sender epoch root root (first_event ∷ []) (first_event ∷ [])
chain_log-inj_example =
    chain_log-inj ⦃c = codec⦄ sender epoch root root (first_event ∷ []) (first_event ∷ [])
      (replicate-IsBytes 16 1 (omega arith)) (replicate-IsBytes 16 2 (omega arith))
      (sha256-IsBytes _) (sha256-IsBytes _) first_AllOfBytes first_AllOfBytes refl refl
      first_chained first_chained

scan-HasFuel_example : HasFuel (scan ⦃c = codec⦄ sender epoch (codes "not a log"))
scan-HasFuel_example = scan-HasFuel ⦃c = codec⦄ sender epoch (codes "not a log")

acknowledged : acknowledge 0 root replaced bound_lab ≡ (ok tt, bound_lab)
unfolding sha256 be check_ack acknowledge
acknowledged = refl

empty_scanned : scan ⦃c = codec⦄ sender epoch [] ≡ ok (as_scan fresh.wal)
unfolding sha256 be uid genesis scan_from scan
empty_scanned = refl

scan-IsLog_example :
    (r : Bytes) × (genesis sender epoch ≡ ok r)
    × IsLog ⦃c = codec⦄ sender epoch r (as_scan fresh.wal)
scan-IsLog_example = scan-IsLog ⦃c = codec⦄ sender epoch [] (as_scan fresh.wal) empty_scanned

read_frame-frame_example :
    read_frame (frame (codes "text") ++ codes "more") ≡ ok (codes "text", codes "more")
read_frame-frame_example =
    read_frame-frame (codes "text") (codes "more") (omega arith) (omega arith)

short : 20 < length (frame (codes "text"))
unfolding frame header sha256 be
short = omega arith

read_frame-partial_example :
    read_frame (take 20 (frame (codes "text"))) ≡ raise (failure wal_corruption)
read_frame-partial_example = read_frame-partial (codes "text") (omega arith) 20 short
