-- ===== src/Tests/DrainRuns.antt =====
-- The theorems on drain of reference/coredrp_ref/transport.py at the runs of Sender.
use core_drp.Prelude.{
  ◌↔◌, ℕ, ◌≡◌, ◌≤◌, refl, arith, false, some, none, List, [], ◌∷◌, min, be, zero, suc,
}
use core_drp.Result.{ok}
use core_drp.Wire.{charge, be_signed}
use core_drp.Wire.Messages.{Event}
use core_drp.Store.Ingest.{check_batch, validate_all, Batch}
use core_drp.Transport.Drain.{Limits, limits_of, Drain, pick, batch_of, send_batch}
use core_drp.Transport.Batches.{check_batch-pick}
use core_drp.Transport.Recovery.{
  Attempt, connection_lost, drained, attempt_from, sync, Drained, sync-Drained,
}
use core_drp.Prelude.Int.{◌≤ℤ◌, pos}
use core_drp.Transport.Progress.{send_batch-progress}
use core_drp.Tests.Codec.{codec}
use core_drp.Tests.Sender.{first_answer, first_event, bound_lab, fresh}

abbrev limits : Limits
limits = limits_of first_answer

first_picked : pick limits 32 131072 0 0 (first_event ∷ []) ≡ ok (first_event ∷ [])
unfolding pick limits_of charge be_signed be
first_picked = refl

check_batch-pick_example :
    check_batch ⦃c = codec⦄ (batch_of fresh.wal (first_event ∷ [])) 32 131072
    ≡ validate_all ⦃c = codec⦄ (first_event ∷ [])
check_batch-pick_example =
    check_batch-pick ⦃c = codec⦄ fresh.wal first_answer 32 131072 (first_event ∷ []) first_event []
      first_picked

-- A log with the first event, ready to send it.
abbrev ready : Drain
ready = record {
  lab = record bound_lab { wal = record bound_lab.wal { events = first_event ∷ [] } };
  window_events = 32;
  window_bytes = 131072;
  waiting_heartbeat = false;
  inflight = none;
}

abbrev sent : Batch
sent = batch_of ready.lab.wal (first_event ∷ [])

ready_sends : send_batch limits ready ≡ ok (some sent, record ready { inflight = some 1 })
unfolding send_batch pick limits_of charge be_signed be
ready_sends = refl

charge_fits : charge first_event ≤ min 131072 limits.batch_bytes
unfolding charge limits_of be_signed be
charge_fits = omega arith

send_batch-progress_example :
    (rest : List Event) × (some sent ≡ some (batch_of ready.lab.wal (first_event ∷ rest)))
send_batch-progress_example =
    send_batch-progress limits ready (record ready { inflight = some 1 }) (some sent) first_event []
      refl refl (unfold limits_of in omega arith) charge_fits ready_sends

-- A sync whose second attempt drains.
abbrev second_drains : ℕ → Attempt
second_drains zero = connection_lost
second_drains (suc n) = drained 7

synced : sync second_drains 3 (pos 1000) (pos 10000) ≡ ok 7
unfolding sync attempt_from
synced = refl

sync-Drained_example : (sync second_drains 3 (pos 1000) (pos 10000) ≡ ok 7) ↔ (
    (1 ≤ 3)
    × (3 ≤ 100)
    × (pos 0 ≤ℤ pos 1000)
    × (pos 1000 ≤ℤ pos 60000)
    × (pos 1 ≤ℤ pos 10000)
    × (pos 10000 ≤ℤ pos 300000)
    × Drained second_drains 0 3 7)
sync-Drained_example = sync-Drained second_drains 3 7 (pos 1000) (pos 10000)
