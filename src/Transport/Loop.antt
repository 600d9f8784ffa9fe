-- ===== src/Transport/Loop.antt =====
-- drain of reference/coredrp_ref/transport.py as a whole: the handshake, its loop over the frames of
-- the receiver, and the frames behind the goodbye. The list holds the frames in the order in which
-- they arrive, each with what becomes of the anchor that it may cause to be written; where it ends,
-- recv_message gives None.
use core_drp.Prelude.{not, Option, none, some, List, [], ◌∷◌, ◌++◌, if◌then◌else◌, Bytes, bytes_eq}
use core_drp.Result.{
  Result, ok, raise, failure, invalid_handshake, receiver_id_changed,
  receiver_durability_unavailable,
}
use core_drp.Wal.{Lab, AnchorOutcome}
use core_drp.Wal.Peer.{hello}
use core_drp.Store.Ingest.{Batch}
use core_drp.Transport.{ServerFrame, server_hello, error}
use core_drp.Transport.Drain.{Limits, limits_of, Drain, goes_on, send_batch, on_answer, greet}

abbrev pub Arrivals : Type 0
Arrivals = List (AnchorOutcome × ServerFrame)

-- What drain ends with: its result, the log, and the batches it has sent.
abbrev pub Outcome : Type 0
Outcome = Result (Unit {0}) × Lab × List Batch

-- The frames behind the goodbye: only an error counts.
abbrev pub closing : Arrivals → Result (Unit {0})
closing [] = ok tt
closing ((_, error code d) ∷ frames) = raise (failure code)
closing ((_, _) ∷ frames) = closing frames

abbrev pub with_sent : List Batch → Option Batch → List Batch
with_sent sent none = sent
with_sent sent (some b) = sent ++ b ∷ []

-- The rest of a turn, once the frame is handled.
abbrev pub answered :
    (Drain → List Batch → Outcome) → Result (Unit {0}) × Drain → List Batch → Outcome
answered next (raise x, s) sent = (raise x, s.lab, sent)
answered next (ok _, s) sent = next s sent

-- The rest of a turn, once the batch is sent; with no frame the receiver is gone.
abbrev pub after_send :
    (Drain → Result (Unit {0}) × Drain)
    → (Drain → List Batch → Outcome)
    → Drain
    → List Batch
    → Result (Option Batch × Drain)
    → Outcome
after_send receive next s sent (raise x) = (raise x, s.lab, sent)
after_send receive next s sent (ok (b, s')) = answered next (receive s') (with_sent sent b)

abbrev pub hung_up : Drain → Result (Unit {0}) × Drain
hung_up s = (raise (failure receiver_durability_unavailable), s)

-- The loop, over the frames that are still to come.
unfoldable pub drain_loop : Limits → Arrivals → Drain → List Batch → Outcome
unfolding send_batch on_answer
drain_loop l [] s sent =
    if not (goes_on s)
    then (ok tt, s.lab, sent)
    else after_send hung_up (λ s' sent'. (ok tt, s'.lab, sent')) s sent (send_batch l s)
drain_loop l ((outcome, f) ∷ frames) s sent =
    let turn = after_send (on_answer l outcome f) (drain_loop l frames) s sent (send_batch l s) in
    if not (goes_on s) then (closing ((outcome, f) ∷ frames), s.lab, sent) else turn

abbrev pub started : Limits → Arrivals → Result Drain × Lab → Outcome
started l frames (raise x, s) = (raise x, s, [])
started l frames (ok x, s) = drain_loop l frames x []

-- The handshake with the loop behind it.
abbrev pub shaken : Bytes → AnchorOutcome → AnchorOutcome → Arrivals → Lab → Outcome
shaken receiver first second [] s = (raise (failure invalid_handshake), s, [])
shaken receiver first second ((_, server_hello h) ∷ frames) s =
    started (limits_of h) frames (greet receiver first second (server_hello h) s)
shaken receiver first second ((_, error code d) ∷ frames) s = (raise (failure code), s, [])
shaken receiver first second ((_, _) ∷ frames) s = (raise (failure invalid_handshake), s, [])

-- drain; `peer` is the identity in the certificate of the receiver, and the first two outcomes are
-- those of the anchors that binding writes. A closed log has no hello.
unfoldable pub drain :
    (peer receiver : Bytes) (first second : AnchorOutcome) → Arrivals → Lab → Outcome
unfolding greet drain_loop hello
drain peer receiver first second frames s =
    if not (bytes_eq peer receiver)
    then (raise (failure receiver_id_changed), s, [])
    else elim (hello s.wal) [
      | raise x ↦ (raise x, s, [])
      | ok _ ↦ shaken receiver first second frames s
    ]
