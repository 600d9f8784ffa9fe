-- ===== src/Transport/Drained.antt =====
-- What holds when drain of reference/coredrp_ref/transport.py returns.
use mathlib.Core.Path.{subst}
use core_drp.Prelude.{
  ◌≤◌, ◌≡◌, refl, sym, ap, ◌∙◌, false, Bool-cases, inl, inr, arith, Option, List, [], ◌∷◌, drop,
  Bytes, bytes_eq, bytes_eq→eq,
}
use core_drp.Result.{Result, ok, raise, ok-inj, raise≢ok, >>=-eq-ok, Result-cases}
use core_drp.Wire.Messages.{Event, Codec}
use core_drp.Wire.Handshake.{ServerHello}
use core_drp.Wal.{Lab, AnchorOutcome}
use core_drp.Wal.Peer.{bind, hello}
use core_drp.Wal.Invariant.{IsOpen}
use core_drp.Wal.Acks.{bind-IsOpen}
use core_drp.Store.Ingest.{Batch}
use core_drp.Transport.{server_hello, window_update, ack, heartbeat, goodbye, error, other_frame}
use core_drp.Transport.Drain.{
  Limits, limits_of, Drain, goes_on, may_send, pick, sending, send_batch, on_answer, greet,
  start_drain, check_answer,
}
use core_drp.Transport.Progress.{on_answer-IsOpen}
use core_drp.Transport.Loop.{
  Arrivals, Outcome, with_sent, answered, after_send, hung_up, drain_loop, started, shaken, drain,
}

sending-lab : (es : List Event) (x : Drain) → (sending es x).1.lab ≡ x.lab
sending-lab [] x = refl
sending-lab (e ∷ es) x = refl

-- To send a batch does not change the log.
send_batch-lab :
    (l : Limits) (x x' : Drain) (b : Option Batch) → send_batch l x ≡ ok (b, x') → x'.lab ≡ x.lab
unfolding send_batch
send_batch-lab l x x' b h = elim (Bool-cases (may_send x)) [
  | inr e ↦ let same = ok-inj (rw e at h) in sym (ap (λ p. p.1.lab) same)
  | inl e ↦
      let (es, _, k) =
        >>=-eq-ok
          (pick l x.window_events x.window_bytes 0 0 (drop x.lab.wal.state.ack x.lab.wal.events)) _
          (rw e at h) in
      sym (ap (λ p. p.1.lab) (ok-inj k)) ∙ sending-lab es x
]

answered-eq-ok :
    (next : Drain → List Batch → Outcome) (p : Result (Unit {0}) × Drain) (sent sent' : List Batch)
    (s' : Lab)
    → answered next p sent ≡ (ok tt, s', sent')
    → (p.0 ≡ ok tt) × (next p.1 sent ≡ (ok tt, s', sent'))
answered-eq-ok next (raise x, s) sent sent' s' h = absurd (raise≢ok (ap (λ o. o.0) h))
answered-eq-ok next (ok _, s) sent sent' s' h = (refl, h)

-- A turn that succeeds: the batch is picked, the frame is accepted, and the loop goes on from there.
after_send-eq-ok :
    (receive : Drain → Result (Unit {0}) × Drain) (next : Drain → List Batch → Outcome) (s : Drain)
    (sent sent' : List Batch) (r : Result (Option Batch × Drain)) (s' : Lab)
    → after_send receive next s sent r ≡ (ok tt, s', sent')
    → (b : Option Batch) × (x : Drain) × (r ≡ ok (b, x))
      × ((receive x).0 ≡ ok tt)
      × (next (receive x).1 (with_sent sent b) ≡ (ok tt, s', sent'))
after_send-eq-ok receive next s sent sent' (raise x) s' h = absurd (raise≢ok (ap (λ o. o.0) h))
after_send-eq-ok receive next s sent sent' (ok (b, x)) s' h =
    let (fine, rest) = answered-eq-ok next (receive x) (with_sent sent b) sent' s' h in
    (b, x, refl, fine, rest)

module _ ⦃c : Codec⦄ (log : Bytes) where
  -- The log is open and acknowledged to its end, and the acknowledgement has not gone back.
  abbrev pub IsDone : Lab → Lab → Type 0
  IsDone s s' =
      IsOpen s' log × (s.wal.state.ack ≤ s'.wal.state.ack) × (s'.wal.state.ack ≡ s'.wal.state.tail)

  stopped-IsDone : (x : Drain) → IsOpen x.lab log → goes_on x ≡ false → IsDone x.lab x.lab
  stopped-IsDone x is_open h = (is_open, omega arith, ground (arith, is_open.ack_bound))

  drain_loop-IsDone :
      (l : Limits) (frames : Arrivals) (x : Drain) (sent sent' : List Batch) (s' : Lab)
      → IsOpen x.lab log
      → drain_loop l frames x sent ≡ (ok tt, s', sent')
      → IsDone x.lab s'
  unfolding drain_loop
  drain_loop-IsDone l [] x sent sent' s' is_open h = elim (Bool-cases (goes_on x)) [
    | inr stop ↦ subst (IsDone x.lab) (ap (λ o. o.1) (rw stop at h)) (stopped-IsDone x is_open stop)
    | inl more ↦
        let (_, _, _, bad, _) =
          after_send-eq-ok hung_up (λ y sent1. (ok tt, y.lab, sent1)) x sent sent' (send_batch l x)
            s' (rw more at h) in
        absurd (raise≢ok bad)
  ]
  drain_loop-IsDone l ((outcome, f) ∷ frames) x sent sent' s' is_open h =
      elim (Bool-cases (goes_on x)) [
        | inr stop ↦
            subst (IsDone x.lab) (ap (λ o. o.1) (rw stop at h)) (stopped-IsDone x is_open stop)
        | inl more ↦
            let (b, y, picked, fine, rest) =
              after_send-eq-ok (on_answer l outcome f) (drain_loop l frames) x sent sent'
                (send_batch l x) s' (rw more at h) in
            let same : y.lab ≡ x.lab = send_batch-lab l x y b picked in
            let open_y : IsOpen y.lab log = subst (λ t. IsOpen t log) (sym same) is_open in
            let z = (on_answer l outcome f y).1 in
            let accepted : on_answer l outcome f y ≡ (ok tt, z) = ap (λ r. (r, z)) fine in
            let (open_z, up, _) = on_answer-IsOpen log l outcome y z open_y f accepted in
            let (open', up', done) = drain_loop-IsDone l frames z _ sent' s' open_z rest in
            let kept : y.lab.wal.state.ack ≡ x.lab.wal.state.ack =
              ap (λ (t : Lab). t.wal.state.ack) same in
            (open', omega arith, done)
      ]

  IsStarted : Lab → Drain → Type 0
  IsStarted s x = IsOpen x.lab log × (s.wal.state.ack ≤ x.lab.wal.state.ack)

  start_drain-IsStarted :
      (receiver : Bytes) (first second : AnchorOutcome) (h : ServerHello) (s : Lab) (x : Drain)
      → IsOpen s log
      → (start_drain receiver first second h s).0 ≡ ok x
      → IsStarted s x
  unfolding IsStarted
  start_drain-IsStarted receiver first second h s x is_open e =
      elim (Result-cases (check_answer receiver h)) [
        | inr (problem, refused) ↦ absurd (raise≢ok (rw (refused, start_drain) at e))
        | inl (_, passed) ↦
            let e' = rw (passed, start_drain) at e in
            let s1 = (bind h first second s).1 in
            elim (Result-cases (bind h first second s).0) [
              | inr (problem, failed) ↦ absurd (raise≢ok (rw failed at e'))
              | inl (_, fine) ↦
                  let (bindable, _, _, acked, _, opened) =
                    bind-IsOpen s log is_open h first second s1 (ap (λ r. (r, s1)) fine) in
                  let same : s1 ≡ x.lab = ap (λ (y : Drain). y.lab) (ok-inj (rw fine at e')) in
                  let up : s.wal.state.ack ≤ s1.wal.state.ack =
                    omega (arith, bindable.from_ack, acked) in
                  subst (λ t. IsOpen t log × (s.wal.state.ack ≤ t.wal.state.ack)) same (opened, up)
            ]
      ]

  started-IsDone :
      (l : Limits) (frames : Arrivals) (s s' : Lab) (sent : List Batch) (g : Result Drain × Lab)
      → ((x : Drain) → g.0 ≡ ok x → IsStarted s x)
      → started l frames g ≡ (ok tt, s', sent)
      → IsDone s s'
  unfolding IsStarted
  started-IsDone l frames s s' sent (raise p, s1) begun h = absurd (raise≢ok (ap (λ o. o.0) h))
  started-IsDone l frames s s' sent (ok x, s1) begun h =
      let (is_open, up) = begun x refl in
      let (open', up', done) = drain_loop-IsDone l frames x [] sent s' is_open h in
      (open', omega arith, done)

  shaken-IsDone :
      (receiver : Bytes) (first second : AnchorOutcome) (frames : Arrivals) (s s' : Lab)
      (sent : List Batch)
      → IsOpen s log
      → shaken receiver first second frames s ≡ (ok tt, s', sent)
      → IsDone s s'
  unfolding greet
  shaken-IsDone receiver first second ((o, server_hello hello) ∷ frames) s s' sent is_open h =
      started-IsDone (limits_of hello) frames s s' sent (start_drain receiver first second hello s)
        (λ x e. start_drain-IsStarted receiver first second hello s x is_open e) h
  shaken-IsDone receiver first second [] s s' sent is_open h = absurd (raise≢ok (ap (λ o. o.0) h))
  shaken-IsDone receiver first second ((o, error code d) ∷ frames) s s' sent is_open h =
      absurd (raise≢ok (ap (λ o. o.0) h))
  shaken-IsDone receiver first second ((o, window_update n m) ∷ frames) s s' sent is_open h =
      absurd (raise≢ok (ap (λ o. o.0) h))
  shaken-IsDone receiver first second ((o, ack a) ∷ frames) s s' sent is_open h =
      absurd (raise≢ok (ap (λ o. o.0) h))
  shaken-IsDone receiver first second ((o, heartbeat n) ∷ frames) s s' sent is_open h =
      absurd (raise≢ok (ap (λ o. o.0) h))
  shaken-IsDone receiver first second ((o, goodbye) ∷ frames) s s' sent is_open h =
      absurd (raise≢ok (ap (λ o. o.0) h))
  shaken-IsDone receiver first second ((o, other_frame) ∷ frames) s s' sent is_open h =
      absurd (raise≢ok (ap (λ o. o.0) h))

  -- When drain returns from an open log, whatever frames came, the certificate named the receiver,
  -- the log is open and acknowledged to its end, and its acknowledgement has not gone back.
  pub drain-IsDone :
      (peer receiver : Bytes) (first second : AnchorOutcome) (frames : Arrivals) (s s' : Lab)
      (sent : List Batch)
      → IsOpen s log
      → drain peer receiver first second frames s ≡ (ok tt, s', sent)
      → (peer ≡ receiver) × IsDone s s'
  unfolding drain
  drain-IsDone peer receiver first second frames s s' sent is_open h =
      elim (Bool-cases (bytes_eq peer receiver)) [
        | inr other ↦ absurd (raise≢ok (ap (λ o. o.0) (rw other at h)))
        | inl same ↦ elim (Result-cases (hello s.wal)) [
          | inr (x, e) ↦ absurd (raise≢ok (ap (λ o. o.0) (rw (same, e, drain) at h)))
          | inl (sent_hello, e) ↦ (
            bytes_eq→eq peer receiver same,
            shaken-IsDone receiver first second frames s s' sent is_open (rw (same, e, drain) at h),
          )
        ]
      ]
