-- ===== src/Transport/Recovery.antt =====
-- sync of reference/coredrp_ref/recovery.py: bounded reconnects. What an attempt ends with, the
-- opening of the log and drain, is a function of its number.
use core_drp.Prelude.{
  ℕ, zero, suc, ◌+◌, ◌≤◌, ◌<◌, ◌≡◌, ◌↔◌, ◌∙◌, refl, ap, ◌⊎◌, inl, inr, arith, Bool, true, false,
  ◌&&◌, leb, dec_lt,
}
use core_drp.Prelude.Int.{ℤ, pos, leb_ℤ, ltb_ℤ, ◌≤ℤ◌}
use core_drp.Result.{
  Code, Exception, Result, ok, raise, failure, os_error, require, ◌>>◌, ok-inj, require-eq-ok,
  tls_authentication_failed, remote_protocol_failure, recovery_retry_exhausted,
  invalid_retry_policy, event_validator_unavailable, receiver_durability_unavailable,
  clock_contract_violation, resource_limit_exceeded, stream_already_active,
}
use core_drp.Transport.{retryable}

-- How an attempt ends: the log does not open; drain returns with an acknowledgement; or it raises a
-- Failure, an ssl.SSLError, a GRPCError (of a status that may be retried or not), a lost connection, a
-- failed lookup (to be tried again or not), or another OSError (of the network or not).
pub data Attempt : Type 0 where
  not_opened : Exception → Attempt
  drained : ℕ → Attempt
  failed : Code → Attempt
  ssl_error connection_lost : Attempt
  grpc_error lookup_failed other_os_error : Bool → Attempt

-- What follows an attempt.
pub data Verdict : Type 0 where
  returns : ℕ → Verdict
  raises : Exception → Verdict
  retries : Verdict

abbrev pub retry_if : Bool → Exception → Verdict
retry_if true x = retries
retry_if false x = raises x

abbrev pub verdict : Attempt → Verdict
verdict (not_opened x) = raises x
verdict (drained n) = returns n
verdict (failed code) = retry_if (retryable code) (failure code)
verdict ssl_error = raises (failure tls_authentication_failed)
verdict (grpc_error available) = retry_if available (failure remote_protocol_failure)
verdict connection_lost = retries
verdict (lookup_failed again) = retry_if again os_error
verdict (other_os_error network) = retry_if network os_error

abbrev pub then_next : Verdict → Result ℕ → Result ℕ
then_next (returns n) rest = ok n
then_next (raises x) rest = raise x
then_next retries rest = rest

-- for attempt in range(attempts), from attempt number `first` on
unfoldable pub attempt_from : (ℕ → Attempt) → ℕ → ℕ → Result ℕ
attempt_from ends first zero = raise (failure recovery_retry_exhausted)
attempt_from ends first (suc left) =
    then_next (verdict (ends first)) (attempt_from ends (suc first) left)

-- sync, with the delay and the timeout in milliseconds
unfoldable pub sync : (ℕ → Attempt) → ℕ → ℤ → ℤ → Result ℕ
sync ends attempts delay timeout = do
  require (leb 1 attempts && leb attempts 100) invalid_retry_policy
  require
      (leb_ℤ (pos 0) delay
        && leb_ℤ delay (pos 60000)
        && ltb_ℤ (pos 0) timeout
        && leb_ℤ timeout (pos 300000))
      invalid_retry_policy
  attempt_from ends 0 attempts

-- An attempt that another one is to follow: a Failure of one of five codes, a GRPCError of a status
-- that may be retried, a lost connection, a lookup to be tried again, or an OSError of the network.
pub data IsTransient : Attempt → Type 0 where
  validator_down : IsTransient (failed event_validator_unavailable)
  not_durable : IsTransient (failed receiver_durability_unavailable)
  clock_unsure : IsTransient (failed clock_contract_violation)
  no_resources : IsTransient (failed resource_limit_exceeded)
  stream_taken : IsTransient (failed stream_already_active)
  unavailable : IsTransient (grpc_error true)
  lost : IsTransient connection_lost
  try_again : IsTransient (lookup_failed true)
  network_down : IsTransient (other_os_error true)

-- An attempt of the bound in which drain returned, behind attempts that others were to follow.
pub record Drained (ends : ℕ → Attempt) (first bound n : ℕ) : Type 0 where
  pub number : ℕ
  pub from_first : first ≤ number
  pub in_bound : number < bound
  pub at_last : ends number ≡ drained n
  pub before : (j : ℕ) → first ≤ j → j < number → IsTransient (ends j)

retryable-IsTransient : (code : Code) → retryable code ≡ true → IsTransient (failed code)
retryable-IsTransient event_validator_unavailable h = validator_down
retryable-IsTransient receiver_durability_unavailable h = not_durable
retryable-IsTransient clock_contract_violation h = clock_unsure
retryable-IsTransient resource_limit_exceeded h = no_resources
retryable-IsTransient stream_already_active h = stream_taken
retryable-IsTransient _ h = cc

retry_if-IsTransient :
    (a : Attempt) (b : Bool) (x : Exception) (rest : Result ℕ) (n : ℕ)
    → (b ≡ true → IsTransient a)
    → then_next (retry_if b x) rest ≡ ok n
    → IsTransient a × (rest ≡ ok n)
retry_if-IsTransient a true x rest n t h = (t refl, h)
retry_if-IsTransient a false x rest n t h = cc

-- What an attempt was, where the loop returns.
verdict-cases :
    (a : Attempt) (rest : Result ℕ) (n : ℕ)
    → then_next (verdict a) rest ≡ ok n
    → (a ≡ drained n) ⊎ (IsTransient a × (rest ≡ ok n))
verdict-cases (not_opened x) rest n h = cc
verdict-cases (drained m) rest n h = inl (ap drained (ok-inj h))
verdict-cases (failed code) rest n h = inr (
    retry_if-IsTransient (failed code) (retryable code) (failure code) rest n
      (retryable-IsTransient code) h)
verdict-cases ssl_error rest n h = cc
verdict-cases connection_lost rest n h = inr (lost, h)
verdict-cases (grpc_error true) rest n h = inr (unavailable, h)
verdict-cases (grpc_error false) rest n h = cc
verdict-cases (lookup_failed true) rest n h = inr (try_again, h)
verdict-cases (lookup_failed false) rest n h = cc
verdict-cases (other_os_error true) rest n h = inr (network_down, h)
verdict-cases (other_os_error false) rest n h = cc

attempt_from-Drained :
    (ends : ℕ → Attempt) (first left bound n : ℕ)
    → first + left ≡ bound
    → attempt_from ends first left ≡ ok n
    → Drained ends first bound n
unfolding attempt_from
attempt_from-Drained ends first zero bound n at h = cc
attempt_from-Drained ends first (suc left) bound n at h =
    elim (verdict-cases (ends first) (attempt_from ends (suc first) left) n h) [
      | inl now ↦ record {
        number = first;
        from_first = omega arith;
        in_bound = omega arith;
        at_last = now;
        before = λ j lo hi. absurd (omega (arith, lo, hi));
      }
      | inr (retried, later) ↦
          let d = attempt_from-Drained ends (suc first) left bound n (omega arith) later in
          record {
            number = d.number;
            from_first = omega (arith, d.from_first);
            in_bound = omega (arith, d.in_bound);
            at_last = d.at_last;
            before = λ j lo hi. elim (dec_lt first j) [
              | yes k ↦ d.before j (omega arith) hi
              | no k ↦ let same : first ≡ j = omega (arith, lo, k) in rw (← same) retried
            ];
          }
    ]

IsTransient-retries : {a : Attempt} → IsTransient a → verdict a ≡ retries
IsTransient-retries validator_down = refl
IsTransient-retries not_durable = refl
IsTransient-retries clock_unsure = refl
IsTransient-retries no_resources = refl
IsTransient-retries stream_taken = refl
IsTransient-retries unavailable = refl
IsTransient-retries lost = refl
IsTransient-retries try_again = refl
IsTransient-retries network_down = refl

Drained-attempt_from :
    (ends : ℕ → Attempt) (first left bound n : ℕ)
    → first + left ≡ bound
    → Drained ends first bound n
    → attempt_from ends first left ≡ ok n
unfolding attempt_from
Drained-attempt_from ends first zero bound n at d = absurd (omega (arith, d.from_first, d.in_bound))
Drained-attempt_from ends first (suc left) bound n at d = elim (dec_lt first d.number) [
  | no k ↦
      let same : first ≡ d.number = omega (arith, d.from_first, k) in
      let here : ends first ≡ drained n = ap ends same ∙ d.at_last in
      ap (λ a. then_next (verdict a) (attempt_from ends (suc first) left)) here
  | yes k ↦
      let retried = IsTransient-retries (d.before first (omega arith) k) in
      ap (λ v. then_next v (attempt_from ends (suc first) left)) retried
      ∙ Drained-attempt_from ends (suc first) left bound n (omega arith) (record {
        number = d.number;
        from_first = omega (arith, k);
        in_bound = d.in_bound;
        at_last = d.at_last;
        before = λ j lo hi. d.before j (omega (arith, lo)) hi;
      })
]

-- sync returns a number exactly if there are 1 to 100 attempts, a delay of 0 to 60 seconds and a
-- timeout of at most 300 seconds that is above zero, and drain returned that number at one of the
-- attempts, behind attempts that each ended in one of the five retryable Failures, a GRPCError of a
-- status that may be retried, a lost connection, a lookup to be tried again or an OSError of the
-- network; with any other end before it, sync does not return.
pub sync-Drained :
    (ends : ℕ → Attempt) (attempts n : ℕ) (delay timeout : ℤ)
    → (sync ends attempts delay timeout ≡ ok n) ↔ (
        (1 ≤ attempts)
        × (attempts ≤ 100)
        × (pos 0 ≤ℤ delay)
        × (delay ≤ℤ pos 60000)
        × (pos 1 ≤ℤ timeout)
        × (timeout ≤ℤ pos 300000)
        × Drained ends 0 attempts n)
unfolding sync
sync-Drained ends attempts n delay timeout =
    let times =
      leb_ℤ (pos 0) delay
      && leb_ℤ delay (pos 60000)
      && ltb_ℤ (pos 0) timeout
      && leb_ℤ timeout (pos 300000) in
    (
      (λ h.
          let (range, h1) = require-eq-ok (leb 1 attempts && leb attempts 100) _ _ h in
          let (within, h2) = require-eq-ok times _ _ h1 in
          (
            ground (arith, range),
            ground (arith, range),
            ground (arith, within),
            ground (arith, within),
            ground (arith, within),
            ground (arith, within),
            attempt_from-Drained ends 0 attempts attempts n (omega arith) h2,
          )),
      (λ (lo, hi, d0, d1, t0, t1, d).
          let range : (leb 1 attempts && leb attempts 100) ≡ true = ground (arith, lo, hi) in
          let within : times ≡ true = ground (arith, d0, d1, t0, t1) in
          rw (range, within) (Drained-attempt_from ends 0 attempts attempts n (omega arith) d)),
    )
