-- ===== src/Clock.antt =====
-- tools/verify_policy_clock_vectors.py: the decision procedures for the first policy of a scope and
-- for the clock evidence of a stream. A dictionary of the vectors is a record here: a key that the
-- source reads with `get` and a default holds the default where it is absent, and a key whose absence
-- the source tests is an Option.
pub mod Interval
pub mod Update
pub mod Grace
pub mod Scopes
use core_drp.Prelude.{
  ℕ, ◌+◌, ◌≡◌, Bool, true, false, not, ◌&&◌, ◌||◌, Option, none, some, List, [], ◌∷◌, if◌then◌else◌,
  Bytes, bytes_eq, codes,
}
use core_drp.Prelude.Int.{ℤ, pos, negsuc, ◌+ℤ◌, ◌-ℤ◌, leb_ℤ, ltb_ℤ, eq_ℤ, min_ℤ, max_ℤ}

-- A case of the vectors for the change of a scope's completeness policy.
pub record PolicyChange : Type 0 where
  pub prior_policy : Bool
  pub generation : ℤ
  pub action : Bytes
  pub old_mode : Option Bytes
  pub new_mode : Option Bytes
  pub effective_unix_ms : ℤ
  pub origin_unix_ms : ℤ
  pub required_staging_senders : List Bytes
  pub expected_frontier : ℤ
  pub payout_safe_through : ℤ
  pub clock_uncertainty_ms : ℤ

-- The answers, and the AssertionError on a frontier that does not fit.
pub data PolicyVerdict : Type 0 where
  accept_bootstrap accept admin_action_conflict assertion_error : PolicyVerdict

abbrev pub is_text : Option Bytes → Bytes → Bool
is_text none t = false
is_text (some s) t = bytes_eq s t

abbrev pub is_empty : List Bytes → Bool
is_empty [] = true
is_empty (x ∷ xs) = false

abbrev pub valid_bootstrap : PolicyChange → Bool
valid_bootstrap x =
    eq_ℤ x.generation (pos 1)
    && bytes_eq x.action (codes "COMPLETENESS_MODE_CHANGE")
    && is_text x.old_mode (codes "NO_POLICY")
    && is_text x.new_mode (codes "NO_RELAY_REQUIRED")
    && eq_ℤ x.effective_unix_ms x.origin_unix_ms
    && is_empty x.required_staging_senders

unfoldable pub verify_bootstrap : PolicyChange → PolicyVerdict
verify_bootstrap x =
    if not x.prior_policy
    then if not (valid_bootstrap x)
      then admin_action_conflict
      else if eq_ℤ x.expected_frontier (x.origin_unix_ms -ℤ pos 1)
      then accept_bootstrap
      else assertion_error
    else if ltb_ℤ x.generation (pos 2)
    then admin_action_conflict
    else if ltb_ℤ (x.payout_safe_through +ℤ x.clock_uncertainty_ms) x.effective_unix_ms
    then accept
    else admin_action_conflict

-- The three states of a clock, and any other text.
pub data ClockState : Type 0 where
  good bad unknown unlisted : ClockState

abbrev pub same_state : ClockState → ClockState → Bool
same_state good good = true
same_state bad bad = true
same_state unknown unknown = true
same_state unlisted unlisted = true
same_state _ _ = false

pub data Reason : Type 0 where
  sender_processing_limit receiver_wall_step evidence_expired probe_evidence other_reason : Reason

-- A ClockStateUpdate with what the stream holds.
pub record ClockUpdate : Type 0 where
  pub generation : ℤ
  pub new_stream : Bool
  pub last_generation : ℤ
  pub valid_for_ms : ℤ
  pub effective_expiry_ms : ℤ
  pub reported_skew_ms : ℤ
  pub bound_skew_ms : ℤ
  pub lower : Option ℤ
  pub upper : Option ℤ
  pub probe_present : Bool
  pub probe_valid : Bool
  pub probe_age_ms : ℤ
  pub processing_exceeded : Bool
  pub state : ClockState
  pub reason : Reason

-- -s
abbrev pub neg_ℤ : ℤ → ℤ
neg_ℤ s = pos 0 -ℤ s

unfoldable pub class_between : ℤ → ℤ → ℤ → ClockState
class_between s lo hi =
    if leb_ℤ (neg_ℤ s) lo && leb_ℤ lo hi && leb_ℤ hi s
    then good
    else if ltb_ℤ hi (neg_ℤ s) || ltb_ℤ s lo
    then bad
    else unknown

-- interval_class
abbrev pub interval_class : ClockUpdate → Option ClockState
interval_class x = elim x.lower [
  | none ↦ none
  | some lo ↦ elim x.upper [ none ↦ none | some hi ↦ some (class_between x.bound_skew_ms lo hi) ]
]

-- What an update is refused with.
pub data Refusal : Type 0 where
  malformed_frame ignore clock_contract_violation stale_evidence : Refusal

-- The pair that verify_clock_update returns: a refusal with None, or a state with the time it holds.
pub data Judgement : Type 0 where
  refused : Refusal → Judgement
  accepted : ClockState → ℤ → Judgement

-- (lo is None) != (hi is None), or lo>hi
abbrev pub bad_bounds : Option ℤ → Option ℤ → Bool
bad_bounds none none = false
bad_bounds none (some hi) = true
bad_bounds (some lo) none = true
bad_bounds (some lo) (some hi) = ltb_ℤ hi lo

abbrev pub has_bounds : Option ℤ → Bool
has_bounds none = false
has_bounds (some lo) = true

-- cls == c
abbrev pub is_class : Option ClockState → ClockState → Bool
is_class none c = false
is_class (some d) c = same_state d c

-- fresh_result
unfoldable pub fresh_result : ClockUpdate → ClockState → Judgement
fresh_result x result =
    if ltb_ℤ x.probe_age_ms (pos 0)
    then refused malformed_frame
    else if leb_ℤ x.effective_expiry_ms x.probe_age_ms
    then refused stale_evidence
    else accepted result (min_ℤ x.valid_for_ms (x.effective_expiry_ms -ℤ x.probe_age_ms))

-- Bounds that say GOOD contradict a report of BAD.
abbrev pub contradicted : ClockUpdate → Bool
contradicted x = has_bounds x.lower && is_class (interval_class x) good

abbrev pub processing_limit : ClockUpdate → Judgement
processing_limit x =
    if not x.probe_present
    then refused malformed_frame
    else if not x.processing_exceeded
    then refused clock_contract_violation
    else if not (same_state x.state bad)
    then refused clock_contract_violation
    else if contradicted x
    then refused clock_contract_violation
    else fresh_result x bad

abbrev pub wall_step : ClockUpdate → Judgement
wall_step x =
    if x.probe_present
    then refused malformed_frame
    else if not (same_state x.state bad)
    then refused clock_contract_violation
    else if contradicted x
    then refused clock_contract_violation
    else accepted bad x.valid_for_ms

abbrev pub expired : ClockUpdate → Judgement
expired x =
    if not (same_state x.state unknown)
    then refused clock_contract_violation
    else if x.probe_present || has_bounds x.lower
    then refused malformed_frame
    else accepted unknown x.valid_for_ms

abbrev pub probed : ClockUpdate → Judgement
probed x =
    if not x.probe_present || not (has_bounds x.lower)
    then refused malformed_frame
    else if same_state x.state good && not (is_class (interval_class x) good)
    then refused clock_contract_violation
    else if same_state x.state bad && not (is_class (interval_class x) bad)
    then refused clock_contract_violation
    else if same_state x.state unknown && not (is_class (interval_class x) unknown)
    then refused clock_contract_violation
    else if same_state x.state unlisted
    then refused malformed_frame
    else fresh_result x x.state

-- The rules of each reason.
unfoldable pub judge : Reason → ClockUpdate → Judgement
judge sender_processing_limit x = processing_limit x
judge receiver_wall_step x = wall_step x
judge evidence_expired x = expired x
judge other_reason x = refused malformed_frame
judge probe_evidence x = probed x

abbrev pub last_of : ClockUpdate → ℤ
last_of x = if x.new_stream then pos 0 else x.last_generation

unfoldable pub verify_clock_update : ClockUpdate → Judgement
verify_clock_update x =
    if eq_ℤ x.generation (pos 0)
    then refused malformed_frame
    else if leb_ℤ x.generation (last_of x)
    then refused ignore
    else if not (leb_ℤ (pos 1) x.valid_for_ms && leb_ℤ x.valid_for_ms x.effective_expiry_ms)
    then refused malformed_frame
    else if not (eq_ℤ x.reported_skew_ms x.bound_skew_ms)
    then refused clock_contract_violation
    else if bad_bounds x.lower x.upper
    then refused malformed_frame
    else if x.probe_present && not x.probe_valid
    then refused malformed_frame
    else judge x.reason x
