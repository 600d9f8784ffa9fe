-- ===== src/Reconnect/Rules.antt =====
-- The shorter rules of tools/verify_state_vectors.py: authorization, gaps, clock states of a stream,
-- the range of times, and the evidence of a payout.
use core_drp.Prelude.{
  ℕ, ◌+◌, [], ◌∷◌, ◌^◌, ◌-◌, Bool, true, false, not, ◌&&◌, ◌||◌, Option, none, some, List, all,
  ◌==◌, if◌then◌else◌,
}
use core_drp.Prelude.Int.{ℤ, pos, ◌+ℤ◌, ◌-ℤ◌, leb_ℤ, ltb_ℤ, eq_ℤ}
use core_drp.Wire.{max_time}
use core_drp.Clock.{ClockState, good, bad, unknown, unlisted, same_state, class_between, neg_ℤ}

pub data EventVerdict : Type 0 where
  accept temporal_membership_required unauthorized_scope semantic_contract_mismatch : EventVerdict

-- membership_event_cases
unfoldable pub membership_event : Bool → Bool → Bool → EventVerdict
membership_event transport_authorized relay_required membership_covers_event =
    if transport_authorized && (not relay_required || membership_covers_event)
    then accept
    else temporal_membership_required

-- checkpoint_authorization_cases, by the authorization of each covered scope
unfoldable pub checkpoint_authorization : List Bool → EventVerdict
checkpoint_authorization covered_scopes =
    if all (λ s. s) covered_scopes then accept else unauthorized_scope

pub data GapStatus : Type 0 where
  no_gap unresolved resolved_waived resolved_reconciled : GapStatus

-- gap_payout_cases
abbrev pub blocks_payout : GapStatus → Bool
blocks_payout unresolved = true
blocks_payout resolved_waived = true
blocks_payout no_gap = false
blocks_payout resolved_reconciled = false

-- time_cases: the overflow of B+2*S, and any other time
unfoldable pub boundary_accepted : ℤ → ℤ → Bool
boundary_accepted b s =
    leb_ℤ (pos 0) b
    && leb_ℤ b (pos max_time)
    && leb_ℤ (pos 0) s
    && leb_ℤ s (pos (2 ^ 32 - 1))
    && leb_ℤ b (pos max_time -ℤ (s +ℤ s))

unfoldable pub time_accepted : ℤ → Bool
time_accepted t = leb_ℤ (pos 0) t && leb_ℤ t (pos max_time)

-- scope_contract_ownership
unfoldable pub scope_contract : ℕ → Bool → Bool → EventVerdict
scope_contract event_type has_mining has_miningcore =
    let need_miningcore =
      (event_type == 0x0200) || (event_type == 0x0201) || (event_type == 0x0202) in
    if has_mining && (has_miningcore || not need_miningcore)
    then accept
    else semantic_contract_mismatch

pub data TemporalVerdict : Type 0 where
  record_uncertainty_and_block_advance admin_action_conflict temporal_accept : TemporalVerdict

-- temporal_policy_cases
unfoldable pub temporal_policy : Bool → ℤ → ℤ → ℤ → TemporalVerdict
temporal_policy reconciliation effective payout_safe_through clock_uncertainty =
    if reconciliation
    then record_uncertainty_and_block_advance
    else if leb_ℤ effective (payout_safe_through +ℤ clock_uncertainty)
    then admin_action_conflict
    else temporal_accept

abbrev pub is_none_status : GapStatus → Bool
is_none_status no_gap = true
is_none_status unresolved = false
is_none_status resolved_waived = false
is_none_status resolved_reconciled = false

-- payout_evidence_cases
unfoldable pub payout_evidence : Bool → Bool → Bool → GapStatus → Bool
payout_evidence receiver_checkpoint_committed membership clock gap_status =
    receiver_checkpoint_committed && membership && clock && is_none_status gap_status

-- clock_state_updates, but for the two kinds that are decided as in Clock.Grace
pub record StateUpdate : Type 0 where
  pub generation : ℤ
  pub last : ℤ
  pub age_ms : ℤ
  pub valid_for_ms : ℤ
  pub effective_expiry_ms : ℤ
  pub reported_skew_ms : ℤ
  pub bound_skew_ms : ℤ
  pub bounds : Option (ℤ × ℤ)
  pub one_bound : Bool
  pub state : ClockState

pub data StateVerdict : Type 0 where
  ignored clock_contract_violation malformed_frame type_error : StateVerdict
  becomes : ClockState → StateVerdict

-- The rules of a state with bounds, or without; GOOD compares the bounds in any case.
abbrev pub bounded_state : ClockState → ℤ → Option (ℤ × ℤ) → StateVerdict
bounded_state good skew none = type_error
bounded_state bad skew none = becomes bad
bounded_state unknown skew none = becomes unknown
bounded_state unlisted skew none = becomes unlisted
bounded_state good skew (some (lo, hi)) =
    if leb_ℤ (neg_ℤ skew) lo && leb_ℤ lo hi && leb_ℤ hi skew
    then becomes good
    else clock_contract_violation
bounded_state bad skew (some (lo, hi)) =
    if same_state (class_between skew lo hi) bad then becomes bad else clock_contract_violation
bounded_state unknown skew (some (lo, hi)) =
    if same_state (class_between skew lo hi) unknown
    then becomes unknown
    else clock_contract_violation
bounded_state unlisted skew (some (lo, hi)) = becomes unlisted

abbrev pub crossed : Option (ℤ × ℤ) → Bool
crossed none = false
crossed (some (lo, hi)) = ltb_ℤ hi lo

unfoldable pub state_update : StateUpdate → StateVerdict
state_update x =
    if leb_ℤ x.generation x.last
    then ignored
    else if ltb_ℤ x.valid_for_ms x.age_ms
    then becomes unknown
    else if not (leb_ℤ (pos 1) x.valid_for_ms && leb_ℤ x.valid_for_ms x.effective_expiry_ms)
    then clock_contract_violation
    else if not (eq_ℤ x.reported_skew_ms x.bound_skew_ms)
    then clock_contract_violation
    else if x.one_bound || crossed x.bounds
    then malformed_frame
    else bounded_state x.state x.bound_skew_ms x.bounds

-- flow_control: the charge of some events, each the length of its scope and of its payload
unfoldable pub flow_charge : ℕ → List (ℕ × ℕ) → ℕ
flow_charge fixed_event_charge [] = 0
flow_charge fixed_event_charge ((scope_len, payload_len) ∷ events) =
    fixed_event_charge + scope_len + payload_len + flow_charge fixed_event_charge events
