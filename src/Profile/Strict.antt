-- ===== src/Profile/Strict.antt =====
-- tools/verify_accounting_schema3_safety.py: the stricter checks of accounting schema 3, and how they
-- stand to the checks of the profile.
use core_drp.Prelude.{
  and_left, and_right, and_both, ℕ, ◌≡◌, sym, ap, ◌∙◌, Bool, true, false, not, ◌&&◌, ◌||◌, arith,
  ◌==◌, Option, none, some, length, Bytes, bytes_eq, bytes_eq→eq, bytes_eq_refl, nonzero,
}
use core_drp.Prelude.Int.{ℤ, pos, eq_ℤ, leb_ℤ}
use core_drp.Finance.Effects.{is_scope}
use core_drp.Profile.{
  is_positive, double_eq, Share, Projection, Accounting, non_empty, bytes_or_empty, number_or_zero,
  is_present, PpsPolicy, non_pps, projection_pps, succeeds, all_finite, candidate_agrees,
  valid_share, with_field, role_allows, valid_projection, shared_agree, valid_pair, with_pair,
  role_pairs, valid_primary, valid_accounting,
}

-- uuid16_ok: uuid.UUID takes every 16 bytes
abbrev pub uuid16_ok : Bytes → Bool
uuid16_ok b = length b == 16 && nonzero b

-- The checks of strict_projection on the share.
abbrev pub strict_share : Share → ℤ → Bool
strict_share s tm =
    all_finite s
    && non_empty s.miner
    && non_empty s.session_id
    && non_empty s.source_ip
    && is_positive s.difficulty
    && is_positive s.achieved_share_difficulty
    && is_positive s.actual_difficulty
    && is_positive s.network_difficulty
    && eq_ℤ s.created_unix_ms tm

abbrev pub strict_id : Option Bytes → Bool
strict_id none = false
strict_id (some b) = uuid16_ok b

-- strict_projection
unfoldable pub strict_projection : Projection → ℤ → PpsPolicy → Bool
unfolding projection_pps
strict_projection p tm policy =
    is_scope p.scope
    && p.preserve_created
    && with_field (λ s. strict_share s tm && succeeds (projection_pps p s policy)) p.share
    && strict_id p.accounting_id
    && is_present p.reward_basis_satoshis
    && not (leb_ℤ (number_or_zero p.reward_basis_satoshis) (pos 0))
    && not p.block_only

abbrev pub strict_pair : ℤ → Projection → Projection → Bool
strict_pair tm primary paired =
    paired.accounting_role == 3
    && strict_projection paired tm non_pps
    && not (bytes_eq paired.scope primary.scope)
    && bytes_eq (bytes_or_empty paired.accounting_id) (bytes_or_empty primary.accounting_id)
    && shared_agree paired.share primary.share

abbrev pub strict_primary : Accounting → ℤ → Bytes → Projection → Bool
strict_primary m tm outer primary =
    strict_projection primary tm non_pps
    && bytes_eq primary.scope outer
    && (primary.accounting_role == 1 || primary.accounting_role == 2)
    && role_pairs primary.accounting_role (is_present m.paired)
    && with_pair (strict_pair tm primary) m.paired

-- strict_accounting
unfoldable pub strict_accounting : Accounting → ℤ → Bytes → Bool
unfolding strict_projection shared_agree
strict_accounting m tm outer = with_field (strict_primary m tm outer) m.primary

-- The candidate fields of the shares of a projection agree, where it has a share.
unfoldable pub has_agreeing_candidate : Option Share → Bool
has_agreeing_candidate none = true
has_agreeing_candidate (some s) = candidate_agrees s

abbrev pub candidates_agree : Option Projection → Bool
candidates_agree none = true
candidates_agree (some p) = has_agreeing_candidate p.share

strict_share-valid :
    (s : Share) (tm : ℤ) (scope : Bytes)
    → is_scope scope ≡ true
    → strict_share s tm ≡ true
    → candidate_agrees s ≡ true
    → valid_share s tm 0 scope ≡ true
unfolding valid_share
strict_share-valid s tm scope hs h c = ground arith

-- An identifier of 16 bytes is there, and is not empty.
strict_id-present :
    (o : Option Bytes)
    → strict_id o ≡ true
    → (is_present o ≡ true) × (non_empty (bytes_or_empty o) ≡ true)
strict_id-present none h = cc
strict_id-present (some b) h = ground arith

-- The two chains of tests, over the value of each test.
chain_valid :
    (scope preserve share id reward low only share' role present empty recorded statistical : Bool)
    → scope && preserve && share && id && reward && not low && not only ≡ true
    → (share ≡ true → share' ≡ true)
    → role ≡ true
    → (id ≡ true → not (present && empty) ≡ true)
    → scope
        && share'
        && role
        && preserve
        && not (present && empty)
        && not (reward && low)
        && not (only && (not recorded || statistical))
        && not (statistical && only)
      ≡ true
chain_valid scope preserve share id reward low only share' role present empty recorded statistical h
      s r i =
    ground (arith, s, i)

chain_scope :
    (scope preserve share id reward high rest : Bool)
    → scope && preserve && share && id && reward && high && rest ≡ true
    → scope ≡ true
chain_scope scope preserve share id reward high rest h = ground arith

strict_field-share :
    (p : Projection) (o : Option Share) (tm : ℤ)
    → is_scope p.scope ≡ true
    → has_agreeing_candidate o ≡ true
    → with_field (λ s. strict_share s tm && succeeds (projection_pps p s non_pps)) o ≡ true
    → with_field (λ s. valid_share s tm 0 p.scope && succeeds (projection_pps p s non_pps)) o ≡ true
unfolding has_agreeing_candidate
strict_field-share p none tm hs c h = h
strict_field-share p (some s) tm hs c h =
    let strict : strict_share s tm ≡ true = and_left _ _ h in
    and_both _ _ (strict_share-valid s tm p.scope hs strict c) (and_right (strict_share s tm) _ h)

strict_projection-scope :
    (p : Projection) (tm : ℤ) → strict_projection p tm non_pps ≡ true → is_scope p.scope ≡ true
unfolding strict_projection
strict_projection-scope p tm h =
    chain_scope (is_scope p.scope) p.preserve_created
      (with_field (λ s. strict_share s tm && succeeds (projection_pps p s non_pps)) p.share)
      (strict_id p.accounting_id) (is_present p.reward_basis_satoshis)
      (not (leb_ℤ (number_or_zero p.reward_basis_satoshis) (pos 0))) (not p.block_only) h

-- A strict projection in a role that fits it is valid.
strict_projection-valid :
    (p : Projection) (tm : ℤ) (paired : Bool)
    → strict_projection p tm non_pps ≡ true
    → role_allows paired p.accounting_role ≡ true
    → has_agreeing_candidate p.share ≡ true
    → valid_projection p tm paired ≡ true
unfolding valid_projection strict_projection
strict_projection-valid p tm paired h r c =
    chain_valid (is_scope p.scope) p.preserve_created
      (with_field (λ s. strict_share s tm && succeeds (projection_pps p s non_pps)) p.share)
      (strict_id p.accounting_id) (is_present p.reward_basis_satoshis)
      (leb_ℤ (number_or_zero p.reward_basis_satoshis) (pos 0)) p.block_only
      (with_field (λ s. valid_share s tm 0 p.scope && succeeds (projection_pps p s non_pps))
        p.share)
      (role_allows paired p.accounting_role) (is_present p.accounting_id)
      (not (non_empty (bytes_or_empty p.accounting_id))) p.block_record_emitted
      p.statistical_record_emitted h
      (strict_field-share p p.share tm (strict_projection-scope p tm h) c) r
      (λ i. ground (arith, strict_id-present p.accounting_id i))

double_eq_comm : (a b : ℕ) → double_eq a b ≡ true → double_eq b a ≡ true
double_eq_comm a b h = ground arith

bytes_eq_comm : (a b : Bytes) → bytes_eq a b ≡ true → bytes_eq b a ≡ true
bytes_eq_comm a b h = ap (λ t. bytes_eq t a) (sym (bytes_eq→eq a b h)) ∙ bytes_eq_refl a

shared_agree_comm : (a b : Option Share) → shared_agree a b ≡ true → shared_agree b a ≡ true
unfolding shared_agree
shared_agree_comm none b h = cc
shared_agree_comm (some s) none h = cc
shared_agree_comm (some s) (some t) h = ground (
  arith,
  bytes_eq_comm s.worker t.worker,
  bytes_eq_comm s.user_agent t.user_agent,
  bytes_eq_comm s.source_ip t.source_ip,
  bytes_eq_comm s.source t.source,
  bytes_eq_comm s.session_id t.session_id,
  double_eq_comm s.achieved_share_difficulty t.achieved_share_difficulty,
)

strict_projection-id :
    (p : Projection) (tm : ℤ)
    → strict_projection p tm non_pps ≡ true
    → strict_id p.accounting_id ≡ true
unfolding strict_projection
strict_projection-id p tm h = ground arith

strict_pair-valid :
    (tm : ℤ) (primary : Projection) (pair : Option Projection)
    → strict_projection primary tm non_pps ≡ true
    → candidates_agree pair ≡ true
    → with_pair (strict_pair tm primary) pair ≡ true
    → with_pair (valid_pair tm primary) pair ≡ true
strict_pair-valid tm primary none hp c h = h
strict_pair-valid tm primary (some paired) hp c h =
    let strict : strict_projection paired tm non_pps ≡ true = ground arith in
    let role : role_allows true paired.accounting_role ≡ true = ground arith in
    let valid = strict_projection-valid paired tm true strict role c in
    ground (
      arith,
      valid,
      strict_id-present primary.accounting_id,
      strict_id-present paired.accounting_id,
      strict_projection-id primary tm,
      strict_projection-id paired tm,
      bytes_eq_comm (bytes_or_empty paired.accounting_id) (bytes_or_empty primary.accounting_id),
      shared_agree_comm paired.share primary.share,
    )

strict_field-valid :
    (m : Accounting) (tm : ℤ) (outer : Bytes) (o : Option Projection)
    → candidates_agree o ≡ true
    → candidates_agree m.paired ≡ true
    → with_field (strict_primary m tm outer) o ≡ true
    → with_field (valid_primary m tm outer) o ≡ true
strict_field-valid m tm outer none cp cq h = h
strict_field-valid m tm outer (some primary) cp cq h =
    let strict : strict_projection primary tm non_pps ≡ true = ground arith in
    let role : role_allows false primary.accounting_role ≡ true = ground arith in
    let valid = strict_projection-valid primary tm false strict role cp in
    let pair = strict_pair-valid tm primary m.paired strict cq (ground arith) in
    ground (arith, valid, pair)

-- An event that the checks of schema 3 accept, and whose shares have candidate fields that agree
-- with their flags, is accepted by the checks of the profile.
pub strict_accounting-valid :
    (m : Accounting) (tm : ℤ) (outer : Bytes)
    → candidates_agree m.primary ≡ true
    → candidates_agree m.paired ≡ true
    → strict_accounting m tm outer ≡ true
    → valid_accounting m tm outer ≡ true
unfolding strict_accounting valid_accounting
strict_accounting-valid m tm outer cp cq h = strict_field-valid m tm outer m.primary cp cq h
