-- ===== src/Finance/Effects/Injective.antt =====
-- The bytes of an effect, read back as the effect (effect_bytes of tools/financial_semantics.py).
use mathlib.Core.Path.{subst}
use mathlib.Core.List.{append_assoc}
use core_drp.Prelude.{
  ℕ, ◌^◌, ◌≤◌, ◌<◌, ◌≡◌, refl, sym, ap, ◌∙◌, inl, inr, true, Bool-cases, arith, ◌∷◌, ◌++◌, length,
  length-append, append-inj, Bytes, be, length-be, be-inj,
}
use core_drp.Result.{ok, ok-inj, raise≢ok, ◌>>◌, >>=-eq-ok}
use core_drp.Policy.{demand}
use core_drp.Finance.{Fraction, decimal}
use core_drp.Finance.Amounts.{decimal-CanonicalText, length_whole}
use core_drp.Finance.Effects.{
  lp, Settlement, Effect, EffectParts, hex_value, valid_parts, parts_of, effect_parts,
  effect_fields, effect_bytes,
}

-- The first of two fields with a length before it can be told from what follows.
pub lp-inj :
    (a b r t : Bytes)
    → length a < 65536
    → length b < 65536
    → lp a ++ r ≡ lp b ++ t
    → (a ≡ b) × (r ≡ t)
lp-inj a b r t ha hb e =
    let e' : be 2 (length a) ++ (a ++ r) ≡ be 2 (length b) ++ (b ++ t) =
      sym (append_assoc (be 2 (length a)) a r) ∙ e ∙ append_assoc (be 2 (length b)) b t in
    let sizes =
      append-inj (be 2 (length a)) (be 2 (length b)) (a ++ r) (b ++ t)
        (length-be 2 (length a) ∙ sym (length-be 2 (length b))) e' in
    append-inj a b r t (be-inj 2 (length a) (length b) ha hb sizes.0) sizes.1

pub be_field-inj :
    (w m n : ℕ) (r t : Bytes)
    → m < 256 ^ w
    → n < 256 ^ w
    → be w m ++ r ≡ be w n ++ t
    → (m ≡ n) × (r ≡ t)
be_field-inj w m n r t hm hn e =
    let parts = append-inj (be w m) (be w n) r t (length-be w m ∙ sym (length-be w n)) e in
    (be-inj w m n hm hn parts.0, parts.1)

-- The sizes that the checks of effect_bytes give.
pub record IsSized (p : EffectParts) : Type 0 where
  pub kind_small : p.kind < 256 ^ 1
  pub scope_size : length p.scope < 65536
  pub settlement_size : length p.settlement_id < 65536
  pub mining_size : length p.mining_digest ≡ 32
  pub miningcore_size : length p.miningcore_digest ≡ 32
  pub identity_size : length p.identity ≡ 16
  pub sender_size : length p.sender ≡ 16
  pub epoch_size : length p.epoch ≡ 16
  pub lane_small : p.lane < 256 ^ 1
  pub sequence_small : p.sequence < 256 ^ 8
  pub relay_size : length p.relay ≡ 16
  pub event_type_small : p.event_type < 256 ^ 2
  pub payload_size : length p.payload ≡ 32
  pub miner_size : length p.miner < 65536
  pub amount_size : length p.amount < 65536

valid_parts-IsSized : (p : EffectParts) → valid_parts p ≡ true → length p.amount < 65536 → IsSized p
valid_parts-IsSized p h a = ground arith

effect_fields-inj :
    (p q : EffectParts) → IsSized p → IsSized q → effect_fields p ≡ effect_fields q → p ≡ q
effect_fields-inj p q sp sq e =
    let version = append-inj (be 2 1) (be 2 1) _ _ refl e in
    let kind = be_field-inj 1 p.kind q.kind _ _ sp.kind_small sq.kind_small version.1 in
    let scope = lp-inj p.scope q.scope _ _ sp.scope_size sq.scope_size kind.1 in
    let settlement =
      lp-inj p.settlement_id q.settlement_id _ _ sp.settlement_size sq.settlement_size scope.1 in
    let mining =
      append-inj p.mining_digest q.mining_digest _ _ (sp.mining_size ∙ sym sq.mining_size)
        settlement.1 in
    let miningcore =
      append-inj p.miningcore_digest q.miningcore_digest _ _
        (sp.miningcore_size ∙ sym sq.miningcore_size) mining.1 in
    let identity =
      append-inj p.identity q.identity _ _ (sp.identity_size ∙ sym sq.identity_size) miningcore.1 in
    let sender =
      append-inj p.sender q.sender _ _ (sp.sender_size ∙ sym sq.sender_size) identity.1 in
    let epoch = append-inj p.epoch q.epoch _ _ (sp.epoch_size ∙ sym sq.epoch_size) sender.1 in
    let lane = be_field-inj 1 p.lane q.lane _ _ sp.lane_small sq.lane_small epoch.1 in
    let sequence =
      be_field-inj 8 p.sequence q.sequence _ _ sp.sequence_small sq.sequence_small lane.1 in
    let relay = append-inj p.relay q.relay _ _ (sp.relay_size ∙ sym sq.relay_size) sequence.1 in
    let event_type =
      be_field-inj 2 p.event_type q.event_type _ _ sp.event_type_small sq.event_type_small
        relay.1 in
    let payload =
      append-inj p.payload q.payload _ _ (sp.payload_size ∙ sym sq.payload_size) event_type.1 in
    let miner = lp-inj p.miner q.miner _ _ sp.miner_size sq.miner_size payload.1 in
    let sizes =
      append-inj (be 2 (length p.amount)) (be 2 (length q.amount)) p.amount q.amount
        (length-be 2 (length p.amount) ∙ sym (length-be 2 (length q.amount))) miner.1 in
    ground (
      arith, kind.0, scope.0, settlement.0, mining.0, miningcore.0, identity.0, sender.0, epoch.0,
      lane.0, sequence.0, relay.0, event_type.0, payload.0, miner.0, sizes.1,
    )

decimal-length : (s : Bytes) (v : Fraction) → decimal s ≡ ok v → length s < 65536
decimal-length s v h = elim (decimal-CanonicalText s v h) [
  | inl (whole, _) ↦ omega (arith, length_whole s whole)
  | inr (w, p, e, whole, part, _) ↦
      let short : length p ≤ 24 = ground arith in
      omega (arith, ap length e, length-append w (46 ∷ p), length_whole w whole)
]

demanded :
    (p q : EffectParts) → (demand (valid_parts p) >> ok p) ≡ ok q → (p ≡ q) × (valid_parts p ≡ true)
demanded p q h = elim (Bool-cases (valid_parts p)) [
  | inl e ↦ (ok-inj (rw e at h), e)
  | inr e ↦ absurd (raise≢ok (rw e at h))
]

-- What effect_parts has checked.
effect_parts-IsSized :
    (s : Settlement) (x : Effect) (p : EffectParts) → effect_parts s x ≡ ok p → IsSized p
unfolding effect_parts
effect_parts-IsSized s x p h =
    let (identity, _, h1) = >>=-eq-ok (hex_value x.identity) _ h in
    let (settlement_id, _, h2) = >>=-eq-ok (hex_value s.settlement_id_hex) _ h1 in
    let (v, read, h3) = >>=-eq-ok (decimal x.amount) _ h2 in
    let (sender, _, h4) = >>=-eq-ok (hex_value x.sender) _ h3 in
    let (epoch, _, h5) = >>=-eq-ok (hex_value x.epoch) _ h4 in
    let (relay, _, h6) = >>=-eq-ok (hex_value x.relay) _ h5 in
    let (mining, _, h7) = >>=-eq-ok (hex_value s.mining_scope_contract_digest32) _ h6 in
    let (miningcore, _, h8) = >>=-eq-ok (hex_value s.miningcore_scope_contract_digest32) _ h7 in
    let (payload, _, h9) = >>=-eq-ok (hex_value x.payload_hash) _ h8 in
    let (same, valid) =
      demanded (parts_of s x identity settlement_id sender epoch relay mining miningcore payload) p
        h9 in
    let short : length p.amount < 65536 =
      subst (λ (a : Bytes). length a < 65536) (ap (λ (q : EffectParts). q.amount) same)
        (decimal-length x.amount v read) in
    valid_parts-IsSized p (ap valid_parts (sym same) ∙ valid) short

-- One byte string stands for one effect: where effect_bytes gives the same bytes twice, the checked
-- parts of the two effects and their settlements are the same.
pub effect_bytes-inj :
    (s t : Settlement) (x y : Effect) (b : Bytes)
    → effect_bytes s x ≡ ok b
    → effect_bytes t y ≡ ok b
    → (p : EffectParts) × (effect_parts s x ≡ ok p) × (effect_parts t y ≡ ok p)
unfolding effect_bytes
effect_bytes-inj s t x y b h k =
    let (p, ep, fp) = >>=-eq-ok (effect_parts s x) (λ p. ok (effect_fields p)) h in
    let (q, eq, fq) = >>=-eq-ok (effect_parts t y) (λ p. ok (effect_fields p)) k in
    let same =
      effect_fields-inj p q (effect_parts-IsSized s x p ep) (effect_parts-IsSized t y q eq)
        (ok-inj (fp ∙ sym fq)) in
    (p, ep, eq ∙ ap ok (sym same))
