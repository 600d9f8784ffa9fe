-- ===== src/Reconnect/Staging/Injective.antt =====
-- The bytes that the digest of a staging covers, read back as a staged policy
-- (tools/verify_freeze_completion_vectors.py).
use core_drp.Prelude.{
  ℕ, suc, ◌≡◌, refl, sym, ap, ◌∙◌, ◌⊎◌, inl, inr, arith, Option, none, some, List, [], ◌∷◌, ◌++◌,
  length, append-inj, Bytes, codes, be,
}
use core_drp.Prelude.Int.{ℤ, pos}
use core_drp.Result.{ok, ok-inj, >>=-eq-ok}
use core_drp.Requests.Schema.{u8, u64, i64, int}
use core_drp.Requests.Encoding.{integer, signed, lp, ascii_of, scalar_value}
use core_drp.Requests.Scalars.{lp-told, ascii_of-eq-ok, scalar_value-Told}
use core_drp.Reconnect.Staging.{
  StagedPolicy, has_sender, mode_part, staged_evidence, fields_from, staging_values,
  staging_preimage,
}

fields_from-inj :
    (id : ℕ) (xs ys : List Bytes) (b : Bytes)
    → length xs ≡ length ys
    → fields_from id xs ≡ ok b
    → fields_from id ys ≡ ok b
    → xs ≡ ys
unfolding fields_from
fields_from-inj id [] [] b n h k = refl
fields_from-inj id [] (y ∷ ys) b n h k = absurd (omega arith)
fields_from-inj id (x ∷ xs) [] b n h k = absurd (omega arith)
fields_from-inj id (x ∷ xs) (y ∷ ys) b n h k =
    let (b1, h1, h2) = >>=-eq-ok (lp x) _ h in
    let (b2, h3, h4) = >>=-eq-ok (fields_from (suc id) xs) _ h2 in
    let (c1, k1, k2) = >>=-eq-ok (lp y) _ k in
    let (c2, k3, k4) = >>=-eq-ok (fields_from (suc id) ys) _ k2 in
    let (_, inner) = append-inj (be 2 id) (be 2 id) _ _ refl (ok-inj (h4 ∙ sym k4)) in
    let (first, rest) = lp-told x y b1 c1 b2 c2 h1 k1 inner in
    let others = fields_from-inj (suc id) xs ys b2 (omega arith) h3 (k3 ∙ ap ok (sym rest)) in
    ground (arith, first, others)

-- The bytes of a mode tell it from what follows.
mode_part-told :
    (m n : Option ℤ) (b c r s : Bytes)
    → mode_part m ≡ ok b
    → mode_part n ≡ ok c
    → b ++ r ≡ c ++ s
    → m ≡ n
unfolding scalar_value
mode_part-told none none b c r s h k e = refl
mode_part-told none (some n) b c r s h k e =
    let (d, _, k1) = >>=-eq-ok (integer 1 (int n)) _ k in
    absurd (ground (arith, ok-inj h, ok-inj k1))
mode_part-told (some m) none b c r s h k e =
    let (d, _, h1) = >>=-eq-ok (integer 1 (int m)) _ h in
    absurd (ground (arith, ok-inj h1, ok-inj k))
mode_part-told (some m) (some n) b c r s h k e =
    let (b', h1, h2) = >>=-eq-ok (integer 1 (int m)) _ h in
    let (c', k1, k2) = >>=-eq-ok (integer 1 (int n)) _ k in
    let e' : 1 ∷ (b' ++ r) ≡ 1 ∷ (c' ++ s) =
      ap (λ t. t ++ r) (ok-inj h2) ∙ e ∙ ap (λ t. t ++ s) (sym (ok-inj k2)) in
    let tails : b' ++ r ≡ c' ++ s = cc e' in
    let (same, _) = scalar_value-Told u8 (int m) (int n) b' c' r s h1 k1 tails in cc same

-- The parts of what a staging covers.
HasValues : StagedPolicy → Bytes → Bytes → Bytes → Bytes → Bytes → Type 0
HasValues x q generation effective kind evidence =
    (ascii_of x.scope ≡ ok q)
    × (integer 8 (int x.policy_generation) ≡ ok generation)
    × (signed (int x.effective_unix_ms) ≡ ok effective)
    × (integer 1 (int x.policy_kind) ≡ ok kind)
    × ((size : Bytes) × (mode : Bytes) × (integer 2 (int (pos (length q))) ≡ ok size)
        × (mode_part x.mode ≡ ok mode)
        × (evidence
            ≡ be 2 1
              ++ (kind
                  ++ (size
                      ++ (q
                          ++ (has_sender x.sender
                              ++ (x.sender ++ (effective ++ (mode ++ generation)))))))))

staged_evidence-HasValues :
    (x : StagedPolicy) (q generation effective kind evidence : Bytes)
    → staged_evidence x ≡ ok evidence
    → ascii_of x.scope ≡ ok q
    → integer 8 (int x.policy_generation) ≡ ok generation
    → signed (int x.effective_unix_ms) ≡ ok effective
    → integer 1 (int x.policy_kind) ≡ ok kind
    → HasValues x q generation effective kind evidence
unfolding staged_evidence HasValues
staged_evidence-HasValues x q generation effective kind evidence h hq hg he hk =
    let (q', hq', h1) = >>=-eq-ok (ascii_of x.scope) _ h in
    let (kind', hk', h2) = >>=-eq-ok (integer 1 (int x.policy_kind)) _ h1 in
    let (size, hs, h3) = >>=-eq-ok (integer 2 (int (pos (length q')))) _ h2 in
    let (effective', he', h4) = >>=-eq-ok (signed (int x.effective_unix_ms)) _ h3 in
    let (mode, hm, h5) = >>=-eq-ok (mode_part x.mode) _ h4 in
    let (generation', hg', h6) = >>=-eq-ok (integer 8 (int x.policy_generation)) _ h5 in
    let qs : q' ≡ q = ok-inj (sym hq' ∙ hq) in
    let kinds : kind' ≡ kind = ok-inj (sym hk' ∙ hk) in
    let effectives : effective' ≡ effective = ok-inj (sym he' ∙ he) in
    let generations : generation' ≡ generation = ok-inj (sym hg' ∙ hg) in
    (
      hq,
      hg,
      he,
      hk,
      (
        size,
        mode,
        ap (λ t. integer 2 (int (pos (length t)))) (sym qs) ∙ hs,
        hm,
        cc (ok-inj h6, qs, kinds, effectives, generations),
      ),
    )

staging_values-HasValues :
    (x : StagedPolicy) (values : List Bytes)
    → staging_values x ≡ ok values
    → (q : Bytes) × (generation : Bytes) × (effective : Bytes) × (kind : Bytes) × (evidence : Bytes)
      × HasValues x q generation effective kind evidence
      × (values ≡ q ∷ generation ∷ effective ∷ kind ∷ x.sender ∷ evidence ∷ [])
unfolding staging_values
staging_values-HasValues x values h =
    let (evidence, hv, h1) = >>=-eq-ok (staged_evidence x) _ h in
    let (q, hq, h2) = >>=-eq-ok (ascii_of x.scope) _ h1 in
    let (generation, hg, h3) = >>=-eq-ok (integer 8 (int x.policy_generation)) _ h2 in
    let (effective, he, h4) = >>=-eq-ok (signed (int x.effective_unix_ms)) _ h3 in
    let (kind, hk, h5) = >>=-eq-ok (integer 1 (int x.policy_kind)) _ h4 in
    (
      q,
      generation,
      effective,
      kind,
      evidence,
      staged_evidence-HasValues x q generation effective kind evidence hv hq hg he hk,
      sym (ok-inj h5),
    )

-- Equal bytes of two numbers.
number-inj :
    (w : ℕ) (m n : ℤ) (b : Bytes)
    → (w ≡ 1) ⊎ (w ≡ 8)
    → integer w (int m) ≡ ok b
    → integer w (int n) ≡ ok b
    → m ≡ n
unfolding scalar_value
number-inj w m n b (inl one) h k =
    let (same, _) =
      scalar_value-Told u8 (int m) (int n) b b [] [] (ap (λ t. integer t (int m)) (sym one) ∙ h)
        (ap (λ t. integer t (int n)) (sym one) ∙ k) refl in
    cc same
number-inj w m n b (inr eight) h k =
    let (same, _) =
      scalar_value-Told u64 (int m) (int n) b b [] [] (ap (λ t. integer t (int m)) (sym eight) ∙ h)
        (ap (λ t. integer t (int n)) (sym eight) ∙ k) refl in
    cc same

time-inj : (m n : ℤ) (b : Bytes) → signed (int m) ≡ ok b → signed (int n) ≡ ok b → m ≡ n
unfolding scalar_value
time-inj m n b h k =
    let (same, _) = scalar_value-Told i64 (int m) (int n) b b [] [] h k refl in cc same

-- What stands before the mode is the same in both.
HasValues-mode :
    (x y : StagedPolicy) (q generation effective kind evidence : Bytes)
    → HasValues x q generation effective kind evidence
    → HasValues y q generation effective kind evidence
    → x.sender ≡ y.sender
    → x.mode ≡ y.mode
unfolding HasValues
HasValues-mode x y q generation effective kind evidence h h' senders =
    let (_, _, _, _, (size, mode, hs, hm, at)) = h in
    let (_, _, _, _, (size', mode', hs', hm', at')) = h' in
    let sizes : size ≡ size' = ok-inj (sym hs ∙ hs') in
    let front : Bytes → Bytes → Bytes → Bytes = λ s sender rest.
      be 2 1 ++ (kind ++ (s ++ (q ++ (has_sender sender ++ (sender ++ (effective ++ rest)))))) in
    let fronts : front size' y.sender (mode' ++ generation)
        ≡ front size x.sender (mode' ++ generation) =
      cc (sizes, senders) in
    let e : front size x.sender (mode ++ generation) ≡ front size x.sender (mode' ++ generation) =
      sym at ∙ at' ∙ fronts in
    let (_, e1) = append-inj (be 2 1) (be 2 1) _ _ refl e in
    let (_, e2) = append-inj kind kind _ _ refl e1 in
    let (_, e3) = append-inj size size _ _ refl e2 in
    let (_, e4) = append-inj q q _ _ refl e3 in
    let (_, e5) = append-inj (has_sender x.sender) (has_sender x.sender) _ _ refl e4 in
    let (_, e6) = append-inj x.sender x.sender _ _ refl e5 in
    let (_, e7) = append-inj effective effective _ _ refl e6 in
    mode_part-told x.mode y.mode mode mode' generation generation hm hm' e7

HasValues-inj :
    (x y : StagedPolicy) (q generation effective kind evidence : Bytes)
    → HasValues x q generation effective kind evidence
    → HasValues y q generation effective kind evidence
    → x.sender ≡ y.sender
    → x ≡ y
unfolding HasValues
HasValues-inj x y q generation effective kind evidence h h' senders =
    let modes = HasValues-mode x y q generation effective kind evidence h h' senders in
    let (hq, hg, he, hk, _) = h in
    let (hq', hg', he', hk', _) = h' in
    let scopes : x.scope ≡ y.scope =
      ascii_of-eq-ok x.scope q hq ∙ sym (ascii_of-eq-ok y.scope q hq') in
    let generations =
      number-inj 8 x.policy_generation y.policy_generation generation (inr refl) hg hg' in
    let effectives = time-inj x.effective_unix_ms y.effective_unix_ms effective he he' in
    let kinds = number-inj 1 x.policy_kind y.policy_kind kind (inl refl) hk hk' in
    cc (modes, scopes, generations, effectives, kinds, senders)

length-staging_values :
    (x : StagedPolicy) (values : List Bytes) → staging_values x ≡ ok values → length values ≡ 6
length-staging_values x values h =
    let (_, _, _, _, _, _, at) = staging_values-HasValues x values h in ap length at

staging_values-inj :
    (x y : StagedPolicy) (values : List Bytes)
    → staging_values x ≡ ok values
    → staging_values y ≡ ok values
    → x ≡ y
staging_values-inj x y values h k =
    let (q, generation, effective, kind, evidence, parts, at) =
      staging_values-HasValues x values h in
    let (q', generation', effective', kind', evidence', parts', at') =
      staging_values-HasValues y values k in
    let listed = sym at' ∙ at in
    let qs : q' ≡ q = cc listed in
    let generations : generation' ≡ generation = cc listed in
    let effectives : effective' ≡ effective = cc listed in
    let kinds : kind' ≡ kind = cc listed in
    let evidences : evidence' ≡ evidence = cc listed in
    let senders : x.sender ≡ y.sender = cc listed in
    HasValues-inj x y q generation effective kind evidence parts
      (rw (qs, generations, effectives, kinds, evidences) at parts') senders

-- Two staged policies for which the same bytes are hashed are the same policy: the same kind, scope,
-- sender, time, mode and generation.
pub staging_preimage-inj :
    (x y : StagedPolicy) (b : Bytes) → staging_preimage x ≡ ok b → staging_preimage y ≡ ok b → x ≡ y
unfolding staging_preimage
staging_preimage-inj x y b h k =
    let (values, hv, h1) = >>=-eq-ok (staging_values x) _ h in
    let (fields, hf, h2) = >>=-eq-ok (fields_from 1 values) _ h1 in
    let (body, hb, h3) = >>=-eq-ok (lp (be 2 1 ++ (be 2 6 ++ fields))) _ h2 in
    let (values', hv', k1) = >>=-eq-ok (staging_values y) _ k in
    let (fields', hf', k2) = >>=-eq-ok (fields_from 1 values') _ k1 in
    let (body', hb', k3) = >>=-eq-ok (lp (be 2 1 ++ (be 2 6 ++ fields'))) _ k2 in
    let (_, e1) =
      append-inj (codes "CoreDRP1-ADMIN") (codes "CoreDRP1-ADMIN") _ _ refl
        (ok-inj (h3 ∙ sym k3)) in
    let (_, bodies) = append-inj (be 2 0x0106) (be 2 0x0106) body body' refl e1 in
    let (inner, _) =
      lp-told (be 2 1 ++ (be 2 6 ++ fields)) (be 2 1 ++ (be 2 6 ++ fields')) body body' [] [] hb hb'
        (ap (λ t. t ++ []) bodies) in
    let (_, e2) = append-inj (be 2 1) (be 2 1) _ _ refl inner in
    let (_, same_fields) = append-inj (be 2 6) (be 2 6) fields fields' refl e2 in
    let same =
      fields_from-inj 1 values values' fields
        (length-staging_values x values hv ∙ sym (length-staging_values y values' hv')) hf
        (hf' ∙ ap ok (sym same_fields)) in
    staging_values-inj x y values hv (hv' ∙ ap ok (sym same))
