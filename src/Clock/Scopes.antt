-- ===== src/Clock/Scopes.antt =====
-- The limits of a stream that serves several scopes: the least of each kind (the reducer in verify of
-- tools/verify_policy_clock_vectors.py).
use core_drp.Prelude.{◌≡◌, arith, List, [], ◌∷◌, refl, ap, ℕ, zero, suc, some, some-inj, get_elem?}
use core_drp.Prelude.Int.{ℤ, ◌≤ℤ◌, min_ℤ}

pub record Limits : Type 0 where
  pub skew : ℤ
  pub step : ℤ
  pub probe : ℤ
  pub processing : ℤ
  pub expiry : ℤ
  pub grace : ℤ

-- min(s[key] for s in scopes), of a scope and the others
abbrev pub least : (Limits → ℤ) → Limits → List Limits → ℤ
least key s [] = key s
least key s (t ∷ ts) = min_ℤ (key s) (least key t ts)

unfoldable pub reduce_limits : Limits → List Limits → Limits
reduce_limits s ts = record {
  skew = least (λ l. l.skew) s ts;
  step = least (λ l. l.step) s ts;
  probe = least (λ l. l.probe) s ts;
  processing = least (λ l. l.processing) s ts;
  expiry = least (λ l. l.expiry) s ts;
  grace = least (λ l. l.grace) s ts;
}

-- Each limit of one scope is at most that of another.
pub record AtMost (s t : Limits) : Type 0 where
  pub skew : s.skew ≤ℤ t.skew
  pub step : s.step ≤ℤ t.step
  pub probe : s.probe ≤ℤ t.probe
  pub processing : s.processing ≤ℤ t.processing
  pub expiry : s.expiry ≤ℤ t.expiry
  pub grace : s.grace ≤ℤ t.grace

least-le :
    (key : Limits → ℤ) (s : Limits) (ts : List Limits) (i : ℕ) {t : Limits}
    → get_elem? (s ∷ ts) i ≡ some t
    → least key s ts ≤ℤ key t
least-le key s [] zero h = ground (arith, ap key (some-inj h))
least-le key s [] (suc i) h = cc
least-le key s (t ∷ ts) zero h = ground (arith, ap key (some-inj h))
least-le key s (t ∷ ts) (suc i) h = ground (arith, least-le key t ts i h)

least-ge :
    (key : Limits → ℤ) (s : Limits) (ts : List Limits) (b : ℤ)
    → ((i : ℕ) (t : Limits) → get_elem? (s ∷ ts) i ≡ some t → b ≤ℤ key t)
    → b ≤ℤ least key s ts
least-ge key s [] b h = h 0 s refl
least-ge key s (t ∷ ts) b h =
    ground (arith, h 0 s refl, least-ge key t ts b (λ i u e. h (suc i) u e))

-- The limits of a stream are the greatest that respect every scope: they are at most those of each
-- scope, and any limits that are at most those of each scope are at most they.
pub reduce_limits-AtMost :
    (s : Limits) (ts : List Limits) (i : ℕ) (t bound : Limits)
    → get_elem? (s ∷ ts) i ≡ some t
    → ((j : ℕ) (u : Limits) → get_elem? (s ∷ ts) j ≡ some u → AtMost bound u)
    → AtMost (reduce_limits s ts) t × AtMost bound (reduce_limits s ts)
unfolding reduce_limits
reduce_limits-AtMost s ts i t bound at below = (
  record {
    skew = least-le (λ l. l.skew) s ts i at;
    step = least-le (λ l. l.step) s ts i at;
    probe = least-le (λ l. l.probe) s ts i at;
    processing = least-le (λ l. l.processing) s ts i at;
    expiry = least-le (λ l. l.expiry) s ts i at;
    grace = least-le (λ l. l.grace) s ts i at;
  },
  record {
    skew = least-ge (λ l. l.skew) s ts bound.skew (λ j u e. (below j u e).skew);
    step = least-ge (λ l. l.step) s ts bound.step (λ j u e. (below j u e).step);
    probe = least-ge (λ l. l.probe) s ts bound.probe (λ j u e. (below j u e).probe);
    processing =
        least-ge (λ l. l.processing) s ts bound.processing (λ j u e. (below j u e).processing);
    expiry = least-ge (λ l. l.expiry) s ts bound.expiry (λ j u e. (below j u e).expiry);
    grace = least-ge (λ l. l.grace) s ts bound.grace (λ j u e. (below j u e).grace);
  },
)
