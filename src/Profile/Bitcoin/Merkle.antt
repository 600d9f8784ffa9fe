-- ===== src/Profile/Bitcoin/Merkle.antt =====
-- merkle of tools/verify_profile_vectors.py: the rounds that the leaves bound are enough.
use core_drp.Prelude.{ℕ, zero, suc, ◌≤◌, ◌≡◌, refl, arith, List, [], ◌∷◌, length, Bytes}
use core_drp.Profile.Bitcoin.{pair_up, merkle_loop}

length-pair_up : (level : List Bytes) → length (pair_up level) ≤ length level
length-pair_up [] = omega arith
length-pair_up (a ∷ []) = omega arith
length-pair_up (a ∷ b ∷ level) = omega (arith, length-pair_up level)

-- With at least as many rounds as hashes the root does not depend on the rounds.
pub merkle_loop-enough :
    (m n : ℕ) (level : List Bytes)
    → length level ≤ m
    → length level ≤ n
    → merkle_loop m level ≡ merkle_loop n level
unfolding merkle_loop
merkle_loop-enough m n [] h k = refl
merkle_loop-enough m n (a ∷ []) h k = refl
merkle_loop-enough zero n (a ∷ b ∷ level) h k = absurd (omega arith)
merkle_loop-enough (suc m) zero (a ∷ b ∷ level) h k = absurd (omega arith)
merkle_loop-enough (suc m) (suc n) (a ∷ b ∷ level) h k =
    merkle_loop-enough m n (pair_up (a ∷ b ∷ level)) (omega (arith, length-pair_up level))
      (omega (arith, length-pair_up level))
