-- ===== src/Shadow/Carry.antt =====
-- The carry histories of reference/coredrp_ref/miningcore_shadow.py: a history without a finding is
-- one that some opening remainder explains.
use core_drp.Prelude.{◌≡◌, ◌↔◌, refl, false, Bool-cases, inl, inr, arith, none, List, [], ◌∷◌}
use core_drp.Prelude.Int.{ℤ, pos, ◌+ℤ◌, ◌-ℤ◌, ◌≤ℤ◌, ◌<ℤ◌, leb_ℤ, min_ℤ, max_ℤ, int_laws}
use core_drp.Shadow.{CarryRow, unit, carry_loop, carry_finding}

-- With this opening remainder every later remainder stays at or above zero and below a unit.
abbrev pub Explains : ℤ → ℤ → List CarryRow → Type 0
Explains opening prefix [] = Unit
Explains opening prefix ((key, actual, paid) ∷ rows) =
    let p = prefix +ℤ (actual -ℤ paid) in
    (pos 0 ≤ℤ opening +ℤ p) × (opening +ℤ p <ℤ unit) × Explains opening p rows

max_le : (a b o : ℤ) → max_ℤ a b ≤ℤ o → (a ≤ℤ o) × (b ≤ℤ o)
max_le a b o h = ground arith

le_max : (a b o : ℤ) → a ≤ℤ o → b ≤ℤ o → max_ℤ a b ≤ℤ o
le_max a b o h k = ground arith

lt_min : (a b o : ℤ) → o <ℤ min_ℤ a b → (o <ℤ a) × (o <ℤ b)
lt_min a b o h = ground arith

min_lt : (a b o : ℤ) → o <ℤ a → o <ℤ b → o <ℤ min_ℤ a b
min_lt a b o h k = ground arith

leb_ℤ-false : (a b : ℤ) → leb_ℤ a b ≡ false → b <ℤ a
leb_ℤ-false a b h = ground arith

leb_ℤ-lt : (a b o : ℤ) → b ≤ℤ o → o <ℤ a → leb_ℤ a b ≡ false
leb_ℤ-lt a b o h k = ground arith

explained :
    (rows : List CarryRow) (prefix lower upper : ℤ)
    → lower <ℤ upper
    → carry_loop prefix lower upper rows ≡ none
    → (opening : ℤ) × (lower ≤ℤ opening) × (opening <ℤ upper) × Explains opening prefix rows
unfolding carry_loop
explained [] prefix lower upper h e = (lower, omega arith, h, tt)
explained ((key, actual, paid) ∷ rows) prefix lower upper h e =
    let p = prefix +ℤ (actual -ℤ paid) in
    let l = max_ℤ lower (pos 0 -ℤ p) in
    let u = min_ℤ upper (unit -ℤ p) in
    elim (Bool-cases (leb_ℤ u l)) [
      | inl stop ↦ absurd (cc (rw stop at e))
      | inr more ↦
          let (o, low, high, rest) = explained rows p l u (leb_ℤ-false u l more) (rw more at e) in
          let (low1, low2) = max_le lower (pos 0 -ℤ p) o low in
          let (high1, high2) = lt_min upper (unit -ℤ p) o high in
          (o, low1, high1, (omega (int_laws, low2), omega (int_laws, high2), rest))
    ]

not_found :
    (rows : List CarryRow) (opening prefix lower upper : ℤ)
    → lower ≤ℤ opening
    → opening <ℤ upper
    → Explains opening prefix rows
    → carry_loop prefix lower upper rows ≡ none
unfolding carry_loop
not_found [] opening prefix lower upper low high x = refl
not_found ((key, actual, paid) ∷ rows) opening prefix lower upper low high x =
    let p = prefix +ℤ (actual -ℤ paid) in
    let l = max_ℤ lower (pos 0 -ℤ p) in
    let u = min_ℤ upper (unit -ℤ p) in
    let low' : l ≤ℤ opening = le_max lower (pos 0 -ℤ p) opening low (omega (int_laws, x.0)) in
    let high' : opening <ℤ u = min_lt upper (unit -ℤ p) opening high (omega (int_laws, x.1)) in
    let more : leb_ℤ u l ≡ false = leb_ℤ-lt u l opening low' high' in
    rw more (not_found rows opening p l u low' high' x.2)

-- The carry history of a recipient gives no finding exactly when some opening remainder, at or above
-- zero and below a unit of 10**-12, keeps the remainder after each row at or above zero and below a
-- unit.
pub carry_finding-none :
    (rows : List CarryRow)
    → (carry_finding rows ≡ none)
      ↔ ((opening : ℤ) × (pos 0 ≤ℤ opening) × (opening <ℤ unit) × Explains opening (pos 0) rows)
unfolding carry_finding
carry_finding-none rows = (
  explained rows (pos 0) (pos 0) unit (omega arith),
  λ (o, low, high, x). not_found rows o (pos 0) (pos 0) unit low high x,
)
