-- ===== src/Profile/Bitcoin/Fields.antt =====
-- parse_tx of tools/verify_profile_vectors.py: each reader of a part of a transaction takes a prefix of
-- the buffer, on which alone its value depends.
use core_drp.Prelude.{
  ℕ, ◌≤◌, ◌≡◌, refl, sym, ap, ◌∙◌, Bool-cases, inl, inr, Bool, true, false, arith, List, [], ◌∷◌,
  ◌++◌, length, length-append, drop, Bytes,
}
use core_drp.Result.{ok}
use core_drp.Profile.Bitcoin.{
  rv, read, then_read, spanned, repeat, Input, parse_input, parse_output, parse_element,
  parse_stack, has_marker, parse_marker, parse_witnesses, Transaction, parse_rest, parse_fields,
  parse_body,
}
use core_drp.Profile.Bitcoin.Prefixes.{
  IsPrefix, Takes, read-IsPrefix, rv-IsPrefix, rv-Takes, return-IsPrefix, then_read-IsPrefix,
  then_read-Takes, IsPrefix-Takes, spanned-IsPrefix, repeat-IsPrefix,
}

pub parse_input-IsPrefix : IsPrefix parse_input
unfolding parse_input
parse_input-IsPrefix = then_read-IsPrefix (read 32) _ (read-IsPrefix 32) λ prev.
    then_read-IsPrefix (read 4) _ (read-IsPrefix 4) λ index.
      then_read-IsPrefix rv _ rv-IsPrefix λ size.
        then_read-IsPrefix (read size) _ (read-IsPrefix size)
          λ script. then_read-IsPrefix (read 4) _ (read-IsPrefix 4) λ sequence. return-IsPrefix _

pub parse_output-IsPrefix : IsPrefix parse_output
unfolding parse_output
parse_output-IsPrefix = then_read-IsPrefix (read 8) _ (read-IsPrefix 8) λ value.
    then_read-IsPrefix rv _ rv-IsPrefix
      λ size. then_read-IsPrefix (read size) _ (read-IsPrefix size) λ script. return-IsPrefix _

parse_element-IsPrefix : IsPrefix parse_element
unfolding parse_element
parse_element-IsPrefix = then_read-IsPrefix rv read rv-IsPrefix read-IsPrefix

parse_stack-IsPrefix : IsPrefix parse_stack
unfolding parse_stack
parse_stack-IsPrefix =
    then_read-IsPrefix rv (λ count. repeat count parse_element) rv-IsPrefix
      λ count. repeat-IsPrefix count parse_element parse_element-IsPrefix

parse_witnesses-IsPrefix : (segwit : Bool) (nin : ℕ) → IsPrefix (parse_witnesses segwit nin)
unfolding parse_witnesses
parse_witnesses-IsPrefix true nin = repeat-IsPrefix nin parse_stack parse_stack-IsPrefix
parse_witnesses-IsPrefix false nin = return-IsPrefix []

parse_rest-IsPrefix :
    (ver : Bytes) (segwit : Bool) (nin : ℕ) (inputs : List (Input × Bytes)) (nout : ℕ)
    → IsPrefix (parse_rest ver segwit nin inputs nout)
unfolding parse_rest
parse_rest-IsPrefix ver segwit nin inputs nout =
    then_read-IsPrefix (repeat nout (spanned parse_output)) _
      (repeat-IsPrefix nout (spanned parse_output)
        (spanned-IsPrefix parse_output parse_output-IsPrefix))
      λ outs.
        then_read-IsPrefix (parse_witnesses segwit nin) _ (parse_witnesses-IsPrefix segwit nin)
          λ witnesses. then_read-IsPrefix (read 4) _ (read-IsPrefix 4) λ lock. return-IsPrefix _

parse_inputs-IsPrefix : (nin : ℕ) → IsPrefix (repeat nin (spanned parse_input))
parse_inputs-IsPrefix nin =
    repeat-IsPrefix nin (spanned parse_input) (spanned-IsPrefix parse_input parse_input-IsPrefix)

parse_fields-IsPrefix : (ver : Bytes) (segwit : Bool) → IsPrefix (parse_fields ver segwit)
unfolding parse_fields
parse_fields-IsPrefix ver segwit = then_read-IsPrefix rv _ rv-IsPrefix λ nin.
    then_read-IsPrefix (repeat nin (spanned parse_input)) _ (parse_inputs-IsPrefix nin) λ inputs.
      then_read-IsPrefix rv _ rv-IsPrefix λ nout. parse_rest-IsPrefix ver segwit nin inputs nout

-- The fields take two bytes at least: the two counts.
parse_fields-Takes : (ver : Bytes) (segwit : Bool) → Takes 2 (parse_fields ver segwit)
unfolding parse_fields
parse_fields-Takes ver segwit = then_read-Takes 1 1 rv _ rv-Takes λ nin.
    then_read-Takes 0 1 (repeat nin (spanned parse_input)) _
      (IsPrefix-Takes (repeat nin (spanned parse_input)) (parse_inputs-IsPrefix nin))
      λ inputs. then_read-Takes 1 0 rv _ rv-Takes λ nout.
        IsPrefix-Takes (parse_rest ver segwit nin inputs nout)
          (parse_rest-IsPrefix ver segwit nin inputs nout)

marked-step :
    (ver b : Bytes)
    → has_marker b ≡ true
    → then_read parse_marker (parse_fields ver) b ≡ parse_fields ver true (drop 2 b)
unfolding parse_marker
marked-step ver b e = rw e

pub unmarked-step :
    (ver b : Bytes)
    → has_marker b ≡ false
    → then_read parse_marker (parse_fields ver) b ≡ parse_fields ver false b
unfolding parse_marker
unmarked-step ver b e = rw e

-- Two bytes decide on the marker.
has_marker-append :
    (used rest more : Bytes)
    → 2 ≤ length used
    → has_marker (used ++ more) ≡ has_marker (used ++ rest)
has_marker-append [] rest more h = absurd (omega arith)
has_marker-append (x ∷ []) rest more h = absurd (omega arith)
has_marker-append (x ∷ y ∷ used) rest more h = refl

marked :
    (ver b : Bytes) (t : Transaction) (rest : Bytes)
    → has_marker b ≡ true
    → parse_fields ver true (drop 2 b) ≡ ok (t, rest)
    → (used : Bytes) × (b ≡ used ++ rest)
      × ((more : Bytes) → then_read parse_marker (parse_fields ver) (used ++ more) ≡ ok (t, more))
marked ver [] t rest e h = cc
marked ver (x ∷ []) t rest e h = cc
marked ver (x ∷ y ∷ b) t rest e h =
    let (used, split, again) = parse_fields-IsPrefix ver true b t rest h in
    (
      x ∷ y ∷ used,
      ap (λ t. x ∷ y ∷ t) split,
      λ more. marked-step ver (x ∷ y ∷ (used ++ more)) e ∙ again more,
    )

parse_marked-IsPrefix : (ver : Bytes) → IsPrefix (then_read parse_marker (parse_fields ver))
parse_marked-IsPrefix ver b t rest h = elim (Bool-cases (has_marker b)) [
  | inl e ↦ marked ver b t rest e (sym (marked-step ver b e) ∙ h)
  | inr e ↦
      let h' = sym (unmarked-step ver b e) ∙ h in
      let (used, split, again) = parse_fields-IsPrefix ver false b t rest h' in
      let size : 2 ≤ length used = omega (
        arith,
        parse_fields-Takes ver false b t rest h',
        ap length split,
        length-append used rest,
      ) in
      (
        used,
        split,
        λ more.
            unmarked-step ver (used ++ more)
              (has_marker-append used rest more size ∙ ap has_marker (sym split) ∙ e)
            ∙ again more,
      )
]

pub parse_body-IsPrefix : IsPrefix parse_body
unfolding parse_body
parse_body-IsPrefix =
    then_read-IsPrefix (read 4) (λ ver. then_read parse_marker (parse_fields ver)) (read-IsPrefix 4)
      parse_marked-IsPrefix
