-- ===== src/Wire/Chain.antt =====
-- The hash chain of reference/coredrp_ref/wire.py over the events of a log, and what a terminal hash
-- says of equally long logs that start from previous hashes of one length.
use core_drp.Prelude.{
  ◌≡◌, refl, sym, ◌∙◌, ◌⊎◌, inl, inr, List, [], ◌∷◌, arith, length, Bytes, ◌++◌, IsBytes,
}
use core_drp.Result.{Result, ok, ok-inj, ◌>>=◌, >>=-eq-ok, bind-ok}
use core_drp.Sha256.{length-sha256, sha256-IsBytes}
use core_drp.Wire.{validate, chain_preimage, chain}
use core_drp.Wire.Messages.{Event, Codec}
use core_drp.Wire.Link.{OfBytes, LinkCollision, chain-inj}

abbrev pub AllOfBytes : List Event → Type 0
AllOfBytes [] = Unit
AllOfBytes (e ∷ es) = OfBytes e × AllOfBytes es

module _ ⦃c : Codec⦄ where
  -- The hash after the events of a log, one link for each; the last event is the outermost link.
  unfoldable pub chain_log : Bytes → Bytes → Bytes → List Event → Result Bytes
  chain_log previous sender epoch [] = ok previous
  chain_log previous sender epoch (e ∷ es) = do
    digest ← chain previous sender epoch e
    chain_log digest sender epoch es

  pub length-chain :
      (previous sender epoch : Bytes) (e : Event) {digest : Bytes}
      → chain previous sender epoch e ≡ ok digest
      → length digest ≡ 32
  unfolding chain
  length-chain previous sender epoch e h =
      let (_, _, hash) = >>=-eq-ok (validate e) _ h in
      rw (← ok-inj hash) (length-sha256 (chain_preimage previous sender epoch e))

  chain-IsBytes :
      (previous sender epoch : Bytes) (e : Event) {digest : Bytes}
      → chain previous sender epoch e ≡ ok digest
      → IsBytes digest
  unfolding chain
  chain-IsBytes previous sender epoch e h =
      let (_, _, hash) = >>=-eq-ok (validate e) _ h in
      rw (← ok-inj hash) (sha256-IsBytes (chain_preimage previous sender epoch e))

  -- The collision that two logs exhibit, at events that stand at one place of both and behind the
  -- hashes that the logs have there.
  pub data LogCollision (sender epoch : Bytes)
      : Bytes → Bytes → List Event → List Event → Type 0 where
    here :
        {p q : Bytes} {e f : Event} {es fs : List Event} (link : LinkCollision sender epoch p q e f)
        → LogCollision sender epoch p q (e ∷ es) (f ∷ fs)
    later :
        {p q next next' : Bytes} {e f : Event} {es fs : List Event}
        (first : chain p sender epoch e ≡ ok next) (second : chain q sender epoch f ≡ ok next')
        (rest : LogCollision sender epoch next next' es fs)
        → LogCollision sender epoch p q (e ∷ es) (f ∷ fs)

  -- If two sequences of equally many events, chained for one sender and epoch from previous hashes of
  -- one length, with bytes for all of these and for the payloads and relay identities, end in one hash, then the previous hashes and the events are the
  -- same; or, at some place of both, the two byte strings that were hashed for the links, or those
  -- that were hashed for the payloads, are different and have one SHA-256 digest.
  pub chain_log-inj :
      (sender epoch p q : Bytes) (es fs : List Event) {digest : Bytes}
      → IsBytes sender
      → IsBytes epoch
      → IsBytes p
      → IsBytes q
      → AllOfBytes es
      → AllOfBytes fs
      → length p ≡ length q
      → length es ≡ length fs
      → chain_log p sender epoch es ≡ ok digest
      → chain_log q sender epoch fs ≡ ok digest
      → ((p ≡ q) × (es ≡ fs)) ⊎ LogCollision sender epoch p q es fs
  unfolding chain_log
  chain_log-inj sender epoch p q [] [] bs bo bp bq oe of hp hl he hf = inl (cc (he, hf), refl)
  chain_log-inj sender epoch p q [] (f ∷ fs) bs bo bp bq oe of hp hl he hf = absurd (omega arith)
  chain_log-inj sender epoch p q (e ∷ es) [] bs bo bp bq oe of hp hl he hf = absurd (omega arith)
  chain_log-inj sender epoch p q (e ∷ es) (f ∷ fs) bs bo bp bq oe of hp hl he hf =
      let (de, link_e, rest_e) = >>=-eq-ok (chain p sender epoch e) _ he in
      let (df, link_f, rest_f) = >>=-eq-ok (chain q sender epoch f) _ hf in
      elim (chain_log-inj sender epoch de df es fs bs bo (chain-IsBytes p sender epoch e link_e)
        (chain-IsBytes q sender epoch f link_f) oe.1 of.1
        (length-chain p sender epoch e link_e ∙ sym (length-chain q sender epoch f link_f))
        (omega arith) rest_e rest_f) [
          | inr found ↦ inr (later link_e link_f found)
          | inl (same, tails) ↦
              elim (chain-inj sender epoch p q e f (bs, bo, bp, bq) oe.0 of.0 hp link_e
                (rw same link_f)) [
                  | inr found ↦ inr (here found)
                  | inl (heads, event) ↦ inl (heads, cc (event, tails))
                ]
        ]

  -- One event more is one link more.
  pub chain_log-append :
      (previous sender epoch : Bytes) (es : List Event) (e : Event) {digest : Bytes}
      → chain_log previous sender epoch es ≡ ok digest
      → chain_log previous sender epoch (es ++ e ∷ []) ≡ chain digest sender epoch e
  unfolding chain_log
  chain_log-append previous sender epoch [] e h = rw (ok-inj h) (bind-ok _)
  chain_log-append previous sender epoch (x ∷ es) e h =
      let (next, link, rest) = >>=-eq-ok (chain previous sender epoch x) _ h in
      rw link (chain_log-append next sender epoch es e rest)
