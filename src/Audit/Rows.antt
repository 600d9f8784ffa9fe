-- ===== src/Audit/Rows.antt =====
-- The events of a bundle as rows (audit of tools/audit_evidence.py): what they count in, and the shares
-- that are selected of them.
use core_drp.Prelude.{
  ℕ, ◌==◌, Bool, false, not, ◌&&◌, if◌then◌else◌, Option, none, some, List, [], ◌∷◌, ◌++◌, map, any,
  Bytes, bytes_eq, hex,
}
use core_drp.Prelude.Int.{pos, eq_ℤ}
use core_drp.Result.{Result, ok, ◌>>=◌, ◌>>◌}
use core_drp.Policy.{demand, member}
use core_drp.Finance.{frac, mul, decimal}
use core_drp.Finance.Binary64.{Bits, binary64, round_binary64}
use core_drp.Finance.Window.{Row, Key, key_eq, Share, score_of, select_window}
use core_drp.Finance.Effects.{hex_value}
use core_drp.Profile
use core_drp.Profile.{Projection, Accounting, bytes_or_empty, bits_of}
use core_drp.Audit.{AuditEvent, Inputs, event_hash}

-- rows, miners, finder_matches and seen
pub record Gathered : Type 0 where
  pub rows : List Row
  pub miners : List (Bytes × Bytes)
  pub finder_matches : List Bytes
  pub seen : List Key

-- The default of a message field that is not there.
abbrev pub no_share : Profile.Share
no_share = record {
  block_height = 0;
  miner = [];
  worker = [];
  user_agent = [];
  source_ip = [];
  source = [];
  session_id = [];
  created_unix_ms = pos 0;
  difficulty = 0;
  achieved_share_difficulty = 0;
  actual_difficulty = 0;
  network_difficulty = 0;
  is_block_candidate = false;
  candidate_hash = none;
  has_candidate_kind = false;
  has_transaction_confirmation_data = false;
  has_block_reward = false;
}

abbrev pub share_of : Option Profile.Share → Profile.Share
share_of none = no_share
share_of (some s) = s

-- [m.primary]+([m.paired] if m.HasField('paired') else []); a primary that is not there has the scope
-- and the time of an empty message
abbrev pub projections : Accounting → List (Bytes × Bytes × Profile.Share)
projections m =
    (elim m.primary [
      | none ↦ ([], [], no_share)
      | some p ↦ (p.scope, bytes_or_empty p.accounting_id, share_of p.share)
    ])
    ∷ (elim m.paired [
      | none ↦ []
      | some p ↦ (p.scope, bytes_or_empty p.accounting_id, share_of p.share) ∷ []
    ])

-- What an audit is run with.
pub record Terms : Type 0 where
  pub scope : Bytes
  pub scheme : ℕ
  pub factor : Bytes
  pub adjustment : Bytes
  pub finder_percentage : Bytes

abbrev pub is_finder : Inputs → Profile.Share → Bool
is_finder inputs s =
    s.is_block_candidate
    && bytes_eq (hex (bytes_or_empty s.candidate_hash)) inputs.block_hash
    && eq_ℤ (pos s.block_height) inputs.block_height

-- The event of a row, with the bytes of its sender and relay.
abbrev pub row_of : AuditEvent → Bytes → Bytes → Bytes → Bits → Profile.Share → Row
row_of e sender relay identity adjusted s = record {
  time = e.event_time;
  sender = sender;
  sequence = e.sequence;
  relay = relay;
  accounting_id = identity;
  difficulty = adjusted;
  network = bits_of s.network_difficulty;
}

-- The lines of the loop over the projections behind the test of the scope.
unfoldable pub counted_in :
    Terms → Inputs → AuditEvent → Bytes → Bytes → Bytes → Profile.Share → Gathered → Result Gathered
unfolding binary64 round_binary64 decimal
counted_in terms inputs e sender relay identity s g = do
  demand (not (member identity (map (λ m. m.0) g.miners)))
  assigned ← binary64 (bits_of s.difficulty)
  adjustment ← decimal terms.adjustment
  adjusted ← round_binary64 (mul assigned adjustment)
  ok (record g {
    rows = g.rows ++ row_of e sender relay identity adjusted s ∷ [];
    miners = g.miners ++ (identity, s.miner) ∷ [];
    finder_matches =
        if is_finder inputs s then g.finder_matches ++ identity ∷ [] else g.finder_matches;
  })

-- for p in projections
unfoldable pub each_projection :
    Terms
    → Inputs
    → AuditEvent
    → Bytes
    → Bytes
    → List (Bytes × Bytes × Profile.Share)
    → Gathered
    → Result Gathered
unfolding counted_in
each_projection terms inputs e sender relay [] g = ok g
each_projection terms inputs e sender relay ((scope, id, s) ∷ ps) g = do
  demand (eq_ℤ s.created_unix_ms e.event_time)
  g' ←
      if not (bytes_eq scope terms.scope)
      then ok g
      else counted_in terms inputs e sender relay (hex id) s g
  each_projection terms inputs e sender relay ps g'

-- for e in bundle['events']
unfoldable pub each_event :
    (Bytes → Result Accounting) → Terms → Inputs → List AuditEvent → Gathered → Result Gathered
unfolding event_hash each_projection
each_event parse terms inputs [] g = ok g
each_event parse terms inputs (e ∷ es) g = do
  demand (eq_ℤ e.event_type (pos 512) && eq_ℤ e.lane (pos 0))
  chained ← event_hash e
  demand (bytes_eq chained e.chain_hash)
  sender ← hex_value e.sender
  relay ← hex_value e.relay
  let key : Key = (e.event_time, (sender, (e.sequence, relay)))
  demand (not (any (key_eq key) g.seen))
  payload ← hex_value e.payload
  m ← parse payload
  g' ←
      each_projection terms inputs e sender relay (projections m)
        (record g { seen = g.seen ++ key ∷ [] })
  each_event parse terms inputs es g'

-- The whole score of each row, for scheme 3.
unfoldable pub whole_scores : List Row → Result (List Share)
unfolding score_of
whole_scores [] = ok []
whole_scores (r ∷ rows) = do
  score ← score_of r
  rest ← whole_scores rows
  ok ((r.accounting_id, score, frac 1 1) ∷ rest)

-- selected
unfoldable pub selection : Terms → Gathered → Result (List Share)
unfolding whole_scores select_window
selection terms g =
    if terms.scheme == 3 then whole_scores g.rows else select_window g.rows terms.factor 2
