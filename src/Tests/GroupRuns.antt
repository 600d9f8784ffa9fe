-- ===== src/Tests/GroupRuns.antt =====
-- The theorems on groups of effects and on admissions at a concrete group and request.
use mathlib.Core.List.{Permᴰ}
use core_drp.Requests.Arranged.{value-Permᴰ}
use core_drp.Requests.Encoding.{value}
use core_drp.Requests.Registry.{commitment_request}
use core_drp.Requests.Admin.Accepted.{IsBody, validate_admin_body-IsBody}
use core_drp.Prelude.{
  ◌↔◌, Bytes, IsBytes, arith, ℕ, ◌⊎◌, ◌≡◌, refl, List, [], ◌∷◌, ◌++◌, be, replicate, codes, hex,
  from_hex, false, true,
}
use core_drp.Result.{Result, ok, raise}
use core_drp.Requests.{uuid16, replay_no_effect, commit_effects, GroupLedger, accept_group}
use core_drp.Requests.Schema.{
  Values, nil, cons, list, array, Value, Entries, absent, int, truth, double, text, dict, stop,
  entry,
}
use core_drp.Requests.Digest.{SameGroup, Colliding, group_hashed, group_hashed-SameGroup}
use core_drp.Audit.{entries}
use core_drp.Sha256.{sha256}
use core_drp.Requests.Admin.{AdminField, admin_body, validate_admin_body, is_utf8}
use core_drp.Requests.Admin.Validated.{validate_admin_body-admin_body}
use core_drp.Prelude.Int.{pos, negsuc}
use core_drp.Requests.Groups.{accept_all, accept_group_once}

abbrev committed : GroupLedger
committed = (replicate 16 9, (codes "settlement", replicate 32 8)) ∷ []

first_group :
    accept_group [] (hex (replicate 16 9)) (codes "settlement") (replicate 32 8)
    ≡ (ok commit_effects, committed)
unfolding accept_group uuid16 from_hex
first_group = refl

-- Another group, and another digest for the first one, which is refused.
abbrev between : List (Bytes × Bytes × Bytes)
between =
    (hex (replicate 16 7), codes "settlement", replicate 32 5)
    ∷ (hex (replicate 16 9), codes "settlement", replicate 32 6)
    ∷ []

accept_group_once_example :
    accept_group
      (accept_all between committed)
      (hex (replicate 16 9))
      (codes "settlement")
      (replicate 32 8)
    ≡ (ok replay_no_effect, accept_all between committed)
accept_group_once_example =
    accept_group_once [] committed (hex (replicate 16 9)) (codes "settlement") (replicate 32 8)
      between first_group

-- The request of an update of a candidate's state.
abbrev update_fields : Entries
update_fields = entry (codes "candidate_id") (text (hex (replicate 16 7))) (
    entry (codes "state") (int (pos 2)) (
      entry (codes "submission_attempts") (int (pos 1)) (
        entry (codes "definitive_misses") (int (pos 0))
          (entry (codes "last_attempt_unix_ms") absent stop))))

abbrev update_bytes : Bytes
update_bytes = be 2 1 ++ (replicate 16 7 ++ (2 ∷ 0 ∷ 0 ∷ 0 ∷ 1 ∷ 0 ∷ 0 ∷ 0 ∷ 0 ∷ 0 ∷ []))

abbrev lane : ℕ
lane = 1

abbrev update_type : ℕ
update_type = 514

abbrev approval : List AdminField
approval =
    (1, text (hex (replicate 16 1)))
    ∷ (2, int (pos 3))
    ∷ (3, text (hex (replicate 16 2)))
    ∷ (4, int (pos 0))
    ∷ (5, text (hex (replicate 16 3)))
    ∷ (6, text (hex (replicate 32 4)))
    ∷ (7, int (pos 1000))
    ∷ (8, int (negsuc 0))
    ∷ (9, text (codes "reason"))
    ∷ []

abbrev of_bytes : Result Bytes → Bytes
of_bytes (ok b) = b
of_bytes (raise x) = []

approval_built : admin_body 5 approval ≡ ok (of_bytes (admin_body 5 approval))
unfolding admin_body from_hex be
approval_built = refl

validate_admin_body-admin_body_example :
    validate_admin_body 5 (of_bytes (admin_body 5 approval)) ≡ ok (of_bytes (admin_body 5 approval))
validate_admin_body-admin_body_example =
    validate_admin_body-admin_body 5 approval (of_bytes (admin_body 5 approval))
      (unfold is_utf8 in refl) approval_built

abbrev one_bits : ℕ
one_bits = 4607182418800017408

abbrev share_fields : Entries
share_fields = entries (
    (codes "block_height", int (pos 800000))
    ∷ (codes "miner", text (codes "m"))
    ∷ (codes "worker", text [])
    ∷ (codes "user_agent", text [])
    ∷ (codes "difficulty", double one_bits)
    ∷ (codes "achieved_share_difficulty", double one_bits)
    ∷ (codes "actual_difficulty", double one_bits)
    ∷ (codes "network_difficulty", double one_bits)
    ∷ (codes "source_ip", text [])
    ∷ (codes "source", text [])
    ∷ (codes "session_id", text [])
    ∷ (codes "is_block_candidate", truth false)
    ∷ (codes "candidate_hash_hex", absent)
    ∷ (codes "candidate_kind", absent)
    ∷ (codes "transaction_confirmation_data", absent)
    ∷ (codes "block_reward", absent)
    ∷ [])

abbrev projection_fields : Entries
projection_fields = entries (
    (codes "scope", text (codes "6262"))
    ∷ (codes "share", dict share_fields)
    ∷ (codes "accounting_id", text (hex (replicate 16 9)))
    ∷ (codes "accounting_role", int (pos 1))
    ∷ (codes "reward_basis_satoshis", int (pos 1000))
    ∷ (codes "pps_calculated_amount", absent)
    ∷ (codes "block_only", truth false)
    ∷ (codes "block_record_emitted", truth false)
    ∷ (codes "statistical_record_emitted", truth false)
    ∷ (codes "preserve_created", truth true)
    ∷ [])

abbrev group_request : Value
group_request =
    dict (entries ((codes "primary", dict projection_fields) ∷ (codes "paired", absent) ∷ []))

abbrev hashed_bytes : Bytes
hashed_bytes =
    of_bytes (group_hashed (hex (replicate 16 9)) group_request (pos 1000) (codes "payload"))

group_bytes :
    group_hashed (hex (replicate 16 9)) group_request (pos 1000) (codes "payload") ≡ ok hashed_bytes
unfolding group_hashed from_hex be sha256
group_bytes = refl

payload-IsBytes : IsBytes (codes "payload")
payload-IsBytes = ground arith

group_hashed-SameGroup_example :
    SameGroup
      (hex (replicate 16 9))
      (hex (replicate 16 9))
      group_request
      group_request
      (pos 1000)
      (pos 1000)
    × ((codes "payload" ≡ codes "payload") ⊎ Colliding (codes "payload") (codes "payload"))
group_hashed-SameGroup_example =
    group_hashed-SameGroup (hex (replicate 16 9)) (hex (replicate 16 9)) group_request group_request
      (pos 1000) (pos 1000) (codes "payload") (codes "payload") hashed_bytes payload-IsBytes
      payload-IsBytes group_bytes group_bytes

-- Two commitments in both orders.
abbrev commitment : ℕ → Value
commitment n = dict (
    entries
      ((codes "output_index", int (pos n)) ∷ (codes "script_pub_key", text (codes "51")) ∷ []))

abbrev commitments : Values
commitments = cons (commitment 0) (cons (commitment 1) nil)

abbrev exchanged : Values
exchanged = cons (commitment 1) (cons (commitment 0) nil)

abbrev commitments_bytes : Bytes
commitments_bytes =
    of_bytes (value (array (codes "CommitmentRequestV1") commitment_request) (list commitments))

commitments_encoded :
    value (array (codes "CommitmentRequestV1") commitment_request) (list commitments)
    ≡ ok commitments_bytes
unfolding value from_hex be
commitments_encoded = refl

value-Permᴰ_example :
    value (array (codes "CommitmentRequestV1") commitment_request) (list exchanged)
    ≡ ok commitments_bytes
value-Permᴰ_example =
    value-Permᴰ (codes "CommitmentRequestV1") commitment_request commitments exchanged
      commitments_bytes (Permᴰ.swap refl refl) commitments_encoded

validate_admin_body-IsBody_example :
    (validate_admin_body 5 (of_bytes (admin_body 5 approval))
      ≡ ok (of_bytes (admin_body 5 approval)))
    ↔ ((of_bytes (admin_body 5 approval) ≡ of_bytes (admin_body 5 approval))
        × IsBody 5 (of_bytes (admin_body 5 approval)))
validate_admin_body-IsBody_example =
    validate_admin_body-IsBody 5 (of_bytes (admin_body 5 approval))
      (of_bytes (admin_body 5 approval))
