-- ===== src/Requests/Admission.antt =====
-- The preimage of an admission (admission of tools/request_encodings.py).
use core_drp.Prelude.{
  ℕ, ◌^◌, ◌<◌, Bool, ◌&&◌, ltb, ◌==◌, List, [], ◌∷◌, ◌++◌, length, join, Bytes, codes, be,
}
use core_drp.Result.{Result, ok, ◌>>=◌, ◌>>◌}
use core_drp.Requests.Schema.{Fields, Value}
use core_drp.Requests.Registry.{
  accounting_share_request, direct_coinbase_candidate_request, candidate_state_update_request,
}
use core_drp.Requests.Encoding.{ascii_of, encode}
use core_drp.Policy.{demand}

-- The schemas of the three requests.
pub data RequestKind : Type 0 where
  accounting_share direct_coinbase_candidate candidate_state_update : RequestKind

abbrev pub placed : ℕ → ℕ → RequestKind → Bool
placed event_type lane accounting_share = (event_type == 512) && (lane == 0)
placed event_type lane direct_coinbase_candidate = (event_type == 513) && (lane == 1)
placed event_type lane candidate_state_update = (event_type == 514) && (lane == 1)

abbrev pub schema_of : RequestKind → Fields
schema_of accounting_share = accounting_share_request
schema_of direct_coinbase_candidate = direct_coinbase_candidate_request
schema_of candidate_state_update = candidate_state_update_request

-- The fields whose size does not depend on the scope and the request, and the rest.
abbrev pub admission_head : ℕ → ℕ → Bytes → List Bytes
admission_head lane event_type scope =
    codes "CoreDRP1-ADMISSION" ∷ be 1 lane ∷ be 2 event_type ∷ be 2 (length scope) ∷ []

abbrev pub admission_bytes : ℕ → ℕ → Bytes → Bytes → Bytes
admission_bytes lane event_type scope request =
    join (admission_head lane event_type scope) ++ (scope ++ (be 4 (length request) ++ request))

-- The bytes of an admission, of an encoded request.
unfoldable pub admission_with : ℕ → ℕ → Bytes → RequestKind → Bytes → Result Bytes
admission_with lane event_type scope kind request = do
  demand (placed event_type lane kind)
  demand (ltb (length scope) (2 ^ 16))
  demand (ltb (length request) (2 ^ 32))
  ok (admission_bytes lane event_type scope request)

-- admission
unfoldable pub admission : ℕ → ℕ → Bytes → RequestKind → Value → Result Bytes
unfolding ascii_of encode admission_with
admission lane event_type scope kind x = do
  demand (placed event_type lane kind)
  q ← ascii_of scope
  request ← encode (schema_of kind) x
  admission_with lane event_type q kind request

-- The numbers of an admission fit their fields.
pub record FitsAdmission (lane event_type : ℕ) (scope request : Bytes) : Type 0 where
  pub lane_fits : lane < 256
  pub event_type_fits : event_type < 2 ^ 16
  pub scope_fits : length scope < 2 ^ 16
  pub request_fits : length request < 2 ^ 32
