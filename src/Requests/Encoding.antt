-- ===== src/Requests/Encoding.antt =====
-- tools/request_encodings.py: integer, lp, value and encode. A value that is of no type that the field
-- can have is refused; it may be a TypeError here where Python raises a ValueError or an AttributeError.
use core_drp.Prelude.{
  ℕ, ◌^◌, true, false, ◌&&◌, if◌then◌else◌, ltb, ◌==◌, List, [], ◌∷◌, ◌++◌, length, map, all, Bytes,
  bytes_eq, codes, be,
}
use core_drp.Prelude.Int.{ℤ, pos, negsuc, ltb_ℤ, eq_ℤ}
use core_drp.Result.{Result, ok, raise, value_error, type_error, ◌>>=◌, ◌>>◌}
use core_drp.Policy.{demand}
use core_drp.Wire.{be_signed, fits_int64}
use core_drp.Finance.Sorting.{lex, bytes_lt, sort_by, distinct_by}
use core_drp.Finance.Effects.{hex_value}
use core_drp.Finance.Settlement.{same_set}
use core_drp.Profile.{is_finite, is_positive}
use core_drp.Requests.{uuid16}
use core_drp.Requests.Schema.{
  Scalar, u8, u16, u32, u64, i64, bool, f64, hash32, bytes, utf8, ascii, Kind, Fields, optional,
  array, nested, scalar, end, field, Value, Values, Entries, absent, int, truth, double, text, list,
  dict, nil, cons, stop, entry, names, keys, get,
}

-- integer(v,fmt), of w bytes with no sign; a bool is no int
unfoldable pub integer : ℕ → Value → Result Bytes
integer w (int (pos n)) = if ltb n (256 ^ w) then ok (be w n) else raise value_error
integer w (int (negsuc n)) = raise value_error
integer w x = raise value_error

-- integer(v,'q')
unfoldable pub signed : Value → Result Bytes
unfolding be_signed
signed (int n) = if fits_int64 n then ok (be_signed n) else raise value_error
signed x = raise value_error

-- lp
unfoldable pub lp : Bytes → Result Bytes
lp b = if ltb (length b) (2 ^ 32) then ok (be 4 (length b) ++ b) else raise value_error

-- A text's bytes.
unfoldable pub text_of : Value → Result Bytes
text_of (text t) = ok t
text_of x = raise type_error

unfoldable pub flag : Value → Result Bytes
flag (truth true) = ok (1 ∷ [])
flag (truth false) = ok (0 ∷ [])
flag x = raise value_error

-- struct.pack('>d',x), where x is positive and finite
unfoldable pub difficulty : Value → Result Bytes
difficulty (double n) =
    if ltb n (2 ^ 64) && is_finite n && is_positive n then ok (be 8 n) else raise value_error
difficulty x = raise value_error

unfoldable pub hash_of : Bytes → Result Bytes
hash_of x = hex_value x >>= λ b. if length b == 32 then ok b else raise value_error

-- x.encode('ascii')
unfoldable pub ascii_of : Bytes → Result Bytes
ascii_of t = if all (λ c. ltb c 128) t then ok t else raise value_error

-- value, of a type that is no array, no schema and not optional
unfoldable pub scalar_value : Scalar → Value → Result Bytes
unfolding integer signed flag difficulty text_of uuid16 hash_of ascii_of lp
scalar_value u8 x = integer 1 x
scalar_value u16 x = integer 2 x
scalar_value u32 x = integer 4 x
scalar_value u64 x = integer 8 x
scalar_value i64 x = signed x
scalar_value bool x = flag x
scalar_value f64 x = difficulty x
scalar_value Scalar.uuid16 x = text_of x >>= uuid16
scalar_value hash32 x = text_of x >>= hash_of
scalar_value bytes x = text_of x >>= λ t. hex_value t >>= lp
scalar_value utf8 x = text_of x >>= lp
scalar_value ascii x = text_of x >>= λ t. ascii_of t >>= lp

-- What is no list; an empty text and an empty dict have no elements either.
unfoldable pub items_of : Value → Result Values
items_of (list xs) = ok xs
items_of (text []) = ok nil
items_of (text (c ∷ cs)) = raise value_error
items_of (dict stop) = ok nil
items_of (dict (entry n x es)) = raise value_error
items_of x = raise type_error

unfoldable pub each : (Value → Result Bytes) → Values → Result (List Bytes)
each f nil = ok []
each f (cons x xs) = do b ← f x; bs ← each f xs; ok (b ∷ bs)

-- r['output_index'], of a record that is encoded
abbrev pub index_of : Value → ℤ
index_of (dict es) = elim (get (codes "output_index") es) [ int n ↦ n | _ ↦ pos 0 ]
index_of x = pos 0

abbrev pub indices : Values → List ℤ
indices nil = []
indices (cons x xs) = index_of x ∷ indices xs

abbrev pub zip {ℓ κ} : {A : Type ℓ} {B : Type κ} → List A → List B → List (A × B)
zip [] bs = []
zip (a ∷ as') [] = []
zip (a ∷ as') (b ∷ bs) = (a, b) ∷ zip as' bs

-- The records of an array in their order: that of the indices for commitments, else that of the bytes.
unfoldable pub sorted_records : Bytes → Values → List Bytes → Result (List Bytes)
sorted_records child xs records =
    if bytes_eq child (codes "CommitmentRequestV1")
    then (demand (distinct_by eq_ℤ (indices xs))
        >> ok (map (λ p. p.1) (sort_by (lex ltb_ℤ eq_ℤ bytes_lt) (zip (indices xs) records))))
    else ok (sort_by bytes_lt records)

-- b''.join(lp(b) for b in records)
unfoldable pub framed : List Bytes → Result Bytes
unfolding lp
framed [] = ok []
framed (r ∷ records) = do b ← lp r; bs ← framed records; ok (b ++ bs)

-- u32(len(records)) with the records
unfoldable pub counted : List Bytes → Result Bytes
unfolding framed
counted records =
    if ltb (length records) (2 ^ 32)
    then (framed records >>= λ b. ok (be 4 (length records) ++ b))
    else raise value_error

-- The records of an array, from the encoding of one of them.
unfoldable pub records_of : Bytes → (Value → Result Bytes) → Value → Result (List Bytes)
unfolding items_of each sorted_records
records_of child f x = do xs ← items_of x; records ← each f xs; sorted_records child xs records

-- encode, from the encoding of the fields
unfoldable pub request_of : List Bytes → (Entries → Result Bytes) → Value → Result Bytes
request_of expected body (dict es) = do
  demand (same_set (keys es) expected)
  b ← body es
  ok (be 2 1 ++ b)
request_of expected body x = raise type_error

-- b'\0', or b'\1' with the value
unfoldable pub given : (Value → Result Bytes) → Value → Result Bytes
given f absent = ok (0 ∷ [])
given f x = f x >>= λ b. ok (1 ∷ b)

-- value, and the fields of encode
unfoldable mutual
  unfolding scalar_value records_of counted request_of given lp

  pub value : Kind → Value → Result Bytes
  value (optional k) x = given (value k) x
  value (array child fs) x =
      records_of child (request_of (names fs) (encode_fields fs)) x >>= counted
  value (nested fs) x = request_of (names fs) (encode_fields fs) x >>= lp
  value (scalar s) x = scalar_value s x

  pub encode_fields : Fields → Entries → Result Bytes
  encode_fields end es = ok []
  encode_fields (field n k fs) es = do
    b ← value k (get n es)
    bs ← encode_fields fs es
    ok (b ++ bs)

-- encode
unfoldable pub encode : Fields → Value → Result Bytes
unfolding value
encode fs x = request_of (names fs) (encode_fields fs) x
