-- ===== src/Profile/Bitcoin.antt =====
-- tools/verify_profile_vectors.py, lines 90 to 139: the serialization of Bitcoin transactions. Where
-- the source keeps a position in a buffer, a function here keeps the bytes that are left.
pub mod Varint
pub mod Prefixes
pub mod Fields
pub mod Transactions
pub mod Merkle
use core_drp.Prelude.{
  ℕ, zero, suc, ◌+◌, ◌-◌, ◌*◌, ◌/◌, ◌%◌, ◌^◌, Bool, true, false, not, ◌&&◌, ◌||◌, if◌then◌else◌,
  ltb, leb, ◌==◌, Option, none, some, List, [], ◌∷◌, ◌++◌, length, take, drop, replicate, map,
  Bytes, bytes_eq, join,
}
use core_drp.Prelude.Int.{ℤ, pos, sub_ℕ}
use core_drp.Result.{Result, ok, raise, value_error, ◌>>=◌, ◌>>◌}
use core_drp.Sha256.{sha256}

abbrev pub Reader {ℓ} : Type ℓ → Type ℓ
Reader A = Bytes → Result (A × Bytes)

-- The rounds of rv. The bits read so far stand below the shift, so that or-ing adds.
unfoldable pub rv_loop : ℕ → ℕ → Reader ℕ
rv_loop shift n [] = raise value_error
rv_loop shift n (x ∷ b) =
    let n' = n + x % 128 * 2 ^ shift in
    let more = rv_loop (shift + 7) n' b in
    if ltb 63 shift then raise value_error else if ltb x 128 then ok (n', b) else more

-- rv
unfoldable pub rv : Reader ℕ
unfolding rv_loop
rv b = rv_loop 0 0 b

-- The rounds of ev; n + 1 are always enough.
unfoldable pub ev_loop : ℕ → ℕ → Bytes
ev_loop zero n = []
ev_loop (suc fuel) n =
    let more = (n % 128 + 128) ∷ ev_loop fuel (n / 128) in
    if n / 128 == 0 then (n % 128) ∷ [] else more

-- ev
unfoldable pub ev : ℕ → Bytes
unfolding ev_loop
ev n = ev_loop (suc n) n

-- h2
abbrev pub h2 : Bytes → Bytes
h2 b = sha256 (sha256 b)

-- b[pos:pos+n], where the buffer reaches that far
unfoldable pub read : ℕ → Reader Bytes
read n b = if ltb (length b) n then raise value_error else ok (take n b, drop n b)

-- int.from_bytes(b,'little')
abbrev pub from_le : Bytes → ℕ
from_le [] = 0
from_le (x ∷ xs) = x + 256 * from_le xs

-- One value after another.
abbrev pub then_read {ℓ κ} : {A : Type ℓ} {B : Type κ} → Reader A → (A → Reader B) → Reader B
then_read first rest b = first b >>= λ p. rest p.0 p.1

abbrev pub return {ℓ} : {A : Type ℓ} → A → Reader A
return a b = ok (a, b)

-- What a reader has read, with its value: b[p0:pos]
abbrev pub spanned {ℓ} : {A : Type ℓ} → Reader A → Reader (A × Bytes)
spanned reader b = reader b >>= λ p. ok ((p.0, take (length b - length p.1) b), p.1)

-- for _ in range(n)
unfoldable pub repeat {ℓ} : {A : Type ℓ} → ℕ → Reader A → Reader (List A)
repeat zero reader = return []
repeat (suc n) reader =
    then_read reader (λ a. then_read (repeat n reader) (λ rest. return (a ∷ rest)))

pub record Input : Type 0 where
  pub prev : Bytes
  pub index : ℕ
  pub script : Bytes
  pub sequence : Bytes

pub record Output : Type 0 where
  pub value : ℕ
  pub script : Bytes

-- The source asks for the script and the four bytes behind it in one test, which refuses the same
-- buffers with the same exception.
unfoldable pub parse_input : Reader Input
unfolding read rv
parse_input = then_read (read 32) λ prev. then_read (read 4) λ index. then_read rv λ size.
    then_read (read size) λ script. then_read (read 4) λ sequence.
      return (record { prev = prev; index = from_le index; script = script; sequence = sequence })

unfoldable pub parse_output : Reader Output
unfolding read rv
parse_output = then_read (read 8) λ value. then_read rv λ size.
    then_read (read size) λ script. return (record { value = from_le value; script = script })

-- One element of a witness stack.
unfoldable pub parse_element : Reader Bytes
unfolding read rv
parse_element = then_read rv read

unfoldable pub parse_stack : Reader (List Bytes)
unfolding repeat rv parse_element
parse_stack = then_read rv (λ count. repeat count parse_element)

-- b[pos]==0 and b[pos+1]!=0, where the buffer reaches that far
abbrev pub has_marker : Bytes → Bool
has_marker (x ∷ y ∷ b) = x == 0 && not (y == 0)
has_marker b = false

-- The marker and the flag of a transaction with witnesses.
unfoldable pub parse_marker : Reader Bool
parse_marker b = if has_marker b then ok (true, drop 2 b) else ok (false, b)

unfoldable pub parse_witnesses : Bool → ℕ → Reader (List (List Bytes))
unfolding repeat parse_stack
parse_witnesses segwit nin = if segwit then repeat nin parse_stack else return []

pub record Transaction : Type 0 where
  pub nonwit : Bytes
  pub inputs : List Input
  pub outs : List Output
  pub witnesses : List (List Bytes)
  pub segwit : Bool

abbrev pub seconds {ℓ} : {A : Type ℓ} → List (A × Bytes) → List Bytes
seconds = map (λ p. p.1)

abbrev pub firsts {ℓ} : {A : Type ℓ} → List (A × Bytes) → List A
firsts = map (λ p. p.0)

-- ver+ev(nin)+b''.join(iser)+ev(nout)+b''.join(oser)+lock
abbrev pub nonwit_tail : ℕ → List (Input × Bytes) → ℕ → List (Output × Bytes) → Bytes → Bytes
nonwit_tail nin inputs nout outs lock =
    ev nin ++ (join (seconds inputs) ++ (ev nout ++ (join (seconds outs) ++ lock)))

abbrev pub nonwit_of : Bytes → ℕ → List (Input × Bytes) → ℕ → List (Output × Bytes) → Bytes → Bytes
nonwit_of ver nin inputs nout outs lock = ver ++ nonwit_tail nin inputs nout outs lock

-- The lines of parse_tx behind the number of outputs.
unfoldable pub parse_rest : Bytes → Bool → ℕ → List (Input × Bytes) → ℕ → Reader Transaction
unfolding read repeat parse_output parse_witnesses ev
parse_rest ver segwit nin inputs nout = then_read (repeat nout (spanned parse_output)) λ outs.
    then_read (parse_witnesses segwit nin) λ witnesses. then_read (read 4) λ lock. return (record {
      nonwit = nonwit_of ver nin inputs nout outs lock;
      inputs = firsts inputs;
      outs = firsts outs;
      witnesses = witnesses;
      segwit = segwit;
    })

-- The lines of parse_tx behind the marker.
unfoldable pub parse_fields : Bytes → Bool → Reader Transaction
unfolding rv repeat parse_input parse_rest
parse_fields ver segwit = then_read rv λ nin.
    then_read (repeat nin (spanned parse_input))
      λ inputs. then_read rv λ nout. parse_rest ver segwit nin inputs nout

-- The body of parse_tx, without the span of the whole transaction.
unfoldable pub parse_body : Reader Transaction
unfolding read parse_marker parse_fields
parse_body = then_read (read 4) (λ ver. then_read parse_marker (parse_fields ver))

-- parse_tx: the transaction with its bytes, t['full']
unfoldable pub parse_tx : Reader (Transaction × Bytes)
unfolding parse_body
parse_tx = spanned parse_body

-- One round of merkle: an odd last hash is paired with itself.
abbrev pub pair_up : List Bytes → List Bytes
pair_up [] = []
pair_up (a ∷ []) = h2 (a ++ a) ∷ []
pair_up (a ∷ b ∷ level) = h2 (a ++ b) ∷ pair_up level

-- while len(level)>1
unfoldable pub merkle_loop : ℕ → List Bytes → Bytes
merkle_loop fuel [] = replicate 32 0
merkle_loop fuel (a ∷ []) = a
merkle_loop zero (a ∷ b ∷ level) = a
merkle_loop (suc fuel) (a ∷ b ∷ level) = merkle_loop fuel (pair_up (a ∷ b ∷ level))

-- merkle: a round leaves fewer hashes, so the hashes bound the rounds
unfoldable pub merkle : List Bytes → Bytes
unfolding merkle_loop
merkle leaves = merkle_loop (length leaves) leaves

abbrev pub last_byte : ℕ → Bytes → ℕ
last_byte x [] = x
last_byte x (y ∷ ys) = last_byte y ys

-- The number in the bytes of a minimal push.
abbrev pub scriptnum_of : Bytes → ℤ
scriptnum_of raw =
    let v = from_le raw % 2 ^ (8 * length raw - 1) in
    if ltb (last_byte 0 raw) 128 then pos v else sub_ℕ 0 v

-- raw[-1]&0x7f is zero, and raw[-2] has no top bit.
abbrev pub is_padded : Bytes → Bool
is_padded raw =
    ltb 1 (length raw)
    && last_byte 0 raw % 128 == 0
    && ltb (last_byte 0 (take (length raw - 1) raw)) 128

-- scriptnum_minimal
unfoldable pub scriptnum_minimal : Bytes → Option ℤ
scriptnum_minimal [] = none
scriptnum_minimal (ln ∷ script) =
    if ln == 0 || ltb 5 ln || ltb (length script) ln
    then none
    else if is_padded (take ln script)
    then none
    else some (scriptnum_of (take ln script))
