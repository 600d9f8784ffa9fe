-- ===== src/Wal/Frame.antt =====
-- The framing of a record in events.wal: a magic word, the length of the text, the text, and the
-- digest of all three (the reads of recover and the record of admit_checkpoint).
use mathlib.Core.List.{append_assoc}
use core_drp.Prelude.{
  ℕ, ◌-◌, ◌≤◌, ◌<◌, ◌≡◌, refl, sym, ap, Bool, true, false, ◌&&◌, ◌++◌, arith, ltb, leb, ◌==◌,
  length, take, drop, length-append, take-append, length-take, take-append_past, drop-append, Bytes,
  bytes_eq, bytes_eq_refl, bytes_eq_iff, bytes_eq→eq, take_more, drop_more, length-drop, codes, be,
  length-be, from_be, from_be-be, dec_lt,
}
use core_drp.Result.{Result, ok, raise, failure, require, ◌>>◌, wal_corruption}
use core_drp.Sha256.{sha256, length-sha256}

unfoldable pub header : Bytes → Bytes
header raw = codes "DRP1" ++ be 4 (length raw)

length-header : (raw : Bytes) → length (header raw) ≡ 8
unfolding header
length-header raw = omega (arith, length-be 4 (length raw))

magic-header : (raw : Bytes) → take 4 (header raw) ≡ codes "DRP1"
unfolding header
magic-header raw = refl

size-header : (raw : Bytes) → length raw ≤ 16384 → from_be (drop 4 (header raw)) ≡ length raw
unfolding header
size-header raw h = from_be-be 4 (length raw) (omega arith)

-- record=header+raw+H(header+raw)
unfoldable pub frame : Bytes → Bytes
frame raw = header raw ++ (raw ++ sha256 (header raw ++ raw))

pub frame-pos : (raw : Bytes) → 0 < length (frame raw)
unfolding frame
frame-pos raw =
    omega (arith, length-append (header raw) (raw ++ sha256 (header raw ++ raw)), length-header raw)

-- The reads for one record: the text that stands at the head of `b`, and what stands behind it.
unfoldable pub read_frame : Bytes → Result (Bytes × Bytes)
read_frame b =
    let head = take 8 b in
    let rest = drop 8 b in
    let n = from_be (drop 4 head) in
    let raw = take n rest in
    let digest = take 32 (drop n rest) in
    do
      require ((length head == 8) && bytes_eq (take 4 head) (codes "DRP1")) wal_corruption
      require (ltb 0 n && leb n 16384) wal_corruption
      require ((length raw == n) && bytes_eq (sha256 (head ++ raw)) digest) wal_corruption
      ok (raw, drop 32 (drop n rest))

-- The record of a text of 1 to 16384 bytes is read back as that text, whatever follows it.
pub read_frame-frame :
    (raw rest : Bytes)
    → 0 < length raw
    → length raw ≤ 16384
    → read_frame (frame raw ++ rest) ≡ ok (raw, rest)
unfolding read_frame frame
read_frame-frame raw rest lo hi =
    let head = header raw in
    let digest = sha256 (head ++ raw) in
    rw (append_assoc head (raw ++ digest) rest, append_assoc raw digest rest)
      (rw
        (
          take-append head (raw ++ (digest ++ rest)) 8 (sym (length-header raw)),
          drop-append head (raw ++ (digest ++ rest)) 8 (sym (length-header raw)),
        )
        (rw (size-header raw hi, length-header raw, magic-header raw)
          (rw
            (
              take-append raw (digest ++ rest) (length raw) refl,
              drop-append raw (digest ++ rest) (length raw) refl,
            )
            (rw
              (
                take-append digest rest 32 (sym (length-sha256 (head ++ raw))),
                drop-append digest rest 32 (sym (length-sha256 (head ++ raw))),
              )
              (ground (arith, bytes_eq_refl digest))))))

-- The reads once the header is there.
abbrev read_body : Bytes → Bytes → ℕ → Result (Bytes × Bytes)
read_body head rest n =
    let raw = take n rest in
    let digest = take 32 (drop n rest) in
    do
      require (ltb 0 n && leb n 16384) wal_corruption
      require ((length raw == n) && bytes_eq (sha256 (head ++ raw)) digest) wal_corruption
      ok (raw, drop 32 (drop n rest))

module _ (raw : Bytes) (hi : length raw ≤ 16384) where
  read_frame-header :
      (rest : Bytes) → read_frame (header raw ++ rest) ≡ read_body (header raw) rest (length raw)
  unfolding read_frame
  read_frame-header rest = rw (
    take-append (header raw) rest 8 (sym (length-header raw)),
    drop-append (header raw) rest 8 (sym (length-header raw)),
    size-header raw hi,
    length-header raw,
    magic-header raw,
  )

  -- The text is cut short.
  cut_text :
      (m : ℕ)
      → m < length raw
      → read_body (header raw) (take m (raw ++ sha256 (header raw ++ raw))) (length raw)
        ≡ raise (failure wal_corruption)
  cut_text m h =
      let rest = raw ++ sha256 (header raw ++ raw) in
      ground (arith, length-take (length raw) (take m rest), length-take m rest)

  -- The digest is cut short.
  cut_digest :
      (m : ℕ)
      → m < 32
      → read_body (header raw) (raw ++ take m (sha256 (header raw ++ raw))) (length raw)
        ≡ raise (failure wal_corruption)
  cut_digest m h =
      let digest = sha256 (header raw ++ raw) in
      let cut = take 32 (take m digest) in
      rw
        (
          take-append raw (take m digest) (length raw) refl,
          drop-append raw (take m digest) (length raw) refl,
        )
        (ground (
          arith,
          bytes_eq_iff digest cut,
          λ (e : digest ≡ cut). ap length e,
          length-take 32 (take m digest),
          length-take m digest,
          length-sha256 (header raw ++ raw),
        ))

  cut_header :
      (n : ℕ) (file : Bytes) → n < 8 → read_frame (take n file) ≡ raise (failure wal_corruption)
  unfolding read_frame
  cut_header n file h = ground (arith, length-take 8 (take n file), length-take n file)

  -- The record of a text of at most 16384 bytes that is cut short at any byte reads as
  -- WAL_CORRUPTION.
  pub read_frame-partial :
      (n : ℕ)
      → n < length (frame raw)
      → read_frame (take n (frame raw)) ≡ raise (failure wal_corruption)
  unfolding frame
  read_frame-partial n short =
      let digest = sha256 (header raw ++ raw) in
      elim (dec_lt n 8) [
        | yes h ↦ cut_header n (frame raw) h
        | no h ↦
            let m = n - 8 in
            rw
              (
                take-append_past (header raw) (raw ++ digest) n m
                    (omega (arith, length-header raw)),
                read_frame-header,
              )
              (elim (dec_lt m (length raw)) [
                | yes k ↦ cut_text m k
                | no k ↦ rw (take-append_past raw digest m (m - length raw) (omega arith)) (
                    cut_digest (m - length raw) (
                      omega (
                        arith,
                        length-append (header raw) (raw ++ digest),
                        length-append raw digest,
                        length-header raw,
                        length-sha256 (header raw ++ raw),
                      )))
              ])
      ]

module _ (b : Bytes) where
  abbrev head_of : Bytes
  head_of = take 8 b

  abbrev size_of : ℕ
  size_of = from_be (drop 4 (take 8 b))

  abbrev body_of : Bytes
  body_of = drop 8 b

  abbrev head_test : Bool
  head_test = (length head_of == 8) && bytes_eq (take 4 head_of) (codes "DRP1")

  abbrev size_test : Bool
  size_test = ltb 0 size_of && leb size_of 16384

  abbrev digest_test : Bool
  digest_test =
      let raw = take size_of body_of in
      (length raw == size_of) && bytes_eq (sha256 (head_of ++ raw)) (take 32 (drop size_of body_of))

  -- What a successful read has found.
  record IsRead (raw rest : Bytes) : Type 0 where
    head_full : length head_of ≡ 8
    text_full : length (take size_of body_of) ≡ size_of
    digest_is : sha256 (head_of ++ take size_of body_of) ≡ take 32 (drop size_of body_of)
    raw_is : raw ≡ take size_of body_of
    rest_is : rest ≡ drop 32 (drop size_of body_of)

  read_frame-IsRead : (raw rest : Bytes) → read_frame b ≡ ok (raw, rest) → IsRead raw rest
  unfolding read_frame
  read_frame-IsRead raw rest h = record {
    head_full = ground arith;
    text_full = ground arith;
    digest_is = bytes_eq→eq _ _ (ground arith);
    raw_is = ground arith;
    rest_is = ground arith;
  }

  digest_full : (raw rest : Bytes) → IsRead raw rest → length (take 32 (drop size_of body_of)) ≡ 32
  digest_full raw rest r = rw (← r.digest_is) (length-sha256 (head_of ++ take size_of body_of))

-- The three checks of read_frame before its result.
abbrev guarded : Bool → Bool → Bool → Bytes × Bytes → Result (Bytes × Bytes)
guarded t u v result = do
  require t wal_corruption
  require u wal_corruption
  require v wal_corruption
  ok result

same_guards :
    (t u v : Bool) (a r raw rest more : Bytes)
    → guarded t u v (a, r) ≡ ok (raw, rest)
    → guarded t u v (a, r ++ more) ≡ ok (raw, rest ++ more)
same_guards true true true a r raw rest more h = ground arith
same_guards true true false a r raw rest more h = cc
same_guards true false v a r raw rest more h = cc
same_guards false u v a r raw rest more h = cc

-- A record that is read is read with the same result where more follows.
pub read_frame-extend :
    (b more raw rest : Bytes)
    → read_frame b ≡ ok (raw, rest)
    → read_frame (b ++ more) ≡ ok (raw, rest ++ more)
unfolding read_frame
read_frame-extend b more raw rest h =
    let r = read_frame-IsRead b raw rest h in
    let n = size_of b in
    rw (take_more 8 b more r.head_full, drop_more 8 b more r.head_full)
      (rw (take_more n (body_of b) more r.text_full, drop_more n (body_of b) more r.text_full)
        (rw
          (
            take_more 32 (drop n (body_of b)) more (digest_full b raw rest r),
            drop_more 32 (drop n (body_of b)) more (digest_full b raw rest r),
          )
          (same_guards (head_test b) (size_test b) (digest_test b) (take n (body_of b))
            (drop 32 (drop n (body_of b))) raw rest more h)))

-- What stands behind a record is shorter.
pub read_frame-shorter :
    (b raw rest : Bytes) → read_frame b ≡ ok (raw, rest) → length rest < length b
read_frame-shorter b raw rest h =
    let r = read_frame-IsRead b raw rest h in
    rw r.rest_is (
      omega (
        arith,
        r.head_full,
        length-take 8 b,
        length-drop 32 (drop (size_of b) (body_of b)),
        length-drop (size_of b) (body_of b),
        length-drop 8 b,
      ))
