-- ===== src/Worker/Channel/Frame.antt =====
-- worker/ipc/record.cpp: what the reader finds at the front of its buffer, by the parts of a frame.
use load_forge.Common.{
  ℕ, zero, suc, ◌+◌, ◌-◌, ◌^◌, ◌≤◌, ◌<◌, ◌≡◌, refl, sym, ap, ◌∙◌, List, [], ◌∷◌, ◌++◌, length, take,
  drop, false, not, ltb, ◌==◌, ==_refl, if◌then◌else◌, none, some, ok, err, arith, take-append,
  drop-append, length-append, length-take, lt→ltb, le→ltb, Bool-cases, inl, inr, ltb→lt, ltb→le,
  take-append_add,
}
use load_forge.Common.Bits.{put, put_from, get, get_from, get-put}
use load_forge.Core.Crc32.{crc32}
use load_forge.Core.Crc32.Detects.{crc32_update-lt}
use load_forge.Worker.Channel.{
  bad_checksum, oversized, Record, Found, frame_magic, frame_version, max_payload_bytes,
  checksum_offset, checksum_of, put_header, put_frame, frame_found, payload_found,
}

-- The frame of a header, a checksum and what has come of the payload.
abbrev pub parts : (type size checksum : ℕ) → List ℕ → List ℕ
parts type size checksum body = put_header type size ++ (put 4 checksum ++ body)

-- What the reader says of them, once the header's magic and version have passed.
abbrev pub body_found : (type size checksum : ℕ) → List ℕ → Found
body_found type size checksum body =
    if ltb max_payload_bytes size
    then err oversized
    else if ltb (length body) size
    then ok none
    else if not (checksum == checksum_of (put_header type size) (take size body))
    then err bad_checksum
    else ok (some (record { type = type; payload = take size body }, drop size body))

drop-nil : {A : Type 0} (n : ℕ) → drop {A = A} n [] ≡ []
drop-nil zero = refl
drop-nil (suc n) = refl

drop_add : {A : Type 0} (m n : ℕ) (xs : List A) → drop (m + n) xs ≡ drop n (drop m xs)
drop_add zero n xs = ap (λ k. drop k xs) (omega arith)
drop_add (suc m) n [] = drop-nil (suc m + n) ∙ sym (drop-nil n)
drop_add (suc m) n (x ∷ xs) = ap (λ k. drop k (x ∷ xs)) next ∙ drop_add m n xs
  where
    next : suc m + n ≡ suc (m + n)
    next = omega arith

module _ (type size checksum : ℕ) (body : List ℕ) (type_fits : type < 2 ^ 16)
    (size_fits : size < 2 ^ 32) (checksum_fits : checksum < 2 ^ 32) where
  get_magic : get 4 (parts type size checksum body) ≡ frame_magic
  unfolding put_header put_from get_from
  get_magic = refl

  get_version : get 2 (drop 4 (parts type size checksum body)) ≡ frame_version
  unfolding put_header put_from get_from
  get_version = refl

  get_type : get 2 (drop 6 (parts type size checksum body)) ≡ type
  unfolding put_header put_from
  get_type = get-put 2 type (put 4 size ++ (put 4 checksum ++ body)) type_fits

  get_size : get 4 (drop 8 (parts type size checksum body)) ≡ size
  unfolding put_header put_from
  get_size = get-put 4 size (put 4 checksum ++ body) size_fits

  get_checksum : get 4 (drop 12 (parts type size checksum body)) ≡ checksum
  unfolding put_header put_from
  get_checksum = get-put 4 checksum body checksum_fits

  drop_body : (n : ℕ) → drop (16 + n) (parts type size checksum body) ≡ drop n body
  unfolding put_header put_from
  drop_body n = drop_add 16 n (parts type size checksum body)

  length-parts : length (parts type size checksum body) ≡ 16 + length body
  unfolding put_header put_from
  length-parts = omega arith

  same_checksum :
      (payload : List ℕ)
      → checksum_of (parts type size checksum body) payload
        ≡ checksum_of (put_header type size) payload
  unfolding put_header put_from checksum_of
  same_checksum payload = refl

  payload_found-parts :
      payload_found (parts type size checksum body) size ≡ body_found type size checksum body
  unfolding payload_found
  payload_found-parts =
      rw
        (
          length-parts,
          drop_body 0,
          get_checksum,
          same_checksum (take size body),
          get_type,
          drop_body size,
          payload_found,
          short,
        )
        refl
    where
      short : ltb (16 + length body) (16 + size) ≡ ltb (length body) size
      short = ground arith

  pub frame_found-parts :
      frame_found (parts type size checksum body) ≡ body_found type size checksum body
  unfolding frame_found
  frame_found-parts =
      rw (length-parts, get_size, payload_found-parts, get_magic, get_version, long, frame_found)
        refl
    where
      long : ltb (16 + length body) 16 ≡ false
      long = le→ltb (16 + length body) 16 (omega arith)

pub length-put_header : (type size : ℕ) → length (put_header type size) ≡ 12
unfolding put_header put_from
length-put_header type size = refl

abbrev pub IsRecord : Record → Type 0
IsRecord r = (r.type < 2 ^ 16) × (length r.payload ≤ max_payload_bytes)

abbrev pub frame : Record → List ℕ
frame r = put_frame r.type r.payload

abbrev pub frame_checksum : Record → ℕ
frame_checksum r = checksum_of (put_header r.type (length r.payload)) r.payload

pub frame_checksum-lt : (r : Record) → frame_checksum r < 2 ^ 32
unfolding checksum_of
frame_checksum-lt r =
    crc32_update-lt (crc32 (take checksum_offset (put_header r.type (length r.payload)))) r.payload

pub frame-parts :
    (r : Record) (rest : List ℕ)
    → frame r ++ rest ≡ parts r.type (length r.payload) (frame_checksum r) (r.payload ++ rest)
unfolding put_frame put_header put_from
frame-parts r rest = refl

pub length-frame : (r : Record) → length (frame r) ≡ 16 + length r.payload
unfolding put_frame put_header put_from
length-frame r = omega arith

-- A whole frame at the front of the buffer is its record, with what stands behind it left.
pub frame_found-frame :
    (r : Record) (rest : List ℕ) → IsRecord r → frame_found (frame r ++ rest) ≡ ok (some (r, rest))
frame_found-frame r rest (type_fits, small) =
    ap frame_found (frame-parts r rest)
    ∙ frame_found-parts r.type (length r.payload) (frame_checksum r) (r.payload ++ rest) type_fits
        (omega arith) (frame_checksum-lt r)
    ∙ rw
        (
          le→ltb 65536 (length r.payload) small,
          le→ltb (length (r.payload ++ rest)) (length r.payload)
              (omega (arith, length-append r.payload rest)),
          take-append r.payload rest,
          drop-append r.payload rest,
          ==_refl (frame_checksum r),
        )
        refl

take-frame :
    (r : Record) (k : ℕ)
    → take (16 + k) (frame r)
      ≡ parts r.type (length r.payload) (frame_checksum r) (take k r.payload)
unfolding put_frame put_header put_from
take-frame r k =
    take-append_add (put_header r.type (length r.payload) ++ put 4 (frame_checksum r)) r.payload k

cut_payload :
    (r : Record) (k : ℕ)
    → IsRecord r
    → k < length r.payload
    → frame_found (take (16 + k) (frame r)) ≡ ok none
cut_payload r k (type_fits, small) short =
    ap frame_found (take-frame r k)
    ∙ frame_found-parts r.type (length r.payload) (frame_checksum r) (take k r.payload) type_fits
        (omega arith) (frame_checksum-lt r)
    ∙ rw
        (
          le→ltb 65536 (length r.payload) small,
          lt→ltb (length (take k r.payload)) (length r.payload)
              (omega (arith, length-take k r.payload)),
        )
        refl

-- A frame cut short anywhere is waited for.
pub frame_found-cut :
    (r : Record) (n : ℕ)
    → IsRecord r
    → n < length (frame r)
    → frame_found (take n (frame r)) ≡ ok none
frame_found-cut r n (type_fits, small) short = elim (Bool-cases (ltb n 16)) [
  | inl in_header ↦
      unfold frame_found in
      rw
        (lt→ltb (length (take n (frame r))) 16
          (omega (arith, length-take n (frame r), ltb→lt n 16 in_header)))
        refl
  | inr in_payload ↦
      let past_header : n ≡ 16 + (n - 16) = omega (arith, ltb→le n 16 in_payload) in
      ap (λ m. frame_found (take m (frame r))) past_header
      ∙ cut_payload r (n - 16) (type_fits, small) (omega (arith, length-frame r, past_header))
]
