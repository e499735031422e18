-- ===== src/Journal/Records.antt =====
-- One record of the journal, whole or cut: what a round of `scan` makes of it.
use load_forge.Common.{
  ℕ, suc, ◌+◌, ◌-◌, ◌^◌, ◌≤◌, ◌<◌, ◌≡◌, refl, sym, ap, ◌∙◌, List, [], ◌∷◌, ◌++◌, length, take, drop,
  false, ltb, ◌==◌, ==_refl, if◌then◌else◌, arith, append_assoc, append-nil, length-append,
  length-take, take-append, drop-append, lt→ltb, le→ltb,
}
use load_forge.Common.Bits.{put, get, put_from, length-put_from, get-put}
use load_forge.Core.Crc32.Detects.{crc32_update-lt}
use load_forge.Journal.Format.{torn_tail, corrupt, check, frame}
use load_forge.Journal.Scan.{
  ends, read_payload, read_record, read_header, round, could_be_cut_short, ending_of_short_record,
}

check-lt : (size payload : List ℕ) → check size payload < 2 ^ 32
unfolding check
check-lt size payload = crc32_update-lt _ payload

abbrev size_of : List ℕ → List ℕ
size_of payload = put 4 (length payload)

pub length-frame : (payload : List ℕ) → length (frame payload) ≡ 8 + length payload
unfolding frame
length-frame payload = omega (
  arith,
  length-append (size_of payload) (put 4 (check (size_of payload) payload) ++ payload),
  length-append (put 4 (check (size_of payload) payload)) payload,
  length-put_from 0 4 (length payload),
  length-put_from 0 4 (check (size_of payload) payload),
)

get-put_bytes : (v : ℕ) (rest : List ℕ) → v < 2 ^ 32 → get 4 (put 4 v ++ rest) ≡ v
get-put_bytes v rest h = get-put 4 v rest (omega arith)

take_size : (v : ℕ) (rest : List ℕ) → take 4 (put 4 v ++ rest) ≡ put 4 v
unfolding put_from
take_size v rest = refl

drop_size : (v : ℕ) (rest : List ℕ) → drop 4 (put 4 v ++ rest) ≡ rest
unfolding put_from
drop_size v rest = refl

-- A header is two words.
abbrev header : ℕ → ℕ → List ℕ → List ℕ
header v w rest = put 4 v ++ (put 4 w ++ rest)

header_dropped : (v w : ℕ) (rest : List ℕ) → drop 8 (header v w rest) ≡ rest
unfolding put_from
header_dropped v w rest = refl

drop_past : (v w n : ℕ) (rest : List ℕ) → drop (8 + n) (header v w rest) ≡ drop n rest
unfolding put_from
drop_past v w n rest = ap (λ (k : ℕ). drop k (header v w rest)) eight
  where
    eight : 8 + n ≡ suc (suc (suc (suc (suc (suc (suc (suc n)))))))
    eight = omega arith

take_past : (v w n : ℕ) (rest : List ℕ) → take (8 + n) (header v w rest) ≡ header v w (take n rest)
unfolding put_from
take_past v w n rest = ap (λ (k : ℕ). take k (header v w rest)) eight
  where
    eight : 8 + n ≡ suc (suc (suc (suc (suc (suc (suc (suc n)))))))
    eight = omega arith

length-header : (v w : ℕ) (rest : List ℕ) → length (header v w rest) ≡ 8 + length rest
length-header v w rest = omega (
  arith,
  length-append (put 4 v) (put 4 w ++ rest),
  length-append (put 4 w) rest,
  length-put_from 0 4 v,
  length-put_from 0 4 w,
)

pub round_short : (rest : List ℕ) → 0 < length rest → length rest < 8 → round rest ≡ ends torn_tail
unfolding round
round_short [] h k = absurd (omega arith)
round_short (byte ∷ rest) h k = rw (lt→ltb (length (byte ∷ rest)) 8 k)

pub round_long : (rest : List ℕ) → 8 ≤ length rest → round rest ≡ read_header rest
unfolding round
round_long [] h = absurd (omega arith)
round_long (byte ∷ rest) h = rw (le→ltb (length (byte ∷ rest)) 8 h)

rest_of_header : (v w : ℕ) (rest : List ℕ) → length (header v w rest) - 8 ≡ length rest
rest_of_header v w rest = omega (arith, length-header v w rest)

module _ (payload : List ℕ) (nonempty : 0 < length payload) (fits : length payload ≤ 512) where
  abbrev checked : ℕ
  checked = check (size_of payload) payload

  frame-header :
      (more : List ℕ) → frame payload ++ more ≡ header (length payload) checked (payload ++ more)
  unfolding frame
  frame-header more = simp append_assoc

  size_passes :
      (rest : List ℕ)
      → read_header (header (length payload) checked rest) ≡ (
          if ltb (length rest) (length payload)
          then ends (ending_of_short_record (header (length payload) checked rest) (length payload))
          else read_record (header (length payload) checked rest) (length payload))
  unfolding read_header
  size_passes rest = rw (get-put_bytes (length payload) (put 4 checked ++ rest) (omega arith)) (
      rw (not_zero, le→ltb 512 (length payload) fits)
        (rw (rest_of_header (length payload) checked rest)))
    where
      not_zero : (length payload == 0) ≡ false
      not_zero = ground arith

  record_passes :
      (more : List ℕ)
      → read_record (header (length payload) checked (payload ++ more)) (length payload)
        ≡ read_payload payload more
  unfolding read_record
  record_passes more =
      rw (header_dropped (length payload) checked (payload ++ more), take-append payload more)
        (rw (take_size (length payload) (put 4 checked ++ (payload ++ more))) (
          rw (drop_size (length payload) (put 4 checked ++ (payload ++ more))) (
            rw (get-put_bytes checked (payload ++ more) (check-lt (size_of payload) payload)) (
              rw (==_refl checked) (
                rw (drop_past (length payload) checked (length payload) (payload ++ more))
                  (rw (drop-append payload more)))))))

  -- A whole record is taken, whatever follows it.
  pub round-frame : (more : List ℕ) → round (frame payload ++ more) ≡ read_payload payload more
  round-frame more = rw (frame-header more) (
      round_long _ (omega (arith, length-header (length payload) checked (payload ++ more)))
      ∙ size_passes (payload ++ more)
      ∙ rw
          (le→ltb (length (payload ++ more)) (length payload)
            (omega (arith, length-append payload more)))
          (record_passes more))

  -- A record cut inside its payload is judged by its first bytes.
  pub round-frame_cut :
      (m : ℕ)
      → m < length payload
      → round (take (8 + m) (frame payload))
        ≡ ends (if could_be_cut_short (take m payload) (length payload) then torn_tail else corrupt)
  unfolding ending_of_short_record
  round-frame_cut m h = rw cut_header (
      round_long _ (omega (arith, length-header (length payload) checked (take m payload)))
      ∙ size_passes (take m payload)
      ∙ rw
          (lt→ltb (length (take m payload)) (length payload) (omega (arith, length-take m payload)))
          (rw (header_dropped (length payload) checked (take m payload))))
    where
      cut_header : take (8 + m) (frame payload) ≡ header (length payload) checked (take m payload)
      cut_header =
          ap (take (8 + m)) (
            sym (append-nil (frame payload))
            ∙ frame-header []
            ∙ ap (header (length payload) checked) (append-nil payload))
          ∙ take_past (length payload) checked m payload
