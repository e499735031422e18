-- ===== src/Worker/Control/RoundTrip.antt =====
-- What a worker reads of a control message is what the controller wrote.
use native.Mathlib.Nat.{mod-eq_of_lt}
use load_forge.Common.{
  ℕ, ◌*◌, ◌/◌, ◌^◌, ◌≤◌, ◌<◌, ◌≡◌, refl, sym, ap, ◌∙◌, List, [], ◌∷◌, ◌++◌, length, drop, true,
  false, ltb, ◌==◌, if◌then◌else◌, none, ok, err, All, arith, append_assoc, length-append,
  take-append, drop-append, le→ltb,
}
use load_forge.Common.Bits.{put, length-put_from, get-put}
use load_forge.Common.Int.{ℤ, IsI64, to_u64, to_i64-to_u64, to_u64-lt}
use load_forge.Worker.Control.Types.{
  Command, stop, pause, resume, set_duty, rebind, switch, ControlMessage, ControlAck, DutyCycle,
  is_valid, is_valid_ack,
}
use load_forge.Worker.Control.Codec.{
  trailing, reading, read, text, put_text, put_cpus, read_cpus, read_set_duty, read_rebind,
  read_switch, read_command, kind_of, encode_fields, encode, encode_ack, conclude, conclude_ack,
  check_header, decode_kind, decode_fields, decode_message, decode_ack, decode_ack_kind,
  decode_ack_fields, ack_kind,
}

abbrev IsU32 : ℕ → Type 0
IsU32 v = v < 2 ^ 32

abbrev IsU64 : ℕ → Type 0
IsU64 v = v < 2 ^ 64

-- The fields are values of their C++ types.
abbrev pub IsCommand : Command → Type 0
IsCommand (set_duty busy_permille period_ns) = (busy_permille < 2 ^ 16) × IsI64 period_ns
IsCommand (rebind cpus) = IsU32 (length cpus) × All IsU32 cpus
IsCommand (switch workload seed footprint_bytes decomposition duty) =
    IsU32 (length workload)
    × IsU64 seed
    × IsU64 footprint_bytes
    × IsU32 decomposition
    × IsU32 duty.oracle_period
    × IsU32 duty.integrity_period
IsCommand _ = Unit {0}

pub read-put :
    (width v : ℕ) (rest : List ℕ)
    → v < 256 ^ width
    → read width (reading (put width v ++ rest)) ≡ (v, reading rest)
unfolding read
read-put width v rest h =
    rw (le→ltb (length (put width v ++ rest)) width enough)
      (rw (get-put width v rest h) (rw dropped))
  where
    enough : width ≤ length (put width v ++ rest)
    enough = omega (arith, length-append (put width v) rest, length-put_from 0 width v)

    dropped : drop width (put width v ++ rest) ≡ rest
    dropped =
        ap (λ (n : ℕ). drop n (put width v ++ rest)) (sym (length-put_from 0 width v))
        ∙ drop-append (put width v) rest

text-put :
    (t rest : List ℕ) → IsU32 (length t) → text (reading (put_text t ++ rest)) ≡ (t, reading rest)
unfolding text
text-put t rest h =
    rw (append_assoc, read-put 4 (length t) (t ++ rest) h)
      (rw (le→ltb (length (t ++ rest)) (length t) (omega (arith, length-append t rest)))
        (rw (take-append t rest, drop-append t rest)))

read_cpus-put :
    (cpus rest : List ℕ)
    → All IsU32 cpus
    → read_cpus (length cpus) (reading (put_cpus cpus ++ rest)) ≡ (cpus, reading rest)
unfolding read_cpus put_cpus
read_cpus-put [] rest h = refl
read_cpus-put (cpu ∷ cpus) rest h =
    rw (append_assoc, read-put 4 cpu (put_cpus cpus ++ rest) h.0)
      (rw (read_cpus-put cpus rest h.1) (rw (mod-eq_of_lt h.0)))

length-put_cpus : (cpus : List ℕ) → length (put_cpus cpus) ≡ 4 * length cpus
unfolding put_cpus
length-put_cpus [] = refl
length-put_cpus (cpu ∷ cpus) = omega (
  arith,
  length-append (put 4 cpu) (put_cpus cpus),
  length-put_from 0 4 cpu,
  length-put_cpus cpus,
)

set_duty_back :
    (busy_permille : ℕ) (period_ns : ℤ) (rest : List ℕ)
    → busy_permille < 2 ^ 16
    → IsI64 period_ns
    → read_set_duty (reading ((put 2 busy_permille ++ put 8 (to_u64 period_ns)) ++ rest))
      ≡ (set_duty busy_permille period_ns, reading rest)
unfolding read_set_duty
set_duty_back busy_permille period_ns rest h k =
    rw (append_assoc, read-put 2 busy_permille (put 8 (to_u64 period_ns) ++ rest) h)
      (rw (read-put 8 (to_u64 period_ns) rest (to_u64-lt period_ns))
        (rw (mod-eq_of_lt h, to_i64-to_u64 period_ns k)))

rebind_back :
    (cpus rest : List ℕ)
    → IsU32 (length cpus)
    → All IsU32 cpus
    → read_rebind (reading ((put 4 (length cpus) ++ put_cpus cpus) ++ rest))
      ≡ (rebind cpus, reading rest)
unfolding read_rebind
rebind_back cpus rest h k =
    rw (append_assoc, read-put 4 (length cpus) (put_cpus cpus ++ rest) h)
      (rw (le→ltb (length (put_cpus cpus ++ rest) / 4) (length cpus) room)
        (rw (read_cpus-put cpus rest k)))
  where
    room : length cpus ≤ length (put_cpus cpus ++ rest) / 4
    room = omega (arith, length-append (put_cpus cpus) rest, length-put_cpus cpus)

module _ (workload : List ℕ) (seed footprint decomposition : ℕ) (duty : DutyCycle)
    (fits : IsCommand (switch workload seed footprint decomposition duty)) (rest : List ℕ) where
  in_order :
      encode_fields (switch workload seed footprint decomposition duty) ++ rest
      ≡ put_text workload
        ++ (put 8 seed
            ++ (put 8 footprint
                ++ (put 4 decomposition
                    ++ (put 4 duty.oracle_period ++ (put 4 duty.integrity_period ++ rest)))))
  unfolding encode_fields
  in_order = simp append_assoc

  switch_back :
      read_switch
        (reading (encode_fields (switch workload seed footprint decomposition duty) ++ rest))
      ≡ (switch workload seed footprint decomposition duty, reading rest)
  unfolding read_switch
  switch_back = rw in_order (
      rw (text-put workload _ fits.0) (
        rw (read-put 8 seed _ fits.1) (
          rw (read-put 8 footprint _ fits.2) (
            rw (read-put 4 decomposition _ fits.3) (
              rw (read-put 4 duty.oracle_period _ fits.4) (
                rw (read-put 4 duty.integrity_period rest fits.5)
                  (rw (mod-eq_of_lt fits.3, mod-eq_of_lt fits.4, mod-eq_of_lt fits.5))))))))

pub read_command-encode :
    (command : Command) (rest : List ℕ)
    → IsCommand command
    → read_command (kind_of command) (reading (encode_fields command ++ rest))
      ≡ (command, reading rest)
unfolding read_command encode_fields
read_command-encode stop rest h = refl
read_command-encode pause rest h = refl
read_command-encode resume rest h = refl
read_command-encode (set_duty busy_permille period_ns) rest h =
    set_duty_back busy_permille period_ns rest h.0 h.1
read_command-encode (rebind cpus) rest h = rebind_back cpus rest h.0 h.1
read_command-encode (switch workload seed footprint_bytes decomposition duty) rest h =
    switch_back workload seed footprint_bytes decomposition duty h rest

kind_bounds :
    (command : Command) → (ltb (kind_of command) 1 ≡ false) × (ltb 6 (kind_of command) ≡ false)
kind_bounds stop = (refl, refl)
kind_bounds pause = (refl, refl)
kind_bounds resume = (refl, refl)
kind_bounds (set_duty busy_permille period_ns) = (refl, refl)
kind_bounds (rebind cpus) = (refl, refl)
kind_bounds (switch workload seed footprint_bytes decomposition duty) = (refl, refl)

conclude-valid :
    (message : ControlMessage) (rest : List ℕ)
    → is_valid message ≡ true
    → conclude message (reading rest) ≡ (if length rest == 0 then ok message else err trailing)
unfolding conclude
conclude-valid message [] valid = rw valid
conclude-valid message (byte ∷ rest) valid = ground arith

decode_fields-encode :
    (message : ControlMessage) (rest : List ℕ)
    → IsU32 message.sequence
    → IsCommand message.command
    → is_valid message ≡ true
    → decode_fields
        (kind_of message.command)
        (put 4 message.sequence ++ (encode_fields message.command ++ rest))
      ≡ (if length rest == 0 then ok message else err trailing)
unfolding decode_fields
decode_fields-encode message rest hs hc valid =
    rw (read-put 4 message.sequence (encode_fields message.command ++ rest) hs) (
      rw (read_command-encode message.command rest hc)
        (rw (mod-eq_of_lt hs) (conclude-valid message rest valid)))

header_passes : (kind_byte : ℕ) (more : List ℕ) → check_header (1 ∷ kind_byte ∷ more) ≡ none
unfolding check_header
header_passes kind_byte more = ground arith

kind_passes :
    (message : ControlMessage) (rest : List ℕ)
    → decode_kind (encode message ++ rest)
      ≡ decode_fields
          (kind_of message.command)
          (put 4 message.sequence ++ (encode_fields message.command ++ rest))
unfolding decode_kind encode
kind_passes message rest =
    rw ((kind_bounds message.command).0, (kind_bounds message.command).1) (rw append_assoc)

encoded_header :
    (message : ControlMessage) (rest : List ℕ) → check_header (encode message ++ rest) ≡ none
unfolding encode
encoded_header message rest = header_passes (kind_of message.command) _

-- The worker reads the message that the controller encoded, for every message that keeps the rules
-- of its command and has fields in the range of their types. With bytes behind it the whole is
-- refused as trailing.
pub decode_message-encode :
    (message : ControlMessage) (rest : List ℕ)
    → message.sequence < 2 ^ 32
    → IsCommand message.command
    → is_valid message ≡ true
    → decode_message (encode message ++ rest)
      ≡ (if length rest == 0 then ok message else err trailing)
unfolding decode_message
decode_message-encode message rest hs hc valid =
    rw (encoded_header message rest, decode_message)
      (kind_passes message rest ∙ decode_fields-encode message rest hs hc valid)

conclude_ack-valid :
    (ack : ControlAck) (rest : List ℕ)
    → is_valid_ack ack ≡ true
    → conclude_ack ack (reading rest) ≡ (if length rest == 0 then ok ack else err trailing)
unfolding conclude_ack
conclude_ack-valid ack [] valid = rw valid
conclude_ack-valid ack (byte ∷ rest) valid = ground arith

ack_header : (ack : ControlAck) (rest : List ℕ) → check_header (encode_ack ack ++ rest) ≡ none
unfolding encode_ack
ack_header ack rest = header_passes ack_kind _

ack_kind_passes :
    (ack : ControlAck) (rest : List ℕ)
    → decode_ack_kind (encode_ack ack ++ rest)
      ≡ decode_ack_fields
          (put 4 ack.sequence ++ (put 1 ack.status ++ (put_text ack.detail ++ rest)))
unfolding decode_ack_kind encode_ack
ack_kind_passes ack rest = ap decode_ack_fields (simp append_assoc)

ack_passes :
    (ack : ControlAck) (rest : List ℕ)
    → ack.sequence < 2 ^ 32
    → is_valid_ack ack ≡ true
    → decode_ack_fields (put 4 ack.sequence ++ (put 1 ack.status ++ (put_text ack.detail ++ rest)))
      ≡ (if length rest == 0 then ok ack else err trailing)
unfolding decode_ack_fields
ack_passes ack rest hs valid = rw (read-put 4 ack.sequence _ hs) (
    rw (read-put 1 ack.status _ (omega (arith, small.0))) (
      rw (text-put ack.detail rest (omega (arith, small.1)))
        (rw (mod-eq_of_lt hs, mod-eq_of_lt status_fits) (conclude_ack-valid ack rest valid))))
  where
    small : (ack.status ≤ 1) × (length ack.detail ≤ 1024)
    small = ground arith

    status_fits : ack.status < 256
    status_fits = omega (arith, small.0)

-- The controller reads the acknowledgement that the worker encoded, for every valid one whose
-- sequence number is a uint32_t. With bytes behind it the whole is refused as trailing.
pub decode_ack-encode_ack :
    (ack : ControlAck) (rest : List ℕ)
    → ack.sequence < 2 ^ 32
    → is_valid_ack ack ≡ true
    → decode_ack (encode_ack ack ++ rest) ≡ (if length rest == 0 then ok ack else err trailing)
unfolding decode_ack
decode_ack-encode_ack ack rest hs valid =
    rw (ack_header ack rest, decode_ack) (ack_kind_passes ack rest ∙ ack_passes ack rest hs valid)
