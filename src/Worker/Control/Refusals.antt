-- ===== src/Worker/Control/Refusals.antt =====
-- What the control decoders never believe.
use load_forge.Common.{
  ℕ, suc, ◌-◌, ◌≤◌, ◌<◌, ◌≡◌, ◌≢◌, ◌⊎◌, refl, ap, List, [], ◌∷◌, All, true, ok, arith,
}
use load_forge.Common.Int.{ℤ, pos, negsuc, ltb_ℤ}
use load_forge.Worker.Control.Types.{
  Command, stop, pause, resume, set_duty, rebind, switch, ControlMessage, is_name_char,
  all_name_chars, is_valid_name, back_or_zero, ascends, cpus_are_valid, is_valid_command, is_valid,
}
use load_forge.Worker.Control.Codec.{Reader, conclude, decode_kind, decode_fields, decode_message}

conclude_valid :
    (message found : ControlMessage) (end : Reader)
    → conclude message end ≡ ok found
    → is_valid found ≡ true
unfolding conclude
conclude_valid message found end e = ground arith

decode_fields_valid :
    (kind_byte : ℕ) (bytes : List ℕ) (found : ControlMessage)
    → decode_fields kind_byte bytes ≡ ok found
    → is_valid found ≡ true
unfolding decode_fields
decode_fields_valid kind_byte bytes found e = conclude_valid _ found _ e

decode_kind_valid :
    (bytes : List ℕ) (found : ControlMessage) → decode_kind bytes ≡ ok found → is_valid found ≡ true
unfolding decode_kind
decode_kind_valid [] found e = cc
decode_kind_valid (first ∷ []) found e = cc
decode_kind_valid (first ∷ kind_byte ∷ bytes) found e =
    ground (arith, decode_fields_valid kind_byte bytes found)

-- Each is below all that come behind it.
abbrev pub IsSorted : List ℕ → Type 0
IsSorted [] = Unit {0}
IsSorted (cpu ∷ cpus) = All (λ next. cpu < next) cpus × IsSorted cpus

abbrev pub IsNameChar : ℕ → Type 0
IsNameChar c = ((b'a' ≤ c) × (c ≤ b'z')) ⊎ ((b'0' ≤ c) × (c ≤ b'9')) ⊎ (c ≡ b'_')

abbrev pub IsName : List ℕ → Type 0
IsName name =
    ((first : ℕ) × (rest : List ℕ) × (name ≡ first ∷ rest) × (b'a' ≤ first) × (first ≤ b'z'))
    × All IsNameChar name

-- What a worker may be asked to do.
abbrev pub IsAllowed : Command → Type 0
IsAllowed stop = Unit {0}
IsAllowed pause = Unit {0}
IsAllowed resume = Unit {0}
IsAllowed (set_duty busy_permille period_ns) =
    (1 ≤ busy_permille) × (busy_permille ≤ 1000) × ((n : ℕ) × (period_ns ≡ pos (suc n)))
IsAllowed (rebind cpus) = (cpus ≢ []) × All (λ cpu. cpu < 1024) cpus × IsSorted cpus
IsAllowed (switch workload seed footprint_bytes decomposition duty) =
    IsName workload × (0 < footprint_bytes)

All-above :
    (a b : ℕ) (cpus : List ℕ) → a < b → All (λ next. b < next) cpus → All (λ next. a < next) cpus
All-above a b [] less all = tt
All-above a b (cpu ∷ cpus) less (first, all) =
    (omega (arith, less, first), All-above a b cpus less all)

ascends-IsSorted : (cpus : List ℕ) → ascends cpus ≡ true → IsSorted cpus
ascends-IsSorted [] e = tt
ascends-IsSorted (cpu ∷ []) e = (tt, tt)
ascends-IsSorted (cpu ∷ next ∷ cpus) e =
    let rest = ascends-IsSorted (next ∷ cpus) (ground (arith, e)) in
    let less : cpu < next = ground (arith, e) in ((less, All-above cpu next cpus less rest.0), rest)

back-below :
    (cpus : List ℕ) → back_or_zero cpus < 1024 → IsSorted cpus → All (λ cpu. cpu < 1024) cpus
back-below [] last sorted = tt
back-below (cpu ∷ []) last sorted = (last, tt)
back-below (cpu ∷ next ∷ cpus) last ((less, above), sorted) =
    let rest = back-below (next ∷ cpus) last sorted in (omega (arith, less, rest.0), rest)

IsNameChar_lem : (c : ℕ) → is_name_char c ≡ true → IsNameChar c
IsNameChar_lem c e = ground (arith, e)

all_name_chars_lem : (name : List ℕ) → all_name_chars name ≡ true → All IsNameChar name
all_name_chars_lem [] e = tt
all_name_chars_lem (c ∷ cs) e =
    (IsNameChar_lem c (ground (arith, e)), all_name_chars_lem cs (ground (arith, e)))

is_valid_name-IsName : (name : List ℕ) → is_valid_name name ≡ true → IsName name
unfolding is_valid_name
is_valid_name-IsName [] e = cc
is_valid_name-IsName (first ∷ rest) e = (
  (first, rest, refl, ground (arith, e), ground (arith, e)),
  all_name_chars_lem (first ∷ rest) (ground (arith, e)),
)

positive : (a : ℤ) → ltb_ℤ (pos 0) a ≡ true → (n : ℕ) × (a ≡ pos (suc n))
positive (pos n) e = (n - 1, ap pos (ground (arith, e)))
positive (negsuc n) e = absurd (ground (arith, e))

is_valid_command-IsAllowed :
    (command : Command) → is_valid_command command ≡ true → IsAllowed command
unfolding is_valid_command cpus_are_valid
is_valid_command-IsAllowed stop e = tt
is_valid_command-IsAllowed pause e = tt
is_valid_command-IsAllowed resume e = tt
is_valid_command-IsAllowed (set_duty busy_permille period_ns) e =
    (ground (arith, e), ground (arith, e), positive period_ns (ground (arith, e)))
is_valid_command-IsAllowed (rebind []) e = cc
is_valid_command-IsAllowed (rebind (cpu ∷ cpus)) e =
    let sorted = ascends-IsSorted (cpu ∷ cpus) (ground (arith, e)) in
    (λ none_there. cc, back-below (cpu ∷ cpus) (ground (arith, e)) sorted, sorted)
is_valid_command-IsAllowed (switch workload seed footprint_bytes decomposition duty) e =
    (is_valid_name-IsName workload (ground (arith, e)), ground (arith, e))

decode_message-is_valid :
    (bytes : List ℕ) (message : ControlMessage)
    → decode_message bytes ≡ ok message
    → is_valid message ≡ true
unfolding decode_message
decode_message-is_valid bytes message e = ground (arith, decode_kind_valid bytes message)

-- Whatever bytes a message was decoded from, what it asks is allowed: a share of 1 to 1000 thousandths of a positive
-- period; CPUs of which there is one at least, each below 1024 and below all that come behind it; or a workload with a
-- footprint that is not empty, and a name of lower-case letters, digits and underscores that begins with a letter.
pub decode_message-IsAllowed :
    (bytes : List ℕ) (message : ControlMessage)
    → decode_message bytes ≡ ok message
    → IsAllowed message.command
decode_message-IsAllowed bytes message e =
    is_valid_command-IsAllowed message.command (decode_message-is_valid bytes message e)
