-- ===== src/Worker/Control/Types.antt =====
-- worker/control.hpp: the commands that the controller sends a worker, and the acknowledgements.
use load_forge.Common.{ℕ, List, [], ◌∷◌, length, Bool, true, false, ◌&&◌, ◌||◌, not, ltb, leb, ◌==◌}
use load_forge.Common.Int.{ℤ, pos, ltb_ℤ}

-- verification::DutyCycle.
pub record DutyCycle : Type 0 where
  pub oracle_period : ℕ
  pub integrity_period : ℕ

pub data Command : Type 0 where
  stop pause resume : Command
  set_duty : ℕ → ℤ → Command
  rebind : List ℕ → Command
  switch : List ℕ → ℕ → ℕ → ℕ → DutyCycle → Command

pub record ControlMessage : Type 0 where
  pub sequence : ℕ
  pub command : Command

-- `static_cast<AckStatus>(value)` of a byte: an enumeration holds any value of its type.
pub record ControlAck : Type 0 where
  pub sequence : ℕ
  pub status : ℕ
  pub detail : List ℕ

abbrev pub max_text_bytes : ℕ
max_text_bytes = 1024

-- workloads::is_valid_name, with its lambda.
abbrev pub is_name_char : ℕ → Bool
is_name_char c = (leb b'a' c && leb c b'z') || (leb b'0' c && leb c b'9') || c == b'_'

abbrev pub all_name_chars : List ℕ → Bool
all_name_chars [] = true
all_name_chars (c ∷ cs) = is_name_char c && all_name_chars cs

unfoldable pub is_valid_name : List ℕ → Bool
is_valid_name [] = false
is_valid_name (c ∷ cs) = not (ltb c b'a' || ltb b'z' c) && all_name_chars (c ∷ cs)

-- The last CPU is below 1024, and the list ascends.
abbrev pub back_or_zero : List ℕ → ℕ
back_or_zero [] = 0
back_or_zero (cpu ∷ []) = cpu
back_or_zero (cpu ∷ next ∷ cpus) = back_or_zero (next ∷ cpus)

abbrev pub ascends : List ℕ → Bool
ascends [] = true
ascends (cpu ∷ []) = true
ascends (cpu ∷ next ∷ cpus) = not (leb next cpu) && ascends (next ∷ cpus)

unfoldable pub cpus_are_valid : List ℕ → Bool
cpus_are_valid [] = false
cpus_are_valid (cpu ∷ cpus) = ltb (back_or_zero (cpu ∷ cpus)) 1024 && ascends (cpu ∷ cpus)

-- is_valid of a message: by the alternative that its command holds.
unfoldable pub is_valid_command : Command → Bool
unfolding is_valid_name cpus_are_valid
is_valid_command stop = true
is_valid_command pause = true
is_valid_command resume = true
is_valid_command (set_duty busy_permille period_ns) =
    leb 1 busy_permille && leb busy_permille 1000 && ltb_ℤ (pos 0) period_ns
is_valid_command (rebind cpus) = cpus_are_valid cpus
is_valid_command (switch workload seed footprint_bytes decomposition duty) =
    is_valid_name workload && ltb 0 footprint_bytes

abbrev pub is_valid : ControlMessage → Bool
is_valid message = is_valid_command message.command

abbrev pub is_valid_ack : ControlAck → Bool
is_valid_ack ack = leb ack.status 1 && leb (length ack.detail) max_text_bytes
