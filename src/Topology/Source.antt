-- ===== src/Topology/Source.antt =====
-- topology/source.cpp and topology/cpu_topology.cpp: how a file of the kernel answers, and the failures of
-- discovery. Reading a file is a parameter; the errors are the numbers of Linux.
use load_forge.Common.{ℕ, List, [], ◌∷◌, Bool, false, ◌||◌, ◌==◌, if◌then◌else◌, Outcome, ok, err}

pub data Availability : Type 0 where
  present absent vanished denied malformed unreadable : Availability

-- The detail of a failure is a text, and is left out.
pub data DiscoveryFailure : Type 0 where
  source_failed : Availability → (subject : List ℕ) → DiscoveryFailure
  contradiction : (subject : List ℕ) → DiscoveryFailure

-- What platform::FileSystem answers: the first line of a file, or the whole of it, or the number of an error.
pub record FileSystem : Type 0 where
  pub read_first_line : List ℕ → Outcome (List ℕ) ℕ
  pub read_file : List ℕ → Outcome (List ℕ) ℕ

abbrev pub enoent : ℕ
enoent = 2

abbrev enodev : ℕ
enodev = 19

abbrev enxio : ℕ
enxio = 6

abbrev eacces : ℕ
eacces = 13

abbrev eperm : ℕ
eperm = 1

unfoldable pub classify_error : (number : ℕ) → (already_seen : Bool) → Availability
classify_error number already_seen =
    if (number == enoent) || (number == enodev) || (number == enxio)
    then if already_seen then vanished else absent
    else if (number == eacces) || (number == eperm)
    then denied
    else unreadable

-- A line that ends, without the carriage return that it may end with.
unfoldable pub without_return : List ℕ → List ℕ
without_return [] = []
without_return (c ∷ []) = if c == 13 then [] else c ∷ []
without_return (c ∷ d ∷ line) = c ∷ without_return (d ∷ line)

unfoldable pub with_front_char : ℕ → List (List ℕ) → List (List ℕ)
with_front_char c [] = (c ∷ []) ∷ []
with_front_char c (line ∷ lines) = (c ∷ line) ∷ lines

-- The lines of a text; the last need not be terminated.
unfoldable pub split_lines : List ℕ → List (List ℕ)
split_lines [] = []
split_lines (c ∷ text) =
    let rest = split_lines text in if c == 10 then [] ∷ rest else with_front_char c rest

unfoldable pub without_returns : List (List ℕ) → List (List ℕ)
without_returns [] = []
without_returns (line ∷ lines) = without_return line ∷ without_returns lines

module _ (files : FileSystem) where
  -- The sources of this model are read once each, so none was seen before.
  unfoldable pub text : List ℕ → Outcome (List ℕ) Availability
  text path = elim (files.read_first_line path) [
    | ok line ↦ ok line
    | err number ↦ err (classify_error number false)
  ]

  unfoldable pub lines : List ℕ → Outcome (List (List ℕ)) Availability
  lines path = elim (files.read_file path) [
    | ok contents ↦ ok (without_returns (split_lines contents))
    | err number ↦ err (classify_error number false)
  ]
