-- ===== src/Examples/Values.antt =====
-- The theorems about values with a unit, lists of CPUs and the stop of a worker at concrete inputs.
use load_forge.Common.{All, ◌≡◌, ◌≤◌, refl, List, [], ◌∷◌, ◌++◌, false, none, ok, arith}
use load_forge.Worker.Control.Types.{switch, pause}
use load_forge.Common.Int.{pos}
use load_forge.Mixed.{Step}
use load_forge.Controller.Memory.{
  peak_of, peak_over, raise, sum, add_held, hold_workers, hold_commands, hold, footprint_of,
}
use load_forge.Controller.Memory.Peaks.{together, over_steps, peak_of-le}
use load_forge.Core.Numbers.{
  split_number_and_suffix, split_trimmed, trim, trim_front, trim_back, keep_front, is_space,
  is_digit, leading_digits, value_from, from_chars, is_text,
}
use load_forge.Core.Units.{absolute, parse_byte_size, byte_size_of, read_in, scaled}
use load_forge.Core.Units.RoundTrip.{IsByteSize}
use load_forge.Core.Units.Bounds.{parse_byte_size-IsByteSize}
use load_forge.Topology.CpuList.{
  parse, parse_elements, elements_of, parse_element, cut_at_dash, parse_id, read_id, range_of,
  range_to, overlaps, ids_from, add_range,
}
use load_forge.Topology.CpuList.Ascending.{IsAscending, parse-IsAscending}
use load_forge.Controller.Stopping.{Tracked, running, requested, killed, Grace, request_stop}
use load_forge.Controller.Stopping.Order.{here, later, stop, IsTracked, rank, Reaches-IsTracked}
use load_forge.Controller.Stopping.Escalation.{after_ticks, after_ticks_killed}

-- One step, which gives the second of two workers more.
abbrev grows : List Step
grows =
    record {
      at_ns = pos 5;
      phase = b'b' ∷ [];
      workload = [];
      workers =
          record {
            slot = 1;
            commands =
                switch (b'f' ∷ []) 1 300 1 (record { oracle_period = 1; integrity_period = 1 })
                ∷ pause
                ∷ [];
          }
          ∷ [];
    }
    ∷ []

peak_of-grows : (peak_of grows (100 ∷ 200 ∷ [])).bytes ≤ 400
unfolding peak_of peak_over raise sum add_held hold_workers hold_commands hold footprint_of
peak_of-grows = omega arith

peak_of-le_example : All (λ each. together each ≤ 400) (over_steps (100 ∷ 200 ∷ []) grows)
peak_of-le_example = peak_of-le grows (100 ∷ 200 ∷ []) 400 (omega arith) peak_of-grows

three_mib : parse_byte_size (b' ' ∷ b'3' ∷ b'M' ∷ b'i' ∷ b'B' ∷ []) ≡ ok (absolute 3145728)
unfolding parse_byte_size split_number_and_suffix split_trimmed trim trim_front trim_back keep_front
    is_space is_digit leading_digits value_from from_chars is_text byte_size_of read_in scaled
three_mib = refl

parse_byte_size-IsByteSize_example : IsByteSize (absolute 3145728)
parse_byte_size-IsByteSize_example =
    parse_byte_size-IsByteSize (b' ' ∷ b'3' ∷ b'M' ∷ b'i' ∷ b'B' ∷ []) (absolute 3145728) three_mib

-- "0-2,5".
four_cpus : parse (b'0' ∷ b'-' ∷ b'2' ∷ b',' ∷ b'5' ∷ []) ≡ ok (0 ∷ 1 ∷ 2 ∷ 5 ∷ [])
unfolding parse parse_elements elements_of parse_element cut_at_dash parse_id read_id range_of
    range_to overlaps ids_from add_range is_digit
four_cpus = refl

parse-IsAscending_example : IsAscending none (0 ∷ 1 ∷ 2 ∷ 5 ∷ [])
parse-IsAscending_example =
    parse-IsAscending (b'0' ∷ b'-' ∷ b'2' ∷ b',' ∷ b'5' ∷ []) (0 ∷ 1 ∷ 2 ∷ 5 ∷ []) four_cpus

abbrev grace : Grace
grace = record { stop_ns = 100; kill_ns = 50 }

abbrev launched : Tracked
launched = record {
  step = running;
  step_since_ns = 0;
  reaped = false;
  signal_attempted = none;
  stale_when_signalled = false;
}

abbrev asked : Tracked
asked = record launched { step = requested; step_since_ns = 10 }

Reaches-IsTracked_example :
    IsTracked (request_stop launched 10) × (0 ≤ rank (request_stop launched 10).step)
Reaches-IsTracked_example =
    Reaches-IsTracked grace launched (request_stop launched 10) refl (later here (stop launched 10))

-- Ticks at 60, 130, 150 and 190, with a beat that looks stale at none of them.
after_ticks_killed_example :
    (after_ticks grace asked
      (((60, false) ∷ []) ++ (130, false) ∷ (((150, false) ∷ []) ++ (190, false) ∷ []))).step
    ≡ killed
after_ticks_killed_example =
    after_ticks_killed grace asked ((60, false) ∷ []) ((150, false) ∷ []) 130 190 false false refl
      (omega arith, tt) (omega arith) (omega arith)
