-- ===== src/Examples/Workers.antt =====
-- The theorems about a worker's messages, frames and duty at concrete inputs.
use load_forge.Common.{
  ℕ, ◌+◌, ◌≤◌, ◌≡◌, refl, sym, ap, ◌∙◌, append-nil, ◌<◌, List, [], ◌∷◌, ◌++◌, ok, arith, true,
}
use load_forge.Common.Int.{pos}
use load_forge.Worker.Control.Types.{
  switch, ControlMessage, ControlAck, is_valid, is_valid_command, is_valid_name,
}
use load_forge.Worker.Control.Codec.{encode, decode_message}
use load_forge.Worker.Control.RoundTrip.{decode_message-encode}
use load_forge.Worker.Control.Refusals.{IsAllowed, decode_message-IsAllowed}
use load_forge.Worker.Frames.{
  Tally, MemoryLock, attempted, fell_back, decode_memory, decode_policy, policy_of, decode_outcome,
  outcome_of, decode_detail,
}
use load_forge.Worker.Duty.{
  SetDuty, DutyClock, IsDuty, busy_ns, idle_ns, at, position, busy_ns-idle_ns,
}

abbrev change : ControlMessage
change = record {
  sequence = 7;
  command =
      switch (100 ∷ 111 ∷ 116 ∷ []) 42 4096 2 (record { oracle_period = 1; integrity_period = 16 });
}

change-is_valid : is_valid change ≡ true
unfolding is_valid_command is_valid_name
change-is_valid = refl

decode_message-encode_example : decode_message (encode change ++ []) ≡ ok change
decode_message-encode_example =
    decode_message-encode change [] (omega arith)
      (omega arith, omega arith, omega arith, omega arith, omega arith, omega arith) change-is_valid

decoded : decode_message (encode change) ≡ ok change
decoded = ap decode_message (sym (append-nil (encode change))) ∙ decode_message-encode_example

decode_message-IsAllowed_example : IsAllowed change.command
decode_message-IsAllowed_example = decode_message-IsAllowed (encode change) change decoded

abbrev done_ack : ControlAck
done_ack = record { sequence = 7; status = 0; detail = [] }

abbrev some_tally : Tally
some_tally = record {
  units_computed = 300;
  oracle_checked = 20;
  oracle_blocks = 80;
  oracle_failed = 0;
  oracle_not_performed = 1;
  integrity_checked = 18446744073709551615;
  integrity_failed = 2;
}

abbrev refused_lock : MemoryLock
refused_lock = record { policy = attempted; outcome = fell_back; detail = 110 ∷ 111 ∷ [] }

abbrev refused_frame : List ℕ
refused_frame = 1 ∷ 1 ∷ 2 ∷ 110 ∷ 111 ∷ []

refused_decodes : decode_memory refused_frame ≡ ok refused_lock
unfolding decode_memory decode_policy policy_of decode_outcome outcome_of decode_detail
refused_decodes = refl

abbrev third : SetDuty
third = record { busy_permille = 333; period_ns = 100000001 }

third-IsDuty : IsDuty third
third-IsDuty = record {
  some_busy = omega arith;
  at_most_all = omega arith;
  some_period = omega arith;
  period_fits = omega arith;
}

busy_ns-idle_ns_example :
    (busy_ns third ≡ 33300000)
    × (busy_ns third ≤ 100000001)
    × (busy_ns third + idle_ns third ≡ 100000001)
busy_ns-idle_ns_example = busy_ns-idle_ns third third-IsDuty

abbrev third_clock : DutyClock
third_clock = record { duty = third; epoch_ns = pos 10 }

early : 5 < (at third_clock (pos 20)).remaining_ns
unfolding at position busy_ns
early = omega arith
