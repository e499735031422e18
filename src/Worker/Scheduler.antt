-- ===== src/Worker/Scheduler.antt =====
-- worker/scheduler.cpp and worker/control_channel.cpp: what a worker's loop asks each tick. Is the controller
-- still there, and what does it want? Times are of a clock that does not go back.
pub mod Watching
pub mod Looks
pub mod Answers
use load_forge.Common.{
  ℕ, ◌+◌, ◌-◌, ◌^◌, ◌/◌, min, max, List, [], ◌∷◌, length, take, Bool, true, false, ◌&&◌, ◌||◌, not,
  ltb, ◌==◌, if◌then◌else◌, Option, none, some, Outcome, ok, err,
}
use load_forge.Common.Int.{ℤ, pos, negsuc}
use load_forge.Worker.Channel.{Record, FrameFault, truncated}
use load_forge.Worker.Channel.Source.{Drained, ChannelError}
use load_forge.Worker.Control.Codec.{decode_message}
use load_forge.Worker.Control.Types.{ControlMessage}
use load_forge.Worker.Heartbeat.{
  Heartbeat, RegionFault, Liveness, never_beat, is_fresh, is_stale, liveness,
}

pub data StopReason : Type 0 where
  duration_elapsed stop_requested controller_hung_up controller_stale controller_unreadable :
      StopReason
  control_channel_broken runner_stopped : StopReason

unfoldable pub controller_lost : StopReason → Bool
controller_lost controller_hung_up = true
controller_lost controller_stale = true
controller_lost controller_unreadable = true
controller_lost control_channel_broken = true
controller_lost duration_elapsed = false
controller_lost stop_requested = false
controller_lost runner_stopped = false

unfoldable pub interval_milliseconds : ℤ → ℕ
interval_milliseconds (pos interval_ns) = min (max (interval_ns / 1000000) 1) (2 ^ 31 - 1)
interval_milliseconds (negsuc n) = 1

-- The class ControllerWatch, of a session whose beats go stale after `stale_after_ns`.
pub record ControllerWatch : Type 0 where
  pub stale_after_ns : ℕ
  pub last_read_ns : ℕ

unfoldable pub is_gone : Liveness → (elapsed_ns stale_after_ns : ℕ) → Option StopReason
is_gone is_stale elapsed_ns stale_after_ns = some controller_stale
is_gone is_fresh elapsed_ns stale_after_ns = none
is_gone never_beat elapsed_ns stale_after_ns =
    if ltb stale_after_ns elapsed_ns then some controller_stale else none

-- `gone`, of what the controller's slot was observed to hold.
unfoldable pub gone :
    Outcome (Option Heartbeat) RegionFault
    → (running_ns elapsed_ns : ℕ) → ControllerWatch
    → Option StopReason × ControllerWatch
gone (err fault) running_ns elapsed_ns watch = (
  if ltb (watch.last_read_ns + watch.stale_after_ns) running_ns
      then some controller_unreadable
      else none,
  watch,
)
gone (ok observed) running_ns elapsed_ns watch = (
  is_gone (liveness observed running_ns watch.stale_after_ns) elapsed_ns watch.stale_after_ns,
  record watch { last_read_ns = running_ns },
)

abbrev pub control_frame_type : ℕ
control_frame_type = 32

pub record ControlLook : Type 0 where
  pub messages : List ControlMessage
  pub lost : Option StopReason

-- platform::Readiness.
pub record Readiness : Type 0 where
  pub readable : Bool
  pub hung_up : Bool
  pub error : Bool
  pub invalid : Bool

abbrev pub broken : ControlLook
broken = record { messages = []; lost = some control_channel_broken }

abbrev pub then_message : ControlMessage → ControlLook → ControlLook
then_message message look = record look { messages = message ∷ look.messages }

-- What the end of a drain says of the controller.
unfoldable pub lost_after : (fault : Option FrameFault) → (end_of_stream : Bool) → Option StopReason
lost_after (some truncated) end_of_stream = some controller_hung_up
lost_after (some fault) end_of_stream = some control_channel_broken
lost_after none true = some controller_hung_up
lost_after none false = none

-- The loop over the records that were drained.
unfoldable pub look_at : (lost : Option StopReason) → List Record → ControlLook
look_at lost [] = record { messages = []; lost = lost }
look_at lost (each ∷ records) =
    let rest = look_at lost records in
    if not (each.type == control_frame_type) then broken else elim (decode_message each.payload) [
      | err fault ↦ broken
      | ok message ↦ then_message message rest
    ]

unfoldable pub look_drained : Outcome Drained ChannelError → Outcome ControlLook ChannelError
look_drained (err cause) = err cause
look_drained (ok drained) =
    ok (look_at (lost_after drained.fault drained.end_of_stream) drained.records)

-- `look`, with what the poll of the pipe and the drain of it answered.
unfoldable pub look : Readiness → Outcome Drained ChannelError → Outcome ControlLook ChannelError
look control drained =
    if control.readable
    then look_drained drained
    else ok (record {
      messages = [];
      lost =
          if control.hung_up || control.error || control.invalid
          then some controller_hung_up
          else none;
    })
