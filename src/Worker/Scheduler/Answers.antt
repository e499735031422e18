-- ===== src/Worker/Scheduler/Answers.antt =====
-- worker/control_channel.cpp and worker/scheduler.cpp: the answers of the null workload to what it is asked.
use load_forge.Common.{
  ℕ, ◌≡◌, refl, sym, ap, ◌∙◌, subst, List, [], ◌∷◌, ◌++◌, append_assoc, append-nil, take, Bool,
  true, false, ◌==◌, if◌then◌else◌, Option, none, some, inl, inr, ◌⊎◌, ok, err,
}
use load_forge.Common.Texts.{codes}
use load_forge.Worker.Channel.{put_frame}
use load_forge.Worker.Channel.Sends.{IsSink, send-put_frame}
use load_forge.Worker.Channel.Source.{
  call_error, frame_error, nothing_written, interrupted, failed, Sent, Write, send,
}
use load_forge.Worker.Control.Codec.{encode_ack}
use load_forge.Worker.Control.Types.{
  Command, stop, pause, resume, set_duty, rebind, switch, ControlMessage, ControlAck,
  max_text_bytes,
}
use load_forge.Worker.Scheduler.{StopReason, controller_hung_up, stop_requested}

pub data Delivery : Type 0 where
  delivered controller_gone not_sent : Delivery

abbrev epipe : ℕ
epipe = 32

unfoldable pub delivery_of : Sent → Delivery
delivery_of (ok _) = delivered
delivery_of (err (call_error (failed number))) =
    if number == epipe then controller_gone else not_sent
delivery_of (err (call_error interrupted)) = not_sent
delivery_of (err (frame_error fault)) = not_sent
delivery_of (err nothing_written) = not_sent

abbrev pub ack_frame_type : ℕ
ack_frame_type = 33

unfoldable pub command_name : Command → List ℕ
command_name stop = codes "stop"
command_name pause = codes "pause"
command_name resume = codes "resume"
command_name (set_duty busy_permille period_ns) = codes "set duty"
command_name (rebind cpus) = codes "rebind"
command_name (switch workload seed footprint_bytes decomposition duty) = codes "switch"

unfoldable pub nothing_to : Command → List ℕ
nothing_to command = codes "the null workload runs no slices: " ++ command_name command

unfoldable pub is_stop : Command → Bool
is_stop stop = true
is_stop pause = false
is_stop resume = false
is_stop (set_duty busy_permille period_ns) = false
is_stop (rebind cpus) = false
is_stop (switch workload seed footprint_bytes decomposition duty) = false

-- The acknowledgement of a message: status 0 is done, and 1 refused.
unfoldable pub ack_of : ControlMessage → ControlAck
ack_of message =
    if is_stop message.command
    then record { sequence = message.sequence; status = 0; detail = [] }
    else record {
      sequence = message.sequence;
      status = 1;
      detail = take max_text_bytes (nothing_to message.command);
    }

-- The frame that an answer is sent as.
abbrev pub ack_frame : ControlMessage → List ℕ
ack_frame message = put_frame ack_frame_type (encode_ack (ack_of message))

-- A result that is none is the failure of a send that does not say that the controller is gone.
abbrev pub Left : Type 0 → Type 0
Left S = Option (Option StopReason) × S

unfoldable pub after_delivery : {S : Type 0} → (stops : Bool) → (S → Left S) → S → Delivery → Left S
after_delivery stops rest after not_sent = (none, after)
after_delivery stops rest after controller_gone = (some (some controller_hung_up), after)
after_delivery true rest after delivered = (some (some stop_requested), after)
after_delivery false rest after delivered = rest after

unfoldable pub after_answer : {S : Type 0} → (stops : Bool) → (S → Left S) → Sent × S → Left S
after_answer stops rest (sent, after) = after_delivery stops rest after (delivery_of sent)

module _ {S : Type 0} (write : Write S) where
  unfoldable pub answer_all : List ControlMessage → S → Left S
  answer_all [] s = (some none, s)
  answer_all (message ∷ messages) s =
      after_answer (is_stop message.command) (answer_all messages)
        (send write ack_frame_type (encode_ack (ack_of message)) s)

-- What the messages ask of the loop, and the frames that answer those up to the first stop.
abbrev pub asked : List ControlMessage → Option StopReason
asked [] = none
asked (message ∷ messages) = if is_stop message.command then some stop_requested else asked messages

abbrev pub answers : List ControlMessage → List ℕ
answers [] = []
answers (message ∷ messages) =
    ack_frame message ++ (if is_stop message.command then [] else answers messages)

module _ {S : Type 0} {write : Write S} (sink : IsSink write) where
  -- The loop goes on or leaves with that reason and those bytes are written, unless a send failed.
  abbrev Says : Option StopReason → List ℕ → Left S → Type 0
  Says reason bytes (none, after) = Unit {0}
  Says reason bytes (some leaving, after) =
      (leaving ≡ some controller_hung_up) ⊎ ((leaving ≡ reason) × (sink.written after ≡ bytes))

  delivered-Says :
      (stops : Bool) (message : ControlMessage) (messages : List ControlMessage) (there : List ℕ)
      (after : S) (rest : S → Left S)
      → sink.written after ≡ there ++ ack_frame message
      → Says (asked messages) (sink.written after ++ answers messages) (rest after)
      → Says
          (if stops then some stop_requested else asked messages)
          (there ++ (ack_frame message ++ (if stops then [] else answers messages)))
          (after_answer stops rest (ok tt, after))
  unfolding after_answer after_delivery delivery_of
  delivered-Says true message messages there after rest wrote on =
      inr (refl, wrote ∙ ap (λ l. there ++ l) (sym (append-nil (ack_frame message))))
  delivered-Says false message messages there after rest wrote on =
      subst (λ bytes. Says (asked messages) bytes (rest after))
        (ap (λ l. l ++ answers messages) wrote
          ∙ append_assoc there (ack_frame message) (answers messages))
        on

  lost-Says :
      (gone stops : Bool) (reason : Option StopReason) (bytes : List ℕ) (after : S)
      (rest : S → Left S)
      → Says reason bytes
          (after_delivery stops rest after (if gone then controller_gone else not_sent))
  unfolding after_delivery
  lost-Says true stops reason bytes after rest = inl refl
  lost-Says false stops reason bytes after rest = tt

  after_answer-Says :
      (stops : Bool) (message : ControlMessage) (messages : List ControlMessage) (there : List ℕ)
      (sent : Sent × S) (rest : S → Left S)
      → (sent.0 ≡ ok tt → sink.written sent.1 ≡ there ++ ack_frame message)
      → ((t : S) → Says (asked messages) (sink.written t ++ answers messages) (rest t))
      → Says
          (if stops then some stop_requested else asked messages)
          (there ++ (ack_frame message ++ (if stops then [] else answers messages)))
          (after_answer stops rest sent)
  unfolding delivery_of after_answer after_delivery
  after_answer-Says stops message messages there (ok done, after) rest wrote on =
      delivered-Says stops message messages there after rest (wrote refl) (on after)
  after_answer-Says stops message messages there (err (call_error interrupted), after) rest wrote
        on =
      tt
  after_answer-Says stops message messages there (err (frame_error fault), after) rest wrote on = tt
  after_answer-Says stops message messages there (err nothing_written, after) rest wrote on = tt
  after_answer-Says stops message messages there (err (call_error (failed number)), after) rest
        wrote on =
      lost-Says (number == epipe) stops _ _ after rest

  answer_all-Says :
      (messages : List ControlMessage) (s : S)
      → Says (asked messages) (sink.written s ++ answers messages) (answer_all write messages s)
  unfolding answer_all
  answer_all-Says [] s = inr (refl, sym (append-nil (sink.written s)))
  answer_all-Says (message ∷ messages) s =
      after_answer-Says (is_stop message.command) message messages (sink.written s)
        (send write ack_frame_type (encode_ack (ack_of message)) s) (answer_all write messages)
        (λ e. (send-put_frame sink ack_frame_type (encode_ack (ack_of message)) s e).1)
        (λ t. answer_all-Says messages t)
