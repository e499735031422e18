-- ===== src/Worker/Scheduler/Looks.antt =====
-- worker/control_channel.cpp: what a worker is asked, of what the controller sent.
use load_forge.Common.{
  ℕ, ◌^◌, ◌<◌, ◌≡◌, refl, sym, ap, ◌∙◌, List, [], ◌∷◌, ◌++◌, append-nil, length, All, true, Option,
  ok, arith,
}
use load_forge.Worker.Channel.{Record}
use load_forge.Worker.Channel.Delivery.{new_source, drains, drains-sent}
use load_forge.Worker.Channel.Drains.{IsPipe}
use load_forge.Worker.Channel.Frame.{IsRecord}
use load_forge.Worker.Channel.Source.{Read}
use load_forge.Worker.Channel.Stream.{frames}
use load_forge.Worker.Control.Codec.{encode, decode_message}
use load_forge.Worker.Control.RoundTrip.{IsCommand, decode_message-encode}
use load_forge.Worker.Control.Types.{ControlMessage, is_valid}
use load_forge.Worker.Scheduler.{StopReason, control_frame_type, then_message, look_at}

-- The record that a message is sent as.
abbrev pub as_record : ControlMessage → Record
as_record message = record { type = control_frame_type; payload = encode message }

abbrev pub as_records : List ControlMessage → List Record
as_records [] = []
as_records (message ∷ messages) = as_record message ∷ as_records messages

-- A message whose fields are in the range of their types, and that keeps the rules of its command.
abbrev pub IsMessage : ControlMessage → Type 0
IsMessage message =
    (message.sequence < 2 ^ 32) × IsCommand message.command × (is_valid message ≡ true)

decoded :
    (message : ControlMessage) → IsMessage message → decode_message (encode message) ≡ ok message
decoded message (in_range, fields, valid) =
    ap decode_message (sym (append-nil (encode message)))
    ∙ decode_message-encode message [] in_range fields valid

look_at-as_record :
    (lost : Option StopReason) (message : ControlMessage) (records : List Record)
    → IsMessage message
    → look_at lost (as_record message ∷ records) ≡ then_message message (look_at lost records)
unfolding look_at
look_at-as_record lost message records is = rw (decoded message is, look_at) refl

-- Of the records of some messages, the messages that a look finds are the first of them, and nothing is lost but what the
-- end of the drain says.
look_at-as_records :
    (lost : Option StopReason) (got due : List Record) (sent : List ControlMessage)
    → All IsMessage sent
    → got ++ due ≡ as_records sent
    → (later : List ControlMessage) × ((look_at lost got).messages ++ later ≡ sent)
      × ((look_at lost got).lost ≡ lost)
look_at-as_records lost [] due sent all e = unfold look_at in (sent, refl, refl)
look_at-as_records lost (first ∷ got) due [] all e = absurd (omega (arith, ap length e))
look_at-as_records lost (first ∷ got) due (message ∷ sent) (is, all) e =
    let head : first ≡ as_record message = cc in
    let tail : got ++ due ≡ as_records sent = cc in
    let (later, found, kept) = look_at-as_records lost got due sent all tail in
    let step : look_at lost (first ∷ got) ≡ then_message message (look_at lost got) =
      ap (λ r. look_at lost (r ∷ got)) head ∙ look_at-as_record lost message got is in
    (
      later,
      ap (λ l. l.messages ++ later) step ∙ ap (◌∷◌ message) found,
      ap (λ l. l.lost) step ∙ kept,
    )

-- However the bytes of the control pipe come and are read, the messages in what any number of drains hand over are the first
-- of those that the controller sent, each of them whole and in order, and the pipe is not found broken by any.
pub look_at-sent :
    {S : Type 0} {read : Read S} (pipe : IsPipe read) (unsent : List ℕ) (n : ℕ)
    (lost : Option StopReason) (sent : List ControlMessage) (s : S)
    → All IsMessage sent
    → All IsRecord (as_records sent)
    → pipe.unread s ++ unsent ≡ frames (as_records sent)
    → (later : List ControlMessage) × ((look_at lost (drains read n new_source s).0).messages
          ++ later
        ≡ sent)
      × ((look_at lost (drains read n new_source s).0).lost ≡ lost)
look_at-sent {read = read} pipe unsent n lost sent s all fit stream =
    let (due, handed) = drains-sent pipe unsent n (as_records sent) s fit stream in
    look_at-as_records lost (drains read n new_source s).0 due sent all handed
