-- ===== src/Worker/Channel/Sends.antt =====
-- worker/ipc/record.cpp: what a send leaves in the pipe.
use load_forge.Common.{
  ℕ, zero, suc, ◌+◌, ◌-◌, ◌≤◌, ◌≡◌, refl, sym, ap, ◌∙◌, List, [], ◌∷◌, ◌++◌, length, take, drop,
  true, false, ltb, Outcome, ok, err, arith, append_assoc, append-nil, length-drop, subst,
  Bool-cases, inl, inr, ltb→le,
}
use load_forge.Worker.Channel.{oversized, encode, put_frame, max_payload_bytes}
use load_forge.Common.{take_all, take-append_add}
use load_forge.Worker.Channel.Stream.{take-drop}
use load_forge.Worker.Channel.Source.{
  SyscallError, interrupted, failed, frame_error, max_consecutive_interrupts, try_again,
  unless_interrupted, Write, Sent, after_write, write_all, send,
}

-- What a write of `bytes` does to a pipe in which `there` was written: it adds the bytes that it says from
-- their front, and none if it fails.
abbrev pub IsWrite :
    {S : Type 0} → (S → List ℕ) → (bytes there : List ℕ) → Outcome ℕ SyscallError × S → Type 0
IsWrite written bytes there (ok count, after) =
    (count ≤ length bytes) × (written after ≡ there ++ take count bytes)
IsWrite written bytes there (err cause, after) = written after ≡ there

-- All the bytes that were written to a pipe.
pub record IsSink {S : Type 0} (write : Write S) : Type 0 where
  pub written : S → List ℕ
  pub writes : (bytes : List ℕ) (s : S) → IsWrite written bytes (written s) (write bytes s)

module _ {S : Type 0} {write : Write S} (sink : IsSink write) where
  again-IsWrite :
      (bytes there : List ℕ) (left : ℕ) (answer : Outcome ℕ SyscallError × S)
      → ((t : S) → IsWrite sink.written bytes (sink.written t) (try_again (write bytes) left t))
      → IsWrite sink.written bytes there answer
      → IsWrite sink.written bytes there (unless_interrupted (try_again (write bytes) left) answer)
  unfolding unless_interrupted
  again-IsWrite bytes there left (ok count, after) later now = now
  again-IsWrite bytes there left (err (failed number), after) later now = now
  again-IsWrite bytes there left (err interrupted, after) later now =
      subst (λ l. IsWrite sink.written bytes l (try_again (write bytes) left after)) now
        (later after)

  pub try_again-IsWrite :
      (bytes : List ℕ) (left : ℕ) (s : S)
      → IsWrite sink.written bytes (sink.written s) (try_again (write bytes) left s)
  unfolding try_again
  try_again-IsWrite bytes zero s = sink.writes bytes s
  try_again-IsWrite bytes (suc left) s =
      again-IsWrite bytes (sink.written s) left (write bytes s) (try_again-IsWrite bytes left)
        (sink.writes bytes s)

  -- All of the bytes after a success, and otherwise the first of them.
  abbrev pub IsSent : (bytes there : List ℕ) → Sent × S → Type 0
  IsSent bytes there (ok done, after) = sink.written after ≡ there ++ bytes
  IsSent bytes there (err cause, after) =
      (count : ℕ) × (sink.written after ≡ there ++ take count bytes)

  later-IsSent :
      (front bytes there : List ℕ) (end : Sent × S)
      → IsSent bytes (there ++ front) end
      → IsSent (front ++ bytes) there end
  later-IsSent front bytes there (ok done, after) e = e ∙ append_assoc there front bytes
  later-IsSent front bytes there (err cause, after) (count, e) = (
    length front + count,
    e
        ∙ append_assoc there front (take count bytes)
        ∙ ap (λ l. there ++ l) (sym (take-append_add front bytes count)),
  )

  pub after_write-IsSent :
      (byte : ℕ) (bytes there : List ℕ) (again : List ℕ → S → Sent × S)
      (answer : Outcome ℕ SyscallError × S)
      → ((rest : List ℕ) (t : S)
          → length rest ≤ length bytes
          → IsSent rest (sink.written t) (again rest t))
      → IsWrite sink.written (byte ∷ bytes) there answer
      → IsSent (byte ∷ bytes) there (after_write again bytes answer)
  unfolding after_write
  after_write-IsSent byte bytes there again (err cause, after) later e =
      (0, e ∙ sym (append-nil there))
  after_write-IsSent byte bytes there again (ok zero, after) later (small, e) = (0, e)
  after_write-IsSent byte bytes there again (ok (suc count), after) later (small, e) =
      let rest : IsSent (drop count bytes) (there ++ byte ∷ take count bytes)
          (again (drop count bytes) after) =
        subst (λ l. IsSent (drop count bytes) l (again (drop count bytes) after)) e
          (later (drop count bytes) after (omega (arith, length-drop count bytes))) in
      subst (λ l. IsSent l there (again (drop count bytes) after))
        (ap (◌∷◌ byte) (take-drop count bytes))
        (later-IsSent (byte ∷ take count bytes) (drop count bytes) there
          (again (drop count bytes) after) rest)

  write_all-IsSent :
      (fuel : ℕ) (bytes : List ℕ) (s : S)
      → length bytes ≤ fuel
      → IsSent bytes (sink.written s) (write_all write fuel bytes s)
  unfolding write_all
  write_all-IsSent fuel [] s enough = sym (append-nil (sink.written s))
  write_all-IsSent zero (byte ∷ bytes) s enough = absurd (omega (arith, enough))
  write_all-IsSent (suc fuel) (byte ∷ bytes) s enough =
      after_write-IsSent byte bytes (sink.written s) (write_all write fuel)
        (try_again (write (byte ∷ bytes)) (max_consecutive_interrupts - 1) s)
        (λ rest t shorter. write_all-IsSent fuel rest t (omega (arith, shorter, enough)))
        (try_again-IsWrite (byte ∷ bytes) (max_consecutive_interrupts - 1) s)

  pub sent_whole :
      (bytes there : List ℕ) (end : Sent × S)
      → IsSent bytes there end
      → end.0 ≡ ok tt
      → sink.written end.1 ≡ there ++ bytes
  sent_whole bytes there (ok done, after) is_sent e = is_sent
  sent_whole bytes there (err cause, after) is_sent e = cc

  pub sent_part :
      (bytes there : List ℕ) (end : Sent × S)
      → IsSent bytes there end
      → (count : ℕ) × (sink.written end.1 ≡ there ++ take count bytes)
  sent_part bytes there (ok done, after) is_sent = (
    length bytes,
    is_sent ∙ ap (λ l. there ++ l) (sym (take_all (length bytes) bytes (omega arith))),
  )
  sent_part bytes there (err cause, after) is_sent = is_sent

  module _ (type : ℕ) (payload : List ℕ) (s : S) where
    send_long :
        ltb max_payload_bytes (length payload) ≡ true
        → send write type payload s ≡ (err (frame_error oversized), s)
    unfolding send encode
    send_long long = rw (long, send) refl

    send_fits :
        ltb max_payload_bytes (length payload) ≡ false
        → send write type payload s
          ≡ write_all write (length (put_frame type payload)) (put_frame type payload) s
    unfolding send encode
    send_fits small = rw (small, send) refl

    frame_sent :
        IsSent
          (put_frame type payload)
          (sink.written s)
          (write_all write (length (put_frame type payload)) (put_frame type payload) s)
    frame_sent =
        write_all-IsSent (length (put_frame type payload)) (put_frame type payload) s (omega arith)

    -- A send that succeeds was of a payload of an allowed size and has added its whole frame to what was
    -- written.
    pub send-put_frame :
        (send write type payload s).0 ≡ ok tt
        → (length payload ≤ max_payload_bytes)
          × (sink.written (send write type payload s).1 ≡ sink.written s ++ put_frame type payload)
    send-put_frame e = elim (Bool-cases (ltb max_payload_bytes (length payload))) [
      | inl long ↦
          let refused : (send write type payload s).0 ≡ err (frame_error oversized) =
            ap (λ r. r.0) (send_long long) in
          cc
      | inr small ↦ (
        ltb→le 65536 (length payload) small,
        ap (λ r. sink.written r.1) (send_fits small)
            ∙ sent_whole (put_frame type payload) (sink.written s) _ frame_sent
                (sym (ap (λ r. r.0) (send_fits small)) ∙ e),
      )
    ]

    -- Whatever a send answers, it has added the first bytes of its frame and nothing else to what was
    -- written.
    pub send-take :
        (count : ℕ) × (sink.written (send write type payload s).1
          ≡ sink.written s ++ take count (put_frame type payload))
    send-take = elim (Bool-cases (ltb max_payload_bytes (length payload))) [
      | inl long ↦
          (0, ap (λ r. sink.written r.1) (send_long long) ∙ sym (append-nil (sink.written s)))
      | inr small ↦
          let (count, e) = sent_part (put_frame type payload) (sink.written s) _ frame_sent in
          (count, ap (λ r. sink.written r.1) (send_fits small) ∙ e)
    ]
