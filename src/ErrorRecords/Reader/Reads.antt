-- ===== src/ErrorRecords/Reader/Reads.antt =====
-- A reader that reads a value from the bytes that were written for it and leaves what follows, and that
-- finds them truncated if some are missing at the end.
use load_forge.Common.{
  ℕ, ◌+◌, ◌-◌, ◌%◌, ◌^◌, ◌≤◌, ◌<◌, ◌≡◌, refl, sym, ap, subst, ◌∙◌, List, [], ◌++◌, length, take,
  drop, ltb, ◌==◌, if◌then◌else◌, Option, none, some, ok, err, arith, append_assoc, append-nil,
  take-append, drop-append, le→ltb, lt→ltb, ltb→lt, ltb→le, length-take, take-append_le,
  take-append_add, Bool-cases, inl, inr, length-append,
}
use load_forge.Common.Bits.{put, get-put, length-put_from}
use native.Mathlib.Nat.{mod-eq_of_lt}
use load_forge.ErrorRecords.Writer.{put_raw, put_optional}
use load_forge.ErrorRecords.Reader.{
  DecodeFault, truncated, Read, ◌>>=◌, pure, refuse, bytes_of, unsigned_le, u8, u32, raw, presence,
  when, optional, invalid,
}

pub record Reads {A : Type 0} (read : Read A) (bytes : List ℕ) (a : A) : Type 0 where
  pub reads : (rest : List ℕ) → read (bytes ++ rest) ≡ ok (a, rest)
  pub cut : (n : ℕ) → n < length bytes → read (take n bytes) ≡ err truncated

module _ {A B : Type 0} (m : Read A) (f : A → Read B) where
  bind_ok :
      (bytes : List ℕ) {a : A} {rest : List ℕ} → m bytes ≡ ok (a, rest) → (m >>= f) bytes ≡ f a rest
  unfolding ◌>>=◌
  bind_ok bytes e = rw (e, ◌>>=◌)

  bind_err :
      (bytes : List ℕ) {fault : DecodeFault} → m bytes ≡ err fault → (m >>= f) bytes ≡ err fault
  unfolding ◌>>=◌
  bind_err bytes e = rw (e, ◌>>=◌)

  -- A cut of both parts is a cut of the first, or the first and a cut of the second.
  bind_cut :
      (first second : List ℕ) {a : A} {b : B}
      → Reads m first a
      → Reads (f a) second b
      → (n : ℕ) → n < length (first ++ second)
      → (m >>= f) (take n (first ++ second)) ≡ err truncated
  bind_cut first second m_reads f_reads n short = elim (Bool-cases (ltb n (length first))) [
    | inl inside ↦
        let early : n < length first = ltb→lt n (length first) inside in
        ap (m >>= f) (take-append_le n first second (omega arith))
        ∙ bind_err (take n first) (m_reads.cut n early)
    | inr past ↦
        let later : n ≡ length first + (n - length first) =
          omega (arith, ltb→le n (length first) past) in
        ap (λ (k : ℕ). (m >>= f) (take k (first ++ second))) later
        ∙ ap (m >>= f) (take-append_add first second (n - length first))
        ∙ bind_ok (first ++ take (n - length first) second)
            (m_reads.reads (take (n - length first) second))
        ∙ f_reads.cut (n - length first) (omega (arith, length-append first second, later))
  ]

module _ {A B : Type 0} where
  pub bind-Reads :
      {m : Read A} (f : A → Read B) {first second : List ℕ} {a : A} {b : B}
      → Reads m first a
      → Reads (f a) second b
      → Reads (m >>= f) (first ++ second) b
  bind-Reads {m} f {first} {second} m_reads f_reads = record {
    reads = λ rest.
        ap (m >>= f) (append_assoc first second rest)
        ∙ bind_ok m f (first ++ (second ++ rest)) (m_reads.reads (second ++ rest))
        ∙ f_reads.reads rest;
    cut = bind_cut m f first second m_reads f_reads;
  }

  pub last-Reads :
      {m : Read A} (g : A → B) {bytes : List ℕ} {a : A}
      → Reads m bytes a
      → Reads (m >>= (λ x. pure (g x))) bytes (g a)
  unfolding pure
  last-Reads {m} g {bytes} m_reads = record {
    reads = λ rest. bind_ok m (λ x. pure (g x)) (bytes ++ rest) (m_reads.reads rest);
    cut = λ n short. bind_err m (λ x. pure (g x)) (take n bytes) (m_reads.cut n short);
  }

unsigned_le-put :
    (width v : ℕ) (rest : List ℕ)
    → v < 256 ^ width
    → unsigned_le width (put width v ++ rest) ≡ ok (v, rest)
unfolding unsigned_le
unsigned_le-put width v rest fits = rw (
  le→ltb (length (put width v ++ rest)) width
      (omega (arith, length-append (put width v) rest, length-put_from 0 width v)),
  get-put width v rest fits,
  drop_put,
)
  where
    drop_put : drop width (put width v ++ rest) ≡ rest
    drop_put =
        ap (λ (n : ℕ). drop n (put width v ++ rest)) (sym (length-put_from 0 width v))
        ∙ drop-append (put width v) rest

pub unsigned_le-Reads : (width v : ℕ) → v < 256 ^ width → Reads (unsigned_le width) (put width v) v
unfolding unsigned_le
unsigned_le-Reads width v fits = record {
  reads = λ rest. unsigned_le-put width v rest fits;
  cut = λ n short. rw (
      lt→ltb (length (take n (put width v))) width
        (omega (arith, length-take n (put width v), length-put_from 0 width v)));
}

pub u8-Reads : (v : ℕ) → v < 256 → Reads u8 (put 1 v) v
unfolding u8
u8-Reads v fits =
    subst (Reads u8 (put 1 v)) (mod-eq_of_lt fits)
      (last-Reads (λ wide. wide % 2 ^ 8) (unsigned_le-Reads 1 v fits))

pub u32-Reads : (v : ℕ) → v < 2 ^ 32 → Reads u32 (put 4 v) v
unfolding u32
u32-Reads v fits =
    subst (Reads u32 (put 4 v)) (mod-eq_of_lt fits)
      (last-Reads (λ wide. wide % 2 ^ 32) (unsigned_le-Reads 4 v fits))

pub u64-Reads : (v : ℕ) → v < 2 ^ 64 → Reads (unsigned_le 8) (put 8 v) v
u64-Reads v fits = unsigned_le-Reads 8 v fits

bytes_of-Reads : (bytes : List ℕ) → Reads (bytes_of (length bytes)) bytes bytes
unfolding bytes_of
bytes_of-Reads bytes = record {
  reads = λ rest. rw (
    le→ltb (length (bytes ++ rest)) (length bytes) (omega (arith, length-append bytes rest)),
    take-append bytes rest,
    drop-append bytes rest,
  );
  cut = λ n short.
      rw (lt→ltb (length (take n bytes)) (length bytes) (omega (arith, length-take n bytes)));
}

pub raw-Reads :
    (limit : ℕ) (bytes : List ℕ)
    → length bytes ≤ limit
    → limit < 2 ^ 64
    → Reads (raw limit) (put_raw bytes) bytes
unfolding raw put_raw
raw-Reads limit bytes small fits =
    bind-Reads (λ size. if ltb limit size then refuse invalid else bytes_of size)
      (u64-Reads (length bytes) (omega arith))
      (rw (le→ltb limit (length bytes) small) (bytes_of-Reads bytes))

pure-Reads : {A : Type 0} (a : A) → Reads (pure a) [] a
unfolding pure
pure-Reads a = record { reads = λ rest. refl; cut = λ n short. absurd (omega arith) }

-- A reader that ends with a value it read nothing for.
ends-Reads :
    {A B : Type 0} {m : Read A} (f : A → Read B) {bytes : List ℕ} {a : A} {b : B}
    → Reads m bytes a
    → f a ≡ pure b
    → Reads (m >>= f) bytes b
ends-Reads {m} f {bytes} {b} m_reads last =
    subst (λ (all : List ℕ). Reads (m >>= f) all b) (append-nil bytes)
      (bind-Reads f m_reads (rw last (pure-Reads b)))

presence-Reads : (flag : ℕ) → flag ≤ 1 → Reads presence (put 1 flag) (flag == 1)
unfolding presence
presence-Reads flag small =
    ends-Reads (λ flag. if ltb 1 flag then refuse invalid else pure (flag == 1))
      (u8-Reads flag (omega arith)) (rw (le→ltb 1 flag small))

-- The predicate of the value of an optional that has one.
abbrev pub InOption : {A : Type 0} → (A → Type 0) → Option A → Type 0
InOption P none = Unit {0}
InOption P (some value) = P value

pub optional-Reads :
    {A : Type 0} (field : Read A) (put_value : A → List ℕ) (P : A → Type 0)
    → ((value : A) → P value → Reads field (put_value value) value)
    → (value : Option A) → InOption P value
    → Reads (optional field) (put_optional put_value value) value
unfolding optional put_optional when
optional-Reads field put_value P field_reads none fits =
    ends-Reads (when field) (presence-Reads 0 (omega arith)) refl
optional-Reads field put_value P field_reads (some value) fits =
    bind-Reads (when field) (presence-Reads 1 (omega arith))
      (last-Reads some (field_reads value fits))

pub u8-optional :
    (v : Option ℕ) → InOption (λ v. v < 2 ^ 8) v → Reads (optional u8) (put_optional (put 1) v) v
u8-optional = optional-Reads u8 (put 1) (λ v. v < 2 ^ 8) u8-Reads

pub u32-optional :
    (v : Option ℕ) → InOption (λ v. v < 2 ^ 32) v → Reads (optional u32) (put_optional (put 4) v) v
u32-optional = optional-Reads u32 (put 4) (λ v. v < 2 ^ 32) u32-Reads

pub u64-optional :
    (v : Option ℕ)
    → InOption (λ v. v < 2 ^ 64) v
    → Reads (optional (unsigned_le 8)) (put_optional (put 8) v) v
u64-optional = optional-Reads (unsigned_le 8) (put 8) (λ v. v < 2 ^ 64) u64-Reads
