-- ===== src/Wire/RoundTrip.antt =====
-- The wire format of core/src/wire/mod.rs: what is written is read back, and nothing else is read.
use commonware_restaking.Prelude.{
  ℕ, ◌≡◌, IsByte, IsU64, List, ◌++◌, length, length-append, append_assoc, arith,
}
use commonware_restaking.Prelude.Result.{ok, first_step}
use commonware_restaking.Codec.{IsLawful}
use commonware_restaking.Wire.{
  TaskDirective, announce, skip, tip_report, height, Format, write, read, read_body, encode_size,
  directive_codec, tag_announce, tag_skip, tag_tip_report,
}

-- A directive that the program can hold: its height is a `u64`, and its task fits its type.
abbrev pub DirectiveFits : {T : Type 0} → (T → Type 0) → TaskDirective T → Type 0
DirectiveFits Fits (announce h t) = IsU64 h × Fits t
DirectiveFits Fits (skip h) = IsU64 h
DirectiveFits Fits (tip_report h) = IsU64 h

abbrev pub tag_of : {T : Type 0} → TaskDirective T → ℕ
tag_of (announce h t) = tag_announce
tag_of (skip h) = tag_skip
tag_of (tip_report h) = tag_tip_report

-- The crate's and the application's codecs meet their contract; a `u8` takes one byte.
pub record FormatIsLawful {E T : Type 0} (Fits : T → Type 0) (f : Format E T) : Type 0 where
  pub u8 : IsLawful IsByte f.u8
  pub u8_size : (b : ℕ) → IsByte b → length (f.u8.write b) ≡ 1
  pub varint : IsLawful IsU64 f.varint
  pub task : IsLawful Fits f.task

module _ {E T : Type 0} (Fits : T → Type 0) (f : Format E T) (l : FormatIsLawful Fits f) where
  -- What `read` makes of a tag and a height that were written.
  read-tag-height :
      (tag h : ℕ) (rest : List ℕ)
      → IsByte tag
      → IsU64 h
      → read f (f.u8.write tag ++ (f.varint.write h ++ rest)) ≡ read_body f tag h rest
  unfolding read
  read-tag-height tag h rest ht hh =
      rw (l.u8.read_write tag (f.varint.write h ++ rest) ht) (rw (l.varint.read_write h rest hh))

  read-write :
      (d : TaskDirective T) (rest : List ℕ)
      → DirectiveFits Fits d
      → read f (write f d ++ rest) ≡ ok (d, rest)
  unfolding write read_body
  read-write (announce h t) rest fits =
      rw (append_assoc, append_assoc)
        (rw (read-tag-height tag_announce h (f.task.write t ++ rest) (omega arith) fits.0)
          (rw (l.task.read_write t rest fits.1)))
  read-write (skip h) rest fits =
      rw append_assoc (read-tag-height tag_skip h rest (omega arith) fits)
  read-write (tip_report h) rest fits =
      rw append_assoc (read-tag-height tag_tip_report h rest (omega arith) fits)

  encode_size-write :
      (d : TaskDirective T) → DirectiveFits Fits d → encode_size f d ≡ length (write f d)
  unfolding write encode_size
  encode_size-write (announce h t) fits = omega (
    arith,
    length-append (f.u8.write tag_announce) (f.varint.write h ++ f.task.write t),
    length-append (f.varint.write h) (f.task.write t),
    l.u8_size tag_announce (omega arith),
    l.varint.size_write h fits.0,
    l.task.size_write t fits.1,
  )
  encode_size-write (skip h) fits = omega (
    arith,
    length-append (f.u8.write tag_skip) (f.varint.write h),
    l.u8_size tag_skip (omega arith),
    l.varint.size_write h fits,
  )
  encode_size-write (tip_report h) fits = omega (
    arith,
    length-append (f.u8.write tag_tip_report) (f.varint.write h),
    l.u8_size tag_tip_report (omega arith),
    l.varint.size_write h fits,
  )

  -- If the codecs of the parts are lawful, a directive that was written is read back whatever bytes
  -- follow it, and its announced size is the number of bytes written.
  pub directive_codec-IsLawful : IsLawful (DirectiveFits Fits) (directive_codec f)
  directive_codec-IsLawful = record { read_write = read-write; size_write = encode_size-write }

-- What a directive that was read stands for: the bytes give its tag, then its height, then the
-- task if it announces one.
abbrev pub Payload : {E T : Type 0} → Format E T → TaskDirective T → List ℕ → List ℕ → Type 0
Payload f (announce h t) buf rest = f.task.read buf ≡ ok (t, rest)
Payload f (skip h) buf rest = buf ≡ rest
Payload f (tip_report h) buf rest = buf ≡ rest

read_body_sound :
    {E T : Type 0} (f : Format E T) (tag h : ℕ) (buf rest : List ℕ) (d : TaskDirective T)
    → read_body f tag h buf ≡ ok (d, rest)
    → (tag ≡ tag_of d) × (h ≡ height d) × Payload f d buf rest
unfolding read_body height
read_body_sound f tag h buf rest (announce i t) e = ground arith
read_body_sound f tag h buf rest (skip i) e = ground arith
read_body_sound f tag h buf rest (tip_report i) e = ground arith

-- `read` accepts only the three known tags, and whatever it returns was spelled by the bytes.
pub read_sound :
    {E T : Type 0} (f : Format E T) (buf rest : List ℕ) (d : TaskDirective T)
    → read f buf ≡ ok (d, rest)
    → (buf1 : List ℕ) × (buf2 : List ℕ) × (f.u8.read buf ≡ ok (tag_of d, buf1))
      × (f.varint.read buf1 ≡ ok (height d, buf2))
      × Payload f d buf2 rest
unfolding read
read_sound f buf rest d e =
    let (a, (ea, ka)) = first_step (f.u8.read buf) _ e in
    let (b, (eb, kb)) = first_step (f.varint.read a.1) _ ka in
    let (et, eh, p) = read_body_sound f a.0 b.0 b.1 rest d kb in
    (a.1, b.1, rw (← et) ea, rw (← eh) eb, p)
