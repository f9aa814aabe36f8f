-- ===== src/Counter/Codecs.antt =====
-- examples/counter/common/src/types.rs: the task's codec is lawful, and so is that of its directives.
use commonware_restaking.Prelude.{ℕ, ◌≡◌, refl, length, IsByte, IsU64}
use commonware_restaking.Codec.{Codec, IsLawful}
use commonware_restaking.Wire.{Format, directive_codec}
use commonware_restaking.Wire.RoundTrip.{DirectiveFits, directive_codec-IsLawful}
use commonware_restaking.Counter.{CounterTaskData, write, read_cfg, encode_size}

-- A round is a `u64`.
abbrev pub RoundFits : CounterTaskData → Type 0
RoundFits task = IsU64 task.round

module _ {E : Type 0} (varint : Codec E ℕ) where
  abbrev pub task_codec : Codec E CounterTaskData
  task_codec = record {
    write = write varint;
    read = read_cfg varint;
    encode_size = encode_size varint;
  }

  pub task_codec-IsLawful : IsLawful IsU64 varint → IsLawful RoundFits task_codec
  unfolding write read_cfg encode_size
  task_codec-IsLawful l = record {
    read_write = λ task rest fits. rw (l.read_write task.round rest fits) refl;
    size_write = λ task fits. l.size_write task.round fits;
  }

-- If the codecs of the crate are lawful, so is that of the directives that carry the counter's tasks.
pub counter_directives-IsLawful :
    {E : Type 0} (f : Format E CounterTaskData)
    → f.task ≡ task_codec f.varint
    → IsLawful IsByte f.u8
    → ((b : ℕ) → IsByte b → length (f.u8.write b) ≡ 1)
    → IsLawful IsU64 f.varint
    → IsLawful (DirectiveFits RoundFits) (directive_codec f)
counter_directives-IsLawful f same u8 u8_size varint =
    directive_codec-IsLawful RoundFits f (record {
      u8 = u8;
      u8_size = u8_size;
      varint = varint;
      task = rw same (task_codec-IsLawful f.varint varint);
    })
