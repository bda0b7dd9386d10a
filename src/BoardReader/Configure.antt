-- ===== src/BoardReader/Configure.antt =====
-- artdaq/Application/MPI2/BoardReaderCore.cc, `initialize`. The parameters of the metrics and the
-- statistics are left out. `make` is `makeCommandableFragmentGenerator`, `none` where it throws.
use Prim.Native.String.{String}
use text.Mathlib.Text.{◌==◌ as str_eq}
use fnal_artdaq.Base.{Bool, true, false, Option, none, some, Outcome, if◌then◌else◌, ltb, length}
use fnal_artdaq.Generator.{pos, Generator}
use fnal_artdaq.Parameters.{
  ParameterSets, Reading, ◌>>=◌, demand, optional, assign, give, answer, returned, going,
}
use fnal_artdaq.BoardReader.{BoardReaderCore}

-- `try { … } catch (…) { return false; }` around a call.
abbrev attempt : {S A : Type 0} → Option A → Reading S A
attempt none = λ s. returned s
attempt (some a) = λ s. going a s

-- `return false` unless a test holds.
abbrev insist : {S : Type 0} → Bool → Reading S (Unit {0})
insist fine = λ s. if fine then going tt s else returned s

-- `skip_seqId_test_ = (generator_ptr_->fragmentIDs().size() > 1)`
unfoldable pub skips_test : {D : Type 0} → Generator D → Bool
skips_test g = ltb 1 (length g.fragment_ids)

module _ {P D F : Type 0} (sets : ParameterSets P) (make : String → P → Option (Generator D)) where
  open sets use {get_pset, get_size, get_bool, get_string, get_int}

  unfoldable pub make_generator : P → Reading (BoardReaderCore D F) (Generator D)
  make_generator reader = do
    name ← optional "" (get_string "generator" reader)
    _ ← insist (if str_eq name "" then false else true)
    g ← attempt (make name reader)
    _ ← assign (λ b. record b { generator = some g })
    give g

  unfoldable pub read_sending : P → P → Reading (BoardReaderCore D F) (Unit {0})
  read_sending daq reader = do
    words ← demand (get_size "max_fragment_size_words" daq)
    _ ← assign (λ b. record b { max_fragment_size_words = words })
    buffers ← demand (get_size "mpi_buffer_count" reader)
    _ ← assign (λ b. record b { mpi_buffer_count = buffers })
    first ← demand (get_size "first_event_builder_rank" reader)
    _ ← assign (λ b. record b { first_evb_rank = first })
    builders ← demand (get_size "event_builder_count" reader)
    _ ← assign (λ b. record b { evb_count = builders })
    priority ← optional (pos 0) (get_int "rt_priority" reader)
    _ ← assign (λ b. record b { rt_priority = priority })
    synchronous ← optional true (get_bool "synchronous_sends" reader)
    assign (λ b. record b { synchronous_sends = synchronous })

  unfoldable pub reading : P → Reading (BoardReaderCore D F) (Unit {0})
  unfolding make_generator read_sending skips_test
  reading pset = do
    daq ← demand (get_pset "daq" pset)
    reader ← demand (get_pset "fragment_receiver" daq)
    g ← make_generator reader
    _ ← read_sending daq reader
    assign (λ b. record b { skip_seq_id_test = skips_test g })

  unfoldable pub initialize : P → BoardReaderCore D F → Outcome (BoardReaderCore D F × Bool)
  unfolding reading
  initialize pset b = answer (reading pset b)
