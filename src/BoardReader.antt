-- ===== src/BoardReader.antt =====
-- artdaq/Application/MPI2/BoardReaderCore.hh and BoardReaderCore.cc: the core of the board reader,
-- which sends what its generator yields. Log messages, metrics, statistics and the priority of the
-- thread are left out. `D` is the state of the generator's class, whose virtual functions are
-- arguments; a generator that the plug-in factory makes is a parameter too.
pub mod Configure
pub mod Sending
pub mod App
use Prim.Native.String.{String}
use text.Mathlib.Text.{◌==◌ as str_eq}
use fnal_artdaq.Base.{
  ℕ, zero, suc, ◌+◌, ◌-◌, ◌%◌, List, [], ◌∷◌, ◌++◌, Bool, true, false, not, Option, none, some,
  Outcome, ok, fault, null_pointer, out_of_fuel, or_fault, require, ◌>>=◌, ◌>>◌, if◌then◌else◌, ltb,
  length,
}
use fnal_artdaq.ArtdaqCore.{ArtdaqCore}
use fnal_artdaq.FragCounter.{size_t_mod}
use fnal_artdaq.Generator.{
  ℤ, pos, negsuc, Generator, Virtuals, get_next, start_cmd, stop_cmd, pause_cmd, resume_cmd,
}
use fnal_artdaq.SHandles.{SHandles, send_fragment, close}
use fnal_artdaq.SHandles

-- A pointer is `none` where it is null. `sender` exists while `process_fragments` runs.
pub record BoardReaderCore (D F : Type 0) : Type 0 where
  pub generator : Option (Generator D)
  pub run_id : ℕ
  pub max_fragment_size_words : ℕ
  pub mpi_buffer_count : ℕ
  pub first_evb_rank : ℕ
  pub evb_count : ℕ
  pub rt_priority : ℤ
  pub skip_seq_id_test : Bool
  pub synchronous_sends : Bool
  pub sender : Option (SHandles F)
  pub fragment_count : ℕ
  pub prev_seq_id : ℕ
  pub stop_requested : Bool
  pub pause_requested : Bool

-- The constructor; the members that it does not initialize have any values.
unfoldable pub new : {D F : Type 0} → BoardReaderCore D F → BoardReaderCore D F
new uninitialized = record uninitialized {
  generator = none;
  sender = none;
  stop_requested = false;
  pause_requested = false;
}

-- The conversion of `uint32_t` to `int`.
unfoldable pub to_int : ℕ → ℤ
to_int run = if ltb run 0x8000_0000 then pos run else negsuc (0xffff_ffff - run)

module _ {D F : Type 0} (v : Virtuals D F) where
  unfoldable pub start : ℕ → ℕ → ℕ → BoardReaderCore D F → Outcome (BoardReaderCore D F × Bool)
  unfolding to_int
  start run timeout timestamp b = do
    g ← or_fault b.generator null_pointer
    h ← start_cmd v (to_int run) timeout timestamp g
    ok (
      record b {
        stop_requested = false;
        pause_requested = false;
        fragment_count = 0;
        prev_seq_id = 0;
        generator = some h;
        run_id = run;
      },
      true,
    )

  unfoldable pub stop : ℕ → ℕ → BoardReaderCore D F → Outcome (BoardReaderCore D F × Bool)
  stop timeout timestamp b = do
    g ← or_fault b.generator null_pointer
    h ← stop_cmd v timeout timestamp g
    ok (record b { stop_requested = true; generator = some h }, true)

  unfoldable pub pause : ℕ → ℕ → BoardReaderCore D F → Outcome (BoardReaderCore D F × Bool)
  pause timeout timestamp b = do
    g ← or_fault b.generator null_pointer
    h ← pause_cmd v timeout timestamp g
    ok (record b { pause_requested = true; generator = some h }, true)

  unfoldable pub resume : ℕ → ℕ → BoardReaderCore D F → Outcome (BoardReaderCore D F × Bool)
  resume timeout timestamp b = do
    g ← or_fault b.generator null_pointer
    h ← resume_cmd v timeout timestamp g
    ok (record b { pause_requested = false; generator = some h }, true)

unfoldable pub shutdown :
    {D F : Type 0} → BoardReaderCore D F → Outcome (BoardReaderCore D F × Bool)
shutdown b = ok (record b { generator = none }, true)

unfoldable pub soft_initialize :
    {P D F : Type 0} → P → BoardReaderCore D F → Outcome (BoardReaderCore D F × Bool)
soft_initialize pset b = ok (b, true)

unfoldable pub reinitialize :
    {P D F : Type 0} → P → BoardReaderCore D F → Outcome (BoardReaderCore D F × Bool)
reinitialize pset b = ok (b, true)

-- `process_fragments` up to the loop.
unfoldable pub begin : {D F : Type 0} → BoardReaderCore D F → BoardReaderCore D F
begin b = record b {
  sender = some (
      SHandles.new b.mpi_buffer_count b.max_fragment_size_words b.evb_count b.first_evb_rank false
        b.synchronous_sends);
}

module _ {D F E : Type 0} (core : ArtdaqCore F E) (tests : ℕ → Bool) (rounds : ℕ) where
  -- `for (auto & fragPtr : frags)`
  unfoldable pub send_frags : List F → BoardReaderCore D F → Outcome (BoardReaderCore D F)
  send_frags [] b = ok b
  send_frags (f ∷ more) b = do
    s ← or_fault b.sender null_pointer
    (dest, t) ← send_fragment core tests rounds f s
    send_frags more (record b {
      prev_seq_id = core.sequence_id f;
      sender = some t;
      fragment_count = (b.fragment_count + 1) % size_t_mod;
    })

  module _ (v : Virtuals D F) where
    -- At most so many turns of the loop, while `active`.
    unfoldable pub run : ℕ → Bool → BoardReaderCore D F → Outcome (Bool × BoardReaderCore D F)
    unfolding send_frags
    run zero active b = ok (active, b)
    run (suc turns) false b = ok (false, b)
    run (suc turns) true b = do
      g ← or_fault b.generator null_pointer
      let (active, frags, h) = get_next v [] g
      elim active [
        | false ↦ ok (false, record b { generator = some h })
        | true ↦ send_frags frags (record b { generator = some h }) >>= run turns true
      ]

  -- After the loop: the destructor of the sender sends the end-of-data fragments. The messages that
  -- the sender has sent are noted.
  unfoldable pub end : BoardReaderCore D F → Outcome (BoardReaderCore D F × List (ℕ × F))
  end b = do
    s ← or_fault b.sender null_pointer
    t ← close core tests rounds s
    ok (record b { sender = none }, t.sent)

  -- The loop ends within `turns` turns, or it still runs.
  unfoldable pub process_fragments :
      Virtuals D F → ℕ → BoardReaderCore D F → Outcome (BoardReaderCore D F × List (ℕ × F))
  unfolding begin run end
  process_fragments v turns b = do
    (active, t) ← run v turns true (begin b)
    require (not active) out_of_fuel >> end t
