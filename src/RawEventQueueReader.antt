-- ===== src/RawEventQueueReader.antt =====
-- artdaq/ArtModules/detail/RawEventQueueReader.hh and RawEventQueueReader.cc: how the events of the
-- queue reach art. The principals of art stand for their IDs; `none` in an ID is its flush value.
-- `deq n` is what the n-th deqTimedWait gives: `none` where it times out, `some none` for a null
-- pointer.
pub mod Belonging
pub mod Reading
pub mod Products
pub mod Placing
use fnal_artdaq.Base.{
  ℕ, zero, suc, ◌+◌, List, [], ◌∷◌, Bool, true, false, not, ◌&&◌, Option, none, some, Outcome, ok,
  fault, null_pointer, out_of_fuel, ◌>>=◌, if◌then◌else◌, ◌==◌,
}
use fnal_artdaq.ArtdaqCore.{ArtdaqCore}

pub record SubRunId : Type 0 where
  pub run : Option ℕ
  pub sub_run : Option ℕ

pub record EventId : Type 0 where
  pub in_sub_run : SubRunId
  pub event : Option ℕ

pub record RawEventQueueReader : Type 0 where
  pub resume_after_timeout : Bool
  pub shutdown_msg_received : Bool
  pub output_file_close_needed : Bool

-- What a call leaves in `outR`, `outSR` and `outE`.
pub record Principals : Type 0 where
  pub out_r : Option (Option ℕ)
  pub out_sr : Option SubRunId
  pub out_e : Option EventId

abbrev pub is_number : Option ℕ → ℕ → Bool
is_number none n = false
is_number (some m) n = m == n

-- `inR != 0 && inR->run() == run`
abbrev pub is_run : Option (Option ℕ) → ℕ → Bool
is_run none n = false
is_run (some r) n = is_number r n

-- `inSR != 0 && inSR->id() == SubRunID(run, subrun)`
abbrev pub is_sub_run : Option SubRunId → ℕ → ℕ → Bool
is_sub_run none run sub_run = false
is_sub_run (some id) run sub_run = is_number id.run run && is_number id.sub_run sub_run

-- `inSR != 0 && !inSR->id().isFlush() && inSR->subRun() == subrun`
abbrev pub has_sub_run : Option SubRunId → ℕ → Bool
has_sub_run none n = false
has_sub_run (some id) n = is_number id.sub_run n

abbrev pub flush_event : EventId
flush_event = record { in_sub_run = record { run = none; sub_run = none }; event = none }

-- The loop over deqTimedWait, for a number of rounds.
unfoldable pub dequeue :
    {E : Type 0} → (ℕ → Option (Option E)) → Bool → ℕ → ℕ → Outcome (Option (Option E))
dequeue deq resume zero idx = fault out_of_fuel
dequeue deq resume (suc rounds) idx =
    let again = dequeue deq resume rounds (idx + 1) in
    elim (deq idx) [ some popped ↦ ok (some popped) | none ↦ if resume then again else ok none ]

module _ {F E : Type 0} (core : ArtdaqCore F E) where
  -- The size of `releaseProduct(type)`.
  abbrev pub count_type : ℕ → List F → ℕ
  count_type type [] = 0
  count_type type (f ∷ fs) = (if core.type_code f == type then 1 else 0) + count_type type fs

  -- An event of data.
  unfoldable pub data_event : Option (Option ℕ) → Option SubRunId → E → Principals
  data_event in_r in_sr e =
      let id : SubRunId = record {
        run = some (core.run_of e);
        sub_run = some (core.subrun_of e);
      } in
      record {
        out_r = if is_run in_r (core.run_of e) then none else some (some (core.run_of e));
        out_sr = if is_sub_run in_sr (core.run_of e) (core.subrun_of e) then none else some id;
        out_e = some (record { in_sub_run = id; event = some (core.sequence_of e) });
      }

  -- An end-of-subrun marker.
  unfoldable pub end_of_subrun_event : Option (Option ℕ) → Option SubRunId → E → Principals
  end_of_subrun_event in_r in_sr e =
      let id : SubRunId = record {
        run = some (core.run_of e);
        sub_run = some (core.subrun_of e);
      } in
      let flush_id : SubRunId = record { run = some (core.run_of e); sub_run = none } in
      if not (is_run in_r (core.run_of e))
      then record {
        out_r = some (some (core.run_of e));
        out_sr = some id;
        out_e = some (record { in_sub_run = id; event = none });
      }
      else if has_sub_run in_sr (core.subrun_of e)
      then record {
        out_r = none;
        out_sr = some flush_id;
        out_e = some (record { in_sub_run = flush_id; event = none });
      }
      else record {
        out_r = none;
        out_sr = some id;
        out_e = some (record { in_sub_run = id; event = none });
      }

  -- `readNext` from the event on.
  unfoldable pub emit :
      Option (Option ℕ)
      → Option SubRunId
      → E
      → RawEventQueueReader
      → RawEventQueueReader × Principals
  emit in_r in_sr e s =
      let single = core.num_fragments e == 1 in
      if single && (count_type core.end_of_run (core.contents e) == 1)
      then (
        s,
        record {
          out_r = some none;
          out_sr = some (flush_event.in_sub_run);
          out_e = some flush_event;
        },
      )
      else if single && (count_type core.end_of_subrun (core.contents e) == 1)
      then (record s { output_file_close_needed = true }, end_of_subrun_event in_r in_sr e)
      else (s, data_event in_r in_sr e)

  -- `readNext`: what it returns, and `none` where it leaves the principals alone.
  unfoldable pub read_next :
      (ℕ → Option (Option E))
      → ℕ
      → Option (Option ℕ)
      → Option SubRunId
      → RawEventQueueReader
      → Outcome (Bool × Option Principals × RawEventQueueReader)
  read_next deq rounds in_r in_sr s =
      let nothing : Principals = record { out_r = none; out_sr = none; out_e = none } in
      if s.output_file_close_needed
      then ok (false, none, record s { output_file_close_needed = false })
      else (dequeue deq s.resume_after_timeout rounds 0 >>= λ popped. elim popped [
        | none ↦ ok (false, some nothing, record s { shutdown_msg_received = true })
        | some p ↦ elim p [
          | none ↦ ok (false, some nothing, record s { shutdown_msg_received = true })
          | some e ↦ let (t, out) = emit in_r in_sr e s in ok (true, some out, t)
        ]
      ])
