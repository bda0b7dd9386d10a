-- ===== src/Tests/Events.antt =====
-- The reader of the queue at concrete inputs.
use fnal_artdaq.Base.{
  ℕ, zero, suc, ◌≡◌, refl, [], ◌∷◌, true, false, Option, none, some, ok, ◌⊎◌, arith,
}
use fnal_artdaq.RawEventQueueReader.{SubRunId, RawEventQueueReader, Principals, read_next}
use fnal_artdaq.RawEventQueueReader.Reading.{Reads}
use fnal_artdaq.RawEventQueueReader.Belonging.{Belongs, nothing, ends_subrun, read_next_lem}
use fnal_artdaq.Tests.Sample.{SampleEvent, sample_core, sample_fragment}

-- The end of subrun 2 of run 7.
abbrev marker : SampleEvent
marker = record {
  run = 7;
  subrun = 2;
  seq = 1;
  list = record (sample_fragment 1 0) { kind = 227 } ∷ [];
}

-- One attempt times out.
abbrev late : ℕ → Option (Option SampleEvent)
late zero = none
late (suc n) = some (some marker)

abbrev reader : RawEventQueueReader
reader = record {
  resume_after_timeout = true;
  shutdown_msg_received = false;
  output_file_close_needed = false;
}

abbrev in_sub_run : Option SubRunId
in_sub_run = some (record { run = some 7; sub_run = some 2 })

read_next_lem_example :
    ((reader.output_file_close_needed ≡ true)
      × (read_next sample_core late 5 (some (some 7)) in_sub_run reader
          ≡ ok (false, none, record reader { output_file_close_needed = false })))
    ⊎ ((reader.output_file_close_needed ≡ false)
        × (Reads late true 0 none ⊎ Reads late true 0 (some none))
        × (read_next sample_core late 5 (some (some 7)) in_sub_run reader
            ≡ ok (false, some nothing, record reader { shutdown_msg_received = true })))
    ⊎ ((e : SampleEvent) × (out : Principals) × (reader.output_file_close_needed ≡ false)
        × Reads late true 0 (some (some e))
        × (read_next sample_core late 5 (some (some 7)) in_sub_run reader
            ≡ ok (
              true,
              some out,
              record reader { output_file_close_needed = ends_subrun sample_core e },
            ))
        × Belongs (some (some 7)) in_sub_run out)
read_next_lem_example =
    read_next_lem sample_core late 5 1 (some marker) (some (some 7)) in_sub_run reader refl
      (omega arith)
