-- ===== src/Aggregator/Files.antt =====
-- artdaq/Application/MPI2/AggregatorCore.cc, `getLatestFileSize_`: the size of the file that art is
-- writing. The files of the directory are what Boost lists, in its order.
use Prim.Native.String.{String}
use text.Mathlib.Text.{find?, ◌==◌ as str_eq}
use fnal_artdaq.Base.{
  ℕ, ◌+◌, List, [], ◌∷◌, Bool, true, false, ◌&&◌, Option, none, some, ltb, leb, if◌then◌else◌,
}

pub record OutputFile : Type 0 where
  pub filename : String
  pub last_write_time : ℕ
  pub file_size : ℕ

-- `name.find(part) != std::string::npos`
abbrev pub contains : String → String → Bool
contains part name = elim (find? name part) [ none ↦ false | some pos ↦ true ]

unfoldable pub is_output : OutputFile → Bool
is_output file = contains "RootOutput" file.filename && contains "root" file.filename

-- The loop, from the time and the size so far; their last values.
unfoldable pub latest_loop : List OutputFile → ℕ → ℕ → ℕ × ℕ
unfolding is_output
latest_loop [] time size = (time, size)
latest_loop (file ∷ files) time size =
    let newer = is_output file && leb time file.last_write_time in
    latest_loop files (if newer then file.last_write_time else time)
      (if newer then file.file_size else size)

-- `listing` is the files of `disk_writing_directory_`, if that is a directory.
unfoldable pub latest_file_size : Option (List OutputFile) → ℕ → String → ℕ
unfolding latest_loop
latest_file_size listing now directory = if str_eq directory "" then 0 else elim listing [
  | none ↦ 0
  | some files ↦ let (time, size) = latest_loop files 0 0 in if ltb now (time + 60) then size else 0
]
