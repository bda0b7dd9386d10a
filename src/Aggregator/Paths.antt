-- ===== src/Aggregator/Paths.antt =====
-- artdaq/Application/MPI2/AggregatorCore.cc: the directory of a file name.
use Prim.Native.Char.{code}
use Prim.Native.String.{String, [], ◌∷◌}
use fnal_artdaq.Base.{◌==◌, Option, none, some, if◌then◌else◌}

-- What stands before the last slash, if there is one.
unfoldable pub before_slash : String → Option String
before_slash [] = none
before_slash (c ∷ name) = elim (before_slash name) [
  | some directory ↦ some (c ∷ directory)
  | none ↦ if code c == 47 then some [] else none
]

-- `filename.substr(0, filename.rfind("/"))`, where there is a slash; "" otherwise.
unfoldable pub directory_of : String → String
unfolding before_slash
directory_of name = elim (before_slash name) [ some directory ↦ directory | none ↦ [] ]
