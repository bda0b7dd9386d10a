-- ===== src/ArtdaqCore.antt =====
-- What the repository uses of the package artdaq-core, which is not part of it: the classes
-- `Fragment` and `RawEvent`. `F` and `E` stand for the two classes, the fields for their members
-- and constants, and the laws for the documented effects of the members.
use fnal_artdaq.Base.{Bool, ℕ, ◌≡◌, List, [], ◌∷◌, ◌++◌, length}

pub record ArtdaqCore (F E : Type 0) : Type 0 where
  -- `Fragment`: `sequenceID()`, `fragmentID()`, `type()`, `size()`, `dataSize()`, `*dataBegin()`
  pub sequence_id : F → ℕ
  pub fragment_id : F → ℕ
  pub type_code : F → ℕ
  pub size : F → ℕ
  pub data_size : F → ℕ
  pub first_word : F → ℕ
  -- the words from `headerAddress()` on, which begin with those of the header, whose number is
  -- `header_size`; what a fragment is when these words have been written from there on
  pub header_size : ℕ
  pub words : F → List ℕ
  pub of_words : List ℕ → F
  pub length-words : (f : F) → length (words f) ≡ size f
  pub type_code-of_words :
      (f : F) (more : List ℕ) → type_code (of_words (words f ++ more)) ≡ type_code f
  pub sequence_id-of_words :
      (f : F) (more : List ℕ) → sequence_id (of_words (words f ++ more)) ≡ sequence_id f
  pub fragment_id-of_words :
      (f : F) (more : List ℕ) → fragment_id (of_words (words f ++ more)) ≡ fragment_id f
  -- the constants `InvalidFragmentID` and `EndOf…FragmentType`
  pub invalid_fragment_id : ℕ
  pub end_of_data : ℕ
  pub end_of_run : ℕ
  pub end_of_subrun : ℕ
  -- the constants `InvalidFragmentType`, `DataFragmentType`, `InitFragmentType`, and
  -- `isUserFragmentType`
  pub invalid_type : ℕ
  pub data_type : ℕ
  pub init_type : ℕ
  pub is_user_type : ℕ → Bool
  -- `Fragment(n)`, `setSystemType(t)`, `*dataBegin() = w`, `Fragment::eodFrag(n)`
  pub new_fragment : ℕ → F
  pub set_system_type : ℕ → F → F
  pub set_first_word : ℕ → F → F
  pub eod_frag : ℕ → F
  pub type_code-set_system_type : (t : ℕ) (f : F) → type_code (set_system_type t f) ≡ t
  pub type_code-set_first_word : (w : ℕ) (f : F) → type_code (set_first_word w f) ≡ type_code f
  pub first_word-set_first_word : (w : ℕ) (f : F) → first_word (set_first_word w f) ≡ w
  pub type_code-eod_frag : (n : ℕ) → type_code (eod_frag n) ≡ end_of_data
  pub first_word-eod_frag : (n : ℕ) → first_word (eod_frag n) ≡ n
  -- `RawEvent(run, subrun, sequence)`, `insertFragment(f)`, `markComplete()`, the fragments in the
  -- order of their insertion, `numFragments()`, `wordCount()`, and the three numbers
  pub new_event : ℕ → ℕ → ℕ → E
  pub insert_fragment : F → E → E
  pub mark_complete : E → E
  pub contents : E → List F
  pub num_fragments : E → ℕ
  pub word_count : E → ℕ
  pub run_of : E → ℕ
  pub subrun_of : E → ℕ
  pub sequence_of : E → ℕ
  pub contents-new_event : (r s n : ℕ) → contents (new_event r s n) ≡ []
  pub contents-insert_fragment :
      (f : F) (e : E) → contents (insert_fragment f e) ≡ contents e ++ f ∷ []
  pub contents-mark_complete : (e : E) → contents (mark_complete e) ≡ contents e
  pub num_fragments-contents : (e : E) → num_fragments e ≡ length (contents e)
  pub run_of-new_event : (r s n : ℕ) → run_of (new_event r s n) ≡ r
  pub subrun_of-new_event : (r s n : ℕ) → subrun_of (new_event r s n) ≡ s
  pub run_of-insert_fragment : (f : F) (e : E) → run_of (insert_fragment f e) ≡ run_of e
  pub subrun_of-insert_fragment : (f : F) (e : E) → subrun_of (insert_fragment f e) ≡ subrun_of e
