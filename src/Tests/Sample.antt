-- ===== src/Tests/Sample.antt =====
-- Plain records in the place of the classes of artdaq-core: they satisfy its laws.
use fnal_artdaq.Base.{
  ltb, ◌&&◌, ℕ, ◌+◌, refl, List, [], ◌∷◌, ◌++◌, length, ◌≡◌, replicate, length-replicate, arith,
}
use fnal_artdaq.ArtdaqCore.{ArtdaqCore}

pub record SampleFragment : Type 0 where
  pub seq : ℕ
  pub id : ℕ
  pub kind : ℕ
  pub words : ℕ
  pub word : ℕ
  pub filling : List ℕ

pub record SampleEvent : Type 0 where
  pub run : ℕ
  pub subrun : ℕ
  pub seq : ℕ
  pub list : List SampleFragment

abbrev pub words_of : SampleFragment → List ℕ
words_of f = f.seq ∷ f.id ∷ f.kind ∷ replicate f.words f.word

abbrev pub first_of : List ℕ → ℕ
first_of [] = 0
first_of (w ∷ ws) = w

abbrev pub of_words : List ℕ → SampleFragment
of_words (seq ∷ id ∷ kind ∷ payload) = record {
  seq = seq;
  id = id;
  kind = kind;
  words = length payload;
  word = first_of payload;
  filling = [];
}
of_words other = record { seq = 0; id = 65535; kind = 0; words = 0; word = 0; filling = [] }

pub length-words_of : (f : SampleFragment) → length (words_of f) ≡ f.words + 3
length-words_of f = omega (arith, length-replicate f.words f.word)

abbrev pub sample_core : ArtdaqCore SampleFragment SampleEvent
sample_core = record {
  sequence_id = λ f. f.seq;
  fragment_id = λ f. f.id;
  type_code = λ f. f.kind;
  size = λ f. f.words + 3;
  data_size = λ f. f.words;
  first_word = λ f. f.word;
  header_size = 3;
  words = words_of;
  of_words = of_words;
  length-words = length-words_of;
  type_code-of_words = λ f more. refl;
  sequence_id-of_words = λ f more. refl;
  fragment_id-of_words = λ f more. refl;
  invalid_fragment_id = 65535;
  end_of_data = 229;
  end_of_run = 226;
  end_of_subrun = 227;
  invalid_type = 0;
  data_type = 230;
  init_type = 228;
  is_user_type = λ t. ltb 0 t && ltb t 225;
  new_fragment = λ n. record { seq = 0; id = 65535; kind = 0; words = n; word = 0; filling = [] };
  set_system_type = λ t f. record f { kind = t };
  set_first_word = λ w f. record f { word = w };
  eod_frag = λ n. record { seq = 0; id = 0; kind = 229; words = 1; word = n; filling = [] };
  type_code-set_system_type = λ t f. refl;
  type_code-set_first_word = λ w f. refl;
  first_word-set_first_word = λ w f. refl;
  type_code-eod_frag = λ n. refl;
  first_word-eod_frag = λ n. refl;
  new_event = λ r s n. record { run = r; subrun = s; seq = n; list = [] };
  insert_fragment = λ f e. record e { list = e.list ++ f ∷ [] };
  mark_complete = λ e. e;
  contents = λ e. e.list;
  num_fragments = λ e. length e.list;
  word_count = λ e. length e.list;
  run_of = λ e. e.run;
  subrun_of = λ e. e.subrun;
  sequence_of = λ e. e.seq;
  contents-new_event = λ r s n. refl;
  contents-insert_fragment = λ f e. refl;
  contents-mark_complete = λ e. refl;
  num_fragments-contents = λ e. refl;
  run_of-new_event = λ r s n. refl;
  subrun_of-new_event = λ r s n. refl;
  run_of-insert_fragment = λ f e. refl;
  subrun_of-insert_fragment = λ f e. refl;
}

abbrev pub sample_fragment : ℕ → ℕ → SampleFragment
sample_fragment seq id = record { seq = seq; id = id; kind = 1; words = 4; word = 0; filling = [] }
