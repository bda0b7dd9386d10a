-- ===== src/Tests/Products.antt =====
-- The products of an event with fragments of two types, and a map for one of them.
use Prim.Native.String.{String}
use text.Mathlib.Text.{◌==◌ as str_eq}
use fnal_artdaq.Base.{
  ℕ, ◌≡◌, refl, List, [], ◌∷◌, true, Option, none, some, ok, fault, out_of_bounds, ◌>>=◌,
  if◌then◌else◌, All, arith,
}
use fnal_artdaq.OrderedMap.{put}
use fnal_artdaq.RawEventQueueReader.Products.{FragmentTypes, lists, new, products}
use fnal_artdaq.RawEventQueueReader.Placing.{products_weight, IsNamed, products_lem}
use fnal_artdaq.Tests.Sample.{SampleFragment, SampleEvent, sample_core, sample_fragment}

abbrev types_in : List SampleFragment → List ℕ
types_in [] = []
types_in (f ∷ fs) = let rest = types_in fs in if lists f.kind rest then rest else f.kind ∷ rest

lists_here :
    (f : SampleFragment) (fs : List SampleFragment) → lists f.kind (types_in (f ∷ fs)) ≡ true
lists_here f fs = ground arith

lists_there :
    (t : ℕ) (f : SampleFragment) (fs : List SampleFragment)
    → lists t (types_in fs) ≡ true
    → lists t (types_in (f ∷ fs)) ≡ true
lists_there t f fs h = ground (arith, h)

types_in-lists :
    (fs : List SampleFragment) (ks : List ℕ)
    → ((t : ℕ) → lists t (types_in fs) ≡ true → lists t ks ≡ true)
    → All (λ f. lists f.kind ks ≡ true) fs
types_in-lists [] ks h = tt
types_in-lists (f ∷ fs) ks h =
    (h f.kind (lists_here f fs), types_in-lists fs ks λ t l. h t (lists_there t f fs l))

abbrev sample_types : FragmentTypes sample_core
sample_types = record {
  fragment_types = λ e. types_in e.list;
  fragment_types-lists = λ e. types_in-lists e.list (types_in e.list) λ t l. l;
}

abbrev of_kind : ℕ → ℕ → SampleFragment
of_kind kind id = record (sample_fragment 5 id) { kind = kind }

abbrev mixed : SampleEvent
mixed = record {
  run = 1;
  subrun = 1;
  seq = 5;
  list = of_kind 17 1 ∷ of_kind 3 2 ∷ of_kind 17 3 ∷ [];
}

abbrev to_short : String → Option ℕ
to_short s = if str_eq s "17" then some 17 else if str_eq s "273" then some 273 else none

-- The identifier 273 is taken for 17.
mappings :
    (new to_short none (some (("17" ∷ "A" ∷ []) ∷ ("x" ∷ "B" ∷ []) ∷ ("273" ∷ "C" ∷ []) ∷ []))
      >>= λ r. ok r.1)
    ≡ ok ((17, "C") ∷ [])
unfolding new put
mappings = refl

short_pair : (new to_short none (some (("17" ∷ []) ∷ [])) >>= λ r. ok r.1) ≡ fault out_of_bounds
unfolding new
short_pair = refl

products_lem_example :
    (products_weight sample_core
        (λ f. f.id)
        (products sample_core sample_types ((17, "C") ∷ []) mixed)
      ≡ 6)
    × All
        (IsNamed sample_core ((17, "C") ∷ []))
        (products sample_core sample_types ((17, "C") ∷ []) mixed)
products_lem_example = products_lem sample_core sample_types ((17, "C") ∷ []) mixed (λ f. f.id) refl
