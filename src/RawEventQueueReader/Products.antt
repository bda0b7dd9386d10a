-- ===== src/RawEventQueueReader/Products.antt =====
-- artdaq/ArtModules/detail/RawEventQueueReader.cc: the products of an event of data, and the
-- constructor with the names of the products. What is put into the principal of the event is a list
-- of instance names with fragments.
use Prim.Native.String.{String}
use fnal_artdaq.Base.{
  ℕ, ◌%◌, ◌≡◌, List, [], ◌∷◌, Bool, true, false, ◌&&◌, ◌||◌, Option, none, some, Outcome, ok,
  out_of_bounds, or_fault, ◌>>=◌, if◌then◌else◌, ◌==◌, All, get_elem?, value_or,
}
use fnal_artdaq.ArtdaqCore.{ArtdaqCore}
use fnal_artdaq.OrderedMap.{find, put}
use fnal_artdaq.RawEventQueueReader.{RawEventQueueReader, count_type}

abbrev pub lists : ℕ → List ℕ → Bool
lists t [] = false
lists t (k ∷ ks) = t == k || lists t ks

-- `RawEvent::fragmentTypes`: the types of the fragments of an event.
pub record FragmentTypes {F E : Type 0} (core : ArtdaqCore F E) : Type 0 where
  pub fragment_types : E → List ℕ
  pub fragment_types-lists :
      (e : E) → All (λ f. lists (core.type_code f) (fragment_types e) ≡ true) (core.contents e)

abbrev pub unidentified : String
unidentified = "unidentified"

-- One entry of the parameter `fragment_type_map`; `read` is `boost::lexical_cast` to `unsigned
-- short`, and the type of a fragment has 8 bits.
unfoldable pub add_mapping :
    (String → Option ℕ) → List String → List (ℕ × String) → Outcome (List (ℕ × String))
add_mapping read the_pair m = do
  type_id_string ← or_fault (get_elem? the_pair 0) out_of_bounds
  type_name ← or_fault (get_elem? the_pair 1) out_of_bounds
  ok (elim (read type_id_string) [ none ↦ m | some type_id ↦ put (type_id % 256) type_name m ])

unfoldable pub add_mappings :
    (String → Option ℕ) → List (List String) → List (ℕ × String) → Outcome (List (ℕ × String))
unfolding add_mapping
add_mappings read [] m = ok m
add_mappings read (the_pair ∷ params) m = add_mapping read the_pair m >>= add_mappings read params

-- The constructor: the reader and `fragment_type_map_`.
unfoldable pub new :
    (String → Option ℕ)
    → Option Bool
    → Option (List (List String))
    → Outcome (RawEventQueueReader × List (ℕ × String))
unfolding add_mappings
new read resume_after_timeout params = add_mappings read (value_or params []) [] >>= λ m. ok (
  record {
    resume_after_timeout = value_or resume_after_timeout true;
    shutdown_msg_received = false;
    output_file_close_needed = false;
  },
  m,
)

-- The name of the instance for a type.
unfoldable pub instance_name : List (ℕ × String) → ℕ → String
instance_name m type = value_or (find type m) unidentified

module _ {F E : Type 0} (core : ArtdaqCore F E) where
  -- `releaseProduct(type)`: the fragments of a type, and what it leaves in the event.
  unfoldable pub release_product : ℕ → List F → List F × List F
  release_product type [] = ([], [])
  release_product type (f ∷ fs) =
      let (taken, left) = release_product type fs in
      if core.type_code f == type then (f ∷ taken, left) else (taken, f ∷ left)

  -- The loop on the types.
  unfoldable pub put_products : List (ℕ × String) → List ℕ → List F → List (String × List F)
  unfolding release_product instance_name
  put_products m [] fs = []
  put_products m (type ∷ types) fs =
      let (taken, left) = release_product type fs in
      (instance_name m type, taken) ∷ put_products m types left

  -- What `readNext` puts into the event that it makes: an event of one fragment that marks the end
  -- of a run or of a subrun has no products.
  unfoldable pub products : FragmentTypes core → List (ℕ × String) → E → List (String × List F)
  unfolding put_products
  products types m e =
      if core.num_fragments e == 1
        && (count_type core core.end_of_run (core.contents e) == 1
            || count_type core core.end_of_subrun (core.contents e) == 1)
      then []
      else put_products m (types.fragment_types e) (core.contents e)
