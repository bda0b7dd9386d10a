-- ===== src/RawEventQueueReader/Placing.antt =====
-- Every fragment of an event of data reaches art, under the name of its type.
use Prim.Native.String.{String}
use fnal_artdaq.Base.{
  ℕ, ◌+◌, ◌≡◌, refl, List, [], ◌∷◌, true, false, ◌&&◌, ◌||◌, ◌==◌, All, arith, Bool-cases, inl, inr,
}
use fnal_artdaq.ArtdaqCore.{ArtdaqCore}
use fnal_artdaq.EventStore.Conservation.{sum_by}
use fnal_artdaq.RawEventQueueReader.{count_type}
use fnal_artdaq.RawEventQueueReader.Products.{
  FragmentTypes, lists, instance_name, release_product, put_products, products,
}

module _ {F E : Type 0} (core : ArtdaqCore F E) where
  abbrev pub products_weight : (F → ℕ) → List (String × List F) → ℕ
  products_weight w [] = 0
  products_weight w ((name, fs) ∷ ps) = sum_by w fs + products_weight w ps

  -- A product has the fragments of one type, under its name.
  abbrev pub IsNamed : List (ℕ × String) → String × List F → Type 0
  IsNamed m (name, fs) =
      (type : ℕ) × (name ≡ instance_name m type) × All (λ f. core.type_code f ≡ type) fs

  release_product-sum_by :
      (w : F → ℕ) (type : ℕ) (fs : List F)
      → sum_by w (release_product core type fs).0 + sum_by w (release_product core type fs).1
        ≡ sum_by w fs
  unfolding release_product
  release_product-sum_by w type [] = refl
  release_product-sum_by w type (f ∷ fs) = ground (arith, release_product-sum_by w type fs)

  release_product-All :
      (type : ℕ) (fs : List F) → All (λ f. core.type_code f ≡ type) (release_product core type fs).0
  unfolding release_product
  release_product-All type [] = tt
  release_product-All type (f ∷ fs) = elim (Bool-cases (core.type_code f == type)) [
    | inl e ↦ rw e (ground (arith, e), release_product-All type fs)
    | inr e ↦ rw e (release_product-All type fs)
  ]

  release_product-lists :
      (type : ℕ) (types : List ℕ) (fs : List F)
      → All (λ f. lists (core.type_code f) (type ∷ types) ≡ true) fs
      → All (λ f. lists (core.type_code f) types ≡ true) (release_product core type fs).1
  unfolding release_product
  release_product-lists type types [] h = tt
  release_product-lists type types (f ∷ fs) h = elim (Bool-cases (core.type_code f == type)) [
    | inl e ↦ rw e (release_product-lists type types fs h.1)
    | inr e ↦ rw e (ground (arith, e, h.0), release_product-lists type types fs h.1)
  ]

  put_products-weight :
      (w : F → ℕ) (m : List (ℕ × String)) (types : List ℕ) (fs : List F)
      → All (λ f. lists (core.type_code f) types ≡ true) fs
      → products_weight w (put_products core m types fs) ≡ sum_by w fs
  unfolding put_products
  put_products-weight w m [] [] h = refl
  put_products-weight w m [] (f ∷ fs) h = ground (arith, h.0)
  put_products-weight w m (type ∷ types) fs h = omega (
    arith,
    release_product-sum_by w type fs,
    put_products-weight w m types (release_product core type fs).1
        (release_product-lists type types fs h),
  )

  put_products-IsNamed :
      (m : List (ℕ × String)) (types : List ℕ) (fs : List F)
      → All (IsNamed m) (put_products core m types fs)
  unfolding put_products
  put_products-IsNamed m [] fs = tt
  put_products-IsNamed m (type ∷ types) fs = (
    (type, refl, release_product-All type fs),
    put_products-IsNamed m types (release_product core type fs).1,
  )

  -- For an event that is not the marker of the end of a run or of a subrun: what is put into the
  -- event of art is all its fragments, each once (for every weight of fragments, the sums agree);
  -- each product has fragments of one type only, and the name that the map has for the type, or
  -- "unidentified".
  pub products_lem :
      (types : FragmentTypes core) (m : List (ℕ × String)) (e : E) (w : F → ℕ)
      → (core.num_fragments e == 1
          && (count_type core core.end_of_run (core.contents e) == 1
              || count_type core core.end_of_subrun (core.contents e) == 1))
        ≡ false
      → (products_weight w (products core types m e) ≡ sum_by w (core.contents e))
        × All (IsNamed m) (products core types m e)
  unfolding products
  products_lem types m e w unmarked = rw unmarked (
    put_products-weight w m (types.fragment_types e) (core.contents e)
        (types.fragment_types-lists e),
    put_products-IsNamed m (types.fragment_types e) (core.contents e),
  )
