-- ===== src/GenToArt/Throttled.antt =====
-- tools/genToArt.cc: `ThrottledGenerator`, which hands out the fragments of a generator one per
-- fragment ID at a time.
use fnal_artdaq.Base.{
  ℕ, zero, suc, List, [], ◌∷◌, ◌++◌, Bool, true, false, not, ◌&&◌, Option, none, some, Outcome, ok,
  fault, assertion, out_of_fuel, ◌>>=◌, if◌then◌else◌, length,
}
use fnal_artdaq.ArtdaqCore.{ArtdaqCore}
use fnal_artdaq.OrderedMap.{find, put}

-- The virtual functions of `artdaq::FragmentGenerator`: `getNext`, which can throw, gives its
-- result, the fragments it appends and the generator after it.
pub record FragmentGenerator (G F : Type 0) : Type 0 where
  pub get_next : G → Outcome (Bool × List F × G)
  pub fragment_ids : G → List ℕ

pub record ThrottledGenerator (G F : Type 0) : Type 0 where
  pub generator : G
  pub num_frag_ids : ℕ
  pub frags : List (ℕ × List F)

abbrev pub is_empty : {A : Type 0} → List A → Bool
is_empty [] = true
is_empty (x ∷ xs) = false

-- What a queue of the map holds, none if it is not there.
abbrev pub queue_of : {F : Type 0} → Option (List F) → List F
queue_of (some q) = q
queue_of none = []

-- `frags_.size() && frags_.begin()->second.size()`
unfoldable pub has_stored : {F : Type 0} → List (ℕ × List F) → Bool
has_stored [] = false
has_stored ((k, q) ∷ m) = not (is_empty q)

-- The first fragment of each queue, and the queues without it.
unfoldable pub pop_each : {F : Type 0} → List (ℕ × List F) → Outcome (List F × List (ℕ × List F))
pop_each [] = ok ([], [])
pop_each ((k, []) ∷ m) = fault assertion
pop_each ((k, f ∷ q) ∷ m) = pop_each m >>= λ r. ok (f ∷ r.0, (k, q) ∷ r.1)

module _ {G F : Type 0} (v : FragmentGenerator G F) where
  -- The constructor.
  unfoldable pub throttle : G → ThrottledGenerator G F
  throttle g = record { generator = g; num_frag_ids = length (v.fragment_ids g); frags = [] }

  -- The `while` of `generateFragments_`, with `fuel` calls of the generator.
  unfoldable pub poll_generator : ℕ → G → Outcome (Bool × List F × G)
  poll_generator zero g = fault out_of_fuel
  poll_generator (suc fuel) g = do
    (result, incoming, h) ← v.get_next g
    let again = poll_generator fuel h
    if result && is_empty incoming then again else ok (result, incoming, h)

module _ {G F E : Type 0} (core : ArtdaqCore F E) (v : FragmentGenerator G F) where
  -- `frags_[frag->fragmentID()].emplace_back(...)` for each fragment.
  unfoldable pub store_each : List F → List (ℕ × List F) → List (ℕ × List F)
  store_each [] m = m
  store_each (f ∷ fs) m =
      let id = core.fragment_id f in store_each fs (put id (queue_of (find id m) ++ f ∷ []) m)

  unfoldable pub generate_fragments :
      ℕ → ThrottledGenerator G F → Outcome (Bool × ThrottledGenerator G F)
  unfolding poll_generator store_each
  generate_fragments fuel t = do
    (result, incoming, g) ← poll_generator v fuel t.generator
    ok (result, record t { generator = g; frags = store_each incoming t.frags })

  -- `getNext`, with the fragments that it appends; `fuel` bounds the recursion, and the calls of
  -- the generator in each of its steps.
  unfoldable pub get_next :
      ℕ → ThrottledGenerator G F → Outcome (Bool × List F × ThrottledGenerator G F)
  unfolding has_stored pop_each generate_fragments
  get_next zero t = fault out_of_fuel
  get_next (suc fuel) t =
      if has_stored t.frags
      then (pop_each t.frags >>= λ r. ok (true, r.0, record t { frags = r.1 }))
      else generate_fragments (suc fuel) t >>= λ r.
          let again = get_next fuel r.1 in if r.0 then again else ok (false, [], r.1)
