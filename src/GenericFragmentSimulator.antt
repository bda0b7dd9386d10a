-- ===== src/GenericFragmentSimulator.antt =====
-- artdaq/DAQdata/GenericFragmentSimulator.hh and GenericFragmentSimulator_generator.cc: the
-- generator of simulated events. The random engine `R` with its two distributions, and the making
-- of a fragment from its payload, are parameters.
pub mod Simulating
pub mod Throttling
use fnal_artdaq.Base.{
  ℕ, zero, suc, ◌+◌, ◌%◌, ◌≤◌, ◌<◌, ◌≡◌, List, [], ◌∷◌, Bool, true, false, Option, Outcome, ok,
  fault, configuration, ◌>>=◌, if◌then◌else◌, ◌==◌, value_or, replicate,
}
use fnal_artdaq.ArtdaqCore.{ArtdaqCore}
use fnal_artdaq.FragCounter.{size_t_mod}

-- `Fragment(sequence_id, fragment_id)`, resized and filled with a payload, for IDs that a fragment
-- has room for; `payload_size_generator_(engine_)` and `fragment_content_generator_(engine_)`.
pub record Simulation {F E : Type 0} (core : ArtdaqCore F E) (R : Type 0) : Type 0 where
  pub sequence_id_limit : ℕ
  pub limit-le : sequence_id_limit ≤ size_t_mod
  pub fragment_id_mod : ℕ
  pub make : ℕ → ℕ → List ℕ → F
  pub payload : F → List ℕ
  pub sequence_id-make :
      (n i : ℕ) (w : List ℕ) → n < sequence_id_limit → core.sequence_id (make n i w) ≡ n
  pub fragment_id-make :
      (n i : ℕ) (w : List ℕ) → i < fragment_id_mod → core.fragment_id (make n i w) ≡ i
  pub payload-make : (n i : ℕ) (w : List ℕ) → payload (make n i w) ≡ w
  pub draw_size : R → ℕ × R
  pub draw_word : R → ℕ × R

-- `content_selector_t`, an enumeration of 8 bits: a cast can give it a value without a name.
pub data ContentSelector : Type 0 where
  empty frag_id random dead_beef : ContentSelector
  unknown : ℕ → ContentSelector

unfoldable pub content_selector : ℕ → ContentSelector
content_selector n =
    let byte = n % 256 in
    if byte == 0
    then empty
    else if byte == 1
    then frag_id
    else if byte == 2
    then random
    else if byte == 3
    then dead_beef
    else unknown byte

pub record GenericFragmentSimulator (R : Type 0) : Type 0 where
  pub content_selection : ContentSelector
  pub payload_size_spec : ℕ
  pub fragment_ids : List ℕ
  pub want_random_payload_size : Bool
  pub current_event_num : ℕ
  pub engine : R

-- The parameters; `none` is a parameter that is not there. The engine is what the seed makes.
pub record Settings (R : Type 0) : Type 0 where
  pub content_selection : Option ℕ
  pub payload_size : Option ℕ
  pub want_random_payload_size : Option Bool
  pub seeded : R
  pub fragments_per_event : Option ℕ
  pub starting_fragment_id : Option ℕ

abbrev pub dead_beef_word : ℕ
dead_beef_word = 0xDEAD_BEEF_DEAD_BEEF

module _ {F E R : Type 0} (core : ArtdaqCore F E) (sim : Simulation core R) where
  -- `std::generate` with `current_id++`.
  unfoldable pub consecutive_ids : ℕ → ℕ → List ℕ
  consecutive_ids zero current_id = []
  consecutive_ids (suc n) current_id =
      current_id ∷ consecutive_ids n ((current_id + 1) % sim.fragment_id_mod)

  -- The constructor.
  unfoldable pub new : Settings R → GenericFragmentSimulator R
  unfolding consecutive_ids content_selector
  new ps = record {
    content_selection = content_selector (value_or ps.content_selection 0);
    payload_size_spec = value_or ps.payload_size 10240;
    fragment_ids =
        consecutive_ids (value_or ps.fragments_per_event 5) (value_or ps.starting_fragment_id 0);
    want_random_payload_size = value_or ps.want_random_payload_size false;
    current_event_num = 0;
    engine = ps.seeded;
  }

  unfoldable pub generate_fragment_size : GenericFragmentSimulator R → ℕ × R
  generate_fragment_size g =
      if g.want_random_payload_size then sim.draw_size g.engine else (g.payload_size_spec, g.engine)

  -- `std::generate_n` with the engine.
  unfoldable pub random_words : ℕ → R → List ℕ × R
  random_words zero r = ([], r)
  random_words (suc n) r =
      let (w, s) = sim.draw_word r in let (ws, t) = random_words n s in (w ∷ ws, t)

  -- The `switch`: the words of a payload of a size, for a fragment ID.
  unfoldable pub fill : ContentSelector → ℕ → ℕ → R → Outcome (List ℕ × R)
  unfolding random_words
  fill empty payload_size fragment_id r = ok (replicate payload_size 0, r)
  fill frag_id payload_size fragment_id r = ok (replicate payload_size fragment_id, r)
  fill random payload_size fragment_id r = ok (random_words payload_size r)
  fill dead_beef payload_size fragment_id r = ok (replicate payload_size dead_beef_word, r)
  fill (unknown byte) payload_size fragment_id r = fault configuration

  -- `getNext(sequence_id, fragment_id, frag_ptr)`, which returns true.
  unfoldable pub get_next_frag :
      ℕ → ℕ → GenericFragmentSimulator R → Outcome (F × GenericFragmentSimulator R)
  unfolding generate_fragment_size fill
  get_next_frag sequence_id fragment_id g =
      let (payload_size, r) = generate_fragment_size g in
      fill g.content_selection payload_size fragment_id r >>= λ w.
      ok (sim.make sequence_id fragment_id w.0, record g { engine = w.1 })

  -- The loop of `getNext_` on the fragment IDs.
  unfoldable pub frag_loop :
      ℕ → List ℕ → GenericFragmentSimulator R → Outcome (List F × GenericFragmentSimulator R)
  unfolding get_next_frag
  frag_loop event [] g = ok ([], g)
  frag_loop event (id ∷ ids) g = do
    (f, h) ← get_next_frag event id g
    (fs, k) ← frag_loop event ids h
    ok (f ∷ fs, k)

  -- `getNext_`, which returns true.
  unfoldable pub get_next_frags :
      GenericFragmentSimulator R → Outcome (Bool × List F × GenericFragmentSimulator R)
  unfolding frag_loop
  get_next_frags g =
      let event = (g.current_event_num + 1) % size_t_mod in
      frag_loop event g.fragment_ids (record g { current_event_num = event }) >>= λ r.
      ok (true, r.0, r.1)
