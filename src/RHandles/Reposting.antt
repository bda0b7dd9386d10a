-- ===== src/RHandles/Reposting.antt =====
-- `recvFragment` keeps the sources served.
use fnal_artdaq.Base.{
  inl, inr, ℕ, zero, suc, ◌+◌, ◌-◌, ◌≤◌, ◌<◌, ◌≡◌, refl, sym, ap, ◌∙◌, List, Bool, true, false,
  Option, none, some, Outcome, ok, ◌>>=◌, if◌then◌else◌, arith, Bool-cases, get_elem?, set, length,
  lt-get_elem?, get_elem?-set_self, get_elem?-lt,
}
use fnal_artdaq.RHandles.{
  RHandles, Status, done, is_done, any_source_active, index_from_source, post, repost, cancel_req,
  cancel_and_repost, is_source,
}
use fnal_artdaq.RHandles.Next.{is_done-eq, LastPosted}
use fnal_artdaq.RHandles.Serving.{IsServed, SameStatuses, Kept, IsServed-Kept, repost_lem}
use fnal_artdaq.RHandles.Receive.{repost_for}

-- Cancelling a request touches no source.
cancelled :
    {F : Type 0} (cancels : ℕ → Bool) (buf : ℕ) (s : RHandles F)
    → cancels buf ≡ true
    → cancel_req cancels buf s ≡ ok (record s { reqs = set s.reqs buf true })
unfolding cancel_req
cancelled cancels buf s e = rw e refl

IsServed-reqs :
    {F : Type 0} (s : RHandles F) (reqs : List Bool)
    → IsServed s
    → IsServed (record s { reqs = reqs })
unfolding any_source_active
IsServed-reqs s reqs v = record {
  last = v.last;
  last_posted = record {
    sized = v.last_posted.sized;
    posted = v.last_posted.posted;
    inside = v.last_posted.inside;
  };
  served = elim v.served [
    | inl idle ↦ inl idle
    | inr (b, h) ↦ inr (
      b,
      record { status = h.status; status_is = h.status_is; active = h.active; posted = h.posted },
    )
  ];
}

is_source-eq : (src : ℕ) (posted : Option ℕ) → is_source src posted ≡ true → posted ≡ some src
is_source-eq src none h = ground (arith, h)
is_source-eq src (some p) h = let e : src ≡ p = ground (arith, h) in ap some (sym e)

-- One turn of the loop of `cancelAndRepost_`.
abbrev turn : {F : Type 0} → (ℕ → Bool) → ℕ → ℕ → Option ℕ → RHandles F → Outcome (RHandles F)
turn cancels src i posted s =
    if is_source src posted then (cancel_req cancels i s >>= repost i) else ok s

turn_lem :
    {F : Type 0} (cancels : ℕ → Bool) (src i : ℕ) (posted : Option ℕ) (s : RHandles F)
    → IsServed s
    → s.src_start ≤ src
    → get_elem? s.src_status (src - s.src_start) ≡ some done
    → get_elem? s.req_sources i ≡ some posted
    → ((k : ℕ) → cancels k ≡ true)
    → (t : RHandles F) × (turn cancels src i posted s ≡ ok t) × IsServed t × SameStatuses s t
turn_lem cancels src i posted s v low over e succeeds = elim (Bool-cases (is_source src posted)) [
  | inl mine ↦
      let w = IsServed-reqs s (set s.reqs i true) v in
      let e' : get_elem? s.req_sources i ≡ some (some src) =
        e ∙ ap some (is_source-eq src posted mine) in
      let kept = IsServed-Kept (record s { reqs = set s.reqs i true }) src i w low over e' in
      let (t, run, served, same) =
        repost_lem i w.last (record s { reqs = set s.reqs i true }) (lt-get_elem? s.req_sources i e)
          w.last_posted kept in
      (t, rw (mine, cancelled cancels i s (succeeds i)) run, served, same)
  | inr other ↦ (s, rw other refl, v, (refl, refl, refl, refl))
]

cancel_and_repost_lem :
    {F : Type 0} (cancels : ℕ → Bool) (src left i : ℕ) (s : RHandles F)
    → IsServed s
    → s.src_start ≤ src
    → get_elem? s.src_status (src - s.src_start) ≡ some done
    → i + left ≡ length s.req_sources
    → ((k : ℕ) → cancels k ≡ true)
    → (t : RHandles F) × (cancel_and_repost cancels src left i s ≡ ok t) × IsServed t
unfolding cancel_and_repost
cancel_and_repost_lem cancels src zero i s v low over size succeeds = (s, refl, v)
cancel_and_repost_lem cancels src (suc left) i s v low over size succeeds =
    let (posted, e) = get_elem?-lt s.req_sources i (omega (arith, size)) in
    let (t, first, served, (statuses, start, same_size, _)) =
      turn_lem cancels src i posted s v low over e succeeds in
    let over' : get_elem? t.src_status (src - t.src_start) ≡ some done =
      rw (statuses, start) over in
    let (u, run, done_all) =
      cancel_and_repost_lem cancels src left (i + 1) t served (omega (arith, start, low)) over'
        (omega (arith, same_size, size)) succeeds in
    (u, rw (e, first) run, done_all)

-- What the repost starts from: the buffer `which` was posted for `src`, and the source last posted
-- is done or served by another buffer, unless it is `src` itself.
pub record Taken {F : Type 0} (s : RHandles F) (which src last : ℕ) : Type 0 where
  pub low : s.src_start ≤ src
  pub high : src < s.src_start + s.src_count
  pub mine : get_elem? s.req_sources which ≡ some (some src)
  pub buffers : length s.req_sources ≡ s.buffer_count
  pub last_posted : LastPosted s last

repost_for-done :
    {F : Type 0} (cancels : ℕ → Bool) (which src : ℕ) (s t : RHandles F) (status : Status)
    → get_elem? s.src_status (src - s.src_start) ≡ some status
    → is_done status ≡ true
    → repost which s ≡ ok t
    → repost_for cancels which src s ≡ cancel_and_repost cancels src s.buffer_count 0 t
unfolding repost_for index_from_source
repost_for-done cancels which src s t status e over first = rw (e, over, first) refl

repost_for-active :
    {F : Type 0} (cancels : ℕ → Bool) (which src : ℕ) (s : RHandles F) (status : Status)
    → get_elem? s.src_status (src - s.src_start) ≡ some status
    → is_done status ≡ false
    → repost_for cancels which src s ≡ ok (post which src s)
unfolding repost_for index_from_source
repost_for-active cancels which src s status e active = rw (e, active) refl

pub repost_for_lem :
    {F : Type 0} (cancels : ℕ → Bool) (which src : ℕ) (s : RHandles F) (last : ℕ)
    → (taken : Taken s which src last)
    → ((last_active : get_elem? s.src_status (src - s.src_start) ≡ some done) → Kept s last which)
    → ((k : ℕ) → cancels k ≡ true)
    → (t : RHandles F) × (repost_for cancels which src s ≡ ok t) × IsServed t
unfolding post
repost_for_lem cancels which src s last taken kept succeeds =
    let p = taken.last_posted in
    let low = taken.low in
    let high = taken.high in
    let sized = p.sized in
    let (status, e) =
      get_elem?-lt s.src_status (src - s.src_start) (omega (arith, sized, low, high)) in
    let bound = lt-get_elem? s.req_sources which taken.mine in
    elim (Bool-cases (is_done status)) [
      | inl over ↦
          let is : get_elem? s.src_status (src - s.src_start) ≡ some done =
            e ∙ ap some (is_done-eq status over) in
          let (t, first, served, (statuses, start, size, count)) =
            repost_lem which last s bound p (kept is) in
          let is' : get_elem? t.src_status (src - t.src_start) ≡ some done =
            rw (statuses, start) is in
          let buffers = taken.buffers in
          let (u, run, done_all) =
            cancel_and_repost_lem cancels src s.buffer_count 0 t served (omega (arith, start, low))
              is' (omega (arith, size, buffers)) succeeds in
          (u, repost_for-done cancels which src s t status e over first ∙ run, done_all)
      | inr active ↦ (
        post which src s,
        repost_for-active cancels which src s status e active,
        record {
          last = src - s.src_start;
          last_posted = record {
            sized = p.sized;
            posted = ap some (omega (arith, low));
            inside = omega (arith, low, high);
          };
          served = inr (
            which,
            record {
              status = status;
              status_is = e;
              active = active;
              posted =
                  get_elem?-set_self s.req_sources which (some src) bound
                  ∙ ap (λ r. some (some r)) (omega (arith, low));
            },
          );
        },
      )
    ]
