-- ===== src/RHandles/Taking.antt =====
-- One arrival: `recvFragment` from the arrival on.
use fnal_artdaq.Base.{
  ◌⊎◌, inl, inr, ℕ, ◌+◌, ◌-◌, ◌≤◌, ◌<◌, ◌≡◌, refl, sym, ap, ◌∙◌, Bool, true, false, some, ok, fault,
  ◌==◌, if◌then◌else◌, arith, logic_error, ℕ_discrete, get_elem?, length, subst,
}
use fnal_artdaq.ArtdaqCore.{ArtdaqCore}
use fnal_artdaq.RHandles.{RHandles, Arrival, Status, done, any_source_active, index_from_source}
use fnal_artdaq.RHandles.Accounts.{Source, SameOthers}
use fnal_artdaq.RHandles.Accounting.{is_eod, account_lem}
use fnal_artdaq.RHandles.Serving.{IsServed, Kept}
use fnal_artdaq.RHandles.Reposting.{Taken, repost_for_lem}
use fnal_artdaq.RHandles.Receive.{from, take}

-- An arrival as MPI reports it: the request of its buffer is null, and the buffer was posted for its
-- source, which is one of the sources.
pub record Arrives {F : Type 0} (a : Arrival F) (s : RHandles F) : Type 0 where
  pub buffer : ℕ
  pub which_is : a.which ≡ some buffer
  pub null : get_elem? s.reqs buffer ≡ some true
  pub mine : get_elem? s.req_sources buffer ≡ some (some a.source)
  pub low : s.src_start ≤ a.source
  pub high : a.source < s.src_start + s.src_count
  pub buffers : length s.req_sources ≡ s.buffer_count

Taken-account :
    {F : Type 0} (a : Arrival F) (s t : RHandles F) (v : IsServed s) (arrives : Arrives a s)
    → SameOthers a.source s t
    → Taken t arrives.buffer a.source v.last
Taken-account a s t v arrives others =
    let start : t.src_start ≡ s.src_start = ap (λ x. x.src_start) others.frame in
    let count : t.src_count ≡ s.src_count = ap (λ x. x.src_count) others.frame in
    let sources : t.req_sources ≡ s.req_sources = ap (λ x. x.req_sources) others.frame in
    let buffers : t.buffer_count ≡ s.buffer_count = ap (λ x. x.buffer_count) others.frame in
    let p = v.last_posted in
    record {
      low = let h = arrives.low in omega (arith, start, h);
      high = let h = arrives.high in omega (arith, start, count, h);
      mine = ap (λ l. get_elem? l arrives.buffer) sources ∙ arrives.mine;
      buffers = ap length sources ∙ arrives.buffers ∙ sym buffers;
      last_posted = record {
        sized = others.same_size ∙ p.sized ∙ sym count;
        posted =
            ap (λ x. x.last_source_posted) others.frame
            ∙ p.posted
            ∙ ap (λ n. some (v.last + n)) (sym start);
        inside = let h = p.inside in omega (arith, count, h);
      };
    }

Kept-account :
    {F : Type 0} (a : Arrival F) (s t : RHandles F) (v : IsServed s) (arrives : Arrives a s)
    → SameOthers a.source s t
    → any_source_active s ≡ true
    → get_elem? t.src_status (a.source - t.src_start) ≡ some done
    → Kept t v.last arrives.buffer
unfolding index_from_source
Kept-account a s t v arrives others active over =
    let start : t.src_start ≡ s.src_start = ap (λ x. x.src_start) others.frame in
    let sources : t.req_sources ≡ s.req_sources = ap (λ x. x.req_sources) others.frame in
    elim v.served [
      | inl idle ↦ absurd (ground (arith, active, idle))
      | inr (b, h) ↦ elim (ℕ_discrete v.last (a.source - s.src_start)) [
        | yes here ↦
            let index : v.last ≡ a.source - t.src_start =
              here ∙ ap (λ n. a.source - n) (sym start) in
            inl (ap (get_elem? t.src_status) index ∙ over)
        | no ne ↦ inr (
          b,
          λ same.
              let e : some (some (v.last + s.src_start)) ≡ some (some (a.source)) =
                sym h.posted ∙ ap (get_elem? s.req_sources) same ∙ arrives.mine in
              let n : v.last + s.src_start ≡ a.source = ground (arith, e) in ne (omega (arith, n)),
          record {
            status = h.status;
            status_is =
                subst
                  (λ x. get_elem? t.src_status v.last ≡ (
                    if x
                    then get_elem? t.src_status (a.source - s.src_start)
                    else get_elem? s.src_status v.last))
                  (let tested : (v.last == a.source - s.src_start) ≡ false = ground (arith, ne) in
                    tested)
                  (others.statuses v.last)
                ∙ h.status_is;
            active = h.active;
            posted =
                ap (λ l. get_elem? l b) sources
                ∙ h.posted
                ∙ ap (λ n. some (some (v.last + n))) (sym start);
          },
        )
      ]
    ]

module _ {F E : Type 0} (core : ArtdaqCore F E) (cancels : ℕ → Bool) where
  -- An arrival while some source is active, from a source whose accounts are `status`, `expected`
  -- and `n`, in an object that is served, that is, in which the source last posted is not done and a
  -- buffer is posted for it, if any source is active. If MPI can cancel requests, the fragment and
  -- its source are returned and the object is served again; or it is a fragment of data from a
  -- source that is done, which is an error.
  pub take_lem :
      (a : Arrival F) (s : RHandles F) (status : Status) (expected n : ℕ)
      → IsServed s
      → any_source_active s ≡ true
      → Arrives a s
      → Source s a.source status expected n
      → ((k : ℕ) → cancels k ≡ true)
      → ((is_eod core a.fragment ≡ false)
          × (status ≡ done)
          × (take core cancels a s ≡ fault logic_error))
        ⊎ ((t : RHandles F) × (take core cancels a s ≡ ok (from a.source a.fragment, t))
            × IsServed t)
  unfolding take
  take_lem a s status expected n v active arrives source succeeds =
      elim (account_lem core a.source a.fragment s status expected n source) [
        | inl (regular, over, bad) ↦
            inl (regular, over, rw (arrives.which_is, arrives.null, bad) refl)
        | inr (t, run, _, others) ↦
            let (u, reposted, served) =
              repost_for_lem cancels arrives.buffer a.source t v.last
                (Taken-account a s t v arrives others) (Kept-account a s t v arrives others active)
                succeeds in
            inr (u, rw (arrives.which_is, arrives.null, run, reposted) refl, served)
      ]
