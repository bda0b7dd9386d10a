-- ===== src/RHandles/Opening.antt =====
-- A new receiver is served.
use fnal_artdaq.Base.{
  ◌⊎◌, inl, inr, ℕ, zero, suc, ◌+◌, ◌%◌, ◌≤◌, ◌<◌, ◌≡◌, refl, sym, ap, ◌∙◌, false, Option, none,
  some, ok, fault, configuration, ◌==◌, arith, get_elem?, length, length-set, replicate,
  length-replicate, get_elem?-replicate, get_elem?-set_self, mod-lt,
}
use fnal_artdaq.RHandles.{RHandles, Status, sending, is_done, post, post_all, initial}
use fnal_artdaq.RHandles
use fnal_artdaq.RHandles.Serving.{IsServed}

post-IsServed :
    {F : Type 0} (n buf i : ℕ) (s : RHandles F)
    → s.src_status ≡ replicate n sending
    → s.src_count ≡ n
    → i < n
    → buf < length s.req_sources
    → IsServed (post buf (i + s.src_start) s)
unfolding post
post-IsServed n buf i s statuses count low inside = record {
  last = i;
  last_posted = record {
    sized = ap length statuses ∙ length-replicate n sending ∙ sym count;
    posted = refl;
    inside = omega (arith, count, low);
  };
  served = inr (
    buf,
    record {
      status = sending;
      status_is = ap (λ l. get_elem? l i) statuses ∙ get_elem?-replicate n i sending low;
      active = refl;
      posted = get_elem?-set_self s.req_sources buf (some (i + s.src_start)) inside;
    },
  );
}

low_count : {F : Type 0} {n : ℕ} (s : RHandles F) → s.src_count ≡ n → 0 < n → 0 < s.src_count
low_count s count h = omega (arith, count, h)

nonzero : (n : ℕ) → (suc n == 0) ≡ false
nonzero n = ground arith

-- The constructor's loop leaves the object served if it posts a buffer or the object is.
post_all-IsServed :
    {F : Type 0} (n left i : ℕ) (s : RHandles F)
    → s.src_status ≡ replicate n sending
    → s.src_count ≡ n
    → 0 < n
    → i + left ≤ length s.req_sources
    → (0 < left) ⊎ IsServed s
    → IsServed (post_all left i s)
unfolding post_all post
post_all-IsServed n zero i s statuses count some_source size (inl bad) = elim bad [ ]
post_all-IsServed n zero i s statuses count some_source size (inr served) = served
post_all-IsServed n (suc left) i s statuses count some_source size _ =
    post_all-IsServed n left (i + 1) (post i (i % s.src_count + s.src_start) s) statuses count
      some_source
      (let e = length-set s.req_sources i (some (i % s.src_count + s.src_start)) in
        omega (arith, e, size))
      (inr (
        post-IsServed n i (i % s.src_count) s statuses count
          (let h = mod-lt i (low_count s count some_source) in omega (arith, h, count))
          (omega (arith, size))))

-- The constructor refuses to work without sources or buffers; otherwise the new object is served.
pub new-IsServed :
    {F : Type 0} (buffers size n start : ℕ)
    → ((buffers ≡ 0) × (RHandles.new {F = F} buffers size n start ≡ fault configuration))
      ⊎ ((n ≡ 0) × (RHandles.new {F = F} buffers size n start ≡ fault configuration))
      ⊎ ((s : RHandles F) × (RHandles.new {F = F} buffers size n start ≡ ok s) × IsServed s)
unfolding RHandles.new initial
new-IsServed {F} buffers size zero start = inr (inl (refl, refl))
new-IsServed {F} zero size (suc n) start = inl (refl, rw (nonzero n) refl)
new-IsServed {F} (suc buffers) size (suc n) start = inr (
    inr (
      post_all (suc buffers) 0 (initial (suc buffers) size (suc n) start),
      rw (nonzero n, nonzero buffers) refl,
      post_all-IsServed (suc n) (suc buffers) 0 (initial (suc buffers) size (suc n) start) refl refl
          (omega arith)
          (let e = length-replicate {A = Option ℕ} (suc buffers) none in omega (arith, e))
          (inl (omega arith)),
    ))
