-- ===== src/RHandles/Serving.antt =====
-- While a source is active, a buffer is posted for a source that is.
use fnal_artdaq.Base.{
  ◌⊎◌, inl, inr, ℕ, zero, suc, ◌+◌, ◌-◌, ◌%◌, ◌≤◌, ◌<◌, ◌≡◌, refl, sym, ap, ◌∙◌, List, [], ◌∷◌,
  ◌||◌, true, false, not, Option, none, some, ok, ◌==◌, ◌≢◌, if◌then◌else◌, arith, Bool-cases,
  ℕ_discrete, get_elem?, set, length, lt-get_elem?, get_elem?-set_self, get_elem?-set_ne,
  length-set, subst,
}
use fnal_artdaq.RHandles.{
  RHandles, Status, done, is_done, any_active, any_source_active, post, next_source, repost,
}
use fnal_artdaq.RHandles.Next.{
  is_done-eq, before, wrap, LastPosted, Found, AllDone, rank_of, next_source_lem,
}

-- The source at the index `i` is not done, and the buffer `b` is posted for it.
pub record Holds {F : Type 0} (s : RHandles F) (i b : ℕ) : Type 0 where
  pub status : Status
  pub status_is : get_elem? s.src_status i ≡ some status
  pub active : is_done status ≡ false
  pub posted : get_elem? s.req_sources b ≡ some (some (i + s.src_start))

-- If a source is active, the one last posted is, and a buffer is posted for it.
pub record IsServed {F : Type 0} (s : RHandles F) : Type 0 where
  pub last : ℕ
  pub last_posted : LastPosted s last
  pub served : (any_source_active s ≡ false) ⊎ ((b : ℕ) × Holds s last b)

-- The statuses and the ranges are the same.
abbrev pub SameStatuses : {F : Type 0} → RHandles F → RHandles F → Type 0
SameStatuses s t =
    (t.src_status ≡ s.src_status)
    × (t.src_start ≡ s.src_start)
    × (length t.req_sources ≡ length s.req_sources)
    × (t.buffer_count ≡ s.buffer_count)

-- The source last posted is done, or served by another buffer.
abbrev pub Kept : {F : Type 0} → RHandles F → ℕ → ℕ → Type 0
Kept s i buf = (get_elem? s.src_status i ≡ some done) ⊎ ((b : ℕ) × (b ≢ buf) × Holds s i b)

any_active-all_done :
    (l : List Status) → ((k : ℕ) → k < length l → get_elem? l k ≡ some done) → any_active l ≡ false
any_active-all_done [] all = refl
any_active-all_done (a ∷ l) all =
    let first : a ≡ done = ground (arith, all 0 (omega arith)) in
    rw first (any_active-all_done l (λ k h. all (suc k) (omega (arith, h))))

before-all :
    (n i k : ℕ) → i < n → k < n → k ≢ i → before n (if i + 1 == n then 0 else i + 1) i k ≡ true
before-all n i k low high ne = ground arith

-- The one at `i` is done, and so are all the others.
AllDone-any :
    (l : List Status) (i : ℕ)
    → i < length l
    → get_elem? l i ≡ some done
    → AllDone l ((i + 1) % length l) i
    → any_active l ≡ false
AllDone-any l i low last others = any_active-all_done l (λ k h. elim (ℕ_discrete k i) [
  | yes same ↦ ap (get_elem? l) same ∙ last
  | no ne ↦
      subst (λ c. get_elem? l k ≡ (if before (length l) c i k then some done else get_elem? l k))
        (wrap (length l) i low) (others k)
      ∙ ap (λ b. if b then some done else get_elem? l k) (before-all (length l) i k low h ne)
])

repost-Found :
    {F : Type 0} (buf i : ℕ) (s : RHandles F) (next : Option ℕ)
    → buf < length s.req_sources
    → LastPosted s i
    → Kept s i buf
    → next_source s ≡ ok (rank_of s next)
    → Found s.src_status ((i + 1) % length s.src_status) i next
    → (t : RHandles F) × (repost buf s ≡ ok t) × IsServed t × SameStatuses s t
unfolding repost post any_source_active
repost-Found buf i s none low v kept run found = (
  record s { req_sources = set s.req_sources buf none },
  rw run refl,
  record {
    last = i;
    last_posted = record { sized = v.sized; posted = v.posted; inside = v.inside };
    served = elim kept [
      | inl over ↦ inl (AllDone-any s.src_status i (omega (arith, v.sized, v.inside)) over found)
      | inr (b, ne, h) ↦ inr (
        b,
        record {
          status = h.status;
          status_is = h.status_is;
          active = h.active;
          posted = get_elem?-set_ne s.req_sources buf b none (λ e. ne (sym e)) ∙ h.posted;
        },
      )
    ];
  },
  (refl, refl, length-set s.req_sources buf none, refl),
)
repost-Found buf i s (some j) low v kept run (status, e, active, _, _) = (
  post buf (j + s.src_start) s,
  rw run refl,
  record {
    last = j;
    last_posted = record {
      sized = v.sized;
      posted = refl;
      inside = let h = lt-get_elem? s.src_status j e in omega (arith, h, v.sized);
    };
    served = inr (
      buf,
      record {
        status = status;
        status_is = e;
        active = active;
        posted = get_elem?-set_self s.req_sources buf (some (j + s.src_start)) low;
      },
    );
  },
  (refl, refl, length-set s.req_sources buf (some (j + s.src_start)), refl),
)

pub repost_lem :
    {F : Type 0} (buf i : ℕ) (s : RHandles F)
    → buf < length s.req_sources
    → LastPosted s i
    → Kept s i buf
    → (t : RHandles F) × (repost buf s ≡ ok t) × IsServed t × SameStatuses s t
repost_lem buf i s low v kept =
    let (next, run, found) = next_source_lem s i v in repost-Found buf i s next low v kept run found

any_active-false :
    (l : List Status) (i : ℕ) → i < length l → any_active l ≡ false → get_elem? l i ≡ some done
any_active-false [] i low idle = elim low [ ]
any_active-false (a ∷ l) zero low idle = ap some (elim (Bool-cases (is_done a)) [
  | inl over ↦ is_done-eq a over
  | inr active ↦ absurd (ground (arith, idle, active))
])
any_active-false (a ∷ l) (suc i) low idle =
    any_active-false l i (omega (arith, low)) (elim (Bool-cases (is_done a)) [
      | inl over ↦ sym (ap (λ b. not b || any_active l) over) ∙ idle
      | inr active ↦ absurd (ground (arith, idle, active))
    ])

-- A buffer of a source that is done is not the one that serves the source last posted.
pub IsServed-Kept :
    {F : Type 0} (s : RHandles F) (src buf : ℕ) (v : IsServed s)
    → s.src_start ≤ src
    → get_elem? s.src_status (src - s.src_start) ≡ some done
    → get_elem? s.req_sources buf ≡ some (some src)
    → Kept s v.last buf
unfolding any_source_active
IsServed-Kept s src buf v low over mine = elim v.served [
  | inl idle ↦ inl (
      any_active-false s.src_status v.last
        (let p = v.last_posted in omega (arith, p.sized, p.inside)) idle)
  | inr (b, h) ↦ inr (
    b,
    λ same.
        let e : some (some (v.last + s.src_start)) ≡ some (some src) =
          sym h.posted ∙ ap (get_elem? s.req_sources) same ∙ mine in
        let n : v.last + s.src_start ≡ src = ground (arith, e) in
        let index : v.last ≡ src - s.src_start = omega (arith, n) in
        let st = sym h.status_is ∙ ap (get_elem? s.src_status) index ∙ over in
        let active = h.active in absurd (ground (arith, st, active)),
    h,
  )
]
