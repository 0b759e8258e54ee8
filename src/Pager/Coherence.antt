-- ===== src/Pager/Coherence.antt =====
-- The cache of mmap2.c lists exactly the pages that are mapped, and the handler keeps it so.
use team.Common.{
  ℕ, ◌+◌, ◌*◌, ◌≤◌, ◌<◌, ◌≡◌, refl, ◌≢◌, ap, sym, ◌∙◌, Bool, true, false, arith, ℕ_discrete, dec_lt,
  ge→ltb-false, lt→leb-false, le→leb,
}
use team.Common.Family.{update}
use team.Pager.{
  PageInfo, Pager, Fault, handled, Search, align_down, max_sqrts, entry, record_page, map_page,
  evict, handle_sigsegv,
}
use team.Pager.Victim.{Chosen, choose_victim}

-- The page `a` is in the cache, in one of the first `n` slots.
abbrev pub Cached : (ℕ → PageInfo) → ℕ → ℕ → Type 0
Cached cache n a = (i : ℕ) × (i < n) × ((cache i).base ≡ a)

-- The first `n` slots hold different pages, and those are the mapped ones.
pub record Lists (cache : ℕ → PageInfo) (n : ℕ) (mapped : ℕ → Bool) : Type 0 where
  pub distinct : (i j : ℕ) → i < n → j < n → (cache i).base ≡ (cache j).base → i ≡ j
  pub sound : (a : ℕ) → mapped a ≡ true → Cached cache n a
  pub complete : (i : ℕ) → i < n → mapped (cache i).base ≡ true

pub record Coherent {D : Type 0} (s : Pager D) : Type 0 where
  pub some_slot : 0 < s.cache_slots
  pub fits : s.cache_count ≤ s.cache_slots
  pub in_range : s.clock_hand < s.cache_slots
  pub lists : Lists s.cache s.cache_count s.mapped

abbrev put : (ℕ → PageInfo) → ℕ → PageInfo → ℕ → PageInfo
put cache i e = update cache i e

module _ (cache : ℕ → PageInfo) (n : ℕ) (mapped : ℕ → Bool) (l : Lists cache n mapped)
    (e : PageInfo) (new : mapped e.base ≡ false) where
  not_cached : (i : ℕ) → i < n → (cache i).base ≢ e.base
  not_cached i lt same = cc (l.complete i lt, ap mapped same)

  -- A page in a new slot.
  append-Lists : Lists (put cache n e) (n + 1) (update mapped e.base true)
  append-Lists = record {
    distinct = λ i j hi hj h. elim (ℕ_discrete i n) [
      | yes a ↦ elim (ℕ_discrete j n) [
        | yes b ↦ omega arith
        | no b ↦ absurd (not_cached j (omega arith) (ground arith))
      ]
      | no a ↦ elim (ℕ_discrete j n) [
        | yes b ↦ absurd (not_cached i (omega arith) (ground arith))
        | no b ↦ l.distinct i j (omega arith) (omega arith) (ground arith)
      ]
    ];
    sound = λ a h. elim (ℕ_discrete a e.base) [
      | yes same ↦ (n, omega arith, ground arith)
      | no other ↦ let (i, lt, at) = l.sound a (ground arith) in (i, omega arith, ground arith)
    ];
    complete = λ i h. elim (ℕ_discrete i n) [
      | yes a ↦ ground arith
      | no a ↦ ground (arith, l.complete i (omega arith))
    ];
  }

  -- A page in the slot `v` of another one, which is unmapped.
  replace-Lists :
      (v : ℕ)
      → v < n
      → Lists (put cache v e) n (update (update mapped (cache v).base false) e.base true)
  replace-Lists v lt = record {
    distinct = λ i j hi hj h. elim (ℕ_discrete i v) [
      | yes a ↦ elim (ℕ_discrete j v) [
        | yes b ↦ omega arith
        | no b ↦ absurd (not_cached j (omega arith) (ground arith))
      ]
      | no a ↦ elim (ℕ_discrete j v) [
        | yes b ↦ absurd (not_cached i (omega arith) (ground arith))
        | no b ↦ l.distinct i j (omega arith) (omega arith) (ground arith)
      ]
    ];
    sound = λ a h. elim (ℕ_discrete a e.base) [
      | yes same ↦ (v, lt, ground arith)
      | no other ↦
          let (i, lt', at) = l.sound a (ground arith) in
          let ne : i ≢ v = λ s. ground (arith, ap (λ k. (cache k).base) s) in (i, lt', ground arith)
    ];
    complete = λ i h. elim (ℕ_discrete i v) [
      | yes a ↦ ground arith
      | no a ↦ ground (arith, l.complete i (omega arith), l.distinct i v (omega arith) lt)
    ];
  }

-- A cache whose slots have kept their pages lists the same ones.
Lists-same_base :
    (cache left : ℕ → PageInfo) (n : ℕ) (mapped : ℕ → Bool)
    → ((i : ℕ) → (left i).base ≡ (cache i).base)
    → Lists cache n mapped
    → Lists left n mapped
Lists-same_base cache left n mapped same l = record {
  distinct = λ i j hi hj h. l.distinct i j hi hj (sym (same i) ∙ h ∙ same j);
  sound = λ a h. let (i, lt, at) = l.sound a h in (i, lt, same i ∙ at);
  complete = λ i h. ap mapped (same i) ∙ l.complete i h;
}

module _ {D : Type 0} (sqrt : ℕ → D) (mmap_ok munmap_ok : ℕ → Bool) where
  -- The fault is answered: the page is mapped, and the cache lists what is mapped.
  pub record Answered (s : Pager D) (page : ℕ) (r : Fault D) : Type 0 where
    pub after : Pager D
    pub returns : r ≡ handled after
    pub coherent : Coherent after
    pub page_mapped : after.mapped page ≡ true
    pub slots : after.cache_slots ≡ s.cache_slots
    pub faults : after.page_faults ≡ s.page_faults + 1

  -- The page in a new slot.
  answer_append :
      (s : Pager D) (page : ℕ)
      → Coherent s
      → s.cache_count < s.cache_slots
      → s.mapped page ≡ false
      → mmap_ok page ≡ true
      → Answered s page (
          map_page sqrt mmap_ok munmap_ok page
            (record (record_page s.cache_count page
              (record s { page_faults = s.page_faults + 1 })) { cache_count = s.cache_count + 1 }))
  unfolding map_page record_page entry
  answer_append s page c room new ok = rw ok (record {
    after = _;
    returns = refl;
    coherent = record {
      some_slot = c.some_slot;
      fits = omega arith;
      in_range = c.in_range;
      lists = append-Lists s.cache s.cache_count s.mapped c.lists _ new;
    };
    page_mapped = ground arith;
    slots = refl;
    faults = refl;
  })

  -- The page in the slot of the victim.
  answer_evict :
      (s : Pager D) (page : ℕ) (r : Search)
      → Coherent s
      → s.cache_count ≡ s.cache_slots
      → s.mapped page ≡ false
      → mmap_ok page ≡ true
      → ((i : ℕ) → munmap_ok (s.cache i).base ≡ true)
      → Chosen s.policy s.cache s.cache_slots s.clock_hand r
      → Answered s page
          (evict sqrt mmap_ok munmap_ok page (record s { page_faults = s.page_faults + 1 }) r)
  unfolding evict map_page record_page entry
  answer_evict s page r c full new ok unmaps ch =
      rw (ch.ends, ch.same_base ch.victim, unmaps ch.victim, ok)
        (record {
          after = _;
          returns = refl;
          coherent = record {
            some_slot = c.some_slot;
            fits = c.fits;
            in_range = ch.in_range;
            lists = rw (ch.same_base ch.victim) at (
                replace-Lists ch.left s.cache_count s.mapped
                  (Lists-same_base s.cache ch.left s.cache_count s.mapped ch.same_base c.lists)
                  (entry s.policy page (s.access_counter + 1) (ch.left ch.victim)) new ch.victim
                  (omega (arith, ch.in_cache)));
          };
          page_mapped = ground arith;
          slots = refl;
          faults = refl;
        })

-- A fault on a page of the table that is not mapped, when the calls of the kernel succeed: the
-- handler returns with the page mapped, the fault counted, and the cache listing exactly the mapped
-- pages, at most `cache_slots` of them, under each policy and whether or not a page has to go.
pub handle_sigsegv-Answered :
    {D : Type 0} (sqrt : ℕ → D) (mmap_ok munmap_ok : ℕ → Bool) (fault_addr : ℕ) (s : Pager D)
    → Coherent s
    → s.sqrts ≤ fault_addr
    → fault_addr < s.sqrts + max_sqrts * 8
    → s.mapped (align_down fault_addr s.page_size) ≡ false
    → mmap_ok (align_down fault_addr s.page_size) ≡ true
    → ((i : ℕ) → munmap_ok (s.cache i).base ≡ true)
    → Answered sqrt mmap_ok munmap_ok s
        (align_down fault_addr s.page_size)
        (handle_sigsegv sqrt mmap_ok munmap_ok fault_addr s)
unfolding handle_sigsegv
handle_sigsegv-Answered sqrt mmap_ok munmap_ok fault_addr s c lo hi new ok unmaps =
    elim (dec_lt s.cache_count s.cache_slots) [
      | yes room ↦
          rw (ge→ltb-false fault_addr s.sqrts lo, lt→leb-false _ _ hi, lt→leb-false _ _ room)
            (answer_append sqrt mmap_ok munmap_ok s _ c room new ok)
      | no full ↦
          rw
            (
              ge→ltb-false fault_addr s.sqrts lo,
              lt→leb-false _ _ hi,
              le→leb s.cache_slots s.cache_count (omega arith),
            )
            (answer_evict sqrt mmap_ok munmap_ok s _ _ c (omega (arith, c.fits)) new ok unmaps
              (choose_victim s.policy s.cache s.cache_slots s.clock_hand c.some_slot c.in_range))
    ]
