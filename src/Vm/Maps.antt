-- ===== src/Vm/Maps.antt =====
-- `walk` and `mappages` of vm.c as changes of the map from addresses to entries.
use team.Common.{
  ℕ, zero, suc, ◌+◌, ◌-◌, ◌*◌, ◌/◌, ◌%◌, ◌^◌, ◌≤◌, ◌<◌, ◌≡◌, refl, ◌≢◌, ap, sym, ◌∙◌, Bool, true,
  false, Option, none, some, ◌==◌, ◌&&◌, ◌||◌, not, if◌then◌else◌, ltb, leb, arith, ◌⊎◌, inl, inr,
  Bool-cases, ℕ_discrete, ne→==false, lt→leb-false,
}
use team.Common.Outcome.{Outcome, done}
use team.Kalloc.{pgsize}
use team.Vm.{
  is_valid, leaf_pte, maxva, Slot, Pages, Tables, walk_level, walk, write, map_loop, mappages,
}
use team.Vm.Tree.{
  key, leaf, entry_at, translate, IsTree, at_top, leaf-tag, put-upper, translate-put,
}
use team.Vm.Walk.{Supplies, Spare, Exhausted, Drawn, Drawn-Exhausted, walk_level-Walked}

-- `va` is in the `n` pages from `a` on.
abbrev pub inside : ℕ → ℕ → ℕ → Bool
inside a n va = leb a va && ltb va (a + n * pgsize)

module _ (pages : Pages) (sup : Supplies pages) where
  open pages use {State}

  -- The pages under `root` form a tree of page tables, none of which is free.
  pub record IsTable (root : ℕ) (t : Tables State) : Type 0 where
    pub tag : ℕ → Option (ℕ × ℕ)
    pub tree : IsTree tag root t.pte
    pub spare : Spare pages sup t.supply tag

  -- The tables translate every address to the same entry.
  abbrev pub SameMap : ℕ → Tables State → Tables State → Type 0
  SameMap root t t' = (va : ℕ) → va < maxva → translate t'.pte root va ≡ translate t.pte root va

  -- `walk` with `alloc`, from a tree of page tables and for an address below MAXVA, does not panic:
  -- it ends at the entry for the address, after it drew pages from `kalloc` or none, or nowhere, and
  -- then the last `kalloc` gave 0. Either way the tables it leaves are a tree and translate every
  -- address as before.
  pub walk-SameMap :
      (root va : ℕ) (t : Tables State)
      → IsTable root t
      → va < maxva
      → (r : Option Slot) × (t' : Tables State) × (walk pages root va true t ≡ done (r, t'))
        × IsTable root t'
        × SameMap root t t'
        × (((r ≡ none) × Exhausted pages t.supply t'.supply)
            ⊎ ((slot : Slot) × (r ≡ some slot)
                × (leaf t'.pte 2 va root ≡ some slot)
                × Drawn pages t.supply t'.supply))
  unfolding walk translate
  walk-SameMap root va t it lt =
      let w =
        walk_level-Walked pages sup 2 va root root it.tag t (omega arith) it.tree it.spare
          (at_top it.tag root t.pte it.tree va (omega arith)) in
      (
        (walk_level pages 2 true va root t).0,
        (walk_level pages 2 true va root t).1,
        rw (lt→leb-false _ _ lt),
        record { tag = w.tag'; tree = w.tree; spare = w.spare },
        λ va' h.
            w.same 2 va' root (omega arith) (at_top it.tag root t.pte it.tree va' (omega arith)),
        w.ends,
      )

  -- An entry of the last level is written.
  pub write-IsTable :
      (root va q i v : ℕ) (t : Tables State)
      → IsTable root t
      → va < maxva
      → leaf t.pte 2 va root ≡ some (q, i)
      → IsTable root (write pages q i v t)
        × ((va' : ℕ)
            → va' < maxva
            → translate (write pages q i v t).pte root va'
              ≡ (if va' / 2 ^ 12 == va / 2 ^ 12 then v else translate t.pte root va'))
  write-IsTable root va q i v t it lt e =
      let (at_q, is_px) =
        leaf-tag it.tag root t.pte it.tree 2 va root q i (omega arith)
          (at_top it.tag root t.pte it.tree va (omega arith)) e in
      let upper = put-upper it.tag root t.pte it.tree q i v (key 0 va) at_q in
      (
        record {
          tag = it.tag;
          tree = record {
            top = it.tree.top;
            child = λ p l k j at lt' valid.
                ap (λ x. it.tag (team.Vm.pte2pa x)) (upper p l k j at)
                ∙ it.tree.child p l k j at lt' (sym (ap is_valid (upper p l k j at)) ∙ valid);
          };
          spare = it.spare;
        },
        λ va' h. translate-put it.tag root t.pte it.tree va q i v va' (omega arith) (omega arith) e,
      )

  -- What `mappages` makes of `k` pages from `a` on, which are to be those from `pa` on: the first
  -- `n` of them are mapped, all if it says so, and fewer only when `kalloc` has no page left.
  pub record Mapped (root a pa perm k : ℕ) (t : Tables State)
      (r : Option (Outcome (Bool × Tables State))) : Type 0 where
    pub ok : Bool
    pub after : Tables State
    pub returns : r ≡ some (done (ok, after))
    pub valid : IsTable root after
    pub n : ℕ
    pub part : n ≤ k
    pub all : ok ≡ true → n ≡ k
    pub fails : ok ≡ false → (n < k) × Exhausted pages t.supply after.supply
    pub maps :
        (va : ℕ)
        → va < maxva
        → translate after.pte root va ≡ (
            if inside a n va
            then leaf_pte (pa + (va - a) / pgsize * pgsize) perm
            else translate t.pte root va)

  -- One page more in front.
  extend_range :
      (a n pa perm va old : ℕ)
      → a % pgsize ≡ 0
      → (if inside (a + pgsize) n va
          then leaf_pte (pa + pgsize + (va - (a + pgsize)) / pgsize * pgsize) perm
          else (if va / 2 ^ 12 == a / 2 ^ 12 then leaf_pte pa perm else old))
        ≡ (if inside a (suc n) va then leaf_pte (pa + (va - a) / pgsize * pgsize) perm else old)
  extend_range a n pa perm va old h = elim (ℕ_discrete (va / 2 ^ 12) (a / 2 ^ 12)) [
    | yes page ↦
        let here : inside a (suc n) va ≡ true = ground arith in
        let past : inside (a + pgsize) n va ≡ false = ground arith in
        let same : (va / 2 ^ 12 == a / 2 ^ 12) ≡ true = ground arith in
        let start : pa ≡ pa + (va - a) / pgsize * pgsize = omega arith in
        rw (here, past, same) (ap (λ x. leaf_pte x perm) start)
    | no other ↦ elim (Bool-cases (inside a (suc n) va)) [
      | inl here ↦
          let later : inside (a + pgsize) n va ≡ true = ground arith in
          let offset : pa + pgsize + (va - (a + pgsize)) / pgsize * pgsize
              ≡ pa + (va - a) / pgsize * pgsize =
            ground arith in
          rw (here, later) (ap (λ x. leaf_pte x perm) offset)
      | inr out ↦
          let past : inside (a + pgsize) n va ≡ false = ground arith in
          rw (out, past, ne→==false other)
    ]
  ]

  nothing_inside : (a va : ℕ) → inside a 0 va ≡ false
  nothing_inside a va = ground arith

  -- The one page of `a`.
  one_page :
      (a pa perm va old : ℕ)
      → a % pgsize ≡ 0
      → (if va / 2 ^ 12 == a / 2 ^ 12 then leaf_pte pa perm else old)
        ≡ (if inside a 1 va then leaf_pte (pa + (va - a) / pgsize * pgsize) perm else old)
  one_page a pa perm va old h =
      let past : inside (a + pgsize) 0 va ≡ false = ground arith in
      rw past at (extend_range a 0 pa perm va old h)

  -- Pages that are still to be mapped are not, once the page of `a` is.
  still_new :
      (root a v last : ℕ) (t t2 : Tables State)
      → a % pgsize ≡ 0
      → last + pgsize ≤ maxva
      → ((va : ℕ)
          → va < maxva
          → translate t2.pte root va
            ≡ (if va / 2 ^ 12 == a / 2 ^ 12 then v else translate t.pte root va))
      → ((va : ℕ) → a ≤ va → va < last + pgsize → is_valid (translate t.pte root va) ≡ false)
      → (va : ℕ) → a + pgsize ≤ va
      → va < last + pgsize
      → is_valid (translate t2.pte root va) ≡ false
  still_new root a v last t t2 al below maps new va lo hi =
      let other : va / 2 ^ 12 ≢ a / 2 ^ 12 = λ e. absurd (omega arith) in
      ap is_valid (rw (ne→==false other) at (maps va (omega arith))) ∙ new va (omega arith) hi

  map_loop-Mapped :
      (f k root a last pa perm : ℕ) (t : Tables State)
      → IsTable root t
      → k < f
      → a % pgsize ≡ 0
      → last ≡ a + k * pgsize
      → last + pgsize ≤ maxva
      → ((va : ℕ) → a ≤ va → va < last + pgsize → is_valid (translate t.pte root va) ≡ false)
      → Mapped root a pa perm (suc k) t (map_loop pages f root a last pa perm t)
  unfolding translate entry_at map_loop
  map_loop-Mapped zero k root a last pa perm t it fuel al at below new = absurd (omega arith)
  map_loop-Mapped (suc f) k root a last pa perm t it fuel al at below new =
      let lt : a < maxva = omega arith in
      let (r, t1, walks, it1, same, ends) = walk-SameMap root a t it lt in
      elim ends [
        | inl (nowhere, out) ↦
            rw (map_loop, walks, nowhere)
              (record {
                ok = false;
                after = t1;
                returns = refl;
                valid = it1;
                n = 0;
                part = omega arith;
                all = λ e. cc;
                fails = λ e. (omega arith, out);
                maps = λ va h. same va h ∙ rw (nothing_inside a va);
              })
        | inr ((q, i), is, there, drawn) ↦
            let v : ℕ = leaf_pte pa perm in
            let t2 : Tables State = write pages q i v t1 in
            let (it2, maps) = write-IsTable root a q i v t1 it1 lt there in
            let old : translate t1.pte root a ≡ t1.pte q i = rw there in
            let bad : is_valid (t1.pte q i) ≡ false =
              sym (ap is_valid old) ∙ ap is_valid (same a lt) ∙ new a (omega arith) (omega arith) in
            let maps' = λ (va : ℕ) (h : va < maxva).
              maps va h ∙ ap (λ x. if va / 2 ^ 12 == a / 2 ^ 12 then v else x) (same va h) in
            elim (ℕ_discrete a last) [
              | yes end ↦
                  let tested : (a == last) ≡ true = ground arith in
                  rw (map_loop, walks, is, bad, tested)
                    (record {
                      ok = true;
                      after = t2;
                      returns = refl;
                      valid = it2;
                      n = 1;
                      part = omega arith;
                      all = λ e. omega arith;
                      fails = λ e. cc;
                      maps =
                          λ va h. maps' va h ∙ one_page a pa perm va (translate t.pte root va) al;
                    })
              | no more ↦
                  let m =
                    map_loop-Mapped f (k - 1) root (a + pgsize) last (pa + pgsize) perm t2 it2
                      (omega arith) (omega arith) (omega arith) below
                      (still_new root a v last t t2 al below maps' new) in
                  rw (map_loop, walks, is, bad, ne→==false more)
                    (record {
                      ok = m.ok;
                      after = m.after;
                      returns = m.returns;
                      valid = m.valid;
                      n = suc m.n;
                      part = omega (arith, m.part);
                      all = λ e. omega (arith, m.all e);
                      fails =
                          λ e. (omega (arith, (m.fails e).0), Drawn-Exhausted drawn (m.fails e).1);
                      maps = λ va h.
                          m.maps va h
                          ∙ ap
                              (λ x.
                                if inside (a + pgsize) m.n va
                                then leaf_pte (pa + pgsize + (va - (a + pgsize)) / pgsize * pgsize)
                                    perm
                                else x)
                              (maps' va h)
                          ∙ extend_range a m.n pa perm va (translate t.pte root va) al;
                    })
            ]
      ]

  -- `mappages` of aligned pages below MAXVA, none of which is mapped, to pages from `pa` on: it ends
  -- without a panic, and the tables it leaves are a tree. If it succeeds, every page of the range is
  -- translated to its page from `pa` on; if it fails, `kalloc` gave all the pages it had and then 0,
  -- and a first part of the range is mapped, not all of it. Every other address is translated as
  -- before.
  pub mappages-Mapped :
      (root va n pa perm : ℕ) (t : Tables State)
      → IsTable root t
      → va % pgsize ≡ 0
      → 0 < n
      → va + n * pgsize ≤ maxva
      → ((a : ℕ) → va ≤ a → a < va + n * pgsize → is_valid (translate t.pte root a) ≡ false)
      → Mapped root va pa perm n t (mappages pages root va (n * pgsize) pa perm t)
  unfolding mappages
  mappages-Mapped root va n pa perm t it al some_page below new =
      let pages_of : n * pgsize / pgsize ≡ n = omega arith in
      let tested : (not (va % pgsize == 0) || not (n * pgsize % pgsize == 0) || n * pgsize == 0)
          ≡ false =
        ground arith in
      let same : suc (n - 1) ≡ n = omega arith in
      rw (tested, pages_of)
        (rw same at (
          map_loop-Mapped n (n - 1) root va (va + n * pgsize - pgsize) pa perm t it (omega arith) al
            (omega arith) (omega arith) (λ a lo hi. new a lo (omega arith))))
