-- ===== src/Vm/Unmap.antt =====
-- `walk` without `alloc` and `uvmunmap` of vm.c.
use team.Common.{
  ℕ, zero, suc, ◌+◌, ◌*◌, ◌/◌, ◌%◌, ◌^◌, ◌≤◌, ◌<◌, ◌≡◌, refl, ◌≢◌, ap, sym, subst, ◌∙◌, true, false,
  some, ◌==◌, ◌||◌, not, if◌then◌else◌, arith, inl, inr, Bool-cases, Option-cases, ℕ_discrete,
  ne→==false, lt→leb-false,
}
use team.Common.Outcome.{Outcome, done}
use team.Kalloc.{pgsize}
use team.Vm.{
  is_valid, pte_flags, maxva, px, pte2pa, Pages, Tables, walk_level, walk, write, unmap_loop,
  uvmunmap,
}
use team.Vm.Tree.{leaf, entry_at, translate}
use team.Vm.Walk.{Supplies}
use team.Vm.Maps.{IsTable, write-IsTable, inside}

module _ (pages : Pages) where
  open pages use {State}

  walk_level-leaf :
      (l va p : ℕ) (t : Tables State) → walk_level pages l false va p t ≡ (leaf t.pte l va p, t)
  unfolding walk_level leaf
  walk_level-leaf zero va p t = refl
  walk_level-leaf (suc l) va p t = elim (Bool-cases (is_valid (t.pte p (px (suc l) va)))) [
    | inl valid ↦ rw valid (walk_level-leaf l va (pte2pa (t.pte p (px (suc l) va))) t)
    | inr bad ↦ rw bad
  ]

  -- Without `alloc`, a walk below MAXVA changes nothing.
  pub walk-leaf :
      (va p : ℕ) (t : Tables State)
      → va < maxva
      → walk pages p va false t ≡ done (leaf t.pte 2 va p, t)
  unfolding walk
  walk-leaf va p t lt = rw (lt→leb-false _ _ lt) (ap done (walk_level-leaf 2 va p t))

  -- An entry that is valid is found by the walk.
  pub found :
      (va p : ℕ) (t : Tables State)
      → is_valid (translate t.pte p va) ≡ true
      → (q i : ℕ) × (leaf t.pte 2 va p ≡ some (q, i)) × (translate t.pte p va ≡ t.pte q i)
  unfolding translate entry_at
  found va p t valid = elim (Option-cases (leaf t.pte 2 va p)) [
    | inl nowhere ↦ cc (rw (translate, nowhere) at valid)
    | inr ((q, i), there) ↦ (q, i, there, rw there)
  ]

  module _ (sup : Supplies pages) where
    -- What `uvmunmap` of `k` pages from `a` on leaves: no entry for them, the others as before.
    pub record Unmapped (root a k : ℕ) (t : Tables State) (r : Outcome (Tables State))
        : Type 0 where
      pub after : Tables State
      pub returns : r ≡ done after
      pub valid : IsTable pages sup root after
      pub maps :
          (va : ℕ)
          → va < maxva
          → translate after.pte root va ≡ (if inside a k va then 0 else translate t.pte root va)

    -- A page can be unmapped.
    abbrev pub IsLeaf : ℕ → Tables State → ℕ → Type 0
    IsLeaf root t va =
        (is_valid (translate t.pte root va) ≡ true) × (pte_flags (translate t.pte root va) ≢ 1)

    extend_unmapped :
        (a k va old : ℕ)
        → a % pgsize ≡ 0
        → (if inside (a + pgsize) k va then 0 else (if va / 2 ^ 12 == a / 2 ^ 12 then 0 else old))
          ≡ (if inside a (suc k) va then 0 else old)
    extend_unmapped a k va old h = elim (ℕ_discrete (va / 2 ^ 12) (a / 2 ^ 12)) [
      | yes page ↦
          let here : inside a (suc k) va ≡ true = ground arith in
          let past : inside (a + pgsize) k va ≡ false = ground arith in
          rw (here, past) (ground arith)
      | no other ↦ elim (Bool-cases (inside a (suc k) va)) [
        | inl here ↦ let later : inside (a + pgsize) k va ≡ true = ground arith in rw (here, later)
        | inr out ↦
            let past : inside (a + pgsize) k va ≡ false = ground arith in
            rw (out, past, ne→==false other)
      ]
    ]

    nothing : (a va : ℕ) → inside a 0 va ≡ false
    nothing a va = ground arith

    unmap_loop-Unmapped :
        (k root a : ℕ) (t : Tables State)
        → IsTable pages sup root t
        → a % pgsize ≡ 0
        → a + k * pgsize ≤ maxva
        → ((va : ℕ) → a ≤ va → va < a + k * pgsize → IsLeaf root t va)
        → Unmapped root a k t (unmap_loop pages false root k a t)
    unfolding unmap_loop
    unmap_loop-Unmapped zero root a t it al below leaves = record {
      after = t;
      returns = refl;
      valid = it;
      maps = λ va h. rw (nothing a va);
    }
    unmap_loop-Unmapped (suc k) root a t it al below leaves =
        let lt : a < maxva = omega arith in
        let (valid, flags) = leaves a (omega arith) (omega arith) in
        let (q, i, there, word) = found a root t valid in
        let (it1, maps) = write-IsTable pages sup root a q i 0 t it lt there in
        let t1 : Tables State = write pages q i 0 t in
        let tested : (not (is_valid (t.pte q i)) || pte_flags (t.pte q i) == 1) ≡ false =
          ground (arith, ap is_valid word, ap pte_flags word) in
        let m =
          unmap_loop-Unmapped k root (a + pgsize) t1 it1 (omega arith) (omega arith) (λ va lo hi.
            let other : va / 2 ^ 12 ≢ a / 2 ^ 12 = λ e. absurd (omega arith) in
            subst (λ x. (is_valid x ≡ true) × (pte_flags x ≢ 1))
              (sym (rw (ne→==false other) at (maps va (omega arith))))
              (leaves va (omega arith) (omega arith))) in
        rw (unmap_loop, walk-leaf a root t lt, there, tested)
          (record {
            after = m.after;
            returns = m.returns;
            valid = m.valid;
            maps = λ va h.
                m.maps va h
                ∙ ap (λ x. if inside (a + pgsize) k va then 0 else x) (maps va h)
                ∙ extend_unmapped a k va (translate t.pte root va) al;
          })

    -- `uvmunmap` of aligned pages below MAXVA that are all mapped, without freeing them, ends without
    -- a panic: the tables stay a tree, no address of the pages has an entry any more, and every other
    -- address is translated as before.
    pub uvmunmap-Unmapped :
        (root va n : ℕ) (t : Tables State)
        → IsTable pages sup root t
        → va % pgsize ≡ 0
        → va + n * pgsize ≤ maxva
        → ((a : ℕ) → va ≤ a → a < va + n * pgsize → IsLeaf root t a)
        → Unmapped root va n t (uvmunmap pages root va n false t)
    unfolding uvmunmap
    uvmunmap-Unmapped root va n t it al below leaves =
        let tested : not (va % pgsize == 0) ≡ false = ground arith in
        rw tested (unmap_loop-Unmapped n root va t it al below leaves)
