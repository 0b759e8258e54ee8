-- ===== src/Vm/Tests.antt =====
-- vm.c with pages from a free list of kalloc.c that holds two pages, and user code's page 0 mapped to
-- the page at 0x5000, through page tables at 0x1000, 0x2000 and 0x3000.
use team.Common.{
  ℕ, ◌+◌, ◌/◌, ◌%◌, ◌^◌, ◌<◌, ◌≡◌, refl, ◌≢◌, ap, sym, subst, ◌∙◌, true, false, Option, none, some,
  [], ◌∷◌, ◌⊎◌, inl, inr, arith, ◌==◌, if◌then◌else◌,
}
use team.Common.Outcome.{done}
use team.Common.Family.{update}
use team.Kalloc.{Kmem, run, other}
use team.Kalloc.Free.{IsFree}
use team.Vm.{is_valid, Slot, Tables, walk, mappages, uvmunmap, copyin, pgrounddown, pte_flags}
use team.Vm.Tree.{IsTree, leaf, entry_at, translate}
use team.Vm.Walk.{Exhausted, Drawn}
use team.Vm.Supply.{kalloc_pages, kalloc_supply}
use team.Vm.Maps.{IsTable, SameMap, Mapped, walk-SameMap, mappages-Mapped}
use team.Vm.Unmap.{Unmapped, uvmunmap-Unmapped}
use team.Text.Move.{Wrote}
use team.Vm.Copy.{copyin-Wrote, copyin-fails, user_page, phys}

abbrev two_pages : Kmem
two_pages = record {
  freelist = 0x8000;
  page = update (update (λ _. other) 0x8000 (run 0x9000)) 0x9000 (run 0);
}

two_pages-IsFree : IsFree 0x8000 two_pages (0x8000 ∷ 0x9000 ∷ [])
two_pages-IsFree = record {
  kernel = omega arith;
  chain = (refl, 0x9000, refl, (refl, 0, refl, refl));
  pages = (
    (refl, omega arith, omega arith),
    ((λ h. absurd (omega arith)), tt),
    ((refl, omega arith, omega arith), tt, tt),
  );
}

abbrev tables : Tables Kmem
tables = record {
  pte = λ p i.
      if i == 0
      then (if p == 0x1000
          then 0x801
          else if p == 0x2000
          then 0xc01
          else if p == 0x3000
          then 0x1417
          else 0)
      else 0;
  supply = two_pages;
}

abbrev tag : ℕ → Option (ℕ × ℕ)
tag p =
    if p == 0x1000
    then some (2, 0)
    else if p == 0x2000
    then some (1, 0)
    else if p == 0x3000
    then some (0, 0)
    else none

tables-IsTree : IsTree tag 0x1000 tables.pte
tables-IsTree = record { top = refl; child = λ p l k i at lt valid. ground arith }

tables-IsTable : IsTable (kalloc_pages 0x8000) (kalloc_supply 0x8000) 0x1000 tables
tables-IsTable = record {
  tag = tag;
  tree = tables-IsTree;
  spare = (
    ((0x8000 ∷ 0x9000 ∷ []), two_pages-IsFree),
    λ q on. elim (on (0x8000 ∷ 0x9000 ∷ []) two_pages-IsFree) [
      | inl e ↦ ground arith
      | inr (inl e) ↦ ground arith
      | inr (inr e) ↦ elim e [ ]
    ],
  );
}

-- Below 2 MB the last table has the entry.
low : (a : ℕ) → a < 2 ^ 21 → translate tables.pte 0x1000 a ≡ tables.pte 0x3000 (a / 2 ^ 12)
unfolding translate leaf entry_at
low a lt =
    let top : a / 2 ^ 30 % 512 ≡ 0 = omega arith in
    let middle : a / 2 ^ 21 % 512 ≡ 0 = omega arith in
    let last : a / 2 ^ 12 % 512 ≡ a / 2 ^ 12 = omega arith in rw (translate, top, middle, last)

page_zero : (a : ℕ) → a < 4096 → translate tables.pte 0x1000 a ≡ 0x1417
page_zero a lt = low a (omega arith) ∙ ground arith

mapped : (a : ℕ) → a < 4096 → user_page tables.pte 0x1000 a ≡ 0x5000
mapped a lt = rw (page_zero a lt)

walk-SameMap_example :
    (r : Option Slot) × (t' : Tables Kmem) × (walk
        (kalloc_pages 0x8000)
        0x1000
        0x40000000
        true
        tables
      ≡ done (r, t'))
    × IsTable (kalloc_pages 0x8000) (kalloc_supply 0x8000) 0x1000 t'
    × SameMap (kalloc_pages 0x8000) (kalloc_supply 0x8000) 0x1000 tables t'
    × (((r ≡ none) × Exhausted (kalloc_pages 0x8000) tables.supply t'.supply)
        ⊎ ((slot : Slot) × (r ≡ some slot)
            × (leaf t'.pte 2 0x40000000 0x1000 ≡ some slot)
            × Drawn (kalloc_pages 0x8000) tables.supply t'.supply))
walk-SameMap_example =
    walk-SameMap (kalloc_pages 0x8000) (kalloc_supply 0x8000) 0x1000 0x40000000 tables
      tables-IsTable (omega arith)

mappages-Mapped_example :
    Mapped
      (kalloc_pages 0x8000)
      (kalloc_supply 0x8000)
      0x1000
      4096
      0x6000
      22
      2
      tables
      (mappages (kalloc_pages 0x8000) 0x1000 4096 8192 0x6000 22 tables)
mappages-Mapped_example =
    mappages-Mapped (kalloc_pages 0x8000) (kalloc_supply 0x8000) 0x1000 4096 2 0x6000 22 tables
      tables-IsTable refl (omega arith) (omega arith)
      (λ a lo hi. ap is_valid (low a (omega arith)) ∙ ground arith)

uvmunmap-Unmapped_example :
    Unmapped
      (kalloc_pages 0x8000)
      (kalloc_supply 0x8000)
      0x1000
      0
      1
      tables
      (uvmunmap (kalloc_pages 0x8000) 0x1000 0 1 false tables)
uvmunmap-Unmapped_example =
    uvmunmap-Unmapped (kalloc_pages 0x8000) (kalloc_supply 0x8000) 0x1000 0 1 tables tables-IsTable
      refl (omega arith)
      (λ a lo hi.
        subst (λ x. (is_valid x ≡ true) × (pte_flags x ≢ 1)) (sym (page_zero a (omega arith)))
          (refl, λ h. absurd (omega arith)))

copyin-Wrote_example :
    (r : ℕ → ℕ) × (copyin (kalloc_pages 0x8000) 4 tables 0x1000 0x100 7 3 (λ a. a % 256)
      ≡ some (done (true, r)))
    × Wrote 0x100 3 (λ i. phys (kalloc_pages 0x8000) 0x1000 tables (7 + i) % 256) (λ a. a % 256) r
copyin-Wrote_example =
    copyin-Wrote (kalloc_pages 0x8000) 4 tables 0x1000 0x100 7 3 (λ a. a % 256) (omega arith)
      (omega arith) (λ i lt. ground (arith, mapped (pgrounddown (7 + i)) (omega arith)))
      (λ i lt. inr (omega (arith, mapped (pgrounddown (7 + i)) (omega arith))))

copyin-fails_example :
    (r : ℕ → ℕ) × (copyin (kalloc_pages 0x8000) 9 tables 0x1000 0x100 4092 8 (λ a. a % 256)
      ≡ some (done (false, r)))
copyin-fails_example =
    copyin-fails (kalloc_pages 0x8000) 9 tables 0x1000 0x100 4092 8 4 (λ a. a % 256) (omega arith)
      (omega arith) (omega arith) (rw (low 4096 (omega arith)))
