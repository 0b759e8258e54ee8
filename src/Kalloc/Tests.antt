-- ===== src/Kalloc/Tests.antt =====
-- kalloc.c with a kernel that ends 5 bytes before the last three pages.
use team.Common.{ℕ, ◌+◌, ◌-◌, ◌*◌, ◌<◌, ◌≡◌, refl, some, List, [], ◌∷◌, ◌⊎◌, arith, length}
use team.Common.Outcome.{done}
use team.Common.Family.{update}
use team.Kalloc.{other, run, Kmem, phystop, pgsize, pgroundup, kalloc, kinit}
use team.Kalloc.Free.{IsFree, IsPage, Absent, On, kalloc-IsFree, kinit-frees_all}

abbrev kernel_end : ℕ
kernel_end = phystop - 3 * pgsize - 5

abbrev no_pages : Kmem
no_pages = record { freelist = 0; page = λ _. other }

no_pages-IsFree : IsFree kernel_end no_pages []
no_pages-IsFree = record { kernel = omega arith; chain = refl; pages = tt }

abbrev last_page : ℕ
last_page = phystop - pgsize

abbrev one_page : Kmem
one_page = record { freelist = last_page; page = update (λ _. other) last_page (run 0) }

one_page-IsFree : IsFree kernel_end one_page (last_page ∷ [])
one_page-IsFree = record {
  kernel = omega arith;
  chain = (refl, 0, refl, refl);
  pages = ((refl, omega arith, omega arith), tt, tt);
}

kalloc-IsFree_example :
    (pa : ℕ) × (k' : Kmem) × (kalloc one_page ≡ done (pa, k'))
    × (((last_page ∷ [] ≡ []) × (pa ≡ 0) × (k' ≡ one_page))
        ⊎ ((rest : List ℕ) × (last_page ∷ [] ≡ pa ∷ rest)
            × IsPage kernel_end pa
            × Absent pa rest
            × IsFree kernel_end k' rest))
kalloc-IsFree_example = kalloc-IsFree kernel_end one_page (last_page ∷ []) one_page-IsFree

kinit-frees_all_example :
    (k : Kmem) × (kinit kernel_end (λ _. other) ≡ some (done k))
    × (xs : List ℕ) × IsFree kernel_end k xs
    × (length xs ≡ 3)
    × ((i : ℕ) → i < 3 → On (pgroundup kernel_end + i * pgsize) xs)
kinit-frees_all_example = kinit-frees_all kernel_end 3 (λ _. other) (omega arith) (omega arith) refl
