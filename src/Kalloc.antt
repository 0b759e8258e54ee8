-- ===== src/Kalloc.antt =====
-- CLab/xv6/kernel/kalloc.c: the pages of physical memory that are free, linked through their first
-- words. `end`, the first address after the kernel, is set by the linker. The sections under
-- `kmem.lock` are single steps.
pub mod Free
mod Tests
use team.Common.{
  ℕ, zero, suc, ◌+◌, ◌-◌, ◌*◌, ◌/◌, ◌%◌, ◌^◌, Bool, true, false, Option, none, some, ◌==◌, ◌||◌,
  not, if◌then◌else◌, ltb, leb,
}
use team.Common.Outcome.{Outcome, done, panic, ◌>>=◌, ◌>>◌, panic_if}
use team.Common.Family.{update}

abbrev pub pgsize : ℕ
pgsize = 4096

-- KERNBASE + 128 MB
abbrev pub phystop : ℕ
phystop = 0x80000000 + 128 * 1024 * 1024

-- PGROUNDUP, `(a + PGSIZE - 1) & ~(PGSIZE - 1)` on 64 bits
abbrev pub pgroundup : ℕ → ℕ
pgroundup a = (a + pgsize - 1) % 2 ^ 64 / pgsize * pgsize

-- What a page holds, as far as the allocator sees it: bytes of one value, or a `struct run` in
-- front of such bytes, or what others have written.
pub data Page : Type 0 where
  filled : ℕ → Page
  run : (next : ℕ) → Page
  other : Page

-- `kmem` and the memory; 0 is the null pointer.
pub record Kmem : Type 0 where
  pub freelist : ℕ
  pub page : ℕ → Page

unfoldable pub kfree : ℕ → ℕ → Kmem → Outcome Kmem
kfree end pa k = do
  panic_if (not (pa % pgsize == 0) || ltb pa end || leb phystop pa)
  let junk = update k.page pa (filled 1)
  done (record { freelist = pa; page = update junk pa (run k.freelist) })

-- `r->next` of a page; `none` where no `struct run` stands.
abbrev pub next_of : Page → Option ℕ
next_of (run q) = some q
next_of _ = none

-- `kalloc`: the page, 0 if there is none. A free page that does not hold a `struct run` is a fault.
unfoldable pub kalloc : Kmem → Outcome (ℕ × Kmem)
kalloc k = if k.freelist == 0 then done (0, k) else elim (next_of (k.page k.freelist)) [
  | none ↦ panic
  | some q ↦ done (k.freelist, record { freelist = q; page = update k.page k.freelist (filled 5) })
]

-- The loop of `freerange`, on fuel; it stops before `pa_end`.
unfoldable pub free_loop : ℕ → ℕ → ℕ → ℕ → Kmem → Option (Outcome Kmem)
free_loop end zero p pa_end k = none
free_loop end (suc f) p pa_end k = elim (leb (p + pgsize) pa_end) [
  | false ↦ some (done k)
  | true ↦ elim (kfree end p k) [
    | panic ↦ some panic
    | done k' ↦ free_loop end f (p + pgsize) pa_end k'
  ]
]

-- `kinit`, from an empty list: every whole page from `end` to PHYSTOP.
unfoldable pub kinit : ℕ → (ℕ → Page) → Option (Outcome Kmem)
unfolding free_loop
kinit end page =
    free_loop end (phystop / pgsize + 1) (pgroundup end) phystop
      (record { freelist = 0; page = page })
