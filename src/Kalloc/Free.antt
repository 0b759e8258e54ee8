-- ===== src/Kalloc/Free.antt =====
-- The free list of kalloc.c holds different, aligned pages of memory, and each operation keeps it so.
use team.Common.{
  ℕ, zero, suc, ◌+◌, ◌*◌, ◌/◌, ◌%◌, ◌≤◌, ◌<◌, ◌≡◌, refl, ◌≢◌, ◌∙◌, ap, sym, subst, some, List, [],
  ◌∷◌, ◌⊎◌, inl, inr, arith, length, ne→==false,
}
use team.Common.Outcome.{done}
use team.Common.Family.{update, update_self, update_ne}
use team.Kalloc.{
  Page, run, filled, Kmem, pgsize, phystop, pgroundup, kfree, kalloc, free_loop, kinit,
}

-- From `p` the `next` words lead through the pages `xs` to null.
abbrev pub Chain : (ℕ → Page) → ℕ → List ℕ → Type 0
Chain page p [] = p ≡ 0
Chain page p (x ∷ xs) = (p ≡ x) × (q : ℕ) × (page x ≡ run q) × Chain page q xs

abbrev pub Absent : ℕ → List ℕ → Type 0
Absent a [] = Unit
Absent a (x ∷ xs) = (a ≢ x) × Absent a xs

-- A page that may be on the list.
abbrev pub IsPage : ℕ → ℕ → Type 0
IsPage end a = (a % pgsize ≡ 0) × (end ≤ a) × (a < phystop)

abbrev pub AllPages : ℕ → List ℕ → Type 0
AllPages end [] = Unit
AllPages end (x ∷ xs) = IsPage end x × Absent x xs × AllPages end xs

-- The list holds the pages `xs`, which are different; `end` is not at address 0.
pub record IsFree (end : ℕ) (k : Kmem) (xs : List ℕ) : Type 0 where
  pub kernel : 0 < end
  pub chain : Chain k.page k.freelist xs
  pub pages : AllPages end xs

-- Writing a page that is not on the list leaves it alone.
Chain-update :
    (page : ℕ → Page) (a : ℕ) (v : Page) (p : ℕ) (xs : List ℕ)
    → Absent a xs
    → Chain page p xs
    → Chain (update page a v) p xs
Chain-update page a v p [] out c = c
Chain-update page a v p (x ∷ xs) (ne, out) (e, q, at, c) =
    (e, q, update_ne page a v x (λ h. ne (sym h)) ∙ at, Chain-update page a v q xs out c)

-- `kfree` of a page that is not free, between the kernel and PHYSTOP, puts it in front of the list.
kfree-IsFree :
    (end pa : ℕ) (k : Kmem) (xs : List ℕ)
    → IsFree end k xs
    → IsPage end pa
    → Absent pa xs
    → (k' : Kmem) × (kfree end pa k ≡ done k') × IsFree end k' (pa ∷ xs)
unfolding kfree
kfree-IsFree end pa k xs f ok out =
    let junk = update k.page pa (filled 1) in
    (
      record { freelist = pa; page = update junk pa (run k.freelist) },
      (ground arith),
      record {
        kernel = f.kernel;
        chain = (
          refl,
          k.freelist,
          update_self junk pa (run k.freelist),
          Chain-update junk pa (run k.freelist) k.freelist xs out
              (Chain-update k.page pa (filled 1) k.freelist xs out f.chain),
        );
        pages = (ok, out, f.pages);
      },
    )

-- `kalloc` never faults on a list that is in order. It returns 0 exactly when no page is free, and
-- else takes the first page off the list.
pub kalloc-IsFree :
    (end : ℕ) (k : Kmem) (xs : List ℕ)
    → IsFree end k xs
    → (pa : ℕ) × (k' : Kmem) × (kalloc k ≡ done (pa, k'))
      × (((xs ≡ []) × (pa ≡ 0) × (k' ≡ k))
          ⊎ ((rest : List ℕ) × (xs ≡ pa ∷ rest)
              × IsPage end pa
              × Absent pa rest
              × IsFree end k' rest))
unfolding kalloc
kalloc-IsFree end k [] f = (0, k, rw f.chain, inl (refl, refl, refl))
kalloc-IsFree end k (x ∷ xs) f =
    let (at, q, link, rest) = f.chain in
    let (ok, out, pages) = f.pages in
    let nonzero = ne→==false {a = k.freelist} {b = 0} (omega arith) in
    (
      x,
      record { freelist = q; page = update k.page k.freelist (filled 5) },
      rw (nonzero, ap k.page at ∙ link, at),
      inr (
        xs,
        refl,
        ok,
        out,
        record {
          kernel = f.kernel;
          chain =
              Chain-update k.page k.freelist (filled 5) q xs (subst (λ a. Absent a xs) (sym at) out)
                rest;
          pages = pages;
        },
      ),
    )

-- A page is on the list.
abbrev pub On : ℕ → List ℕ → Type 0
On a [] = ⊥
On a (x ∷ xs) = (a ≡ x) ⊎ On a xs

abbrev pub Below : ℕ → List ℕ → Type 0
Below b [] = Unit
Below b (x ∷ xs) = (x < b) × Below b xs

Below-Absent : (b : ℕ) (xs : List ℕ) → Below b xs → Absent b xs
Below-Absent b [] lt = tt
Below-Absent b (x ∷ xs) (lt, more) = ((omega arith), Below-Absent b xs more)

Below-weaken : (b c : ℕ) (xs : List ℕ) → b ≤ c → Below b xs → Below c xs
Below-weaken b c [] le lt = tt
Below-weaken b c (x ∷ xs) le (lt, more) = ((omega arith), Below-weaken b c xs le more)

-- The list that `free_loop` leaves, from a list of pages below `p`: `n` pages more, and every
-- page from `p` on.
record Freed (end p n : ℕ) (xs : List ℕ) (k' : Kmem) : Type 0 where
  pub list : List ℕ
  pub free : IsFree end k' list
  pub count : length list ≡ n + length xs
  pub every : (i : ℕ) → i < n → On (p + i * pgsize) list
  pub kept : (a : ℕ) → On a xs → On a list

every_from :
    (p n : ℕ) (list : List ℕ)
    → On p list
    → ((i : ℕ) → i < n → On (p + pgsize + i * pgsize) list)
    → (i : ℕ) → i < suc n
    → On (p + i * pgsize) list
every_from p n list now later zero lt = subst (λ a. On a list) (omega arith) now
every_from p n list now later (suc i) lt =
    subst (λ a. On a list) (omega arith) (later i (omega arith))

free_loop-Freed :
    (end n f p : ℕ) (k : Kmem) (xs : List ℕ)
    → n < f
    → IsFree end k xs
    → Below p xs
    → p % pgsize ≡ 0
    → end ≤ p
    → p + n * pgsize ≡ phystop
    → (k' : Kmem) × (free_loop end f p phystop k ≡ some (done k')) × Freed end p n xs k'
unfolding free_loop
free_loop-Freed end n zero p k xs lt fr below al low total = absurd (omega arith)
free_loop-Freed end zero (suc f) p k xs lt fr below al low total = (
  k,
  (ground arith),
  record {
    list = xs;
    free = fr;
    count = (omega arith);
    every = λ i h. absurd (omega arith);
    kept = λ a h. h;
  },
)
free_loop-Freed end (suc n) (suc f) p k xs lt fr below al low total =
    let more : p + pgsize ≤ phystop = (omega arith) in
    let (k1, eq, fr1) =
      kfree-IsFree end p k xs fr (al, low, (omega arith)) (Below-Absent p xs below) in
    let (k2, eq2, done2) =
      free_loop-Freed end n f (p + pgsize) k1 (p ∷ xs) (omega arith) fr1
        ((omega arith), Below-weaken p (p + pgsize) xs (omega arith) below) (omega arith)
        (omega arith) (omega arith) in
    (
      k2,
      (ground arith),
      record {
        list = done2.list;
        free = done2.free;
        count = (omega arith);
        every = every_from p n _ (done2.kept p (inl refl)) done2.every;
        kept = λ a h. done2.kept a (inr h);
      },
    )

-- `kinit` ends, with `end` (the first address after the kernel) positive and before PHYSTOP: the
-- free list then holds every page from the first whole one up to PHYSTOP, each once, and no other.
pub kinit-frees_all :
    (end n : ℕ) (page : ℕ → Page)
    → 0 < end
    → end ≤ phystop
    → pgroundup end + n * pgsize ≡ phystop
    → (k : Kmem) × (kinit end page ≡ some (done k))
      × (xs : List ℕ) × IsFree end k xs
      × (length xs ≡ n)
      × ((i : ℕ) → i < n → On (pgroundup end + i * pgsize) xs)
unfolding kinit
kinit-frees_all end n page pos low total =
    let (k, eq, freed) =
      free_loop-Freed end n (phystop / pgsize + 1) (pgroundup end)
        (record { freelist = 0; page = page }) [] (omega arith)
        (record { kernel = pos; chain = refl; pages = tt }) tt (omega arith) (omega arith) total in
    (k, eq, freed.list, freed.free, omega arith, freed.every)
