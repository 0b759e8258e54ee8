-- ===== src/Vm.antt =====
-- CLab/xv6/kernel/vm.c: Sv39 page tables. `pte p i` is entry `i` of the page at `p` that serves as a
-- page table, a word of 64 bits. User data and the kernel's buffers are bytes of their own,
-- `byte a`; they stand in other pages than the page tables. Pages come from kalloc.c through the
-- interface `Pages`. In the entry of a new page table, `|` puts PTE_V into a word whose low ten bits
-- are 0, and is an addition.
pub mod Tree
pub mod NewTable
pub mod Walk
pub mod Supply
pub mod Maps
pub mod Unmap
pub mod Copy
mod Tests
use Prim.Native.Nat.{bit_or}
use team.Common.{
  ℕ, zero, suc, ◌+◌, ◌-◌, ◌*◌, ◌/◌, ◌%◌, ◌^◌, Bool, true, false, Option, none, some, ◌==◌, ◌||◌,
  ◌&&◌, not, if◌then◌else◌, ltb, leb,
}
use team.Common.Outcome.{Outcome, done, panic, ◌>>=◌, ◌>>◌, panic_if}
use team.Common.Family.{update}
use team.Kalloc.{pgsize, pgroundup}
use team.Text.{memmove}

-- What vm.c asks of kalloc.c: `kalloc` returns 0 when there is no page.
pub record Pages : Type 1 where
  pub State : Type 0
  pub kalloc : State → ℕ × State
  pub kfree : ℕ → State → Outcome State

-- MAXVA, `1L << (9 + 9 + 9 + 12 - 1)`
abbrev pub maxva : ℕ
maxva = 2 ^ 38

-- PX, for the levels 0, 1 and 2
abbrev pub px : ℕ → ℕ → ℕ
px zero va = va / 2 ^ 12 % 512
px (suc zero) va = va / 2 ^ 21 % 512
px (suc (suc l)) va = va / 2 ^ 30 % 512

-- PTE2PA and PA2PTE
abbrev pub pte2pa : ℕ → ℕ
pte2pa pte = pte / 2 ^ 10 * 2 ^ 12 % 2 ^ 64

abbrev pub pa2pte : ℕ → ℕ
pa2pte pa = pa / 2 ^ 12 * 2 ^ 10

-- `pte & PTE_V`, PTE_W and PTE_U
abbrev pub is_valid : ℕ → Bool
is_valid pte = pte % 2 == 1

abbrev pub is_writable : ℕ → Bool
is_writable pte = pte / 4 % 2 == 1

abbrev pub is_user : ℕ → Bool
is_user pte = pte / 16 % 2 == 1

-- PTE_FLAGS
abbrev pub pte_flags : ℕ → ℕ
pte_flags pte = pte % 1024

-- PGROUNDDOWN
abbrev pub pgrounddown : ℕ → ℕ
pgrounddown a = a / pgsize * pgsize

-- The entry that `mappages` writes, `PA2PTE(pa) | perm | PTE_V`
abbrev pub leaf_pte : ℕ → ℕ → ℕ
leaf_pte pa perm = bit_or (bit_or (pa2pte pa) perm) 1

pub record Tables (S : Type 0) : Type 0 where
  pub pte : ℕ → ℕ → ℕ
  pub supply : S

-- Where a walk ends: at an entry, given by its page and index, or nowhere.
abbrev pub Slot : Type 0
Slot = ℕ × ℕ

module _ (pages : Pages) where
  open pages use {State, kalloc, kfree}

  abbrev pub write : ℕ → ℕ → ℕ → Tables State → Tables State
  write p i v t = record t { pte = update t.pte p (update (t.pte p) i v) }

  -- `memset(pagetable, 0, PGSIZE); *pte = PA2PTE(pagetable) | PTE_V;`
  unfoldable pub add_table : ℕ → ℕ → ℕ → Tables State → Tables State
  add_table pa p i t = write p i (pa2pte pa + 1) (record t { pte = update t.pte pa (λ _. 0) })

  -- The loop of `walk` from the page table at `p`, with `level` levels below it.
  unfoldable pub walk_level : ℕ → Bool → ℕ → ℕ → Tables State → Option Slot × Tables State
  walk_level zero alloc va p t = (some (p, px 0 va), t)
  walk_level (suc l) alloc va p t =
      let i = px (suc l) va in
      let (pa, s) = kalloc t.supply in
      let taken : Tables State = record t { supply = s } in
      let down = walk_level l alloc va (pte2pa (t.pte p i)) t in
      let below = walk_level l alloc va pa (add_table pa p i taken) in
      if is_valid (t.pte p i)
      then down
      else if not alloc
      then (none, t)
      else if pa == 0
      then (none, taken)
      else below

  unfoldable pub walk : ℕ → ℕ → Bool → Tables State → Outcome (Option Slot × Tables State)
  walk p va alloc t = do panic_if (leb maxva va); done (walk_level 2 alloc va p t)

  -- `walkaddr`; 0 where the address is not mapped for the user.
  unfoldable pub walkaddr : ℕ → ℕ → Tables State → Outcome ℕ
  walkaddr p va t = if leb maxva va then done 0 else do
    (slot, t') ← walk p va false t
    done (elim slot [
      | none ↦ 0
      | some (q, i) ↦
          if not (is_valid (t'.pte q i))
          then 0
          else if not (is_user (t'.pte q i))
          then 0
          else pte2pa (t'.pte q i)
    ])

  -- The loop of `mappages`, on fuel, from the address `a`; true for 0 and false for -1.
  unfoldable pub map_loop :
      ℕ → ℕ → ℕ → ℕ → ℕ → ℕ → Tables State → Option (Outcome (Bool × Tables State))
  map_loop zero p a last pa perm t = none
  map_loop (suc f) p a last pa perm t = elim (walk p a true t) [
    | panic ↦ some panic
    | done (none, t1) ↦ some (done (false, t1))
    | done (some (q, i), t1) ↦
        let t2 = write q i (leaf_pte pa perm) t1 in
        let rest = map_loop f p (a + pgsize) last (pa + pgsize) perm t2 in
        if is_valid (t1.pte q i)
        then some panic
        else if a == last
        then some (done (true, t2))
        else rest
  ]

  unfoldable pub mappages :
      ℕ → ℕ → ℕ → ℕ → ℕ → Tables State → Option (Outcome (Bool × Tables State))
  mappages p va size pa perm t =
      if not (va % pgsize == 0) || not (size % pgsize == 0) || size == 0
      then some panic
      else map_loop (size / pgsize) p va (va + size - pgsize) pa perm t

  -- The loop of `uvmunmap` with `k` pages left.
  unfoldable pub unmap_loop : Bool → ℕ → ℕ → ℕ → Tables State → Outcome (Tables State)
  unmap_loop do_free p zero a t = done t
  unmap_loop do_free p (suc k) a t = elim (walk p a false t) [
    | panic ↦ panic
    | done (none, t1) ↦ panic
    | done (some (q, i), t1) ↦
        if not (is_valid (t1.pte q i)) || pte_flags (t1.pte q i) == 1 then panic else do
          s ← (if do_free then kfree (pte2pa (t1.pte q i)) t1.supply else done t1.supply)
          unmap_loop do_free p k (a + pgsize) (write q i 0 (record t1 { supply = s }))
  ]

  unfoldable pub uvmunmap : ℕ → ℕ → ℕ → Bool → Tables State → Outcome (Tables State)
  uvmunmap p va npages do_free t = do
    panic_if (not (va % pgsize == 0))
    unmap_loop do_free p npages va t

  -- `uvmcreate`; the page table 0 is none.
  unfoldable pub uvmcreate : Tables State → ℕ × Tables State
  uvmcreate t =
      let (pa, s) = kalloc t.supply in
      if pa == 0
      then (0, record t { supply = s })
      else (pa, record { pte = update t.pte pa (λ _. 0); supply = s })

  unfoldable pub uvmdealloc : ℕ → ℕ → ℕ → Tables State → Outcome (ℕ × Tables State)
  uvmdealloc p oldsz newsz t =
      if leb oldsz newsz
      then done (oldsz, t)
      else if ltb (pgroundup newsz) (pgroundup oldsz)
      then (uvmunmap p (pgroundup newsz) ((pgroundup oldsz - pgroundup newsz) / pgsize) true t
          >>= λ t'. done (newsz, t'))
      else done (newsz, t)

  unfoldable pub uvmclear : ℕ → ℕ → Tables State → Outcome (Tables State)
  uvmclear p va t = do
    (slot, t1) ← walk p va false t
    elim slot [
      | none ↦ panic
      | some (q, i) ↦ done (if is_user (t1.pte q i) then write q i (t1.pte q i - 16) t1 else t1)
    ]

  -- `copyin` on the bytes of memory, with fuel; true for 0 and false for -1. No walk changes the
  -- tables here.
  unfoldable pub copyin :
      ℕ → Tables State → ℕ → ℕ → ℕ → ℕ → (ℕ → ℕ) → Option (Outcome (Bool × (ℕ → ℕ)))
  copyin zero t p dst srcva len m = none
  copyin (suc f) t p dst srcva len m =
      let va0 = pgrounddown srcva in
      let room = pgsize - (srcva - va0) in
      let n = if ltb len room then len else room in
      if len == 0 then some (done (true, m)) else elim (walkaddr p va0 t) [
        | panic ↦ some panic
        | done pa0 ↦
            let rest =
              copyin f t p (dst + n) (va0 + pgsize) (len - n)
                (memmove dst (pa0 + (srcva - va0)) n m) in
            if pa0 == 0 then some (done (false, m)) else rest
      ]

  unfoldable pub copyout :
      ℕ → Tables State → ℕ → ℕ → ℕ → ℕ → (ℕ → ℕ) → Option (Outcome (Bool × (ℕ → ℕ)))
  copyout zero t p dstva src len m = none
  copyout (suc f) t p dstva src len m =
      let va0 = pgrounddown dstva in
      let room = pgsize - (dstva - va0) in
      let n = if ltb len room then len else room in
      if len == 0
      then some (done (true, m))
      else if leb maxva va0
      then some (done (false, m))
      else elim (walk p va0 false t) [
        | panic ↦ some panic
        | done (none, t1) ↦ some (done (false, m))
        | done (some (q, i), t1) ↦
            let e = t1.pte q i in
            let rest =
              copyout f t p (va0 + pgsize) (src + n) (len - n)
                (memmove (pte2pa e + (dstva - va0)) src n m) in
            if not (is_valid e) || not (is_user e) || not (is_writable e)
            then some (done (false, m))
            else rest
      ]
