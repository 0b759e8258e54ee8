-- ===== src/Vm/Copy.antt =====
-- `copyin` of vm.c copies through the page table, page by page.
use team.Common.{
  ℕ, zero, suc, ◌+◌, ◌-◌, ◌%◌, ◌≤◌, ◌<◌, ◌≡◌, refl, ◌≢◌, ap, sym, ◌∙◌, true, false, some, not,
  if◌then◌else◌, ltb, arith, ◌⊎◌, inl, inr, Option-cases, ℕ_discrete, dec_lt, ne→==false,
  lt→leb-false, lt→ltb, ge→ltb-false,
}
use team.Common.Outcome.{done}
use team.Kalloc.{pgsize}
use team.Text.{memmove}
use team.Text.Move.{Wrote, memmove-Wrote}
use team.Vm.{is_valid, is_user, maxva, pte2pa, pgrounddown, Pages, Tables, walkaddr, copyin}
use team.Vm.Tree.{leaf, entry_at, translate}
use team.Vm.Unmap.{walk-leaf}

-- The page that user code sees at an address, 0 for none.
abbrev pub user_page : (ℕ → ℕ → ℕ) → ℕ → ℕ → ℕ
user_page pte root va =
    let e = translate pte root va in
    if not (is_valid e) then 0 else if not (is_user e) then 0 else pte2pa e

-- Two pieces of memory are written one behind the other.
Wrote-append :
    (d n k : ℕ) (f g : ℕ → ℕ) (m m1 r : ℕ → ℕ)
    → Wrote d n f m m1
    → Wrote (d + n) k g m1 r
    → Wrote d (n + k) (λ i. if ltb i n then f i else g (i - n)) m r
Wrote-append d n k f g m m1 r first rest = record {
  inside = λ i h. elim (dec_lt i n) [
    | yes lt ↦ ground (arith, rest.beside (d + i), first.inside i lt)
    | no ge ↦
        let place : d + i ≡ d + n + (i - n) = omega arith in
        ground (arith, ap r place, rest.inside (i - n) (omega arith))
  ];
  beside = λ a h. rest.beside a (omega arith) ∙ first.beside a (omega arith);
}

module _ (pages : Pages) where
  open pages use {State}

  -- `walkaddr` reads the entry that the address is translated to.
  walkaddr-user_page :
      (va p : ℕ) (t : Tables State)
      → va < maxva
      → walkaddr pages p va t ≡ done (user_page t.pte p va)
  unfolding walkaddr translate entry_at
  walkaddr-user_page va p t lt = elim (Option-cases (leaf t.pte 2 va p)) [
    | inl nowhere ↦
        rw (walkaddr, lt→leb-false _ _ lt, walk-leaf pages va p t lt, translate, nowhere)
    | inr ((q, i), there) ↦
        rw (walkaddr, lt→leb-false _ _ lt, walk-leaf pages va p t lt, translate, there)
  ]

  -- The physical address behind a user address.
  abbrev pub phys : ℕ → Tables State → ℕ → ℕ
  phys p t va = user_page t.pte p (pgrounddown va) + va % pgsize

  -- The bytes that one round copies.
  abbrev chunk : ℕ → ℕ → ℕ
  chunk srcva len =
      if ltb len (pgsize - (srcva - pgrounddown srcva))
      then len
      else pgsize - (srcva - pgrounddown srcva)

  chunk-bounds :
      (srcva len : ℕ)
      → 0 < len
      → (0 < chunk srcva len)
        × (chunk srcva len ≤ len)
        × (chunk srcva len ≤ pgsize - srcva % pgsize)
        × (chunk srcva len < len → srcva + chunk srcva len ≡ pgrounddown srcva + pgsize)
  chunk-bounds srcva len pos = ground arith

  -- Within a round the page is the same.
  phys-chunk :
      (p : ℕ) (t : Tables State) (srcva len i : ℕ)
      → 0 < len
      → i < chunk srcva len
      → user_page t.pte p (pgrounddown srcva) + (srcva - pgrounddown srcva) + i
        ≡ phys p t (srcva + i)
  phys-chunk p t srcva len i pos lt =
      let (_, _, short, _) = chunk-bounds srcva len pos in
      let page : pgrounddown (srcva + i) ≡ pgrounddown srcva = omega arith in rw page (omega arith)

  -- A copy of one round, and of the rest.
  join :
      (p : ℕ) (t : Tables State) (dst srcva len : ℕ) (m m1 r : ℕ → ℕ)
      → 0 < len
      → ((i : ℕ) → i < len → (phys p t (srcva + i) < dst) ⊎ (dst + len ≤ phys p t (srcva + i)))
      → Wrote dst
          (chunk srcva len)
          (λ i. m (user_page t.pte p (pgrounddown srcva) + (srcva - pgrounddown srcva) + i))
          m
          m1
      → Wrote
          (dst + chunk srcva len)
          (len - chunk srcva len)
          (λ i. m1 (phys p t (pgrounddown srcva + pgsize + i)))
          m1
          r
      → Wrote dst len (λ i. m (phys p t (srcva + i))) m r
  join p t dst srcva len m m1 r pos apart first rest =
      let n : ℕ = chunk srcva len in
      let (some_byte, within, short, full) = chunk-bounds srcva len pos in
      let total : n + (len - n) ≡ len = omega arith in
      let both = Wrote-append dst n (len - n) _ _ m m1 r first rest in
      record {
        inside = λ i h. both.inside i (omega arith) ∙ elim (dec_lt i n) [
          | yes lt ↦ rw (lt→ltb i n lt) (ap m (phys-chunk p t srcva len i pos lt))
          | no ge ↦
              let place : pgrounddown srcva + pgsize + (i - n) ≡ srcva + i = omega (arith, full) in
              rw (ge→ltb-false i n (omega arith), place)
                (first.beside (phys p t (srcva + i)) (omega (arith, apart i h)))
        ];
        beside = λ a h. both.beside a (omega arith);
      }

  -- `copyin` of `len` bytes below MAXVA, each of which is in a page that is mapped for the user, into
  -- a buffer that is apart from all of them: it succeeds, the buffer holds the bytes behind the user
  -- addresses, and nothing else changes.
  pub copyin-Wrote :
      (f : ℕ) (t : Tables State) (p dst srcva len : ℕ) (m : ℕ → ℕ)
      → len < f
      → srcva + len ≤ maxva
      → ((i : ℕ) → i < len → user_page t.pte p (pgrounddown (srcva + i)) ≢ 0)
      → ((i : ℕ) → i < len → (phys p t (srcva + i) < dst) ⊎ (dst + len ≤ phys p t (srcva + i)))
      → (r : ℕ → ℕ) × (copyin pages f t p dst srcva len m ≡ some (done (true, r)))
        × Wrote dst len (λ i. m (phys p t (srcva + i))) m r
  unfolding copyin
  copyin-Wrote zero t p dst srcva len m fuel below mapped apart = absurd (omega arith)
  copyin-Wrote (suc f) t p dst srcva len m fuel below mapped apart = elim (ℕ_discrete len 0) [
    | yes none_left ↦
        (m, rw none_left, record { inside = λ i h. absurd (omega arith); beside = λ a h. refl })
    | no more ↦
        let n : ℕ = chunk srcva len in
        let va0 : ℕ = pgrounddown srcva in
        let pos : 0 < len = omega arith in
        let (some_byte, within, short, full) = chunk-bounds srcva len pos in
        let here : va0 ≡ pgrounddown (srcva + 0) = omega arith in
        let page : user_page t.pte p va0 ≢ 0 =
          λ e. mapped 0 pos (ap (user_page t.pte p) (sym here) ∙ e) in
        let m1 : ℕ → ℕ = memmove dst (user_page t.pte p va0 + (srcva - va0)) n m in
        let first = memmove-Wrote dst (user_page t.pte p va0 + (srcva - va0)) n m in
        let later = λ (i : ℕ) (h : i < len - n).
          let place : va0 + pgsize + i ≡ srcva + (n + i) = omega (arith, full) in place in
        let room : va0 + pgsize + (len - n) ≤ maxva = elim (dec_lt n len) [
          | yes lt ↦ omega (arith, full lt)
          | no ge ↦ omega arith
        ] in
        let (r, eq, rest) =
          copyin-Wrote f t p (dst + n) (va0 + pgsize) (len - n) m1 (omega arith) room
            (λ i h. rw (later i h) (mapped (n + i) (omega arith)))
            (λ i h. rw (later i h) (omega (arith, apart (n + i) (omega arith)))) in
        (
          r,
          rw (copyin, ne→==false more, walkaddr-user_page va0 p t (omega arith), ne→==false page)
              eq,
          join p t dst srcva len m m1 r pos apart first rest,
        )
  ]

  -- `copyin` of bytes below MAXVA of which one is in a page that is not mapped for the user ends with
  -- -1.
  pub copyin-fails :
      (f : ℕ) (t : Tables State) (p dst srcva len i : ℕ) (m : ℕ → ℕ)
      → len < f
      → srcva + len ≤ maxva
      → i < len
      → user_page t.pte p (pgrounddown (srcva + i)) ≡ 0
      → (r : ℕ → ℕ) × (copyin pages f t p dst srcva len m ≡ some (done (false, r)))
  unfolding copyin
  copyin-fails zero t p dst srcva len i m fuel below lt hole = absurd (omega arith)
  copyin-fails (suc f) t p dst srcva len i m fuel below lt hole =
      let n : ℕ = chunk srcva len in
      let va0 : ℕ = pgrounddown srcva in
      let pos : 0 < len = omega arith in
      let (some_byte, within, short, full) = chunk-bounds srcva len pos in
      let nonzero = ne→==false {a = len} {b = 0} (omega arith) in
      elim (ℕ_discrete (user_page t.pte p va0) 0) [
        | yes now ↦ (m, rw (copyin, nonzero, walkaddr-user_page va0 p t (omega arith), now))
        | no page ↦
            let past : n ≤ i = elim (dec_lt i n) [
              | yes inside ↦
                  let same : pgrounddown (srcva + i) ≡ va0 = omega arith in
                  absurd (page (ap (user_page t.pte p) (sym same) ∙ hole))
              | no ge ↦ omega arith
            ] in
            let place : va0 + pgsize + (i - n) ≡ srcva + i = omega (arith, full (omega arith)) in
            let (r, eq) =
              copyin-fails f t p (dst + n) (va0 + pgsize) (len - n) (i - n)
                (memmove dst (user_page t.pte p va0 + (srcva - va0)) n m) (omega arith)
                (omega (arith, full (omega arith))) (omega arith)
                (ap (λ a. user_page t.pte p (pgrounddown a)) place ∙ hole) in
            (r, rw (copyin, nonzero, walkaddr-user_page va0 p t (omega arith), ne→==false page) eq)
      ]
