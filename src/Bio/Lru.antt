-- ===== src/Bio/Lru.antt =====
-- The buffer cache of bio.c as a list of buffers in the order of their last use: `brelse` moves to the
-- front, `bget` finds the buffer of a block, or recycles the free buffer that was used last.
use team.Common.{
  ℕ, zero, suc, ◌+◌, ◌-◌, ◌%◌, ◌^◌, ◌≤◌, ◌<◌, ◌≡◌, refl, ap, sym, subst, ◌∙◌, true, false, Option,
  none, some, List, [], ◌∷◌, ◌==◌, if◌then◌else◌, arith, inl, inr, ne→==false, length, Bool-cases,
  Option-cases,
}
use team.Common.Outcome.{Outcome, done, panic}
use team.Common.Family.{update, update_self}
use team.Bio.{
  head, nbuf, Buf, Bcache, is_block, init_loop, binit, find_cached, find_unused, count_up, recycle,
  bget, drop_ref, brelse, push_front, unlink,
}
use team.Bio.Ring.{On, Absent, Distinct, Linked, remove}
use team.Bio.Moves.{IsRing, push_front-IsRing, move-IsRing}

-- The buffers `n - 1` down to 0.
abbrev pub down_from : ℕ → List ℕ
down_from zero = []
down_from (suc n) = n ∷ down_from n

-- The first buffer of the block in the list, and the last one that is free.
abbrev pub first_cached : {Block : Type 0} → (ℕ → Buf Block) → ℕ → ℕ → List ℕ → Option ℕ
first_cached buf dev blockno [] = none
first_cached buf dev blockno (x ∷ xs) =
    if is_block dev blockno (buf x) then some x else first_cached buf dev blockno xs

abbrev pub last_free : {Block : Type 0} → (ℕ → Buf Block) → List ℕ → Option ℕ
last_free buf [] = none
last_free buf (x ∷ xs) = elim (last_free buf xs) [
  | some b ↦ some b
  | none ↦ if (buf x).refcnt == 0 then some x else none
]

above : (n m : ℕ) → n ≤ m → Absent m (down_from n)
above zero m le = tt
above (suc n) m le = ((λ h. absurd (omega arith)), above n m (omega arith))

module _ {Block : Type 0} where
  find_cached-first :
      (f dev blockno a : ℕ) (xs : List ℕ) (c : Bcache Block)
      → Linked c.next c.prev a xs
      → Distinct xs
      → length xs < f
      → find_cached f dev blockno (c.next a) c ≡ some (first_cached c.buf dev blockno xs)
  unfolding find_cached
  find_cached-first zero dev blockno a xs c l d fuel = absurd (omega arith)
  find_cached-first (suc f) dev blockno a [] c (e, g) d fuel = rw e
  find_cached-first (suc f) dev blockno a (x ∷ xs) c (e, g, l) (xh, out, d) fuel =
      let apart = ne→==false xh in
      rw (e, apart)
        (elim (Bool-cases (is_block dev blockno (c.buf x))) [
          | inl is ↦ rw is
          | inr other ↦ rw other (find_cached-first f dev blockno x xs c l d (omega arith))
        ])

  -- The scan from the end of the ring back to `a`, and on from there.
  find_unused-last :
      (f a : ℕ) (xs : List ℕ) (c : Bcache Block)
      → Linked c.next c.prev a xs
      → Distinct xs
      → find_unused (length xs + f) (c.prev head) c
        ≡ elim (last_free c.buf xs) [ some b ↦ some (some b) | none ↦ find_unused f a c ]
  unfolding find_unused
  find_unused-last f a [] c (e, g) d = let plain : 0 + f ≡ f = omega arith in rw (plain, g)
  find_unused-last f a (x ∷ xs) c (e, g, l) (xh, out, d) =
      let behind = find_unused-last (suc f) x xs c l d in
      let shape : suc (length xs) + f ≡ length xs + suc f = omega arith in
      rw shape (
        behind ∙ elim (Option-cases (last_free c.buf xs)) [
          | inl nothing ↦ rw nothing (
              rw (find_unused, ne→==false xh, g)
                (elim (Bool-cases ((c.buf x).refcnt == 0)) [
                  | inl free ↦ rw free
                  | inr used ↦ rw used
                ]))
          | inr (b, found) ↦ rw found
        ])

  -- `bget` as a look-up in the list: the first buffer of the block, or else the last one that is free,
  -- or else a panic.
  abbrev pub lookup : ℕ → ℕ → List ℕ → Bcache Block → Outcome (ℕ × Bcache Block)
  lookup dev blockno xs c = elim (first_cached c.buf dev blockno xs) [
    | some b ↦ done (b, count_up b c)
    | none ↦ elim (last_free c.buf xs) [ some b ↦ done (b, recycle b dev blockno c) | none ↦ panic ]
  ]

  -- On a ring of at most NBUF buffers, `bget` ends. It takes the first buffer in the order of last
  -- use that has the block, and counts one more reference; if there is none, it recycles the last
  -- buffer in that order without a reference; if there is none either, it panics.
  pub bget-lookup :
      (dev blockno : ℕ) (xs : List ℕ) (c : Bcache Block)
      → IsRing c xs
      → length xs ≤ nbuf
      → bget dev blockno c ≡ some (lookup dev blockno xs c)
  unfolding bget find_unused
  bget-lookup dev blockno xs c r short =
      let rest = nbuf - length xs in
      let fuel : length xs + suc rest ≡ nbuf + 1 = omega arith in
      let back : find_unused (nbuf + 1) (c.prev head) c
          ≡ elim (last_free c.buf xs) [ some b ↦ some (some b) | none ↦ some none ] =
        rw fuel at (find_unused-last (suc rest) head xs c r.linked r.distinct) in
      rw
        (bget, find_cached-first (nbuf + 1) dev blockno head xs c r.linked r.distinct (omega arith))
        (elim (Option-cases (first_cached c.buf dev blockno xs)) [
          | inr (b, found) ↦ rw (lookup, found)
          | inl missing ↦
              rw (lookup, missing, back)
                (elim (Option-cases (last_free c.buf xs)) [
                  | inr (b, free) ↦ rw free
                  | inl full ↦ rw full
                ])
        ])

  -- The buffer cache with `m` references to `b`.
  abbrev counted : ℕ → ℕ → Bcache Block → Bcache Block
  counted m b c = record c { buf = update c.buf b (record (c.buf b) { refcnt = m }) }

  counted-IsRing :
      (m b : ℕ) (xs : List ℕ) (c : Bcache Block) → IsRing c xs → IsRing (counted m b c) xs
  counted-IsRing m b xs c r = record { linked = r.linked; distinct = r.distinct }

  drop_ref-eq :
      (m b : ℕ) (c : Bcache Block)
      → ((c.buf b).refcnt + (2 ^ 32 - 1)) % 2 ^ 32 ≡ m
      → drop_ref b c ≡ (if m == 0 then push_front b (unlink b (counted m b c)) else counted m b c)
  unfolding drop_ref
  drop_ref-eq m b c e = rw e

  -- `brelse` by the holder of a buffer of the ring drops one reference. If it was the last one, the
  -- buffer moves to the front of the ring, the others keeping their order; else the ring stays.
  pub brelse-moves :
      (b : ℕ) (xs : List ℕ) (c : Bcache Block)
      → IsRing c xs
      → On b xs
      → 0 < (c.buf b).refcnt
      → (c.buf b).refcnt < 2 ^ 32
      → (c' : Bcache Block) × (brelse true b c ≡ done c')
        × IsRing c' (if (c.buf b).refcnt == 1 then b ∷ remove b xs else xs)
        × (c'.buf ≡ update c.buf b (record (c.buf b) { refcnt = (c.buf b).refcnt - 1 }))
        × (c'.disk ≡ c.disk)
  unfolding brelse push_front unlink
  brelse-moves b xs c r on pos small =
      let m : ℕ = (c.buf b).refcnt - 1 in
      let e = drop_ref-eq m b c (omega arith) in
      elim (Bool-cases ((c.buf b).refcnt == 1)) [
        | inl last ↦
            let zero_left : (m == 0) ≡ true = ground (arith, last) in
            (
              push_front b (unlink b (counted m b c)),
              ap done (
                  e
                  ∙ ap (λ z. if z then push_front b (unlink b (counted m b c)) else counted m b c)
                      zero_left),
              subst
                  (λ z.
                    IsRing (push_front b (unlink b (counted m b c)))
                      (if z then b ∷ remove b xs else xs))
                  (sym last) (move-IsRing b xs (counted m b c) on (counted-IsRing m b xs c r)),
              refl,
              refl,
            )
        | inr more ↦
            let some_left : (m == 0) ≡ false = ground (arith, more) in
            (
              counted m b c,
              ap done (
                  e
                  ∙ ap (λ z. if z then push_front b (unlink b (counted m b c)) else counted m b c)
                      some_left),
              subst (λ z. IsRing (counted m b c) (if z then b ∷ remove b xs else xs)) (sym more)
                  (counted-IsRing m b xs c r),
              refl,
              refl,
            )
      ]

  init_loop-IsRing :
      (k n : ℕ) (c : Bcache Block)
      → n + k ≤ nbuf
      → IsRing c (down_from n)
      → IsRing (init_loop k n c) (down_from (n + k))
  unfolding init_loop
  init_loop-IsRing zero n c le r =
      let same : n ≡ n + zero = omega arith in subst (λ m. IsRing c (down_from m)) same r
  init_loop-IsRing (suc k) n c le r =
      let shape : suc n + k ≡ n + suc k = omega arith in
      rw shape at (
        init_loop-IsRing k (suc n) (push_front n c) (omega arith) (
          push_front-IsRing n (down_from n) c (λ h. absurd (omega arith)) (above n n (omega arith))
            r))

  -- `binit` makes a ring of all the buffers.
  pub binit-IsRing : (c : Bcache Block) → IsRing (binit c) (down_from nbuf)
  unfolding binit
  binit-IsRing c = init_loop-IsRing nbuf 0 _ (omega arith) (record {
    linked = (update_self c.next head head, update_self c.prev head head);
    distinct = tt;
  })
