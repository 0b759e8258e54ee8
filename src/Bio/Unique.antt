-- ===== src/Bio/Unique.antt =====
-- `bread` of bio.c: one buffer for each block, with what the disk holds.
use mathlib.Core.Bool.{true≢false}
use team.Common.{
  ℕ, ◌+◌, ◌%◌, ◌^◌, ◌≤◌, ◌≡◌, refl, ◌≢◌, ap, ap₂, sym, ◌∙◌, true, false, none, some, List, [], ◌∷◌,
  ◌==◌, ◌&&◌, arith, ◌⊎◌, inl, inr, ℕ_discrete, length, Bool-cases, Option-cases, some-eq,
}
use team.Common.Outcome.{done, panic}
use team.Common.Family.{update, update_self, update_ne}
use team.Bio.{nbuf, Buf, Bcache, is_block, count_up, recycle, fill_buffer, bread}
use team.Bio.Ring.{On}
use team.Bio.Moves.{IsRing}
use team.Bio.Lru.{first_cached, last_free, lookup, bget-lookup}

module _ {Block : Type 0} where
  cached-is :
      (buf : ℕ → Buf Block) (dev blockno b : ℕ) (xs : List ℕ)
      → first_cached buf dev blockno xs ≡ some b
      → On b xs × (is_block dev blockno (buf b) ≡ true)
  cached-is buf dev blockno b [] h = cc
  cached-is buf dev blockno b (x ∷ xs) h = elim (Bool-cases (is_block dev blockno (buf x))) [
    | inl is ↦
        let here = some-eq (rw is at h) in
        (inl (sym here), ap (λ y. is_block dev blockno (buf y)) (sym here) ∙ is)
    | inr other ↦ let (on, is) = cached-is buf dev blockno b xs (rw other at h) in (inr on, is)
  ]

  missing-is :
      (buf : ℕ → Buf Block) (dev blockno x : ℕ) (xs : List ℕ)
      → first_cached buf dev blockno xs ≡ none
      → On x xs
      → is_block dev blockno (buf x) ≡ false
  missing-is buf dev blockno x [] h on = elim on [ ]
  missing-is buf dev blockno x (y ∷ ys) h on = elim (Bool-cases (is_block dev blockno (buf y))) [
    | inl is ↦ cc (rw is at h)
    | inr other ↦ elim on [
      | inl e ↦ ap (λ z. is_block dev blockno (buf z)) e ∙ other
      | inr there ↦ missing-is buf dev blockno x ys (rw other at h) there
    ]
  ]

  free-is :
      (buf : ℕ → Buf Block) (b : ℕ) (xs : List ℕ)
      → last_free buf xs ≡ some b
      → On b xs × ((buf b).refcnt ≡ 0)
  free-is buf b [] h = cc
  free-is buf b (x ∷ xs) h = elim (Option-cases (last_free buf xs)) [
    | inr (y, found) ↦ let (on, free) = free-is buf b xs (found ∙ rw found at h) in (inr on, free)
    | inl nothing ↦ elim (Bool-cases ((buf x).refcnt == 0)) [
      | inl free ↦
          let here = some-eq (rw (nothing, free) at h) in
          (inl (sym here), ap (λ y. (buf y).refcnt) (sym here) ∙ ground (arith, free))
      | inr used ↦ cc (rw (nothing, used) at h)
    ]
  ]

  -- No two buffers of the ring have the same block of a device. A buffer that has never been used is
  -- of device 0, which is none.
  abbrev pub Unique : Bcache Block → List ℕ → Type 0
  Unique c xs =
      (x y : ℕ)
      → On x xs
      → On y xs
      → (c.buf x).dev ≢ 0
      → (c.buf x).dev ≡ (c.buf y).dev
      → (c.buf x).blockno ≡ (c.buf y).blockno
      → x ≡ y

  -- What `bread` returns.
  pub record Read (c : Bcache Block) (xs : List ℕ) (dev blockno b : ℕ) (c' : Bcache Block)
      : Type 0 where
    pub on : On b xs
    pub ring : IsRing c' xs
    pub unique : Unique c' xs
    pub block : ((c'.buf b).dev ≡ dev) × ((c'.buf b).blockno ≡ blockno)
    pub valid : (c'.buf b).valid ≡ true
    pub kept :
        is_block dev blockno (c.buf b) ≡ true
        → (c.buf b).valid ≡ true
        → (c'.buf b).contents ≡ (c.buf b).contents
    pub loaded :
        (is_block dev blockno (c.buf b) && (c.buf b).valid) ≡ false
        → (c'.buf b).contents ≡ c.disk dev blockno
    pub others : (x : ℕ) → x ≢ b → c'.buf x ≡ c.buf x

  SameBlocks : Bcache Block → Bcache Block → Type 0
  SameBlocks c c' =
      (x : ℕ) → ((c'.buf x).dev ≡ (c.buf x).dev) × ((c'.buf x).blockno ≡ (c.buf x).blockno)

  Unique-SameBlocks :
      (c c' : Bcache Block) (xs : List ℕ) → SameBlocks c c' → Unique c xs → Unique c' xs
  unfolding SameBlocks
  Unique-SameBlocks c c' xs same u x y on on' used e e' =
      u x y on on' (λ h. used ((same x).0 ∙ h)) (sym (same x).0 ∙ e ∙ (same y).0)
        (sym (same x).1 ∙ e' ∙ (same y).1)

  -- A buffer is written, its block being the same.
  write-SameBlocks :
      (c : Bcache Block) (b : ℕ) (v : Buf Block)
      → v.dev ≡ (c.buf b).dev
      → v.blockno ≡ (c.buf b).blockno
      → SameBlocks c (record c { buf = update c.buf b v })
  unfolding SameBlocks
  write-SameBlocks c b v e e' x = elim (ℕ_discrete x b) [
    | yes is ↦
        let at = ap (update c.buf b v) is ∙ update_self c.buf b v in
        (
          ap (λ (y : Buf Block). y.dev) at ∙ e ∙ ap (λ z. (c.buf z).dev) (sym is),
          ap (λ (y : Buf Block). y.blockno) at ∙ e' ∙ ap (λ z. (c.buf z).blockno) (sym is),
        )
    | no other ↦
        let at = update_ne c.buf b v x other in
        (ap (λ (y : Buf Block). y.dev) at, ap (λ (y : Buf Block). y.blockno) at)
  ]

  recycle-Unique :
      (c : Bcache Block) (xs : List ℕ) (dev blockno b : ℕ)
      → Unique c xs
      → ((x : ℕ) → On x xs → is_block dev blockno (c.buf x) ≡ false)
      → Unique (recycle b dev blockno c) xs
  recycle-Unique c xs dev blockno b u missing x y on on' used e e' = elim (ℕ_discrete x b) [
    | yes x_is ↦ elim (ℕ_discrete y b) [
      | yes y_is ↦ x_is ∙ sym y_is
      | no y_other ↦ absurd (clash x y x_is y_other on' e e')
    ]
    | no x_other ↦ elim (ℕ_discrete y b) [
      | yes y_is ↦ absurd (clash y x y_is x_other on (sym e) (sym e'))
      | no y_other ↦
          let at = update_ne c.buf b _ x x_other in
          let at' = update_ne c.buf b _ y y_other in
          u x y on on' (λ h. used (ap (λ (z : Buf Block). z.dev) at ∙ h))
            (sym (ap (λ (z : Buf Block). z.dev) at) ∙ e ∙ ap (λ (z : Buf Block). z.dev) at')
            (sym (ap (λ (z : Buf Block). z.blockno) at)
              ∙ e'
              ∙ ap (λ (z : Buf Block). z.blockno) at')
    ]
  ]
    where
      new : Buf Block
      new = record (c.buf b) { dev = dev; blockno = blockno; valid = false; refcnt = 1 }

      clash :
          (x y : ℕ)
          → x ≡ b
          → y ≢ b
          → On y xs
          → (update c.buf b new x).dev ≡ (update c.buf b new y).dev
          → (update c.buf b new x).blockno ≡ (update c.buf b new y).blockno
          → ⊥
      clash x y is other at e e' =
          let here = ap (update c.buf b new) is ∙ update_self c.buf b new in
          let there = update_ne c.buf b new y other in
          let same_dev : (c.buf y).dev ≡ dev =
            ap (λ (z : Buf Block). z.dev) (sym there)
            ∙ sym e
            ∙ ap (λ (z : Buf Block). z.dev) here in
          let same_no : (c.buf y).blockno ≡ blockno =
            ap (λ (z : Buf Block). z.blockno) (sym there)
            ∙ sym e'
            ∙ ap (λ (z : Buf Block). z.blockno) here in
          let found : is_block dev blockno (c.buf y) ≡ true = ground (arith, same_dev, same_no) in
          true≢false (sym found ∙ missing y at)

  -- `bread` behind `bget`.
  fill_buffer-Read :
      (c c1 : Bcache Block) (xs : List ℕ) (dev blockno b : ℕ)
      → On b xs
      → IsRing c1 xs
      → Unique c1 xs
      → (c1.buf b).dev ≡ dev
      → (c1.buf b).blockno ≡ blockno
      → (c1.buf b).valid ≡ (is_block dev blockno (c.buf b) && (c.buf b).valid)
      → (c1.buf b).contents ≡ (c.buf b).contents
      → c1.disk ≡ c.disk
      → ((x : ℕ) → x ≢ b → c1.buf x ≡ c.buf x)
      → Read c xs dev blockno b (fill_buffer b c1)
  unfolding fill_buffer
  fill_buffer-Read c c1 xs dev blockno b on r u e e' hit same_contents same_disk others =
      elim (Bool-cases (c1.buf b).valid) [
        | inl valid ↦ rw valid (record {
          on = on;
          ring = r;
          unique = u;
          block = (e, e');
          valid = valid;
          kept = λ is v. same_contents;
          loaded = λ stale. absurd (true≢false (sym valid ∙ hit ∙ stale));
          others = others;
        })
        | inr invalid ↦
            let x = c1.buf b in
            let v : Buf Block = record x { contents = c1.disk x.dev x.blockno; valid = true } in
            let at = update_self c1.buf b v in
            rw invalid (record {
              on = on;
              ring = record { linked = r.linked; distinct = r.distinct };
              unique = Unique-SameBlocks c1 _ xs (write-SameBlocks c1 b v refl refl) u;
              block =
                  (ap (λ (y : Buf Block). y.dev) at ∙ e, ap (λ (y : Buf Block). y.blockno) at ∙ e');
              valid = ap (λ (y : Buf Block). y.valid) at;
              kept =
                  λ is was. absurd (true≢false (sym (hit ∙ ap₂ (λ p q. p && q) is was) ∙ invalid));
              loaded = λ stale.
                  ap (λ (y : Buf Block). y.contents) at
                  ∙ ap (λ d. d x.dev x.blockno) same_disk
                  ∙ ap₂ c.disk e e';
              others = λ y ne. update_ne c1.buf b v y ne ∙ others y ne;
            })
      ]

  full-used :
      (buf : ℕ → Buf Block) (x : ℕ) (xs : List ℕ)
      → last_free buf xs ≡ none
      → On x xs
      → (buf x).refcnt ≢ 0
  full-used buf x [] h on free = elim on [ ]
  full-used buf x (y ∷ ys) h on free = elim (Option-cases (last_free buf ys)) [
    | inr (b, found) ↦ cc (rw found at h)
    | inl nothing ↦ elim (Bool-cases ((buf y).refcnt == 0)) [
      | inl idle ↦ cc (rw (nothing, idle) at h)
      | inr used ↦ elim on [
        | inl e ↦ absurd (ground (arith, used, free, ap (λ z. (buf z).refcnt) e))
        | inr there ↦ full-used buf x ys nothing there free
      ]
    ]
  ]

  -- On a ring of at most NBUF buffers, no two of which have the same block, `bread` ends. It panics
  -- only when no buffer has the block and every one is referenced. Else the buffer that it returns has
  -- the block and is valid: with the contents that it had, if it was a valid buffer of the block, and
  -- with those of the disk if not. The other buffers and the ring stay, and still no two buffers have
  -- the same block.
  pub bread-Read :
      (dev blockno : ℕ) (xs : List ℕ) (c : Bcache Block)
      → IsRing c xs
      → length xs ≤ nbuf
      → Unique c xs
      → ((bread dev blockno c ≡ some panic)
          × ((x : ℕ) → On x xs → (is_block dev blockno (c.buf x) ≡ false) × ((c.buf x).refcnt ≢ 0)))
        ⊎ ((b : ℕ) × (c' : Bcache Block) × (bread dev blockno c ≡ some (done (b, c')))
            × Read c xs dev blockno b c')
  unfolding bread
  bread-Read dev blockno xs c r short u =
      let eq = bget-lookup dev blockno xs c r short in
      elim (Option-cases (first_cached c.buf dev blockno xs)) [
        | inr (b, found) ↦
            let (on, is) = cached-is c.buf dev blockno b xs found in
            inr (b, fill_buffer b (count_up b c), rw (bread, eq, lookup, found), hit_Read b on is)
        | inl missing ↦
            let out = λ (x : ℕ) (on : On x xs). missing-is c.buf dev blockno x xs missing on in
            elim (Option-cases (last_free c.buf xs)) [
              | inr (b, free) ↦
                  let (on, idle) = free-is c.buf b xs free in
                  inr (
                    b,
                    fill_buffer b (recycle b dev blockno c),
                    rw (bread, eq, lookup, missing, free),
                    miss_Read b on out,
                  )
              | inl full ↦ inl (
                rw (bread, eq, lookup, missing, full),
                λ x on. (out x on, full-used c.buf x xs full on),
              )
            ]
      ]
    where
      hit_Read :
          (b : ℕ)
          → On b xs
          → is_block dev blockno (c.buf b) ≡ true
          → Read c xs dev blockno b (fill_buffer b (count_up b c))
      hit_Read b on is =
          let v : Buf Block = record (c.buf b) { refcnt = ((c.buf b).refcnt + 1) % 2 ^ 32 } in
          let at = update_self c.buf b v in
          fill_buffer-Read c (count_up b c) xs dev blockno b on
            (record { linked = r.linked; distinct = r.distinct })
            (Unique-SameBlocks c (count_up b c) xs (write-SameBlocks c b v refl refl) u)
            (ap (λ (y : Buf Block). y.dev) at ∙ ground (arith, is))
            (ap (λ (y : Buf Block). y.blockno) at ∙ ground (arith, is))
            (ap (λ (y : Buf Block). y.valid) at ∙ ap (λ z. z && (c.buf b).valid) (sym is))
            (ap (λ (y : Buf Block). y.contents) at) refl (λ x ne. update_ne c.buf b v x ne)

      miss_Read :
          (b : ℕ)
          → On b xs
          → ((x : ℕ) → On x xs → is_block dev blockno (c.buf x) ≡ false)
          → Read c xs dev blockno b (fill_buffer b (recycle b dev blockno c))
      miss_Read b on out =
          let v : Buf Block = record (c.buf b) {
            dev = dev;
            blockno = blockno;
            valid = false;
            refcnt = 1;
          } in
          let at = update_self c.buf b v in
          fill_buffer-Read c (recycle b dev blockno c) xs dev blockno b on
            (record { linked = r.linked; distinct = r.distinct })
            (recycle-Unique c xs dev blockno b u out) (ap (λ (y : Buf Block). y.dev) at)
            (ap (λ (y : Buf Block). y.blockno) at)
            (ap (λ (y : Buf Block). y.valid) at ∙ ap (λ z. z && (c.buf b).valid) (sym (out b on)))
            (ap (λ (y : Buf Block). y.contents) at) refl (λ x ne. update_ne c.buf b v x ne)
