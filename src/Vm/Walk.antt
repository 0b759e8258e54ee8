-- ===== src/Vm/Walk.antt =====
-- `walk` of vm.c finds the entry for an address, and adds the page tables that are missing without
-- changing what any address is translated to.
use mathlib.Core.Bool.{true≢false}
use team.Common.{
  ℕ, zero, suc, ◌+◌, ◌%◌, ◌^◌, ◌≤◌, ◌<◌, ◌≡◌, refl, ◌≢◌, ap, ap₂, sym, ◌∙◌, true, false, Option,
  none, some, arith, ◌⊎◌, inl, inr, Bool-cases, ℕ_discrete, ne→==false,
}
use team.Common.Family.{update_self, update_ne}
use team.Vm.{px, pte2pa, pa2pte, is_valid, Slot, Pages, Tables, add_table, walk_level}
use team.Vm.NewTable.{
  cleared, added, new_tag, added-IsTree, new_tag-keeps, added-slot, added-other, added-same, back,
}
use team.Vm.Tree.{key, leaf, entry_at, IsTree, step-tag, px-lt, key-step}

-- What vm.c relies on in kalloc.c: a page that is given out was free and is not any more, and is an
-- aligned address of at most 56 bits.
pub record Supplies (pages : Pages) : Type 1 where
  pub Ok : pages.State → Type 0
  pub IsFree : pages.State → ℕ → Type 0
  pub stays : (s : pages.State) → Ok s → Ok (pages.kalloc s).1
  pub gives :
      (s : pages.State)
      → Ok s
      → (pages.kalloc s).0 ≢ 0
      → IsFree s (pages.kalloc s).0
        × ((pages.kalloc s).0 % 4096 ≡ 0)
        × ((pages.kalloc s).0 < 2 ^ 56)
  pub keeps :
      (s : pages.State) (q : ℕ)
      → Ok s
      → IsFree (pages.kalloc s).1 q
      → IsFree s q × ((pages.kalloc s).0 ≢ 0 → q ≢ (pages.kalloc s).0)

-- The allocator is in order, and its free pages are no page tables.
abbrev pub Spare : (pages : Pages) → Supplies pages → pages.State → (ℕ → Option (ℕ × ℕ)) → Type 0
Spare pages sup s tag = sup.Ok s × ((q : ℕ) → sup.IsFree s q → tag q ≡ none)

-- `kalloc` gives pages, which takes the first supply to the second.
pub data Drawn (pages : Pages) : pages.State → pages.State → Type 0 where
  drawn_none : {s : pages.State} → Drawn pages s s
  drawn_page :
      {s s' : pages.State}
      → (pages.kalloc s).0 ≢ 0
      → Drawn pages (pages.kalloc s).1 s'
      → Drawn pages s s'

-- `kalloc` gives pages until it has none left.
pub record Exhausted (pages : Pages) (s s' : pages.State) : Type 0 where
  pub last : pages.State
  pub drawn : Drawn pages s last
  pub empty : (pages.kalloc last).0 ≡ 0
  pub left : s' ≡ (pages.kalloc last).1

Drawn-trans :
    {pages : Pages} {s t u : pages.State} → Drawn pages s t → Drawn pages t u → Drawn pages s u
Drawn-trans drawn_none e = e
Drawn-trans (drawn_page got d) e = drawn_page got (Drawn-trans d e)

pub Drawn-Exhausted :
    {pages : Pages} {s t u : pages.State}
    → Drawn pages s t
    → Exhausted pages t u
    → Exhausted pages s u
Drawn-Exhausted d e = record {
  last = e.last;
  drawn = Drawn-trans d e.drawn;
  empty = e.empty;
  left = e.left;
}

-- What `walk` with `alloc` leaves, from the page table `p` with `l` levels below it.
pub record Walked (pages : Pages) (sup : Supplies pages) (tag : ℕ → Option (ℕ × ℕ)) (root : ℕ)
    (t : Tables pages.State) (l va p : ℕ) (r : Option Slot × Tables pages.State) : Type 0 where
  pub tag' : ℕ → Option (ℕ × ℕ)
  pub tree : IsTree tag' root r.1.pte
  pub spare : Spare pages sup r.1.supply tag'
  pub keeps : (q : ℕ) (x : ℕ × ℕ) → tag q ≡ some x → tag' q ≡ some x
  pub upper :
      (q d k i : ℕ)
      → tag q ≡ some (suc d, k)
      → is_valid (t.pte q i) ≡ true
      → r.1.pte q i ≡ t.pte q i
  pub same :
      (d va' q : ℕ)
      → d ≤ 2
      → tag q ≡ some (d, key d va')
      → entry_at r.1.pte (leaf r.1.pte d va' q) ≡ entry_at t.pte (leaf t.pte d va' q)
  pub ends :
      ((r.0 ≡ none) × Exhausted pages t.supply r.1.supply)
      ⊎ ((slot : Slot) × (r.0 ≡ some slot)
          × (leaf r.1.pte l va p ≡ some slot)
          × Drawn pages t.supply r.1.supply)

module _ (pages : Pages) (sup : Supplies pages) where
  open pages use {State, kalloc}

  -- The tables when `kalloc` has given a page to them.
  abbrev taken : Tables State → Tables State
  taken t = record t { supply = (kalloc t.supply).1 }

  grown : ℕ → ℕ → Tables State → Tables State
  unfolding add_table
  grown p i t = add_table pages (kalloc t.supply).0 p i (taken t)

  no_page :
      (t : Tables State) (l va p root : ℕ) (tag : ℕ → Option (ℕ × ℕ))
      → IsTree tag root t.pte
      → Spare pages sup t.supply tag
      → (kalloc t.supply).0 ≡ 0
      → Walked pages sup tag root t l va p (none, taken t)
  no_page t l va p root tag tree spare full = record {
    tag' = tag;
    tree = tree;
    spare = (sup.stays t.supply spare.0, λ q free. spare.1 q (sup.keeps t.supply q spare.0 free).0);
    keeps = λ q x h. h;
    upper = λ q d k i h v. refl;
    same = λ d va' q h e. refl;
    ends = inl (refl, record { last = t.supply; drawn = drawn_none; empty = full; left = refl });
  }

  new_page :
      (l va p root : ℕ) (tag : ℕ → Option (ℕ × ℕ)) (t : Tables State)
      → l < 2
      → IsTree tag root t.pte
      → Spare pages sup t.supply tag
      → tag p ≡ some (suc l, key (suc l) va)
      → is_valid (t.pte p (px (suc l) va)) ≡ false
      → (kalloc t.supply).0 ≢ 0
      → ((tag1 : ℕ → Option (ℕ × ℕ))
          → IsTree tag1 root (grown p (px (suc l) va) t).pte
          → Spare pages sup (grown p (px (suc l) va) t).supply tag1
          → tag1 (kalloc t.supply).0 ≡ some (l, key l va)
          → Walked pages sup tag1 root
              (grown p (px (suc l) va) t)
              l
              va
              (kalloc t.supply).0
              (walk_level pages l true va (kalloc t.supply).0 (grown p (px (suc l) va) t)))
      → Walked pages sup tag root t
          (suc l)
          va
          p
          (walk_level pages l true va (kalloc t.supply).0 (grown p (px (suc l) va) t))
  unfolding grown added cleared new_tag leaf
  new_page l va p root tag t lt tree spare at bad got walked =
      let i : ℕ = px (suc l) va in
      let pa : ℕ = (kalloc t.supply).0 in
      let k : ℕ = key (suc l) va in
      let (free, aligned, small) = sup.gives t.supply spare.0 got in
      let new : tag pa ≡ none = spare.1 pa free in
      let in_table : i < 512 = px-lt (suc l) va in
      let set : is_valid (pa2pte pa + 1) ≡ true = ground arith in
      let w =
        walked (new_tag tag root t.pte tree p l k i pa at in_table bad new aligned small)
          (added-IsTree tag root t.pte tree p l k i pa at in_table bad new aligned small)
          (
            sup.stays t.supply spare.0,
            λ q h.
                update_ne tag pa _ q ((sup.keeps t.supply q spare.0 h).1 got)
                ∙ spare.1 q (sup.keeps t.supply q spare.0 h).0,
          )
          (update_self tag pa _ ∙ ap (λ x. some (l, x)) (key-step l va lt)) in
      let keeps = new_tag-keeps tag root t.pte tree p l k i pa at in_table bad new aligned small in
      let word : (grown p i t).pte p i ≡ pa2pte pa + 1 =
        added-slot tag root t.pte tree p l k i pa at in_table bad new aligned small in
      let entry = w.upper p l k i (keeps p (suc l, k) at) (ap is_valid word ∙ set) ∙ word in
      record {
        tag' = w.tag';
        tree = w.tree;
        spare = w.spare;
        keeps = λ q x h. w.keeps q x (keeps q x h);
        upper = λ q d k' j h v.
            let old : (grown p i t).pte q j ≡ t.pte q j =
              added-other tag root t.pte tree p l k i pa at in_table bad new aligned small q j
                (λ e. cc (h, new, ap tag e))
                (λ e f. absurd (true≢false (sym v ∙ ap is_valid (ap₂ t.pte e f) ∙ bad))) in
            w.upper q d k' j (keeps q (suc d, k') h) (ap is_valid old ∙ v) ∙ old;
        same = λ d va' q h e.
            w.same d va' q h (keeps q (d, key d va') e)
            ∙ added-same tag root t.pte tree p l k i pa at in_table bad new aligned small d va' q h
                e;
        ends = elim w.ends [
          | inl (e, out) ↦ inl (e, Drawn-Exhausted (drawn_page got drawn_none) out)
          | inr (slot, e, there, drawn) ↦ inr (
            slot,
            e,
            rw (entry, set, back tag root t.pte tree p l k i pa at in_table bad new aligned small)
                there,
            drawn_page got drawn,
          )
        ];
      }

  pub walk_level-Walked :
      (l va p root : ℕ) (tag : ℕ → Option (ℕ × ℕ)) (t : Tables State)
      → l ≤ 2
      → IsTree tag root t.pte
      → Spare pages sup t.supply tag
      → tag p ≡ some (l, key l va)
      → Walked pages sup tag root t l va p (walk_level pages l true va p t)
  unfolding walk_level leaf grown
  walk_level-Walked zero va p root tag t le tree spare at = record {
    tag' = tag;
    tree = tree;
    spare = spare;
    keeps = λ q x h. h;
    upper = λ q d k i h v. refl;
    same = λ d va' q h e. refl;
    ends = inr ((p, px 0 va), refl, refl, drawn_none);
  }
  walk_level-Walked (suc l) va p root tag t le tree spare at =
      let i : ℕ = px (suc l) va in
      elim (Bool-cases (is_valid (t.pte p i))) [
        | inl valid ↦
            let w =
              walk_level-Walked l va (pte2pa (t.pte p i)) root tag t (omega arith) tree spare
                (step-tag tag root t.pte tree l va p (omega arith) at valid) in
            let entry = w.upper p l (key (suc l) va) i at valid in
            rw valid (record {
              tag' = w.tag';
              tree = w.tree;
              spare = w.spare;
              keeps = w.keeps;
              upper = w.upper;
              same = w.same;
              ends = elim w.ends [
                | inl e ↦ inl e
                | inr (slot, e, there, drawn) ↦ inr (slot, e, rw (entry, valid) there, drawn)
              ];
            })
        | inr bad ↦ elim (ℕ_discrete (kalloc t.supply).0 0) [
          | yes full ↦ rw (bad, full) (no_page t (suc l) va p root tag tree spare full)
          | no got ↦
              rw (bad, ne→==false got)
                (new_page l va p root tag t (omega arith) tree spare at bad got
                  (λ tag1 tree1 spare1 at1.
                    walk_level-Walked l va (kalloc t.supply).0 root tag1 (grown p i t) (omega arith)
                      tree1 spare1 at1))
        ]
      ]
