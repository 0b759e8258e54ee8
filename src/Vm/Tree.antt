-- ===== src/Vm/Tree.antt =====
-- The page tables of vm.c as a tree: which entry a walk ends at, and what changes of entries do to it.
-- `tag p` says of a page that it is a page table, at which level, and for which addresses: the key
-- of an address at a level is the part of it above what the level and those below it translate.
use team.Common.{
  ℕ, zero, suc, ◌+◌, ◌*◌, ◌/◌, ◌^◌, ◌≤◌, ◌<◌, ◌≡◌, refl, ◌≢◌, ap, sym, subst, ◌∙◌, true, Option,
  none, some, ◌==◌, if◌then◌else◌, arith, some-eq, inl, inr, Bool-cases, Option-cases, ℕ_discrete,
  ne→==false,
}
use team.Common.Family.{update, update_self, update_ne}
use team.Vm.{px, pte2pa, is_valid, Slot}

abbrev pub key : ℕ → ℕ → ℕ
key zero va = va / 2 ^ 21
key (suc zero) va = va / 2 ^ 30
key (suc (suc l)) va = va / 2 ^ 39

-- `walk` without `alloc`, as a function of the entries.
unfoldable pub leaf : (ℕ → ℕ → ℕ) → ℕ → ℕ → ℕ → Option Slot
leaf pte zero va p = some (p, px 0 va)
leaf pte (suc l) va p =
    let down = leaf pte l va (pte2pa (pte p (px (suc l) va))) in
    if is_valid (pte p (px (suc l) va)) then down else none

-- The entry for an address; 0, which is not valid, where there is none.
unfoldable pub entry_at : (ℕ → ℕ → ℕ) → Option Slot → ℕ
entry_at pte none = 0
entry_at pte (some (p, i)) = pte p i

unfoldable pub translate : (ℕ → ℕ → ℕ) → ℕ → ℕ → ℕ
unfolding leaf entry_at
translate pte root va = entry_at pte (leaf pte 2 va root)

-- Valid entries above the last level lead to the page tables that they should.
pub record IsTree (tag : ℕ → Option (ℕ × ℕ)) (root : ℕ) (pte : ℕ → ℕ → ℕ) : Type 0 where
  pub top : tag root ≡ some (2, 0)
  pub child :
      (p l k i : ℕ)
      → tag p ≡ some (suc l, k)
      → i < 512
      → is_valid (pte p i) ≡ true
      → tag (pte2pa (pte p i)) ≡ some (l, k * 512 + i)

pub key-step : (l va : ℕ) → l < 2 → key (suc l) va * 512 + px (suc l) va ≡ key l va
key-step zero va h = omega arith
key-step (suc zero) va h = omega arith
key-step (suc (suc l)) va h = absurd (omega arith)

px-page : (l va va' : ℕ) → va / 2 ^ 12 ≡ va' / 2 ^ 12 → px l va ≡ px l va'
px-page zero va va' e = omega arith
px-page (suc zero) va va' e = omega arith
px-page (suc (suc l)) va va' e = omega arith

-- The key and the index of the last level give the page.
page-eq : (va va' : ℕ) → key 0 va ≡ key 0 va' → px 0 va ≡ px 0 va' → va / 2 ^ 12 ≡ va' / 2 ^ 12
page-eq va va' h h' = omega arith

pub px-lt : (l va : ℕ) → px l va < 512
px-lt zero va = omega arith
px-lt (suc zero) va = omega arith
px-lt (suc (suc l)) va = omega arith

module _ (tag : ℕ → Option (ℕ × ℕ)) (root : ℕ) (pte : ℕ → ℕ → ℕ) (tree : IsTree tag root pte) where
  -- One step down.
  pub step-tag :
      (l va p : ℕ)
      → l < 2
      → tag p ≡ some (suc l, key (suc l) va)
      → is_valid (pte p (px (suc l) va)) ≡ true
      → tag (pte2pa (pte p (px (suc l) va))) ≡ some (l, key l va)
  step-tag l va p h at valid =
      tree.child p l (key (suc l) va) (px (suc l) va) at (px-lt (suc l) va) valid
      ∙ ap (λ k. some (l, k)) (key-step l va h)

  -- A walk ends in a page table of the last level, for its own addresses.
  pub leaf-tag :
      (l va p q i : ℕ)
      → l ≤ 2
      → tag p ≡ some (l, key l va)
      → leaf pte l va p ≡ some (q, i)
      → (tag q ≡ some (0, key 0 va)) × (i ≡ px 0 va)
  unfolding leaf
  leaf-tag zero va p q i h at e =
      let same = some-eq e in
      (
        subst (λ x. tag x ≡ some (0, key 0 va)) (ap (λ (x : Slot). x.0) same) at,
        sym (ap (λ (x : Slot). x.1) same),
      )
  leaf-tag (suc l) va p q i h at e = elim (Bool-cases (is_valid (pte p (px (suc l) va)))) [
    | inl valid ↦
        leaf-tag l va (pte2pa (pte p (px (suc l) va))) q i (omega arith)
          (step-tag l va p (omega arith) at valid) (rw valid at e)
    | inr bad ↦ cc (rw bad at e)
  ]

  -- A walk reads the entries of the upper levels only.
  leaf-ext :
      (pte' : ℕ → ℕ → ℕ)
      → ((p l k i : ℕ) → tag p ≡ some (suc l, k) → pte' p i ≡ pte p i)
      → (l va p : ℕ) → l ≤ 2
      → tag p ≡ some (l, key l va)
      → leaf pte' l va p ≡ leaf pte l va p
  unfolding leaf
  leaf-ext pte' same zero va p h at = refl
  leaf-ext pte' same (suc l) va p h at = elim (Bool-cases (is_valid (pte p (px (suc l) va)))) [
    | inl valid ↦
        rw (same p l (key (suc l) va) (px (suc l) va) at, valid)
          (leaf-ext pte' same l va (pte2pa (pte p (px (suc l) va))) (omega arith)
            (step-tag l va p (omega arith) at valid))
    | inr bad ↦ rw (same p l (key (suc l) va) (px (suc l) va) at, bad)
  ]

  -- Addresses of one page share their walk.
  leaf-page :
      (va va' : ℕ) → va / 2 ^ 12 ≡ va' / 2 ^ 12 → (l p : ℕ) → leaf pte l va p ≡ leaf pte l va' p
  unfolding leaf
  leaf-page va va' e zero p = ap (λ i. some (p, i)) (px-page zero va va' e)
  leaf-page va va' e (suc l) p =
      rw (px-page (suc l) va va' e) (elim (Bool-cases (is_valid (pte p (px (suc l) va')))) [
        | inl valid ↦ rw valid (leaf-page va va' e l (pte2pa (pte p (px (suc l) va'))))
        | inr bad ↦ rw bad
      ])

  abbrev pub put : ℕ → ℕ → ℕ → ℕ → ℕ → ℕ
  put q i v = update pte q (update (pte q) i v)

  pub put-upper :
      (q i v k : ℕ)
      → tag q ≡ some (0, k)
      → (p l k' j : ℕ) → tag p ≡ some (suc l, k')
      → put q i v p j ≡ pte p j
  put-upper q i v k at p l k' j at' =
      let ne : p ≢ q = λ e. absurd (cc (at', at, ap tag e)) in ground arith

  put-elsewhere : (q i v q' i' : ℕ) → (q' ≡ q → i' ≢ i) → put q i v q' i' ≡ pte q' i'
  put-elsewhere q i v q' i' ne = elim (ℕ_discrete q' q) [
    | no other ↦ ap (λ f. f i') (update_ne pte q (update (pte q) i v) q' other)
    | yes same ↦
        rw (same, update_self pte q (update (pte q) i v)) (update_ne (pte q) i v i' (ne same))
  ]

  -- Addresses of different pages have different entries.
  apart :
      (va va' q i q' i' : ℕ)
      → va' / 2 ^ 12 ≢ va / 2 ^ 12
      → tag q ≡ some (0, key 0 va)
      → tag q' ≡ some (0, key 0 va')
      → i ≡ px 0 va
      → i' ≡ px 0 va'
      → q' ≡ q
      → i' ≢ i
  apart va va' q i q' i' other at at' e e' same same_i =
      let keys = ap (λ (x : ℕ × ℕ). x.1) (some-eq (sym at' ∙ ap tag same ∙ at)) in
      other (page-eq va' va keys (sym e' ∙ same_i ∙ e))

  pub at_top : (va : ℕ) → va < 2 ^ 39 → tag root ≡ some (2, key 2 va)
  at_top va h =
      let none_above : 0 ≡ key 2 va = omega arith in tree.top ∙ ap (λ k. some (2, k)) none_above

  -- An entry of the last level is written: the address that it is for is translated by the new
  -- entry, and every address of another page as before.
  pub translate-put :
      (va q i v va' : ℕ)
      → va < 2 ^ 39
      → va' < 2 ^ 39
      → leaf pte 2 va root ≡ some (q, i)
      → translate (put q i v) root va'
        ≡ (if va' / 2 ^ 12 == va / 2 ^ 12 then v else translate pte root va')
  unfolding translate
  translate-put va q i v va' h h' e =
      let (at_q, is_px) = leaf-tag 2 va root q i (omega arith) (at_top va h) e in
      let same_leaf =
        leaf-ext (put q i v) (put-upper q i v (key 0 va) at_q) 2 va' root (omega arith)
          (at_top va' h') in
      rw same_leaf (elim (ℕ_discrete (va' / 2 ^ 12) (va / 2 ^ 12)) [
        | yes page ↦ rw (leaf-page va' va page 2 root, e) (ground arith)
        | no other ↦ elim (Option-cases (leaf pte 2 va' root)) [
          | inl nowhere ↦ rw nowhere (ground arith)
          | inr ((q', i'), there) ↦
              let (at_q', is_px') = leaf-tag 2 va' root q' i' (omega arith) (at_top va' h') there in
              rw (there, ne→==false other)
                (put-elsewhere q i v q' i' (apart va va' q i q' i' other at_q at_q' is_px is_px'))
        ]
      ])
