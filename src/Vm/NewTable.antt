-- ===== src/Vm/NewTable.antt =====
-- The page tables of vm.c when `walk` puts a new one, full of zeros, under an entry: they stay a tree
-- and translate every address as before.
use mathlib.Core.Bool.{true≢false}
use team.Common.{
  ℕ, zero, suc, ◌+◌, ◌*◌, ◌%◌, ◌^◌, ◌≤◌, ◌<◌, ◌≡◌, ◌≢◌, ap, ap₂, sym, ◌∙◌, true, false, Option,
  none, some, arith, some-eq, ◌⊎◌, inl, inr, Bool-cases, ℕ_discrete,
}
use team.Common.Family.{update, update_self, update_ne}
use team.Vm.{px, pte2pa, pa2pte, is_valid}
use team.Vm.Tree.{key, leaf, entry_at, IsTree, step-tag}

tuple_eq : {a b c d : ℕ} → a ≡ c → b ≡ d → ◌≡◌ {A = ℕ × ℕ} (a, b) (c, d)
tuple_eq e f = ap₂ (λ x y. (x, y)) e f

-- A page of zeros is put under an entry that was not valid.
module _ (tag : ℕ → Option (ℕ × ℕ)) (root : ℕ) (pte : ℕ → ℕ → ℕ) (tree : IsTree tag root pte)
    (p l k i pa : ℕ) (at : tag p ≡ some (suc l, k)) (in_table : i < 512)
    (bad : is_valid (pte p i) ≡ false) (new : tag pa ≡ none) (aligned : pa % 4096 ≡ 0)
    (small : pa < 2 ^ 56) where
  unfoldable pub cleared : ℕ → ℕ → ℕ
  cleared = update pte pa (λ _. 0)

  unfoldable pub added : ℕ → ℕ → ℕ
  added = update cleared p (update (cleared p) i (pa2pte pa + 1))

  unfoldable pub new_tag : ℕ → Option (ℕ × ℕ)
  new_tag = update tag pa (some (l, k * 512 + i))

  pub back : pte2pa (pa2pte pa + 1) ≡ pa
  back = omega arith

  p_apart : p ≢ pa
  p_apart e = cc (at, new, ap tag e)

  pub added-slot : added p i ≡ pa2pte pa + 1
  unfolding added
  added-slot = ap (λ f. f i) (update_self cleared p _) ∙ update_self (cleared p) i _

  added-zero : (j : ℕ) → added pa j ≡ 0
  unfolding added cleared
  added-zero j =
      ap (λ f. f j) (update_ne cleared p _ pa (λ e. p_apart (sym e)))
      ∙ ap (λ f. f j) (update_self pte pa _)

  pub added-other : (q j : ℕ) → q ≢ pa → (q ≡ p → j ≢ i) → added q j ≡ pte q j
  unfolding added cleared
  added-other q j ne other = elim (ℕ_discrete q p) [
    | yes same ↦
        rw (same, update_self cleared p (update (cleared p) i (pa2pte pa + 1)))
          (update_ne (cleared p) i (pa2pte pa + 1) j (other same)
            ∙ ap (λ f. f j) (update_ne pte pa (λ _. 0) p p_apart))
    | no apart ↦
        ap (λ f. f j) (update_ne cleared p _ q apart) ∙ ap (λ f. f j) (update_ne pte pa _ q ne)
  ]

  pub new_tag-keeps : (q : ℕ) (x : ℕ × ℕ) → tag q ≡ some x → new_tag q ≡ some x
  unfolding new_tag
  new_tag-keeps q x h = update_ne tag pa _ q (λ e. cc (h, new, ap tag e)) ∙ h

  tagged_apart : (q : ℕ) (x : ℕ × ℕ) → tag q ≡ some x → q ≢ pa
  tagged_apart q x h e = cc (h, new, ap tag e)

  -- The entry that was written, or another one.
  slot_or_not : (q j : ℕ) → ((q ≡ p) × (j ≡ i)) ⊎ (q ≡ p → j ≢ i)
  slot_or_not q j = elim (ℕ_discrete q p) [
    | yes same ↦ elim (ℕ_discrete j i) [ yes here ↦ inl (same, here) | no other ↦ inr (λ e. other) ]
    | no apart ↦ inr (λ e. absurd (apart e))
  ]

  added-child :
      (q d k' j : ℕ)
      → new_tag q ≡ some (suc d, k')
      → j < 512
      → is_valid (added q j) ≡ true
      → new_tag (pte2pa (added q j)) ≡ some (d, k' * 512 + j)
  unfolding new_tag
  added-child q d k' j tagged lt valid = elim (ℕ_discrete q pa) [
    | yes e ↦ absurd (true≢false (sym valid ∙ ap is_valid (ap (λ x. added x j) e ∙ added-zero j)))
    | no ne ↦
        let old : tag q ≡ some (suc d, k') = sym (update_ne tag pa _ q ne) ∙ tagged in
        elim (slot_or_not q j) [
          | inl (same, here) ↦
              let word : added q j ≡ pa2pte pa + 1 = ap₂ added same here ∙ added-slot in
              let levels = some-eq (sym at ∙ ap tag (sym same) ∙ old) in
              let depth : suc l ≡ suc d = ap (λ (x : ℕ × ℕ). x.0) levels in
              let keys : k ≡ k' = ap (λ (x : ℕ × ℕ). x.1) levels in
              let pair : ◌≡◌ {A = ℕ × ℕ} (l, k * 512 + i) (d, k' * 512 + j) =
                tuple_eq (omega arith) (omega arith) in
              ap new_tag (ap pte2pa word ∙ back) ∙ update_self tag pa _ ∙ ap some pair
          | inr other ↦
              let word : added q j ≡ pte q j = added-other q j ne other in
              ap (λ x. new_tag (pte2pa x)) word
              ∙ new_tag-keeps _ _ (tree.child q d k' j old lt (sym (ap is_valid word) ∙ valid))
        ]
  ]

  pub added-IsTree : IsTree new_tag root added
  added-IsTree = record { top = new_tag-keeps root (2, 0) tree.top; child = added-child }

  -- A walk through the new page ends at 0.
  zero_page : (d va : ℕ) → entry_at added (leaf added d va pa) ≡ 0
  unfolding leaf entry_at
  zero_page zero va = added-zero (px 0 va)
  zero_page (suc d) va = rw (added-zero (px (suc d) va))

  pub added-same :
      (d va q : ℕ)
      → d ≤ 2
      → tag q ≡ some (d, key d va)
      → entry_at added (leaf added d va q) ≡ entry_at pte (leaf pte d va q)
  unfolding leaf entry_at
  added-same zero va q h tagged =
      added-other q (px 0 va) (tagged_apart q _ tagged) (λ e. cc (tagged, at, ap tag e))
  added-same (suc d) va q h tagged = elim (slot_or_not q (px (suc d) va)) [
    | inl (same, here) ↦
        let word : added q (px (suc d) va) ≡ pa2pte pa + 1 = ap₂ added same here ∙ added-slot in
        let old : is_valid (pte q (px (suc d) va)) ≡ false =
          ap is_valid (ap₂ pte same here) ∙ bad in
        let set : is_valid (pa2pte pa + 1) ≡ true = ground arith in
        rw (word, old, set, back) (zero_page d va)
    | inr other ↦
        let word : added q (px (suc d) va) ≡ pte q (px (suc d) va) =
          added-other q (px (suc d) va) (tagged_apart q _ tagged) other in
        rw word (elim (Bool-cases (is_valid (pte q (px (suc d) va)))) [
          | inl valid ↦ rw valid (
              added-same d va (pte2pa (pte q (px (suc d) va))) (omega arith)
                (step-tag tag root pte tree d va q (omega arith) tagged valid))
          | inr not_valid ↦ rw not_valid
        ])
  ]
