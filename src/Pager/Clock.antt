-- ===== src/Pager/Clock.antt =====
-- The clock of CLab/mmap2.c gives every page that was used a second chance.
use native.Mathlib.Nat.{mod_self, mod-eq_of_lt}
use team.Common.{
  ℕ, zero, suc, ◌+◌, ◌-◌, ◌%◌, ◌≤◌, ◌<◌, ◌≡◌, refl, ap, sym, ◌∙◌, ◌⊎◌, inl, inr, ◌≢◌, if◌then◌else◌,
  arith, ◌==◌, ltb, Bool-cases, ℕ_discrete,
}
use team.Common.Family.{update, update_self, update_ne}
use team.Pager.{PageInfo, Search, hit, clock_search}

-- The slot `k` places ahead of the hand, `k` at most the number of slots.
abbrev pub ahead : ℕ → ℕ → ℕ → ℕ
ahead slots hand k = if ltb (hand + k) slots then hand + k else hand + k - slots

-- The second chance: the victim is the first slot from the hand on whose bit is clear, or the slot of
-- the hand itself, one turn later, when every bit is set. Of the slots that are passed only
-- the bit changes, to 0, and the hand stops behind the victim.
pub record SecondChance (slots hand : ℕ) (cache : ℕ → PageInfo) (victim hand' : ℕ)
    (left : ℕ → PageInfo) : Type 0 where
  pub turns : ℕ
  pub bounded : turns ≤ slots
  pub at : victim ≡ ahead slots hand turns
  pub set : (j : ℕ) → j < turns → (cache (ahead slots hand j)).access_bit ≢ 0
  pub stops : ((cache victim).access_bit ≡ 0) ⊎ (turns ≡ slots)
  pub cleared :
      (j : ℕ)
      → j < turns
      → left (ahead slots hand j) ≡ record (cache (ahead slots hand j)) { access_bit = 0 }
  pub same : (i : ℕ) → (left i ≡ cache i) ⊎ ((j : ℕ) × (j < turns) × (i ≡ ahead slots hand j))
  pub moved : hand' ≡ (victim + 1) % slots

-- The hand passes a slot and clears its bit.
abbrev clear_bit : ℕ → (ℕ → PageInfo) → ℕ → PageInfo
clear_bit hand cache = update cache hand (record (cache hand) { access_bit = 0 })

clear_bit-base :
    (hand i : ℕ) (cache : ℕ → PageInfo) → (clear_bit hand cache i).base ≡ (cache i).base
clear_bit-base hand i cache = ground arith

-- The hand moves on by one slot.
next_slot :
    (slots hand : ℕ)
    → hand < slots
    → (hand + 1) % slots ≡ (if hand + 1 == slots then 0 else hand + 1)
next_slot slots hand lt = elim (ℕ_discrete (hand + 1) slots) [
  | yes last ↦
      let wraps : (hand + 1) % slots ≡ 0 = ap (λ k. k % slots) last ∙ mod_self slots in
      ground (arith, wraps)
  | no more ↦
      let stays : (hand + 1) % slots ≡ hand + 1 = mod-eq_of_lt (omega arith) in
      ground (arith, stays)
]

module _ (slots : ℕ) (some_slot : 0 < slots) (start : ℕ) (in_range : start < slots)
    (orig : ℕ → PageInfo) where
  ahead-next : (k : ℕ) → k < slots → (ahead slots start k + 1) % slots ≡ ahead slots start (suc k)
  ahead-next k lt = let e = next_slot slots (ahead slots start k) (ground arith) in e ∙ ground arith

  pub ahead-lt : (k : ℕ) → k ≤ slots → ahead slots start k < slots
  ahead-lt k le = ground arith

  -- Two slots ahead are the same only a whole turn apart.
  ahead-same : (j k : ℕ) → j < k → k ≤ slots → ahead slots start k ≡ ahead slots start j → k ≡ slots
  ahead-same j k lt le e = ground arith

  ahead_turn : ahead slots start slots ≡ ahead slots start 0
  ahead_turn = ground arith

  -- The cache when the hand has passed `k` slots.
  record Passed (k : ℕ) (cache : ℕ → PageInfo) : Type 0 where
    le : k ≤ slots
    set : (j : ℕ) → j < k → (orig (ahead slots start j)).access_bit ≢ 0
    cleared :
        (j : ℕ)
        → j < k
        → cache (ahead slots start j) ≡ record (orig (ahead slots start j)) { access_bit = 0 }
    same : (i : ℕ) → (cache i ≡ orig i) ⊎ ((j : ℕ) × (j < k) × (i ≡ ahead slots start j))
    base : (i : ℕ) → (cache i).base ≡ (orig i).base

  unfoldable pub Found : Search → Type 0
  Found r =
      (victim : ℕ) × (hand : ℕ) × (left : ℕ → PageInfo) × (r ≡ hit victim hand left)
      × SecondChance slots start orig victim hand left
      × ((i : ℕ) → (left i).base ≡ (orig i).base)

  -- The hand stops at a clear bit.
  stop_here :
      (k : ℕ) (cache : ℕ → PageInfo)
      → Passed k cache
      → (cache (ahead slots start k)).access_bit ≡ 0
      → Found (hit (ahead slots start k) ((ahead slots start k + 1) % slots) cache)
  unfolding Found
  stop_here k cache p clear = (
    ahead slots start k,
    (ahead slots start k + 1) % slots,
    cache,
    refl,
    record {
      turns = k;
      bounded = p.le;
      at = refl;
      set = p.set;
      stops = elim (p.same (ahead slots start k)) [
        | inl e ↦ inl (ap (λ (x : PageInfo). x.access_bit) (sym e) ∙ clear)
        | inr (j, lt, e) ↦ inr (ahead-same j k lt p.le e)
      ];
      cleared = p.cleared;
      same = p.same;
      moved = refl;
    },
    p.base,
  )

  -- The hand passes a slot whose bit is set.
  pass :
      (k : ℕ) (cache : ℕ → PageInfo)
      → Passed k cache
      → (cache (ahead slots start k)).access_bit ≢ 0
      → (k < slots) × Passed (suc k) (clear_bit (ahead slots start k) cache)
  pass k cache p bit =
      let less : k < slots = elim (ℕ_discrete k slots) [
        | yes turn ↦ absurd (
            bit (
              ap (λ i. (cache i).access_bit) (ap (ahead slots start) turn ∙ ahead_turn)
              ∙ ap (λ (x : PageInfo). x.access_bit) (p.cleared 0 (omega arith))))
        | no more ↦ omega (arith, p.le)
      ] in
      (
        less,
        record {
          le = omega arith;
          set = λ j lt. elim (ℕ_discrete j k) [
            | no other ↦ p.set j (omega arith)
            | yes e ↦ elim (p.same (ahead slots start k)) [
              | inl same ↦ λ z. bit (
                  ap (λ (x : PageInfo). x.access_bit) same
                  ∙ ap (λ i. (orig (ahead slots start i)).access_bit) (sym e)
                  ∙ z)
              | inr (i, lt', e') ↦ absurd (omega (arith, ahead-same i k lt' p.le e'))
            ]
          ];
          cleared = λ j lt. elim (ℕ_discrete j k) [
            | no other ↦
                let earlier : ahead slots start j ≢ ahead slots start k =
                  λ e. absurd (omega (arith, ahead-same j k (omega arith) p.le (sym e))) in
                update_ne cache (ahead slots start k) _ (ahead slots start j) earlier
                ∙ p.cleared j (omega arith)
            | yes e ↦ elim (p.same (ahead slots start k)) [
              | inl fresh ↦
                  ap (λ i. clear_bit (ahead slots start k) cache (ahead slots start i)) e
                  ∙ update_self cache (ahead slots start k) _
                  ∙ ap (λ (x : PageInfo). record x { access_bit = 0 })
                      (fresh ∙ ap (λ i. orig (ahead slots start i)) (sym e))
              | inr (i, lt', e') ↦ absurd (omega (arith, ahead-same i k lt' p.le e'))
            ]
          ];
          same = λ i. elim (ℕ_discrete i (ahead slots start k)) [
            | yes e ↦ inr (k, omega arith, e)
            | no other ↦ elim (p.same i) [
              | inl e ↦ inl (update_ne cache (ahead slots start k) _ i other ∙ e)
              | inr (j, lt, e) ↦ inr (j, omega arith, e)
            ]
          ];
          base = λ i. clear_bit-base (ahead slots start k) i cache ∙ p.base i;
        },
      )

  clock_search-Found :
      (f k hand : ℕ) (cache : ℕ → PageInfo)
      → f + k ≡ slots + 1
      → hand ≡ ahead slots start k
      → Passed k cache
      → Found (clock_search f slots hand cache)
  unfolding clock_search
  clock_search-Found zero k hand cache fuel at p = absurd (omega (arith, p.le))
  clock_search-Found (suc f) k hand cache fuel at p =
      rw at (elim (Bool-cases ((cache (ahead slots start k)).access_bit == 0)) [
        | inl clear ↦ rw (clock_search, clear) (stop_here k cache p (ground arith))
        | inr set ↦
            let (less, p') = pass k cache p (ground arith) in
            rw (clock_search, set)
              (clock_search-Found f (suc k) ((ahead slots start k + 1) % slots)
                (clear_bit (ahead slots start k) cache) (omega arith) (ahead-next k less) p')
      ])

  -- The search ends within `slots + 1` rounds, whatever the bits are.
  pub clock_search-total : Found (clock_search (suc slots) slots start orig)
  clock_search-total =
      clock_search-Found (suc slots) 0 start orig (omega arith) (ground arith) (record {
        le = omega arith;
        set = λ j lt. absurd (omega arith);
        cleared = λ j lt. absurd (omega arith);
        same = λ i. inl refl;
        base = λ i. refl;
      })
