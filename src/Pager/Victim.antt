-- ===== src/Pager/Victim.antt =====
-- Which page each policy of mmap2.c gives up.
use team.Pager.Clock.{ahead-lt, SecondChance, Found, clock_search-total}
use native.Mathlib.Nat.{mod-lt, le_of_eq}
use team.Common.{
  ℕ, zero, suc, ◌+◌, ◌-◌, ◌≤◌, ◌<◌, ◌≡◌, refl, ap, sym, subst, inl, inr, arith, ltb, Bool-cases,
  ℕ_discrete,
}
use team.Pager.{PageInfo, Policy, lru, mru, clock, Search, hit, scan_min, scan_max, choose}

module _ (cache : ℕ → PageInfo) where
  abbrev stamp : ℕ → ℕ
  stamp i = (cache i).last_acc

  -- No slot below `n` was stamped before `v`.
  abbrev pub Oldest : ℕ → ℕ → Type 0
  Oldest n v = (v < n) × ((j : ℕ) → j < n → stamp v ≤ stamp j)

  -- No slot below `n` was stamped after `v`.
  abbrev pub Newest : ℕ → ℕ → Type 0
  Newest n v = (v < n) × ((j : ℕ) → j < n → stamp j ≤ stamp v)

  extend : (P : ℕ → Type 0) (i : ℕ) → ((j : ℕ) → j < i → P j) → P i → (j : ℕ) → j < suc i → P j
  extend P i below here j h = elim (ℕ_discrete j i) [
    | yes e ↦ subst P (sym e) here
    | no n ↦ below j (omega arith)
  ]

  scan_min-Oldest :
      (k i best v n : ℕ)
      → n ≡ i + k
      → best ≡ stamp v
      → Oldest i v
      → Oldest n (scan_min cache k i best v)
  unfolding scan_min
  scan_min-Oldest zero i best v n e b (lt, low) = (omega arith, λ j h. low j (omega arith))
  scan_min-Oldest (suc k) i best v n e b (lt, low) = elim (Bool-cases (ltb (stamp i) best)) [
    | inl smaller ↦ rw smaller (
        scan_min-Oldest k (suc i) (stamp i) i n (omega arith) refl (
          omega arith,
          extend (λ j. stamp i ≤ stamp j) i (λ j h. ground (arith, low j h)) (omega arith),
        ))
    | inr larger ↦ rw larger (
        scan_min-Oldest k (suc i) best v n (omega arith) b
          (omega arith, extend (λ j. stamp v ≤ stamp j) i low (ground arith)))
  ]

  scan_max-Newest :
      (k i best v n : ℕ)
      → n ≡ i + k
      → best ≡ stamp v
      → Newest i v
      → Newest n (scan_max cache k i best v)
  unfolding scan_max
  scan_max-Newest zero i best v n e b (lt, high) = (omega arith, λ j h. high j (omega arith))
  scan_max-Newest (suc k) i best v n e b (lt, high) = elim (Bool-cases (ltb best (stamp i))) [
    | inl larger ↦ rw larger (
        scan_max-Newest k (suc i) (stamp i) i n (omega arith) refl (
          omega arith,
          extend (λ j. stamp j ≤ stamp i) i (λ j h. ground (arith, high j h)) (omega arith),
        ))
    | inr smaller ↦ rw smaller (
        scan_max-Newest k (suc i) best v n (omega arith) b
          (omega arith, extend (λ j. stamp j ≤ stamp v) i high (ground arith)))
  ]

-- The victim of a policy is chosen as the policy says.
abbrev pub ByPolicy : Policy → (ℕ → PageInfo) → ℕ → ℕ → ℕ → ℕ → (ℕ → PageInfo) → Type 0
ByPolicy lru cache slots hand v hand' left = Oldest cache slots v × (hand' ≡ hand) × (left ≡ cache)
ByPolicy mru cache slots hand v hand' left = Newest cache slots v × (hand' ≡ hand) × (left ≡ cache)
ByPolicy clock cache slots hand v hand' left = SecondChance slots hand cache v hand' left

pub record Chosen (p : Policy) (cache : ℕ → PageInfo) (slots hand : ℕ) (r : Search) : Type 0 where
  pub victim : ℕ
  pub hand' : ℕ
  pub left : ℕ → PageInfo
  pub ends : r ≡ hit victim hand' left
  pub in_cache : victim < slots
  pub in_range : hand' < slots
  pub same_base : (i : ℕ) → (left i).base ≡ (cache i).base
  pub by_policy : ByPolicy p cache slots hand victim hand' left

-- When the cache is full every policy finds a victim among its slots: under LRU the page with the
-- least `last_acc`, under MRU the one with the greatest, the cache and the hand staying. Under the
-- clock it is the first slot from the hand on whose access bit is clear, or the slot of the hand when
-- every bit is set; the bits that are passed are cleared, the other slots stay, the hand stops behind
-- the victim, and the search ends within `cache_slots + 1` rounds.
pub choose_victim :
    (p : Policy) (cache : ℕ → PageInfo) (slots hand : ℕ)
    → 0 < slots
    → hand < slots
    → Chosen p cache slots hand (choose p cache slots hand)
unfolding choose Found
choose_victim lru cache slots hand some_slot in_range =
    let best =
      scan_min-Oldest cache (slots - 1) 1 (cache 0).last_acc 0 slots (omega arith) refl
        (omega arith, λ j h. le_of_eq (ap (λ i. (cache i).last_acc) (omega arith))) in
    record {
      victim = _;
      hand' = hand;
      left = cache;
      ends = refl;
      in_cache = best.0;
      in_range = in_range;
      same_base = λ i. refl;
      by_policy = (best, refl, refl);
    }
choose_victim mru cache slots hand some_slot in_range =
    let best =
      scan_max-Newest cache (slots - 1) 1 (cache 0).last_acc 0 slots (omega arith) refl
        (omega arith, λ j h. le_of_eq (ap (λ i. (cache i).last_acc) (omega arith))) in
    record {
      victim = _;
      hand' = hand;
      left = cache;
      ends = refl;
      in_cache = best.0;
      in_range = in_range;
      same_base = λ i. refl;
      by_policy = (best, refl, refl);
    }
choose_victim clock cache slots hand some_slot in_range =
    let (v, hand', left, e, chance, base) =
      clock_search-total slots some_slot hand in_range cache in
    record {
      victim = v;
      hand' = hand';
      left = left;
      ends = e;
      in_cache =
          subst (λ i. i < slots) (sym chance.at)
            (ahead-lt slots some_slot hand in_range cache chance.turns chance.bounded);
      in_range = subst (λ i. i < slots) (sym chance.moved) (mod-lt _ some_slot);
      same_base = base;
      by_policy = chance;
    }
