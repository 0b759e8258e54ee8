-- ===== src/Vm/Supply.antt =====
-- kalloc.c as the supply of pages for vm.c. A fault of `kalloc`, which a free list in order never
-- meets, gives no page here.
use team.Common.{
  ℕ, ◌%◌, ◌^◌, ◌<◌, ◌≡◌, refl, ◌≢◌, sym, subst, ◌∙◌, List, [], ◌∷◌, ◌⊎◌, inl, inr, arith,
}
use team.Common.Outcome.{done, panic}
use team.Kalloc.{Kmem}
use team.Kalloc.Free.{IsFree, IsPage, Absent, On, kalloc-IsFree}
use team.Vm.{Pages}
use team.Vm.Walk.{Supplies}

unfoldable pub take_page : Kmem → ℕ × Kmem
take_page k = elim (team.Kalloc.kalloc k) [ panic ↦ (0, k) | done r ↦ r ]

abbrev pub kalloc_pages : ℕ → Pages
kalloc_pages end = record { State = Kmem; kalloc = take_page; kfree = team.Kalloc.kfree end }

-- `q` is on the free list.
abbrev pub OnFree : ℕ → Kmem → ℕ → Type 0
OnFree end k q = (xs : List ℕ) → IsFree end k xs → On q xs

not_taken : (a q : ℕ) (xs : List ℕ) → Absent a xs → On q xs → q ≢ a
not_taken a q [] out on h = elim on [ ]
not_taken a q (x ∷ xs) (ne, out) (inl e) h = ne (sym h ∙ e)
not_taken a q (x ∷ xs) (ne, out) (inr on) h = not_taken a q xs out on h

-- A page is taken from a list in order, or there is none.
Taken : ℕ → Kmem → List ℕ → Type 0
Taken end k xs =
    ((xs ≡ []) × ((take_page k).0 ≡ 0) × ((take_page k).1 ≡ k))
    ⊎ ((rest : List ℕ) × (xs ≡ (take_page k).0 ∷ rest)
        × IsPage end (take_page k).0
        × Absent (take_page k).0 rest
        × IsFree end (take_page k).1 rest)

take_page-Taken : (end : ℕ) (k : Kmem) (xs : List ℕ) → IsFree end k xs → Taken end k xs
unfolding Taken take_page
take_page-Taken end k xs f =
    let (pa, k', eq, cases) = kalloc-IsFree end k xs f in rw (take_page, eq) cases

pub kalloc_supply_gives :
    (end : ℕ) (k : Kmem) (xs : List ℕ)
    → IsFree end k xs
    → (take_page k).0 ≢ 0
    → OnFree end k (take_page k).0 × ((take_page k).0 % 4096 ≡ 0) × ((take_page k).0 < 2 ^ 56)
unfolding Taken
kalloc_supply_gives end k xs f got = elim (take_page-Taken end k xs f) [
  | inl (_, zero_page, _) ↦ absurd (got zero_page)
  | inr (rest, e, (al, lo, hi), _, _) ↦ (
    λ ys g. elim (take_page-Taken end k ys g) [
      | inl (_, zero_page, _) ↦ absurd (got zero_page)
      | inr (rest', e', _, _, _) ↦ subst (On (take_page k).0) (sym e') (inl refl)
    ],
    al,
    omega arith,
  )
]

pub kalloc_supply_keeps :
    (end : ℕ) (k : Kmem) (q : ℕ) (xs : List ℕ)
    → IsFree end k xs
    → OnFree end (take_page k).1 q
    → OnFree end k q × ((take_page k).0 ≢ 0 → q ≢ (take_page k).0)
unfolding Taken
kalloc_supply_keeps end k q xs f on = (
  λ ys g. elim (take_page-Taken end k ys g) [
    | inl (e, _, same) ↦ on ys (subst (λ k'. IsFree end k' ys) (sym same) g)
    | inr (rest, e, _, _, g') ↦ subst (On q) (sym e) (inr (on rest g'))
  ],
  λ got. elim (take_page-Taken end k xs f) [
    | inl (_, zero_page, _) ↦ absurd (got zero_page)
    | inr (rest, e, _, out, f') ↦ not_taken (take_page k).0 q rest out (on rest f')
  ],
)

pub kalloc_supply_stays :
    (end : ℕ) (k : Kmem)
    → ((xs : List ℕ) × IsFree end k xs)
    → (xs : List ℕ) × IsFree end (take_page k).1 xs
unfolding Taken
kalloc_supply_stays end k (xs, f) = elim (take_page-Taken end k xs f) [
  | inl (_, _, same) ↦ (xs, subst (λ k'. IsFree end k' xs) (sym same) f)
  | inr (rest, _, _, _, f') ↦ (rest, f')
]

-- kalloc.c is such a supply.
abbrev pub kalloc_supply : (end : ℕ) → Supplies (kalloc_pages end)
kalloc_supply end = record {
  Ok = λ k. (xs : List ℕ) × IsFree end k xs;
  IsFree = OnFree end;
  stays = kalloc_supply_stays end;
  gives = λ k (xs, f). kalloc_supply_gives end k xs f;
  keeps = λ k q (xs, f). kalloc_supply_keeps end k q xs f;
}
