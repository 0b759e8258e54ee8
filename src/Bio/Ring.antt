-- ===== src/Bio/Ring.antt =====
-- The ring of bio.c as a list of buffers: what writes of its links do.
use team.Common.{
  ℕ, ◌≡◌, ◌≢◌, ap, sym, subst, ◌∙◌, true, List, [], ◌∷◌, ◌==◌, if◌then◌else◌, arith, ◌⊎◌, inl, inr,
  ℕ_discrete, ne→==false,
}
use team.Common.Family.{update, update_self, update_ne}
use team.Bio.{head}

abbrev pub Linked : (ℕ → ℕ) → (ℕ → ℕ) → ℕ → List ℕ → Type 0
Linked next prev a [] = (next a ≡ head) × (prev head ≡ a)
Linked next prev a (x ∷ xs) = (next a ≡ x) × (prev x ≡ a) × Linked next prev x xs

abbrev pub Absent : ℕ → List ℕ → Type 0
Absent a [] = Unit
Absent a (x ∷ xs) = (a ≢ x) × Absent a xs

-- The buffers are different, and none is `head`.
abbrev pub Distinct : List ℕ → Type 0
Distinct [] = Unit
Distinct (x ∷ xs) = (x ≢ head) × Absent x xs × Distinct xs

abbrev pub On : ℕ → List ℕ → Type 0
On a [] = ⊥
On a (x ∷ xs) = (a ≡ x) ⊎ On a xs

abbrev pub remove : ℕ → List ℕ → List ℕ
remove b [] = []
remove b (x ∷ xs) = if b == x then xs else x ∷ remove b xs

-- A write of a `next` field that no buffer of the list has, and of a `prev` field that none has.
Linked-update :
    (next prev : ℕ → ℕ) (p v n w a : ℕ) (xs : List ℕ)
    → a ≢ p
    → Absent p xs
    → n ≢ head
    → Absent n xs
    → Linked next prev a xs
    → Linked (update next p v) (update prev n w) a xs
Linked-update next prev p v n w a [] ne out nh out' (e, f) =
    (update_ne next p v a ne ∙ e, update_ne prev n w head (λ h. nh (sym h)) ∙ f)
Linked-update next prev p v n w a (x ∷ xs) ne (px, out) nh (nx, out') (e, f, l) = (
  update_ne next p v a ne ∙ e,
  update_ne prev n w x (λ h. nx (sym h)) ∙ f,
  Linked-update next prev p v n w x xs (λ h. px (sym h)) out nh out' l,
)

-- The buffer before `b`, and the one behind it.
before :
    (next prev : ℕ → ℕ) (b a : ℕ) (xs : List ℕ)
    → Linked next prev a xs
    → On b xs
    → (prev b ≡ a) ⊎ On (prev b) xs
before next prev b a [] l on = elim on [ ]
before next prev b a (x ∷ xs) (e, f, l) (inl is) = inl (ap prev is ∙ f)
before next prev b a (x ∷ xs) (e, f, l) (inr on) = elim (before next prev b x xs l on) [
  | inl is ↦ inr (inl is)
  | inr there ↦ inr (inr there)
]

behind :
    (next prev : ℕ → ℕ) (b a : ℕ) (xs : List ℕ)
    → Linked next prev a xs
    → On b xs
    → (next b ≡ head) ⊎ On (next b) xs
behind next prev b a [] l on = elim on [ ]
behind next prev b a (x ∷ []) (e, f, l) (inl is) = inl (ap next is ∙ l.0)
behind next prev b a (x ∷ y ∷ xs) (e, f, l) (inl is) = inr (inr (inl (ap next is ∙ l.0)))
behind next prev b a (x ∷ xs) (e, f, l) (inr on) = elim (behind next prev b x xs l on) [
  | inl is ↦ inl is
  | inr there ↦ inr (inr there)
]

pub Absent-On : (a b : ℕ) (xs : List ℕ) → Absent a xs → On b xs → b ≢ a
Absent-On a b [] out on h = elim on [ ]
Absent-On a b (x ∷ xs) (ne, out) (inl e) h = ne (sym h ∙ e)
Absent-On a b (x ∷ xs) (ne, out) (inr on) h = Absent-On a b xs out on h

-- The ring without `b`.
pub unlink-Linked :
    (next prev : ℕ → ℕ) (b a : ℕ) (xs : List ℕ)
    → Absent a xs
    → Distinct xs
    → On b xs
    → Linked next prev a xs
    → Linked (update next (prev b) (next b)) (update prev (next b) (prev b)) a (remove b xs)
unlink-Linked next prev b a [] out d on l = elim on [ ]
unlink-Linked next prev b a (x ∷ xs) (ax, out) (xh, x_out, d) on (e, f, l) = elim (ℕ_discrete b x) [
  | yes is ↦
      let here : (b == x) ≡ true = ground arith in
      rw here (
        subst (λ y. Linked (update next (prev y) (next y)) (update prev (next y) (prev y)) a xs)
          (sym is) (unlink_first next prev x a xs f l out d))
  | no other ↦
      let there : On b xs = elim on [ inl is ↦ absurd (other is) | inr there ↦ there ] in
      let ne_before : a ≢ prev b = λ h. elim (before next prev b x xs l there) [
        | inl is ↦ ax (h ∙ is)
        | inr at ↦ Absent-On a (prev b) xs out at (sym h)
      ] in
      let ne_behind : x ≢ next b = λ h. elim (behind next prev b x xs l there) [
        | inl is ↦ xh (h ∙ is)
        | inr at ↦ Absent-On x (next b) xs x_out at (sym h)
      ] in
      rw (ne→==false other) (
        update_ne next (prev b) (next b) a ne_before ∙ e,
        update_ne prev (next b) (prev b) x ne_behind ∙ f,
        unlink-Linked next prev b x xs x_out d there l,
      )
]
  where
    unlink_first :
        (next prev : ℕ → ℕ) (x a : ℕ) (xs : List ℕ)
        → prev x ≡ a
        → Linked next prev x xs
        → Absent a xs
        → Distinct xs
        → Linked (update next (prev x) (next x)) (update prev (next x) (prev x)) a xs
    unlink_first next prev x a [] f (e, h) out d = (
      ap (update next (prev x) (next x)) (sym f) ∙ update_self next (prev x) (next x) ∙ e,
      ap (update prev (next x) (prev x)) (sym e) ∙ update_self prev (next x) (prev x) ∙ f,
    )
    unlink_first next prev x a (y ∷ ys) f (e, g, l) (ay, out) (yh, y_out, d) = (
      ap (update next (prev x) (next x)) (sym f) ∙ update_self next (prev x) (next x) ∙ e,
      ap (update prev (next x) (prev x)) (sym e) ∙ update_self prev (next x) (prev x) ∙ f,
      Linked-update next prev (prev x) (next x) (next x) (prev x) y ys (λ h. ay (sym f ∙ sym h))
          (subst (λ z. Absent z ys) (sym f) out) (λ h. yh (sym e ∙ h))
          (subst (λ z. Absent z ys) (sym e) y_out) l,
    )

push_at :
    (next prev : ℕ → ℕ) (b : ℕ) (xs : List ℕ)
    → b ≢ head
    → Absent b xs
    → Absent head xs
    → Distinct xs
    → Linked next prev head xs
    → Linked
        (update (update next b (next head)) head b)
        (update (update prev b head) (next head) b)
        head
        (b ∷ xs)
push_at next prev b [] bh out h_out d (e, f) =
    let next1 : ℕ → ℕ = update next b (next head) in
    let prev1 : ℕ → ℕ = update prev b head in
    (
      update_self next1 head b,
      update_ne prev1 (next head) b b (λ h. bh (h ∙ e)) ∙ update_self prev b head,
      (
        update_ne next1 head b b bh ∙ update_self next b (next head) ∙ e,
        ap (update prev1 (next head) b) (sym e) ∙ update_self prev1 (next head) b,
      ),
    )
push_at next prev b (y ∷ ys) bh (by, out) (hy, h_out) (yh, y_out, d) (e, f, l) =
    let next1 : ℕ → ℕ = update next b (next head) in
    let prev1 : ℕ → ℕ = update prev b head in
    (
      update_self next1 head b,
      update_ne prev1 (next head) b b (λ h. by (h ∙ e)) ∙ update_self prev b head,
      (
        update_ne next1 head b b bh ∙ update_self next b (next head) ∙ e,
        ap (update prev1 (next head) b) (sym e) ∙ update_self prev1 (next head) b,
        Linked-update next1 prev1 head b (next head) b y ys yh h_out (λ h. yh (sym e ∙ h))
            (subst (λ z. Absent z ys) (sym e) y_out)
            (Linked-update next prev b (next head) b head y ys (λ h. by (sym h)) out bh out l),
      ),
    )

-- A buffer that is in no ring is put in front.
pub push-Linked :
    (next prev : ℕ → ℕ) (b : ℕ) (xs : List ℕ)
    → b ≢ head
    → Absent b xs
    → Absent head xs
    → Distinct xs
    → Linked next prev head xs
    → Linked
        (update (update next b (next head)) head b)
        (update (update prev b head) (update next b (next head) head) b)
        head
        (b ∷ xs)
push-Linked next prev b xs bh out h_out d l =
    subst
      (λ j.
        Linked (update (update next b (next head)) head b) (update (update prev b head) j b) head
          (b ∷ xs))
      (sym (update_ne next b (next head) head (λ h. bh (sym h))))
      (push_at next prev b xs bh out h_out d l)
