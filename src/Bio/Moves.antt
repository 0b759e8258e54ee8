-- ===== src/Bio/Moves.antt =====
-- Buffers of bio.c are put into the ring, and moved to its front.
use team.Common.{
  ℕ, ◌≡◌, ◌≢◌, ap, sym, subst, ◌∙◌, true, List, [], ◌∷◌, ◌==◌, arith, ◌⊎◌, inl, inr, ℕ_discrete,
  ne→==false, Bool-cases,
}
use team.Common.Family.{update, update_ne}
use team.Bio.{head, Bcache, push_front, unlink}
use team.Bio.Ring.{Absent, Absent-On, Distinct, Linked, On, push-Linked, remove, unlink-Linked}

-- What stays when `b` is removed.
Absent-remove : (a b : ℕ) (xs : List ℕ) → Absent a xs → Absent a (remove b xs)
Absent-remove a b [] out = tt
Absent-remove a b (x ∷ xs) (ne, out) = elim (Bool-cases (b == x)) [
  | inl is ↦ rw is out
  | inr other ↦ rw other (ne, Absent-remove a b xs out)
]

Distinct-remove : (b : ℕ) (xs : List ℕ) → Distinct xs → Distinct (remove b xs)
Distinct-remove b [] d = tt
Distinct-remove b (x ∷ xs) (xh, out, d) = elim (Bool-cases (b == x)) [
  | inl is ↦ rw is d
  | inr other ↦ rw other (xh, Absent-remove x b xs out, Distinct-remove b xs d)
]

removed : (b : ℕ) (xs : List ℕ) → Distinct xs → Absent b (remove b xs)
removed b [] d = tt
removed b (x ∷ xs) (xh, out, d) = elim (ℕ_discrete b x) [
  | yes is ↦
      let here : (b == x) ≡ true = ground arith in rw here (subst (λ y. Absent y xs) (sym is) out)
  | no other ↦ rw (ne→==false other) (other, removed b xs d)
]

head_out : (xs : List ℕ) → Distinct xs → Absent head xs
head_out [] d = tt
head_out (x ∷ xs) (xh, out, d) = ((λ h. xh (sym h)), head_out xs d)

On-not_head : (b : ℕ) (xs : List ℕ) → Distinct xs → On b xs → b ≢ head
On-not_head b xs d on = Absent-On head b xs (head_out xs d) on

next_in :
    (next prev : ℕ → ℕ) (x : ℕ) (xs : List ℕ)
    → Linked next prev x xs
    → (next x ≡ head) ⊎ On (next x) xs
next_in next prev x [] l = inl l.0
next_in next prev x (y ∷ ys) l = inr (inl l.0)

no_loop :
    (next prev : ℕ → ℕ) (b a : ℕ) (xs : List ℕ)
    → Distinct xs
    → On b xs
    → Linked next prev a xs
    → next b ≢ b
no_loop next prev b a [] d on l h = elim on [ ]
no_loop next prev b a (x ∷ xs) (xh, out, d) (inl is) (e, f, l) h =
    let loop : next x ≡ x = ap next (sym is) ∙ h ∙ is in
    elim (next_in next prev x xs l) [
      | inl last ↦ xh (sym loop ∙ last)
      | inr at ↦ Absent-On x (next x) xs out at loop
    ]
no_loop next prev b a (x ∷ xs) (xh, out, d) (inr on) (e, f, l) h = no_loop next prev b x xs d on l h

-- The ring of the cache holds the buffers `xs`, the one used last in front.
pub record IsRing {Block : Type 0} (c : Bcache Block) (xs : List ℕ) : Type 0 where
  pub linked : Linked c.next c.prev head xs
  pub distinct : Distinct xs

module _ {Block : Type 0} where
  -- A buffer that is in no ring is put in front.
  pub push_front-IsRing :
      (b : ℕ) (xs : List ℕ) (c : Bcache Block)
      → b ≢ head
      → Absent b xs
      → IsRing c xs
      → IsRing (push_front b c) (b ∷ xs)
  unfolding push_front
  push_front-IsRing b xs c bh out r = record {
    linked = push-Linked c.next c.prev b xs bh out (head_out xs r.distinct) r.distinct r.linked;
    distinct = (bh, out, r.distinct);
  }

  unlink-IsRing :
      (b : ℕ) (xs : List ℕ) (c : Bcache Block)
      → On b xs
      → IsRing c xs
      → IsRing (unlink b c) (remove b xs)
  unfolding unlink
  unlink-IsRing b xs c on r =
      let self = no_loop c.next c.prev b head xs r.distinct on r.linked in
      record {
        linked =
            subst
              (λ p.
                Linked (update c.next p (c.next b)) (update c.prev (c.next b) (c.prev b)) head
                  (remove b xs))
              (sym (update_ne c.prev (c.next b) (c.prev b) b (λ h. self (sym h))))
              (unlink-Linked c.next c.prev b head xs (head_out xs r.distinct) r.distinct on
                r.linked);
        distinct = Distinct-remove b xs r.distinct;
      }

  -- `b` moves to the front of the ring.
  pub move-IsRing :
      (b : ℕ) (xs : List ℕ) (c : Bcache Block)
      → On b xs
      → IsRing c xs
      → IsRing (push_front b (unlink b c)) (b ∷ remove b xs)
  move-IsRing b xs c on r =
      push_front-IsRing b (remove b xs) (unlink b c) (On-not_head b xs r.distinct on)
        (removed b xs r.distinct) (unlink-IsRing b xs c on r)
