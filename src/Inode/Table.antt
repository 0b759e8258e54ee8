-- ===== src/Inode/Table.antt =====
-- The table of inodes has one entry for an inode.
use team.Common.{
  ℕ, zero, suc, ◌+◌, ◌<◌, ◌≡◌, refl, ◌≢◌, ap, sym, subst, true, false, Option, none, some, List, [],
  ◌∷◌, arith, get_elem?, set, ◌⊎◌, inl, inr, get_elem?-set_cases, some-eq, Bool-cases, ℕ_discrete,
}
use team.Common.Outcome.{done, panic}
use team.Inode.{Inode, holds, Scan, cached, missing, remember, scan, iget}

-- No two entries in use hold the same inode.
abbrev pub Unique : List Inode → Type 0
Unique t =
    (i j : ℕ) (p q : Inode)
    → get_elem? t i ≡ some p
    → get_elem? t j ≡ some q
    → holds p.dev p.inum q ≡ true
    → 0 < p.ref
    → i ≡ j

-- No entry holds the inode.
abbrev pub Nowhere : ℕ → ℕ → List Inode → Type 0
Nowhere dev inum t = (i : ℕ) (p : Inode) → get_elem? t i ≡ some p → holds dev inum p ≡ false

-- What `scan` finds from entry `k` on, with `empty` remembered.
data Scanned (dev inum k : ℕ) (empty : Option ℕ) (t : List Inode) : Scan → Type 0 where
  found :
      {p : Inode} (i : ℕ)
      → get_elem? t i ≡ some p
      → holds dev inum p ≡ true
      → Scanned dev inum k empty t (cached (k + i))
  kept :
      {e : ℕ} → empty ≡ some e → Nowhere dev inum t → Scanned dev inum k empty t (missing (some e))
  vacant :
      {p : Inode} (i : ℕ)
      → get_elem? t i ≡ some p
      → p.ref ≡ 0
      → Nowhere dev inum t
      → Scanned dev inum k empty t (missing (some (k + i)))
  full :
      empty ≡ none
      → ((i : ℕ) (p : Inode) → get_elem? t i ≡ some p → 0 < p.ref)
      → Nowhere dev inum t
      → Scanned dev inum k empty t (missing none)

Nowhere-cons :
    (dev inum : ℕ) (p : Inode) (t : List Inode)
    → holds dev inum p ≡ false
    → Nowhere dev inum t
    → Nowhere dev inum (p ∷ t)
Nowhere-cons dev inum p t no_hit rest zero q at =
    subst (λ x. holds dev inum x ≡ false) (some-eq at) no_hit
Nowhere-cons dev inum p t no_hit rest (suc i) q at = rest i q at

Scanned-cons :
    (dev inum k : ℕ) (empty : Option ℕ) (p : Inode) (t : List Inode) (r : Scan)
    → holds dev inum p ≡ false
    → Scanned dev inum (suc k) (remember empty k p) t r
    → Scanned dev inum k empty (p ∷ t) r
Scanned-cons dev inum k empty p t r no_hit (found i at hit) =
    subst (λ n. Scanned dev inum k empty (p ∷ t) (cached n)) (omega arith) (found (suc i) at hit)
Scanned-cons dev inum k empty p t r no_hit (vacant i at free none_hit) =
    subst (λ n. Scanned dev inum k empty (p ∷ t) (missing (some n))) (omega arith)
      (vacant (suc i) at free (Nowhere-cons dev inum p t no_hit none_hit))
Scanned-cons dev inum k none p t r no_hit (kept {e} is none_hit) = elim (ℕ_discrete p.ref 0) [
  | yes free ↦
      let now : k + 0 ≡ e = ground (arith, is) in
      subst (λ n. Scanned dev inum k none (p ∷ t) (missing (some n))) now
        (vacant 0 refl free (Nowhere-cons dev inum p t no_hit none_hit))
  | no used ↦ absurd (ground (arith, is))
]
Scanned-cons dev inum k (some x) p t r no_hit (kept {e} is none_hit) =
    kept is (Nowhere-cons dev inum p t no_hit none_hit)
Scanned-cons dev inum k none p t r no_hit (full is used none_hit) =
    full refl (all_used (ground (arith, is)) used) (Nowhere-cons dev inum p t no_hit none_hit)
  where
    all_used :
        0 < p.ref
        → ((i : ℕ) (q : Inode) → get_elem? t i ≡ some q → 0 < q.ref)
        → (i : ℕ) (q : Inode) → get_elem? (p ∷ t) i ≡ some q
        → 0 < q.ref
    all_used here there zero q at = subst (λ (x : Inode). 0 < x.ref) (some-eq at) here
    all_used here there (suc i) q at = there i q at
Scanned-cons dev inum k (some x) p t r no_hit (full is used none_hit) = cc

scan-Scanned :
    (dev inum k : ℕ) (empty : Option ℕ) (t : List Inode)
    → Scanned dev inum k empty t (scan dev inum k empty t)
unfolding scan
scan-Scanned dev inum k none [] = full refl (λ i p at. cc) (λ i p at. cc)
scan-Scanned dev inum k (some e) [] = kept refl (λ i p at. cc)
scan-Scanned dev inum k empty (p ∷ t) = elim (Bool-cases (holds dev inum p)) [
  | inl hit ↦
      rw hit
        (subst (λ n. Scanned dev inum k empty (p ∷ t) (cached n)) (omega arith) (found 0 refl hit))
  | inr miss ↦ rw miss (
      Scanned-cons dev inum k empty p t _ miss
        (scan-Scanned dev inum (suc k) (remember empty k p) t))
]

-- What `iget` returns: entry `i` holds the inode. It was in the table, and has one reference more;
-- or it was in no entry, and takes one without references, not valid.
abbrev pub Got : ℕ → ℕ → List Inode → ℕ → List Inode → Type 0
Got dev inum t i t' =
    (p : Inode) × (get_elem? t i ≡ some p)
    × (((holds dev inum p ≡ true) × (t' ≡ set t i (record p { ref = p.ref + 1 })))
        ⊎ (Nowhere dev inum t
            × (p.ref ≡ 0)
            × (t' ≡ set t i (record p { dev = dev; inum = inum; ref = 1; valid = false }))))

iget-from :
    (dev inum : ℕ) (t : List Inode) (r : Scan)
    → scan dev inum 0 none t ≡ r
    → Scanned dev inum 0 none t r
    → ((i : ℕ) × (t' : List Inode) × (iget dev inum t ≡ done (i, t')) × Got dev inum t i t')
      ⊎ ((iget dev inum t ≡ panic)
          × Nowhere dev inum t
          × ((i : ℕ) (p : Inode) → get_elem? t i ≡ some p → 0 < p.ref))
unfolding iget
iget-from dev inum t r eq (found {p} i at hit) =
    inl (i, _, ground (arith, eq, at), (p, at, inl (hit, refl)))
iget-from dev inum t r eq (kept is none_hit) = cc
iget-from dev inum t r eq (vacant {p} i at free none_hit) =
    inl (i, _, ground (arith, eq, at), (p, at, inr (none_hit, free, refl)))
iget-from dev inum t r eq (full is used none_hit) = inr (rw (iget, eq), none_hit, used)

-- An entry is given an inode that no other entry in use holds.
set-Unique :
    (t : List Inode) (i : ℕ) (g : Inode)
    → Unique t
    → ((j : ℕ) (q : Inode)
        → j ≢ i
        → get_elem? t j ≡ some q
        → 0 < q.ref
        → q.dev ≡ g.dev
        → q.inum ≡ g.inum
        → ⊥)
    → Unique (set t i g)
set-Unique t i g u apart j k a b at_j at_k same in_use = elim (get_elem?-set_cases t i j g a at_j) [
  | inl (ej, ga) ↦ elim (get_elem?-set_cases t i k g b at_k) [
    | inl (ek, gb) ↦ omega arith
    | inr (nk, old) ↦ absurd (
        apart k b nk old (ground arith) (ground (arith, ap (λ (x : Inode). x.dev) ga))
          (ground (arith, ap (λ (x : Inode). x.inum) ga)))
  ]
  | inr (nj, old_j) ↦ elim (get_elem?-set_cases t i k g b at_k) [
    | inl (ek, gb) ↦ absurd (
        apart j a nj old_j in_use (ground (arith, ap (λ (x : Inode). x.dev) gb))
          (ground (arith, ap (λ (x : Inode). x.inum) gb)))
    | inr (nk, old_k) ↦ u j k a b old_j old_k same in_use
  ]
]

Got-Unique :
    (dev inum : ℕ) (t : List Inode) (i : ℕ) (t' : List Inode)
    → Unique t
    → Got dev inum t i t'
    → Unique t'
Got-Unique dev inum t i t' u (p, at, inl (hit, e)) =
    subst Unique (sym e)
      (set-Unique t i _ u (λ j q ne at' pos d n. ne (u j i q p at' at (ground arith) pos)))
Got-Unique dev inum t i t' u (p, at, inr (nowhere, free, e)) =
    subst Unique (sym e)
      (set-Unique t i _ u (λ j q ne at' pos d n. absurd (ground (arith, nowhere j q at'))))

-- `iget` on a table in which no inode stands twice: it returns an entry that holds the inode, the
-- one that had it with a reference more, or else a free one; the other entries stay, and still no
-- inode stands twice. It panics only where no entry holds the inode and none is free.
pub iget-cases :
    (dev inum : ℕ) (t : List Inode)
    → Unique t
    → ((i : ℕ) × (t' : List Inode) × (iget dev inum t ≡ done (i, t'))
        × Got dev inum t i t'
        × Unique t')
      ⊎ ((iget dev inum t ≡ panic)
          × Nowhere dev inum t
          × ((i : ℕ) (p : Inode) → get_elem? t i ≡ some p → 0 < p.ref))
iget-cases dev inum t u = elim (iget-from dev inum t _ refl (scan-Scanned dev inum 0 none t)) [
  | inl (i, t', eq, got) ↦ inl (i, t', eq, got, Got-Unique dev inum t i t' u got)
  | inr bad ↦ inr bad
]
