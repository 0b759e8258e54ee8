-- ===== src/Inode/Tests.antt =====
-- A table with one inode in use and one free entry.
use team.Common.{
  ℕ, zero, suc, ◌<◌, ◌≡◌, refl, ◌⊎◌, true, false, some, List, [], ◌∷◌, arith, get_elem?, ap,
  some-eq,
}
use team.Common.Outcome.{done, panic}
use team.Inode.{Inode, iget}
use team.Inode.Table.{Unique, Nowhere, Got, iget-cases}

abbrev an_inode : ℕ → ℕ → Inode
an_inode inum ref = record {
  dev = 1;
  inum = inum;
  ref = ref;
  lock = record { locked = false; pid = 0; wakeups = 0 };
  valid = true;
  copy = record { type = 1; major = 0; minor = 0; nlink = 1; size = 0; addrs = [] };
}

abbrev two_entries : List Inode
two_entries = an_inode 1 2 ∷ an_inode 0 0 ∷ []

-- The entry at index 1 is free.
only_first : (i : ℕ) (p : Inode) → get_elem? two_entries i ≡ some p → 0 < p.ref → i ≡ 0
only_first zero p at pos = refl
only_first (suc zero) p at pos = absurd (omega (arith, ap (λ (x : Inode). x.ref) (some-eq at)))
only_first (suc (suc i)) p at pos = cc

two_entries-Unique : Unique two_entries
two_entries-Unique i j p q at_i at_j same in_use =
    omega (arith, only_first i p at_i in_use, only_first j q at_j (ground arith))

iget-cases_example :
    ((i : ℕ) × (t' : List Inode) × (iget 1 5 two_entries ≡ done (i, t'))
      × Got 1 5 two_entries i t'
      × Unique t')
    ⊎ ((iget 1 5 two_entries ≡ panic)
        × Nowhere 1 5 two_entries
        × ((i : ℕ) (p : Inode) → get_elem? two_entries i ≡ some p → 0 < p.ref))
iget-cases_example = iget-cases 1 5 two_entries two_entries-Unique
