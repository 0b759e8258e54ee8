-- ===== src/Fs/Tests.antt =====
-- A free map in which the first 40 blocks are used.
use team.Common.{
  ℕ, zero, suc, ◌+◌, ◌/◌, ◌<◌, ◌≡◌, refl, ◌⊎◌, Bool, true, false, Option, none, some, List, [], ◌∷◌,
  arith, ◌==◌, ◌&&◌, if◌then◌else◌, ltb,
}
use team.Common.Outcome.{done, panic}
use team.Fs.{Superblock, Store, balloc, bfree}
use team.Fs.FreeMap.{free_in, IsValid, bfree-cases}
use team.Fs.Balloc.{Taken, balloc-cases}

abbrev small_disk : Superblock
small_disk = record {
  magic = 0x10203040;
  size = 2000;
  nblocks = 1954;
  ninodes = 200;
  nlog = 30;
  logstart = 2;
  inodestart = 32;
  bmapstart = 39;
}

-- The bitmap block holds five bytes of ones, and zeros.
abbrev formatted : Store
formatted = record { byte = λ b i. if b == 39 && ltb i 5 then 255 else 0; logged = [] }

formatted-IsValid : IsValid small_disk formatted
unfolding free_in
formatted-IsValid = record {
  bytes = λ b i. ground arith;
  meta_used =
      λ n m h e in_size. let is_bitmap : n ≡ 39 = omega (arith, e) in subst_used n is_bitmap;
}
  where
    subst_used : (n : ℕ) → n ≡ 39 → free_in small_disk formatted n ≡ false
    subst_used n e =
        team.Common.subst (λ x. free_in small_disk formatted x ≡ false) (team.Common.sym e) refl

balloc-cases_example :
    ((n : ℕ) × (s' : Store) × (balloc small_disk formatted ≡ some (n, s'))
      × Taken small_disk formatted n s')
    ⊎ ((balloc small_disk formatted ≡ some (0, formatted))
        × ((m : ℕ) → m < 2000 → free_in small_disk formatted m ≡ false))
balloc-cases_example = balloc-cases small_disk formatted formatted-IsValid

bfree-cases_example :
    (free_in small_disk formatted 20 ≡ true → bfree small_disk 20 formatted ≡ panic)
    × (free_in small_disk formatted 20 ≡ false
        → (s' : Store) × (bfree small_disk 20 formatted ≡ done s')
          × (s'.logged ≡ 39 ∷ [])
          × ((m : ℕ)
              → free_in small_disk s' m
                ≡ (if m == 20 then true else free_in small_disk formatted m)))
bfree-cases_example = bfree-cases small_disk 20 formatted formatted-IsValid
