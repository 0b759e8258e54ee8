-- ===== src/Fs/Bits.antt =====
-- One bit of a byte is set or cleared and the others stay, for every byte by evaluation.
use Prim.Native.Nat.{bit_and, bit_or}
use team.Common.{
  ℕ, zero, suc, ◌-◌, ◌^◌, ◌<◌, ◌≡◌, refl, ap, Bool, true, false, ◌==◌, ◌&&◌, not, if◌then◌else◌,
  ltb, arith, ℕ_discrete, ltb→lt,
}

abbrev pub bit_clear : ℕ → ℕ → Bool
bit_clear byte k = bit_and byte (2 ^ k) == 0

-- `test` holds of every number below `n`.
all_below : ℕ → (ℕ → Bool) → Bool
all_below zero test = true
all_below (suc n) test = test n && all_below n test

all_below-at : (n : ℕ) (test : ℕ → Bool) (i : ℕ) → all_below n test ≡ true → i < n → test i ≡ true
unfolding all_below
all_below-at zero test i h lt = absurd (omega arith)
all_below-at (suc n) test i h lt = elim (ℕ_discrete i n) [
  | yes e ↦ ground (arith, ap test e)
  | no ne ↦ all_below-at n test i (ground arith) (omega arith)
]

abbrev same_bool : Bool → Bool → Bool
same_bool true b = b
same_bool false b = not b

same_bool-eq : (a b : Bool) → same_bool a b ≡ true → a ≡ b
same_bool-eq true true h = refl
same_bool-eq true false h = cc
same_bool-eq false true h = cc
same_bool-eq false false h = refl

abbrev sets : ℕ → ℕ → ℕ → Bool
sets byte k j =
    same_bool (bit_clear (bit_or byte (2 ^ k)) j) (if j == k then false else bit_clear byte j)

abbrev clears : ℕ → ℕ → ℕ → Bool
clears byte k j =
    same_bool (bit_clear (bit_and byte (255 - 2 ^ k)) j) (if j == k then true else bit_clear byte j)

abbrev small : ℕ → ℕ → Bool
small byte k = ltb (bit_or byte (2 ^ k)) 256 && ltb (bit_and byte (255 - 2 ^ k)) 256

every_byte :
    all_below 256 (λ byte.
      all_below 8 (λ k. small byte k && all_below 8 (λ j. sets byte k j && clears byte k j)))
    ≡ true
unfolding all_below
every_byte = refl

and-true : (a b : Bool) → (a && b) ≡ true → (a ≡ true) × (b ≡ true)
and-true true b h = (refl, h)
and-true false b h = cc

module _ (byte k j : ℕ) (is_byte : byte < 256) (k_in : k < 8) (j_in : j < 8) where
  checked : (small byte k ≡ true) × (sets byte k j ≡ true) × (clears byte k j ≡ true)
  checked =
      let at_byte = all_below-at 256 _ byte every_byte is_byte in
      let (bounds, bits) = and-true _ _ (all_below-at 8 _ k at_byte k_in) in
      let (set, cleared) = and-true _ _ (all_below-at 8 _ j bits j_in) in (bounds, set, cleared)

  pub bit_or-bit : bit_clear (bit_or byte (2 ^ k)) j ≡ (if j == k then false else bit_clear byte j)
  bit_or-bit = same_bool-eq _ _ checked.1

  pub bit_and-bit :
      bit_clear (bit_and byte (255 - 2 ^ k)) j ≡ (if j == k then true else bit_clear byte j)
  bit_and-bit = same_bool-eq _ _ checked.2

  pub bit_or-byte : bit_or byte (2 ^ k) < 256
  bit_or-byte = ltb→lt _ _ (and-true _ _ checked.0).0

  pub bit_and-byte : bit_and byte (255 - 2 ^ k) < 256
  bit_and-byte = ltb→lt _ _ (and-true _ _ checked.0).1
