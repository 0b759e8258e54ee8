-- ===== src/Fs/FreeMap.antt =====
-- The marks of the free map of fs.c, and `bfree`, which clears one.
use Prim.Native.Nat.{bit_and}
use native.Mathlib.Nat.{mod-lt}
use team.Common.{
  ℕ, ◌+◌, ◌-◌, ◌/◌, ◌%◌, ◌^◌, ◌<◌, ◌≡◌, refl, ◌≢◌, ap, sym, Bool, true, false, ◌∷◌, arith, ◌==◌,
  if◌then◌else◌, ℕ_discrete,
}
use team.Common.Outcome.{done, panic}
use team.Common.Family.{update_ne}
use team.Fs.{Superblock, Store, bpb, bblock, write_byte, bzero, is_free, bfree}
use team.Fs.Bits.{bit_clear, bit_and-bit}

-- The free map says that block `n` is free.
unfoldable pub free_in : Superblock → Store → ℕ → Bool
free_in sb s n = is_free (bblock sb n) (n % bpb) s

-- Blocks hold bytes, and the bitmap blocks themselves are marked as used.
pub record IsValid (sb : Superblock) (s : Store) : Type 0 where
  pub bytes : (b i : ℕ) → s.byte b i < 256
  pub meta_used : (n m : ℕ) → m < sb.size → n ≡ bblock sb m → n < sb.size → free_in sb s n ≡ false

-- One bit of a bitmap byte is changed.
module _ (sb : Superblock) (s : Store) (bytes : (b i : ℕ) → s.byte b i < 256) (n v : ℕ)
    (clear : Bool)
    (bit : (j : ℕ)
      → j < 8
      → bit_clear v j ≡ (
          if j == n % bpb % 8
          then clear
          else bit_clear (s.byte (bblock sb n) (n % bpb / 8)) j)) where
  pub write_byte-free_in :
      (m : ℕ)
      → free_in sb (write_byte (bblock sb n) (n % bpb / 8) v s) m
        ≡ (if m == n then clear else free_in sb s m)
  unfolding write_byte free_in
  write_byte-free_in m = elim (ℕ_discrete (m / bpb) (n / bpb)) [
    | no other ↦
        let ne : bblock sb m ≢ bblock sb n = λ e. other (omega arith) in
        let apart : m ≢ n = λ e. other (ap (λ x. x / bpb) e) in ground arith
    | yes same ↦
        let block : bblock sb m ≡ bblock sb n = ap (λ x. x + sb.bmapstart) same in
        elim (ℕ_discrete (m % bpb / 8) (n % bpb / 8)) [
          | no other ↦
              let apart : m ≢ n = λ e. other (ap (λ x. x % bpb / 8) e) in rw block (ground arith)
          | yes place ↦
              let whole : (m % bpb % 8 ≡ n % bpb % 8) → m ≡ n = λ e. omega arith in
              let flag = bit (m % bpb % 8) (mod-lt _ (omega arith)) in
              rw (block, place)
                (elim (ℕ_discrete m n) [
                  | yes e ↦ rw e (ground (arith, bit (n % bpb % 8) (mod-lt _ (omega arith))))
                  | no ne ↦
                      let other : m % bpb % 8 ≢ n % bpb % 8 = λ e. ne (whole e) in
                      ground (arith, flag)
                ])
        ]
  ]

-- Clearing a block that is not a bitmap block keeps the map.
pub bzero-free_in :
    (sb : Superblock) (s : Store) (b m : ℕ)
    → b ≢ bblock sb m
    → free_in sb (bzero b s) m ≡ free_in sb s m
unfolding bzero free_in
bzero-free_in sb s b m ne = rw (update_ne s.byte b (λ _. 0) (bblock sb m) (λ e. ne (sym e)))

bfree-free : (sb : Superblock) (n : ℕ) (s : Store) → free_in sb s n ≡ true → bfree sb n s ≡ panic
unfolding bfree free_in
bfree-free sb n s free = rw free

-- What `bfree` leaves.
abbrev freed : Superblock → ℕ → Store → Store
freed sb n s =
    write_byte (bblock sb n) (n % bpb / 8)
      (bit_and (s.byte (bblock sb n) (n % bpb / 8)) (255 - 2 ^ (n % bpb % 8))) s

bfree-used :
    (sb : Superblock) (n : ℕ) (s : Store)
    → free_in sb s n ≡ false
    → bfree sb n s ≡ done (freed sb n s)
unfolding bfree free_in
bfree-used sb n s used = rw used

-- `bfree` of a block that a valid free map marks as used ends without a panic: the block is
-- marked free, no other mark changes, and its bitmap block is logged. If the block is marked free
-- already, `bfree` panics.
pub bfree-cases :
    (sb : Superblock) (n : ℕ) (s : Store)
    → IsValid sb s
    → (free_in sb s n ≡ true → bfree sb n s ≡ panic)
      × (free_in sb s n ≡ false
          → (s' : Store) × (bfree sb n s ≡ done s')
            × (s'.logged ≡ bblock sb n ∷ s.logged)
            × ((m : ℕ) → free_in sb s' m ≡ (if m == n then true else free_in sb s m)))
unfolding write_byte
bfree-cases sb n s valid = (
  λ free. bfree-free sb n s free,
  λ used. (
    freed sb n s,
    bfree-used sb n s used,
    refl,
    λ m.
        write_byte-free_in sb s valid.bytes n _ true
          (λ j lt. bit_and-bit _ (n % bpb % 8) j (valid.bytes _ _) (mod-lt _ (omega arith)) lt) m,
  ),
)
