-- ===== src/Fs/Balloc.antt =====
-- `balloc` of fs.c takes the first free block.
use Prim.Native.Nat.{bit_or}
use mathlib.Core.Bool.{true≢false}
use native.Mathlib.Nat.{mod-lt}
use team.Common.{
  ℕ, zero, suc, ◌+◌, ◌*◌, ◌/◌, ◌%◌, ◌^◌, ◌≤◌, ◌<◌, ◌≡◌, refl, ◌≢◌, sym, subst, ◌∙◌, true, false,
  none, some, ◌∷◌, ◌⊎◌, inl, inr, arith, ◌==◌, if◌then◌else◌, Bool-cases, dec_lt,
}
use team.Fs.{
  Superblock, Store, bpb, bblock, write_byte, bzero, is_free, scan_bits, claim, balloc_loop, balloc,
}
use team.Fs.Bits.{bit_or-bit, bit_or-byte}
use team.Fs.FreeMap.{free_in, IsValid, write_byte-free_in, bzero-free_in}

-- A bit of the bitmap block of `b`, as the scan of `balloc` reads it.
place :
    (sb : Superblock) (s : Store) (b i : ℕ)
    → b % bpb ≡ 0
    → i < bpb
    → is_free (bblock sb b) i s ≡ free_in sb s (b + i)
unfolding free_in
place sb s b i at lt =
    let same : bblock sb (b + i) ≡ bblock sb b = omega arith in
    let bit : (b + i) % bpb ≡ i = omega arith in rw (same, bit)

-- The blocks `b + lo`, ..., below `b + hi` and inside the file system are used.
abbrev AllUsed : Superblock → Store → ℕ → ℕ → Type 0
AllUsed sb s lo hi = (n : ℕ) → lo ≤ n → n < hi → n < sb.size → free_in sb s n ≡ false

AllUsed-join :
    (sb : Superblock) (s : Store) (lo mid hi : ℕ)
    → AllUsed sb s lo mid
    → AllUsed sb s mid hi
    → AllUsed sb s lo hi
AllUsed-join sb s lo mid hi a b n above below inside = elim (dec_lt n mid) [
  | yes lt ↦ a n above lt inside
  | no ge ↦ b n (omega arith) below inside
]

-- What a scan from block `lo` up to `hi` says.
record FirstFree (sb : Superblock) (s : Store) (lo hi n : ℕ) : Type 0 where
  above : lo ≤ n
  below : n < hi
  inside : n < sb.size
  free : free_in sb s n ≡ true
  before : AllUsed sb s lo n

scan_bits-cases :
    (sb : Superblock) (s : Store) (b k bi : ℕ)
    → b % bpb ≡ 0
    → bi + k ≡ bpb
    → ((i : ℕ) × (scan_bits sb s b k bi ≡ some i) × FirstFree sb s (b + bi) (b + bpb) (b + i))
      ⊎ ((scan_bits sb s b k bi ≡ none) × AllUsed sb s (b + bi) (b + bpb))
unfolding scan_bits
scan_bits-cases sb s b zero bi at total = inr (refl, λ n lo hi in_size. absurd (omega arith))
scan_bits-cases sb s b (suc k) bi at total = elim (dec_lt (b + bi) sb.size) [
  | no out ↦ inr (ground arith, λ n lo hi in_size. absurd (omega arith))
  | yes fits ↦
      let here = place sb s b bi at (omega arith) in
      elim (Bool-cases (is_free (bblock sb b) bi s)) [
        | inl free ↦ inl (
          bi,
          ground (arith, free),
          record {
            above = omega arith;
            below = omega arith;
            inside = fits;
            free = sym here ∙ free;
            before = λ n lo hi in_size. absurd (omega arith);
          },
        )
        | inr used ↦
            let first : AllUsed sb s (b + bi) (b + suc bi) = λ n lo hi in_size.
              subst (λ x. free_in sb s x ≡ false) {x = b + bi} {y = n} (omega arith)
                (sym here ∙ used) in
            elim (scan_bits-cases sb s b k (suc bi) at (omega arith)) [
              | inl (i, eq, found) ↦ inl (
                i,
                ground (arith, used, eq),
                record {
                  above = omega (arith, found.above);
                  below = found.below;
                  inside = found.inside;
                  free = found.free;
                  before = AllUsed-join sb s (b + bi) (b + suc bi) (b + i) first found.before;
                },
              )
              | inr (eq, rest) ↦ inr (
                ground (arith, used, eq),
                AllUsed-join sb s (b + bi) (b + suc bi) (b + bpb) first rest,
              )
            ]
      ]
]

-- What `balloc` leaves when it takes block `n`.
pub record Taken (sb : Superblock) (s : Store) (n : ℕ) (s' : Store) : Type 0 where
  pub inside : n < sb.size
  pub was_free : free_in sb s n ≡ true
  pub first : (m : ℕ) → m < n → free_in sb s m ≡ false
  pub marks : (m : ℕ) → m < sb.size → free_in sb s' m ≡ (if m == n then false else free_in sb s m)
  pub zeroed : (i : ℕ) → s'.byte n i ≡ 0
  pub others : (b : ℕ) → b ≢ n → b ≢ bblock sb n → s'.byte b ≡ s.byte b
  pub logs : s'.logged ≡ n ∷ bblock sb n ∷ s.logged
  pub valid : IsValid sb s'

write_byte-byte :
    (block i v : ℕ) (s : Store)
    → ((b j : ℕ) → s.byte b j < 256)
    → v < 256
    → (b j : ℕ) → (write_byte block i v s).byte b j < 256
unfolding write_byte
write_byte-byte block i v s bytes small b j = ground (arith, bytes b j, bytes block j)

bzero-byte :
    (n : ℕ) (s : Store) → ((b j : ℕ) → s.byte b j < 256) → (b j : ℕ) → (bzero n s).byte b j < 256
unfolding bzero
bzero-byte n s bytes b j = ground (arith, bytes b j)

-- `claim` of block `n`, with its bitmap block and bit computed from `n`.
abbrev marked : Superblock → ℕ → Store → Store
marked sb n s =
    write_byte (bblock sb n) (n % bpb / 8)
      (bit_or (s.byte (bblock sb n) (n % bpb / 8)) (2 ^ (n % bpb % 8))) s

claim-at :
    (sb : Superblock) (s : Store) (b i : ℕ)
    → b % bpb ≡ 0
    → i < bpb
    → claim sb b i s ≡ bzero (b + i) (marked sb (b + i) s)
unfolding claim
claim-at sb s b i at lt =
    let block : bblock sb (b + i) ≡ bblock sb b = omega arith in
    let bit : (b + i) % bpb ≡ i = omega arith in rw (block, bit)

module _ (sb : Superblock) (s : Store) (n : ℕ) (valid : IsValid sb s) (inside : n < sb.size)
    (free : free_in sb s n ≡ true) where
  no_bitmap : (m : ℕ) → m < sb.size → n ≢ bblock sb m
  no_bitmap m h e = true≢false (sym free ∙ valid.meta_used n m h e inside)

  marked-bytes : (b j : ℕ) → (marked sb n s).byte b j < 256
  marked-bytes =
      write_byte-byte _ _ _ s valid.bytes
        (bit_or-byte _ (n % bpb % 8) 0 (valid.bytes _ _) (mod-lt _ (omega arith)) (omega arith))

  zeroed-marks :
      (m : ℕ)
      → m < sb.size
      → free_in sb (bzero n (marked sb n s)) m ≡ (if m == n then false else free_in sb s m)
  zeroed-marks m h =
      bzero-free_in sb (marked sb n s) n m (no_bitmap m h)
      ∙ write_byte-free_in sb s valid.bytes n _ false
          (λ j lt. bit_or-bit _ (n % bpb % 8) j (valid.bytes _ _) (mod-lt _ (omega arith)) lt) m

  marked-Taken : ((m : ℕ) → m < n → free_in sb s m ≡ false) → Taken sb s n (bzero n (marked sb n s))
  unfolding bzero write_byte
  marked-Taken before = record {
    inside = inside;
    was_free = free;
    first = before;
    marks = zeroed-marks;
    zeroed = λ i. ground arith;
    others = λ b ne ne'. ground arith;
    logs = refl;
    valid = record {
      bytes = bzero-byte n (marked sb n s) marked-bytes;
      meta_used = λ m k h e in_size.
          zeroed-marks m in_size ∙ ground (arith, valid.meta_used m k h e in_size);
    };
  }

balloc_loop-cases :
    (f : ℕ) (sb : Superblock) (s : Store) (b : ℕ)
    → IsValid sb s
    → b % bpb ≡ 0
    → sb.size + bpb ≤ b + f * bpb
    → b < sb.size + bpb
    → AllUsed sb s 0 b
    → ((n : ℕ) × (s' : Store) × (balloc_loop sb f b s ≡ some (n, s')) × Taken sb s n s')
      ⊎ ((balloc_loop sb f b s ≡ some (0, s)) × ((m : ℕ) → m < sb.size → free_in sb s m ≡ false))
unfolding balloc_loop
balloc_loop-cases zero sb s b valid at fuel near used = absurd (omega arith)
balloc_loop-cases (suc f) sb s b valid at fuel near used = elim (dec_lt b sb.size) [
  | no over ↦ inr (ground arith, λ m h. used m (omega arith) (omega arith) h)
  | yes more ↦ elim (scan_bits-cases sb s b bpb 0 at (omega arith)) [
    | inl (i, eq, found) ↦ inl (
      b + i,
      claim sb b i s,
      ground (arith, eq),
      subst (Taken sb s (b + i)) (sym (claim-at sb s b i at (omega (arith, found.below)))) (
          marked-Taken sb s (b + i) valid found.inside found.free (λ m h.
            AllUsed-join sb s 0 b (b + i) used (λ n lo hi. found.before n (omega arith) hi) m
              (omega arith) h (omega (arith, found.inside)))),
    )
    | inr (eq, rest) ↦
        let joined = AllUsed-join sb s 0 b (b + bpb) used (λ n lo hi. rest n (omega arith) hi) in
        elim (balloc_loop-cases f sb s (b + bpb) valid (omega arith) (omega arith) (omega arith)
          joined) [
            | inl (n, s', eq', t) ↦ inl (n, s', ground (arith, eq, eq'), t)
            | inr (eq', all) ↦ inr (ground (arith, eq, eq'), all)
          ]
  ]
]

-- `balloc` of a valid free map ends. If a block is free it takes the first one: the block is marked
-- used, no other mark changes, it is filled with zeros, no block but it and its bitmap block
-- changes, both are logged, and the map stays valid. If no block is free it returns 0 and changes
-- nothing.
pub balloc-cases :
    (sb : Superblock) (s : Store)
    → IsValid sb s
    → ((n : ℕ) × (s' : Store) × (balloc sb s ≡ some (n, s')) × Taken sb s n s')
      ⊎ ((balloc sb s ≡ some (0, s)) × ((m : ℕ) → m < sb.size → free_in sb s m ≡ false))
unfolding balloc
balloc-cases sb s valid =
    balloc_loop-cases (sb.size / bpb + 2) sb s 0 valid refl (omega arith) (omega arith)
      (λ n lo hi h. absurd (omega arith))
