-- ===== src/Text/Compare.antt =====
-- When `memcmp` and `strncmp` of string.c return 0, and that `strlen` finds the first 0.
use team.Common.{
  ℕ, zero, suc, ◌+◌, ◌-◌, ◌<◌, ◌≡◌, refl, ◌≢◌, ◌↔◌, ap, sym, ◌∙◌, arith, ℕ_discrete, some,
}
use team.Text.{Memory, difference, memcmp, strncmp, strlen_loop}

-- Memory holds bytes.
abbrev pub IsBytes : Memory → Type 0
IsBytes m = (a : ℕ) → m a < 256

-- No 0 stands in the first `n` bytes from `p` on.
abbrev pub NoZero : Memory → ℕ → ℕ → Type 0
NoZero m p n = (i : ℕ) → i < n → m (p + i) ≢ 0

-- The two strings are the same up to byte `n` or their end.
abbrev pub SameString : Memory → ℕ → ℕ → ℕ → Type 0
SameString m p q n = (i : ℕ) → i < n → NoZero m p i → m (p + i) ≡ m (q + i)

difference-zero : (a b : ℕ) → a < 256 → b < 256 → difference a b ≡ 0 → a ≡ b
difference-zero a b ha hb h = omega arith

difference-same : (a b : ℕ) → a ≡ b → a < 256 → difference a b ≡ 0
difference-same a b e h = omega arith

module _ (m : Memory) (p : ℕ) where
  place_zero : m (p + 0) ≡ m p
  place_zero = ap m (omega arith)

  place_suc : (i : ℕ) → m (p + suc i) ≡ m (p + 1 + i)
  place_suc i = ap m (omega arith)

-- `memcmp` of `n` bytes returns 0 exactly when the bytes are the same.
memcmp-zero :
    (s1 s2 n : ℕ) (m : Memory)
    → IsBytes m
    → (memcmp s1 s2 n m ≡ 0) ↔ ((i : ℕ) → i < n → m (s1 + i) ≡ m (s2 + i))
unfolding memcmp
memcmp-zero s1 s2 zero m bytes = (λ e i h. absurd (omega arith), λ h. refl)
memcmp-zero s1 s2 (suc n) m bytes =
    let ih = memcmp-zero (s1 + 1) (s2 + 1) n m bytes in (there ih.0, back ih.1)
  where
    Same : Type 0
    Same = (i : ℕ) → i < n → m (s1 + 1 + i) ≡ m (s2 + 1 + i)

    there :
        (memcmp (s1 + 1) (s2 + 1) n m ≡ 0 → Same)
        → memcmp s1 s2 (suc n) m ≡ 0
        → (i : ℕ) → i < suc n
        → m (s1 + i) ≡ m (s2 + i)
    there ih e zero h =
        place_zero m s1
        ∙ ground (arith, e, difference-zero (m s1) (m s2) (bytes s1) (bytes s2))
        ∙ sym (place_zero m s2)
    there ih e (suc i) h =
        place_suc m s1 i
        ∙ ih (ground (arith, e, difference-zero (m s1) (m s2) (bytes s1) (bytes s2))) i
            (omega arith)
        ∙ sym (place_suc m s2 i)

    back :
        (Same → memcmp (s1 + 1) (s2 + 1) n m ≡ 0)
        → ((i : ℕ) → i < suc n → m (s1 + i) ≡ m (s2 + i))
        → memcmp s1 s2 (suc n) m ≡ 0
    back ih h =
        let first : m s1 ≡ m s2 = sym (place_zero m s1) ∙ h 0 (omega arith) ∙ place_zero m s2 in
        let later =
          ih (λ i lt. sym (place_suc m s1 i) ∙ h (suc i) (omega arith) ∙ place_suc m s2 i) in
        ground (arith, first, later)

-- `strncmp` with the bound `n` returns 0 exactly when the strings are the same up to their end or
-- their first `n` bytes.
strncmp-zero : (p q n : ℕ) (m : Memory) → IsBytes m → (strncmp p q n m ≡ 0) ↔ SameString m p q n
unfolding strncmp
strncmp-zero p q zero m bytes = (λ e i h nz. absurd (omega arith), λ h. refl)
strncmp-zero p q (suc n) m bytes =
    let ih = strncmp-zero (p + 1) (q + 1) n m bytes in (there ih.0, back ih.1)
  where
    there :
        (strncmp (p + 1) (q + 1) n m ≡ 0 → SameString m (p + 1) (q + 1) n)
        → strncmp p q (suc n) m ≡ 0
        → SameString m p q (suc n)
    there ih e zero h nz =
        place_zero m p
        ∙ ground (arith, e, difference-zero (m p) (m q) (bytes p) (bytes q))
        ∙ sym (place_zero m q)
    there ih e (suc i) h nz =
        let set : m p ≢ 0 = λ z. nz 0 (omega arith) (place_zero m p ∙ z) in
        place_suc m p i
        ∙ ih (ground (arith, e, difference-zero (m p) (m q) (bytes p) (bytes q))) i (omega arith)
            (λ j lt z. nz (suc j) (omega arith) (place_suc m p j ∙ z))
        ∙ sym (place_suc m q i)

    back :
        (SameString m (p + 1) (q + 1) n → strncmp (p + 1) (q + 1) n m ≡ 0)
        → SameString m p q (suc n)
        → strncmp p q (suc n) m ≡ 0
    back ih h =
        let first : m p ≡ m q =
          sym (place_zero m p)
          ∙ h 0 (omega arith) (λ i lt. absurd (omega arith))
          ∙ place_zero m q in
        elim (ℕ_discrete (m p) 0) [
          | yes ends ↦ ground (arith, first, difference-same (m p) (m q) first (bytes p))
          | no set ↦
              let later = ih (λ i lt nz.
                sym (place_suc m p i)
                ∙ h (suc i) (omega arith) (λ j lt'. elim (ℕ_discrete j 0) [
                  | yes e ↦ λ z. set (ap m (omega arith) ∙ z)
                  | no ne ↦ λ z. nz (j - 1) (omega arith) (ap m (omega arith) ∙ z)
                ])
                ∙ place_suc m q i) in
              ground (arith, first, later)
        ]

strlen_loop-finds :
    (d f s i : ℕ) (m : Memory)
    → d < f
    → m (s + i + d) ≡ 0
    → NoZero m (s + i) d
    → strlen_loop f s i m ≡ some (i + d)
unfolding strlen_loop
strlen_loop-finds d zero s i m fuel ends nz = absurd (omega arith)
strlen_loop-finds zero (suc f) s i m fuel ends nz =
    let here : m (s + i) ≡ 0 = ap m (omega arith) ∙ ends in
    let n : i + 0 ≡ i = omega arith in rw (here, n)
strlen_loop-finds (suc d) (suc f) s i m fuel ends nz =
    let not_here : m (s + i) ≢ 0 = λ z. nz 0 (omega arith) (ap m (omega arith) ∙ z) in
    let later =
      strlen_loop-finds d f s (i + 1) m (omega arith) (ap m (omega arith) ∙ ends)
        (λ j lt z. nz (suc j) (omega arith) (ap m (omega arith) ∙ z)) in
    ground (arith, not_here, later)

-- `strlen` of a string whose first 0 stands at distance `n` returns `n`, on fuel above `n`.
strlen_loop-first_zero :
    (n f s : ℕ) (m : Memory) → n < f → m (s + n) ≡ 0 → NoZero m s n → strlen_loop f s 0 m ≡ some n
strlen_loop-first_zero n f s m fuel ends nz =
    strlen_loop-finds n f s 0 m fuel (ap m (omega arith) ∙ ends)
      (λ i lt z. nz i lt (ap m (omega arith) ∙ z))
    ∙ ap some (omega arith)
