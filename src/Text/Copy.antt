-- ===== src/Text/Copy.antt =====
-- `safestrcpy` and `strncpy` of string.c stay in their buffer.
use team.Common.{
  ℕ, zero, suc, ◌+◌, ◌-◌, ◌≤◌, ◌<◌, ◌≡◌, ◌≢◌, ap, sym, ◌∙◌, ◌⊎◌, inl, inr, arith, ◌==◌, Bool-cases,
  ℕ_discrete,
}
use team.Common.Family.{update, update_self, update_ne}
use team.Text.{Memory, safe_loop, safestrcpy}

-- A prefix of the string at `t` stands at `s`, closed by a 0 within the `n` bytes, and nothing
-- outside of the `n` bytes has changed.
pub record Copied (s t n : ℕ) (m r : Memory) : Type 0 where
  pub len : ℕ
  pub fits : len < n
  pub same : (i : ℕ) → i < len → r (s + i) ≡ m (t + i)
  pub closed : r (s + len) ≡ 0
  pub beside : (a : ℕ) → (a < s) ⊎ (s + n ≤ a) → r a ≡ m a

-- The copy is the whole string, or as much of it as fits.
abbrev pub Whole : ℕ → ℕ → ℕ → Memory → Type 0
Whole t n len m = (m (t + len) ≡ 0) ⊎ (len + 1 ≡ n)

Copied-front :
    (s t n : ℕ) (m r : Memory)
    → (s + suc n ≤ t) ⊎ (t + suc n ≤ s)
    → m t ≢ 0
    → (c : Copied (s + 1) (t + 1) n (update m s (m t)) r) → Whole (t + 1) n c.len (update m s (m t))
    → (c : Copied s t (suc n) m r) × Whole t (suc n) c.len m
Copied-front s t n m r apart set c whole = (
  record {
    len = suc c.len;
    fits = omega (arith, c.fits);
    same = λ i h. elim (ℕ_discrete i 0) [
      | yes e ↦
          ap r (omega arith) ∙ c.beside s (omega arith) ∙ update_self m s (m t) ∙ ap m (omega arith)
      | no ne ↦
          ap r (omega arith)
          ∙ c.same (i - 1) (omega arith)
          ∙ update_ne m s (m t) (t + 1 + (i - 1)) (omega (arith, c.fits))
          ∙ ap m (omega arith)
    ];
    closed = ap r (omega arith) ∙ c.closed;
    beside = λ a h. c.beside a (omega arith) ∙ update_ne m s (m t) a (omega arith);
  },
  elim whole [
    | inl ends ↦ inl (
        ap m (omega arith)
        ∙ sym (update_ne m s (m t) (t + 1 + c.len) (omega (arith, c.fits)))
        ∙ ends)
    | inr full ↦ inr (omega arith)
  ],
)

safe_loop-Copied :
    (k s t : ℕ) (m : Memory)
    → (s + suc k ≤ t) ⊎ (t + suc k ≤ s)
    → (c : Copied s t (suc k) m (safe_loop s t k m)) × Whole t (suc k) c.len m
unfolding safe_loop
safe_loop-Copied zero s t m apart = (
  record {
    len = 0;
    fits = omega arith;
    same = λ i h. absurd (omega arith);
    closed = ap (update m s 0) (omega arith) ∙ update_self m s 0;
    beside = λ a h. update_ne m s 0 a (omega arith);
  },
  inr (omega arith),
)
safe_loop-Copied (suc k) s t m apart = elim (Bool-cases (m t == 0)) [
  | inl ends ↦
      let m1 : Memory = update m s (m t) in
      let at : s + 0 ≡ s = omega arith in
      let from : t + 0 ≡ t = omega arith in
      rw ends (
        record {
          len = 0;
          fits = omega arith;
          same = λ i h. absurd (omega arith);
          closed =
              ap (update m1 (s + 1) 0) at
              ∙ update_ne m1 (s + 1) 0 s (omega arith)
              ∙ update_self m s (m t)
              ∙ ground arith;
          beside =
              λ a h. update_ne m1 (s + 1) 0 a (omega arith) ∙ update_ne m s (m t) a (omega arith);
        },
        inl (ap m from ∙ ground arith),
      )
  | inr set ↦
      let (c, whole) = safe_loop-Copied k (s + 1) (t + 1) (update m s (m t)) (omega arith) in
      rw set (Copied-front s t (suc k) m _ apart (ground arith) c whole)
]

-- `safestrcpy` with room for `n` bytes, more than none, from a string that the buffer does not
-- overlap: the buffer holds a prefix of the string and then a 0, within the `n` bytes; the prefix is
-- the whole string or as much as fits, and nothing outside the `n` bytes changes.
pub safestrcpy-Copied :
    (s t n : ℕ) (m : Memory)
    → 0 < n
    → (s + n ≤ t) ⊎ (t + n ≤ s)
    → (c : Copied s t n m (safestrcpy s t n m)) × Whole t n c.len m
unfolding safestrcpy
safestrcpy-Copied s t zero m room apart = absurd (omega arith)
safestrcpy-Copied s t (suc k) m room apart = safe_loop-Copied k s t m apart
