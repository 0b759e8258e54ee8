-- ===== src/Text/Move.antt =====
-- What `memset` and `memmove` of string.c leave in memory.
use team.Common.{
  ℕ, zero, suc, ◌+◌, ◌-◌, ◌%◌, ◌≤◌, ◌<◌, ◌≡◌, refl, ap, sym, ◌∙◌, ◌⊎◌, inl, inr, arith, ◌&&◌, ltb,
  Bool-cases, ℕ_discrete, ne→==false,
}
use team.Common.Family.{update, update_ne, update_self}
use team.Text.{Memory, set_loop, memset, copy_up, copy_down, memmove}

-- `n` bytes from `d` on hold what `bytes` says, and the rest of memory is as before.
pub record Wrote (d n : ℕ) (bytes : ℕ → ℕ) (m r : Memory) : Type 0 where
  pub inside : (i : ℕ) → i < n → r (d + i) ≡ bytes i
  pub beside : (a : ℕ) → (a < d) ⊎ (d + n ≤ a) → r a ≡ m a

Wrote-nothing : (d : ℕ) (bytes : ℕ → ℕ) (m : Memory) → Wrote d 0 bytes m m
Wrote-nothing d bytes m = record { inside = λ i h. absurd (omega arith); beside = λ a h. refl }

-- One byte is written before the others, in front of them or behind them.
pub Wrote-front :
    (d k v : ℕ) (bytes later : ℕ → ℕ) (m r : Memory)
    → v ≡ bytes 0
    → ((i : ℕ) → i < k → later i ≡ bytes (i + 1))
    → Wrote (d + 1) k later (update m d v) r
    → Wrote d (suc k) bytes m r
Wrote-front d k v bytes later m r first others w = record {
  inside = λ i h. elim (ℕ_discrete i 0) [
    | yes e ↦
        ap r (omega arith) ∙ w.beside d (omega arith) ∙ update_self m d v ∙ first ∙ ap bytes (sym e)
    | no n ↦
        ap r (omega arith)
        ∙ w.inside (i - 1) (omega arith)
        ∙ others (i - 1) (omega arith)
        ∙ ap bytes (omega arith)
  ];
  beside = λ a h. w.beside a (omega arith) ∙ update_ne m d v a (omega arith);
}

Wrote-back :
    (d k v : ℕ) (bytes others : ℕ → ℕ) (m r : Memory)
    → v ≡ bytes k
    → ((i : ℕ) → i < k → others i ≡ bytes i)
    → Wrote d k others (update m (d + k) v) r
    → Wrote d (suc k) bytes m r
Wrote-back d k v bytes others m r last same w = record {
  inside = λ i h. elim (ℕ_discrete i k) [
    | yes e ↦
        ap (λ j. r (d + j)) e
        ∙ w.beside (d + k) (omega arith)
        ∙ update_self m (d + k) v
        ∙ last
        ∙ ap bytes (sym e)
    | no n ↦ w.inside i (omega arith) ∙ same i (omega arith)
  ];
  beside = λ a h. w.beside a (omega arith) ∙ update_ne m (d + k) v a (omega arith);
}

set_loop-Wrote : (k d c : ℕ) (m : Memory) → Wrote d k (λ _. c) m (set_loop d c k m)
unfolding set_loop
set_loop-Wrote zero d c m = Wrote-nothing d _ m
set_loop-Wrote (suc k) d c m =
    Wrote-front d k c _ (λ _. c) m _ refl (λ i h. refl) (set_loop-Wrote k (d + 1) c (update m d c))

copy_up-Wrote :
    (k d s : ℕ) (m : Memory)
    → (d ≤ s) ⊎ (s + k ≤ d)
    → Wrote d k (λ i. m (s + i)) m (copy_up d s k m)
unfolding copy_up
copy_up-Wrote zero d s m apart = Wrote-nothing d _ m
copy_up-Wrote (suc k) d s m apart =
    Wrote-front d k (m s) _ (λ i. update m d (m s) (s + 1 + i)) m _ (ap m (omega arith))
      (λ i h. update_ne m d (m s) (s + 1 + i) (omega arith) ∙ ap m (omega arith))
      (copy_up-Wrote k (d + 1) (s + 1) (update m d (m s)) (omega arith))

copy_down-Wrote :
    (k d s : ℕ) (m : Memory) → s < d → Wrote d k (λ i. m (s + i)) m (copy_down (d + k) (s + k) k m)
unfolding copy_down
copy_down-Wrote zero d s m apart = Wrote-nothing d _ m
copy_down-Wrote (suc k) d s m apart =
    let dest : d + suc k - 1 ≡ d + k = omega arith in
    let from : s + suc k - 1 ≡ s + k = omega arith in
    rw (dest, from)
      (Wrote-back d k (m (s + k)) _ (λ i. update m (d + k) (m (s + k)) (s + i)) m _ refl
        (λ i h. update_ne m (d + k) (m (s + k)) (s + i) (omega arith))
        (copy_down-Wrote k d s (update m (d + k) (m (s + k))) apart))

-- `memset` writes the byte `c` to `n` places from `dst` on, and nothing else.
memset-Wrote : (dst c n : ℕ) (m : Memory) → Wrote dst n (λ _. c % 256) m (memset dst c n m)
unfolding memset
memset-Wrote dst c n m = set_loop-Wrote n dst (c % 256) m

-- `memmove` leaves at `dst` the `n` bytes that stood at `src` before the call, however the two
-- regions overlap, and changes nothing beside them.
pub memmove-Wrote :
    (dst src n : ℕ) (m : Memory) → Wrote dst n (λ i. m (src + i)) m (memmove dst src n m)
unfolding memmove
memmove-Wrote dst src zero m = Wrote-nothing dst _ m
memmove-Wrote dst src (suc n) m =
    let nonzero = ne→==false {a = suc n} {b = 0} (omega arith) in
    elim (Bool-cases (ltb src dst && ltb dst (src + suc n))) [
      | inl overlaps ↦ rw (nonzero, overlaps) (copy_down-Wrote (suc n) dst src m (ground arith))
      | inr apart ↦ rw (nonzero, apart) (copy_up-Wrote (suc n) dst src m (ground arith))
    ]
