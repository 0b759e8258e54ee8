-- ===== src/Text.antt =====
-- CLab/xv6/kernel/string.c. Memory is a function from addresses to bytes below 256; addresses do
-- not wrap. A result of type `int` is its 32-bit pattern. Sizes are those below 2 ^ 31 at which the
-- signed counters of the code do not overflow; a negative size of `strncpy` and `safestrcpy` does
-- what 0 does.
pub mod Move
pub mod Compare
pub mod Copy
mod Tests
use team.Common.{
  ℕ, zero, suc, ◌+◌, ◌-◌, ◌%◌, ◌^◌, Bool, true, false, ◌==◌, ◌&&◌, ◌||◌, not, if◌then◌else◌, ltb,
  Option, none, some,
}
use team.Common.Family.{update}

abbrev pub Memory : Type 0
Memory = ℕ → ℕ

-- `a - b` of two bytes as an `int`
abbrev pub difference : ℕ → ℕ → ℕ
difference a b = (a + 2 ^ 32 - b) % 2 ^ 32

-- The loop of `memset` with `k` rounds left, at the address `d`.
unfoldable pub set_loop : ℕ → ℕ → ℕ → Memory → Memory
set_loop d c zero m = m
set_loop d c (suc k) m = set_loop (d + 1) c k (update m d c)

unfoldable pub memset : ℕ → ℕ → ℕ → Memory → Memory
memset dst c n m = set_loop dst (c % 256) n m

unfoldable pub memcmp : ℕ → ℕ → ℕ → Memory → ℕ
memcmp s1 s2 zero m = 0
memcmp s1 s2 (suc n) m =
    let rest = memcmp (s1 + 1) (s2 + 1) n m in
    if not (m s1 == m s2) then difference (m s1) (m s2) else rest

-- The loops of `memmove`: up from the first byte, and down from behind the last one.
unfoldable pub copy_up : ℕ → ℕ → ℕ → Memory → Memory
copy_up d s zero m = m
copy_up d s (suc k) m = copy_up (d + 1) (s + 1) k (update m d (m s))

unfoldable pub copy_down : ℕ → ℕ → ℕ → Memory → Memory
copy_down d s zero m = m
copy_down d s (suc k) m = copy_down (d - 1) (s - 1) k (update m (d - 1) (m (s - 1)))

unfoldable pub memmove : ℕ → ℕ → ℕ → Memory → Memory
memmove dst src n m =
    if n == 0
    then m
    else if ltb src dst && ltb dst (src + n)
    then copy_down (dst + n) (src + n) n m
    else copy_up dst src n m

unfoldable pub strncmp : ℕ → ℕ → ℕ → Memory → ℕ
strncmp p q zero m = 0
strncmp p q (suc n) m =
    let rest = strncmp (p + 1) (q + 1) n m in
    if not (m p == 0) && m p == m q then rest else difference (m p) (m q)

-- The loops of `strncpy` with `k` rounds left.
unfoldable pub pad : ℕ → ℕ → Memory → Memory
pad s zero m = m
pad s (suc k) m = pad (s + 1) k (update m s 0)

unfoldable pub strncpy : ℕ → ℕ → ℕ → Memory → Memory
strncpy s t zero m = m
strncpy s t (suc k) m =
    let m1 = update m s (m t) in
    let rest = strncpy (s + 1) (t + 1) k m1 in if m t == 0 then pad (s + 1) k m1 else rest

-- The loop of `safestrcpy` and the last write behind it.
unfoldable pub safe_loop : ℕ → ℕ → ℕ → Memory → Memory
safe_loop s t zero m = update m s 0
safe_loop s t (suc k) m =
    let m1 = update m s (m t) in
    let rest = safe_loop (s + 1) (t + 1) k m1 in if m t == 0 then update m1 (s + 1) 0 else rest

unfoldable pub safestrcpy : ℕ → ℕ → ℕ → Memory → Memory
safestrcpy s t zero m = m
safestrcpy s t (suc k) m = safe_loop s t k m

-- `strlen` on fuel, with `n` bytes passed.
unfoldable pub strlen_loop : ℕ → ℕ → ℕ → Memory → Option ℕ
strlen_loop zero s n m = none
strlen_loop (suc f) s n m =
    let rest = strlen_loop f s (n + 1) m in if m (s + n) == 0 then some n else rest
