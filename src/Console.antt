-- ===== src/Console.antt =====
-- CLab/xv6/kernel/console.c: the input ring with its indices `r`, `w` and `e` of type `uint`, the
-- editing of the current line in the interrupt handler, and reads. `echoed` is what goes to the
-- UART, and `wakeups` counts the calls of `wakeup`. A character is a byte. A read runs until it
-- returns or sleeps; one that slept goes on with the bytes that were left. `copyout` says whether a
-- byte can be stored at an address.
pub mod Line
pub mod Read
mod Tests
use team.Common.{
  ℕ, zero, suc, ◌+◌, ◌-◌, ◌%◌, ◌^◌, Bool, true, false, Option, none, some, List, [], ◌∷◌, ◌++◌,
  ◌==◌, ◌&&◌, ◌||◌, not, if◌then◌else◌, ltb,
}
use team.Common.Family.{update}

abbrev pub input_buf_size : ℕ
input_buf_size = 128

-- `cons`
pub record Cons : Type 0 where
  pub buf : ℕ → ℕ
  pub r : ℕ
  pub w : ℕ
  pub e : ℕ
  pub echoed : List ℕ
  pub wakeups : ℕ

-- C('D'), the end of a file
abbrev pub ctrl_d : ℕ
ctrl_d = 4

-- `'\n'`
abbrev pub newline : ℕ
newline = 10

-- `consputc(c)` of a character, and of BACKSPACE
unfoldable pub consputc : ℕ → Cons → Cons
consputc c s = record s { echoed = s.echoed ++ c ∷ [] }

unfoldable pub put_backspace : Cons → Cons
put_backspace s = record s { echoed = s.echoed ++ 8 ∷ 32 ∷ 8 ∷ [] }

-- `cons.e--; consputc(BACKSPACE);`
unfoldable pub erase : Cons → Cons
unfolding put_backspace
erase s = put_backspace (record s { e = (s.e + 2 ^ 32 - 1) % 2 ^ 32 })

-- The loop that kills the line, on fuel.
unfoldable pub kill_line : ℕ → Cons → Option Cons
unfolding erase
kill_line zero s = none
kill_line (suc f) s =
    let rest = kill_line f (erase s) in
    if s.e == s.w || s.buf ((s.e + 2 ^ 32 - 1) % 2 ^ 32 % input_buf_size) == newline
    then some s
    else rest

-- The default case, for a character that is stored.
unfoldable pub store : ℕ → Cons → Cons
unfolding consputc
store c s =
    let echo = consputc c s in
    let s1 : Cons = record echo {
      buf = update s.buf (s.e % input_buf_size) c;
      e = (s.e + 1) % 2 ^ 32;
    } in
    if c == newline || c == ctrl_d || (s1.e + 2 ^ 32 - s1.r) % 2 ^ 32 == input_buf_size
    then record s1 { w = s1.e; wakeups = s1.wakeups + 1 }
    else s1

-- `(c == '\r') ? '\n' : c`
abbrev pub normal : ℕ → ℕ
normal c = if c == 13 then newline else c

-- `consoleintr`. C('P') prints the process list.
unfoldable pub consoleintr : ℕ → Cons → Option Cons
unfolding kill_line erase store
consoleintr c s =
    if c == 16
    then some s
    else if c == 21
    then kill_line (input_buf_size + 1) s
    else if c == 8 || c == 127
    then some (if s.e == s.w then s else erase s)
    else if not (c == 0) && ltb ((s.e + 2 ^ 32 - s.r) % 2 ^ 32) input_buf_size
    then some (store (normal c) s)
    else some s

-- How a read ends: with a count, with -1, or asleep with bytes left to read.
pub data Ended : Type 0 where
  returned : ℕ → Ended
  failed : Ended
  asleep : ℕ → Ended

-- `consoleread`, with `n` of `target` bytes left; beside its result the bytes stored, in order.
module _ (killed : Bool) (copyout : ℕ → Bool) (target : ℕ) where
  unfoldable pub read_loop : ℕ → ℕ → Cons → Ended × List ℕ × Cons
  read_loop zero dst s = (returned target, [], s)
  read_loop (suc k) dst s =
      let c = s.buf (s.r % input_buf_size) in
      let s1 : Cons = record s { r = (s.r + 1) % 2 ^ 32 } in
      let (ends, out, s2) = read_loop k (dst + 1) s1 in
      if s.r == s.w
      then (if killed then failed else asleep (suc k), [], s)
      else if c == ctrl_d
      then (
        returned (target - suc k),
        [],
        if ltb (suc k) target then record s1 { r = (s1.r + 2 ^ 32 - 1) % 2 ^ 32 } else s1,
      )
      else if not (copyout dst)
      then (returned (target - suc k), [], s1)
      else if c == newline
      then (returned (target - k), c ∷ [], s1)
      else (ends, c ∷ out, s2)
