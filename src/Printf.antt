-- ===== src/Printf.antt =====
-- CLab/xv6/kernel/printf.c: the numbers that `printf` prints, as lists of characters for `consputc`,
-- and `atoi` of CLab/xv6/user/ulib.c, which reads a number back.
pub mod Numbers
mod Tests
use team.Common.{
  ℕ, zero, suc, ◌+◌, ◌-◌, ◌*◌, ◌/◌, ◌%◌, ◌^◌, Bool, true, false, Option, none, some, List, [], ◌∷◌,
  ◌==◌, ◌&&◌, if◌then◌else◌, ltb, leb, length, ◌++◌,
}

-- `digits[d]`
abbrev pub digit : ℕ → ℕ
digit d = if ltb d 10 then 48 + d else 87 + d

-- The `do` loop of `printint`, with room for so many characters in `buf`; none when it writes behind
-- the end of `buf`.
unfoldable pub fill_buf : ℕ → ℕ → ℕ → Option (List ℕ)
fill_buf zero base x = none
fill_buf (suc room) base x =
    let rest = fill_buf room base (x / base) in
    let c = digit (x % base) in
    if x / base == 0 then some (c ∷ []) else elim rest [ none ↦ none | some cs ↦ some (c ∷ cs) ]

-- `while (--i >= 0) consputc(buf[i])`, in front of what is printed next
unfoldable pub backwards : List ℕ → List ℕ → List ℕ
backwards [] out = out
backwards (c ∷ cs) out = backwards cs (c ∷ out)

abbrev pub buf_size : ℕ
buf_size = 16

-- The rest of `printint`, for the magnitude `x` of a number that is negative or not.
unfoldable pub print_magnitude : Bool → ℕ → ℕ → Option (List ℕ)
print_magnitude negative base x = elim (fill_buf buf_size base x) [
  | none ↦ none
  | some buf ↦
      if negative
      then (if ltb (length buf) buf_size then some (backwards (buf ++ 45 ∷ []) []) else none)
      else some (backwards buf [])
]

-- `printint`, with `xx` the 64-bit pattern of the argument; none when it writes behind `buf`.
unfoldable pub printint : ℕ → ℕ → Bool → Option (List ℕ)
printint xx base sign =
    let negative = sign && leb (2 ^ 63) xx in
    print_magnitude negative base (if negative then 2 ^ 64 - xx else xx)

-- The loop of `atoi` on the characters of a string, from `n` on; `int` has 32 bits.
unfoldable pub atoi_loop : ℕ → List ℕ → ℕ
atoi_loop n [] = n
atoi_loop n (c ∷ cs) =
    let rest = atoi_loop ((n * 10 + c + (2 ^ 32 - 48)) % 2 ^ 32) cs in
    if leb 48 c && leb c 57 then rest else n

unfoldable pub atoi : List ℕ → ℕ
atoi s = atoi_loop 0 s
