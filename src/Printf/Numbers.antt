-- ===== src/Printf/Numbers.antt =====
-- Numbers in `printf.c` are printed so that they can be read back, as long as `buf` has room.
use native.Mathlib.Nat.{pow-zero, pow-suc, div-lt_iff_lt-mul, div-add-mod', mod-lt, one-le-pow}
use team.Common.{
  ℕ, zero, suc, ◌+◌, ◌-◌, ◌*◌, ◌/◌, ◌%◌, ◌^◌, ◌≤◌, ◌<◌, ◌≡◌, refl, ap, ap₂, sym, subst, ◌∙◌, true,
  false, Option, none, some, List, [], ◌∷◌, ◌&&◌, if◌then◌else◌, ltb, leb, length, arith, ◌⊎◌, inl,
  inr, Option-cases, some-eq, ne→==false, ℕ_discrete, dec_lt,
}
use team.Printf.{digit, fill_buf, backwards, print_magnitude, printint, buf_size, atoi_loop, atoi}

-- The value of a digit in either case of the alphabet that `digits` has.
abbrev pub digit_value : ℕ → ℕ
digit_value c = if ltb c 58 then c - 48 else c - 87

-- The value of digits with the last one first.
abbrev pub value : ℕ → List ℕ → ℕ
value base [] = 0
value base (c ∷ cs) = value base cs * base + digit_value c

digit-value : (d : ℕ) → d < 16 → digit_value (digit d) ≡ d
digit-value d lt = ground arith

-- What the loop makes of `x`, with room for `room` digits.
Filled : ℕ → ℕ → ℕ → Option (List ℕ) → Type 0
Filled room base x r =
    ((x < base ^ room)
      × (buf : List ℕ) × (r ≡ some buf)
      × (value base buf ≡ x)
      × (length buf ≤ room))
    ⊎ ((base ^ room ≤ x) × (r ≡ none))

-- The last digit, and the others.
last_digit :
    (base x : ℕ) (cs : List ℕ)
    → 2 ≤ base
    → base ≤ 16
    → value base cs ≡ x / base
    → value base (digit (x % base) ∷ cs) ≡ x
last_digit base x cs lo hi e =
    let lt = mod-lt x {m = base} (omega arith) in
    ap₂ (λ a b. a * base + b) e (digit-value (x % base) (omega (arith, lt))) ∙ div-add-mod' x base

below : (base y x : ℕ) → 0 < base → x / base < y → x < y * base
below base y x pos h = (div-lt_iff_lt-mul pos).0 h

above : (base y x : ℕ) → 0 < base → y ≤ x / base → y * base ≤ x
above base y x pos h = elim (dec_lt x (y * base)) [
  | yes lt ↦ absurd (omega (arith, (div-lt_iff_lt-mul pos).1 lt))
  | no ge ↦ omega arith
]

fill_buf-Filled :
    (room base x : ℕ)
    → 2 ≤ base
    → base ≤ 16
    → (room ≡ 0 → 0 < x)
    → Filled room base x (fill_buf room base x)
unfolding fill_buf Filled
fill_buf-Filled zero base x lo hi pos =
    inr (subst (λ b. b ≤ x) (sym (pow-zero base)) (pos refl), refl)
fill_buf-Filled (suc room) base x lo hi pos = elim (ℕ_discrete (x / base) 0) [
  | yes last ↦
      let some_room = one-le-pow room base (omega arith) in
      rw last (
        inl (
          subst (λ b. x < b) (sym (pow-suc base room))
              (below base (base ^ room) x (omega arith) (omega arith)),
          digit (x % base) ∷ [],
          refl,
          last_digit base x [] lo hi (sym last),
          omega arith,
        ))
  | no more ↦ elim (fill_buf-Filled room base (x / base) lo hi (λ _. omega arith)) [
    | inl (lt, cs, e, v, short) ↦
        rw (ne→==false more, e)
          (inl (
            subst (λ b. x < b) (sym (pow-suc base room))
                (below base (base ^ room) x (omega arith) lt),
            digit (x % base) ∷ cs,
            refl,
            last_digit base x cs lo hi v,
            omega arith,
          ))
    | inr (ge, e) ↦
        rw (ne→==false more, e)
          (inr (
            subst (λ b. b ≤ x) (sym (pow-suc base room))
                (above base (base ^ room) x (omega arith) ge),
            refl,
          ))
  ]
]

-- The number that digits with the first one first add to what has been read, `n`.
abbrev pub read : ℕ → ℕ → List ℕ → ℕ
read base n [] = n
read base n (c ∷ cs) = read base (n * base + digit_value c) cs

read-backwards :
    (base : ℕ) (cs out : List ℕ) → read base 0 (backwards cs out) ≡ read base (value base cs) out
unfolding backwards
read-backwards base [] out = refl
read-backwards base (c ∷ cs) out = read-backwards base cs (c ∷ out)

length-backwards : (cs out : List ℕ) → length (backwards cs out) ≡ length cs + length out
unfolding backwards
length-backwards [] out = omega arith
length-backwards (c ∷ cs) out = omega (arith, length-backwards cs (c ∷ out))

-- `printint` of an unsigned number, in a base up to 16: if the number has at most 16 digits, they are
-- printed, and read as digits they give the number; if it has more, `printint` writes behind the end
-- of its buffer.
pub printint-unsigned :
    (base x : ℕ)
    → 2 ≤ base
    → base ≤ 16
    → (x < base ^ 16
        → (out : List ℕ) × (printint x base false ≡ some out)
          × (read base 0 out ≡ x)
          × (length out ≤ 16))
      × (base ^ 16 ≤ x → printint x base false ≡ none)
unfolding printint print_magnitude Filled
printint-unsigned base x lo hi =
    elim (fill_buf-Filled buf_size base x lo hi (λ e. absurd (omega arith))) [
      | inl (lt, buf, e, v, short) ↦ (
        λ fits. (
          backwards buf [],
          rw (print_magnitude, e),
          read-backwards base buf [] ∙ v,
          omega (arith, length-backwards buf []),
        ),
        λ big. absurd (omega (arith, lt, big)),
      )
      | inr (ge, e) ↦ ((λ fits. absurd (omega (arith, ge, fits))), λ big. rw (print_magnitude, e))
    ]

abbrev AllDecimal : List ℕ → Type 0
AllDecimal [] = Unit
AllDecimal (c ∷ cs) = (48 ≤ c) × (c ≤ 57) × AllDecimal cs

fill_buf-AllDecimal : (room x : ℕ) (cs : List ℕ) → fill_buf room 10 x ≡ some cs → AllDecimal cs
unfolding fill_buf
fill_buf-AllDecimal zero x cs h = cc
fill_buf-AllDecimal (suc room) x cs h =
    let low : 48 ≤ digit (x % 10) = ground arith in
    let high : digit (x % 10) ≤ 57 = ground arith in
    elim (ℕ_discrete (x / 10) 0) [
      | yes last ↦ subst AllDecimal (some-eq (rw (fill_buf, last) at h)) (low, high, tt)
      | no more ↦ elim (Option-cases (fill_buf room 10 (x / 10))) [
        | inl over ↦ cc (rw (fill_buf, ne→==false more, over) at h)
        | inr (ds, e) ↦
            subst AllDecimal (some-eq (rw (fill_buf, ne→==false more, e) at h))
              (low, high, fill_buf-AllDecimal room (x / 10) ds e)
      ]
    ]

atoi-backwards :
    (cs out : List ℕ)
    → AllDecimal cs
    → value 10 cs < 2 ^ 31
    → atoi_loop 0 (backwards cs out) ≡ atoi_loop (value 10 cs) out
unfolding backwards atoi_loop
atoi-backwards [] out all lt = refl
atoi-backwards (c ∷ cs) out (lo, hi, all) lt =
    let decimal : (leb 48 c && leb c 57) ≡ true = ground arith in
    let is : digit_value c ≡ c - 48 = ground arith in
    atoi-backwards cs (c ∷ out) all (omega arith)
    ∙ rw (atoi_loop, decimal) (ap (λ n. atoi_loop n out) (omega (arith, is)))

-- `atoi` reads back what `printint` prints in base 10 of an `int` that is not negative.
pub atoi-printint :
    (x : ℕ) → x < 2 ^ 31 → (out : List ℕ) × (printint x 10 true ≡ some out) × (atoi out ≡ x)
unfolding printint print_magnitude atoi atoi_loop Filled
atoi-printint x lt =
    elim (fill_buf-Filled buf_size 10 x (omega arith) (omega arith) (λ e. absurd (omega arith))) [
      | inl (small, buf, e, v, short) ↦
          let plus : (true && leb (2 ^ 63) x) ≡ false = ground arith in
          (
            backwards buf [],
            ap (λ b. print_magnitude b 10 (if b then 2 ^ 64 - x else x)) plus
                ∙ rw (print_magnitude, e),
            atoi-backwards buf [] (fill_buf-AllDecimal buf_size x buf e) (omega (arith, v)) ∙ v,
          )
      | inr (ge, e) ↦ absurd (omega (arith, ge, lt))
    ]
