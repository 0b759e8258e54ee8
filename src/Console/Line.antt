-- ===== src/Console/Line.antt =====
-- What the interrupt handler of console.c does to the input that is complete.
use team.Common.{
  ℕ, zero, suc, ◌+◌, ◌-◌, ◌%◌, ◌^◌, ◌≤◌, ◌<◌, ◌≡◌, refl, ◌≢◌, ap, ap₂, ◌∙◌, some, List, [], ◌∷◌,
  ◌++◌, arith, ◌==◌, ◌&&◌, ◌||◌, not, ltb, ◌⊎◌, inl, inr, Bool-cases,
}
use team.Common.Family.{update, update_ne}
use team.Console.{
  Cons, input_buf_size, newline, ctrl_d, erase, kill_line, store, normal, consoleintr,
}

-- The distance between two indices.
abbrev pub from_to : ℕ → ℕ → ℕ
from_to a b = (b + 2 ^ 32 - a) % 2 ^ 32

-- The `n` bytes from index `a` on.
unfoldable pub window : (ℕ → ℕ) → ℕ → ℕ → List ℕ
window buf a zero = []
window buf a (suc n) = buf (a % input_buf_size) ∷ window buf ((a + 1) % 2 ^ 32) n

-- The input that reads can have, and all input.
abbrev pub complete : Cons → List ℕ
complete s = window s.buf s.r (from_to s.r s.w)

abbrev pub input : Cons → List ℕ
input s = window s.buf s.r (from_to s.r s.e)

-- The indices are in order, at most the ring apart.
pub record IsValid (s : Cons) : Type 0 where
  pub r_in : s.r < 2 ^ 32
  pub w_in : s.w < 2 ^ 32
  pub e_in : s.e < 2 ^ 32
  pub order : from_to s.r s.w ≤ from_to s.r s.e
  pub room : from_to s.r s.e ≤ input_buf_size

-- A byte stored behind `n` bytes, fewer than the ring holds.
window-store :
    (buf : ℕ → ℕ) (a n c : ℕ)
    → a < 2 ^ 32
    → n < input_buf_size
    → window (update buf ((a + n) % 2 ^ 32 % input_buf_size) c) a (suc n) ≡ window buf a n ++ c ∷ []
unfolding window
window-store buf a zero c ha hn = ap (λ x. x ∷ []) (ground arith)
window-store buf a (suc n) c ha hn =
    ap₂ ◌∷◌
      (update_ne buf ((a + suc n) % 2 ^ 32 % input_buf_size) c (a % input_buf_size) (omega arith))
      (ap (λ i. window (update buf (i % input_buf_size) c) ((a + 1) % 2 ^ 32) (suc n))
          {x = (a + suc n) % 2 ^ 32} {y = ((a + 1) % 2 ^ 32 + n) % 2 ^ 32} (omega arith)
        ∙ window-store buf ((a + 1) % 2 ^ 32) n c (omega arith) (omega arith))

-- The bytes before it stay.
window-before :
    (buf : ℕ → ℕ) (a m n c : ℕ)
    → a < 2 ^ 32
    → m ≤ n
    → n < input_buf_size
    → window (update buf ((a + n) % 2 ^ 32 % input_buf_size) c) a m ≡ window buf a m
unfolding window
window-before buf a zero n c ha le hn = refl
window-before buf a (suc m) n c ha le hn =
    ap₂ ◌∷◌ (update_ne buf ((a + n) % 2 ^ 32 % input_buf_size) c (a % input_buf_size) (omega arith))
      (ap (λ i. window (update buf (i % input_buf_size) c) ((a + 1) % 2 ^ 32) m)
          {x = (a + n) % 2 ^ 32} {y = ((a + 1) % 2 ^ 32 + (n - 1)) % 2 ^ 32} (omega arith)
        ∙ window-before buf ((a + 1) % 2 ^ 32) m (n - 1) c (omega arith) (omega arith)
            (omega arith))

-- What one character does: the complete input stays, or becomes all input with the character.
pub record Typed (c : ℕ) (s s' : Cons) : Type 0 where
  pub valid : IsValid s'
  pub kept : (complete s' ≡ complete s) ⊎ (complete s' ≡ input s ++ normal c ∷ [])
  pub reader : s'.r ≡ s.r

erase-IsValid :
    (s : Cons)
    → IsValid s
    → s.e ≢ s.w
    → IsValid (erase s) × (from_to s.w s.e ≡ suc (from_to s.w (erase s).e))
unfolding erase
erase-IsValid s v ne = (
  record {
    r_in = v.r_in;
    w_in = v.w_in;
    e_in = omega arith;
    order = omega (arith, v);
    room = omega (arith, v);
  },
  omega (arith, v),
)

erase-Typed : (c : ℕ) (s : Cons) → IsValid s → s.e ≢ s.w → Typed c s (erase s)
unfolding erase
erase-Typed c s v ne = record { valid = (erase-IsValid s v ne).0; kept = inl refl; reader = refl }

kill_line-ends :
    (f : ℕ) (s : Cons)
    → from_to s.w s.e < f
    → IsValid s
    → (s' : Cons) × (kill_line f s ≡ some s')
      × IsValid s'
      × (complete s' ≡ complete s)
      × (s'.r ≡ s.r)
unfolding kill_line erase
kill_line-ends zero s fuel v = absurd (omega arith)
kill_line-ends (suc f) s fuel v =
    elim (Bool-cases
      (s.e == s.w || s.buf ((s.e + 2 ^ 32 - 1) % 2 ^ 32 % input_buf_size) == newline)) [
        | inl stop ↦ (s, rw stop, v, refl, refl)
        | inr more ↦
            let (v', fewer) = erase-IsValid s v (ground arith) in
            let (s', eq, v'', same, reader) = kill_line-ends f (erase s) (omega arith) v' in
            (s', rw more eq, v'', same, reader)
      ]

store-Typed :
    (c : ℕ) (s : Cons)
    → IsValid s
    → from_to s.r s.e < input_buf_size
    → Typed c s (store (normal c) s)
unfolding store
store-Typed c s v room =
    let d : ℕ = normal c in
    let at : s.e ≡ (s.r + from_to s.r s.e) % 2 ^ 32 = omega (arith, v) in
    let longer : from_to s.r ((s.e + 1) % 2 ^ 32) ≡ suc (from_to s.r s.e) = omega (arith, v) in
    let all =
      ap (window (update s.buf (s.e % input_buf_size) d) s.r) longer
      ∙ ap (λ i. window (update s.buf (i % input_buf_size) d) s.r (suc (from_to s.r s.e))) at
      ∙ window-store s.buf s.r (from_to s.r s.e) d v.r_in room in
    let before =
      ap (λ i. window (update s.buf (i % input_buf_size) d) s.r (from_to s.r s.w)) at
      ∙ window-before s.buf s.r (from_to s.r s.w) (from_to s.r s.e) d v.r_in v.order room in
    elim (Bool-cases
      (d == newline || d == ctrl_d || from_to s.r ((s.e + 1) % 2 ^ 32) == input_buf_size)) [
        | inl line ↦ rw line (record {
          valid = record {
            r_in = v.r_in;
            w_in = omega arith;
            e_in = omega arith;
            order = omega arith;
            room = omega (arith, longer);
          };
          kept = inr all;
          reader = refl;
        })
        | inr more ↦ rw more (record {
          valid = record {
            r_in = v.r_in;
            w_in = v.w_in;
            e_in = omega arith;
            order = omega (arith, v.order, longer);
            room = omega (arith, longer);
          };
          kept = inl before;
          reader = refl;
        })
      ]

same-Typed : (c : ℕ) (s : Cons) → IsValid s → Typed c s s
same-Typed c s v = record { valid = v; kept = inl refl; reader = refl }

-- `consoleintr` of any character on a ring whose indices are in order ends, and keeps them in order.
-- The input that reads can have stays as it is, or becomes all input with the character behind it,
-- a carriage return turned into a newline: editing never reaches a line that is complete.
pub consoleintr-Typed :
    (c : ℕ) (s : Cons) → IsValid s → (s' : Cons) × (consoleintr c s ≡ some s') × Typed c s s'
unfolding consoleintr
consoleintr-Typed c s v = elim (Bool-cases (c == 16)) [
  | inl list ↦ (s, rw list, same-Typed c s v)
  | inr a ↦ elim (Bool-cases (c == 21)) [
    | inl kill ↦
        let (s', eq, v', same, reader) =
          kill_line-ends (input_buf_size + 1) s (omega (arith, v)) v in
        (s', rw (a, kill) eq, record { valid = v'; kept = inl same; reader = reader })
    | inr b ↦ elim (Bool-cases (c == 8 || c == 127)) [
      | inl back ↦ elim (Bool-cases (s.e == s.w)) [
        | inl none_left ↦ (s, rw (a, b, back, none_left), same-Typed c s v)
        | inr some_left ↦ (erase s, rw (a, b, back, some_left), erase-Typed c s v (ground arith))
      ]
      | inr d ↦ elim (Bool-cases (not (c == 0) && ltb (from_to s.r s.e) input_buf_size)) [
        | inl fits ↦ (store (normal c) s, rw (a, b, d, fits), store-Typed c s v (ground arith))
        | inr full ↦ (s, rw (a, b, d, full), same-Typed c s v)
      ]
    ]
  ]
]
