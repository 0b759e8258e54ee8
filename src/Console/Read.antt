-- ===== src/Console/Read.antt =====
-- Reads of console.c take the complete input in order.
use team.Common.{
  ℕ, zero, suc, ◌+◌, ◌-◌, ◌%◌, ◌^◌, ◌≤◌, ◌<◌, ◌≡◌, [], if◌then◌else◌, ℕ_discrete, ne→==false, refl,
  ◌≢◌, ap, ◌∙◌, Bool, true, List, ◌∷◌, ◌++◌, arith, ◌==◌, ltb, inl, inr, length, Bool-cases,
}
use team.Console.{Cons, input_buf_size, newline, ctrl_d, Ended, returned, failed, asleep, read_loop}
use team.Console.Line.{IsValid, complete, window, from_to}

-- Bytes before which a read does not stop: no control-D, and a newline at most at the end.
abbrev pub Plain : List ℕ → Type 0
Plain [] = Unit
Plain (c ∷ []) = c ≢ ctrl_d
Plain (c ∷ d ∷ cs) = (c ≢ ctrl_d) × (c ≢ newline) × Plain (d ∷ cs)

-- Why a read with `n` of `target` bytes left has ended, from the complete input `input`, with the
-- bytes `out` stored and the complete input `rest` left: every byte is read; a line is read to its
-- newline; a control-D is next, which stays for the next read as some bytes are read already; a
-- control-D is next and is taken, as none are; or there is no input left.
pub data Why (killed : Bool) (target n : ℕ) (input out rest : List ℕ) (e : Ended) : Type 0 where
  all_read :
      length out ≡ n
      → input ≡ out ++ rest
      → e ≡ returned target
      → Why killed target n input out rest e
  line :
      (ys : List ℕ)
      → out ≡ ys ++ newline ∷ []
      → input ≡ out ++ rest
      → e ≡ returned (target - (n - length out))
      → Why killed target n input out rest e
  end_kept :
      (cs : List ℕ)
      → rest ≡ ctrl_d ∷ cs
      → length out < n
      → n - length out < target
      → input ≡ out ++ rest
      → e ≡ returned (target - (n - length out))
      → Why killed target n input out rest e
  end_taken :
      out ≡ []
      → n ≡ target
      → 0 < n
      → input ≡ ctrl_d ∷ rest
      → e ≡ returned 0
      → Why killed target n input out rest e
  no_input :
      rest ≡ []
      → length out < n
      → input ≡ out ++ rest
      → e ≡ (if killed then failed else asleep (n - length out))
      → Why killed target n input out rest e

-- What a read has done.
pub record Took (killed : Bool) (target : ℕ) (s : Cons) (n : ℕ) (r : Ended × List ℕ × Cons)
    : Type 0 where
  pub why : Why killed target n (complete s) r.1 (complete r.2) r.0
  pub plain : Plain r.1
  pub valid : IsValid r.2
  pub within : length r.1 ≤ n

-- The oldest byte of complete input.
next_byte :
    (s : Cons)
    → IsValid s
    → s.r ≢ s.w
    → let s1 : Cons = record s { r = (s.r + 1) % 2 ^ 32 } in
      (complete s ≡ s.buf (s.r % input_buf_size) ∷ complete s1) × IsValid s1
unfolding window
next_byte s v ne =
    let fewer : from_to s.r s.w ≡ suc (from_to ((s.r + 1) % 2 ^ 32) s.w) = omega (arith, v) in
    (
      ap (window s.buf s.r) fewer,
      record {
        r_in = omega arith;
        w_in = v.w_in;
        e_in = v.e_in;
        order = omega (arith, v);
        room = omega (arith, v);
      },
    )

Plain-cons : (c : ℕ) (cs : List ℕ) → c ≢ ctrl_d → c ≢ newline → Plain cs → Plain (c ∷ cs)
Plain-cons c [] nd nn p = nd
Plain-cons c (d ∷ cs) nd nn p = (nd, nn, p)

-- No byte is complete.
nothing_complete : (s : Cons) → IsValid s → (s.r == s.w) ≡ true → complete s ≡ []
unfolding window
nothing_complete s v e =
    let none_left : from_to s.r s.w ≡ 0 = ground (arith, e) in ap (window s.buf s.r) none_left

-- One byte more in front, which does not end the read.
Why-cons :
    (killed : Bool) (target k c : ℕ) (input input' out rest : List ℕ) (e : Ended)
    → suc k ≤ target
    → input ≡ c ∷ input'
    → Why killed target k input' out rest e
    → Why killed target (suc k) input (c ∷ out) rest e
Why-cons killed target k c input input' out rest e le first why =
    let same : k - length out ≡ suc k - length (c ∷ out) = omega arith in
    elim why [
      | all_read len eq end ↦ all_read (ap suc len) (first ∙ ap (λ l. c ∷ l) eq) end
      | line ys is eq end ↦
          line (c ∷ ys) (ap (λ l. c ∷ l) is) (first ∙ ap (λ l. c ∷ l) eq)
            (end ∙ ap (λ x. returned (target - x)) same)
      | end_kept cs is lt lt' eq end ↦
          end_kept cs is (omega arith) (omega arith) (first ∙ ap (λ l. c ∷ l) eq)
            (end ∙ ap (λ x. returned (target - x)) same)
      | end_taken none_read whole pos eq end ↦ absurd (omega arith)
      | no_input is lt eq end ↦
          no_input is (omega arith) (first ∙ ap (λ l. c ∷ l) eq)
            (end ∙ ap (λ x. if killed then failed else asleep x) same)
    ]

module _ (killed : Bool) (copyout : ℕ → Bool) (target : ℕ)
    (stores : (a : ℕ) → copyout a ≡ true) where
  -- `consoleread` of `target` bytes with `n` left, on a ring whose indices are in order, when every
  -- byte can be stored. The bytes that it stores were the first ones of the complete input; none is a
  -- control-D, and none but the last a newline. It ends when `n` bytes are stored; or behind a
  -- newline; or at a control-D, which it takes only if no byte is stored of all `target`; and returns
  -- the number of bytes stored. Or no complete input is left: then it fails if the caller is killed,
  -- and sleeps if not. The indices stay in order.
  pub read_loop-Took :
      (n dst : ℕ) (s : Cons)
      → IsValid s
      → n ≤ target
      → Took killed target s n (read_loop killed copyout target n dst s)
  unfolding read_loop
  read_loop-Took zero dst s v le = record {
    why = all_read refl refl refl;
    plain = tt;
    valid = v;
    within = omega arith;
  }
  read_loop-Took (suc k) dst s v le = elim (Bool-cases (s.r == s.w)) [
    | inl empty ↦ rw empty (record {
      why =
          let none_left = nothing_complete s v empty in
          elim (Bool-cases killed) [
            | inl dead ↦ rw dead (no_input none_left (omega arith) refl refl)
            | inr alive ↦ rw alive (no_input none_left (omega arith) refl (ap asleep (omega arith)))
          ];
      plain = tt;
      valid = v;
      within = omega arith;
    })
    | inr some_byte ↦
        let (first, v1) = next_byte s v (ground arith) in
        let s1 : Cons = record s { r = (s.r + 1) % 2 ^ 32 } in
        elim (ℕ_discrete (s.buf (s.r % input_buf_size)) ctrl_d) [
          | yes eof ↦
              let tested : (s.buf (s.r % input_buf_size) == ctrl_d) ≡ true = ground (arith, eof) in
              let front : complete s ≡ ctrl_d ∷ complete s1 =
                first ∙ ap (λ c. c ∷ complete s1) eof in
              elim (Bool-cases (ltb (suc k) target)) [
                | inl partial ↦
                    let back : (s1.r + 2 ^ 32 - 1) % 2 ^ 32 ≡ s.r = omega (arith, v) in
                    rw (some_byte, tested, partial, back)
                      (record {
                        why =
                            end_kept (complete s1) front (omega arith) (ground (arith, partial))
                              refl (ap (λ x. returned (target - x)) (omega arith));
                        plain = tt;
                        valid = v;
                        within = omega arith;
                      })
                | inr fresh ↦
                    let whole : suc k ≡ target = ground (arith, fresh) in
                    rw (some_byte, tested, fresh)
                      (record {
                        why = end_taken refl whole (omega arith) front (ap returned (omega arith));
                        plain = tt;
                        valid = v1;
                        within = omega arith;
                      })
              ]
          | no ordinary ↦ elim (ℕ_discrete (s.buf (s.r % input_buf_size)) newline) [
            | yes is ↦
                let tested : (s.buf (s.r % input_buf_size) == newline) ≡ true =
                  ground (arith, is) in
                rw (some_byte, ne→==false ordinary, stores dst, tested)
                  (record {
                    why =
                        line [] (ap (λ c. c ∷ []) is) first
                          (ap (λ x. returned (target - x)) (omega arith));
                    plain = ordinary;
                    valid = v1;
                    within = omega arith;
                  })
            | no more ↦
                let t = read_loop-Took k (dst + 1) s1 v1 (omega arith) in
                rw (some_byte, ne→==false ordinary, stores dst, ne→==false more)
                  (record {
                    why = Why-cons killed target k _ _ _ _ _ _ le first t.why;
                    plain = Plain-cons _ _ ordinary more t.plain;
                    valid = t.valid;
                    within = omega (arith, t.within);
                  })
          ]
        ]
  ]
