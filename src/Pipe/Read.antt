-- ===== src/Pipe/Read.antt =====
-- `piperead` takes the oldest bytes, in order.
use native.Mathlib.Nat.{zero-add}
use team.Common.{
  ℕ, zero, suc, ◌+◌, ◌≤◌, ◌≡◌, refl, ap, ◌∙◌, Bool, true, List, [], ◌∷◌, ◌++◌, ◌⊎◌, inl, inr, arith,
  ◌==◌, ◌&&◌, if◌then◌else◌, length, Bool-cases,
}
use team.Pipe.{Pipe, returned, failed, asleep, nwrite_chan, get_byte, read_loop, piperead}
use team.Pipe.Contents.{contents, held, window, IsValid, contents-get_byte}
use team.Pipe.Write.{wake-IsValid}

-- What the loop has done from byte `i` on, when every byte can be stored: `out` was taken from the
-- front, as many as were asked for or all that there were.
record Took (k i : ℕ) (p : Pipe) (r : ℕ × List ℕ × Pipe) : Type 0 where
  front : contents p ≡ r.1 ++ contents r.2
  counted : r.0 ≡ i + length r.1
  valid : IsValid r.2
  enough : (length r.1 ≡ k) ⊎ ((length r.1 ≤ k) × (contents r.2 ≡ []))

module _ (killed : Bool) (copyout : ℕ → Bool) (addr : ℕ) (stores : (a : ℕ) → copyout a ≡ true) where
  drained : (p : Pipe) → IsValid p → p.nread ≡ p.nwrite → contents p ≡ []
  unfolding window
  drained p v e =
      let none_held : held p ≡ 0 = omega (arith, v) in ap (window p.buf p.nread) none_held

  read_loop-Took :
      (k i : ℕ) (p : Pipe) → IsValid p → Took k i p (read_loop killed copyout addr k i p)
  unfolding read_loop
  read_loop-Took zero i p v = record {
    front = refl;
    counted = omega arith;
    valid = v;
    enough = inl refl;
  }
  read_loop-Took (suc k) i p v = elim (Bool-cases (p.nread == p.nwrite)) [
    | inl empty ↦ rw empty (record {
      front = refl;
      counted = omega arith;
      valid = v;
      enough = inr (omega arith, drained p v (ground arith));
    })
    | inr some_byte ↦
        let (first, v') = contents-get_byte p v (ground arith) in
        let t = read_loop-Took k (suc i) (get_byte p).1 v' in
        rw (some_byte, stores (addr + i))
          (record {
            front = first ∙ ap (λ c. (get_byte p).0 ∷ c) t.front;
            counted = omega (arith, t.counted);
            valid = t.valid;
            enough = ground (arith, t.enough);
          })
  ]

-- `piperead` of `n` bytes from a valid pipe, when every byte can be stored: either the pipe is empty
-- and open for writing, and the call sleeps, or fails if the caller is killed, changing nothing; or
-- it returns the number of bytes stored, which were at the front of the pipe, as many as asked for
-- or all of them, and leaves the others in a valid pipe.
pub piperead-cases :
    (killed : Bool) (copyout : ℕ → Bool) (addr n : ℕ) (p : Pipe)
    → IsValid p
    → ((a : ℕ) → copyout a ≡ true)
    → let (e, out, q) = piperead killed copyout addr n p in
      ((p.nread ≡ p.nwrite)
        × (p.writeopen ≡ true)
        × (e ≡ (if killed then failed else asleep 0))
        × (q ≡ p))
      ⊎ ((e ≡ returned (length out))
          × (contents p ≡ out ++ contents q)
          × IsValid q
          × ((length out ≡ n) ⊎ ((length out ≤ n) × (contents q ≡ []))))
unfolding piperead
piperead-cases killed copyout addr n p v stores =
    elim (Bool-cases (p.nread == p.nwrite && p.writeopen)) [
      | inl waits ↦ inl (ground arith)
      | inr goes ↦
          let t = read_loop-Took killed copyout addr stores n 0 p v in
          rw goes (
            inr (
              ap returned (t.counted ∙ zero-add _),
              t.front,
              wake-IsValid nwrite_chan _ t.valid,
              t.enough,
            ))
    ]
