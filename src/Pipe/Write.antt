-- ===== src/Pipe/Write.antt =====
-- `pipewrite` appends what it reports, in order.
use mathlib.Core.List.{append-nil, append_assoc}
use mathlib.Core.Bool.{true≢false}
use team.Common.{
  ℕ, zero, suc, ◌+◌, ◌-◌, ◌<◌, false, ℕ_discrete, ◌≡◌, refl, ap, sym, ◌∙◌, Bool, true, Option, none,
  some, List, [], ◌∷◌, ◌++◌, inl, inr, arith, ◌||◌, not, length, Bool-cases, Option-cases,
}
use team.Pipe.{
  Pipe, Chan, Ended, returned, failed, asleep, nread_chan, wake, put_byte, is_full, write_loop,
  pipewrite,
}
use team.Pipe.Contents.{contents, IsValid, contents-put_byte}

-- The bytes of user memory from byte `i` on, `m` of them or up to the first that cannot be read.
unfoldable pub source : (ℕ → Option ℕ) → ℕ → ℕ → ℕ → List ℕ
source copyin addr i zero = []
source copyin addr i (suc m) = elim (copyin (addr + i)) [
  | none ↦ []
  | some ch ↦ ch ∷ source copyin addr (suc i) m
]

-- Why a run of the loop from byte `i`, with `k` bytes left, has ended after `m` of them.
pub data Why (killed : ℕ → Bool) (copyin : ℕ → Option ℕ) (addr i k m : ℕ) (p : Pipe)
    (r : Ended × Pipe) : Type 0 where
  all_moved : m ≡ k → r.0 ≡ returned (i + m) → Why killed copyin addr i k m p r
  fault :
      m < k
      → copyin (addr + (i + m)) ≡ none
      → r.0 ≡ returned (i + m)
      → Why killed copyin addr i k m p r
  full : m < k → is_full r.1 ≡ true → r.0 ≡ asleep (i + m) → Why killed copyin addr i k m p r
  no_reader : m ≡ 0 → 0 < k → p.readopen ≡ false → r.0 ≡ failed → Why killed copyin addr i k m p r
  dead : m < k → killed (i + m) ≡ true → r.0 ≡ failed → Why killed copyin addr i k m p r

-- What a run of the loop from byte `i`, with `k` bytes left, has done: `moved` was appended, and the
-- process was alive and the read end open whenever a byte was moved.
pub record Wrote (killed : ℕ → Bool) (copyin : ℕ → Option ℕ) (addr i k : ℕ) (p : Pipe)
    (r : Ended × Pipe) : Type 0 where
  pub moved : List ℕ
  pub from_source : source copyin addr i (length moved) ≡ moved
  pub appended : contents r.1 ≡ contents p ++ moved
  pub valid : IsValid r.1
  pub alive : (j : ℕ) → j < length moved → (killed (i + j) ≡ false) × (p.readopen ≡ true)
  pub why : Why killed copyin addr i k (length moved) p r

pub wake-IsValid : (c : Chan) (p : Pipe) → IsValid p → IsValid (wake c p)
wake-IsValid c p v = record { read_in = v.read_in; write_in = v.write_in; room = v.room }

is_full-wake : (c : Chan) (p : Pipe) → is_full (wake c p) ≡ is_full p
unfolding is_full
is_full-wake c p = refl

readopen-put_byte : (ch : ℕ) (p : Pipe) → (put_byte ch p).readopen ≡ p.readopen
unfolding put_byte
readopen-put_byte ch p = refl

module _ (killed : ℕ → Bool) (copyin : ℕ → Option ℕ) (addr : ℕ) where
  stopped :
      (i k : ℕ) (e : Ended) (p q : Pipe)
      → IsValid q
      → contents q ≡ contents p
      → Why killed copyin addr i k 0 p (e, q)
      → Wrote killed copyin addr i k p (e, q)
  unfolding source
  stopped i k e p q v same why = record {
    moved = [];
    from_source = refl;
    appended = same ∙ sym (append-nil _);
    valid = v;
    alive = λ j lt. absurd (omega arith);
    why = why;
  }

  -- One byte more in front.
  later :
      (i k m ch : ℕ) (p : Pipe) (r : Ended × Pipe)
      → p.readopen ≡ true
      → Why killed copyin addr (suc i) k m (put_byte ch p) r
      → Why killed copyin addr i (suc k) (suc m) p r
  later i k m ch p r opened why =
      let place : suc i + m ≡ i + suc m = omega arith in
      elim why [
        | all_moved all e ↦ all_moved (omega arith) (e ∙ ap returned place)
        | fault lt bad e ↦ fault (omega arith) (rw place at bad) (e ∙ ap returned place)
        | full lt f e ↦ full (omega arith) f (e ∙ ap asleep place)
        | no_reader none_moved some_left shut e ↦
            absurd (true≢false (sym opened ∙ sym (readopen-put_byte ch p) ∙ shut))
        | dead lt gone e ↦ dead (omega arith) (rw place at gone) e
      ]

  write_loop-Wrote :
      (k i : ℕ) (p : Pipe)
      → IsValid p
      → Wrote killed copyin addr i k p (write_loop killed copyin addr k i p)
  unfolding write_loop source
  write_loop-Wrote zero i p v =
      stopped i 0 (returned i) p (wake nread_chan p) (wake-IsValid nread_chan p v) refl
        (all_moved refl (ap returned (omega arith)))
  write_loop-Wrote (suc k) i p v =
      let here : i + 0 ≡ i = omega arith in
      elim (Bool-cases p.readopen) [
        | inr shut ↦
            let tested : (not p.readopen || killed i) ≡ true = ground (arith, shut) in
            rw tested (stopped i (suc k) failed p p v refl (no_reader refl (omega arith) shut refl))
        | inl opened ↦ elim (Bool-cases (killed i)) [
          | inl gone ↦
              let tested : (not p.readopen || killed i) ≡ true = ground (arith, gone) in
              rw tested (
                stopped i (suc k) failed p p v refl
                  (dead (omega arith) (ap killed here ∙ gone) refl))
          | inr alive ↦
              let tested : (not p.readopen || killed i) ≡ false = ground (arith, opened, alive) in
              elim (Bool-cases (is_full p)) [
                | inl f ↦
                    rw (tested, f)
                      (stopped i (suc k) (asleep i) p (wake nread_chan p)
                        (wake-IsValid nread_chan p v) refl
                        (full (omega arith) (is_full-wake nread_chan p ∙ f) (ap asleep (sym here))))
                | inr room ↦ elim (Option-cases (copyin (addr + i))) [
                  | inl bad ↦
                      rw (tested, room, bad)
                        (stopped i (suc k) (returned i) p (wake nread_chan p)
                          (wake-IsValid nread_chan p v) refl
                          (fault (omega arith) (ap (λ j. copyin (addr + j)) here ∙ bad)
                            (ap returned (sym here))))
                  | inr (ch, at) ↦
                      let (more, v') = contents-put_byte ch p v room in
                      let w = write_loop-Wrote k (suc i) (put_byte ch p) v' in
                      rw (tested, room, at)
                        (record {
                          moved = ch ∷ w.moved;
                          from_source = rw at (ap (λ c. ch ∷ c) w.from_source);
                          appended =
                              w.appended
                              ∙ ap (λ c. c ++ w.moved) more
                              ∙ append_assoc (contents p) (ch ∷ []) w.moved;
                          valid = w.valid;
                          alive = λ j lt. elim (ℕ_discrete j 0) [
                            | yes first ↦
                                (ap (λ x. killed (i + x)) first ∙ ap killed here ∙ alive, opened)
                            | no other ↦
                                let place : suc i + (j - 1) ≡ i + j = omega arith in
                                (sym (ap killed place) ∙ (w.alive (j - 1) (omega arith)).0, opened)
                          ];
                          why = later i k (length w.moved) ch p _ opened w.why;
                        })
                ]
              ]
        ]
      ]

-- `pipewrite` of `n` bytes to a valid pipe leaves a valid pipe that holds what it held and then the
-- bytes moved, which are the first ones of the caller's buffer, all while the read end was open and
-- the caller alive. It has moved all of them, or come to one that cannot be read, and returns their
-- number; or it sleeps with their number on a pipe that is full; or it fails, when the read end is
-- closed, before it moves any, or when the caller is killed, which may be after some are moved.
pub pipewrite-Wrote :
    (killed : ℕ → Bool) (copyin : ℕ → Option ℕ) (addr n : ℕ) (p : Pipe)
    → IsValid p
    → Wrote killed copyin addr 0 n p (pipewrite killed copyin addr n p)
unfolding pipewrite
pipewrite-Wrote killed copyin addr n p v = write_loop-Wrote killed copyin addr n 0 p v
