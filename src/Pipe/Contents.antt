-- ===== src/Pipe/Contents.antt =====
-- The bytes that a pipe holds, oldest first, and what one byte written or read does to them.
use team.Common.{
  ℕ, zero, suc, ◌+◌, ◌-◌, ◌%◌, ◌^◌, ◌≤◌, ◌<◌, ◌≡◌, refl, ◌≢◌, ap, ap₂, ◌∙◌, false, List, [], ◌∷◌,
  ◌++◌, arith, length,
}
use team.Common.Family.{update, update_ne}
use team.Pipe.{Pipe, pipesize, add_uint, put_byte, get_byte, is_full}

-- The number of bytes held.
abbrev pub held : Pipe → ℕ
held p = (p.nwrite + 2 ^ 32 - p.nread) % 2 ^ 32

-- The `n` bytes from the counter value `r` on.
unfoldable pub window : (ℕ → ℕ) → ℕ → ℕ → List ℕ
window buf r zero = []
window buf r (suc n) = buf (r % pipesize) ∷ window buf (add_uint r 1) n

abbrev pub contents : Pipe → List ℕ
contents p = window p.buf p.nread (held p)

pub record IsValid (p : Pipe) : Type 0 where
  pub read_in : p.nread < 2 ^ 32
  pub write_in : p.nwrite < 2 ^ 32
  pub room : held p ≤ pipesize

pub length-window : (buf : ℕ → ℕ) (r n : ℕ) → length (window buf r n) ≡ n
unfolding window
length-window buf r zero = refl
length-window buf r (suc n) = ap suc (length-window buf (add_uint r 1) n)

-- A byte written behind a window of fewer than PIPESIZE bytes extends it.
window-update :
    (buf : ℕ → ℕ) (r n w ch : ℕ)
    → r < 2 ^ 32
    → n < pipesize
    → w ≡ (r + n) % 2 ^ 32
    → window (update buf (w % pipesize) ch) r (suc n) ≡ window buf r n ++ ch ∷ []
unfolding window
window-update buf r zero w ch hr hn e = ap (λ c. c ∷ []) (ground arith)
window-update buf r (suc n) w ch hr hn e =
    ap₂ ◌∷◌ (update_ne buf (w % pipesize) ch (r % pipesize) (omega arith))
      (window-update buf (add_uint r 1) n w ch (omega arith) (omega arith) (omega arith))

pub not_full : (p : Pipe) → IsValid p → is_full p ≡ false → held p < pipesize
unfolding is_full
not_full p v h = ground arith

-- Writing a byte into a pipe that is not full adds it at the end.
pub contents-put_byte :
    (ch : ℕ) (p : Pipe)
    → IsValid p
    → is_full p ≡ false
    → (contents (put_byte ch p) ≡ contents p ++ ch ∷ []) × IsValid (put_byte ch p)
unfolding put_byte
contents-put_byte ch p v h =
    let more : held (put_byte ch p) ≡ suc (held p) = omega (arith, v, not_full p v h) in
    (
      ap (window (update p.buf (p.nwrite % pipesize) ch) p.nread) more
          ∙ window-update p.buf p.nread (held p) p.nwrite ch v.read_in (not_full p v h)
              (omega (arith, v)),
      record {
        read_in = v.read_in;
        write_in = omega arith;
        room = omega (arith, more, not_full p v h);
      },
    )

-- Reading a byte from a pipe that is not empty takes the oldest.
pub contents-get_byte :
    (p : Pipe)
    → IsValid p
    → p.nread ≢ p.nwrite
    → let (ch, q) = get_byte p in (contents p ≡ ch ∷ contents q) × IsValid q
unfolding get_byte window
contents-get_byte p v ne =
    let fewer : held p ≡ suc (held (get_byte p).1) = omega (arith, v) in
    (
      ap (window p.buf p.nread) fewer,
      record { read_in = omega arith; write_in = v.write_in; room = omega (arith, fewer, v.room) },
    )
