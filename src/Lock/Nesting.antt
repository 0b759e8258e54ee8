-- ===== src/Lock/Nesting.antt =====
-- `push_off` and `pop_off` are matched.
use team.Common.{
  ◌-◌, ◌<◌, ◌≡◌, refl, ◌∙◌, sym, subst, true, false, ◌==◌, ◌&&◌, if◌then◌else◌, arith,
}
use team.Common.Outcome.{Outcome, done, ◌>>=◌}
use team.Lock.{Cpu, push_off, pop_off}

-- Between a `push_off` and its `pop_off` interrupts are off.
abbrev pub IsValid : Cpu → Type 0
IsValid c = 0 < c.noff → c.intr ≡ false

-- Code between a `push_off` and its `pop_off`: nothing, or such a section and more code.
pub data Nested : Type 0 where
  nothing : Nested
  section : Nested → Nested → Nested

-- The interrupt state after the code.
unfoldable pub run : Nested → Cpu → Outcome Cpu
run nothing c = done c
run (section inner after) c = do c ← run inner (push_off c); c ← pop_off c; run after c

-- What is the same before and after balanced code: the depth, whether interrupts are on, and the
-- state to restore, where there is one.
pub record Same (c c' : Cpu) : Type 0 where
  pub noff : c'.noff ≡ c.noff
  pub intr : c'.intr ≡ c.intr
  pub intena : 0 < c.noff → c'.intena ≡ c.intena

pub data Balanced (c : Cpu) : Outcome Cpu → Type 0 where
  balanced : {c' : Cpu} → Same c c' → Balanced c (done c')

Same-trans : {a b c : Cpu} → Same a b → Same b c → Same a c
Same-trans p q = record {
  noff = q.noff ∙ p.noff;
  intr = q.intr ∙ p.intr;
  intena = λ h. q.intena (omega (arith, p.noff)) ∙ p.intena h;
}

push_off-IsValid : (c : Cpu) → IsValid (push_off c)
unfolding push_off
push_off-IsValid c h = refl

-- A `pop_off` that meets the state of its `push_off` undoes it.
pop-push : (c d : Cpu) → IsValid c → Same (push_off c) d → Balanced c (pop_off d)
unfolding push_off pop_off
pop-push c d v s =
    let popped : Cpu = record d {
      noff = d.noff - 1;
      intr = if d.noff - 1 == 0 && d.intena then true else d.intr;
    } in
    let restore = s.intena (omega arith) in
    let ends : pop_off d ≡ done popped = ground (arith, s.intr, s.noff) in
    subst (Balanced c) (sym ends) (
      balanced (record {
        noff = omega (arith, s.noff);
        intr = ground (arith, s.intr, s.noff, restore, v);
        intena = λ h. ground (arith, restore);
      }))

bind-Balanced :
    (a c : Cpu) (r : Outcome Cpu) (f : Cpu → Outcome Cpu)
    → Balanced a r
    → ((d : Cpu) → Same a d → Balanced c (f d))
    → Balanced c (r >>= f)
bind-Balanced a c r f (balanced {c'} s) next = next c' s

Balanced-from : (c d : Cpu) (r : Outcome Cpu) → Same c d → Balanced d r → Balanced c r
Balanced-from c d r s (balanced t) = balanced (Same-trans s t)

-- Code in which every `push_off` is matched by a `pop_off`, nested to any depth, ends without a
-- panic and leaves the interrupts on or off as they were, with the depth as it was.
pub run-Balanced : (n : Nested) (c : Cpu) → IsValid c → Balanced c (run n c)
unfolding run
run-Balanced nothing c v = balanced (record { noff = refl; intr = refl; intena = λ h. refl })
run-Balanced (section inner after) c v =
    bind-Balanced (push_off c) c _ _ (run-Balanced inner (push_off c) (push_off-IsValid c)) λ d s.
      bind-Balanced c c _ _ (pop-push c d v s)
        λ e t. Balanced-from c e _ t (run-Balanced after e λ h. t.intr ∙ v (omega (arith, t.noff)))
