-- ===== src/Proc/Child.antt =====
-- The child that `fork` of proc_our.c makes.
use team.Common.{ℕ, ◌≡◌, ◌≢◌, some, get_elem?}
use team.Proc.{Proc, Machine, runnable}
use team.Proc.Lifecycle.{find_unused}
use team.Proc.Fork.{Kernel, frame_a0}
use team.Proc.Forked.{Forked}

module _ (kernel : Kernel) where
  open kernel use {memory, uvmcopy}

  -- What `fork` of process `me`, `p`, has made in the table `n`.
  pub record Child (n : Machine) (me : ℕ) (p : Proc) (tf : ℕ → ℕ → ℕ) (pid : ℕ) (m' : Machine)
      (tf' : ℕ → ℕ → ℕ) : Type 0 where
    pub i : ℕ
    pub child : Proc
    pub first : find_unused 0 n.procs ≡ some i
    pub at : get_elem? m'.procs i ≡ some child
    pub own_pid : (child.pid ≡ pid) × (pid ≡ n.nextpid)
    pub state : child.state ≡ runnable
    pub parent : child.parent ≡ some me
    pub size : child.sz ≡ p.sz
    pub cwd : child.cwd ≡ p.cwd
    pub files : (k f : ℕ) → get_elem? p.ofile k ≡ some f → f ≢ 0 → get_elem? child.ofile k ≡ some f
    pub returns_zero : tf' child.trapframe frame_a0 ≡ 0
    pub registers : (j : ℕ) → j ≢ frame_a0 → tf' child.trapframe j ≡ tf p.trapframe j
    pub others : (j : ℕ) → j ≢ i → get_elem? m'.procs j ≡ get_elem? n.procs j

  abbrev started : ℕ → Proc → Proc
  started me q = record q { parent = some me; state = runnable }
