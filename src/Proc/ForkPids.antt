-- ===== src/Proc/ForkPids.antt =====
-- `fork`, `growproc` and `exit` of proc_our.c keep the pids apart.
use team.Common.{
  ◌<◌, suc, ℕ, ◌+◌, ◌-◌, ◌%◌, ◌^◌, ltb, ◌≡◌, refl, ap, sym, subst, ◌∙◌, Bool, true, Option, none,
  some, inl, inr, arith, ◌==◌, get_elem?, set, Bool-cases, Option-cases,
}
use team.Common.Outcome.{Outcome, done, panic_if, >>=-eq-done, done-injective}
use team.Proc.{Proc, Machine, same}
use team.Proc.Lifecycle.{allocproc, freeproc}
use team.Proc.Fork.{
  Kernel, dup_files, copy_parent, keep_child, drop_child, copy_child, fork_entry, fork_copy,
  close_files, exit_files, growproc,
}
use team.Proc.Pids.{SamePid, PidsOk, PidsOk-SamePids}
use team.Proc.Allocation.{allocproc-PidsOk, freeproc-cleared}
use team.Proc.Wait.{clear-PidsOk}
use team.Proc.Keep.{set-SamePids}

module _ (kernel : Kernel) (forkret : ℕ) where
  open kernel use {memory, uvmcopy, uvmalloc, uvmdealloc, iput, begin_op}

  keep_child-PidsOk :
      {lim : ℕ} (p np : Proc) (j : ℕ) (m : Machine) (tf : ℕ → ℕ → ℕ) (s : memory.State)
      (r : Option (ℕ × ℕ)) (m' : Machine) (tf' : ℕ → ℕ → ℕ) (s' : memory.State)
      → PidsOk lim m
      → get_elem? m.procs j ≡ some np
      → keep_child kernel p np j m tf s ≡ done (r, m', tf', s')
      → PidsOk lim m'
  unfolding keep_child copy_parent
  keep_child-PidsOk p np j m tf s r m' tf' s' ok at h =
      let ((q, tf1, s1), made, end) = >>=-eq-done (copy_parent kernel p np tf s) _ h in
      let ((files, s2), dup, end') = >>=-eq-done (dup_files kernel p.ofile np.ofile s) _ made in
      let kept : SamePid np q =
        subst (SamePid np)
          (ap (λ (x : Proc × (ℕ → ℕ → ℕ) × memory.State). x.0) (done-injective end'))
          (record { pid = refl; use_of = refl }) in
      subst (PidsOk _)
        (ap (λ (x : Option (ℕ × ℕ) × Machine × (ℕ → ℕ → ℕ) × memory.State). x.1)
          (done-injective end))
        (PidsOk-SamePids m _ ok (set-SamePids m.procs j np q at kept))

  drop_child-PidsOk :
      {lim : ℕ} (np : Proc) (j : ℕ) (m : Machine) (tf : ℕ → ℕ → ℕ) (s : memory.State)
      (r : Option (ℕ × ℕ)) (m' : Machine) (tf' : ℕ → ℕ → ℕ) (s' : memory.State)
      → PidsOk lim m
      → drop_child kernel np j m tf s ≡ done (r, m', tf', s')
      → PidsOk lim m'
  unfolding drop_child
  drop_child-PidsOk np j m tf s r m' tf' s' ok h =
      let ((q, s1), freed, end) = >>=-eq-done (freeproc memory np s) _ h in
      subst (PidsOk _)
        (ap (λ x. record m { procs = set m.procs j x })
            (sym (freeproc-cleared memory np q s s1 freed))
          ∙ ap (λ (x : Option (ℕ × ℕ) × Machine × (ℕ → ℕ → ℕ) × memory.State). x.1)
              (done-injective end))
        (clear-PidsOk m j np ok)

  copy_child-PidsOk :
      {lim : ℕ} (p np : Proc) (j : ℕ) (m : Machine) (tf : ℕ → ℕ → ℕ) (s : memory.State)
      (r : Option (ℕ × ℕ)) (m' : Machine) (tf' : ℕ → ℕ → ℕ) (s' : memory.State)
      → PidsOk lim m
      → get_elem? m.procs j ≡ some np
      → copy_child kernel p np j m tf s ≡ done (r, m', tf', s')
      → PidsOk lim m'
  unfolding copy_child
  copy_child-PidsOk p np j m tf s r m' tf' s' ok at h =
      let (copied, s1) = uvmcopy p.pagetable np.pagetable p.sz s in
      elim (Bool-cases copied) [
        | inl yes_copied ↦
            keep_child-PidsOk p np j m tf s1 r m' tf' s' ok at (rw (copy_child, yes_copied) at h)
        | inr not_copied ↦
            drop_child-PidsOk np j m tf s1 r m' tf' s' ok (rw (copy_child, not_copied) at h)
      ]

  fork_entry-PidsOk :
      {lim : ℕ} (me : ℕ) (i : Option ℕ) (m : Machine) (tf : ℕ → ℕ → ℕ) (s : memory.State)
      (r : Option (ℕ × ℕ)) (m' : Machine) (tf' : ℕ → ℕ → ℕ) (s' : memory.State)
      → PidsOk lim m
      → fork_entry kernel me i m tf s ≡ done (r, m', tf', s')
      → PidsOk lim m'
  unfolding fork_entry
  fork_entry-PidsOk me none m tf s r m' tf' s' ok h = subst (PidsOk _) (ground (arith, h)) ok
  fork_entry-PidsOk me (some i) m tf s r m' tf' s' ok h =
      elim (Option-cases (get_elem? m.procs me)) [
        | inl out ↦ cc (rw (fork_entry, out) at h)
        | inr (p, at_me) ↦ elim (Option-cases (get_elem? m.procs i)) [
          | inl out ↦ cc (rw (fork_entry, at_me, out) at h)
          | inr (np, at) ↦
              copy_child-PidsOk p np i m tf s r m' tf' s' ok at (rw (fork_entry, at_me, at) at h)
        ]
      ]

  pub fork_copy-PidsOk :
      {lim : ℕ} (me : ℕ) (m m' : Machine) (tf tf' : ℕ → ℕ → ℕ) (s s' : memory.State)
      (r : Option (ℕ × ℕ))
      → PidsOk lim m
      → lim < 2 ^ 31 - 1
      → fork_copy kernel forkret me m tf s ≡ done (r, m', tf', s')
      → PidsOk (suc lim) m'
  unfolding fork_copy
  fork_copy-PidsOk me m m' tf tf' s s' r ok room h =
      let ((i, m1, s1), allocated, rest) = >>=-eq-done (allocproc memory forkret m s) _ h in
      fork_entry-PidsOk me i m1 tf s1 r m' tf' s'
        (allocproc-PidsOk memory forkret m s i m1 s1 ok room allocated) rest

  pub growproc-PidsOk :
      {lim : ℕ} (me n : ℕ) (m m' : Machine) (s s' : memory.State) (r : Bool)
      → PidsOk lim m
      → growproc kernel me n m s ≡ done (r, m', s')
      → PidsOk lim m'
  unfolding growproc
  growproc-PidsOk me n m m' s s' r ok h = elim (Option-cases (get_elem? m.procs me)) [
    | inl out ↦ cc (rw (growproc, out) at h)
    | inr (p, at) ↦
        let resized = λ (sz : ℕ). PidsOk-SamePids m _ ok (
          set-SamePids m.procs me p (record p { sz = sz }) at
            (record { pid = refl; use_of = refl })) in
        let out = λ (e : Outcome (Bool × Machine × memory.State)). e ≡ done (r, m', s') in
        let ends =
          λ (b : Bool) (sz : ℕ) (s1 : memory.State)
              (e : out (done (b, record m { procs = set m.procs me (record p { sz = sz }) }, s1))).
            subst (PidsOk _) (ap (λ (x : Bool × Machine × memory.State). x.1) (done-injective e))
              (resized sz) in
        let h1 = rw (growproc, at) at h in
        elim (Bool-cases (n == 0)) [
          | inl same_size ↦ ends true p.sz s (rw same_size at h1)
          | inr change ↦ elim (Bool-cases (ltb n (2 ^ 31))) [
            | inl up ↦
                elim (Bool-cases ((uvmalloc p.pagetable p.sz ((p.sz + n) % 2 ^ 64) 4 s).0 == 0)) [
                  | inl failed ↦
                      subst (PidsOk _)
                        (ap (λ (x : Bool × Machine × memory.State). x.1)
                          (done-injective (rw (change, up, failed) at h1)))
                        ok
                  | inr grown ↦ ends true _ _ (rw (change, up, grown) at h1)
                ]
            | inr down ↦
                let ((sz, s2), freed, end) =
                  >>=-eq-done
                    (uvmdealloc p.pagetable p.sz ((p.sz + n + 2 ^ 64 - 2 ^ 32) % 2 ^ 64) s) _
                    (rw (change, down) at h1) in
                ends true sz s2 end
          ]
        ]
  ]

  pub exit_files-PidsOk :
      {lim : ℕ} (me : ℕ) (m m' : Machine) (s s' : memory.State)
      → PidsOk lim m
      → exit_files kernel me m s ≡ done (m', s')
      → PidsOk lim m'
  unfolding exit_files
  exit_files-PidsOk me m m' s s' ok h =
      let (open_door, _, h1) = >>=-eq-done (panic_if (same m.initproc (some me))) _ h in
      elim (Option-cases (get_elem? m.procs me)) [
        | inl out ↦ cc (rw out at h1)
        | inr (p, at) ↦
            let ((files, s1), closed, h2) =
              >>=-eq-done (close_files kernel p.ofile s) _ (rw at at h1) in
            let (s2, put, h3) = >>=-eq-done (iput p.cwd (begin_op s1)) _ h2 in
            subst (PidsOk _) (ap (λ (x : Machine × memory.State). x.0) (done-injective h3)) (
              PidsOk-SamePids m _ ok
                (set-SamePids m.procs me p _ at (record { pid = refl; use_of = refl })))
      ]
