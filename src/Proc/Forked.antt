-- ===== src/Proc/Forked.antt =====
-- The steps of a `fork` of proc_our.c that succeeds.
use team.Common.{
  ℕ, zero, suc, ◌-◌, ◌≤◌, ◌≡◌, refl, ◌≢◌, ap, sym, subst, ◌∙◌, true, Option, none, some, List, [],
  ◌∷◌, inl, inr, arith, ◌==◌, if◌then◌else◌, get_elem?, set, Bool-cases, Option-cases, some-eq,
  ne→==false,
}
use team.Common.Outcome.{done, >>=-eq-done, done-injective}
use team.Common.Family.{update}
use team.Proc.{Proc, Machine, is_unused, modify}
use team.Proc.Lifecycle.{find_unused, freeproc}
use team.Proc.Fork.{
  Kernel, frame_a0, dup_files, copy_parent, keep_child, drop_child, copy_child, fork_entry,
}

pub find_unused-idle :
    (k i : ℕ) (p : Proc) (ps : List Proc)
    → find_unused k ps ≡ some i
    → (k ≤ i) × (get_elem? ps (i - k) ≡ some p → is_unused p.state ≡ true)
unfolding find_unused
find_unused-idle k i p [] h = cc
find_unused-idle k i p (q ∷ ps) h = elim (Bool-cases (is_unused q.state)) [
  | inl idle ↦
      let here : 0 ≡ i - k = omega (arith, some-eq (rw (find_unused, idle) at h)) in
      (
        omega (arith, some-eq (rw (find_unused, idle) at h)),
        λ at.
            ap (λ (x : Proc). is_unused x.state)
              (sym (some-eq (subst (λ j. get_elem? (q ∷ ps) j ≡ some p) (sym here) at)))
            ∙ idle,
      )
  | inr busy ↦
      let (le, later) = find_unused-idle (suc k) i p ps (rw (find_unused, busy) at h) in
      let place : i - k ≡ suc (i - suc k) = omega arith in
      (omega arith, λ at. later (rw place at at))
]

pub modify_at :
    (f : Proc → Proc) (i : ℕ) (p : Proc) (ps : List Proc)
    → get_elem? ps i ≡ some p
    → get_elem? (modify i f ps) i ≡ some (f p)
modify_at f i p [] at = cc
modify_at f zero p (q ∷ ps) at = ap (λ x. some (f x)) (some-eq at)
modify_at f (suc i) p (q ∷ ps) at = modify_at f i p ps at

pub modify_ne :
    (f : Proc → Proc) (i j : ℕ) (ps : List Proc)
    → j ≢ i
    → get_elem? (modify i f ps) j ≡ get_elem? ps j
modify_ne f i j [] ne = refl
modify_ne f zero zero (q ∷ ps) ne = absurd (ne refl)
modify_ne f zero (suc j) (q ∷ ps) ne = refl
modify_ne f (suc i) zero (q ∷ ps) ne = refl
modify_ne f (suc i) (suc j) (q ∷ ps) ne = modify_ne f i j ps (λ e. ne (ap suc e))

module _ (kernel : Kernel) where
  open kernel use {memory, uvmcopy}

  dup_files-cons :
      (x g : ℕ) (fs gs hs : List ℕ) (s s' : memory.State)
      → dup_files kernel (x ∷ fs) (g ∷ gs) s ≡ done (hs, s')
      → (rest : List ℕ) × (s1 : memory.State) × (s2 : memory.State) × (dup_files kernel fs gs s1
          ≡ done (rest, s2))
        × (hs ≡ (if x == 0 then g else x) ∷ rest)
  unfolding dup_files
  dup_files-cons x g fs gs hs s s' h =
      let (s1, counted, h1) = >>=-eq-done (if x == 0 then done s else kernel.filedup x s) _ h in
      let ((rest, s2), dup, end) = >>=-eq-done (dup_files kernel fs gs s1) _ h1 in
      (rest, s1, s2, dup, sym (ap (λ (r : List ℕ × memory.State). r.0) (done-injective end)))

  -- The child has the files of its parent.
  dup_files-shares :
      (fs gs hs : List ℕ) (s s' : memory.State) (k f : ℕ)
      → dup_files kernel fs gs s ≡ done (hs, s')
      → get_elem? fs k ≡ some f
      → f ≢ 0
      → get_elem? hs k ≡ some f
  unfolding dup_files
  dup_files-shares [] gs hs s s' k f h at open_file = cc
  dup_files-shares (x ∷ fs) [] hs s s' k f h at open_file = cc
  dup_files-shares (x ∷ fs) (g ∷ gs) hs s s' zero f h at open_file =
      let (rest, s1, s2, dup, e) = dup_files-cons x g fs gs hs s s' h in
      let here : x ≡ f = some-eq at in rw (e, here, ne→==false open_file)
  dup_files-shares (x ∷ fs) (g ∷ gs) hs s s' (suc k) f h at open_file =
      let (rest, s1, s2, dup, e) = dup_files-cons x g fs gs hs s s' h in
      rw e (dup_files-shares fs gs rest s1 s2 k f dup at open_file)

  -- The steps of `fork` behind an `allocproc` that returned the entry `i` in the table `m`.
  pub record Forked (me i pid : ℕ) (m m' : Machine) (tf tf' : ℕ → ℕ → ℕ) (s' : memory.State)
      : Type 0 where
    pub copied : memory.State
    pub p : Proc
    pub np : Proc
    pub at_me : get_elem? m.procs me ≡ some p
    pub at_child : get_elem? m.procs i ≡ some np
    pub kept : keep_child kernel p np i m tf copied ≡ done (some (i, pid), m', tf', s')

  drop_child-none :
      (np : Proc) (j : ℕ) (m : Machine) (tf : ℕ → ℕ → ℕ) (s : memory.State) (r : Option (ℕ × ℕ))
      (m' : Machine) (tf' : ℕ → ℕ → ℕ) (s' : memory.State)
      → drop_child kernel np j m tf s ≡ done (r, m', tf', s')
      → r ≡ none
  unfolding drop_child
  drop_child-none np j m tf s r m' tf' s' h =
      let ((q, s1), freed, end) = >>=-eq-done (freeproc memory np s) _ h in ground (arith, end)

  keep_child-index :
      (p np : Proc) (j : ℕ) (m : Machine) (tf : ℕ → ℕ → ℕ) (s : memory.State) (i pid : ℕ)
      (m' : Machine) (tf' : ℕ → ℕ → ℕ) (s' : memory.State)
      → keep_child kernel p np j m tf s ≡ done (some (i, pid), m', tf', s')
      → j ≡ i
  unfolding keep_child
  keep_child-index p np j m tf s i pid m' tf' s' h =
      let ((q, tf1, s1), made, end) = >>=-eq-done (copy_parent kernel p np tf s) _ h in
      ground (arith, end)

  copy_child-kept :
      (p np : Proc) (j : ℕ) (m : Machine) (tf : ℕ → ℕ → ℕ) (s : memory.State) (i pid : ℕ)
      (m' : Machine) (tf' : ℕ → ℕ → ℕ) (s' : memory.State)
      → copy_child kernel p np j m tf s ≡ done (some (i, pid), m', tf', s')
      → (s1 : memory.State) × (j ≡ i)
        × (keep_child kernel p np i m tf s1 ≡ done (some (i, pid), m', tf', s'))
  unfolding copy_child
  copy_child-kept p np j m tf s i pid m' tf' s' h =
      let (copied, s1) = uvmcopy p.pagetable np.pagetable p.sz s in
      elim (Bool-cases copied) [
        | inl yes_copied ↦
            let kept = rw (copy_child, yes_copied) at h in
            let same = keep_child-index p np j m tf s1 i pid m' tf' s' kept in
            (s1, same, ap (λ x. keep_child kernel p np x m tf s1) (sym same) ∙ kept)
        | inr not_copied ↦
            let gone =
              drop_child-none np j m tf s1 _ m' tf' s' (rw (copy_child, not_copied) at h) in
            cc
      ]

  pub fork_entry-Forked :
      (me : ℕ) (r : Option ℕ) (i pid : ℕ) (m m' : Machine) (tf tf' : ℕ → ℕ → ℕ)
      (s s' : memory.State)
      → fork_entry kernel me r m tf s ≡ done (some (i, pid), m', tf', s')
      → (r ≡ some i) × Forked me i pid m m' tf tf' s'
  unfolding fork_entry
  fork_entry-Forked me none i pid m m' tf tf' s s' h = cc
  fork_entry-Forked me (some j) i pid m m' tf tf' s s' h =
      elim (Option-cases (get_elem? m.procs me)) [
        | inl out ↦ cc (rw (fork_entry, out) at h)
        | inr (p, at_me) ↦ elim (Option-cases (get_elem? m.procs j)) [
          | inl out ↦ cc (rw (fork_entry, at_me, out) at h)
          | inr (np, at) ↦
              let (s1, same, kept) =
                copy_child-kept p np j m tf s i pid m' tf' s' (rw (fork_entry, at_me, at) at h) in
              (
                ap some same,
                record {
                  copied = s1;
                  p = p;
                  np = np;
                  at_me = at_me;
                  at_child = ap (get_elem? m.procs) (sym same) ∙ at;
                  kept = kept;
                },
              )
        ]
      ]

  -- The child that `keep_child` writes back.
  pub record Kept (p np : Proc) (i : ℕ) (m : Machine) (tf : ℕ → ℕ → ℕ) (pid : ℕ) (m' : Machine)
      (tf' : ℕ → ℕ → ℕ) : Type 0 where
    pub q : Proc
    pub table : m'.procs ≡ set m.procs i q
    pub is_pid : pid ≡ np.pid
    pub own_pid : q.pid ≡ np.pid
    pub size : q.sz ≡ p.sz
    pub cwd : q.cwd ≡ p.cwd
    pub files : (k f : ℕ) → get_elem? p.ofile k ≡ some f → f ≢ 0 → get_elem? q.ofile k ≡ some f
    pub frame : q.trapframe ≡ np.trapframe
    pub frames : tf' ≡ update tf np.trapframe (update (tf p.trapframe) frame_a0 0)

  pub keep_child-Kept :
      (p np : Proc) (i : ℕ) (m : Machine) (tf : ℕ → ℕ → ℕ) (s : memory.State) (pid : ℕ)
      (m' : Machine) (tf' : ℕ → ℕ → ℕ) (s' : memory.State)
      → keep_child kernel p np i m tf s ≡ done (some (i, pid), m', tf', s')
      → Kept p np i m tf pid m' tf'
  unfolding keep_child copy_parent
  keep_child-Kept p np i m tf s pid m' tf' s' h =
      let ((q, tf1, s1), made, end) = >>=-eq-done (copy_parent kernel p np tf s) _ h in
      let ((files, s2), dup, end') = >>=-eq-done (dup_files kernel p.ofile np.ofile s) _ made in
      let pair = done-injective end' in
      let child = sym (ap (λ (x : Proc × (ℕ → ℕ → ℕ) × memory.State). x.0) pair) in
      let result = done-injective end in
      record {
        q = q;
        table =
            sym (
              ap (λ (x : Option (ℕ × ℕ) × Machine × (ℕ → ℕ → ℕ) × memory.State). x.1.procs) result);
        is_pid = sym (
            ap (λ (x : ℕ × ℕ). x.1)
              (some-eq
                (ap (λ (x : Option (ℕ × ℕ) × Machine × (ℕ → ℕ → ℕ) × memory.State). x.0) result)));
        own_pid = ap (λ (x : Proc). x.pid) child;
        size = ap (λ (x : Proc). x.sz) child;
        cwd = ap (λ (x : Proc). x.cwd) child;
        files = λ k f at open_file.
            ap (λ (x : Proc). get_elem? x.ofile k) child
            ∙ dup_files-shares p.ofile np.ofile files s s2 k f dup at open_file;
        frame = ap (λ (x : Proc). x.trapframe) child;
        frames =
            sym (ap (λ (x : Option (ℕ × ℕ) × Machine × (ℕ → ℕ → ℕ) × memory.State). x.2) result)
            ∙ sym (ap (λ (x : Proc × (ℕ → ℕ → ℕ) × memory.State). x.1) pair);
      }
