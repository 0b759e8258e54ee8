-- ===== src/Proc/Exit.antt =====
-- `exit` of proc_our.c leaves a zombie without children.
use team.Common.{
  ℕ, zero, suc, ◌+◌, ◌≤◌, ◌≡◌, refl, ◌≢◌, ap, ap₂, sym, ◌∙◌, true, false, Option, none, some, List,
  [], ◌∷◌, inl, inr, arith, ◌==◌, ◌&&◌, if◌then◌else◌, leb, ltb, length, get_elem?, get_elem?-lt,
  get_elem?-set_cases, set, Bool-cases, Option-cases, some-eq,
}
use mathlib.Core.Bool.{true≢false}
use team.Proc.{
  Proc, Machine, zombie, same, nproc, modify, wakeup_from, wakeup, adopt, reparent_loop, reparent,
}
use team.Proc.Fork.{exit_zombie}

-- What `wakeup` leaves comes from an entry with the same parent.
wakeup-parent :
    (me : Option ℕ) (chan k j : ℕ) (q : Proc) (ps : List Proc)
    → get_elem? (wakeup_from me chan k ps) j ≡ some q
    → (p : Proc) × (get_elem? ps j ≡ some p) × (q.parent ≡ p.parent)
unfolding wakeup_from
wakeup-parent me chan k j q [] at = cc
wakeup-parent me chan k zero q (p ∷ ps) at =
    (p, refl, ap (λ (x : Proc). x.parent) (sym (some-eq at)) ∙ ground arith)
wakeup-parent me chan k (suc j) q (p ∷ ps) at = wakeup-parent me chan (suc k) j q ps at

same-eq : (x : Option ℕ) (i : ℕ) → same x (some i) ≡ true → x ≡ some i
same-eq none i h = cc
same-eq (some j) i h = ap some (ground arith)

-- The parent of a process `p` after the adoption of the children of `me`.
abbrev pub adopted : Option ℕ → ℕ → Proc → Option ℕ
adopted init me p = if same p.parent (some me) then init else p.parent

module _ (chan_of : Option ℕ → ℕ) where
  -- An entry of the table that `adopt` leaves.
  adopt-parent :
      (me i j : ℕ) (pp q : Proc) (m : Machine)
      → get_elem? m.procs i ≡ some pp
      → get_elem? (adopt chan_of me i pp m).procs j ≡ some q
      → (p : Proc) × (get_elem? m.procs j ≡ some p)
        × (q.parent ≡ (if j == i then adopted m.initproc me p else p.parent))
  unfolding adopt wakeup
  adopt-parent me i j pp q m here at = elim (Bool-cases (same pp.parent (some me))) [
    | inl child ↦
        let moved = set m.procs i (record pp { parent = m.initproc }) in
        let (p1, at1, e1) =
          wakeup-parent (some me) (chan_of m.initproc) 0 j q moved (rw (adopt, child) at at) in
        elim (get_elem?-set_cases m.procs i j (record pp { parent = m.initproc }) p1 at1) [
          | inl (is_i, is_moved) ↦ (
            pp,
            ap (get_elem? m.procs) is_i ∙ here,
            e1 ∙ ap (λ (x : Proc). x.parent) is_moved ∙ ground (arith, is_i, child),
          )
          | inr (other, at2) ↦ (p1, at2, e1 ∙ ground (arith, other))
        ]
    | inr stays ↦
        let at' : get_elem? m.procs j ≡ some q = rw (adopt, stays) at at in
        (
          q,
          at',
          elim (Bool-cases (j == i)) [
            | inl is_i ↦
                let same_one : q ≡ pp =
                  some-eq (sym at' ∙ ap (get_elem? m.procs) (ground (arith, is_i)) ∙ here) in
                let kept = ap (λ (x : Proc). same x.parent (some me)) same_one ∙ stays in
                rw (is_i, kept)
            | inr other ↦ rw other
          ],
        )
  ]

  adopt-initproc :
      (me i : ℕ) (pp : Proc) (m : Machine) → (adopt chan_of me i pp m).initproc ≡ m.initproc
  unfolding adopt wakeup
  adopt-initproc me i pp m = elim (Bool-cases (same pp.parent (some me))) [
    | inl child ↦ rw child
    | inr other ↦ rw other
  ]

  -- The loop over the entries from `i` on.
  reparent_loop-parent :
      (me k i j : ℕ) (q : Proc) (m : Machine)
      → m.initproc ≢ some me
      → get_elem? (reparent_loop chan_of me k i m).procs j ≡ some q
      → (p : Proc) × (get_elem? m.procs j ≡ some p)
        × (q.parent ≡ (if leb i j && ltb j (i + k) then adopted m.initproc me p else p.parent))
  unfolding reparent_loop
  reparent_loop-parent me zero i j q m init at = (q, at, ground arith)
  reparent_loop-parent me (suc k) i j q m init at = elim (Option-cases (get_elem? m.procs i)) [
    | inl out ↦
        let (p, at', e) =
          reparent_loop-parent me k (suc i) j q m init (rw (reparent_loop, out) at at) in
        let ne : j ≢ i = λ x. cc (at', out, ap (get_elem? m.procs) x) in
        (p, at', e ∙ ground (arith, ne))
    | inr (pp, here) ↦
        let m1 = adopt chan_of me i pp m in
        let same_init = adopt-initproc me i pp m in
        let (p1, at1, e1) =
          reparent_loop-parent me k (suc i) j q m1 (λ e. init (sym same_init ∙ e))
            (rw (reparent_loop, here) at at) in
        let (p, at', e) = adopt-parent me i j pp p1 m here at1 in
        (
          p,
          at',
          elim (Bool-cases (j == i)) [
            | inl is_i ↦
                let past : (leb (suc i) j && ltb j (suc i + k)) ≡ false = ground (arith, is_i) in
                let now : (leb i j && ltb j (i + suc k)) ≡ true = ground (arith, is_i) in
                rw now (rw past at e1 ∙ (rw is_i at e))
            | inr other ↦
                let same_parent : p1.parent ≡ p.parent = rw other at e in
                let range : (leb i j && ltb j (i + suc k)) ≡ (leb (suc i) j && ltb j (suc i + k)) =
                  ground (arith, other) in
                rw range (
                  e1
                  ∙ ap₂
                      (λ init x.
                        if leb (suc i) j && ltb j (suc i + k)
                        then (if same x (some me) then init else x)
                        else x)
                      same_init same_parent)
          ],
        )
  ]

-- The entry that `exit` writes last, and the others.
zombie-get :
    (status me j : ℕ) (q : Proc) (ps : List Proc)
    → get_elem? (modify me (λ p. record p { xstate = status; state = zombie }) ps) j ≡ some q
    → (p : Proc) × (get_elem? ps j ≡ some p)
      × (q.parent ≡ p.parent)
      × (j ≡ me → (q.state ≡ zombie) × (q.xstate ≡ status))
zombie-get status me j q [] at = cc
zombie-get status zero zero q (p ∷ ps) at =
    let e = sym (some-eq at) in
    (
      p,
      refl,
      ap (λ (x : Proc). x.parent) e,
      λ _. (ap (λ (x : Proc). x.state) e, ap (λ (x : Proc). x.xstate) e),
    )
zombie-get status zero (suc j) q (p ∷ ps) at = (q, at, refl, λ e. absurd (omega arith))
zombie-get status (suc me) zero q (p ∷ ps) at =
    (p, refl, ap (λ (x : Proc). x.parent) (sym (some-eq at)), λ e. absurd (omega arith))
zombie-get status (suc me) (suc j) q (p ∷ ps) at =
    let (p', at', e, ends) = zombie-get status me j q ps at in (p', at', e, λ h. ends (omega arith))

adopted-other : (init : Option ℕ) (me : ℕ) (p : Proc) → init ≢ some me → adopted init me p ≢ some me
adopted-other init me p other e = elim (Bool-cases (same p.parent (some me))) [
  | inl child ↦ other (rw child at e)
  | inr not_child ↦
      let is_me : p.parent ≡ some me = rw not_child at e in
      let tested : same (some me) (some me) ≡ true = ground arith in
      true≢false (sym tested ∙ ap (λ x. same x (some me)) (sym is_me) ∙ not_child)
]

in_table :
    (j : ℕ) (p : Proc) (ps : List Proc)
    → length ps ≤ nproc
    → get_elem? ps j ≡ some p
    → (leb 0 j && ltb j (0 + nproc)) ≡ true
in_table j p ps small at = let lt = get_elem?-lt ps j p at in ground arith

module _ (chan_of : Option ℕ → ℕ) where
  reparent-parent :
      (me j : ℕ) (q : Proc) (m : Machine)
      → m.initproc ≢ some me
      → length m.procs ≤ nproc
      → get_elem? (reparent chan_of me m).procs j ≡ some q
      → (p : Proc) × (get_elem? m.procs j ≡ some p) × (q.parent ≡ adopted m.initproc me p)
  unfolding reparent
  reparent-parent me j q m init small at =
      let (p, at0, e) = reparent_loop-parent chan_of me nproc 0 j q m init at in
      (p, at0, rw (in_table j p m.procs small at0) at e)

  -- `exit` of a process other than init, in a table of at most NPROC entries, leaves it a zombie that
  -- keeps its exit status; init is the parent of its children, and every other process keeps its
  -- parent, so that no process has the zombie as parent.
  pub exit_zombie-parents :
      (me status j : ℕ) (q : Proc) (m : Machine)
      → m.initproc ≢ some me
      → length m.procs ≤ nproc
      → get_elem? (exit_zombie chan_of me status m).procs j ≡ some q
      → (p : Proc) × (get_elem? m.procs j ≡ some p)
        × (q.parent ≡ adopted m.initproc me p)
        × (q.parent ≢ some me)
        × (j ≡ me → (q.state ≡ zombie) × (q.xstate ≡ status))
  unfolding exit_zombie wakeup
  exit_zombie-parents me status j q m init small at =
      let (p2, at2, e2, ends) = zombie-get status me j q _ at in
      let (p1, at1, e1) = wakeup-parent (some me) _ 0 j p2 _ at2 in
      let (p, at0, e) = reparent-parent me j p1 m init small at1 in
      (
        p,
        at0,
        e2 ∙ e1 ∙ e,
        λ is_me. adopted-other m.initproc me p init (sym e ∙ sym e1 ∙ sym e2 ∙ is_me),
        ends,
      )
