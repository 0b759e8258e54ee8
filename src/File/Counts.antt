-- ===== src/File/Counts.antt =====
-- The counts of references in file.c.
use native.Mathlib.Nat.{sub-zero}
use team.Common.{
  ℕ, zero, suc, ◌+◌, ◌-◌, ◌≤◌, ◌<◌, ◌≡◌, refl, ◌≢◌, ap, sym, subst, ◌∙◌, some, List, [], ◌∷◌, ◌==◌,
  if◌then◌else◌, ltb, arith, get_elem?, set, inl, inr, get_elem?-set_at, get_elem?-set_ne,
  get_elem?-set_cases, get_elem?-head, get_elem?-tail, some-eq, Bool-cases, Option-cases,
  ℕ_discrete, ◌++◌,
}
use team.Common.Outcome.{done, panic}
use team.File.{File, Io, find_free, filealloc, filedup, fileclose, fd_none}

set-set : (fs : List File) (i : ℕ) (a b : File) → set (set fs i a) i b ≡ set fs i b
set-set [] i a b = refl
set-set (f ∷ fs) zero a b = refl
set-set (f ∷ fs) (suc i) a b = ap (λ x. f ∷ x) (set-set fs i a b)

set-same : (fs : List File) (i : ℕ) (f : File) → get_elem? fs i ≡ some f → set fs i f ≡ fs
set-same [] i f at = refl
set-same (g ∷ fs) zero f at = ground arith
set-same (g ∷ fs) (suc i) f at = ap (λ x. g ∷ x) (set-same fs i f at)

-- A reference that is taken with `filedup` and given back with `fileclose` leaves the table as it
-- was and closes nothing, for an entry that is open.
close-dup :
    (io : Io) (i : ℕ) (fs : List File) (f : File) (s : io.State)
    → get_elem? fs i ≡ some f
    → 0 < f.ref
    → (fs' : List File) × (filedup i fs ≡ done fs') × (fileclose io i fs' s ≡ done (fs, s))
unfolding filedup fileclose
close-dup io i fs f s at open_file =
    let g : File = record f { ref = f.ref + 1 } in
    let at' : get_elem? (set fs i g) i ≡ some g = get_elem?-set_at fs i g f at in
    let same_ref : record f { ref = f.ref + 1 - 1 } ≡ f =
      ap (λ (n : ℕ). record f { ref = n }) (omega arith) in
    let stored : set (set fs i g) i (record f { ref = f.ref + 1 - 1 }) ≡ fs =
      ap (set (set fs i g) i) same_ref ∙ set-set fs i g f ∙ set-same fs i f at in
    (set fs i g, ground arith, rw (fileclose, at') (ground (arith, stored)))

-- How often `i` is among the references that processes hold.
unfoldable pub count : ℕ → List ℕ → ℕ
count i [] = 0
count i (x ∷ xs) = let rest = count i xs in if x == i then suc rest else rest

count-append : (i : ℕ) (xs ys : List ℕ) → count i (xs ++ ys) ≡ count i xs + count i ys
unfolding count
count-append i [] ys = omega arith
count-append i (x ∷ xs) ys = ground (arith, count-append i xs ys)

-- The table of files with the references that are held to its entries.
pub record System (io : Io) : Type 0 where
  pub table : List File
  pub held : List ℕ
  pub state : io.State

-- A file is opened, a reference is copied, a reference is given up.
pub data Step (io : Io) (s : System io) : System io → Type 0 where
  opens :
      {fs : List File} (i : ℕ)
      → filealloc s.table ≡ some (i, fs)
      → Step io s (record s { table = fs; held = i ∷ s.held })
  dups :
      {fs : List File} (i : ℕ)
      → 0 < count i s.held
      → filedup i s.table ≡ done fs
      → Step io s (record s { table = fs; held = i ∷ s.held })
  closes :
      {fs : List File} {st : io.State} (i : ℕ) (before behind : List ℕ)
      → s.held ≡ before ++ i ∷ behind
      → fileclose io i s.table s.state ≡ done (fs, st)
      → Step io s (record { table = fs; held = before ++ behind; state = st })

pub data Reach (io : Io) (s : System io) : System io → Type 0 where
  here : Reach io s s
  next : {t u : System io} → Reach io s t → Step io t u → Reach io s u

-- Every entry counts the references that are held to it, and there are no others.
pub record Counted (table : List File) (held : List ℕ) : Type 0 where
  pub exact : (i : ℕ) (f : File) → get_elem? table i ≡ some f → f.ref ≡ count i held
  pub known : (i : ℕ) → 0 < count i held → (f : File) × (get_elem? table i ≡ some f)

-- An entry gets as many references as are held then.
set-Counted :
    (fs : List File) (i : ℕ) (f g : File) (old new : List ℕ)
    → Counted fs old
    → get_elem? fs i ≡ some f
    → g.ref ≡ count i new
    → ((j : ℕ) → j ≢ i → count j new ≡ count j old)
    → Counted (set fs i g) new
set-Counted fs i f g old new c at ref same = record {
  exact = λ j h at'. elim (get_elem?-set_cases fs i j g h at') [
    | inl (e, is) ↦ ap (λ (x : File). x.ref) is ∙ ref ∙ ap (λ k. count k new) (sym e)
    | inr (ne, old_at) ↦ c.exact j h old_at ∙ sym (same j ne)
  ];
  known = λ j pos. elim (ℕ_discrete j i) [
    | yes e ↦ (g, rw e (get_elem?-set_at fs i g f at))
    | no ne ↦
        let (h, at') = c.known j (omega (arith, same j ne)) in
        (h, get_elem?-set_ne fs g (λ e. ne (sym e)) ∙ at')
  ];
}

find_free-free :
    (k i : ℕ) (fs : List File)
    → find_free k fs ≡ some i
    → (f : File) × (k ≤ i) × (get_elem? fs (i - k) ≡ some f) × (f.ref ≡ 0)
unfolding find_free
find_free-free k i [] h = cc
find_free-free k i (f ∷ fs) h = elim (Bool-cases (f.ref == 0)) [
  | inl free ↦
      let found : k ≡ i = some-eq (rw free at h) in
      (f, omega arith, get_elem?-head f fs (i - k) (omega arith), ground arith)
  | inr open_file ↦
      let (g, le, at, free) = find_free-free (suc k) i fs (rw open_file at h) in
      (g, omega arith, get_elem?-tail f fs (i - k) (i - suc k) (omega arith) ∙ at, free)
]

count-cons_same : (i : ℕ) (xs : List ℕ) → count i (i ∷ xs) ≡ count i xs + 1
unfolding count
count-cons_same i xs = ground arith

count-cons_ne : (i j : ℕ) (xs : List ℕ) → j ≢ i → count j (i ∷ xs) ≡ count j xs
unfolding count
count-cons_ne i j xs ne = ground arith

filealloc-takes :
    (i : ℕ) (fs fs' : List File)
    → filealloc fs ≡ some (i, fs')
    → (f : File) × (get_elem? fs i ≡ some f) × (f.ref ≡ 0) × (fs' ≡ set fs i (record f { ref = 1 }))
unfolding filealloc
filealloc-takes i fs fs' h = elim (Option-cases (find_free 0 fs)) [
  | inl none_free ↦ cc (rw (filealloc, none_free) at h)
  | inr (j, found) ↦
      let (f, _, at, free) = find_free-free 0 j fs found in
      let at' : get_elem? fs j ≡ some f = rw sub-zero at at in
      let e = some-eq (rw (filealloc, found, at') at h) in
      let is_i : j ≡ i = ap (λ (x : ℕ × List File). x.0) e in
      (
        f,
        rw (← is_i) at',
        free,
        sym (ap (λ (x : ℕ × List File). x.1) e) ∙ ap (λ k. set fs k (record f { ref = 1 })) is_i,
      )
]

filedup-adds :
    (i : ℕ) (fs fs' : List File) (f : File)
    → get_elem? fs i ≡ some f
    → filedup i fs ≡ done fs'
    → fs' ≡ set fs i (record f { ref = f.ref + 1 })
unfolding filedup
filedup-adds i fs fs' f at h = ground arith

fileclose-takes :
    (io : Io) (i : ℕ) (fs fs' : List File) (f : File) (s s' : io.State)
    → get_elem? fs i ≡ some f
    → fileclose io i fs s ≡ done (fs', s')
    → (g : File) × (g.ref ≡ f.ref - 1) × (fs' ≡ set fs i g)
unfolding fileclose
fileclose-takes io i fs fs' f s s' at h = elim (Bool-cases (ltb 0 (f.ref - 1))) [
  | inl more ↦ (record f { ref = f.ref - 1 }, refl, ground (arith, more))
  | inr last ↦ (record f { ref = 0; type = fd_none }, ground arith, ground (arith, last))
]

-- Each step keeps the counts exact.
Step-Counted :
    {io : Io} {s t : System io} → Step io s t → Counted s.table s.held → Counted t.table t.held
Step-Counted {s} (opens {fs} i h) c =
    let (f, at, free, table) = filealloc-takes i s.table fs h in
    subst (λ x. Counted x (i ∷ s.held)) (sym table)
      (set-Counted s.table i f (record f { ref = 1 }) s.held (i ∷ s.held) c at
        (omega (arith, c.exact i f at, count-cons_same i s.held))
        (λ j ne. count-cons_ne i j s.held ne))
Step-Counted {s} (dups {fs} i pos h) c =
    let (f, at) = c.known i pos in
    subst (λ x. Counted x (i ∷ s.held)) (sym (filedup-adds i s.table fs f at h))
      (set-Counted s.table i f (record f { ref = f.ref + 1 }) s.held (i ∷ s.held) c at
        (omega (arith, c.exact i f at, count-cons_same i s.held))
        (λ j ne. count-cons_ne i j s.held ne))
Step-Counted {io} {s} (closes {fs} {st} i before behind e h) c =
    let split = λ (j : ℕ). ap (count j) e ∙ count-append j before (i ∷ behind) in
    let (f, at) = c.known i (omega (arith, split i, count-cons_same i behind)) in
    let (g, fewer, table) = fileclose-takes io i s.table fs f s.state st at h in
    subst (λ x. Counted x (before ++ behind)) (sym table)
      (set-Counted s.table i f g s.held (before ++ behind) c at
        (omega (
          arith,
          fewer,
          c.exact i f at,
          split i,
          count-cons_same i behind,
          count-append i before behind,
        ))
        (λ j ne. omega (arith, split j, count-cons_ne i j behind ne, count-append j before behind)))

Reach-Counted :
    {io : Io} {s t : System io} → Counted s.table s.held → Reach io s t → Counted t.table t.held
Reach-Counted c here = c
Reach-Counted c (next r st) = Step-Counted st (Reach-Counted c r)

-- In every state that opening, copying and closing reach from one whose counts are exact: each
-- entry counts the references that are held to it, and neither `filedup` nor `fileclose` of an entry
-- that somebody holds panics.
pub counts_exact :
    {io : Io} {s t : System io}
    → Counted s.table s.held
    → Reach io s t
    → ((i : ℕ) (f : File) → get_elem? t.table i ≡ some f → f.ref ≡ count i t.held)
      × ((i : ℕ)
          → 0 < count i t.held
          → (filedup i t.table ≢ panic) × (fileclose io i t.table t.state ≢ panic))
unfolding filedup fileclose
counts_exact {io} {s} {t} start r =
    let c = Reach-Counted start r in
    (
      c.exact,
      λ i pos.
          let (f, at) = c.known i pos in
          let open_file : 0 < f.ref = omega (arith, c.exact i f at) in
          ((λ e. ground arith), λ e. ground arith),
    )
