-- ===== src/Path/Names.antt =====
-- `skipelem` and `namex` of fs.c follow the elements of a path.
use team.Common.{
  some-eq, ℕ, zero, suc, ◌+◌, ◌≤◌, ◌<◌, ◌≡◌, refl, ap, sym, ◌∙◌, Bool, true, false, Option, none,
  some, List, [], ◌∷◌, ◌==◌, ◌&&◌, not, if◌then◌else◌, arith, ◌⊎◌, inl, inr, length, Bool-cases,
  Option-cases,
}
use team.Path.{
  slash, dirsiz, take, skip_slashes, take_element, skipelem, Dirs, is_empty, namex_loop, start,
  namex,
}

-- A character goes in front of the first piece.
abbrev pub extend : ℕ → List (List ℕ) → List (List ℕ)
extend c [] = (c ∷ []) ∷ []
extend c (p ∷ ps) = (c ∷ p) ∷ ps

-- The pieces of a path between its slashes, and those that are not empty.
abbrev pub pieces : List ℕ → List (List ℕ)
pieces [] = [] ∷ []
pieces (c ∷ cs) = if c == slash then [] ∷ pieces cs else extend c (pieces cs)

abbrev pub nonempty : List (List ℕ) → List (List ℕ)
nonempty [] = []
nonempty ([] ∷ ps) = nonempty ps
nonempty ((c ∷ cs) ∷ ps) = (c ∷ cs) ∷ nonempty ps

abbrev pub elements : List ℕ → List (List ℕ)
elements path = nonempty (pieces path)

skip_slashes-elements : (path : List ℕ) → elements (skip_slashes path) ≡ elements path
unfolding skip_slashes
skip_slashes-elements [] = refl
skip_slashes-elements (c ∷ cs) = elim (Bool-cases (c == slash)) [
  | inl is ↦ rw is (skip_slashes-elements cs)
  | inr other ↦
      let plain : skip_slashes (c ∷ cs) ≡ c ∷ cs = rw (skip_slashes, other) in ap elements plain
]

skip_slashes-short : (path : List ℕ) → length (skip_slashes path) ≤ length path
unfolding skip_slashes
skip_slashes-short [] = omega arith
skip_slashes-short (c ∷ cs) = elim (Bool-cases (c == slash)) [
  | inl is ↦ rw is (omega (arith, skip_slashes-short cs))
  | inr other ↦ rw other (omega arith)
]

-- What `skip_slashes` leaves does not begin with a slash.
skip_slashes-first :
    (path : List ℕ) (c : ℕ) (cs : List ℕ) → skip_slashes path ≡ c ∷ cs → (c == slash) ≡ false
unfolding skip_slashes
skip_slashes-first [] c cs h = cc
skip_slashes-first (x ∷ xs) c cs h = elim (Bool-cases (x == slash)) [
  | inl is ↦ skip_slashes-first xs c cs (rw is at h)
  | inr other ↦ cc (rw other at h, other)
]

-- The element and the rest make up the pieces.
take_element-pieces :
    (path : List ℕ)
    → (ps : List (List ℕ)) × (pieces path ≡ (take_element path).0 ∷ ps)
      × (elements (take_element path).1 ≡ nonempty ps)
      × (length (take_element path).1 ≤ length path)
unfolding take_element
take_element-pieces [] = ([], refl, refl, omega arith)
take_element-pieces (c ∷ cs) = elim (Bool-cases (c == slash)) [
  | inl is ↦
      let later : elements (c ∷ cs) ≡ nonempty (pieces cs) = rw is in
      rw is (pieces cs, refl, later, omega arith)
  | inr other ↦
      let (ps, e, e', short) = take_element-pieces cs in
      rw other (ps, ap (extend c) e, e', omega (arith, short))
]

abbrev pub no_elements : List (List ℕ) → Bool
no_elements [] = true
no_elements (p ∷ ps) = false

extend-elements : (c : ℕ) (ps : List (List ℕ)) → no_elements (nonempty (extend c ps)) ≡ false
extend-elements c [] = refl
extend-elements c (p ∷ ps) = refl

list_cases : (l : List ℕ) → (l ≡ []) ⊎ ((c : ℕ) × (cs : List ℕ) × (l ≡ c ∷ cs))
list_cases [] = inl refl
list_cases (c ∷ cs) = inr (c, cs, refl)

-- Where no slash stands in front, the path is empty or has an element.
skip_slashes-ends :
    (path : List ℕ) → is_empty (skip_slashes path) ≡ no_elements (elements (skip_slashes path))
skip_slashes-ends path = elim (list_cases (skip_slashes path)) [
  | inl e ↦ rw e
  | inr (c, cs, e) ↦
      let split : elements (c ∷ cs) ≡ nonempty (extend c (pieces cs)) =
        rw (skip_slashes-first path c cs e) in
      rw e (sym (ap no_elements split ∙ extend-elements c (pieces cs)))
]

-- `skipelem` fails exactly on a path without elements. Else the name is the first element, as far as
-- 14 characters, and the rest, which is shorter, has the other elements; it is empty exactly when
-- there are none.
skipelem-elements :
    (path : List ℕ)
    → ((skipelem path ≡ none) × (elements path ≡ []))
      ⊎ ((e : List ℕ) × (rest : List ℕ) × (skipelem path ≡ some (rest, take dirsiz e))
          × (elements path ≡ e ∷ elements rest)
          × (length rest < length path)
          × (is_empty rest ≡ no_elements (elements rest)))
unfolding skipelem take_element
skipelem-elements path = elim (list_cases (skip_slashes path)) [
  | inl e ↦ inl (rw (skipelem, e), sym (skip_slashes-elements path) ∙ ap elements e)
  | inr (c, cs, e) ↦
      let other = skip_slashes-first path c cs e in
      let (ps, shape, later, short) = take_element-pieces cs in
      let s : List ℕ = c ∷ (take_element cs).0 in
      let r : List ℕ = (take_element cs).1 in
      let taken : take_element (c ∷ cs) ≡ (s, r) = rw (take_element, other) in
      let split : elements (c ∷ cs) ≡ nonempty (extend c (pieces cs)) = rw other in
      inr (
        s,
        skip_slashes r,
        rw (skipelem, e, taken),
        sym (skip_slashes-elements path)
            ∙ ap elements e
            ∙ split
            ∙ ap (λ l. nonempty (extend c l)) shape
            ∙ ap (λ l. s ∷ l) (sym later ∙ sym (skip_slashes-elements r)),
        omega (
          arith,
          short,
          skip_slashes-short r,
          skip_slashes-short path,
          ap (λ (l : List ℕ). length l) e,
        ),
        skip_slashes-ends r,
      )
]

module _ (dirs : Dirs) where
  open dirs use {State, ilock, iunlock, iunlockput, iput, is_dir, dirlookup}

  -- `namex` by the elements of the path.
  pub follow : Bool → List (List ℕ) → List ℕ → ℕ → State → Option ℕ × List ℕ × State
  follow parent [] old ip s = if parent then (none, old, iput ip s) else (some ip, old, s)
  follow parent (e ∷ es) old ip s =
      let name = take dirsiz e in
      let s1 = ilock ip s in
      let (found, s2) = dirlookup ip name s1 in
      let s3 = iunlockput ip s2 in
      let on = λ (next : ℕ). follow parent es name next s3 in
      if not (is_dir ip s1)
      then (none, name, iunlockput ip s1)
      else if parent && no_elements es
      then (some ip, name, iunlock ip s1)
      else elim found [ none ↦ (none, name, s3) | some next ↦ on next ]

  namex_loop-follow :
      (f : ℕ) (parent : Bool) (path old : List ℕ) (ip : ℕ) (s : State)
      → length path < f
      → namex_loop dirs f parent path old ip s ≡ some (follow parent (elements path) old ip s)
  unfolding namex_loop follow
  namex_loop-follow zero parent path old ip s fuel = absurd (omega arith)
  namex_loop-follow (suc f) parent path old ip s fuel = elim (skipelem-elements path) [
    | inl (e, e') ↦ rw (namex_loop, e, e', follow)
    | inr (x, rest, e, e', short, ends) ↦
        let s1 = ilock ip s in
        rw (namex_loop, e, e', follow, ends)
          (elim (Bool-cases (is_dir ip s1)) [
            | inr file ↦ rw file
            | inl dir ↦ rw dir (elim (Bool-cases (parent && no_elements (elements rest))) [
              | inl last ↦ rw last
              | inr more ↦ rw more (elim (Option-cases (dirlookup ip (take dirsiz x) s1).0) [
                | inl missing ↦ rw missing
                | inr (next, found) ↦
                    rw found (namex_loop-follow f parent rest (take dirsiz x) next _ (omega arith))
              ])
            ])
          ])
  ]

  -- The last element of a path, as far as 14 characters; `name` for a path without elements.
  abbrev pub last_name : List (List ℕ) → List ℕ → List ℕ
  last_name [] name = name
  last_name (e ∷ es) name = last_name es (take dirsiz e)

  follow-name :
      (es : List (List ℕ)) (name : List ℕ) (ip : ℕ) (s : State) (parent : ℕ)
      → (follow true es name ip s).0 ≡ some parent
      → (follow true es name ip s).1 ≡ last_name es name
  unfolding follow
  follow-name [] name ip s parent h = cc
  follow-name (e ∷ []) name ip s parent h = ground arith
  follow-name (e ∷ e' ∷ es) name ip s parent h =
      let rest = λ (next : ℕ).
        follow-name (e' ∷ es) (take dirsiz e) next
          (iunlockput ip (dirlookup ip (take dirsiz e) (ilock ip s)).1) parent in
      elim (Bool-cases (is_dir ip (ilock ip s))) [
        | inr file ↦ cc (rw file at h)
        | inl dir ↦ elim (Option-cases (dirlookup ip (take dirsiz e) (ilock ip s)).0) [
          | inl missing ↦ cc (rw (dir, missing) at h)
          | inr (next, found) ↦ rw (dir, found) (rest next (rw (dir, found) at h))
        ]
      ]

  -- `namex` ends on every path, and does what the elements of the path say, from the root for a path
  -- that begins with a slash and from the current directory for others: each inode on the way is
  -- locked, tested, searched for the first 14 characters of the next element, and released; for the
  -- parent it stops before the last element. `name` then has the last element that was read, and when
  -- `nameiparent` returns a directory that is the final element of the path.
  pub namex-follow :
      (parent : Bool) (path name : List ℕ) (cwd : ℕ) (s : State)
      → (namex dirs parent path name cwd s
          ≡ some (
              follow parent
                (elements path)
                name
                (start dirs path cwd s).0
                (start dirs path cwd s).1))
        × ((dir : ℕ) (final : List ℕ) (s' : State)
            → namex dirs true path name cwd s ≡ some (some dir, final, s')
            → final ≡ last_name (elements path) name)
  unfolding namex
  namex-follow parent path name cwd s =
      let (ip, s1) = start dirs path cwd s in
      let ends =
        λ (b : Bool). namex_loop-follow (length path + 1) b path name ip s1 (omega arith) in
      (
        ends parent,
        λ dir final s' h.
            let is = some-eq (sym (ends true) ∙ h) in
            ap (λ (x : Option ℕ × List ℕ × State). x.1) (sym is)
            ∙ follow-name (elements path) name ip s1 dir
                (ap (λ (x : Option ℕ × List ℕ × State). x.0) is),
      )
