-- ===== src/Path.antt =====
-- CLab/xv6/kernel/fs.c: path names. A path is the list of its characters, and `name` the string that
-- stands in that buffer. Inodes are addresses; what `namex` asks of the rest of fs.c comes through
-- the interface `Dirs`.
pub mod Names
mod Tests
use team.Common.{
  ℕ, zero, suc, ◌+◌, ◌-◌, length, Bool, true, false, Option, none, some, List, [], ◌∷◌, ◌==◌, ◌&&◌,
  not, if◌then◌else◌,
}

abbrev pub slash : ℕ
slash = 47

abbrev pub dirsiz : ℕ
dirsiz = 14

abbrev pub take : ℕ → List ℕ → List ℕ
take zero cs = []
take (suc k) [] = []
take (suc k) (c ∷ cs) = c ∷ take k cs

-- `while (*path == '/') path++;`
unfoldable pub skip_slashes : List ℕ → List ℕ
skip_slashes [] = []
skip_slashes (c ∷ cs) = let rest = skip_slashes cs in if c == slash then rest else c ∷ cs

-- `while (*path != '/' && *path != 0) path++;`: what is passed over, and the rest.
unfoldable pub take_element : List ℕ → List ℕ × List ℕ
take_element [] = ([], [])
take_element (c ∷ cs) =
    let rest = take_element cs in if c == slash then ([], c ∷ cs) else (c ∷ rest.0, rest.1)

-- `skipelem`: the rest of the path and the name, or none for 0.
unfoldable pub skipelem : List ℕ → Option (List ℕ × List ℕ)
skipelem path = elim (skip_slashes path) [
  | [] ↦ none
  | c ∷ cs ↦ let (s, rest) = take_element (c ∷ cs) in some (skip_slashes rest, take dirsiz s)
]

pub record Dirs : Type 1 where
  pub State : Type 0
  pub iget_root : State → ℕ × State
  pub idup : ℕ → State → State
  pub ilock : ℕ → State → State
  pub iunlock : ℕ → State → State
  pub iunlockput : ℕ → State → State
  pub iput : ℕ → State → State
  pub is_dir : ℕ → State → Bool
  pub dirlookup : ℕ → List ℕ → State → Option ℕ × State

abbrev pub is_empty : List ℕ → Bool
is_empty [] = true
is_empty (c ∷ cs) = false

module _ (dirs : Dirs) where
  open dirs use {State, iget_root, idup, ilock, iunlock, iunlockput, iput, is_dir, dirlookup}

  -- The loop of `namex`, on fuel, at the inode `ip` (none for 0), with `name` as it stands: the inode
  -- and the last element that went into `name`.
  unfoldable pub namex_loop :
      ℕ → Bool → List ℕ → List ℕ → ℕ → State → Option (Option ℕ × List ℕ × State)
  namex_loop zero parent path old ip s = none
  namex_loop (suc f) parent path old ip s = elim (skipelem path) [
    | none ↦ some (if parent then (none, old, iput ip s) else (some ip, old, s))
    | some (rest, name) ↦
        let s1 = ilock ip s in
        let (found, s2) = dirlookup ip name s1 in
        let s3 = iunlockput ip s2 in
        let on = λ (next : ℕ). namex_loop f parent rest name next s3 in
        if not (is_dir ip s1)
        then some (none, name, iunlockput ip s1)
        else if parent && is_empty rest
        then some (some ip, name, iunlock ip s1)
        else elim found [ none ↦ some (none, name, s3) | some next ↦ on next ]
  ]

  -- Where `namex` begins; `cwd` is the current directory of the process.
  unfoldable pub start : List ℕ → ℕ → State → ℕ × State
  start [] cwd s = (cwd, idup cwd s)
  start (c ∷ cs) cwd s = if c == slash then iget_root s else (cwd, idup cwd s)

  -- `namex`; `namei` is it with false, `nameiparent` with true. `name` is what the buffer holds
  -- before.
  unfoldable pub namex : Bool → List ℕ → List ℕ → ℕ → State → Option (Option ℕ × List ℕ × State)
  namex parent path name cwd s =
      let (ip, s1) = start path cwd s in namex_loop (length path + 1) parent path name ip s1
