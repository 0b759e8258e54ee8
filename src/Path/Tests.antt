-- ===== src/Path/Tests.antt =====
-- Paths over two inodes, 1 the root and 2 a directory `a` in it; the state lists what is locked.
use team.Common.{ℕ, ◌≡◌, refl, true, none, some, List, [], ◌∷◌, ◌==◌, if◌then◌else◌}
use team.Path.{Dirs, skipelem, start, namex, namex_loop, skip_slashes, take_element}
use team.Path.Names.{elements, follow, namex-follow}

abbrev tree : Dirs
tree = record {
  State = List ℕ;
  iget_root = λ s. (1, s);
  idup = λ ip s. s;
  ilock = λ ip s. ip ∷ s;
  iunlock = λ ip s. s;
  iunlockput = λ ip s. s;
  iput = λ ip s. s;
  is_dir = λ ip s. true;
  dirlookup = λ ip name s. (if ip == 1 then some 2 else none, s);
}

-- "//a//b"
abbrev path : List ℕ
path = 47 ∷ 47 ∷ 97 ∷ 47 ∷ 47 ∷ 98 ∷ []

namex-follow_example :
    (namex tree true path [] 5 []
      ≡ some
          (follow tree true (elements path) [] (start tree path 5 []).0 (start tree path 5 []).1))
    × ((dir : ℕ) (final s' : List ℕ)
        → namex tree true path [] 5 [] ≡ some (some dir, final, s')
        → final ≡ 98 ∷ [])
namex-follow_example = namex-follow tree true path [] 5 []

-- The parent of `b` is the inode 2, and `name` is "b".
parent_of : namex tree true path [] 5 [] ≡ some (some 2, 98 ∷ [], 2 ∷ 1 ∷ [])
unfolding namex start namex_loop skipelem skip_slashes take_element
parent_of = refl
