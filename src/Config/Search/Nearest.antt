-- ===== src/Config/Search/Nearest.antt =====
-- config/config.go: the loop of `findFileUpwardFrom` ends, and which file `findFileUpward` finds.
use Prim.Native.Nat.{ℕ, zero, suc, ◌<◌}
use go_user_system.Common.{
  String, true, false, Option, some, List, [], ◌∷◌, ◌++◌, map, first, length, arith, ◌≡◌, refl,
}
use go_user_system.Config.Search.{
  Directory, Files, eq_directory, join, is_absolute, find_file_upward_from, find_in, or_else,
  search_start_dirs, find_file_upward,
}

-- A directory and those above it, the nearest first.
abbrev pub upward : Directory → List Directory
upward [] = [] ∷ []
upward (name ∷ dir) = (name ∷ dir) ∷ upward dir

abbrev pub all_upward : List Directory → List Directory
all_upward [] = []
all_upward (dir ∷ dirs) = upward dir ++ all_upward dirs

eq_directory-length : (a b : Directory) → eq_directory a b ≡ true → length a ≡ length b
eq_directory-length [] [] h = refl
eq_directory-length [] (d ∷ ds) h = absurd (cc)
eq_directory-length (c ∷ cs) [] h = absurd (cc)
eq_directory-length (c ∷ cs) (d ∷ ds) h = ground (arith, eq_directory-length cs ds)

eq_directory-parent : (name : String) (dir : Directory) → eq_directory dir (name ∷ dir) ≡ false
eq_directory-parent name dir = ground (arith, eq_directory-length dir (name ∷ dir))

-- The first file that stands in one of some directories.
abbrev pub first_file : Files → String → List Directory → Option Directory
first_file files name dirs = first files.is_file (map (λ dir. join dir name) dirs)

-- The loop of `findFileUpwardFrom` ends after at most one turn more than the path of its directory
-- has names, with the first file of the name in the directory and those above it, the nearest first.
pub find_file_upward_from_ends :
    (files : Files) (fuel : ℕ) (dir : Directory) (name : String)
    → length dir < fuel
    → find_file_upward_from files fuel dir name ≡ some (first_file files name (upward dir))
unfolding find_file_upward_from
find_file_upward_from_ends files zero dir name h = absurd (omega arith)
find_file_upward_from_ends files (suc fuel) [] name h = ground arith
find_file_upward_from_ends files (suc fuel) (c ∷ dir) name h =
    rw (eq_directory-parent c dir, find_file_upward_from_ends files fuel dir name (omega arith))
      (ground arith)

module _ (files : Files) (name : String) where
  or_else-first :
      (xs ys : List Directory)
      → or_else (some (first_file files name xs)) (first_file files name ys)
        ≡ first_file files name (xs ++ ys)
  or_else-first [] ys = refl
  or_else-first (x ∷ xs) ys = ground (arith, or_else-first xs ys)

  find_in-first :
      (dirs : List Directory) → find_in files dirs name ≡ first_file files name (all_upward dirs)
  unfolding find_in
  find_in-first [] = refl
  find_in-first (dir ∷ dirs) =
      rw
        (
          find_file_upward_from_ends files (suc (length dir)) dir name (omega arith),
          find_in-first dirs,
        )
        (or_else-first (upward dir) (all_upward dirs))

-- A relative name is looked for in the working directory, then beside the source and beside the
-- executable, and from each in the directories above it: the first file of the name is found.
pub find_file_upward-first :
    (files : Files) (name : String)
    → is_absolute name ≡ false
    → find_file_upward files name ≡ first_file files name (all_upward (search_start_dirs files))
unfolding find_file_upward
find_file_upward-first files name relative =
    rw relative (find_in-first files name (search_start_dirs files))
