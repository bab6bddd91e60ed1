-- ===== src/Config/Search.antt =====
-- config/config.go: where `Load` and `LoadEnv` look for their files. A clean absolute path of Unix
-- is the list of its names, the last one first, so the root is the empty list. What the file system
-- and the process answer is an argument.
pub mod Nearest
use Prim.Native.Nat.{ℕ, zero, suc}
use go_user_system.Common.{
  String, Bool, true, false, ◌&&◌, ◌||◌, Option, none, some, List, [], ◌∷◌, ◌++◌, any, length,
  if◌then◌else◌, str_eq,
}
use go_user_system.Common.Text.{is_empty, strip_prefix}
use go_user_system.Config.Environment.{split}

abbrev pub Directory : Type 0
Directory = List String

-- `os.Stat` of a path as it was given and of a file that is no directory, `os.Getwd`,
-- `runtime.Caller(0)` and `os.Executable`.
pub record Files : Type 0 where
  pub exists : String → Bool
  pub is_file : Directory → Bool
  pub working_directory : Option String
  pub caller_file : Option String
  pub executable : Option String

abbrev pub is_present : Option String → Bool
is_present none = false
is_present (some s) = true

-- `filepath.IsAbs`
abbrev pub is_absolute : String → Bool
is_absolute s = is_present (strip_prefix "/" s)

-- `filepath.Dir`
abbrev pub parent_of : Directory → Directory
parent_of [] = []
parent_of (name ∷ dir) = dir

abbrev pub step : Directory → String → Directory
step dir part =
    if is_empty part || str_eq part "."
    then dir
    else if str_eq part ".."
    then parent_of dir
    else part ∷ dir

abbrev pub walk : Directory → List String → Directory
walk dir [] = dir
walk dir (part ∷ parts) = walk (step dir part) parts

-- `filepath.Join`
unfoldable pub join : Directory → String → Directory
join dir name = walk dir (split 47 name)

abbrev pub eq_directory : Directory → Directory → Bool
eq_directory [] [] = true
eq_directory [] (d ∷ ds) = false
eq_directory (c ∷ cs) [] = false
eq_directory (c ∷ cs) (d ∷ ds) = str_eq c d && eq_directory cs ds

-- `filepath.Abs` of the parts of a path, given the working directory.
abbrev pub resolve : Option String → Bool → List String → Option Directory
resolve wd true parts = some (walk [] parts)
resolve none false parts = none
resolve (some wd) false parts = some (walk (join [] wd) parts)

abbrev pub all_but_last : List String → List String
all_but_last [] = []
all_but_last (part ∷ []) = []
all_but_last (part ∷ next ∷ parts) = part ∷ all_but_last (next ∷ parts)

-- `addDir`, where the directories that have been seen are those of the list.
abbrev pub add_dir : List Directory → Option Directory → List Directory
add_dir dirs none = dirs
add_dir dirs (some dir) = if any (eq_directory dir) dirs then dirs else dirs ++ dir ∷ []

abbrev pub or_else : Option (Option Directory) → Option Directory → Option Directory
or_else (some (some path)) rest = some path
or_else (some none) rest = rest
or_else none rest = rest

-- The file that `Load` reads: the one that was given, or one that was found.
pub data Location : Type 0 where
  given : String → Location
  found : Directory → Location

abbrev pub given_or_found : String → Option Directory → Location
given_or_found path none = given path
given_or_found path (some dir) = found dir

module _ (files : Files) where
  open files use {is_file, working_directory}

  abbrev pub working : Option String → Option Directory
  working none = none
  working (some wd) =
      if is_empty wd then none else resolve working_directory (is_absolute wd) (split 47 wd)

  abbrev pub directory_of : Option String → Option Directory
  directory_of none = none
  directory_of (some file) =
      resolve working_directory (is_absolute file) (all_but_last (split 47 file))

  unfoldable pub search_start_dirs : List Directory
  search_start_dirs =
      let first = add_dir [] (working working_directory) in
      let second = add_dir first (directory_of files.caller_file) in
      add_dir second (directory_of files.executable)

  -- The fuel is the number of turns of the loop; none stands for a loop that goes on.
  unfoldable pub find_file_upward_from : ℕ → Directory → String → Option (Option Directory)
  find_file_upward_from zero dir name = none
  find_file_upward_from (suc fuel) dir name =
      let candidate = join dir name in
      let parent = parent_of dir in
      let rest = find_file_upward_from fuel parent name in
      if is_file candidate
      then some (some candidate)
      else if eq_directory parent dir
      then some none
      else rest

  -- A path has one turn more than it has names.
  unfoldable pub find_in : List Directory → String → Option Directory
  find_in [] name = none
  find_in (dir ∷ dirs) name =
      or_else (find_file_upward_from (suc (length dir)) dir name) (find_in dirs name)

  unfoldable pub find_file_upward : String → Option Directory
  find_file_upward name =
      let path = join [] name in
      if is_absolute name
      then if is_file path then some path else none
      else find_in search_start_dirs name

  unfoldable pub resolved_path : String → Location
  resolved_path path =
      if files.exists path then given path else given_or_found path (find_file_upward path)
