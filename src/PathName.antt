-- ===== src/PathName.antt =====
-- kernel/fs.c: skipelem and namex, which take a path apart and walk along it.
-- A path is the list of its characters up to the NUL, and `name` the array of DIRSIZ characters.
-- `namex` works on the inodes by `is_dir` (`ip->type == T_DIR`) and `lookup` (`dirlookup`, which compares
-- at most DIRSIZ characters); the locks and references that it takes are left out.
pub mod Elements
pub mod Walk
mod Examples
use xv7_mirror.Base.{
  ℕ, zero, suc, ◌+◌, Bool, true, false, ◌&&◌, not, Option, none, some, List, [], ◌∷◌, ◌++◌, leb,
  ◌==◌, if◌then◌else◌, length, take, drop,
}

abbrev pub dirsiz : ℕ
dirsiz = 14

abbrev pub slash : ℕ
slash = 47

-- `while (*path == '/') path++;`
pub skip_slashes : List ℕ → List ℕ
skip_slashes [] = []
skip_slashes (c ∷ cs) = let rest = skip_slashes cs in if c == slash then rest else c ∷ cs

-- `while (*path != '/' && *path != 0) path++;`: what is passed, and what is left.
pub element : List ℕ → List ℕ × List ℕ
element [] = ([], [])
element (c ∷ cs) = let (e, rest) = element cs in if c == slash then ([], c ∷ cs) else (c ∷ e, rest)

-- The element goes into `name`, with a NUL behind it if there is room.
pub store_name : List ℕ → List ℕ → List ℕ
store_name e name =
    if leb dirsiz (length e)
    then take dirsiz e ++ drop dirsiz name
    else e ++ (0 ∷ drop (length e + 1) name)

skip_from : List ℕ → List ℕ → Option (List ℕ × List ℕ)
skip_from [] name = none
skip_from (c ∷ cs) name =
    let (e, rest) = element (c ∷ cs) in some (skip_slashes rest, store_name e name)

-- `skipelem`: the rest of the path and the array; `none` is the null result.
pub skipelem : List ℕ → List ℕ → Option (List ℕ × List ℕ)
unfolding skip_from
skipelem path name = skip_from (skip_slashes path) name

-- The string in a name array.
abbrev pub until_nul : List ℕ → List ℕ
until_nul [] = []
until_nul (c ∷ cs) = if c == 0 then [] else c ∷ until_nul cs

abbrev pub name_of : List ℕ → List ℕ
name_of name = until_nul (take dirsiz name)

module _ {ℓ} {I : Type ℓ} (is_dir : I → Bool) (lookup : I → List ℕ → Option I) where
  -- The loop of `namex`: the inode (none is the null result) and the array; the outer `none` is out
  -- of fuel.
  pub walk : ℕ → Bool → I → List ℕ → List ℕ → Option (Option I × List ℕ)
  walk zero parent ip path name = none
  walk (suc fuel) parent ip path name = elim (skipelem path name) [
    | none ↦ some (if parent then none else some ip, name)
    | some (path', name') ↦ elim (is_dir ip) [
      | false ↦ some (none, name')
      | true ↦ elim (parent && (length path' == 0)) [
        | true ↦ some (some ip, name')
        | false ↦ elim (lookup ip (name_of name')) [
          | none ↦ some (none, name')
          | some following ↦ walk fuel parent following path' name'
        ]
      ]
    ]
  ]

  -- `namex`, from the root or the current directory.
  pub namex : ℕ → Bool → (root cwd : I) → List ℕ → List ℕ → Option (Option I × List ℕ)
  unfolding walk
  namex fuel parent root cwd [] name = walk fuel parent cwd [] name
  namex fuel parent root cwd (c ∷ cs) name =
      walk fuel parent (if c == slash then root else cwd) (c ∷ cs) name
