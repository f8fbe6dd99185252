-- ===== src/File/Examples.antt =====
-- Runs of kernel/file.c on a table of three files.
use xv7_mirror.Base.Mem.{count}
use xv7_mirror.Base.{
  ℕ, ◌+◌, ◌≡◌, ◌≢◌, ◌<◌, refl, false, Option, none, some, [], ◌∷◌, arith, ◌==◌, if◌then◌else◌,
  get_elem?, replicate,
}
use xv7_mirror.File.{
  File, fd_none, Ftable, filealloc, filedup, dup_at, fileclose, kept, gone, last_of, pipealloc,
}
use xv7_mirror.File.Holders.{opens, copies, Reach, here, next, refs_held}
use xv7_mirror.File.Pipes.{FreeIsNone, PipeSpec, pipealloc_lem}

abbrev free_file : File
free_file = record {
  type = fd_none;
  ref = 0;
  readable = false;
  writable = false;
  pipe = 0;
  ip = 0;
  off = 0;
  flags = 0;
}

-- File 0, taken and copied once.
abbrev copied : Ftable
copied = record free_file { ref = 2 } ∷ free_file ∷ free_file ∷ []

abbrev taken : Ftable
taken = record free_file { ref = 1 } ∷ free_file ∷ free_file ∷ []

filealloc_test : filealloc (replicate 3 free_file) ≡ (some 0, taken)
unfolding filealloc
filealloc_test = refl

filedup_test : filedup 0 taken ≡ some copied
unfolding filedup dup_at
filedup_test = refl

copied-Reach : Reach (replicate 3 free_file) [] copied (0 ∷ 0 ∷ [])
copied-Reach = next (next here (opens 0 filealloc_test)) (copies 0 (omega arith) filedup_test)

refs_held_example :
    ((i : ℕ) (g : File)
      → get_elem? copied i ≡ some g
      → (g.ref ≡ count i (0 ∷ 0 ∷ [])) × (g.ref ≡ 0 → g.type ≡ fd_none))
    × ((i : ℕ) → 0 < count i (0 ∷ 0 ∷ []) → filedup i copied ≢ none)
    × ((i : ℕ)
        → 0 < count i (0 ∷ 0 ∷ [])
        → (u : Ftable) × (g : File) × (get_elem? copied i ≡ some g)
          × (fileclose i copied
              ≡ (if count i (0 ∷ 0 ∷ []) == 1 then gone (last_of g) u else kept u)))
refs_held_example = refs_held 3 free_file refl refl copied-Reach

copied-FreeIsNone : FreeIsNone copied
copied-FreeIsNone i f e z = ((refs_held 3 free_file refl refl copied-Reach).0 i f e).1 z

pipealloc_lem_example : PipeSpec 0x8020_0000 copied (pipealloc 0x8020_0000 copied)
pipealloc_lem_example = pipealloc_lem 0x8020_0000 copied copied-FreeIsNone

-- A disk that takes all, and counts the bytes.
abbrev take_all : ℕ → (from off n : ℕ) → Option ℕ × ℕ
take_all total from off n = (some n, total + n)
