-- ===== src/File/Pipes.antt =====
-- `pipealloc`: two files around one pipe, or the table as it was.
use mathlib.Core.Option
use xv7_mirror.Base.Modify.{
  modify, get-modify_self, get-modify_ne, modify-modify, modify_comm, modify_of_eq,
}
use xv7_mirror.Base.{
  ℕ, ◌-◌, ◌≡◌, ◌≢◌, refl, ap, sym, ◌∙◌, false, Option, none, some, arith, ltb, ◌==◌, get_elem?,
  Bool-cases, inl, inr, subst,
}
use xv7_mirror.File.{
  File, fd_none, Ftable, filealloc, fileclose, close_at, closed_table, read_side, write_side, Piped,
  piped, refused, stops, back, pipe_page, pipe_second, pipe_first, pipealloc,
}
use xv7_mirror.File.Refs.{AllocSpec, filealloc-AllocSpec}

-- A file that nobody holds has no type left.
abbrev pub FreeIsNone : Ftable → Type 0
FreeIsNone t = (i : ℕ) (f : File) → get_elem? t i ≡ some f → f.ref ≡ 0 → f.type ≡ fd_none

-- What the result of `pipealloc` says of the table before.
pub PipeSpec : (page : ℕ) → Ftable → Piped → Type 0
PipeSpec page t (piped i j u) =
    (page ≢ 0)
    × (i ≢ j)
    × (f : File) × (g : File) × (get_elem? t i ≡ some f)
    × (get_elem? t j ≡ some g)
    × (f.ref ≡ 0)
    × (g.ref ≡ 0)
    × (u
        ≡ modify (modify t i (λ x. read_side page (record x { ref = 1 }))) j
            (λ x. write_side page (record x { ref = 1 })))
PipeSpec page t (refused u) = u ≡ t
PipeSpec page t stops = ⊥

abbrev take_ref : File → File
take_ref f = record f { ref = 1 }

abbrev let_go : File → File
let_go f = record f { ref = 0; type = fd_none }

-- The close of a file that was just taken.
fileclose-taken :
    (t : Ftable) (i : ℕ) (f : File)
    → get_elem? t i ≡ some f
    → f.ref ≡ 1
    → closed_table (fileclose i t) ≡ some (modify t i let_go)
unfolding fileclose close_at
fileclose-taken t i f e one =
    let held : ltb f.ref 1 ≡ false = ground arith in
    let last : ltb 0 (f.ref - 1) ≡ false = ground arith in rw (e, close_at, held, last) refl

module _ (t : Ftable) (free : FreeIsNone t) where
  let_go-take_ref :
      (i : ℕ) (f : File) → get_elem? t i ≡ some f → f.ref ≡ 0 → let_go (take_ref f) ≡ f
  let_go-take_ref i f e z = λ j. record f { ref = sym z j; type = sym (free i f e z) j }

  put_back :
      (i : ℕ) (f : File)
      → get_elem? t i ≡ some f
      → f.ref ≡ 0
      → modify (modify t i take_ref) i let_go ≡ t
  put_back i f e z =
      modify-modify take_ref let_go t i
      ∙ modify_of_eq (λ x. let_go (take_ref x)) t i f e (let_go-take_ref i f e z)

  -- Two files are taken; the table with both.
  module _ (i j : ℕ) (f g : File) (at_i : get_elem? t i ≡ some f) (at_j : get_elem? t j ≡ some g)
      (zi : f.ref ≡ 0) (zj : g.ref ≡ 0) (apart : i ≢ j) where
    both : Ftable
    both = modify (modify t i take_ref) j take_ref

    both_at_i : get_elem? both i ≡ some (take_ref f)
    unfolding both
    both_at_i =
        get-modify_ne take_ref (modify t i take_ref) j i (λ e. apart (sym e))
        ∙ get-modify_self take_ref t i
        ∙ ap (Option.map take_ref) at_i

    left_at_j : get_elem? (modify both i let_go) j ≡ some (take_ref g)
    unfolding both
    left_at_j =
        get-modify_ne let_go both i j apart
        ∙ get-modify_self take_ref (modify t i take_ref) j
        ∙ ap (Option.map take_ref) (get-modify_ne take_ref t i j apart ∙ at_j)

    both_back : modify (modify both i let_go) j let_go ≡ t
    unfolding both
    both_back =
        ap (λ u. modify u j let_go)
          (modify_comm take_ref let_go (modify t i take_ref) j i (λ e. apart (sym e))
            ∙ ap (λ u. modify u j take_ref) (put_back i f at_i zi))
        ∙ put_back j g at_j zj

    pipe_page-PipeSpec : (page : ℕ) → PipeSpec page t (pipe_page i j page both)
    unfolding pipe_page back PipeSpec
    pipe_page-PipeSpec page = elim (Bool-cases (page == 0)) [
      | inl h ↦
          rw
            (
              h,
              fileclose-taken both i (take_ref f) both_at_i refl,
              fileclose-taken (modify both i let_go) j (take_ref g) left_at_j refl,
            )
            both_back
      | inr h ↦ rw h (ground arith, apart, f, g, at_i, at_j, zi, zj, unfold both in set_up)
    ]
      where
        set_up :
            modify (modify both i (read_side page)) j (write_side page)
            ≡ modify
                (modify t i (λ x. read_side page (take_ref x)))
                j
                (λ x. write_side page (take_ref x))
        set_up =
            unfold both in
            ap (λ u. modify u j (write_side page))
              (modify_comm take_ref (read_side page) (modify t i take_ref) j i (λ e. apart (sym e))
                ∙ ap (λ u. modify u j take_ref) (modify-modify take_ref (read_side page) t i))
            ∙ modify-modify take_ref (write_side page)
                (modify t i (λ x. read_side page (take_ref x))) j

  pipe_second-PipeSpec :
      (page i : ℕ) (f : File) (r : Option ℕ × Ftable)
      → get_elem? t i ≡ some f
      → f.ref ≡ 0
      → AllocSpec (modify t i take_ref) r.1 r.0
      → PipeSpec page t (pipe_second i page r)
  unfolding pipe_second back PipeSpec AllocSpec both
  pipe_second-PipeSpec page i f (none, u) e z (same, h) =
      let taken : get_elem? (modify t i take_ref) i ≡ some (take_ref f) =
        get-modify_self take_ref t i ∙ ap (Option.map take_ref) e in
      rw (same, fileclose-taken (modify t i take_ref) i (take_ref f) taken refl) (put_back i f e z)
  pipe_second-PipeSpec page i f (some j, u) e z (g, eg, zg, same) =
      let taken : get_elem? (modify t i take_ref) i ≡ some (take_ref f) =
        get-modify_self take_ref t i ∙ ap (Option.map take_ref) e in
      let apart : i ≢ j = λ same_ij.
        let one : take_ref f ≡ g =
          cc (taken, subst (λ k. get_elem? (modify t i take_ref) k ≡ some g) (sym same_ij) eg) in
        omega (arith, zg, ap (λ (x : File). x.ref) one) in
      rw same (
        pipe_page-PipeSpec i j f g e (sym (get-modify_ne take_ref t i j apart) ∙ eg) z zg apart
          page)

-- If no file of count 0 has a type left, `pipealloc` never stops the machine. It fails with the table
-- as it was; or it succeeds, with a page, two different files that nobody held and whose counts are
-- now 1, the first set up as the read end and the second as the write end of the pipe in the page.
pub pipealloc_lem : (page : ℕ) (t : Ftable) → FreeIsNone t → PipeSpec page t (pipealloc page t)
unfolding pipealloc AllocSpec
pipealloc_lem page t free = first (filealloc t) (filealloc-AllocSpec t)
  where
    first : (r : Option ℕ × Ftable) → AllocSpec t r.1 r.0 → PipeSpec page t (pipe_first page r)
    first (none, u) (same, h) = unfold pipe_first PipeSpec AllocSpec in same
    first (some i, u) s =
        unfold pipe_first AllocSpec in
        let (f, e, z, same) = s in
        subst (λ w. PipeSpec page t (pipe_second i page (filealloc w))) (sym same)
          (pipe_second-PipeSpec t free page i f (filealloc (modify t i take_ref)) e z
            (filealloc-AllocSpec (modify t i take_ref)))
