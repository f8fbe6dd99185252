-- ===== src/PathName/Walk.antt =====
-- `namex` goes from inode to inode along the elements of the path.
use mathlib.Core.Option
use xv7_mirror.Base.Mem.{All}
use xv7_mirror.Base.{
  ℕ, zero, suc, ◌≡◌, ◌<◌, ap, ◌∙◌, Bool, true, false, Option, none, some, List, [], ◌∷◌, arith,
  ◌==◌, if◌then◌else◌, length, take, Bool-cases, Option-cases, inl, inr, subst,
}
use xv7_mirror.PathName.{slash, namex, dirsiz, skipelem, store_name, name_of, walk}
use xv7_mirror.PathName.Elements.{
  elements-NoNul, elements, NoNul, SkipSpec, skipelem-SkipSpec, name_of-store_name,
}

module _ {ℓ} {I : Type ℓ} (is_dir : I → Bool) (lookup : I → List ℕ → Option I) where
  -- The inode that the elements lead to, each looked up in the directory before it.
  pub resolve : I → List (List ℕ) → Option I
  resolve ip [] = some ip
  resolve ip (e ∷ es) = elim (is_dir ip) [
    | false ↦ none
    | true ↦ elim (lookup ip (take dirsiz e)) [
      | none ↦ none
      | some following ↦ resolve following es
    ]
  ]

  walk-resolve :
      (fuel : ℕ) (ip : I) (path name : List ℕ)
      → All NoNul (elements path)
      → length path < fuel
      → Option.map (λ (r : Option I × List ℕ). r.0) (walk is_dir lookup fuel false ip path name)
        ≡ some (resolve ip (elements path))
  unfolding walk resolve
  walk-resolve zero ip path name h l = absurd (omega arith)
  walk-resolve (suc fuel) ip path name h l = elim (Option-cases (skipelem path name)) [
    | inl q ↦
        let ended : elements path ≡ [] =
          (unfold SkipSpec in subst (SkipSpec path name) q (skipelem-SkipSpec path name)) in
        rw (q, walk, ended)
    | inr (r, q) ↦
        let (e, split, stored, less) = got r q in
        let (clean, cleans) = subst (All NoNul) split h in
        let called : name_of r.1 ≡ take dirsiz e =
          ap name_of stored ∙ name_of-store_name e name clean in
        elim (Bool-cases (is_dir ip)) [
          | inl d ↦ elim (Option-cases (lookup ip (take dirsiz e))) [
            | inl f ↦
                let spec : resolve ip (e ∷ elements r.0) ≡ none = rw (d, f, resolve) in
                rw (q, walk, split, d, called, f, spec)
            | inr (next, f) ↦
                rw (q, walk, split, d, called, f, resolve)
                  (walk-resolve fuel next r.0 r.1 cleans (omega (arith, less)))
          ]
          | inr d ↦
              let spec : resolve ip (e ∷ elements r.0) ≡ none = rw (d, resolve) in
              rw (q, walk, split, d, spec)
        ]
  ]
    where
      got :
          (r : List ℕ × List ℕ)
          → skipelem path name ≡ some r
          → (e : List ℕ) × (elements path ≡ e ∷ elements r.0)
            × (r.1 ≡ store_name e name)
            × (length r.0 < length path)
      got r q = unfold SkipSpec in subst (SkipSpec path name) q (skipelem-SkipSpec path name)

-- Where `namex` starts.
abbrev pub start {ℓ} : {I : Type ℓ} → I → I → List ℕ → I
start root cwd [] = cwd
start root cwd (c ∷ cs) = if c == slash then root else cwd

-- For a path without NUL and more rounds than it has characters, `namex` ends, and returns what the
-- elements of the path lead to from the root, if the path begins with a slash, or else from the
-- current directory: each element, cut off at DIRSIZ characters, is looked up in the inode before it,
-- and the result is null as soon as one is not found or the inode before it is no directory.
pub namex_lem {ℓ} :
    {I : Type ℓ} (is_dir : I → Bool) (lookup : I → List ℕ → Option I) (fuel : ℕ) (root cwd : I)
    (path name : List ℕ)
    → NoNul path
    → length path < fuel
    → Option.map
        (λ (r : Option I × List ℕ). r.0)
        (namex is_dir lookup fuel false root cwd path name)
      ≡ some (resolve is_dir lookup (start root cwd path) (elements path))
unfolding namex
namex_lem is_dir lookup fuel root cwd [] name h l =
    walk-resolve is_dir lookup fuel cwd [] name (elements-NoNul [] h) l
namex_lem is_dir lookup fuel root cwd (c ∷ cs) name h l =
    walk-resolve is_dir lookup fuel (start root cwd (c ∷ cs)) (c ∷ cs) name
      (elements-NoNul (c ∷ cs) h) l
