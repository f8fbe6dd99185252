-- ===== src/Bmap/Examples.antt =====
-- Tests of `bmap` and `itrunc`, and their theorems at a small file.
use xv7_mirror.Base.{
  ℕ, zero, suc, ◌≡◌, ◌≢◌, refl, List, [], ◌∷◌, arith, ◌==◌, if◌then◌else◌, sym, ◌∙◌,
}
use xv7_mirror.FreeMap.{is_free}
use xv7_mirror.FreeMap.Examples.{small, device, device-IsFormatted}
use xv7_mirror.Bmap.{Content}
use xv7_mirror.Bmap.Nodes.{node, IsPlace, IsTree}
use xv7_mirror.Bmap.Steps.{node_of_zero}
use xv7_mirror.Bmap.Emptied.{Emptied}

-- One block of data, block 4.
abbrev pub file : Content
file = record { addrs = λ i. if i == 0 then 4 else 0; blocks = device }

nothing_else : (i : ℕ) (p : List ℕ) → i ≢ 0 → node file i p ≡ 0
unfolding node
nothing_else i [] ne = ground arith
nothing_else i (k ∷ p) ne = node_of_zero file i k p (nothing_else i p ne)

only_block :
    (i : ℕ) (p : List ℕ)
    → IsPlace i p
    → node file i p ≢ 0
    → (i ≡ 0) × (p ≡ []) × (node file i p ≡ 4)
unfolding node
only_block zero [] pl nz = (refl, refl, refl)
only_block zero (k ∷ p) pl nz = absurd (omega arith)
only_block (suc i) p pl nz = absurd (nz (nothing_else (suc i) p (λ e. omega arith)))

pub file-IsTree : IsTree small file
unfolding is_free
file-IsTree = record {
  formatted = device-IsFormatted;
  owned = λ i p pl nz.
      let (_, _, e) = only_block i p pl nz in
      rw e
        (record { inside = omega arith; taken = refl; apart = refl; nonzero = λ z. omega arith });
  once = λ i p j q pl pl' nz e.
      let (a, b, _) = only_block i p pl nz in
      let (c, d, _) = only_block j q pl' (λ z. nz (e ∙ z)) in (a ∙ sym c, b ∙ sym d);
}
