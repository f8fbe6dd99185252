-- ===== src/File/Chunks.antt =====
-- `filewrite` over an inode: the pieces in which it hands the bytes to `writei`.
use xv7_mirror.Base.{ℕ, zero, suc, ◌+◌, ◌-◌, ◌*◌, Option, ltb, if◌then◌else◌}
use xv7_mirror.File.{max_chunk}

-- The size of piece `k` of `n` bytes.
abbrev pub piece : ℕ → ℕ → ℕ
piece n k = if ltb max_chunk (n - k * max_chunk) then max_chunk else n - k * max_chunk

module _ {ℓ} {S : Type ℓ} (writei : S → (from off n : ℕ) → Option ℕ × S) where
  -- The pieces from `k` on, `todo` of them, are written one behind the other.
  pub pieces : (todo k n off : ℕ) → S → S
  pieces zero k n off s = s
  pieces (suc todo) k n off s =
      pieces todo (k + 1) n off (writei s (k * max_chunk) (off + k * max_chunk) (piece n k)).1
