-- ===== src/Log/Target.antt =====
-- The disks from which recovery arrives at given contents.
use xv7_mirror.Base.{ℕ, ◌+◌, ◌≡◌, ◌≤◌, ◌<◌, ◌⊎◌, ◌∙◌, false, List, [], ◌∷◌, arith, length}
use xv7_mirror.Base.Mem.{has, All}
use xv7_mirror.Log.Cache.{Block, block_words}
use xv7_mirror.Log.{get_head}

-- The blocks of the log: its header and the slots.
abbrev pub InLog : ℕ → ℕ → ℕ → Type 0
InLog start size b = (start ≤ b) × (b < start + size)

abbrev pub OffLog : ℕ → ℕ → ℕ → Type 0
OffLog start size b = (b < start) ⊎ (start + size ≤ b)

-- The slots from `slot` on hold the target's contents of the blocks `bs`.
abbrev pub Slots : (ℕ → Block) → (ℕ → Block) → ℕ → List ℕ → Type 0
Slots target d slot [] = Unit
Slots target d slot (b ∷ bs) = (d slot ≡ target b) × Slots target d (slot + 1) bs

-- The log on disk `d` lists blocks outside of it, holds what they are to become, and every block
-- that it does not list is already as the target has it.
pub record Holds (start size : ℕ) (target d : ℕ → Block) (bs : List ℕ) : Type 0 where
  pub head : get_head (d start) ≡ bs
  pub whole : length (d start) ≡ block_words
  pub room : length bs < size
  pub outside : All (OffLog start size) bs
  pub slots : Slots target d (start + 1) bs
  pub rest : (b : ℕ) → OffLog start size b → has b bs ≡ false → d b ≡ target b

-- Two disks have the same contents outside of the log.
abbrev pub SameData : ℕ → ℕ → (ℕ → Block) → (ℕ → Block) → Type 0
SameData start size d e = (b : ℕ) → OffLog start size b → d b ≡ e b

module _ (target d e : ℕ → Block) where
  pub Slots-same :
      (slot : ℕ) (bs : List ℕ)
      → ((b : ℕ) → slot ≤ b → b < slot + length bs → e b ≡ d b)
      → Slots target d slot bs
      → Slots target e slot bs
  Slots-same slot [] same h = tt
  Slots-same slot (b ∷ bs) same (h, hs) = (
    same slot (omega arith) (omega arith) ∙ h,
    Slots-same (slot + 1) bs (λ a lo hi. same a (omega arith) (omega arith)) hs,
  )
