-- ===== src/Log/Cache.antt =====
-- Blocks, and the state of disk and buffer cache that the log sees.
use xv7_mirror.Base.{
  ℕ, ◌-◌, ◌≡◌, ◌≢◌, ◌<◌, ◌⊎◌, Bool, false, List, arith, ltb, ◌==◌, if◌then◌else◌, get_or, set,
}

abbrev pub Block : Type 0
Block = List ℕ

-- A block has 512 bytes.
abbrev pub block_words : ℕ
block_words = 128

abbrev pub word : Block → ℕ → ℕ
word b i = get_or b i 0

abbrev pub set_word : Block → ℕ → ℕ → Block
set_word b i v = set b i v

abbrev pub update {ℓ} : {A : Type ℓ} → (ℕ → A) → ℕ → A → ℕ → A
update f b v a = if a == b then v else f a

pub record Store : Type 0 where
  pub disk : ℕ → Block
  pub cached : ℕ → Block
  pub pinned : ℕ → Bool
  pub power : ℕ

-- `bwrite` (and `iderw` below it): the buffer goes to the disk and is clean.
unfoldable pub bwrite : ℕ → Block → Store → Store
bwrite b c s = record {
  disk = if ltb 0 s.power then update s.disk b c else s.disk;
  cached = update s.cached b c;
  pinned = update s.pinned b false;
  power = s.power - 1;
}

-- The machine starts again with an empty cache: only the disk is left.
unfoldable pub reboot : ℕ → Store → Store
reboot power s = record { disk = s.disk; cached = s.disk; pinned = λ b. false; power = power }

-- A buffer that is not pinned may be recycled at any time; the next `bread` reads the disk.
unfoldable pub evict : ℕ → Store → Store
evict b s = if s.pinned b then s else record s { cached = update s.cached b (s.disk b) }

module _ (b : ℕ) (c : Block) (s : Store) where
  pub disk-bwrite : 0 < s.power → (bwrite b c s).disk b ≡ c
  unfolding bwrite
  disk-bwrite h = ground arith

  pub cached-bwrite : (bwrite b c s).cached b ≡ c
  unfolding bwrite
  cached-bwrite = ground arith

  pub power-bwrite : (bwrite b c s).power ≡ s.power - 1
  unfolding bwrite
  power-bwrite = ground arith

  pub cached-bwrite_ne : (a : ℕ) → a ≢ b → (bwrite b c s).cached a ≡ s.cached a
  unfolding bwrite
  cached-bwrite_ne a h = ground arith

  pub disk-bwrite_ne : (a : ℕ) → a ≢ b → (bwrite b c s).disk a ≡ s.disk a
  unfolding bwrite
  disk-bwrite_ne a h = ground arith

  pub disk-bwrite_off : s.power ≡ 0 → (a : ℕ) → (bwrite b c s).disk a ≡ s.disk a
  unfolding bwrite
  disk-bwrite_off h a = ground arith

  -- With or without power, each block of the disk is as before or is the one written.
  pub disk-bwrite_either :
      (a : ℕ) → ((bwrite b c s).disk a ≡ s.disk a) ⊎ ((a ≡ b) × ((bwrite b c s).disk a ≡ c))
  unfolding bwrite
  disk-bwrite_either a = ground arith
