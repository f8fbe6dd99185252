-- ===== src/Bmap/Words.antt =====
-- Words in a block.
use xv7_mirror.Base.{ℕ, ◌+◌, ◌*◌, ◌^◌, ◌<◌, ◌≡◌, ◌≢◌, arith}
use xv7_mirror.Str.{Mem, store, store32}
use xv7_mirror.FreeMap.Bits.{IsBytes}
use xv7_mirror.Bmap.{word, set_word}

pub word-set_self : (m : Mem) (i v : ℕ) → v < 2 ^ 32 → word (set_word i v m) i ≡ v
unfolding word set_word store32 store
word-set_self m i v h = ground arith

pub word-set_other : (m : Mem) (i j v : ℕ) → i ≢ j → word (set_word i v m) j ≡ word m j
unfolding word set_word store32 store
word-set_other m i j v h = ground arith

pub set_word-IsBytes : (m : Mem) (i v : ℕ) → IsBytes m → IsBytes (set_word i v m)
unfolding set_word store32 store
set_word-IsBytes m i v h a = ground (arith, h a)

pub word_blank : (m : Mem) (i : ℕ) → ((a : ℕ) → a < 512 → m a ≡ 0) → i < 128 → word m i ≡ 0
unfolding word
word_blank m i h lt = omega (
  arith,
  h (4 * i) (omega arith),
  h (4 * i + 1) (omega arith),
  h (4 * i + 2) (omega arith),
  h (4 * i + 3) (omega arith),
)
