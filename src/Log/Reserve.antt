-- ===== src/Log/Reserve.antt =====
-- Space in the log: what `begin_op` reserves is enough for every admitted system call, and what
-- `log_write` records survives the recycling of buffers.
use xv7_mirror.Base.{
  ℕ, ◌+◌, ◌-◌, ◌≡◌, ◌<◌, inl, inr, refl, true, false, some, List, [], ◌∷◌, arith, leb, ◌==◌, ◌||◌,
  length, Bool-cases, if◌then◌else◌,
}
use xv7_mirror.Base.Mem.{has, All}
use xv7_mirror.Log.Cache.{Block, Store, update, evict}
use xv7_mirror.Log.Target.{OffLog}
use xv7_mirror.Log.Commit.{Ready}
use xv7_mirror.Log.{Log, logsize, absorb, append}

pub length-absorb :
    (bs : List ℕ) (b : ℕ) → length (absorb bs b) ≡ (if has b bs then length bs else length bs + 1)
unfolding absorb
length-absorb [] b = refl
length-absorb (c ∷ cs) b = ground (arith, length-absorb cs b)

has-absorb : (bs : List ℕ) (b a : ℕ) → has a (absorb bs b) ≡ ((b == a) || has a bs)
unfolding absorb
has-absorb [] b a = ground arith
has-absorb (c ∷ cs) b a = ground (arith, has-absorb cs b a)

All-absorb {ℓ} : (P : ℕ → Type ℓ) (bs : List ℕ) (b : ℕ) → P b → All P bs → All P (absorb bs b)
unfolding absorb
All-absorb P [] b h hs = (h, tt)
All-absorb P (c ∷ cs) b h (k, ks) = elim (Bool-cases (c == b)) [
  | inl e ↦ rw e (h, ks)
  | inr e ↦ rw e (k, All-absorb P cs b h ks)
]

-- A system call changes a buffer that it holds: `b->data` is now `c`.
abbrev pub modify : ℕ → Block → Store → Store
modify b c s = record s { cached = update s.cached b c }

-- Every logged block is pinned.
abbrev pub Pinned : Log → Store → Type 0
Pinned l s = (b : ℕ) → has b l.lh ≡ true → s.pinned b ≡ true

absorbed : ℕ → Log → Log
absorbed b l = record l { lh = absorb l.lh b }

pin : ℕ → Store → Store
pin b s = record s { pinned = λ a. (a == b) || s.pinned a }

append-some :
    (b : ℕ) (l : Log) (s : Store)
    → length l.lh < logsize
    → length l.lh + 1 < l.size
    → append b l s ≡ some (absorbed b l, pin b s)
unfolding append absorbed pin
append-some b l s h k = rw (small, fits)
  where
    small : leb logsize (length l.lh) ≡ false
    small = ground arith

    fits : leb (l.size - 1) (length l.lh) ≡ false
    fits = ground arith

absorbed-Ready :
    (b : ℕ) (c : Block) (l : Log) (s : Store)
    → Ready l s
    → OffLog l.start l.size b
    → length l.lh < logsize
    → length l.lh + 1 < l.size
    → Ready (absorbed b l) (pin b (modify b c s))
unfolding absorbed pin
absorbed-Ready b c l s r off h k = record {
  head = r.head;
  whole = r.whole;
  whole_cached =
      let apart : (l.start == b) ≡ false = ground (arith, r.room) in rw apart r.whole_cached;
  room = ground (arith, length-absorb l.lh b);
  small = ground (arith, length-absorb l.lh b);
  outside = All-absorb (OffLog l.start l.size) l.lh b off r.outside;
  rest = λ a out out_of. ground (arith, has-absorb l.lh b a, r.rest a out);
}

-- A block outside of the log is changed and then given to `log_write`, while the log has room for one
-- more block. Then the log stays ready to commit, its list grows by the block or, if the block was
-- listed already, not at all; every listed block stays pinned, and this one holds the new contents.
pub append_lem :
    (b : ℕ) (c : Block) (l : Log) (s : Store)
    → Ready l s
    → Pinned l s
    → OffLog l.start l.size b
    → length l.lh < logsize
    → length l.lh + 1 < l.size
    → (m : Log) × (t : Store) × (append b l (modify b c s) ≡ some (m, t))
      × Ready m t
      × Pinned m t
      × (length m.lh ≡ (if has b l.lh then length l.lh else length l.lh + 1))
      × (has b m.lh ≡ true)
      × (t.cached b ≡ c)
append_lem b c l s r p off h k = (
  absorbed b l,
  pin b (modify b c s),
  append-some b l (modify b c s) h k,
  absorbed-Ready b c l s r off h k,
  (λ a listed. unfold absorbed pin in ground (arith, has-absorb l.lh b a, p a)),
  (unfold absorbed in length-absorb l.lh b),
  (unfold absorbed in ground (arith, has-absorb l.lh b b)),
  (unfold pin in ground arith),
)

-- Recycling buffers loses nothing that is logged: the log stays ready to commit, and the cache
-- shows the same contents of every block outside of the log.
pub evict_lem :
    (a : ℕ) (l : Log) (s : Store)
    → Ready l s
    → Pinned l s
    → Ready l (evict a s)
      × Pinned l (evict a s)
      × ((b : ℕ) → OffLog l.start l.size b → (evict a s).cached b ≡ s.cached b)
unfolding evict
evict_lem a l s r p = elim (Bool-cases (s.pinned a)) [
  | inl kept ↦ rw kept (r, p, λ b off. refl)
  | inr free ↦ rw free (
    record {
      head = r.head;
      whole = r.whole;
      whole_cached = ground (arith, r.whole_cached, r.whole);
      room = r.room;
      small = r.small;
      outside = r.outside;
      rest = λ b off out. ground (arith, r.rest b off out);
    },
    p,
    λ b off. ground (arith, r.rest b off, p b),
  )
]
