-- ===== src/Log.antt =====
-- kernel/log.c: the physical redo log.
-- The log works on blocks through the buffer cache, which is modelled by its promise: `cached b` is
-- what a `bread` of block `b` returns, `disk b` what the disk holds, and a buffer that is `pinned`
-- (B_DIRTY) keeps its place in the cache. A block is its 128 words, which is how `struct logheader`
-- reads one. `power` is the number of writes that the disk still carries out before the machine
-- stops, so that each value of it is one crash; the code itself never looks at it.
-- The array `log.lh.block` is the list of its first `log.lh.n` entries; the code reads no other.
pub mod Cache
pub mod Head
pub mod Target
pub mod Recovery
pub mod Copy
pub mod Commit
pub mod Reserve
pub mod Admit
pub mod Sync
mod Examples
use xv7_mirror.Base.{
  ℕ, zero, suc, ◌+◌, ◌-◌, ◌*◌, Bool, true, false, ◌&&◌, ◌||◌, Option, none, some, List, [], ◌∷◌,
  ◌++◌, ltb, leb, ◌==◌, if◌then◌else◌, length,
}
use xv7_mirror.Base.Mem.{has}
use xv7_mirror.Log.Cache.{Block, Store, bwrite, word, set_word}

abbrev pub maxopblocks : ℕ
maxopblocks = 20

abbrev pub logsize : ℕ
logsize = maxopblocks * 3

-- `struct log`, less its lock and device number.
pub record Log : Type 0 where
  pub start : ℕ
  pub size : ℕ
  pub outstanding : ℕ
  pub committing : Bool
  pub lh : List ℕ

-- `hb->block[i] = log.lh.block[i]`, from index `i` of the header on; `hb->n` is word 0.
pub put_words : Block → ℕ → List ℕ → Block
put_words hb i [] = hb
put_words hb i (b ∷ bs) = put_words (set_word hb i b) (i + 1) bs

unfoldable pub put_head : Block → List ℕ → Block
unfolding put_words
put_head hb lh = put_words (set_word hb 0 (length lh)) 1 lh

pub get_words : Block → ℕ → ℕ → List ℕ
get_words hb i zero = []
get_words hb i (suc n) = word hb i ∷ get_words hb (i + 1) n

unfoldable pub get_head : Block → List ℕ
unfolding get_words
get_head hb = get_words hb 1 (word hb 0)

-- `read_head`: the list that becomes `log.lh`.
pub read_head : ℕ → Store → List ℕ
read_head start s = get_head (s.cached start)

pub write_head : ℕ → List ℕ → Store → Store
write_head start lh s = bwrite start (put_head (s.cached start) lh) s

-- The loop of `install_trans`, from log block `slot` on.
pub install_loop : List ℕ → ℕ → Store → Store
install_loop [] slot s = s
install_loop (b ∷ bs) slot s = install_loop bs (slot + 1) (bwrite b (s.cached slot) s)

pub install_trans : ℕ → List ℕ → Store → Store
install_trans start lh s = install_loop lh (start + 1) s

-- The loop of `write_log`.
pub write_log_loop : List ℕ → ℕ → Store → Store
write_log_loop [] slot s = s
write_log_loop (b ∷ bs) slot s = write_log_loop bs (slot + 1) (bwrite slot (s.cached b) s)

pub write_log : ℕ → List ℕ → Store → Store
write_log start lh s = write_log_loop lh (start + 1) s

-- `recover_from_log`; `log.lh.n` is 0 behind it.
pub recover_from_log : ℕ → Store → Store
recover_from_log start s = write_head start [] (install_trans start (read_head start s) s)

-- `initlog`: the log of the superblock's geometry, after recovery.
pub initlog : (logstart nlog : ℕ) → Store → Log × Store
initlog logstart nlog s = (
  record { start = logstart; size = nlog; outstanding = 0; committing = false; lh = [] },
  recover_from_log logstart s,
)

-- `commit`, and the list that is left in `log.lh`.
pub commit : Log → Store → Log × Store
commit l s =
    if ltb 0 (length l.lh)
    then (
      record l { lh = [] },
      write_head l.start []
          (install_trans l.start l.lh (write_head l.start l.lh (write_log l.start l.lh s))),
    )
    else (l, s)

-- One turn of the loop of `begin_op`: `none` sleeps on the log.
pub begin_op : Log → Option Log
begin_op l =
    if l.committing
    then none
    else if ltb logsize (length l.lh + (l.outstanding + 1) * maxopblocks)
    then none
    else some (record l { outstanding = l.outstanding + 1 })

-- How `end_op` goes: it stops the machine, hands reserved space back, or commits.
pub data Ended : Type 0 where
  panics : Ended
  released : Log → Ended
  committed : Log → Store → Ended

-- The commit that `end_op` runs without holding the lock, `committing` being set.
commit_last : Log → Store → Ended
commit_last l s =
    let (l', s') = commit (record l { committing = true }) s in
    committed (record l' { committing = false }) s'

-- `end_op` of a system call that `begin_op` has admitted, so that `outstanding` is not 0.
pub end_op : Log → Store → Ended
unfolding commit_last
end_op l s =
    let left = record l { outstanding = l.outstanding - 1 } in
    if l.committing
    then panics
    else if left.outstanding == 0
    then commit_last left s
    else released left

-- `log.lh.block[i] = b->blockno` where `b` is not in the list yet, else nothing new (absorption).
pub absorb : List ℕ → ℕ → List ℕ
absorb [] b = b ∷ []
absorb (c ∷ cs) b = if c == b then b ∷ cs else c ∷ absorb cs b

-- The part of `log_write` behind its `begin_op`: `none` is the panic "too big a transaction".
pub append : ℕ → Log → Store → Option (Log × Store)
append b l s =
    if leb logsize (length l.lh) || leb (l.size - 1) (length l.lh)
    then none
    else some (record l { lh = absorb l.lh b }, record s { pinned = λ a. (a == b) || s.pinned a })

-- How `log_write` goes: `sleeps` is its own `begin_op` that has to wait.
pub data Logged : Type 0 where
  stops : Logged
  sleeps : Logged
  logged : Log → Store → Logged

after_end : Store → Ended → Logged
after_end s panics = stops
after_end s (released l) = logged l s
after_end s (committed l t) = logged l t

after_append : Bool → Option (Log × Store) → Logged
unfolding after_end
after_append ephemeral none = stops
after_append ephemeral (some (l, s)) = if ephemeral then after_end s (end_op l s) else logged l s

ephemeral : ℕ → Option Log → Store → Logged
unfolding after_append
ephemeral b none s = sleeps
ephemeral b (some l) s = after_append true (append b l s)

-- `log_write`: outside of any transaction it runs one of its own.
pub log_write : ℕ → Log → Store → Logged
unfolding ephemeral after_append
log_write b l s =
    if ltb l.outstanding 1 then ephemeral b (begin_op l) s else after_append false (append b l s)

-- `log_sync` behind its wait: it commits what is logged, whoever is still at work.
pub log_sync : Log → Store → Log × Store
log_sync l s = if ltb 0 (length l.lh) then commit l s else (l, s)
