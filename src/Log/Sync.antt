-- ===== src/Log/Sync.antt =====
-- Commits outside of `end_op`: `log_write` without a transaction, and `log_sync`.
use xv7_mirror.Base.{
  ℕ, ◌+◌, ◌-◌, ◌*◌, ◌≡◌, ◌≢◌, ◌<◌, refl, ap, ◌∙◌, true, false, some, List, [], arith, ltb, ◌==◌,
  length, Bool-cases, inl, inr,
}
use xv7_mirror.Base.Mem.{has}
use xv7_mirror.Log.Cache.{Block, Store}
use xv7_mirror.Log.Target.{OffLog, SameData}
use xv7_mirror.Log.Commit.{Ready, commit_durable}
use xv7_mirror.Log.Reserve.{modify, append_lem}
use xv7_mirror.Log.Admit.{commit-fields}
use xv7_mirror.Log.{
  Log, logsize, maxopblocks, get_head, begin_op, append, commit, commit_last, end_op, committed,
  logged, after_end, after_append, ephemeral, log_write, log_sync,
}

-- The log while one system call is at work.
abbrev opened : Log → Log
opened l = record l { outstanding = 1 }

begin_op-idle :
    (l : Log) → l.outstanding ≡ 0 → l.committing ≡ false → l.lh ≡ [] → begin_op l ≡ some (opened l)
unfolding begin_op
begin_op-idle l o c e =
    let room : ltb logsize (length l.lh + 1 * maxopblocks) ≡ false = rw e in
    let one : l.outstanding + 1 ≡ 1 = omega arith in simp (c, room, one)

append-fields :
    (b : ℕ) (l : Log) (s : Store) {m : Log} {t : Store}
    → append b l s ≡ some (m, t)
    → (m.outstanding ≡ l.outstanding)
      × (m.committing ≡ l.committing)
      × (m.start ≡ l.start)
      × (m.size ≡ l.size)
      × (t.power ≡ s.power)
      × (t.cached ≡ s.cached)
unfolding append
append-fields b l s h = ground arith

-- The log whose commit is running.
abbrev closing : Log → Log
closing l = record l { outstanding = 0; committing = true }

end_op-last :
    (l : Log) (s : Store)
    → l.outstanding ≡ 1
    → l.committing ≡ false
    → end_op l s
      ≡ committed (record (commit (closing l) s).0 { committing = false }) (commit (closing l) s).1
unfolding end_op commit_last
end_op-last l s o c = let none_left : l.outstanding - 1 ≡ 0 = omega arith in simp (c, none_left)

Ready-same :
    (l m : Log) (s : Store)
    → m.lh ≡ l.lh
    → m.start ≡ l.start
    → m.size ≡ l.size
    → Ready l s
    → Ready m s
Ready-same l m s e f g r = record {
  head = rw f r.head;
  whole = rw f r.whole;
  whole_cached = rw f r.whole_cached;
  room = rw (e, g) r.room;
  small = rw e r.small;
  outside = rw (e, f, g) r.outside;
  rest = rw (e, f, g) r.rest;
}

has-nil : (a : ℕ) (bs : List ℕ) → bs ≡ [] → has a bs ≡ false
has-nil a bs e = ap (has a) e

log_write-last :
    (b : ℕ) (l m : Log) (s t : Store)
    → l.outstanding ≡ 0
    → begin_op l ≡ some (opened l)
    → append b (opened l) s ≡ some (m, t)
    → m.outstanding ≡ 1
    → m.committing ≡ false
    → log_write b l s
      ≡ logged (record (commit (closing m) t).0 { committing = false }) (commit (closing m) t).1
unfolding log_write ephemeral after_append after_end
log_write-last b l m s t o begun added mo mc =
    let idle : ltb l.outstanding 1 ≡ true = ground arith in
    rw (idle, begun, ephemeral, added, after_append, end_op-last m t mo mc, after_end)

-- A block outside of the log is changed and given to `log_write` while nobody is at work, the log is
-- empty and has room, and the machine does not stop. Then the block is on the disk with its new
-- contents, the other blocks outside of the log are as they were, and nobody is at work again.
pub log_write_lem :
    (b : ℕ) (c : Block) (l : Log) (s : Store)
    → Ready l s
    → l.lh ≡ []
    → l.outstanding ≡ 0
    → l.committing ≡ false
    → OffLog l.start l.size b
    → 1 < l.size
    → 3 < s.power
    → (m : Log) × (t : Store) × (log_write b l (modify b c s) ≡ logged m t)
      × (m.lh ≡ [])
      × (m.outstanding ≡ 0)
      × (m.committing ≡ false)
      × (t.disk b ≡ c)
      × ((a : ℕ) → OffLog l.start l.size a → a ≢ b → t.disk a ≡ s.disk a)
log_write_lem b c l s r e o co off room on =
    let none_pinned = λ (a : ℕ) (h : has a l.lh ≡ true).
      absurd {A = s.pinned a ≡ true} (cc (h, has-nil a l.lh e)) in
    let (m, t, eq, ready, pins, len, listed, new) =
      append_lem b c (opened l) s (Ready-same l (opened l) s refl refl refl r) none_pinned off
        (rw e (omega arith)) (rw e (omega arith)) in
    let (mo, mc, ms, mz, tp, tc) = append-fields b (opened l) (modify b c s) eq in
    let one : length m.lh ≡ 1 = len ∙ (rw e) in
    let done =
      commit_durable (closing m) t (Ready-same m (closing m) t refl refl refl ready)
        (omega arith) in
    (
      record (commit (closing m) t).0 { committing = false },
      (commit (closing m) t).1,
      log_write-last b l m (modify b c s) t o (begin_op-idle l o co e) eq (mo ∙ refl) (mc ∙ co),
      done.2,
      (commit-fields (closing m) t).0,
      refl,
      done.0 b (omega (arith, off)) ∙ new,
      (λ a out ne.
          let apart : (a == b) ≡ false = ground arith in
          done.0 a (omega (arith, out))
          ∙ ap (λ (f : ℕ → Block). f a) tc
          ∙ rw apart (r.rest a out (has-nil a l.lh e))),
    )

log_sync-commit : (l : Log) (s : Store) → log_sync l s ≡ commit l s
unfolding log_sync commit
log_sync-commit l s = elim (Bool-cases (ltb 0 (length l.lh))) [ inl h ↦ rw h | inr h ↦ rw h ]

-- `log_sync`, with a log that is ready and a machine that does not stop, leaves on the disk, outside
-- of the log, what the cache holds, whoever is at work, and an empty log both on the disk and in
-- memory; the number of system calls at work is as before.
pub log_sync_lem :
    (l : Log) (s : Store)
    → Ready l s
    → 2 * length l.lh + 1 < s.power
    → let (m, t) = log_sync l s in
      SameData l.start l.size t.disk s.cached
      × (get_head (t.disk l.start) ≡ [])
      × (m.lh ≡ [])
      × (m.outstanding ≡ l.outstanding)
log_sync_lem l s r enough =
    let (same, head, gone) = commit_durable l s r enough in
    rw (log_sync-commit l s) (same, head, gone, (commit-fields l s).0)
