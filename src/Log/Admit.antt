-- ===== src/Log/Admit.antt =====
-- `begin_op`, `log_write` and `end_op` of the system calls that are at work, in any interleaving:
-- what `begin_op` reserves is enough.
use xv7_mirror.Base.{
  ℕ, zero, suc, ◌+◌, ◌-◌, ◌*◌, ◌≡◌, ◌≤◌, ◌<◌, ◌∙◌, true, false, some, List, [], ◌∷◌, arith, length,
  get_elem?, set, length-set,
}
use xv7_mirror.Base.Mem.{All}
use xv7_mirror.Log.Cache.{Store}
use xv7_mirror.Log.Commit.{commit-lh}
use xv7_mirror.Log.Reserve.{length-absorb}
use xv7_mirror.Log.{
  Log, maxopblocks, logsize, begin_op, released, committed, end_op, commit, commit_last, absorb,
  append, initlog,
}

-- The log, and for each system call between its `begin_op` and its `end_op` the number of blocks
-- that it may still write.
pub record Run : Type 0 where
  pub log : Log
  pub store : Store
  pub left : List ℕ

-- The list less its element `i`.
abbrev pub remove : List ℕ → ℕ → List ℕ
remove [] i = []
remove (r ∷ rs) zero = rs
remove (r ∷ rs) (suc i) = r ∷ remove rs i

-- One call of a system call at work. A system call that has used up its allowance writes no more.
pub data Step (r : Run) : Run → Type 0 where
  start :
      {l : Log}
      → begin_op r.log ≡ some l
      → Step r (record r { log = l; left = maxopblocks ∷ r.left })
  write :
      (i n b : ℕ) {l : Log} {s : Store}
      → get_elem? r.left i ≡ some (suc n)
      → append b r.log r.store ≡ some (l, s)
      → Step r (record { log = l; store = s; left = set r.left i n })
  release :
      (i n : ℕ) {l : Log}
      → get_elem? r.left i ≡ some n
      → end_op r.log r.store ≡ released l
      → Step r (record r { log = l; left = remove r.left i })
  last :
      (i n : ℕ) {l : Log} {s : Store}
      → get_elem? r.left i ≡ some n
      → end_op r.log r.store ≡ committed l s
      → Step r (record { log = l; store = s; left = remove r.left i })

pub data Reach (r : Run) : Run → Type 0 where
  here : Reach r r
  next : {t u : Run} → Reach r t → Step t u → Reach r u

abbrev pub sum : List ℕ → ℕ
sum [] = 0
sum (r ∷ rs) = r + sum rs

pub record Reserved (r : Run) : Type 0 where
  pub counts : r.log.outstanding ≡ length r.left
  pub fits : length r.log.lh + sum r.left ≤ logsize
  pub each : All (λ n. n ≤ maxopblocks) r.left
  pub quiet : r.log.committing ≡ false
  pub large : logsize < r.log.size

sum-set : (rs : List ℕ) (i n : ℕ) → get_elem? rs i ≡ some (suc n) → sum (set rs i n) + 1 ≡ sum rs
sum-set [] i n h = absurd (ground arith)
sum-set (r ∷ rs) zero n h = ground arith
sum-set (r ∷ rs) (suc i) n h = omega (arith, sum-set rs i n h)

sum-remove :
    (rs : List ℕ) (i n : ℕ)
    → get_elem? rs i ≡ some n
    → (sum (remove rs i) + n ≡ sum rs) × (length (remove rs i) + 1 ≡ length rs)
sum-remove [] i n h = absurd (ground arith)
sum-remove (r ∷ rs) zero n h = ground arith
sum-remove (r ∷ rs) (suc i) n h = omega (arith, sum-remove rs i n h)

sum-le : (rs : List ℕ) → All (λ n. n ≤ maxopblocks) rs → sum rs ≤ length rs * maxopblocks
sum-le [] h = omega arith
sum-le (r ∷ rs) (h, hs) = omega (arith, sum-le rs hs)

All-set :
    (rs : List ℕ) (i n : ℕ)
    → get_elem? rs i ≡ some (suc n)
    → All (λ n. n ≤ maxopblocks) rs
    → All (λ n. n ≤ maxopblocks) (set rs i n)
All-set [] i n e h = tt
All-set (r ∷ rs) zero n e (h, hs) = let same : r ≡ suc n = ground arith in (omega arith, hs)
All-set (r ∷ rs) (suc i) n e (h, hs) = (h, All-set rs i n e hs)

All-remove :
    (rs : List ℕ) (i : ℕ) → All (λ n. n ≤ maxopblocks) rs → All (λ n. n ≤ maxopblocks) (remove rs i)
All-remove [] i h = tt
All-remove (r ∷ rs) zero (h, hs) = hs
All-remove (r ∷ rs) (suc i) (h, hs) = (h, All-remove rs i hs)

append-fields :
    (b : ℕ) (l : Log) (s : Store) {m : Log} {t : Store}
    → append b l s ≡ some (m, t)
    → (m.lh ≡ absorb l.lh b)
      × (m.outstanding ≡ l.outstanding)
      × (m.committing ≡ l.committing)
      × (m.size ≡ l.size)
unfolding append
append-fields b l s h = ground arith

released-fields :
    (l : Log) (s : Store) {m : Log}
    → end_op l s ≡ released m
    → (m.lh ≡ l.lh)
      × (m.outstanding ≡ l.outstanding - 1)
      × (m.committing ≡ l.committing)
      × (m.size ≡ l.size)
unfolding end_op commit_last
released-fields l s h = ground arith

pub commit-fields :
    (l : Log) (s : Store)
    → ((commit l s).0.outstanding ≡ l.outstanding) × ((commit l s).0.size ≡ l.size)
unfolding commit
commit-fields l s = ground arith

committed-fields :
    (l : Log) (s : Store) {m : Log} {t : Store}
    → end_op l s ≡ committed m t
    → (m.lh ≡ [])
      × (m.outstanding ≡ 0)
      × (l.outstanding - 1 ≡ 0)
      × (m.committing ≡ false)
      × (m.size ≡ l.size)
unfolding end_op commit_last
committed-fields l s h = ground (arith, commit-lh closing s, commit-fields closing s)
  where
    closing : Log
    closing = record l { outstanding = l.outstanding - 1; committing = true }

begin-fields :
    (l : Log) {m : Log}
    → begin_op l ≡ some m
    → (m.lh ≡ l.lh)
      × (m.outstanding ≡ l.outstanding + 1)
      × (m.committing ≡ false)
      × (m.size ≡ l.size)
      × (length l.lh + (l.outstanding + 1) * maxopblocks ≤ logsize)
unfolding begin_op
begin-fields l h = ground arith

Step-Reserved : {r t : Run} → Step r t → Reserved r → Reserved t
Step-Reserved {r} (start {l} e) v =
    let f = begin-fields r.log e in
    record {
      counts = omega (arith, f, v.counts);
      fits = ground (arith, f, v.fits, v.counts, sum-le r.left v.each);
      each = (omega arith, v.each);
      quiet = f.2;
      large = omega (arith, f, v.large);
    }
Step-Reserved {r} (write i n b {l} {s} e a) v = record {
  counts = omega (arith, append-fields b r.log r.store a, v.counts, length-set r.left i n);
  fits = ground (
    arith,
    append-fields b r.log r.store a,
    v.fits,
    length-absorb r.log.lh b,
    sum-set r.left i n e,
  );
  each = All-set r.left i n e v.each;
  quiet = (append-fields b r.log r.store a).2 ∙ v.quiet;
  large = omega (arith, append-fields b r.log r.store a, v.large);
}
Step-Reserved {r} (release i n {l} e a) v = record {
  counts = omega (arith, released-fields r.log r.store a, v.counts, sum-remove r.left i n e);
  fits = ground (arith, released-fields r.log r.store a, v.fits, sum-remove r.left i n e);
  each = All-remove r.left i v.each;
  quiet = (released-fields r.log r.store a).2 ∙ v.quiet;
  large = omega (arith, released-fields r.log r.store a, v.large);
}
Step-Reserved {r} (last i n {l} {s} e a) v = record {
  counts = omega (arith, committed-fields r.log r.store a, v.counts, sum-remove r.left i n e);
  fits = ground (
    arith,
    committed-fields r.log r.store a,
    v.counts,
    sum-remove r.left i n e,
    sum-le (remove r.left i) (All-remove r.left i v.each),
  );
  each = All-remove r.left i v.each;
  quiet = (committed-fields r.log r.store a).3;
  large = omega (arith, committed-fields r.log r.store a, v.large);
}

pub Reach-Reserved : {r t : Run} → Reach r t → Reserved r → Reserved t
Reach-Reserved here v = v
Reach-Reserved (next h st) v = Step-Reserved st (Reach-Reserved h v)

-- The log as `initlog` leaves it, with nobody at work.
abbrev pub booted : ℕ → ℕ → Store → Run
booted logstart nlog s = record {
  log = (initlog logstart nlog s).0;
  store = (initlog logstart nlog s).1;
  left = [];
}
