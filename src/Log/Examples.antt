-- ===== src/Log/Examples.antt =====
-- Runs of kernel/log.c on a log whose header is block 2.
use xv7_mirror.Base.{ℕ, ◌<◌, ◌≤◌, ◌≡◌, inr, refl, false, [], ◌∷◌, arith, ◌==◌, replicate}
use xv7_mirror.Log.Cache.{Block, Store, set_word, update, reboot}
use xv7_mirror.Log.Target.{SameData}
use xv7_mirror.Log.Recovery.{crashes, Recoverable, recover_lem}
use xv7_mirror.Log.Commit.{Ready, commit_atomic, commit_durable}
use xv7_mirror.Log.Reserve.{Pinned}
use xv7_mirror.Log.Admit.{Run, start}
use xv7_mirror.Log.{Log, get_words, get_head, recover_from_log, commit, initlog}

abbrev zeros : Block
zeros = replicate 128 0

abbrev fives : Block
fives = replicate 128 5

-- An empty log on the disk, and block 30 changed in the cache.
abbrev changed : ℕ → Store
changed power = record {
  disk = λ a. zeros;
  cached = update (λ a. zeros) 30 fives;
  pinned = λ a. a == 30;
  power = power;
}

abbrev one_block : Log
one_block = record { start = 2; size = 10; outstanding = 0; committing = false; lh = 30 ∷ [] }

get_head-zeros : get_head zeros ≡ []
unfolding get_head get_words
get_head-zeros = refl

changed-Ready : (power : ℕ) → Ready one_block (changed power)
changed-Ready power = record {
  head = get_head-zeros;
  whole = refl;
  whole_cached = refl;
  room = omega arith;
  small = omega arith;
  outside = (inr (omega arith), tt);
  rest = λ b off out. ground arith;
}

-- The machine stops behind the header, and then twice in recovery.
commit_atomic_example :
    let t = (commit one_block (changed 2)).1 in
    let d = (recover_from_log 2 (reboot 10 (crashes 2 (0 ∷ 1 ∷ []) t))).disk in
    (get_head (d 2) ≡ [])
    × (2 ≤ 1 → SameData 2 10 d (changed 2).disk)
    × (1 < 2 → SameData 2 10 d (changed 2).cached)
commit_atomic_example =
    commit_atomic one_block (changed 2) (0 ∷ 1 ∷ []) 10 (changed-Ready 2) (omega arith)

commit_durable_example :
    let d = (commit one_block (changed 20)).1.disk in
    SameData 2 10 d (changed 20).cached
    × (get_head (d 2) ≡ [])
    × ((commit one_block (changed 20)).0.lh ≡ [])
commit_durable_example = commit_durable one_block (changed 20) (changed-Ready 20) (omega arith)

-- A disk whose log holds block 30.
abbrev headed : Block
headed = set_word (set_word zeros 0 1) 1 30

abbrev crashed : Store
crashed = record {
  disk = update (update (λ a. zeros) 2 headed) 3 fives;
  cached = λ a. zeros;
  pinned = λ a. false;
  power = 0;
}

crashed-Recoverable : Recoverable 2 10 (update (λ a. zeros) 30 fives) crashed.disk
unfolding get_head get_words
crashed-Recoverable = (
  30 ∷ [],
  record {
    head = refl;
    whole = refl;
    room = omega arith;
    outside = (inr (omega arith), tt);
    slots = (refl, tt);
    rest = λ b off out. ground arith;
  },
)

recover_lem_example :
    let d = (recover_from_log 2 (reboot 10 (crashes 2 (1 ∷ []) crashed))).disk in
    SameData 2 10 d (update (λ a. zeros) 30 fives) × (get_head (d 2) ≡ [])
recover_lem_example =
    recover_lem 2 10 (update (λ a. zeros) 30 fives) (1 ∷ []) 10 crashed crashed-Recoverable
      (omega arith)

changed-Pinned : Pinned one_block (changed 20)
changed-Pinned b h = ground arith

-- One system call has begun.
abbrev begun : Run
begun = record {
  log = record { start = 2; size = 61; outstanding = 1; committing = false; lh = [] };
  store = (initlog 2 61 (changed 20)).1;
  left = 20 ∷ [];
}

abbrev calm : Store
calm = record { disk = λ a. zeros; cached = λ a. zeros; pinned = λ a. false; power = 4 }

abbrev idle : Log
idle = record { start = 2; size = 61; outstanding = 0; committing = false; lh = [] }

idle-Ready : Ready idle calm
idle-Ready = record {
  head = get_head-zeros;
  whole = refl;
  whole_cached = refl;
  room = omega arith;
  small = omega arith;
  outside = tt;
  rest = λ b off out. refl;
}
