-- ===== src/Log/Commit.antt =====
-- `commit`: a transaction reaches the disk whole or not at all, wherever the machine stops.
use xv7_mirror.Base.{
  ℕ, ◌+◌, ◌-◌, ◌*◌, ◌≡◌, ◌≤◌, ◌<◌, ◌⊎◌, inl, inr, refl, ap, sym, ◌∙◌, false, List, [], ◌∷◌, arith,
  ltb, length, Bool-cases, lt→ltb, ltb→lt, ltb_false→le, subst,
}
use xv7_mirror.Base.Mem.{has, All}
use xv7_mirror.Log.Cache.{
  block_words, Store, bwrite, reboot, cached-bwrite_ne, disk-bwrite_ne, disk-bwrite, cached-bwrite,
  power-bwrite,
}
use xv7_mirror.Log.Head.{length-put_head, get_head-put_head}
use xv7_mirror.Log.Target.{OffLog, Slots, Holds, SameData, Slots-same}
use xv7_mirror.Log.Recovery.{Recoverable, install-Holds, write_head-off, crashes, recover_lem}
use xv7_mirror.Log.{
  Log, put_head, get_head, write_head, install_loop, install_trans, write_log_loop, write_log,
  commit, recover_from_log,
}
use xv7_mirror.Log.Copy.{Copied, write_log_loop-Copied, install_loop-off}

-- Between two commits: the header on disk is empty, `log.lh` lists blocks outside of the log and fits
-- in it, and every block that it does not list is on disk as it is in the cache.
pub record Ready (l : Log) (s : Store) : Type 0 where
  pub head : get_head (s.disk l.start) ≡ []
  pub whole : length (s.disk l.start) ≡ block_words
  pub whole_cached : length (s.cached l.start) ≡ block_words
  pub room : length l.lh < l.size
  pub small : length l.lh < block_words
  pub outside : All (OffLog l.start l.size) l.lh
  pub rest : (b : ℕ) → OffLog l.start l.size b → has b l.lh ≡ false → s.cached b ≡ s.disk b

module _ (l : Log) (s : Store) (r : Ready l s) where
  copied : Store
  copied = write_log_loop l.lh (l.start + 1) s

  copied-Copied : Copied l.start l.size s.cached l.lh (l.start + 1) s copied
  unfolding copied
  copied-Copied =
      write_log_loop-Copied l.start l.size s.cached l.lh (l.start + 1) s (omega arith)
        (omega (arith, r.room)) r.outside (λ b off. refl)

  headed : Store
  headed = write_head l.start l.lh copied

  -- The log that is whole on the disk once its header is written.
  headed-Holds : length l.lh < s.power → Holds l.start l.size s.cached headed.disk l.lh
  unfolding headed write_head
  headed-Holds on =
      let c = copied-Copied in
      let hb = put_head (copied.cached l.start) l.lh in
      let whole : length (copied.cached l.start) ≡ block_words =
        ap length (c.cache_same l.start (omega arith)) ∙ r.whole_cached in
      let head : (bwrite l.start hb copied).disk l.start ≡ hb =
        disk-bwrite l.start hb copied (omega (arith, c.power)) in
      record {
        head = ap get_head head ∙ get_head-put_head (copied.cached l.start) l.lh whole r.small;
        whole = ap length head ∙ length-put_head (copied.cached l.start) l.lh ∙ whole;
        room = r.room;
        outside = r.outside;
        slots =
            Slots-same s.cached copied.disk (bwrite l.start hb copied).disk (l.start + 1) l.lh
              (λ a lo hi. disk-bwrite_ne l.start hb copied a (omega arith))
              (c.on_disk (omega arith));
        rest = λ b off out.
            disk-bwrite_ne l.start hb copied b (omega (arith, r.room))
            ∙ c.disk_same b (omega (arith, r.room))
            ∙ sym (r.rest b off out);
      }

  headed-Slots :
      (length (headed.cached l.start) ≡ block_words)
      × Slots s.cached headed.cached (l.start + 1) l.lh
  unfolding headed write_head
  headed-Slots =
      let c = copied-Copied in
      let hb = put_head (copied.cached l.start) l.lh in
      (
        ap length (cached-bwrite l.start hb copied)
            ∙ length-put_head (copied.cached l.start) l.lh
            ∙ ap length (c.cache_same l.start (omega arith))
            ∙ r.whole_cached,
        Slots-same s.cached copied.cached (bwrite l.start hb copied).cached (l.start + 1) l.lh
            (λ a lo hi. cached-bwrite_ne l.start hb copied a (omega arith)) c.in_cache,
      )

  headed_power : headed.power ≡ s.power - length l.lh - 1
  unfolding headed write_head
  headed_power = omega (
    arith,
    power-bwrite l.start (put_head (copied.cached l.start) l.lh) copied,
    copied-Copied.power,
  )

  finished : Store
  finished = write_head l.start [] (install_trans l.start l.lh headed)

  -- Where the machine stops before the header is written, the disk is as it was but for the slots.
  finished-early :
      s.power ≤ length l.lh
      → (a : ℕ) → OffLog l.start l.size a ⊎ (a ≡ l.start)
      → finished.disk a ≡ s.disk a
  unfolding finished install_trans headed
  finished-early off a out =
      let no_power : headed.power ≡ 0 = omega (arith, headed_power) in
      let (same, still) = install_loop-off l.lh (l.start + 1) headed no_power in
      write_head-off l.start l.size s.cached [] (install_loop l.lh (l.start + 1) headed) still a
      ∙ same a
      ∙ up_to_head
    where
      up_to_head : headed.disk a ≡ s.disk a
      up_to_head =
          write_head-off l.start l.size s.cached l.lh copied (omega (arith, copied-Copied.power)) a
          ∙ copied-Copied.disk_same a (omega (arith, r.room))

  finished-old : s.power ≤ length l.lh → Recoverable l.start l.size s.disk finished.disk
  finished-old off =
      let head : finished.disk l.start ≡ s.disk l.start = finished-early off l.start (inr refl) in
      (
        [],
        record {
          head = ap get_head head ∙ r.head;
          whole = ap length head ∙ r.whole;
          room = omega (arith, r.room);
          outside = tt;
          slots = tt;
          rest = λ b out no. finished-early off b (inl out);
        },
      )

  finished-new :
      length l.lh < s.power
      → ((length l.lh < headed.power) × Holds l.start l.size s.cached finished.disk [])
        ⊎ ((headed.power ≤ length l.lh) × Holds l.start l.size s.cached finished.disk l.lh)
  unfolding finished
  finished-new on =
      install-Holds l.start l.size s.cached l.lh headed (headed-Holds on) headed-Slots.1
        headed-Slots.0

  -- The disk of an empty transaction.
  idle-Holds : length l.lh ≡ 0 → Holds l.start l.size s.cached s.disk []
  idle-Holds none_listed = record {
    head = r.head;
    whole = r.whole;
    room = omega (arith, r.room);
    outside = tt;
    slots = tt;
    rest = λ b off out. sym (r.rest b off (no_member l.lh none_listed b));
  }
    where
      no_member : (bs : List ℕ) → length bs ≡ 0 → (b : ℕ) → has b bs ≡ false
      no_member [] e b = refl
      no_member (c ∷ bs) e b = absurd (omega arith)

  commit-disk :
      (0 < length l.lh → (commit l s).1.disk ≡ finished.disk)
      × (length l.lh ≡ 0 → (commit l s).1 ≡ s)
  unfolding commit finished headed copied write_log
  commit-disk = ((λ h. rw (lt→ltb 0 (length l.lh) h)), (λ h. rw h))

  -- The disk between two commits, as its own target.
  unchanged-old : Recoverable l.start l.size s.disk s.disk
  unchanged-old = (
    [],
    record {
      head = r.head;
      whole = r.whole;
      room = omega (arith, r.room);
      outside = tt;
      slots = tt;
      rest = λ b off out. refl;
    },
  )

  commit-old : s.power ≤ length l.lh → Recoverable l.start l.size s.disk (commit l s).1.disk
  commit-old off = elim (Bool-cases (ltb 0 (length l.lh))) [
    | inl listed ↦
        subst (Recoverable l.start l.size s.disk)
          (sym (commit-disk.0 (ltb→lt 0 (length l.lh) listed))) (finished-old off)
    | inr idle ↦
        subst (λ (t : Store). Recoverable l.start l.size s.disk t.disk)
          (sym (commit-disk.1 (omega (arith, ltb_false→le 0 (length l.lh) idle)))) unchanged-old
  ]

  commit-new : length l.lh < s.power → Recoverable l.start l.size s.cached (commit l s).1.disk
  commit-new on = elim (Bool-cases (ltb 0 (length l.lh))) [
    | inl listed ↦
        subst (Recoverable l.start l.size s.cached)
          (sym (commit-disk.0 (ltb→lt 0 (length l.lh) listed)))
          (elim (finished-new on) [ inl (a, h) ↦ ([], h) | inr (a, h) ↦ (l.lh, h) ])
    | inr idle ↦
        let e : length l.lh ≡ 0 = omega (arith, ltb_false→le 0 (length l.lh) idle) in
        subst (λ (t : Store). Recoverable l.start l.size s.cached t.disk) (sym (commit-disk.1 e))
          ([], idle-Holds e)
  ]

  commit-done : 2 * length l.lh + 1 < s.power → Holds l.start l.size s.cached (commit l s).1.disk []
  commit-done enough = elim (Bool-cases (ltb 0 (length l.lh))) [
    | inl listed ↦
        subst (λ d. Holds l.start l.size s.cached d [])
          (sym (commit-disk.0 (ltb→lt 0 (length l.lh) listed)))
          (elim (finished-new (omega arith)) [
            | inl (a, h) ↦ h
            | inr (a, h) ↦ absurd (omega (arith, headed_power))
          ])
    | inr idle ↦
        let e : length l.lh ≡ 0 = omega (arith, ltb_false→le 0 (length l.lh) idle) in
        subst (λ (t : Store). Holds l.start l.size s.cached t.disk []) (sym (commit-disk.1 e))
          (idle-Holds e)
  ]

nil_of_length {ℓ} : {A : Type ℓ} (bs : List A) → length bs ≡ 0 → bs ≡ []
nil_of_length [] e = refl
nil_of_length (c ∷ bs) e = absurd (omega arith)

pub commit-lh : (l : Log) (s : Store) → (commit l s).0.lh ≡ []
unfolding commit
commit-lh l s = elim (Bool-cases (ltb 0 (length l.lh))) [
  | inl listed ↦ rw listed
  | inr idle ↦ rw idle (nil_of_length l.lh (omega (arith, ltb_false→le 0 (length l.lh) idle)))
]

-- A commit is atomic. Wherever the machine stops during `commit` (after `s.power` disk writes), and
-- however often recovery is then interrupted, a recovery that is given as many writes as the log has
-- blocks arrives at an empty log and, outside of the log, at the disk of before the commit if at most
-- `log.lh.n` writes were made, and at the cache's contents if more were: the write of the header
-- decides.
pub commit_atomic :
    (l : Log) (s : Store) (ps : List ℕ) (power : ℕ)
    → Ready l s
    → l.size ≤ power
    → let t = (commit l s).1 in
      let d = (recover_from_log l.start (reboot power (crashes l.start ps t))).disk in
      (get_head (d l.start) ≡ [])
      × (s.power ≤ length l.lh → SameData l.start l.size d s.disk)
      × (length l.lh < s.power → SameData l.start l.size d s.cached)
commit_atomic l s ps power r enough =
    let old = λ (off : s.power ≤ length l.lh).
      recover_lem l.start l.size s.disk ps power (commit l s).1 (commit-old l s r off) enough in
    let new = λ (on : length l.lh < s.power).
      recover_lem l.start l.size s.cached ps power (commit l s).1 (commit-new l s r on) enough in
    (
      elim (Bool-cases (ltb (length l.lh) s.power)) [
        | inl on ↦ (new (ltb→lt (length l.lh) s.power on)).1
        | inr off ↦ (old (ltb_false→le (length l.lh) s.power off)).1
      ],
      (λ off. (old off).0),
      (λ on. (new on).0),
    )

-- A commit during which the machine does not stop leaves on the disk, outside of the log, what the
-- cache held, and an empty header.
pub commit_durable :
    (l : Log) (s : Store)
    → Ready l s
    → 2 * length l.lh + 1 < s.power
    → let d = (commit l s).1.disk in
      SameData l.start l.size d s.cached × (get_head (d l.start) ≡ []) × ((commit l s).0.lh ≡ [])
commit_durable l s r enough =
    let h = commit-done l s r enough in ((λ b off. h.rest b off refl), h.head, commit-lh l s)
