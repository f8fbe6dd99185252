-- ===== src/Dinode/Holding.antt =====
-- `ilock` and `iunlock`: who may unlock, and what panics.
use xv7_mirror.Base.{
  ℕ, ◌<◌, ◌≡◌, ◌≢◌, refl, sym, subst, ◌⊎◌, inl, inr, arith, ltb, ◌==◌, true, false, Bool-cases,
  ==→eq, eq→==, some, none,
}
use xv7_mirror.FreeMap.{Blocks}
use xv7_mirror.Sleeplock.{Sleeplock, acquiresleep, releasesleep, holdingsleep}
use xv7_mirror.Dinode.{
  MemInode, Locked, slot, iblock, locked, panics, waits, load_fields, with_lock, ilock, iunlock,
  get_fields,
}
use xv7_mirror.Dinode.Alloc.{type_on}

module _ (inodestart pid : ℕ) (d : Blocks) where
  -- A process that has the lock may give it up, and no other.
  IsHeld : MemInode → Type 0
  IsHeld jp =
      (iunlock pid (some jp) ≡ some (record jp { lock = releasesleep jp.lock }))
      × ((q : ℕ) → q ≢ pid → iunlock q (some jp) ≡ none)

  -- What `ilock` does to an inode that is no null pointer.
  pub Ilock : MemInode → Locked → Type 0
  Ilock ip panics =
      (ip.ref ≡ 0)
      ⊎ ((ip.lock.locked ≡ false) × (ip.valid ≡ false) × (type_on inodestart d ip.inum ≡ 0))
  Ilock ip (waits jp) = (ip.lock.locked ≡ true) × (0 < ip.ref)
  Ilock ip (locked jp) =
      (ip.lock.locked ≡ false)
      × (jp.inum ≡ ip.inum)
      × (jp.valid ≡ true)
      × (ip.valid ≡ true → jp.fields ≡ ip.fields)
      × IsHeld jp

  held : (jp : MemInode) → 0 < jp.ref → jp.lock.locked ≡ true → jp.lock.pid ≡ pid → IsHeld jp
  unfolding IsHeld iunlock holdingsleep
  held jp used on mine = (
    let own : (jp.lock.pid == pid) ≡ true = eq→== jp.lock.pid pid mine in
        let ref : ltb jp.ref 1 ≡ false = ground arith in rw (on, own, ref) refl,
    λ q ne. let other : (jp.lock.pid == q) ≡ false = ground arith in rw (on, other) refl,
  )

  load-Ilock :
      (ip : MemInode) (lk : Sleeplock)
      → 0 < ip.ref
      → ip.lock.locked ≡ false
      → lk.locked ≡ true
      → lk.pid ≡ pid
      → Ilock ip (load_fields inodestart d (record ip { lock = lk }))
  unfolding Ilock
  load-Ilock ip lk used free on mine =
      let ip' = record ip { lock = lk } in
      let f = get_fields (d (iblock inodestart ip.inum)) (slot ip.inum) ip.fields in
      let kp = record ip { lock = lk; fields = f; valid = true } in
      elim (Bool-cases ip.valid) [
        | inl v ↦
            let e : load_fields inodestart d ip' ≡ locked ip' = unfold load_fields in simp v refl in
            subst (Ilock ip) (sym e) (free, refl, v, λ x. refl, held ip' used on mine)
        | inr stale ↦ elim (Bool-cases (f.type == 0)) [
          | inl z ↦
              let kind : type_on inodestart d ip.inum ≡ 0 =
                unfold get_fields in ==→eq (type_on inodestart d ip.inum) 0 z in
              let e : load_fields inodestart d ip' ≡ panics =
                unfold load_fields in simp (stale, z) refl in
              subst (Ilock ip) (sym e) (inr (free, stale, kind))
          | inr typed ↦
              let e : load_fields inodestart d ip' ≡ locked kp =
                unfold load_fields in simp (stale, typed) refl in
              subst (Ilock ip) (sym e)
                (free, refl, refl, λ x. absurd (cc (stale, x)), held kp used on mine)
        ]
      ]

  -- `ilock` panics only on an inode without references or, with the lock free, on one whose type on the
  -- disk is 0; it waits exactly for a lock that is taken. Otherwise the copy is valid, keeps its fields if it
  -- was so before, and is locked: the process may unlock it, and for every other process `iunlock` panics.
  pub ilock_lem : (ip : MemInode) → Ilock ip (ilock inodestart pid d (some ip))
  unfolding Ilock
  ilock_lem ip =
      let lk = record ip.lock { locked = true; pid = pid } in
      elim (Bool-cases (ltb ip.ref 1)) [
        | inl unused ↦ unfold ilock in simp unused (inl (ground arith))
        | inr used ↦ elim (Bool-cases ip.lock.locked) [
          | inl taken ↦
              unfold ilock with_lock acquiresleep in simp (used, taken) (refl, ground arith)
          | inr free ↦
              let e : ilock inodestart pid d (some ip)
                  ≡ load_fields inodestart d (record ip { lock = lk }) =
                unfold ilock with_lock acquiresleep in simp (used, free) refl in
              subst (Ilock ip) (sym e) (load-Ilock ip lk (ground arith) free refl refl)
        ]
      ]
