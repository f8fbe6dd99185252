-- ===== src/Log/Recovery.antt =====
-- `recover_from_log` after a crash, and a crash during recovery.
use xv7_mirror.Base.{
  ℕ, suc, ◌+◌, ◌-◌, ◌≡◌, ◌≤◌, ◌<◌, ◌⊎◌, inl, inr, refl, ap, sym, ◌∙◌, true, false, List, [], ◌∷◌,
  arith, ltb, length, Bool-cases, ltb→lt, ltb_false→le, subst, fun_ext,
}
use xv7_mirror.Base.Mem.{has, All}
use xv7_mirror.Log.Cache.{
  Block, block_words, Store, bwrite, reboot, cached-bwrite_ne, disk-bwrite_ne, disk-bwrite,
  disk-bwrite_off, disk-bwrite_either, power-bwrite,
}
use xv7_mirror.Log.Head.{length-put_head, get_head-put_head}
use xv7_mirror.Log.Target.{OffLog, Slots, Holds, SameData, Slots-same}
use xv7_mirror.Log.{
  put_head, get_head, read_head, write_head, install_loop, install_trans, recover_from_log,
}

-- The machine is started once for each number of the list, and stops again after that many writes.
pub crashes : ℕ → List ℕ → Store → Store
crashes start [] s = s
crashes start (p ∷ ps) s = crashes start ps (recover_from_log start (reboot p s))

module _ (start size : ℕ) (target : ℕ → Block) where
  -- What a run of the installing loop over `bs` does, from `s` to `t`.
  pub record Installed (bs : List ℕ) (s t : Store) : Type 0 where
    pub log_disk : (a : ℕ) → start ≤ a → a < start + size → t.disk a ≡ s.disk a
    pub log_cache : (a : ℕ) → start ≤ a → a < start + size → t.cached a ≡ s.cached a
    pub others : (a : ℕ) → has a bs ≡ false → t.disk a ≡ s.disk a
    pub either : (a : ℕ) → (t.disk a ≡ s.disk a) ⊎ (t.disk a ≡ target a)
    pub done : length bs ≤ s.power → (a : ℕ) → has a bs ≡ true → t.disk a ≡ target a
    pub power : t.power ≡ s.power - length bs

  -- One write of the loop in front of the rest of it.
  Installed-cons :
      (b : ℕ) (bs : List ℕ) (c : Block) (s t : Store)
      → OffLog start size b
      → c ≡ target b
      → Installed bs (bwrite b c s) t
      → Installed (b ∷ bs) s t
  Installed-cons b bs c s t off e i = record {
    log_disk = λ a lo hi. i.log_disk a lo hi ∙ disk-bwrite_ne b c s a (omega arith);
    log_cache = λ a lo hi. i.log_cache a lo hi ∙ cached-bwrite_ne b c s a (omega arith);
    others = λ a h. i.others a (ground arith) ∙ disk-bwrite_ne b c s a (ground arith);
    either = λ a. ground (arith, i.either a, disk-bwrite_either b c s a, e, ap target);
    done = λ p a h. elim (Bool-cases (has a bs)) [
      | inl r ↦ i.done (omega (arith, power-bwrite b c s)) a r
      | inr r ↦ i.others a r ∙ here a (ground arith) p
    ];
    power = omega (arith, i.power, power-bwrite b c s);
  }
    where
      here : (a : ℕ) → b ≡ a → suc (length bs) ≤ s.power → (bwrite b c s).disk a ≡ target a
      here a same p = rw (← same) (disk-bwrite b c s (omega arith) ∙ e)

  install_loop-Installed :
      (bs : List ℕ) (slot : ℕ) (s : Store)
      → start ≤ slot
      → slot + length bs ≤ start + size
      → All (OffLog start size) bs
      → Slots target s.cached slot bs
      → Installed bs s (install_loop bs slot s)
  unfolding install_loop
  install_loop-Installed [] slot s lo hi off sl = record {
    log_disk = λ a l h. refl;
    log_cache = λ a l h. refl;
    others = λ a h. refl;
    either = λ a. inl refl;
    done = λ p a h. cc;
    power = omega arith;
  }
  install_loop-Installed (b ∷ bs) slot s lo hi (off, offs) (e, es) =
      Installed-cons b bs (s.cached slot) s _ off e (
        install_loop-Installed bs (slot + 1) (bwrite b (s.cached slot) s) (omega arith)
          (omega arith) offs
          (Slots-same target s.cached (bwrite b (s.cached slot) s).cached (slot + 1) bs
            (λ a l h. cached-bwrite_ne b (s.cached slot) s a (omega arith)) es))

  -- A log that is on the disk stays there while it is installed.
  Holds-Installed :
      (bs : List ℕ) (s t : Store)
      → Holds start size target s.disk bs
      → Installed bs s t
      → Holds start size target t.disk bs
  Holds-Installed bs s t h i =
      let head : t.disk start ≡ s.disk start =
        i.log_disk start (omega arith) (omega (arith, h.room)) in
      record {
        head = ap get_head head ∙ h.head;
        whole = ap length head ∙ h.whole;
        room = h.room;
        outside = h.outside;
        slots =
            Slots-same target s.disk t.disk (start + 1) bs
              (λ a lo hi. i.log_disk a (omega arith) (omega (arith, h.room))) h.slots;
        rest = λ b off out. i.others b out ∙ h.rest b off out;
      }

  -- The empty header completes a disk whose data are the target's.
  pub write_head-Holds :
      (t : Store)
      → length (t.cached start) ≡ block_words
      → 0 < size
      → SameData start size t.disk target
      → 0 < t.power
      → Holds start size target (write_head start [] t).disk []
  unfolding write_head
  write_head-Holds t whole some_room same on =
      let c = put_head (t.cached start) [] in
      let head : (bwrite start c t).disk start ≡ c = disk-bwrite start c t on in
      record {
        head = ap get_head head ∙ get_head-put_head (t.cached start) [] whole (omega arith);
        whole = ap length head ∙ length-put_head (t.cached start) [] ∙ whole;
        room = some_room;
        outside = tt;
        slots = tt;
        rest = λ b off out. disk-bwrite_ne start c t b (omega arith) ∙ same b off;
      }

  pub write_head-off :
      (lh : List ℕ) (t : Store) → t.power ≡ 0 → (a : ℕ) → (write_head start lh t).disk a ≡ t.disk a
  unfolding write_head
  write_head-off lh t off = disk-bwrite_off start (put_head (t.cached start) lh) t off

  pub Holds-same :
      (bs : List ℕ) (d e : ℕ → Block)
      → ((a : ℕ) → e a ≡ d a)
      → Holds start size target d bs
      → Holds start size target e bs
  Holds-same bs d e same = subst (λ f. Holds start size target f bs) (fun_ext (λ a. sym (same a)))

  -- Installing a log that the disk holds and clearing the header, as recovery and `commit` do.
  pub install-Holds :
      (bs : List ℕ) (s : Store)
      → Holds start size target s.disk bs
      → Slots target s.cached (start + 1) bs
      → length (s.cached start) ≡ block_words
      → let d = (write_head start [] (install_trans start bs s)).disk in
        ((length bs < s.power) × Holds start size target d [])
        ⊎ ((s.power ≤ length bs) × Holds start size target d bs)
  unfolding install_trans
  install-Holds bs s h sl whole = elim (Bool-cases (ltb (length bs) s.power)) [
    | inl on ↦ inl (
      ltb→lt (length bs) s.power on,
      write_head-Holds t
          (ap length (i.log_cache start (omega arith) (omega (arith, h.room))) ∙ whole)
          (omega (arith, h.room)) (data_done (omega (arith, ltb→lt (length bs) s.power on)))
          (omega (arith, i.power, ltb→lt (length bs) s.power on)),
    )
    | inr off ↦ inr (
      ltb_false→le (length bs) s.power off,
      Holds-same bs t.disk _
          (write_head-off [] t (omega (arith, i.power, ltb_false→le (length bs) s.power off)))
          (Holds-Installed bs s t h i),
    )
  ]
    where
      t : Store
      t = install_loop bs (start + 1) s

      i : Installed bs s t
      i = install_loop-Installed bs (start + 1) s (omega arith) (omega (arith, h.room)) h.outside sl

      data_done : length bs ≤ s.power → SameData start size t.disk target
      data_done on b off = elim (Bool-cases (has b bs)) [
        | inl listed ↦ i.done on b listed
        | inr other ↦ i.others b other ∙ h.rest b off other
      ]

  -- A disk from which recovery arrives at the target, with the blocks that its header lists.
  abbrev pub Recoverable : (ℕ → Block) → Type 0
  Recoverable d = (bs : List ℕ) × Holds start size target d bs

  pub recover-Holds :
      (power : ℕ) (s : Store) (bs : List ℕ)
      → Holds start size target s.disk bs
      → let d = (recover_from_log start (reboot power s)).disk in
        ((length bs < power) × Holds start size target d [])
        ⊎ ((power ≤ length bs) × Holds start size target d bs)
  unfolding recover_from_log read_head reboot
  recover-Holds power s bs h = rw h.head (install-Holds bs (reboot power s) h h.slots h.whole)

  recover-Recoverable :
      (power : ℕ) (s : Store)
      → Recoverable s.disk
      → Recoverable (recover_from_log start (reboot power s)).disk
  recover-Recoverable power s (bs, h) = elim (recover-Holds power s bs h) [
    | inl (on, done) ↦ ([], done)
    | inr (off, same) ↦ (bs, same)
  ]

  pub crashes-Recoverable :
      (ps : List ℕ) (s : Store) → Recoverable s.disk → Recoverable (crashes start ps s).disk
  unfolding crashes
  crashes-Recoverable [] s r = r
  crashes-Recoverable (p ∷ ps) s r =
      crashes-Recoverable ps (recover_from_log start (reboot p s)) (recover-Recoverable p s r)

  -- From a recoverable disk, whatever number of crashes interrupts recovery, one that is given `size`
  -- writes arrives at the target's data and an empty log.
  pub recover_lem :
      (ps : List ℕ) (power : ℕ) (s : Store)
      → Recoverable s.disk
      → size ≤ power
      → let d = (recover_from_log start (reboot power (crashes start ps s))).disk in
        SameData start size d target × (get_head (d start) ≡ [])
  recover_lem ps power s r enough =
      let (bs, h) = crashes-Recoverable ps s r in
      elim (recover-Holds power (crashes start ps s) bs h) [
        | inl (on, done) ↦ ((λ b off. done.rest b off refl), done.head)
        | inr (off, same) ↦ absurd (omega (arith, h.room))
      ]
