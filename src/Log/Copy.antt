-- ===== src/Log/Copy.antt =====
-- `write_log`, and `install_trans` on a machine that has stopped.
use xv7_mirror.Base.{ℕ, ◌+◌, ◌-◌, ◌≡◌, ◌≤◌, ◌<◌, ◌⊎◌, refl, ◌∙◌, List, [], ◌∷◌, arith, length}
use xv7_mirror.Base.Mem.{All}
use xv7_mirror.Log.Cache.{
  Block, Store, bwrite, cached-bwrite_ne, disk-bwrite_ne, disk-bwrite, disk-bwrite_off,
  cached-bwrite, power-bwrite,
}
use xv7_mirror.Log.Target.{OffLog, Slots}
use xv7_mirror.Log.{install_loop, write_log_loop}

module _ (start size : ℕ) (target : ℕ → Block) where
  -- What a run of the copying loop over `bs` does, from `s` to `t`.
  pub record Copied (bs : List ℕ) (slot : ℕ) (s t : Store) : Type 0 where
    pub disk_same : (a : ℕ) → (a < slot) ⊎ (slot + length bs ≤ a) → t.disk a ≡ s.disk a
    pub cache_same : (a : ℕ) → (a < slot) ⊎ (slot + length bs ≤ a) → t.cached a ≡ s.cached a
    pub in_cache : Slots target t.cached slot bs
    pub on_disk : length bs ≤ s.power → Slots target t.disk slot bs
    pub power : t.power ≡ s.power - length bs

  Copied-cons :
      (b : ℕ) (bs : List ℕ) (slot : ℕ) (s t : Store)
      → s.cached b ≡ target b
      → Copied bs (slot + 1) (bwrite slot (s.cached b) s) t
      → Copied (b ∷ bs) slot s t
  Copied-cons b bs slot s t e i = record {
    disk_same =
        λ a out. i.disk_same a (omega arith) ∙ disk-bwrite_ne slot (s.cached b) s a (omega arith);
    cache_same = λ a out.
        i.cache_same a (omega arith) ∙ cached-bwrite_ne slot (s.cached b) s a (omega arith);
    in_cache =
        (i.cache_same slot (omega arith) ∙ cached-bwrite slot (s.cached b) s ∙ e, i.in_cache);
    on_disk = λ p. (
      i.disk_same slot (omega arith) ∙ disk-bwrite slot (s.cached b) s (omega arith) ∙ e,
      i.on_disk (omega (arith, power-bwrite slot (s.cached b) s)),
    );
    power = omega (arith, i.power, power-bwrite slot (s.cached b) s);
  }

  pub write_log_loop-Copied :
      (bs : List ℕ) (slot : ℕ) (s : Store)
      → start < slot
      → slot + length bs ≤ start + size
      → All (OffLog start size) bs
      → ((b : ℕ) → OffLog start size b → s.cached b ≡ target b)
      → Copied bs slot s (write_log_loop bs slot s)
  unfolding write_log_loop
  write_log_loop-Copied [] slot s lo hi off same = record {
    disk_same = λ a out. refl;
    cache_same = λ a out. refl;
    in_cache = tt;
    on_disk = λ p. tt;
    power = omega arith;
  }
  write_log_loop-Copied (b ∷ bs) slot s lo hi (off, offs) same =
      Copied-cons b bs slot s _ (same b off) (
        write_log_loop-Copied bs (slot + 1) (bwrite slot (s.cached b) s) (omega arith) (omega arith)
          offs λ a out. cached-bwrite_ne slot (s.cached b) s a (omega arith) ∙ same a out)

-- Without power the installing loop changes nothing on the disk.
pub install_loop-off :
    (bs : List ℕ) (slot : ℕ) (s : Store)
    → s.power ≡ 0
    → ((a : ℕ) → (install_loop bs slot s).disk a ≡ s.disk a) × ((install_loop bs slot s).power ≡ 0)
unfolding install_loop
install_loop-off [] slot s off = ((λ a. refl), off)
install_loop-off (b ∷ bs) slot s off =
    let (same, still) =
      install_loop-off bs (slot + 1) (bwrite b (s.cached slot) s)
        (omega (arith, power-bwrite b (s.cached slot) s)) in
    ((λ a. same a ∙ disk-bwrite_off b (s.cached slot) s off a), still)
