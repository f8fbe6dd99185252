-- ===== src/Bmap/Mapped.antt =====
-- `bmap` as a map from the blocks of a file to blocks of the device.
use xv7_mirror.Base.{
  ℕ, ◌^◌, ◌≤◌, ◌<◌, ◌≡◌, ◌≢◌, sym, true, false, arith, ◌==◌, Bool-cases, inl, inr, some, none,
  Option,
}
use xv7_mirror.FreeMap.{Superblock}
use xv7_mirror.Bmap.{Content, bmap}
use xv7_mirror.Bmap.Nodes.{same_place, same_place→eq, beside, IsTree}
use xv7_mirror.Bmap.Reached.{Reaches, NearlyFull, IsBlank}
use xv7_mirror.Bmap.Slots.{
  maxfile, slot_root, slot_path, data_addr, slot-IsLeaf, slot_injective, bmap-Reaches,
}

module _ (sb : Superblock) where
  -- Block `bn` of the file is block `a` of the device in `t`, and all else of the file is as in `s`.
  pub record Mapped (s : Content) (bn a : ℕ) (t : Content) : Type 0 where
    pub result : data_addr t bn ≡ a
    pub nonzero : a ≢ 0
    pub tree : IsTree sb t
    pub idle : data_addr s bn ≢ 0 → t ≡ s
    pub blank : data_addr s bn ≡ 0 → IsBlank t a
    pub others : (bm : ℕ) → bm < maxfile → bm ≢ bn → data_addr t bm ≡ data_addr s bm
    pub content :
        (bm : ℕ)
        → bm < maxfile
        → data_addr s bm ≢ 0
        → t.blocks (data_addr s bm) ≡ s.blocks (data_addr s bm)

  abbrev pub Maps : Content → ℕ → Option (ℕ × Content) → Type 0
  Maps s bn none = (data_addr s bn ≡ 0) × NearlyFull sb 3 s
  Maps s bn (some (a, t)) = Mapped s bn a t

  leaf_beside :
      (bn bm : ℕ)
      → bn < maxfile
      → bm < maxfile
      → beside (slot_root bn) (slot_path bn) (slot_root bm) (slot_path bm) ≡ true
  leaf_beside bn bm h k =
      let (p, e) = slot-IsLeaf bn h in
      let (q, f) = slot-IsLeaf bm k in
      elim (Bool-cases (slot_root bn == slot_root bm)) [
        | inl same ↦ ground (arith, e, f)
        | inr other ↦ ground arith
      ]

  leaf_apart :
      (bn bm : ℕ)
      → bn < maxfile
      → bm < maxfile
      → bm ≢ bn
      → same_place (slot_root bn) (slot_path bn) (slot_root bm) (slot_path bm) ≡ false
  leaf_apart bn bm h k ne =
      elim (Bool-cases (same_place (slot_root bn) (slot_path bn) (slot_root bm) (slot_path bm))) [
        | inl e ↦
            let (e1, e2) =
              same_place→eq (slot_root bn) (slot_path bn) (slot_root bm) (slot_path bm) e in
            absurd (ne (sym (slot_injective bn bm e1 e2 h k)))
        | inr apart ↦ apart
      ]

  Maps-of :
      (s : Content) (bn : ℕ) (r : Option (ℕ × Content))
      → bn < maxfile
      → Reaches sb 3 s (slot_root bn) (slot_path bn) r
      → Maps s bn r
  unfolding data_addr
  Maps-of s bn none h r = r
  Maps-of s bn (some (a, t)) h (r, takes) = record {
    result = r.result;
    nonzero = r.nonzero;
    tree = r.tree;
    idle = r.idle;
    blank = r.blank;
    others = λ bm k ne.
        r.others (slot_root bm) (slot_path bm) (slot-IsLeaf bm k).0 (leaf_beside bn bm h k)
          (leaf_apart bn bm h k ne);
    content = λ bm k nz.
        r.content (slot_root bm) (slot_path bm) (slot-IsLeaf bm k).0 (leaf_beside bn bm h k) nz;
  }

  pub bmap_lem :
      (s : Content) (bn : ℕ)
      → 0 < sb.size
      → sb.size ≤ 2 ^ 32
      → IsTree sb s
      → bn < maxfile
      → Maps s bn (bmap sb bn s)
  bmap_lem s bn pos small tree h =
      Maps-of s bn (bmap sb bn s) h (bmap-Reaches sb pos small s tree bn h)
