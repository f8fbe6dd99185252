-- ===== src/Bmap/Bytes.antt =====
-- The bytes of a file: what `bmap` and a store to a block of data do to them.
use xv7_mirror.Base.{
  ℕ, ◌/◌, ◌%◌, ◌<◌, ◌≡◌, ◌≢◌, refl, sym, ap, subst, List, [], ◌∷◌, arith, ◌==◌, if◌then◌else◌,
  Bool-cases, inl, inr, ==→eq, ==_false→ne, eq→==, ne→==_false, length,
}
use xv7_mirror.Str.{Mem}
use xv7_mirror.FreeMap.{Superblock, set_block, bsize}
use xv7_mirror.FreeMap.Bits.{IsBytes}
use xv7_mirror.FreeMap.Owner.{Owned, write-Owned, write-IsFormatted}
use xv7_mirror.Bmap.{Content}
use xv7_mirror.Bmap.Nodes.{node, depth, IsPlace, IsPlace-tail, IsTree}
use xv7_mirror.Bmap.Steps.{node_step}
use xv7_mirror.Bmap.Slots.{maxfile, slot_root, slot_path, data_addr, slot-IsLeaf, slot_injective}
use xv7_mirror.Bmap.Mapped.{Mapped}

-- Byte `i` of a file; 0 where the file has no block.
unfoldable pub byte_at : Content → ℕ → ℕ
byte_at s i = let a = data_addr s (i / bsize) in if a == 0 then 0 else s.blocks a (i % bsize)

module _ (sb : Superblock) where
  -- `bmap` does not change the bytes of the file.
  pub byte_at-Mapped :
      {s t : Content} {bn a : ℕ} (i : ℕ)
      → Mapped sb s bn a t
      → bn < maxfile
      → i / bsize < maxfile
      → byte_at t i ≡ byte_at s i
  unfolding byte_at
  byte_at-Mapped {s} {t} {bn} {a} i m lt lt' = elim (Bool-cases (i / bsize == bn)) [
    | inl here ↦
        let e : i / bsize ≡ bn = ==→eq (i / bsize) bn here in
        elim (Bool-cases (data_addr s bn == 0)) [
          | inl z ↦
              let z' = ==→eq (data_addr s bn) 0 z in
              rw (e, m.result, z, ne→==_false a 0 m.nonzero) (m.blank z' (i % bsize) (omega arith))
          | inr nz ↦ rw (m.idle (==_false→ne (data_addr s bn) 0 nz))
        ]
    | inr other ↦
        let e = m.others (i / bsize) lt' (==_false→ne (i / bsize) bn other) in
        elim (Bool-cases (data_addr s (i / bsize) == 0)) [
          | inl z ↦ rw (e, z)
          | inr nz ↦
              rw (e, nz)
                (ap (λ (b : Mem). b (i % bsize))
                  (m.content (i / bsize) lt' (==_false→ne (data_addr s (i / bsize)) 0 nz)))
        ]
  ]

  -- A store to block `bn` of a file, at address `a`.
  module _ (pos : 0 < sb.size) (s : Content) (tree : IsTree sb s) (bn : ℕ) (lt : bn < maxfile)
      (a : ℕ) (at_bn : data_addr s bn ≡ a) (nz : a ≢ 0) (d : Mem) (bytes : IsBytes d) where
    abbrev pub stored : Content
    stored = record s { blocks = set_block a d s.blocks }

    leaf : IsPlace (slot_root bn) (slot_path bn)
    leaf = (slot-IsLeaf bn lt).0

    at_leaf : node s (slot_root bn) (slot_path bn) ≡ a
    unfolding data_addr
    at_leaf = at_bn

    stored_nodes : (j : ℕ) (q : List ℕ) → IsPlace j q → node stored j q ≡ node s j q
    unfolding node
    stored_nodes j [] pl = refl
    stored_nodes j (l ∷ q) pl =
        node_step sb pos s stored j l q (stored_nodes j q (IsPlace-tail j l q pl)) (λ nz'.
          let ne : node s j q ≢ a = λ e.
            let (e1, e2) =
              tree.once j q (slot_root bn) (slot_path bn) (IsPlace-tail j l q pl) leaf nz'
                (cc (e, at_leaf)) in
            let len = ap length e2 in
            let full = (slot-IsLeaf bn lt).1 in
            let same : depth j ≡ depth (slot_root bn) = ap depth e1 in
            omega (arith, len, full, same) in
          rw (ne→==_false (node s j q) a ne))

    owner : Owned sb s.blocks a
    owner =
        subst (Owned sb s.blocks) at_leaf
          (tree.owned (slot_root bn) (slot_path bn) leaf (λ z. nz (cc (z, at_leaf))))

    pub stored-IsTree : IsTree sb stored
    stored-IsTree = record {
      formatted = write-IsFormatted sb s.blocks a d tree.formatted owner bytes pos;
      owned = λ j q pl nz'.
          let e = stored_nodes j q pl in
          subst (Owned sb stored.blocks) (sym e) (
            write-Owned sb s.blocks a d tree.formatted owner bytes (node s j q)
              (tree.owned j q pl (λ z. nz' (cc (e, z)))));
      once = λ i p j q pi pj nz' e.
          let ei = stored_nodes i p pi in
          let ej = stored_nodes j q pj in
          tree.once i p j q pi pj (λ z. nz' (cc (ei, z))) (cc (e, ei, ej));
    }

    pub stored_addr : (bm : ℕ) → bm < maxfile → data_addr stored bm ≡ data_addr s bm
    unfolding data_addr
    stored_addr bm h = stored_nodes (slot_root bm) (slot_path bm) (slot-IsLeaf bm h).0

    same_block : (bm : ℕ) → bm < maxfile → data_addr s bm ≡ a → bm ≡ bn
    unfolding data_addr
    same_block bm h q =
        let (e1, e2) =
          tree.once (slot_root bm) (slot_path bm) (slot_root bn) (slot_path bn) (slot-IsLeaf bm h).0
            leaf (λ z. nz (cc (q, z))) (cc (q, at_leaf)) in
        slot_injective bm bn e1 e2 h lt

    pub byte_at-stored :
        (i : ℕ)
        → i / bsize < maxfile
        → byte_at stored i ≡ (if i / bsize == bn then d (i % bsize) else byte_at s i)
    unfolding byte_at
    byte_at-stored i h =
        let e = stored_addr (i / bsize) h in
        elim (Bool-cases (i / bsize == bn)) [
          | inl here ↦
              let at : data_addr s (i / bsize) ≡ a =
                subst (λ x. data_addr s x ≡ a) (sym (==→eq (i / bsize) bn here)) at_bn in
              rw (here, e, at, ne→==_false a 0 nz, eq→== a a refl)
          | inr other ↦ elim (Bool-cases (data_addr s (i / bsize) == 0)) [
            | inl z ↦ rw (other, e, z)
            | inr nz' ↦
                let apart : data_addr s (i / bsize) ≢ a =
                  λ q. ==_false→ne (i / bsize) bn other (same_block (i / bsize) h q) in
                rw (other, e, nz', ne→==_false (data_addr s (i / bsize)) a apart)
          ]
        ]
