-- ===== src/FreeMap/Free.antt =====
-- `balloc` and `bfree` against the set of the blocks in use.
use xv7_mirror.Base.{
  ℕ, ◌-◌, ◌/◌, ◌%◌, ◌<◌, ◌≡◌, ◌≢◌, ap, sym, ◌∙◌, subst, inl, inr, Bool, true, false, not, ◌&&◌,
  Option, none, some, arith, leb, ◌==◌, if◌then◌else◌, Bool-cases, ==→eq, ==_false→ne,
}
use xv7_mirror.Str.{Mem}
use xv7_mirror.Str.Fill.{memset_lem}
use xv7_mirror.FreeMap.{
  Blocks, Superblock, bblock, bpb, bsize, set_block, is_free, mark, unmark, bzero, balloc, bfree,
}
use xv7_mirror.FreeMap.Bits.{IsBytes, is_free-mark, is_free-unmark, mark-IsBytes, unmark-IsBytes}
use xv7_mirror.FreeMap.Scan.{used, claimed, Finds, balloc-Finds}

pub bzero-IsBytes : (b x : ℕ) (d : Blocks) → ((x : ℕ) → IsBytes (d x)) → IsBytes (bzero b d x)
unfolding bzero
bzero-IsBytes b x d h a = ground (arith, memset_lem 0 0 bsize (d b) a, h x a, h b a)

pub bzero_byte : (b a : ℕ) (d : Blocks) → a < bsize → bzero b d b a ≡ 0
unfolding bzero
bzero_byte b a d h = ground (arith, memset_lem 0 0 bsize (d b) a)

pub bzero_other : (b x : ℕ) (d : Blocks) → x ≢ b → bzero b d x ≡ d x
unfolding bzero
bzero_other b x d h = ground arith

module _ (sb : Superblock) where
  -- The blocks of the free map itself.
  abbrev pub is_map : ℕ → Bool
  is_map x = leb sb.bmapstart x && leb x (bblock sb (sb.size - 1))

  -- As mkfs leaves it: the free map's own blocks, and block 0, are in use.
  pub record IsFormatted (d : Blocks) : Type 0 where
    pub bytes : (x : ℕ) → IsBytes (d x)
    pub maps : (x : ℕ) → is_map x ≡ true → (x < sb.size) × (used sb d x ≡ true)
    pub boot : used sb d 0 ≡ true

  bblock-is_map : (c : ℕ) → c < sb.size → is_map (bblock sb c) ≡ true
  bblock-is_map c h = ground (arith)

  other-bblock : (x c : ℕ) → is_map x ≡ false → c < sb.size → (x == bblock sb c) ≡ false
  other-bblock x c out lt = elim (Bool-cases (x == bblock sb c)) [
    | inl e ↦ absurd (
        let m = subst (λ y. is_map y ≡ true) (sym (==→eq x _ e)) (bblock-is_map c lt) in
        cc (m, out))
    | inr n ↦ n
  ]

  -- A block that is not of the map does not count for the blocks in use.
  pub used-other :
      (d e : Blocks) (x : ℕ)
      → is_map x ≡ false
      → ((y : ℕ) → y ≢ x → e y ≡ d y)
      → (c : ℕ) → c < sb.size
      → used sb e c ≡ used sb d c
  used-other d e x out same c lt =
      let ne : bblock sb c ≢ x = λ q. ==_false→ne x _ (other-bblock x c out lt) (sym q) in
      rw (same (bblock sb c) ne)

  -- A change of one bit of the map.
  used_changed :
      (d : Blocks) (b c : ℕ) (v : Bool) (m : Mem)
      → is_free m (c % bpb)
        ≡ (if b % bpb == c % bpb then v else is_free (d (bblock sb b)) (c % bpb))
      → used sb (set_block (bblock sb b) m d) c ≡ (if c == b then not v else used sb d c)
  used_changed d b c v m h = elim (Bool-cases (bblock sb c == bblock sb b)) [
    | inl same ↦ rw same (
        let q : c / bpb ≡ b / bpb = omega (arith, ==→eq (bblock sb c) (bblock sb b) same) in
        let r : bblock sb c ≡ bblock sb b = ==→eq (bblock sb c) (bblock sb b) same in
        rw (h, r) (ground (arith, q)))
    | inr other ↦
        rw other (let ne : c ≢ b = λ e. ==_false→ne _ _ other (rw e) in ground (arith, ne))
  ]

  claimed-used :
      (d : Blocks) (b c : ℕ)
      → IsFormatted d
      → b < sb.size
      → used sb d b ≡ false
      → c < sb.size
      → used sb (claimed sb b d) c ≡ (if c == b then true else used sb d c)
  claimed-used d b c f lt free hc =
      let out : is_map b ≡ false = elim (Bool-cases (is_map b)) [
        | inl m ↦ absurd (let u = (f.maps b m).1 in cc (u, free))
        | inr n ↦ n
      ] in
      used-other (set_block (bblock sb b) (mark (b % bpb) (d (bblock sb b))) d) (claimed sb b d) b
        out (λ y ne. bzero_other b y _ ne) c hc
      ∙ used_changed d b c false (mark (b % bpb) (d (bblock sb b)))
          (is_free-mark (d (bblock sb b)) (b % bpb) (c % bpb) (f.bytes (bblock sb b)))

  -- `e` is `d` with the set of blocks in use changed at `b` only, to `v`; blocks that are neither
  -- of the map nor `b` are the same.
  pub record Changes (d e : Blocks) (b : ℕ) (v : Bool) : Type 0 where
    pub set : (c : ℕ) → c < sb.size → used sb e c ≡ (if c == b then v else used sb d c)
    pub same : (x : ℕ) → is_map x ≡ false → x ≢ b → e x ≡ d x
    pub formatted : IsFormatted e

  abbrev pub Allocates : Blocks → Option (ℕ × Blocks) → Type 0
  Allocates d none = (c : ℕ) → c < sb.size → used sb d c ≡ true
  Allocates d (some (b, e)) =
      (b < sb.size)
      × (used sb d b ≡ false)
      × ((c : ℕ) → c < b → used sb d c ≡ true)
      × ((a : ℕ) → a < bsize → e b a ≡ 0)
      × Changes d e b true

  claimed-Changes :
      (d : Blocks) (b : ℕ)
      → 0 < sb.size
      → IsFormatted d
      → b < sb.size
      → used sb d b ≡ false
      → Changes d (claimed sb b d) b true
  claimed-Changes d b pos f lt free = record {
    set = λ c hc. claimed-used d b c f lt free hc;
    same = λ x out ne. bzero_other b x _ ne ∙ rw (other-bblock x b out lt);
    formatted = record {
      bytes = λ x. bzero-IsBytes b x _ (λ y a. elim (Bool-cases (y == bblock sb b)) [
        | inl e ↦ rw e (mark-IsBytes (d (bblock sb b)) (b % bpb) (f.bytes (bblock sb b)) a)
        | inr n ↦ rw n (f.bytes y a)
      ]);
      maps = λ x m. (
        (f.maps x m).0,
        claimed-used d b x f lt free (f.maps x m).0 ∙ ground (arith, (f.maps x m).1),
      );
      boot = claimed-used d b 0 f lt free pos ∙ ground (arith, f.boot);
    };
  }

  balloc_result :
      (d : Blocks) (r : Option (ℕ × Blocks))
      → 0 < sb.size
      → IsFormatted d
      → Finds sb 0 d r
      → Allocates d r
  balloc_result d none pos f h = λ c lt. h c (omega arith) lt
  balloc_result d (some (b, e)) pos f (lo, lt, free, before, same) = (
    lt,
    free,
    (λ c u. before c (omega arith) u),
    (λ a ha. rw same (bzero_byte b a _ ha)),
    subst (λ e. Changes d e b true) (sym same) (claimed-Changes d b pos f lt free),
  )

  -- On a formatted device, `balloc` panics only if every block is in use. Otherwise it takes the first
  -- block that is free, marks it in use and no other, zeroes it, changes no block but it and the
  -- free map, and leaves the device formatted.
  pub balloc_lem : (d : Blocks) → 0 < sb.size → IsFormatted d → Allocates d (balloc sb d)
  balloc_lem d pos f = balloc_result d (balloc sb d) pos f (balloc-Finds sb d)

  abbrev pub Frees : Blocks → ℕ → Option Blocks → Type 0
  Frees d b none = used sb d b ≡ false
  Frees d b (some e) =
      (used sb d b ≡ true) × Changes d e b false × ((x : ℕ) → is_map x ≡ false → e x ≡ d x)

  module _ (d : Blocks) (b : ℕ) (f : IsFormatted d) (lt : b < sb.size) (out : is_map b ≡ false)
      (nz : b ≢ 0) where
    abbrev freed : Blocks
    freed = set_block (bblock sb b) (unmark (b % bpb) (d (bblock sb b))) d

    freed-used : (c : ℕ) → used sb freed c ≡ (if c == b then false else used sb d c)
    freed-used c =
        used_changed d b c true (unmark (b % bpb) (d (bblock sb b)))
          (is_free-unmark (d (bblock sb b)) (b % bpb) (c % bpb) (f.bytes (bblock sb b)))

    freed_same : (x : ℕ) → is_map x ≡ false → freed x ≡ d x
    freed_same x o = rw (other-bblock x b o lt)

    -- On a formatted device, `bfree` of a block that is neither of the free map nor block 0 panics if
    -- the block is free already. Otherwise it takes the block, and no other, out of those in use,
    -- changes nothing but the free map, and leaves the device formatted.
    pub bfree_lem : Frees d b (bfree sb b d)
    unfolding bfree
    bfree_lem = elim (Bool-cases (is_free (d (bblock sb b)) (b % bpb))) [
      | inl free ↦ rw free (ap not free)
      | inr full ↦ rw full (
        ap not full,
        record {
          set = λ c _. freed-used c;
          same = λ x o _. freed_same x o;
          formatted = record {
            bytes = λ y a. elim (Bool-cases (y == bblock sb b)) [
              | inl e ↦ rw e (unmark-IsBytes (d (bblock sb b)) (b % bpb) (f.bytes (bblock sb b)) a)
              | inr n ↦ rw n (f.bytes y a)
            ];
            maps = λ x m. (
              (f.maps x m).0,
              freed-used x
                  ∙ (let ne : (x == b) ≡ false = elim (Bool-cases (x == b)) [
                    | inl e ↦
                        absurd
                          (let m' = subst (λ y. is_map y ≡ true) (==→eq x b e) m in cc (m', out))
                    | inr n ↦ n
                  ] in
                      rw ne (f.maps x m).1),
            );
            boot = freed-used 0 ∙ ground (arith, f.boot);
          };
        },
        freed_same,
      )
    ]
