-- ===== src/FreeMap/Owner.antt =====
-- Blocks in the hands of files: in use, and neither block 0 nor of the free map.
use xv7_mirror.Base.{
  ℕ, ◌<◌, ◌≡◌, ◌≢◌, ◌∙◌, inl, inr, true, false, some, arith, ◌==◌, if◌then◌else◌, Bool-cases, subst,
}
use xv7_mirror.Str.{Mem}
use xv7_mirror.FreeMap.{Blocks, Superblock, bsize, set_block, balloc}
use xv7_mirror.FreeMap.Bits.{IsBytes}
use xv7_mirror.FreeMap.Scan.{used}
use xv7_mirror.FreeMap.Free.{is_map, IsFormatted, Allocates, balloc_lem, used-other}

module _ (sb : Superblock) where
  pub record Owned (d : Blocks) (c : ℕ) : Type 0 where
    pub inside : c < sb.size
    pub taken : used sb d c ≡ true
    pub apart : is_map sb c ≡ false
    pub nonzero : c ≢ 0

  -- What `balloc` does for its caller.
  pub record Grows (d e : Blocks) (b : ℕ) : Type 0 where
    pub fresh : used sb d b ≡ false
    pub new : Owned e b
    pub set : (c : ℕ) → c < sb.size → used sb e c ≡ (if c == b then true else used sb d c)
    pub kept : (c : ℕ) → Owned d c → Owned e c
    pub blank : (a : ℕ) → a < bsize → e b a ≡ 0
    pub same : (x : ℕ) → is_map sb x ≡ false → x ≢ b → e x ≡ d x
    pub formatted : IsFormatted sb e

  Grows-of :
      (d e : Blocks) (b : ℕ)
      → IsFormatted sb d
      → 0 < sb.size
      → Allocates sb d (some (b, e))
      → Grows d e b
  Grows-of d e b f pos (lt, free, before, blank, ch) = record {
    fresh = free;
    new = record {
      inside = lt;
      taken = ch.set b lt ∙ ground arith;
      apart = elim (Bool-cases (is_map sb b)) [
        | inl m ↦ absurd (let u = (f.maps b m).1 in cc (u, free))
        | inr n ↦ n
      ];
      nonzero = λ z. let u = subst (λ x. used sb d x ≡ false) z free in cc (u, f.boot);
    };
    set = ch.set;
    kept = λ c o. record {
      inside = o.inside;
      taken = ch.set c o.inside ∙ ground (arith, o.taken);
      apart = o.apart;
      nonzero = o.nonzero;
    };
    blank = blank;
    same = ch.same;
    formatted = ch.formatted;
  }

  pub balloc-Grows :
      (d e : Blocks) (b : ℕ)
      → IsFormatted sb d
      → 0 < sb.size
      → balloc sb d ≡ some (b, e)
      → Grows d e b
  balloc-Grows d e b f pos h = Grows-of d e b f pos (rw h at (balloc_lem sb d pos f))

  -- A block that a file owns can be written.
  module _ (d : Blocks) (b : ℕ) (m : Mem) (f : IsFormatted sb d) (o : Owned d b)
      (bytes : IsBytes m) where
    pub write-used : (c : ℕ) → c < sb.size → used sb (set_block b m d) c ≡ used sb d c
    write-used = used-other sb d (set_block b m d) b o.apart (λ y ne. ground arith)

    pub write-Owned : (c : ℕ) → Owned d c → Owned (set_block b m d) c
    write-Owned c p = record {
      inside = p.inside;
      taken = write-used c p.inside ∙ p.taken;
      apart = p.apart;
      nonzero = p.nonzero;
    }

    pub write-IsFormatted : 0 < sb.size → IsFormatted sb (set_block b m d)
    write-IsFormatted pos = record {
      bytes =
          λ x a. elim (Bool-cases (x == b)) [ inl e ↦ rw e (bytes a) | inr n ↦ rw n (f.bytes x a) ];
      maps = λ x k. ((f.maps x k).0, write-used x (f.maps x k).0 ∙ (f.maps x k).1);
      boot = write-used 0 pos ∙ f.boot;
    }
