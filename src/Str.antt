-- ===== src/Str.antt =====
-- kernel/string.c: memory and string routines of the kernel.
-- A memory is a function from addresses to bytes, and an address is a natural number: no object
-- wraps around the end of the address space. A loop that stops at a NUL runs on fuel.
-- `safestrcpy` is also given on arrays as lists, for names that are fields of a structure.
pub mod Move
pub mod Fill
pub mod Cstring
mod Examples
use Prim.Native.Nat.{bit_or, bit_and}
use xv7_mirror.Base.{
  ℕ, zero, suc, ◌+◌, ◌-◌, ◌*◌, ◌/◌, ◌%◌, ◌^◌, Bool, true, false, ◌&&◌, ◌||◌, not, Option, none,
  some, List, [], ◌∷◌, ltb, leb, ◌==◌, if◌then◌else◌,
}

abbrev pub Mem : Type 0
Mem = ℕ → ℕ

-- `*p = c`
unfoldable pub store : ℕ → ℕ → Mem → Mem
store p c m a = if a == p then c else m a

-- `while (n-- > 0) *d++ = *s++;`
pub copy_up : ℕ → ℕ → ℕ → Mem → Mem
copy_up zero d s m = m
copy_up (suc n) d s m = copy_up n (d + 1) (s + 1) (store d (m s) m)

-- `while (n-- > 0) *--d = *--s;`
pub copy_down : ℕ → ℕ → ℕ → Mem → Mem
copy_down zero d s m = m
copy_down (suc n) d s m = copy_down n (d - 1) (s - 1) (store (d - 1) (m (s - 1)) m)

pub memmove : (dst src n : ℕ) → Mem → Mem
memmove d s n m =
    if ltb s d && ltb d (s + n) then copy_down n (d + n) (s + n) m else copy_up n d s m

-- `stosb`: `n` bytes `c` from `d` on.
pub stosb : ℕ → ℕ → ℕ → Mem → Mem
stosb d c zero m = m
stosb d c (suc n) m = stosb (d + 1) c n (store d (c % 256) m)

-- A little-endian store of 32 bits, and `stosl`: `n` of them from `d` on.
unfoldable pub store32 : ℕ → ℕ → Mem → Mem
store32 d w m =
    store (d + 3) (w / 2 ^ 24 % 256)
      (store (d + 2) (w / 2 ^ 16 % 256) (store (d + 1) (w / 2 ^ 8 % 256) (store d (w % 256) m)))

pub stosl : ℕ → ℕ → ℕ → Mem → Mem
unfolding store32
stosl d w zero m = m
stosl d w (suc n) m = stosl (d + 4) w n (store32 d w m)

-- `(c << 24) | (c << 16) | (c << 8) | c` of `c & 0xFF`
pub spread : ℕ → ℕ
spread c =
    let b = bit_and c 0xff in bit_or (bit_or (bit_or (b * 2 ^ 24) (b * 2 ^ 16)) (b * 2 ^ 8)) b

pub memset : (dst c n : ℕ) → Mem → Mem
memset d c n m =
    if (d % 4 == 0) && (n % 4 == 0) then stosl d (spread c) (n / 4) m else stosb d c n m

-- The two bytes at which `memcmp` stops; none if the objects agree.
unfoldable pub memcmp : (p q n : ℕ) → Mem → Option (ℕ × ℕ)
memcmp p q zero m = none
memcmp p q (suc n) m =
    let rest = memcmp (p + 1) (q + 1) n m in if not (m p == m q) then some (m p, m q) else rest

-- The two bytes whose difference `strncmp` returns; none for the 0 of `n == 0`.
unfoldable pub strncmp : (p q n : ℕ) → Mem → Option (ℕ × ℕ)
strncmp p q zero m = none
strncmp p q (suc n) m =
    let rest = strncmp (p + 1) (q + 1) n m in
    if not (m p == 0) && (m p == m q) then rest else some (m p, m q)

-- `while (n-- > 0) *s++ = 0;`
unfoldable pub pad : ℕ → ℕ → Mem → Mem
pad zero s m = m
pad (suc n) s m = pad n (s + 1) (store s 0 m)

unfoldable pub strncpy : (s t n : ℕ) → Mem → Mem
strncpy s t zero m = m
strncpy s t (suc n) m =
    let rest = strncpy (s + 1) (t + 1) n (store s (m t) m) in
    let padded = pad n (s + 1) (store s (m t) m) in if m t == 0 then padded else rest

-- `strlen`, from index `i` on; `none` is out of fuel.
pub strlen_loop : ℕ → ℕ → ℕ → Mem → Option ℕ
strlen_loop zero s i m = none
strlen_loop (suc fuel) s i m =
    let rest = strlen_loop fuel s (i + 1) m in if m (s + i) == 0 then some i else rest

pub strlen : ℕ → ℕ → Mem → Option ℕ
unfolding strlen_loop
strlen fuel s m = strlen_loop fuel s 0 m

zero_first : List ℕ → List ℕ
zero_first [] = []
zero_first (x ∷ xs) = 0 ∷ xs

-- `safestrcpy` into the array `s`, whose end is not passed; `n` is at most its size.
unfoldable pub safestrcpy : (s t : List ℕ) → ℕ → List ℕ
unfolding zero_first
safestrcpy s t zero = s
safestrcpy [] t (suc n) = []
safestrcpy (x ∷ s) t (suc zero) = 0 ∷ s
safestrcpy (x ∷ s) [] (suc (suc n)) = x ∷ s
safestrcpy (x ∷ s) (c ∷ t) (suc (suc n)) =
    let rest = safestrcpy s t (suc n) in c ∷ (if c == 0 then zero_first s else rest)
