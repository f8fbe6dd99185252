-- ===== src/FileData.antt =====
-- kernel/fs.c: readi and writei, the content of an inode as bytes.
-- `dst` and `src` lie in a memory apart from the buffers; the handlers of devices are a parameter.
-- Neither routine's sums wrap behind its first tests, which make sure that `off + n` does not.
pub mod Read
pub mod Write
mod Examples
use xv7_mirror.Base.{
  ℕ, zero, suc, ◌+◌, ◌-◌, ◌*◌, ◌/◌, ◌%◌, ◌^◌, Bool, true, false, ◌&&◌, ◌||◌, Option, none, some,
  ltb, leb, ◌==◌, if◌then◌else◌, min,
}
use xv7_mirror.Str.{Mem}
use xv7_mirror.FreeMap.{Superblock, set_block, bsize}
use xv7_mirror.Bmap.{Content, bmap}
use xv7_mirror.Bmap.Slots.{maxfile}

-- T_DEV, NDEV
abbrev pub t_dev : ℕ
t_dev = 3

abbrev pub ndev : ℕ
ndev = 10

abbrev pub maxbytes : ℕ
maxbytes = maxfile * bsize

-- What the routines use of `struct inode`, and `sb.modtime`. `major` is the bit pattern of a `short`.
pub record FileInode : Type 0 where
  pub type : ℕ
  pub major : ℕ
  pub size : ℕ
  pub atime : ℕ
  pub mtime : ℕ
  pub modtime : ℕ
  pub content : Content

-- `memmove(to, from, n)` from one memory to another.
pub move_bytes : (to from n : ℕ) → Mem → Mem → Mem
move_bytes to from n m m' a = if leb to a && ltb a (to + n) then m (from + (a - to)) else m' a

-- An entry of `devsw`: from address, number and memory to the result (none is a failure) and the
-- memory.
abbrev pub Handler : Type 0
Handler = ℕ → ℕ → Mem → Option ℕ × Mem

call_device : Option Handler → ℕ → ℕ → FileInode → Mem → Option ℕ × FileInode × Mem
call_device none p n ip m = (none, ip, m)
call_device (some h) p n ip m = let (r, m') = h p n m in (r, ip, m')

-- `ip->major < 0 || ip->major >= NDEV || !devsw[ip->major].read`, and the call.
pub use_device : (ℕ → Option Handler) → ℕ → ℕ → FileInode → Mem → Option ℕ × FileInode × Mem
unfolding call_device
use_device devsw p n ip m =
    if leb (2 ^ 15) ip.major || leb ndev ip.major
    then (none, ip, m)
    else call_device (devsw ip.major) p n ip m

abbrev pub chunk : ℕ → ℕ → ℕ
chunk left off = min left (bsize - off % bsize)

module _ (sb : Superblock) where
  -- The loop of `readi`; `none` is a panic of `bmap`. Each round moves a byte at least.
  pub read_loop : ℕ → (tot n off dst : ℕ) → Content → Mem → Option (Content × Mem)
  read_loop zero tot n off dst s m = none
  read_loop (suc fuel) tot n off dst s m =
      let round : Option (Content × Mem) = elim (bmap sb (off / bsize) s) [
        | none ↦ none
        | some (b, t) ↦
            let k = chunk (n - tot) off in
            read_loop fuel (tot + k) n (off + k) (dst + k) t
              (move_bytes dst (off % bsize) k (t.blocks b) m)
      ] in
      if ltb tot n then round else some (s, m)

  read_done : ℕ → FileInode → Option (Content × Mem) → Option (Option ℕ × FileInode × Mem)
  read_done n ip none = none
  read_done n ip (some (s, m)) = some (some n, record ip { content = s }, m)

  -- The test of the offset, and the loop over what there is to read.
  read_file : (off n dst : ℕ) → FileInode → Mem → Option (Option ℕ × FileInode × Mem)
  read_file off n dst ip m =
      if ltb ip.size off || ltb ((off + n) % 2 ^ 32) off
      then some (none, ip, m)
      else let k = if ltb ip.size (off + n) then ip.size - off else n in
        read_done k ip (read_loop (k + 1) 0 k off dst ip.content m)

  -- `readi` at time `now`; the outer `none` is a panic, the inner one the result -1.
  pub readi :
      (ℕ → Option Handler)
      → (now off n dst : ℕ) → FileInode
      → Mem
      → Option (Option ℕ × FileInode × Mem)
  unfolding read_file
  readi devsw now off n dst ip m =
      let ip' = record ip { modtime = now; atime = now } in
      if ip.type == t_dev then some (use_device devsw dst n ip' m) else read_file off n dst ip' m

  -- The loop of `writei`: the content, and the offset at its end.
  pub write_loop : ℕ → (tot n off src : ℕ) → Mem → Content → Option (ℕ × Content)
  write_loop zero tot n off src m s = none
  write_loop (suc fuel) tot n off src m s =
      let round : Option (ℕ × Content) = elim (bmap sb (off / bsize) s) [
        | none ↦ none
        | some (b, t) ↦
            let k = chunk (n - tot) off in
            write_loop fuel (tot + k) n (off + k) (src + k) m (record t {
              blocks = set_block b (move_bytes (off % bsize) src k m (t.blocks b)) t.blocks;
            })
      ] in
      if ltb tot n then round else some (off, s)

  write_done : ℕ → FileInode → Option (ℕ × Content) → Option (Option ℕ × FileInode)
  write_done n ip none = none
  write_done n ip (some (off, s)) = some (
    some n,
    record ip { content = s; size = if ltb 0 n && ltb ip.size off then off else ip.size },
  )

  write_file : (off n src : ℕ) → FileInode → Mem → Option (Option ℕ × FileInode)
  write_file off n src ip m =
      if ltb ip.size off || ltb ((off + n) % 2 ^ 32) off
      then some (none, ip)
      else if ltb maxbytes (off + n)
      then some (none, ip)
      else write_done n ip (write_loop (n + 1) 0 n off src m ip.content)

  -- `writei` at time `now`, less the copy of the inode to the disk.
  pub writei :
      (ℕ → Option Handler) → (now off n src : ℕ) → FileInode → Mem → Option (Option ℕ × FileInode)
  unfolding write_file
  writei devsw now off n src ip m =
      let ip' = record ip { modtime = now; mtime = now } in
      if ip.type == t_dev
      then (let (r, ip'', m') = use_device devsw src n ip' m in some (r, ip''))
      else write_file off n src ip' m
