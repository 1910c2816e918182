-- ===== src/LogRing.antt =====
-- The crash-surviving log ring: applications/protective_stop/src/log_ring.{c,h}.
pub mod Contents
pub mod Write
pub mod Copy
use Prim.Native.Nat.{bit_xor}
use zephyr_applications.Common.{
  ℕ, zero, suc, ◌+◌, ◌-◌, ◌%◌, ◌^◌, Bool, ◌&&◌, ◌||◌, not, ltb, leb, ◌==◌, if◌then◌else◌, List, [],
  ◌∷◌, ◌++◌, last, length, take, drop, min,
}

abbrev pub log_ring_magic : ℕ
log_ring_magic = 0x4A07BCDE

abbrev pub log_ring_size : ℕ
log_ring_size = 4096

-- `struct log_ring`; `buf` has `log_ring_size` bytes.
pub record LogRing : Type 0 where
  pub magic : ℕ
  pub head : ℕ
  pub wrapped : ℕ
  pub check : ℕ
  pub buf : List ℕ

-- `~x` in 32 bits.
abbrev complement32 : ℕ → ℕ
complement32 x = 2 ^ 32 - 1 - x % 2 ^ 32

unfoldable pub check_of : ℕ → ℕ → ℕ → ℕ
check_of magic head wrapped = complement32 (bit_xor (bit_xor magic head) wrapped)

unfoldable pub log_ring_reset : LogRing → LogRing
unfolding check_of
log_ring_reset r = record r {
  magic = log_ring_magic;
  head = 0;
  wrapped = 0;
  check = check_of log_ring_magic 0 0;
}

unfoldable pub log_ring_valid : LogRing → Bool
log_ring_valid r =
    (r.magic == log_ring_magic)
    && ltb r.head log_ring_size
    && leb r.wrapped 1
    && (r.check == check_of r.magic r.head r.wrapped)

-- `memcpy(&buf[i], xs, n)`, with `n` bytes in the list.
abbrev pub blit : List ℕ → ℕ → List ℕ → List ℕ
blit buf i xs = take i buf ++ (xs ++ drop (i + length xs) buf)

-- The variables of the loop of `log_ring_write`.
pub record Cursor : Type 0 where
  pub head : ℕ
  pub wrapped : ℕ
  pub buf : List ℕ

-- One round: as many bytes as fit before the end of the buffer.
unfoldable pub write_round : Cursor → List ℕ → Cursor
write_round k xs =
    let n = min (log_ring_size - k.head) (length xs) in
    let buf = blit k.buf k.head (take n xs) in
    if k.head + n == log_ring_size
    then record { head = 0; wrapped = 1; buf = buf }
    else record { head = k.head + n; wrapped = k.wrapped; buf = buf }

-- `while (len > 0)`, with fuel.
unfoldable pub write_loop : ℕ → Cursor → List ℕ → Cursor
unfolding write_round
write_loop zero k xs = k
write_loop (suc fuel) k [] = k
write_loop (suc fuel) k (x ∷ xs) =
    let rest = write_loop fuel (write_round k (x ∷ xs)) (drop (log_ring_size - k.head) (x ∷ xs)) in
    rest

-- Only the tail of a long write is kept.
unfoldable pub log_ring_write : LogRing → List ℕ → LogRing
unfolding check_of
log_ring_write r xs =
    let k =
      write_loop (log_ring_size + 1) (record { head = r.head; wrapped = r.wrapped; buf = r.buf })
        (last log_ring_size xs) in
    record r {
      head = k.head;
      wrapped = k.wrapped;
      buf = k.buf;
      check = check_of r.magic k.head k.wrapped;
    }

-- The two `memcpy` of `log_ring_copy`: `t` bytes from `s` on, going round at the end.
abbrev pub pieces : List ℕ → ℕ → ℕ → List ℕ
pieces buf s t =
    let first = min (log_ring_size - s) t in take first (drop s buf) ++ take (t - first) buf

-- Where a copy starts, and how many bytes it takes: the newest `cap` bytes.
abbrev pub span : LogRing → ℕ → ℕ × ℕ
span r cap =
    let total = if r.wrapped == 0 then r.head else log_ring_size in
    let start : ℕ = if r.wrapped == 0 then 0 else r.head in
    if ltb cap total then ((start + (total - cap)) % log_ring_size, cap) else (start, total)

-- The bytes that go to `out`.
unfoldable pub log_ring_copy : LogRing → ℕ → List ℕ
unfolding log_ring_valid
log_ring_copy r cap =
    let (start, total) = span r cap in
    if not (log_ring_valid r) || (cap == 0) then [] else pieces r.buf start total
