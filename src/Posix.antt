-- ===== src/Posix.antt =====
-- System calls as the program sees them: each `read`, `write` or `send` takes the next outcome of
-- a list, which stands for whatever the kernel and the other end do. A call that finds no outcome
-- left blocks.
use io_tblegateway.Common.{
  ℕ, ◌+◌, ◌≤◌, ◌≡◌, ◌++◌, arith, Bytes, length, take, drop, length-append, length-take, length-drop,
}

-- `failed` is -1 with that `errno`; `got []` is 0, the end of the stream or a timeout.
pub data ReadOutcome : Type 0 where
  failed : ℕ → ReadOutcome
  got : Bytes → ReadOutcome

pub data WriteOutcome : Type 0 where
  failed : ℕ → WriteOutcome
  took : ℕ → WriteOutcome

-- What a transfer routine returns: a count, or -1 with `errno`.
pub data Ret : Type 0 where
  value : ℕ → Ret
  error : ℕ → Ret

-- How a routine ends: it returns, it waits in a call, or it touches memory outside its buffer.
pub data Io : Type 0 where
  returns : Ret → Io
  blocked : Io
  fault : Io

-- The kernel moves at most the number of bytes that were asked for.
abbrev pub moves : ReadOutcome → ℕ
moves (failed e) = 0
moves (got bs) = length bs

-- Bytes that `read` puts at an offset of a buffer.
unfoldable pub write_at : Bytes → ℕ → Bytes → Bytes
write_at buf off bs = take off buf ++ (bs ++ drop (off + length bs) buf)

pub length-write_at :
    (buf : Bytes) (off : ℕ) (bs : Bytes)
    → off + length bs ≤ length buf
    → length (write_at buf off bs) ≡ length buf
unfolding write_at
length-write_at buf off bs h = omega (
  arith,
  length-append (take off buf) (bs ++ drop (off + length bs) buf),
  length-append bs (drop (off + length bs) buf),
  length-take off buf,
  length-drop (off + length bs) buf,
)
