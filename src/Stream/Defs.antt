-- ===== src/Stream/Defs.antt =====
-- The stream of stream.c. A cell of memory that was allocated and not written to is `none`. The
-- lock, which every call takes and gives back, and the pool of streams are left out, and memory is
-- never short. Sizes are those of data in memory, below 2^32.
use jdepends.Common.{
  ℕ, ◌+◌, ◌-◌, ◌%◌, ◌^◌, Option, none, some, List, [], ◌++◌, map, ltb, leb, if◌then◌else◌, length,
  take, drop, set, replicate,
}
use jdepends.Common.Run.{Run, ok, fault, ◌>>=◌}

-- _CACHE_SIZE
abbrev pub cache_size : ℕ
cache_size = 64

abbrev pub Cells : Type 0
Cells = List (Option ℕ)

-- stream_t
pub record ByteStream : Type 0 where
  pub buffer : Cells
  pub alloc_size : ℕ
  pub read_size : ℕ
  pub cur_size : ℕ

-- stream_open
abbrev pub open_stream : ByteStream
open_stream = record {
  buffer = replicate cache_size none;
  alloc_size = cache_size;
  read_size = 0;
  cur_size = 0;
}

-- stream_flush
unfoldable pub flush : ByteStream → ByteStream
flush s = record s {
  buffer = replicate s.cur_size (some 0) ++ drop s.cur_size s.buffer;
  read_size = 0;
  cur_size = 0;
}

-- The memcpy of stream_write, into a buffer
unfoldable pub copy_in : Cells → ℕ → List ℕ → Run Cells
copy_in cells at bytes =
    let behind = at + length bytes in
    if leb behind (length cells)
    then ok (take at cells ++ map some bytes ++ drop behind cells)
    else fault

-- The part of stream_write that makes room for `len` bytes
unfoldable pub expand : ByteStream → ℕ → ByteStream
expand s len =
    let more = len - len % cache_size + cache_size in
    if leb s.alloc_size (s.cur_size + len + 2)
    then record s { buffer = s.buffer ++ replicate more none; alloc_size = s.alloc_size + more }
    else s

-- stream_write
unfoldable pub write : ByteStream → List ℕ → Run ByteStream
write s bytes = do
  cells ← copy_in (expand s (length bytes)).buffer s.cur_size bytes
  ok (record (expand s (length bytes)) { buffer = cells; cur_size = s.cur_size + length bytes })

-- `read_size + len - 1`, on 32 bits
abbrev pub last_wanted : ℕ → ℕ → ℕ
last_wanted read_size len = (read_size + len + 2 ^ 32 - 1) % 2 ^ 32

-- The length as stream_read adjusts it
unfoldable pub adjusted : ByteStream → ℕ → ℕ
adjusted s len =
    if ltb s.cur_size (last_wanted s.read_size len) then s.cur_size - s.read_size + 1 else len

-- The memcpy of stream_read, `len` cells into the caller's buffer of `room`
unfoldable pub copy_out : Cells → ℕ → ℕ → ℕ → Run Cells
copy_out cells at len room =
    let source = if leb (at + len) (length cells) then ok (take len (drop at cells)) else fault in
    if leb len room then source else fault

-- stream_read: the cells that the caller's buffer of `len` bytes is filled with
unfoldable pub read : ByteStream → ℕ → Run (Cells × ByteStream)
read s len =
    let cells = (do
      got ← copy_out s.buffer s.read_size (adjusted s len) len
      ok (got, record s { read_size = s.read_size + adjusted s len })) in
    if leb s.cur_size s.read_size then ok ([], s) else cells

-- stream_get_buffer: a NUL is put behind the bytes.
unfoldable pub get_buffer : ByteStream → Run ByteStream
get_buffer s =
    if ltb s.cur_size (length s.buffer)
    then ok (record s { buffer = set s.buffer s.cur_size (some 0) })
    else fault
