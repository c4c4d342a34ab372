-- ===== src/Stream/Examples.antt =====
-- A stream with three bytes, of which one was read.
use jdepends.Common.{◌≡◌, refl, none, some, [], ◌∷◌, ◌++◌, map, replicate, arith}
use jdepends.Common.Run.{ok}
use jdepends.Stream.Defs.{ByteStream, write, read}
use jdepends.Stream.Writes.{IsStream, contents, write-contents}
use jdepends.Stream.Reads.{read-contents}

abbrev stream : ByteStream
stream = record {
  buffer = some 10 ∷ some 20 ∷ some 30 ∷ replicate 61 none;
  alloc_size = 64;
  read_size = 1;
  cur_size = 3;
}

stream-IsStream : IsStream stream
stream-IsStream = record { allocated = refl; room = omega arith }

write-contents_example :
    (s' : ByteStream) × (write stream (40 ∷ 50 ∷ []) ≡ ok s')
    × IsStream s'
    × (contents s' ≡ contents stream ++ map some (40 ∷ 50 ∷ []))
    × (s'.read_size ≡ 1)
write-contents_example = write-contents stream (40 ∷ 50 ∷ []) stream-IsStream

read-contents_example : read stream 1 ≡ ok (some 20 ∷ [], record stream { read_size = 2 })
read-contents_example =
    read-contents stream 1 stream-IsStream (omega arith) (omega arith) (omega arith) (omega arith)
