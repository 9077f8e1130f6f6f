-- ===== src/Tests/Copies.antt =====
-- Copies of four bytes that overlap, and of two words that do not.
use so_tpe.Common.{◌≡◌, inr, arith}
use so_tpe.Bytes.{Memory, memcpy, memmove}
use so_tpe.Bytes.Moved.{moved, memcpy-moved, memmove-moved}

abbrev numbered : Memory
numbered a = a

memmove-moved_example : memmove 2 0 4 numbered 3 ≡ moved 2 0 4 numbered 3
memmove-moved_example = memmove-moved 2 0 4 numbered 3

memcpy-moved_example : memcpy 16 8 8 numbered 17 ≡ moved 16 8 8 numbered 17
memcpy-moved_example = memcpy-moved 16 8 8 numbered 17 (inr (omega arith))
