-- ===== src/Files/MovingTests.antt =====
-- Runs of kern/fs/iobuf.c on a buffer with room for four bytes more.
use ucoreonrv.Prelude.{ℕ, ◌%◌}
use ucoreonrv.Prelude.Int.{pos}
use ucoreonrv.Files.State.{Iobuf}

abbrev bytes_at : ℕ → ℕ
bytes_at a = a % 256

abbrev part : Iobuf
part = record { io_base = 1000; io_offset = pos 0; io_len = 10; io_resid = 4 }
