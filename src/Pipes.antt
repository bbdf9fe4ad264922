-- ===== src/Pipes.antt =====
-- kern/fs/pipe: the ring buffer between a reader and a writer, over the wait queues of Sync. The
-- buffer, which belongs to the pipe alone, is a function of the index.
pub mod Calls
pub mod Fifo
pub mod Reads
pub mod Writes
pub mod Tests
use ucoreonrv.Prelude.{ℕ, ◌+◌, ◌%◌, Bool, ◌==◌}
use ucoreonrv.Sync.{World}
use ucoreonrv.Strings.{Memory}

abbrev pub pipe_buffer_size : ℕ
pipe_buffer_size = 4096

-- A queue is its address.
pub record Pipe : Type 0 where
  pub p_head : ℕ
  pub p_tail : ℕ
  pub p_read_queue : ℕ
  pub p_write_queue : ℕ
  pub p_buffer : ℕ → ℕ

abbrev pub pipe_empty : Pipe → Bool
pipe_empty p = p.p_head == p.p_tail

abbrev pub pipe_full : Pipe → Bool
pipe_full p = p.p_head == (p.p_tail + 1) % pipe_buffer_size

-- What a call on the pipe works on.
pub record State : Type 0 where
  pub world : World
  pub pipe : Pipe
  pub memory : Memory
