-- ===== src/Pipes/Calls.antt =====
-- kern/fs/pipe/pipe.c: reading and writing. A call is cut where it calls `schedule`.
use ucoreonrv.Prelude.{ℕ, zero, suc, ◌+◌, ◌-◌, ◌%◌, ◌^◌, true, false, ◌==◌, if◌then◌else◌}
use ucoreonrv.Prelude.Errors.{Run, done, ◌>>=◌}
use ucoreonrv.Files.State.{Iobuf}
use ucoreonrv.Sync.{World, set_at}
use ucoreonrv.Sync.WaitQueue.{
  wait_queue_init, wait_queue_empty, wakeup_queue, wait_current_set, wait_current_del,
}
use ucoreonrv.Strings.{store}
use ucoreonrv.Pipes.{pipe_buffer_size, pipe_empty, pipe_full, State}

abbrev pub wt_ipc : ℕ
wt_ipc = 2 ^ 31 + 8

-- How a call stops: it returns the count `ret`, or calls `schedule` with that count so far.
pub data Stop : Type 0 where
  returned : (ret : ℕ) → Stop
  sleeps : (ret : ℕ) → Stop

-- `wakeup_queue(queue, WT_IPC, 1)` if somebody is there.
unfoldable pub wake_others : World → (queue : ℕ) → Run World
wake_others w q = if wait_queue_empty w q then done w else wakeup_queue w q wt_ipc true

-- One byte, and the step of the `for` loop.
unfoldable pub take_byte : State → Iobuf → Run State
unfolding wake_others
take_byte s iob = do
  let p = s.pipe
  let m = store s.memory iob.io_base (p.p_buffer p.p_head)
  w ← wake_others s.world p.p_write_queue
  done (record {
    world = w;
    pipe = record p { p_head = (p.p_head + 1) % pipe_buffer_size };
    memory = m;
  })

unfoldable pub put_byte : State → Iobuf → Run State
unfolding wake_others
put_byte s iob = do
  let p = s.pipe
  let buffer = set_at p.p_buffer p.p_tail (s.memory iob.io_base)
  w ← wake_others s.world p.p_read_queue
  done (record s {
    world = w;
    pipe = record p { p_buffer = buffer; p_tail = (p.p_tail + 1) % pipe_buffer_size };
  })

abbrev pub next_base : Iobuf → Iobuf
next_base iob = record iob { io_base = iob.io_base + 1 }

abbrev pub finish : State → Iobuf → (ret : ℕ) → Run (Stop × State × Iobuf)
finish s iob ret = done (returned ret, s, record iob { io_resid = iob.io_resid - ret })

-- The loops with `n` bytes to go; `wait` is the address of the local entry.
unfoldable pub read_loop :
    (n : ℕ) → (wait : ℕ) → State → Iobuf → (ret : ℕ) → Run (Stop × State × Iobuf)
unfolding take_byte
read_loop zero x s iob ret = finish s iob ret
read_loop (suc n) x s iob ret = elim (pipe_empty s.pipe) [
  | true ↦ do
    w ← wait_current_set s.world s.pipe.p_read_queue x wt_ipc
    done (sleeps ret, record s { world = w }, iob)
  | false ↦ do s' ← take_byte s iob; read_loop n x s' (next_base iob) (ret + 1)
]

unfoldable pub write_loop :
    (n : ℕ) → (wait : ℕ) → State → Iobuf → (ret : ℕ) → Run (Stop × State × Iobuf)
unfolding put_byte
write_loop zero x s iob ret = finish s iob ret
write_loop (suc n) x s iob ret = elim (pipe_full s.pipe) [
  | true ↦ do
    w ← wait_current_set s.world s.pipe.p_write_queue x wt_ipc
    done (sleeps ret, record s { world = w }, iob)
  | false ↦ do s' ← put_byte s iob; write_loop n x s' (next_base iob) (ret + 1)
]

unfoldable pub pipe_read : State → Iobuf → (wait : ℕ) → Run (Stop × State × Iobuf)
unfolding read_loop
pipe_read s iob x = read_loop iob.io_resid x s iob 0

unfoldable pub pipe_write : State → Iobuf → (wait : ℕ) → Run (Stop × State × Iobuf)
unfolding write_loop
pipe_write s iob x = write_loop iob.io_resid x s iob 0

-- The rest of a call once its process runs again: it goes on if the other side woke it, and ends if
-- not.
unfoldable pub pipe_read_resume : State → Iobuf → (wait ret : ℕ) → Run (Stop × State × Iobuf)
unfolding read_loop
pipe_read_resume s iob x ret = do
  w ← wait_current_del s.world s.pipe.p_read_queue x
  let s' = record s { world = w }
  if (w.waits x).wakeup_flags == wt_ipc
      then read_loop (iob.io_resid - ret) x s' iob ret
      else finish s' iob ret

unfoldable pub pipe_write_resume : State → Iobuf → (wait ret : ℕ) → Run (Stop × State × Iobuf)
unfolding write_loop
pipe_write_resume s iob x ret = do
  w ← wait_current_del s.world s.pipe.p_write_queue x
  let s' = record s { world = w }
  if (w.waits x).wakeup_flags == wt_ipc
      then write_loop (iob.io_resid - ret) x s' iob ret
      else finish s' iob ret

-- `pipe_create_inode` where its two allocations succeed: the pipe, with its buffer as it was.
unfoldable pub pipe_create : State → State
unfolding wait_queue_init
pipe_create s =
    let p = s.pipe in
    record s {
      world = wait_queue_init (wait_queue_init s.world p.p_read_queue) p.p_write_queue;
      pipe = record p { p_head = 0; p_tail = 0 };
    }
