-- ===== src/Pipes/Tests.antt =====
-- Runs of kern/fs/pipe: process 1 runs, process 2 sleeps in the write queue 61 of the pipe.
use ucoreonrv.Prelude.{ℕ, refl, true, false, [], ◌∷◌, arith, ◌==◌, if◌then◌else◌}
use ucoreonrv.Prelude.Int.{pos}
use ucoreonrv.Prelude.Errors.{Ends}
use ucoreonrv.SkewHeap.{leaf}
use ucoreonrv.Sched.{Proc, sleeping, runnable}
use ucoreonrv.Sync.{World}
use ucoreonrv.Files.State.{Iobuf}
use ucoreonrv.Pipes.{State}
use ucoreonrv.Pipes.Calls.{wt_ipc, pipe_read, pipe_write}
use ucoreonrv.Pipes.Reads.{Took, pipe_read-Took}
use ucoreonrv.Pipes.Writes.{Gave, pipe_write-Gave}

abbrev proc : ℕ → Proc
proc i = record {
  state = if i == 1 then runnable else sleeping;
  runs = 0;
  need_resched = false;
  wait_state = if i == 1 then 0 else wt_ipc;
  on_rq = false;
  time_slice = 5;
  lab6_stride = 0;
  lab6_priority = 1;
}

abbrev world : World
world = record {
  sched = record {
    procs = proc;
    rq = record { proc_num = 0; max_time_slice = 5; lab6_run_pool = leaf };
    timer_list = [];
    current = 1;
    idleproc = 9;
  };
  waits = λ x. record {
    proc = if x == 12 then 2 else 3;
    wakeup_flags = 0;
    wait_queue = 61;
    linked = if x == 12 then true else false;
  };
  queues = λ q. if q == 61 then 12 ∷ [] else [];
  values = λ q. 0;
}

-- The bytes 7 and 8 lie across the end of the ring.
abbrev demo : State
demo = record {
  world = world;
  pipe = record {
    p_head = 4095;
    p_tail = 1;
    p_read_queue = 60;
    p_write_queue = 61;
    p_buffer = λ i. if i == 4095 then 7 else 8;
  };
  memory = λ a. a;
}

abbrev wanted : Iobuf
wanted = record { io_base = 100; io_offset = pos 0; io_len = 3; io_resid = 3 }

pipe_read-Took_example : Ends (Took 3 0 (7 ∷ 8 ∷ []) demo wanted) (pipe_read demo wanted 15)
pipe_read-Took_example =
    pipe_read-Took demo wanted 15 (omega arith, omega arith)
      (omega arith, ((refl, refl, refl, refl, refl), tt), (tt, tt))

pipe_write-Gave_example : Ends (Gave 3 0 (7 ∷ 8 ∷ []) demo wanted) (pipe_write demo wanted 15)
pipe_write-Gave_example =
    pipe_write-Gave demo wanted 15 (omega arith, omega arith) (omega arith, tt, tt)
