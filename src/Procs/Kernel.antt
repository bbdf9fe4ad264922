-- ===== src/Procs/Kernel.antt =====
-- kern/process/proc.h and the tables of kern/process/proc.c.
use ucoreonrv.Prelude.{
  ℕ, ◌+◌, ◌-◌, ◌*◌, ◌/◌, ◌%◌, ◌^◌, Bool, ◌&&◌, List, [], ◌∷◌, ltb, ◌==◌, if◌then◌else◌,
}
use ucoreonrv.Prelude.Int.{ℤ}
use ucoreonrv.Sched.{Sched, null}
use ucoreonrv.Sync.{set_at}
use ucoreonrv.Procs.Pids.{max_pid}

-- The fields of `struct proc_struct` beside those of the scheduler. `exiting` is the bit PF_EXITING
-- of `flags`.
pub record Kin : Type 0 where
  pub pid : ℕ
  pub exiting : Bool
  pub exit_code : ℤ
  pub parent : ℕ
  pub cptr : ℕ
  pub yptr : ℕ
  pub optr : ℕ

pub record Kernel : Type 0 where
  pub sched : Sched
  pub kin : ℕ → Kin
  pub proc_list : List ℕ
  pub hash_list : ℕ → List ℕ
  pub nr_process : ℕ
  pub last_pid : ℕ
  pub next_safe : ℕ
  pub initproc : ℕ

abbrev pub set_kin : Kernel → ℕ → Kin → Kernel
set_kin k p v = record k { kin = set_at k.kin p v }

-- libs/hash.c; the product is one of `uint32_t`.
unfoldable pub hash32 : (val bits : ℕ) → ℕ
hash32 val bits = (val * 2654404609) % 2 ^ 32 / 2 ^ (32 - bits)

abbrev pub hash_shift : ℕ
hash_shift = 10

unfoldable pub pid_hashfn : ℕ → ℕ
unfolding hash32
pid_hashfn x = hash32 x hash_shift

-- `list_del` on one of the links of `p`.
abbrev pub erase : ℕ → List ℕ → List ℕ
erase p [] = []
erase p (q ∷ qs) = if q == p then qs else q ∷ erase p qs

unfoldable pub hash_proc : Kernel → ℕ → Kernel
unfolding pid_hashfn
hash_proc k p =
    let i = pid_hashfn (k.kin p).pid in
    record k { hash_list = set_at k.hash_list i (p ∷ k.hash_list i) }

unfoldable pub unhash_proc : Kernel → ℕ → Kernel
unfolding pid_hashfn
unhash_proc k p =
    let i = pid_hashfn (k.kin p).pid in
    record k { hash_list = set_at k.hash_list i (erase p (k.hash_list i)) }

-- The loop of `find_proc`.
unfoldable pub find_in_list : (ℕ → Kin) → ℕ → List ℕ → ℕ
find_in_list kin pid [] = null
find_in_list kin pid (p ∷ ps) =
    let rest = find_in_list kin pid ps in if (kin p).pid == pid then p else rest

-- NULL if no process has the pid.
unfoldable pub find_proc : Kernel → ℕ → ℕ
unfolding find_in_list pid_hashfn
find_proc k pid =
    if ltb 0 pid && ltb pid max_pid
    then find_in_list k.kin pid (k.hash_list (pid_hashfn pid))
    else null

-- `p` becomes the youngest child of its parent.
unfoldable pub set_links : Kernel → ℕ → Kernel
set_links k p =
    let parent = (k.kin p).parent in
    let older = (k.kin parent).cptr in
    let kin1 = set_at k.kin p (record (k.kin p) { yptr = null; optr = older }) in
    let kin2 =
      if older == null then kin1 else set_at kin1 older (record (kin1 older) { yptr = p }) in
    record k {
      kin = set_at kin2 parent (record (kin2 parent) { cptr = p });
      proc_list = p ∷ k.proc_list;
      nr_process = k.nr_process + 1;
    }

unfoldable pub remove_links : Kernel → ℕ → Kernel
remove_links k p =
    let older = (k.kin p).optr in
    let k1 =
      if older == null
      then k
      else set_kin k older (record (k.kin older) { yptr = (k.kin p).yptr }) in
    let younger = (k1.kin p).yptr in
    let parent = (k1.kin p).parent in
    let k2 =
      if younger == null
      then set_kin k1 parent (record (k1.kin parent) { cptr = (k1.kin p).optr })
      else set_kin k1 younger (record (k1.kin younger) { optr = (k1.kin p).optr }) in
    record k2 { proc_list = erase p k.proc_list; nr_process = k.nr_process - 1 }
