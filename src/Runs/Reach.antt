-- ===== src/Runs/Reach.antt =====
-- The kernel stays well formed in all runs of system calls (kernel_proc.c, kernel_streams.c).
use tiny_os.Prelude.{inl, inr, ℕ, ◌≤◌, ◌≡◌, true, arith, has, erase, length-erase}
use tiny_os.Kernel.{max_proc, alive, Kernel, cur}
use tiny_os.Streams.{io_end, fcb_decref}
use tiny_os.Streams.Counted
use tiny_os.Streams.Calls.{Exact, sys_close-Exact, sys_dup2-Exact, io_begin-Exact}
use tiny_os.Streams.Calm.{
  Calm, sys_close-Calm, sys_dup2-Calm, io_begin-Calm, io_end-Calm, open_stream-Calm,
}
use tiny_os.Streams.Open.{open_stream-Exact}
use tiny_os.Runs.{
  State, with_kernel, Step, Reaches, switches, execs, exits, init_waits, init_exits, reaps, opens,
  closes, dups, begins, ends, here, after,
}
use tiny_os.Proc.Drain.{drained, sleeps}
use tiny_os.Proc.Orphans.{sys_exit-Forest}
use tiny_os.Proc.Orphans.Childless.{childless-Forest}
use tiny_os.Runs.Init.{drain-Kept, init_exits-WellFormed}
use tiny_os.Runs.Safe.{WellFormed, the-Tree, the_call, Calm-WellFormed}
use tiny_os.Runs.Processes.{exec-WellFormed, exit-WellFormed, reap-WellFormed}

switch-WellFormed :
    {n : ℕ} {s : State} (p : ℕ)
    → WellFormed n s
    → WellFormed n (with_kernel (record s.k { curproc = p }) s)
switch-WellFormed p w =
    let (fl, t) = w.table in
    record {
      exact = record {
        distinct = w.exact.distinct;
        distinct_fresh = w.exact.distinct_fresh;
        few = w.exact.few;
        blocks = λ f.
            let b = w.exact.blocks f in
            record {
              unused = b.unused;
              counted = b.counted;
              kept = b.kept;
              in_range = b.in_range;
              newly = b.newly;
            };
      };
      room = w.room;
      forest = w.forest;
      table = (
        fl,
        record {
          chain = t.chain;
          distinct = t.distinct;
          states = t.states;
          outside = t.outside;
          within = t.within;
          total = t.total;
        },
      );
      closed = w.closed;
      legal = w.legal;
      init = w.init;
    }

module _ {n : ℕ} (small : n ≤ max_proc) {s : State} (w : WellFormed n s) where
  -- A call that keeps the counts, of a process that lives.
  stream-WellFormed :
      (running : (cur s.k).pstate ≡ alive) (k' : Kernel)
      → Calm s.k k'
      → Exact s.held k'
      → WellFormed n (with_kernel k' s)
  stream-WellFormed running k' c exact =
      Calm-WellFormed small w k' s.held c (λ i dead. absurd (ground (arith, dead, running))) exact
        w.room

  ends-WellFormed :
      (f : ℕ)
      → has f s.held ≡ true
      → WellFormed n (record { k = io_end f s.k; held = erase f s.held })
  unfolding io_end
  ends-WellFormed f h =
      Calm-WellFormed small w (io_end f s.k) (erase f s.held) (io_end-Calm f s.k)
        (λ i dead. unfold fcb_decref in ground arith) (Counted.fcb_decref-Counted w.exact f h)
        (omega (arith, w.room, length-erase f s.held))

Step-WellFormed :
    {n : ℕ} {s s' : State} → n ≤ max_proc → WellFormed n s → Step s s' → WellFormed n s'
Step-WellFormed small w (switches p lives) = switch-WellFormed p w
Step-WellFormed small w (execs call argl args running) =
    exec-WellFormed small w running call argl args
Step-WellFormed small w (exits exitval running later (inl lives)) =
    exit-WellFormed small w running exitval
      (sys_exit-Forest exitval _ (the-Tree small w running) later lives).0
Step-WellFormed small w (exits exitval running later (inr none_left)) =
    exit-WellFormed small w running exitval
      (childless-Forest exitval (the-Tree small w running) none_left)
Step-WellFormed small w (init_waits fuel k' running first e) =
    (drain-Kept small fuel w running (sleeps k') e).0
Step-WellFormed {s = s} small w (init_exits fuel exitval k' running first e) =
    let (w', running', none_left) = drain-Kept small fuel w running (drained k') e in
    init_exits-WellFormed small s w' running' exitval none_left
Step-WellFormed small w (reaps cpid c status k' running e) =
    reap-WellFormed small w running cpid c status k' e
Step-WellFormed {s = s} small w (opens major minor running) =
    stream-WellFormed small w running _ (open_stream-Calm major minor s.k)
      (open_stream-Exact w.exact (the_call small w running) major minor)
Step-WellFormed {s = s} small w (closes fd running) =
    stream-WellFormed small w running _ (sys_close-Calm fd s.k)
      (sys_close-Exact w.exact (the_call small w running) fd)
Step-WellFormed {s = s} small w (dups oldfd newfd running) =
    stream-WellFormed small w running _ (sys_dup2-Calm oldfd newfd s.k)
      (sys_dup2-Exact w.exact (the_call small w running) oldfd newfd)
Step-WellFormed {s = s} small w (begins fd f running got room) =
    Calm-WellFormed small w _ _ (io_begin-Calm fd s.k)
      (λ i dead. absurd (ground (arith, dead, running)))
      (io_begin-Exact w.exact (the_call small w running) fd got) room
Step-WellFormed small w (ends f h) = ends-WellFormed small w f h

-- From a well-formed kernel with a table of `n` processes, any sequence of steps of system calls, by any
-- processes that live, leads to a well-formed kernel: the reference counts are exact, the tree of
-- processes and the free list are well formed, a process that does not live has no open file, and
-- process 1 lives or is a zombie.
pub system_calls-WellFormed :
    {n : ℕ} {s s' : State} → n ≤ max_proc → WellFormed n s → Reaches s s' → WellFormed n s'
system_calls-WellFormed small w here = w
system_calls-WellFormed small w (after run step) =
    Step-WellFormed small (system_calls-WellFormed small w run) step
