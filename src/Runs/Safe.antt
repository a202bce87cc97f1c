-- ===== src/Runs/Safe.antt =====
-- The invariant of the kernel over all runs of system calls (kernel_proc.c, kernel_streams.c).
use tiny_os.Prelude.{
  ℕ, ◌+◌, ◌≤◌, ◌<◌, ◌≡◌, ◌==◌, Bool, true, false, none, List, arith, ltb, length, sym, subst, ap,
  ◌∙◌, Bool-cases, inl, inr, dec_lt,
}
use tiny_os.Kernel.{max_proc, max_fileid, PidState, alive, Kernel, cur}
use tiny_os.Streams.Calls.{Exact, Ready}
use tiny_os.Streams.Calm.{Calm}
use tiny_os.Proc.Table.{is_free, Chain, Chain-same, Table}
use tiny_os.Proc.Tree.{Forest, Tree}
use tiny_os.Runs.{State}

abbrev pub is_alive : PidState → Bool
is_alive alive = true
is_alive _ = false

-- Of a table of `n` processes: the reference counts are exact, with the references of the calls in
-- progress; the tree and the free list are well formed; a process that does not live has no open file,
-- and no process has one beyond MAX_FILEID; and process 1 lives or is a zombie.
pub record WellFormed (n : ℕ) (s : State) : Type 0 where
  pub exact : Exact s.held s.k
  pub room : length s.held < max_proc
  pub forest : Forest s.k.pt
  pub table : (fl : List ℕ) × Table n fl s.k
  pub closed : (p i : ℕ) → is_alive (s.k.pt p).pstate ≡ false → (s.k.pt p).fidt i ≡ none
  pub legal : (p i : ℕ) → ltb i max_fileid ≡ false → (s.k.pt p).fidt i ≡ none
  pub init : is_free (s.k.pt 1).pstate ≡ false

module _ {n : ℕ} (small : n ≤ max_proc) {s : State} (w : WellFormed n s) where
  module _ (running : (cur s.k).pstate ≡ alive) where
    pub the-Tree : Tree s.k
    the-Tree = record {
      running = running;
      children = w.forest.children;
      exited = w.forest.exited;
      pairs = w.forest.pairs;
    }

    pub the_call : Ready s.held s.k
    the_call = record { room = w.room; current = in_table }
      where
        in_table : s.k.curproc < max_proc
        in_table = elim (dec_lt s.k.curproc n) [
          | yes lt ↦ omega (arith, lt, small)
          | no ge ↦
              absurd (ground (arith, w.table.1.outside s.k.curproc (omega (arith, ge)), running))
        ]

  Table-Calm : {k' : Kernel} → Calm s.k k' → (fl : List ℕ) × Table n fl k'
  Table-Calm {k'} c =
      let (fl, t) = w.table in
      (
        fl,
        record {
          chain =
              subst (λ h. Chain k'.pt h fl) (sym c.head)
                (Chain-same s.k.pt k'.pt s.k.pcb_freelist fl (λ p i. c.tree.parent p) t.chain);
          distinct = t.distinct;
          states = λ p lt. ap is_free (c.tree.pstate p) ∙ t.states p lt;
          outside = λ p ge. ap is_free (c.tree.pstate p) ∙ t.outside p ge;
          within = t.within;
          total = ap (λ m. m + length fl) c.count ∙ t.total;
        },
      )

  Forest-Calm : {k' : Kernel} → Calm s.k k' → Forest k'.pt
  Forest-Calm {k'} c = record {
    children = λ p. rw (c.tree.children p) (w.forest.children p);
    exited = λ p. rw (c.tree.exited p) (w.forest.exited p);
    pairs = λ p d. ground (
      arith,
      w.forest.pairs p d,
      c.tree.pstate p,
      c.tree.pstate d,
      c.tree.parent d,
      c.tree.children p,
      c.tree.exited p,
    );
  }

  -- A call on the streams of the current process, which lives if the call changes its file table.
  pub Calm-WellFormed :
      (k' : Kernel) (held' : List ℕ)
      → Calm s.k k'
      → ((i : ℕ)
          → is_alive (cur s.k).pstate ≡ false
          → (k'.pt s.k.curproc).fidt i ≡ (cur s.k).fidt i)
      → Exact held' k'
      → length held' < max_proc
      → WellFormed n (record { k = k'; held = held' })
  Calm-WellFormed k' held' c own exact room = record {
    exact = exact;
    room = room;
    forest = Forest-Calm c;
    table = Table-Calm c;
    closed = λ p i dead.
        let dead' : is_alive (s.k.pt p).pstate ≡ false =
          ap is_alive (sym (c.tree.pstate p)) ∙ dead in
        elim (Bool-cases (s.k.curproc == p)) [
          | inl same ↦
              let e : s.k.curproc ≡ p = ground arith in
              subst (λ q. (k'.pt q).fidt i ≡ none) e
                (own i (rw e dead') ∙ w.closed s.k.curproc i (rw e dead'))
          | inr other ↦ c.fidt p i (ground (arith, other)) ∙ w.closed p i dead'
        ];
    legal = λ p i e. c.fidt p i (ground (arith, e)) ∙ w.legal p i e;
    init = ap is_free (c.tree.pstate 1) ∙ w.init;
  }
