-- ===== src/Boot/Start.antt =====
-- The kernel that the boot sequence leaves is well formed (kernel_init.c).
use tiny_os.Prelude.{
  Option, ℕ, suc, ◌+◌, ◌≤◌, ◌<◌, ◌≡◌, ◌≢◌, refl, true, false, none, some, List, [], ◌∷◌, arith, ap,
  ◌∙◌, subst, sym, inl, length, dec_lt, some-injective,
}
use tiny_os.Kernel.{max_proc, max_files, Kernel}
use tiny_os.Proc.{initialize_table, sys_exec}
use tiny_os.Proc.Table.{is_free, Chain, Table, initialize_table-Table}
use tiny_os.Proc.Task.{sys_exec-first}
use tiny_os.Proc.Steady.{sys_exec-Table}
use tiny_os.Proc.Blank.{
  Blank, Rooted, initialize_table-Blank, initialize_table-current, sys_exec-Rooted, Blank-Forest,
  has-below,
}
use tiny_os.Proc.Files.Exec.{sys_exec-Exact}
use tiny_os.Streams.{initialize_files}
use tiny_os.Streams.Init.{initialize_files-Exact, initialize_files-same, initialize_files_count}
use tiny_os.Streams.Calls.{Exact, Ready}
use tiny_os.Devices.{initialize_devices}
use tiny_os.Boot.{initialize_processes, start_init, boot_tinyos_kernel}
use tiny_os.Boot.Sequence.{below-two, first_two, expected}
use tiny_os.Runs.{State, Reaches}
use tiny_os.Runs.Reach.{system_calls-WellFormed}
use tiny_os.Runs.Safe.{WellFormed}

-- The part before the second Exec leaves the processes as they are.
prepared-Table :
    {n : ℕ} {fl : List ℕ} {k : Kernel} (files ports : ℕ)
    → Table n fl k
    → Table n fl (initialize_files files (initialize_devices ports k))
unfolding initialize_devices
prepared-Table {n} {fl} {k} files ports t =
    let (pt, current, head) = initialize_files-same files (initialize_devices ports k) in
    let k' = initialize_files files (initialize_devices ports k) in
    record {
      chain =
          subst (λ h. Chain k'.pt h fl) (sym head)
            (subst (λ f. Chain f k.pcb_freelist fl) (sym pt) t.chain);
      distinct = t.distinct;
      states = λ q lt. ap (λ f. is_free (f q).pstate) pt ∙ t.states q lt;
      outside = λ q ge. ap (λ f. is_free (f q).pstate) pt ∙ t.outside q ge;
      within = t.within;
      total =
          ap (λ c. c + length fl) (initialize_files_count files (initialize_devices ports k))
          ∙ t.total;
    }

module _ (m ports task argl : ℕ) (args : Option (List ℕ)) (k : Kernel)
    (small : suc (suc m) ≤ max_proc) (at_zero : k.curproc ≡ 0)
    (unused : (q : ℕ) → suc (suc m) ≤ q → is_free (k.pt q).pstate ≡ true)
    (beyond : (q : ℕ) → suc (suc m) ≤ q → Blank (k.pt q)) where
  abbrev n : ℕ
  n = suc (suc m)

  abbrev k1 : Kernel
  k1 = initialize_table n k

  abbrev k2 : Kernel
  k2 = (sys_exec none 0 none k1).1

  abbrev k3 : Kernel
  k3 = initialize_files max_files (initialize_devices ports k2)

  abbrev k4 : Kernel
  k4 = (sys_exec (some task) argl args k3).1

  rest : List ℕ
  rest = (below-two m []).0

  table1 : Table n (0 ∷ 1 ∷ rest) k1
  unfolding rest
  table1 = subst (λ l. Table n l k1) (below-two m []).1 (initialize_table-Table n k unused)

  table2 : Table n (1 ∷ rest) k2
  table2 = sys_exec-Table 0 (1 ∷ rest) none 0 none small table1

  table3 : Table n (1 ∷ rest) k3
  table3 = prepared-Table max_files ports table2

  table4 : Table n rest k4
  table4 = sys_exec-Table 1 rest (some task) argl args small table3

  zeroth : Rooted 0 k1 k2
  zeroth = sys_exec-Rooted 0 none 0 none k1 table1.chain.0 refl

  first : Rooted 1 k3 k4
  first = sys_exec-Rooted 1 (some task) argl args k3 table3.chain.0 refl

  prepared : (k3.pt ≡ k2.pt) × (k3.curproc ≡ k2.curproc)
  unfolding initialize_devices
  prepared =
      let (pt, current, head) = initialize_files-same max_files (initialize_devices ports k2) in
      (pt, current)

  blank2 : (q : ℕ) → Blank (k2.pt q)
  blank2 q = zeroth.blank q (initialize_table-Blank n k beyond q)

  blank3 : (q : ℕ) → Blank (k3.pt q)
  blank3 q = subst (λ f. Blank (f q)) (sym prepared.0) (blank2 q)

  all_free : (q : ℕ) → is_free (k1.pt q).pstate ≡ true
  all_free q = elim (dec_lt q n) [
    | yes lt ↦ (initialize_table-Table n k unused).states q lt ∙ has-below n [] q (inl lt)
    | no ge ↦ (initialize_table-Table n k unused).outside q (omega (arith, ge))
  ]

  orphans : (q : ℕ) → is_free (k4.pt q).pstate ≡ false → (k4.pt q).parent ≡ none
  orphans q used = ground (
    arith,
    used,
    first.pstate q,
    first.parent q,
    zeroth.pstate q,
    zeroth.parent q,
    all_free q,
    ap (λ f. (f q).pstate) prepared.0,
    ap (λ f. (f q).parent) prepared.0,
  )

  ready3 : Ready [] k3
  ready3 = record {
    room = omega arith;
    current =
        rw (prepared.1 ∙ zeroth.current ∙ initialize_table-current n k ∙ at_zero) (omega arith);
  }

  boots : boot_tinyos_kernel n max_files ports task argl args k ≡ some k4
  unfolding boot_tinyos_kernel initialize_processes start_init
  boots =
      let (head, next) = first_two m k unused in
      ap (λ o. start_init max_files ports task argl args o)
        (expected 0 (sys_exec none 0 none k1)
          (sys_exec-first 0 0 none none k1 head (omega arith)).0)
      ∙ expected 1 (sys_exec (some task) argl args k3)
          (sys_exec-first 1 argl (some task) args k3 table3.chain.0 (omega arith)).0

  exact3 : Exact [] k3
  exact3 =
      initialize_files-Exact (initialize_devices ports k2)
        (unfold initialize_devices in λ q i. (blank2 q).fidt i)

  exact4 : Exact [] k4
  exact4 = sys_exec-Exact (some task) argl args exact3 ready3 (record { next = next })
    where
      next :
          (p : ℕ)
          → k3.pcb_freelist ≡ some p
          → (p < max_proc) × (p ≢ k3.curproc) × ((i : ℕ) → (k3.pt p).fidt i ≡ none)
      next p e =
          let one : 1 ≡ p = some-injective _ _ (sym table3.chain.0 ∙ e) in
          (
            subst (λ q. q < max_proc) one (omega arith),
            λ own. absurd (
                ground (
                  arith,
                  one,
                  own,
                  prepared.1,
                  zeroth.current,
                  initialize_table-current n k,
                  at_zero,
                )),
            λ i. (blank3 p).fidt i,
          )

  start-WellFormed : WellFormed n (record { k = k4; held = [] })
  start-WellFormed = record {
    exact = exact4;
    room = omega arith;
    forest = Blank-Forest k4.pt (λ q. first.blank q (blank3 q)) orphans;
    table = (rest, table4);
    closed = λ q i dead. (first.blank q (blank3 q)).fidt i;
    legal = λ q i high. (first.blank q (blank3 q)).fidt i;
    init = ground (arith, first.pstate 1);
  }

  -- On a table of two to MAX_PROC entries, with the entries beyond it free and blank, and process 0
  -- as the current one, the boot sequence succeeds, with or without arguments, and from the kernel
  -- that it leaves any sequence of steps of system calls, by any processes that live, leads to a
  -- well-formed kernel: the reference counts are exact, with the references of the calls in
  -- progress; the tree of processes and the free list are well formed; a process that does not live
  -- has no open file; and process 1 lives or is a zombie. The Exit of process 1 is in a run, with
  -- the sleeps of its loop; another process exits while process 1 lives, or without children.
  pub boot-WellFormed :
      (k' : Kernel) × (boot_tinyos_kernel (suc (suc m)) max_files ports task argl args k ≡ some k')
      × ((s : State) → Reaches (record { k = k'; held = [] }) s → WellFormed (suc (suc m)) s)
  boot-WellFormed = (k4, boots, λ s run. system_calls-WellFormed small start-WellFormed run)
