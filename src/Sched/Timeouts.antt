-- ===== src/Sched/Timeouts.antt =====
-- TIMEOUT_LIST of kernel_sched.c: sched_register_timeout and sched_make_ready.
use tiny_os.Prelude.{
  ℕ, ◌+◌, ◌%◌, ◌^◌, ◌≤◌, ◌≡◌, refl, true, false, not, List, [], ◌∷◌, arith, ◌==◌, ◌||◌, ltb, update,
  has, erase, Distinct, Bool-cases, inl, inr, has-erase_ne, has-erase_self, Distinct-erase,
  has-erase, subst, sym, ◌++◌,
}
use tiny_os.Sched.{
  Tcb, Scheduler, no_timeout, ready, set_tcb, insert_timeout, sched_register_timeout,
  cancel_timeout, queue_clean, sched_queue_add, sched_make_ready, ctx_clean, ctx_dirty,
}

-- The list is in the order of the times of wake-up.
abbrev pub Sorted : (ℕ → Tcb) → List ℕ → Type 0
Sorted tcb [] = Unit {0}
Sorted tcb (t ∷ ts) =
    ((u : ℕ) → has u ts ≡ true → (tcb t).wakeup_time ≤ (tcb u).wakeup_time) × Sorted tcb ts

-- TIMEOUT_LIST is sorted, and it holds, once, each thread that has a time of wake-up.
pub record Timeouts (s : Scheduler) : Type 0 where
  pub sorted : Sorted s.tcb s.timeout_list
  pub distinct : Distinct s.timeout_list
  pub listed : (t : ℕ) → has t s.timeout_list ≡ not ((s.tcb t).wakeup_time == no_timeout)

-- Only the times of wake-up matter.
Sorted-same :
    (tcb tcb' : ℕ → Tcb) (l : List ℕ)
    → ((u : ℕ) → has u l ≡ true → (tcb' u).wakeup_time ≡ (tcb u).wakeup_time)
    → Sorted tcb l
    → Sorted tcb' l
Sorted-same tcb tcb' [] same h = tt
Sorted-same tcb tcb' (t ∷ ts) same (le, h) = (
  λ u i. ground (arith, le u i, same t, same u),
  Sorted-same tcb tcb' ts (λ u i. same u (ground arith)) h,
)

Sorted-erase : (tcb : ℕ → Tcb) (a : ℕ) (l : List ℕ) → Sorted tcb l → Sorted tcb (erase a l)
unfolding erase
Sorted-erase tcb a [] h = tt
Sorted-erase tcb a (t ∷ ts) (le, h) = elim (Bool-cases (a == t)) [
  | inl e ↦ rw e h
  | inr e ↦ rw e (
    λ u i. le u (elim (Bool-cases (has u ts)) [
      | inl y ↦ y
      | inr n ↦ absurd (ground (arith, has-erase u a ts n))
    ]),
    Sorted-erase tcb a ts h,
  )
]

module _ (tcb : ℕ → Tcb) (t w : ℕ) where
  pub has-insert_timeout :
      (u : ℕ) (l : List ℕ) → has u (insert_timeout tcb t w l) ≡ ((u == t) || has u l)
  unfolding insert_timeout
  has-insert_timeout u [] = refl
  has-insert_timeout u (n ∷ ns) = ground (arith, has-insert_timeout u ns)

  Distinct-insert_timeout :
      (l : List ℕ) → Distinct l → has t l ≡ false → Distinct (insert_timeout tcb t w l)
  unfolding insert_timeout
  Distinct-insert_timeout [] d out = (refl, tt)
  Distinct-insert_timeout (n ∷ ns) d out =
      ground (arith, has-insert_timeout n ns, Distinct-insert_timeout ns d.1)

  -- In the table `tcb'` the new thread has the time `w`.
  Sorted-insert_timeout :
      (tcb' : ℕ → Tcb) (l : List ℕ)
      → (tcb' t).wakeup_time ≡ w
      → ((u : ℕ) → has u l ≡ true → (tcb' u).wakeup_time ≡ (tcb u).wakeup_time)
      → Sorted tcb' l
      → Sorted tcb' (insert_timeout tcb t w l)
  unfolding insert_timeout
  Sorted-insert_timeout tcb' [] e same h = (λ u i. absurd (ground arith), tt)
  Sorted-insert_timeout tcb' (n ∷ ns) e same h = elim (Bool-cases (ltb w (tcb n).wakeup_time)) [
    | inl before ↦ rw before (λ u i. ground (arith, h.0 u, same n), h)
    | inr after ↦ rw after (
      λ u i. ground (arith, h.0 u, has-insert_timeout u ns, same n),
      Sorted-insert_timeout tcb' ns e (λ u i. same u (ground arith)) h.1,
    )
  ]

module _ {s : Scheduler} (t : ℕ) (h : Timeouts s) where
  abbrev timed : ℕ → ℕ → Tcb
  timed w = update s.tcb t (record (s.tcb t) { wakeup_time = w })

  -- A thread that has no time of wake-up gets the time `w`.
  register-Timeouts :
      (w : ℕ)
      → (s.tcb t).wakeup_time ≡ no_timeout
      → (w == no_timeout) ≡ false
      → Timeouts (record (set_tcb t (record (s.tcb t) { wakeup_time = w }) s) {
        timeout_list = insert_timeout s.tcb t w s.timeout_list;
      })
  register-Timeouts w e real = record {
    sorted =
        Sorted-insert_timeout s.tcb t w (timed w) s.timeout_list (ground arith)
          (λ u i. ground (arith, h.listed u))
          (Sorted-same s.tcb (timed w) s.timeout_list (λ u i. ground (arith, h.listed u)) h.sorted);
    distinct =
        Distinct-insert_timeout s.tcb t w s.timeout_list h.distinct (ground (arith, h.listed t));
    listed = λ u. ground (arith, h.listed u, has-insert_timeout s.tcb t w u s.timeout_list);
  }

  -- If the thread has no time of wake-up, and the time to register does not come to NO_TIMEOUT,
  -- sched_register_timeout keeps TIMEOUT_LIST sorted, without repetition and complete.
  pub sched_register_timeout-Timeouts :
      (timeout : ℕ)
      → (s.tcb t).wakeup_time ≡ no_timeout
      → (((s.clock + timeout) % 2 ^ 64) == no_timeout) ≡ false
      → Timeouts (sched_register_timeout t timeout s)
  unfolding sched_register_timeout
  sched_register_timeout-Timeouts timeout e real = elim (Bool-cases (timeout == no_timeout)) [
    | inl never ↦ rw never h
    | inr finite ↦ rw finite (register-Timeouts _ e real)
  ]

  -- Without a time of wake-up, the thread is off the list.
  cancel_timeout-Timeouts : Timeouts (cancel_timeout t s)
  unfolding cancel_timeout
  cancel_timeout-Timeouts = elim (Bool-cases ((s.tcb t).wakeup_time == no_timeout)) [
    | inl e ↦ rw e h
    | inr e ↦ rw e record {
      sorted =
          Sorted-same s.tcb (timed no_timeout) (erase t s.timeout_list)
            (λ u i. ground (arith, has-erase_self t s.timeout_list h.distinct))
            (Sorted-erase s.tcb t s.timeout_list h.sorted);
      distinct = Distinct-erase t s.timeout_list h.distinct;
      listed = λ u. ground (
        arith,
        h.listed u,
        has-erase_self t s.timeout_list h.distinct,
        has-erase_ne u t s.timeout_list,
      );
    }
  ]

-- The thread `t` before and after sched_make_ready.
pub record Readied (t : ℕ) (s s' : Scheduler) : Type 0 where
  pub timeouts : Timeouts s → Timeouts s'
  pub list :
      ((s.tcb t).wakeup_time == no_timeout) ≡ false → s'.timeout_list ≡ erase t s.timeout_list
  pub clock : s'.clock ≡ s.clock
  pub others : (u : ℕ) → (t == u) ≡ false → s'.tcb u ≡ s.tcb u
  pub state : (s'.tcb t).state ≡ ready
  pub wakeup_time : (s'.tcb t).wakeup_time ≡ no_timeout
  pub clean : (s.tcb t).phase ≡ ctx_clean → s'.sched ≡ s.sched ++ t ∷ []
  pub dirty : (s.tcb t).phase ≡ ctx_dirty → s'.sched ≡ s.sched

pub Timeouts-same :
    {s s' : Scheduler}
    → s'.timeout_list ≡ s.timeout_list
    → ((u : ℕ) → (s'.tcb u).wakeup_time ≡ (s.tcb u).wakeup_time)
    → Timeouts s
    → Timeouts s'
Timeouts-same {s} {s'} list same h = record {
  sorted =
      subst (λ l. Sorted s'.tcb l) (sym list) (Sorted-same s.tcb s'.tcb _ (λ u i. same u) h.sorted);
  distinct = subst (λ l. Distinct l) (sym list) h.distinct;
  listed = λ u. ground (arith, h.listed u, same u, list);
}

pub sched_make_ready-Readied : (t : ℕ) (s : Scheduler) → Readied t s (sched_make_ready t s)
unfolding sched_make_ready cancel_timeout queue_clean sched_queue_add
sched_make_ready-Readied t s = record {
  timeouts = λ h. Timeouts-same (ground arith) (λ u. ground arith) (cancel_timeout-Timeouts t h);
  list = λ e. ground arith;
  clock = ground arith;
  others = λ u ne. ground arith;
  state = ground arith;
  wakeup_time = ground arith;
  clean = λ e. ground arith;
  dirty = λ e. ground arith;
}
