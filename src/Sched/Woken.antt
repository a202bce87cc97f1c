-- ===== src/Sched/Woken.antt =====
-- The loop of sched_queue_select (kernel_sched.c) that wakes threads.
use tiny_os.Prelude.{
  ℕ, ◌≤◌, ◌<◌, ◌≡◌, refl, true, false, List, [], ◌∷◌, arith, ◌==◌, ltb, has, erase, Distinct,
  Bool-cases, inl, inr, ==_refl, subst, sym, ◌++◌, append-nil, append_assoc, ap, ◌∙◌, if◌then◌else◌,
}
use tiny_os.Sched.{
  Tcb, Scheduler, no_timeout, ready, sched_make_ready, wake_expired, pop_sched, sched_queue_select,
  ctx_clean, ctx_dirty, ThreadPhase,
}
use tiny_os.Sched.Timeouts.{Sorted, Timeouts, Readied, sched_make_ready-Readied}

when_clean : ThreadPhase → ℕ → List ℕ → List ℕ
when_clean ctx_clean t rest = t ∷ rest
when_clean ctx_dirty t rest = rest

-- The threads of the list whose time has come and whose context is saved.
unfoldable pub due : ℕ → (ℕ → Tcb) → List ℕ → List ℕ
unfolding when_clean
due now tcb [] = []
due now tcb (t ∷ ts) =
    let rest = due now tcb ts in
    if ltb now (tcb t).wakeup_time then rest else when_clean (tcb t).phase t rest

-- What the loop of sched_queue_select comes to: the threads whose time has come are ready, those with
-- a saved context in the queue, in the order of their times; no other thread has changed.
pub record Woken (s s' : Scheduler) : Type 0 where
  pub timeouts : Timeouts s'
  pub later : (t : ℕ) → has t s'.timeout_list ≡ true → s.clock < (s'.tcb t).wakeup_time
  pub ready_now : (t : ℕ) → (s.tcb t).wakeup_time ≤ s.clock → (s'.tcb t).state ≡ ready
  pub others : (t : ℕ) → s.clock < (s.tcb t).wakeup_time → s'.tcb t ≡ s.tcb t
  pub queue : s'.sched ≡ s.sched ++ due s.clock s.tcb s.timeout_list

due-none :
    (now : ℕ) (tcb : ℕ → Tcb) (l : List ℕ)
    → ((u : ℕ) → has u l ≡ true → now < (tcb u).wakeup_time)
    → due now tcb l ≡ []
unfolding due
due-none now tcb [] h = refl
due-none now tcb (t ∷ ts) h =
    let e : ltb now (tcb t).wakeup_time ≡ true = ground (arith, h t) in
    rw e (due-none now tcb ts (λ u i. h u (ground arith)))

due-same :
    (now : ℕ) (tcb tcb' : ℕ → Tcb) (l : List ℕ)
    → ((u : ℕ) → has u l ≡ true → tcb' u ≡ tcb u)
    → due now tcb' l ≡ due now tcb l
unfolding due
due-same now tcb tcb' [] same = refl
due-same now tcb tcb' (t ∷ ts) same =
    rw (same t (ground arith), due-same now tcb tcb' ts (λ u i. same u (ground arith))) refl

-- The loop, on the list as it finds it.
wake_expired-Woken :
    (l : List ℕ) (s : Scheduler)
    → s.timeout_list ≡ l
    → s.clock < no_timeout
    → Timeouts s
    → Woken s (wake_expired l s)
unfolding wake_expired due when_clean erase
wake_expired-Woken [] s e early h = record {
  timeouts = h;
  later = λ t i. absurd (ground arith);
  ready_now = λ t le. absurd (ground (arith, h.listed t));
  others = λ t lt. refl;
  queue = subst (λ l. s.sched ≡ s.sched ++ due s.clock s.tcb l) (sym e) (sym (append-nil s.sched));
}
wake_expired-Woken (t ∷ ts) s e early h = elim (Bool-cases (ltb s.clock (s.tcb t).wakeup_time)) [
  | inl lt ↦ rw lt (all_later lt)
  | inr le ↦ rw le (
      first le (
        wake_expired-Woken ts s1 (list1 le) (subst (λ c. c < no_timeout) (sym r.clock) early)
          (r.timeouts h)))
]
  where
    s1 : Scheduler
    s1 = sched_make_ready t s

    r : Readied t s s1
    r = sched_make_ready-Readied t s

    order : Sorted s.tcb (t ∷ ts)
    order = subst (λ l. Sorted s.tcb l) e h.sorted

    fresh : Distinct (t ∷ ts)
    fresh = subst (λ l. Distinct l) e h.distinct

    list1 : ltb s.clock (s.tcb t).wakeup_time ≡ false → s1.timeout_list ≡ ts
    list1 le = r.list (ground arith) ∙ (ap (erase t) e ∙ let same = ==_refl t in rw same refl)

    all_later : ltb s.clock (s.tcb t).wakeup_time ≡ true → Woken s s
    all_later lt = record {
      timeouts = h;
      later = lates;
      ready_now = λ u le. absurd (ground (arith, h.listed u, lates u));
      others = λ u lt. refl;
      queue = sym (
          ap (λ l. s.sched ++ l) (due-none s.clock s.tcb s.timeout_list lates)
          ∙ append-nil s.sched);
    }
      where
        lates : (u : ℕ) → has u s.timeout_list ≡ true → s.clock < (s.tcb u).wakeup_time
        lates u i = ground (arith, order.0 u, ap (has u) e)

    first :
        ltb s.clock (s.tcb t).wakeup_time ≡ false
        → Woken s1 (wake_expired ts s1)
        → Woken s (wake_expired ts s1)
    first le w = record {
      timeouts = w.timeouts;
      later = λ u i. ground (arith, w.later u i, r.clock);
      ready_now = λ u now. elim (Bool-cases (t == u)) [
        | inl same ↦ ground (arith, w.others u, r.state, r.wakeup_time, r.clock)
        | inr other ↦ ground (arith, w.ready_now u, r.others u other, r.clock)
      ];
      others = λ u lt. ground (arith, w.others u, r.others u, r.clock);
      queue =
          w.queue
          ∙ ap (λ c. s1.sched ++ due c s1.tcb s1.timeout_list) r.clock
          ∙ ap (λ l. s1.sched ++ due s.clock s1.tcb l) (list1 le)
          ∙ ap (λ l. s1.sched ++ l) rest
          ∙ queued (s.tcb t).phase refl
          ∙ ap (λ l. s.sched ++ l) headed
          ∙ ap (λ l. s.sched ++ due s.clock s.tcb l) (sym e);
    }
      where
        rest : due s.clock s1.tcb ts ≡ due s.clock s.tcb ts
        rest = due-same s.clock s.tcb s1.tcb ts (λ u i. r.others u (ground (arith, fresh.0)))

        headed : when_clean (s.tcb t).phase t (due s.clock s.tcb ts) ≡ due s.clock s.tcb (t ∷ ts)
        headed = rw le refl

        queued :
            (ph : ThreadPhase)
            → (s.tcb t).phase ≡ ph
            → s1.sched ++ due s.clock s.tcb ts ≡ s.sched ++ when_clean ph t (due s.clock s.tcb ts)
        queued ctx_clean is =
            ap (λ l. l ++ due s.clock s.tcb ts) (r.clean is) ∙ append_assoc s.sched (t ∷ []) _
        queued ctx_dirty is = ap (λ l. l ++ due s.clock s.tcb ts) (r.dirty is)

-- If the clock is before NO_TIMEOUT and the list is well formed, the loop of sched_queue_select makes
-- ready just the threads whose time has come, queues those with a saved context in the order of
-- their times, and leaves on the list only threads that wake later.
pub sched_queue_select-Woken :
    (s : Scheduler)
    → s.clock < no_timeout
    → Timeouts s
    → (s' : Scheduler) × Woken s s' × (sched_queue_select s ≡ pop_sched s'.sched s')
unfolding sched_queue_select
sched_queue_select-Woken s early h =
    (wake_expired s.timeout_list s, wake_expired-Woken s.timeout_list s refl early h, refl)
