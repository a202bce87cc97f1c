-- ===== src/Sched/Fair.antt =====
-- The queue of the scheduler is first in, first out (kernel_sched.c): what each step does to it, and how
-- long a thread waits in it.
use tiny_os.Prelude.{
  ℕ, suc, ◌+◌, ◌≡◌, ◌==◌, ◌||◌, ◌<◌, ◌⊎◌, inl, inr, Bool, true, false, Bool-cases, refl, arith, sym,
  ap, ◌∙◌, List, [], ◌∷◌, ◌++◌, append-nil, append_assoc, length, Option, none, some, ltb,
  if◌then◌else◌,
}
use tiny_os.Sched.{
  Scheduler, ThreadState, stopped, exited, spawn_thread, wakeup, sleep_releasing, yield_select,
  gain, run_scheduler, sched_make_ready, wake_expired, sched_queue_select, pop_sched, choose_next,
  register_unless_exited, sched_register_timeout, can_wake, no_timeout,
}
use tiny_os.Sched.Steps.{
  is_dirty, System, Step, Reaches, starts, spawns, wakes, stops, exits, yields, yields_asleep,
  gains, finishes, ticks, here, after,
}
use tiny_os.Sched.Sound.Wake.{sched_make_ready-Woke}
use tiny_os.Sched.Sound.Select.{turned}
use tiny_os.Sched.Sound.Gain.{gain-Gained}

-- The queue gets longer at its end, or stays.
abbrev Grows : List ℕ → List ℕ → Type 0
Grows l l' = (more : List ℕ) × (l' ≡ l ++ more)

Grows-same : (l l' : List ℕ) → l' ≡ l → Grows l l'
Grows-same l l' e = ([], e ∙ sym (append-nil l))

Grows-if : (l l' : List ℕ) (t : ℕ) (b : Bool) → l' ≡ (if b then l ++ t ∷ [] else l) → Grows l l'
Grows-if l l' t b e = elim (Bool-cases b) [
  | inl y ↦ (t ∷ [], e ∙ rw y refl)
  | inr n ↦ Grows-same l l' (e ∙ rw n refl)
]

Grows-on : (l l' l'' : List ℕ) → Grows l l' → Grows l' l'' → Grows l l''
Grows-on l l' l'' (m, e) (m', e') = (m ++ m', e' ∙ ap (λ q. q ++ m') e ∙ append_assoc l m m')

sched_make_ready-Grows : (t : ℕ) (s : Scheduler) → Grows s.sched (sched_make_ready t s).sched
sched_make_ready-Grows t s = elim (Bool-cases (is_dirty (s.tcb t).phase)) [
  | inl y ↦ Grows-same _ _ ((sched_make_ready-Woke t s).sched ∙ rw y refl)
  | inr n ↦ (t ∷ [], (sched_make_ready-Woke t s).sched ∙ rw n refl)
]

wakeup-Grows : (t : ℕ) (s : Scheduler) → Grows s.sched ((wakeup t s).1).sched
unfolding wakeup
wakeup-Grows t s = elim (Bool-cases (can_wake (s.tcb t).state)) [
  | inl y ↦ rw y (sched_make_ready-Grows t s)
  | inr n ↦ rw n (Grows-same _ _ refl)
]

wake_expired-Grows : (l : List ℕ) (s : Scheduler) → Grows s.sched (wake_expired l s).sched
unfolding wake_expired
wake_expired-Grows [] s = Grows-same _ _ refl
wake_expired-Grows (t ∷ ts) s = elim (Bool-cases (ltb s.clock (s.tcb t).wakeup_time)) [
  | inl later ↦ rw later (Grows-same _ _ refl)
  | inr now ↦
      rw now
        (Grows-on _ _ _ (sched_make_ready-Grows t s) (wake_expired-Grows ts (sched_make_ready t s)))
]

gain-Grows : (c : ℕ) (s : Scheduler) → Grows s.sched (gain c s).sched
gain-Grows c s = Grows-if _ _ _ _ (gain-Gained c s).sched

sleep-same :
    (c timeout : ℕ) (st : ThreadState) (s : Scheduler)
    → (sleep_releasing c st timeout s).sched ≡ s.sched
unfolding sleep_releasing register_unless_exited sched_register_timeout
sleep-same c timeout st s = ground arith

-- A thread that waits for a core, with `ahead` before it in the queue.
abbrev pub Waiting : ℕ → List ℕ → List ℕ → Type 0
Waiting t ahead l = (behind : List ℕ) × (l ≡ ahead ++ t ∷ behind)

Grows-Waiting : (t : ℕ) (ahead l l' : List ℕ) → Grows l l' → Waiting t ahead l → Waiting t ahead l'
Grows-Waiting t ahead l l' (more, e) (behind, e') =
    (behind ++ more, e ∙ ap (λ q. q ++ more) e' ∙ append_assoc ahead (t ∷ behind) more)

-- What yield makes of the queue: the first thread gets the core, the others move up.
Turned : ℕ → ℕ → List ℕ → Scheduler → Type 0
Turned c t [] s = s.current c ≡ t
Turned c t (x ∷ ahead) s = Waiting t ahead s.sched

turned-Turned :
    (c t t0 i : ℕ) (current_ready : Bool) (ahead : List ℕ) (s : Scheduler)
    → Waiting t ahead s.sched
    → Turned c t ahead (turned c current_ready t0 i (pop_sched s.sched s))
unfolding pop_sched choose_next Turned
turned-Turned c t t0 i current_ready [] s (behind, e) =
    ap (λ q. (turned c current_ready t0 i (pop_sched q s)).current c) e ∙ ground arith
turned-Turned c t t0 i current_ready (x ∷ ahead) s (behind, e) =
    (behind, ap (λ q. (turned c current_ready t0 i (pop_sched q s)).sched) e)

yield_select-Turned :
    (c t : ℕ) (ahead : List ℕ) (s : Scheduler)
    → Waiting t ahead s.sched
    → Turned c t ahead (yield_select c s)
unfolding yield_select sched_queue_select
yield_select-Turned c t ahead s w =
    turned-Turned c t (s.current c) (s.idle c) _ ahead _
      (Grows-Waiting t ahead _ _ (wake_expired-Grows s.timeout_list _) w)

-- The core that selects its next thread in a step.
unfoldable pub selects : {k k' : System} → Step k k' → Option ℕ
selects (yields c at) = some c
selects (yields_asleep c at) = some c
selects _ = none

-- The queue after a step in which the core `o`, if any, selects.
Moved : Option ℕ → Scheduler → Scheduler → Type 0
Moved none s s' = Grows s.sched s'.sched
Moved (some c) s s' = (t : ℕ) (ahead : List ℕ) → Waiting t ahead s.sched → Turned c t ahead s'

Step-Moved : {k k' : System} (step : Step k k') → Moved (selects step) k.s k'.s
unfolding Moved selects run_scheduler spawn_thread
Step-Moved (starts c at) = Grows-same _ _ refl
Step-Moved (spawns t dead free not_idle) = Grows-same _ _ refl
Step-Moved {k} (wakes t) = wakeup-Grows t k.s
Step-Moved {k} (stops c timeout at normal real) = Grows-same _ _ (sleep-same c timeout stopped k.s)
Step-Moved {k} (exits c at normal) = Grows-same _ _ (sleep-same c no_timeout exited k.s)
Step-Moved {k} (yields c at) = λ t ahead w. yield_select-Turned c t ahead k.s w
Step-Moved {k} (yields_asleep c at) = λ t ahead w. yield_select-Turned c t ahead k.s w
Step-Moved {k} (gains c at) = gain-Grows c k.s
Step-Moved (finishes c at idle ends) = Grows-same _ _ refl
Step-Moved (ticks d) = Grows-same _ _ refl

abbrev pub counted : Option ℕ → ℕ → ℕ
counted none n = n
counted (some c) n = suc n

abbrev pub got : ℕ → Option ℕ → Scheduler → Bool
got t none s = false
got t (some c) s = s.current c == t

-- How often a core selects its next thread in a run.
unfoldable pub selections : {k k' : System} → Reaches k k' → ℕ
unfolding selects
selections here = 0
selections (after run step) = counted (selects step) (selections run)

-- A core selects the thread `t` in the run.
unfoldable pub is_selected : {k k' : System} → ℕ → Reaches k k' → Bool
unfolding selects
is_selected t here = false
is_selected {k' = k'} t (after run step) = got t (selects step) k'.s || is_selected t run

-- Of `ahead`, `front` has been selected, and the thread comes after `back`.
Left : ℕ → List ℕ → ℕ → List ℕ → Type 0
Left t ahead n l = (back : List ℕ) × (length ahead ≡ n + length back) × Waiting t back l

next-Left :
    (t : ℕ) (ahead back : List ℕ) (n : ℕ) (o : Option ℕ) (s s' : Scheduler)
    → length ahead ≡ n + length back
    → Waiting t back s.sched
    → Moved o s s'
    → (got t o s' ≡ true) ⊎ Left t ahead (counted o n) s'.sched
unfolding Left Moved Turned
next-Left t ahead back n none s s' len w m = inr (back, len, Grows-Waiting t back _ _ m w)
next-Left t ahead [] n (some c) s s' len w m = inl (let e = m t [] w in ground (arith, e))
next-Left t ahead (x ∷ back) n (some c) s s' len w m =
    inr (back, omega (arith, len), m t (x ∷ back) w)

waits_or_runs :
    (t : ℕ) (ahead : List ℕ) {k k' : System} (run : Reaches k k')
    → Waiting t ahead k.s.sched
    → (is_selected t run ≡ true) ⊎ Left t ahead (selections run) k'.s.sched
unfolding is_selected selections Left
waits_or_runs t ahead here w = inr (ahead, omega arith, w)
waits_or_runs t ahead (after run step) w = elim (waits_or_runs t ahead run w) [
  | inl had ↦ inl (ground (arith, had))
  | inr (back, len, v) ↦
      elim (next-Left t ahead back (selections run) (selects step) _ _ len v (Step-Moved step)) [
        | inl gets ↦ inl (ground (arith, gets))
        | inr left ↦ inr left
      ]
]

-- A thread in the queue, with `ahead` before it, is selected by a core in each run in which the cores
-- select a thread more often than `ahead` is long, whatever else they do and in whatever order.
pub no_starvation :
    (t : ℕ) (ahead behind : List ℕ) {k k' : System} (run : Reaches k k')
    → k.s.sched ≡ ahead ++ t ∷ behind
    → length ahead < selections run
    → is_selected t run ≡ true
unfolding Left
no_starvation t ahead behind run e enough = elim (waits_or_runs t ahead run (behind, e)) [
  | inl gets ↦ gets
  | inr (back, len, w) ↦ absurd (omega (arith, len, enough))
]
