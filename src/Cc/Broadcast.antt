-- ===== src/Cc/Broadcast.antt =====
-- Cond_Broadcast of kernel_cc.c.
use tiny_os.Prelude.{
  ℕ, zero, suc, ◌≤◌, ◌<◌, ◌≡◌, refl, false, some, List, [], ◌∷◌, arith, subst, ◌∙◌, ap, Bool-cases,
  inl, inr, length, count,
}
use tiny_os.Sched.{Scheduler, wakeup}
use tiny_os.Cc.{Cc, Waiter, cond_broadcast, broadcast_at}
use tiny_os.Cc.Waiters.{Waits}
use tiny_os.Cc.Signal.{
  Queue, mark, signal_first, Shows, Undisturbed-refl, Undisturbed-trans, cv_signal-Shows,
}

-- A broadcast wakes every waiter that can be woken, the first first.
pub broadcast_all : List ℕ → (ℕ → Waiter) → Scheduler → Queue
broadcast_all [] t sched = record { waiters = []; waiter = t; scheduler = sched }
broadcast_all (w ∷ ws) t sched =
    let (woken, sched') = wakeup (t w).thread sched in broadcast_all ws (mark w woken t) sched'

-- A broadcast is a signal and then a broadcast to those who still wait.
broadcast_all-signal_first :
    (ws : List ℕ) (t : ℕ → Waiter) (sched : Scheduler)
    → let q = signal_first ws t sched in
      broadcast_all q.waiters q.waiter q.scheduler ≡ broadcast_all ws t sched
unfolding broadcast_all signal_first
broadcast_all-signal_first [] t sched = refl
broadcast_all-signal_first (w ∷ ws) t sched = elim (Bool-cases (wakeup (t w).thread sched).0) [
  | inl woken ↦ rw woken refl
  | inr deaf ↦
      rw deaf (broadcast_all-signal_first ws (mark w false t) (wakeup (t w).thread sched).1)
]

signal_first-length :
    (w : ℕ) (ws : List ℕ) (t : ℕ → Waiter) (sched : Scheduler)
    → length (signal_first (w ∷ ws) t sched).waiters ≤ length ws
unfolding signal_first
signal_first-length w [] t sched = elim (Bool-cases (wakeup (t w).thread sched).0) [
  | inl woken ↦ rw woken (omega arith)
  | inr deaf ↦ rw deaf (omega arith)
]
signal_first-length w (x ∷ ws) t sched = elim (Bool-cases (wakeup (t w).thread sched).0) [
  | inl woken ↦ rw woken (omega arith)
  | inr deaf ↦
      rw deaf
        (omega (arith, signal_first-length x ws (mark w false t) (wakeup (t w).thread sched).1))
]

-- A signal only takes waiters away.
signal_first-count :
    (u : ℕ) (ws : List ℕ) (t : ℕ → Waiter) (sched : Scheduler)
    → count u (signal_first ws t sched).waiters ≤ count u ws
unfolding signal_first count
signal_first-count u [] t sched = omega arith
signal_first-count u (w ∷ ws) t sched = elim (Bool-cases (wakeup (t w).thread sched).0) [
  | inl woken ↦ rw woken (ground arith)
  | inr deaf ↦
      rw deaf
        (ground (arith, signal_first-count u ws (mark w false t) (wakeup (t w).thread sched).1))
]

-- With fuel above the number of waiters, Cond_Broadcast does to the ring what a broadcast does to the
-- queue, and leaves no waiter.
pub cond_broadcast-Shows :
    (rounds fuel : ℕ) (s : Cc) (cv : ℕ) (ws : List ℕ)
    → Waits s cv ws
    → length ws < rounds
    → length ws < fuel
    → (s' : Cc) × (cond_broadcast rounds fuel cv s ≡ some s')
      × Shows s s' cv ws (broadcast_all ws s.waiter s.scheduler)
      × Waits s' cv []
unfolding cond_broadcast broadcast_at
cond_broadcast-Shows zero fuel s cv ws h more enough = absurd (omega arith)
cond_broadcast-Shows (suc rounds) fuel s cv [] h more enough = (
  s,
  rw (h.waitset) refl,
  unfold broadcast_all in
      record {
        waits = h;
        waiter = refl;
        scheduler = refl;
        locked = refl;
        others = Undisturbed-refl;
      },
  h,
)
cond_broadcast-Shows (suc rounds) fuel s cv (w ∷ ws) h more enough =
    let (s1, done, one) = cv_signal-Shows fuel s cv (w ∷ ws) h enough in
    let shorter = signal_first-length w ws s.waiter s.scheduler in
    let (s2, rest, all, none_left) =
      cond_broadcast-Shows rounds fuel s1 cv (signal_first (w ∷ ws) s.waiter s.scheduler).waiters
        one.waits (omega arith) (omega arith) in
    (
      s2,
      rw (h.waitset) (
          ap (λ o. broadcast_at (some w) (λ s'. cond_broadcast rounds fuel cv s') o s) done ∙ rest),
      subst (λ q. Shows s s2 cv (w ∷ ws) q)
          (ap
              (λ t.
                broadcast_all (signal_first (w ∷ ws) s.waiter s.scheduler).waiters t s1.scheduler)
              one.waiter
            ∙ ap
                (λ c.
                  broadcast_all (signal_first (w ∷ ws) s.waiter s.scheduler).waiters
                    (signal_first (w ∷ ws) s.waiter s.scheduler).waiter c)
                one.scheduler
            ∙ broadcast_all-signal_first (w ∷ ws) s.waiter s.scheduler)
          (record {
            waits = all.waits;
            waiter = all.waiter;
            scheduler = all.scheduler;
            locked = all.locked ∙ one.locked;
            others =
                Undisturbed-trans (λ u. signal_first-count u (w ∷ ws) s.waiter s.scheduler)
                  one.others all.others;
          }),
      none_left,
    )
