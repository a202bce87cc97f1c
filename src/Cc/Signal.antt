-- ===== src/Cc/Signal.antt =====
-- cv_signal of kernel_cc.c.
use tiny_os.Prelude.{
  ℕ, zero, suc, ◌+◌, ◌≤◌, ◌<◌, ◌==◌, count, ◌≡◌, refl, Bool, true, false, Option, none, some, List,
  [], ◌∷◌, arith, subst, ◌∙◌, ap, update, if◌then◌else◌, Bool-cases, inl, inr, length, fun_ext,
  ◌||◌,
}
use tiny_os.Sched.{Scheduler, wakeup}
use tiny_os.Cc.{
  Cc, Waiter, signalled_if, signal_one, cv_signal, signal_at, remove_from_ring, advance_waitset,
}
use tiny_os.Cc.Waiters.{Waits, remove_from_ring-Waits}
use tiny_os.Cc.Others.{remove_from_ring-elsewhere, remove_from_ring-others}

-- What a condition variable is to its users: a queue of waiters. A signal takes waiters from the front
-- until it has woken one.
pub record Queue : Type 0 where
  pub waiters : List ℕ
  pub waiter : ℕ → Waiter
  pub scheduler : Scheduler

abbrev pub mark : ℕ → Bool → (ℕ → Waiter) → ℕ → Waiter
mark w woken t = update t w (record (t w) { removed = true; signalled = woken || (t w).signalled })

unfoldable pub signal_first : List ℕ → (ℕ → Waiter) → Scheduler → Queue
signal_first [] t sched = record { waiters = []; waiter = t; scheduler = sched }
signal_first (w ∷ ws) t sched =
    let (woken, sched') = wakeup (t w).thread sched in
    let t' = mark w woken t in
    let rest = signal_first ws t' sched' in
    if woken then record { waiters = ws; waiter = t'; scheduler = sched' } else rest

-- The queues of other condition variables are as they were: their waitsets, and the rings that have
-- no node in common with `ws`.
pub record Undisturbed (s s' : Cc) (cv : ℕ) (ws : List ℕ) : Type 0 where
  pub waitsets : (d : ℕ) → (cv == d) ≡ false → s'.waitset d ≡ s.waitset d
  pub queues :
      (d : ℕ) (us : List ℕ)
      → (cv == d) ≡ false
      → ((u : ℕ) → count u ws + count u us ≤ 1)
      → Waits s d us
      → Waits s' d us

-- The state shows the queue, whose waiters were `ws`, and has the mutexes and the other queues as they
-- were.
pub record Shows (s s' : Cc) (cv : ℕ) (ws : List ℕ) (q : Queue) : Type 0 where
  pub waits : Waits s' cv q.waiters
  pub waiter : s'.waiter ≡ q.waiter
  pub scheduler : s'.scheduler ≡ q.scheduler
  pub locked : s'.locked ≡ s.locked
  pub others : Undisturbed s s' cv ws

pub Undisturbed-refl : {s : Cc} {cv : ℕ} {ws : List ℕ} → Undisturbed s s cv ws
Undisturbed-refl = record { waitsets = λ d ne. refl; queues = λ d us ne apart q. q }

-- The queue itself only loses waiters.
pub Undisturbed-trans :
    {s s' s'' : Cc} {cv : ℕ} {ws vs : List ℕ}
    → ((u : ℕ) → count u vs ≤ count u ws)
    → Undisturbed s s' cv ws
    → Undisturbed s' s'' cv vs
    → Undisturbed s s'' cv ws
Undisturbed-trans less a b = record {
  waitsets = λ d ne. b.waitsets d ne ∙ a.waitsets d ne;
  queues = λ d us ne apart q.
      b.queues d us ne (λ u. omega (arith, less u, apart u)) (a.queues d us ne apart q);
}

-- One round of the loop.
record Round (s s' : Cc) (cv w : ℕ) (ws : List ℕ) (woken : Bool) (sched : Scheduler) : Type 0 where
  waits : Waits s' cv ws
  waiter : s'.waiter ≡ mark w woken s.waiter
  scheduler : s'.scheduler ≡ sched
  locked : s'.locked ≡ s.locked
  others : Undisturbed s s' cv (w ∷ ws)

remove_from_ring-waiter :
    (cv w : ℕ) (s : Cc)
    → ((remove_from_ring cv w s).waiter ≡ s.waiter)
      × ((remove_from_ring cv w s).scheduler ≡ s.scheduler)
      × ((remove_from_ring cv w s).locked ≡ s.locked)
unfolding remove_from_ring
remove_from_ring-waiter cv w s = at (s.waitset cv)
  where
    at :
        (o : Option ℕ)
        → ((advance_waitset o cv w s).waiter ≡ s.waiter)
          × ((advance_waitset o cv w s).scheduler ≡ s.scheduler)
          × ((advance_waitset o cv w s).locked ≡ s.locked)
    at none = (refl, refl, refl)
    at (some first) = (ground arith, ground arith, ground arith)

-- The waiter is off the queue and marked as removed.
record Off (s s2 : Cc) (cv w : ℕ) (ws : List ℕ) : Type 0 where
  waits : Waits s2 cv ws
  waiter : s2.waiter ≡ update s.waiter w (record (s.waiter w) { removed = true })
  scheduler : s2.scheduler ≡ s.scheduler
  locked : s2.locked ≡ s.locked
  others : Undisturbed s s2 cv (w ∷ ws)

signalled_if-Round :
    (s s2 : Cc) (cv w : ℕ) (ws : List ℕ) (r : Bool × Scheduler)
    → Off s s2 cv w ws
    → ((signalled_if w r s2).0 ≡ r.0) × Round s (signalled_if w r s2).1 cv w ws r.0 r.1
unfolding signalled_if
signalled_if-Round s s2 cv w ws (true, sched) o = (
  refl,
  record {
    waits = record { waitset = o.waits.waitset; ring = o.waits.ring; keys = o.waits.keys };
    waiter = rw (o.waiter) (fun_ext λ u. ground arith);
    scheduler = refl;
    locked = o.locked;
    others = record {
      waitsets = o.others.waitsets;
      queues = λ d us ne apart q.
          let kept = o.others.queues d us ne apart q in
          record { waitset = kept.waitset; ring = kept.ring; keys = kept.keys };
    };
  },
)
signalled_if-Round s s2 cv w ws (false, sched) o = (
  refl,
  record {
    waits = record { waitset = o.waits.waitset; ring = o.waits.ring; keys = o.waits.keys };
    waiter = o.waiter;
    scheduler = refl;
    locked = o.locked;
    others = record {
      waitsets = o.others.waitsets;
      queues = λ d us ne apart q.
          let kept = o.others.queues d us ne apart q in
          record { waitset = kept.waitset; ring = kept.ring; keys = kept.keys };
    };
  },
)

signal_one-Round :
    (s : Cc) (cv w : ℕ) (ws : List ℕ)
    → Waits s cv (w ∷ ws)
    → ((signal_one cv w s).0 ≡ (wakeup (s.waiter w).thread s.scheduler).0)
      × Round s
          (signal_one cv w s).1
          cv
          w
          ws
          (wakeup (s.waiter w).thread s.scheduler).0
          (wakeup (s.waiter w).thread s.scheduler).1
unfolding signal_one
signal_one-Round s cv w ws h =
    subst (λ r. ((signal_one cv w s).0 ≡ r.0) × Round s (signal_one cv w s).1 cv w ws r.0 r.1) same
      (signalled_if-Round s s2 cv w ws (wakeup (s2.waiter w).thread s2.scheduler) off)
  where
    s1 : Cc
    s1 = remove_from_ring cv w s

    s2 : Cc
    s2 = record s1 { waiter = update s1.waiter w (record (s1.waiter w) { removed = true }) }

    rest : (s1.waiter ≡ s.waiter) × (s1.scheduler ≡ s.scheduler) × (s1.locked ≡ s.locked)
    rest = remove_from_ring-waiter cv w s

    kept : Waits s1 cv ws
    kept = (remove_from_ring-Waits s cv w [] ws h).0

    off : Off s s2 cv w ws
    off = record {
      waits = record { waitset = kept.waitset; ring = kept.ring; keys = kept.keys };
      waiter = ap (λ t. update t w (record (t w) { removed = true })) rest.0;
      scheduler = rest.1;
      locked = rest.2;
      others = record {
        waitsets = λ d ne. remove_from_ring-elsewhere s cv w d ne;
        queues = λ d us ne apart q.
            let calm = remove_from_ring-others s cv w ws d us ne apart h q in
            record { waitset = calm.waitset; ring = calm.ring; keys = calm.keys };
      };
    }

    same : wakeup (s2.waiter w).thread s2.scheduler ≡ wakeup (s.waiter w).thread s.scheduler
    same =
        ap (λ t. wakeup t s2.scheduler) (ap (λ t. (t w).thread) off.waiter ∙ ground arith)
        ∙ ap (λ c. wakeup (s.waiter w).thread c) off.scheduler

-- With fuel above the number of waiters, cv_signal does to the ring what a signal does to the queue.
pub cv_signal-Shows :
    (fuel : ℕ) (s : Cc) (cv : ℕ) (ws : List ℕ)
    → Waits s cv ws
    → length ws < fuel
    → (s' : Cc) × (cv_signal fuel cv s ≡ some s')
      × Shows s s' cv ws (signal_first ws s.waiter s.scheduler)
unfolding cv_signal signal_at signal_first count
cv_signal-Shows zero s cv ws h enough = absurd (omega arith)
cv_signal-Shows (suc fuel) s cv [] h enough = (
  s,
  rw (h.waitset) refl,
  record { waits = h; waiter = refl; scheduler = refl; locked = refl; others = Undisturbed-refl },
)
cv_signal-Shows (suc fuel) s cv (w ∷ ws) h enough =
    elim (Bool-cases (wakeup (s.waiter w).thread s.scheduler).0) [
      | inl woken ↦ (
        s',
        rw (h.waitset) (rw (round.0, woken) refl),
        rw woken record {
          waits = round.1.waits;
          waiter = round.1.waiter ∙ ap (λ b. mark w b s.waiter) woken;
          scheduler = round.1.scheduler;
          locked = round.1.locked;
          others = round.1.others;
        },
      )
      | inr deaf ↦ later deaf (cv_signal-Shows fuel s' cv ws round.1.waits (omega arith))
    ]
  where
    round :
        ((signal_one cv w s).0 ≡ (wakeup (s.waiter w).thread s.scheduler).0)
        × Round s
            (signal_one cv w s).1
            cv
            w
            ws
            (wakeup (s.waiter w).thread s.scheduler).0
            (wakeup (s.waiter w).thread s.scheduler).1
    round = signal_one-Round s cv w ws h

    s' : Cc
    s' = (signal_one cv w s).1

    later :
        (wakeup (s.waiter w).thread s.scheduler).0 ≡ false
        → ((s'' : Cc) × (cv_signal fuel cv s' ≡ some s'')
            × Shows s' s'' cv ws (signal_first ws s'.waiter s'.scheduler))
        → ((s'' : Cc) × (cv_signal (suc fuel) cv s ≡ some s'')
            × Shows s s'' cv (w ∷ ws) (signal_first (w ∷ ws) s.waiter s.scheduler))
    later deaf (s'', done, shows) = (
      s'',
      rw (h.waitset) (rw (round.0, deaf) done),
      rw deaf (
          subst (λ q. Shows s s'' cv (w ∷ ws) q)
            (ap (λ t. signal_first ws t s'.scheduler)
                (round.1.waiter ∙ ap (λ b. mark w b s.waiter) deaf)
              ∙ ap (λ c. signal_first ws (mark w false s.waiter) c) round.1.scheduler)
            (record {
              waits = shows.waits;
              waiter = shows.waiter;
              scheduler = shows.scheduler;
              locked = shows.locked ∙ round.1.locked;
              others = Undisturbed-trans (λ u. ground arith) round.1.others shows.others;
            })),
    )
