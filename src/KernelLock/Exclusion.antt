-- ===== src/KernelLock/Exclusion.antt =====
-- The runs of the kernel lock (kernel_cc.c), in any interleaving.
use tiny_os.Prelude.{
  ℕ, ◌+◌, ◌<◌, ◌≡◌, refl, Bool, true, false, List, [], ◌∷◌, arith, ◌==◌, ltb, update, has, Distinct,
  has-append, Distinct-append_one, Bool-cases, inl, inr, ◌⊎◌, subst, sym, ap, ◌∙◌,
}
use tiny_os.KernelLock.{
  Place, outside, inside, queued, signalled, waiting, sleeping, KernelLock, move_to, acquire,
  signal_queue, release, kernel_lock, kernel_unlock, kernel_wait_begin, kernel_wait_end,
  kernel_sleep, initial, Step, locks, retries, unlocks, waits, returns, sleeps, awakes, Reaches,
  here, after,
}
use tiny_os.KernelLock.Counts.{
  is_inside, is_signalled, tally, tally-update, tally-le, tally-none, tally-two,
}

abbrev pub is_queued : Place → Bool
is_queued queued = true
is_queued _ = false

-- The semaphore and the threads in the kernel make one; the queue holds, once, the threads that sleep on
-- the semaphore; and none sleeps there while the semaphore is free, unless another has been signalled.
pub record Good (k : KernelLock) : Type 0 where
  pub one : k.kernel_sem + tally k.n is_inside k.place ≡ 1
  pub listed : (t : ℕ) → has t k.queue ≡ true → (is_queued (k.place t) ≡ true) × (t < k.n)
  pub distinct : Distinct k.queue
  pub prompt : (k.queue ≡ []) ⊎ ((k.kernel_sem ≡ 0) ⊎ (0 < tally k.n is_signalled k.place))

module _ {k : KernelLock} (g : Good k) (t : ℕ) (lt : t < k.n) where
  -- The thread is not in the kernel, nor in the queue.
  acquire-Good : is_inside (k.place t) ≡ 0 → is_queued (k.place t) ≡ false → Good (acquire t k)
  unfolding acquire
  acquire-Good out free = elim (Bool-cases (ltb 0 k.kernel_sem)) [
    | inl open_ ↦ rw open_ record {
      one = omega (arith, g.one, tally-update k.n is_inside k.place t inside lt, positive open_);
      listed = λ u i. ground (arith, g.listed u);
      distinct = g.distinct;
      prompt = inr (inl (omega (arith, g.one)));
    }
    | inr shut ↦ rw shut record {
      one = omega (arith, g.one, tally-update k.n is_inside k.place t queued lt);
      listed = λ u i. ground (arith, g.listed u, has-append u k.queue (t ∷ []));
      distinct = Distinct-append_one k.queue t g.distinct absent;
      prompt = inr (inl (ground arith));
    }
  ]
    where
      positive : ltb 0 k.kernel_sem ≡ true → 0 < k.kernel_sem
      positive h = ground arith

      absent : has t k.queue ≡ false
      absent = ground (arith, g.listed t)

  -- A thread leaves the kernel for a place that is none of the others.
  release-Good :
      (p : Place) (q : List ℕ)
      → k.queue ≡ q
      → k.place t ≡ inside
      → is_inside p ≡ 0
      → is_signalled p ≡ 0
      → Good (move_to t p (signal_queue q (record k { kernel_sem = k.kernel_sem + 1 })))
  unfolding signal_queue
  release-Good p [] e at np ns = record {
    one = omega (arith, g.one, tally-update k.n is_inside k.place t p lt, left_one);
    listed = λ u i. absurd (ground (arith, ap (has u) e));
    distinct = subst (λ q. Distinct q) (sym e) tt;
    prompt = inl e;
  }
    where
      left_one : is_inside (k.place t) ≡ 1
      left_one = rw at refl
  release-Good p (u ∷ us) e at np ns = record {
    one = omega (
      arith,
      g.one,
      tally-update k.n is_inside k.place u signalled lu,
      tally-update k.n is_inside (update k.place u signalled) t p lt,
      out_u,
      in_t,
    );
    listed = λ v i. ground (arith, g.listed v, ap (has v) e, ap (has u) e, fresh.0, at);
    distinct = fresh.1;
    prompt = inr (
        inr (
          omega (
            arith,
            tally-le k.n is_signalled (update (update k.place u signalled) t p) u lu,
            ready_u,
          )));
  }
    where
      fresh : Distinct (u ∷ us)
      fresh = subst (λ q. Distinct q) e g.distinct

      first : (is_queued (k.place u) ≡ true) × (u < k.n)
      first = g.listed u (ground (arith, ap (has u) e))

      lu : u < k.n
      lu = first.1

      ne : (u == t) ≡ false
      ne = ground (arith, first.0, at)

      out_u : is_inside (k.place u) ≡ 0
      out_u = ground (arith, first.0)

      in_t : is_inside (update k.place u signalled t) ≡ 1
      in_t = rw (ne, at) refl

      ready_u : is_signalled (update (update k.place u signalled) t p u) ≡ 1
      ready_u = ground (arith, ne)

  awake-Good : k.place t ≡ sleeping → Good (move_to t outside k)
  awake-Good at = record {
    one = omega (arith, g.one, tally-update k.n is_inside k.place t outside lt, none);
    listed = λ u i. ground (arith, g.listed u, at);
    distinct = g.distinct;
    prompt = elim g.prompt [
      | inl empty ↦ inl empty
      | inr (inl shut) ↦ inr (inl shut)
      | inr (inr some_signalled) ↦ inr (
          inr (
            omega
              (arith, some_signalled, tally-update k.n is_signalled k.place t outside lt, none_s)))
    ];
  }
    where
      none : is_inside (k.place t) ≡ 0
      none = rw at refl

      none_s : is_signalled (k.place t) ≡ 0
      none_s = rw at refl

release-n : (k : KernelLock) → (release k).n ≡ k.n
unfolding release signal_queue
release-n k = at k.queue
  where
    at : (q : List ℕ) → (signal_queue q (record k { kernel_sem = k.kernel_sem + 1 })).n ≡ k.n
    at [] = refl
    at (u ∷ us) = refl

acquire-n : (t : ℕ) (k : KernelLock) → (acquire t k).n ≡ k.n
unfolding acquire
acquire-n t k = ground arith

Step-n : {k k' : KernelLock} → Step k k' → k'.n ≡ k.n
unfolding kernel_lock kernel_unlock kernel_wait_begin kernel_wait_end kernel_sleep
Step-n {k} (locks t lt at) = acquire-n t k
Step-n {k} (retries t lt at) = acquire-n t k
Step-n {k} (unlocks t lt at) = release-n k
Step-n {k} (waits t lt at) = release-n k
Step-n {k} (returns t lt at) = acquire-n t k
Step-n {k} (sleeps t lt at) = release-n k
Step-n {k} (awakes t lt at) = refl

Step-Good : {k k' : KernelLock} → Step k k' → Good k → Good k'
unfolding kernel_lock kernel_unlock kernel_wait_begin kernel_wait_end kernel_sleep release
Step-Good {k} (locks t lt at) g = acquire-Good g t lt (rw at refl) (rw at refl)
Step-Good {k} (retries t lt at) g = acquire-Good g t lt (rw at refl) (rw at refl)
Step-Good {k} (unlocks t lt at) g = release-Good g t lt outside k.queue refl at refl refl
Step-Good {k} (waits t lt at) g = release-Good g t lt waiting k.queue refl at refl refl
Step-Good {k} (returns t lt at) g = acquire-Good g t lt (rw at refl) (rw at refl)
Step-Good {k} (sleeps t lt at) g = release-Good g t lt sleeping k.queue refl at refl refl
Step-Good {k} (awakes t lt at) g = awake-Good g t lt at

initial-Good : (n : ℕ) → Good (initial n)
initial-Good n = record {
  one = omega (arith, tally-none n is_inside refl);
  listed = λ t i. absurd (ground arith);
  distinct = tt;
  prompt = inl refl;
}

reached-Good : {k k' : KernelLock} → Good k → Reaches k k' → (k'.n ≡ k.n) × Good k'
reached-Good g here = (refl, g)
reached-Good g (after run step) =
    let (same, g') = reached-Good g run in (Step-n step ∙ same, Step-Good step g')

-- In each state that the kernel lock comes to, at most one thread is in the kernel.
pub kernel_exclusive :
    {k : KernelLock} (n t u : ℕ)
    → Reaches (initial n) k
    → t < n
    → u < n
    → k.place t ≡ inside
    → k.place u ≡ inside
    → t ≡ u
kernel_exclusive {k} n t u run lt lu et eu = elim (Bool-cases (t == u)) [
  | inl same ↦ ground arith
  | inr other ↦
      let (same, g) = reached-Good (initial-Good n) run in
      absurd (
        omega (
          arith,
          g.one,
          same,
          tally-two k.n k.place t u (subst (λ m. t < m) (sym same) lt)
              (subst (λ m. u < m) (sym same) lu) other et eu,
        ))
]

-- In each state that the kernel lock comes to, if a thread sleeps on the semaphore, then the semaphore is
-- taken, or a thread has been signalled that has not made the test yet.
pub kernel_prompt :
    {k : KernelLock} (n : ℕ) (t : ℕ)
    → Reaches (initial n) k
    → has t k.queue ≡ true
    → (k.kernel_sem ≡ 0) ⊎ (0 < tally k.n is_signalled k.place)
kernel_prompt {k} n t run i = elim (reached-Good (initial-Good n) run).1.prompt [
  | inl empty ↦ absurd (ground (arith, ap (has t) empty))
  | inr some_way ↦ some_way
]
