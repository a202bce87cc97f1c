-- ===== src/Sched/Sound/Settle.antt =====
-- The thread of a core gets a state in which the core may switch from it (kernel_sched.c).
use tiny_os.Prelude.{
  ℕ, suc, ◌≡◌, ◌==◌, Bool, true, false, has, refl, arith, ◌∙◌, Bool-cases, inl, inr,
}
use tiny_os.Sched.{Scheduler, ThreadState, can_wake, set_tcb}
use tiny_os.Sched.Timeouts.{Timeouts-same}
use tiny_os.Sched.Steps.{
  Stage, System, starting, runs, slept, switches, finished, occupies, is_normal, is_ready, is_dirty,
  move_to,
}
use tiny_os.Sched.Sound.{Sound, Fits, is_stopped, is_settled}
use tiny_os.Sched.Sound.Elsewhere.{Elsewhere, Elsewhere-occupies, Elsewhere-Fits, owner-current}

abbrev pub is_busy : Stage → Bool
is_busy runs = true
is_busy slept = true
is_busy _ = false

module _ {k : System} {owner : ℕ → ℕ} (h : Sound k owner) (c : ℕ) (st : ThreadState)
    (busy : is_busy (k.stage c) ≡ true) (settled : is_settled st ≡ true)
    (sleeps : can_wake st ≡ true → is_normal (k.s.tcb (k.s.current c)).type ≡ true)
    (idles_on : (d : ℕ) → (k.s.idle d == k.s.current c) ≡ true → is_ready st ≡ true)
    (listed : has (k.s.current c) k.s.timeout_list ≡ true → is_stopped st ≡ true) where
  abbrev t0 : ℕ
  t0 = k.s.current c

  abbrev s' : Scheduler
  s' = set_tcb (k.s.current c) (record (k.s.tcb (k.s.current c)) { state = st }) k.s

  abbrev k' : System
  k' = move_to c slept s' k

  own : owner t0 ≡ suc c
  own = owner-current h c (ground (arith, busy))

  dirty_now : is_dirty (k.s.tcb t0).phase ≡ true
  dirty_now = at (k.stage c) busy (h.fits c)
    where
      at :
          (q : Stage)
          → is_busy q ≡ true
          → Fits q (k.s.tcb t0) (k.s.tcb (k.s.tcb t0).prev) (t0 == (k.s.tcb t0).prev)
          → is_dirty (k.s.tcb t0).phase ≡ true
      at starting e f = cc
      at runs e f = f.1
      at slept e f = f.1
      at switches e f = cc
      at finished e f = cc

  elsewhere : (d : ℕ) → (c == d) ≡ false → Elsewhere k k' owner d
  elsewhere d ne = record { stage = ground arith; current = refl; tcb = λ u e. ground (arith, own) }

  owned-settle : (d u : ℕ) → occupies k' d u ≡ (owner u == suc d)
  owned-settle d u = elim (Bool-cases (c == d)) [
    | inl same ↦ ground (arith, h.owned d u)
    | inr other ↦ Elsewhere-occupies h d (elsewhere d other) u ∙ h.owned d u
  ]

  fits-settle :
      (d : ℕ)
      → Fits
          (k'.stage d)
          (s'.tcb (s'.current d))
          (s'.tcb (s'.tcb (s'.current d)).prev)
          (s'.current d == (s'.tcb (s'.current d)).prev)
  fits-settle d = elim (Bool-cases (c == d)) [
    | inl same ↦ own_fits d same
    | inr other ↦ Elsewhere-Fits h d (elsewhere d other)
  ]
    where
      own_fits :
          (d : ℕ)
          → (c == d) ≡ true
          → Fits
              (k'.stage d)
              (s'.tcb (s'.current d))
              (s'.tcb (s'.tcb (s'.current d)).prev)
              (s'.current d == (s'.tcb (s'.current d)).prev)
      own_fits d same = let e : c ≡ d = ground arith in ground (arith, dirty_now, e)

  -- The thread keeps its core, which may switch from it now.
  pub settle-Sound : Sound k' owner
  unfolding can_wake
  settle-Sound = record {
    owned = owned-settle;
    queued = λ u. ground (arith, h.queued u, own);
    once = h.once;
    clean = λ u e. ground (arith, h.clean u, own);
    dirty = λ u e. ground (arith, h.dirty u, own, dirty_now);
    wakeable = λ u e. ground (arith, h.wakeable u, sleeps);
    asleep = λ u e. ground (arith, h.asleep u, listed);
    timeouts = Timeouts-same refl (λ u. ground arith) h.timeouts;
    fits = fits-settle;
    idles = h.idles;
    idle_home = h.idle_home;
    idle_type = λ d e. ground (arith, h.idle_type d, busy);
    idle_state = λ d e. ground (arith, h.idle_state d, busy, idles_on d);
    idle_ready = λ d e z. ground (arith, h.idle_ready d, busy, own);
    idle_none = λ d e. ground (arith, h.idle_none d, h.idle_home d, busy, own);
  }
