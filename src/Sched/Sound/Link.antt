-- ===== src/Sched/Sound/Link.antt =====
-- A core turns to its next thread (kernel_sched.c, the end of yield's critical section).
use tiny_os.Prelude.{
  ℕ, suc, ◌≡◌, ◌==◌, ◌&&◌, true, false, not, Distinct, has, refl, arith, subst, ap, ◌∙◌, Bool-cases,
  inl, inr, ◌⊎◌, List, update,
}
use tiny_os.Sched.{Scheduler, can_wake}
use tiny_os.Sched.Timeouts.{Timeouts-same}
use tiny_os.Sched.Steps.{System, slept, switches, occupies, is_ready, is_dirty, move_to}
use tiny_os.Sched.Sound.{Sound, Fits, is_settled}
use tiny_os.Sched.Sound.Elsewhere.{Elsewhere, Elsewhere-occupies, Elsewhere-Fits, owner-current}

-- The next thread, and the queue that is left.
abbrev pub linked : ℕ → ℕ → List ℕ → Scheduler → Scheduler
linked c next ts s = record s {
  tcb = update s.tcb next (record (s.tcb next) { prev = s.current c });
  current = update s.current c next;
  sched = ts;
}

module _ {k : System} {owner : ℕ → ℕ} (h : Sound k owner) (c next : ℕ) (ts : List ℕ)
    (at : k.stage c ≡ slept) (next_ready : is_ready (k.s.tcb next).state ≡ true)
    (free : (owner next ≡ 0) ⊎ (next ≡ k.s.current c))
    (left : (u : ℕ) → has u ts ≡ (has u k.s.sched && not (next == u))) (once : Distinct ts)
    (home : (d : ℕ) → (k.s.idle d == next) ≡ true → c ≡ d) where
  abbrev s' : Scheduler
  s' = linked c next ts k.s

  abbrev k' : System
  k' = move_to c switches s' k

  abbrev owner' : ℕ → ℕ
  owner' = update owner next (suc c)

  own : owner (k.s.current c) ≡ suc c
  own = owner-current h c (ground (arith, at))

  free_or_own : (owner next == suc c) ≡ not (owner next == 0)
  free_or_own = elim free [
    | inl unheld ↦ ground (arith, unheld)
    | inr same ↦ ground (arith, ap owner same, own)
  ]

  current_fits :
      (is_settled (k.s.tcb (k.s.current c)).state ≡ true)
      × (is_dirty (k.s.tcb (k.s.current c)).phase ≡ true)
  current_fits =
      subst
        (λ q.
          Fits q (k.s.tcb (k.s.current c)) (k.s.tcb (k.s.tcb (k.s.current c)).prev)
            (k.s.current c == (k.s.tcb (k.s.current c)).prev))
        at (h.fits c)

  elsewhere : (d : ℕ) → (c == d) ≡ false → Elsewhere k k' owner d
  elsewhere d ne = record {
    stage = ground arith;
    current = ground arith;
    tcb = λ u e. ground (arith, free_or_own);
  }

  own_occupies : (u : ℕ) → occupies k' c u ≡ (owner' u == suc c)
  own_occupies u = ground (arith, h.owned c u, at, free_or_own, free)

  owned-link : (d u : ℕ) → occupies k' d u ≡ (owner' u == suc d)
  owned-link d u = elim (Bool-cases (c == d)) [
    | inl same ↦
        let e : c ≡ d = ground arith in
        subst (λ d. occupies k' d u ≡ (owner' u == suc d)) e (own_occupies u)
    | inr other ↦
        Elsewhere-occupies h d (elsewhere d other) u ∙ h.owned d u ∙ ground (arith, free_or_own)
  ]

  abbrev FitsNow : ℕ → Type 0
  FitsNow d =
      Fits (k'.stage d) (s'.tcb (s'.current d)) (s'.tcb (s'.tcb (s'.current d)).prev)
        (s'.current d == (s'.tcb (s'.current d)).prev)

  own_fits : FitsNow c
  own_fits = ground (arith, next_ready, current_fits, free, h.clean next)

  fits-link : (d : ℕ) → FitsNow d
  fits-link d = elim (Bool-cases (c == d)) [
    | inl same ↦ let e : c ≡ d = ground arith in subst FitsNow e own_fits
    | inr other ↦ Elsewhere-Fits h d (elsewhere d other)
  ]

  -- The core has the next thread too, until gain.
  pub link-Sound : Sound k' owner'
  unfolding can_wake
  link-Sound = record {
    owned = owned-link;
    queued = λ u. left u ∙ ground (arith, h.queued u);
    once = once;
    clean = λ u e. ground (arith, h.clean u);
    dirty = λ u e. ground (arith, h.dirty u, next_ready);
    wakeable = λ u e. ground (arith, h.wakeable u);
    asleep = λ u e. ground (arith, h.asleep u);
    timeouts = Timeouts-same refl (λ u. ground arith) h.timeouts;
    fits = fits-link;
    idles = h.idles;
    idle_home = λ d e. ground (arith, h.idle_home d, home d);
    idle_type = λ d e. ground (arith, h.idle_type d, at);
    idle_state = λ d e. ground (arith, h.idle_state d, at);
    idle_ready = λ d e z. ground (arith, h.idle_ready d, at);
    idle_none = λ d e. ground (arith, h.idle_none d, at);
  }
