-- ===== src/Sched/Sound/Moves.antt =====
-- The other steps keep the scheduler sound (kernel_sched.c): starting, spawning, sleeping, leaving.
use tiny_os.Prelude.{
  ℕ, ◌+◌, ◌%◌, ◌^◌, ◌≡◌, ◌==◌, true, false, refl, arith, subst, ◌∙◌, Bool-cases, inl, inr,
}
use tiny_os.Sched.Timeouts.{Timeouts-same}
use tiny_os.Sched.Steps.{System, runs, finished, is_dirty, move_to}
use tiny_os.Sched.Sound.{Sound, Fits, is_running}
use tiny_os.Sched.Sound.Elsewhere.{Elsewhere, Elsewhere-occupies, Elsewhere-Fits}

module _ {k : System} {owner : ℕ → ℕ} (h : Sound k owner) where
  pub ticks-Sound :
      (d : ℕ) → Sound (record k { s = record k.s { clock = (k.s.clock + d) % 2 ^ 64 } }) owner
  ticks-Sound d = record {
    owned = h.owned;
    queued = h.queued;
    once = h.once;
    clean = h.clean;
    dirty = h.dirty;
    wakeable = h.wakeable;
    asleep = h.asleep;
    timeouts = Timeouts-same refl (λ u. refl) h.timeouts;
    fits = h.fits;
    idles = h.idles;
    idle_home = h.idle_home;
    idle_type = h.idle_type;
    idle_state = h.idle_state;
    idle_ready = h.idle_ready;
    idle_none = h.idle_none;
  }

  module _ (c : ℕ) (at : k.stage c ≡ runs) where
    pub now_runs :
        (is_running (k.s.tcb (k.s.current c)).state ≡ true)
        × (is_dirty (k.s.tcb (k.s.current c)).phase ≡ true)
    now_runs =
        subst
          (λ q.
            Fits q (k.s.tcb (k.s.current c)) (k.s.tcb (k.s.tcb (k.s.current c)).prev)
              (k.s.current c == (k.s.tcb (k.s.current c)).prev))
          at (h.fits c)

    Elsewhere-finish : (d : ℕ) → (c == d) ≡ false → Elsewhere k (move_to c finished k.s k) owner d
    Elsewhere-finish d ne = record { stage = ground arith; current = refl; tcb = λ u e. refl }

    pub finishes-Sound : Sound (move_to c finished k.s k) owner
    finishes-Sound = record {
      owned = λ d u. elim (Bool-cases (c == d)) [
        | inl same ↦ ground (arith, h.owned d u, at)
        | inr other ↦ Elsewhere-occupies h d (Elsewhere-finish d other) u ∙ h.owned d u
      ];
      queued = h.queued;
      once = h.once;
      clean = h.clean;
      dirty = h.dirty;
      wakeable = h.wakeable;
      asleep = h.asleep;
      timeouts = Timeouts-same refl (λ u. refl) h.timeouts;
      fits = λ d. elim (Bool-cases (c == d)) [
        | inl same ↦ (let e : c ≡ d = ground arith in ground (arith, now_runs, e))
        | inr other ↦ Elsewhere-Fits h d (Elsewhere-finish d other)
      ];
      idles = h.idles;
      idle_home = h.idle_home;
      idle_type = λ d e. ground (arith, h.idle_type d, at);
      idle_state = λ d e. ground (arith, h.idle_state d, at);
      idle_ready = λ d e. ground (arith, h.idle_ready d, at);
      idle_none = λ d e. ground (arith, h.idle_none d, at);
    }
