-- ===== src/Sched/Sound/Elsewhere.antt =====
-- What a step of one core leaves of the others (kernel_sched.c).
use tiny_os.Prelude.{
  ℕ, zero, suc, ◌≡◌, ◌==◌, true, false, refl, arith, sym, subst, ap, ◌∙◌, Bool-cases, inl, inr,
}
use tiny_os.Sched.Steps.{
  Stage, System, starting, runs, slept, switches, finished, occupies, is_dirty, holds,
}
use tiny_os.Sched.Sound.{Sound, Fits, is_running, is_settled, is_starting}

-- The stage of core `d` and the threads that it has are as before.
pub record Elsewhere (k k' : System) (owner : ℕ → ℕ) (d : ℕ) : Type 0 where
  pub stage : k'.stage d ≡ k.stage d
  pub current : k'.s.current d ≡ k.s.current d
  pub tcb : (u : ℕ) → owner u ≡ suc d → k'.s.tcb u ≡ k.s.tcb u

module _ {k : System} {owner : ℕ → ℕ} (h : Sound k owner) where
  -- Only a core that has not started has no current thread.
  pub owner-current : (d : ℕ) → is_starting (k.stage d) ≡ false → owner (k.s.current d) ≡ suc d
  owner-current d e = ground (arith, h.owned d (k.s.current d))

  pub owner-prev : (d : ℕ) → k.stage d ≡ switches → owner (k.s.tcb (k.s.current d)).prev ≡ suc d
  owner-prev d e = ground (arith, h.owned d (k.s.tcb (k.s.current d)).prev)

  pub owner-free : (t : ℕ) → ((c : ℕ) → occupies k c t ≡ false) → owner t ≡ 0
  owner-free t free = at (owner t) refl
    where
      at : (n : ℕ) → owner t ≡ n → owner t ≡ 0
      at zero e = e
      at (suc c) e = absurd (ground (arith, h.owned c t, free c, e))

  module _ {k' : System} (d : ℕ) (e : Elsewhere k k' owner d) where
    abbrev cur : ℕ
    cur = k.s.current d

    same_tcb : is_starting (k.stage d) ≡ false → k'.s.tcb cur ≡ k.s.tcb cur
    same_tcb on = e.tcb cur (owner-current d on)

    pub Elsewhere-occupies : (u : ℕ) → occupies k' d u ≡ occupies k d u
    Elsewhere-occupies u =
        ap (λ st. holds st (k'.s.current d) (k'.s.tcb (k'.s.current d)).prev u) e.stage
        ∙ ap (λ c. holds (k.stage d) c (k'.s.tcb c).prev u) e.current
        ∙ elim (Bool-cases (is_starting (k.stage d))) [
          | inl off ↦ ground (arith, off)
          | inr on ↦ ap (λ x. holds (k.stage d) cur x.prev u) (same_tcb on)
        ]

    fits_at :
        (st : Stage)
        → k.stage d ≡ st
        → Fits st (k.s.tcb cur) (k.s.tcb (k.s.tcb cur).prev) (cur == (k.s.tcb cur).prev)
        → Fits st (k'.s.tcb cur) (k'.s.tcb (k'.s.tcb cur).prev) (cur == (k'.s.tcb cur).prev)
    fits_at starting at f = tt
    fits_at runs at f =
        subst (λ x. (is_running x.state ≡ true) × (is_dirty x.phase ≡ true))
          (sym (same_tcb (ground (arith, at)))) f
    fits_at slept at f =
        subst (λ x. (is_settled x.state ≡ true) × (is_dirty x.phase ≡ true))
          (sym (same_tcb (ground (arith, at)))) f
    fits_at finished at f =
        subst (λ x. is_running x.state ≡ true) (sym (same_tcb (ground (arith, at)))) f
    fits_at switches at f =
        subst (λ x. Fits switches x (k'.s.tcb x.prev) (cur == x.prev))
          (sym (same_tcb (ground (arith, at))))
          (subst (λ y. Fits switches (k.s.tcb cur) y (cur == (k.s.tcb cur).prev))
            (sym (e.tcb (k.s.tcb cur).prev (owner-prev d at))) f)

    pub Elsewhere-Fits :
        Fits
          (k'.stage d)
          (k'.s.tcb (k'.s.current d))
          (k'.s.tcb (k'.s.tcb (k'.s.current d)).prev)
          (k'.s.current d == (k'.s.tcb (k'.s.current d)).prev)
    Elsewhere-Fits =
        subst
          (λ st.
            Fits st (k'.s.tcb (k'.s.current d)) (k'.s.tcb (k'.s.tcb (k'.s.current d)).prev)
              (k'.s.current d == (k'.s.tcb (k'.s.current d)).prev))
          (sym e.stage)
          (subst
            (λ c.
              Fits (k.stage d) (k'.s.tcb c) (k'.s.tcb (k'.s.tcb c).prev) (c == (k'.s.tcb c).prev))
            (sym e.current) (fits_at (k.stage d) refl (h.fits d)))
