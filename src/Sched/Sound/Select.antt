-- ===== src/Sched/Sound/Select.antt =====
-- yield up to the context switch keeps the scheduler sound (kernel_sched.c).
use tiny_os.Prelude.{
  ℕ, suc, ◌≡◌, ◌==◌, ◌||◌, Bool, true, false, Distinct, has, refl, arith, sym, subst, ap, ◌∙◌,
  Bool-cases, inl, inr, ◌⊎◌, List, [], ◌∷◌, update, Option, erase, ==_refl, ltb, fun_ext,
}
use tiny_os.Sched.{
  Tcb, Scheduler, ThreadState, can_wake, set_tcb, sched_queue_select, wake_expired, pop_sched,
  yield_select, yield_state, choose_next, sched_make_ready,
}
use tiny_os.Sched.Timeouts.{sched_make_ready-Readied}
use tiny_os.Sched.Steps.{
  Stage, System, starting, runs, slept, switches, finished, is_ready, move_to,
}
use tiny_os.Sched.Sound.{Sound, Fits, is_running, is_settled}
use tiny_os.Sched.Sound.Elsewhere.{owner-current}
use tiny_os.Sched.Sound.Settle.{is_busy, settle-Sound}
use tiny_os.Sched.Sound.Link.{link-Sound}
use tiny_os.Sched.Sound.Wake.{sched_make_ready-Sound, sched_make_ready-Woke, Woke}

-- After the loop over TIMEOUT_LIST: who was ready is ready.
pub record Expired (k : System) (owner : ℕ → ℕ) (s' : Scheduler) : Type 0 where
  pub sound : Sound (record k { s = s' }) owner
  pub ready : (u : ℕ) → is_ready (k.s.tcb u).state ≡ true → is_ready (s'.tcb u).state ≡ true
  pub current : s'.current ≡ k.s.current
  pub idle : s'.idle ≡ k.s.idle

wake_expired-Expired :
    (l : List ℕ) (k : System) (owner : ℕ → ℕ)
    → k.s.timeout_list ≡ l
    → Sound k owner
    → Expired k owner (wake_expired l k.s)
unfolding wake_expired erase
wake_expired-Expired [] k owner e h = record {
  sound = h;
  ready = λ u r. r;
  current = refl;
  idle = refl;
}
wake_expired-Expired (t ∷ ts) k owner e h =
    elim (Bool-cases (ltb k.s.clock (k.s.tcb t).wakeup_time)) [
      | inl later ↦ rw later record { sound = h; ready = λ u r. r; current = refl; idle = refl }
      | inr now ↦
          rw now
            (joined (wake_expired-Expired ts k1 owner list1 (sched_make_ready-Sound h t wakes)))
    ]
  where
    k1 : System
    k1 = record k { s = sched_make_ready t k.s }

    on_list : has t k.s.timeout_list ≡ true
    on_list = ground (arith, ap (has t) e)

    wakes : can_wake (k.s.tcb t).state ≡ true
    wakes = unfold can_wake in ground (arith, h.asleep t on_list)

    list1 : k1.s.timeout_list ≡ ts
    list1 =
        (sched_make_ready-Readied t k.s).list (ground (arith, h.timeouts.listed t, on_list))
        ∙ (ap (erase t) e ∙ let same = ==_refl t in rw same refl)

    w : Woke t k.s k1.s
    w = sched_make_ready-Woke t k.s

    joined : Expired k1 owner (wake_expired ts k1.s) → Expired k owner (wake_expired ts k1.s)
    joined x = record {
      sound = x.sound;
      ready = λ u r. x.ready u (ground (arith, w.state u));
      current = x.current ∙ w.current;
      idle = x.idle ∙ w.idle;
    }

-- The rest of yield, on what sched_queue_select returns; `i` is the idle thread of the core.
abbrev pub turned : ℕ → Bool → ℕ → ℕ → Option ℕ × Scheduler → Scheduler
turned c current_ready t0 i (r, s2) =
    let next = choose_next r current_ready t0 i in
    record (set_tcb next (record (s2.tcb next) { prev = t0 }) s2) {
      current = update s2.current c next;
    }

module _ {k : System} {owner : ℕ → ℕ} (h : Sound k owner) (c : ℕ) (at : k.stage c ≡ slept) where
  own : owner (k.s.current c) ≡ suc c
  own = owner-current h c (ground (arith, at))

  current_fits : is_settled (k.s.tcb (k.s.current c)).state ≡ true
  current_fits =
      (subst
        (λ q.
          Fits q (k.s.tcb (k.s.current c)) (k.s.tcb (k.s.tcb (k.s.current c)).prev)
            (k.s.current c == (k.s.tcb (k.s.current c)).prev))
        at (h.fits c)).0

  idle_is_ready : is_ready (k.s.tcb (k.s.idle c)).state ≡ true
  idle_is_ready = ground (
    arith,
    h.idle_state c,
    h.idle_ready c,
    h.idle_home c,
    h.owned c (k.s.idle c),
    at,
    current_fits,
  )

  idle_free : (owner (k.s.idle c) ≡ 0) ⊎ (k.s.idle c ≡ k.s.current c)
  idle_free = elim (Bool-cases (owner (k.s.idle c) == 0)) [
    | inl free ↦ inl (ground arith)
    | inr held ↦ inr (ground (arith, h.idle_home c held, h.owned c (k.s.idle c), at))
  ]

  turned-Sound :
      (current_ready : Bool) (q : List ℕ)
      → (current_ready ≡ true → is_ready (k.s.tcb (k.s.current c)).state ≡ true)
      → k.s.sched ≡ q
      → (owner' : ℕ → ℕ) × Sound
          (move_to c switches
            (turned c current_ready (k.s.current c) (k.s.idle c) (pop_sched q k.s))
            k)
          owner'
  unfolding pop_sched choose_next
  turned-Sound current_ready (t ∷ ts) r e =
      let fresh : Distinct (t ∷ ts) = subst (λ l. Distinct l) e h.once in
      let in_queue : has t k.s.sched ≡ true = ground (arith, ap (has t) e) in
      (
        update owner t (suc c),
        link-Sound h c t ts at (ground (arith, h.queued t)) (inl (ground (arith, h.queued t)))
            (λ u. ground (arith, ap (has u) e, fresh)) fresh.1
            (λ d same. absurd (ground (arith, h.queued t, h.idle_type d, h.idle_none d))),
      )
  turned-Sound true [] r e = (
    update owner (k.s.current c) (suc c),
    link-Sound h c (k.s.current c) k.s.sched at (r refl) (inr refl)
        (λ u. ground (arith, ap (has u) e)) h.once (λ d same. ground (arith, own, h.idle_home d)),
  )
  turned-Sound false [] r e = (
    update owner (k.s.idle c) (suc c),
    link-Sound h c (k.s.idle c) k.s.sched at idle_is_ready idle_free
        (λ u. ground (arith, ap (has u) e)) h.once (λ d same. ground (arith, h.idles d c)),
  )

-- The first switch of yield.
module _ {k : System} {owner : ℕ → ℕ} (h : Sound k owner) (c : ℕ)
    (busy : is_busy (k.stage c) ≡ true) where
  abbrev st : ThreadState
  st = (yield_state (k.s.tcb (k.s.current c)).state).0

  fits_busy :
      (q : Stage) (now prev : Tcb) (same : Bool)
      → is_busy q ≡ true
      → Fits q now prev same
      → (is_running now.state || is_settled now.state) ≡ true
  fits_busy starting now prev same e f = cc
  fits_busy runs now prev same e f = ground (arith, f)
  fits_busy slept now prev same e f = ground (arith, f)
  fits_busy switches now prev same e f = cc
  fits_busy finished now prev same e f = cc

  fit :
      (is_running (k.s.tcb (k.s.current c)).state || is_settled (k.s.tcb (k.s.current c)).state)
      ≡ true
  fit = fits_busy (k.stage c) _ _ _ busy (h.fits c)

  yielding : System
  yielding =
      move_to c slept
        (set_tcb (k.s.current c) (record (k.s.tcb (k.s.current c)) { state = st }) k.s) k

  yielding-Sound : Sound yielding owner
  unfolding yield_state can_wake yielding
  yielding-Sound =
      settle-Sound h c st busy (ground (arith, fit))
        (λ e. ground (arith, h.wakeable (k.s.current c)))
        (λ d e.
          ground
            (arith, fit, busy, h.idle_state d, h.idle_none d, h.idle_home d, owner-current h c))
        (λ e. ground (arith, h.asleep (k.s.current c)))

  yielding-ready :
      (yield_state (k.s.tcb (k.s.current c)).state).1 ≡ true
      → is_ready (yielding.s.tcb (k.s.current c)).state ≡ true
  unfolding yield_state yielding
  yielding-ready e = ground (arith, fit)

  -- After the timeouts.
  abbrev woken : Scheduler
  woken = wake_expired yielding.s.timeout_list yielding.s

  expired : Expired yielding owner woken
  expired = wake_expired-Expired yielding.s.timeout_list yielding owner refl yielding-Sound

  -- A core that runs its thread, or that has put it to sleep, turns to the next one.
  pub yield_select-Sound :
      (owner' : ℕ → ℕ) × Sound (move_to c switches (yield_select c k.s) k) owner'
  unfolding yield_select sched_queue_select yielding
  yield_select-Sound =
      let current_ready : Bool = (yield_state (k.s.tcb (k.s.current c)).state).1 in
      let (owner', sound) =
        turned-Sound expired.sound c (ground arith) current_ready woken.sched
          (λ e.
            subst (λ f. is_ready (woken.tcb (f c)).state ≡ true) (sym expired.current)
              (expired.ready (k.s.current c) (yielding-ready e)))
          refl in
      (
        owner',
        subst (λ st. Sound (record { s = yield_select c k.s; stage = st }) owner')
            (fun_ext (λ d. ground arith))
            (subst
              (λ i.
                Sound
                  (move_to c switches
                    (turned c current_ready (k.s.current c) (i c) (pop_sched woken.sched woken))
                    yielding)
                  owner')
              expired.idle
              (subst
                (λ f.
                  Sound
                    (move_to c switches
                      (turned c current_ready (f c) (woken.idle c) (pop_sched woken.sched woken))
                      yielding)
                    owner')
                expired.current sound)),
      )
