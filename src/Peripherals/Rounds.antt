-- ===== src/Peripherals/Rounds.antt =====
-- What a round of the PIC daemon does for a terminal (bios.c).
use tiny_os.Prelude.{
  ℕ, zero, suc, ◌+◌, ◌<◌, ◌≤◌, ◌≡◌, ◌==◌, Bool, true, false, not, ◌&&◌, ◌||◌, Option, some, List,
  [], ◌∷◌, if◌then◌else◌, arith, refl, sym, subst, ◌∙◌, Bool-cases, inl, inr,
}
use tiny_os.Cores.{raise_interrupt, core_restart}
use tiny_os.Peripherals.{
  Bios, raise, raise_alarms, Sets, watched, timed_out, awake, con_round, kbd_round, handle_devices,
  pic_handle, pic_round, alarm, serial_rx_ready, serial_tx_ready,
}

-- The interrupt `n` is pending at core `c`, and the core is not halted.
abbrev pub Told : ℕ → ℕ → Bios → Type 0
Told c n b = ((b.cores c).intpending n ≡ true) × (b.machine.halted c ≡ false)

raise-Told : (c n d m : ℕ) (b : Bios) → Told c n b → Told c n (raise d m b)
unfolding raise raise_interrupt core_restart
raise-Told c n d m b (p, h) = (ground (arith, p), ground (arith, h))

raise-now : (c n : ℕ) (b : Bios) → Told c n (raise c n b)
unfolding raise raise_interrupt core_restart
raise-now c n b = (ground arith, ground arith)

-- What the round does for terminal `i`.
record Handled (sets : Sets) (i : ℕ) (b b' : Bios) : Type 0 where
  kbd : b'.kbd i ≡ (
      if sets.read i || timed_out b.system_clock (b.kbd i)
      then awake b.system_clock (b.kbd i)
      else b.kbd i)
  con : b'.con i ≡ (
      if sets.write i || timed_out b.system_clock (b.con i)
      then awake b.system_clock (b.con i)
      else b.con i)
  rx :
      sets.read i || timed_out b.system_clock (b.kbd i) ≡ true
      → Told (b.kbd i).int_core serial_rx_ready b'
  tx :
      sets.write i || timed_out b.system_clock (b.con i) ≡ true
      → Told (b.con i).int_core serial_tx_ready b'

-- What is kept of terminal `i`, and of the interrupts.
record Kept (i : ℕ) (b b' : Bios) : Type 0 where
  kbd : b'.kbd i ≡ b.kbd i
  con : b'.con i ≡ b.con i
  clock : b'.system_clock ≡ b.system_clock
  told : (c n : ℕ) → Told c n b → Told c n b'

abbrev one_round : Sets → ℕ → Bios → Bios
one_round sets i b = kbd_round (sets.read i) i (con_round (sets.write i) i b)

one_round-Handled : (sets : Sets) (i : ℕ) (b : Bios) → Handled sets i b (one_round sets i b)
unfolding con_round kbd_round raise raise_interrupt core_restart
one_round-Handled sets i b = record {
  kbd = ground arith;
  con = ground arith;
  rx = λ e. (ground arith, ground arith);
  tx = λ e. (ground arith, ground arith);
}

one_round-Kept :
    (sets : Sets) (j i : ℕ) (b : Bios) → (j == i) ≡ false → Kept i b (one_round sets j b)
unfolding con_round kbd_round raise raise_interrupt core_restart
one_round-Kept sets j i b ne = record {
  kbd = ground arith;
  con = ground arith;
  clock = ground arith;
  told = λ c n (p, h). (ground (arith, p), ground (arith, h));
}

Kept-later :
    (sets : Sets) (rounds start i : ℕ) (b : Bios)
    → i < start
    → Kept i b (handle_devices sets rounds start b)
unfolding handle_devices
Kept-later sets zero start i b lt = record {
  kbd = refl;
  con = refl;
  clock = refl;
  told = λ c n t. t;
}
Kept-later sets (suc rounds) start i b lt =
    let s = one_round-Kept sets start i b (ground (arith, lt)) in
    let l = Kept-later sets rounds (start + 1) i (one_round sets start b) (omega (arith, lt)) in
    record {
      kbd = l.kbd ∙ s.kbd;
      con = l.con ∙ s.con;
      clock = l.clock ∙ s.clock;
      told = λ c n t. l.told c n (s.told c n t);
    }

Handled-then :
    (sets : Sets) (i : ℕ) (b b1 b2 : Bios)
    → Handled sets i b b1
    → Kept i b1 b2
    → Handled sets i b b2
Handled-then sets i b b1 b2 h l = record {
  kbd = l.kbd ∙ h.kbd;
  con = l.con ∙ h.con;
  rx = λ e. l.told _ _ (h.rx e);
  tx = λ e. l.told _ _ (h.tx e);
}

Handled-before :
    (sets : Sets) (i : ℕ) (b b1 b2 : Bios)
    → Kept i b b1
    → Handled sets i b1 b2
    → Handled sets i b b2
Handled-before sets i b b1 b2 k h = record {
  kbd = ground (arith, h.kbd, k.kbd, k.clock);
  con = ground (arith, h.con, k.con, k.clock);
  rx = λ e.
      subst (λ d. Told d.int_core serial_rx_ready b2) k.kbd (h.rx (ground (arith, k.kbd, k.clock)));
  tx = λ e.
      subst (λ d. Told d.int_core serial_tx_ready b2) k.con (h.tx (ground (arith, k.con, k.clock)));
}

handle_devices-Handled :
    (sets : Sets) (rounds start i : ℕ) (b : Bios)
    → start ≤ i
    → i < start + rounds
    → Handled sets i b (handle_devices sets rounds start b)
unfolding handle_devices
handle_devices-Handled sets zero start i b le lt = absurd (omega (arith, le, lt))
handle_devices-Handled sets (suc rounds) start i b le lt = elim (Bool-cases (start == i)) [
  | inl same ↦
      let e : start ≡ i = ground arith in
      subst (λ j. Handled sets i b (handle_devices sets rounds (j + 1) (one_round sets j b)))
        (sym e)
        (Handled-then sets i b _ _ (one_round-Handled sets i b)
          (Kept-later sets rounds (i + 1) i (one_round sets i b) (omega arith)))
  | inr other ↦ Handled-before sets i b _ _ (one_round-Kept sets start i b other) (
      handle_devices-Handled sets rounds (start + 1) i (one_round sets start b) (ground arith)
        (omega (arith, lt)))
]

raise_alarms-Kept : (cs : List ℕ) (i : ℕ) (b : Bios) → Kept i b (raise_alarms cs b)
unfolding raise_alarms
raise_alarms-Kept [] i b = record { kbd = refl; con = refl; clock = refl; told = λ c n t. t }
raise_alarms-Kept (c ∷ cs) i b =
    let l = raise_alarms-Kept cs i (raise c alarm b) in
    record {
      kbd = l.kbd ∙ (unfold raise in refl);
      con = l.con ∙ (unfold raise in refl);
      clock = l.clock ∙ (unfold raise in refl);
      told = λ d n t. l.told d n (raise-Told d n c alarm b t);
    }

-- What the documentation of select says: it reports those of the watched descriptors that are ready.
abbrev pub Selects : (Sets → Option Sets) → Sets → Type 0
Selects select available =
    (sets : Sets)
    → select sets
      ≡ some (record {
        read = λ i. sets.read i && available.read i;
        write = λ i. sets.write i && available.write i;
      })

module _ (nterm i clock : ℕ) (alive : ℕ → Bool) (select : Sets → Option Sets) (available : Sets)
    (alarms : List ℕ) (b : Bios) (selects : Selects select available) (lt : i < nterm) where
  -- What select reports.
  abbrev reported : Sets
  reported = record {
    read = λ j. (alive j && not (b.kbd j).ready) && available.read j;
    write = λ j. (alive j && not (b.con j).ready) && available.write j;
  }

  abbrev after : Bios
  after = pic_round nterm alive select clock alarms b

  pic_round-Handled : Handled reported i (record b { system_clock = clock }) after
  unfolding pic_round watched pic_handle
  pic_round-Handled =
      let now : Bios = record b { system_clock = clock } in
      subst (λ o. Handled reported i now (pic_handle nterm alarms o now))
        (sym (selects (watched alive b)))
        (Handled-before reported i now _ _ (raise_alarms-Kept alarms i now) (
          handle_devices-Handled reported nterm 0 i (raise_alarms alarms now) (omega arith)
            (omega (arith, lt))))

  -- A round of the PIC daemon whose select works makes a device ready exactly if it was ready, if its
  -- terminal is alive and the device can transfer, or if its last interrupt was more than SERIAL_TIMEOUT
  -- ago; and in the last two cases, where it was not ready, the core of the device has the interrupt
  -- pending and is not halted. So it is for the keyboard and for the console of each terminal.
  pub pic_round_readies :
      ((after.kbd i).ready
        ≡ ((b.kbd i).ready || ((alive i && available.read i) || timed_out clock (b.kbd i))))
      × ((after.con i).ready
          ≡ ((b.con i).ready || ((alive i && available.write i) || timed_out clock (b.con i))))
      × ((b.kbd i).ready ≡ false
          → (after.kbd i).ready ≡ true
          → Told (b.kbd i).int_core serial_rx_ready after)
      × ((b.con i).ready ≡ false
          → (after.con i).ready ≡ true
          → Told (b.con i).int_core serial_tx_ready after)
  pic_round_readies =
      let h = pic_round-Handled in
      (
        ground (arith, h.kbd),
        ground (arith, h.con),
        λ idle now. h.rx (ground (arith, h.kbd)),
        λ idle now. h.tx (ground (arith, h.con)),
      )
