-- ===== src/Tests/Ports.antt =====
-- A core that waits at a serial port.
use tiny_os.Prelude.{◌≡◌, ◌&&◌, ◌||◌, true, false, Option, none, some, [], ◌∷◌, refl, arith, update}
use tiny_os.Cores.{Core}
use tiny_os.Peripherals.{
  Bios, interrupted, refused, Sets, bios_read_serial, bios_write_serial, io_device_transfer,
  after_retry, retry, transferred, pic_round, serial_rx_ready, serial_tx_ready, timed_out,
}
use tiny_os.Peripherals.Rounds.{Told, Selects, pic_round_readies}
use tiny_os.Peripherals.Promise.{bios_read_serial-promise, bios_write_serial-promise}

abbrev waiting_core : Core
waiting_core = record {
  intvec = λ i. none;
  intpending = λ i. false;
  int_disabled = false;
  irq_count = 0;
  irq_raised = λ i. 0;
  irq_delivered = λ i. 0;
  preemption = true;
  handled = [];
}

-- The devices send their interrupts to core 1, which is halted.
abbrev ports : Bios
ports = record {
  kbd = λ i. record { int_core = 1; ready = true; last_int = 0 };
  con = λ i. record { int_core = 1; ready = true; last_int = 0 };
  cores = λ c. waiting_core;
  machine = record { halted = update (λ c. false) 1 true; halted_list = 1 ∷ [] };
  system_clock = 0;
  signals = 0;
}

-- The keyboard of terminal 2 has a byte.
abbrev a_byte : Sets
a_byte = record { read = update (λ i. false) 2 true; write = λ i. false }

abbrev working_select : Sets → Option Sets
working_select sets = some (record {
  read = λ i. sets.read i && a_byte.read i;
  write = λ i. sets.write i && a_byte.write i;
})

working_select-Selects : Selects working_select a_byte
working_select-Selects sets = refl

-- After a read that failed.
abbrev unready : Bios
unready = record ports {
  kbd = update ports.kbd 2 (record { int_core = 1; ready = false; last_int = 0 });
  signals = 1;
}

reads : bios_read_serial 2 (interrupted ∷ refused ∷ []) ports ≡ some (none, unready, [])
unfolding bios_read_serial io_device_transfer after_retry retry transferred
reads = refl

bios_read_serial-promise_example :
    Told 1 serial_rx_ready (pic_round 4 (λ i. true) working_select 10 (0 ∷ []) unready)
bios_read_serial-promise_example =
    bios_read_serial-promise 4 2 10 (λ i. true) working_select a_byte (0 ∷ [])
      (interrupted ∷ refused ∷ []) [] ports unready unready working_select-Selects (omega arith)
      reads refl refl refl

pic_round_readies_example :
    let after = pic_round 4 (λ i. true) working_select 10 [] unready in
    ((after.kbd 2).ready
      ≡ ((unready.kbd 2).ready || ((true && a_byte.read 2) || timed_out 10 (unready.kbd 2))))
    × ((after.con 2).ready
        ≡ ((unready.con 2).ready || ((true && a_byte.write 2) || timed_out 10 (unready.con 2))))
    × ((unready.kbd 2).ready ≡ false
        → (after.kbd 2).ready ≡ true
        → Told (unready.kbd 2).int_core serial_rx_ready after)
    × ((unready.con 2).ready ≡ false
        → (after.con 2).ready ≡ true
        → Told (unready.con 2).int_core serial_tx_ready after)
pic_round_readies_example =
    pic_round_readies 4 2 10 (λ i. true) working_select a_byte [] unready working_select-Selects
      (omega arith)

-- The console of terminal 3 takes bytes again.
abbrev a_place : Sets
a_place = record { read = λ i. false; write = update (λ i. false) 3 true }

abbrev other_select : Sets → Option Sets
other_select sets = some (record {
  read = λ i. sets.read i && a_place.read i;
  write = λ i. sets.write i && a_place.write i;
})

-- After a write that failed.
abbrev full : Bios
full = record ports {
  con = update ports.con 3 (record { int_core = 1; ready = false; last_int = 0 });
  signals = 1;
}

writes : bios_write_serial 3 (refused ∷ []) ports ≡ some (none, full, [])
unfolding bios_write_serial io_device_transfer after_retry retry transferred
writes = refl

bios_write_serial-promise_example :
    Told 1 serial_tx_ready (pic_round 4 (λ i. true) other_select 10 [] full)
bios_write_serial-promise_example =
    bios_write_serial-promise 4 3 10 (λ i. true) other_select a_place [] (refused ∷ []) [] ports
      full full (λ sets. refl) (omega arith) writes refl refl refl
