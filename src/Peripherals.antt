-- ===== src/Peripherals.antt =====
-- bios.c: the io devices of the serial ports, and the PIC daemon, which turns the timers and the devices
-- into interrupts. A file descriptor is named by the terminal and the direction; what read, write,
-- select, poll and the clock answer are arguments. A signal to the daemon is counted; a signal to a core
-- is the pending interrupt that goes with it.
pub mod Rounds
pub mod Promise
use tiny_os.Prelude.{
  ℕ, zero, suc, ◌+◌, ◌-◌, ◌%◌, ◌^◌, Bool, true, false, not, ◌==◌, ◌&&◌, ◌||◌, Option, none, some,
  List, [], ◌∷◌, update, ltb, if◌then◌else◌,
}
use tiny_os.Cores.{Core, Machine, raise_interrupt, core_restart}

-- The interrupts of bios.h, besides ICI, which is 0.
abbrev pub alarm : ℕ
alarm = 1

abbrev pub serial_rx_ready : ℕ
serial_rx_ready = 2

abbrev pub serial_tx_ready : ℕ
serial_tx_ready = 3

-- milliseconds
abbrev pub serial_timeout : ℕ
serial_timeout = 300

-- `last_int` is of 64 bits.
pub record IoDevice : Type 0 where
  pub int_core : ℕ
  pub ready : Bool
  pub last_int : ℕ

-- `kbd i` and `con i` are those of terminal `i`; `signals` counts PIC_usr1_queued.
pub record Bios : Type 0 where
  pub kbd : ℕ → IoDevice
  pub con : ℕ → IoDevice
  pub cores : ℕ → Core
  pub machine : Machine
  pub system_clock : ℕ
  pub signals : ℕ

-- `ready` is what io_ready answers.
unfoldable pub io_device_init : Bool → ℕ → IoDevice
io_device_init ready clock = record { int_core = 0; ready = ready; last_int = clock }

-- An answer of read or write for one byte: -1 with EINTR; 1 (with the byte, for read); or the other
-- answers, end of file, EAGAIN or EPIPE.
pub data Answer (A : Type 0) : Type 0 where
  interrupted refused : Answer A
  done : A → Answer A

-- The loop that tries again after EINTR. It has not returned if the answers are used up.
unfoldable pub retry : {A : Type 0} → List (Answer A) → Option (Option A × List (Answer A))
retry [] = none
retry (interrupted ∷ answers) = retry answers
retry (refused ∷ answers) = some (none, answers)
retry (done a ∷ answers) = some (some a, answers)

-- The device after a transfer that failed or not, and the number of signals to the daemon.
unfoldable pub transferred : {A : Type 0} → Option A → IoDevice → ℕ → IoDevice × ℕ
transferred (some a) dev signals = (dev, signals)
transferred none dev signals =
    if dev.ready then (record dev { ready = false }, signals + 1) else (dev, signals)

unfoldable pub after_retry :
    {A : Type 0}
    → Option (Option A × List (Answer A))
    → IoDevice
    → ℕ
    → Option (Option A × (IoDevice × ℕ) × List (Answer A))
unfolding transferred
after_retry none dev signals = none
after_retry (some (r, rest)) dev signals = some (r, transferred r dev signals, rest)

-- io_device_read and io_device_write have the same steps: what the transfer gives, none if it fails; the
-- device; the signals; the answers that are left.
unfoldable pub io_device_transfer :
    {A : Type 0}
    → List (Answer A)
    → IoDevice
    → ℕ
    → Option (Option A × (IoDevice × ℕ) × List (Answer A))
unfolding retry after_retry
io_device_transfer answers dev signals = after_retry (retry answers) dev signals

-- The transfer's device is put back into the table.
abbrev pub put_back :
    {A : Type 0}
    → (IoDevice → ℕ → Bios)
    → Option (Option A × (IoDevice × ℕ) × List (Answer A))
    → Option (Option A × Bios × List (Answer A))
put_back put none = none
put_back put (some (r, (dev, signals), rest)) = some (r, put dev signals, rest)

unfoldable pub bios_read_serial :
    ℕ → List (Answer ℕ) → Bios → Option (Option ℕ × Bios × List (Answer ℕ))
unfolding io_device_transfer
bios_read_serial serial answers b =
    put_back (λ dev signals. record b { kbd = update b.kbd serial dev; signals = signals })
      (io_device_transfer answers (b.kbd serial) b.signals)

-- What the transfer gives stands for the byte that is written.
unfoldable pub bios_write_serial :
    ℕ → List (Answer ℕ) → Bios → Option (Option ℕ × Bios × List (Answer ℕ))
unfolding io_device_transfer
bios_write_serial serial answers b =
    put_back (λ dev signals. record b { con = update b.con serial dev; signals = signals })
      (io_device_transfer answers (b.con serial) b.signals)

unfoldable pub bios_serial_interrupt_core : ℕ → ℕ → ℕ → Bios → Bios
bios_serial_interrupt_core serial intno coreid b =
    if intno == serial_rx_ready
    then record b { kbd = update b.kbd serial (record (b.kbd serial) { int_core = coreid }) }
    else record b { con = update b.con serial (record (b.con serial) { int_core = coreid }) }

-- raise_interrupt on core `c`, with cpu_core_restart.
unfoldable pub raise : ℕ → ℕ → Bios → Bios
raise c intno b = record b {
  cores = update b.cores c (raise_interrupt intno (b.cores c));
  machine = core_restart c b.machine;
}

unfoldable pub cpu_ici : ℕ → Bios → Bios
unfolding raise
cpu_ici c b = raise c 0 b

-- The loop over the signals of the timers, each of a core.
unfoldable pub raise_alarms : List ℕ → Bios → Bios
unfolding raise
raise_alarms [] b = b
raise_alarms (c ∷ cs) b = raise_alarms cs (raise c alarm b)

-- The descriptors of the terminals that select is given, or reports.
pub record Sets : Type 0 where
  pub read : ℕ → Bool
  pub write : ℕ → Bool

-- The loop that prepares the sets; `alive i` is what check_terminal answers.
unfoldable pub watched : (ℕ → Bool) → Bios → Sets
watched alive b = record {
  read = λ i. alive i && not (b.kbd i).ready;
  write = λ i. alive i && not (b.con i).ready;
}

unfoldable pub timed_out : ℕ → IoDevice → Bool
timed_out clock dev = ltb serial_timeout ((clock + 2 ^ 64 - dev.last_int) % 2 ^ 64)

abbrev pub awake : ℕ → IoDevice → IoDevice
awake clock dev = record dev { ready = true; last_int = clock }

-- What the round does for the console of terminal `i`, and then for its keyboard.
unfoldable pub con_round : Bool → ℕ → Bios → Bios
unfolding timed_out raise
con_round reported i b =
    if reported || timed_out b.system_clock (b.con i)
    then raise (b.con i).int_core serial_tx_ready
        (record b { con = update b.con i (awake b.system_clock (b.con i)) })
    else b

unfoldable pub kbd_round : Bool → ℕ → Bios → Bios
unfolding timed_out raise
kbd_round reported i b =
    if reported || timed_out b.system_clock (b.kbd i)
    then raise (b.kbd i).int_core serial_rx_ready
        (record b { kbd = update b.kbd i (awake b.system_clock (b.kbd i)) })
    else b

-- The loop over the terminals from `i` on, with `rounds` still to come.
unfoldable pub handle_devices : Sets → ℕ → ℕ → Bios → Bios
unfolding con_round kbd_round
handle_devices sets zero i b = b
handle_devices sets (suc rounds) i b =
    handle_devices sets rounds (i + 1) (kbd_round (sets.read i) i (con_round (sets.write i) i b))

unfoldable pub pic_handle : ℕ → List ℕ → Option Sets → Bios → Bios
unfolding raise_alarms handle_devices
pic_handle nterm alarms none b = b
pic_handle nterm alarms (some sets) b = handle_devices sets nterm 0 (raise_alarms alarms b)

-- One round of the loop of PIC_daemon. `select` answers none if it fails; `clock` is the time after it,
-- and `alarms` are the signals of timers that have come.
unfoldable pub pic_round : ℕ → (ℕ → Bool) → (Sets → Option Sets) → ℕ → List ℕ → Bios → Bios
unfolding watched pic_handle
pic_round nterm alive select clock alarms b =
    pic_handle nterm alarms (select (watched alive b)) (record b { system_clock = clock })
