-- ===== src/Peripherals/Promise.antt =====
-- What bios.h promises a core that finds its port not ready (bios.c).
use tiny_os.Prelude.{
  ℕ, ◌+◌, ◌<◌, ◌≡◌, Bool, true, false, Option, none, some, List, if◌then◌else◌, arith, refl, sym,
  ap, subst, ◌∙◌,
}
use tiny_os.Peripherals.{
  IoDevice, Bios, Answer, retry, transferred, after_retry, io_device_transfer, bios_read_serial,
  bios_write_serial, Sets, pic_round, serial_rx_ready, serial_tx_ready, serial_tx_ready, put_back,
}
use tiny_os.Peripherals.Rounds.{Told, Selects, pic_round_readies}

-- The state after a transfer that has returned.
abbrev state_or : {A : Type 0} → Bios → Option (Option A × Bios × List (Answer A)) → Bios
state_or b none = b
state_or b (some (r, b', rest)) = b'

transferred-refused :
    (A : Type 0) (dev : IoDevice) (signals : ℕ)
    → (transferred {A = A} none dev signals).0 ≡ record dev { ready = false }
unfolding transferred
transferred-refused A dev signals = at dev.ready refl
  where
    at :
        (r : Bool)
        → dev.ready ≡ r
        → (if◌then◌else◌ {A = IoDevice × ℕ} r
            (record dev { ready = false }, signals + 1)
            (dev, signals)).0
          ≡ record dev { ready = false }
    at true e = refl
    at false e = ap (λ r. record dev { ready = r }) e

after_retry-refused :
    {A : Type 0} (q : Option (Option A × List (Answer A))) (dev : IoDevice)
    (put : IoDevice → ℕ → Bios) (signals : ℕ) (b' : Bios) (rest : List (Answer A))
    → put_back put (after_retry q dev signals) ≡ some (none, b', rest)
    → (signals' : ℕ) × (b' ≡ put (record dev { ready = false }) signals')
unfolding after_retry
after_retry-refused none dev put signals b' rest e = absurd (ground (arith, e))
after_retry-refused (some (some c, r)) dev put signals b' rest e = absurd (ground (arith, e))
after_retry-refused {A = A} (some (none, r)) dev put signals b' rest e =
    let (dev1, signals1) = transferred {A = A} none dev signals in
    (
      signals1,
      sym (ap (state_or b') e) ∙ ap (λ d. put d signals1) (transferred-refused A dev signals),
    )

-- bios_read_serial keeps what bios.h promises: if it fails, then once the port has a byte, the next round
-- of the PIC daemon leaves SERIAL_RX_READY pending at the core of the keyboard, and the core not
-- halted. (The terminal is alive, select works, and nothing else has used the keyboard in between.)
pub bios_read_serial-promise :
    (nterm i clock : ℕ) (alive : ℕ → Bool) (select : Sets → Option Sets) (available : Sets)
    (alarms : List ℕ) (answers rest : List (Answer ℕ)) (b b' later : Bios)
    → Selects select available
    → i < nterm
    → bios_read_serial i answers b ≡ some (none, b', rest)
    → later.kbd i ≡ b'.kbd i
    → alive i ≡ true
    → available.read i ≡ true
    → Told (b.kbd i).int_core serial_rx_ready (pic_round nterm alive select clock alarms later)
unfolding bios_read_serial io_device_transfer
bios_read_serial-promise nterm i clock alive select available alarms answers rest b b' later selects
      lt e same on has_byte =
    let (signals', b'_is) = after_retry-refused (retry answers) (b.kbd i) _ b.signals b' rest e in
    let dev : later.kbd i ≡ record (b.kbd i) { ready = false } =
      same ∙ ap (λ x. x.kbd i) b'_is ∙ ground arith in
    let (now, con, told, con_told) =
      pic_round_readies nterm i clock alive select available alarms later selects lt in
    let idle : (later.kbd i).ready ≡ false = ap (λ d. d.ready) dev in
    subst (λ d. Told d.int_core serial_rx_ready (pic_round nterm alive select clock alarms later))
      dev (told idle (now ∙ rw (idle, on, has_byte) refl))

-- bios_write_serial keeps what bios.h promises: if it fails, then once the port takes a byte, the next round
-- of the PIC daemon leaves SERIAL_TX_READY pending at the core of the console, and the core not
-- halted. (The terminal is alive, select works, and nothing else has used the console in between.)
pub bios_write_serial-promise :
    (nterm i clock : ℕ) (alive : ℕ → Bool) (select : Sets → Option Sets) (available : Sets)
    (alarms : List ℕ) (answers rest : List (Answer ℕ)) (b b' later : Bios)
    → Selects select available
    → i < nterm
    → bios_write_serial i answers b ≡ some (none, b', rest)
    → later.con i ≡ b'.con i
    → alive i ≡ true
    → available.write i ≡ true
    → Told (b.con i).int_core serial_tx_ready (pic_round nterm alive select clock alarms later)
unfolding bios_write_serial io_device_transfer
bios_write_serial-promise nterm i clock alive select available alarms answers rest b b' later
      selects lt e same on takes_byte =
    let (signals', b'_is) = after_retry-refused (retry answers) (b.con i) _ b.signals b' rest e in
    let dev : later.con i ≡ record (b.con i) { ready = false } =
      same ∙ ap (λ x. x.con i) b'_is ∙ ground arith in
    let (now, con, told, con_told) =
      pic_round_readies nterm i clock alive select available alarms later selects lt in
    let idle : (later.con i).ready ≡ false = ap (λ d. d.ready) dev in
    subst (λ d. Told d.int_core serial_tx_ready (pic_round nterm alive select clock alarms later))
      dev (con_told idle (con ∙ rw (idle, on, takes_byte) refl))
