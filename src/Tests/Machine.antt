-- ===== src/Tests/Machine.antt =====
-- The kernel lock, the serial driver and the cores of the machine at concrete states.
use tiny_os.Prelude.{
  ℕ, ◌<◌, ◌≤◌, ℤ, pos, negsuc, ◌-◌, ◌^◌, ◌≡◌, refl, true, none, some, [], ◌∷◌, arith, ◌⊎◌, inr, has,
}
use tiny_os.KernelLock.{
  KernelLock, acquire, outside, inside, locks, Reaches, here, after, initial, kernel_lock,
}
use tiny_os.KernelLock.Counts.{is_signalled, tally}
use tiny_os.KernelLock.Exclusion.{kernel_exclusive, kernel_prompt}
use tiny_os.Devices.{serial_read}
use tiny_os.Devices.Serial.{serial_read_lem}

-- Of two threads, thread 0 has the kernel and thread 1 waits for it.
abbrev contended : KernelLock
contended = kernel_lock 1 (kernel_lock 0 (initial 2))

alone : (kernel_lock 0 (initial 2)).place 1 ≡ outside
unfolding kernel_lock acquire
alone = refl

contended-Reaches : Reaches (initial 2) contended
unfolding kernel_lock acquire
contended-Reaches = after (after here (locks 0 (omega arith) refl)) (locks 1 (omega arith) alone)

contended-inside : contended.place 0 ≡ inside
unfolding kernel_lock acquire
contended-inside = refl

contended-queue : has 1 contended.queue ≡ true
unfolding kernel_lock acquire
contended-queue = refl

kernel_exclusive_example : ◌≡◌ {A = ℕ} 0 0
kernel_exclusive_example =
    kernel_exclusive 2 0 0 contended-Reaches (omega arith) (omega arith) contended-inside
      contended-inside

kernel_prompt_example :
    (contended.kernel_sem ≡ 0) ⊎ (0 < tally contended.n is_signalled contended.place)
kernel_prompt_example = kernel_prompt 2 1 contended-Reaches contended-queue

serial_read_lem_example :
    (r : ℤ) × (serial_read 8 (none ∷ none ∷ some 104 ∷ some 105 ∷ none ∷ some 33 ∷ [])
      ≡ some (r, (record { count = 2; bytes = 104 ∷ 105 ∷ []; sleeps = 2; rest = some 33 ∷ [] })))
    × (2 < 2 ^ 31 → r ≡ pos 2)
    × (2 ^ 31 ≤ 2 → r ≡ negsuc (2 ^ 32 - 1 - 2))
serial_read_lem_example =
    serial_read_lem 8 2 (104 ∷ 105 ∷ []) (none ∷ some 33 ∷ []) (some 33 ∷ []) (omega arith)
      (omega arith) (omega arith) (inr (omega arith, refl))
