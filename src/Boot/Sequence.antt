-- ===== src/Boot/Sequence.antt =====
-- The boot sequence comes to its end (kernel_init.c).
use tiny_os.Prelude.{
  ℕ, zero, suc, ◌≤◌, ◌≡◌, refl, true, some, ℤ, List, [], ◌∷◌, arith, ap, ◌∙◌, subst, pos,
}
use tiny_os.Kernel.{Kernel}
use tiny_os.Proc.{initialize_table}
use tiny_os.Proc.Table.{is_free, Chain, below, initialize_table-Table}
use tiny_os.Streams.{initialize_files}
use tiny_os.Streams.Init.{initialize_files-same}
use tiny_os.Devices.{initialize_devices}
use tiny_os.Boot.{expect_pid}

pub below-two : (m : ℕ) (fl : List ℕ) → (rest : List ℕ) × (below (suc (suc m)) fl ≡ 0 ∷ 1 ∷ rest)
unfolding below
below-two zero fl = (fl, refl)
below-two (suc m) fl = below-two m (suc (suc m) ∷ fl)

-- The first process to be found is 0, and the next one is 1.
pub first_two :
    (m : ℕ) (k : Kernel)
    → ((p : ℕ) → suc (suc m) ≤ p → is_free (k.pt p).pstate ≡ true)
    → let k1 = initialize_table (suc (suc m)) k in
      (k1.pcb_freelist ≡ some 0) × ((k1.pt 0).parent ≡ some 1)
first_two m k out =
    let (rest, e) = below-two m [] in
    let k1 = initialize_table (suc (suc m)) k in
    let c : Chain k1.pt k1.pcb_freelist (0 ∷ 1 ∷ rest) =
      subst (λ l. Chain k1.pt k1.pcb_freelist l) e
        (initialize_table-Table (suc (suc m)) k out).chain in
    (c.0, c.1.0)

expect_pid-found : (p : ℕ) (k : Kernel) → expect_pid p (pos p, k) ≡ some k
unfolding expect_pid
expect_pid-found p k = ground arith

pub expected : (p : ℕ) (r : ℤ × Kernel) → r.0 ≡ pos p → expect_pid p r ≡ some r.1
expected p (n, k) e = ap (λ n. expect_pid p (n, k)) e ∙ expect_pid-found p k

pub initialized :
    (files ports : ℕ) (k : Kernel)
    → (initialize_files files (initialize_devices ports k)).pcb_freelist ≡ k.pcb_freelist
unfolding initialize_devices
initialized files ports k =
    (let (a, b, c) = initialize_files-same files (initialize_devices ports k) in c)
