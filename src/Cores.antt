-- ===== src/Cores.antt =====
-- bios.c: the interrupts of a core and the halting of cores, and the preemption flag of kernel_cc.c. A
-- handler is named by a number, and what it does to its core is the argument `run`; the signals, masks
-- and condition variables of POSIX, by which bios.c sends and delays interrupts, are not in the state.
pub mod Halting
use tiny_os.Prelude.{
  ℕ, zero, suc, ◌+◌, Bool, true, false, Option, none, some, List, [], ◌∷◌, ◌++◌, update, erase,
  if◌then◌else◌,
}

-- ICI, ALARM, SERIAL_RX_READY and SERIAL_TX_READY
abbrev pub maximum_interrupt_no : ℕ
maximum_interrupt_no = 4

-- `preemption` is that of the core's CCB; `handled` are the interrupts that a handler was run for,
-- oldest first.
pub record Core : Type 0 where
  pub intvec : ℕ → Option ℕ
  pub intpending : ℕ → Bool
  pub int_disabled : Bool
  pub irq_count : ℕ
  pub irq_raised : ℕ → ℕ
  pub irq_delivered : ℕ → ℕ
  pub preemption : Bool
  pub handled : List ℕ

-- raise_interrupt, up to the signal.
unfoldable pub raise_interrupt : ℕ → Core → Core
raise_interrupt intno core = record core {
  intpending = update core.intpending intno true;
  irq_raised = update core.irq_raised intno (core.irq_raised intno + 1);
}

unfoldable pub run_handler : (ℕ → Core → Core) → ℕ → Option ℕ → Core → Core
run_handler run intno none core = core
run_handler run intno (some handler) core =
    run handler (record core { handled = core.handled ++ intno ∷ [] })

-- One round of the loop of dispatch_interrupts, with interrupts enabled.
unfoldable pub dispatch_one : (ℕ → Core → Core) → ℕ → Core → Core
unfolding run_handler
dispatch_one run intno core =
    if core.intpending intno
    then run_handler run intno (core.intvec intno) (record core {
      intpending = update core.intpending intno false;
      irq_delivered = update core.irq_delivered intno (core.irq_delivered intno + 1);
    })
    else core

-- The loop from `intno` on, with `rounds` still to come.
unfoldable pub dispatch_from : (ℕ → Core → Core) → ℕ → ℕ → Core → Core
dispatch_from run zero intno core = core
dispatch_from run (suc rounds) intno core =
    let rest = dispatch_from run rounds (intno + 1) (dispatch_one run intno core) in
    if core.int_disabled then core else rest

unfoldable pub dispatch_interrupts : (ℕ → Core → Core) → Core → Core
unfolding dispatch_from
dispatch_interrupts run core = dispatch_from run maximum_interrupt_no 0 core

unfoldable pub sigusr1_handler : (ℕ → Core → Core) → Core → Core
unfolding dispatch_interrupts
sigusr1_handler run core =
    let core' = record core { irq_count = core.irq_count + 1 } in
    if core.int_disabled then core' else dispatch_interrupts run core'

unfoldable pub cpu_interrupt_handler : ℕ → Option ℕ → Core → Core
cpu_interrupt_handler interrupt handler core = record core {
  intvec = update core.intvec interrupt handler;
}

unfoldable pub cpu_disable_interrupts : Core → Core
cpu_disable_interrupts core =
    if core.int_disabled then core else record core { int_disabled = true }

unfoldable pub cpu_enable_interrupts : (ℕ → Core → Core) → Core → Core
unfolding dispatch_interrupts
cpu_enable_interrupts run core =
    if core.int_disabled
    then dispatch_interrupts run (record core { int_disabled = false })
    else core

-- The old flag, and the core.
unfoldable pub set_core_preemption : (ℕ → Core → Core) → Bool → Core → Bool × Core
set_core_preemption run true core =
    (core.preemption, cpu_enable_interrupts run (record core { preemption = true }))
set_core_preemption run false core =
    let core' = cpu_disable_interrupts core in
    (core'.preemption, record core' { preemption = false })

unfoldable pub get_core_preemption : Core → Bool
get_core_preemption core = core.preemption

-- `halted_list` holds the halted cores, the last to halt first.
pub record Machine : Type 0 where
  pub halted : ℕ → Bool
  pub halted_list : List ℕ

-- cpu_core_halt up to the wait
unfoldable pub cpu_core_halt : ℕ → Machine → Machine
cpu_core_halt c m = record { halted = update m.halted c true; halted_list = c ∷ m.halted_list }

unfoldable pub core_restart : ℕ → Machine → Machine
core_restart c m =
    if m.halted c
    then record { halted = update m.halted c false; halted_list = erase c m.halted_list }
    else m

unfoldable pub restart_head : List ℕ → Machine → Machine
restart_head [] m = m
-- rlist_pop_front, and then core_restart
restart_head (c ∷ cs) m = core_restart c (record m { halted_list = cs })

unfoldable pub cpu_core_restart_one : Machine → Machine
unfolding restart_head
cpu_core_restart_one m = restart_head m.halted_list m

-- The loop of cpu_core_restart_all, with `rounds` cores still to come.
unfoldable pub restart_from : ℕ → ℕ → Machine → Machine
restart_from zero c m = m
restart_from (suc rounds) c m = restart_from rounds (c + 1) (core_restart c m)

unfoldable pub cpu_core_restart_all : ℕ → Machine → Machine
cpu_core_restart_all ncores m = restart_from ncores 0 m
