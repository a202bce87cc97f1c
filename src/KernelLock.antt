-- ===== src/KernelLock.antt =====
-- The kernel lock of kernel_cc.c: a semaphore, as a monitor under `kernel_mutex`. Each function below
-- runs with that mutex held, and is one step. `kernel_sem` is an int that only grows from 1 and falls
-- when it is positive, so it is a natural number.
pub mod Counts
pub mod Exclusion
use tiny_os.Prelude.{
  ℕ, ◌+◌, ◌-◌, ◌<◌, ◌≡◌, Bool, true, false, List, [], ◌∷◌, ◌++◌, ltb, update, if◌then◌else◌,
}

-- Where a thread is: out of the kernel, in it, asleep on `kernel_sem_cv`, signalled there but not yet
-- running, asleep on a condition variable in kernel_wait_wchan, or asleep in kernel_sleep.
pub data Place : Type 0 where
  outside inside queued signalled waiting sleeping : Place

-- `queue` are the waiters on `kernel_sem_cv`, the first first.
pub record KernelLock : Type 0 where
  pub n : ℕ
  pub kernel_sem : ℕ
  pub place : ℕ → Place
  pub queue : List ℕ

abbrev pub move_to : ℕ → Place → KernelLock → KernelLock
move_to t p k = record k { place = update k.place t p }

-- The test of the loop, and what follows it: the thread waits on `kernel_sem_cv`, or enters.
unfoldable pub acquire : ℕ → KernelLock → KernelLock
acquire t k =
    if ltb 0 k.kernel_sem
    then move_to t inside (record k { kernel_sem = k.kernel_sem - 1 })
    else move_to t queued (record k { queue = k.queue ++ t ∷ [] })

unfoldable pub signal_queue : List ℕ → KernelLock → KernelLock
signal_queue [] k = k
signal_queue (t ∷ ts) k = move_to t signalled (record k { queue = ts })

-- `kernel_sem++; Cond_Signal(&kernel_sem_cv);`
unfoldable pub release : KernelLock → KernelLock
unfolding signal_queue
release k = signal_queue k.queue (record k { kernel_sem = k.kernel_sem + 1 })

unfoldable pub kernel_lock : ℕ → KernelLock → KernelLock
kernel_lock t k = acquire t k

unfoldable pub kernel_unlock : ℕ → KernelLock → KernelLock
kernel_unlock t k = move_to t outside (release k)

-- kernel_wait_wchan up to the sleep on the condition variable, and after it.
unfoldable pub kernel_wait_begin : ℕ → KernelLock → KernelLock
kernel_wait_begin t k = move_to t waiting (release k)

unfoldable pub kernel_wait_end : ℕ → KernelLock → KernelLock
kernel_wait_end t k = acquire t k

unfoldable pub kernel_sleep : ℕ → KernelLock → KernelLock
kernel_sleep t k = move_to t sleeping (release k)

abbrev pub initial : ℕ → KernelLock
initial n = record { n = n; kernel_sem = 1; place = λ t. outside; queue = [] }

pub data Step : KernelLock → KernelLock → Type 0 where
  locks : {k : KernelLock} (t : ℕ) → t < k.n → k.place t ≡ outside → Step k (kernel_lock t k)
  -- A thread that was signalled on `kernel_sem_cv` makes the test again.
  retries : {k : KernelLock} (t : ℕ) → t < k.n → k.place t ≡ signalled → Step k (acquire t k)
  unlocks : {k : KernelLock} (t : ℕ) → t < k.n → k.place t ≡ inside → Step k (kernel_unlock t k)
  waits : {k : KernelLock} (t : ℕ) → t < k.n → k.place t ≡ inside → Step k (kernel_wait_begin t k)
  returns : {k : KernelLock} (t : ℕ) → t < k.n → k.place t ≡ waiting → Step k (kernel_wait_end t k)
  sleeps : {k : KernelLock} (t : ℕ) → t < k.n → k.place t ≡ inside → Step k (kernel_sleep t k)
  awakes : {k : KernelLock} (t : ℕ) → t < k.n → k.place t ≡ sleeping → Step k (move_to t outside k)

pub data Reaches (k : KernelLock) : KernelLock → Type 0 where
  here : Reaches k k
  after : {k' k'' : KernelLock} → Reaches k k' → Step k' k'' → Reaches k k''
