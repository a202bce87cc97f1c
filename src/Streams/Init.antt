-- ===== src/Streams/Init.antt =====
-- initialize_files of kernel_streams.c.
use tiny_os.Prelude.{
  ℕ, zero, suc, ◌+◌, ◌<◌, ◌≡◌, refl, true, none, [], ◌∷◌, arith, has, Distinct, Distinct-append_one,
  has-append, count,
}
use tiny_os.Kernel.{max_files, Kernel}
use tiny_os.Streams.{init_loop, initialize_files}
use tiny_os.Streams.Counts.{refs-zero}
use tiny_os.Streams.Calls.{Exact}

-- The blocks below `i` are on the free list.
record Listed (i : ℕ) (k : Kernel) : Type 0 where
  distinct : Distinct k.fcb_freelist
  below : (f : ℕ) → has f k.fcb_freelist ≡ true → f < i
  all : (f : ℕ) → f < i → has f k.fcb_freelist ≡ true

init_loop-Listed : (n i j : ℕ) (k : Kernel) → i + n ≡ j → Listed i k → Listed j (init_loop n i k)
unfolding init_loop
init_loop-Listed zero i j k e l = let e' : i ≡ j = omega arith in rw (← e') l
init_loop-Listed (suc n) i j k e l = init_loop-Listed n (i + 1) j _ (omega arith) (record {
  distinct = Distinct-append_one k.fcb_freelist i l.distinct (ground (arith, l.below i));
  below = λ f h. ground (arith, l.below f, has-append f k.fcb_freelist (i ∷ []));
  all = λ f h. ground (arith, l.all f, has-append f k.fcb_freelist (i ∷ []));
})

init_loop-pt : (n i : ℕ) (k : Kernel) → (init_loop n i k).pt ≡ k.pt
unfolding init_loop
init_loop-pt zero i k = refl
init_loop-pt (suc n) i k = init_loop-pt n (i + 1) _

Listed-Exact :
    (n : ℕ) (k : Kernel)
    → n ≡ max_files
    → ((p i : ℕ) → (k.pt p).fidt i ≡ none)
    → Listed n k
    → Exact [] k
unfolding count
Listed-Exact n k e closed l = record {
  distinct = l.distinct;
  distinct_fresh = tt;
  few = omega arith;
  blocks = λ f. record {
    unused = λ h. (omega (arith, refs-zero k.pt f closed), refl, omega (arith, l.below f h));
    counted = λ h lt. cc (l.all f (omega arith));
    kept = λ h lt out. absurd (ground (arith, l.all f (omega arith)));
    in_range = λ h. absurd (omega (arith, refs-zero k.pt f closed));
    newly = λ h. cc;
  };
}

initialize-Exact :
    (n : ℕ) (k : Kernel)
    → n ≡ max_files
    → ((p i : ℕ) → (k.pt p).fidt i ≡ none)
    → Exact [] (initialize_files n k)
unfolding initialize_files
initialize-Exact n k e closed =
    Listed-Exact n _ e (λ p i. rw (init_loop-pt n 0 _) (closed p i))
      (init_loop-Listed n 0 n (record k { fcb_freelist = [] }) (omega arith)
        (record { distinct = tt; below = λ f h. cc; all = λ f h. absurd (omega arith) }))

-- If no process has an open file, the counts are exact after initialize_files.
pub initialize_files-Exact :
    (k : Kernel) → ((p i : ℕ) → (k.pt p).fidt i ≡ none) → Exact [] (initialize_files max_files k)
initialize_files-Exact k closed = initialize-Exact max_files k refl closed

init_loop-same :
    (n i : ℕ) (k : Kernel)
    → ((init_loop n i k).curproc ≡ k.curproc) × ((init_loop n i k).pcb_freelist ≡ k.pcb_freelist)
unfolding init_loop
init_loop-same zero i k = (refl, refl)
init_loop-same (suc n) i k = init_loop-same n (i + 1) _

-- The process table is left alone.
pub initialize_files-same :
    (n : ℕ) (k : Kernel)
    → ((initialize_files n k).pt ≡ k.pt)
      × ((initialize_files n k).curproc ≡ k.curproc)
      × ((initialize_files n k).pcb_freelist ≡ k.pcb_freelist)
unfolding initialize_files
initialize_files-same n k =
    let s = init_loop-same n 0 (record k { fcb_freelist = [] }) in
    (init_loop-pt n 0 (record k { fcb_freelist = [] }), s.0, s.1)

init_loop_count : (n i : ℕ) (k : Kernel) → (init_loop n i k).process_count ≡ k.process_count
unfolding init_loop
init_loop_count zero i k = refl
init_loop_count (suc n) i k = init_loop_count n (i + 1) _

pub initialize_files_count :
    (n : ℕ) (k : Kernel) → (initialize_files n k).process_count ≡ k.process_count
unfolding initialize_files
initialize_files_count n k = init_loop_count n 0 (record k { fcb_freelist = [] })
