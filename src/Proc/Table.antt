-- ===== src/Proc/Table.antt =====
-- The process table of kernel_proc.c as an allocator: the free list, linked through the `parent`
-- fields of the free entries, is a list of distinct pids, and `process_count` counts the others.
use tiny_os.Prelude.{
  ℕ, zero, suc, ◌+◌, ◌≤◌, ◌<◌, ◌≡◌, refl, ◌≢◌, ◌||◌, ltb, inl, inr, ==_refl, Bool, true, false,
  Option, none, some, List, [], ◌∷◌, arith, ◌==◌, has, Distinct, length, Bool-cases, ap, sym, subst,
  length-le_of_Distinct, ◌∙◌, update,
}
use tiny_os.Kernel.{max_proc, PidState, free, alive, Kernel, Pcb}
use tiny_os.Proc.{
  init_pcbs, link_pcbs, initialize_table, initialize_pcb, acquire_at, acquire_pcb, release_pcb,
}

abbrev pub is_free : PidState → Bool
is_free free = true
is_free _ = false

-- From `h` the `parent` links lead through `fl`.
abbrev pub Chain : (ℕ → Pcb) → Option ℕ → List ℕ → Type 0
Chain pt h [] = h ≡ none
Chain pt h (p ∷ fl) = (h ≡ some p) × Chain pt (pt p).parent fl

-- `fl` is the free list of a table of `n` processes.
pub record Table (n : ℕ) (fl : List ℕ) (k : Kernel) : Type 0 where
  pub chain : Chain k.pt k.pcb_freelist fl
  pub distinct : Distinct fl
  pub states : (p : ℕ) → p < n → is_free (k.pt p).pstate ≡ has p fl
  pub outside : (p : ℕ) → n ≤ p → is_free (k.pt p).pstate ≡ true
  pub within : (p : ℕ) → has p fl ≡ true → p < n
  pub total : k.process_count + length fl ≡ n

-- Writes outside the list keep the chain.
pub Chain-same :
    (pt pt' : ℕ → Pcb) (h : Option ℕ) (fl : List ℕ)
    → ((p : ℕ) → has p fl ≡ true → (pt' p).parent ≡ (pt p).parent)
    → Chain pt h fl
    → Chain pt' h fl
Chain-same pt pt' h [] same c = c
Chain-same pt pt' h (p ∷ fl) same c = (
  c.0,
  rw (same p (ground arith))
      (Chain-same pt pt' (pt p).parent fl (λ q i. same q (ground arith)) c.1),
)

-- The outcome of acquire_PCB on the free list `fl`.
abbrev pub Acquired : ℕ → Kernel → List ℕ → Option ℕ × Kernel → Type 0
Acquired n k [] r = r ≡ (none, k)
Acquired n k (p ∷ fl) (r, k') =
    (r ≡ some p) × Table n fl k' × ((k'.pt p).pstate ≡ alive) × ((q : ℕ) → q ≢ p → k'.pt q ≡ k.pt q)

-- With a well-formed table of at most `max_proc` entries, acquire_PCB takes the first free process,
-- makes it alive and changes no other; it fails only when none is free, and then changes nothing.
pub acquire_pcb-Acquired :
    {n : ℕ} {k : Kernel} (fl : List ℕ)
    → n ≤ max_proc
    → Table n fl k
    → Acquired n k fl (acquire_pcb k)
unfolding acquire_pcb acquire_at
acquire_pcb-Acquired {k} [] small t = ap (λ o. acquire_at o k) t.chain
acquire_pcb-Acquired {n} {k} (p ∷ fl) small t =
    subst (λ o. Acquired n k (p ∷ fl) (acquire_at o k)) (sym t.chain.0)
      (
        refl,
        record {
          chain =
              Chain-same k.pt (acquire_at (some p) k).1.pt (k.pt p).parent fl (λ q i. ground arith)
                t.chain.1;
          distinct = t.distinct.1;
          states = λ q lt. ground (arith, t.states q lt, t.distinct);
          outside = λ q ge. ground (arith, t.outside q ge, t.within p);
          within = λ q i. t.within q (ground arith);
          total = ground (arith, t.total);
        },
        ground arith,
        λ q ne. ground arith,
      )

-- In a well-formed table, release_PCB puts an allocated process in front of the free list, and the
-- table stays well formed.
pub release_pcb-Table :
    {n : ℕ} {k : Kernel} (p : ℕ) (fl : List ℕ)
    → n ≤ max_proc
    → Table n fl k
    → p < n
    → has p fl ≡ false
    → Table n (p ∷ fl) (release_pcb p k)
unfolding release_pcb
release_pcb-Table {n} {k} p fl small t lt out = record {
  chain = (
    refl,
    ground (
      arith,
      Chain-same k.pt (release_pcb p k).pt k.pcb_freelist fl (λ q i. ground arith) t.chain,
    ),
  );
  distinct = (out, t.distinct);
  states = λ q lt'. ground (arith, t.states q lt');
  outside = λ q ge. ground (arith, t.outside q ge);
  within = λ q i. ground (arith, t.within q);
  total = ground (
    arith,
    t.total,
    length-le_of_Distinct n (p ∷ fl) (out, t.distinct) (λ q i. ground (arith, t.within q)),
  );
}

-- The pids below `n`, before those of `fl`.
unfoldable pub below : ℕ → List ℕ → List ℕ
below zero fl = fl
below (suc p) fl = below p (p ∷ fl)

has-below : (q n : ℕ) (fl : List ℕ) → has q (below n fl) ≡ (ltb q n || has q fl)
unfolding below
has-below q zero fl = ground arith
has-below q (suc p) fl = ground (arith, has-below q p (p ∷ fl))

Distinct-below :
    (n : ℕ) (fl : List ℕ)
    → ((p : ℕ) → has p fl ≡ true → n ≤ p)
    → Distinct fl
    → Distinct (below n fl)
unfolding below
Distinct-below zero fl above d = d
Distinct-below (suc p) fl above d =
    Distinct-below p (p ∷ fl) (λ q h. ground (arith, above q)) (ground (arith, above p), d)

length-below : (n : ℕ) (fl : List ℕ) → length (below n fl) ≡ n + length fl
unfolding below
length-below zero fl = omega arith
length-below (suc p) fl = omega (arith, length-below p (p ∷ fl))

link_pcbs-Chain :
    (n : ℕ) (fl : List ℕ) (k : Kernel)
    → ((p : ℕ) → has p fl ≡ true → n ≤ p)
    → Chain k.pt k.pcb_freelist fl
    → Chain (link_pcbs n k).pt (link_pcbs n k).pcb_freelist (below n fl)
unfolding link_pcbs below
link_pcbs-Chain zero fl k above c = c
link_pcbs-Chain (suc p) fl k above c =
    link_pcbs-Chain p (p ∷ fl) _ (λ q h. ground (arith, above q))
      (
        refl,
        rw (==_refl p) (
            Chain-same k.pt (update k.pt p (record (k.pt p) { parent = k.pcb_freelist }))
              k.pcb_freelist fl (λ q h. ground (arith, above q h)) c),
      )

link_pcbs-pstate : (n : ℕ) (k : Kernel) (q : ℕ) → ((link_pcbs n k).pt q).pstate ≡ (k.pt q).pstate
unfolding link_pcbs
link_pcbs-pstate zero k q = refl
link_pcbs-pstate (suc p) k q = link_pcbs-pstate p _ q ∙ ground arith

init_pcbs-above : (n p : ℕ) (k : Kernel) (q : ℕ) → q < p → (init_pcbs n p k).pt q ≡ k.pt q
unfolding init_pcbs
init_pcbs-above zero p k q h = refl
init_pcbs-above (suc n) p k q h = init_pcbs-above n (p + 1) _ q (omega arith) ∙ ground arith

init_pcbs-pt :
    (n p : ℕ) (k : Kernel) (q : ℕ)
    → p ≤ q
    → q < p + n
    → (init_pcbs n p k).pt q ≡ initialize_pcb (k.pt q)
unfolding init_pcbs
init_pcbs-pt zero p k q h h' = absurd (omega arith)
init_pcbs-pt (suc n) p k q h h' = elim (Bool-cases (p == q)) [
  | inl same ↦
      init_pcbs-above n (p + 1) _ q (ground arith)
      ∙ let e : p ≡ q = ground arith in rw (e, ==_refl q)
  | inr other ↦ init_pcbs-pt n (p + 1) _ q (ground arith) (omega arith) ∙ rw other
]

init_pcbs-beyond : (n p : ℕ) (k : Kernel) (q : ℕ) → p + n ≤ q → (init_pcbs n p k).pt q ≡ k.pt q
unfolding init_pcbs
init_pcbs-beyond zero p k q h = refl
init_pcbs-beyond (suc n) p k q h =
    init_pcbs-beyond n (p + 1) _ q (omega arith) ∙ let e : (p == q) ≡ false = ground arith in rw e

-- If the entries from `n` on are free, initialize_processes on a table of `n` entries gives a
-- well-formed table whose free list holds all of them, in the order of their pids.
pub initialize_table-Table :
    (n : ℕ) (k : Kernel)
    → ((p : ℕ) → n ≤ p → is_free (k.pt p).pstate ≡ true)
    → Table n (below n []) (initialize_table n k)
unfolding initialize_table
initialize_table-Table n k out = record {
  chain = link_pcbs-Chain n [] (record (init_pcbs n 0 k) { pcb_freelist = none }) (λ p h. cc) refl;
  distinct = Distinct-below n [] (λ p h. cc) tt;
  states = λ p lt.
      rw
        (
          link_pcbs-pstate n (record (init_pcbs n 0 k) { pcb_freelist = none }) p,
          init_pcbs-pt n 0 k p (omega arith) (omega arith),
        )
        (unfold initialize_pcb in ground (arith, has-below p n []));
  outside = λ p ge.
      rw
        (
          link_pcbs-pstate n (record (init_pcbs n 0 k) { pcb_freelist = none }) p,
          init_pcbs-beyond n 0 k p (omega arith),
        )
        (out p ge);
  within = λ p h. ground (arith, has-below p n []);
  total = omega (arith, length-below n []);
}
