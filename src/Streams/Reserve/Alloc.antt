-- ===== src/Streams/Reserve/Alloc.antt =====
-- The second loop of FCB_reserve (kernel_streams.c): the blocks that it takes, and the roll back.
use tiny_os.Prelude.{
  ℕ, zero, suc, ◌+◌, ◌<◌, ◌≡◌, refl, inl, inr, Option, none, some, List, [], ◌∷◌, ◌++◌, reverse,
  arith, length, Option-cases, erase, ◌∙◌, Distinct-reverse, has-reverse, length-reverse,
  reverse_aux_lem, reverse_aux, append-nil, append_assoc, sym, ap,
}
use tiny_os.Kernel.{Kernel}
use tiny_os.Streams.{acquire_from, acquire_fcb, release_fcb, release_all, alloc_fcbs, alloc_next}
use tiny_os.Streams.Counted
use tiny_os.Streams.Counted.{Counted, Counted-same}
use tiny_os.Streams.Calls.{Exact, drop_fresh}

-- The second loop.
release_all-Exact :
    {held : List ℕ} (got : List ℕ) (k : Kernel)
    → Counted got held k
    → Exact held (release_all got k)
unfolding release_all erase
release_all-Exact [] k c = c
release_all-Exact (f ∷ got) k c =
    release_all-Exact got (release_fcb f k)
      (drop_fresh f (Counted.release_fcb-Counted c f (ground arith)))

abbrev pub Allocated : List ℕ → Option (List ℕ) → Kernel → Type 0
Allocated held none k = Exact held k
Allocated held (some fcbs) k = Counted fcbs held k

acquire_fcb-none : (k : Kernel) → (acquire_fcb k).0 ≡ none → acquire_fcb k ≡ (none, k)
unfolding acquire_fcb
acquire_fcb-none k e = ground arith

pub alloc_fcbs-Allocated :
    {held : List ℕ} (num : ℕ) (got : List ℕ) (k : Kernel)
    → Counted got held k
    → Allocated held (alloc_fcbs num got k).0 (alloc_fcbs num got k).1
unfolding alloc_fcbs alloc_next
alloc_fcbs-Allocated zero got k c =
    Counted-same (reverse got) (Distinct-reverse got c.distinct_fresh) (λ f. has-reverse f got) c
alloc_fcbs-Allocated (suc num) got k c = elim (Option-cases (acquire_fcb k).0) [
  | inl e ↦ rw (acquire_fcb-none k e) (release_all-Exact got k c)
  | inr (f, e) ↦
      rw (e, alloc_next)
        (alloc_fcbs-Allocated num (f ∷ got) (acquire_fcb k).1 (Counted.acquire_fcb-Counted c e))
]

-- What the second loop does to the free list: it takes the first blocks, or, when they are too few,
-- gives all back in reverse order.
abbrev pub Outcome : ℕ → List ℕ → Kernel → Option (List ℕ) → Kernel → Type 0
Outcome num got k none k' =
    (length k.fcb_freelist < num)
    × (k'.pt ≡ k.pt)
    × (k'.curproc ≡ k.curproc)
    × (k'.fcb_freelist ≡ reverse_aux k.fcb_freelist got)
Outcome num got k (some fcbs) k' =
    (length fcbs ≡ length got + num)
    × (k'.pt ≡ k.pt)
    × (k'.curproc ≡ k.curproc)
    × (reverse_aux got k.fcb_freelist ≡ fcbs ++ k'.fcb_freelist)

release_all_lem :
    (got : List ℕ) (k : Kernel)
    → release_all got k ≡ record k { fcb_freelist = k.fcb_freelist ++ got }
unfolding release_all release_fcb
release_all_lem [] k = ap (λ l. record k { fcb_freelist = l }) (sym (append-nil _))
release_all_lem (f ∷ got) k =
    release_all_lem got _
    ∙ ap (λ l. record k { fcb_freelist = l }) (append_assoc k.fcb_freelist _ _)

Outcome-suc :
    (num : ℕ) (got : List ℕ) (f : ℕ) (fl : List ℕ) (k k' : Kernel)
    → k.fcb_freelist ≡ f ∷ fl
    → k'.pt ≡ k.pt
    → k'.curproc ≡ k.curproc
    → k'.fcb_freelist ≡ fl
    → (o : Option (List ℕ)) (k'' : Kernel) → Outcome num (f ∷ got) k' o k''
    → Outcome (suc num) got k o k''
Outcome-suc num got f fl k k' e pt cp fl' none k'' (few, a, b, l) = (
  omega (arith, ap length e, ap length fl', few),
  a ∙ pt,
  b ∙ cp,
  l ∙ ap (λ x. reverse_aux x (f ∷ got)) fl' ∙ ap (λ x. reverse_aux x got) (sym e),
)
Outcome-suc num got f fl k k' e pt cp fl' (some fcbs) k'' (len, a, b, l) = (
  omega (arith, len),
  a ∙ pt,
  b ∙ cp,
  ap (λ x. reverse_aux got x) e ∙ ap (λ x. reverse_aux got (f ∷ x)) (sym fl') ∙ l,
)

pub acquire_fcb-nil : (k : Kernel) → k.fcb_freelist ≡ [] → acquire_fcb k ≡ (none, k)
unfolding acquire_fcb
acquire_fcb-nil k e = ap (λ l. acquire_from l k) e

pub acquire_fcb-cons :
    (k : Kernel) (f : ℕ) (fl : List ℕ)
    → k.fcb_freelist ≡ f ∷ fl
    → acquire_fcb k ≡ (some f, (acquire_from (f ∷ fl) k).1)
unfolding acquire_fcb
acquire_fcb-cons k f fl e = ap (λ l. acquire_from l k) e

pub alloc_fcbs-Outcome :
    (num : ℕ) (got fl : List ℕ) (k : Kernel)
    → k.fcb_freelist ≡ fl
    → Outcome num got k (alloc_fcbs num got k).0 (alloc_fcbs num got k).1
unfolding alloc_fcbs alloc_next acquire_from
alloc_fcbs-Outcome zero got fl k e =
    (omega (arith, length-reverse got), refl, refl, reverse_aux_lem got k.fcb_freelist)
alloc_fcbs-Outcome (suc num) got [] k e =
    rw (acquire_fcb-nil k e, release_all_lem got k)
      (
        omega (arith, ap length e),
        refl,
        refl,
        ap (λ l. l ++ got) e ∙ ap (λ l. reverse_aux l got) (sym e),
      )
alloc_fcbs-Outcome (suc num) got (f ∷ fl) k e = rw (acquire_fcb-cons k f fl e) (
    Outcome-suc num got f fl k (acquire_from (f ∷ fl) k).1 e refl refl refl _ _
      (alloc_fcbs-Outcome num (f ∷ got) fl (acquire_from (f ∷ fl) k).1 refl))
