-- ===== src/Streams/Counts.antt =====
-- How often a file control block is referred to, and what the basic steps do to that number.
use tiny_os.Prelude.{
  ℕ, ◌+◌, ◌*◌, ◌≤◌, ◌<◌, ◌≡◌, Option, none, some, arith, ◌==◌, if◌then◌else◌, update, sum_below,
  sum_below-change, sum_below-cong, ap, sum_below-le, sum_below-zero, le-sum_below,
}
use tiny_os.Kernel.{max_proc, max_fileid, Pcb, Kernel, set_fid}

-- 1 if the entry `o` refers to block `f`.
abbrev pub points : Option ℕ → ℕ → ℕ
points none f = 0
points (some g) f = if f == g then 1 else 0

-- The references of one file table.
unfoldable pub fidt_refs : (ℕ → Option ℕ) → ℕ → ℕ
fidt_refs t f = sum_below max_fileid (λ i. points (t i) f)

-- The references of all file tables.
pub refs : (ℕ → Pcb) → ℕ → ℕ
refs pt f = sum_below max_proc (λ p. fidt_refs (pt p).fidt f)

pub fidt_refs-update :
    (t : ℕ → Option ℕ) (i : ℕ) (v : Option ℕ) (f : ℕ)
    → i < max_fileid
    → fidt_refs (update t i v) f + points (t i) f ≡ fidt_refs t f + points v f
unfolding fidt_refs
fidt_refs-update t i v f h =
    let e =
      sum_below-change max_fileid (λ j. points (t j) f) (λ j. points (update t i v j) f) i h
        (λ j ne. ground arith) in
    ground arith

pub fidt_refs-le : (t : ℕ → Option ℕ) (f : ℕ) → fidt_refs t f ≤ 16
unfolding fidt_refs
fidt_refs-le t f =
    let e = sum_below-le max_fileid 1 (λ j. points (t j) f) (λ j. ground arith) in omega arith

pub fidt_refs-zero : (t : ℕ → Option ℕ) (f : ℕ) → ((i : ℕ) → t i ≡ none) → fidt_refs t f ≡ 0
unfolding fidt_refs
fidt_refs-zero t f h = sum_below-zero max_fileid _ (λ i. rw (h i))

pub points-le-fidt_refs :
    (t : ℕ → Option ℕ) (i f : ℕ) → i < max_fileid → points (t i) f ≤ fidt_refs t f
unfolding fidt_refs
points-le-fidt_refs t i f h = le-sum_below max_fileid (λ j. points (t j) f) i h

-- A change of one process's table.
pub refs-update :
    (pt : ℕ → Pcb) (p : ℕ) (pcb : Pcb) (f : ℕ)
    → p < max_proc
    → refs (update pt p pcb) f + fidt_refs (pt p).fidt f ≡ refs pt f + fidt_refs pcb.fidt f
unfolding refs
refs-update pt p pcb f h =
    let e =
      sum_below-change max_proc (λ q. fidt_refs (pt q).fidt f)
        (λ q. fidt_refs (update pt p pcb q).fidt f) p h (λ q ne. ground arith) in
    ground arith

pub refs-le : (pt : ℕ → Pcb) (f : ℕ) → refs pt f ≤ max_proc * 16
unfolding refs
refs-le pt f = sum_below-le max_proc 16 _ (λ p. fidt_refs-le (pt p).fidt f)

pub refs-zero : (pt : ℕ → Pcb) (f : ℕ) → ((p i : ℕ) → (pt p).fidt i ≡ none) → refs pt f ≡ 0
unfolding refs
refs-zero pt f h = sum_below-zero max_proc _ (λ p. fidt_refs-zero (pt p).fidt f (h p))

pub fidt_refs-le-refs :
    (pt : ℕ → Pcb) (p f : ℕ) → p < max_proc → fidt_refs (pt p).fidt f ≤ refs pt f
unfolding refs
fidt_refs-le-refs pt p f h = le-sum_below max_proc (λ q. fidt_refs (pt q).fidt f) p h

module _ (k : Kernel) (p i : ℕ) (v : Option ℕ) (hp : p < max_proc) (hi : i < max_fileid) where
  pub refs-set_fid :
      (f : ℕ) → refs (set_fid p i v k).pt f + points ((k.pt p).fidt i) f ≡ refs k.pt f + points v f
  unfolding set_fid
  refs-set_fid f = omega (
    arith,
    refs-update k.pt p (record (k.pt p) { fidt = update (k.pt p).fidt i v }) f hp,
    fidt_refs-update (k.pt p).fidt i v f hi,
  )

pub points-le-refs :
    (pt : ℕ → Pcb) (p i f : ℕ)
    → p < max_proc
    → i < max_fileid
    → points ((pt p).fidt i) f ≤ refs pt f
points-le-refs pt p i f hp hi =
    omega (arith, points-le-fidt_refs (pt p).fidt i f hi, fidt_refs-le-refs pt p f hp)

-- Only the file tables matter.
pub refs-same :
    (pt pt' : ℕ → Pcb) (f : ℕ) → ((p : ℕ) → (pt' p).fidt ≡ (pt p).fidt) → refs pt' f ≡ refs pt f
unfolding refs
refs-same pt pt' f same = sum_below-cong max_proc _ _ (λ p h. ap (λ t. fidt_refs t f) (same p))
