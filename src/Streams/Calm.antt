-- ===== src/Streams/Calm.antt =====
-- What the system calls on streams leave of the processes (kernel_streams.c).
use tiny_os.Prelude.{
  ℕ, ◌<◌, ◌≡◌, ◌==◌, ◌&&◌, refl, Bool, true, false, Option, none, some, List, [], ◌∷◌, arith, ℤ,
  ltb, leb, ap, ◌∙◌, Option-cases, inl, inr, Bool-cases, subst,
}
use tiny_os.Kernel.{max_fileid, DeviceType, Kernel, cur, set_fid}
use tiny_os.Streams.{
  fcb_incref, fcb_decref, release_fcb, acquire_from, fid_index, io_begin, io_end, pin, get_fcb,
  close_at, sys_close, dup2_at, sys_dup2, open_with, open_reserved, device_open, fcb_unreserve,
  open_stream,
}
use tiny_os.Streams.Calls.{fid_index-some}
use tiny_os.Streams.Open.{reserved, One, fcb_reserve-One}
use tiny_os.Proc.Tree.{SameTree, SameTree-trans}

-- The tree and the free list are as before, and of the file tables at most the entries of the current
-- process may differ.
pub record Calm (k k' : Kernel) : Type 0 where
  pub tree : SameTree k k'
  pub head : k'.pcb_freelist ≡ k.pcb_freelist
  pub count : k'.process_count ≡ k.process_count
  pub fidt :
      (q i : ℕ)
      → ((k.curproc == q) && ltb i max_fileid) ≡ false
      → (k'.pt q).fidt i ≡ (k.pt q).fidt i

Calm-refl : (k : Kernel) → Calm k k
Calm-refl k = record {
  tree = record {
    current = refl;
    pstate = λ p. refl;
    parent = λ p. refl;
    children = λ p. refl;
    exited = λ p. refl;
  };
  head = refl;
  count = refl;
  fidt = λ q i e. refl;
}

set_fid-Calm :
    (i : ℕ) (v : Option ℕ) (k : Kernel) → i < max_fileid → Calm k (set_fid k.curproc i v k)
unfolding set_fid
set_fid-Calm i v k lt = record {
  tree = record {
    current = refl;
    pstate = λ p. ground arith;
    parent = λ p. ground arith;
    children = λ p. ground arith;
    exited = λ p. ground arith;
  };
  head = refl;
  count = refl;
  fidt = λ q j e. ground (arith, lt);
}

-- Where only the blocks differ.
same_pt-Calm :
    (k k' : Kernel)
    → k'.pt ≡ k.pt
    → k'.curproc ≡ k.curproc
    → k'.pcb_freelist ≡ k.pcb_freelist
    → k'.process_count ≡ k.process_count
    → Calm k k'
same_pt-Calm k k' pt current head count = record {
  tree = record {
    current = current;
    pstate = λ p. ap (λ t. (t p).pstate) pt;
    parent = λ p. ap (λ t. (t p).parent) pt;
    children = λ p. ap (λ t. (t p).children_list) pt;
    exited = λ p. ap (λ t. (t p).exited_list) pt;
  };
  head = head;
  count = count;
  fidt = λ q i e. ap (λ t. (t q).fidt i) pt;
}

Calm-trans : {k k' k'' : Kernel} → Calm k k' → Calm k' k'' → Calm k k''
Calm-trans {k} {k'} {k''} a b = record {
  tree = SameTree-trans a.tree b.tree;
  head = b.head ∙ a.head;
  count = b.count ∙ a.count;
  fidt = λ q i e. b.fidt q i (rw a.tree.current e) ∙ a.fidt q i e;
}

fcb_incref-Calm : (f : ℕ) (k : Kernel) → Calm k (fcb_incref f k)
unfolding fcb_incref
fcb_incref-Calm f k = same_pt-Calm k _ refl refl refl refl

fcb_decref-Calm : (f : ℕ) (k : Kernel) → Calm k (fcb_decref f k).1
unfolding fcb_decref
fcb_decref-Calm f k = same_pt-Calm k _ (ground arith) (ground arith) (ground arith) (ground arith)

close_at-Calm : (i : ℕ) (o : Option ℕ) (k : Kernel) → i < max_fileid → Calm k (close_at i o k).1
unfolding close_at
close_at-Calm i none k lt = Calm-refl k
close_at-Calm i (some f) k lt = Calm-trans (set_fid-Calm i none k lt) (fcb_decref-Calm f _)

pub sys_close-Calm : (fd : ℤ) (k : Kernel) → Calm k (sys_close fd k).1
unfolding sys_close
sys_close-Calm fd k = elim (Option-cases (fid_index fd)) [
  | inl e ↦ rw e (Calm-refl k)
  | inr (i, e) ↦ rw e (close_at-Calm i _ k (fid_index-some fd e).0)
]

dup2_at-Calm : (i : ℕ) (o n : Option ℕ) (k : Kernel) → i < max_fileid → Calm k (dup2_at i o n k).1
unfolding dup2_at fcb_incref
dup2_at-Calm i none n k lt = Calm-refl k
dup2_at-Calm i (some f) none k lt = Calm-trans (fcb_incref-Calm f k) (set_fid-Calm i (some f) _ lt)
dup2_at-Calm i (some f) (some g) k lt = elim (Bool-cases (f == g)) [
  | inl same ↦ rw same (Calm-refl k)
  | inr other ↦ rw other (dup2_other (fcb_decref-Calm g k))
]
  where
    dup2_other : {k1 : Kernel} → Calm k k1 → Calm k (set_fid k.curproc i (some f) (fcb_incref f k1))
    dup2_other {k1} c =
        let c1 = Calm-trans c (fcb_incref-Calm f k1) in
        subst (λ p. Calm k (set_fid p i (some f) (fcb_incref f k1))) c1.tree.current
          (Calm-trans c1 (set_fid-Calm i (some f) (fcb_incref f k1) lt))

pub sys_dup2-Calm : (oldfd newfd : ℤ) (k : Kernel) → Calm k (sys_dup2 oldfd newfd k).1
unfolding sys_dup2
sys_dup2-Calm oldfd newfd k = elim (Option-cases (fid_index oldfd)) [
  | inl e ↦ rw e (Calm-refl k)
  | inr (i, e) ↦ elim (Option-cases (fid_index newfd)) [
    | inl e' ↦ rw (e, e') (Calm-refl k)
    | inr (j, e') ↦
        rw (e, e') (dup2_at-Calm j ((cur k).fidt i) ((cur k).fidt j) k (fid_index-some newfd e').0)
  ]
]

pin-Calm : (o : Option ℕ) (k : Kernel) → Calm k (pin o k).1
unfolding pin
pin-Calm none k = Calm-refl k
pin-Calm (some f) k = fcb_incref-Calm f k

pub io_begin-Calm : (fd : ℤ) (k : Kernel) → Calm k (io_begin fd k).1
unfolding io_begin
io_begin-Calm fd k = pin-Calm (get_fcb fd k) k

pub io_end-Calm : (f : ℕ) (k : Kernel) → Calm k (io_end f k)
unfolding io_end
io_end-Calm f k = fcb_decref-Calm f k

reserved-Calm : (i f : ℕ) (fl : List ℕ) (k : Kernel) → i < max_fileid → Calm k (reserved i f fl k)
unfolding reserved acquire_from
reserved-Calm i f fl k lt =
    Calm-trans (same_pt-Calm k _ refl refl refl refl)
      (Calm-trans (set_fid-Calm i (some f) _ lt) (fcb_incref-Calm f _))

open_one-Calm :
    (major : DeviceType) (minor i f : ℕ) (k : Kernel)
    → i < max_fileid
    → (b : Bool) → leb (k.devnum major) minor ≡ b
    → Calm k (open_with major minor (some (i ∷ [], f ∷ [])) k).1
unfolding open_with open_reserved device_open fcb_unreserve release_fcb
open_one-Calm major minor i f k lt true bad =
    rw bad (Calm-trans (set_fid-Calm i none k lt) (same_pt-Calm _ _ refl refl refl refl))
open_one-Calm major minor i f k lt false good = rw good (same_pt-Calm k _ refl refl refl refl)

open_with-Calm :
    (major : DeviceType) (minor : ℕ) (k : Kernel) (o : Option (List ℕ × List ℕ)) (k' : Kernel)
    → One k o k'
    → Calm k (open_with major minor o k').1
unfolding open_with
open_with-Calm major minor k none k' (same, why) = rw same (Calm-refl k)
open_with-Calm major minor k (some (i ∷ [], f ∷ [])) k' (lt, e, fl, free, same) =
    rw same (Calm-trans (reserved-Calm i f fl k lt) (open_one-Calm major minor i f _ lt _ refl))
open_with-Calm major minor k (some ([], _)) k' h = elim h [ ]
open_with-Calm major minor k (some (_ ∷ [], [])) k' h = elim h [ ]
open_with-Calm major minor k (some (_ ∷ [], _ ∷ _ ∷ _)) k' h = elim h [ ]
open_with-Calm major minor k (some (_ ∷ _ ∷ _, _)) k' h = elim h [ ]

pub open_stream-Calm :
    (major : DeviceType) (minor : ℕ) (k : Kernel) → Calm k (open_stream major minor k).1
unfolding open_stream
open_stream-Calm major minor k = open_with-Calm major minor k _ _ (fcb_reserve-One k)
