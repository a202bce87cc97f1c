-- ===== src/Streams/Calls.antt =====
-- The system calls of kernel_streams.c on open file ids, and the reference counts: sys_Close,
-- sys_Dup2, and the frame of sys_Read and sys_Write.
pub mod Dup2
use tiny_os.Prelude.{
  ℕ, ◌<◌, ◌≡◌, refl, ◌⊎◌, inl, inr, true, false, Option, none, some, List, [], ◌∷◌, arith, ℤ, pos,
  minus_one, ◌==◌, lt→ltb, ◌≢◌, Bool-cases, Option-cases, update, erase, ==_refl, fun_ext, ap,
  subst, length, has, negsuc, has→count,
}
use tiny_os.Kernel.{max_proc, max_files, max_fileid, Kernel, Fcb, cur, set_fid}
use tiny_os.Streams.{
  fcb_incref, fcb_decref, fid_index, io_begin, io_run, io_with, sys_io, close_at, sys_close,
  dup2_at, sys_dup2,
}
use tiny_os.Streams.Counted
use tiny_os.Streams.Counted.{Counted, is_free}

-- No call in progress has acquired a block that it does not refer to yet.
abbrev pub Exact : List ℕ → Kernel → Type 0
Exact held k = Counted [] held k

-- `held` has room for one more reference, and the current process is in the process table.
pub record Ready (held : List ℕ) (k : Kernel) : Type 0 where
  pub room : length held < max_proc
  pub current : k.curproc < max_proc

pub drop_held :
    {fresh held : List ℕ} {k : Kernel} (f : ℕ)
    → Counted fresh (erase f (f ∷ held)) k
    → Counted fresh held k
unfolding erase
drop_held f c = rw (==_refl f) at c

pub drop_fresh :
    {fresh held : List ℕ} {k : Kernel} (f : ℕ)
    → Counted (erase f (f ∷ fresh)) held k
    → Counted fresh held k
unfolding erase
drop_fresh f c = rw (==_refl f) at c

pub set_fid-set_fid :
    (p i : ℕ) (v w : Option ℕ) (k : Kernel) → set_fid p i v (set_fid p i w k) ≡ set_fid p i v k
unfolding set_fid
set_fid-set_fid p i v w k = ap (λ t. record k { pt = t }) (fun_ext λ q. at q (Bool-cases (p == q)))
  where
    at :
        (q : ℕ)
        → ((p == q) ≡ true) ⊎ ((p == q) ≡ false)
        → (set_fid p i v (set_fid p i w k)).pt q ≡ (set_fid p i v k).pt q
    at q (inl e) =
        rw (e, ==_refl p) (ap (λ t. record (k.pt p) { fidt = t }) (fun_ext λ j. ground arith))
    at q (inr e) = rw e

pub fcb_decref-set_fid :
    (f p i : ℕ) (w : Option ℕ) (k : Kernel)
    → (fcb_decref f (set_fid p i w k)).1 ≡ set_fid p i w (fcb_decref f k).1
unfolding fcb_decref set_fid
fcb_decref-set_fid f p i w k = ground arith

pub fcb_incref-set_fid :
    (f p i : ℕ) (v : Option ℕ) (k : Kernel)
    → fcb_incref f (set_fid p i v k) ≡ set_fid p i v (fcb_incref f k)
unfolding fcb_incref set_fid
fcb_incref-set_fid f p i v k = refl

-- A legal file id.
pub fid_index-some : (fd : ℤ) {i : ℕ} → fid_index fd ≡ some i → (i < max_fileid) × (fd ≡ pos i)
unfolding fid_index
fid_index-some (pos n) e = ground arith
fid_index-some (negsuc n) e = cc

module _ {held : List ℕ} {k : Kernel} (c : Exact held k) (r : Ready held k) where
  close_at-Exact :
      (i : ℕ) (o : Option ℕ) → i < max_fileid → (cur k).fidt i ≡ o → Exact held (close_at i o k).1
  unfolding close_at
  close_at-Exact i none lt e = c
  close_at-Exact i (some f) lt e = drop_held f (
      Counted.fcb_decref-Counted (Counted.set_fid-none-Counted c k.curproc i r.current lt e r.room)
        f (ground arith))

  -- Close, on any file id, keeps the counts exact.
  pub sys_close-Exact : (fd : ℤ) → Exact held (sys_close fd k).1
  unfolding sys_close
  sys_close-Exact fd = elim (Option-cases (fid_index fd)) [
    | inl e ↦ rw e c
    | inr (i, e) ↦ rw e (close_at-Exact i _ (fid_index-some fd e).0 refl)
  ]

  -- Both entries are in use, by different blocks.
  dup2_swap :
      (i j f g : ℕ)
      → i < max_fileid
      → j < max_fileid
      → (cur k).fidt i ≡ some f
      → (cur k).fidt j ≡ some g
      → (f == g) ≡ false
      → Exact held (set_fid k.curproc j (some f) (fcb_incref f (fcb_decref g k).1))
  unfolding erase
  dup2_swap i j f g hi hj ei ej ne = subst (Exact held) path stored
    where
      cleared : Kernel
      cleared = set_fid k.curproc j none k

      dropped : Kernel
      dropped = (fcb_decref g cleared).1

      dropped-Exact : Exact held dropped
      dropped-Exact = drop_held g (
          Counted.fcb_decref-Counted
            (Counted.set_fid-none-Counted c k.curproc j r.current hj ej r.room) g (ground arith))

      entries : (dropped.pt k.curproc).fidt ≡ update (cur k).fidt j none
      entries = unfold fcb_decref set_fid in ground arith

      used : (is_free dropped f ≡ false) × (has f [] ≡ false) × (f < max_files)
      used = Counted.entry-used dropped-Exact k.curproc i r.current hi (rw entries (ground arith))

      stored : Exact held (set_fid k.curproc j (some f) (fcb_incref f dropped))
      stored = drop_held f (
          Counted.set_fid-Counted (Counted.fcb_incref-Counted dropped-Exact f used.0 used.2 r.room)
            k.curproc j r.current hj f (unfold fcb_incref in rw entries (ground arith))
            (ground arith))

      path :
          set_fid k.curproc j (some f) (fcb_incref f dropped)
          ≡ set_fid k.curproc j (some f) (fcb_incref f (fcb_decref g k).1)
      path = rw (fcb_decref-set_fid g k.curproc j none k) (
          unfold fcb_incref set_fid in
          set_fid-set_fid k.curproc j (some f) none (fcb_incref f (fcb_decref g k).1))

  -- `o` and `n` are the entries at `i` and `j`.
  dup2_at-Exact :
      (i j : ℕ) (o n : Option ℕ)
      → i < max_fileid
      → j < max_fileid
      → (cur k).fidt i ≡ o
      → (cur k).fidt j ≡ n
      → Exact held (dup2_at j o n k).1
  unfolding dup2_at erase
  dup2_at-Exact i j none n hi hj ei ej = c
  dup2_at-Exact i j (some f) none hi hj ei ej =
      let used = Counted.entry-used c k.curproc i r.current hi ei in
      drop_held f (
        Counted.set_fid-Counted (Counted.fcb_incref-Counted c f used.0 used.2 r.room) k.curproc j
          r.current hj f (unfold fcb_incref in ej) (ground arith))
  dup2_at-Exact i j (some f) (some g) hi hj ei ej = elim (Bool-cases (f == g)) [
    | inl same ↦ rw same c
    | inr other ↦ rw other (dup2_swap i j f g hi hj ei ej other)
  ]

  -- Dup2, on any two file ids, keeps the counts exact.
  pub sys_dup2-Exact : (oldfd newfd : ℤ) → Exact held (sys_dup2 oldfd newfd k).1
  unfolding sys_dup2
  sys_dup2-Exact oldfd newfd = elim (Option-cases (fid_index oldfd)) [
    | inl e ↦ rw e c
    | inr (i, e) ↦ elim (Option-cases (fid_index newfd)) [
      | inl e' ↦ rw (e, e') c
      | inr (j, e') ↦
          rw (e, e')
            (dup2_at-Exact i j _ _ (fid_index-some oldfd e).0 (fid_index-some newfd e').0 refl refl)
    ]
  ]

  pub io_begin-Exact :
      (fd : ℤ) {f : ℕ} → (io_begin fd k).0 ≡ some f → Exact (f ∷ held) (io_begin fd k).1
  unfolding io_begin erase
  io_begin-Exact fd {f} e = elim (Option-cases (fid_index fd)) [
    | inl no_id ↦ absurd (ground arith)
    | inr (i, legal) ↦ elim (Option-cases ((cur k).fidt i)) [
      | inl closed ↦ absurd (ground arith)
      | inr (g, open_fid) ↦
          let used =
            Counted.entry-used c k.curproc i r.current (fid_index-some fd legal).0 open_fid in
          let same : g ≡ f = ground arith in
          rw (legal, open_fid, same)
            (Counted.fcb_incref-Counted c f (rw same at used.0) (rw same at used.2) r.room)
    ]
  ]

pub io_begin-none : (fd : ℤ) (k : Kernel) → (io_begin fd k).0 ≡ none → (io_begin fd k).1 ≡ k
unfolding io_begin
io_begin-none fd k e = ground arith

-- A block that a call in progress refers to is not on the free list.
pub held-not-free :
    {held : List ℕ} {k : Kernel} (f : ℕ) → Exact held k → has f held ≡ true → is_free k f ≡ false
held-not-free {held} f c h = ground (arith, c.blocks f, has→count f held h)

module _ {held : List ℕ} {k : Kernel} (c : Exact held k) (r : Ready held k)
    (method : Fcb → Option (Kernel → ℤ × Kernel))
    (keeps : (fcb : Fcb) (run : Kernel → ℤ × Kernel) (f : ℕ) (k' : Kernel)
      → method fcb ≡ some run
      → Exact (f ∷ held) k'
      → Exact (f ∷ held) (run k').1) where
  io_run-Exact :
      (fcb : Fcb) (f : ℕ) (m : Option (Kernel → ℤ × Kernel)) (k' : Kernel)
      → method fcb ≡ m
      → Exact (f ∷ held) k'
      → Exact held (io_run f m k').1
  unfolding io_run
  io_run-Exact fcb f none k' e c' = drop_held f (Counted.fcb_decref-Counted c' f (ground arith))
  io_run-Exact fcb f (some run) k' e c' =
      drop_held f (Counted.fcb_decref-Counted (keeps fcb run f k' e c') f (ground arith))

  -- Read and Write keep the counts exact, if the driver's method keeps them exact with the one more
  -- reference that the call holds while the method runs and others run in its sleeps.
  pub sys_io-Exact : (fd : ℤ) → Exact held (sys_io method fd k).1
  unfolding sys_io
  sys_io-Exact fd = elim (Option-cases (io_begin fd k).0) [
    | inl no_block ↦ rw (no_block, io_with) (rw (io_begin-none fd k no_block) c)
    | inr (f, got) ↦
        rw (got, io_with)
          (io_run-Exact (k.ft f) f _ (io_begin fd k).1 refl (io_begin-Exact c r fd got))
  ]
