-- ===== src/Proc/Files.antt =====
-- The loops of sys_Exec and sys_Exit (kernel_proc.c) over the file ids, and the reference counts.
pub mod Exec
pub mod Shares
pub mod Exit
use tiny_os.Prelude.{
  ℕ, zero, suc, ◌+◌, ◌≤◌, ◌<◌, ◌≡◌, refl, ◌≢◌, inl, inr, false, Option, none, some, List, [], ◌∷◌,
  arith, ℤ, ◌==◌, Bool-cases, ap, ◌∙◌, fun_ext, leb, ◌⊎◌, subst, erase,
}
use tiny_os.Kernel.{max_proc, max_files, max_fileid, Kernel, Pcb, cur, set_pcb, set_fid}
use tiny_os.Streams.{fcb_incref, fcb_decref}
use tiny_os.Streams.Counts.{refs-same}
use tiny_os.Streams.Counted
use tiny_os.Streams.Counted.{Counted}
use tiny_os.Streams.Calls.{Exact, Ready, drop_held, fcb_decref-set_fid, fcb_incref-set_fid}
use tiny_os.Proc.{
  acquire_at, acquire_pcb, inherit_one, inherit_files, adopt, set_parent, set_task, start_thread,
  exec_at, sys_exec,
}
use tiny_os.Proc.Exit.{
  close_one, close_files, move_child, reparent, give_exited, tell_parent, die, free_args, sys_exit,
}

-- What differs in neither the blocks nor the file tables.
pub record SameFiles (k k' : Kernel) : Type 0 where
  pub ft : k'.ft ≡ k.ft
  pub freelist : k'.fcb_freelist ≡ k.fcb_freelist
  pub fidt : (p : ℕ) → (k'.pt p).fidt ≡ (k.pt p).fidt
  pub current : k'.curproc ≡ k.curproc

pub SameFiles-trans : {k k' k'' : Kernel} → SameFiles k k' → SameFiles k' k'' → SameFiles k k''
SameFiles-trans a b = record {
  ft = b.ft ∙ a.ft;
  freelist = b.freelist ∙ a.freelist;
  fidt = λ p. b.fidt p ∙ a.fidt p;
  current = b.current ∙ a.current;
}

pub SameFiles-Exact :
    {held : List ℕ} {k k' : Kernel} → SameFiles k k' → Exact held k → Exact held k'
SameFiles-Exact {k} {k'} s c = record {
  distinct = rw s.freelist c.distinct;
  distinct_fresh = tt;
  few = c.few;
  blocks = λ f. ground (arith, c.blocks f, s.ft, s.freelist, refs-same k.pt k'.pt f s.fidt);
}

-- A change of process `p` outside its file table.
pub set_pcb-SameFiles :
    (p : ℕ) (pcb : Pcb) (k : Kernel) → pcb.fidt ≡ (k.pt p).fidt → SameFiles k (set_pcb p pcb k)
set_pcb-SameFiles p pcb k e = record {
  ft = refl;
  freelist = refl;
  fidt = λ q. ground arith;
  current = refl;
}

-- A write of what an entry already holds.
set_fid-SameFiles :
    (p i : ℕ) (v : Option ℕ) (k : Kernel) → (k.pt p).fidt i ≡ v → SameFiles k (set_fid p i v k)
unfolding set_fid
set_fid-SameFiles p i v k e = set_pcb-SameFiles p _ k (fun_ext λ j. ground arith)

-- Only entry `i` of process `p` may differ, and the same process runs.
pub record Entry (p i : ℕ) (k k' : Kernel) : Type 0 where
  pub current : k'.curproc ≡ k.curproc
  pub others : (q j : ℕ) → (q ≢ p) ⊎ (j ≢ i) → (k'.pt q).fidt j ≡ (k.pt q).fidt j

pub inherit_one-Entry : (p i : ℕ) (o : Option ℕ) (k : Kernel) → Entry p i k (inherit_one p i o k)
unfolding inherit_one fcb_incref set_fid
inherit_one-Entry p i none k = record { current = refl; others = λ q j h. ground arith }
inherit_one-Entry p i (some f) k = record { current = refl; others = λ q j h. ground arith }

close_one-Entry : (i : ℕ) (o : Option ℕ) (k : Kernel) → Entry k.curproc i k (close_one i o k)
unfolding close_one fcb_decref set_fid
close_one-Entry i none k = record { current = refl; others = λ q j h. refl }
close_one-Entry i (some f) k = record { current = ground arith; others = λ q j h. ground arith }

close_one-none : (i : ℕ) (k : Kernel) → (cur (close_one i ((cur k).fidt i) k)).fidt i ≡ none
close_one-none i k = closed _ refl
  where
    closed : (o : Option ℕ) → (cur k).fidt i ≡ o → (cur (close_one i o k)).fidt i ≡ none
    closed none e = unfold close_one in e
    closed (some f) e = unfold close_one fcb_decref set_fid in ground arith

Entry-Ready :
    {held : List ℕ} {p i : ℕ} {k k' : Kernel} → Entry p i k k' → Ready held k → Ready held k'
Entry-Ready en r = record { room = r.room; current = rw en.current r.current }

module _ {held : List ℕ} where
  fcb_incref-Exact :
      (f : ℕ) {k : Kernel}
      → Exact held k
      → Counted.is_free k f ≡ false
      → f < max_files
      → Ready held k
      → Exact (f ∷ held) (fcb_incref f k)
  unfolding erase
  fcb_incref-Exact f c used lt r = Counted.fcb_incref-Counted c f used lt r.room

  inherit_one-Exact :
      (p i : ℕ) (o : Option ℕ) (k : Kernel)
      → p < max_proc
      → i < max_fileid
      → Ready held k
      → (k.pt p).fidt i ≡ none
      → (cur k).fidt i ≡ o
      → Exact held k
      → Exact held (inherit_one p i o k)
  unfolding inherit_one
  inherit_one-Exact p i none k hp hi r e e' c = SameFiles-Exact (set_fid-SameFiles p i none k e) c
  inherit_one-Exact p i (some f) k hp hi r e e' c =
      let used = Counted.entry-used c k.curproc i r.current hi e' in
      rw (fcb_incref-set_fid f p i (some f) k) (
        drop_held f (
          Counted.set_fid-Counted (fcb_incref-Exact f c used.0 used.2 r) p i hp hi f
            (unfold fcb_incref in e) (ground arith)))

  pub inherit_files-Exact :
      (rounds i p : ℕ) (k : Kernel)
      → i + rounds ≡ max_fileid
      → p < max_proc
      → p ≢ k.curproc
      → Ready held k
      → ((j : ℕ) → i ≤ j → (k.pt p).fidt j ≡ none)
      → Exact held k
      → Exact held (inherit_files rounds i p k)
  unfolding inherit_files
  inherit_files-Exact zero i p k e hp ne r empty c = c
  inherit_files-Exact (suc rounds) i p k e hp ne r empty c =
      inherit_files-Exact rounds (i + 1) p _ (omega arith) hp (rw en.current ne) (Entry-Ready en r)
        (λ j h. en.others p j (inr (omega arith)) ∙ empty j (omega arith))
        (inherit_one-Exact p i _ k hp (omega arith) r (empty i (omega arith)) refl c)
    where
      en : Entry p i k (inherit_one p i ((cur k).fidt i) k)
      en = inherit_one-Entry p i _ k

  close_one-Exact :
      (i : ℕ) (o : Option ℕ) (k : Kernel)
      → i < max_fileid
      → Ready held k
      → (cur k).fidt i ≡ o
      → Exact held k
      → Exact held (close_one i o k)
  unfolding close_one
  close_one-Exact i none k hi r e c = c
  close_one-Exact i (some f) k hi r e c = rw (← fcb_decref-set_fid f k.curproc i none k) (
      drop_held f (
        Counted.fcb_decref-Counted
          (Counted.set_fid-none-Counted c k.curproc i r.current hi e r.room) f (ground arith)))

  -- After the loop of Exit the counts are exact and the caller has no open file.
  pub close_files-Exact :
      (rounds i : ℕ) (k : Kernel)
      → i + rounds ≡ max_fileid
      → Ready held k
      → ((j : ℕ) → j < i → (cur k).fidt j ≡ none)
      → Exact held k
      → Exact held (close_files rounds i k)
        × ((j : ℕ) → j < max_fileid → (cur (close_files rounds i k)).fidt j ≡ none)
  unfolding close_files
  close_files-Exact zero i k e r closed c = (c, λ j h. closed j (omega arith))
  close_files-Exact (suc rounds) i k e r closed c =
      close_files-Exact rounds (i + 1) _ (omega arith) (Entry-Ready en r) closed'
        (close_one-Exact i _ k (omega arith) r refl c)
    where
      en : Entry k.curproc i k (close_one i ((cur k).fidt i) k)
      en = close_one-Entry i _ k

      closed' : (j : ℕ) → j < i + 1 → (cur (close_one i ((cur k).fidt i) k)).fidt j ≡ none
      closed' j h = elim (Bool-cases (j == i)) [
        | inl same ↦ let e' : j ≡ i = ground arith in rw e' (close_one-none i k)
        | inr other ↦
            rw en.current (en.others k.curproc j (inr (ground arith)) ∙ closed j (ground arith))
      ]

pub close_files-current : (rounds i : ℕ) (k : Kernel) → (close_files rounds i k).curproc ≡ k.curproc
unfolding close_files
close_files-current zero i k = refl
close_files-current (suc rounds) i k =
    close_files-current rounds (i + 1) _ ∙ (close_one-Entry i _ k).current
