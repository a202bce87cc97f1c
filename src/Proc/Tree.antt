-- ===== src/Proc/Tree.antt =====
-- The tree of processes in the table of kernel_proc.c: `parent`, `children_list` and `exited_list`.
pub mod Exec
use tiny_os.Prelude.{
  ℕ, zero, suc, ◌+◌, ◌<◌, ◌≡◌, refl, true, false, Option, none, some, List, [], ◌∷◌, arith, ◌==◌,
  has, Distinct, Bool-cases, sym, subst, ◌∙◌, inl, inr, has-erase_ne, has-erase_self,
  Distinct-erase, leb,
}
use tiny_os.Streams.{fcb_incref, fcb_decref}
use tiny_os.Kernel.{max_fileid, set_fid, alive, zombie, Kernel, Pcb, cur, set_pcb}
use tiny_os.Proc.{
  acquire_at, acquire_pcb, adopt, inherit_one, inherit_files, set_parent, set_task, start_thread,
  exec_at, sys_exec, release_pcb, cleanup_zombie,
}
use tiny_os.Proc.Table.{is_free, Chain, Table}

-- What the tree says of a pair of processes.
pub record Pair (pt : ℕ → Pcb) (p c : ℕ) : Type 0 where
  pub child_of :
      has c (pt p).children_list ≡ true → (is_free (pt c).pstate ≡ false) × ((pt c).parent ≡ some p)
  pub of_child :
      is_free (pt c).pstate ≡ false → (pt c).parent ≡ some p → has c (pt p).children_list ≡ true
  pub exited_of :
      has c (pt p).exited_list ≡ true → ((pt c).pstate ≡ zombie) × ((pt c).parent ≡ some p)
  pub of_exited : (pt c).pstate ≡ zombie → (pt c).parent ≡ some p → has c (pt p).exited_list ≡ true
  -- A parent lives, it is another process, and process 1 has none.
  pub parent_alive :
      is_free (pt c).pstate ≡ false
      → (pt c).parent ≡ some p
      → ((pt p).pstate ≡ alive) × ((c == p) ≡ false) × ((c == 1) ≡ false)

pub record Tree (k : Kernel) : Type 0 where
  pub running : (cur k).pstate ≡ alive
  pub children : (p : ℕ) → Distinct (k.pt p).children_list
  pub exited : (p : ℕ) → Distinct (k.pt p).exited_list
  pub pairs : (p c : ℕ) → Pair k.pt p c

-- The same without a word on the running process.
pub record Forest (pt : ℕ → Pcb) : Type 0 where
  pub children : (p : ℕ) → Distinct (pt p).children_list
  pub exited : (p : ℕ) → Distinct (pt p).exited_list
  pub pairs : (p c : ℕ) → Pair pt p c

module _ {k : Kernel} (t : Tree k) where
  -- Exec of a process that gets a parent.
  pub adopt-Tree :
      (p : ℕ)
      → is_free (k.pt p).pstate ≡ true
      → leb p 1 ≡ false
      → Tree (adopt p (acquire_at (some p) k).1)
  unfolding adopt acquire_at
  adopt-Tree p f later = record {
    running = ground (arith, t.running);
    children = λ q. ground (arith, t.children q, t.children p, t.pairs k.curproc p, t.running);
    exited = λ q. ground (arith, t.exited q);
    pairs = λ q c.
        ground (arith, t.pairs q c, t.running, t.pairs p c, t.pairs k.curproc c, t.pairs q p);
  }

  -- Exec of process 0 or 1.
  pub orphan-Tree :
      (p : ℕ)
      → is_free (k.pt p).pstate ≡ true
      → let k' = (acquire_at (some p) k).1 in
        Tree (set_pcb p (record (k'.pt p) { parent = none }) k')
  unfolding acquire_at
  orphan-Tree p f = record {
    running = ground (arith, t.running);
    children = λ q. ground (arith, t.children q);
    exited = λ q. ground (arith, t.exited q);
    pairs = λ q c. ground (arith, t.pairs q c, t.pairs p c, t.pairs q p);
  }

  -- WaitChild of an exited child.
  pub cleanup_zombie-Tree :
      (c : ℕ)
      → (k.pt c).pstate ≡ zombie
      → (k.pt c).parent ≡ some k.curproc
      → Tree (cleanup_zombie c k)
  unfolding cleanup_zombie release_pcb
  cleanup_zombie-Tree c z mine = record {
    running = ground (arith, t.running);
    children =
        λ q. ground (arith, t.children q, Distinct-erase c (k.pt q).children_list, t.running);
    exited = λ q. ground (arith, t.exited q, Distinct-erase c (k.pt q).exited_list, t.running);
    pairs = λ q d. elim (Bool-cases (d == c)) [
      | inl same ↦ ground (
        arith,
        t.pairs q d,
        t.running,
        t.pairs k.curproc d,
        has-erase_self c (k.pt q).children_list (t.children q),
        has-erase_self c (k.pt q).exited_list (t.exited q),
      )
      | inr other ↦ ground (
        arith,
        t.pairs q d,
        t.running,
        t.pairs q c,
        has-erase_ne d c (k.pt q).children_list other,
        has-erase_ne d c (k.pt q).exited_list other,
      )
    ];
  }

-- What the tree does not see.
pub record SameTree (k k' : Kernel) : Type 0 where
  pub current : k'.curproc ≡ k.curproc
  pub pstate : (p : ℕ) → (k'.pt p).pstate ≡ (k.pt p).pstate
  pub parent : (p : ℕ) → (k'.pt p).parent ≡ (k.pt p).parent
  pub children : (p : ℕ) → (k'.pt p).children_list ≡ (k.pt p).children_list
  pub exited : (p : ℕ) → (k'.pt p).exited_list ≡ (k.pt p).exited_list

pub SameTree-refl : (k : Kernel) → SameTree k k
SameTree-refl k = record {
  current = refl;
  pstate = λ p. refl;
  parent = λ p. refl;
  children = λ p. refl;
  exited = λ p. refl;
}

pub SameTree-trans : {k k' k'' : Kernel} → SameTree k k' → SameTree k' k'' → SameTree k k''
SameTree-trans a b = record {
  current = b.current ∙ a.current;
  pstate = λ p. b.pstate p ∙ a.pstate p;
  parent = λ p. b.parent p ∙ a.parent p;
  children = λ p. b.children p ∙ a.children p;
  exited = λ p. b.exited p ∙ a.exited p;
}

pub SameTree-Tree : {k k' : Kernel} → SameTree k k' → Tree k → Tree k'
SameTree-Tree {k} {k'} s t = record {
  running = ground (arith, t.running, s.current, s.pstate k'.curproc);
  children = λ p. rw (s.children p) (t.children p);
  exited = λ p. rw (s.exited p) (t.exited p);
  pairs = λ p c.
      ground (arith, t.pairs p c, s.pstate p, s.pstate c, s.parent c, s.children p, s.exited p);
}

pub set_fid-SameTree : (p i : ℕ) (v : Option ℕ) (k : Kernel) → SameTree k (set_fid p i v k)
unfolding set_fid
set_fid-SameTree p i v k = record {
  current = refl;
  pstate = λ q. ground arith;
  parent = λ q. ground arith;
  children = λ q. ground arith;
  exited = λ q. ground arith;
}

pub fcb_incref-SameTree : (f : ℕ) (k : Kernel) → SameTree k (fcb_incref f k)
unfolding fcb_incref
fcb_incref-SameTree f k = SameTree-trans {k' = k} (SameTree-refl k) (record {
  current = refl;
  pstate = λ p. refl;
  parent = λ p. refl;
  children = λ p. refl;
  exited = λ p. refl;
})

pub fcb_decref-SameTree : (f : ℕ) (k : Kernel) → SameTree k (fcb_decref f k).1
unfolding fcb_decref
fcb_decref-SameTree f k = record {
  current = ground arith;
  pstate = λ p. ground arith;
  parent = λ p. ground arith;
  children = λ p. ground arith;
  exited = λ p. ground arith;
}
