-- ===== src/Proc/Files/Shares.antt =====
-- The open files that a child has from its parent (sys_Exec of kernel_proc.c).
use tiny_os.Prelude.{
  ℕ, zero, suc, ◌+◌, ◌<◌, ◌≡◌, refl, ◌≢◌, inl, inr, true, false, Option, none, some, List, arith,
  ◌==◌, Bool-cases, ap, ◌∙◌, leb, sym, subst,
}
use tiny_os.Kernel.{max_fileid, Kernel, cur, set_fid, set_pcb}
use tiny_os.Streams.{fcb_incref}
use tiny_os.Streams.Calls.{Exact, Ready}
use tiny_os.Proc.{
  acquire_at, acquire_pcb, adopt, inherit_one, inherit_files, set_parent, exec_at, sys_exec,
}
use tiny_os.Proc.Files.{SameFiles, SameFiles-trans, set_pcb-SameFiles, Entry, inherit_one-Entry}
use tiny_os.Proc.Files.Exec.{
  NextIsClosed, exec_rest-SameFiles, acquire_at-SameFiles, sys_exec-Exact,
}

inherit_one-entry : (p i : ℕ) (o : Option ℕ) (k : Kernel) → ((inherit_one p i o k).pt p).fidt i ≡ o
unfolding inherit_one fcb_incref set_fid
inherit_one-entry p i none k = ground arith
inherit_one-entry p i (some f) k = ground arith

-- The file table of process `p` is that of the running process, and no other one has changed.
record Shared (p : ℕ) (k k' : Kernel) : Type 0 where
  entries : (j : ℕ) → j < max_fileid → (k'.pt p).fidt j ≡ (cur k).fidt j
  others : (q j : ℕ) → q ≢ p → (k'.pt q).fidt j ≡ (k.pt q).fidt j

module _ (p i : ℕ) (k : Kernel) (ne : p ≢ k.curproc) where
  abbrev next : Kernel
  next = inherit_one p i ((cur k).fidt i) k

  en : Entry p i k next
  en = inherit_one-Entry p i ((cur k).fidt i) k

  own : (j : ℕ) → (cur next).fidt j ≡ (cur k).fidt j
  own j =
      ap (λ q. (next.pt q).fidt j) en.current
      ∙ en.others k.curproc j (inl (λ same. absurd (ne (sym same))))

  one_more :
      ((j : ℕ) → j < i → (k.pt p).fidt j ≡ (cur k).fidt j)
      → (j : ℕ) → j < i + 1
      → (next.pt p).fidt j ≡ (cur next).fidt j
  one_more done j lt = elim (Bool-cases (j == i)) [
    | inl same ↦
        let e' : j ≡ i = ground arith in
        subst (λ l. (next.pt p).fidt l ≡ (cur next).fidt l) (sym e')
          (inherit_one-entry p i ((cur k).fidt i) k ∙ sym (own i))
    | inr other ↦ en.others p j (inr (ground arith)) ∙ done j (ground arith) ∙ sym (own j)
  ]

  more-Shared : {k' : Kernel} → Shared p next k' → Shared p k k'
  more-Shared rest = record {
    entries = λ j lt. rest.entries j lt ∙ own j;
    others = λ q j other. rest.others q j other ∙ en.others q j (inl other);
  }

inherit_files-Shared :
    (rounds i p : ℕ) (k : Kernel)
    → i + rounds ≡ max_fileid
    → p ≢ k.curproc
    → ((j : ℕ) → j < i → (k.pt p).fidt j ≡ (cur k).fidt j)
    → Shared p k (inherit_files rounds i p k)
unfolding inherit_files
inherit_files-Shared zero i p k e ne done = record {
  entries = λ j lt. done j (omega (arith, e, lt));
  others = λ q j other. refl;
}
inherit_files-Shared (suc rounds) i p k e ne done = more-Shared p i k ne (
    inherit_files-Shared rounds (i + 1) p (next p i k ne) (omega (arith, e))
      (λ same. absurd (ne (same ∙ (en p i k ne).current))) (one_more p i k ne done))

-- The child `p` of an Exec: its file table is the caller's, but for processes 0 and 1, which have no
-- open file; and no other file table has changed.
pub record Inherits (p : ℕ) (k k' : Kernel) : Type 0 where
  pub child : leb p 1 ≡ false → (i : ℕ) → i < max_fileid → (k'.pt p).fidt i ≡ (cur k).fidt i
  pub first : leb p 1 ≡ true → (i : ℕ) → (k'.pt p).fidt i ≡ none
  pub others : (q i : ℕ) → q ≢ p → (k'.pt q).fidt i ≡ (k.pt q).fidt i

adopt-SameFiles : (p : ℕ) (k : Kernel) → SameFiles k (adopt p k)
unfolding adopt
adopt-SameFiles p k =
    SameFiles-trans (set_pcb-SameFiles p (record (k.pt p) { parent = some k.curproc }) k refl)
      (set_pcb-SameFiles k.curproc _ _ refl)

later-Inherits :
    (p : ℕ) (k : Kernel)
    → p ≢ k.curproc
    → leb p 1 ≡ false
    → Inherits p k (inherit_files max_fileid 0 p (adopt p k))
later-Inherits p k ne later =
    let s : SameFiles k (adopt p k) = adopt-SameFiles p k in
    let h : Shared p (adopt p k) (inherit_files max_fileid 0 p (adopt p k)) =
      inherit_files-Shared max_fileid 0 p (adopt p k) (omega arith)
        (λ same. absurd (ne (same ∙ s.current))) (λ j lt. absurd (omega (arith, lt))) in
    record {
      child = λ _ i lt.
          h.entries i lt
          ∙ ap (λ q. ((adopt p k).pt q).fidt i) s.current
          ∙ ap (λ t. t i) (s.fidt k.curproc);
      first = λ small. absurd (ground (arith, small, later));
      others = λ q i other. h.others q i other ∙ ap (λ t. t i) (s.fidt q);
    }

first-Inherits :
    (p : ℕ) (k : Kernel)
    → leb p 1 ≡ true
    → ((i : ℕ) → (k.pt p).fidt i ≡ none)
    → Inherits p k (set_pcb p (record (k.pt p) { parent = none }) k)
first-Inherits p k first closed =
    let s = set_pcb-SameFiles p (record (k.pt p) { parent = none }) k refl in
    record {
      child = λ later. absurd (ground (arith, first, later));
      first = λ small i. ap (λ t. t i) (s.fidt p) ∙ closed i;
      others = λ q i other. ap (λ t. t i) (s.fidt q);
    }

set_parent-Inherits :
    (p : ℕ) (k : Kernel)
    → p ≢ k.curproc
    → ((i : ℕ) → (k.pt p).fidt i ≡ none)
    → Inherits p k (set_parent p k)
unfolding set_parent
set_parent-Inherits p k ne closed = elim (Bool-cases (leb p 1)) [
  | inl first ↦ rw first (first-Inherits p k first closed)
  | inr later ↦ rw later (later-Inherits p k ne later)
]

SameFiles-Inherits :
    {p : ℕ} {k k1 k2 k3 : Kernel}
    → SameFiles k k1
    → Inherits p k1 k2
    → SameFiles k2 k3
    → Inherits p k k3
SameFiles-Inherits {p} {k} {k1} {k2} {k3} a h b = record {
  child = λ later i lt.
      ap (λ t. t i) (b.fidt p)
      ∙ h.child later i lt
      ∙ ap (λ q. (k1.pt q).fidt i) a.current
      ∙ ap (λ t. t i) (a.fidt k.curproc);
  first = λ small i. ap (λ t. t i) (b.fidt p) ∙ h.first small i;
  others = λ q i other. ap (λ t. t i) (b.fidt q) ∙ h.others q i other ∙ ap (λ t. t i) (a.fidt q);
}

exec-Inherits :
    {k : Kernel} (call : Option ℕ) (argl : ℕ) (args : Option (List ℕ))
    → NextIsClosed k
    → (p : ℕ) → k.pcb_freelist ≡ some p
    → Inherits p k (sys_exec call argl args k).1
unfolding sys_exec acquire_pcb exec_at
exec-Inherits {k} call argl args n p e =
    subst (λ o. Inherits p k (exec_at (acquire_at o k).0 call argl args (acquire_at o k).1).1)
      (sym e) taken
  where
    taken :
        Inherits p k (exec_at (acquire_at (some p) k).0 call argl args (acquire_at (some p) k).1).1
    taken =
        let s = acquire_at-SameFiles (some p) k in
        let (lt, ne, closed) = n.next p e in
        SameFiles-Inherits s
          (set_parent-Inherits p (acquire_at (some p) k).1 (λ same. absurd (ne (same ∙ s.current)))
            (λ i. ap (λ t. t i) (s.fidt p) ∙ closed i))
          (exec_rest-SameFiles p call argl args _)

-- If the next free process has an empty file table, then after Exec the counts are exact, and the file
-- table of the process that it takes is the caller's, or is still empty if it is process 0 or 1; no
-- other file table has changed.
pub sys_exec-Shares :
    {held : List ℕ} {k : Kernel} (call : Option ℕ) (argl : ℕ) (args : Option (List ℕ))
    → Exact held k
    → Ready held k
    → NextIsClosed k
    → Exact held (sys_exec call argl args k).1
      × ((p : ℕ) → k.pcb_freelist ≡ some p → Inherits p k (sys_exec call argl args k).1)
sys_exec-Shares call argl args c r n =
    (sys_exec-Exact call argl args c r n, exec-Inherits call argl args n)
