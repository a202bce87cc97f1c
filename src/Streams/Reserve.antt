-- ===== src/Streams/Reserve.antt =====
-- FCB_reserve of kernel_streams.c.
pub mod Find
pub mod Alloc
use tiny_os.Prelude.{
  ℕ, zero, suc, ◌+◌, ◌-◌, ◌≤◌, ◌<◌, ◌≡◌, refl, ◌⊎◌, inl, inr, true, false, Option, none, some, List,
  [], ◌∷◌, ◌++◌, reverse, arith, ◌==◌, ◌&&◌, has, Distinct, length, Bool-cases, Option-cases,
  update, if◌then◌else◌, erase, is_none, is_none→eq, ◌∙◌, Distinct-reverse, has-reverse, ==_refl,
  length-reverse, reverse_aux_lem, reverse_aux, append-nil, append_assoc, sym, ap,
}
use tiny_os.Kernel.{max_fileid, Kernel, cur, set_fid}
use tiny_os.Streams.{fcb_incref, alloc_fcbs, install_fcbs, finish_reserve, reserve_at, fcb_reserve}
use tiny_os.Streams.Counted
use tiny_os.Streams.Counted.{Counted}
use tiny_os.Streams.Calls.{Exact, Ready, drop_held, drop_fresh}
use tiny_os.Streams.Reserve.Find.{empty_entries, FreeIds, Found, find_fids-Found, FreeIds-update}
use tiny_os.Streams.Reserve.Alloc.{Allocated, Outcome, alloc_fcbs-Allocated, alloc_fcbs-Outcome}

-- The last loop: each id gets its block, whose count becomes 1.
install_fcbs-Exact :
    {held : List ℕ} (lo : ℕ) (fids fcbs : List ℕ) (k : Kernel)
    → Ready held k
    → length fids ≡ length fcbs
    → FreeIds (cur k).fidt lo fids
    → Counted fcbs held k
    → Exact held (install_fcbs fids fcbs k)
unfolding install_fcbs erase
install_fcbs-Exact lo [] [] k r same free c = c
install_fcbs-Exact lo [] (f ∷ fcbs) k r same free c = absurd (omega arith)
install_fcbs-Exact lo (i ∷ fids) [] k r same free c = absurd (omega arith)
install_fcbs-Exact {held} lo (i ∷ fids) (f ∷ fcbs) k r same free c =
    install_fcbs-Exact (i + 1) fids fcbs _ r' (omega arith) free' stored
  where
    b : Counted.BlockOk (f ∷ fcbs) held k f
    b = c.blocks f

    counted : Counted fcbs (f ∷ held) (fcb_incref f k)
    counted =
        drop_fresh f (Counted.fcb_incref-Counted c f (ground (arith, b)) (ground (arith, b)) r.room)

    stored : Counted fcbs held (fcb_incref f (set_fid k.curproc i (some f) k))
    stored =
        unfold fcb_incref set_fid in
        drop_held f (
          Counted.set_fid-Counted counted k.curproc i r.current free.1 f
            (unfold fcb_incref in free.2) (ground arith))

    r' : Ready held (fcb_incref f (set_fid k.curproc i (some f) k))
    r' = unfold fcb_incref set_fid in record { room = r.room; current = r.current }

    free' : FreeIds (cur (fcb_incref f (set_fid k.curproc i (some f) k))).fidt (i + 1) fids
    free' =
        unfold fcb_incref set_fid in
        rw (==_refl k.curproc)
          (FreeIds-update (cur k).fidt i (some f) (i + 1) fids (omega arith) free.3)

-- Reservation keeps the counts exact, whether it succeeds or fails.
pub fcb_reserve-Exact :
    {held : List ℕ} {k : Kernel} (num : ℕ)
    → Exact held k
    → Ready held k
    → Exact held (fcb_reserve num k).1
unfolding fcb_reserve
fcb_reserve-Exact {held} {k} num c r = reserved _ (find_fids-Found num (cur k).fidt 0 (omega arith))
  where
    installed :
        (fids : List ℕ) (o : Option (List ℕ)) (k' : Kernel)
        → FreeIds (cur k).fidt 0 fids
        → length fids ≡ num
        → Allocated held o k'
        → Outcome num [] k o k'
        → Exact held (finish_reserve fids o k').1
    installed fids none k' free len c' out = c'
    installed fids (some fcbs) k' free len c' (len', same, same_cur, _) =
        install_fcbs-Exact 0 fids fcbs k'
          (record { room = r.room; current = rw same_cur r.current }) (omega (arith, len, len'))
          (rw (same, same_cur) free) c'

    reserved :
        (o : Option (List ℕ)) → Found num (cur k).fidt 0 o → Exact held (reserve_at num o k).1
    reserved none found = c
    reserved (some fids) found =
        installed fids _ _ found.1 found.0 (alloc_fcbs-Allocated num [] k c)
          (alloc_fcbs-Outcome num [] k.fcb_freelist k refl)

install_fcbs_free :
    (fids fcbs : List ℕ) (k : Kernel) → (install_fcbs fids fcbs k).fcb_freelist ≡ k.fcb_freelist
unfolding install_fcbs fcb_incref set_fid
install_fcbs_free [] fcbs k = refl
install_fcbs_free (i ∷ fids) [] k = refl
install_fcbs_free (i ∷ fids) (f ∷ fcbs) k =
    install_fcbs_free fids fcbs (fcb_incref f (set_fid k.curproc i (some f) k))

-- The ids have the blocks, in order.
abbrev pub Entries : List ℕ → List ℕ → (ℕ → Option ℕ) → Type 0
Entries [] fcbs t = Unit {0}
Entries (i ∷ fids) [] t = ⊥
Entries (i ∷ fids) (f ∷ fcbs) t = (t i ≡ some f) × Entries fids fcbs t

-- The running process has the blocks at these ids, and no other entry of a file table has changed.
pub record Installed (fids fcbs : List ℕ) (k k' : Kernel) : Type 0 where
  pub current : k'.curproc ≡ k.curproc
  pub entries : Entries fids fcbs (cur k').fidt
  pub others :
      (q j : ℕ) → ((k.curproc == q) && has j fids) ≡ false → (k'.pt q).fidt j ≡ (k.pt q).fidt j

FreeIds-above :
    (t : ℕ → Option ℕ) (lo j : ℕ) (fids : List ℕ) → j < lo → FreeIds t lo fids → has j fids ≡ false
FreeIds-above t lo j [] lt free = refl
FreeIds-above t lo j (i ∷ fids) lt free =
    ground (arith, free.0, FreeIds-above t (i + 1) j fids (omega (arith, lt, free.0)) free.3)

install_fcbs-Installed :
    (lo : ℕ) (fids fcbs : List ℕ) (k : Kernel)
    → length fids ≡ length fcbs
    → FreeIds (cur k).fidt lo fids
    → Installed fids fcbs k (install_fcbs fids fcbs k)
unfolding install_fcbs fcb_incref set_fid
install_fcbs-Installed lo [] [] k same free = record {
  current = refl;
  entries = tt;
  others = λ q j out. refl;
}
install_fcbs-Installed lo [] (f ∷ fcbs) k same free = absurd (omega arith)
install_fcbs-Installed lo (i ∷ fids) [] k same free = absurd (omega arith)
install_fcbs-Installed lo (i ∷ fids) (f ∷ fcbs) k same free =
    let k1 : Kernel = fcb_incref f (set_fid k.curproc i (some f) k) in
    let free1 : FreeIds (cur k1).fidt (i + 1) fids =
      rw (==_refl k.curproc)
        (FreeIds-update (cur k).fidt i (some f) (i + 1) fids (omega arith) free.3) in
    let rest : Installed fids fcbs k1 (install_fcbs fids fcbs k1) =
      install_fcbs-Installed (i + 1) fids fcbs k1 (omega arith) free1 in
    let kept : has i fids ≡ false =
      FreeIds-above (cur k1).fidt (i + 1) i fids (omega arith) free1 in
    record {
      current = rest.current;
      entries = (
        ap (λ q. ((install_fcbs fids fcbs k1).pt q).fidt i) rest.current
            ∙ rest.others k.curproc i (ground (arith, kept))
            ∙ ground arith,
        rest.entries,
      );
      others = λ q j out. rest.others q j (ground (arith, out)) ∙ ground (arith, out);
    }

Installed-from :
    {fids fcbs : List ℕ} {k k1 k' : Kernel}
    → k1.pt ≡ k.pt
    → k1.curproc ≡ k.curproc
    → Installed fids fcbs k1 k'
    → Installed fids fcbs k k'
Installed-from {fids} {fcbs} {k} {k1} {k'} pt current h = record {
  current = h.current ∙ current;
  entries = h.entries;
  others = λ q j out. h.others q j (rw current out) ∙ ap (λ t. (t q).fidt j) pt;
}

-- The outcomes of a reservation of `num` ids: a failure for want of ids, one for want of blocks, and
-- success.
abbrev pub Reserved : ℕ → Kernel → Option (List ℕ × List ℕ) → Kernel → Type 0
Reserved num k none k' =
    ((empty_entries max_fileid (cur k).fidt 0 < num) × (k' ≡ k))
    ⊎ ((length k.fcb_freelist < num) × (k'.pt ≡ k.pt) × (k'.fcb_freelist ≡ reverse k.fcb_freelist))
Reserved num k (some (fids, fcbs)) k' =
    (length fids ≡ num)
    × FreeIds (cur k).fidt 0 fids
    × (length fcbs ≡ num)
    × (num ≤ empty_entries max_fileid (cur k).fidt 0)
    × (k.fcb_freelist ≡ fcbs ++ k'.fcb_freelist)
    × Installed fids fcbs k k'

pub fcb_reserve-any :
    (num : ℕ) (k : Kernel) → Reserved num k (fcb_reserve num k).0 (fcb_reserve num k).1
unfolding fcb_reserve
fcb_reserve-any num k = reserved _ (find_fids-Found num (cur k).fidt 0 (omega arith))
  where
    installed :
        (fids : List ℕ) (o : Option (List ℕ)) (k' : Kernel)
        → Found num (cur k).fidt 0 (some fids)
        → Outcome num [] k o k'
        → Reserved num k (finish_reserve fids o k').0 (finish_reserve fids o k').1
    installed fids none k' found (few, same, _, turned) = inr (few, same, turned)
    installed fids (some fcbs) k' (len, free, enough) (len', same, same_cur, taken) = (
      len,
      free,
      omega (arith, len'),
      enough,
      taken ∙ ap (λ l. fcbs ++ l) (sym (install_fcbs_free fids fcbs k')),
      Installed-from same same_cur (
          install_fcbs-Installed 0 fids fcbs k' (omega (arith, len, len'))
            (rw (same, same_cur) free)),
    )

    reserved :
        (o : Option (List ℕ))
        → Found num (cur k).fidt 0 o
        → Reserved num k (reserve_at num o k).0 (reserve_at num o k).1
    reserved none found = inl (found, refl)
    reserved (some fids) found =
        installed fids _ _ found (alloc_fcbs-Outcome num [] k.fcb_freelist k refl)

-- Where the reference counts are exact, they are exact after FCB_reserve. It fails with nothing changed
-- if the process has less than `num` empty entries, and with the free list turned round and the file
-- tables unchanged if less than `num` blocks are free. Else it returns `num` increasing ids that were
-- empty, and the first `num` free blocks; the entries of the running process at these ids are the blocks,
-- in order, and no other entry of a file table has changed.
pub fcb_reserve-Reserved :
    {held : List ℕ} {k : Kernel} (num : ℕ)
    → Exact held k
    → Ready held k
    → Exact held (fcb_reserve num k).1 × Reserved num k (fcb_reserve num k).0 (fcb_reserve num k).1
fcb_reserve-Reserved {held} {k} num c r = (fcb_reserve-Exact num c r, fcb_reserve-any num k)
