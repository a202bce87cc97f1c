-- ===== src/Streams/Open.antt =====
-- The outcomes of open_stream of kernel_streams.c, on which sys_OpenNull and sys_OpenTerminal stand.
use tiny_os.Prelude.{
  ℕ, ◌≤◌, ◌<◌, ◌≡◌, refl, ◌≢◌, ◌⊎◌, inl, inr, Bool, true, false, Option, none, some, List, [], ◌∷◌,
  ◌++◌, arith, ℤ, pos, minus_one, leb, Distinct-append_one, has-append,
}
use tiny_os.Kernel.{FileOps, max_fileid, DeviceType, Kernel, cur, set_fid}
use tiny_os.Streams.{
  acquire_from, fcb_incref, alloc_fcbs, alloc_next, release_all, install_fcbs, release_fcb,
  reserve_at, fcb_reserve, fcb_unreserve, fops_of, open_method, device_open, open_reserved,
  open_with, open_stream,
}
use tiny_os.Streams.Counts.{refs-set_fid}
use tiny_os.Streams.Calls.{Exact, Ready}
use tiny_os.Streams.Reserve.{fcb_reserve-Exact}
use tiny_os.Streams.Reserve.Find.{empty_entries, Found, find_fids-Found}
use tiny_os.Streams.Reserve.Alloc.{acquire_fcb-nil, acquire_fcb-cons}

-- The state after a reservation of entry `i` and block `f`, the head of the free list.
unfoldable pub reserved : ℕ → ℕ → List ℕ → Kernel → Kernel
reserved i f fl k = fcb_incref f (set_fid k.curproc i (some f) (acquire_from (f ∷ fl) k).1)

-- FCB_reserve for one id.
abbrev pub One : Kernel → Option (List ℕ × List ℕ) → Kernel → Type 0
One k none k' = (k' ≡ k) × ((empty_entries max_fileid (cur k).fidt 0 ≡ 0) ⊎ (k.fcb_freelist ≡ []))
One k (some (i ∷ [], f ∷ [])) k' =
    (i < max_fileid)
    × ((cur k).fidt i ≡ none)
    × (fl : List ℕ) × (k.fcb_freelist ≡ f ∷ fl)
    × (k' ≡ reserved i f fl k)
One k (some (_, _)) k' = ⊥

reserve_at-One :
    (o : Option (List ℕ)) (fl : List ℕ) (k : Kernel)
    → Found 1 (cur k).fidt 0 o
    → k.fcb_freelist ≡ fl
    → One k (reserve_at 1 o k).0 (reserve_at 1 o k).1
unfolding reserve_at alloc_fcbs alloc_next release_all install_fcbs reserved acquire_from
reserve_at-One none fl k found e = (refl, inl (omega (arith, found)))
reserve_at-One (some []) fl k found e = absurd (omega arith)
reserve_at-One (some (i ∷ j ∷ fids)) fl k found e = absurd (omega arith)
reserve_at-One (some (i ∷ [])) [] k found e = rw (acquire_fcb-nil k e) (refl, inr e)
reserve_at-One (some (i ∷ [])) (f ∷ fl) k found e =
    rw (acquire_fcb-cons k f fl e) (found.1.1, found.1.2, fl, e, refl)

pub fcb_reserve-One : (k : Kernel) → One k (fcb_reserve 1 k).0 (fcb_reserve 1 k).1
unfolding fcb_reserve
fcb_reserve-One k =
    reserve_at-One _ k.fcb_freelist k (find_fids-Found 1 (cur k).fidt 0 (omega arith)) refl

-- The outcomes of open_stream, with its result and the state that it leaves.
pub data Opened (major : DeviceType) (minor : ℕ) (k : Kernel) : ℤ → Kernel → Type 0 where
  -- No empty entry, or no free block: nothing changes.
  exhausted :
      (empty_entries max_fileid (cur k).fidt 0 ≡ 0) ⊎ (k.fcb_freelist ≡ [])
      → Opened major minor k minus_one k
  -- No such device: all entries are as before, and the block goes to the end of the free list.
  no_device :
      {k' : Kernel} (f : ℕ) (fl : List ℕ)
      → k.devnum major ≤ minor
      → k.fcb_freelist ≡ f ∷ fl
      → k'.fcb_freelist ≡ fl ++ f ∷ []
      → ((p m : ℕ) → (k'.pt p).fidt m ≡ (k.pt p).fidt m)
      → Opened major minor k minus_one k'
  -- An entry that was empty refers to the first free block, which has the device and count 1.
  opened :
      {k' : Kernel} (i f : ℕ) (fl : List ℕ)
      → minor < k.devnum major
      → i < max_fileid
      → (cur k).fidt i ≡ none
      → (cur k').fidt i ≡ some f
      → ((p m : ℕ) → (p ≢ k.curproc) ⊎ (m ≢ i) → (k'.pt p).fidt m ≡ (k.pt p).fidt m)
      → k.fcb_freelist ≡ f ∷ fl
      → k'.fcb_freelist ≡ fl
      → k'.ft f
        ≡ record { refcount = 1; streamobj = open_method major minor; streamfunc = fops_of major }
      → Opened major minor k (pos i) k'

open_one-Opened :
    (major : DeviceType) (minor : ℕ) (k : Kernel) (i f : ℕ) (fl : List ℕ)
    → i < max_fileid
    → (cur k).fidt i ≡ none
    → k.fcb_freelist ≡ f ∷ fl
    → (b : Bool) → leb (k.devnum major) minor ≡ b
    → Opened major minor k
        (open_with major minor (some (i ∷ [], f ∷ [])) (reserved i f fl k)).0
        (open_with major minor (some (i ∷ [], f ∷ [])) (reserved i f fl k)).1
unfolding open_with open_reserved device_open reserved fcb_unreserve release_fcb fcb_incref set_fid
    acquire_from
open_one-Opened major minor k i f fl lt e free true bad =
    rw bad (no_device f fl (ground arith) free refl (λ p m. ground arith))
open_one-Opened major minor k i f fl lt e free false good = rw good (
    opened i f fl (ground arith) lt e (ground arith) (λ p m o. ground arith) free refl
      (ground arith))

open_with-Opened :
    (major : DeviceType) (minor : ℕ) (k : Kernel) (o : Option (List ℕ × List ℕ)) (k' : Kernel)
    → One k o k'
    → Opened major minor k (open_with major minor o k').0 (open_with major minor o k').1
unfolding open_with
open_with-Opened major minor k none k' (same, why) = rw same (exhausted why)
open_with-Opened major minor k (some (i ∷ [], f ∷ [])) k' (lt, e, fl, free, same) =
    rw same (open_one-Opened major minor k i f fl lt e free _ refl)
open_with-Opened major minor k (some ([], _)) k' h = elim h [ ]
open_with-Opened major minor k (some (_ ∷ [], [])) k' h = elim h [ ]
open_with-Opened major minor k (some (_ ∷ [], _ ∷ _ ∷ _)) k' h = elim h [ ]
open_with-Opened major minor k (some (_ ∷ _ ∷ _, _)) k' h = elim h [ ]

-- open_stream ends in one of the outcomes of Opened: a full file table or no free block, and the
-- call fails; no such device, and the call fails and gives back the entry and the block; or an entry
-- that was empty refers to the first free block, which has the device and count 1.
pub open_stream-Opened :
    (major : DeviceType) (minor : ℕ) (k : Kernel)
    → Opened major minor k (open_stream major minor k).0 (open_stream major minor k).1
unfolding open_stream
open_stream-Opened major minor k = open_with-Opened major minor k _ _ (fcb_reserve-One k)

module _ {held : List ℕ} {k : Kernel} (c : Exact held k) (r : Ready held k) where
  -- The entry just reserved is given back.
  unreserve-Exact :
      (i f : ℕ) (fl : List ℕ)
      → i < max_fileid
      → (cur k).fidt i ≡ none
      → k.fcb_freelist ≡ f ∷ fl
      → Exact held (release_fcb f (set_fid k.curproc i none (reserved i f fl k)))
  unfolding release_fcb reserved fcb_incref set_fid acquire_from
  unreserve-Exact i f fl lt e free = record {
    distinct = ground (arith, c.distinct, has-append f fl (f ∷ []), Distinct-append_one fl f);
    distinct_fresh = tt;
    few = c.few;
    blocks = λ g. ground (
      arith,
      c.blocks g,
      c.distinct,
      has-append g fl (f ∷ []),
      refs-set_fid k k.curproc i (some f) r.current lt g,
      refs-set_fid (set_fid k.curproc i (some f) k) k.curproc i none r.current lt g,
    );
  }

  open_one-Exact :
      (major : DeviceType) (minor i f : ℕ) (fl : List ℕ)
      → i < max_fileid
      → (cur k).fidt i ≡ none
      → k.fcb_freelist ≡ f ∷ fl
      → Exact held (reserved i f fl k)
      → (b : Bool) → leb ((reserved i f fl k).devnum major) minor ≡ b
      → Exact held (open_with major minor (some (i ∷ [], f ∷ [])) (reserved i f fl k)).1
  unfolding open_with open_reserved device_open fcb_unreserve
  open_one-Exact major minor i f fl lt e free c' true bad =
      rw bad (unfold reserved fcb_incref set_fid acquire_from in unreserve-Exact i f fl lt e free)
  open_one-Exact major minor i f fl lt e free c' false good = rw good (record {
    distinct = c'.distinct;
    distinct_fresh = tt;
    few = c'.few;
    blocks = λ g. ground (arith, c'.blocks g);
  })

  open_with-Exact :
      (major : DeviceType) (minor : ℕ) (o : Option (List ℕ × List ℕ)) (k' : Kernel)
      → One k o k'
      → Exact held k'
      → Exact held (open_with major minor o k').1
  unfolding open_with
  open_with-Exact major minor none k' one c' = c'
  open_with-Exact major minor (some (i ∷ [], f ∷ [])) k' (lt, e, fl, free, same) c' =
      rw same (open_one-Exact major minor i f fl lt e free (rw same at c') _ refl)
  open_with-Exact major minor (some ([], _)) k' h c' = elim h [ ]
  open_with-Exact major minor (some (_ ∷ [], [])) k' h c' = elim h [ ]
  open_with-Exact major minor (some (_ ∷ [], _ ∷ _ ∷ _)) k' h c' = elim h [ ]
  open_with-Exact major minor (some (_ ∷ _ ∷ _, _)) k' h c' = elim h [ ]

  -- open_stream keeps the counts exact, whether it succeeds or fails.
  pub open_stream-Exact :
      (major : DeviceType) (minor : ℕ) → Exact held (open_stream major minor k).1
  unfolding open_stream
  open_stream-Exact major minor =
      open_with-Exact major minor _ _ (fcb_reserve-One k) (fcb_reserve-Exact 1 c r)

open_with-current :
    (major : DeviceType) (minor : ℕ) (k : Kernel) (o : Option (List ℕ × List ℕ)) (k' : Kernel)
    → One k o k'
    → (open_with major minor o k').1.curproc ≡ k.curproc
unfolding open_with open_reserved fcb_unreserve release_fcb reserved fcb_incref set_fid acquire_from
open_with-current major minor k none k' (same, why) = rw same
open_with-current major minor k (some (i ∷ [], f ∷ [])) k' (lt, e, fl, free, same) =
    rw same (opened_current (device_open major minor (reserved i f fl k)))
  where
    opened_current :
        (o : Option (Option ℕ × FileOps))
        → (open_reserved o (i ∷ []) (f ∷ []) (reserved i f fl k)).1.curproc ≡ k.curproc
    opened_current none = refl
    opened_current (some _) = refl
open_with-current major minor k (some ([], _)) k' h = elim h [ ]
open_with-current major minor k (some (_ ∷ [], [])) k' h = elim h [ ]
open_with-current major minor k (some (_ ∷ [], _ ∷ _ ∷ _)) k' h = elim h [ ]
open_with-current major minor k (some (_ ∷ _ ∷ _, _)) k' h = elim h [ ]

-- The same process runs after open_stream.
pub open_stream-current :
    (major : DeviceType) (minor : ℕ) (k : Kernel)
    → (open_stream major minor k).1.curproc ≡ k.curproc
unfolding open_stream
open_stream-current major minor k = open_with-current major minor k _ _ (fcb_reserve-One k)
