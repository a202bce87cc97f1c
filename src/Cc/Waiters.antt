-- ===== src/Cc/Waiters.antt =====
-- The waiters of a condition variable (kernel_cc.c): the ring of their nodes against their list.
use tiny_os.Prelude.{
  ℕ, ◌+◌, ◌≤◌, ◌≡◌, refl, true, false, Option, none, some, List, [], ◌∷◌, ◌++◌, arith, ◌==◌, count,
  sym, subst, ◌∙◌, ap, update, if◌then◌else◌, Bool-cases, inl, inr, has, has-append, append-nil,
}
use tiny_os.Rings.{Nodes, rlnode_init, rlnode_new, rlist_push_back, rlist_remove, rl_splice}
use tiny_os.Rings.Splice.{first, Links, Ring, count-append, Ring-rotate}
use tiny_os.Rings.Push.{rlist_push_back-Ring, rlnode_new-Ring}
use tiny_os.Rings.Lists.{rlist_remove-Removed, rlist_remove-alone}
use tiny_os.Sched.{stopped, sleep_releasing}
use tiny_os.Cc.{Cc, advance_waitset, remove_from_ring, enqueue, cv_wait_begin, mutex_unlock}

-- The ring of the nodes, from the first waiter on.
abbrev pub RingOf : Nodes → List ℕ → Type 0
RingOf m [] = Unit {0}
RingOf m (w ∷ ws) = Ring m w ws

abbrev pub head : List ℕ → Option ℕ
head [] = none
head (w ∷ ws) = some w

-- The waiters on `cv` are `ws`, in the order in which they came; each node holds its waiter.
pub record Waits (s : Cc) (cv : ℕ) (ws : List ℕ) : Type 0 where
  pub waitset : s.waitset cv ≡ head ws
  pub ring : RingOf s.nodes ws
  pub keys : (u : ℕ) → has u ws ≡ true → s.nodes.key u ≡ u

pub rlist_remove-key : (w : ℕ) (m : Nodes) → (rlist_remove w m).key ≡ m.key
unfolding rlist_remove rl_splice
rlist_remove-key w m = refl

rlist_push_back-key : (l w : ℕ) (m : Nodes) → (rlist_push_back l w m).key ≡ m.key
unfolding rlist_push_back rl_splice
rlist_push_back-key l w m = refl

pub remove_from_ring-nodes :
    (cv w : ℕ) (s : Cc) → (remove_from_ring cv w s).nodes ≡ rlist_remove w s.nodes
unfolding remove_from_ring
remove_from_ring-nodes cv w s = at (s.waitset cv)
  where
    at : (o : Option ℕ) → rlist_remove w (advance_waitset o cv w s).nodes ≡ rlist_remove w s.nodes
    at none = refl
    at (some first) = ground arith

head-append : (us : List ℕ) (w : ℕ) (vs : List ℕ) → head (us ++ w ∷ vs) ≡ some (first us w)
head-append [] w vs = refl
head-append (u ∷ us) w vs = refl

-- Where `waitset` points when a waiter has left.
remove_from_ring-waitset :
    (s : Cc) (cv w : ℕ) (us vs : List ℕ)
    → Waits s cv (us ++ w ∷ vs)
    → (remove_from_ring cv w s).waitset cv ≡ head (us ++ vs)
unfolding remove_from_ring advance_waitset count
remove_from_ring-waitset s cv w [] [] h = rw (h.waitset) (ground (arith, h.ring.start, h.keys w))
remove_from_ring-waitset s cv w [] (v ∷ vs) h =
    rw (h.waitset) (ground (arith, h.ring.start, h.keys v, h.ring.once v))
remove_from_ring-waitset s cv w (u ∷ us) vs h =
    rw (h.waitset) (ground (arith, h.ring.once u, count-append u us (w ∷ vs)))

rlist_remove-RingOf :
    (m : Nodes) (w : ℕ) (us vs : List ℕ)
    → RingOf m (us ++ w ∷ vs)
    → RingOf (rlist_remove w m) (us ++ vs) × Ring (rlist_remove w m) w []
rlist_remove-RingOf m w [] [] r = (tt, (rlist_remove-alone m w r))
rlist_remove-RingOf m w [] (v ∷ vs) r =
    let gone = rlist_remove-Removed m w v vs [] (Ring-rotate m w v [] vs r) in
    (subst (λ ws. Ring (rlist_remove w m) v ws) (append-nil vs) gone.rest, gone.single)
rlist_remove-RingOf m w (u ∷ us) vs r =
    let gone = rlist_remove-Removed m w u us vs r in (gone.rest, gone.single)

-- remove_from_ring takes a waiter out of the queue, wherever it stands, and makes its node a ring of its
-- own.
pub remove_from_ring-Waits :
    (s : Cc) (cv w : ℕ) (us vs : List ℕ)
    → Waits s cv (us ++ w ∷ vs)
    → Waits (remove_from_ring cv w s) cv (us ++ vs) × Ring (remove_from_ring cv w s).nodes w []
remove_from_ring-Waits s cv w us vs h = (
  record {
    waitset = remove_from_ring-waitset s cv w us vs h;
    ring = subst (λ m. RingOf m (us ++ vs)) (sym (remove_from_ring-nodes cv w s)) rings.0;
    keys = λ u i.
        ap (λ m. m.key u) (remove_from_ring-nodes cv w s)
        ∙ (ap (λ k. k u) (rlist_remove-key w s.nodes)
            ∙ h.keys u (ground (arith, has-append u us vs, has-append u us (w ∷ vs))));
  },
  subst (λ m. Ring m w []) (sym (remove_from_ring-nodes cv w s)) rings.1,
)
  where
    rings : RingOf (rlist_remove w s.nodes) (us ++ vs) × Ring (rlist_remove w s.nodes) w []
    rings = rlist_remove-RingOf s.nodes w us vs h.ring

fresh_single : (w : ℕ) (m : Nodes) → Ring (rlnode_init w w m) w []
unfolding rlnode_init
fresh_single w m =
    let r = rlnode_new-Ring w m in record { once = r.once; start = r.start; links = tt }

-- Initialising a node leaves the rings of other nodes.
rlnode_init-Links :
    (w : ℕ) (m : Nodes) (us : List ℕ) (z : ℕ)
    → count w us ≡ 0
    → (w == z) ≡ false
    → Links m us z
    → Links (rlnode_init w w m) us z
unfolding rlnode_init rlnode_new count
rlnode_init-Links w m [] z out nz l = tt
rlnode_init-Links w m (u ∷ []) z out nz (e, l) = ((ground arith, ground arith), tt)
rlnode_init-Links w m (u ∷ x ∷ us) z out nz (e, l) =
    ((ground arith, ground arith), rlnode_init-Links w m (x ∷ us) z (ground arith) nz l)

rlnode_init-Ring :
    (w : ℕ) (m : Nodes) (a : ℕ) (us : List ℕ)
    → count w (a ∷ us) ≡ 0
    → Ring m a us
    → Ring (rlnode_init w w m) a us
unfolding count
rlnode_init-Ring w m a us out r =
    let l = rlnode_init-Links w m (a ∷ us) a out (ground arith) (r.start, r.links) in
    record { once = r.once; start = l.0; links = l.1 }

rlnode_init-key :
    (w u : ℕ) (m : Nodes) → (rlnode_init w w m).key u ≡ (if w == u then w else m.key u)
unfolding rlnode_init rlnode_new
rlnode_init-key w u m = refl

single_apart :
    (u w : ℕ) (ws : List ℕ) → count w ws ≡ 0 → count u ws ≤ 1 → count u ws + count u (w ∷ []) ≤ 1
unfolding count
single_apart u w ws out once = elim (Bool-cases (u == w)) [
  | inl same ↦ let e : u ≡ w = ground arith in rw same (rw e (omega arith))
  | inr other ↦ rw other (omega arith)
]

enqueue-Waits :
    (s : Cc) (cv w : ℕ) (ws : List ℕ)
    → Waits s cv ws
    → count w ws ≡ 0
    → Ring s.nodes w []
    → s.nodes.key w ≡ w
    → Waits (enqueue (s.waitset cv) cv w s) cv (ws ++ w ∷ [])
unfolding enqueue count
enqueue-Waits s cv w [] h out single k =
    rw (h.waitset) record { waitset = ground arith; ring = single; keys = λ u i. ground arith }
enqueue-Waits s cv w (x ∷ ws) h out single k = rw (h.waitset) record {
  waitset = h.waitset;
  ring =
      rlist_push_back-Ring s.nodes x w ws [] (λ u. single_apart u w (x ∷ ws) out (h.ring.once u))
        h.ring single;
  keys = λ u i.
      ap (λ k. k u) (rlist_push_back-key x w s.nodes)
      ∙ ground (arith, h.keys u, has-append u ws (w ∷ []));
}

-- What enqueue leaves as it is.
record Enqueued (s s' : Cc) (cv : ℕ) : Type 0 where
  waiter : s'.waiter ≡ s.waiter
  locked : s'.locked ≡ s.locked
  scheduler : s'.scheduler ≡ s.scheduler
  others : (d : ℕ) → (cv == d) ≡ false → s'.waitset d ≡ s.waitset d

enqueue-Enqueued : (o : Option ℕ) (cv w : ℕ) (s : Cc) → Enqueued s (enqueue o cv w s) cv
unfolding enqueue
enqueue-Enqueued none cv w s = record {
  waiter = refl;
  locked = refl;
  scheduler = refl;
  others = λ d ne. ground arith;
}
enqueue-Enqueued (some x) cv w s = record {
  waiter = refl;
  locked = refl;
  scheduler = refl;
  others = λ d ne. refl;
}

-- The thread on core `c` waits on `cv` with the waiter `w`, behind the waiters `ws`: its mutex is free,
-- its core has put it to sleep, and the other waiters, mutexes and waitsets are as they were.
pub record Waiting (s s' : Cc) (c mx cv w timeout : ℕ) (ws : List ℕ) : Type 0 where
  pub waits : Waits s' cv (ws ++ w ∷ [])
  pub mine :
      s'.waiter w ≡ record { thread = s.scheduler.current c; signalled = false; removed = false }
  pub waiters : (u : ℕ) → (w == u) ≡ false → s'.waiter u ≡ s.waiter u
  pub unlocked : s'.locked mx ≡ false
  pub mutexes : (m : ℕ) → (mx == m) ≡ false → s'.locked m ≡ s.locked m
  pub others : (d : ℕ) → (cv == d) ≡ false → s'.waitset d ≡ s.waitset d
  pub scheduler : s'.scheduler ≡ sleep_releasing c stopped timeout s.scheduler

-- If the waiter's node is in no ring of the queue, cv_wait, up to the sleep, puts it at the end of the
-- queue, as the unsignalled waiter of the calling thread, unlocks the mutex, and puts the thread to
-- sleep as STOPPED with the timeout; other waiters, mutexes and waitsets stay.
pub cv_wait_begin-Waits :
    (s : Cc) (c mx cv w timeout : ℕ) (ws : List ℕ)
    → Waits s cv ws
    → count w ws ≡ 0
    → Waiting s (cv_wait_begin c mx cv w timeout s) c mx cv w timeout ws
unfolding cv_wait_begin mutex_unlock
cv_wait_begin-Waits s c mx cv w timeout ws h out = record {
  waits = record { waitset = joined.waitset; ring = joined.ring; keys = joined.keys };
  mine = ap (λ f. f w) same.waiter ∙ ground arith;
  waiters = λ u ne. ap (λ f. f u) same.waiter ∙ ground arith;
  unlocked = ground arith;
  mutexes = λ m ne. ap (λ f. update f mx false m) same.locked ∙ ground arith;
  others = λ d ne. same.others d ne;
  scheduler = ap (λ q. sleep_releasing c stopped timeout q) same.scheduler;
}
  where
    s1 : Cc
    s1 = record s {
      nodes = rlnode_init w w s.nodes;
      waiter =
          update s.waiter w
            (record { thread = s.scheduler.current c; signalled = false; removed = false });
    }

    same : Enqueued s1 (enqueue (s1.waitset cv) cv w s1) cv
    same = enqueue-Enqueued (s1.waitset cv) cv w s1

    rings : (us : List ℕ) → count w us ≡ 0 → RingOf s.nodes us → RingOf s1.nodes us
    rings [] o r = tt
    rings (x ∷ us) o r = rlnode_init-Ring w s.nodes x us o r

    joined : Waits (enqueue (s1.waitset cv) cv w s1) cv (ws ++ w ∷ [])
    joined =
        enqueue-Waits s1 cv w ws
          (record {
            waitset = h.waitset;
            ring = rings ws out h.ring;
            keys = λ u i. rlnode_init-key w u s.nodes ∙ ground (arith, h.keys u);
          })
          out (fresh_single w s.nodes) (rlnode_init-key w w s.nodes ∙ ground arith)
