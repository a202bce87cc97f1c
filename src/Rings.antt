-- ===== src/Rings.antt =====
-- util.h: resource lists. A list node is an address, a ring is a cycle of nodes linked both ways, and
-- a list is a ring with a sentinel. `key` is the union in the node, of which one member is in use.
-- Loops over a ring take fuel, the number of nodes that they may visit.
pub mod Splice
pub mod Push
pub mod Lists
pub mod Walks
pub mod Reverse
pub mod Select
use tiny_os.Prelude.{
  ℕ, zero, suc, ◌+◌, ◌%◌, ◌^◌, Bool, true, false, Option, none, some, ◌==◌, ◌||◌, not, update,
  if◌then◌else◌,
}

pub record Nodes : Type 0 where
  pub key : ℕ → ℕ
  pub prev : ℕ → ℕ
  pub next : ℕ → ℕ

-- rlnode_new
unfoldable pub rlnode_new : ℕ → Nodes → Nodes
rlnode_new p m = record m { prev = update m.prev p p; next = update m.next p p }

unfoldable pub rlnode_init : ℕ → ℕ → Nodes → Nodes
unfolding rlnode_new
rlnode_init p ptr m = let m1 = rlnode_new p m in record m1 { key = update m1.key p ptr }

-- rlnode_swap on the `prev` pointers of `p` and `q`, which may be one node, and on their `next`
-- pointers.
abbrev pub swap_prev : ℕ → ℕ → Nodes → Nodes
swap_prev p q m = record m { prev = update (update m.prev p (m.prev q)) q (m.prev p) }

abbrev pub swap_next : ℕ → ℕ → Nodes → Nodes
swap_next p q m = record m { next = update (update m.next p (m.next q)) q (m.next p) }

unfoldable pub rl_splice : ℕ → ℕ → Nodes → Nodes
rl_splice a b m = swap_next a b (swap_prev (m.next a) (m.next b) m)

unfoldable pub rlist_remove : ℕ → Nodes → Nodes
rlist_remove a m = rl_splice a (m.prev a) m

unfoldable pub is_rlist_empty : ℕ → Nodes → Bool
is_rlist_empty a m = a == m.next a

unfoldable pub rlist_push_front : ℕ → ℕ → Nodes → Nodes
rlist_push_front list node m = rl_splice list node m

unfoldable pub rlist_push_back : ℕ → ℕ → Nodes → Nodes
rlist_push_back list node m = rl_splice (m.prev list) node m

unfoldable pub rlist_pop_front : ℕ → Nodes → ℕ × Nodes
rlist_pop_front list m = (m.next list, rl_splice list (m.next list) m)

unfoldable pub rlist_pop_back : ℕ → Nodes → ℕ × Nodes
rlist_pop_back list m = (m.prev list, rl_splice list (m.prev list) m)

-- The loop of rlist_len, from `p` on.
unfoldable pub len_loop : ℕ → ℕ → ℕ → ℕ → Nodes → Option ℕ
len_loop zero list p count m = none
len_loop (suc fuel) list p count m =
    let rest = len_loop fuel list (m.next p) ((count + 1) % 2 ^ 32) m in
    if p == list then some count else rest

unfoldable pub rlist_len : ℕ → ℕ → Nodes → Option ℕ
unfolding len_loop
rlist_len fuel list m = len_loop fuel list (m.next list) 0 m

-- The loop of rlist_equal.
unfoldable pub equal_loop : ℕ → ℕ → ℕ → ℕ → ℕ → Nodes → Option Bool
equal_loop zero l1 l2 i1 i2 m = none
equal_loop (suc fuel) l1 l2 i1 i2 m =
    let rest = equal_loop fuel l1 l2 (m.next i1) (m.next i2) m in
    if i1 == l1
    then some (i2 == l2)
    else (if (i2 == l2) || not (m.key i1 == m.key i2) then some false else rest)

unfoldable pub rlist_equal : ℕ → ℕ → ℕ → Nodes → Option Bool
unfolding equal_loop
rlist_equal fuel l1 l2 m = equal_loop fuel l1 l2 (m.next l1) (m.next l2) m

unfoldable pub rlist_append : ℕ → ℕ → Nodes → Nodes
rlist_append ldest lsrc m = rlist_remove lsrc (rlist_push_back ldest lsrc m)

unfoldable pub rlist_prepend : ℕ → ℕ → Nodes → Nodes
rlist_prepend ldest lsrc m = rlist_remove lsrc (rlist_push_front ldest lsrc m)

-- rlnode_swap on the two pointers of one node.
unfoldable pub turn_node : ℕ → Nodes → Nodes
turn_node p m = record m { prev = update m.prev p (m.next p); next = update m.next p (m.prev p) }

-- The loop of rlist_reverse.
unfoldable pub reverse_loop : ℕ → ℕ → ℕ → Nodes → Option Nodes
unfolding turn_node
reverse_loop zero l p m = none
reverse_loop (suc fuel) l p m =
    let m1 = turn_node p m in
    let rest = reverse_loop fuel l (m1.next p) m1 in if m1.next p == l then some m1 else rest

unfoldable pub rlist_reverse : ℕ → ℕ → Nodes → Option Nodes
unfolding reverse_loop
rlist_reverse fuel l m = reverse_loop fuel l l m

-- The loop of rlist_find.
unfoldable pub find_loop : ℕ → ℕ → ℕ → ℕ → ℕ → Nodes → Option ℕ
find_loop zero list key fail i m = none
find_loop (suc fuel) list key fail i m =
    let rest = find_loop fuel list key fail (m.next i) m in
    if i == list then some fail else (if m.key i == key then some i else rest)

unfoldable pub rlist_find : ℕ → ℕ → ℕ → ℕ → Nodes → Option ℕ
unfolding find_loop
rlist_find fuel list key fail m = find_loop fuel list key fail (m.next list) m

-- The loop of rlist_select; `pred` looks at a node.
unfoldable pub select_loop : ℕ → ℕ → ℕ → (ℕ → Bool) → ℕ → Nodes → Option Nodes
select_loop zero lsrc ldest pred i m = none
select_loop (suc fuel) lsrc ldest pred i m =
    let moved =
      select_loop fuel lsrc ldest pred i
        (rlist_push_back ldest (m.next i) (rlist_remove (m.next i) m)) in
    let kept = select_loop fuel lsrc ldest pred (m.next i) m in
    if m.next i == lsrc then some m else (if pred (m.next i) then moved else kept)

unfoldable pub rlist_select : ℕ → ℕ → ℕ → (ℕ → Bool) → Nodes → Option Nodes
unfolding select_loop
rlist_select fuel lsrc ldest pred m = select_loop fuel lsrc ldest pred lsrc m
