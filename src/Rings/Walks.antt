-- ===== src/Rings/Walks.antt =====
-- The loops of util.h that only read a list: rlist_len, rlist_equal and rlist_find.
use tiny_os.Prelude.{
  ℕ, zero, suc, ◌+◌, ◌%◌, ◌^◌, ◌<◌, ◌≡◌, refl, Bool, true, false, List, [], ◌∷◌, arith, ◌==◌, count,
  ◌∙◌, ap, some, length, map, ◌&&◌, ◌↔◌, if◌then◌else◌, Bool-cases, inl, inr,
}
use tiny_os.Rings.{Nodes, len_loop, rlist_len, equal_loop, rlist_equal, find_loop, rlist_find}
use tiny_os.Rings.Splice.{first, Links, Ring}

len_loop_lem :
    (fuel l n : ℕ) (xs : List ℕ) (m : Nodes)
    → count l xs ≡ 0
    → Links m xs l
    → length xs < fuel
    → n + length xs < 2 ^ 32
    → len_loop fuel l (first xs l) n m ≡ some (n + length xs)
unfolding len_loop count
len_loop_lem zero l n xs m out e enough small = absurd (omega arith)
len_loop_lem (suc fuel) l n [] m out e enough small = ground arith
len_loop_lem (suc fuel) l n (x ∷ xs) m out (e, es) enough small =
    let ne : (x == l) ≡ false = ground arith in
    let w : (n + 1) % 2 ^ 32 ≡ n + 1 = omega arith in
    rw (ne, w, e.0)
      (len_loop_lem fuel l (n + 1) xs m (ground arith) es (omega arith) (omega arith)
        ∙ ap some (omega arith))

pub sentinel-absent : (m : Nodes) (l : ℕ) (xs : List ℕ) → Ring m l xs → count l xs ≡ 0
unfolding count
sentinel-absent m l xs r = ground (arith, r.once l)

-- The number of nodes, if it is below 2^32.
pub rlist_len_lem :
    (m : Nodes) (l : ℕ) (xs : List ℕ) (fuel : ℕ)
    → Ring m l xs
    → length xs < fuel
    → length xs < 2 ^ 32
    → rlist_len fuel l m ≡ some (length xs)
unfolding rlist_len
rlist_len_lem m l xs fuel r enough small =
    ap (λ p. len_loop fuel l p 0 m) r.start.0
    ∙ (len_loop_lem fuel l 0 xs m (sentinel-absent m l xs r) r.links enough (omega arith)
        ∙ ap some (omega arith))

-- The first node with the key, or `fail`.
pub find_key : (ℕ → ℕ) → ℕ → ℕ → List ℕ → ℕ
find_key keys key fail [] = fail
find_key keys key fail (x ∷ xs) = if keys x == key then x else find_key keys key fail xs

find_loop_lem :
    (fuel l key fail : ℕ) (xs : List ℕ) (m : Nodes)
    → count l xs ≡ 0
    → Links m xs l
    → length xs < fuel
    → find_loop fuel l key fail (first xs l) m ≡ some (find_key m.key key fail xs)
unfolding find_loop find_key count
find_loop_lem zero l key fail xs m out e enough = absurd (omega arith)
find_loop_lem (suc fuel) l key fail [] m out e enough = ground arith
find_loop_lem (suc fuel) l key fail (x ∷ xs) m out (e, es) enough =
    let ne : (x == l) ≡ false = ground arith in
    let more = find_loop_lem fuel l key fail xs m (ground arith) es (omega arith) in
    elim (Bool-cases (m.key x == key)) [
      | inl found ↦ rw (ne, found) refl
      | inr other ↦ rw (ne, other, e.0) more
    ]

-- rlist_find returns the first node of the list with the key, or else `fail`.
pub rlist_find_lem :
    (m : Nodes) (l key fail : ℕ) (xs : List ℕ) (fuel : ℕ)
    → Ring m l xs
    → length xs < fuel
    → rlist_find fuel l key fail m ≡ some (find_key m.key key fail xs)
unfolding rlist_find
rlist_find_lem m l key fail xs fuel r enough =
    ap (λ p. find_loop fuel l key fail p m) r.start.0
    ∙ find_loop_lem fuel l key fail xs m (sentinel-absent m l xs r) r.links enough

same_keys : (ℕ → ℕ) → List ℕ → List ℕ → Bool
same_keys keys [] [] = true
same_keys keys [] (y ∷ ys) = false
same_keys keys (x ∷ xs) [] = false
same_keys keys (x ∷ xs) (y ∷ ys) = (keys x == keys y) && same_keys keys xs ys

same_keys_lem :
    (keys : ℕ → ℕ) (xs ys : List ℕ) → (same_keys keys xs ys ≡ true) ↔ (map keys xs ≡ map keys ys)
unfolding same_keys
same_keys_lem keys [] [] = (λ h. refl, λ h. refl)
same_keys_lem keys [] (y ∷ ys) = (λ h. absurd (ground arith), λ h. absurd (cc))
same_keys_lem keys (x ∷ xs) [] = (λ h. absurd (ground arith), λ h. absurd (cc))
same_keys_lem keys (x ∷ xs) (y ∷ ys) =
    let ih = same_keys_lem keys xs ys in (λ h. ground (arith, ih.0), λ h. ground (arith, ih.1))

equal_loop_lem :
    (fuel l1 l2 : ℕ) (xs ys : List ℕ) (m : Nodes)
    → count l1 xs ≡ 0
    → count l2 ys ≡ 0
    → Links m xs l1
    → Links m ys l2
    → length xs < fuel
    → equal_loop fuel l1 l2 (first xs l1) (first ys l2) m ≡ some (same_keys m.key xs ys)
unfolding equal_loop same_keys count
equal_loop_lem zero l1 l2 xs ys m o1 o2 e f enough = absurd (omega arith)
equal_loop_lem (suc fuel) l1 l2 [] [] m o1 o2 e f enough = ground arith
equal_loop_lem (suc fuel) l1 l2 [] (y ∷ ys) m o1 o2 e f enough = ground arith
equal_loop_lem (suc fuel) l1 l2 (x ∷ xs) [] m o1 o2 e f enough = ground arith
equal_loop_lem (suc fuel) l1 l2 (x ∷ xs) (y ∷ ys) m o1 o2 (e, es) (f, fs) enough =
    let nx : (x == l1) ≡ false = ground arith in
    let ny : (y == l2) ≡ false = ground arith in
    let more =
      equal_loop_lem fuel l1 l2 xs ys m (ground arith) (ground arith) es fs (omega arith) in
    elim (Bool-cases (m.key x == m.key y)) [
      | inl same ↦ rw (nx, ny, same, e.0, f.0) more
      | inr other ↦ rw (nx, ny, other) refl
    ]

-- rlist_equal tells whether two lists, which may be one, have the same keys in the same order.
pub rlist_equal_lem :
    (m : Nodes) (l1 l2 : ℕ) (xs ys : List ℕ) (fuel : ℕ)
    → Ring m l1 xs
    → Ring m l2 ys
    → length xs < fuel
    → (b : Bool) × (rlist_equal fuel l1 l2 m ≡ some b)
      × ((b ≡ true) ↔ (map m.key xs ≡ map m.key ys))
unfolding rlist_equal
rlist_equal_lem m l1 l2 xs ys fuel r s enough = (
  same_keys m.key xs ys,
  ap (λ p. equal_loop fuel l1 l2 p (m.next l2) m) r.start.0
      ∙ ap (λ p. equal_loop fuel l1 l2 (first xs l1) p m) s.start.0
      ∙ equal_loop_lem fuel l1 l2 xs ys m (sentinel-absent m l1 xs r) (sentinel-absent m l2 ys s)
          r.links s.links enough,
  same_keys_lem m.key xs ys,
)
