-- ===== src/Shell/Tower.antt =====
-- The moves of hanoi (tinyos_shell.c), played on tiles with disks.
use tiny_os.Prelude.{
  ℕ, zero, suc, ◌<◌, ◌≡◌, refl, Bool, true, false, ◌==◌, Bool-cases, inl, inr, ltb, lt→ltb, Option,
  none, some, List, [], ◌∷◌, ◌++◌, arith, ap, ◌∙◌, sym, subst, update, if◌then◌else◌,
}
use tiny_os.Shell.{hanoi}

-- The disks on each tile, the top one first.
abbrev pub Tiles : Type 0
Tiles = ℕ → List ℕ

abbrev pub fits : ℕ → List ℕ → Bool
fits d [] = true
fits d (e ∷ es) = ltb d e

put_disk : ℕ → List ℕ → ℕ → ℕ → Tiles → Option Tiles
put_disk d ds a b t = if fits d (t b) then some (update (update t a ds) b (d ∷ t b)) else none

move_from : List ℕ → ℕ → ℕ → Tiles → Option Tiles
move_from [] a b t = none
move_from (d ∷ ds) a b t = put_disk d ds a b t

-- A move takes the top disk of a tile that is not empty, and puts it on a larger one or on no disk.
pub play_one : ℕ → ℕ → Tiles → Option Tiles
unfolding move_from put_disk
play_one a b t = move_from (t a) a b t

and_then : Option Tiles → (Tiles → Option Tiles) → Option Tiles
and_then none more = none
and_then (some t) more = more t

-- All moves in order; `none` if one of them is illegal.
pub play : List (ℕ × ℕ) → Tiles → Option Tiles
unfolding and_then play_one
play [] t = some t
play ((a, b) ∷ ms) t = and_then (play_one a b t) (λ t'. play ms t')

-- The disks from 1 to `n` on top of `xs`.
abbrev pub tower : ℕ → List ℕ → List ℕ
tower zero xs = xs
tower (suc n) xs = tower n (suc n ∷ xs)

-- The top disk, if there is one, is larger than `n`.
abbrev pub Above : ℕ → List ℕ → Type 0
Above n [] = Unit {0}
Above n (x ∷ xs) = n < x

Above-less : (n : ℕ) (xs : List ℕ) → Above (suc n) xs → Above n xs
Above-less n [] h = tt
Above-less n (x ∷ xs) h = omega arith

fits-Above : (d : ℕ) (xs : List ℕ) → Above d xs → fits d xs ≡ true
fits-Above d [] h = refl
fits-Above d (x ∷ xs) h = lt→ltb d x h

play-append :
    (ms ns : List (ℕ × ℕ)) (t : Tiles) → play (ms ++ ns) t ≡ and_then (play ms t) (λ t'. play ns t')
unfolding play and_then
play-append [] ns t = refl
play-append ((a, b) ∷ ms) ns t = at (play_one a b t) (λ t'. play-append ms ns t')
  where
    at :
        (o : Option Tiles)
        → ((t' : Tiles) → play (ms ++ ns) t' ≡ and_then (play ms t') (λ t''. play ns t''))
        → and_then o (λ t'. play (ms ++ ns) t')
          ≡ and_then (and_then o (λ t'. play ms t')) (λ t'. play ns t')
    at none rest = refl
    at (some t') rest = rest t'

play_one-put :
    (d : ℕ) (ds : List ℕ) (a b : ℕ) (t : Tiles)
    → t a ≡ d ∷ ds
    → Above d (t b)
    → play_one a b t ≡ some (update (update t a ds) b (d ∷ t b))
unfolding play_one move_from put_disk
play_one-put d ds a b t e up = ap (λ l. move_from l a b t) e ∙ rw (fits-Above d (t b) up) refl

play-three :
    (ms ns : List (ℕ × ℕ)) (a b : ℕ) (t t1 t2 t3 : Tiles)
    → play ms t ≡ some t1
    → play_one a b t1 ≡ some t2
    → play ns t2 ≡ some t3
    → play (ms ++ (a, b) ∷ ns) t ≡ some t3
unfolding play and_then
play-three ms ns a b t t1 t2 t3 p1 p2 p3 =
    play-append ms ((a, b) ∷ ns) t
    ∙ ap (λ o. and_then o (λ t'. play ((a, b) ∷ ns) t')) p1
    ∙ ap (λ o. and_then o (λ t'. play ns t')) p2
    ∙ p3

-- A tile that none of the three parts has changed.
untouched :
    (c d : ℕ) (t t1 t2 t3 : Tiles)
    → t3 c ≡ t c
    → ((d == c) ≡ false → t3 d ≡ t2 d)
    → t2 d ≡ t1 d
    → ((d == c) ≡ false → t1 d ≡ t d)
    → t3 d ≡ t d
untouched c d t t1 t2 t3 c3 o3 o2 o1 = elim (Bool-cases (d == c)) [
  | inl same ↦ let e : d ≡ c = ground arith in subst (λ u. t3 u ≡ t u) (sym e) c3
  | inr apart ↦ o3 apart ∙ o2 ∙ o1 apart
]

-- What the moves come to: `n` disks have moved from `a` to `b`, and every other tile is as it was.
abbrev pub Moved : ℕ → ℕ → ℕ → List ℕ → Tiles → List (ℕ × ℕ) → Type 0
Moved n a b xs t ms =
    (t' : Tiles) × (play ms t ≡ some t')
    × (t' a ≡ xs)
    × (t' b ≡ tower n (t b))
    × ((d : ℕ) → (d == a) ≡ false → (d == b) ≡ false → t' d ≡ t d)

-- On three different tiles, with `n` disks on top of the first, and no other disk in reach smaller than
-- these, the moves of hanoi are legal and bring the `n` disks from the first tile to the second.
pub hanoi-Moved :
    (n a b c : ℕ) (xs : List ℕ) (t : Tiles)
    → (a == b) ≡ false
    → (b == c) ≡ false
    → (a == c) ≡ false
    → t a ≡ tower n xs
    → Above n xs
    → Above n (t b)
    → Above n (t c)
    → Moved n a b xs t (hanoi n a b c)
unfolding hanoi play
hanoi-Moved zero a b c xs t ab bc ac e up_a up_b up_c = (t, refl, e, refl, λ d da db. refl)
hanoi-Moved (suc n) a b c xs t ab bc ac e up_a up_b up_c =
    let (t1, p1, a1, c1, o1) =
      hanoi-Moved n a c b (suc n ∷ xs) t ac (ground arith) ab e (omega arith)
        (Above-less n (t c) up_c) (Above-less n (t b) up_b) in
    let b1 : t1 b ≡ t b = o1 b (ground arith) bc in
    let t2 : Tiles = update (update t1 a xs) b (suc n ∷ t1 b) in
    let p2 : play_one a b t1 ≡ some t2 =
      play_one-put (suc n) xs a b t1 a1 (subst (λ l. Above (suc n) l) (sym b1) up_b) in
    let b2 : t2 b ≡ suc n ∷ t b = ground (arith, b1) in
    let a2 : t2 a ≡ xs = ground arith in
    let c2 : t2 c ≡ tower n (t c) = ground (arith, c1) in
    let (t3, p3, c3, b3, o3) =
      hanoi-Moved n c b a (t c) t2 (ground arith) (ground arith) (ground arith) c2
        (Above-less n (t c) up_c) (subst (λ l. Above n l) (sym b2) (omega arith))
        (subst (λ l. Above n l) (sym a2) (Above-less n xs up_a)) in
    (
      t3,
      play-three (hanoi n a c b) (hanoi n c b a) a b t t1 t2 t3 p1 p2 p3,
      o3 a ac ab ∙ a2,
      b3 ∙ ap (λ l. tower n l) b2,
      λ d da db. untouched c d t t1 t2 t3 c3 (λ dc. o3 d dc db) (ground arith) (λ dc. o1 d da dc),
    )
