-- ===== src/Devices/Serial.antt =====
-- The serial driver of kernel_dev.c: what a call transfers.
use tiny_os.Prelude.{
  ℕ, zero, suc, ◌+◌, ◌%◌, ◌^◌, ◌≤◌, ◌<◌, ◌≡◌, refl, true, false, Option, none, some, List, [], ◌∷◌,
  ◌++◌, arith, ◌==◌, ltb, map, length, append_assoc, append-nil, inl, inr, ◌⊎◌, ap, ◌∙◌, sym, subst,
  lt→ltb, ℤ, pos, negsuc, ◌-◌,
}
use tiny_os.Devices.{read_loop, return_count, serial_read, to_int}

-- The port is silent `n` times.
abbrev pub silence {ℓ} : {A : Type ℓ} → A → ℕ → List A → List A
silence a zero xs = xs
silence a (suc n) xs = a ∷ silence a n xs

-- Where a transfer of `n` bytes of at most `size` ends: at the size, or when the port is not ready.
abbrev pub Stops : {A : Type 0} → A → ℕ → ℕ → List A → List A → Type 0
Stops a size n answers rest = ((n ≡ size) × (answers ≡ rest)) ⊎ ((n < size) × (answers ≡ a ∷ rest))

read_loop-waits :
    (n size : ℕ) (sleeps : ℕ) (xs : List (Option ℕ))
    → 0 < size
    → read_loop size 0 [] sleeps (silence none n xs) ≡ read_loop size 0 [] (sleeps + n) xs
unfolding read_loop
read_loop-waits zero size sleeps xs some_ = ap (λ k. read_loop size 0 [] k xs) (omega arith)
read_loop-waits (suc n) size sleeps xs some_ =
    let e : ltb 0 size ≡ true = lt→ltb 0 size some_ in
    rw e (
      read_loop-waits n size (sleeps + 1) xs some_
      ∙ ap (λ k. read_loop size 0 [] k xs) (omega arith))

-- At the size the loop ends, whatever comes next.
read_loop-full :
    (size count : ℕ) (got : List ℕ) (sleeps : ℕ) (xs : List (Option ℕ))
    → ltb count size ≡ false
    → read_loop size count got sleeps xs
      ≡ some (record { count = count; bytes = got; sleeps = sleeps; rest = xs })
unfolding read_loop
read_loop-full size count got sleeps [] full = rw full refl
read_loop-full size count got sleeps (some c ∷ xs) full = rw full refl
read_loop-full size count got sleeps (none ∷ xs) full = rw full refl

read_loop-Stops :
    (size count : ℕ) (got : List ℕ) (sleeps : ℕ) (xs rest : List (Option ℕ))
    → 0 < count
    → Stops none size count xs rest
    → read_loop size count got sleeps xs
      ≡ some (record { count = count; bytes = got; sleeps = sleeps; rest = rest })
unfolding read_loop
read_loop-Stops size count got sleeps xs rest more (inl (full, same)) =
    subst
      (λ ys.
        read_loop size count got sleeps xs
        ≡ some (record { count = count; bytes = got; sleeps = sleeps; rest = ys }))
      same (read_loop-full size count got sleeps xs (ground arith))
read_loop-Stops size count got sleeps xs rest more (inr (lt, same)) =
    let e : ltb count size ≡ true = lt→ltb count size lt in
    let z : (count == 0) ≡ false = ground arith in
    subst
      (λ ys.
        read_loop size count got sleeps ys
        ≡ some (record { count = count; bytes = got; sleeps = sleeps; rest = rest }))
      (sym same) (rw (e, z) refl)

read_loop-takes :
    (size count : ℕ) (got cs : List ℕ) (sleeps : ℕ) (xs rest : List (Option ℕ))
    → size < 2 ^ 32
    → count + length cs ≤ size
    → 0 < count + length cs
    → Stops none size (count + length cs) xs rest
    → read_loop size count got sleeps (map some cs ++ xs)
      ≡ some (record { count = count + length cs; bytes = got ++ cs; sleeps = sleeps; rest = rest })
unfolding read_loop
read_loop-takes size count got [] sleeps xs rest small le more stops =
    let e : count + 0 ≡ count = omega arith in
    rw (append-nil got) (
      subst
        (λ n.
          read_loop size count got sleeps xs
          ≡ some (record { count = n; bytes = got; sleeps = sleeps; rest = rest }))
        (sym e)
        (read_loop-Stops size count got sleeps xs rest (omega arith)
          (subst (λ n. Stops none size n xs rest) e stops)))
read_loop-takes size count got (c ∷ cs) sleeps xs rest small le more stops =
    let e : ltb count size ≡ true = lt→ltb count size (omega arith) in
    let w : (count + 1) % 2 ^ 32 ≡ count + 1 = omega arith in
    let n : count + 1 + length cs ≡ count + suc (length cs) = omega arith in
    rw (e, w)
      (read_loop-takes size (count + 1) (got ++ c ∷ []) cs sleeps xs rest small (omega arith)
          (omega arith) (subst (λ n. Stops none size n xs rest) (sym n) stops)
        ∙ ap
            (λ n.
              some
                (record { count = n; bytes = (got ++ c ∷ []) ++ cs; sleeps = sleeps; rest = rest }))
            n
        ∙ ap
            (λ bs. some (record {
              count = count + suc (length cs);
              bytes = bs;
              sleeps = sleeps;
              rest = rest;
            }))
            (append_assoc got (c ∷ []) cs))

serial_read-takes :
    (size n : ℕ) (cs : List ℕ) (xs rest : List (Option ℕ))
    → size < 2 ^ 32
    → 0 < length cs
    → length cs ≤ size
    → Stops none size (length cs) xs rest
    → read_loop size 0 [] 0 (silence none n (map some cs ++ xs))
      ≡ some (record { count = length cs; bytes = cs; sleeps = n; rest = rest })
serial_read-takes size n cs xs rest small more le stops =
    let z : 0 + length cs ≡ length cs = omega arith in
    read_loop-waits n size 0 (map some cs ++ xs) (omega arith)
    ∙ ap (λ k. read_loop size 0 [] k (map some cs ++ xs)) (omega arith)
    ∙ read_loop-takes size 0 [] cs n xs rest small (omega arith) (omega arith)
        (subst (λ n. Stops none size n xs rest) (sym z) stops)
    ∙ ap (λ m. some (record { count = m; bytes = cs; sleeps = n; rest = rest })) z

-- serial_read sleeps until the first byte, then takes the bytes that are there, at most `size`. It returns
-- their number if that is less than 2 ^ 31, and else the number less 2 ^ 32, which is negative. (`cs` are
-- the bytes, not none; they end at the size or where the port is not ready.)
pub serial_read_lem :
    (size n : ℕ) (cs : List ℕ) (xs rest : List (Option ℕ))
    → size < 2 ^ 32
    → 0 < length cs
    → length cs ≤ size
    → Stops none size (length cs) xs rest
    → (r : ℤ) × (serial_read size (silence none n (map some cs ++ xs))
        ≡ some (r, (record { count = length cs; bytes = cs; sleeps = n; rest = rest })))
      × (length cs < 2 ^ 31 → r ≡ pos (length cs))
      × (2 ^ 31 ≤ length cs → r ≡ negsuc (2 ^ 32 - 1 - length cs))
unfolding serial_read return_count to_int
serial_read_lem size n cs xs rest small more le stops = (
  to_int (length cs),
  ap return_count (serial_read-takes size n cs xs rest small more le stops),
  λ few. ground arith,
  λ many. ground arith,
)
