-- ===== src/Shell/Pipeline.antt =====
-- How process_line splits a command line at the pipes (tinyos_shell.c).
use tiny_os.Prelude.{
  ℕ, zero, suc, ◌+◌, ◌≡◌, refl, Bool, if◌then◌else◌, Bool-cases, inl, inr, List, [], ◌∷◌, ◌++◌,
  arith, ap, ◌∙◌, sym, length, length-append, map, take, append_assoc,
}
use tiny_os.Shell.{split_loop, split_line}

module _ {A : Type 0} (is_pipe : A → Bool) where
  -- The `count` strings from `start` on: what Vargv and Vargc stand for.
  abbrev pub piece : ℕ → ℕ → List A → List A
  piece zero count argv = take count argv
  piece (suc start) count [] = []
  piece (suc start) count (s ∷ argv) = piece start count argv

  -- The strings between the pipes; `current` are those since the last one.
  abbrev pub between : List A → List A → List (List A)
  between current [] = current ∷ []
  between current (s ∷ ss) =
      if is_pipe s then current ∷ between [] ss else between (current ++ s ∷ []) ss

  abbrev pub pipes : List A → ℕ
  pipes [] = 0
  pipes (s ∷ ss) = (if is_pipe s then 1 else 0) + pipes ss

  take-append : (xs ys : List A) → take (length xs) (xs ++ ys) ≡ xs
  take-append [] ys = refl
  take-append (x ∷ xs) ys = ap (λ l. x ∷ l) (take-append xs ys)

  piece-append :
      (before xs ys : List A) → piece (length before) (length xs) (before ++ (xs ++ ys)) ≡ xs
  piece-append [] xs ys = take-append xs ys
  piece-append (b ∷ bs) xs ys = piece-append bs xs ys

  split_loop-between :
      (before current ss : List A) (argv : List A) (i start vargc : ℕ)
      → argv ≡ before ++ (current ++ ss)
      → start ≡ length before
      → vargc ≡ length current
      → i ≡ start + vargc
      → map (λ p. piece p.0 p.1 argv) (split_loop is_pipe ss i start vargc) ≡ between current ss
  unfolding split_loop
  split_loop-between before current [] argv i start vargc e es ev ei =
      ap (λ l. l ∷ [])
        (ap (λ l. piece start vargc l) e
          ∙ ap (λ n. piece n vargc (before ++ (current ++ []))) es
          ∙ ap (λ n. piece (length before) n (before ++ (current ++ []))) ev
          ∙ piece-append before current [])
  split_loop-between before current (s ∷ ss) argv i start vargc e es ev ei =
      elim (Bool-cases (is_pipe s)) [
        | inl pipe ↦
            let before' = before ++ (current ++ s ∷ []) in
            rw pipe (
              ap (λ l. l ∷ rest)
                (ap (λ l. piece start vargc l) e
                  ∙ ap (λ n. piece n vargc (before ++ (current ++ s ∷ ss))) es
                  ∙ ap (λ n. piece (length before) n (before ++ (current ++ s ∷ ss))) ev
                  ∙ piece-append before current (s ∷ ss))
              ∙ ap (λ r. current ∷ r)
                  (split_loop-between before' [] ss argv (i + 1) (i + 1) 0 (e ∙ regroup)
                    (omega (
                      arith,
                      ei,
                      es,
                      ev,
                      length-append before (current ++ s ∷ []),
                      length-append current (s ∷ []),
                    ))
                    refl (omega arith)))
        | inr word ↦ rw word (
            split_loop-between before (current ++ s ∷ []) ss argv (i + 1) start (vargc + 1)
              (e ∙ ap (λ l. before ++ l) (sym (append_assoc current (s ∷ []) ss))) es
              (omega (arith, ev, length-append current (s ∷ []))) (omega (arith, ei)))
      ]
    where
      rest : List (List A)
      rest = map (λ p. piece p.0 p.1 argv) (split_loop is_pipe ss (i + 1) (i + 1) 0)

      regroup : before ++ (current ++ s ∷ ss) ≡ (before ++ (current ++ s ∷ [])) ++ ss
      regroup =
          ap (λ l. before ++ l) (sym (append_assoc current (s ∷ []) ss))
          ∙ sym (append_assoc before (current ++ s ∷ []) ss)

  split_loop-length :
      (ss : List A) (i start vargc : ℕ)
      → length (split_loop is_pipe ss i start vargc) ≡ 1 + pipes ss
  unfolding split_loop
  split_loop-length [] i start vargc = refl
  split_loop-length (s ∷ ss) i start vargc = elim (Bool-cases (is_pipe s)) [
    | inl pipe ↦ rw pipe (omega (arith, split_loop-length ss (i + 1) (i + 1) 0))
    | inr word ↦ rw word (omega (arith, split_loop-length ss (i + 1) start (vargc + 1)))
  ]

  -- The fragments of a command line are the strings between its pipes, in order, and one more than the
  -- pipes.
  pub split_line-between :
      (argv : List A)
      → (map (λ p. piece p.0 p.1 argv) (split_line is_pipe argv) ≡ between [] argv)
        × (length (split_line is_pipe argv) ≡ 1 + pipes argv)
  unfolding split_line
  split_line-between argv =
      (split_loop-between [] [] argv argv 0 0 0 refl refl refl refl, split_loop-length argv 0 0 0)
