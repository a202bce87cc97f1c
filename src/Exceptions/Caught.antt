-- ===== src/Exceptions/Caught.antt =====
-- Who handles an exception (util.c), when no handler raises.
use tiny_os.Prelude.{
  ℕ, zero, suc, ◌<◌, ◌≡◌, refl, Bool, true, false, Option, some, List, [], ◌∷◌, ◌++◌, arith, ap,
  sym, ◌∙◌, map, length, append_assoc, append-nil,
}
use tiny_os.Exceptions.{
  Frame, Exceptions, run_catchers, run_finalizers, exception_unwind, raise_at, raise_exception,
  exc_exit_at, exc_exit_try,
}

abbrev pub with_code : ℕ → List ℕ → List (ℕ × ℕ)
with_code e hs = map (λ h. (h, e)) hs

abbrev by_frame : Frame → List (ℕ × ℕ) → List (ℕ × ℕ)
by_frame f calls = (calls ++ with_code 1 f.catchers) ++ with_code 1 f.finalizers

abbrev if_caught : List ℕ → Exceptions → Exceptions → Exceptions
if_caught [] here further = further
if_caught (h ∷ hs) here further = here

-- The innermost frame with a catcher handles the exception: the frames up to it are popped, and their
-- handlers run with the code 1.
pub handled : List Frame → List (ℕ × ℕ) → Exceptions
handled [] calls = record { stack = []; calls = calls }
handled (f ∷ rest) calls =
    if_caught f.catchers (record { stack = rest; calls = by_frame f calls })
      (handled rest (by_frame f calls))

module _ (raises : ℕ → ℕ → Bool) (calm : (h e : ℕ) → raises h e ≡ false) where
  run_finalizers-all :
      (again : Exceptions → Option Exceptions) (e : ℕ) (rest : List Frame) (captured : Bool)
      (hs : List ℕ) (calls : List (ℕ × ℕ))
      → run_finalizers raises again e rest captured hs calls
        ≡ run_finalizers raises again e rest captured [] (calls ++ with_code e hs)
  unfolding run_finalizers
  run_finalizers-all again e rest captured [] calls =
      ap (λ l. run_finalizers raises again e rest captured [] l) (sym (append-nil calls))
  run_finalizers-all again e rest captured (h ∷ hs) calls = rw (calm h e) (
      run_finalizers-all again e rest captured hs (calls ++ (h, e) ∷ [])
      ∙ ap (λ l. run_finalizers raises again e rest captured [] l)
          (append_assoc calls ((h, e) ∷ []) (with_code e hs)))

  run_catchers-all :
      (again : Exceptions → Option Exceptions) (e : ℕ) (rest : List Frame) (hs fs : List ℕ)
      (calls : List (ℕ × ℕ))
      → run_catchers raises again e rest true hs fs calls
        ≡ run_finalizers raises again e rest true [] ((calls ++ with_code e hs) ++ with_code e fs)
  unfolding run_catchers
  run_catchers-all again e rest [] fs calls =
      run_finalizers-all again e rest true fs calls
      ∙ ap (λ l. run_finalizers raises again e rest true [] (l ++ with_code e fs))
          (sym (append-nil calls))
  run_catchers-all again e rest (h ∷ hs) fs calls = rw (calm h e) (
      run_catchers-all again e rest hs fs (calls ++ (h, e) ∷ [])
      ∙ ap (λ l. run_finalizers raises again e rest true [] (l ++ with_code e fs))
          (append_assoc calls ((h, e) ∷ []) (with_code e hs)))

  frame-handled :
      (again : Exceptions → Option Exceptions) (rest : List Frame) (further : Exceptions)
      (hs fs : List ℕ) (calls : List (ℕ × ℕ))
      → let calls' = (calls ++ with_code 1 hs) ++ with_code 1 fs in
        again (record { stack = rest; calls = calls' }) ≡ some further
        → run_catchers raises again 1 rest false hs fs calls
          ≡ some (if_caught hs (record { stack = rest; calls = calls' }) further)
  unfolding run_catchers run_finalizers
  frame-handled again rest further [] fs calls jump =
      run_finalizers-all again 1 rest false fs calls
      ∙ ap (λ l. again (record { stack = rest; calls = l ++ with_code 1 fs }))
          (sym (append-nil calls))
      ∙ jump
  frame-handled again rest further (h ∷ hs) fs calls jump = rw (calm h 1) (
      run_catchers-all again 1 rest hs fs (calls ++ (h, 1) ∷ [])
      ∙ ap (λ l. some (record { stack = rest; calls = l ++ with_code 1 fs }))
          (append_assoc calls ((h, 1) ∷ []) (with_code 1 hs)))

  -- If no handler raises, then with fuel above the number of frames, raise_exception runs the handlers up to
  -- the innermost frame that has a catcher, and leaves the frames around that one.
  pub raise_exception-handled :
      (fuel : ℕ) (stack : List Frame) (calls : List (ℕ × ℕ))
      → length stack < fuel
      → raise_exception fuel raises (record { stack = stack; calls = calls })
        ≡ some (handled stack calls)
  unfolding raise_exception raise_at exception_unwind handled
  raise_exception-handled zero stack calls enough = absurd (omega arith)
  raise_exception-handled (suc fuel) [] calls enough = refl
  raise_exception-handled (suc fuel) (f ∷ rest) calls enough =
      frame-handled (λ x'. raise_exception fuel raises x') rest (handled rest (by_frame f calls))
        f.catchers f.finalizers calls
        (raise_exception-handled fuel rest (by_frame f calls) (omega arith))

  -- If no handler raises, the end of a block runs the finalizers of its frame with the code 0 and no
  -- catcher, and pops that frame alone, with any fuel.
  pub exc_exit_try-finalizers :
      (fuel : ℕ) (f : Frame) (rest : List Frame) (calls : List (ℕ × ℕ))
      → exc_exit_try fuel raises (record { stack = f ∷ rest; calls = calls })
        ≡ some (record { stack = rest; calls = calls ++ with_code 0 f.finalizers })
  unfolding exc_exit_try exc_exit_at exception_unwind run_catchers run_finalizers
  exc_exit_try-finalizers fuel f rest calls =
      run_finalizers-all (λ x'. raise_exception fuel raises x') 0 rest false f.finalizers calls
