-- ===== src/Exceptions/Unwind.antt =====
-- Which handlers an exception runs (util.c), whether or not they raise in turn.
use tiny_os.Prelude.{
  ℕ, zero, suc, ◌+◌, ◌<◌, ◌≤◌, ◌≡◌, refl, Bool, true, false, not, Option, some, List, [], ◌∷◌, ◌++◌,
  arith, ◌==◌, ◌&&◌, if◌then◌else◌, ap, sym, ◌∙◌, map, length, append-nil,
}
use tiny_os.Exceptions.{
  Frame, Exceptions, run_catchers, run_finalizers, exception_unwind, raise_at, raise_exception,
  exc_exit_at, exc_exit_try,
}

-- The handlers of some frames, in the order in which an exception meets them.
abbrev pub handlers : List Frame → List ℕ
handlers [] = []
handlers (f ∷ fs) = (f.catchers ++ f.finalizers) ++ handlers fs

abbrev pub called : List (ℕ × ℕ) → List ℕ
called calls = map (λ c. c.0) calls

-- From a frame with the handlers `hs` left, and the frames `rest` under it: that frame and the frames
-- `gone` are popped, and their handlers are run, each once and in order.
abbrev pub Unwound : List ℕ → List Frame → List (ℕ × ℕ) → Option Exceptions → Type 0
Unwound hs rest calls result =
    (x' : Exceptions) × (gone : List Frame) × (result ≡ some x')
    × (rest ≡ gone ++ x'.stack)
    × (called x'.calls ≡ called calls ++ (hs ++ handlers gone))

-- What raise_exception leads to: nothing without a frame, or else the unwinding of the innermost frame.
abbrev pub Raised : List Frame → Exceptions → Option Exceptions → Type 0
Raised [] x result = result ≡ some x
Raised (f ∷ rest) x result = Unwound (f.catchers ++ f.finalizers) rest x.calls result

abbrev pub size : List Frame → ℕ
size [] = 0
size (f ∷ fs) = 1 + length f.catchers + length f.finalizers + size fs

called-snoc :
    (calls : List (ℕ × ℕ)) (h e : ℕ) (hs : List ℕ)
    → called (calls ++ (h, e) ∷ []) ++ hs ≡ called calls ++ h ∷ hs
called-snoc [] h e hs = refl
called-snoc (c ∷ cs) h e hs = ap (λ l. c.0 ∷ l) (called-snoc cs h e hs)

-- A handler has run before the others.
after_call :
    {result : Option Exceptions} (calls : List (ℕ × ℕ)) (h e : ℕ) (hs : List ℕ) (rest : List Frame)
    → Unwound hs rest (calls ++ (h, e) ∷ []) result
    → Unwound (h ∷ hs) rest calls result
after_call calls h e hs rest (x', gone, same, parts, runs) =
    (x', gone, same, parts, runs ∙ called-snoc calls h e (hs ++ handlers gone))

either :
    {r1 r2 : Option Exceptions} (P : Option Exceptions → Type 0) (b : Bool)
    → P r1
    → P r2
    → P (if b then r1 else r2)
either P true u v = u
either P false u v = v

-- The jump to the frame under one whose handlers have all run.
propagates :
    {result : Option Exceptions} (calls : List (ℕ × ℕ)) (rest : List Frame)
    → Raised rest (record { stack = rest; calls = calls }) result
    → Unwound [] rest calls result
propagates calls [] same =
    (record { stack = []; calls = calls }, [], same, refl, sym (append-nil (called calls)))
propagates calls (f ∷ rest) (x', gone, same, parts, runs) =
    (x', f ∷ gone, same, ap (λ l. f ∷ l) parts, runs)

module _ (raises : ℕ → ℕ → Bool) (again : Exceptions → Option Exceptions) (n : ℕ)
    (jumps : (y : Exceptions) → size y.stack < n → Raised y.stack y (again y)) where
  run_finalizers-Unwound :
      (errcode : ℕ) (rest : List Frame) (captured : Bool) (hs : List ℕ) (calls : List (ℕ × ℕ))
      → 1 + length hs + size rest ≤ n
      → Unwound hs rest calls (run_finalizers raises again errcode rest captured hs calls)
  unfolding run_finalizers
  run_finalizers-Unwound errcode rest captured [] calls small =
      let popped : Exceptions = record { stack = rest; calls = calls } in
      either (Unwound [] rest calls) (not (errcode == 0) && not captured)
        (propagates calls rest (jumps popped (omega arith)))
        (popped, [], refl, refl, sym (append-nil (called calls)))
  run_finalizers-Unwound errcode rest captured (h ∷ hs) calls small =
      let calls' = calls ++ (h, errcode) ∷ [] in
      let left : Exceptions = record {
        stack = record { catchers = []; finalizers = hs } ∷ rest;
        calls = calls';
      } in
      after_call calls h errcode hs rest (
        either (Unwound hs rest calls') (raises h errcode) (jumps left (omega arith))
          (run_finalizers-Unwound errcode rest captured hs calls' (omega arith)))

  run_catchers-Unwound :
      (errcode : ℕ) (rest : List Frame) (captured : Bool) (hs fs : List ℕ) (calls : List (ℕ × ℕ))
      → 1 + length hs + length fs + size rest ≤ n
      → Unwound (hs ++ fs) rest calls (run_catchers raises again errcode rest captured hs fs calls)
  unfolding run_catchers
  run_catchers-Unwound errcode rest captured [] fs calls small =
      run_finalizers-Unwound errcode rest captured fs calls (omega arith)
  run_catchers-Unwound errcode rest captured (h ∷ hs) fs calls small =
      let calls' = calls ++ (h, errcode) ∷ [] in
      let left : Exceptions = record {
        stack = record { catchers = hs; finalizers = fs } ∷ rest;
        calls = calls';
      } in
      after_call calls h errcode (hs ++ fs) rest (
        either (Unwound (hs ++ fs) rest calls') (raises h errcode) (jumps left (omega arith))
          (run_catchers-Unwound errcode rest true hs fs calls' (omega arith)))

raise_at-Raised :
    (raises : ℕ → ℕ → Bool) (again : Exceptions → Option Exceptions) (n : ℕ)
    → ((y : Exceptions) → size y.stack < n → Raised y.stack y (again y))
    → (fs : List Frame) (x : Exceptions) → size fs < suc n
    → Raised fs x (raise_at raises again fs x)
unfolding raise_at exception_unwind
raise_at-Raised raises again n jumps [] x enough = refl
raise_at-Raised raises again n jumps (f ∷ rest) x enough =
    run_catchers-Unwound raises again n jumps 1 rest false f.catchers f.finalizers x.calls
      (omega arith)

-- With fuel above the number of frames and handlers, raise_exception comes to an end, whichever handlers
-- raise in turn; without a frame it does nothing, else it pops the innermost frame and perhaps more, and
-- runs the handlers of the popped frames, each once: frame by frame, the catchers before the finalizers.
pub raise_exception-Raised :
    (fuel : ℕ) (raises : ℕ → ℕ → Bool) (x : Exceptions)
    → size x.stack < fuel
    → Raised x.stack x (raise_exception fuel raises x)
unfolding raise_exception
raise_exception-Raised zero raises x enough = absurd (omega arith)
raise_exception-Raised (suc fuel) raises x enough =
    raise_at-Raised raises (λ x'. raise_exception fuel raises x') fuel
      (λ y small. raise_exception-Raised fuel raises y small) x.stack x enough

-- The end of a block runs the finalizers of its frame, each once, and no catcher of it; it pops that
-- frame, and more frames only if a finalizer raises, with all their handlers.
pub exc_exit_try-Unwound :
    (fuel : ℕ) (raises : ℕ → ℕ → Bool) (f : Frame) (rest : List Frame) (calls : List (ℕ × ℕ))
    → size (f ∷ rest) < fuel
    → Unwound f.finalizers rest calls
        (exc_exit_try fuel raises (record { stack = f ∷ rest; calls = calls }))
unfolding exc_exit_try exc_exit_at exception_unwind
exc_exit_try-Unwound fuel raises f rest calls enough =
    run_catchers-Unwound raises (λ x'. raise_exception fuel raises x') fuel
      (λ y small. raise_exception-Raised fuel raises y small) 0 rest false [] f.finalizers calls
      (omega arith)
