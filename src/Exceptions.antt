-- ===== src/Exceptions.antt =====
-- util.c and util.h: exceptions. The exception stack of a context is the list of its frames, the innermost
-- first. A handler is named by a number, and `raises h e` says whether it calls raise_exception when it
-- is run with the error code `e`; what else a handler does is not in the state. A longjmp goes to the
-- setjmp of the innermost frame, which calls __exc_try with the code 1.
pub mod Unwind
pub mod Caught
use tiny_os.Prelude.{
  ℕ, zero, suc, Bool, true, false, Option, none, some, List, [], ◌∷◌, ◌++◌, ◌==◌, ◌&&◌, not,
  if◌then◌else◌,
}

-- exception_stack_frame, but for `next` and `jbuf`
pub record Frame : Type 0 where
  pub catchers : List ℕ
  pub finalizers : List ℕ

-- `calls` are the handlers that have been run, with their error codes, oldest first.
pub record Exceptions : Type 0 where
  pub stack : List Frame
  pub calls : List (ℕ × ℕ)

-- TRY_WITH, up to the body of the block: __exc_push_frame of a frame without handlers
unfoldable pub exc_push_frame : Exceptions → Exceptions
exc_push_frame x = record x { stack = record { catchers = []; finalizers = [] } ∷ x.stack }

abbrev pub on_top : (Frame → Frame) → List Frame → List Frame
on_top f [] = []
on_top f (frame ∷ rest) = f frame ∷ rest

-- ON_ERROR and FINALLY, in the block of the innermost frame
unfoldable pub on_error : ℕ → Exceptions → Exceptions
on_error h x = record x {
  stack = on_top (λ frame. record frame { catchers = h ∷ frame.catchers }) x.stack;
}

unfoldable pub finally : ℕ → Exceptions → Exceptions
finally h x = record x {
  stack = on_top (λ frame. record frame { finalizers = h ∷ frame.finalizers }) x.stack;
}

-- exception_unwind from its second loop on. `again` is what raise_exception leads to, `rest` the frames
-- after the one that is unwound.
pub run_finalizers :
    (ℕ → ℕ → Bool)
    → (Exceptions → Option Exceptions)
    → ℕ
    → List Frame
    → Bool
    → List ℕ
    → List (ℕ × ℕ)
    → Option Exceptions
run_finalizers raises again errcode rest captured [] calls =
    let popped : Exceptions = record { stack = rest; calls = calls } in
    if not (errcode == 0) && not captured then again popped else some popped
run_finalizers raises again errcode rest captured (h ∷ hs) calls =
    let calls' = calls ++ (h, errcode) ∷ [] in
    let more = run_finalizers raises again errcode rest captured hs calls' in
    if raises h errcode
    then again (record { stack = record { catchers = []; finalizers = hs } ∷ rest; calls = calls' })
    else more

-- exception_unwind from its first loop on.
pub run_catchers :
    (ℕ → ℕ → Bool)
    → (Exceptions → Option Exceptions)
    → ℕ
    → List Frame
    → Bool
    → List ℕ
    → List ℕ
    → List (ℕ × ℕ)
    → Option Exceptions
run_catchers raises again errcode rest captured [] fs calls =
    run_finalizers raises again errcode rest captured fs calls
run_catchers raises again errcode rest captured (h ∷ hs) fs calls =
    let calls' = calls ++ (h, errcode) ∷ [] in
    let more = run_catchers raises again errcode rest true hs fs calls' in
    if raises h errcode
    then again (record { stack = record { catchers = hs; finalizers = fs } ∷ rest; calls = calls' })
    else more

unfoldable pub exception_unwind :
    (ℕ → ℕ → Bool)
    → (Exceptions → Option Exceptions)
    → ℕ
    → Frame
    → List Frame
    → List (ℕ × ℕ)
    → Option Exceptions
exception_unwind raises again errcode frame rest calls =
    run_catchers raises again errcode rest false frame.catchers frame.finalizers calls

unfoldable pub raise_at :
    (ℕ → ℕ → Bool) → (Exceptions → Option Exceptions) → List Frame → Exceptions → Option Exceptions
unfolding exception_unwind
raise_at raises again [] x = some x
raise_at raises again (frame ∷ rest) x = exception_unwind raises again 1 frame rest x.calls

-- raise_exception, up to where the program goes on: after the block of the frame that was popped last, or,
-- if there is no frame, after the call. `fuel` bounds the jumps.
unfoldable pub raise_exception : ℕ → (ℕ → ℕ → Bool) → Exceptions → Option Exceptions
unfolding raise_at
raise_exception zero raises x = none
raise_exception (suc fuel) raises x =
    raise_at raises (λ x'. raise_exception fuel raises x') x.stack x

-- The end of a block: __exc_exit_try drops the catchers and unwinds with the code 0.
unfoldable pub exc_exit_at : ℕ → (ℕ → ℕ → Bool) → List Frame → List (ℕ × ℕ) → Option Exceptions
unfolding exception_unwind
exc_exit_at fuel raises [] calls = none
exc_exit_at fuel raises (frame ∷ rest) calls =
    exception_unwind raises (λ x'. raise_exception fuel raises x') 0
      (record { catchers = []; finalizers = frame.finalizers }) rest calls

unfoldable pub exc_exit_try : ℕ → (ℕ → ℕ → Bool) → Exceptions → Option Exceptions
unfolding exc_exit_at
exc_exit_try fuel raises x = exc_exit_at fuel raises x.stack x.calls
