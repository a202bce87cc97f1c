-- ===== src/Tests/Programs.antt =====
-- Exceptions, Execute and the shell's programs at concrete inputs.
use tiny_os.Prelude.{
  ℕ, ◌+◌, ◌≡◌, refl, Bool, false, ◌==◌, none, some, List, [], ◌∷◌, if◌then◌else◌, arith, map,
  length, pos,
}
use tiny_os.Exceptions.{Frame, raise_exception}
use tiny_os.Exceptions.Unwind.{Unwound, raise_exception-Raised}
use tiny_os.Exceptions.Caught.{handled, raise_exception-handled}
use tiny_os.Kernel.{Kernel, free, nulldev_fops}
use tiny_os.Proc.{acquire_pcb}
use tiny_os.Proc.Task.{HasTask}
use tiny_os.Args.{argvlen}
use tiny_os.Execute.{execute, load_bytes}
use tiny_os.Execute.Arguments.{Calls, execute-Calls}
use tiny_os.Shell.{hanoi, split_line, split_loop, word_count, count_loop, count_char, isblank}
use tiny_os.Shell.Tower.{Moved, hanoi-Moved}
use tiny_os.Shell.Pipeline.{piece, split_line-between}

-- The inner frame has a catcher, 1, and finalizers 2 and 3; the outer one has the finalizer 4.
abbrev nested : List Frame
nested =
    record { catchers = 1 ∷ []; finalizers = 2 ∷ 3 ∷ [] }
    ∷ record { catchers = []; finalizers = 4 ∷ [] }
    ∷ []

-- Finalizer 2 raises.
abbrev second_raises : ℕ → ℕ → Bool
second_raises h e = h == 2

raise_exception-Raised_example :
    Unwound
      (1 ∷ 2 ∷ 3 ∷ [])
      (record { catchers = []; finalizers = 4 ∷ [] } ∷ [])
      []
      (raise_exception 7 second_raises (record { stack = nested; calls = [] }))
raise_exception-Raised_example =
    raise_exception-Raised 7 second_raises (record { stack = nested; calls = [] }) (omega arith)

raise_exception-handled_example :
    raise_exception 3 (λ h e. false) (record { stack = nested; calls = [] })
    ≡ some (handled nested [])
raise_exception-handled_example =
    raise_exception-handled (λ h e. false) (λ h e. refl) 3 nested [] (omega arith)

-- Tiles 1 to 3, with three disks on the first.
abbrev three_disks : ℕ → List ℕ
three_disks t = if t == 1 then 1 ∷ 2 ∷ 3 ∷ [] else []

hanoi-Moved_example : Moved 3 1 2 [] three_disks (hanoi 3 1 2 3)
hanoi-Moved_example = hanoi-Moved 3 1 2 3 [] three_disks refl refl refl refl tt tt tt

-- The command line 5 6 | 7, where 0 is the pipe.
abbrev is_zero : ℕ → Bool
is_zero s = s == 0

split_line-between_example :
    (map (λ p. piece is_zero p.0 p.1 (5 ∷ 6 ∷ 0 ∷ 7 ∷ [])) (split_line is_zero (5 ∷ 6 ∷ 0 ∷ 7 ∷ []))
      ≡ (5 ∷ 6 ∷ []) ∷ (7 ∷ []) ∷ [])
    × (length (split_line is_zero (5 ∷ 6 ∷ 0 ∷ 7 ∷ [])) ≡ 2)
split_line-between_example = split_line-between is_zero (5 ∷ 6 ∷ 0 ∷ 7 ∷ [])

-- Only pipes: one more fragment than strings.
only_pipes : split_line is_zero (0 ∷ 0 ∷ []) ≡ (0, 0) ∷ (1, 0) ∷ (2, 0) ∷ []
unfolding split_line split_loop
only_pipes = refl

-- Two newlines are counted as two words.
two_newlines : (word_count (10 ∷ 10 ∷ [])).nword ≡ 2
unfolding word_count count_loop count_char isblank
two_newlines = refl

-- Process 1 runs, and process 2 is free.
abbrev one_process : Kernel
one_process = record {
  pt = λ p. record {
    pstate = free;
    parent = none;
    exitval = pos 0;
    main_thread = none;
    main_task = none;
    argl = 0;
    args = none;
    children_list = [];
    exited_list = [];
    fidt = λ i. none;
  };
  pcb_freelist = some 2;
  process_count = 1;
  curproc = 1;
  ft = λ f. record { refcount = 0; streamobj = none; streamfunc = nulldev_fops };
  fcb_freelist = [];
  devnum = λ d. 1;
  calls = [];
}

second_process : (acquire_pcb one_process).0 ≡ some 2
unfolding acquire_pcb
second_process = refl

abbrev hi : List (List ℕ)
hi = (104 ∷ 105 ∷ []) ∷ []

execute-Calls_example :
    let k' = (execute 900 4660 hi 64 (λ a. 0) one_process).1 in
    (bytes : List ℕ) × HasTask k' 2 900 (argvlen hi + 8) (some bytes)
    × ((b : ℕ) (m' : ℕ → ℕ) → Calls 4660 hi (argvlen hi + 8) b (load_bytes bytes b m'))
execute-Calls_example =
    execute-Calls 4660 hi 64 (λ a. 0) (omega arith) ((refl, (refl, tt)), tt) 900 2 one_process
      second_process
