-- ===== src/Execute.antt =====
-- tinyoslib.c: Execute and exec_wrapper, which start a program with a vector of strings. Memory is as in
-- util.h's argument vectors; a program is named by its address, of 8 bytes, the lowest first.
pub mod Copy
pub mod Arguments
use tiny_os.Prelude.{
  ℕ, zero, suc, ◌+◌, ◌-◌, ◌*◌, ◌/◌, ◌%◌, Option, none, some, List, [], ◌∷◌, ℤ, update,
}
use tiny_os.Kernel.{Kernel}
use tiny_os.Proc.{sys_exec}
use tiny_os.Args.{Memory, argvlen, argvpack, argscount, argvunpack}

abbrev pub size_of_program : ℕ
size_of_program = 8

-- `memcpy(args, &prog, sizeof(prog))`, and back, for `n` bytes.
unfoldable pub put_bytes : ℕ → ℕ → ℕ → Memory → Memory
put_bytes zero v a m = m
put_bytes (suc n) v a m = put_bytes n (v / 256) (a + 1) (update m a (v % 256))

unfoldable pub get_bytes : ℕ → ℕ → Memory → ℕ
get_bytes zero a m = 0
get_bytes (suc n) a m = m a + 256 * get_bytes n (a + 1) m

-- The `n` bytes from `a` on, and the copy of bytes to `a`: the `memcpy` of Exec.
unfoldable pub read_bytes : ℕ → ℕ → Memory → List ℕ
read_bytes zero a m = []
read_bytes (suc n) a m = m a ∷ read_bytes n (a + 1) m

unfoldable pub load_bytes : List ℕ → ℕ → Memory → Memory
load_bytes [] a m = m
load_bytes (c ∷ cs) a m = update (load_bytes cs (a + 1) m) a c

-- The buffer of Execute, at `args`.
unfoldable pub fill_buffer : ℕ → List (List ℕ) → ℕ → Memory → Memory
unfolding put_bytes
fill_buffer prog argv args m =
    (argvpack (args + size_of_program) argv (put_bytes size_of_program prog args m)).1

-- Execute; the task exec_wrapper is at `wrapper`, the buffer on the stack at `args`.
unfoldable pub execute : ℕ → ℕ → List (List ℕ) → ℕ → Memory → Kernel → ℤ × Kernel
unfolding fill_buffer read_bytes
execute wrapper prog argv args m k =
    let argl = argvlen argv + size_of_program in
    sys_exec (some wrapper) argl (some (read_bytes argl args (fill_buffer prog argv args m))) k

unfoldable pub make_call : ℕ → Option (List ℕ × ℕ) → Option (ℕ × List ℕ)
make_call prog none = none
make_call prog (some (argv, end)) = some (prog, argv)

-- exec_wrapper: the program that it calls, and the pointers `argv`.
unfoldable pub exec_wrapper : ℕ → ℕ → Memory → Option (ℕ × List ℕ)
unfolding make_call get_bytes
exec_wrapper argl args m =
    let prog = get_bytes size_of_program args m in
    let argl' = argl - size_of_program in
    let args' = args + size_of_program in
    make_call prog (argvunpack (argscount argl' args' m) argl' args' m)
