-- ===== src/Execute/Arguments.antt =====
-- What a program gets that Execute starts (tinyoslib.c).
use tiny_os.Prelude.{ℕ, ◌+◌, ◌-◌, ◌^◌, ◌<◌, ◌≡◌, some, List, arith, ap, ◌∙◌, subst}
use tiny_os.Kernel.{Kernel}
use tiny_os.Proc.{acquire_pcb, copy_args}
use tiny_os.Proc.Task.{HasTask, sys_exec-HasTask}
use tiny_os.Args.{Memory, argvlen, argvpack, argscount, argvunpack}
use tiny_os.Args.Packed.{Strings, Packed, PointAt, pack_loop-Packed, pack_loop-before}
use tiny_os.Args.RoundTrip.{Unpacks, argscount-Packed, argvunpack-Packed}
use tiny_os.Execute.{
  put_bytes, get_bytes, read_bytes, load_bytes, fill_buffer, execute, exec_wrapper, make_call,
}
use tiny_os.Execute.Copy.{
  Copied, Copied-from, load_bytes-Copied, take-read_bytes, get_bytes-Copied, get_bytes-put_bytes,
  Packed-Copied,
}

-- exec_wrapper calls `prog` with pointers to the strings `ss`.
abbrev pub Calls : ℕ → List (List ℕ) → ℕ → ℕ → Memory → Type 0
Calls prog ss argl args m =
    (argv : List ℕ) × (exec_wrapper argl args m ≡ some (prog, argv)) × PointAt m argv ss

module _ (prog : ℕ) (ss : List (List ℕ)) (args : ℕ) (m : Memory) (small : prog < 256 ^ 8)
    (nz : Strings ss) where
  abbrev buffer : Memory
  buffer = fill_buffer prog ss args m

  buffer-prog : get_bytes 8 args buffer ≡ prog
  unfolding fill_buffer argvpack
  buffer-prog =
      get_bytes-Copied 8 args args (put_bytes 8 prog args m) buffer (λ i lt.
        pack_loop-before ss (args + 8) 0 (put_bytes 8 prog args m) (args + i) (omega arith))
      ∙ get_bytes-put_bytes 8 prog args m small

  buffer-Packed : Packed buffer (args + 8) ss
  unfolding fill_buffer argvpack
  buffer-Packed = pack_loop-Packed ss (args + 8) 0 (put_bytes 8 prog args m)

  exec_wrapper-Calls :
      (b : ℕ) (m' : Memory)
      → Copied (8 + argvlen ss) args buffer b m'
      → Calls prog ss (argvlen ss + 8) b m'
  unfolding exec_wrapper make_call Unpacks
  exec_wrapper-Calls b m' same =
      let packed : Packed m' (b + 8) ss =
        Packed-Copied ss (args + 8) (b + 8) buffer m'
          (Copied-from 8 (argvlen ss) args b buffer m' same) buffer-Packed in
      let (argv, unpacked, at) =
        argvunpack-Packed ss (argvlen ss) (b + 8) m' packed nz (omega arith) in
      let read : get_bytes 8 b m' ≡ prog =
        get_bytes-Copied 8 args b buffer m' (λ i lt. same i (omega arith)) ∙ buffer-prog in
      let left : argvlen ss + 8 - 8 ≡ argvlen ss = omega arith in
      (
        argv,
        ap (λ n. make_call (get_bytes 8 b m') (argvunpack (argscount n (b + 8) m') n (b + 8) m'))
              left
            ∙ ap (λ n. make_call (get_bytes 8 b m') (argvunpack n (argvlen ss) (b + 8) m'))
                (argscount-Packed ss (b + 8) m' packed nz)
            ∙ ap (λ o. make_call (get_bytes 8 b m') o) unpacked
            ∙ ap (λ v. some (v, argv)) read,
        at,
      )

  -- For a program address of 8 bytes and strings without a zero byte: if acquire_PCB finds a process,
  -- Execute gives it the task exec_wrapper and a copy of the buffer; and wherever that copy is put in
  -- memory, exec_wrapper calls the program with pointers to the same strings, in order.
  pub execute-Calls :
      (wrapper p : ℕ) (k : Kernel)
      → (acquire_pcb k).0 ≡ some p
      → let k' = (execute wrapper prog ss args m k).1 in
        (bytes : List ℕ) × HasTask k' p wrapper (argvlen ss + 8) (some bytes)
        × ((b : ℕ) (m' : Memory) → Calls prog ss (argvlen ss + 8) b (load_bytes bytes b m'))
  unfolding execute copy_args
  execute-Calls wrapper p k found =
      let n = argvlen ss + 8 in
      let bytes : List ℕ = read_bytes n args buffer in
      (
        bytes,
        subst (λ l. HasTask (execute wrapper prog ss args m k).1 p wrapper n (some l))
            (take-read_bytes n args buffer) (sys_exec-HasTask p wrapper n (some bytes) k found),
        λ b m'.
            exec_wrapper-Calls b (load_bytes bytes b m')
              (λ i lt. load_bytes-Copied n args b buffer m' i (omega arith)),
      )
