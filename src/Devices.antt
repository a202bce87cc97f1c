-- ===== src/Devices.antt =====
-- kernel_dev.c: the null device and the serial driver. What the machine answers to
-- bios_read_serial and bios_write_serial, call by call, is a list; `none` and `false` say that the port
-- was not ready. A driver that has used up the list has not returned: the result is `none`.
pub mod Serial
use tiny_os.Prelude.{
  ℕ, zero, suc, ◌+◌, ◌%◌, ◌^◌, Bool, true, false, Option, none, some, List, [], ◌∷◌, ◌++◌, ◌==◌,
  ltb, ℤ, pos, negsuc, ◌-◌, if◌then◌else◌, length, take,
}
use tiny_os.Kernel.{DeviceType, dev_null, dev_serial, Kernel}
use tiny_os.Cc.{Cc, cond_broadcast}

-- `size` zero bytes
unfoldable pub zeros : ℕ → List ℕ
zeros zero = []
zeros (suc n) = 0 ∷ zeros n

-- An unsigned int where the C code returns it as an int: from 2 ^ 31 on it is negative.
unfoldable pub to_int : ℕ → ℤ
to_int n = if ltb n (2 ^ 31) then pos n else negsuc (2 ^ 32 - 1 - n)

unfoldable pub nulldev_read : ℕ → ℤ × List ℕ
unfolding to_int
nulldev_read size = (to_int size, zeros size)

unfoldable pub nulldev_write : ℕ → ℤ
unfolding to_int
nulldev_write size = to_int size

-- `sleeps` counts the calls of kernel_wait or yield.
pub record Transfer (A : Type 0) : Type 0 where
  pub count : ℕ
  pub bytes : List ℕ
  pub sleeps : ℕ
  pub rest : List A

-- The loop of serial_read; `bytes` is what is in the buffer.
unfoldable pub read_loop : ℕ → ℕ → List ℕ → ℕ → List (Option ℕ) → Option (Transfer (Option ℕ))
read_loop size count bytes sleeps [] =
    if ltb count size
    then none
    else some (record { count = count; bytes = bytes; sleeps = sleeps; rest = [] })
read_loop size count bytes sleeps (some c ∷ answers) =
    let more = read_loop size ((count + 1) % 2 ^ 32) (bytes ++ c ∷ []) sleeps answers in
    if ltb count size
    then more
    else some (record { count = count; bytes = bytes; sleeps = sleeps; rest = some c ∷ answers })
read_loop size count bytes sleeps (none ∷ answers) =
    let again = read_loop size count bytes (sleeps + 1) answers in
    if ltb count size
    then (if count == 0
        then again
        else some (record { count = count; bytes = bytes; sleeps = sleeps; rest = answers }))
    else some (record { count = count; bytes = bytes; sleeps = sleeps; rest = none ∷ answers })

-- `return count;`, as an int
unfoldable pub return_count : {A : Type 0} → Option (Transfer A) → Option (ℤ × Transfer A)
unfolding to_int
return_count none = none
return_count (some t) = some (to_int t.count, t)

unfoldable pub serial_read : ℕ → List (Option ℕ) → Option (ℤ × Transfer (Option ℕ))
unfolding read_loop return_count
serial_read size answers = return_count (read_loop size 0 [] 0 answers)

abbrev pub drop_one : List ℕ → List ℕ
drop_one [] = []
drop_one (c ∷ cs) = cs

-- The loop of serial_write; `bytes` is what the port has taken, `buf` what is left of the buffer.
unfoldable pub write_loop : ℕ → ℕ → List ℕ → List ℕ → ℕ → List Bool → Option (Transfer Bool)
write_loop size count bytes buf sleeps [] =
    if ltb count size
    then none
    else some (record { count = count; bytes = bytes; sleeps = sleeps; rest = [] })
write_loop size count bytes buf sleeps (true ∷ answers) =
    let more =
      write_loop size ((count + 1) % 2 ^ 32) (bytes ++ take 1 buf) (drop_one buf) sleeps answers in
    if ltb count size
    then more
    else some (record { count = count; bytes = bytes; sleeps = sleeps; rest = true ∷ answers })
write_loop size count bytes buf sleeps (false ∷ answers) =
    let again = write_loop size count bytes buf (sleeps + 1) answers in
    if ltb count size
    then (if count == 0
        then again
        else some (record { count = count; bytes = bytes; sleeps = sleeps; rest = answers }))
    else some (record { count = count; bytes = bytes; sleeps = sleeps; rest = false ∷ answers })

unfoldable pub serial_write : List ℕ → List Bool → Option (ℤ × Transfer Bool)
unfolding write_loop return_count
serial_write buf answers = return_count (write_loop (length buf) 0 [] buf 0 answers)

-- initialize_devices: `ports` is bios_serial_ports().
unfoldable pub initialize_devices : ℕ → Kernel → Kernel
initialize_devices ports k = record k { devnum = table }
  where
    table : DeviceType → ℕ
    table dev_null = 1
    table dev_serial = ports

unfoldable pub device_no : DeviceType → Kernel → ℕ
device_no major k = k.devnum major

-- sys_GetTerminalDevices of kernel_streams.c
unfoldable pub sys_get_terminal_devices : Kernel → ℕ
unfolding device_no
sys_get_terminal_devices k = device_no dev_serial k

unfoldable pub next_port : Option Cc → (Cc → Option Cc) → Option Cc
next_port none more = none
next_port (some s) more = more s

-- serial_rx_handler signals every port, from port `i` on; the condition variable of port `i` is
-- `rx_ready i`, and `fuel` bounds the waiters.
unfoldable pub serial_rx_handler : ℕ → (ℕ → ℕ) → ℕ → ℕ → Cc → Option Cc
serial_rx_handler fuel rx_ready zero i s = some s
serial_rx_handler fuel rx_ready (suc ports) i s =
    next_port (cond_broadcast fuel fuel (rx_ready i) s)
      (λ s'. serial_rx_handler fuel rx_ready ports (i + 1) s')
