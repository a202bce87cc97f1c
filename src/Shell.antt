-- ===== src/Shell.antt =====
-- tinyos_shell.c: programs of the shell that compute something, and how it splits a command line. A
-- character is its code, and what a program reads is a list of them; what it prints is a list.
pub mod Tower
pub mod Pipeline
pub mod Words
use tiny_os.Prelude.{
  ℕ, zero, suc, ◌+◌, Bool, true, false, ◌==◌, ◌||◌, ◌&&◌, not, Option, none, some, List, [], ◌∷◌,
  ◌++◌, if◌then◌else◌,
}

-- The moves that hanoi prints, from the first tile to the second.
unfoldable pub hanoi : ℕ → ℕ → ℕ → ℕ → List (ℕ × ℕ)
hanoi zero a b c = []
hanoi (suc n) a b c = hanoi n a c b ++ (a, b) ∷ hanoi n c b a

abbrev pub newline : ℕ
newline = 10

-- isblank in the C locale: a space or a tab
unfoldable pub isblank : ℕ → Bool
isblank c = (c == 32) || (c == 9)

pub record Counts : Type 0 where
  pub nline : ℕ
  pub nword : ℕ
  pub nchar : ℕ
  pub wspace : Bool

-- The body of the loop of WordCount.
unfoldable pub count_char : ℕ → Counts → Counts
count_char c k =
    let k1 = record k { nchar = k.nchar + 1 } in
    let k2 =
      if k1.wspace && not (isblank c)
      then record k1 { wspace = false; nword = k1.nword + 1 }
      else k1 in
    let k3 = if c == newline then record k2 { nline = k2.nline + 1; wspace = true } else k2 in
    if isblank c then record k3 { wspace = true } else k3

unfoldable pub count_loop : List ℕ → Counts → Counts
count_loop [] k = k
count_loop (c ∷ cs) k = count_loop cs (count_char c k)

unfoldable pub word_count : List ℕ → Counts
unfolding count_loop
word_count cs = count_loop cs (record { nline = 0; nword = 0; nchar = 0; wspace = true })

-- The first loop of process_line: `i` is where it is in `argv`, `start` and `vargc` are the entries of the
-- current fragment in Vargv and Vargc. The result has both for each fragment; Vargv of an empty fragment
-- is not set, and here `start` is what it would be set to.
unfoldable pub split_loop : {A : Type 0} → (A → Bool) → List A → ℕ → ℕ → ℕ → List (ℕ × ℕ)
split_loop is_pipe [] i start vargc = (start, vargc) ∷ []
split_loop is_pipe (s ∷ ss) i start vargc =
    let next = split_loop is_pipe ss (i + 1) (i + 1) 0 in
    let more = split_loop is_pipe ss (i + 1) start (vargc + 1) in
    if is_pipe s then (start, vargc) ∷ next else more

unfoldable pub split_line : {A : Type 0} → (A → Bool) → List A → List (ℕ × ℕ)
split_line is_pipe argv = split_loop is_pipe argv 0 0 0

-- The loop that looks for the command; `names` are those of COMMANDS, up to the null pointer, and
-- `same` is strcmp with the name that is asked for.
unfoldable pub getprog_from : {A : Type 0} → (A → Bool) → List A → ℕ → Option ℕ
getprog_from same [] c = none
getprog_from same (name ∷ names) c =
    let later = getprog_from same names (c + 1) in if same name then some c else later

unfoldable pub getprog_byname : {A : Type 0} → (A → Bool) → List A → Option ℕ
getprog_byname same names = getprog_from same names 0

-- The loop of programs: `c++` in its test counts the null pointer too.
unfoldable pub programs_from : {A : Type 0} → List A → ℕ → ℕ
programs_from [] c = c + 1
programs_from (name ∷ names) c = programs_from names (c + 1)

unfoldable pub programs : {A : Type 0} → List A → ℕ
programs names = programs_from names 0
