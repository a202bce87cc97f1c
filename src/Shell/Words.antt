-- ===== src/Shell/Words.antt =====
-- What WordCount counts (tinyos_shell.c).
use tiny_os.Prelude.{
  ℕ, ◌+◌, ◌≡◌, Bool, true, not, ◌==◌, ◌||◌, ◌&&◌, if◌then◌else◌, List, [], ◌∷◌, arith, ap, ◌∙◌,
  length,
}
use tiny_os.Shell.{newline, isblank, Counts, count_char, count_loop, word_count}

-- Whether a word may start after `c`.
abbrev pub parts_words : ℕ → Bool
parts_words c = isblank c || (c == newline)

-- The characters that are not blank and stand first, or after a blank or a newline; `first` is for the
-- character before.
abbrev pub words : Bool → List ℕ → ℕ
words first [] = 0
words first (c ∷ cs) = (if first && not (isblank c) then 1 else 0) + words (parts_words c) cs

abbrev pub lines : List ℕ → ℕ
lines [] = 0
lines (c ∷ cs) = (if c == newline then 1 else 0) + lines cs

module _ (c : ℕ) (k : Counts) where
  count_char-nword :
      (count_char c k).nword ≡ k.nword + (if k.wspace && not (isblank c) then 1 else 0)
  unfolding count_char isblank
  count_char-nword = ground arith

  count_char-nline : (count_char c k).nline ≡ k.nline + (if c == newline then 1 else 0)
  unfolding count_char isblank
  count_char-nline = ground arith

  count_char-nchar : (count_char c k).nchar ≡ k.nchar + 1
  unfolding count_char isblank
  count_char-nchar = ground arith

  count_char-wspace : (count_char c k).wspace ≡ parts_words c
  unfolding count_char isblank
  count_char-wspace = ground arith

count_loop-words :
    (cs : List ℕ) (k : Counts)
    → ((count_loop cs k).nword ≡ k.nword + words k.wspace cs)
      × ((count_loop cs k).nline ≡ k.nline + lines cs)
      × ((count_loop cs k).nchar ≡ k.nchar + length cs)
unfolding count_loop
count_loop-words [] k = (omega arith, omega arith, omega arith)
count_loop-words (c ∷ cs) k =
    let (w, l, n) = count_loop-words cs (count_char c k) in
    (
      w
          ∙ ap (λ b. (count_char c k).nword + words b cs) (count_char-wspace c k)
          ∙ omega (arith, count_char-nword c k),
      omega (arith, l, count_char-nline c k),
      omega (arith, n, count_char-nchar c k),
    )

-- WordCount counts all characters, all newlines, and as words the characters that are not blank and stand
-- first, or after a blank or a newline; a newline is not blank.
pub word_count_lem :
    (cs : List ℕ)
    → ((word_count cs).nword ≡ words true cs)
      × ((word_count cs).nline ≡ lines cs)
      × ((word_count cs).nchar ≡ length cs)
unfolding word_count
word_count_lem cs =
    let (w, l, n) =
      count_loop-words cs (record { nline = 0; nword = 0; nchar = 0; wspace = true }) in
    (omega (arith, w), omega (arith, l), omega (arith, n))
