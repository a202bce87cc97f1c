-- ===== src/Streams/Calls/Dup2.antt =====
-- sys_Dup2 of kernel_streams.c and the file tables.
use tiny_os.Prelude.{
  ℕ, ◌<◌, ◌≡◌, refl, ◌⊎◌, inl, inr, Option, none, some, arith, ℤ, pos, minus_one, ◌==◌, lt→ltb, ◌≢◌,
  Bool-cases, Option-cases,
}
use tiny_os.Kernel.{max_fileid, Kernel, cur, set_fid}
use tiny_os.Streams.{fcb_incref, fcb_decref, fid_index, dup2_at, sys_dup2}

-- What a successful sys_Dup2 leaves behind: entry `j` refers to the block of entry `i`, and no other
-- entry of any process changes.
pub record Duplicated (k k' : Kernel) (i j : ℕ) : Type 0 where
  pub target : (cur k').fidt j ≡ (cur k).fidt i
  pub others : (p m : ℕ) → (p ≢ k.curproc) ⊎ (m ≢ j) → (k'.pt p).fidt m ≡ (k.pt p).fidt m

dup2_at-Duplicated :
    (k : Kernel) (i j f : ℕ) (n : Option ℕ)
    → (cur k).fidt i ≡ some f
    → (cur k).fidt j ≡ n
    → ((dup2_at j (some f) n k).0 ≡ pos 0) × Duplicated k (dup2_at j (some f) n k).1 i j
unfolding dup2_at fcb_incref fcb_decref set_fid
dup2_at-Duplicated k i j f none ei ej =
    (refl, record { target = ground arith; others = λ p m o. ground arith })
dup2_at-Duplicated k i j f (some g) ei ej = elim (Bool-cases (f == g)) [
  | inl same ↦ rw same (refl, record { target = ground arith; others = λ p m o. refl })
  | inr other ↦ rw other (refl, record { target = ground arith; others = λ p m o. ground arith })
]

-- sys_Dup2 on legal ids: if the old one is open, it returns 0, both refer to the same block, and
-- no other entry of a file table changes; if it is closed, it fails and changes nothing.
pub sys_dup2-legal :
    (k : Kernel) (i j : ℕ)
    → i < max_fileid
    → j < max_fileid
    → ((f : ℕ) × ((cur k).fidt i ≡ some f)
        × ((sys_dup2 (pos i) (pos j) k).0 ≡ pos 0)
        × Duplicated k (sys_dup2 (pos i) (pos j) k).1 i j)
      ⊎ (((cur k).fidt i ≡ none) × (sys_dup2 (pos i) (pos j) k ≡ (minus_one, k)))
unfolding sys_dup2
sys_dup2-legal k i j hi hj =
    rw (lt→ltb i _ hi, lt→ltb j _ hj)
      (elim (Option-cases ((cur k).fidt i)) [
        | inl closed ↦ inr (closed, rw closed)
        | inr (f, e) ↦ let d = dup2_at-Duplicated k i j f _ e refl in inl (f, e, rw e d.0, rw e d.1)
      ])

-- If either id is illegal, sys_Dup2 fails and changes nothing.
pub sys_dup2-illegal :
    (k : Kernel) (oldfd newfd : ℤ)
    → (fid_index oldfd ≡ none) ⊎ (fid_index newfd ≡ none)
    → sys_dup2 oldfd newfd k ≡ (minus_one, k)
unfolding sys_dup2
sys_dup2-illegal k oldfd newfd h = ground arith
