-- ===== src/Streams/Counted.antt =====
-- The invariant of reference counting, and the basic steps that keep it. While a system call runs it
-- holds references in its local variables: `held` lists them, and `fresh` the blocks that it has
-- acquired and not yet referred to.
use tiny_os.Prelude.{
  ℕ, ◌+◌, ◌≤◌, ◌<◌, ◌≡◌, refl, Bool, true, false, none, some, List, [], ◌∷◌, arith, ◌==◌, has,
  erase, count, length, Distinct, count-le-length, count-erase, length-erase, has→count,
  Distinct-erase, has-erase_self, has-erase_ne, has-append, Distinct-append_one, inl, inr,
  Bool-cases,
}
use tiny_os.Kernel.{max_proc, max_files, max_fileid, Kernel, set_fid}
use tiny_os.Streams.{acquire_from, acquire_fcb, release_fcb, fcb_incref, fcb_decref}
use tiny_os.Streams.Counts.{refs, refs-le, refs-set_fid, points-le-refs}

-- The references to `f`, from file tables and from local variables.
abbrev pub uses : List ℕ → Kernel → ℕ → ℕ
uses held k f = refs k.pt f + count f held

abbrev pub is_free : Kernel → ℕ → Bool
is_free k f = has f k.fcb_freelist

pub record BlockOk (fresh held : List ℕ) (k : Kernel) (f : ℕ) : Type 0 where
  -- A block on the free list is not referred to, and not acquired.
  pub unused : is_free k f ≡ true → (uses held k f ≡ 0) × (has f fresh ≡ false) × (f < max_files)
  -- The count of any other block is the number of its references.
  pub counted : is_free k f ≡ false → f < max_files → (k.ft f).refcount ≡ uses held k f
  -- No block leaks.
  pub kept : is_free k f ≡ false → f < max_files → has f fresh ≡ false → 0 < uses held k f
  pub in_range : 0 < uses held k f → f < max_files
  pub newly : has f fresh ≡ true → (uses held k f ≡ 0) × (f < max_files)

pub record Counted (fresh held : List ℕ) (k : Kernel) : Type 0 where
  pub distinct : Distinct k.fcb_freelist
  pub distinct_fresh : Distinct fresh
  pub few : length held ≤ max_proc
  pub blocks : (f : ℕ) → BlockOk fresh held k f

module _ {fresh held : List ℕ} {k : Kernel} (c : Counted fresh held k) where
  pub fcb_incref-Counted :
      (f : ℕ)
      → is_free k f ≡ false
      → f < max_files
      → length held < max_proc
      → Counted (erase f fresh) (f ∷ held) (fcb_incref f k)
  unfolding fcb_incref count
  fcb_incref-Counted f used lt room = record {
    distinct = c.distinct;
    distinct_fresh = Distinct-erase f fresh c.distinct_fresh;
    few = omega arith;
    blocks = λ g. elim (Bool-cases (g == f)) [
      | inl same ↦ ground (
        arith,
        c.blocks g,
        refs-le k.pt g,
        count-le-length g held,
        has-erase_self f fresh c.distinct_fresh,
      )
      | inr other ↦ ground (arith, c.blocks g, has-erase_ne g f fresh other)
    ];
  }

  -- The last reference returns the block to the free list.
  pub fcb_decref-Counted :
      (f : ℕ) → has f held ≡ true → Counted fresh (erase f held) (fcb_decref f k).1
  unfolding fcb_decref
  fcb_decref-Counted f h = record {
    distinct =
        ground (arith, c.distinct, c.blocks f, Distinct-append_one k.fcb_freelist f, pos_count);
    distinct_fresh = c.distinct_fresh;
    few = omega (arith, c.few, length-erase f held);
    blocks = λ g. elim (Bool-cases (g == f)) [
      | inl same ↦ ground (
        arith,
        c.blocks g,
        refs-le k.pt g,
        count-le-length g held,
        count-erase g f held,
        pos_count,
        has-append g k.fcb_freelist (f ∷ []),
      )
      | inr other ↦
          ground (arith, c.blocks g, count-erase g f held, has-append g k.fcb_freelist (f ∷ []))
    ];
  }
    where
      pos_count : 0 < count f held
      pos_count = has→count f held h

  pub acquire_fcb-Counted :
      {f : ℕ} → (acquire_fcb k).0 ≡ some f → Counted (f ∷ fresh) held (acquire_fcb k).1
  unfolding acquire_fcb
  acquire_fcb-Counted {f} e = acquired k.fcb_freelist refl e
    where
      acquired :
          (fs : List ℕ)
          → k.fcb_freelist ≡ fs
          → (acquire_from fs k).0 ≡ some f
          → Counted (f ∷ fresh) held (acquire_from fs k).1
      acquired [] q e = cc
      acquired (g ∷ fs) q e = record {
        distinct = ground (arith, c.distinct);
        distinct_fresh = ground (arith, c.distinct_fresh, c.blocks f);
        few = c.few;
        blocks = λ h. ground (arith, c.blocks h, c.distinct);
      }

  pub release_fcb-Counted :
      (f : ℕ) → has f fresh ≡ true → Counted (erase f fresh) held (release_fcb f k)
  unfolding release_fcb
  release_fcb-Counted f h = record {
    distinct = ground (arith, c.distinct, c.blocks f, Distinct-append_one k.fcb_freelist f);
    distinct_fresh = Distinct-erase f fresh c.distinct_fresh;
    few = c.few;
    blocks = λ g. elim (Bool-cases (g == f)) [
      | inl same ↦ ground (
        arith,
        c.blocks g,
        has-append g k.fcb_freelist (f ∷ []),
        has-erase_self f fresh c.distinct_fresh,
      )
      | inr other ↦
          ground
            (arith, c.blocks g, has-append g k.fcb_freelist (f ∷ []), has-erase_ne g f fresh other)
    ];
  }

  module _ (p i : ℕ) (hp : p < max_proc) (hi : i < max_fileid) where
    -- A held reference is stored in an empty entry.
    pub set_fid-Counted :
        (f : ℕ)
        → (k.pt p).fidt i ≡ none
        → has f held ≡ true
        → Counted fresh (erase f held) (set_fid p i (some f) k)
    unfolding set_fid
    set_fid-Counted f e h = record {
      distinct = c.distinct;
      distinct_fresh = c.distinct_fresh;
      few = omega (arith, c.few, length-erase f held);
      blocks = λ g.
          ground (arith, c.blocks g, count-erase g f held, refs-set_fid k p i (some f) hp hi g);
    }

    -- A reference is moved from the table to a local variable.
    pub set_fid-none-Counted :
        {f : ℕ}
        → (k.pt p).fidt i ≡ some f
        → length held < max_proc
        → Counted fresh (f ∷ held) (set_fid p i none k)
    unfolding set_fid count
    set_fid-none-Counted {f} e room = record {
      distinct = c.distinct;
      distinct_fresh = c.distinct_fresh;
      few = omega arith;
      blocks = λ g. ground (arith, c.blocks g, refs-set_fid k p i none hp hi g);
    }

    -- An entry refers to a block in use.
    pub entry-used :
        {f : ℕ}
        → (k.pt p).fidt i ≡ some f
        → (is_free k f ≡ false) × (has f fresh ≡ false) × (f < max_files)
    entry-used {f} e = ground (arith, c.blocks f, points-le-refs k.pt p i f hp hi)

-- The order of the acquired blocks does not matter.
pub Counted-same :
    {fresh held : List ℕ} {k : Kernel} (fresh' : List ℕ)
    → Distinct fresh'
    → ((f : ℕ) → has f fresh' ≡ has f fresh)
    → Counted fresh held k
    → Counted fresh' held k
Counted-same fresh' d same c = record {
  distinct = c.distinct;
  distinct_fresh = d;
  few = c.few;
  blocks = λ f. ground (arith, c.blocks f, same f);
}
