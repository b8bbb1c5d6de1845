-- ===== src/Memory/Paging/Blank.antt =====
-- A memory of 8 frames for page tables of kernel/src/memory/paging.rs, with one table that is
-- empty.
use mathlib.Core.Path.{subst}
use mathlib.Core.Option.{some-injective}
use safa_os.Prelude.{ℕ, ◌≡◌, refl, some, none, List, [], ◌∷◌, arith}
use safa_os.Memory.Paging.{Memory}
use safa_os.Memory.Paging.Entries.{mapped_to-zero}
use safa_os.Memory.Paging.Graph.{reach}
use safa_os.Memory.Paging.Fresh.{IsUsed}
use safa_os.Memory.Paging.Step.{next_table, IsValid}

-- an empty root table in frame 1, with one row of frames
abbrev pub blank : ℕ → Memory
blank row = record {
  cells = λ t i. 0;
  frames = record { bitmap = row ∷ []; usable_frames = 8; unusable_frames = 0 };
}

blank_leads_nowhere :
    (row i : ℕ) (path : List ℕ) → reach (next_table (blank row)) 4096 (i ∷ path) ≡ none
unfolding reach
blank_leads_nowhere row i [] = mapped_to-zero
blank_leads_nowhere row i (j ∷ path) = rw (reach, blank_leads_nowhere row j path)

blank_unique :
    (row : ℕ) (p q : List ℕ) (t : ℕ)
    → reach (next_table (blank row)) 4096 p ≡ some t
    → reach (next_table (blank row)) 4096 q ≡ some t
    → p ≡ q
blank_unique row [] [] t ep eq = refl
blank_unique row [] (j ∷ q) t ep eq = let clash = blank_leads_nowhere row j q in cc
blank_unique row (i ∷ p) q t ep eq = let clash = blank_leads_nowhere row i p in cc

blank_used :
    (row : ℕ) (p : List ℕ) (t : ℕ)
    → IsUsed (blank row).frames 4096
    → reach (next_table (blank row)) 4096 p ≡ some t
    → IsUsed (blank row).frames t
unfolding reach
blank_used row [] t root e = subst (IsUsed (blank row).frames) (some-injective 4096 t e) root
blank_used row (i ∷ p) t root e = let clash = blank_leads_nowhere row i p in cc

pub blank-IsValid : (row : ℕ) → IsUsed (blank row).frames 4096 → IsValid (blank row) 4096
blank-IsValid row root = record {
  fits = omega arith;
  tree = record {
    unique = λ p q t lp lq ep eq. blank_unique row p q t ep eq;
    used = λ p t le e. blank_used row p t root e;
  };
}
