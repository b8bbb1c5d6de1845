-- ===== src/Memory/Paging/Walk.antt =====
-- The walks of `map_to` and `get_frame` of kernel/src/memory/paging.rs through three levels of
-- tables.
use safa_os.Prelude.{
  ℕ, ◌+◌, ◌≤◌, ◌≡◌, refl, sym, ap, ◌∙◌, inl, inr, Option, some, none, List, [], ◌∷◌, length, arith,
  Option-cases, Result, ok, err, ◌⊎◌,
}
use safa_os.Memory.Align.{Indices, translate}
use safa_os.Memory.FrameAllocator.{Frame}
use safa_os.Memory.Paging.{
  Page, Memory, MapToError, frame_of, mapped_to, map_entry, map_through, mapped_through, get_frame,
  upper_indices,
}
use safa_os.Memory.Paging.Entries.{IsPresent}
use safa_os.Memory.Paging.Graph.{reach}
use safa_os.Memory.Paging.Step.{next_table, leaf, IsValid}
use safa_os.Memory.Paging.Levels.{Mapped, Keeps-refl, Keeps-trans, ok-injective, map_entry-Mapped}

-- the path behind `path` through the entries of a list
abbrev pub onward : List ℕ → List ℕ → List ℕ
onward [] path = path
onward (i ∷ indices) path = onward indices (i ∷ path)

pub Result-cases :
    {A : Type 0} {E : Type 0} (r : Result A E) → ((a : A) × (r ≡ ok a)) ⊎ ((e : E) × (r ≡ err e))
Result-cases (ok a) = inl (a, refl)
Result-cases (err e) = inr (e, refl)

module _ (m : Memory) (t i flags : ℕ) (indices : List ℕ) where
  map_through-ok :
      (t' : ℕ)
      → (map_entry m t i flags).1 ≡ ok t'
      → map_through m t (i ∷ indices) flags ≡ map_through (map_entry m t i flags).0 t' indices flags
  unfolding map_through
  map_through-ok t' e = rw (map_through, e)

  map_through-err :
      (e : MapToError)
      → (map_entry m t i flags).1 ≡ err e
      → map_through m t (i ∷ indices) flags ≡ ((map_entry m t i flags).0, err e)
  unfolding map_through
  map_through-err e h = rw (map_through, h)

module _ (root flags : ℕ) (ready : IsPresent flags) where
  pub map_through-Mapped :
      (m : Memory) (path indices : List ℕ) (t : ℕ)
      → IsValid m root
      → reach (next_table m) root path ≡ some t
      → length path + length indices ≤ 3
      → Mapped m root (onward indices path) (map_through m t indices flags)
  unfolding map_through
  map_through-Mapped m path [] t valid at le = record {
    keeps = Keeps-refl m root valid;
    table = λ s e. at ∙ ap some (ok-injective t s e);
    full = λ e clash. cc;
  }
  map_through-Mapped m path (i ∷ indices) t valid at le =
      let level = map_entry-Mapped m root path t i flags valid ready at (omega (arith, le)) in
      let m' = (map_entry m t i flags).0 in
      elim (Result-cases (map_entry m t i flags).1) [
        | inl (t', e) ↦
            let rest =
              map_through-Mapped m' (i ∷ path) indices t' level.keeps.valid (level.table t' e)
                (omega (arith, le)) in
            rw (map_through-ok m t i flags indices t' e) (record {
              keeps = Keeps-trans m m' _ root level.keeps rest.keeps;
              table = rest.table;
              full = rest.full;
            })
        | inr (failed, e) ↦ rw (map_through-err m t i flags indices failed e) (record {
          keeps = level.keeps;
          table = λ s clash. cc;
          full = λ _ _. level.full failed e;
        })
      ]

reach-onward-none :
    (m : Memory) (root : ℕ) (path indices : List ℕ)
    → reach (next_table m) root path ≡ none
    → reach (next_table m) root (onward indices path) ≡ none
unfolding reach
reach-onward-none m root path [] h = h
reach-onward-none m root path (i ∷ indices) h =
    reach-onward-none m root (i ∷ path) indices (rw (reach, h))

pub mapped_through-reach :
    (m : Memory) (root : ℕ) (path indices : List ℕ) (t : ℕ)
    → reach (next_table m) root path ≡ some t
    → mapped_through m t indices ≡ reach (next_table m) root (onward indices path)
unfolding mapped_through reach
mapped_through-reach m root path [] t at = sym at
mapped_through-reach m root path (i ∷ indices) t at =
    elim (Option-cases (mapped_to (m.cells t i))) [
      | inl e ↦
          rw (mapped_through, e)
            (sym (reach-onward-none m root (i ∷ path) indices (rw (reach, at) e)))
      | inr (t', e) ↦
          rw (mapped_through, e)
            (mapped_through-reach m root (i ∷ path) indices t' (rw (reach, at) e))
    ]

abbrev pub path_of : Indices → List ℕ
path_of t = t.p2 ∷ t.p3 ∷ t.p4 ∷ []

pub get_frame-leaf :
    (m : Memory) (root : ℕ) (page : Page)
    → let t = translate page.start_address in get_frame m root page ≡ leaf m root (path_of t) t.p1
unfolding get_frame reach
get_frame-leaf m root page =
    let t = translate page.start_address in
    ap
      (λ (o : Option ℕ). elim o as (λ _. Option Frame) [
        | some table ↦ frame_of (m.cells table t.p1)
        | none ↦ none
      ])
      (mapped_through-reach m root [] (upper_indices t) root refl)
