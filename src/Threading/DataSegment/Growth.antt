-- ===== src/Threading/DataSegment/Growth.antt =====
-- The loop of `extend_data_by` of kernel/src/threading/processes.rs that maps pages.
use safa_os.Prelude.{
  ℕ, zero, suc, ◌+◌, ◌*◌, ◌^◌, ◌≤◌, ◌<◌, ◌≡◌, refl, ap, ◌∙◌, inl, inr, ltb, lt→ltb, Option, some,
  Result, ok, err, arith, ltb→lt, Bool-cases,
}
use mathlib.Core.Path.{subst}
use safa_os.Memory.FrameAllocator.{Frame}
use safa_os.Memory.Paging.{Memory, MapToError, page_containing, zeroize}
use safa_os.Memory.Paging.Walk.{Result-cases}
use safa_os.Memory.Paging.Pages.{map_fresh}
use safa_os.Memory.Paging.Fill.{pair_of, Filled, map_fresh-Filled}
use safa_os.Threading.Processes.{AliveProcessState}
use safa_os.Threading.DataSegment.{
  data_break_actual, user_page, page_extend_data, extend_up_to, pages_missing,
}
use safa_os.Threading.DataSegment.Segment.{
  IsSegment, user_page-IsPresent, actual_value, actual_page, extended,
}

-- the state after some more pages, where the loop did not fail
pub record IsGrown (this this' : AliveProcessState) (m' : Memory) (root goal : ℕ) : Type 0 where
  pub segment : IsSegment m' root this'
  pub pages : ℕ
  pub only_pages : this' ≡ record this { data_pages = pages }
  pub enough : goal ≤ this'.data_start + this'.data_pages * 4096

abbrev Loop : Type 0
Loop = Memory × AliveProcessState × Result {0, 0} Unit MapToError

-- the rest of the loop behind one page
abbrev proceed : ℕ → ℕ → ℕ → Loop → Option Loop
proceed fuel root goal (m, this, ok _) = extend_up_to fuel m root this goal
proceed fuel root goal (m, this, err e) = some (m, this, err e)

module _ (m : Memory) (root : ℕ) (this : AliveProcessState) where
  page_extend_data-ok :
      (f : Frame)
      → (map_fresh m root (page_containing (data_break_actual this)) user_page).1 ≡ ok f
      → page_extend_data m root this ≡ (
        zeroize
            (map_fresh m root (page_containing (data_break_actual this)) user_page).0
            f.start_address,
        record this { data_pages = this.data_pages + 1 },
        ok tt,
      )
  unfolding page_extend_data
  page_extend_data-ok f e = rw (page_extend_data, e)

  page_extend_data-err :
      (e : MapToError)
      → (map_fresh m root (page_containing (data_break_actual this)) user_page).1 ≡ err e
      → page_extend_data m root this
        ≡ ((map_fresh m root (page_containing (data_break_actual this)) user_page).0, this, err e)
  unfolding page_extend_data
  page_extend_data-err e h = rw (page_extend_data, h)

  up-stop :
      (fuel goal : ℕ)
      → goal ≤ data_break_actual this
      → extend_up_to fuel m root this goal ≡ some (m, this, ok tt)
  unfolding extend_up_to
  up-stop zero goal h = ground (arith, h)
  up-stop (suc fuel) goal h = ground (arith, h)

  module _ (fuel goal : ℕ) (short : data_break_actual this < goal) (m' : Memory)
      (this' : AliveProcessState) where
    up-more :
        page_extend_data m root this ≡ (m', this', ok tt)
        → extend_up_to (suc fuel) m root this goal ≡ extend_up_to fuel m' root this' goal
    unfolding extend_up_to
    up-more h = rw (lt→ltb _ _ short) (ap (proceed fuel root goal) h)

    up-fail :
        (e : MapToError)
        → page_extend_data m root this ≡ (m', this', err e)
        → extend_up_to (suc fuel) m root this goal ≡ some (m', this', err e)
    unfolding extend_up_to
    up-fail e h = rw (lt→ltb _ _ short) (ap (proceed fuel root goal) h)

-- what the loop of `extend_data_by` comes to
pub record Looped (root : ℕ) (this : AliveProcessState) (goal : ℕ) (out : Option Loop)
    : Type 0 where
  pub after : Memory
  pub this' : AliveProcessState
  pub done : Result {0, 0} Unit MapToError
  pub value : out ≡ some (after, this', done)
  pub grown : done ≡ ok tt → IsGrown this this' after root goal

module _ (m : Memory) (root : ℕ) (this : AliveProcessState) (goal : ℕ)
    (segment : IsSegment m root this) where
  Looped-stop :
      (fuel : ℕ)
      → goal ≤ data_break_actual this
      → Looped root this goal (extend_up_to fuel m root this goal)
  Looped-stop fuel le = record {
    after = m;
    this' = this;
    done = ok tt;
    value = up-stop m root this fuel goal le;
    grown = λ _. record {
      segment = segment;
      pages = this.data_pages;
      only_pages = refl;
      enough = omega (arith, le, actual_value m root this segment);
    };
  }

  module _ (fuel : ℕ) (small : goal ≤ 2 ^ 46) (short : data_break_actual this < goal)
      (le : pages_missing this goal ≤ suc fuel)
      (again : (m' : Memory) (this' : AliveProcessState)
        → IsSegment m' root this'
        → pages_missing this' goal ≤ fuel
        → Looped root this' goal (extend_up_to fuel m' root this' goal)) where
    abbrev out : Memory × Result {0, 0} Frame MapToError
    out = map_fresh m root (page_containing (data_break_actual this)) user_page

    Looped-failed :
        (e : MapToError)
        → out.1 ≡ err e
        → Looped root this goal (extend_up_to (suc fuel) m root this goal)
    Looped-failed e failed = record {
      after = out.0;
      this' = this;
      done = err e;
      value = up-fail m root this fuel goal short _ _ e (page_extend_data-err m root this e failed);
      grown = λ clash. cc;
    }

    longer :
        (f : Frame)
        → out.1 ≡ ok f
        → IsSegment
            (zeroize out.0 f.start_address)
            root
            (record this { data_pages = this.data_pages + 1 })
    longer f found =
        let at = actual_value m root this segment in
        extended m root this segment out.0 f (omega (arith, at, short, small)) (
          subst (λ x. Filled m out.0 root x f) (actual_page m root this segment)
            (map_fresh-Filled m out.0 root user_page _ f segment.valid user_page-IsPresent
              (pair_of out refl found)))

    Looped-longer :
        (f : Frame)
        → out.1 ≡ ok f
        → Looped root this goal (extend_up_to (suc fuel) m root this goal)
    Looped-longer f found =
        let next_actual = actual_value _ root _ (longer f found) in
        let rest =
          again _ _ (longer f found)
            (omega (arith, actual_value m root this segment, next_actual, short, le)) in
        record {
          after = rest.after;
          this' = rest.this';
          done = rest.done;
          value =
              up-more m root this fuel goal short _ _ (page_extend_data-ok m root this f found)
              ∙ rest.value;
          grown = λ h.
              let g = rest.grown h in
              record {
                segment = g.segment;
                pages = g.pages;
                only_pages = g.only_pages;
                enough = g.enough;
              };
        }

    Looped-more : Looped root this goal (extend_up_to (suc fuel) m root this goal)
    Looped-more = elim (Result-cases out.1) [
      | inr (e, failed) ↦ Looped-failed e failed
      | inl (f, found) ↦ Looped-longer f found
    ]

pub extend_up_to-Looped :
    (fuel : ℕ) (m : Memory) (root : ℕ) (this : AliveProcessState) (goal : ℕ)
    → IsSegment m root this
    → goal ≤ 2 ^ 46
    → pages_missing this goal ≤ fuel
    → Looped root this goal (extend_up_to fuel m root this goal)
extend_up_to-Looped zero m root this goal segment small le =
    Looped-stop m root this goal segment zero (omega (arith, le))
extend_up_to-Looped (suc fuel) m root this goal segment small le =
    elim (Bool-cases (ltb (data_break_actual this) goal)) [
      | inr stop ↦ Looped-stop m root this goal segment (suc fuel) (ground (arith, stop))
      | inl more ↦
          Looped-more m root this goal segment fuel small (ltb→lt _ _ more) le
            (λ m' this' s l. extend_up_to-Looped fuel m' root this' goal s small l)
    ]
