-- ===== src/Vfs/Listing/Steps.antt =====
-- What a step of a directory iterator gives.
use mathlib.Core.Option.{some-injective}
use safa_os.Prelude.{
  ℕ, suc, ◌+◌, ◌≡◌, refl, sym, ap, ◌∙◌, Option, none, some, List, [], ◌∷◌, ◌++◌, length, drop,
  arith,
}
use safa_os.Vfs.Types.{Outcome, ok, err, panic, >>=-eq-ok}
use safa_os.Threading.Resources.{DirIter}
use safa_os.Vfs.Listing.{DirEntry, Listed, get_from_inode, next_with, next_from, next}

ok-injective : {A : Type 0} (a b : A) → ◌≡◌ {A = Outcome A} (ok a) (ok b) → a ≡ b
ok-injective a b e = cc

module _ (fs : Listed) where
  -- Every id of the list has no inode any more.
  abbrev pub AllGone : List ℕ → Type 0
  AllGone [] = Unit
  AllGone (inode_id ∷ ids) = (fs.get_inode inode_id ≡ ok none) × AllGone ids

  -- The entry is that of the first id that has an inode.
  abbrev pub IsFirst : List ℕ → DirEntry → ℕ → Type 0
  IsFirst ids entry passed =
      (gone : List ℕ) × (inode_id : ℕ) × (rest : List ℕ) × (inode : fs.Inode) × (ids
        ≡ gone ++ inode_id ∷ rest)
      × AllGone gone
      × (passed ≡ suc (length gone))
      × (fs.get_inode inode_id ≡ ok (some inode))
      × (get_from_inode fs inode ≡ ok entry)

  abbrev FromFirst : List ℕ → ℕ → DirEntry → ℕ → Type 0
  FromFirst ids index entry end = (passed : ℕ) × (end ≡ index + passed) × IsFirst ids entry passed

  skip-FromFirst :
      (inode_id : ℕ) (ids : List ℕ) (index : ℕ) (entry : DirEntry) (end : ℕ)
      → fs.get_inode inode_id ≡ ok none
      → FromFirst ids (suc index) entry end
      → FromFirst (inode_id ∷ ids) index entry end
  skip-FromFirst inode_id ids index entry end missing
        (passed, at, (gone, first, rest, inode, split, all_gone, count, found, made)) =
      (
        suc passed,
        omega arith,
        (
          inode_id ∷ gone,
          first,
          rest,
          inode,
          ap (λ l. inode_id ∷ l) split,
          (missing, all_gone),
          ap suc count,
          found,
          made,
        ),
      )

  next_with-FromFirst :
      (inode_id : ℕ) (ids : List ℕ) (index : ℕ) (entry : DirEntry) (end : ℕ)
      → (later : Outcome (Option DirEntry × ℕ))
      → (later ≡ ok (some entry, end) → FromFirst ids (suc index) entry end)
      → (found : Outcome (Option fs.Inode)) → fs.get_inode inode_id ≡ found
      → next_with fs index later found ≡ ok (some entry, end)
      → FromFirst (inode_id ∷ ids) index entry end
  next_with-FromFirst inode_id ids index entry end later go (ok (some inode)) found h =
      let (made, in_made, h1) = >>=-eq-ok (get_from_inode fs inode) _ h in
      let ends = ok-injective _ _ h1 in
      let same : made ≡ entry = some-injective _ _ (ap (λ p. p.0) ends) in
      let at : suc index ≡ end = ap (λ p. p.1) ends in
      (1, omega arith, ([], inode_id, ids, inode, refl, tt, refl, found, in_made ∙ ap ok same))
  next_with-FromFirst inode_id ids index entry end later go (ok none) found h =
      skip-FromFirst inode_id ids index entry end found (go h)
  next_with-FromFirst inode_id ids index entry end later go (err e) found h = cc
  next_with-FromFirst inode_id ids index entry end later go panic found h = cc

  next_from-FromFirst :
      (ids : List ℕ) (index : ℕ) (entry : DirEntry) (end : ℕ)
      → next_from fs ids index ≡ ok (some entry, end)
      → FromFirst ids index entry end
  unfolding next_from
  next_from-FromFirst [] index entry end h = cc
  next_from-FromFirst (inode_id ∷ ids) index entry end h =
      next_with-FromFirst inode_id ids index entry end (next_from fs ids (suc index))
        (next_from-FromFirst ids (suc index) entry end) (fs.get_inode inode_id) refl h

  -- When a step of a directory iterator gives an entry, it is the one of the first inode from the
  -- index on that is still there; the ids passed before it have no inode any more, and the
  -- iterator goes on right behind it.
  pub next-IsFirst :
      (this later : DirIter) (entry : DirEntry)
      → next fs this ≡ ok (some entry, later)
      → (passed : ℕ) × IsFirst (drop this.index this.inode_ids) entry passed
        × (later.inode_ids ≡ this.inode_ids)
        × (later.index ≡ this.index + passed)
  unfolding next
  next-IsFirst this later entry h =
      let (found, in_found, h1) =
        >>=-eq-ok (next_from fs (drop this.index this.inode_ids) this.index) _ h in
      let ends = ok-injective _ _ h1 in
      let gives : found.0 ≡ some entry = ap (λ p. p.0) ends in
      let (passed, at, first) =
        next_from-FromFirst (drop this.index this.inode_ids) this.index entry found.1
          (in_found ∙ ap (λ o. ok (o, found.1)) gives) in
      (passed, first, sym (ap (λ p. p.1.inode_ids) ends), sym (ap (λ p. p.1.index) ends) ∙ at)
