-- ===== src/Linker/Checks/Unique.antt =====
-- check_unique_unique, with nref_cmp. `qsort` is an insertion sort: the fields of one clause have
-- different names, so any sort gives the same order.
pub mod Laws
pub mod Normal
use openradtool.Base.{
  ℕ, ◌+◌, Bool, true, false, not, ◌&&◌, ◌||◌, Option, none, some, List, [], ◌∷◌, ◌==◌,
  if◌then◌else◌, Bytes, to_lower, strgt, map, length,
}
use openradtool.Model.{Nref, Unique, Strct, Config}
use openradtool.Model.Store.{set_unique}
use openradtool.Linker.Aliases.Resolve.{same_pointer}
use openradtool.Linker.Checks.{Check, error_at, start}

-- The name of the field in lower case. Where the field is NULL, which an accepted
-- resolve_struct_unique rules out, nref_cmp would crash; the name is empty here.
lowered_name : Config → Option ℕ → Bytes
lowered_name cfg none = []
lowered_name cfg (some f) = map to_lower (cfg.field f).name

-- `nref_cmp(a, b) > 0`
unfoldable pub nref_gt : Config → ℕ → ℕ → Bool
unfolding lowered_name
nref_gt cfg a b = strgt (lowered_name cfg (cfg.nref a).field) (lowered_name cfg (cfg.nref b).field)

unfoldable pub insert_nref : Config → ℕ → List ℕ → List ℕ
insert_nref cfg x [] = x ∷ []
insert_nref cfg x (y ∷ ys) =
    let rest = y ∷ insert_nref cfg x ys in if nref_gt cfg x y then rest else x ∷ y ∷ ys

unfoldable pub sort_nrefs : Config → List ℕ → List ℕ
unfolding insert_nref
sort_nrefs cfg [] = []
sort_nrefs cfg (x ∷ xs) = insert_nref cfg x (sort_nrefs cfg xs)

module _ (nref : ℕ → Nref) where
  -- The scan of `uu->nq` for the field `o`.
  unfoldable pub has_field : Option ℕ → List ℕ → Bool
  has_field o [] = false
  has_field o (y ∷ ys) = same_pointer o (nref y).field || has_field o ys

  -- The loop over `u->nq` ends without a break.
  unfoldable pub same_fields : List ℕ → List ℕ → Bool
  unfolding has_field
  same_fields [] ys = true
  same_fields (x ∷ xs) ys = has_field (nref x).field ys && same_fields xs ys

unfoldable pub same_size : Config → ℕ → ℕ → Bool
same_size cfg u v = length (cfg.unique u).nq == length (cfg.unique v).nq

unfoldable pub alike : Config → ℕ → ℕ → Bool
unfolding same_fields
alike cfg u v = same_fields cfg.nref (cfg.unique u).nq (cfg.unique v).nq

-- The loop over `uu`: a clause of the same size with other fields ends it.
unfoldable pub compare_with : ℕ → List ℕ → Check → Check
compare_with u [] c = c
compare_with u (v ∷ vs) c =
    let skip = v == u || not (same_size c.cfg u v) in
    let dupe = alike c.cfg u v in
    let pos = (c.cfg.unique u).pos in
    let rest =
      compare_with u vs (
        if not skip && dupe then error_at pos "duplicate unique statements: %s:%zu:%zu" c else c) in
    if skip || dupe then rest else c

unfoldable pub normalise : ℕ → Config → Config
normalise u cfg = set_unique cfg u (record (cfg.unique u) { nq = sort_nrefs cfg (cfg.unique u).nq })

-- The loop over `u`: the first error ends it, before the order of `u` is normalised.
unfoldable pub check_clauses : List ℕ → List ℕ → Check → Check
check_clauses nq [] c = c
check_clauses nq (u ∷ us) c =
    let c' = compare_with u nq c in
    let rest = check_clauses nq us (record c' { cfg = normalise u c'.cfg }) in
    if c'.errs == 0 then rest else c'

unfoldable pub check_unique_unique : Strct → Config → Check
unfolding check_clauses
check_unique_unique s cfg = check_clauses s.nq s.nq (start cfg)
