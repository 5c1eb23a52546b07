-- ===== src/Linker/Checks/Roles.antt =====
-- check_unique_roles, check_unique_roles_tree and check_roleops. A role is known by its address,
-- the number in `Role`.
pub mod Laws
use Prim.Native.String.{String}
use openradtool.Base.{
  ℕ, ◌+◌, Bool, true, false, not, ◌&&◌, ◌||◌, Option, none, some, List, [], ◌∷◌, ◌==◌,
  if◌then◌else◌,
}
use openradtool.Model.{Role, top, sub, Rref, Rolemap, Search, Update, Insert, Strct, Pos, Config}
use openradtool.Model.Outcome.{Outcome, ok, fault, ◌>>=◌}
use openradtool.Linker.Checks.{Check, error_at, warn_at, start}

-- The address of a role.
unfoldable pub role_id : Role → ℕ
role_id (top i name pos) = i
role_id (sub i name pos parent) = i

unfoldable pub same_role : Option Role → Option Role → Bool
unfolding role_id
same_role none none = true
same_role (some a) (some b) = role_id a == role_id b
same_role _ _ = false

-- The error at `role->pos`; a fault where the role is NULL.
unfoldable pub duplicate_role : Option Role → Check → Outcome Check
duplicate_role none c = fault
duplicate_role (some (top i name pos)) c = ok (error_at pos "duplicate operation role" c)
duplicate_role (some (sub i name pos parent)) c = ok (error_at pos "duplicate operation role" c)

module _ (cfg : Config) where
  -- The inner loop of check_unique_roles.
  unfoldable pub compare_roles : ℕ → List ℕ → Check → Outcome Check
  unfolding duplicate_role
  compare_roles rs [] c = ok c
  compare_roles rs (rrs ∷ rest) c =
      (if not (rs == rrs) && same_role (cfg.rref rs).role (cfg.rref rrs).role
        then duplicate_role (cfg.rref rrs).role c
        else ok c)
      >>= compare_roles rs rest

  unfoldable pub compare_all_roles : List ℕ → List ℕ → Check → Outcome Check
  unfolding compare_roles
  compare_all_roles rq [] c = ok c
  compare_all_roles rq (rs ∷ rest) c = compare_roles rs rq c >>= compare_all_roles rq rest

  unfoldable pub check_unique_roles : Rolemap → Outcome Check
  unfolding compare_all_roles
  check_unique_roles rm = compare_all_roles rm.rq rm.rq (start cfg)

-- `for ( ; rp != NULL; rp = rp->parent) if (rp == r) break`: is `r` in the chain from `rp` up?
unfoldable pub is_ancestor : ℕ → Role → Bool
is_ancestor r (top i name pos) = i == r
is_ancestor r (sub i name pos parent) = i == r || is_ancestor r parent

module _ (cfg : Config) where
  -- The body of the inner loop of check_unique_roles_tree, with its assertion.
  overlap : Pos → Role → Role → Check → Outcome Check
  overlap p above below c =
      if role_id below == role_id above
      then fault
      else ok
          (if is_ancestor (role_id above) below then warn_at p "overlapping role: %s, %s" c else c)

  overlap_refs : ℕ → ℕ → Option Role → Option Role → Check → Outcome Check
  unfolding overlap
  overlap_refs rs rrs (some a) (some b) c =
      if rs == rrs then ok c else overlap (cfg.rref rs).pos a b c
  overlap_refs rs rrs a none c = ok c
  overlap_refs rs rrs none (some b) c = ok c

  overlap_each : ℕ → List ℕ → Check → Outcome Check
  unfolding overlap_refs
  overlap_each rs [] c = ok c
  overlap_each rs (rrs ∷ rest) c =
      overlap_refs rs rrs (cfg.rref rs).role (cfg.rref rrs).role c >>= overlap_each rs rest

  overlap_all : List ℕ → List ℕ → Check → Outcome Check
  unfolding overlap_each
  overlap_all rq [] c = ok c
  overlap_all rq (rs ∷ rest) c = overlap_each rs rq c >>= overlap_all rq rest

  unfoldable pub check_unique_roles_tree : Rolemap → Outcome Check
  unfolding overlap_all
  check_unique_roles_tree rm = overlap_all rm.rq rm.rq (start cfg)

-- check_roleops: a warning for every operation without a rolemap.
module _ (cfg : Config) where
  warn_unassigned : Option ℕ → Pos → String → Check → Check
  warn_unassigned none p s c = warn_at p s c
  warn_unassigned (some rm) p s c = c

  warn_searches : List ℕ → Check → Check
  unfolding warn_unassigned
  warn_searches [] c = c
  warn_searches (i ∷ is) c = warn_searches is (
      warn_unassigned (cfg.search i).rolemap (cfg.search i).pos
        "role not assigned to query function" c)

  warn_updates : String → List ℕ → Check → Check
  unfolding warn_unassigned
  warn_updates s [] c = c
  warn_updates s (i ∷ is) c =
      warn_updates s is (warn_unassigned (cfg.update i).rolemap (cfg.update i).pos s c)

  warn_insert : Option Insert → Check → Check
  unfolding warn_unassigned
  warn_insert none c = c
  warn_insert (some ins) c =
      warn_unassigned ins.rolemap ins.pos "role not assigned to insert function" c

  unfoldable pub check_roleops : Strct → Check → Check
  unfolding warn_searches warn_updates warn_insert
  check_roleops p c =
      let c1 = warn_searches p.sq c in
      let c2 = warn_updates "role not assigned to delete function" p.dq c1 in
      let c3 = warn_updates "role not assigned to update function" p.uq c2 in warn_insert p.ins c3
