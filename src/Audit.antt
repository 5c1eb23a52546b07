-- ===== src/Audit.antt =====
-- audit.c: whether the map of an operation admits a role (rolemap_has); Run holds the audit itself.
pub mod Laws
pub mod Run
use openradtool.Base.{ℕ, Bool, true, false, ◌||◌, Option, none, some, List, [], ◌∷◌}
use openradtool.Model.{Role, Config}
use openradtool.Linker.Checks.Roles.{role_id, is_ancestor}

-- The inner loop: `rr->role` is `r` or above it.
unfoldable pub admits : Option Role → Role → Bool
unfolding role_id is_ancestor
admits none r = false
admits (some a) r = is_ancestor (role_id a) r

unfoldable pub any_admits : Config → List ℕ → Role → Bool
unfolding admits
any_admits cfg [] r = false
any_admits cfg (x ∷ xs) r = admits (cfg.rref x).role r || any_admits cfg xs r

unfoldable pub rolemap_has : Config → Option ℕ → Role → Bool
unfolding any_admits
rolemap_has cfg none r = false
rolemap_has cfg (some m) r = any_admits cfg (cfg.rolemap m).rq r
