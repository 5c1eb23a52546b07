-- ===== src/Linker/Checks.antt =====
-- The checks of linker.c, which run on a configuration whose names are resolved. A check goes on
-- after an error; `errs` counts the errors.
pub mod Searchtype
pub mod Unique
pub mod Roles
use Prim.Native.String.{String}
use openradtool.Base.{ℕ, ◌+◌, Bool, Option, none, some, List, [], ◌∷◌, ◌==◌}
use openradtool.Model.{Pos, Config}
use openradtool.Model.Store.{gen_errx, gen_warnx}
use openradtool.Model.Outcome.{Outcome, ok, ◌>>=◌}

pub record Check : Type 0 where
  pub cfg : Config
  pub errs : ℕ

-- `gen_errx` and `errs++`.
unfoldable pub error_at : Pos → String → Check → Check
error_at pos s c = record { cfg = gen_errx c.cfg pos s; errs = c.errs + 1 }

unfoldable pub warn_at : Pos → String → Check → Check
warn_at pos s c = record c { cfg = gen_warnx c.cfg pos s }

-- `return errs == 0`
abbrev pub passed : Check → Bool
passed c = c.errs == 0

abbrev pub start : Config → Check
start cfg = record { cfg = cfg; errs = 0 }
