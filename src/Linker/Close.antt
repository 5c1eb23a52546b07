-- ===== src/Linker/Close.antt =====
-- ort_parse_close: the passes of the linker in order. A sweep of checks goes over all its objects,
-- and one error in it ends the linking behind it.
pub mod Laws
use openradtool.Base.{ℕ, ◌+◌, List, [], ◌∷◌, ◌==◌, if◌then◌else◌, none}
use openradtool.Model.{error, Strct, Role, Config}
use openradtool.Model.Store.{log_msg}
use openradtool.Model.Outcome.{Outcome, ok, fail, fault, out_of_fuel, ◌>>=◌}
use openradtool.Linker.Aliases.{walk_fuel, linker_aliases}
use openradtool.Linker.Checks.{Check, passed, start}
use openradtool.Linker.Checks.Searchtype.{check_aggrtype, check_searchtype}
use openradtool.Linker.Checks.Unique.{check_unique_unique}
use openradtool.Linker.Checks.Roles.{check_unique_roles, check_unique_roles_tree, check_roleops}
use openradtool.Linker.Order.{annotate_all, order_strcts, mark_nullrefs}
use openradtool.Linker.Resolve.Passes.{linker_resolve}

-- `i += !check(...)`; `i.errs` is `i`.
tally : Check → Outcome Check → Outcome Check
tally i (ok c) = ok (record { cfg = c.cfg; errs = if passed c then i.errs else i.errs + 1 })
tally i (fail c) = fail c
tally i fault = fault
tally i out_of_fuel = out_of_fuel

unfoldable pub check_each : (ℕ → Config → Outcome Check) → List ℕ → Check → Outcome Check
unfolding tally
check_each check [] i = ok i
check_each check (x ∷ xs) i = tally i (check x i.cfg) >>= check_each check xs

-- The check of every object in a queue of every structure.
unfoldable pub check_queues :
    (Strct → List ℕ) → (ℕ → Config → Outcome Check) → List ℕ → Check → Outcome Check
unfolding check_each
check_queues queue check [] i = ok i
check_queues queue check (p ∷ ps) i =
    check_each check (queue (i.cfg.strct p)) i >>= check_queues queue check ps

-- `if (i > 0) return 0;`
gate : Outcome Check → Outcome Config
gate (ok i) = if i.errs == 0 then ok i.cfg else fail i.cfg
gate (fail i) = fail i.cfg
gate fault = fault
gate out_of_fuel = out_of_fuel

one_unique : ℕ → Config → Outcome Check
unfolding check_unique_unique
one_unique p cfg = ok (check_unique_unique (cfg.strct p) cfg)

one_rolemap : ℕ → Config → Outcome Check
unfolding check_unique_roles
one_rolemap m cfg = check_unique_roles cfg (cfg.rolemap m)

one_role_tree : ℕ → Config → Outcome Check
unfolding check_unique_roles_tree
one_role_tree m cfg = check_unique_roles_tree cfg (cfg.rolemap m)

one_aggrtype : ℕ → Config → Outcome Check
unfolding check_aggrtype
one_aggrtype s cfg = check_aggrtype (cfg.search s) cfg

one_searchtype : ℕ → Config → Outcome Check
unfolding check_searchtype
one_searchtype s cfg = check_searchtype (cfg.search s) cfg

unfoldable pub all_unique : Config → Outcome Config
unfolding check_each one_unique gate
all_unique cfg = gate (check_each one_unique cfg.sq (start cfg))

all_rolemaps : Config → Outcome Config
unfolding check_queues one_rolemap gate
all_rolemaps cfg = gate (check_queues (λ p. p.rq) one_rolemap cfg.sq (start cfg))

all_role_trees : Config → Outcome Config
unfolding check_queues one_role_tree gate
all_role_trees cfg = gate (check_queues (λ p. p.rq) one_role_tree cfg.sq (start cfg))

all_aggrtypes : Config → Outcome Config
unfolding check_queues one_aggrtype gate
all_aggrtypes cfg = gate (check_queues (λ p. p.sq) one_aggrtype cfg.sq (start cfg))

all_searchtypes : Config → Outcome Config
unfolding check_queues one_searchtype gate
all_searchtypes cfg = gate (check_queues (λ p. p.sq) one_searchtype cfg.sq (start cfg))

warn_roleops : List ℕ → Config → Config
unfolding check_roleops
warn_roleops [] cfg = cfg
warn_roleops (p ∷ ps) cfg = warn_roleops ps (check_roleops cfg (cfg.strct p) (start cfg)).cfg

-- Only where the configuration has roles.
all_roleops : Config → List Role → Config
unfolding warn_roleops
all_roleops cfg [] = cfg
all_roleops cfg (r ∷ rs) = warn_roleops cfg.sq cfg

-- What runs behind linker_aliases.
unfoldable pub close_checked : Config → Outcome Config
unfolding all_unique all_rolemaps all_role_trees all_roleops all_aggrtypes all_searchtypes
    annotate_all order_strcts mark_nullrefs
close_checked cfg =
    all_unique cfg
    >>= all_rolemaps
    >>= all_role_trees
    >>= (λ c. ok (all_roleops c c.rq))
    >>= all_aggrtypes
    >>= all_searchtypes
    >>= (λ c. annotate_all walk_fuel 1 c.sq c)
    >>= (λ c. ok (order_strcts c))
    >>= λ c. mark_nullrefs walk_fuel c.sq c

close_strcts : List ℕ → Config → Outcome Config
unfolding log_msg linker_resolve linker_aliases close_checked
close_strcts [] cfg = fail (log_msg cfg error none "no structures in configuration")
close_strcts (p ∷ ps) cfg = linker_resolve cfg >>= linker_aliases >>= close_checked

unfoldable pub ort_parse_close : Config → Outcome Config
unfolding close_strcts
ort_parse_close cfg = close_strcts cfg.sq cfg
