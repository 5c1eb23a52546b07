-- ===== src/Linker/Aliases.antt =====
-- linker_aliases.c: the passes over all structures and all searches.
pub mod Name
pub mod Create
pub mod Laws
pub mod Resolve
use openradtool.Base.{ℕ, ◌+◌, Option, none, some, List, [], ◌∷◌, ◌++◌}
use openradtool.Model.{Msg, Alias, Config}
use openradtool.Model.Store.{set_strct}
use openradtool.Model.Outcome.{Outcome, ok, fail, fault, out_of_fuel, ◌>>=◌, map_state}
use openradtool.Linker.Graph.{graph}
use openradtool.Linker.Aliases.Name.{alias_limit}
use Resolve.{linker_aliases_resolve}
use openradtool.Linker.Aliases.Create.{Walk, linker_aliases_create}

-- The configuration and the counter `count`.
pub record Pass : Type 0 where
  pub cfg : Config
  pub count : ℕ

-- The walk's result put back: into `p->aq`, `count` and the messages.
unfoldable pub put_walk : Pass → ℕ → Walk → Pass
put_walk s p w = record {
  cfg = record (set_strct s.cfg p (record (s.cfg.strct p) { aq = w.aq })) { mq = w.mq };
  count = w.offs;
}

-- Enough for every walk: a call is made only below the limit, and counts one up.
unfoldable pub walk_fuel : ℕ
walk_fuel = alias_limit + 1

-- One structure: `linker_aliases_create(cfg, p, p, &count, NULL)`.
unfoldable pub create_strct : ℕ → Pass → Outcome Pass
create_strct p s = map_state (put_walk s p) (
    linker_aliases_create (graph s.cfg) p walk_fuel p none
      (record { aq = (s.cfg.strct p).aq; offs = s.count; mq = s.cfg.mq }))

-- The first loop of linker_aliases.
unfoldable pub create_strcts : List ℕ → Pass → Outcome Pass
create_strcts [] s = ok s
create_strcts (p ∷ ps) s = create_strct p s >>= λ s'. create_strcts ps s'

-- The second loop: every search of every structure.
unfoldable pub resolve_searches : List ℕ → Config → Outcome Config
resolve_searches [] cfg = ok cfg
resolve_searches (i ∷ is) cfg = linker_aliases_resolve i cfg >>= resolve_searches is

unfoldable pub resolve_strcts : List ℕ → Config → Outcome Config
unfolding resolve_searches
resolve_strcts [] cfg = ok cfg
resolve_strcts (p ∷ ps) cfg = resolve_searches (cfg.strct p).sq cfg >>= resolve_strcts ps

unfoldable pub linker_aliases : Config → Outcome Config
linker_aliases cfg =
    map_state (λ s. s.cfg) (create_strcts cfg.sq (record { cfg = cfg; count = 0 })) >>= λ cfg'.
    resolve_strcts cfg'.sq cfg'
