-- ===== src/Linker/Resolve/Post.antt =====
-- resolve_struct_rolemap_post: the roles of an "all" map are given to every operation.
pub mod Laws
use openradtool.Base.{ℕ, Bool, true, false, Option, none, some, List, [], ◌∷◌, if◌then◌else◌}
use openradtool.Model.{Rolemapt, all, Rref, Rolemap, Insert, Strct, Config}
use openradtool.Model.Store.{set_update, set_search, set_strct}
use openradtool.Model.Outcome.{Outcome, ok, fault}
use openradtool.Linker.Resolve.Rolemaps.{has_role, append_rref}

-- The loop of resolve_struct_rolemap_post_cover over the references of the source.
unfoldable pub add_all : ℕ → List ℕ → Config → Config
unfolding has_role append_rref
add_all dst [] cfg = cfg
add_all dst (r ∷ rs) cfg = add_all dst rs (
    if has_role cfg (cfg.rref r) (cfg.rolemap dst).rq
    then cfg
    else append_rref dst (cfg.rref r) cfg)

unfoldable pub resolve_struct_rolemap_post_cover : ℕ → ℕ → Config → Config
unfolding add_all
resolve_struct_rolemap_post_cover dst src cfg = add_all dst (cfg.rolemap src).rq cfg

-- An operation without a map takes `arolemap`, by `take`; another map gets its roles.
cover : ℕ → (Config → Config) → Option ℕ → Config → Config
unfolding resolve_struct_rolemap_post_cover
cover arolemap take none cfg = take cfg
cover arolemap take (some dst) cfg = resolve_struct_rolemap_post_cover dst arolemap cfg

take_update : ℕ → ℕ → Config → Config
take_update a u cfg = set_update cfg u (record (cfg.update u) { rolemap = some a })

take_search : ℕ → ℕ → Config → Config
take_search a s cfg = set_search cfg s (record (cfg.search s) { rolemap = some a })

unfoldable pub cover_updates : ℕ → List ℕ → Config → Config
unfolding cover take_update
cover_updates a [] cfg = cfg
cover_updates a (u ∷ us) cfg =
    cover_updates a us (cover a (take_update a u) (cfg.update u).rolemap cfg)

unfoldable pub cover_searches : ℕ → List ℕ → Config → Config
unfolding cover take_search
cover_searches a [] cfg = cfg
cover_searches a (s ∷ ss) cfg =
    cover_searches a ss (cover a (take_search a s) (cfg.search s).rolemap cfg)

take_insert : ℕ → ℕ → Insert → Config → Config
take_insert a p i cfg =
    set_strct cfg p (record (cfg.strct p) { ins = some (record i { rolemap = some a }) })

unfoldable pub cover_insert : ℕ → ℕ → Option Insert → Config → Config
unfolding cover take_insert
cover_insert a p none cfg = cfg
cover_insert a p (some i) cfg = cover a (take_insert a p i) i.rolemap cfg

post_all : ℕ → Option ℕ → Config → Outcome Config
unfolding cover_updates cover_searches cover_insert
post_all p none cfg = fault
post_all p (some a) cfg =
    let deletes = cover_updates a (cfg.strct p).dq cfg in
    let updates = cover_updates a (cfg.strct p).uq deletes in
    let searches = cover_searches a (cfg.strct p).sq updates in
    ok (cover_insert a p (searches.strct p).ins searches)

unfoldable pub resolve_struct_rolemap_post : ℕ → Rolemapt → Config → Outcome Config
unfolding post_all
resolve_struct_rolemap_post m all cfg =
    let p = (cfg.rolemap m).parent in post_all p (cfg.strct p).arolemap cfg
resolve_struct_rolemap_post m _ cfg = ok cfg
