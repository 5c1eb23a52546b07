-- ===== src/Linker/Aliases/Resolve.antt =====
-- check_search_unique and linker_aliases_resolve. The terms of a search (`sntq`, `ordq`, `group`,
-- `aggr`) share one store.
pub mod Laws
use openradtool.Base.{
  ℕ, Bool, true, false, ◌&&◌, ◌||◌, Option, none, some, List, [], ◌∷◌, ◌==◌, if◌then◌else◌, Bytes,
  strcaseeq,
}
use openradtool.Model.{Optype, equal, Alias, Sent, Search, Config}
use openradtool.Model.Store.{set_search, set_sent}
use openradtool.Model.Outcome.{Outcome, ok, fault, ◌>>=◌}

unfoldable pub is_equal : Optype → Bool
is_equal equal = true
is_equal _ = false

-- Equality of two pointers.
unfoldable pub same_pointer : Option ℕ → Option ℕ → Bool
same_pointer none none = true
same_pointer (some a) (some b) = a == b
same_pointer _ _ = false

module _ (cfg : Config) where
  -- The first loop of linker_aliases_resolve: is there an equality on a rowid or unique field?
  -- `none` is a NULL field.
  unfoldable pub any_unique_term : List ℕ → Option Bool
  unfolding is_equal
  any_unique_term [] = some false
  any_unique_term (s ∷ ss) = elim (cfg.sent s).field [
    | none ↦ none
    | some f ↦ elim (any_unique_term ss) [
      | none ↦ none
      | some b ↦
          some (((cfg.field f).rowid || (cfg.field f).unique) && is_equal (cfg.sent s).op || b)
    ]
  ]

  -- The loop over `srch->sntq` in check_search_unique, for the field `f`.
  unfoldable pub has_equality : ℕ → List ℕ → Bool
  unfolding is_equal same_pointer
  has_equality f [] = false
  has_equality f (s ∷ ss) =
      is_equal (cfg.sent s).op && same_pointer (cfg.sent s).field (some f) || has_equality f ss

  -- The loop over `uq->nq`, with its assertion.
  unfoldable pub all_covered : List ℕ → List ℕ → Option Bool
  all_covered sntq [] = some true
  all_covered sntq (n ∷ ns) = elim (cfg.nref n).field [
    | none ↦ none
    | some f ↦ if has_equality f sntq then all_covered sntq ns else some false
  ]

  unfoldable pub any_covered : List ℕ → List ℕ → Option Bool
  any_covered sntq [] = some false
  any_covered sntq (u ∷ us) = elim (all_covered sntq (cfg.unique u).nq) [
    | none ↦ none
    | some b ↦ if b then some true else any_covered sntq us
  ]

  unfoldable pub check_search_unique : Search → Option Bool
  check_search_unique srch = any_covered srch.sntq (cfg.strct srch.parent).nq

-- The scan of `p->aq` for a name.
unfoldable pub find_alias : Bytes → List Alias → Option Alias
find_alias name [] = none
find_alias name (a ∷ as_) = if strcaseeq a.name name then some a else find_alias name as_

assign : Config → ℕ → Option Alias → Outcome Config
assign cfg x none = fault
assign cfg x (some a) = ok (set_sent cfg x (record (cfg.sent x) { alias = some a }))

-- One term: its alias, if it has a chain of references. The alias is asserted to be there.
unfoldable pub resolve_alias : List Alias → ℕ → Config → Outcome Config
unfolding assign
resolve_alias aq x cfg = elim (cfg.sent x).name [
  | none ↦ ok cfg
  | some name ↦ assign cfg x (find_alias name aq)
]

unfoldable pub resolve_each : List Alias → List ℕ → Config → Outcome Config
resolve_each aq [] cfg = ok cfg
resolve_each aq (x ∷ xs) cfg = resolve_alias aq x cfg >>= resolve_each aq xs

unfoldable pub resolve_option : List Alias → Option ℕ → Config → Outcome Config
resolve_option aq none cfg = ok cfg
resolve_option aq (some x) cfg = resolve_alias aq x cfg

-- `srch->flags |= SEARCH_IS_UNIQUE`, if the first loop or the `unique` clauses say so; the clauses
-- are looked at only if the flag is not set by then.
unfoldable pub unique_flag : Config → Search → Option Bool
unique_flag cfg srch = elim (any_unique_term cfg srch.sntq) [
  | none ↦ none
  | some b ↦ if srch.is_unique || b then some true else check_search_unique cfg srch
]

mark_unique : Config → ℕ → Option Bool → Outcome Config
mark_unique cfg i none = fault
mark_unique cfg i (some b) = ok (set_search cfg i (record (cfg.search i) { is_unique = b }))

unfoldable pub linker_aliases_resolve : ℕ → Config → Outcome Config
unfolding mark_unique
linker_aliases_resolve i cfg =
    let srch = cfg.search i in
    let aq = (cfg.strct srch.parent).aq in
    mark_unique cfg i (unique_flag cfg srch)
    >>= resolve_each aq srch.sntq
    >>= resolve_each aq srch.ordq
    >>= resolve_option aq srch.group
    >>= resolve_option aq srch.aggr
