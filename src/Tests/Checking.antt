-- ===== src/Tests/Checking.antt =====
-- Runs of the single checks on the configuration of Tests.
use openradtool.Base.{
  ℕ, zero, suc, ◌≡◌, ◌≢◌, ◌<◌, ◌↔◌, ◌⊎◌, refl, ap, ◌∙◌, some_inj, Bool, true, false, none, some, [],
  ◌∷◌, In, All, arith,
}
use openradtool.Model.Outcome.{ok}
use mathlib.Core.List.{Perm}
use openradtool.Linker.Graph.{is_struct, target_parent}
use openradtool.Linker.Aliases.Name.{alias_name}
use openradtool.Linker.Aliases.Name.Laws.{
  IsSqlName, alias_name_injective, alias_name_collision, alias_name_sql_iff,
}
use openradtool.Linker.Aliases.Resolve.{unique_flag, same_pointer}
use openradtool.Linker.Aliases.Resolve.Laws
use openradtool.Linker.Checks.{Check, passed}
use openradtool.Linker.Checks.Searchtype.{check_aggrtype}
use openradtool.Linker.Checks.Searchtype.Aggregate.{check_aggrtype_iff}
use openradtool.Linker.Checks.Unique.{check_unique_unique, same_size, alike}
use openradtool.Linker.Checks.Unique.Laws.{
  Duplicate, check_unique_unique_sound, check_unique_unique_misses,
}
use openradtool.Linker.Checks.Roles.{same_role, check_unique_roles}
use openradtool.Linker.Checks.Roles.Laws.{check_unique_roles_iff}
use openradtool.Linker.Order.{order_strcts, check_reffind, source_null}
use openradtool.Linker.Order.Laws.{Descends, order_strcts_lem}
use openradtool.Linker.Order.Reffind.{Linked, HasNullRef, check_reffind_iff}
use openradtool.Linker.Aliases.{walk_fuel}
use openradtool.Model.{Role, top, sub}
use openradtool.Audit.{rolemap_has}
use openradtool.Audit.Laws.{Admits, rolemap_has_iff}
use openradtool.Tests.{whole, here}
use openradtool.Tests.Linking.{whole-Avoids}

one_linked : Laws.HasFields whole (1 ∷ [])
one_linked = (λ e. cc, tt)

clauses_linked : Laws.HasClauseFields whole (0 ∷ 1 ∷ 2 ∷ [])
clauses_linked = ((λ e. cc, tt), ((λ e. cc, tt), ((λ e. cc, tt), tt)))

aggr_linked : (a : ℕ) → some 3 ≡ some a → (whole.sent a).field ≢ none
aggr_linked a h e =
    let k : (whole.sent 3).field ≡ none = ap (λ q. (whole.sent q).field) (some_inj h) ∙ e in cc

group_linked : (g : ℕ) → some 2 ≡ some g → (whole.sent g).field ≢ none
group_linked g h e =
    let k : (whole.sent 2).field ≡ none = ap (λ q. (whole.sent q).field) (some_inj h) ∙ e in cc

behind : All (λ u. (u ≢ 0) × (same_size whole u 0 ≡ true) × (alike whole u 0 ≡ false)) (1 ∷ 2 ∷ [])
unfolding same_size alike same_pointer
behind = ((λ e. omega arith, refl, refl), ((λ e. omega arith, refl, refl), tt))

same_sizes : same_size whole 0 1 ≡ true
unfolding same_size
same_sizes = refl

unlike : alike whole 0 1 ≡ false
unfolding alike same_pointer
unlike = refl

alias_name_injective_example : ◌≡◌ {A = ℕ} 30 30
alias_name_injective_example = alias_name_injective 30 30 (omega arith) (omega arith) refl

alias_name_collision_example : alias_name 4140 ≡ alias_name 6
alias_name_collision_example = alias_name_collision 4140 (omega arith) (omega arith)

alias_name_sql_iff_example : IsSqlName (alias_name 700) ↔ (700 < 676)
alias_name_sql_iff_example = alias_name_sql_iff 700 (omega arith)

unique_flag_iff_example :
    (b : Bool) × (unique_flag whole (whole.search 1) ≡ some b)
    × ((b ≡ true) ↔ (
        (false ≡ true)
        ⊎ Laws.ByTerm whole (1 ∷ [])
        ⊎ Laws.ByClause whole (1 ∷ []) (0 ∷ 1 ∷ 2 ∷ [])))
unique_flag_iff_example = Laws.unique_flag_iff whole (whole.search 1) one_linked clauses_linked

check_aggrtype_iff_example :
    (c : Check) × (check_aggrtype (whole.search 1) whole ≡ ok c)
    × ((passed c ≡ true) ↔ (
        (g y : ℕ)
        → some 2 ≡ some g
        → (whole.sent g).field ≡ some y
        → (a : ℕ) × (x : ℕ) × (some 3 ≡ some a)
          × ((whole.sent a).field ≡ some x)
          × (x ≢ y)
          × ((whole.field x).parent ≡ (whole.field y).parent)))
check_aggrtype_iff_example = check_aggrtype_iff whole (whole.search 1) aggr_linked group_linked

check_unique_unique_sound_example :
    (passed (check_unique_unique (whole.strct 1) whole) ≡ true) ⊎ Duplicate whole (0 ∷ 1 ∷ 2 ∷ [])
check_unique_unique_sound_example = check_unique_unique_sound (whole.strct 1) whole

-- The clauses 1 and 2 are the same, and the clause 0 hides it.
check_unique_unique_misses_example : passed (check_unique_unique (whole.strct 1) whole) ≡ true
check_unique_unique_misses_example =
    check_unique_unique_misses (whole.strct 1) whole 0 1 (2 ∷ []) refl behind same_sizes unlike

check_unique_roles_iff_example :
    ((c : Check) × (check_unique_roles whole (whole.rolemap 1) ≡ ok c) × (passed c ≡ true)) ↔ (
      (a b : ℕ)
      → In a (2 ∷ 1 ∷ [])
      → In b (2 ∷ 1 ∷ [])
      → a ≢ b
      → same_role (whole.rref a).role (whole.rref b).role ≡ false)
check_unique_roles_iff_example = check_unique_roles_iff whole (whole.rolemap 1)

order_strcts_lem_example :
    Perm (order_strcts whole).sq (0 ∷ 1 ∷ []) × Descends whole (order_strcts whole).sq
order_strcts_lem_example = order_strcts_lem whole

whole-Linked : Linked whole
unfolding is_struct source_null target_parent
whole-Linked zero s = cc
whole-Linked (suc zero) s = cc
whole-Linked (suc (suc zero)) s = cc
whole-Linked (suc (suc (suc zero))) s = (false, refl, 0, refl)
whole-Linked (suc (suc (suc (suc f)))) s = cc

check_reffind_iff_example :
    (b : Bool) × (check_reffind walk_fuel whole 1 ≡ ok b) × ((b ≡ true) ↔ HasNullRef whole 1)
check_reffind_iff_example = check_reffind_iff whole whole-Linked 1 walk_fuel 1 whole-Avoids

-- A role below the guests.
abbrev reader : Role
reader = sub 5 [] here (top 0 [] here)

rolemap_has_iff_example : (rolemap_has whole (some 0) reader ≡ true) ↔ Admits whole (0 ∷ []) reader
rolemap_has_iff_example = rolemap_has_iff whole 0 reader
