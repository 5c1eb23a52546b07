-- ===== src/Linker/Resolve/Passes.antt =====
-- linker_resolve: the requests are resolved in three passes, each over the whole queue, and a pass
-- with a failed request is the last.
pub mod Laws
pub mod Fails
use openradtool.Base.{◌+◌, List, [], ◌∷◌}
use openradtool.Model.{
  Resolve, field_foreign, field_struct, field_bits, field_enum, field_def_eitem, struct_up_const,
  struct_up_mod, struct_aggr, struct_distinct, struct_grouprow, struct_order, struct_role,
  struct_rolemap, struct_sent, struct_unique, Config,
}
use openradtool.Model.Outcome.{Outcome, ok, fail, fault, out_of_fuel, ◌>>=◌}
use openradtool.Linker.Resolve.Find.{Tally, finish}
use openradtool.Linker.Resolve.Chain.{
  resolve_struct_order, resolve_struct_sent, resolve_struct_aggr, resolve_struct_grouprow,
  resolve_struct_distinct,
}
use openradtool.Linker.Resolve.Refs.{
  resolve_field_foreign, resolve_field_struct, resolve_field_bits, resolve_field_enum,
  resolve_field_def_eitem, resolve_struct_unique, resolve_struct_role,
}
use openradtool.Linker.Resolve.Updates.{resolve_up_const, resolve_up_mod}
use openradtool.Linker.Resolve.Rolemaps.{resolve_struct_rolemap}
use openradtool.Linker.Resolve.Post.{resolve_struct_rolemap_post}

unfoldable pub first_pass : Resolve → Config → Outcome Config
unfolding resolve_field_foreign resolve_field_bits resolve_field_enum resolve_struct_role
    resolve_struct_unique resolve_up_const resolve_up_mod
first_pass (field_foreign x s f) = resolve_field_foreign x s f
first_pass (field_bits x n) = resolve_field_bits x n
first_pass (field_enum x n) = resolve_field_enum x n
first_pass (struct_role x n) = resolve_struct_role x n
first_pass (struct_unique x n) = resolve_struct_unique x n
first_pass (struct_up_const x n) = resolve_up_const x n
first_pass (struct_up_mod x n) = resolve_up_mod x n
first_pass _ = ok

unfoldable pub second_pass : Resolve → Config → Outcome Config
unfolding resolve_field_def_eitem resolve_field_struct resolve_struct_rolemap
second_pass (field_def_eitem x n) = resolve_field_def_eitem x n
second_pass (field_struct x n) = resolve_field_struct x n
second_pass (struct_rolemap m n t) = resolve_struct_rolemap m n t
second_pass _ = ok

unfoldable pub third_pass : Resolve → Config → Outcome Config
unfolding resolve_struct_aggr resolve_struct_distinct resolve_struct_grouprow resolve_struct_order
    resolve_struct_rolemap_post resolve_struct_sent
third_pass (struct_aggr x ns) = resolve_struct_aggr x ns
third_pass (struct_distinct x ns) = resolve_struct_distinct x ns
third_pass (struct_grouprow x ns) = resolve_struct_grouprow x ns
third_pass (struct_order x ns) = resolve_struct_order x ns
third_pass (struct_rolemap m n t) = resolve_struct_rolemap_post m t
third_pass (struct_sent x ns) = resolve_struct_sent x ns
third_pass _ = ok

-- A pass goes on after a request that fails; `t.errs` is `fail`.
add_result : Tally → Outcome Config → Outcome Tally
add_result t (ok cfg) = ok (record { cfg = cfg; errs = t.errs })
add_result t (fail cfg) = ok (record { cfg = cfg; errs = t.errs + 1 })
add_result t fault = fault
add_result t out_of_fuel = out_of_fuel

unfoldable pub run_pass : (Resolve → Config → Outcome Config) → List Resolve → Tally → Outcome Tally
unfolding add_result
run_pass step [] t = ok t
run_pass step (r ∷ rs) t = add_result t (step r t.cfg) >>= run_pass step rs

finish_pass : Outcome Tally → Outcome Config
unfolding finish
finish_pass (ok t) = finish t
finish_pass (fail t) = fail t.cfg
finish_pass fault = fault
finish_pass out_of_fuel = out_of_fuel

unfoldable pub pass : (Resolve → Config → Outcome Config) → Config → Outcome Config
unfolding run_pass finish_pass
pass step cfg = finish_pass (run_pass step cfg.requests (record { cfg = cfg; errs = 0 }))

unfoldable pub linker_resolve : Config → Outcome Config
unfolding pass first_pass second_pass third_pass
linker_resolve cfg = pass first_pass cfg >>= pass second_pass >>= pass third_pass
