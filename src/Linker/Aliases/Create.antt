-- ===== src/Linker/Aliases/Create.antt =====
-- linker_aliases_create. The walk changes the alias queue of the structure that it starts from, the
-- counter behind `offs`, and the messages; it reads the graph. A call takes one unit of fuel.
pub mod Laws
use Prim.Native.String.{String}
use openradtool.Base.{
  ℕ, zero, suc, ◌+◌, Bool, true, false, not, Option, none, some, List, [], ◌∷◌, ◌++◌, leb, ◌==◌,
  if◌then◌else◌, Bytes,
}
use openradtool.Model.{Field, Pos, Alias, Msg, error}
use openradtool.Model.Outcome.{Outcome, ok, fail, fault, out_of_fuel, ◌>>=◌}
use openradtool.Linker.Graph.{Graph, is_struct, target_parent}
use openradtool.Linker.Aliases.Name.{alias_limit, alias_name}

pub record Walk : Type 0 where
  pub aq : List Alias
  pub offs : ℕ
  pub mq : List Msg

report : Walk → Pos → String → Walk
report w pos s = record w { mq = record { pos = some pos; type = error; buf = s } ∷ w.mq }

-- `"%s.%s"` of the prior alias, if there is one, and the field.
unfoldable pub alias_path : Option Alias → Bytes → Bytes
alias_path none name = name
alias_path (some prior) name = prior.name ++ b'.' ∷ name

module _ (g : Graph) (orig : ℕ) where
  abbrev pub Call : Type 0
  Call = ℕ → Option Alias → Walk → Outcome Walk

  -- The alias for a field of a structure that was reached by `prior`, while the counter is `offs`.
  abbrev pub new_alias : Option Alias → ℕ → ℕ → Alias
  unfolding alias_path
  new_alias prior f offs = record {
    name = alias_path prior (g.field f).name;
    alias = some (alias_name offs);
  }

  abbrev pub push_alias : Walk → Alias → Walk
  push_alias w a = record w { aq = w.aq ++ a ∷ [] }

  -- The rest of a round of the loop, after the test for recursive references: `q` is the structure
  -- that `f` refers to, and `rec` the recursive call. The limit is tested when the alias is queued
  -- and has its name, but no `AS` string.
  pub add_alias : Call → Option Alias → ℕ → ℕ → Walk → Outcome Walk
  unfolding report
  add_alias rec prior f q w =
      let a = new_alias prior f w.offs in
      elim (leb alias_limit w.offs) [
        | true ↦
            fail
              (report (push_alias w (record a { alias = none })) (g.field f).pos "too many aliases")
        | false ↦ rec q (some a) (record (push_alias w a) { offs = w.offs + 1 })
      ]

  pub follow_target : Call → Option Alias → ℕ → Option ℕ → Walk → Outcome Walk
  unfolding report add_alias
  follow_target rec prior f none w = fault
  follow_target rec prior f (some q) w =
      if q == orig
      then fail (report w (g.pos orig) "contains recursive references")
      else add_alias rec prior f q w

  pub create_field : Call → Option Alias → ℕ → Walk → Outcome Walk
  unfolding follow_target
  create_field rec prior f w =
      if not (is_struct (g.field f).type)
      then ok w
      else follow_target rec prior f (target_parent g f) w

  pub create_fields : Call → Option Alias → List ℕ → Walk → Outcome Walk
  create_fields rec prior [] w = ok w
  create_fields rec prior (f ∷ fs) w =
      create_field rec prior f w >>= λ w'. create_fields rec prior fs w'

  unfoldable pub linker_aliases_create : ℕ → ℕ → Option Alias → Walk → Outcome Walk
  unfolding create_fields create_field
  linker_aliases_create zero p prior w = out_of_fuel
  linker_aliases_create (suc n) p prior w = create_fields (linker_aliases_create n) prior (g.fq p) w
