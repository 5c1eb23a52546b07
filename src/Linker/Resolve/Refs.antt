-- ===== src/Linker/Resolve/Refs.antt =====
-- linker_resolve.c: the requests that link a field to its target, its source, its enumeration, its
-- bit-field or its default item, a unique clause to its fields, and a role reference to its role.
pub mod Laws
use openradtool.Base.{
  ℕ, Bool, true, false, not, ◌&&◌, ◌||◌, Option, none, some, List, [], ◌∷◌, ◌==◌, if◌then◌else◌,
  Bytes, strcaseeq, or_else,
}
use openradtool.Model.{Pos, Ref, Eitem, Enm, Field, Role, top, sub, Rref, Config}
use openradtool.Model.Store.{gen_errx, set_field, set_nref, set_rref}
use openradtool.Model.Outcome.{Outcome, ok, fail, fault}
use openradtool.Linker.Graph.{is_struct}
use openradtool.Linker.Resolve.Find.{find_name, find_field, same_type, Tally, error_if, finish}

-- The target of `tstrct.tfield`: each structure of the name that has such a field overwrites it.
unfoldable pub foreign_target : Config → Bytes → Bytes → List ℕ → Option ℕ → Option ℕ
unfolding find_field
foreign_target cfg tstrct tfield [] t = t
foreign_target cfg tstrct tfield (p ∷ ps) t =
    let next =
      if strcaseeq (cfg.strct p).name tstrct then or_else (find_field cfg p tfield) t else t in
    foreign_target cfg tstrct tfield ps next

-- `(*f).type` of two pointers, where both are set.
pub mismatched : Config → Option ℕ → Option ℕ → Bool
mismatched cfg (some s) (some t) = not (same_type (cfg.field s).type (cfg.field t).type)
mismatched cfg (some s) none = false
mismatched cfg none t = false

pub not_unique : Config → Option ℕ → Bool
not_unique cfg (some t) = not (cfg.field t).rowid && not (cfg.field t).unique
not_unique cfg none = false

abbrev pub is_none {ℓ} : {A : Type ℓ} → Option A → Bool
is_none none = true
is_none (some a) = false

-- The tests once the target `r.target` is stored, in the order of their messages.
pub check_foreign : Config → Pos → Ref → Outcome Config
unfolding error_if finish mismatched not_unique
check_foreign cfg at r =
    let a =
      error_if (is_none r.source) at "unknown reference source" (record { cfg = cfg; errs = 0 }) in
    let b = error_if (is_none r.target) at "unknown reference target" a in
    let c =
      error_if (mismatched cfg r.source r.target) at "source and target reference type mismatch"
        b in
    finish (error_if (not_unique cfg r.target) at "target reference not a rowid or unique" c)

unfoldable pub set_ref : Config → ℕ → Ref → Config
set_ref cfg f r = set_field cfg f (record (cfg.field f) { ref = some r })

-- Of the field `x`, whose reference has the parent `r.parent`.
unfoldable pub resolve_field_foreign : ℕ → Bytes → Bytes → Config → Outcome Config
unfolding check_foreign foreign_target set_ref
resolve_field_foreign x tstrct tfield cfg = elim (cfg.field x).ref [
  | none ↦ fault
  | some r ↦
      let r' = record r { target = foreign_target cfg tstrct tfield cfg.sq r.target } in
      check_foreign (set_ref cfg x r') (cfg.field r.parent).pos r'
]

-- The source of a struct reference and what its own reference has found.
source_target : Config → Ref → Ref
source_target cfg r = elim r.source [
  | none ↦ r
  | some s ↦ elim (cfg.field s).ref [
    | none ↦ r
    | some q ↦ if is_struct (cfg.field s).type then r else record r { target = q.target }
  ]
]

not_reference : Config → Option ℕ → Bool
not_reference cfg none = false
not_reference cfg (some s) = is_struct (cfg.field s).type || is_none (cfg.field s).ref

check_field_struct : Config → Pos → Bool → Ref → Outcome Config
unfolding error_if finish
check_field_struct cfg at bad r =
    let a = error_if bad at "struct source is not a reference" (record { cfg = cfg; errs = 0 }) in
    let b = error_if (is_none r.source) at "unknown struct source" a in
    finish (error_if (is_none r.target) at "struct source's reference was not resolved" b)

unfoldable pub resolve_field_struct : ℕ → Bytes → Config → Outcome Config
unfolding source_target not_reference check_field_struct set_ref find_field
resolve_field_struct x sfield cfg = elim (cfg.field x).ref [
  | none ↦ fault
  | some r ↦
      let source = or_else (find_field cfg (cfg.field r.parent).parent sfield) r.source in
      let r' = source_target cfg (record r { source = source }) in
      check_field_struct (set_ref cfg x r') (cfg.field r.parent).pos (not_reference cfg source) r'
]

unfoldable pub resolve_field_bits : ℕ → Bytes → Config → Outcome Config
unfolding find_name
resolve_field_bits x name cfg = elim (find_name (λ b. (cfg.bitf b).name) name cfg.bq) [
  | none ↦ fail (gen_errx cfg (cfg.strct (cfg.field x).parent).pos "unknown bitfield type")
  | some b ↦ ok (set_field cfg x (record (cfg.field x) { bitf = some b }))
]

unfoldable pub resolve_field_enum : ℕ → Bytes → Config → Outcome Config
unfolding find_name
resolve_field_enum x name cfg = elim (find_name (λ e. (cfg.enm e).name) name cfg.eq) [
  | none ↦ fail (gen_errx cfg (cfg.strct (cfg.field x).parent).pos "unknown enum type")
  | some e ↦ ok (set_field cfg x (record (cfg.field x) { enm = some e }))
]

unfoldable pub find_eitem : Bytes → List Eitem → Option Eitem
find_eitem name [] = none
find_eitem name (ei ∷ es) = if strcaseeq ei.name name then some ei else find_eitem name es

unfoldable pub resolve_field_def_eitem : ℕ → Bytes → Config → Outcome Config
unfolding find_eitem
resolve_field_def_eitem x name cfg = elim (cfg.field x).enm [
  | none ↦ fault
  | some e ↦ elim (find_eitem name (cfg.enm e).eq) [
    | none ↦ fail (gen_errx cfg (cfg.field x).pos "unknown enumeration item")
    | some ei ↦ ok (set_field cfg x (record (cfg.field x) { def_eitem = some ei }))
  ]
]

-- The scan of resolve_struct_unique: the first field of the name that is not a structure, or
-- (`inl`) the error on one that is.
abbrev points_to : Option ℕ → ℕ → Bool
points_to none f = false
points_to (some g) f = f == g

-- A member of the clause has the field already.
unfoldable pub is_member : Config → ℕ → List ℕ → Bool
is_member cfg f [] = false
is_member cfg f (n ∷ ns) = points_to (cfg.nref n).field f || is_member cfg f ns

unfoldable pub resolve_struct_unique : ℕ → Bytes → Config → Outcome Config
unfolding find_field is_member
resolve_struct_unique x name cfg =
    let n = cfg.nref x in
    let u = cfg.unique n.parent in
    elim (find_field cfg u.parent name) [
      | none ↦ fail (gen_errx cfg n.pos "unknown field")
      | some f ↦
          if is_struct (cfg.field f).type
          then fail (gen_errx cfg n.pos "unique field may not be a struct: %s")
          else if is_member cfg f u.nq
          then fail (gen_errx cfg n.pos "duplicate field: %s")
          else ok (set_nref cfg x (record n { field = some f }))
    ]

role_name : Role → Bytes
role_name (top _ n _) = n
role_name (sub _ n _ _) = n

unfoldable pub find_role : Bytes → List Role → Option Role
unfolding role_name
find_role name [] = none
find_role name (r ∷ rs) = if strcaseeq (role_name r) name then some r else find_role name rs

-- The role that the reference has already is kept where the name is unknown.
unfoldable pub resolve_struct_role : ℕ → Bytes → Config → Outcome Config
unfolding find_role
resolve_struct_role x name cfg =
    let r = cfg.rref x in
    let role = or_else (find_role name cfg.arq) r.role in
    let cfg' = set_rref cfg x (record r { role = role }) in
    if is_none role then fail (gen_errx cfg' r.pos "unknown role") else ok cfg'
