-- ===== src/Linker/Resolve/Rolemaps.antt =====
-- resolve_struct_rolemap and resolve_struct_rolemap_post: the roles that may use an operation.
pub mod Laws
pub mod Prefix
use Prim.Native.String.{String}
use openradtool.Base.{
  ℕ, ◌+◌, Bool, true, false, Option, none, some, List, [], ◌∷◌, ◌++◌, if◌then◌else◌, Bytes,
  strcaseeq,
}
use openradtool.Model.{
  Rolemapt, all, count, delete, insert, iterate, list, search, update, noexport, Rref, Rolemap,
  Insert, Strct, Stype, Config,
}
use openradtool.Model.Store.{
  gen_errx, set_field, set_update, set_search, set_rolemap, set_rref, set_strct,
}
use openradtool.Model.Outcome.{Outcome, ok, fail, fault, out_of_fuel, ◌>>=◌}
use openradtool.Linker.Checks.Roles.{same_role}

-- The first object that the test keeps and whose name, which may be NULL, is the name.
unfoldable pub find_named :
    (ℕ → Bool) → (ℕ → Option Bytes) → Option Bytes → List ℕ → Outcome (Option ℕ)
find_named keep name_of name [] = ok none
find_named keep name_of name (x ∷ xs) =
    let rest = find_named keep name_of name xs in
    if keep x
    then elim (name_of x) [
      | none ↦ rest
      | some n ↦ elim name [ none ↦ fault | some m ↦ if strcaseeq n m then ok (some x) else rest ]
    ]
    else rest

unfoldable pub resolve_struct_rolemap_all : ℕ → Config → Outcome Config
resolve_struct_rolemap_all m cfg =
    let p = (cfg.rolemap m).parent in
    elim (cfg.strct p).arolemap [
      | none ↦ ok (set_strct cfg p (record (cfg.strct p) { arolemap = some m }))
      | some _ ↦ fault
    ]

not_found : ℕ → String → Config → Config
unfolding gen_errx
not_found m s cfg = gen_errx cfg (cfg.strct (cfg.rolemap m).parent).pos s

unfoldable pub resolve_struct_rolemap_insert : ℕ → Config → Outcome Config
unfolding not_found
resolve_struct_rolemap_insert m cfg =
    let p = (cfg.rolemap m).parent in
    elim (cfg.strct p).ins [
      | none ↦ fail (not_found m "insert operation not specified" cfg)
      | some i ↦ elim i.rolemap [
        | none ↦
            ok (
              set_strct cfg p (record (cfg.strct p) { ins = some (record i { rolemap = some m }) }))
        | some _ ↦ fault
      ]
    ]

-- The rolemap `m` becomes that of the update `u`, which has none.
assign_update : ℕ → Config → String → Outcome (Option ℕ) → Outcome Config
unfolding not_found
assign_update m cfg msg (ok none) = fail (not_found m msg cfg)
assign_update m cfg msg (ok (some u)) = elim (cfg.update u).rolemap [
  | none ↦ ok (
      set_rolemap (set_update cfg u (record (cfg.update u) { rolemap = some m })) m
        (record (cfg.rolemap m) { u = some u }))
  | some _ ↦ fault
]
assign_update m cfg msg (fail _) = fault
assign_update m cfg msg fault = fault
assign_update m cfg msg out_of_fuel = out_of_fuel

any_update : ℕ → Bool
any_update u = true

unfoldable pub resolve_struct_rolemap_update :
    (Strct → List ℕ) → ℕ → Option Bytes → Config → Outcome Config
unfolding find_named assign_update any_update
resolve_struct_rolemap_update queue m name cfg = assign_update m cfg "%s operation not found: %s" (
    find_named any_update (λ u. (cfg.update u).name) name
      (queue (cfg.strct (cfg.rolemap m).parent)))

unfoldable pub same_stype : Stype → Stype → Bool
same_stype Stype.count Stype.count = true
same_stype Stype.search Stype.search = true
same_stype Stype.list Stype.list = true
same_stype Stype.iterate Stype.iterate = true
same_stype _ _ = false

assign_search : ℕ → Config → Outcome (Option ℕ) → Outcome Config
unfolding not_found
assign_search m cfg (ok none) = fail (not_found m "%s operation not found: %s" cfg)
assign_search m cfg (ok (some s)) = elim (cfg.search s).rolemap [
  | none ↦ ok (
      set_rolemap (set_search cfg s (record (cfg.search s) { rolemap = some m })) m
        (record (cfg.rolemap m) { s = some s }))
  | some _ ↦ fault
]
assign_search m cfg (fail _) = fault
assign_search m cfg fault = fault
assign_search m cfg out_of_fuel = out_of_fuel

unfoldable pub resolve_struct_rolemap_query : Stype → ℕ → Option Bytes → Config → Outcome Config
unfolding find_named assign_search same_stype
resolve_struct_rolemap_query type m name cfg = assign_search m cfg (
    find_named (λ s. same_stype type (cfg.search s).type) (λ s. (cfg.search s).name) name
      (cfg.strct (cfg.rolemap m).parent).sq)

-- A reference of the queue has the role of `r`.
unfoldable pub has_role : Config → Rref → List ℕ → Bool
has_role cfg r [] = false
has_role cfg r (d ∷ ds) = if same_role (cfg.rref d).role r.role then true else has_role cfg r ds

-- A copy of `r` at the tail of the queue of `dst`.
unfoldable pub append_rref : ℕ → Rref → Config → Config
append_rref dst r cfg =
    let new = cfg.next_rref in
    let d = cfg.rolemap dst in
    record (set_rolemap (set_rref cfg new r) dst (record d { rq = d.rq ++ (new ∷ []) })) {
      next_rref = new + 1;
    }

-- The loop of resolve_struct_rolemap_field over the references `rq`, with its early return.
unfoldable pub add_until_found : ℕ → List ℕ → Config → Config
unfolding has_role append_rref
add_until_found dst [] cfg = cfg
add_until_found dst (r ∷ rs) cfg =
    let next = add_until_found dst rs (append_rref dst (cfg.rref r) cfg) in
    if has_role cfg (cfg.rref r) (cfg.rolemap dst).rq then cfg else next

unfoldable pub resolve_struct_rolemap_field : ℕ → ℕ → Config → Config
unfolding add_until_found
resolve_struct_rolemap_field m f cfg = elim (cfg.field f).rolemap [
  | none ↦ set_field cfg f (record (cfg.field f) { rolemap = some m })
  | some dst ↦ add_until_found dst (cfg.rolemap m).rq cfg
]

unfoldable pub add_to_fields : ℕ → List ℕ → Config → Config
unfolding resolve_struct_rolemap_field
add_to_fields m [] cfg = cfg
add_to_fields m (f ∷ fs) cfg = add_to_fields m fs (resolve_struct_rolemap_field m f cfg)

set_rolemap_field : ℕ → Option ℕ → Config → Config
set_rolemap_field m f cfg = set_rolemap cfg m (record (cfg.rolemap m) { f = f })

find_noexport : ℕ → Bytes → Config → List ℕ → Outcome Config
unfolding resolve_struct_rolemap_field set_rolemap_field not_found
find_noexport m name cfg [] = fail (not_found m "field not found: %s" cfg)
find_noexport m name cfg (f ∷ fs) =
    if strcaseeq (cfg.field f).name name
    then ok (set_rolemap_field m (some f) (resolve_struct_rolemap_field m f cfg))
    else find_noexport m name cfg fs

unfoldable pub resolve_struct_rolemap_noexport : ℕ → Option Bytes → Config → Outcome Config
unfolding add_to_fields set_rolemap_field find_noexport
resolve_struct_rolemap_noexport m none cfg =
    ok (add_to_fields m (cfg.strct (cfg.rolemap m).parent).fq (set_rolemap_field m none cfg))
resolve_struct_rolemap_noexport m (some name) cfg =
    find_noexport m name cfg (cfg.strct (cfg.rolemap m).parent).fq

unfoldable pub resolve_struct_rolemap : ℕ → Option Bytes → Rolemapt → Config → Outcome Config
unfolding resolve_struct_rolemap_all resolve_struct_rolemap_update resolve_struct_rolemap_insert
    resolve_struct_rolemap_query resolve_struct_rolemap_noexport
resolve_struct_rolemap m name all = resolve_struct_rolemap_all m
resolve_struct_rolemap m name delete = resolve_struct_rolemap_update (λ p. p.dq) m name
resolve_struct_rolemap m name update = resolve_struct_rolemap_update (λ p. p.uq) m name
resolve_struct_rolemap m name insert = resolve_struct_rolemap_insert m
resolve_struct_rolemap m name count = resolve_struct_rolemap_query Stype.count m name
resolve_struct_rolemap m name iterate = resolve_struct_rolemap_query Stype.iterate m name
resolve_struct_rolemap m name list = resolve_struct_rolemap_query Stype.list m name
resolve_struct_rolemap m name search = resolve_struct_rolemap_query Stype.search m name
resolve_struct_rolemap m name noexport = resolve_struct_rolemap_noexport m name
