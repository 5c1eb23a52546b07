-- ===== src/Linker/Resolve/Chain.antt =====
-- resolve_field_chain, and the requests that use it: order, aggregate, grouprow, search terms and
-- distinct. Of an array `chain` the model has the part that is filled in.
pub mod Laws
use Prim.Native.String.{String}
use openradtool.Base.{
  ℕ, Bool, true, false, not, ◌&&◌, ◌||◌, Option, none, some, List, [], ◌∷◌, ◌==◌, if◌then◌else◌,
  Bytes,
}
use openradtool.Model.{
  Pos, Field, Sent, Dstnct, Search, Strct, Stype, list, iterate, count, search, Config,
}
use openradtool.Model.Store.{gen_errx, set_sent, set_dstnct, set_strct}
use openradtool.Model.Outcome.{Outcome, ok, fail, fault, out_of_fuel, map_state}
use openradtool.Linker.Graph.{graph, is_struct, target_parent}
use openradtool.Linker.Order.{source_null}
use openradtool.Linker.Checks.Searchtype.{is_password}
use openradtool.Linker.Resolve.Find.{find_field}

pub record Chained : Type 0 where
  pub cfg : Config
  pub chain : List ℕ
  pub field : Option ℕ

stuck_at : Config → Pos → String → List ℕ → Outcome Chained
stuck_at cfg pos s chain = fail (record { cfg = gen_errx cfg pos s; chain = chain; field = none })

prepend : ℕ → Chained → Chained
prepend f r = record r { chain = f ∷ r.chain }

abbrev prepend_to : ℕ → Outcome Chained → Outcome Chained
prepend_to f = map_state (prepend f)

-- A non-terminal field that is a structure: `null` and `target` are what its reference says.
link : Config → Pos → ℕ → Option Bool → Option ℕ → (ℕ → Outcome Chained) → Outcome Chained
unfolding stuck_at prepend
link cfg pos f none target go = fault
link cfg pos f (some true) target go =
    stuck_at cfg pos "non-terminal field cannot be null: %s" (f ∷ [])
link cfg pos f (some false) none go = fault
link cfg pos f (some false) (some q) go = prepend_to f (go q)

-- The tests on a non-terminal field `f`; `go` is the rest of the chain, from a structure.
non_terminal : Config → Pos → ℕ → Option Bool → Option ℕ → (ℕ → Outcome Chained) → Outcome Chained
unfolding stuck_at link
non_terminal cfg pos f null target go =
    if is_struct (cfg.field f).type
    then link cfg pos f null target go
    else stuck_at cfg pos "non-terminal field must be a struct: %s" (f ∷ [])

unfoldable pub resolve_field_chain : Config → Pos → List Bytes → ℕ → Outcome Chained
unfolding non_terminal
resolve_field_chain cfg pos [] s = fault
resolve_field_chain cfg pos (n ∷ []) s = elim (find_field cfg s n) [
  | none ↦ stuck_at cfg pos "field not found: %s" []
  | some f ↦ ok (record { cfg = cfg; chain = f ∷ []; field = some f })
]
resolve_field_chain cfg pos (n ∷ m ∷ ns) s = elim (find_field cfg s n) [
  | none ↦ stuck_at cfg pos "field not found: %s" []
  | some f ↦
      non_terminal cfg pos f (source_null cfg f) (target_parent (graph cfg) f)
        (resolve_field_chain cfg pos (m ∷ ns))
]

-- The result of a chain stored in the term `x`; `bad` says which terminal fields are refused.
store_term : (Field → Bool) → String → ℕ → Outcome Chained → Outcome Config
store_term bad msg x (ok r) = elim r.field [
  | none ↦ fault
  | some f ↦
      let t = record (r.cfg.sent x) { chain = r.chain; field = some f } in
      if bad (r.cfg.field f)
      then fail (set_sent (gen_errx r.cfg (r.cfg.sent x).pos msg) x (record t { field = none }))
      else ok (set_sent r.cfg x t)
]
store_term bad msg x (fail r) =
    fail (set_sent r.cfg x (record (r.cfg.sent x) { chain = r.chain; field = none }))
store_term bad msg x fault = fault
store_term bad msg x out_of_fuel = out_of_fuel

-- The chain of a term starts at the structure of its search.
unfoldable pub resolve_term : (Field → Bool) → String → ℕ → List Bytes → Config → Outcome Config
unfolding store_term
resolve_term bad msg x names cfg =
    let t = cfg.sent x in
    store_term bad msg x (resolve_field_chain cfg t.pos names (cfg.search t.parent).parent)

abbrev refuses_struct : Field → Bool
refuses_struct f = is_struct f.type

abbrev refuses_column : Field → Bool
refuses_column f = is_struct f.type || is_password f.type || f.null

unfoldable pub resolve_struct_order : ℕ → List Bytes → Config → Outcome Config
unfolding resolve_term
resolve_struct_order = resolve_term refuses_struct "terminal field cannot be a struct: %s"

unfoldable pub resolve_struct_sent : ℕ → List Bytes → Config → Outcome Config
unfolding resolve_term
resolve_struct_sent = resolve_term refuses_struct "terminal field cannot be a struct: %s"

unfoldable pub resolve_struct_aggr : ℕ → List Bytes → Config → Outcome Config
unfolding resolve_term
resolve_struct_aggr =
    resolve_term refuses_column "terminal field cannot be null, a struct, or a password: %s"

unfoldable pub resolve_struct_grouprow : ℕ → List Bytes → Config → Outcome Config
unfolding resolve_term
resolve_struct_grouprow =
    resolve_term refuses_column "terminal field cannot be null, a struct, or a password: %s"

-- STRCT_HAS_QUEUE or STRCT_HAS_ITERATOR on the structure that a list or an iterator returns.
flag_result : Stype → Strct → Strct
flag_result list s = record s { has_queue = true }
flag_result iterate s = record s { has_iterator = true }
flag_result count s = s
flag_result search s = s

distinct_target : ℕ → Config → ℕ → Option Bool → Option ℕ → Outcome Config
unfolding flag_result
distinct_target x cfg f null target =
    let d = cfg.dstnct x in
    if not (is_struct (cfg.field f).type)
    then fail (gen_errx cfg d.pos "terminal field must be a struct: %s")
    else elim null [
      | none ↦ fault
      | some true ↦ fail (gen_errx cfg d.pos "terminal field cannot be null: %s")
      | some false ↦ elim target [
        | none ↦ fault
        | some q ↦ ok (
            set_strct (set_dstnct cfg x (record d { strct = some q })) q
              (flag_result (cfg.search d.parent).type (cfg.strct q)))
      ]
    ]

store_distinct : ℕ → Outcome Chained → Outcome Config
unfolding distinct_target
store_distinct x (ok r) = elim r.field [
  | none ↦ fault
  | some f ↦
      let cfg = set_dstnct r.cfg x (record (r.cfg.dstnct x) { chain = r.chain }) in
      distinct_target x cfg f (source_null cfg f) (target_parent (graph cfg) f)
]
store_distinct x (fail r) = fail (set_dstnct r.cfg x (record (r.cfg.dstnct x) { chain = r.chain }))
store_distinct x fault = fault
store_distinct x out_of_fuel = out_of_fuel

unfoldable pub resolve_struct_distinct : ℕ → List Bytes → Config → Outcome Config
unfolding store_distinct
resolve_struct_distinct x names cfg =
    let d = cfg.dstnct x in
    store_distinct x (resolve_field_chain cfg d.pos names (cfg.search d.parent).parent)
