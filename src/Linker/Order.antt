-- ===== src/Linker/Order.antt =====
-- The last part of ort_parse_close: annotate, parse_cmp and the sort, check_reffind. A recursion
-- takes one unit of fuel for each level of references.
pub mod Laws
pub mod Reffind
pub mod Visits
pub mod Marks
pub mod Annotate
use openradtool.Base.{
  ℕ, zero, suc, ◌+◌, Bool, true, false, ◌&&◌, ◌||◌, Option, none, some, List, [], ◌∷◌, ◌++◌, ◌==◌,
  ltb, if◌then◌else◌, strgt,
}
use openradtool.Model.{Ref, Field, Strct, Config}
use openradtool.Model.Store.{set_strct}
use openradtool.Model.Outcome.{Outcome, ok, fail, fault, out_of_fuel, ◌>>=◌}
use openradtool.Linker.Graph.{graph, is_struct, target_parent}

-- The structure behind `ref->target`, or a fault.
with_target : (ℕ → Config → Outcome Config) → Option ℕ → Config → Outcome Config
with_target call none cfg = fault
with_target call (some q) cfg = call q cfg

-- The loop over the fields: a call for each field of type struct.
unfoldable pub each_target : (ℕ → Config → Outcome Config) → List ℕ → Config → Outcome Config
unfolding with_target
each_target call [] cfg = ok cfg
each_target call (f ∷ fs) cfg =
    (if is_struct (cfg.field f).type
      then with_target call (target_parent (graph cfg) f) cfg
      else ok cfg)
    >>= each_target call fs

-- `p->colour = colour; p->height += height`
unfoldable pub mark : ℕ → ℕ → ℕ → Config → Config
mark p height colour cfg =
    set_strct cfg p
      (record (cfg.strct p) { colour = colour; height = (cfg.strct p).height + height })

-- `annotate(ref, height, colour)`, where `p` is `ref->target->parent`.
unfoldable pub annotate : ℕ → ℕ → ℕ → ℕ → Config → Outcome Config
unfolding each_target mark
annotate zero height colour p cfg = out_of_fuel
annotate (suc n) height colour p cfg =
    if (cfg.strct p).colour == colour
    then ok cfg
    else each_target (annotate n (height + 1) colour) (cfg.strct p).fq (mark p height colour cfg)

-- The loop body for one structure that is not coloured: the structure takes the colour at its first
-- field of type struct.
colour_then : ℕ → ℕ → ℕ → ℕ → Config → Outcome Config
unfolding mark annotate
colour_then fuel p colour q cfg = annotate fuel 1 colour q (mark p 0 colour cfg)

-- The first loop: `colour` goes up for each structure that had no colour.
unfoldable pub annotate_all : ℕ → ℕ → List ℕ → Config → Outcome Config
unfolding colour_then
annotate_all fuel colour [] cfg = ok cfg
annotate_all fuel colour (p ∷ ps) cfg =
    let skip = not_zero (cfg.strct p).colour in
    (if skip then ok cfg else each_target (colour_then fuel p colour) (cfg.strct p).fq cfg)
    >>= annotate_all fuel (if skip then colour else colour + 1) ps
  where
    not_zero : ℕ → Bool
    not_zero zero = false
    not_zero (suc n) = true

-- `parse_cmp(a, b) > 0`
unfoldable pub parse_cmp_gt : Config → ℕ → ℕ → Bool
parse_cmp_gt cfg a b =
    if (cfg.strct a).height == (cfg.strct b).height
    then strgt (cfg.strct a).name (cfg.strct b).name
    else ltb (cfg.strct b).height (cfg.strct a).height

-- `qsort` by parse_cmp. Names of structures differ, so any sort gives the same order.
unfoldable pub insert_strct : Config → ℕ → List ℕ → List ℕ
insert_strct cfg x [] = x ∷ []
insert_strct cfg x (y ∷ ys) =
    let rest = y ∷ insert_strct cfg x ys in if parse_cmp_gt cfg x y then rest else x ∷ y ∷ ys

unfoldable pub sort_strcts : Config → List ℕ → List ℕ
unfolding insert_strct
sort_strcts cfg [] = []
sort_strcts cfg (x ∷ xs) = insert_strct cfg x (sort_strcts cfg xs)

-- The sorted array goes back element by element with TAILQ_INSERT_HEAD.
unfoldable pub insert_heads : List ℕ → List ℕ → List ℕ
insert_heads [] sq = sq
insert_heads (x ∷ xs) sq = insert_heads xs (x ∷ sq)

unfoldable pub order_strcts : Config → Config
unfolding sort_strcts insert_heads
order_strcts cfg = record cfg { sq = insert_heads (sort_strcts cfg cfg.sq) [] }

-- `FIELD_NULL & f->ref->source->flags`; `none` where a pointer is NULL.
unfoldable pub source_null : Config → ℕ → Option Bool
source_null cfg f = elim (cfg.field f).ref [
  | none ↦ none
  | some r ↦ elim r.source [ none ↦ none | some s ↦ some (cfg.field s).null ]
]

-- A field of type struct in check_reffind: `call` is the recursive call, `rest` the rest of the loop.
reffind_field : (ℕ → Outcome Bool) → Option Bool → Option ℕ → Outcome Bool → Outcome Bool
reffind_field call (some true) q rest = ok true
reffind_field call (some false) (some q) rest = call q >>= λ found. if found then ok true else rest
reffind_field call _ _ rest = fault

unfoldable pub reffind_fields : Config → (ℕ → Outcome Bool) → List ℕ → Outcome Bool
unfolding reffind_field
reffind_fields cfg call [] = ok false
reffind_fields cfg call (f ∷ fs) =
    let rest = reffind_fields cfg call fs in
    if is_struct (cfg.field f).type
    then reffind_field call (source_null cfg f) (target_parent (graph cfg) f) rest
    else rest

unfoldable pub check_reffind : ℕ → Config → ℕ → Outcome Bool
unfolding reffind_fields
check_reffind zero cfg p = out_of_fuel
check_reffind (suc n) cfg p =
    if (cfg.strct p).has_nullrefs
    then ok true
    else reffind_fields cfg (check_reffind n cfg) (cfg.strct p).fq

flag_nullrefs : ℕ → Config → Outcome Bool → Outcome Config
flag_nullrefs p cfg (ok true) = ok (set_strct cfg p (record (cfg.strct p) { has_nullrefs = true }))
flag_nullrefs p cfg (ok false) = ok cfg
flag_nullrefs p cfg (fail b) = ok cfg
flag_nullrefs p cfg fault = fault
flag_nullrefs p cfg out_of_fuel = out_of_fuel

-- The last loop of ort_parse_close.
unfoldable pub mark_nullrefs : ℕ → List ℕ → Config → Outcome Config
unfolding flag_nullrefs
mark_nullrefs fuel [] cfg = ok cfg
mark_nullrefs fuel (p ∷ ps) cfg =
    flag_nullrefs p cfg (check_reffind fuel cfg p) >>= mark_nullrefs fuel ps
