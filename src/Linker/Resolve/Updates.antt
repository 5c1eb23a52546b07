-- ===== src/Linker/Resolve/Updates.antt =====
-- resolve_up_const and resolve_up_mod: the fields that an update or a delete tests and modifies.
pub mod Laws
use openradtool.Base.{
  ℕ, Bool, true, false, ◌&&◌, not, Option, none, some, List, ◌∷◌, if◌then◌else◌, Bytes, or_else,
}
use openradtool.Model.{
  Ftype, bit, date, epoch, int, real, blob, text, email, enum, bitfield, Modtype, concat, dec, inc,
  set, strset, Uref, Field, Config,
}
use openradtool.Model.Store.{set_uref, gen_warnx}
use openradtool.Model.Outcome.{Outcome, ok, fail}
use openradtool.Linker.Graph.{is_struct}
use openradtool.Linker.Checks.Searchtype.{is_unary, hashed, bad_like}
use openradtool.Linker.Resolve.Find.{find_field, Tally, error_if, finish}
use openradtool.Linker.Resolve.Refs.{is_none}

-- The reference `x` with the field of the name in the structure of its update, where there is one.
unfoldable pub find_uref : ℕ → Bytes → Config → Uref
unfolding find_field
find_uref x name cfg =
    let u = cfg.uref x in
    record u { field = or_else (find_field cfg (cfg.update u.parent).parent name) u.field }

-- `u.field != NULL && test(*u.field)`
unfoldable pub on_field : Config → (Field → Bool) → Option ℕ → Bool
on_field cfg test none = false
on_field cfg test (some f) = test (cfg.field f)

unfoldable pub struct_field : Field → Bool
struct_field f = is_struct f.type

unfoldable pub hashed_field : Uref → Field → Bool
hashed_field u f = hashed u.op f.type

unfoldable pub unlike_field : Uref → Field → Bool
unlike_field u f = bad_like u.op f.type

never_null : Uref → Field → Bool
never_null u f = is_unary u.op && not f.null

warn_never_null : Uref → Config → Config
unfolding on_field never_null
warn_never_null u cfg =
    if on_field cfg (never_null u) u.field
    then gen_warnx cfg u.pos "notnull or isnull operator on field that's never null"
    else cfg

-- The tests of resolve_up_const once the field is stored.
unfoldable pub check_up_const : Uref → Config → Outcome Config
unfolding on_field error_if finish warn_never_null
check_up_const u cfg =
    let start : Tally = record { cfg = cfg; errs = 0 } in
    let a = error_if (is_none u.field) u.pos "constraint field not found" start in
    let b =
      error_if (on_field cfg struct_field u.field) u.pos "constraint field may not be a struct" a in
    let c =
      error_if (on_field cfg (hashed_field u) u.field) u.pos
        "constraint field may not be a password in hashing mode" b in
    let d = record c { cfg = warn_never_null u c.cfg } in
    finish (
      error_if (on_field cfg (unlike_field u) u.field) u.pos "LIKE operator on non-textual field."
        d)

unfoldable pub resolve_up_const : ℕ → Bytes → Config → Outcome Config
unfolding find_uref check_up_const
resolve_up_const x name cfg = let u = find_uref x name cfg in check_up_const u (set_uref cfg x u)

unfoldable pub can_concat : Ftype → Bool
can_concat blob = true
can_concat text = true
can_concat email = true
can_concat _ = false

unfoldable pub is_numeric : Ftype → Bool
is_numeric bit = true
is_numeric bitfield = true
is_numeric date = true
is_numeric enum = true
is_numeric epoch = true
is_numeric int = true
is_numeric real = true
is_numeric _ = false

unfoldable pub cannot_concat : Modtype → Field → Bool
unfolding can_concat
cannot_concat concat f = not (can_concat f.type)
cannot_concat _ f = false

unfoldable pub cannot_count : Modtype → Field → Bool
unfolding is_numeric
cannot_count inc f = not (is_numeric f.type)
cannot_count dec f = not (is_numeric f.type)
cannot_count _ f = false

unfoldable pub check_up_mod : Uref → Config → Outcome Config
unfolding on_field error_if finish cannot_concat cannot_count
check_up_mod u cfg =
    let start : Tally = record { cfg = cfg; errs = 0 } in
    let a = error_if (is_none u.field) u.pos "modifier field not found" start in
    let b =
      error_if (on_field cfg struct_field u.field) u.pos "modifier field may not be a struct" a in
    let c =
      error_if (on_field cfg (cannot_concat u.mod_type) u.field) u.pos
        "concatenate modification on non-textual and non-binary field" b in
    finish (
      error_if (on_field cfg (cannot_count u.mod_type) u.field) u.pos
        "increment or decrement modification on non-numeric field" c)

unfoldable pub resolve_up_mod : ℕ → Bytes → Config → Outcome Config
unfolding find_uref check_up_mod
resolve_up_mod x name cfg = let u = find_uref x name cfg in check_up_mod u (set_uref cfg x u)
