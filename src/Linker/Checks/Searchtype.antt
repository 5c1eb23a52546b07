-- ===== src/Linker/Checks/Searchtype.antt =====
-- check_aggrtype and check_searchtype. A NULL `field` is a fault.
pub mod Laws
pub mod Aggregate
use Prim.Native.String.{String}
use openradtool.Base.{
  ℕ, ◌+◌, Bool, true, false, not, ◌&&◌, ◌||◌, Option, none, some, List, [], ◌∷◌, ◌==◌,
  if◌then◌else◌, ℤ, pos,
}
use openradtool.Model.{
  Ftype, bit, int, text, password, email, bitfield, Optype, equal, like, and, or, nequal, streq,
  strneq, isnull, notnull, Stype, count, search, Pos, Field, Sent, Search, Config,
}
use openradtool.Model.Outcome.{Outcome, ok, fault, ◌>>=◌}
use openradtool.Linker.Checks.{Check, error_at, warn_at, start}

-- The two tests of check_aggrtype on the fields `x` of the aggregate and `y` of the group.
unfoldable pub compare_columns : Pos → ℕ → ℕ → Config → Check → Check
compare_columns p x y cfg c =
    let c' = if x == y then error_at p "same column for group and constraint" c else c in
    if (cfg.field x).parent == (cfg.field y).parent
    then c'
    else error_at p "structure for group and constraint must be the same" c'

aggr_and_group : Pos → Option ℕ → Option ℕ → Config → Check → Outcome Check
aggr_and_group p (some x) (some y) cfg c = ok (compare_columns p x y cfg c)
aggr_and_group p _ _ cfg c = fault

aggr_cases : Option ℕ → Option ℕ → Config → Check → Outcome Check
unfolding aggr_and_group
aggr_cases none (some g) cfg c = ok (error_at (cfg.sent g).pos "group without a constraint" c)
aggr_cases (some a) (some g) cfg c =
    aggr_and_group (cfg.sent g).pos (cfg.sent a).field (cfg.sent g).field cfg c
aggr_cases _ none cfg c = ok c

unfoldable pub check_aggrtype : Search → Config → Outcome Check
unfolding aggr_cases
check_aggrtype srch cfg = aggr_cases srch.aggr srch.group cfg (start cfg)

-- OPTYPE_ISUNARY
unfoldable pub is_unary : Optype → Bool
is_unary isnull = true
is_unary notnull = true
is_unary _ = false

is_string_op : Optype → Bool
is_string_op streq = true
is_string_op strneq = true
is_string_op _ = false

is_equality : Optype → Bool
is_equality equal = true
is_equality nequal = true
is_equality _ = false

is_bit_op : Optype → Bool
is_bit_op and = true
is_bit_op or = true
is_bit_op _ = false

is_like : Optype → Bool
is_like like = true
is_like _ = false

unfoldable pub is_password : Ftype → Bool
is_password password = true
is_password _ = false

is_bit_type : Ftype → Bool
is_bit_type bit = true
is_bit_type bitfield = true
is_bit_type int = true
is_bit_type _ = false

unfoldable pub is_text_type : Ftype → Bool
is_text_type text = true
is_text_type email = true
is_text_type _ = false

-- The tests of the loops over `srch->sntq`.
unfoldable pub hashed : Optype → Ftype → Bool
unfolding is_unary is_string_op is_password
hashed o t = not (is_unary o) && not (is_string_op o) && is_password t

unfoldable pub hashed_term : Sent → Field → Bool
hashed_term s f = hashed s.op f.type

unfoldable pub never_null_term : Sent → Field → Bool
unfolding is_unary
never_null_term s f = is_unary s.op && not f.null

unfoldable pub bad_bit : Optype → Ftype → Bool
unfolding is_bit_op is_bit_type
bad_bit o t = is_bit_op o && not (is_bit_type t)

unfoldable pub bad_bit_term : Sent → Field → Bool
bad_bit_term s f = bad_bit s.op f.type

unfoldable pub bad_password : Optype → Ftype → Bool
unfolding is_unary is_string_op is_equality is_password
bad_password o t = not (is_unary o) && not (is_equality o) && not (is_string_op o) && is_password t

unfoldable pub bad_password_term : Sent → Field → Bool
bad_password_term s f = bad_password s.op f.type

unfoldable pub bad_like : Optype → Ftype → Bool
unfolding is_like is_text_type
bad_like o t = is_like o && not (is_text_type t)

unfoldable pub bad_like_term : Sent → Field → Bool
bad_like_term s f = bad_like s.op f.type

-- One loop over the terms: what `report` does, for each term that `bad` holds of. Reports change
-- only the messages, so the stores are read in `cfg`, the configuration before the check.
module _ (cfg : Config) (bad : Sent → Field → Bool) (report : Pos → Check → Check) where
  check_term : Sent → Option ℕ → Check → Outcome Check
  check_term s none c = fault
  check_term s (some f) c = ok (if bad s (cfg.field f) then report s.pos c else c)

  unfoldable pub check_terms : List ℕ → Check → Outcome Check
  unfolding check_term
  check_terms [] c = ok c
  check_terms (x ∷ xs) c = check_term (cfg.sent x) (cfg.sent x).field c >>= check_terms xs

unfoldable pub is_count : Stype → Bool
is_count count = true
is_count _ = false

unfoldable pub is_search : Stype → Bool
is_search search = true
is_search _ = false

is_empty : List ℕ → Bool
is_empty [] = true
is_empty _ = false

is_one : ℤ → Bool
is_one (pos n) = n == 1
is_one _ = false

unfoldable pub is_given : Option ℕ → Bool
is_given none = false
is_given (some d) = true

-- The three warnings about the search itself.
unfoldable pub warn_search : Search → Check → Check
unfolding is_search is_empty is_one
warn_search srch c =
    let c1 =
      if is_search srch.type && is_empty srch.sntq && not (is_one srch.limit)
      then warn_at srch.pos "single-result search without parameters and without a limit of one" c
      else c in
    let c2 =
      if not (is_search srch.type) && srch.is_unique
      then warn_at srch.pos "multiple-result search on a unique field" c1
      else c1 in
    if not srch.is_unique && is_search srch.type && not (is_one srch.limit)
    then warn_at srch.pos "single-result search on a non-unique field without a limit of one" c2
    else c2

unfoldable pub check_searchtype : Search → Config → Outcome Check
unfolding is_given is_count
check_searchtype srch cfg =
    let q = srch.sntq in
    let counted =
      check_terms cfg hashed_term
        (λ p. error_at p "passwords for count only accept unary and string operators") q
        (start cfg) in
    (if is_count srch.type then counted else ok (start cfg))
    >>= (λ c. ok (warn_search srch c))
    >>= check_terms cfg never_null_term (λ p. warn_at p "null operator on non-null field") q
    >>= check_terms cfg bad_bit_term
        (λ p. error_at p "bit operations only available on bit, bitfield, and integer types") q
    >>= check_terms cfg bad_password_term
        (λ p. error_at p "passwords only accept unary or equality operators") q
    >>= check_terms cfg bad_like_term (λ p. error_at p "LIKE operator on non-textual field.") q
    >>= λ c.
        if is_given srch.dst
        then check_terms cfg hashed_term
            (λ p. error_at p "password queries not allowed when searching on distinct subsets") q c
        else ok c
