-- ===== src/Parser/Assign.antt =====
-- parser_enum.c: integers, and the values that are assigned to items without one.
use openradtool.Base.{
  ℕ, ◌+◌, ◌-◌, ◌^◌, Bool, true, false, not, ◌&&◌, ◌||◌, Option, none, some, List, [], ◌∷◌, ◌==◌,
  ltb, if◌then◌else◌, ℤ, pos, negsuc,
}
use openradtool.Model.{Eitem}

abbrev pub int64_max : ℕ
int64_max = 2 ^ 63 - 1

abbrev pub int_eq : ℤ → ℤ → Bool
int_eq (pos m) (pos n) = m == n
int_eq (negsuc m) (negsuc n) = m == n
int_eq _ _ = false

abbrev pub int_gt : ℤ → ℤ → Bool
int_gt (pos m) (pos n) = ltb n m
int_gt (pos m) (negsuc n) = true
int_gt (negsuc m) (pos n) = false
int_gt (negsuc m) (negsuc n) = ltb m n

unfoldable pub greatest : List Eitem → ℤ → ℤ
greatest [] m = m
greatest (ei ∷ es) m =
    if not ei.auto && int_gt ei.value m then greatest es ei.value else greatest es m

-- `m < 0 ? 0 : m + 1`, unless it overflows.
unfoldable pub successor : ℤ → Option ℕ
successor (negsuc _) = some 0
successor (pos n) = if n == int64_max then none else some (n + 1)

-- The items with values assigned from `m` on; `within`: they stay below INT64_MAX.
pub record Assigned : Type 0 where
  pub items : List Eitem
  pub within : Bool

unfoldable pub assign_below : ℕ → List Eitem → Assigned
assign_below m [] = record { items = []; within = true }
assign_below m (ei ∷ es) =
    let next = assign_below (if ei.auto then m + 1 else m) es in
    let ei' = if ei.auto then record ei { value = pos m } else ei in
    if m == int64_max
    then record { items = ei ∷ es; within = false }
    else record { items = ei' ∷ next.items; within = next.within }

-- The same without a test: `none` where the counter overflows.
unfoldable pub assign_all : ℕ → List Eitem → Option (List Eitem)
assign_all m [] = some []
assign_all m (ei ∷ es) =
    if ei.auto
    then (if m == int64_max then none else elim (assign_all (m + 1) es) [
      | none ↦ none
      | some es' ↦ some (record ei { value = pos m } ∷ es')
    ])
    else elim (assign_all m es) [ none ↦ none | some es' ↦ some (ei ∷ es') ]

-- Some item has a value above INT64_MIN that is not assigned.
unfoldable pub found_value : List Eitem → Bool
found_value [] = false
found_value (ei ∷ es) = not ei.auto && int_gt ei.value (negsuc int64_max) || found_value es

-- The values that parse_enum assigns to the items.
unfoldable pub assign_again : List Eitem → Option (List Eitem)
unfolding found_value greatest successor assign_all
assign_again es =
    if found_value es
    then elim (successor (greatest es (negsuc int64_max))) [
      | none ↦ none
      | some m ↦ assign_all m es
    ]
    else some es
