-- ===== src/Linker/Checks/Searchtype/Aggregate.antt =====
-- Which searches check_aggrtype accepts.
use openradtool.Base.{
  ℕ, ◌≡◌, ◌≢◌, ◌↔◌, inl, inr, refl, sym, ap, ◌∙◌, true, none, some, some_inj, Option-cases, arith,
}
use openradtool.Model.{Pos, Search, Config}
use openradtool.Model.Outcome.{ok}
use openradtool.Linker.Checks.{Check, error_at, start, passed}
use openradtool.Linker.Checks.Searchtype.{check_aggrtype, compare_columns}

module _ (cfg : Config) where
  compare_columns_iff :
      (p : Pos) (x y : ℕ)
      → (passed (compare_columns p x y cfg (start cfg)) ≡ true)
        ↔ ((x ≢ y) × ((cfg.field x).parent ≡ (cfg.field y).parent))
  unfolding compare_columns error_at
  compare_columns_iff p x y = (λ h. (λ e. ground arith, ground arith), λ h. ground arith)

  -- With linked fields, check_aggrtype succeeds exactly if there is no group, or there is an
  -- aggregate as well and the two are different columns of one structure.
  pub check_aggrtype_iff :
      (srch : Search)
      → ((a : ℕ) → srch.aggr ≡ some a → (cfg.sent a).field ≢ none)
      → ((g : ℕ) → srch.group ≡ some g → (cfg.sent g).field ≢ none)
      → (c : Check) × (check_aggrtype srch cfg ≡ ok c)
        × ((passed c ≡ true) ↔ (
            (g y : ℕ)
            → srch.group ≡ some g
            → (cfg.sent g).field ≡ some y
            → (a : ℕ) × (x : ℕ) × (srch.aggr ≡ some a)
              × ((cfg.sent a).field ≡ some x)
              × (x ≢ y)
              × ((cfg.field x).parent ≡ (cfg.field y).parent)))
  unfolding check_aggrtype error_at
  check_aggrtype_iff srch ha hg = elim (Option-cases srch.group) [
    | inl e ↦ (start cfg, ground arith, ((λ p g y k l. cc), (λ all. refl)))
    | inr (g, e) ↦ elim (Option-cases (cfg.sent g).field) [
      | inl n ↦ absurd (hg g e n)
      | inr (y, l) ↦ elim (Option-cases srch.aggr) [
        | inl n ↦ (
          error_at (cfg.sent g).pos "group without a constraint" (start cfg),
          ground arith,
          ((λ p. ground arith), (λ all. let (a, x, k, _, _, _) = all g y e l in cc)),
        )
        | inr (a, k) ↦ elim (Option-cases (cfg.sent a).field) [
          | inl n ↦ absurd (ha a k n)
          | inr (x, m) ↦
              let cols = compare_columns_iff (cfg.sent g).pos x y in
              (
                compare_columns (cfg.sent g).pos x y cfg (start cfg),
                ground arith,
                (
                  (λ p g' y' i j.
                      let same : y' ≡ y =
                        some_inj
                          (sym j ∙ ap (λ t. (cfg.sent t).field) (some_inj (sym i ∙ e)) ∙ l) in
                      (a, x, k, m, rw same (cols.0 p).0, rw same (cols.0 p).1)),
                  (λ all.
                      let (a', x', k', m', ne, par) = all g y e l in
                      let same : x' ≡ x =
                        some_inj
                          (sym m' ∙ ap (λ t. (cfg.sent t).field) (some_inj (sym k' ∙ k)) ∙ m) in
                      cols.1 (rw same at ne, rw same at par)),
                ),
              )
        ]
      ]
    ]
  ]
