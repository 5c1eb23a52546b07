-- ===== src/Linker/Aliases/Resolve/Laws.antt =====
-- When linker_aliases_resolve marks a search as unique, and what its terms are linked to.
use openradtool.Base.{
  ℕ, Bool, true, false, ◌&&◌, ◌||◌, Option, none, some, List, [], ◌∷◌, ==_iff, ◌≡◌, ◌≢◌, ◌↔◌, ◌⊎◌,
  inl, inr, refl, sym, some_inj, ap, ◌∙◌, In, All, Bool-cases, Option-cases, arith,
}
use openradtool.Model.{Search, Config}
use openradtool.Linker.Aliases.Resolve.{
  is_equal, same_pointer, any_unique_term, has_equality, all_covered, any_covered,
  check_search_unique, unique_flag,
}

module _ (cfg : Config) where
  -- An equality term on the field `f`.
  pub record Equates (ss : List ℕ) (f : ℕ) : Type 0 where
    pub term : ℕ
    pub mem : In term ss
    pub op : is_equal (cfg.sent term).op ≡ true
    pub field : (cfg.sent term).field ≡ some f

  -- Some equality term is on a field that is a rowid or unique by itself.
  pub record ByTerm (ss : List ℕ) : Type 0 where
    pub target : ℕ
    pub equates : Equates ss target
    pub alone : ((cfg.field target).rowid || (cfg.field target).unique) ≡ true

  -- Every field of one of the `unique` clauses has an equality term.
  pub record ByClause (ss us : List ℕ) : Type 0 where
    pub clause : ℕ
    pub mem : In clause us
    pub covered :
        (n f : ℕ) → In n (cfg.unique clause).nq → (cfg.nref n).field ≡ some f → Equates ss f

  Equates-cons : (s f : ℕ) (ss : List ℕ) → Equates ss f → Equates (s ∷ ss) f
  Equates-cons s f ss e = record { term = e.term; mem = inr e.mem; op = e.op; field = e.field }

  has_equality_sound : (f : ℕ) (ss : List ℕ) → has_equality cfg f ss ≡ true → Equates ss f
  unfolding has_equality
  has_equality_sound f [] h = cc
  has_equality_sound f (s ∷ ss) h =
      elim (Bool-cases (is_equal (cfg.sent s).op && same_pointer (cfg.sent s).field (some f))) [
        | inl e ↦ record {
          term = s;
          mem = inl refl;
          op = ground arith;
          field = same_field (cfg.sent s).field (ground arith);
        }
        | inr e ↦ Equates-cons s f ss (has_equality_sound f ss (ground arith))
      ]
    where
      same_field : (o : Option ℕ) → same_pointer o (some f) ≡ true → o ≡ some f
      same_field none e = cc
      same_field (some a) e = ap some ((==_iff a f).0 e)

  has_equality_complete : (f : ℕ) (ss : List ℕ) → Equates ss f → has_equality cfg f ss ≡ true
  unfolding has_equality
  has_equality_complete f [] e = absurd e.mem
  has_equality_complete f (s ∷ ss) e = elim e.mem [
    | inl m ↦ ground (arith, e.op, e.field, ==_iff f f)
    | inr m ↦ ground (
      arith,
      has_equality_complete f ss (record { term = e.term; mem = m; op = e.op; field = e.field }),
    )
  ]

  ByTerm-cons : (s : ℕ) (ss : List ℕ) → ByTerm ss → ByTerm (s ∷ ss)
  ByTerm-cons s ss t = record {
    target = t.target;
    equates = Equates-cons s t.target ss t.equates;
    alone = t.alone;
  }

  -- No NULL field among the terms.
  abbrev pub HasFields : List ℕ → Type 0
  HasFields = All λ s. (cfg.sent s).field ≢ none

  any_unique_term_sound : (ss : List ℕ) → any_unique_term cfg ss ≡ some true → ByTerm ss
  unfolding any_unique_term
  any_unique_term_sound [] h = cc
  any_unique_term_sound (s ∷ ss) h = elim (Option-cases (cfg.sent s).field) [
    | inl e ↦ ground arith
    | inr (f, e) ↦
        elim (Bool-cases
          (((cfg.field f).rowid || (cfg.field f).unique) && is_equal (cfg.sent s).op)) [
            | inl u ↦ record {
              target = f;
              equates = record { term = s; mem = inl refl; op = ground arith; field = e };
              alone = ground arith;
            }
            | inr u ↦ ByTerm-cons s ss (any_unique_term_sound ss (ground arith))
          ]
  ]

  any_unique_term-total :
      (ss : List ℕ) → HasFields ss → (b : Bool) × (any_unique_term cfg ss ≡ some b)
  unfolding any_unique_term
  any_unique_term-total [] h = (false, refl)
  any_unique_term-total (s ∷ ss) h = elim (Option-cases (cfg.sent s).field) [
    | inl e ↦ absurd (h.0 e)
    | inr (f, e) ↦
        let (b, r) = any_unique_term-total ss h.1 in
        (
          ((cfg.field f).rowid || (cfg.field f).unique) && is_equal (cfg.sent s).op || b,
          ground (arith, r),
        )
  ]

  any_unique_term_complete :
      (ss : List ℕ) → HasFields ss → ByTerm ss → any_unique_term cfg ss ≡ some true
  unfolding any_unique_term
  any_unique_term_complete [] h t = absurd t.equates.mem
  any_unique_term_complete (s ∷ ss) h t = elim (Option-cases (cfg.sent s).field) [
    | inl e ↦ absurd (h.0 e)
    | inr (f, e) ↦ elim t.equates.mem [
      | inl m ↦
          let op : is_equal (cfg.sent s).op ≡ true = rw m at t.equates.op in
          let at_s : (cfg.sent s).field ≡ some t.target = rw m at t.equates.field in
          let same : t.target ≡ f = some_inj (sym at_s ∙ e) in
          let alone : ((cfg.field f).rowid || (cfg.field f).unique) ≡ true = rw same at t.alone in
          let (b, r) = any_unique_term-total ss h.1 in ground (arith, r)
      | inr m ↦
          let rest = any_unique_term_complete ss h.1 (record {
            target = t.target;
            equates = record {
              term = t.equates.term;
              mem = m;
              op = t.equates.op;
              field = t.equates.field;
            };
            alone = t.alone;
          }) in
          ground (arith, rest)
    ]
  ]

  all_covered_iff :
      (ss ns : List ℕ)
      → All (λ n. (cfg.nref n).field ≢ none) ns
      → (all_covered cfg ss ns ≡ some true)
        ↔ ((n f : ℕ) → In n ns → (cfg.nref n).field ≡ some f → Equates ss f)
  unfolding all_covered
  all_covered_iff ss [] h = (λ e n f m k. absurd m, λ e. refl)
  all_covered_iff ss (n ∷ ns) h = elim (Option-cases (cfg.nref n).field) [
    | inl e ↦ absurd (h.0 e)
    | inr (f, e) ↦
        let (to, from) = all_covered_iff ss ns h.1 in
        (
          λ c x g m k. elim m [
            | inl y ↦
                let same : g ≡ f = some_inj (sym k ∙ ap (λ i. (cfg.nref i).field) y ∙ e) in
                rw same (has_equality_sound f ss (ground arith))
            | inr m' ↦ to (ground arith) x g m' k
          ],
          λ all.
              let here = has_equality_complete f ss (all n f (inl refl) e) in
              let rest = from (λ x g m k. all x g (inr m) k) in ground (arith, here, rest),
        )
  ]

  all_covered-total :
      (ss ns : List ℕ)
      → All (λ n. (cfg.nref n).field ≢ none) ns
      → (b : Bool) × (all_covered cfg ss ns ≡ some b)
  unfolding all_covered
  all_covered-total ss [] h = (true, refl)
  all_covered-total ss (n ∷ ns) h = elim (Option-cases (cfg.nref n).field) [
    | inl e ↦ absurd (h.0 e)
    | inr (f, e) ↦
        let (b, r) = all_covered-total ss ns h.1 in (has_equality cfg f ss && b, ground (arith, r))
  ]

  -- No NULL field among the fields of the clauses.
  abbrev pub HasClauseFields : List ℕ → Type 0
  HasClauseFields = All λ u. All (λ n. (cfg.nref n).field ≢ none) (cfg.unique u).nq

  any_covered_iff :
      (ss us : List ℕ) → HasClauseFields us → (any_covered cfg ss us ≡ some true) ↔ ByClause ss us
  unfolding any_covered
  any_covered_iff ss [] h = (λ e. cc, λ c. absurd c.mem)
  any_covered_iff ss (u ∷ us) h =
      let (b, r) = all_covered-total ss (cfg.unique u).nq h.0 in
      let (one_to, one_from) = all_covered_iff ss (cfg.unique u).nq h.0 in
      let (to, from) = any_covered_iff ss us h.1 in
      (
        λ e. elim (Bool-cases b) [
          | inl t ↦ record { clause = u; mem = inl refl; covered = one_to (r ∙ ap some t) }
          | inr f ↦
              let c = to (ground (arith, r)) in
              record { clause = c.clause; mem = inr c.mem; covered = c.covered }
        ],
        λ c. elim c.mem [
          | inl m ↦ let all = one_from (λ n f i k. c.covered n f (rw m i) k) in ground (arith, all)
          | inr m ↦
              let rest = from (record { clause = c.clause; mem = m; covered = c.covered }) in
              ground (arith, r, rest)
        ],
      )

  any_covered-total :
      (ss us : List ℕ) → HasClauseFields us → (b : Bool) × (any_covered cfg ss us ≡ some b)
  unfolding any_covered
  any_covered-total ss [] h = (false, refl)
  any_covered-total ss (u ∷ us) h =
      let (b, r) = all_covered-total ss (cfg.unique u).nq h.0 in
      let (c, t) = any_covered-total ss us h.1 in (b || c, ground (arith, r, t))

  -- The flag SEARCH_IS_UNIQUE is computed for every search whose terms and clauses are linked to
  -- fields, and it is set exactly if it was set before, or an equality term is on a field that is a
  -- rowid or unique, or the equality terms cover all fields of one `unique` clause of the structure,
  -- whatever the operators of the other terms are.
  pub unique_flag_iff :
      (srch : Search)
      → HasFields srch.sntq
      → HasClauseFields (cfg.strct srch.parent).nq
      → (b : Bool) × (unique_flag cfg srch ≡ some b)
        × ((b ≡ true) ↔ (
            (srch.is_unique ≡ true)
            ⊎ ByTerm srch.sntq
            ⊎ ByClause srch.sntq (cfg.strct srch.parent).nq))
  unfolding unique_flag check_search_unique
  unique_flag_iff srch hs hc =
      let (b, r) = any_unique_term-total srch.sntq hs in
      let (c, t) = any_covered-total srch.sntq (cfg.strct srch.parent).nq hc in
      let (to, from) = any_covered_iff srch.sntq (cfg.strct srch.parent).nq hc in
      (
        srch.is_unique || b || c,
        ground (arith, r, t),
        (
          λ e. elim (Bool-cases srch.is_unique) [
            | inl x ↦ inl x
            | inr x ↦ elim (Bool-cases b) [
              | inl y ↦ inr (inl (any_unique_term_sound srch.sntq (r ∙ ap some y)))
              | inr y ↦ inr (inr (to (ground (arith, t))))
            ]
          ],
          λ e. elim e [
            | inl x ↦ ground arith
            | inr (inl y) ↦ let z = any_unique_term_complete srch.sntq hs y in ground (arith, r, z)
            | inr (inr y) ↦ let z = from y in ground (arith, t, z)
          ],
        ),
      )
