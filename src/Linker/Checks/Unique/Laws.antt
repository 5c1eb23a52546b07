-- ===== src/Linker/Checks/Unique/Laws.antt =====
-- What check_unique_unique finds, and what it misses.
use openradtool.Base.{
  ℕ, ◌≡◌, ◌≢◌, ◌⊎◌, inl, inr, refl, sym, ap, ◌∙◌, true, false, not, ◌&&◌, ◌||◌, Option, none, some,
  List, [], ◌∷◌, ◌==◌, ==_iff, length, In, All, Bool-cases, arith,
}
use openradtool.Model.{Strct, Config}
use openradtool.Linker.Aliases.Resolve.{same_pointer}
use openradtool.Linker.Checks.{Check, error_at, start, passed}
use openradtool.Linker.Checks.Unique.Normal.{same_size-normalise, alike-normalise}
use openradtool.Linker.Checks.Unique.{
  has_field, same_fields, same_size, alike, compare_with, normalise, check_clauses,
  check_unique_unique,
}

same_pointer→≡ : (a b : Option ℕ) → same_pointer a b ≡ true → a ≡ b
unfolding same_pointer
same_pointer→≡ none none h = refl
same_pointer→≡ none (some b) h = cc
same_pointer→≡ (some a) none h = cc
same_pointer→≡ (some a) (some b) h = ap (λ x. some x) ((==_iff a b).0 h)

-- Every field that the references `xs` name is named by one of `ys`.
abbrev pub Among : Config → List ℕ → List ℕ → Type 0
Among cfg xs ys = (x : ℕ) → In x xs → (y : ℕ) × In y ys × ((cfg.nref x).field ≡ (cfg.nref y).field)

has_field_sound :
    (cfg : Config) (o : Option ℕ) (ys : List ℕ)
    → has_field cfg.nref o ys ≡ true
    → (y : ℕ) × In y ys × (o ≡ (cfg.nref y).field)
unfolding has_field
has_field_sound cfg o [] h = cc
has_field_sound cfg o (y ∷ ys) h = elim (Bool-cases (same_pointer o (cfg.nref y).field)) [
  | inl e ↦ (y, inl refl, same_pointer→≡ o (cfg.nref y).field e)
  | inr e ↦ let r = has_field_sound cfg o ys (rw (has_field, e) at h) in (r.0, inr r.1, r.2)
]

same_fields-Among :
    (cfg : Config) (xs ys : List ℕ) → same_fields cfg.nref xs ys ≡ true → Among cfg xs ys
unfolding same_fields
same_fields-Among cfg [] ys h x m = absurd m
same_fields-Among cfg (z ∷ xs) ys h x (inl e) =
    rw e (has_field_sound cfg (cfg.nref z).field ys (ground arith))
same_fields-Among cfg (z ∷ xs) ys h x (inr m) = same_fields-Among cfg xs ys (ground arith) x m

-- Two different clauses of as many references each, and every field of the first is one of the
-- second.
pub record Duplicate (cfg : Config) (nq : List ℕ) : Type 0 where
  pub u : ℕ
  pub v : ℕ
  pub u_mem : In u nq
  pub v_mem : In v nq
  pub differ : u ≢ v
  pub size : length (cfg.unique u).nq ≡ length (cfg.unique v).nq
  pub fields : Among cfg (cfg.unique u).nq (cfg.unique v).nq

-- Two clauses that the loops report.
record Reported (cfg : Config) (nq : List ℕ) : Type 0 where
  pub u : ℕ
  pub v : ℕ
  pub u_mem : In u nq
  pub v_mem : In v nq
  pub differ : u ≢ v
  pub size : same_size cfg u v ≡ true
  pub fields : alike cfg u v ≡ true

Reported-Duplicate : (cfg : Config) (nq : List ℕ) → Reported cfg nq → Duplicate cfg nq
unfolding same_size alike
Reported-Duplicate cfg nq d = record {
  u = d.u;
  v = d.v;
  u_mem = d.u_mem;
  v_mem = d.v_mem;
  differ = d.differ;
  size = (==_iff (length (cfg.unique d.u).nq) (length (cfg.unique d.v).nq)).0 d.size;
  fields = same_fields-Among cfg (cfg.unique d.u).nq (cfg.unique d.v).nq d.fields;
}

-- One round of the outer loop changes nothing, or there is a duplicate.
compare_with_sound :
    (u : ℕ) (nq vs : List ℕ) (c : Check)
    → In u nq
    → ((v : ℕ) → In v vs → In v nq)
    → (compare_with u vs c ≡ c) ⊎ Reported c.cfg nq
unfolding compare_with error_at
compare_with_sound u nq [] c m sub = inl refl
compare_with_sound u nq (v ∷ vs) c m sub =
    elim (Bool-cases (not (v == u || not (same_size c.cfg u v)) && alike c.cfg u v)) [
      | inl d ↦ inr (record {
        u = u;
        v = v;
        u_mem = m;
        v_mem = sub v (inl refl);
        differ = λ e. ground (arith, ==_iff v u);
        size = ground arith;
        fields = ground arith;
      })
      | inr n ↦ elim (compare_with_sound u nq vs c m (λ x i. sub x (inr i))) [
        | inl e ↦ inl (ground (arith, e))
        | inr x ↦ inr x
      ]
    ]

-- A break: the clause `v` of the same size has other fields.
compare_with-break :
    (u v : ℕ) (vs : List ℕ) (c : Check)
    → u ≢ v
    → same_size c.cfg u v ≡ true
    → alike c.cfg u v ≡ false
    → compare_with u (v ∷ vs) c ≡ c
unfolding compare_with
compare_with-break u v vs c ne size other = ground arith

compare_with-skip :
    (u : ℕ) (vs : List ℕ) (c : Check) → compare_with u (u ∷ vs) c ≡ compare_with u vs c
unfolding compare_with
compare_with-skip u vs c = ground (arith, ==_iff u u)

-- The state of the outer loop: no error yet, and clauses that compare as in `cfg`.
record Like (cfg : Config) (c : Check) : Type 0 where
  errs : c.errs ≡ 0
  size : (u v : ℕ) → same_size c.cfg u v ≡ same_size cfg u v
  fields : (u v : ℕ) → alike c.cfg u v ≡ alike cfg u v

Like-normalise :
    (cfg : Config) (u : ℕ) (c : Check)
    → Like cfg c
    → Like cfg (record c { cfg = normalise u c.cfg })
Like-normalise cfg u c l = record {
  errs = l.errs;
  size = λ v w. same_size-normalise c.cfg u v w ∙ l.size v w;
  fields = λ v w. alike-normalise c.cfg u v w ∙ l.fields v w;
}

check_clauses-cons :
    (nq us : List ℕ) (u : ℕ) (c : Check)
    → compare_with u nq c ≡ c
    → c.errs ≡ 0
    → check_clauses nq (u ∷ us) c ≡ check_clauses nq us (record c { cfg = normalise u c.cfg })
unfolding check_clauses
check_clauses-cons nq us u c e z = rw (e, (==_iff c.errs 0).1 z)

-- Clauses that all differ from a first one of their size pass, whatever they are to each other.
check_clauses-first :
    (cfg : Config) (b : ℕ) (nq us : List ℕ) (c : Check)
    → Like cfg c
    → All (λ u. (u ≢ b) × (same_size cfg u b ≡ true) × (alike cfg u b ≡ false)) us
    → passed (check_clauses (b ∷ nq) us c) ≡ true
unfolding check_clauses
check_clauses-first cfg b nq [] c l h = (==_iff c.errs 0).1 l.errs
check_clauses-first cfg b nq (u ∷ us) c l h =
    let stop = compare_with-break u b nq c h.0.0 (l.size u b ∙ h.0.1) (l.fields u b ∙ h.0.2) in
    let rest =
      check_clauses-first cfg b nq us (record c { cfg = normalise u c.cfg })
        (Like-normalise cfg u c l) h.1 in
    ap passed (check_clauses-cons (b ∷ nq) us u c stop l.errs) ∙ rest

check_clauses_sound :
    (cfg : Config) (nq us : List ℕ) (c : Check)
    → Like cfg c
    → ((u : ℕ) → In u us → In u nq)
    → (passed (check_clauses nq us c) ≡ true) ⊎ Reported cfg nq
unfolding check_clauses
check_clauses_sound cfg nq [] c l sub = inl ((==_iff c.errs 0).1 l.errs)
check_clauses_sound cfg nq (u ∷ us) c l sub =
    elim (compare_with_sound u nq nq c (sub u (inl refl)) (λ v m. m)) [
      | inl e ↦
          elim (check_clauses_sound cfg nq us (record c { cfg = normalise u c.cfg })
            (Like-normalise cfg u c l) (λ v m. sub v (inr m))) [
              | inl p ↦ inl (ap passed (check_clauses-cons nq us u c e l.errs) ∙ p)
              | inr d ↦ inr d
            ]
      | inr d ↦ inr (record {
        u = d.u;
        v = d.v;
        u_mem = d.u_mem;
        v_mem = d.v_mem;
        differ = d.differ;
        size = sym (l.size d.u d.v) ∙ d.size;
        fields = sym (l.fields d.u d.v) ∙ d.fields;
      })
    ]

Like-start : (cfg : Config) → Like cfg (start cfg)
Like-start cfg = record { errs = refl; size = λ u v. refl; fields = λ u v. refl }

-- check_unique_unique accepts the clauses of a structure, or two different ones of them have as many
-- references as each other and every field of the first is a field of the second: an error is never
-- raised without such a pair.
pub check_unique_unique_sound :
    (s : Strct) (cfg : Config) → (passed (check_unique_unique s cfg) ≡ true) ⊎ Duplicate cfg s.nq
unfolding check_unique_unique
check_unique_unique_sound s cfg =
    elim (check_clauses_sound cfg s.nq s.nq (start cfg) (Like-start cfg) (λ u m. m)) [
      | inl p ↦ inl p
      | inr d ↦ inr (Reported-Duplicate cfg s.nq d)
    ]

-- Behind a first clause `b`, duplicates are missed: if the clauses `us` behind `b` have its size,
-- share not all fields with it, and the first of them `a` is not shared by `b` either, then
-- check_unique_unique accepts them all, whether or not `us` repeats a clause.
pub check_unique_unique_misses :
    (s : Strct) (cfg : Config) (b a : ℕ) (us : List ℕ)
    → s.nq ≡ b ∷ a ∷ us
    → All (λ u. (u ≢ b) × (same_size cfg u b ≡ true) × (alike cfg u b ≡ false)) (a ∷ us)
    → same_size cfg b a ≡ true
    → alike cfg b a ≡ false
    → passed (check_unique_unique s cfg) ≡ true
unfolding check_unique_unique
check_unique_unique_misses s cfg b a us e h size other =
    let c = start cfg in
    let nq = b ∷ a ∷ us in
    let stop =
      compare_with-skip b (a ∷ us) c
      ∙ compare_with-break b a us c (λ x. h.0.0 (sym x)) size other in
    let rest =
      check_clauses-first cfg b (a ∷ us) (a ∷ us) (record c { cfg = normalise b c.cfg })
        (Like-normalise cfg b c (Like-start cfg)) h in
    rw e (ap passed (check_clauses-cons nq (a ∷ us) b c stop refl) ∙ rest)
