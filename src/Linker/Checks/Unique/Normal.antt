-- ===== src/Linker/Checks/Unique/Normal.antt =====
-- The sort of a clause's references keeps what the comparison of clauses reads.
use openradtool.Base.{ℕ, suc, ◌≡◌, refl, ap, ◌∙◌, Option, List, [], ◌∷◌, length, arith}
use openradtool.Model.{Config}
use openradtool.Linker.Checks.Unique.{
  insert_nref, sort_nrefs, has_field, same_fields, same_size, alike, normalise,
}

module _ (cfg : Config) where
  length-insert_nref : (x : ℕ) (xs : List ℕ) → length (insert_nref cfg x xs) ≡ suc (length xs)
  unfolding insert_nref
  length-insert_nref x [] = refl
  length-insert_nref x (y ∷ ys) = ground (arith, length-insert_nref x ys)

  length-sort_nrefs : (xs : List ℕ) → length (sort_nrefs cfg xs) ≡ length xs
  unfolding sort_nrefs
  length-sort_nrefs [] = refl
  length-sort_nrefs (x ∷ xs) =
      length-insert_nref x (sort_nrefs cfg xs) ∙ ap suc (length-sort_nrefs xs)

  has_field-insert_nref :
      (o : Option ℕ) (x : ℕ) (xs : List ℕ)
      → has_field cfg.nref o (insert_nref cfg x xs) ≡ has_field cfg.nref o (x ∷ xs)
  unfolding insert_nref has_field
  has_field-insert_nref o x [] = refl
  has_field-insert_nref o x (y ∷ ys) = ground (arith, has_field-insert_nref o x ys)

  has_field-tail :
      (o : Option ℕ) (x : ℕ) (xs ys : List ℕ)
      → has_field cfg.nref o xs ≡ has_field cfg.nref o ys
      → has_field cfg.nref o (x ∷ xs) ≡ has_field cfg.nref o (x ∷ ys)
  unfolding has_field
  has_field-tail o x xs ys h = ground arith

  has_field-sort_nrefs :
      (o : Option ℕ) (xs : List ℕ)
      → has_field cfg.nref o (sort_nrefs cfg xs) ≡ has_field cfg.nref o xs
  unfolding sort_nrefs
  has_field-sort_nrefs o [] = refl
  has_field-sort_nrefs o (x ∷ xs) =
      has_field-insert_nref o x (sort_nrefs cfg xs)
      ∙ has_field-tail o x _ _ (has_field-sort_nrefs o xs)

  same_fields-insert_nref :
      (x : ℕ) (xs ys : List ℕ)
      → same_fields cfg.nref (insert_nref cfg x xs) ys ≡ same_fields cfg.nref (x ∷ xs) ys
  unfolding insert_nref same_fields
  same_fields-insert_nref x [] ys = refl
  same_fields-insert_nref x (z ∷ zs) ys = ground (arith, same_fields-insert_nref x zs ys)

  same_fields-tail :
      (x : ℕ) (ys xs zs : List ℕ)
      → same_fields cfg.nref xs ys ≡ same_fields cfg.nref zs ys
      → same_fields cfg.nref (x ∷ xs) ys ≡ same_fields cfg.nref (x ∷ zs) ys
  unfolding same_fields
  same_fields-tail x ys xs zs h = ground arith

  same_fields-sort_left :
      (xs ys : List ℕ) → same_fields cfg.nref (sort_nrefs cfg xs) ys ≡ same_fields cfg.nref xs ys
  unfolding sort_nrefs
  same_fields-sort_left [] ys = refl
  same_fields-sort_left (x ∷ xs) ys =
      same_fields-insert_nref x (sort_nrefs cfg xs) ys
      ∙ same_fields-tail x ys _ _ (same_fields-sort_left xs ys)

  same_fields-sort_right :
      (xs ys : List ℕ) → same_fields cfg.nref xs (sort_nrefs cfg ys) ≡ same_fields cfg.nref xs ys
  unfolding same_fields
  same_fields-sort_right [] ys = refl
  same_fields-sort_right (x ∷ xs) ys =
      ground (arith, has_field-sort_nrefs (cfg.nref x).field ys, same_fields-sort_right xs ys)

  pub same_size-normalise : (w u v : ℕ) → same_size (normalise w cfg) u v ≡ same_size cfg u v
  unfolding normalise same_size
  same_size-normalise w u v = ground (arith, length-sort_nrefs (cfg.unique w).nq)

  pub alike-normalise : (w u v : ℕ) → alike (normalise w cfg) u v ≡ alike cfg u v
  unfolding normalise alike
  alike-normalise w u v = ground (
    arith,
    same_fields-sort_left (cfg.unique w).nq (cfg.unique w).nq,
    same_fields-sort_left (cfg.unique w).nq (cfg.unique v).nq,
    same_fields-sort_right (cfg.unique w).nq (cfg.unique w).nq,
    same_fields-sort_right (cfg.unique u).nq (cfg.unique w).nq,
    same_fields-sort_right (sort_nrefs cfg (cfg.unique w).nq) (cfg.unique w).nq,
  )
