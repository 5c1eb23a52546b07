-- ===== src/Linker/Order/Laws.antt =====
-- What the sort and check_reffind of ort_parse_close guarantee.
use mathlib.Core.Path.{subst}
use mathlib.Core.List.{Perm, perm_middle, append-nil}
use mathlib.Core.List.Perm
use openradtool.Base.{
  ℕ, ◌≤◌, ◌≡◌, inl, inr, refl, sym, true, false, List, [], ◌∷◌, ◌++◌, In, All, All-In, All-at,
  Bool-cases, arith,
}
use openradtool.Model.{Config}
use openradtool.Linker.Order.{parse_cmp_gt, insert_strct, sort_strcts, insert_heads, order_strcts}

module _ (cfg : Config) where
  insert_strct-perm : (x : ℕ) (xs : List ℕ) → Perm (insert_strct cfg x xs) (x ∷ xs)
  unfolding insert_strct
  insert_strct-perm x [] = Perm.refl _
  insert_strct-perm x (y ∷ ys) = elim (Bool-cases (parse_cmp_gt cfg x y)) [
    | inl g ↦ rw g (Perm.trans (Perm.cons y (insert_strct-perm x ys)) (Perm.swap x y ys))
    | inr g ↦ rw g (Perm.refl _)
  ]

  sort_strcts-perm : (xs : List ℕ) → Perm (sort_strcts cfg xs) xs
  unfolding sort_strcts
  sort_strcts-perm [] = Perm.refl _
  sort_strcts-perm (x ∷ xs) =
      Perm.trans (insert_strct-perm x (sort_strcts cfg xs)) (Perm.cons x (sort_strcts-perm xs))

  insert_heads-perm : (xs sq : List ℕ) → Perm (insert_heads xs sq) (xs ++ sq)
  unfolding insert_heads
  insert_heads-perm [] sq = Perm.refl _
  insert_heads-perm (x ∷ xs) sq = Perm.trans (insert_heads-perm xs (x ∷ sq)) (perm_middle xs sq)

  abbrev height : ℕ → ℕ
  height p = (cfg.strct p).height

  -- No structure is higher than one before it.
  abbrev pub Descends : List ℕ → Type 0
  Descends [] = Unit
  Descends (x ∷ xs) = All (λ y. (cfg.strct y).height ≤ (cfg.strct x).height) xs × Descends xs

  abbrev Ascends : List ℕ → Type 0
  Ascends [] = Unit
  Ascends (x ∷ xs) = All (λ y. height x ≤ height y) xs × Ascends xs

  All-insert_strct :
      (P : ℕ → Type 0) (x : ℕ) (xs : List ℕ) → P x → All P xs → All P (insert_strct cfg x xs)
  unfolding insert_strct
  All-insert_strct P x [] px h = (px, tt)
  All-insert_strct P x (y ∷ ys) px h = elim (Bool-cases (parse_cmp_gt cfg x y)) [
    | inl g ↦ rw g (h.0, All-insert_strct P x ys px h.1)
    | inr g ↦ rw g (px, h)
  ]

  All-le :
      (x y : ℕ) (xs : List ℕ)
      → height x ≤ height y
      → All (λ z. height y ≤ height z) xs
      → All (λ z. height x ≤ height z) xs
  All-le x y [] h a = tt
  All-le x y (z ∷ zs) h a = (omega arith, All-le x y zs h a.1)

  after : (x y : ℕ) → parse_cmp_gt cfg x y ≡ true → height y ≤ height x
  unfolding parse_cmp_gt
  after x y g = ground arith

  before : (x y : ℕ) → parse_cmp_gt cfg x y ≡ false → height x ≤ height y
  unfolding parse_cmp_gt
  before x y g = ground arith

  insert_strct-Ascends : (x : ℕ) (xs : List ℕ) → Ascends xs → Ascends (insert_strct cfg x xs)
  unfolding insert_strct
  insert_strct-Ascends x [] h = (tt, tt)
  insert_strct-Ascends x (y ∷ ys) h = elim (Bool-cases (parse_cmp_gt cfg x y)) [
    | inl g ↦ rw g (All-insert_strct _ x ys (after x y g) h.0, insert_strct-Ascends x ys h.1)
    | inr g ↦ rw g ((before x y g, All-le x y ys (before x y g) h.0), h)
  ]

  sort_strcts-Ascends : (xs : List ℕ) → Ascends (sort_strcts cfg xs)
  unfolding sort_strcts
  sort_strcts-Ascends [] = tt
  sort_strcts-Ascends (x ∷ xs) =
      insert_strct-Ascends x (sort_strcts cfg xs) (sort_strcts-Ascends xs)

  insert_heads-Descends :
      (xs sq : List ℕ)
      → Ascends xs
      → Descends sq
      → ((x y : ℕ) → In x xs → In y sq → height y ≤ height x)
      → Descends (insert_heads xs sq)
  unfolding insert_heads
  insert_heads-Descends [] sq a d h = d
  insert_heads-Descends (x ∷ xs) sq a d h =
      insert_heads-Descends xs (x ∷ sq) a.1 (All-In _ sq (λ y m. h x y (inl refl) m), d)
        (λ z y m n. elim n [
          | inl e ↦ rw e (All-at (λ t. height x ≤ height t) xs z a.0 m)
          | inr n' ↦ h z y (inr m) n'
        ])

  -- The order of the structures after the sort: a permutation of the order before, in which no
  -- structure is higher than one before it.
  pub order_strcts_lem : Perm (order_strcts cfg).sq cfg.sq × Descends (order_strcts cfg).sq
  unfolding order_strcts
  order_strcts_lem = (
    Perm.trans (insert_heads-perm (sort_strcts cfg cfg.sq) []) (
        subst (λ l. Perm l cfg.sq) (sym (append-nil (sort_strcts cfg cfg.sq)))
          (sort_strcts-perm cfg.sq)),
    insert_heads-Descends (sort_strcts cfg cfg.sq) [] (sort_strcts-Ascends cfg.sq) tt
        (λ x y m n. absurd n),
  )
