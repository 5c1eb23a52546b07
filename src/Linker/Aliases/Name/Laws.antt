-- ===== src/Linker/Aliases/Name/Laws.antt =====
-- When the aliases of linker_aliases_create are distinct, and when they are SQL names.
use native.Mathlib.Decide.{dec_lt}
use openradtool.Base.{
  ℕ, ◌+◌, ◌/◌, ◌%◌, ◌≤◌, ◌<◌, ◌≡◌, Bool, true, ◌&&◌, [], ◌∷◌, Bytes, ◌↔◌, arith, leb,
}
use openradtool.Linker.Aliases.Name.{alias_name}

alias_name-one : (n : ℕ) → n < 26 → alias_name n ≡ b'_' ∷ (n + 97) ∷ []
unfolding alias_name
alias_name-one n h = ground arith

alias_name-two :
    (n : ℕ) → 26 ≤ n → n < 676 → alias_name n ≡ b'_' ∷ (n / 26 + 97) ∷ (n % 26 + 97) ∷ []
unfolding alias_name
alias_name-two n h k = ground arith

alias_name-three :
    (n : ℕ)
    → 676 ≤ n
    → n < 4134
    → alias_name n ≡ b'_' ∷ (n / 26 / 26 + 97) ∷ (n / 26 + 97) ∷ (n % 26 + 97) ∷ []
unfolding alias_name
alias_name-three n h k = ground arith

data Band (n : ℕ) : Type 0 where
  one : n < 26 → Band n
  two : 26 ≤ n → n < 676 → Band n
  three : 676 ≤ n → n < 4134 → Band n

band : (n : ℕ) → n < 4134 → Band n
band n h = elim (dec_lt n 26) [
  | yes a ↦ one a
  | no a ↦ elim (dec_lt n 676) [ yes b ↦ two (omega arith) b | no b ↦ three (omega arith) h ]
]

alias_name_bands : (m n : ℕ) → Band m → Band n → alias_name m ≡ alias_name n → m ≡ n
alias_name_bands m n (one h) (one k) e = ground (arith, alias_name-one m h, alias_name-one n k)
alias_name_bands m n (one h) (two k l) e = ground (arith, alias_name-one m h, alias_name-two n k l)
alias_name_bands m n (one h) (three k l) e =
    ground (arith, alias_name-one m h, alias_name-three n k l)
alias_name_bands m n (two h i) (one k) e = ground (arith, alias_name-two m h i, alias_name-one n k)
alias_name_bands m n (two h i) (two k l) e =
    ground (arith, alias_name-two m h i, alias_name-two n k l)
alias_name_bands m n (two h i) (three k l) e =
    ground (arith, alias_name-two m h i, alias_name-three n k l)
alias_name_bands m n (three h i) (one k) e =
    ground (arith, alias_name-three m h i, alias_name-one n k)
alias_name_bands m n (three h i) (two k l) e =
    ground (arith, alias_name-three m h i, alias_name-two n k l)
alias_name_bands m n (three h i) (three k l) e =
    ground (arith, alias_name-three m h i, alias_name-three n k l)

-- Two references below the 4134th have different aliases.
pub alias_name_injective : (m n : ℕ) → m < 4134 → n < 4134 → alias_name m ≡ alias_name n → m ≡ n
alias_name_injective m n h k e = alias_name_bands m n (band m h) (band n k) e

-- The 26 references from the 4134th on all have the alias of the 6th: the second character is a NUL.
pub alias_name_collision : (n : ℕ) → 4134 ≤ n → n < 4160 → alias_name n ≡ alias_name 6
unfolding alias_name
alias_name_collision n h k = ground arith

-- A lower-case letter.
abbrev pub is_letter : ℕ → Bool
is_letter c = leb b'a' c && leb c b'z'

-- An alias that is `_` and one to three lower-case letters.
abbrev pub IsSqlName : Bytes → Type 0
IsSqlName (c ∷ x ∷ []) = (c ≡ b'_') × (is_letter x ≡ true)
IsSqlName (c ∷ x ∷ y ∷ []) = (c ≡ b'_') × (is_letter x ≡ true) × (is_letter y ≡ true)
IsSqlName (c ∷ x ∷ y ∷ z ∷ []) =
    (c ≡ b'_') × (is_letter x ≡ true) × (is_letter y ≡ true) × (is_letter z ≡ true)
IsSqlName _ = ⊥

-- Below the 4134th reference an alias is `_` and lower-case letters exactly before the 676th.
pub alias_name_sql_iff : (n : ℕ) → n < 4134 → IsSqlName (alias_name n) ↔ (n < 676)
unfolding alias_name
alias_name_sql_iff n h = (λ s. ground arith, λ k. ground arith)
