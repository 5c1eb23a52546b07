-- ===== src/Linker/Checks/Searchtype/Laws.antt =====
-- Which searches check_searchtype accepts.
use openradtool.Base.{ℕ, ◌≤◌, ◌≡◌, ◌≢◌, ◌⊎◌, Bool, true, false, ◌||◌, none, some, List, All}
use openradtool.Model.{
  Ftype, bit, int, text, password, email, bitfield, Optype, equal, nequal, like, and, or, streq,
  strneq, isnull, notnull, Field, Sent, Search, Config,
}
use openradtool.Model.Outcome.{Outcome, ok}
use openradtool.Linker.Checks.{Check}
use openradtool.Linker.Checks.Searchtype.{
  hashed, bad_bit, bad_password, bad_like, is_count, is_given,
}

-- The check runs to its end from `c`, and adds no error exactly if `P` holds.
record Ran (c : Check) (P : Type 0) (m : Outcome Check) : Type 0 where
  last : Check
  runs : m ≡ ok last
  grows : c.errs ≤ last.errs
  clean : last.errs ≡ c.errs → P
  quiet : P → last.errs ≡ c.errs

module _ (cfg : Config) where
  -- No NULL field among the terms.
  abbrev pub HasFields : List ℕ → Type 0
  HasFields = All λ s. (cfg.sent s).field ≢ none

  -- `bad` holds of no term.
  abbrev pub NoTerm : (Sent → Field → Bool) → List ℕ → Type 0
  NoTerm bad =
      All λ s. (f : ℕ) → (cfg.sent s).field ≡ some f → bad (cfg.sent s) (cfg.field f) ≡ false

-- What an operator asks of the type of the field. `strict`: the search is a count or a distinct
-- one, where hashed passwords cannot be compared.
abbrev pub OpAllows : Bool → Optype → Ftype → Type 0
OpAllows strict streq t = Unit
OpAllows strict strneq t = Unit
OpAllows strict isnull t = Unit
OpAllows strict notnull t = Unit
OpAllows strict like t = (t ≡ text) ⊎ (t ≡ email)
OpAllows strict and t = (t ≡ bit) ⊎ (t ≡ bitfield) ⊎ (t ≡ int)
OpAllows strict or t = (t ≡ bit) ⊎ (t ≡ bitfield) ⊎ (t ≡ int)
OpAllows strict equal t = strict ≡ true → t ≢ password
OpAllows strict nequal t = strict ≡ true → t ≢ password
OpAllows strict _ t = t ≢ password

-- The tests of the loops together, for one term.
abbrev Passes : Bool → Optype → Ftype → Type 0
Passes strict o t =
    (strict ≡ true → hashed o t ≡ false)
    × (bad_bit o t ≡ false)
    × (bad_password o t ≡ false)
    × (bad_like o t ≡ false)

-- Whether hashed passwords cannot be compared: the search is a count or on distinct subsets.
abbrev pub is_strict : Search → Bool
is_strict srch = is_count srch.type || is_given srch.dst
