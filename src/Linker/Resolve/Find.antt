-- ===== src/Linker/Resolve/Find.antt =====
-- The scans of linker_resolve.c for a name, and its counting of errors.
use Prim.Native.String.{String}
use openradtool.Base.{
  ℕ, ◌+◌, ◌≡◌, refl, Bool, true, false, Option, none, some, List, [], ◌∷◌, ◌==◌, ==_iff,
  if◌then◌else◌, Bytes, strcaseeq, Bool-cases, inl, inr, arith,
}
use openradtool.Model.{
  Ftype, bit, date, epoch, int, real, blob, text, password, email, struct, enum, bitfield, Pos,
  Config,
}
use openradtool.Model.Store.{gen_errx}
use openradtool.Model.Outcome.{Outcome, ok, fail, fail-ne-ok, ok-injective}

-- The first address in a queue whose object has the name.
unfoldable pub find_name : (ℕ → Bytes) → Bytes → List ℕ → Option ℕ
find_name name_of name [] = none
find_name name_of name (x ∷ xs) =
    if strcaseeq (name_of x) name then some x else find_name name_of name xs

unfoldable pub find_field : Config → ℕ → Bytes → Option ℕ
unfolding find_name
find_field cfg s name = find_name (λ f. (cfg.field f).name) name (cfg.strct s).fq

unfoldable pub ftype_code : Ftype → ℕ
ftype_code bit = 0
ftype_code date = 1
ftype_code epoch = 2
ftype_code int = 3
ftype_code real = 4
ftype_code blob = 5
ftype_code text = 6
ftype_code password = 7
ftype_code email = 8
ftype_code struct = 9
ftype_code enum = 10
ftype_code bitfield = 11

-- `a->type == b->type`
unfoldable pub same_type : Ftype → Ftype → Bool
unfolding ftype_code
same_type a b = ftype_code a == ftype_code b

pub same_type→≡ : (a b : Ftype) → same_type a b ≡ true → a ≡ b
unfolding same_type
same_type→≡ a b h = ground arith

-- The configuration and `errs`.
pub record Tally : Type 0 where
  pub cfg : Config
  pub errs : ℕ

-- `gen_errx(...); errs++;` under a condition.
unfoldable pub error_if : Bool → Pos → String → Tally → Tally
error_if b pos s t = if b then record { cfg = gen_errx t.cfg pos s; errs = t.errs + 1 } else t

-- `return errs == 0`
unfoldable pub finish : Tally → Outcome Config
finish t = if t.errs == 0 then ok t.cfg else fail t.cfg

errs-ne-zero : (n : ℕ) → (n + 1 == 0) ≡ false
errs-ne-zero n = ground arith

-- A tally that ends without errors had none before, and the test did not report.
pub finish-error_if :
    (b : Bool) (pos : Pos) (s : String) (t : Tally) (cfg : Config)
    → finish (error_if b pos s t) ≡ ok cfg
    → (b ≡ false) × (finish t ≡ ok cfg)
unfolding finish error_if
finish-error_if false pos s t cfg h = (refl, h)
finish-error_if true pos s t cfg h = absurd (fail-ne-ok (rw (errs-ne-zero t.errs) at h))

pub finish-eq-ok : (t : Tally) (cfg : Config) → finish t ≡ ok cfg → (t.errs ≡ 0) × (t.cfg ≡ cfg)
unfolding finish
finish-eq-ok t cfg h = elim (Bool-cases (t.errs == 0)) [
  | inl e ↦ ((==_iff t.errs 0).0 e, ok-injective (rw e at h))
  | inr e ↦ absurd (fail-ne-ok (rw e at h))
]

pub finish-zero : (t : Tally) → t.errs ≡ 0 → finish t ≡ ok t.cfg
unfolding finish
finish-zero t e = rw e
