-- ===== src/Linker/Resolve/Refs/Laws.antt =====
-- What a reference that resolve_field_foreign or resolve_field_struct accepts looks like.
use mathlib.Core.Path.{subst}
use openradtool.Base.{
  ℕ, ◌≡◌, ◌⊎◌, inl, inr, refl, sym, ap, ◌∙◌, true, false, ◌||◌, Option, none, some, List, [], ◌∷◌,
  Bytes, strcaseeq, In, Option-cases, Bool-cases, arith,
}
use openradtool.Model.{Pos, Ref, Config}
use openradtool.Model.Store.{set_field}
use openradtool.Model.Outcome.{ok, ok-injective}
use openradtool.Linker.Resolve.Find.{
  find_field, same_type→≡, Tally, error_if, finish, finish-error_if,
}
use openradtool.Linker.Resolve.Refs.{
  foreign_target, mismatched, not_unique, is_none, check_foreign, set_ref, resolve_field_foreign,
}

-- `t` is the first field of the name in a structure of the name.
pub record Names (cfg : Config) (tstrct tfield : Bytes) (ps : List ℕ) (t : ℕ) : Type 0 where
  pub at : ℕ
  pub among : In at ps
  pub strct : strcaseeq (cfg.strct at).name tstrct ≡ true
  pub field : find_field cfg at tfield ≡ some t

Names-later :
    (cfg : Config) (tstrct tfield : Bytes) (p : ℕ) (ps : List ℕ) (t : ℕ)
    → Names cfg tstrct tfield ps t
    → Names cfg tstrct tfield (p ∷ ps) t
Names-later cfg tstrct tfield p ps t n = record {
  at = n.at;
  among = inr n.among;
  strct = n.strct;
  field = n.field;
}

foreign_target-Names :
    (cfg : Config) (tstrct tfield : Bytes) (ps : List ℕ) (o : Option ℕ) (t : ℕ)
    → foreign_target cfg tstrct tfield ps o ≡ some t
    → (o ≡ some t) ⊎ Names cfg tstrct tfield ps t
unfolding foreign_target
foreign_target-Names cfg tstrct tfield [] o t h = inl h
foreign_target-Names cfg tstrct tfield (p ∷ ps) o t h =
    elim (Bool-cases (strcaseeq (cfg.strct p).name tstrct)) [
      | inl named ↦ elim (Option-cases (find_field cfg p tfield)) [
        | inl e ↦
            elim (foreign_target-Names cfg tstrct tfield ps o t
              (rw (foreign_target, named, e) at h)) [
                | inl k ↦ inl k
                | inr n ↦ inr (Names-later cfg tstrct tfield p ps t n)
              ]
        | inr (f, e) ↦
            elim (foreign_target-Names cfg tstrct tfield ps (some f) t
              (rw (foreign_target, named, e) at h)) [
                | inl k ↦ inr (record { at = p; among = inl refl; strct = named; field = e ∙ k })
                | inr n ↦ inr (Names-later cfg tstrct tfield p ps t n)
              ]
      ]
      | inr other ↦
          elim (foreign_target-Names cfg tstrct tfield ps o t (rw (foreign_target, other) at h)) [
            | inl k ↦ inl k
            | inr n ↦ inr (Names-later cfg tstrct tfield p ps t n)
          ]
    ]

-- The reference `r` with the target `t` is well formed: its source and its target exist and have
-- one type, and the target is a rowid or unique.
pub record IsForeign (cfg : Config) (r : Ref) (t : ℕ) : Type 0 where
  pub source : ℕ
  pub is_source : r.source ≡ some source
  pub type : (cfg.field source).type ≡ (cfg.field t).type
  pub keyed : (cfg.field t).rowid || (cfg.field t).unique ≡ true

pub is_none-eq-false : (o : Option ℕ) → is_none o ≡ false → (a : ℕ) × (o ≡ some a)
is_none-eq-false none h = cc
is_none-eq-false (some a) h = (a, refl)

IsForeign-tests :
    (cfg : Config) (r : Ref) (s t : ℕ)
    → r.source ≡ some s
    → r.target ≡ some t
    → mismatched cfg r.source r.target ≡ false
    → not_unique cfg r.target ≡ false
    → IsForeign cfg r t
unfolding mismatched not_unique
IsForeign-tests cfg r s t hs ht types keys = record {
  source = s;
  is_source = hs;
  type = same_type→≡ (cfg.field s).type (cfg.field t).type (ground (arith, rw (hs, ht) at types));
  keyed = ground (arith, rw ht at keys);
}

check_foreign_sound :
    (cfg : Config) (at : Pos) (r : Ref) (cfg' : Config)
    → check_foreign cfg at r ≡ ok cfg'
    → (cfg ≡ cfg') × (t : ℕ) × (r.target ≡ some t) × IsForeign cfg r t
unfolding check_foreign finish
check_foreign_sound cfg at r cfg' h =
    let zero_errs : Tally = record { cfg = cfg; errs = 0 } in
    let t1 = error_if (is_none r.source) at "unknown reference source" zero_errs in
    let t2 = error_if (is_none r.target) at "unknown reference target" t1 in
    let types = mismatched cfg r.source r.target in
    let t3 = error_if types at "source and target reference type mismatch" t2 in
    let d =
      finish-error_if (not_unique cfg r.target) at "target reference not a rowid or unique" t3 cfg'
        h in
    let c = finish-error_if types at "source and target reference type mismatch" t2 cfg' d.1 in
    let b = finish-error_if (is_none r.target) at "unknown reference target" t1 cfg' c.1 in
    let a = finish-error_if (is_none r.source) at "unknown reference source" zero_errs cfg' b.1 in
    let t = is_none-eq-false r.target b.0 in
    let s = is_none-eq-false r.source a.0 in
    (ok-injective a.1, t.0, t.1, IsForeign-tests cfg r s.0 t.0 s.1 t.1 c.0 d.0)

-- What resolve_field_foreign leaves of the reference `r` of the field `x`: its target is the first
-- field of the name in a structure of the name, which has the type of the source and is a rowid or
-- unique, and nothing else has changed.
pub record Foreign (cfg : Config) (x : ℕ) (tstrct tfield : Bytes) (r : Ref) (cfg' : Config)
    : Type 0 where
  pub t : ℕ
  pub names : Names cfg tstrct tfield cfg.sq t
  pub source : ℕ
  pub is_source : r.source ≡ some source
  pub type : (cfg'.field source).type ≡ (cfg'.field t).type
  pub keyed : (cfg'.field t).rowid || (cfg'.field t).unique ≡ true
  pub result :
      cfg'
      ≡ set_field cfg x (record (cfg.field x) {
        ref = some (record { target = some t; source = r.source; parent = r.parent });
      })

-- If the reference of field `x` has no target yet and resolve_field_foreign succeeds, then the
-- reference gets as its target a field of the name in a structure of the name, which has the type of
-- the source and is a rowid or unique; its source, its parent and the rest of the configuration are
-- as they were.
pub resolve_field_foreign_sound :
    (cfg : Config) (x : ℕ) (tstrct tfield : Bytes) (r : Ref) (cfg' : Config)
    → (cfg.field x).ref ≡ some r
    → r.target ≡ none
    → resolve_field_foreign x tstrct tfield cfg ≡ ok cfg'
    → Foreign cfg x tstrct tfield r cfg'
unfolding resolve_field_foreign set_ref
resolve_field_foreign_sound cfg x tstrct tfield r cfg' hr ht h =
    let r' : Ref = record r { target = foreign_target cfg tstrct tfield cfg.sq r.target } in
    let s =
      check_foreign_sound (set_ref cfg x r') (cfg.field r.parent).pos r' cfg'
        (rw (hr, resolve_field_foreign) at h) in
    record {
      t = s.1;
      names = elim (foreign_target-Names cfg tstrct tfield cfg.sq r.target s.1 s.2) [
        | inl e ↦ absurd (let k = sym ht ∙ e in cc)
        | inr n ↦ n
      ];
      source = s.3.source;
      is_source = s.3.is_source;
      type = subst (λ c. (c.field s.3.source).type ≡ (c.field s.1).type) s.0 s.3.type;
      keyed = subst (λ c. (c.field s.1).rowid || (c.field s.1).unique ≡ true) s.0 s.3.keyed;
      result =
          sym s.0
          ∙ ap
              (λ t. set_field cfg x (record (cfg.field x) {
                ref = some (record { target = t; source = r.source; parent = r.parent });
              }))
              s.2;
    }
