-- ===== src/Linker/Resolve/Updates/Laws.antt =====
-- What a constraint or a modifier that the linker accepts looks like.
use Prim.Native.String.{String}
use openradtool.Base.{
  ℕ, ◌≡◌, ◌≢◌, ◌⊎◌, ◌↔◌, sym, ◌∙◌, false, Option, none, some, Bytes, or_else, arith,
}
use openradtool.Model.{
  Ftype, blob, text, password, email, struct, Optype, like, streq, strneq, isnull, notnull, Modtype,
  concat, dec, inc, set, strset, Uref, Field, Config,
}
use openradtool.Model.Store.{set_uref}
use openradtool.Model.Outcome.{ok}
use openradtool.Linker.Graph.{is_struct}
use openradtool.Linker.Checks.Searchtype.{hashed, bad_like}
use openradtool.Linker.Resolve.Find.{
  find_field, Tally, error_if, finish, finish-error_if, finish-eq-ok, finish-zero,
}
use openradtool.Linker.Resolve.Refs.{is_none}
use openradtool.Linker.Resolve.Refs.Laws.{is_none-eq-false}
use openradtool.Linker.Resolve.Updates.{
  find_uref, on_field, struct_field, hashed_field, unlike_field, warn_never_null, check_up_const,
  resolve_up_const, cannot_concat, cannot_count, check_up_mod, resolve_up_mod,
}

-- The operator of a constraint may be used on a field of the type.
abbrev pub Constrains : Optype → Ftype → Type 0
Constrains streq t = t ≢ struct
Constrains strneq t = t ≢ struct
Constrains isnull t = t ≢ struct
Constrains notnull t = t ≢ struct
Constrains like t = (t ≡ text) ⊎ (t ≡ email)
Constrains _ t = (t ≢ struct) × (t ≢ password)

-- The modification may be used on a field of the type.
abbrev pub Modifies : Modtype → Ftype → Type 0
Modifies set t = t ≢ struct
Modifies strset t = t ≢ struct
Modifies concat t = (t ≡ blob) ⊎ (t ≡ text) ⊎ (t ≡ email)
Modifies inc t = (t ≢ struct) × (t ≢ blob) × (t ≢ text) × (t ≢ email) × (t ≢ password)
Modifies dec t = (t ≢ struct) × (t ≢ blob) × (t ≢ text) × (t ≢ email) × (t ≢ password)

Constrains-tests :
    (o : Optype) (t : Ftype)
    → Constrains o t ↔ ((is_struct t ≡ false) × (hashed o t ≡ false) × (bad_like o t ≡ false))
unfolding is_struct hashed bad_like
Constrains-tests _ t = (λ h. (ground arith, ground arith, ground arith), λ h. ground arith)

Modifies-tests :
    (u : Uref) (f : Field)
    → Modifies u.mod_type f.type ↔ (
        (is_struct f.type ≡ false)
        × (cannot_concat u.mod_type f ≡ false)
        × (cannot_count u.mod_type f ≡ false))
unfolding is_struct cannot_concat cannot_count
Modifies-tests u f = go u.mod_type
  where
    go :
        (m : Modtype)
        → Modifies m f.type
          ↔ ((is_struct f.type ≡ false) × (cannot_concat m f ≡ false) × (cannot_count m f ≡ false))
    go _ = (λ h. (ground arith, ground arith, ground arith), λ h. ground arith)

-- The field that a reference of an update names, of an allowed type.
pub record Names (cfg : Config) (x : ℕ) (name : Bytes) (P : Field → Type 0) : Type 0 where
  pub f : ℕ
  pub found : find_field cfg (cfg.update (cfg.uref x).parent).parent name ≡ some f
  pub allowed : P (cfg.field f)

or_else-some : (o d : Option ℕ) (f : ℕ) → d ≡ none → or_else o d ≡ some f → o ≡ some f
or_else-some none d f e h = absurd (let k = sym e ∙ h in cc)
or_else-some (some a) d f e h = h

check_up_const_sound :
    (cfg : Config) (u : Uref) (cfg' : Config)
    → check_up_const u cfg ≡ ok cfg'
    → (f : ℕ) × (u.field ≡ some f)
      × (is_struct (cfg.field f).type ≡ false)
      × (hashed u.op (cfg.field f).type ≡ false)
      × (bad_like u.op (cfg.field f).type ≡ false)
unfolding check_up_const on_field struct_field hashed_field unlike_field
check_up_const_sound cfg u cfg' h =
    let start : Tally = record { cfg = cfg; errs = 0 } in
    let a = error_if (is_none u.field) u.pos "constraint field not found" start in
    let s = on_field cfg struct_field u.field in
    let b = error_if s u.pos "constraint field may not be a struct" a in
    let w = on_field cfg (hashed_field u) u.field in
    let c = error_if w u.pos "constraint field may not be a password in hashing mode" b in
    let d : Tally = record c { cfg = warn_never_null u c.cfg } in
    let l =
      finish-error_if (on_field cfg (unlike_field u) u.field) u.pos
        "LIKE operator on non-textual field." d cfg' h in
    let c0 = finish-zero c (finish-eq-ok d cfg' l.1).0 in
    let k =
      finish-error_if w u.pos "constraint field may not be a password in hashing mode" b c.cfg c0 in
    let j = finish-error_if s u.pos "constraint field may not be a struct" a c.cfg k.1 in
    let i = finish-error_if (is_none u.field) u.pos "constraint field not found" start c.cfg j.1 in
    let f = is_none-eq-false u.field i.0 in (f.0, f.1, rw f.1 at j.0, rw f.1 at k.0, rw f.1 at l.0)

check_up_const_complete :
    (cfg : Config) (u : Uref) (f : ℕ)
    → u.field ≡ some f
    → is_struct (cfg.field f).type ≡ false
    → hashed u.op (cfg.field f).type ≡ false
    → bad_like u.op (cfg.field f).type ≡ false
    → (cfg' : Config) × (check_up_const u cfg ≡ ok cfg')
unfolding check_up_const on_field struct_field hashed_field unlike_field error_if finish
check_up_const_complete cfg u f e s w l = (warn_never_null u cfg, rw (e, s, w, l))

-- resolve_up_const succeeds on a reference that has no field yet exactly if the structure of the
-- update has a field of the name on which the operator may be used: one that is no structure, that
-- is text or an email if the operator is `like`, and that is no password unless it is `streq`,
-- `strneq`, `isnull` or `notnull`. No operator is limited to numbers and bits.
pub resolve_up_const_iff :
    (x : ℕ) (name : Bytes) (cfg : Config)
    → (cfg.uref x).field ≡ none
    → ((cfg' : Config) × (resolve_up_const x name cfg ≡ ok cfg'))
      ↔ Names cfg x name (λ f. Constrains (cfg.uref x).op f.type)
unfolding resolve_up_const find_uref
resolve_up_const_iff x name cfg fresh =
    let u = find_uref x name cfg in
    (
      (λ h.
          let s = check_up_const_sound (set_uref cfg x u) u h.0 h.1 in
          record {
            f = s.0;
            found = or_else-some _ _ s.0 fresh s.1;
            allowed = (Constrains-tests u.op (cfg.field s.0).type).1 (s.2, s.3, s.4);
          }),
      (λ n.
          let t = (Constrains-tests u.op (cfg.field n.f).type).0 n.allowed in
          check_up_const_complete (set_uref cfg x u) u n.f (rw n.found) t.0 t.1 t.2),
    )

check_up_mod_sound :
    (cfg : Config) (u : Uref) (cfg' : Config)
    → check_up_mod u cfg ≡ ok cfg'
    → (f : ℕ) × (u.field ≡ some f)
      × (is_struct (cfg.field f).type ≡ false)
      × (cannot_concat u.mod_type (cfg.field f) ≡ false)
      × (cannot_count u.mod_type (cfg.field f) ≡ false)
unfolding check_up_mod on_field struct_field
check_up_mod_sound cfg u cfg' h =
    let start : Tally = record { cfg = cfg; errs = 0 } in
    let a = error_if (is_none u.field) u.pos "modifier field not found" start in
    let s = on_field cfg struct_field u.field in
    let b = error_if s u.pos "modifier field may not be a struct" a in
    let w = on_field cfg (cannot_concat u.mod_type) u.field in
    let msg : String = "concatenate modification on non-textual and non-binary field" in
    let c = error_if w u.pos msg b in
    let l =
      finish-error_if (on_field cfg (cannot_count u.mod_type) u.field) u.pos
        "increment or decrement modification on non-numeric field" c cfg' h in
    let k = finish-error_if w u.pos msg b cfg' l.1 in
    let j = finish-error_if s u.pos "modifier field may not be a struct" a cfg' k.1 in
    let i = finish-error_if (is_none u.field) u.pos "modifier field not found" start cfg' j.1 in
    let f = is_none-eq-false u.field i.0 in (f.0, f.1, rw f.1 at j.0, rw f.1 at k.0, rw f.1 at l.0)

check_up_mod_complete :
    (cfg : Config) (u : Uref) (f : ℕ)
    → u.field ≡ some f
    → is_struct (cfg.field f).type ≡ false
    → cannot_concat u.mod_type (cfg.field f) ≡ false
    → cannot_count u.mod_type (cfg.field f) ≡ false
    → (cfg' : Config) × (check_up_mod u cfg ≡ ok cfg')
unfolding check_up_mod on_field struct_field error_if finish
check_up_mod_complete cfg u f e s w l = (cfg, rw (e, s, w, l))

-- resolve_up_mod succeeds on a reference that has no field yet exactly if the structure of the
-- update has a field of the name which the modification allows.
pub resolve_up_mod_iff :
    (x : ℕ) (name : Bytes) (cfg : Config)
    → (cfg.uref x).field ≡ none
    → ((cfg' : Config) × (resolve_up_mod x name cfg ≡ ok cfg'))
      ↔ Names cfg x name (λ f. Modifies (cfg.uref x).mod_type f.type)
unfolding resolve_up_mod find_uref
resolve_up_mod_iff x name cfg fresh =
    let u = find_uref x name cfg in
    (
      (λ h.
          let s = check_up_mod_sound (set_uref cfg x u) u h.0 h.1 in
          record {
            f = s.0;
            found = or_else-some _ _ s.0 fresh s.1;
            allowed = (Modifies-tests u (cfg.field s.0)).1 (s.2, s.3, s.4);
          }),
      (λ n.
          let t = (Modifies-tests u (cfg.field n.f)).0 n.allowed in
          check_up_mod_complete (set_uref cfg x u) u n.f (rw n.found) t.0 t.1 t.2),
    )
