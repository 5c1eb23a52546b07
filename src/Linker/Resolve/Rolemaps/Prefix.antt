-- ===== src/Linker/Resolve/Rolemaps/Prefix.antt =====
-- Which roles resolve_struct_rolemap_field adds to the map of a field.
use mathlib.Core.Path.{ap₂}
use mathlib.Core.List.{append_assoc, append-nil, map-append}
use openradtool.Base.{
  ℕ, ◌≡◌, ◌⊎◌, inl, inr, refl, sym, ap, ◌∙◌, true, Option, some, List, [], ◌∷◌, ◌++◌, map, ==_iff,
  In, Bool-cases, arith,
}
use openradtool.Model.{Role, Rref, Config}
use openradtool.Linker.Checks.Roles.{same_role}
use openradtool.Linker.Resolve.Rolemaps.{
  has_role, append_rref, add_until_found, resolve_struct_rolemap_field,
}
use openradtool.Linker.Resolve.Rolemaps.Laws.{
  Exist, Exist-grow, append_rref-Grows, append_rref-queue, append_rref-Exist,
}

abbrev pub roles_of : Config → List ℕ → List (Option Role)
roles_of cfg = map λ r. (cfg.rref r).role

-- The role is one of the roles.
abbrev pub HeldIn : Option Role → List (Option Role) → Type 0
HeldIn role held = (y : Option Role) × In y held × (same_role y role ≡ true)

-- No role is one of `held` or of those before it.
abbrev pub Fresh : List (Option Role) → List (Option Role) → Type 0
Fresh held [] = Unit {0}
Fresh held (r ∷ rs) = (¬ HeldIn r held) × Fresh (held ++ r ∷ []) rs

-- `held'` is `held` with the roles of `src` up to the first that is there already.
pub record Prefix (src held held' : List (Option Role)) : Type 0 where
  pub taken : List (Option Role)
  pub left : List (Option Role)
  pub split : src ≡ taken ++ left
  pub gained : held' ≡ held ++ taken
  pub fresh : Fresh held taken
  pub stop :
      (left ≡ [])
      ⊎ ((r : Option Role) × (rs : List (Option Role)) × (left ≡ r ∷ rs) × HeldIn r (held ++ taken))

-- `has_role` in terms of roles.
has_role-HeldIn :
    (cfg : Config) (r : Rref) (rq : List ℕ)
    → has_role cfg r rq ≡ true
    → HeldIn r.role (roles_of cfg rq)
unfolding has_role
has_role-HeldIn cfg r [] h = cc
has_role-HeldIn cfg r (d ∷ ds) h = elim (Bool-cases (same_role (cfg.rref d).role r.role)) [
  | inl e ↦ ((cfg.rref d).role, inl refl, e)
  | inr e ↦ let i = has_role-HeldIn cfg r ds (rw (has_role, e) at h) in (i.0, inr i.1, i.2)
]

HeldIn-has_role :
    (cfg : Config) (r : Rref) (rq : List ℕ)
    → HeldIn r.role (roles_of cfg rq)
    → has_role cfg r rq ≡ true
unfolding has_role
HeldIn-has_role cfg r [] h = absurd h.1
HeldIn-has_role cfg r (d ∷ ds) (y, inl e, k) =
    let here : same_role (cfg.rref d).role r.role ≡ true = rw (← e) k in rw here
HeldIn-has_role cfg r (d ∷ ds) (y, inr m, k) =
    let rest = HeldIn-has_role cfg r ds (y, m, k) in ground (arith, rest)

roles_of-append_rref :
    (dst : ℕ) (r : Rref) (cfg : Config) (rq : List ℕ)
    → Exist cfg rq
    → roles_of (append_rref dst r cfg) rq ≡ roles_of cfg rq
roles_of-append_rref dst r cfg [] x = refl
roles_of-append_rref dst r cfg (d ∷ ds) x =
    ap₂ ◌∷◌ (ap (λ v. v.role) ((append_rref-Grows dst r cfg).kept d x.0))
      (roles_of-append_rref dst r cfg ds x.1)

roles_of-new :
    (dst : ℕ) (r : Rref) (cfg : Config)
    → roles_of (append_rref dst r cfg) (cfg.next_rref ∷ []) ≡ r.role ∷ []
unfolding append_rref
roles_of-new dst r cfg = rw ((==_iff cfg.next_rref cfg.next_rref).1 refl)

roles_of-appended :
    (dst : ℕ) (r : Rref) (cfg : Config)
    → Exist cfg (cfg.rolemap dst).rq
    → roles_of (append_rref dst r cfg) ((append_rref dst r cfg).rolemap dst).rq
      ≡ roles_of cfg (cfg.rolemap dst).rq ++ r.role ∷ []
roles_of-appended dst r cfg x =
    ap (roles_of (append_rref dst r cfg)) (append_rref-queue dst r cfg)
    ∙ map-append (λ v. ((append_rref dst r cfg).rref v).role) (cfg.rolemap dst).rq
        (cfg.next_rref ∷ [])
    ∙ ap₂ ◌++◌ (roles_of-append_rref dst r cfg (cfg.rolemap dst).rq x) (roles_of-new dst r cfg)

Prefix-cons :
    (r : Option Role) (src held held' : List (Option Role))
    → ¬ HeldIn r held
    → Prefix src (held ++ r ∷ []) held'
    → Prefix (r ∷ src) held held'
Prefix-cons r src held held' new p = record {
  taken = r ∷ p.taken;
  left = p.left;
  split = ap (λ l. r ∷ l) p.split;
  gained = p.gained ∙ append_assoc held (r ∷ []) p.taken;
  fresh = (new, p.fresh);
  stop = rw (append_assoc held (r ∷ []) p.taken) at p.stop;
}

add_until_found-Prefix :
    (dst : ℕ) (rq : List ℕ) (cfg : Config)
    → Exist cfg rq
    → Exist cfg (cfg.rolemap dst).rq
    → let cfg' = add_until_found dst rq cfg in
      Prefix
        (roles_of cfg rq)
        (roles_of cfg (cfg.rolemap dst).rq)
        (roles_of cfg' (cfg'.rolemap dst).rq)
unfolding add_until_found
add_until_found-Prefix dst [] cfg x y = record {
  taken = [];
  left = [];
  split = refl;
  gained = sym (append-nil (roles_of cfg (cfg.rolemap dst).rq));
  fresh = tt;
  stop = inl refl;
}
add_until_found-Prefix dst (r ∷ rs) cfg x y =
    let c = append_rref dst (cfg.rref r) cfg in
    let held = roles_of cfg (cfg.rolemap dst).rq in
    elim (Bool-cases (has_role cfg (cfg.rref r) (cfg.rolemap dst).rq)) [
      | inl e ↦ rw e (record {
        taken = [];
        left = roles_of cfg (r ∷ rs);
        split = refl;
        gained = sym (append-nil held);
        fresh = tt;
        stop = inr (
          (cfg.rref r).role,
          roles_of cfg rs,
          refl,
          rw (append-nil held) (has_role-HeldIn cfg (cfg.rref r) (cfg.rolemap dst).rq e),
        );
      })
      | inr e ↦
          let ih =
            add_until_found-Prefix dst rs c
              (Exist-grow cfg c rs (append_rref-Grows dst (cfg.rref r) cfg).next x.1)
              (append_rref-Exist dst (cfg.rref r) cfg y) in
          rw e (
            Prefix-cons (cfg.rref r).role (roles_of cfg rs) held _
              (λ h. cc (HeldIn-has_role cfg (cfg.rref r) (cfg.rolemap dst).rq h))
              (rw
                (
                  roles_of-append_rref dst (cfg.rref r) cfg rs x.1,
                  roles_of-appended dst (cfg.rref r) cfg y,
                )
                at ih))
    ]

-- If the references of two maps exist and the second is that of a field, the roles of the second
-- become, behind those that it has, the roles of the first in order up to the first role that it has
-- by then, and no others: the loop of resolve_struct_rolemap_field returns there.
pub resolve_struct_rolemap_field-Prefix :
    (cfg : Config) (m f dst : ℕ)
    → (cfg.field f).rolemap ≡ some dst
    → Exist cfg (cfg.rolemap m).rq
    → Exist cfg (cfg.rolemap dst).rq
    → Prefix (roles_of cfg (cfg.rolemap m).rq) (roles_of cfg (cfg.rolemap dst).rq) (
        roles_of
          (resolve_struct_rolemap_field m f cfg)
          ((resolve_struct_rolemap_field m f cfg).rolemap dst).rq)
unfolding resolve_struct_rolemap_field
resolve_struct_rolemap_field-Prefix cfg m f dst e x y =
    rw (e, resolve_struct_rolemap_field) (add_until_found-Prefix dst (cfg.rolemap m).rq cfg x y)
