-- ===== src/Audit/Laws.antt =====
-- When rolemap_has admits a role.
use openradtool.Base.{
  ℕ, ◌≡◌, ◌↔◌, inl, inr, refl, true, Option, none, some, List, [], ◌∷◌, ◌==◌, ==_iff, In,
  Bool-cases, arith,
}
use openradtool.Base.{Bytes}
use openradtool.Model.{Role, top, sub, Pos, Config}
use openradtool.Linker.Checks.Roles.{role_id, is_ancestor}
use openradtool.Audit.{admits, any_admits, rolemap_has}

-- The role with the address is the role itself or one of its parents.
pub data Above (i : ℕ) : Role → Type 0 where
  itself : {r : Role} → role_id r ≡ i → Above i r
  parent : {j : ℕ} {name : Bytes} {pos : Pos} {r : Role} → Above i r → Above i (sub j name pos r)

-- A reference of the map is to the role or to one of its parents.
pub record Admits (cfg : Config) (rq : List ℕ) (r : Role) : Type 0 where
  pub x : ℕ
  pub mem : In x rq
  pub role : Role
  pub refers : (cfg.rref x).role ≡ some role
  pub above : Above (role_id role) r

is_ancestor_sound : (i : ℕ) (r : Role) → is_ancestor i r ≡ true → Above i r
unfolding is_ancestor role_id
is_ancestor_sound i (top j name pos) h = itself ((==_iff j i).0 h)
is_ancestor_sound i (sub j name pos r) h = elim (Bool-cases (j == i)) [
  | inl e ↦ itself ((==_iff j i).0 e)
  | inr e ↦ parent (is_ancestor_sound i r (ground (arith, e, h)))
]

is_ancestor_complete : (i : ℕ) (r : Role) → Above i r → is_ancestor i r ≡ true
unfolding is_ancestor role_id
is_ancestor_complete i (top j name pos) (itself e) = (==_iff j i).1 e
is_ancestor_complete i (sub j name pos r) (itself e) = ground (arith, (==_iff j i).1 e)
is_ancestor_complete i (sub j name pos r) (parent a) = ground (arith, is_ancestor_complete i r a)

admits_sound :
    (o : Option Role) (r : Role)
    → admits o r ≡ true
    → (a : Role) × (o ≡ some a) × Above (role_id a) r
unfolding admits
admits_sound none r h = cc
admits_sound (some a) r h = (a, refl, is_ancestor_sound (role_id a) r h)

Admits-cons :
    (cfg : Config) (y : ℕ) (rq : List ℕ) (r : Role) → Admits cfg rq r → Admits cfg (y ∷ rq) r
Admits-cons cfg y rq r a = record {
  x = a.x;
  mem = inr a.mem;
  role = a.role;
  refers = a.refers;
  above = a.above;
}

any_admits_sound :
    (cfg : Config) (rq : List ℕ) (r : Role) → any_admits cfg rq r ≡ true → Admits cfg rq r
unfolding any_admits
any_admits_sound cfg [] r h = cc
any_admits_sound cfg (y ∷ rq) r h = elim (Bool-cases (admits (cfg.rref y).role r)) [
  | inl e ↦
      let (a, o, up) = admits_sound (cfg.rref y).role r e in
      record { x = y; mem = inl refl; role = a; refers = o; above = up }
  | inr e ↦ Admits-cons cfg y rq r (any_admits_sound cfg rq r (ground (arith, e, h)))
]

any_admits_complete :
    (cfg : Config) (rq : List ℕ) (r : Role) → Admits cfg rq r → any_admits cfg rq r ≡ true
unfolding any_admits admits
any_admits_complete cfg [] r a = absurd a.mem
any_admits_complete cfg (y ∷ rq) r a = elim a.mem [
  | inl e ↦
      let o : (cfg.rref y).role ≡ some a.role = rw e at a.refers in
      let k = is_ancestor_complete (role_id a.role) r a.above in rw (o, k)
  | inr m ↦
      let rest =
        any_admits_complete cfg rq r
          (record { x = a.x; mem = m; role = a.role; refers = a.refers; above = a.above }) in
      ground (arith, rest)
]

-- A map admits a role exactly if one of its references is to the role or to one of its parents.
pub rolemap_has_iff :
    (cfg : Config) (m : ℕ) (r : Role)
    → (rolemap_has cfg (some m) r ≡ true) ↔ Admits cfg (cfg.rolemap m).rq r
unfolding rolemap_has
rolemap_has_iff cfg m r =
    (any_admits_sound cfg (cfg.rolemap m).rq r, any_admits_complete cfg (cfg.rolemap m).rq r)
