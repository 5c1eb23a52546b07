-- ===== src/Linker/Resolve/Rolemaps/Laws.antt =====
-- Adding references to a rolemap: what append_rref keeps.
use openradtool.Base.{
  ℕ, ◌≤◌, ◌<◌, ◌≡◌, inl, inr, refl, ◌∙◌, true, Option, none, some, List, [], ◌∷◌, ◌++◌, ==_iff, In,
  In-append_left, In-append_right, All, All-append, Bool-cases, arith,
}
use openradtool.Model.{Role, Rref, Config}
use openradtool.Linker.Checks.Roles.{role_id, same_role}
use openradtool.Linker.Resolve.Rolemaps.{has_role, append_rref}

-- Every reference of a queue exists.
abbrev pub Exist : Config → List ℕ → Type 0
Exist cfg = All λ r. r < cfg.next_rref

-- A reference of the queue, which exists, is to the role.
pub record Holds (cfg : Config) (role : Option Role) (rq : List ℕ) : Type 0 where
  pub d : ℕ
  pub mem : In d rq
  pub exists : d < cfg.next_rref
  pub same : same_role (cfg.rref d).role role ≡ true

Holds-cons :
    (cfg : Config) (role : Option Role) (x : ℕ) (rq : List ℕ)
    → Holds cfg role rq
    → Holds cfg role (x ∷ rq)
Holds-cons cfg role x rq h = record { d = h.d; mem = inr h.mem; exists = h.exists; same = h.same }

pub has_role-Holds :
    (cfg : Config) (r : Rref) (rq : List ℕ)
    → Exist cfg rq
    → has_role cfg r rq ≡ true
    → Holds cfg r.role rq
unfolding has_role
has_role-Holds cfg r [] x h = cc
has_role-Holds cfg r (d ∷ ds) x h = elim (Bool-cases (same_role (cfg.rref d).role r.role)) [
  | inl e ↦ record { d = d; mem = inl refl; exists = x.0; same = e }
  | inr e ↦ Holds-cons cfg r.role d ds (has_role-Holds cfg r ds x.1 (rw (has_role, e) at h))
]

-- The references that exist keep their contents, and the queue of the map `dst` is only extended.
pub record Grows (dst : ℕ) (cfg cfg' : Config) : Type 0 where
  pub next : cfg.next_rref ≤ cfg'.next_rref
  pub kept : (r : ℕ) → r < cfg.next_rref → cfg'.rref r ≡ cfg.rref r
  pub queue : (r : ℕ) → In r (cfg.rolemap dst).rq → In r (cfg'.rolemap dst).rq

pub Grows-refl : (dst : ℕ) (cfg : Config) → Grows dst cfg cfg
Grows-refl dst cfg = record { next = omega arith; kept = λ r h. refl; queue = λ r h. h }

pub Grows-trans : (dst : ℕ) (a b c : Config) → Grows dst a b → Grows dst b c → Grows dst a c
Grows-trans dst a b c f g = record {
  next = omega (arith, f.next, g.next);
  kept = λ r h. g.kept r (omega (arith, h, f.next)) ∙ f.kept r h;
  queue = λ r m. g.queue r (f.queue r m);
}

pub append_rref-queue :
    (dst : ℕ) (r : Rref) (cfg : Config)
    → ((append_rref dst r cfg).rolemap dst).rq ≡ (cfg.rolemap dst).rq ++ (cfg.next_rref ∷ [])
unfolding append_rref
append_rref-queue dst r cfg = ground (arith, ==_iff dst dst)

pub append_rref-Grows : (dst : ℕ) (r : Rref) (cfg : Config) → Grows dst cfg (append_rref dst r cfg)
unfolding append_rref
append_rref-Grows dst r cfg = record {
  next = omega arith;
  kept = λ x h. ground arith;
  queue = λ x m.
      rw (append_rref-queue dst r cfg)
        (In-append_left x (cfg.rolemap dst).rq (cfg.next_rref ∷ []) m);
}

pub Holds-Grows :
    (dst : ℕ) (cfg cfg' : Config) (role : Option Role)
    → Grows dst cfg cfg'
    → Holds cfg role (cfg.rolemap dst).rq
    → Holds cfg' role (cfg'.rolemap dst).rq
Holds-Grows dst cfg cfg' role g h = record {
  d = h.d;
  mem = g.queue h.d h.mem;
  exists = omega (arith, h.exists, g.next);
  same = rw (g.kept h.d h.exists) h.same;
}

same_role_refl : (o : Option Role) → same_role o o ≡ true
unfolding same_role
same_role_refl none = refl
same_role_refl (some r) = (==_iff (role_id r) (role_id r)).1 refl

pub append_rref-Holds :
    (dst : ℕ) (r : Rref) (cfg : Config)
    → Holds (append_rref dst r cfg) r.role ((append_rref dst r cfg).rolemap dst).rq
unfolding append_rref
append_rref-Holds dst r cfg = record {
  d = cfg.next_rref;
  mem =
      rw (append_rref-queue dst r cfg)
        (In-append_right cfg.next_rref (cfg.rolemap dst).rq (cfg.next_rref ∷ []) (inl refl));
  exists = omega arith;
  same = rw ((==_iff cfg.next_rref cfg.next_rref).1 refl) (same_role_refl r.role);
}

pub Exist-grow :
    (cfg cfg' : Config) (rq : List ℕ)
    → cfg.next_rref ≤ cfg'.next_rref
    → Exist cfg rq
    → Exist cfg' rq
Exist-grow cfg cfg' [] h x = tt
Exist-grow cfg cfg' (r ∷ rq) h x = (omega (arith, x.0), Exist-grow cfg cfg' rq h x.1)

pub append_rref-Exist :
    (dst : ℕ) (r : Rref) (cfg : Config)
    → Exist cfg (cfg.rolemap dst).rq
    → Exist (append_rref dst r cfg) ((append_rref dst r cfg).rolemap dst).rq
unfolding append_rref
append_rref-Exist dst r cfg x = rw (append_rref-queue dst r cfg) (
    All-append _ (cfg.rolemap dst).rq (cfg.next_rref ∷ [])
      (Exist-grow cfg (append_rref dst r cfg) (cfg.rolemap dst).rq (omega arith) x)
      (omega arith, tt))
