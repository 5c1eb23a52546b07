-- ===== src/Linker/Checks/Roles/Laws.antt =====
-- When check_unique_roles accepts a rolemap.
use mathlib.Core.Path.{subst}
use openradtool.Base.{
  ℕ, ◌+◌, ◌≤◌, ◌≡◌, ◌≢◌, ◌↔◌, inl, inr, refl, sym, ap, ◌∙◌, true, false, not, ◌&&◌, Option, none,
  some, List, [], ◌∷◌, ◌==◌, ==_iff, In, Bool-cases, if◌then◌else◌, arith,
}
use openradtool.Model.{Role, top, sub, Rolemap, Config}
use openradtool.Model.Outcome.{Outcome, ok, ◌>>=◌, bind-eq-ok, ok-injective, fault-ne-ok}
use openradtool.Linker.Checks.{Check, error_at, start, passed}
use openradtool.Linker.Checks.Roles.{
  duplicate_role, same_role, compare_roles, compare_all_roles, check_unique_roles,
}

-- A run from `c` that adds an error, if it ends, unless `P` holds; if `P` holds, it ends.
record Adds (P : Type 0) (c : Check) (m : Outcome Check) : Type 0 where
  grows : (c' : Check) → m ≡ ok c' → c.errs ≤ c'.errs
  clean : (c' : Check) → m ≡ ok c' → c'.errs ≡ c.errs → P
  quiet : P → (c' : Check) × (m ≡ ok c') × (c'.errs ≡ c.errs)

Adds-ok : (P : Type 0) (c : Check) → P → Adds P c (ok c)
Adds-ok P c p = record {
  grows = λ c' e. let k = ap (λ t. t.errs) (ok-injective e) in omega (arith, k);
  clean = λ c' e z. p;
  quiet = λ _. (c, refl, refl);
}

-- The second run is behind the first.
Adds-bind :
    (P Q R : Type 0) (c : Check) (m : Outcome Check) (k : Check → Outcome Check)
    → Adds P c m
    → ((c' : Check) → Adds Q c' (k c'))
    → (P → Q → R)
    → (R → P)
    → (R → Q)
    → Adds R c (m >>= k)
Adds-bind P Q R c m k a b both left right = record {
  grows = λ c' e. let s = bind-eq-ok m k e in omega (arith, a.grows s.0 s.1, (b s.0).grows c' s.2);
  clean = λ c' e z.
      let s = bind-eq-ok m k e in
      let x = a.grows s.0 s.1 in
      let y = (b s.0).grows c' s.2 in
      both (a.clean s.0 s.1 (omega (arith, x, y, z)))
        ((b s.0).clean c' s.2 (omega (arith, x, y, z)));
  quiet = λ r.
      let s = a.quiet (left r) in
      let t = (b s.0).quiet (right r) in
      (t.0, subst (λ n. (n >>= k) ≡ ok t.0) (sym s.1) t.1, t.2 ∙ s.2);
}

duplicate_role-errs :
    (o : Option Role) (c c' : Check) → duplicate_role o c ≡ ok c' → c'.errs ≡ c.errs + 1
unfolding duplicate_role error_at
duplicate_role-errs none c c' h = absurd (fault-ne-ok h)
duplicate_role-errs (some (top i n p)) c c' h = ap (λ t. t.errs) (sym (ok-injective h))
duplicate_role-errs (some (sub i n p q)) c c' h = ap (λ t. t.errs) (sym (ok-injective h))

module _ (cfg : Config) where
  -- Two references of the rolemap are to different roles.
  abbrev Differ : ℕ → ℕ → Type 0
  Differ a b = a ≢ b → same_role (cfg.rref a).role (cfg.rref b).role ≡ false

  compare_pair-Adds :
      (a b : ℕ) (c : Check)
      → Adds (Differ a b) c (
          if not (a == b) && same_role (cfg.rref a).role (cfg.rref b).role
          then duplicate_role (cfg.rref b).role c
          else ok c)
  compare_pair-Adds a b c =
      elim (Bool-cases (not (a == b) && same_role (cfg.rref a).role (cfg.rref b).role)) [
        | inr n ↦ rw n (Adds-ok (Differ a b) c (λ ne. ground (arith, ==_iff a b)))
        | inl d ↦ rw d (record {
          grows = λ c' e. let k = duplicate_role-errs (cfg.rref b).role c c' e in omega (arith, k);
          clean = λ c' e z.
              absurd (let k = duplicate_role-errs (cfg.rref b).role c c' e in omega (arith, k, z));
          quiet = λ all. absurd (ground (arith, all, ==_iff a b));
        })
      ]

  -- The inner loop ends without an error exactly if no other reference is to the same role.
  compare_roles-Adds :
      (rs : ℕ) (rest : List ℕ) (c : Check)
      → Adds ((b : ℕ) → In b rest → Differ rs b) c (compare_roles cfg rs rest c)
  unfolding compare_roles
  compare_roles-Adds rs [] c = Adds-ok _ c (λ b m. absurd m)
  compare_roles-Adds rs (x ∷ rest) c =
      Adds-bind (Differ rs x) ((b : ℕ) → In b rest → Differ rs b)
        ((b : ℕ) → In b (x ∷ rest) → Differ rs b) c _ (compare_roles cfg rs rest)
        (compare_pair-Adds rs x c) (compare_roles-Adds rs rest)
        (λ p q b m. elim m [ inl y ↦ rw y p | inr m' ↦ q b m' ]) (λ r. r x (inl refl))
        (λ r b m. r b (inr m))

  compare_all_roles-Adds :
      (rq rest : List ℕ) (c : Check)
      → Adds ((a b : ℕ) → In a rest → In b rq → Differ a b) c (compare_all_roles cfg rq rest c)
  unfolding compare_all_roles
  compare_all_roles-Adds rq [] c = Adds-ok _ c (λ a b m. absurd m)
  compare_all_roles-Adds rq (rs ∷ rest) c =
      Adds-bind ((b : ℕ) → In b rq → Differ rs b) ((a b : ℕ) → In a rest → In b rq → Differ a b)
        ((a b : ℕ) → In a (rs ∷ rest) → In b rq → Differ a b) c _ (compare_all_roles cfg rq rest)
        (compare_roles-Adds rs rq c) (compare_all_roles-Adds rq rest)
        (λ p q a b m n. elim m [ inl y ↦ rw y (p b n) | inr m' ↦ q a b m' n ])
        (λ r b n. r rs b (inl refl) n) (λ r a b m n. r a b (inr m) n)

  -- check_unique_roles runs to its end and accepts a rolemap exactly if any two of its references
  -- are to different roles.
  pub check_unique_roles_iff :
      (rm : Rolemap)
      → ((c : Check) × (check_unique_roles cfg rm ≡ ok c) × (passed c ≡ true)) ↔ (
          (a b : ℕ)
          → In a rm.rq
          → In b rm.rq
          → a ≢ b
          → same_role (cfg.rref a).role (cfg.rref b).role ≡ false)
  unfolding check_unique_roles
  check_unique_roles_iff rm =
      let all = compare_all_roles-Adds rm.rq rm.rq (start cfg) in
      (
        (λ p. all.clean p.0 p.1 ((==_iff p.0.errs 0).0 p.2)),
        (λ h. let q = all.quiet h in (q.0, q.1, (==_iff q.0.errs 0).1 q.2)),
      )
