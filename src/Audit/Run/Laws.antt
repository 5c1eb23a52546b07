-- ===== src/Audit/Run/Laws.antt =====
-- The operations in the audit of a role.
use openradtool.Base.{
  ℕ, zero, suc, inl, inr, ◌≡◌, refl, sym, ap, ◌∙◌, Bool, true, false, not, ◌&&◌, Option, none, some,
  List, [], ◌∷◌, ◌++◌, ◌==◌, if◌then◌else◌, Bytes, Bool-cases, if_cases, Option-cases,
}
use mathlib.Core.Path.{subst}
use mathlib.Core.List.{append_assoc, append-nil}
use openradtool.Model.{Role, Config}
use openradtool.Model.Outcome.{
  Outcome, ok, ◌>>=◌, Returns, returns_ok, returns_fail, returns_fault, returns_none, Returns-ok,
  Returns-if,
}
use openradtool.Linker.Graph.{graph, is_struct, target_parent}
use openradtool.Audit.{rolemap_has}
use openradtool.Audit.Run.{
  Auditpaths, Audit, audit_insert, audit_update, audit_query, audit_reachable, has_reach, new_reach,
  with_reach, visit, path_to, into, follow_fields, follow, withheld, add_insert, add_updates,
  result_strct, add_searches, audit_strct, audit_strcts, ort_audit,
}

-- The entries that are operations.
unfoldable pub operations : List Audit → List Audit
operations [] = []
operations (audit_reachable a ∷ aq) = operations aq
operations (audit_insert x ∷ aq) = audit_insert x ∷ operations aq
operations (audit_update x ∷ aq) = audit_update x ∷ operations aq
operations (audit_query x ∷ aq) = audit_query x ∷ operations aq

operations-append : (xs ys : List Audit) → operations (xs ++ ys) ≡ operations xs ++ operations ys
unfolding operations
operations-append [] ys = refl
operations-append (audit_reachable a ∷ xs) ys = operations-append xs ys
operations-append (audit_insert x ∷ xs) ys = ap (audit_insert x ∷◌) (operations-append xs ys)
operations-append (audit_update x ∷ xs) ys = ap (audit_update x ∷◌) (operations-append xs ys)
operations-append (audit_query x ∷ xs) ys = ap (audit_query x ∷◌) (operations-append xs ys)

operations-with_reach :
    (st : ℕ) (p : Auditpaths) (aq : List Audit) → operations (with_reach st p aq) ≡ operations aq
unfolding operations with_reach
operations-with_reach st p [] = refl
operations-with_reach st p (audit_reachable a ∷ aq) =
    if_cases (λ x. operations x ≡ operations aq) (a.st == st) (λ e. refl)
      (λ e. operations-with_reach st p aq)
operations-with_reach st p (audit_insert x ∷ aq) =
    ap (audit_insert x ∷◌) (operations-with_reach st p aq)
operations-with_reach st p (audit_update x ∷ aq) =
    ap (audit_update x ∷◌) (operations-with_reach st p aq)
operations-with_reach st p (audit_query x ∷ aq) =
    ap (audit_query x ∷◌) (operations-with_reach st p aq)

pub Returns-bind :
    {P Q : List Audit → Type 0} (m : Outcome (List Audit)) (f : List Audit → Outcome (List Audit))
    → Returns P (λ _. Unit) m
    → ((aq : List Audit) → P aq → Returns Q (λ _. Unit) (f aq))
    → Returns Q (λ _. Unit) (m >>= f)
Returns-bind m f (returns_ok s p) h = h s p
Returns-bind m f (returns_fail s p) h = returns_fail s tt
Returns-bind m f returns_fault h = returns_fault
Returns-bind m f returns_none h = returns_none

Returns-map :
    {P Q : List Audit → Type 0} (m : Outcome (List Audit)) (R : List Audit → Type 0)
    → Returns P R m
    → ((aq : List Audit) → P aq → Q aq)
    → Returns Q R m
Returns-map m R (returns_ok s p) h = returns_ok s (h s p)
Returns-map m R (returns_fail s p) h = returns_fail s p
Returns-map m R returns_fault h = returns_fault
Returns-map m R returns_none h = returns_none

pub Returns-into :
    {P : List Audit → Type 0} (o : Option ℕ) (f : ℕ → Outcome (List Audit))
    → ((q : ℕ) → Returns P (λ _. Unit) (f q))
    → Returns P (λ _. Unit) (into o f)
Returns-into none f h = returns_fault
Returns-into (some q) f h = h q

-- Whatever a condition on the entries is worth, a walk that keeps it at every visit keeps it.
module _ (cfg : Config) (r : Role) (P : List Audit → Type 0)
    (keep : (st : ℕ) (p : Auditpaths) (aq : List Audit) → P aq → P (visit cfg r st p aq)) where
  follow_fields-keeps :
      (exported : Bool) (path : Option Bytes)
      (rec : ℕ → Bool → Option Bytes → List Audit → Outcome (List Audit))
      → ((q : ℕ) (e : Bool) (o : Option Bytes) (aq : List Audit)
          → P aq
          → Returns P (λ _. Unit) (rec q e o aq))
      → (fs : List ℕ) (aq : List Audit) → P aq
      → Returns P (λ _. Unit) (follow_fields cfg r exported path rec fs aq)
  unfolding follow_fields
  follow_fields-keeps exported path rec h [] aq p = returns_ok aq p
  follow_fields-keeps exported path rec h (f ∷ fs) aq p =
      let fd = cfg.field f in
      let nexp = exported && not fd.noexport && not (rolemap_has cfg fd.rolemap r) in
      Returns-if (not (is_struct fd.type)) (λ e. follow_fields-keeps exported path rec h fs aq p)
        λ e.
          Returns-bind _ _
            (Returns-into (target_parent (graph cfg) f) _
              (λ q. h q nexp (some (path_to path fd.name)) aq p))
            (λ aq' p'. follow_fields-keeps exported path rec h fs aq' p')

  pub follow-keeps :
      (n sr st : ℕ) (exported : Bool) (path : Option Bytes) (aq : List Audit)
      → P aq
      → Returns P (λ _. Unit) (follow n cfg r sr st exported path aq)
  unfolding follow
  follow-keeps zero sr st exported path aq p = returns_none
  follow-keeps (suc n) sr st exported path aq p =
      follow_fields-keeps exported path (follow n cfg r sr) (follow-keeps n sr) (cfg.strct st).fq
        (visit cfg r st (record { sr = sr; path = path; exported = exported }) aq)
        (keep st (record { sr = sr; path = path; exported = exported }) aq p)

operations-visit :
    (cfg : Config) (r : Role) (st : ℕ) (p : Auditpaths) (aq : List Audit)
    → operations (visit cfg r st p aq) ≡ operations aq
unfolding operations visit
operations-visit cfg r st p aq =
    let new = audit_reachable (new_reach cfg r st p.exported) in
    operations-with_reach st p (if has_reach st aq then aq else aq ++ new ∷ [])
    ∙ if_cases (λ x. operations x ≡ operations aq) (has_reach st aq) (λ e. refl)
        (λ e. operations-append aq (new ∷ []) ∙ append-nil (operations aq))

-- What the role is admitted to in a structure: the insert, the updates, the deletes and the searches
-- whose maps admit it, in this order.
abbrev pub chosen : Bool → Audit → List Audit
chosen true a = a ∷ []
chosen false a = []

unfoldable pub allowed_insert : Config → Role → ℕ → List Audit
allowed_insert cfg r st = elim (cfg.strct st).ins [
  | none ↦ []
  | some i ↦ chosen (rolemap_has cfg i.rolemap r) (audit_insert st)
]

unfoldable pub allowed_updates : Config → Role → List ℕ → List Audit
allowed_updates cfg r [] = []
allowed_updates cfg r (u ∷ us) =
    chosen (rolemap_has cfg (cfg.update u).rolemap r) (audit_update u) ++ allowed_updates cfg r us

unfoldable pub allowed_searches : Config → Role → List ℕ → List Audit
allowed_searches cfg r [] = []
allowed_searches cfg r (s ∷ ss) =
    chosen (rolemap_has cfg (cfg.search s).rolemap r) (audit_query s) ++ allowed_searches cfg r ss

unfoldable pub allowed : Config → Role → List ℕ → List Audit
allowed cfg r [] = []
allowed cfg r (p ∷ ps) =
    allowed_insert cfg r p
    ++ (allowed_updates cfg r (cfg.strct p).uq
        ++ (allowed_updates cfg r (cfg.strct p).dq
            ++ (allowed_searches cfg r (cfg.strct p).sq ++ allowed cfg r ps)))

-- The operations of `aq` and then those of `xs`.
abbrev Lists : List Audit → List Audit → List Audit → Type 0
Lists xs aq aq' = operations aq' ≡ operations aq ++ xs

Lists-trans : (xs ys a b c : List Audit) → Lists xs a b → Lists ys b c → Lists (xs ++ ys) a c
Lists-trans xs ys a b c h k = k ∙ ap (◌++ ys) h ∙ append_assoc (operations a) xs ys

add_insert-Lists :
    (cfg : Config) (r : Role) (st : ℕ) (aq : List Audit)
    → Lists (allowed_insert cfg r st) aq (add_insert cfg r st aq)
unfolding add_insert allowed_insert operations
add_insert-Lists cfg r st aq = elim (Option-cases (cfg.strct st).ins) [
  | inl e ↦ rw (e, add_insert, allowed_insert) (sym (append-nil (operations aq)))
  | inr (i, e) ↦ elim (Bool-cases (rolemap_has cfg i.rolemap r)) [
    | inl h ↦ rw (e, add_insert, allowed_insert, h) (operations-append aq (audit_insert st ∷ []))
    | inr h ↦ rw (e, add_insert, allowed_insert, h) (sym (append-nil (operations aq)))
  ]
]

add_updates-Lists :
    (cfg : Config) (r : Role) (us : List ℕ) (aq : List Audit)
    → Lists (allowed_updates cfg r us) aq (add_updates cfg r us aq)
unfolding add_updates allowed_updates operations
add_updates-Lists cfg r [] aq = sym (append-nil (operations aq))
add_updates-Lists cfg r (u ∷ us) aq =
    let b = rolemap_has cfg (cfg.update u).rolemap r in
    let aq' = if b then aq ++ audit_update u ∷ [] else aq in
    let step : Lists (chosen b (audit_update u)) aq aq' = elim (Bool-cases b) [
      | inl h ↦ rw h (operations-append aq (audit_update u ∷ []))
      | inr h ↦ rw h (sym (append-nil (operations aq)))
    ] in
    Lists-trans (chosen b (audit_update u)) (allowed_updates cfg r us) aq aq'
      (add_updates cfg r us aq') step (add_updates-Lists cfg r us aq')

add_searches-Lists :
    (n : ℕ) (cfg : Config) (r : Role) (st : ℕ) (exported : Bool) (ss : List ℕ)
    (xs aq aq0 : List Audit)
    → Lists xs aq0 aq
    → Returns
        (Lists (xs ++ allowed_searches cfg r ss) aq0)
        (λ _. Unit)
        (add_searches n cfg r st exported ss aq)
unfolding add_searches allowed_searches operations
add_searches-Lists n cfg r st exported [] xs aq aq0 h =
    returns_ok aq (h ∙ ap (operations aq0 ++◌) (sym (append-nil xs)))
add_searches-Lists n cfg r st exported (s ∷ ss) xs aq aq0 h =
    let b = rolemap_has cfg (cfg.search s).rolemap r in
    let rest = allowed_searches cfg r ss in
    elim (Bool-cases b) [
      | inl e ↦
          let q = audit_query s in
          let step =
            Lists-trans xs (q ∷ []) aq0 aq (aq ++ q ∷ []) h (operations-append aq (q ∷ [])) in
          rw (e) (
            Returns-bind _ _
              (Returns-into (result_strct cfg st s) _ (λ p.
                follow-keeps cfg r (Lists (xs ++ q ∷ []) aq0)
                  (λ st' p' a k. operations-visit cfg r st' p' a ∙ k) n s p exported none
                  (aq ++ q ∷ []) step))
              (λ a k.
                subst
                  (λ zs. Returns (Lists zs aq0) (λ _. Unit) (add_searches n cfg r st exported ss a))
                  (append_assoc xs (q ∷ []) rest)
                  (add_searches-Lists n cfg r st exported ss (xs ++ q ∷ []) a aq0 k)))
      | inr e ↦ rw (e) (add_searches-Lists n cfg r st exported ss xs aq aq0 h)
    ]

audit_strct-Lists :
    (n : ℕ) (cfg : Config) (r : Role) (p : ℕ) (aq : List Audit)
    → Returns
        (λ a.
          (rest : List Audit)
          → operations a ++ rest
            ≡ operations aq
              ++ (allowed_insert cfg r p
                  ++ (allowed_updates cfg r (cfg.strct p).uq
                      ++ (allowed_updates cfg r (cfg.strct p).dq
                          ++ (allowed_searches cfg r (cfg.strct p).sq ++ rest)))))
        (λ _. Unit)
        (audit_strct n cfg r p aq)
unfolding audit_strct
audit_strct-Lists n cfg r p aq =
    let s = cfg.strct p in
    let a1 = add_insert cfg r p aq in
    let a2 = add_updates cfg r s.uq a1 in
    let a3 = add_updates cfg r s.dq a2 in
    let i = allowed_insert cfg r p in
    let u = allowed_updates cfg r s.uq in
    let d = allowed_updates cfg r s.dq in
    let q = allowed_searches cfg r s.sq in
    let h2 =
      Lists-trans i u aq a1 a2 (add_insert-Lists cfg r p aq) (add_updates-Lists cfg r s.uq a1) in
    let h3 = Lists-trans (i ++ u) d aq a2 a3 h2 (add_updates-Lists cfg r s.dq a2) in
    Returns-map _ _
      (add_searches-Lists n cfg r p (not (withheld cfg r s.rq)) s.sq ((i ++ u) ++ d) a3 aq h3)
      (λ a e rest.
        ap (◌++ rest) e
        ∙ append_assoc (operations aq) (((i ++ u) ++ d) ++ q) rest
        ∙ ap (operations aq ++◌) (
            append_assoc ((i ++ u) ++ d) q rest
            ∙ append_assoc (i ++ u) d (q ++ rest)
            ∙ append_assoc i u (d ++ (q ++ rest))))

audit_strcts-Lists :
    (n : ℕ) (cfg : Config) (r : Role) (ps : List ℕ) (aq : List Audit)
    → Returns (Lists (allowed cfg r ps) aq) (λ _. Unit) (audit_strcts n cfg r ps aq)
unfolding audit_strcts allowed
audit_strcts-Lists n cfg r [] aq = returns_ok aq (sym (append-nil (operations aq)))
audit_strcts-Lists n cfg r (p ∷ ps) aq =
    Returns-bind _ _ (audit_strct-Lists n cfg r p aq)
      (λ a h. Returns-map _ _ (audit_strcts-Lists n cfg r ps a) (λ b e. e ∙ h (allowed cfg r ps)))

-- The operations in the audit of a role are, structure by structure, the insert, the updates, the
-- deletes and the searches whose maps admit the role, in the order of the configuration.
pub ort_audit-allowed :
    (n : ℕ) (r : Role) (cfg : Config) (aq : List Audit)
    → ort_audit n r cfg ≡ ok aq
    → operations aq ≡ allowed cfg r cfg.sq
unfolding ort_audit operations
ort_audit-allowed n r cfg aq h =
    Returns-ok (audit_strcts n cfg r cfg.sq []) (audit_strcts-Lists n cfg r cfg.sq []) h
