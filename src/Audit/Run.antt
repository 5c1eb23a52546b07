-- ===== src/Audit/Run.antt =====
-- audit.c: follow and ort_audit, what a role may do and which structures it reaches by that.
pub mod Laws
pub mod Ends
pub mod Reach
use openradtool.Base.{
  ℕ, zero, suc, Bool, true, false, not, ◌&&◌, ◌||◌, Option, none, some, List, [], ◌∷◌, ◌++◌, ◌==◌,
  if◌then◌else◌, Bytes, map,
}
use openradtool.Model.{Role, Rolemapt, noexport, Strct, Config}
use openradtool.Model.Outcome.{Outcome, ok, fault, out_of_fuel, ◌>>=◌}
use openradtool.Linker.Graph.{graph, is_struct, target_parent}
use openradtool.Audit.{rolemap_has}

pub record Auditfield : Type 0 where
  pub fd : ℕ
  pub exported : Bool

pub record Auditpaths : Type 0 where
  pub sr : ℕ
  pub path : Option Bytes
  pub exported : Bool

pub record Auditreach : Type 0 where
  pub st : ℕ
  pub srs : List Auditpaths
  pub fds : List Auditfield
  pub exported : Bool

-- The address of the structure, update or search stands with the kind of the entry.
pub data Audit : Type 0 where
  audit_insert : ℕ → Audit
  audit_update : ℕ → Audit
  audit_query : ℕ → Audit
  audit_reachable : Auditreach → Audit

unfoldable pub has_reach : ℕ → List Audit → Bool
has_reach st [] = false
has_reach st (audit_reachable a ∷ aq) = a.st == st || has_reach st aq
has_reach st (_ ∷ aq) = has_reach st aq

unfoldable pub new_reach : Config → Role → ℕ → Bool → Auditreach
unfolding rolemap_has
new_reach cfg r st exported = record {
  st = st;
  srs = [];
  fds =
      map
        (λ f. record {
          fd = f;
          exported = not (cfg.field f).noexport && not (rolemap_has cfg (cfg.field f).rolemap r);
        })
        (cfg.strct st).fq;
  exported = exported;
}

unfoldable pub push_path : Auditpaths → Auditreach → Auditreach
push_path p a = record a { srs = a.srs ++ p ∷ []; exported = a.exported || p.exported }

-- The first entry of the structure is changed.
unfoldable pub with_reach : ℕ → Auditpaths → List Audit → List Audit
unfolding push_path
with_reach st p [] = []
with_reach st p (audit_reachable a ∷ aq) =
    let rest = with_reach st p aq in
    if a.st == st then audit_reachable (push_path p a) ∷ aq else audit_reachable a ∷ rest
with_reach st p (audit_insert x ∷ aq) = audit_insert x ∷ with_reach st p aq
with_reach st p (audit_update x ∷ aq) = audit_update x ∷ with_reach st p aq
with_reach st p (audit_query x ∷ aq) = audit_query x ∷ with_reach st p aq

-- A structure is reached by a path.
unfoldable pub visit : Config → Role → ℕ → Auditpaths → List Audit → List Audit
unfolding has_reach new_reach with_reach
visit cfg r st p aq =
    with_reach st p
      (if has_reach st aq then aq else aq ++ audit_reachable (new_reach cfg r st p.exported) ∷ [])

-- `"%s%s%s"` of the path, a period and the name.
unfoldable pub path_to : Option Bytes → Bytes → Bytes
path_to none name = name
path_to (some path) name = path ++ b'.' ∷ name

abbrev pub into : Option ℕ → (ℕ → Outcome (List Audit)) → Outcome (List Audit)
into none f = fault
into (some q) f = f q

-- The fields of a structure, where `rec` follows a structure that is reached from it: its address,
-- whether it is exported, and the path to it.
unfoldable pub follow_fields :
    Config
    → Role
    → Bool
    → Option Bytes
    → (ℕ → Bool → Option Bytes → List Audit → Outcome (List Audit))
    → List ℕ
    → List Audit
    → Outcome (List Audit)
unfolding rolemap_has path_to target_parent is_struct
follow_fields cfg r exported path rec [] aq = ok aq
follow_fields cfg r exported path rec (f ∷ fs) aq =
    let fd = cfg.field f in
    let nexp = exported && not fd.noexport && not (rolemap_has cfg fd.rolemap r) in
    if not (is_struct fd.type)
    then follow_fields cfg r exported path rec fs aq
    else into (target_parent (graph cfg) f) (λ q. rec q nexp (some (path_to path fd.name)) aq)
      >>= follow_fields cfg r exported path rec fs

unfoldable pub follow :
    ℕ → Config → Role → ℕ → ℕ → Bool → Option Bytes → List Audit → Outcome (List Audit)
unfolding visit follow_fields
follow zero cfg r sr st exported path aq = out_of_fuel
follow (suc n) cfg r sr st exported path aq =
    follow_fields cfg r exported path (follow n cfg r sr) (cfg.strct st).fq
      (visit cfg r st (record { sr = sr; path = path; exported = exported }) aq)

abbrev is_noexport : Rolemapt → Bool
is_noexport noexport = true
is_noexport _ = false

abbrev is_none : Option ℕ → Bool
is_none none = true
is_none (some _) = false

-- A map of the structure as a whole forbids the export to the role.
unfoldable pub withheld : Config → Role → List ℕ → Bool
unfolding rolemap_has
withheld cfg r [] = false
withheld cfg r (m ∷ ms) =
    is_noexport (cfg.rolemap m).type && is_none (cfg.rolemap m).f && rolemap_has cfg (some m) r
    || withheld cfg r ms

unfoldable pub add_insert : Config → Role → ℕ → List Audit → List Audit
unfolding rolemap_has
add_insert cfg r st aq = elim (cfg.strct st).ins [
  | none ↦ aq
  | some i ↦ if rolemap_has cfg i.rolemap r then aq ++ audit_insert st ∷ [] else aq
]

unfoldable pub add_updates : Config → Role → List ℕ → List Audit → List Audit
unfolding rolemap_has
add_updates cfg r [] aq = aq
add_updates cfg r (u ∷ us) aq =
    add_updates cfg r us
      (if rolemap_has cfg (cfg.update u).rolemap r then aq ++ audit_update u ∷ [] else aq)

-- The structure that a search gives: that of its `distinct`, or its own.
unfoldable pub result_strct : Config → ℕ → ℕ → Option ℕ
result_strct cfg st sr = elim (cfg.search sr).dst [ none ↦ some st | some d ↦ (cfg.dstnct d).strct ]

unfoldable pub add_searches :
    ℕ → Config → Role → ℕ → Bool → List ℕ → List Audit → Outcome (List Audit)
unfolding rolemap_has follow result_strct
add_searches n cfg r st exported [] aq = ok aq
add_searches n cfg r st exported (s ∷ ss) aq =
    if not (rolemap_has cfg (cfg.search s).rolemap r)
    then add_searches n cfg r st exported ss aq
    else into (result_strct cfg st s)
        (λ q. follow n cfg r s q exported none (aq ++ audit_query s ∷ []))
      >>= add_searches n cfg r st exported ss

unfoldable pub audit_strct : ℕ → Config → Role → ℕ → List Audit → Outcome (List Audit)
unfolding withheld add_insert add_updates add_searches
audit_strct n cfg r st aq =
    let s = cfg.strct st in
    add_searches n cfg r st (not (withheld cfg r s.rq)) s.sq
      (add_updates cfg r s.dq (add_updates cfg r s.uq (add_insert cfg r st aq)))

unfoldable pub audit_strcts : ℕ → Config → Role → List ℕ → List Audit → Outcome (List Audit)
unfolding audit_strct
audit_strcts n cfg r [] aq = ok aq
audit_strcts n cfg r (p ∷ ps) aq = audit_strct n cfg r p aq >>= audit_strcts n cfg r ps

unfoldable pub ort_audit : ℕ → Role → Config → Outcome (List Audit)
unfolding audit_strcts
ort_audit n r cfg = audit_strcts n cfg r cfg.sq []
