-- ===== src/Tests.antt =====
-- A small configuration on which the linker is run: the structures `company` (0) and `user` (1), as
-- the parser leaves them.
pub mod Linking
pub mod Checking
pub mod Parsing
pub mod Auditing
pub mod Comparing
use openradtool.Base.{
  ℕ, zero, suc, ◌≡◌, refl, ◌+◌, ◌==◌, if◌then◌else◌, Bool, true, false, Option, none, some, List,
  [], ◌∷◌, Bytes, codes, ℤ, pos,
}
use openradtool.Model.{
  Ftype, bit, int, text, email, struct, Pos, Ref, Enm, Field, Optype, equal, Modtype, inc, set,
  Rolemapt, insert, Role, top, Rref, Rolemap, Sent, Dstnct, Stype, Search, Uref, Nref, Unique,
  Update, Strct, Resolve, field_foreign, field_struct, struct_up_const, struct_up_mod, struct_sent,
  struct_unique, Config,
}
use openradtool.Model.Outcome.{Outcome, ok, fail, fault, out_of_fuel}

abbrev pub here : Pos
here = record { fname = codes "user.ort"; line = 1; column = 1 }

abbrev pub plain : Bytes → Ftype → ℕ → Field
plain name type parent = record {
  name = name;
  ref = none;
  enm = none;
  bitf = none;
  def_eitem = none;
  pos = here;
  type = type;
  rolemap = none;
  parent = parent;
  rowid = false;
  unique = false;
  null = false;
  noexport = false;
  hasdef = false;
}

abbrev pub fields : ℕ → Field
fields zero = record (plain (codes "id") int 0) { rowid = true }
fields (suc zero) = record (plain (codes "name") text 0) { unique = true }
fields (suc (suc zero)) = record (plain (codes "cid") int 1) {
  ref = some (record { target = none; source = some 2; parent = 2 });
}
fields (suc (suc (suc zero))) = record (plain (codes "company") struct 1) {
  ref = some (record { target = none; source = none; parent = 3 });
}
fields _ = record (plain (codes "email") email 1) { unique = true; rolemap = some 0 }

abbrev pub base : Bytes → List ℕ → Strct
base name fq = record {
  name = name;
  height = 0;
  pos = here;
  colour = 0;
  fq = fq;
  sq = [];
  aq = [];
  uq = [];
  dq = [];
  nq = [];
  rq = [];
  ins = none;
  arolemap = none;
  has_queue = false;
  has_iterator = false;
  has_nullrefs = false;
}

abbrev pub strcts : ℕ → Strct
strcts zero = base (codes "company") (0 ∷ 1 ∷ [])
strcts _ = record (base (codes "user") (2 ∷ 3 ∷ 4 ∷ [])) {
  sq = 0 ∷ [];
  uq = 0 ∷ [];
  nq = 0 ∷ 1 ∷ 2 ∷ [];
}

-- Term 0 waits for its name to be resolved; the others have their field.
abbrev pub term : ℕ → Option ℕ → Sent
term search field = record {
  chain = [];
  pos = here;
  parent = search;
  field = field;
  op = equal;
  name = none;
  alias = none;
}

abbrev pub terms : ℕ → Sent
terms zero = term 0 none
terms (suc zero) = term 1 (some 4)
terms (suc (suc zero)) = term 1 (some 2)
terms _ = term 1 (some 4)

abbrev pub query : List ℕ → Option ℕ → Option ℕ → Search
query sntq aggr group = record {
  sntq = sntq;
  ordq = [];
  aggr = aggr;
  group = group;
  pos = here;
  dst = none;
  name = some (codes "byname");
  parent = 1;
  type = Stype.search;
  limit = pos 1;
  rolemap = none;
  is_unique = false;
}

abbrev pub searches : ℕ → Search
searches zero = query (0 ∷ []) none none
searches _ = query (1 ∷ []) (some 3) (some 2)

abbrev pub roles : ℕ → Rref
roles (suc zero) = record { role = some (top 1 (codes "admin") here); pos = here }
roles _ = record { role = some (top 0 (codes "guest") here); pos = here }

abbrev pub maps : ℕ → Rolemap
maps zero = record { type = insert; rq = 0 ∷ []; parent = 1; f = none; s = none; u = none }
maps _ = record { type = insert; rq = 2 ∷ 1 ∷ []; parent = 1; f = none; s = none; u = none }

-- The clauses 1 and 2 have the same fields, the clause 0 another.
abbrev pub clauses : ℕ → Unique
clauses zero = record { nq = 0 ∷ []; parent = 1; pos = here }
clauses (suc zero) = record { nq = 1 ∷ []; parent = 1; pos = here }
clauses _ = record { nq = 2 ∷ []; parent = 1; pos = here }

abbrev pub members : ℕ → Nref
members zero = record { field = some 2; pos = here; parent = 0 }
members _ = record { field = some 4; pos = here; parent = 1 }

abbrev pub parsed : Config
parsed = record {
  sq = 0 ∷ 1 ∷ [];
  eq = [];
  bq = [];
  rq = [];
  arq = [];
  mq = [];
  langs = [];
  requests =
      field_foreign 2 (codes "company") (codes "id")
      ∷ field_struct 3 (codes "cid")
      ∷ struct_sent 0 (codes "company" ∷ codes "name" ∷ [])
      ∷ struct_up_const 0 (codes "email")
      ∷ struct_up_mod 1 (codes "cid")
      ∷ [];
  strct = strcts;
  field = fields;
  enm = λ _. record { name = []; doc = none; pos = here; labels_null = []; eq = [] };
  bitf = λ _. record {
    name = [];
    doc = none;
    labels_unset = [];
    labels_null = [];
    pos = here;
    bq = [];
  };
  search = searches;
  sent = terms;
  dstnct = λ _. record { chain = []; pos = here; strct = none; parent = 0 };
  update = λ _. record { name = none; pos = here; parent = 1; rolemap = none };
  uref = λ _. record { op = equal; mod_type = inc; field = none; pos = here; parent = 0 };
  unique = clauses;
  nref = members;
  rolemap = maps;
  rref = roles;
  next_rref = 3;
  next_enm = 0;
  next_bitf = 0;
}

-- What linker_resolve and the parser would have left, where the references are linked.
abbrev pub linked_fields : ℕ → Field
linked_fields zero = fields 0
linked_fields (suc zero) = fields 1
linked_fields (suc (suc zero)) = record (fields 2) {
  ref = some (record { target = some 0; source = some 2; parent = 2 });
}
linked_fields (suc (suc (suc zero))) = record (fields 3) {
  ref = some (record { target = some 0; source = some 2; parent = 3 });
}
linked_fields _ = fields 4

abbrev pub whole : Config
whole = record parsed { field = linked_fields }

-- The state that a run leaves, `d` where it leaves none.
abbrev pub after {ℓ} : {S : Type ℓ} → S → Outcome S → S
after d (ok s) = s
after d (fail s) = s
after d fault = d
after d out_of_fuel = d

abbrev pub is_ok {ℓ} : {S : Type ℓ} → Outcome S → Bool
is_ok (ok s) = true
is_ok (fail s) = false
is_ok fault = false
is_ok out_of_fuel = false

pub after-is_ok {ℓ} : {S : Type ℓ} (d : S) (m : Outcome S) → is_ok m ≡ true → m ≡ ok (after d m)
after-is_ok d (ok s) h = refl
after-is_ok d (fail s) h = cc
after-is_ok d fault h = cc
after-is_ok d out_of_fuel h = cc
