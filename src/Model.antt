-- ===== src/Model.antt =====
-- ort.h and extern.h: the objects of a configuration. An object's address is a number, a pointer
-- that may be NULL is an option, and `Config` holds a store for each kind of object, so objects
-- that two pointers share are shared here too.
pub mod Store
pub mod Outcome
use openradtool.Base.{ℕ, Bool, Option, List, Bytes, ℤ}
use Prim.Native.String.{String}

pub data Ftype : Type 0 where
  bit date epoch int real blob text password email struct enum bitfield : Ftype

pub record Pos : Type 0 where
  pub fname : Bytes
  pub line : ℕ
  pub column : ℕ

-- Addresses of fields.
pub record Ref : Type 0 where
  pub target : Option ℕ
  pub source : Option ℕ
  pub parent : ℕ

pub record Label : Type 0 where
  pub label : Bytes
  pub lang : ℕ
  pub pos : Pos

pub record Eitem : Type 0 where
  pub name : Bytes
  pub value : ℤ
  pub doc : Option Bytes
  pub labels : List Label
  pub pos : Pos
  pub auto : Bool

pub record Enm : Type 0 where
  pub name : Bytes
  pub doc : Option Bytes
  pub pos : Pos
  pub labels_null : List Label
  pub eq : List Eitem

pub record Bitidx : Type 0 where
  pub name : Bytes
  pub doc : Option Bytes
  pub labels : List Label
  pub value : ℤ
  pub pos : Pos

pub record Bitf : Type 0 where
  pub name : Bytes
  pub doc : Option Bytes
  pub labels_unset : List Label
  pub labels_null : List Label
  pub pos : Pos
  pub bq : List Bitidx

pub record Field : Type 0 where
  pub name : Bytes
  pub ref : Option Ref
  pub enm : Option ℕ
  pub bitf : Option ℕ
  pub def_eitem : Option Eitem
  pub pos : Pos
  pub type : Ftype
  pub rolemap : Option ℕ
  pub parent : ℕ
  pub rowid : Bool
  pub unique : Bool
  pub null : Bool
  pub noexport : Bool
  pub hasdef : Bool

pub record Alias : Type 0 where
  pub name : Bytes
  pub alias : Option Bytes

pub data Optype : Type 0 where
  equal ge gt le lt nequal like and or streq strneq isnull notnull : Optype

pub data Modtype : Type 0 where
  concat dec inc set strset : Modtype

pub data Rolemapt : Type 0 where
  all count delete insert iterate list search update noexport : Rolemapt

-- A role: its address, name and position, and the chain of its parents.
pub data Role : Type 0 where
  top : ℕ → Bytes → Pos → Role
  sub : ℕ → Bytes → Pos → Role → Role

pub record Rref : Type 0 where
  pub role : Option Role
  pub pos : Pos

-- `f`, `s` and `u` of the source's union: the field, search or update that the map applies to.
pub record Rolemap : Type 0 where
  pub type : Rolemapt
  pub rq : List ℕ
  pub parent : ℕ
  pub f : Option ℕ
  pub s : Option ℕ
  pub u : Option ℕ

-- `struct sent`, `ord`, `aggr` and `group`: a reference from a search to a field by a chain.
pub record Sent : Type 0 where
  pub chain : List ℕ
  pub pos : Pos
  pub parent : ℕ
  pub field : Option ℕ
  pub op : Optype
  pub name : Option Bytes
  pub alias : Option Alias

pub record Dstnct : Type 0 where
  pub chain : List ℕ
  pub pos : Pos
  pub strct : Option ℕ
  pub parent : ℕ

pub data Stype : Type 0 where
  count search list iterate : Stype

pub record Search : Type 0 where
  pub sntq : List ℕ
  pub ordq : List ℕ
  pub aggr : Option ℕ
  pub group : Option ℕ
  pub pos : Pos
  pub dst : Option ℕ
  pub name : Option Bytes
  pub parent : ℕ
  pub type : Stype
  pub limit : ℤ
  pub rolemap : Option ℕ
  pub is_unique : Bool

pub record Uref : Type 0 where
  pub op : Optype
  pub mod_type : Modtype
  pub field : Option ℕ
  pub pos : Pos
  pub parent : ℕ

pub record Nref : Type 0 where
  pub field : Option ℕ
  pub pos : Pos
  pub parent : ℕ

pub record Unique : Type 0 where
  pub nq : List ℕ
  pub parent : ℕ
  pub pos : Pos

pub record Update : Type 0 where
  pub name : Option Bytes
  pub pos : Pos
  pub parent : ℕ
  pub rolemap : Option ℕ

pub record Insert : Type 0 where
  pub rolemap : Option ℕ
  pub pos : Pos

pub record Strct : Type 0 where
  pub name : Bytes
  pub height : ℕ
  pub pos : Pos
  pub colour : ℕ
  pub fq : List ℕ
  pub sq : List ℕ
  pub aq : List Alias
  pub uq : List ℕ
  pub dq : List ℕ
  pub nq : List ℕ
  pub rq : List ℕ
  pub ins : Option Insert
  pub arolemap : Option ℕ
  pub has_queue : Bool
  pub has_iterator : Bool
  pub has_nullrefs : Bool

pub data Msgtype : Type 0 where
  warn error fatal : Msgtype

-- A message keeps its format string; its formatted arguments are left out.
pub record Msg : Type 0 where
  pub pos : Option Pos
  pub type : Msgtype
  pub buf : String

-- `struct resolve`: a name to be resolved, and the address of the object that receives the result.
pub data Resolve : Type 0 where
  field_foreign : ℕ → Bytes → Bytes → Resolve
  field_struct : ℕ → Bytes → Resolve
  field_bits : ℕ → Bytes → Resolve
  field_enum : ℕ → Bytes → Resolve
  field_def_eitem : ℕ → Bytes → Resolve
  struct_up_const : ℕ → Bytes → Resolve
  struct_up_mod : ℕ → Bytes → Resolve
  struct_aggr : ℕ → List Bytes → Resolve
  struct_distinct : ℕ → List Bytes → Resolve
  struct_grouprow : ℕ → List Bytes → Resolve
  struct_order : ℕ → List Bytes → Resolve
  struct_role : ℕ → Bytes → Resolve
  struct_rolemap : ℕ → Option Bytes → Rolemapt → Resolve
  struct_sent : ℕ → List Bytes → Resolve
  struct_unique : ℕ → Bytes → Resolve

-- The lists hold the configuration's queues in order; the functions are the stores.
pub record Config : Type 0 where
  pub sq : List ℕ
  pub eq : List ℕ
  pub bq : List ℕ
  pub rq : List Role
  pub arq : List Role
  pub mq : List Msg
  pub langs : List Bytes
  pub requests : List Resolve
  pub strct : ℕ → Strct
  pub field : ℕ → Field
  pub enm : ℕ → Enm
  pub bitf : ℕ → Bitf
  pub search : ℕ → Search
  pub sent : ℕ → Sent
  pub dstnct : ℕ → Dstnct
  pub update : ℕ → Update
  pub uref : ℕ → Uref
  pub unique : ℕ → Unique
  pub nref : ℕ → Nref
  pub rolemap : ℕ → Rolemap
  pub rref : ℕ → Rref
  -- The next addresses that `calloc` gives out.
  pub next_rref : ℕ
  pub next_enm : ℕ
  pub next_bitf : ℕ
