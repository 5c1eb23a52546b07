-- ===== src/Model/Store.antt =====
-- Writes to the stores of a configuration, and the messages of linker.c.
use Prim.Native.String.{String}
use openradtool.Base.{ℕ, ◌≡◌, ◌≢◌, refl, true, false, ◌∷◌, Option, some, ◌==◌, if◌then◌else◌, arith}
use openradtool.Model.{
  Pos, Field, Strct, Search, Sent, Dstnct, Uref, Unique, Nref, Rolemap, Rref, Update, Msgtype, warn,
  error, Config,
}

-- One object is overwritten.
abbrev pub write {ℓ} : {A : Type ℓ} → (ℕ → A) → ℕ → A → ℕ → A
write f p v q = if p == q then v else f q

pub write-same : {A : Type 0} (f : ℕ → A) (a : ℕ) (v : A) → write f a v a ≡ v
write-same f a v = let same : (a == a) ≡ true = ground arith in rw same refl

pub write-other : {A : Type 0} (f : ℕ → A) (a : ℕ) (v : A) (b : ℕ) → b ≢ a → write f a v b ≡ f b
write-other f a v b ne = let other : (a == b) ≡ false = ground (arith, ne) in rw other refl

-- `ort_log` with a position: messages go to the head of the queue.
unfoldable pub log_msg : Config → Msgtype → Option Pos → String → Config
log_msg cfg t pos s = record cfg { mq = record { pos = pos; type = t; buf = s } ∷ cfg.mq }

unfoldable pub gen_errx : Config → Pos → String → Config
unfolding log_msg
gen_errx cfg pos s = log_msg cfg error (some pos) s

unfoldable pub gen_warnx : Config → Pos → String → Config
unfolding log_msg
gen_warnx cfg pos s = log_msg cfg warn (some pos) s

abbrev pub set_strct : Config → ℕ → Strct → Config
set_strct cfg p v = record cfg { strct = write cfg.strct p v }

abbrev pub set_field : Config → ℕ → Field → Config
set_field cfg p v = record cfg { field = write cfg.field p v }

abbrev pub set_search : Config → ℕ → Search → Config
set_search cfg p v = record cfg { search = write cfg.search p v }

abbrev pub set_sent : Config → ℕ → Sent → Config
set_sent cfg p v = record cfg { sent = write cfg.sent p v }

abbrev pub set_dstnct : Config → ℕ → Dstnct → Config
set_dstnct cfg p v = record cfg { dstnct = write cfg.dstnct p v }

abbrev pub set_uref : Config → ℕ → Uref → Config
set_uref cfg p v = record cfg { uref = write cfg.uref p v }

abbrev pub set_update : Config → ℕ → Update → Config
set_update cfg p v = record cfg { update = write cfg.update p v }

abbrev pub set_unique : Config → ℕ → Unique → Config
set_unique cfg p v = record cfg { unique = write cfg.unique p v }

abbrev pub set_nref : Config → ℕ → Nref → Config
set_nref cfg p v = record cfg { nref = write cfg.nref p v }

abbrev pub set_rolemap : Config → ℕ → Rolemap → Config
set_rolemap cfg p v = record cfg { rolemap = write cfg.rolemap p v }

abbrev pub set_rref : Config → ℕ → Rref → Config
set_rref cfg p v = record cfg { rref = write cfg.rref p v }
