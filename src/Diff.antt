-- ===== src/Diff.antt =====
-- diff.c: the comparison of labels, comments and enumerations, and the kinds of entries. An entry of
-- the difference holds the objects that the source points to.
pub mod Labels
pub mod Enums
pub mod Bitfields
pub mod Itself
use openradtool.Base.{
  ℕ, Bool, true, false, not, ◌&&◌, ◌||◌, Option, none, some, List, [], ◌∷◌, ◌++◌, ◌==◌,
  if◌then◌else◌, Bytes, length, strcaseeq, map,
}
use openradtool.Model.{Label, Eitem, Enm, Bitidx, Bitf, Config}
use openradtool.Parser.Assign.{int_eq}

pub data Diff : Type 0 where
  add_eitem del_eitem : Eitem → Diff
  mod_eitem mod_eitem_value mod_eitem_comment mod_eitem_labels same_eitem : Eitem → Eitem → Diff
  add_enm del_enm : Enm → Diff
  mod_enm mod_enm_comment mod_enm_labels same_enm : Enm → Enm → Diff
  add_bitidx del_bitidx : Bitidx → Diff
  mod_bitidx mod_bitidx_value mod_bitidx_comment mod_bitidx_labels same_bitidx :
      Bitidx → Bitidx → Diff
  add_bitf del_bitf : Bitf → Diff
  mod_bitf mod_bitf_comment mod_bitf_labels same_bitf : Bitf → Bitf → Diff

-- `strcmp(a, b) == 0`
unfoldable pub streq : Bytes → Bytes → Bool
streq [] [] = true
streq (x ∷ xs) (y ∷ ys) = x == y && streq xs ys
streq _ _ = false

unfoldable pub find_label : Label → List Label → Bool
unfolding streq
find_label l [] = false
find_label l (m ∷ q) = m.lang == l.lang && streq m.label l.label || find_label l q

unfoldable pub all_labels : List Label → List Label → Bool
unfolding find_label
all_labels [] into = true
all_labels (l ∷ q) into = find_label l into && all_labels q into

unfoldable pub ort_check_labels : List Label → List Label → Bool
unfolding all_labels
ort_check_labels from into = length from == length into && all_labels from into

unfoldable pub ort_check_comment : Option Bytes → Option Bytes → Bool
unfolding streq
ort_check_comment (some from) (some into) = streq from into
ort_check_comment none none = true
ort_check_comment _ _ = false

-- `diff_alloc` under a condition.
unfoldable pub emit_if : Bool → Diff → List Diff → List Diff
emit_if b d q = if b then q ++ d ∷ [] else q

-- The queue, and whether the item is modified: what ort_diff_eitem returns.
pub record ItemDiff : Type 0 where
  pub q : List Diff
  pub modified : Bool

unfoldable pub ort_diff_eitem : List Diff → Option Eitem → Eitem → ItemDiff
unfolding ort_check_labels ort_check_comment emit_if
ort_diff_eitem q none i = record { q = q ++ add_eitem i ∷ []; modified = true }
ort_diff_eitem q (some f) i =
    let v = not (int_eq f.value i.value) in
    let c = not (ort_check_comment f.doc i.doc) in
    let l = not (ort_check_labels f.labels i.labels) in
    let q3 =
      emit_if l (mod_eitem_labels f i)
        (emit_if c (mod_eitem_comment f i) (emit_if v (mod_eitem_value f i) q)) in
    let b = v || c || l in
    record { q = q3 ++ (if b then mod_eitem f i else same_eitem f i) ∷ []; modified = b }

unfoldable pub find_old_eitem : Bytes → List Eitem → Option Eitem
find_old_eitem name [] = none
find_old_eitem name (i ∷ q) = if strcaseeq name i.name then some i else find_old_eitem name q

unfoldable pub new_eitems : List Eitem → List Eitem → ItemDiff → ItemDiff
unfolding ort_diff_eitem find_old_eitem
new_eitems from [] d = d
new_eitems from (i ∷ into) d =
    let r = ort_diff_eitem d.q (find_old_eitem i.name from) i in
    new_eitems from into (record { q = r.q; modified = d.modified || r.modified })

unfoldable pub is_gone : Bytes → List Eitem → Bool
is_gone name [] = true
is_gone name (i ∷ q) = not (strcaseeq i.name name) && is_gone name q

unfoldable pub old_eitems : List Eitem → List Eitem → ItemDiff → ItemDiff
unfolding is_gone emit_if
old_eitems [] into d = d
old_eitems (f ∷ from) into d =
    let g = is_gone f.name into in
    old_eitems from into (record { q = emit_if g (del_eitem f) d.q; modified = d.modified || g })

unfoldable pub ort_diff_enm : List Diff → Enm → Enm → List Diff
unfolding new_eitems old_eitems ort_check_comment ort_check_labels emit_if
ort_diff_enm q f i =
    let d = old_eitems f.eq i.eq (new_eitems f.eq i.eq (record { q = q; modified = false })) in
    let c = not (ort_check_comment f.doc i.doc) in
    let l = not (ort_check_labels f.labels_null i.labels_null) in
    let q2 = emit_if l (mod_enm_labels f i) (emit_if c (mod_enm_comment f i) d.q) in
    q2 ++ (if d.modified || c || l then mod_enm f i else same_enm f i) ∷ []

unfoldable pub find_enm : Bytes → List Enm → Option Enm
find_enm name [] = none
find_enm name (e ∷ q) = if strcaseeq e.name name then some e else find_enm name q

unfoldable pub diff_or_add : List Diff → Option Enm → Enm → List Diff
unfolding ort_diff_enm
diff_or_add q none i = q ++ add_enm i ∷ []
diff_or_add q (some f) i = ort_diff_enm q f i

unfoldable pub new_enms : List Enm → List Enm → List Diff → List Diff
unfolding diff_or_add find_enm
new_enms from [] q = q
new_enms from (i ∷ into) q = new_enms from into (diff_or_add q (find_enm i.name from) i)

unfoldable pub has_enm : Bytes → List Enm → Bool
has_enm name [] = false
has_enm name (e ∷ q) = strcaseeq name e.name || has_enm name q

unfoldable pub old_enms : List Enm → List Enm → List Diff → List Diff
unfolding has_enm emit_if
old_enms [] into q = q
old_enms (f ∷ from) into q = old_enms from into (emit_if (not (has_enm f.name into)) (del_enm f) q)

unfoldable pub ort_diff_enms : List Diff → Config → Config → List Diff
unfolding new_enms old_enms
ort_diff_enms q from into =
    let f = map from.enm from.eq in let i = map into.enm into.eq in old_enms f i (new_enms f i q)
