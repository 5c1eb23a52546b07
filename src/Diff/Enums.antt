-- ===== src/Diff/Enums.antt =====
-- The entries of the difference of enumerations.
use openradtool.Base.{
  ◌≡◌, refl, Bool, true, false, not, ◌&&◌, ◌||◌, Option, none, some, List, [], ◌∷◌, ◌++◌,
  if◌then◌else◌, map, arith,
}
use openradtool.Model.{Eitem, Enm, Config}
use openradtool.Parser.Assign.{int_eq}
use openradtool.Diff.{
  Diff, add_eitem, del_eitem, mod_eitem, mod_eitem_value, mod_eitem_comment, mod_eitem_labels,
  same_eitem, add_enm, del_enm, mod_enm, mod_enm_comment, mod_enm_labels, same_enm, same_bitidx,
  same_bitf, ort_check_labels, ort_check_comment, emit_if, ItemDiff, ort_diff_eitem, find_old_eitem,
  new_eitems, is_gone, old_eitems, ort_diff_enm, find_enm, diff_or_add, new_enms, has_enm, old_enms,
  ort_diff_enms,
}

abbrev pub is_same : Diff → Bool
is_same (same_eitem _ _) = true
is_same (same_enm _ _) = true
is_same (same_bitidx _ _) = true
is_same (same_bitf _ _) = true
is_same _ = false

-- All entries are of the kinds that report sameness.
unfoldable pub all_same : List Diff → Bool
all_same [] = true
all_same (d ∷ q) = is_same d && all_same q

pub all_same-snoc : (q : List Diff) (d : Diff) → all_same (q ++ d ∷ []) ≡ all_same q && is_same d
unfolding all_same
all_same-snoc [] d = ground arith
all_same-snoc (x ∷ q) d = ground (arith, all_same-snoc q d)

pub all_same-emit_if :
    (b : Bool) (d : Diff) (q : List Diff)
    → is_same d ≡ false
    → all_same (emit_if b d q) ≡ all_same q && not b
unfolding emit_if
all_same-emit_if true d q h = ground (arith, all_same-snoc q d, h)
all_same-emit_if false d q h = ground arith

-- Two items agree in value, comment and labels.
unfoldable pub agree : Option Eitem → Eitem → Bool
agree none i = false
agree (some f) i =
    int_eq f.value i.value && ort_check_comment f.doc i.doc && ort_check_labels f.labels i.labels

unfoldable pub all_agree : List Eitem → List Eitem → Bool
all_agree from [] = true
all_agree from (i ∷ into) = agree (find_old_eitem i.name from) i && all_agree from into

unfoldable pub none_gone : List Eitem → List Eitem → Bool
none_gone [] into = true
none_gone (f ∷ from) into = not (is_gone f.name into) && none_gone from into

-- Two enumerations agree: in their items, each known by its name, their comments and labels.
unfoldable pub enm_agree : Option Enm → Enm → Bool
enm_agree none i = false
enm_agree (some f) i =
    all_agree f.eq i.eq
    && none_gone f.eq i.eq
    && ort_check_comment f.doc i.doc
    && ort_check_labels f.labels_null i.labels_null

unfoldable pub all_enms_agree : List Enm → List Enm → Bool
all_enms_agree from [] = true
all_enms_agree from (i ∷ into) = enm_agree (find_enm i.name from) i && all_enms_agree from into

unfoldable pub no_enm_gone : List Enm → List Enm → Bool
no_enm_gone [] into = true
no_enm_gone (f ∷ from) into = has_enm f.name into && no_enm_gone from into

pub ort_diff_eitem-same :
    (q : List Diff) (f : Option Eitem) (i : Eitem)
    → (all_same (ort_diff_eitem q f i).q ≡ all_same q && agree f i)
      × ((ort_diff_eitem q f i).modified ≡ not (agree f i))
unfolding ort_diff_eitem agree
ort_diff_eitem-same q none i = (ground (arith, all_same-snoc q (add_eitem i)), refl)
ort_diff_eitem-same q (some f) i =
    let v = not (int_eq f.value i.value) in
    let c = not (ort_check_comment f.doc i.doc) in
    let l = not (ort_check_labels f.labels i.labels) in
    let q1 = emit_if v (mod_eitem_value f i) q in
    let q2 = emit_if c (mod_eitem_comment f i) q1 in
    let q3 = emit_if l (mod_eitem_labels f i) q2 in
    let d = if v || c || l then mod_eitem f i else same_eitem f i in
    let last : is_same d ≡ not (v || c || l) = ground arith in
    (
      ground (
        arith,
        all_same-snoc q3 d,
        last,
        all_same-emit_if l (mod_eitem_labels f i) q2 refl,
        all_same-emit_if c (mod_eitem_comment f i) q1 refl,
        all_same-emit_if v (mod_eitem_value f i) q refl,
      ),
      ground arith,
    )

new_eitems-same :
    (from into : List Eitem) (d : ItemDiff)
    → (all_same (new_eitems from into d).q ≡ all_same d.q && all_agree from into)
      × ((new_eitems from into d).modified ≡ d.modified || not (all_agree from into))
unfolding new_eitems all_agree
new_eitems-same from [] d = (ground arith, ground arith)
new_eitems-same from (i ∷ into) d =
    let r = ort_diff_eitem d.q (find_old_eitem i.name from) i in
    let s = ort_diff_eitem-same d.q (find_old_eitem i.name from) i in
    let ih = new_eitems-same from into (record { q = r.q; modified = d.modified || r.modified }) in
    (ground (arith, s.0, ih.0), ground (arith, s.1, ih.1))

old_eitems-same :
    (from into : List Eitem) (d : ItemDiff)
    → (all_same (old_eitems from into d).q ≡ all_same d.q && none_gone from into)
      × ((old_eitems from into d).modified ≡ d.modified || not (none_gone from into))
unfolding old_eitems none_gone
old_eitems-same [] into d = (ground arith, ground arith)
old_eitems-same (f ∷ from) into d =
    let g = is_gone f.name into in
    let s = all_same-emit_if g (del_eitem f) d.q refl in
    let ih =
      old_eitems-same from into
        (record { q = emit_if g (del_eitem f) d.q; modified = d.modified || g }) in
    (ground (arith, s, ih.0), ground (arith, ih.1))

diff_or_add-same :
    (q : List Diff) (f : Option Enm) (i : Enm)
    → all_same (diff_or_add q f i) ≡ all_same q && enm_agree f i
unfolding diff_or_add ort_diff_enm enm_agree
diff_or_add-same q none i = ground (arith, all_same-snoc q (add_enm i))
diff_or_add-same q (some f) i =
    let d1 = new_eitems f.eq i.eq (record { q = q; modified = false }) in
    let d = old_eitems f.eq i.eq d1 in
    let s1 = new_eitems-same f.eq i.eq (record { q = q; modified = false }) in
    let s = old_eitems-same f.eq i.eq d1 in
    let c = not (ort_check_comment f.doc i.doc) in
    let l = not (ort_check_labels f.labels_null i.labels_null) in
    let q1 = emit_if c (mod_enm_comment f i) d.q in
    let q2 = emit_if l (mod_enm_labels f i) q1 in
    let e = if d.modified || c || l then mod_enm f i else same_enm f i in
    let last : is_same e ≡ not (d.modified || c || l) = ground arith in
    ground (
      arith,
      s.0,
      s.1,
      s1.0,
      s1.1,
      all_same-snoc q2 e,
      last,
      all_same-emit_if l (mod_enm_labels f i) q1 refl,
      all_same-emit_if c (mod_enm_comment f i) d.q refl,
    )

new_enms-same :
    (from into : List Enm) (q : List Diff)
    → all_same (new_enms from into q) ≡ all_same q && all_enms_agree from into
unfolding new_enms all_enms_agree
new_enms-same from [] q = ground arith
new_enms-same from (i ∷ into) q =
    let f = find_enm i.name from in
    ground (arith, new_enms-same from into (diff_or_add q f i), diff_or_add-same q f i)

old_enms-same :
    (from into : List Enm) (q : List Diff)
    → all_same (old_enms from into q) ≡ all_same q && no_enm_gone from into
unfolding old_enms no_enm_gone
old_enms-same [] into q = ground arith
old_enms-same (f ∷ from) into q =
    let b = not (has_enm f.name into) in
    ground (
      arith,
      old_enms-same from into (emit_if b (del_enm f) q),
      all_same-emit_if b (del_enm f) q refl,
    )

-- All entries are of sameness exactly if the objects agree.
pub ort_diff_enms-agree :
    (from into : Config)
    → all_same (ort_diff_enms [] from into)
      ≡ all_enms_agree (map from.enm from.eq) (map into.enm into.eq)
        && no_enm_gone (map from.enm from.eq) (map into.enm into.eq)
unfolding ort_diff_enms all_same
ort_diff_enms-agree from into =
    let f = map from.enm from.eq in
    let i = map into.enm into.eq in
    ground (arith, old_enms-same f i (new_enms f i []), new_enms-same f i [])
