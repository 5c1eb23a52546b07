-- ===== src/Diff/Itself.antt =====
-- The comparison of a configuration with itself.
use mathlib.Core.Path.{subst}
use openradtool.Base.{
  inl, inr, ◌≡◌, refl, ◌∙◌, true, false, Option, none, some, List, [], ◌∷◌, Bytes, map, strcaseeq,
  In, All, All-at, Pairwise, arith, ℤ, pos, negsuc,
}
use openradtool.Model.{Label, Eitem, Enm, Config}
use openradtool.Parser.Assign.{int_eq}
use openradtool.Parser.Enum.Items.{NamesApart}
use openradtool.Diff.{
  streq, find_label, all_labels, ort_check_labels, ort_check_comment, find_old_eitem, is_gone,
  find_enm, has_enm, ort_diff_enms,
}
use openradtool.Diff.Enums.{
  all_same, agree, all_agree, none_gone, enm_agree, all_enms_agree, no_enm_gone,
  ort_diff_enms-agree,
}

-- The names of the enumerations differ in more than their case.
abbrev pub EnmsApart : Enm → Enm → Type 0
EnmsApart x y = strcaseeq x.name y.name ≡ false

strcaseeq_refl : (s : Bytes) → strcaseeq s s ≡ true
unfolding strcaseeq
strcaseeq_refl [] = refl
strcaseeq_refl (c ∷ s) = ground (arith, strcaseeq_refl s)

strcaseeq_comm : (s t : Bytes) → strcaseeq s t ≡ strcaseeq t s
unfolding strcaseeq
strcaseeq_comm [] [] = refl
strcaseeq_comm [] (d ∷ t) = refl
strcaseeq_comm (c ∷ s) [] = refl
strcaseeq_comm (c ∷ s) (d ∷ t) = ground (arith, strcaseeq_comm s t)

streq_refl : (s : Bytes) → streq s s ≡ true
unfolding streq
streq_refl [] = refl
streq_refl (c ∷ s) = ground (arith, streq_refl s)

int_eq_same : (v : ℤ) → int_eq v v ≡ true
int_eq_same (pos m) = ground arith
int_eq_same (negsuc m) = ground arith

ort_check_comment_refl : (d : Option Bytes) → ort_check_comment d d ≡ true
unfolding ort_check_comment
ort_check_comment_refl none = refl
ort_check_comment_refl (some s) = streq_refl s

find_label-In : (l : Label) (q : List Label) → In l q → find_label l q ≡ true
unfolding find_label
find_label-In l [] m = absurd m
find_label-In l (x ∷ q) (inl e) =
    subst (λ y. find_label l (y ∷ q) ≡ true) e (ground (arith, streq_refl l.label))
find_label-In l (x ∷ q) (inr m) = ground (arith, find_label-In l q m)

all_labels-In :
    (from into : List Label) → ((l : Label) → In l from → In l into) → all_labels from into ≡ true
unfolding all_labels
all_labels-In [] into h = refl
all_labels-In (l ∷ q) into h =
    ground (arith, find_label-In l into (h l (inl refl)), all_labels-In q into (λ x m. h x (inr m)))

ort_check_labels_refl : (q : List Label) → ort_check_labels q q ≡ true
unfolding ort_check_labels
ort_check_labels_refl q = ground (arith, all_labels-In q q (λ l m. m))

agree_refl : (i : Eitem) → agree (some i) i ≡ true
unfolding agree
agree_refl i =
    ground
      (arith, int_eq_same i.value, ort_check_comment_refl i.doc, ort_check_labels_refl i.labels)

find_old_eitem-In :
    (i : Eitem) (es : List Eitem)
    → Pairwise NamesApart es
    → In i es
    → find_old_eitem i.name es ≡ some i
unfolding find_old_eitem
find_old_eitem-In i [] w m = absurd m
find_old_eitem-In i (x ∷ es) w (inl e) =
    subst (λ y. find_old_eitem i.name (y ∷ es) ≡ some i) e (rw (strcaseeq_refl i.name) refl)
find_old_eitem-In i (x ∷ es) w (inr m) =
    let apart : strcaseeq i.name x.name ≡ false =
      strcaseeq_comm i.name x.name ∙ All-at (NamesApart x) es i w.0 m in
    rw apart (find_old_eitem-In i es w.1 m)

is_gone-In : (i : Eitem) (es : List Eitem) → In i es → is_gone i.name es ≡ false
unfolding is_gone
is_gone-In i [] m = absurd m
is_gone-In i (x ∷ es) (inl e) =
    subst (λ y. is_gone i.name (y ∷ es) ≡ false) e (ground (arith, strcaseeq_refl i.name))
is_gone-In i (x ∷ es) (inr m) = ground (arith, is_gone-In i es m)

all_agree-In :
    (from into : List Eitem)
    → Pairwise NamesApart from
    → ((i : Eitem) → In i into → In i from)
    → all_agree from into ≡ true
unfolding all_agree
all_agree-In from [] w h = refl
all_agree-In from (i ∷ into) w h =
    rw (find_old_eitem-In i from w (h i (inl refl)), agree_refl i)
      (all_agree-In from into w (λ x m. h x (inr m)))

none_gone-In :
    (from into : List Eitem) → ((i : Eitem) → In i from → In i into) → none_gone from into ≡ true
unfolding none_gone
none_gone-In [] into h = refl
none_gone-In (i ∷ from) into h =
    rw (is_gone-In i into (h i (inl refl))) (none_gone-In from into (λ x m. h x (inr m)))

enm_agree_refl : (e : Enm) → Pairwise NamesApart e.eq → enm_agree (some e) e ≡ true
unfolding enm_agree
enm_agree_refl e w = ground (
  arith,
  all_agree-In e.eq e.eq w (λ i m. m),
  none_gone-In e.eq e.eq (λ i m. m),
  ort_check_comment_refl e.doc,
  ort_check_labels_refl e.labels_null,
)

find_enm-In :
    (e : Enm) (es : List Enm) → Pairwise EnmsApart es → In e es → find_enm e.name es ≡ some e
unfolding find_enm
find_enm-In e [] w m = absurd m
find_enm-In e (x ∷ es) w (inl s) =
    subst (λ y. find_enm e.name (y ∷ es) ≡ some e) s (rw (strcaseeq_refl e.name) refl)
find_enm-In e (x ∷ es) w (inr m) = rw (All-at (EnmsApart x) es e w.0 m) (find_enm-In e es w.1 m)

has_enm-In : (e : Enm) (es : List Enm) → In e es → has_enm e.name es ≡ true
unfolding has_enm
has_enm-In e [] m = absurd m
has_enm-In e (x ∷ es) (inl s) =
    subst (λ y. has_enm e.name (y ∷ es) ≡ true) s (ground (arith, strcaseeq_refl e.name))
has_enm-In e (x ∷ es) (inr m) = ground (arith, has_enm-In e es m)

all_enms_agree-In :
    (from into : List Enm)
    → Pairwise EnmsApart from
    → All (λ e. Pairwise NamesApart e.eq) from
    → ((e : Enm) → In e into → In e from)
    → all_enms_agree from into ≡ true
unfolding all_enms_agree
all_enms_agree-In from [] w u h = refl
all_enms_agree-In from (e ∷ into) w u h =
    let m = h e (inl refl) in
    let names = All-at (λ x. Pairwise NamesApart x.eq) from e u m in
    rw (find_enm-In e from w m, enm_agree_refl e names)
      (all_enms_agree-In from into w u (λ x n. h x (inr n)))

no_enm_gone-In :
    (from into : List Enm) → ((e : Enm) → In e from → In e into) → no_enm_gone from into ≡ true
unfolding no_enm_gone
no_enm_gone-In [] into h = refl
no_enm_gone-In (e ∷ from) into h =
    rw (has_enm-In e into (h e (inl refl))) (no_enm_gone-In from into (λ x m. h x (inr m)))

-- Where the names of enumerations, and those of the items of each, differ in more than their case, the
-- difference of the enumerations of a configuration with themselves has entries of sameness only.
pub ort_diff_enms_refl :
    (cfg : Config)
    → Pairwise EnmsApart (map cfg.enm cfg.eq)
    → All (λ e. Pairwise NamesApart e.eq) (map cfg.enm cfg.eq)
    → all_same (ort_diff_enms [] cfg cfg) ≡ true
ort_diff_enms_refl cfg w u =
    let es = map cfg.enm cfg.eq in
    ground (
      arith,
      ort_diff_enms-agree cfg cfg,
      all_enms_agree-In es es w u (λ e m. m),
      no_enm_gone-In es es (λ e m. m),
    )
