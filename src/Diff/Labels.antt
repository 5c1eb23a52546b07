-- ===== src/Diff/Labels.antt =====
-- When ort_check_labels finds two queues of labels to be the same.
use openradtool.Base.{
  ◌≡◌, ◌↔◌, inl, inr, refl, sym, ap, ◌∙◌, true, ◌&&◌, List, [], ◌∷◌, ◌==◌, ==_iff, Bytes, length,
  In, Bool-cases, arith,
}
use openradtool.Model.{Label}
use openradtool.Diff.{streq, find_label, all_labels, ort_check_labels}

-- As many labels, and each label of the first has one of the second with the same text, whose
-- language has the same index in the table of its own configuration.
pub record SameLabels (from into : List Label) : Type 0 where
  pub size : length from ≡ length into
  pub found :
      (l : Label) → In l from → (m : Label) × In m into × (m.lang ≡ l.lang) × (m.label ≡ l.label)

streq→≡ : (s t : Bytes) → streq s t ≡ true → s ≡ t
unfolding streq
streq→≡ [] [] h = refl
streq→≡ [] (d ∷ t) h = cc
streq→≡ (c ∷ s) [] h = cc
streq→≡ (c ∷ s) (d ∷ t) h = ground (arith, streq→≡ s t)

streq_same : (s : Bytes) → streq s s ≡ true
unfolding streq
streq_same [] = refl
streq_same (c ∷ s) = ground (arith, streq_same s)

find_label_sound :
    (l : Label) (q : List Label)
    → find_label l q ≡ true
    → (m : Label) × In m q × (m.lang ≡ l.lang) × (m.label ≡ l.label)
unfolding find_label
find_label_sound l [] h = cc
find_label_sound l (m ∷ q) h = elim (Bool-cases (m.lang == l.lang && streq m.label l.label)) [
  | inl e ↦ (m, inl refl, ground arith, streq→≡ m.label l.label (ground arith))
  | inr e ↦ let r = find_label_sound l q (rw (find_label, e) at h) in (r.0, inr r.1, r.2, r.3)
]

find_label_complete :
    (l m : Label) (q : List Label)
    → In m q
    → m.lang ≡ l.lang
    → m.label ≡ l.label
    → find_label l q ≡ true
unfolding find_label
find_label_complete l m [] i e k = absurd i
find_label_complete l m (x ∷ q) (inl y) e k =
    let lang : x.lang ≡ l.lang = ap (λ v. v.lang) (sym y) ∙ e in
    let text : streq x.label l.label ≡ true =
      ap (λ v. streq v l.label) (ap (λ v. v.label) (sym y) ∙ k) ∙ streq_same l.label in
    ground arith
find_label_complete l m (x ∷ q) (inr i) e k =
    let rest = find_label_complete l m q i e k in ground arith

all_labels_sound :
    (from into : List Label)
    → all_labels from into ≡ true
    → (l : Label) → In l from
    → find_label l into ≡ true
unfolding all_labels
all_labels_sound [] into h l m = absurd m
all_labels_sound (x ∷ q) into h l (inl e) = rw e (ground arith)
all_labels_sound (x ∷ q) into h l (inr m) = all_labels_sound q into (ground arith) l m

all_labels_complete :
    (from into : List Label)
    → ((l : Label) → In l from → find_label l into ≡ true)
    → all_labels from into ≡ true
unfolding all_labels
all_labels_complete [] into h = refl
all_labels_complete (x ∷ q) into h =
    let first = h x (inl refl) in
    let rest = all_labels_complete q into (λ l m. h l (inr m)) in ground arith

pub ort_check_labels_iff :
    (from into : List Label) → (ort_check_labels from into ≡ true) ↔ SameLabels from into
unfolding ort_check_labels
ort_check_labels_iff from into = (
  (λ h. record {
    size = (==_iff (length from) (length into)).0 (ground arith);
    found = λ l m. find_label_sound l into (all_labels_sound from into (ground arith) l m);
  }),
  (λ s.
      let same = (==_iff (length from) (length into)).1 s.size in
      let all =
        all_labels_complete from into
          (λ l m. let f = s.found l m in find_label_complete l f.0 into f.1 f.2 f.3) in
      ground arith),
)
