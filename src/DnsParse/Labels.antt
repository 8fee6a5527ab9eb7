-- ===== src/DnsParse/Labels.antt =====
-- The name that labels make: those from the first that is not empty, with dots between them.
use npm.Common.{false, List, [], ◌∷◌, ◌++◌, ◌≡◌, refl, append_assoc}
use npm.Text.{Text, join, is_empty}
use npm.Text.Joined.{join-append}
use npm.DnsParse.Name.{push_label, dotted}
use mathlib.Core.List.{foldl}

abbrev pub drop_empty : List Text → List Text
drop_empty [] = []
drop_empty ([] ∷ labels) = drop_empty labels
drop_empty ((c ∷ l) ∷ labels) = (c ∷ l) ∷ labels

push_label-filled : (name l : Text) → is_empty name ≡ false → push_label name l ≡ name ++ (b'.' ∷ l)
unfolding push_label dotted is_empty
push_label-filled [] l filled = cc
push_label-filled (c ∷ name) l filled = append_assoc (c ∷ name) (b'.' ∷ []) l

is_empty-append : (name l : Text) → is_empty name ≡ false → is_empty (name ++ l) ≡ false
unfolding is_empty
is_empty-append [] l filled = cc
is_empty-append (c ∷ name) l filled = refl

pub foldl-push_label :
    (name : Text) (labels : List Text)
    → is_empty name ≡ false
    → foldl push_label name labels ≡ join (b'.' ∷ []) (name ∷ labels)
unfolding join
foldl-push_label name [] filled = refl
foldl-push_label name (l ∷ labels) filled =
    rw
      (
        push_label-filled name l filled,
        foldl-push_label (name ++ (b'.' ∷ l)) labels (is_empty-append name (b'.' ∷ l) filled),
        join-append (b'.' ∷ []) name (b'.' ∷ l) labels,
        join-append (b'.' ∷ []) (b'.' ∷ []) l labels,
      )
      refl

pub foldl-drop_empty :
    (labels : List Text) → foldl push_label [] labels ≡ join (b'.' ∷ []) (drop_empty labels)
unfolding push_label dotted is_empty join
foldl-drop_empty [] = refl
foldl-drop_empty ([] ∷ labels) = foldl-drop_empty labels
foldl-drop_empty ((c ∷ l) ∷ labels) = foldl-push_label (c ∷ l) labels refl
