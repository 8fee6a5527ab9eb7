-- ===== src/Sur/Ids.antt =====
-- Which texts are record ids.
use npm.Common.{Option, none, some, inl, ◌≡◌, refl, ◌↔◌, ap, sym}
use npm.Text.{Text, split_once}
use npm.Text.Cut.{Lacks, split_once-append, split_once-IsCut}
use npm.Sur.{Error, bad_record_id}
use npm.Sur.RecordId.{RecordId, fmt, from_split, from_str}

module _ {E : Type 0} where
  read_cut :
      (s : Text) (o : Option (Text × Text)) (r : RecordId)
      → from_split {X = Error E} o (bad_record_id s) ≡ inl r
      → o ≡ some (r.tb, r.id)
  unfolding from_split
  read_cut s none r h = absurd (cc)
  read_cut s (some (tb, id)) r h =
      let same : record { tb = tb; id = id } ≡ r = cc in ap (λ x. some (x.tb, x.id)) same

  -- A text is read as a record id exactly when it is what is printed of that id, and the id's table
  -- has no colon.
  pub from_str_iff :
      (s : Text) (r : RecordId) → (from_str {E = E} s ≡ inl r) ↔ ((fmt r ≡ s) × Lacks b':' r.tb)
  unfolding from_str fmt from_split
  from_str_iff s r = (
    λ h. split_once-IsCut b':' s r.tb r.id (read_cut s (split_once b':' s) r h),
    λ (is, lacks). rw (sym is, split_once-append b':' r.tb r.id lacks, from_split) refl,
  )
