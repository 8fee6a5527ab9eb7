-- ===== src/Sur/RecordId.antt =====
-- sur/src/record_id.rs: the text of a record id, and its reading. The values of the crate ciborium
-- are a data type with those kinds that the code tells apart; the printing of the others is a
-- parameter.
use npm.Common.{ℕ, Option, none, some, ◌∷◌, ◌++◌, ◌⊎◌, inl, inr, ◌==◌, if◌then◌else◌}
use npm.Text.{Text, codes, split_once, text_eq}
use npm.Sur.{Error, bad_record_id}

pub record RecordId : Type 0 where
  pub tb : Text
  pub id : Text

-- `Display`.
unfoldable pub fmt : RecordId → Text
fmt r = r.tb ++ (b':' ∷ r.id)

unfoldable pub from_split : {X : Type 0} → Option (Text × Text) → X → RecordId ⊎ X
from_split none e = inr e
from_split (some (tb, id)) e = inl (record { tb = tb; id = id })

unfoldable pub from_str : {E : Type 0} → Text → RecordId ⊎ Error E
unfolding from_split split_once
from_str s = from_split (split_once b':' s) (bad_record_id s)

mutual
  pub data Value : Type 0 where
    text : Text → Value
    tag : ℕ → Value → Value
    array : Values → Value
    map_of : Entries → Value
    other : Text → Value

  pub data Values : Type 0 where
    no_values : Values
    value_and : Value → Values → Values

  pub data Entries : Type 0 where
    no_entries : Entries
    entry_and : Value → Value → Entries → Entries

-- `other` holds what is printed of a value that is neither a text nor a tag.
module _ (print : Value → Text) where
  unfoldable pub val_to_str : Value → Text
  val_to_str (text s) = s
  val_to_str (tag n inner) = val_to_str inner
  val_to_str (array vs) = print (array vs)
  val_to_str (map_of es) = print (map_of es)
  val_to_str (other s) = s

-- The loop over the entries of a map: the last `tb` and the last `id` that it met.
module _ (print debug : Value → Text) where
  unfoldable pub put_entry : Text → Value → Option Text × Option Text → Option Text × Option Text
  unfolding val_to_str text_eq
  put_entry key v (tb, id) =
      if text_eq key (codes "tb")
      then (some (val_to_str print v), id)
      else if text_eq key (codes "id")
      then (tb, some (val_to_str print v))
      else (tb, id)

  unfoldable pub read_entries : Entries → Option Text × Option Text → Option Text × Option Text
  unfolding put_entry
  read_entries no_entries found = found
  read_entries (entry_and (text key) v es) found = read_entries es (put_entry key v found)
  read_entries (entry_and (tag n k) v es) found = read_entries es found
  read_entries (entry_and (array ks) v es) found = read_entries es found
  read_entries (entry_and (map_of ks) v es) found = read_entries es found
  read_entries (entry_and (other k) v es) found = read_entries es found

  unfoldable pub of_entries : Option Text × Option Text → RecordId ⊎ Text
  of_entries (some tb, some id) = inl (record { tb = tb; id = id })
  of_entries (some tb, none) = inr (codes "invalid record id map")
  of_entries (none, id) = inr (codes "invalid record id map")

  unfoldable pub unexpected : Value → Text
  unexpected v = codes "unexpected cbor value for record id: " ++ debug v

  unfoldable pub of_array : Values → RecordId ⊎ Text
  unfolding val_to_str unexpected
  of_array (value_and tb (value_and id no_values)) =
      inl (record { tb = val_to_str print tb; id = val_to_str print id })
  of_array (value_and tb (value_and id (value_and v vs))) =
      inr (unexpected (array (value_and tb (value_and id (value_and v vs)))))
  of_array (value_and tb no_values) = inr (unexpected (array (value_and tb no_values)))
  of_array no_values = inr (unexpected (array no_values))

  unfoldable pub from_ciborium_value : Value → RecordId ⊎ Text
  unfolding from_split split_once of_array read_entries of_entries unexpected
  from_ciborium_value (tag n inner) =
      let rest = from_ciborium_value inner in
      if n == 8 then rest else inr (unexpected (tag n inner))
  from_ciborium_value (text s) = from_split (split_once b':' s) (codes "invalid record id: " ++ s)
  from_ciborium_value (array vs) = of_array vs
  from_ciborium_value (map_of es) = of_entries (read_entries es (none, none))
  from_ciborium_value (other s) = inr (unexpected (other s))
