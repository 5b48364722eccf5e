-- ===== src/Model/Sections/Checks.antt =====
-- What the readers of a configuration's sections raise.
use Prim.Native.String.{String}
use traffic_emulator.Common.{
  Option, none, some, ok, value_error, Loads, raise_if-Loads, >>=-Loads, or_raise,
}
use traffic_emulator.Model.Topology.{has_duplicates}
use traffic_emulator.Model.Sections.{
  Value, Items, Fields, nil, cons, end, field, number_of, number, whole, text, flag, null, mapping,
  sequence, nonempty_items, read_entries, entries, get, fields_of, items_of,
}
use traffic_emulator.Model.Sections.Reading.{AllFields, AllItems, number_of-Loads}

module _ {R : Type 0} where
  pub fields_of-Loads : (value : Option (Value R)) → Loads (λ fields. Unit {0}) (fields_of value)
  fields_of-Loads (some (mapping fields)) = tt
  fields_of-Loads none = tt
  fields_of-Loads (some null) = tt
  fields_of-Loads (some (flag b)) = tt
  fields_of-Loads (some (number x)) = tt
  fields_of-Loads (some (whole x)) = tt
  fields_of-Loads (some (text s)) = tt
  fields_of-Loads (some (sequence items)) = tt

  pub items_of-Loads : (value : Value R) → Loads (λ items. Unit {0}) (items_of value)
  items_of-Loads (sequence items) = tt
  items_of-Loads null = tt
  items_of-Loads (flag b) = tt
  items_of-Loads (number x) = tt
  items_of-Loads (whole x) = tt
  items_of-Loads (text s) = tt
  items_of-Loads (mapping fields) = tt

  nonempty_items-Loads :
      (value : Option (Value R)) → Loads (λ items. Unit {0}) (nonempty_items value)
  nonempty_items-Loads (some (sequence (cons item items))) = tt
  nonempty_items-Loads (some (sequence nil)) = tt
  nonempty_items-Loads (some (mapping fields)) = tt
  nonempty_items-Loads none = tt
  nonempty_items-Loads (some null) = tt
  nonempty_items-Loads (some (flag b)) = tt
  nonempty_items-Loads (some (number x)) = tt
  nonempty_items-Loads (some (whole x)) = tt
  nonempty_items-Loads (some (text s)) = tt

  found-Loads : (value : Option (Value R)) → Loads (λ v. Unit {0}) (or_raise value value_error)
  found-Loads none = tt
  found-Loads (some v) = tt

  pub AllFields-map :
      (P Q : String → Value R → Type 0)
      → ((key : String) (value : Value R) → P key value → Q key value)
      → (fields : Fields R) → AllFields P fields
      → AllFields Q fields
  AllFields-map P Q f end h = tt
  AllFields-map P Q f (field key value rest) h = (f key value h.0, AllFields-map P Q f rest h.1)

  pub AllItems-map :
      (P Q : Value R → Type 0)
      → ((value : Value R) → P value → Q value)
      → (items : Items R) → AllItems P items
      → AllItems Q items
  AllItems-map P Q f nil h = tt
  AllItems-map P Q f (cons item rest) h = (f item h.0, AllItems-map P Q f rest h.1)

module _ {R : Type 0} (float : String → Option R) (str : Value R → String) where
  read_entries-Loads :
      (key : String) (items : Items R) → Loads (λ read. Unit {0}) (read_entries float str key items)
  read_entries-Loads key nil = tt
  read_entries-Loads key (cons item items) =
      >>=-Loads (λ fields. Unit {0}) (λ read. Unit {0}) (fields_of (some item)) _
        (fields_of-Loads (some item))
        λ fields is_fields _.
          >>=-Loads (λ v. Unit {0}) (λ read. Unit {0}) (or_raise (get "id" fields) value_error) _
            (found-Loads (get "id" fields))
            λ id is_id _.
              >>=-Loads (λ v. Unit {0}) (λ read. Unit {0}) (or_raise (get key fields) value_error) _
                (found-Loads (get key fields))
                λ value is_value _.
                  >>=-Loads (λ x. Unit {0}) (λ read. Unit {0}) (number_of float value) _
                    (number_of-Loads float value)
                    λ x is_x _.
                      >>=-Loads (λ r. Unit {0}) (λ read. Unit {0})
                        (read_entries float str key items) _ (read_entries-Loads key items)
                        λ rest is_rest _. tt

  pub entries-Loads :
      (key : String) (section : Option (Value R))
      → Loads (λ read. Unit {0}) (entries float str key section)
  unfolding entries
  entries-Loads key section =
      >>=-Loads (λ items. Unit {0}) (λ read. Unit {0}) (nonempty_items section) _
        (nonempty_items-Loads section)
        λ items is_items _.
          >>=-Loads (λ r. Unit {0}) (λ read. Unit {0}) (read_entries float str key items) _
            (read_entries-Loads key items)
            λ read is_read _.
              raise_if-Loads (λ r. Unit {0}) (has_duplicates read.ids) (ok read) λ distinct. tt
