-- ===== src/Model/Sections.antt =====
-- src/model/config.py, `topology_from_config`: the topology of a configuration. A configuration is the
-- value that PyYAML gives; the keys of its mappings are text. Python's `float` of a text, or none where
-- it raises ValueError, and `str` of what is no text are arguments.
pub mod Placement
pub mod Reading
pub mod Configured
pub mod Checks
use Prim.Native.Char.{code}
use Prim.Native.String.{String}
use mathlib.Core.List.{reverse}
use package.text.Mathlib.Text.{◌==◌ as str_eq}
use traffic_emulator.Common.{
  ℕ, zero, suc, Bool, true, false, not, ◌&&◌, ◌||◌, Option, none, some, List, [], ◌∷◌, length, all,
  replicate, if◌then◌else◌, ◌==◌, leb, Result, ok, err, value_error, overflow_error, index_error,
  or_raise, raise_if, ◌>>=◌, ◌>>◌,
}
use traffic_emulator.Common.Sums.{get2, set2}
use traffic_emulator.Num.{Num}
use traffic_emulator.Num.Elementary.{Elementary, eq}
use traffic_emulator.Model.Topology.{Topology, has_duplicates, make}

mutual
  pub data Value (R : Type 0) : Type 0 where
    null : Value R
    flag : Bool → Value R
    number : R → Value R
    -- an int, with the float that it becomes, or none beyond the range of floats
    whole : Option R → Value R
    text : String → Value R
    sequence : Items R → Value R
    mapping : Fields R → Value R

  pub data Items (R : Type 0) : Type 0 where
    nil : Items R
    cons : Value R → Items R → Items R

  pub data Fields (R : Type 0) : Type 0 where
    end : Fields R
    field : String → Value R → Fields R → Fields R

abbrev pub codes : String → List ℕ
codes String.[] = []
codes (String.◌∷◌ c s) = code c ∷ codes s

abbrev same_text : List ℕ → List ℕ → Bool
same_text [] [] = true
same_text (c ∷ cs) (d ∷ ds) = c == d && same_text cs ds
same_text _ _ = false

abbrev prepend : ℕ → List (List ℕ) → List (List ℕ)
prepend c [] = (c ∷ []) ∷ []
prepend c (part ∷ parts) = (c ∷ part) ∷ parts

-- `text.split("->")`
abbrev pub split : List ℕ → List (List ℕ)
split [] = [] ∷ []
split (c ∷ []) = (c ∷ []) ∷ []
split (c ∷ d ∷ rest) =
    let parted = [] ∷ split rest in
    let unparted = prepend c (split (d ∷ rest)) in
    if c == b'-' && d == b'>' then parted else unparted

-- `str.isspace` of one character
abbrev is_space : ℕ → Bool
is_space c =
    leb 9 c && leb c 13
    || leb 28 c && leb c 32
    || c == 133
    || c == 160
    || c == 5760
    || leb 8192 c && leb c 8202
    || c == 8232
    || c == 8233
    || c == 8239
    || c == 8287
    || c == 12288

abbrev drop_spaces : List ℕ → List ℕ
drop_spaces [] = []
drop_spaces (c ∷ cs) = if is_space c then drop_spaces cs else c ∷ cs

-- `text.strip()`
unfoldable pub strip : List ℕ → List ℕ
strip cs = reverse (drop_spaces (reverse (drop_spaces cs)))

-- a link that is named `"<source>-><broker>"`
pub record LinkName : Type 0 where
  pub link_source : List ℕ
  pub link_broker : List ℕ

abbrev is_empty : List ℕ → Bool
is_empty [] = true
is_empty (c ∷ cs) = false

abbrev named : List (List ℕ) → Result LinkName
named (a ∷ b ∷ []) = do
  raise_if (is_empty (strip a) || is_empty (strip b)) value_error
  ok (record { link_source = strip a; link_broker = strip b })
named _ = err value_error

-- `src_map` and `brk_map`: the ids are distinct
abbrev pub index_of : List ℕ → List String → Option ℕ
index_of name [] = none
index_of name (s ∷ ids) =
    let later = index_of name ids in
    if same_text name (codes s) then some 0 else elim later [ none ↦ none | some i ↦ some (suc i) ]

pub record Place : Type 0 where
  pub at_source : ℕ
  pub at_broker : ℕ

unfoldable pub link_place : List String → List String → List ℕ → Result Place
unfolding strip
link_place sources brokers link = do
  name ← named (split link)
  i ← or_raise (index_of name.link_source sources) value_error
  j ← or_raise (index_of name.link_broker brokers) value_error
  ok (record { at_source = i; at_broker = j })

pub record Entries (R : Type 0) : Type 0 where
  pub ids : List String
  pub values : List R

-- the arrays that the links fill
pub record Links (R : Type 0) : Type 0 where
  pub link_capacities : List (List R)
  pub specified : List (List Bool)
  pub mask : List (List Bool)

module _ {R : Type 0} where
  abbrev pub get : String → Fields R → Option (Value R)
  get key end = none
  get key (field k v rest) = if str_eq k key then some v else get key rest

  -- where the source tests for a dict or a list, and raises ValueError if it is none
  abbrev pub fields_of : Option (Value R) → Result (Fields R)
  fields_of (some (mapping fields)) = ok fields
  fields_of _ = err value_error

  abbrev pub items_of : Value R → Result (Items R)
  items_of (sequence items) = ok items
  items_of _ = err value_error

  -- a list with an entry
  abbrev pub nonempty_items : Option (Value R) → Result (Items R)
  nonempty_items (some (sequence (cons item items))) = ok (cons item items)
  nonempty_items _ = err value_error

  abbrev pub no_links : R → ℕ → ℕ → Links R
  no_links nought rows columns = record {
    link_capacities = replicate rows (replicate columns nought);
    specified = replicate rows (replicate columns false);
    mask = replicate rows (replicate columns true);
  }

  abbrev pub claimed : Place → Links R → Links R
  claimed p links = record links { specified = set2 links.specified p.at_source p.at_broker true }

  abbrev pub with_capacity : Place → R → Links R → Links R
  with_capacity p cap links = record links {
    link_capacities = set2 links.link_capacities p.at_source p.at_broker cap;
  }

  abbrev pub without_route : Place → Links R → Links R
  without_route p links = record links { mask = set2 links.mask p.at_source p.at_broker false }

  -- `link_index`: the place of a link that is not specified yet
  unfoldable pub link_index : List String → List String → List ℕ → Links R → Result Place
  unfolding link_place
  link_index sources brokers link links = do
    p ← link_place sources brokers link
    taken ← or_raise (get2 links.specified p.at_source p.at_broker) index_error
    raise_if taken value_error
    ok p

module _ {R : Type 0} ⦃n : Num R⦄ where
  -- `value or []`
  abbrev pub or_empty : Option (Value R) → Value R
  or_empty none = sequence nil
  or_empty (some null) = sequence nil
  or_empty (some (flag b)) = if b then flag b else sequence nil
  or_empty (some (number x)) = if eq x n.nought then sequence nil else number x
  or_empty (some (text s)) = if str_eq s "" then sequence nil else text s
  or_empty (some (mapping end)) = sequence nil
  or_empty (some v) = v

module _ {R : Type 0} (float : String → Option R) where
  -- `_number`
  abbrev pub number_of : Value R → Result R
  number_of (number x) = ok x
  number_of (whole x) = or_raise x overflow_error
  number_of (text s) = or_raise (float s) value_error
  number_of _ = err value_error

module _ {R : Type 0} (str : Value R → String) where
  abbrev pub str_of : Value R → String
  str_of (text s) = s
  str_of v = str v

module _ {R : Type 0} (float : String → Option R) (str : Value R → String) where
  -- the loop of `entries`
  abbrev pub read_entries : String → Items R → Result (Entries R)
  read_entries key nil = ok (record { ids = []; values = [] })
  read_entries key (cons item items) = do
    fields ← fields_of (some item)
    id ← or_raise (get "id" fields) value_error
    value ← or_raise (get key fields) value_error
    x ← number_of float value
    rest ← read_entries key items
    ok (record { ids = str_of str id ∷ rest.ids; values = x ∷ rest.values })

  unfoldable pub entries : String → Option (Value R) → Result (Entries R)
  entries key section = do
    items ← nonempty_items section
    read ← read_entries key items
    raise_if (has_duplicates read.ids) value_error
    ok read

  module _ (sources brokers : List String) where
    abbrev pub set_capacity : String → Value R → Links R → Result (Links R)
    set_capacity link value links = do
      p ← link_index sources brokers (codes link) links
      cap ← number_of float value
      ok (with_capacity p cap (claimed p links))

    unfoldable pub set_capacities : Fields R → Links R → Result (Links R)
    set_capacities end links = ok links
    set_capacities (field link value rest) links =
        set_capacity link value links >>= set_capacities rest

    abbrev pub remove_link : Value R → Links R → Result (Links R)
    remove_link link links = do
      p ← link_index sources brokers (codes (str_of str link)) links
      ok (without_route p (claimed p links))

    unfoldable pub remove_links : Items R → Links R → Result (Links R)
    remove_links nil links = ok links
    remove_links (cons link rest) links = remove_link link links >>= remove_links rest

  module _ ⦃n : Num R⦄ ⦃e : Elementary R⦄ where
    unfoldable pub topology_from_config : Value R → Result (Topology R)
    unfolding entries link_index set_capacities remove_links make
    topology_from_config config = do
      fields ← fields_of (some config)
      section ← fields_of (get "topology" fields)
      source_section ← or_raise (get "sources" section) value_error
      broker_section ← or_raise (get "brokers" section) value_error
      access_section ← or_raise (get "access_capacities" section) value_error
      sources ← entries "rate" (some source_section)
      brokers ← entries "capacity" (some broker_section)
      capacities ← fields_of (some access_section)
      let start = no_links n.nought (length sources.ids) (length brokers.ids)
      given ← set_capacities sources.ids brokers.ids capacities start
      unavailable ← items_of (or_empty (get "unavailable_links" section))
      links ← remove_links sources.ids brokers.ids unavailable given
      raise_if (not (all (all λ done. done) links.specified)) value_error
      make sources.values links.link_capacities brokers.values sources.ids brokers.ids
          (some links.mask)
