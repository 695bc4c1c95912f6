-- ===== src/User.antt =====
-- user.py: the reader of the transactions that a user wants to send. A file is the list of its lines;
-- what a setter has written before it raises stays in the buffer.
pub mod Entries
pub mod Locators
use blockchain_mapping_syste.Prelude.{
  ℕ, zero, suc, ◌+◌, ◌-◌, ◌*◌, ◌%◌, Bool, true, false, not, ◌&&◌, ◌||◌, Option, none, some, List,
  [], ◌∷◌, ◌++◌, Bytes, bytes_eq, ◌==◌, length, leb, ltb, nat_beq, if◌then◌else◌, Result, ok, err,
  exception, key_error, value_error, attribute_error, raise_if, or_raise,
}
use blockchain_mapping_syste.Prelude.Int.{ℤ, pos, negsuc}
use blockchain_mapping_syste.Prelude.Exec.{Exec, pure, lift, gets, modify, ◌>>=◌, ◌>>◌}
use blockchain_mapping_syste.Utils.{Codec, normalize_address, Item, num, str}
use blockchain_mapping_syste.Transaction.{RawMetadata, text, items}

-- `data_buffer`
pub record Buffer : Type 0 where
  pub category : Option ℕ
  pub to : Option Bytes
  pub from : Option Bytes
  pub afi : Option ℕ
  pub value : Option Bytes
  pub metadata : Option (List Item)

-- A buffer that has every field; a transaction without metadata has the text `b''`.
pub record Entry : Type 0 where
  pub category : ℕ
  pub to : Bytes
  pub from : Bytes
  pub afi : ℕ
  pub value : Bytes
  pub metadata : RawMetadata

abbrev pub no_data : Buffer
no_data = record {
  category = none;
  to = none;
  from = none;
  afi = none;
  value = none;
  metadata = none;
}

abbrev pub end_name : Bytes
end_name = b'e' ∷ b'n' ∷ b'd' ∷ []

-- The keys of `types_dir`.
abbrev pub category_name : Bytes
category_name = b'c' ∷ b'a' ∷ b't' ∷ b'e' ∷ b'g' ∷ b'o' ∷ b'r' ∷ b'y' ∷ []

abbrev pub to_name : Bytes
to_name = b't' ∷ b'o' ∷ []

abbrev pub from_name : Bytes
from_name = b'f' ∷ b'r' ∷ b'o' ∷ b'm' ∷ []

abbrev pub afi_name : Bytes
afi_name = b'a' ∷ b'f' ∷ b'i' ∷ []

abbrev pub value_name : Bytes
value_name = b'v' ∷ b'a' ∷ b'l' ∷ b'u' ∷ b'e' ∷ []

abbrev pub metadata_name : Bytes
metadata_name = b'm' ∷ b'e' ∷ b't' ∷ b'a' ∷ b'd' ∷ b'a' ∷ b't' ∷ b'a' ∷ []

-- `s.split(sep)`, for one character: the part before the first one, and the others.
unfoldable pub split : ℕ → Bytes → Bytes × List Bytes
split sep [] = ([], [])
split sep (ch ∷ s) =
    let (here, rest) = split sep s in
    if nat_beq ch sep then ([], here ∷ rest) else (ch ∷ here, rest)

-- White space of `int`: a blank, and the characters 9 to 13.
abbrev pub is_space : ℕ → Bool
is_space ch = nat_beq ch 32 || leb 9 ch && leb ch 13

unfoldable pub skip_spaces : Bytes → Bytes
skip_spaces [] = []
skip_spaces (ch ∷ s) = let rest = skip_spaces s in if is_space ch then rest else ch ∷ s

all_spaces : Bytes → Bool
all_spaces [] = true
all_spaces (ch ∷ s) = is_space ch && all_spaces s

-- Digits to the end of the text or to white space that ends it.
digits_from : ℕ → Bytes → Option ℕ
unfolding all_spaces
digits_from acc [] = some acc
digits_from acc (ch ∷ s) =
    let rest = digits_from (acc * 10 + (ch - 48)) s in
    if leb 48 ch && leb ch 57 then rest else if all_spaces (ch ∷ s) then some acc else none

unsigned : Bytes → Option ℕ
unfolding digits_from
unsigned [] = none
unsigned (ch ∷ s) = if leb 48 ch && leb ch 57 then digits_from 0 (ch ∷ s) else none

negative : ℕ → ℤ
negative zero = pos 0
negative (suc n) = negsuc n

signed : Bytes → Option ℤ
unfolding unsigned negative
signed [] = none
signed (ch ∷ s) =
    if nat_beq ch b'-'
    then elim (unsigned s) [ none ↦ none | some n ↦ some (negative n) ]
    else elim (unsigned (if nat_beq ch b'+' then s else ch ∷ s)) [
      | none ↦ none
      | some n ↦ some (pos n)
    ]

-- `int(s)`
unfoldable pub int_of : Bytes → Result ℤ
unfolding skip_spaces signed
int_of s = or_raise (signed (skip_spaces s)) value_error

-- `category`, from the number on.
unfoldable pub store_category : ℤ → Exec Buffer (Unit {0})
store_category (negsuc _) = lift (err exception)
store_category (pos n) =
    if ltb 3 n then lift (err exception) else modify (λ b. record b { category = some n })

-- `category`
unfoldable pub set_category : Bytes → Exec Buffer (Unit {0})
unfolding store_category
set_category data_string = do category ← lift (int_of data_string); store_category category

-- `afi`, from the number on.
unfoldable pub store_afi : ℤ → Exec Buffer (Unit {0})
store_afi (negsuc _) = lift (err exception)
store_afi (pos n) =
    if nat_beq n 1 || nat_beq n 2
    then modify (λ b. record b { afi = some n })
    else lift (err exception)

-- `afi`
unfoldable pub set_afi : Bytes → Exec Buffer (Unit {0})
unfolding store_afi
set_afi data_string = do afi ← lift (int_of data_string); store_afi afi

-- `value`
unfoldable pub set_value : Bytes → Exec Buffer (Unit {0})
set_value data_string = modify (λ b. record b { value = some data_string })

-- `data_buffer["metadata"].append(x)`, after the list was made.
unfoldable pub append_item : Item → Buffer → Buffer
append_item x b = record b {
  metadata = elim b.metadata [ none ↦ none | some l ↦ some (l ++ x ∷ []) ];
}

abbrev pub is_afi : ℤ → Bool
is_afi (pos n) = nat_beq n 1 || nat_beq n 2
is_afi (negsuc n) = false

-- The first statements of both loops: the afi and the address of an item.
unfoldable pub append_address : Bytes → Bytes → Exec Buffer (Unit {0})
unfolding append_item
append_address afi ip = do
  a ← lift (int_of afi)
  modify (append_item (num a))
  if is_afi a then modify (append_item (str ip)) else lift (err exception)

module _ (c : Codec) where
  -- `to`
  unfoldable pub set_to : Bytes → Exec Buffer (Unit {0})
  set_to data_string = do
    address ← lift (normalize_address c data_string false)
    modify (λ b. record b { to = some address })

  -- `frm`
  unfoldable pub set_from : Bytes → Exec Buffer (Unit {0})
  set_from data_string = do
    address ← lift (normalize_address c data_string false)
    modify (λ b. record b { from = some address })

  -- The loop of category 2, three texts a round.
  unfoldable pub read_map_servers : List Bytes → Exec Buffer (Unit {0})
  unfolding append_address append_item
  read_map_servers (afi ∷ ip ∷ address ∷ rest) = do
    append_address afi ip
    a ← lift (normalize_address c address false)
    modify (append_item (str a))
    read_map_servers rest
  read_map_servers _ = pure tt

  -- The loop of category 3, four texts a round. The method `appned` does not exist, so a round raises
  -- before it looks at the priority.
  unfoldable pub read_locators : List Bytes → Exec Buffer (Unit {0})
  unfolding append_address
  read_locators (afi ∷ ip ∷ priority ∷ weight ∷ rest) = do
    append_address afi ip
    lift (err attribute_error)
  read_locators _ = pure tt

  -- `metadata`, by the category that was read before.
  unfoldable pub read_metadata : List Bytes → Option ℕ → Exec Buffer (Unit {0})
  unfolding read_map_servers read_locators
  read_metadata parts none = lift (err key_error)
  read_metadata parts (some category) =
      if nat_beq category 2
      then if nat_beq (length parts % 3) 0 then read_map_servers parts else lift (err exception)
      else if nat_beq category 3
      then if nat_beq (length parts % 4) 0 then read_locators parts else lift (err exception)
      else lift (err exception)

  unfoldable pub set_metadata : Bytes → Exec Buffer (Unit {0})
  unfolding split read_metadata
  set_metadata data_string = do
    modify (λ b. record b { metadata = some [] })
    let (first, others) = split b',' data_string
    b ← gets (λ b. b)
    read_metadata (first ∷ others) b.category

  -- `self.types_dir[type](self, content, data_buffer)`
  unfoldable pub set_field : Bytes → Bytes → Exec Buffer (Unit {0})
  unfolding set_category set_to set_from set_afi set_value set_metadata
  set_field type content =
      if type == category_name
      then set_category content
      else if type == to_name
      then set_to content
      else if type == from_name
      then set_from content
      else if type == afi_name
      then set_afi content
      else if type == value_name
      then set_value content
      else if type == metadata_name
      then set_metadata content
      else lift (err key_error)

  abbrev pub metadata_or_blank : Option (List Item) → RawMetadata
  metadata_or_blank none = text []
  metadata_or_blank (some l) = items l

  unfoldable pub complete_of :
      Option ℕ
      → Option ℕ
      → Option Bytes
      → Option Bytes
      → Option Bytes
      → Option (List Item)
      → Option Entry
  complete_of none category value to from metadata = none
  complete_of (some afi) none value to from metadata = none
  complete_of (some afi) (some category) none to from metadata = none
  complete_of (some afi) (some category) (some value) none from metadata = none
  complete_of (some afi) (some category) (some value) (some to) none metadata = none
  complete_of (some afi) (some category) (some value) (some to) (some from) metadata =
      some (record {
        category = category;
        to = to;
        from = from;
        afi = afi;
        value = value;
        metadata = metadata_or_blank metadata;
      })

  -- The test at the line `end`.
  unfoldable pub complete : Buffer → Option Entry
  unfolding complete_of
  complete b = complete_of b.afi b.category b.value b.to b.from b.metadata

  -- `s.strip("\n")`, at the end; a line has no other.
  strip_newline : Bytes → Bytes
  strip_newline [] = []
  strip_newline (ch ∷ s) = if nat_beq ch 10 then strip_newline s else ch ∷ strip_newline s

  two_parts : Bytes × List Bytes → Result (Bytes × Bytes)
  unfolding strip_newline
  two_parts (type, content ∷ []) = ok (type, strip_newline content)
  two_parts (type, _) = err value_error

  -- `type, content = line.split(';')`
  unfoldable pub read_line : Bytes → Result (Bytes × Bytes)
  unfolding split two_parts
  read_line line = two_parts (split b';' line)

  abbrev pub cons_some : Option Entry → List Entry → List Entry
  cons_some none l = l
  cons_some (some e) l = e ∷ l

  -- The loop over the lines. A setter that raises is logged; a line that does not split ends it all.
  unfoldable pub read_lines : Buffer → List Bytes → Result (List Entry)
  unfolding read_line set_field complete
  read_lines b [] = ok []
  read_lines b (line ∷ lines) = elim (read_line line) [
    | err e ↦ err e
    | ok (type, content) ↦
        if type == end_name
        then elim (read_lines no_data lines) [
          | err e ↦ err e
          | ok l ↦ ok (cons_some (complete b) l)
        ]
        else read_lines (set_field type content b).1 lines
  ]

  -- `read_transactions` on the list that the parser has so far.
  unfoldable pub read_transactions : List Bytes → List Entry → Result (List Entry)
  unfolding read_lines
  read_transactions lines transactions = elim (read_lines no_data lines) [
    | err e ↦ err e
    | ok l ↦ ok (transactions ++ l)
  ]

-- The first transaction, which `remove` takes out.
unfoldable pub get_tx : List Entry → Option Entry × List Entry
get_tx [] = (none, [])
get_tx (x ∷ l) = (some x, l)
