-- ===== src/Tests/Users.antt =====
-- The parser of the user's transactions run on a file.
use blockchain_mapping_syste.Prelude.{◌≡◌, refl, some, List, [], ◌∷◌, ◌++◌, Bytes, ok}
use blockchain_mapping_syste.Prelude.Exec.{◌>>=◌}
use blockchain_mapping_syste.Utils.{normalize_address}
use blockchain_mapping_syste.Transaction.{text}
use blockchain_mapping_syste.User.{
  Buffer, Entry, no_data, int_of, category_name, to_name, from_name, afi_name, value_name, end_name,
  read_transactions, set_metadata,
}
use blockchain_mapping_syste.User.Entries.{AllEntries, read_transactions-AllEntries}
use blockchain_mapping_syste.User.Locators.{Fails, set_metadata-Fails}
use blockchain_mapping_syste.Tests.Model.{codec, alice, bob}

abbrev line : Bytes → Bytes → Bytes
line name content = name ++ b';' ∷ content ++ 10 ∷ []

abbrev file : List Bytes
file =
    line category_name (b'1' ∷ [])
    ∷ line from_name alice
    ∷ line to_name bob
    ∷ line afi_name (b'2' ∷ [])
    ∷ line value_name (b'x' ∷ [])
    ∷ line end_name []
    ∷ []

abbrev entry : Entry
entry = record {
  category = 1;
  to = bob;
  from = alice;
  afi = 2;
  value = b'x' ∷ [];
  metadata = text [];
}

file_read : read_transactions codec file [] ≡ ok (entry ∷ [])
unfolding read_transactions ◌>>=◌ normalize_address int_of
file_read = refl

read_transactions-AllEntries_example : AllEntries (entry ∷ [])
read_transactions-AllEntries_example =
    read_transactions-AllEntries codec file [] (entry ∷ []) tt file_read

-- `1,a,0,0`
abbrev locator_text : Bytes
locator_text = b'1' ∷ b',' ∷ b'a' ∷ b',' ∷ b'0' ∷ b',' ∷ b'0' ∷ []

abbrev third : Buffer
third = record no_data { category = some 3 }

set_metadata-Fails_example : Fails codec (set_metadata codec locator_text third)
set_metadata-Fails_example = set_metadata-Fails codec locator_text third refl
