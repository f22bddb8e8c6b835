-- ===== src/Front/Blocklist.antt =====
-- The providers that a wallet excludes: front/src/lib/blocklistStorage.js.
pub mod Laws
use Prim.Native.String.{◌++◌ as ◌⊕◌}
use mathlib.Core.List.{map}
use community_storage.Base.{
  String, Bool, not, Option, none, some, List, [], ◌∷◌, ◌++◌, Map, set, keep, includes, is_same,
  String_discrete, get_or,
}

-- What a cell of the local storage parses to: texts and other values in an array, or no array.
pub data Item : Type 0 where
  text : String → Item
  other : Item

pub data Cell : Type 0 where
  array : List Item → Cell
  something_else : Cell

abbrev pub Cells : Type 0
Cells = Map String Cell

-- What `setBlocklist` is given: an array of texts, one text, or anything else.
pub data Entries : Type 0 where
  addresses : List String → Entries
  lines : String → Entries
  nothing : Entries

-- `toLowerCase`, `trim`, and `split(/[\n,;]+/)` of texts.
pub record Texts : Type 0 where
  pub lower : String → String
  pub trim : String → String
  pub split : String → List String

abbrev pub nonempty : List String → List String
nonempty = keep (λ a. not (is_same a ""))

abbrev nonempty_texts : List Item → List String
nonempty_texts [] = []
nonempty_texts (text a ∷ rest) = nonempty (a ∷ []) ++ nonempty_texts rest
nonempty_texts (other ∷ rest) = nonempty_texts rest

abbrev parsed : Option Cell → List String
parsed none = []
parsed (some something_else) = []
parsed (some (array items)) = nonempty_texts items

module _ (t : Texts) where
  abbrev pub storage_key : Option String → String
  storage_key wallet = "massa-storage-blocklist-" ⊕ t.lower (get_or "" wallet)

  abbrev pub parse_addresses : String → List String
  parse_addresses raw = nonempty (map t.trim (t.split raw))

  unfoldable pub get_blocklist : Option String → Cells → List String
  get_blocklist wallet cells = parsed (cells (storage_key wallet))

  abbrev pub list_of : Entries → List String
  list_of (addresses as_) = nonempty (map t.trim as_)
  list_of (lines raw) = parse_addresses raw
  list_of nothing = []

  -- The list that is stored is also returned.
  unfoldable pub set_blocklist : Option String → Entries → Cells → List String × Cells
  set_blocklist wallet entries cells =
      let list = list_of entries in
      (list, set String_discrete cells (storage_key wallet) (array (map text list)))

  -- The set of the blocked addresses, as its test for a member.
  unfoldable pub get_blocklist_set : Option String → Cells → String → Bool
  unfolding get_blocklist
  get_blocklist_set wallet cells a = includes (map t.lower (get_blocklist wallet cells)) a
