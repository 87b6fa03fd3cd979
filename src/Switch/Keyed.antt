-- ===== src/Switch/Keyed.antt =====
-- The lists of tags and descriptions, each searched for the first entry with a key or a text, and
-- the code that switch.c repeats for them: an entry removed, and one written or allocated.
use lisa_user.Base.{
  ℕ, Bool, List, [], ◌∷◌, Option, none, some, if◌then◌else◌, ◌==◌, Text, text_eq, copy_text,
}
use lisa_user.Mm.{Mm, mm_alloc, mm_free, mm_null}
use lisa_user.Switch.Store.{Entry, Status, success, failed, enodev, enomem}

unfoldable pub find_key : ℕ → List Entry → Option Entry
find_key key [] = none
find_key key (e ∷ es) = if e.key == key then some e else find_key key es

unfoldable pub find_text : Text → List Entry → Option Entry
find_text text [] = none
find_text text (e ∷ es) = if text_eq text e.text then some e else find_text text es

unfoldable pub write_text : ℕ → Text → List Entry → List Entry
write_text key text [] = []
write_text key text (e ∷ es) =
    if e.key == key then record e { text = text } ∷ es else e ∷ write_text key text es

unfoldable pub write_key : Text → ℕ → List Entry → List Entry
write_key text key [] = []
write_key text key (e ∷ es) =
    if text_eq text e.text then record e { key = key } ∷ es else e ∷ write_key text key es

-- mm_list_del
unfoldable pub delete_key : ℕ → List Entry → List Entry
delete_key key [] = []
delete_key key (e ∷ es) = if e.key == key then es else e ∷ delete_key key es

-- The allocator, and one of the lists.
abbrev pub Table : Type 0
Table = Mm × List Entry

-- __switch_del_if_tag, __switch_del_if_desc and __switch_del_vlan_desc
unfoldable pub remove_entry : ℕ → Table → Status × Table
remove_entry key (mm, es) = elim (find_key key es) [
  | none ↦ (failed enodev, (mm, es))
  | some e ↦ (success, (mm_free e.ptr mm, delete_key key es))
]

-- mm_alloc of an entry, which goes before the others, or the answer `refusal` if that fails
unfoldable pub add_entry : (ℕ → Bool) → ℕ → ℕ → Status → ℕ → Text → Table → Status × Table
add_entry ftruncate size room refusal key text (mm, es) =
    let allocated = mm_alloc ftruncate size mm in
    if allocated.0 == mm_null then (refusal, (allocated.1, es)) else (
      success,
      (allocated.1, record { ptr = allocated.0; key = key; text = copy_text room text } ∷ es),
    )

-- __switch_add_vlan_desc, and switch_set_if_desc with a description
unfoldable pub put_entry : (ℕ → Bool) → ℕ → ℕ → ℕ → Text → Table → Status × Table
put_entry ftruncate size room key text (mm, es) = elim (find_key key es) [
  | some e ↦ (success, (mm, write_text key (copy_text room text) es))
  | none ↦ add_entry ftruncate size room (failed enomem) key text (mm, es)
]

-- switch_set_vlan_desc and switch_set_if_desc without a description
unfoldable pub reset_entry : ℕ → ℕ → Text → Table → Status × Table
reset_entry room key text (mm, es) = elim (find_key key es) [
  | some e ↦ (success, (mm, write_text key (copy_text room text) es))
  | none ↦ (failed enodev, (mm, es))
]
