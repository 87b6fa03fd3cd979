-- ===== src/Switch/Tags.antt =====
-- switch_get_if_tag and switch_set_if_tag, with __switch_get_if_tag, __switch_get_tag_if and
-- __switch_del_if_tag.
use lisa_user.Base.{ℕ, Bool, Option, none, some, Text, copy_text, if◌then◌else◌, ◌!=◌}
use lisa_user.Mm.{mm_lock, mm_unlock}
use lisa_user.Switch.Store.{Switch, Status, success, declined, failed, sw_max_tag}
use lisa_user.Switch.Keyed.{
  Table, find_key, find_text, write_text, write_key, remove_entry, add_entry,
}

-- struct if_tag
abbrev pub if_tag_size : ℕ
if_tag_size = 56

-- none for the answer 1
unfoldable pub switch_get_if_tag : ℕ → Switch → Option Text
switch_get_if_tag if_index s = elim (find_key if_index s.if_tags) [
  | none ↦ none
  | some e ↦ some e.text
]

-- `other_if` is the int that the third argument points to; it is the last part of the result.
unfoldable pub set_if_tag : (ℕ → Bool) → ℕ → Option Text → ℕ → Table → Status × Table × ℕ
set_if_tag ftruncate if_index none other_if t =
    let removed = remove_entry if_index t in (removed.0, removed.1, other_if)
set_if_tag ftruncate if_index (some tag) other_if (mm, es) =
    let added = add_entry ftruncate if_tag_size sw_max_tag declined if_index tag (mm, es) in
    elim (find_text tag es) [
      | some e ↦ (declined, (mm, if other_if != 0 then write_key tag other_if es else es), other_if)
      | none ↦ elim (find_key if_index es) [
        | some e ↦ (success, (mm, write_text if_index (copy_text sw_max_tag tag) es), other_if)
        | none ↦
            (added.0, added.1, elim added.0 [ success ↦ other_if | declined ↦ 0 | failed e ↦ 0 ])
      ]
    ]

unfoldable pub switch_set_if_tag : (ℕ → Bool) → ℕ → Option Text → ℕ → Switch → Status × Switch × ℕ
switch_set_if_tag ftruncate if_index tag other_if s =
    let r = set_if_tag ftruncate if_index tag other_if (mm_lock s.mm, s.if_tags) in
    (r.0, record s { mm = mm_unlock (r.1.0); if_tags = r.1.1 }, r.2)
