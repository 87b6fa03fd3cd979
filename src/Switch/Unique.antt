-- ===== src/Switch/Unique.antt =====
-- The tags: no interface has two, and no tag is two interfaces'.
use lisa_user.Base.{
  ℕ, ◌≤◌, ◌≡◌, ◌≢◌, refl, sym, ap, ◌∙◌, Bool, List, [], ◌∷◌, none, some, Text, text_eq, text_eq_iff,
  take_all, length, arith, ◌==◌, Bool-cases, Option-cases, ◌⊎◌, inl, inr,
}
use lisa_user.Mm.{Mm, mm_alloc, mm_null, mm_lock}
use lisa_user.Switch.Store.{Switch, Entry, Status, success, declined, failed, enodev, sw_max_tag}
use lisa_user.Switch.Keyed.{
  Table, find_key, find_text, write_text, delete_key, remove_entry, add_entry,
}
use lisa_user.Switch.Tags.{if_tag_size, set_if_tag, switch_set_if_tag, switch_get_if_tag}
use lisa_user.Switch.View.{
  lookup, lookup-find_key, IsKeyed, Says, Says-cons, Says-write_text, Differ-find_key, Removed,
  remove_entry_outcome, write_text-IsKeyed,
}

abbrev pub Unsaid : Text → List Entry → Type 0
Unsaid text [] = Unit
Unsaid text (e ∷ es) = (e.text ≢ text) × Unsaid text es

abbrev pub HasOwnTexts : List Entry → Type 0
HasOwnTexts [] = Unit
HasOwnTexts (e ∷ es) = Unsaid e.text es × HasOwnTexts es

abbrev pub IsTagged : List Entry → Type 0
IsTagged es = IsKeyed es × HasOwnTexts es

find_text-Unsaid : (text : Text) (es : List Entry) → find_text text es ≡ none → Unsaid text es
unfolding find_text
find_text-Unsaid text [] h = tt
find_text-Unsaid text (e ∷ es) h = elim (Bool-cases (text_eq text e.text)) [
  | inl same ↦ absurd (cc)
  | inr other ↦ (
    λ (q : e.text ≡ text). cc ((text_eq_iff text e.text).1 (sym q)),
    find_text-Unsaid text es (rw (other) at h),
  )
]

Unsaid-delete_key :
    (text : Text) (key : ℕ) (es : List Entry) → Unsaid text es → Unsaid text (delete_key key es)
unfolding delete_key
Unsaid-delete_key text key [] h = tt
Unsaid-delete_key text key (e ∷ es) h = ground (arith, Unsaid-delete_key text key es)

delete_key-HasOwnTexts :
    (key : ℕ) (es : List Entry) → HasOwnTexts es → HasOwnTexts (delete_key key es)
unfolding delete_key
delete_key-HasOwnTexts key [] h = tt
delete_key-HasOwnTexts key (e ∷ es) h =
    ground (arith, Unsaid-delete_key e.text key es, delete_key-HasOwnTexts key es)

Unsaid-write_text :
    (text : Text) (key : ℕ) (new : Text) (es : List Entry)
    → new ≢ text
    → Unsaid text es
    → Unsaid text (write_text key new es)
unfolding write_text
Unsaid-write_text text key new [] apart h = tt
Unsaid-write_text text key new (e ∷ es) apart h =
    ground (arith, Unsaid-write_text text key new es apart)

write_text-HasOwnTexts :
    (key : ℕ) (new : Text) (es : List Entry)
    → Unsaid new es
    → HasOwnTexts es
    → HasOwnTexts (write_text key new es)
unfolding write_text
write_text-HasOwnTexts key new [] fresh h = tt
write_text-HasOwnTexts key new (e ∷ es) fresh h = elim (Bool-cases (e.key == key)) [
  | inl same ↦ rw (same) (fresh.1, h.1)
  | inr other ↦ rw (other) (
    Unsaid-write_text e.text key new es (λ q. fresh.0 (cc)) h.0,
    write_text-HasOwnTexts key new es fresh.1 h.1,
  )
]

remove_entry-HasOwnTexts :
    (key : ℕ) (mm : Mm) (es : List Entry)
    → HasOwnTexts es
    → HasOwnTexts (remove_entry key (mm, es)).1.1
unfolding remove_entry
remove_entry-HasOwnTexts key mm es ok = elim (Option-cases (find_key key es)) [
  | inl missing ↦ rw (remove_entry, missing) ok
  | inr (e, found) ↦ rw (remove_entry, found) (delete_key-HasOwnTexts key es ok)
]

-- What a call without another interface answers and leaves: the tag is taken, or there is no
-- memory, and nothing is written; or the interface has the tag.
pub data Tagged (if_index : ℕ) (tag : Text) (es : List Entry) (r : Status × Table × ℕ)
    : Type 0 where
  refused : r.0 ≡ declined → r.1.1 ≡ es → Tagged if_index tag es r
  given : r.0 ≡ success → Unsaid tag es → Says if_index tag es r.1.1 → Tagged if_index tag es r

module _ (ftruncate : ℕ → Bool) (if_index : ℕ) (tag : Text) (mm : Mm) (es : List Entry)
    (ok : IsTagged es) (short : length tag ≤ sw_max_tag) where
  tag_entry :
      find_text tag es ≡ none
      → find_key if_index es ≡ none
      → let r = add_entry ftruncate if_tag_size sw_max_tag declined if_index tag (mm, es) in
        (o : ℕ) → Tagged if_index tag es (r.0, r.1, o) × IsTagged r.1.1
  unfolding add_entry
  tag_entry free fresh o = elim (Bool-cases ((mm_alloc ftruncate if_tag_size mm).0 == mm_null)) [
    | inl null ↦ rw (add_entry, null) (Tagged.refused refl refl, ok)
    | inr live ↦
        let new : Entry = record {
          ptr = (mm_alloc ftruncate if_tag_size mm).0;
          key = if_index;
          text = tag;
        } in
        rw (add_entry, live, take_all sw_max_tag tag short)
          (
            Tagged.given refl (find_text-Unsaid tag es free) (Says-cons new es),
            ((Differ-find_key if_index es fresh, ok.0), (find_text-Unsaid tag es free, ok.1)),
          )
  ]

  set_if_tag_outcome :
      let r = set_if_tag ftruncate if_index (some tag) 0 (mm, es) in
      Tagged if_index tag es r × IsTagged r.1.1
  unfolding set_if_tag
  set_if_tag_outcome = elim (Option-cases (find_text tag es)) [
    | inr (e, taken) ↦ rw (set_if_tag, taken) (Tagged.refused refl refl, ok)
    | inl free ↦ elim (Option-cases (find_key if_index es)) [
      | inr (e, found) ↦
          rw (set_if_tag, free, found, take_all sw_max_tag tag short)
            (
              Tagged.given refl (find_text-Unsaid tag es free)
                  (Says-write_text if_index tag es e found),
              (
                write_text-IsKeyed if_index tag es ok.0,
                write_text-HasOwnTexts if_index tag es (find_text-Unsaid tag es free) ok.1,
              ),
            )
      | inl fresh ↦ rw (set_if_tag, free, fresh) (tag_entry free fresh _)
    ]
  ]

get-lookup : (s : Switch) (k : ℕ) → switch_get_if_tag k s ≡ lookup k s.if_tags
unfolding switch_get_if_tag
get-lookup s k = elim (Option-cases (find_key k s.if_tags)) [
  | inl missing ↦ rw (switch_get_if_tag, missing) (cc (lookup-find_key k s.if_tags))
  | inr (e, found) ↦ rw (switch_get_if_tag, found) (cc (lookup-find_key k s.if_tags))
]

-- switch_set_if_tag with a tag of at most 40 bytes, where the int for another interface holds 0, no
-- interface has two tags and no tag is two interfaces': that stays so, and either the answer is 1
-- and no tag has changed, or the answer is 0, the tag was nobody's, switch_get_if_tag now tells it
-- for the interface, and tells for every other interface what it told before.
pub switch_set_if_tag-IsTagged :
    (ftruncate : ℕ → Bool) (if_index : ℕ) (tag : Text) (s : Switch)
    → IsTagged s.if_tags
    → length tag ≤ sw_max_tag
    → let r = switch_set_if_tag ftruncate if_index (some tag) 0 s in
      IsTagged r.1.if_tags
      × (((r.0 ≡ declined) × (r.1.if_tags ≡ s.if_tags))
          ⊎ ((r.0 ≡ success)
              × Unsaid tag s.if_tags
              × (switch_get_if_tag if_index r.1 ≡ some tag)
              × ((k : ℕ) → k ≢ if_index → switch_get_if_tag k r.1 ≡ switch_get_if_tag k s)))
unfolding switch_set_if_tag
switch_set_if_tag-IsTagged ftruncate i tag s ok short =
    let (outcome, tagged) = set_if_tag_outcome ftruncate i tag (mm_lock s.mm) s.if_tags ok short in
    let after = (switch_set_if_tag ftruncate i (some tag) 0 s).1 in
    (
      tagged,
      elim outcome [
        | Tagged.refused answer same ↦ inl (answer, same)
        | Tagged.given answer free says ↦ inr (
          answer,
          free,
          get-lookup after i ∙ says.0,
          λ k apart. get-lookup after k ∙ says.1 k apart ∙ sym (get-lookup s k),
        )
      ],
    )

-- switch_set_if_tag without a tag, where no interface has two tags and no tag is two interfaces':
-- that stays so, the interface then has none, and the answer is -1 with ENODEV if it had none.
pub switch_set_if_tag_removes :
    (ftruncate : ℕ → Bool) (if_index other_if : ℕ) (s : Switch)
    → IsTagged s.if_tags
    → let r = switch_set_if_tag ftruncate if_index none other_if s in
      IsTagged r.1.if_tags
      × (switch_get_if_tag if_index r.1 ≡ none)
      × ((k : ℕ) → k ≢ if_index → switch_get_if_tag k r.1 ≡ switch_get_if_tag k s)
      × ((r.0 ≡ success) ⊎ ((r.0 ≡ failed enodev) × (switch_get_if_tag if_index s ≡ none)))
unfolding switch_set_if_tag set_if_tag
switch_set_if_tag_removes ftruncate i other s ok =
    let (outcome, keyed) = remove_entry_outcome i (mm_lock s.mm) s.if_tags ok.0 in
    let after = (switch_set_if_tag ftruncate i none other s).1 in
    let tagged : IsTagged after.if_tags =
      (keyed, remove_entry-HasOwnTexts i (mm_lock s.mm) s.if_tags ok.1) in
    elim outcome [
      | Removed.gone answer had gone apart ↦ (
        tagged,
        get-lookup after i ∙ gone,
        λ k other'. get-lookup after k ∙ apart k other' ∙ sym (get-lookup s k),
        inl answer,
      )
      | Removed.never_there answer missing same ↦ (
        tagged,
        get-lookup after i ∙ ap (lookup i) same ∙ missing,
        λ k other'. get-lookup after k ∙ ap (lookup k) same ∙ sym (get-lookup s k),
        inr (answer, get-lookup s i ∙ missing),
      )
    ]
