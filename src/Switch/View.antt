-- ===== src/Switch/View.antt =====
-- What the lists say: the text that a key has, before and after each operation on a list.
use lisa_user.Base.{
  ℕ, ◌≡◌, ◌≢◌, refl, Bool, List, [], ◌∷◌, Option, none, some, Text, copy_text, arith, if◌then◌else◌,
  ◌==◌, Bool-cases, Option-cases, inl, inr,
}
use lisa_user.Mm.{Mm, mm_alloc, mm_null}
use lisa_user.Switch.Store.{Entry, Status, success, failed, enodev, enomem}
use lisa_user.Switch.Keyed.{
  Table, find_key, write_text, delete_key, remove_entry, add_entry, put_entry, reset_entry,
}

abbrev pub text_of : Option Entry → Option Text
text_of none = none
text_of (some e) = some e.text

abbrev pub lookup : ℕ → List Entry → Option Text
lookup key [] = none
lookup key (e ∷ es) = if e.key == key then some e.text else lookup key es

pub lookup-find_key : (key : ℕ) (es : List Entry) → text_of (find_key key es) ≡ lookup key es
unfolding find_key
lookup-find_key key [] = refl
lookup-find_key key (e ∷ es) = ground (arith, lookup-find_key key es)

-- A list that says `text` for `key`, and for every other key what `es` says.
abbrev pub Says : ℕ → Text → List Entry → List Entry → Type 0
Says key text es es' =
    (lookup key es' ≡ some text) × ((k : ℕ) → k ≢ key → lookup k es' ≡ lookup k es)

-- No two entries have the same key.
abbrev pub Differ : ℕ → List Entry → Type 0
Differ key [] = Unit
Differ key (e ∷ es) = (e.key ≢ key) × Differ key es

abbrev pub IsKeyed : List Entry → Type 0
IsKeyed [] = Unit
IsKeyed (e ∷ es) = Differ e.key es × IsKeyed es

pub find_key-Differ : (key : ℕ) (es : List Entry) → Differ key es → find_key key es ≡ none
unfolding find_key
find_key-Differ key [] h = refl
find_key-Differ key (e ∷ es) h = ground (arith, find_key-Differ key es)

pub lookup-Differ : (key : ℕ) (es : List Entry) → Differ key es → lookup key es ≡ none
lookup-Differ key [] h = refl
lookup-Differ key (e ∷ es) h = ground (arith, lookup-Differ key es)

pub Differ-find_key : (key : ℕ) (es : List Entry) → find_key key es ≡ none → Differ key es
unfolding find_key
Differ-find_key key [] h = tt
Differ-find_key key (e ∷ es) h = elim (Bool-cases (e.key == key)) [
  | inl same ↦ absurd (cc)
  | inr other ↦ (ground arith, Differ-find_key key es (rw (other) at h))
]

pub Says-write_text :
    (key : ℕ) (text : Text) (es : List Entry) (e : Entry)
    → find_key key es ≡ some e
    → Says key text es (write_text key text es)
unfolding find_key write_text
Says-write_text key text [] e found = absurd (cc)
Says-write_text key text (d ∷ es) e found = elim (Bool-cases (d.key == key)) [
  | inl same ↦ (ground arith, λ k apart. ground arith)
  | inr other ↦
      let ih = Says-write_text key text es e (rw (other) at found) in
      (ground (arith, ih.0), λ k apart. ground (arith, ih.1 k apart))
]

pub Says-cons : (e : Entry) (es : List Entry) → Says e.key e.text es (e ∷ es)
Says-cons e es = (ground arith, λ k apart. ground arith)

pub lookup-delete_key :
    (key : ℕ) (es : List Entry)
    → IsKeyed es
    → (lookup key (delete_key key es) ≡ none)
      × ((k : ℕ) → k ≢ key → lookup k (delete_key key es) ≡ lookup k es)
unfolding find_key delete_key
lookup-delete_key key [] h = (refl, λ k apart. refl)
lookup-delete_key key (e ∷ es) h = elim (Bool-cases (e.key == key)) [
  | inl same ↦ (ground (arith, lookup-Differ key es), λ k apart. ground arith)
  | inr other ↦
      let ih = lookup-delete_key key es h.1 in
      (ground (arith, ih.0), λ k apart. ground (arith, ih.1 k apart))
]

Differ-write_text :
    (k key : ℕ) (text : Text) (es : List Entry) → Differ k es → Differ k (write_text key text es)
unfolding write_text
Differ-write_text k key text [] h = tt
Differ-write_text k key text (e ∷ es) h = ground (arith, Differ-write_text k key text es)

pub write_text-IsKeyed :
    (key : ℕ) (text : Text) (es : List Entry) → IsKeyed es → IsKeyed (write_text key text es)
unfolding write_text
write_text-IsKeyed key text [] h = tt
write_text-IsKeyed key text (e ∷ es) h =
    ground (arith, Differ-write_text e.key key text es, write_text-IsKeyed key text es)

Differ-delete_key : (k key : ℕ) (es : List Entry) → Differ k es → Differ k (delete_key key es)
unfolding delete_key
Differ-delete_key k key [] h = tt
Differ-delete_key k key (e ∷ es) h = ground (arith, Differ-delete_key k key es)

delete_key-IsKeyed : (key : ℕ) (es : List Entry) → IsKeyed es → IsKeyed (delete_key key es)
unfolding delete_key
delete_key-IsKeyed key [] h = tt
delete_key-IsKeyed key (e ∷ es) h =
    ground (arith, Differ-delete_key e.key key es, delete_key-IsKeyed key es)

-- What a call on one list answers and leaves, for a list in which the keys differ.
pub data Removed (key : ℕ) (es : List Entry) (r : Status × Table) : Type 0 where
  gone :
      r.0 ≡ success
      → lookup key es ≢ none
      → lookup key r.1.1 ≡ none
      → ((k : ℕ) → k ≢ key → lookup k r.1.1 ≡ lookup k es)
      → Removed key es r
  never_there : r.0 ≡ failed enodev → lookup key es ≡ none → r.1.1 ≡ es → Removed key es r

pub data Put (key : ℕ) (text : Text) (es : List Entry) (r : Status × Table) : Type 0 where
  written : r.0 ≡ success → Says key text es r.1.1 → Put key text es r
  no_memory : r.0 ≡ failed enomem → lookup key es ≡ none → r.1.1 ≡ es → Put key text es r

pub data Reset (key : ℕ) (text : Text) (es : List Entry) (r : Status × Table) : Type 0 where
  written : r.0 ≡ success → lookup key es ≢ none → Says key text es r.1.1 → Reset key text es r
  not_there : r.0 ≡ failed enodev → lookup key es ≡ none → r.1.1 ≡ es → Reset key text es r

pub found-lookup :
    (key : ℕ) (es : List Entry) (e : Entry) → find_key key es ≡ some e → lookup key es ≢ none
found-lookup key es e found = λ nowhere. cc (lookup-find_key key es)

pub missing-lookup : (key : ℕ) (es : List Entry) → find_key key es ≡ none → lookup key es ≡ none
missing-lookup key es missing = cc (lookup-find_key key es)

module _ (key : ℕ) (mm : Mm) (es : List Entry) (ok : IsKeyed es) where
  pub remove_entry_outcome :
      Removed key es (remove_entry key (mm, es)) × IsKeyed (remove_entry key (mm, es)).1.1
  unfolding remove_entry
  remove_entry_outcome = elim (Option-cases (find_key key es)) [
    | inl missing ↦
        rw (remove_entry, missing)
          (Removed.never_there refl (missing-lookup key es missing) refl, ok)
    | inr (e, found) ↦
        let (at, apart) = lookup-delete_key key es ok in
        rw (remove_entry, found)
          (Removed.gone refl (found-lookup key es e found) at apart, delete_key-IsKeyed key es ok)
  ]

  pub put_entry_outcome :
      (ftruncate : ℕ → Bool) (size room : ℕ) (text : Text)
      → let r = put_entry ftruncate size room key text (mm, es) in
        Put key (copy_text room text) es r × IsKeyed r.1.1
  unfolding put_entry add_entry
  put_entry_outcome ftruncate size room text = elim (Option-cases (find_key key es)) [
    | inr (e, found) ↦
        rw (put_entry, found)
          (
            Put.written refl (Says-write_text key (copy_text room text) es e found),
            write_text-IsKeyed key (copy_text room text) es ok,
          )
    | inl missing ↦ elim (Bool-cases ((mm_alloc ftruncate size mm).0 == mm_null)) [
      | inl null ↦
          rw (put_entry, missing, null)
            (Put.no_memory refl (missing-lookup key es missing) refl, ok)
      | inr live ↦
          let new : Entry = record {
            ptr = (mm_alloc ftruncate size mm).0;
            key = key;
            text = copy_text room text;
          } in
          rw (put_entry, missing, live)
            (Put.written refl (Says-cons new es), (Differ-find_key key es missing, ok))
    ]
  ]

  pub reset_entry_outcome :
      (room : ℕ) (text : Text)
      → let r = reset_entry room key text (mm, es) in
        Reset key (copy_text room text) es r × IsKeyed r.1.1
  unfolding reset_entry
  reset_entry_outcome room text = elim (Option-cases (find_key key es)) [
    | inl missing ↦
        rw (reset_entry, missing) (Reset.not_there refl (missing-lookup key es missing) refl, ok)
    | inr (e, found) ↦
        rw (reset_entry, found)
          (
            Reset.written refl (found-lookup key es e found)
                (Says-write_text key (copy_text room text) es e found),
            write_text-IsKeyed key (copy_text room text) es ok,
          )
  ]
