-- ===== src/Switch/Owned.antt =====
-- The chunks that the lists own: each entry's pointer is that of a chunk of its own, and no chunk is
-- forgotten.
use lisa_user.Base.{
  ℕ, ◌+◌, ◌-◌, ◌<◌, ◌≡◌, ◌≢◌, refl, sym, ap, Bool, true, false, List, [], ◌∷◌, some, Text,
  copy_text, arith, if◌then◌else◌, ◌==◌, Bool-cases, Option-cases, inl, inr,
}
use lisa_user.Mm.{Chunk, Mm, mm_alloc, mm_free, mm_null, drop_chunk, chunk_size}
use lisa_user.Mm.Arena.{IsArena}
use lisa_user.Mm.Alloc.{Inserts, mm_alloc_outcome}
use lisa_user.Mm.Free.{mm_free_lem, mm_free-IsArena}
use lisa_user.Switch.Store.{Entry, Status, failed, enomem}
use lisa_user.Switch.Keyed.{
  Table, find_key, write_text, write_key, delete_key, remove_entry, add_entry, put_entry,
  reset_entry,
}

abbrev pub tally : ℕ → ℕ → ℕ
tally p q = if p == q then 1 else 0

-- how many entries have the pointer, and how many chunks
abbrev pub held : ℕ → List Entry → ℕ
held p [] = 0
held p (e ∷ es) = tally p e.ptr + held p es

abbrev pub handed_out : ℕ → List Chunk → ℕ
handed_out p [] = 0
handed_out p (c ∷ cs) = tally p (c.start + chunk_size) + handed_out p cs

-- What a call on one list has to keep: the area is in order, and the chunks that the list has
-- gained or lost are those that the area has.
abbrev pub Conserves : Table → Table → Type 0
Conserves (mm, es) (mm', es') =
    IsArena mm'
    × (mm'.lock ≡ mm.lock)
    × ((p : ℕ) → held p es' + handed_out p mm.chunks ≡ held p es + handed_out p mm'.chunks)

pub Conserves-refl : (t : Table) → IsArena (t.0) → Conserves t t
Conserves-refl (mm, es) ok = (ok, refl, λ p. refl)

pub handed_out-Inserts :
    (p : ℕ) (c : Chunk) {cs ds : List Chunk}
    → Inserts c cs ds
    → handed_out p ds ≡ tally p (c.start + chunk_size) + handed_out p cs
handed_out-Inserts p c {ds = []} i = elim i [ ]
handed_out-Inserts p c {ds = d ∷ ds} Inserts.here = refl
handed_out-Inserts p c {ds = d ∷ ds} (Inserts.there i) = omega (arith, handed_out-Inserts p c i)

pub handed_out-drop_chunk :
    (p start : ℕ) (cs : List Chunk)
    → handed_out (start + chunk_size) cs ≢ 0
    → tally p (start + chunk_size) + handed_out p (drop_chunk start cs) ≡ handed_out p cs
unfolding drop_chunk
handed_out-drop_chunk p start [] live = absurd (live refl)
handed_out-drop_chunk p start (c ∷ cs) live = elim (Bool-cases (start == c.start)) [
  | inl same ↦ ground arith
  | inr other ↦ ground (arith, handed_out-drop_chunk p start cs)
]

small-handed_out : (p : ℕ) (cs : List Chunk) → p < chunk_size → handed_out p cs ≡ 0
small-handed_out p [] low = refl
small-handed_out p (c ∷ cs) low = ground (arith, small-handed_out p cs low)

pub held-delete_key :
    (p key : ℕ) (es : List Entry) (e : Entry)
    → find_key key es ≡ some e
    → tally p e.ptr + held p (delete_key key es) ≡ held p es
unfolding find_key delete_key
held-delete_key p key [] e found = cc
held-delete_key p key (d ∷ es) e found = elim (Bool-cases (d.key == key)) [
  | inl same ↦
      let first : some d ≡ some e = rw (same) at found in
      let is_first : d ≡ e = cc in
      rw (same) (ap (λ (x : Entry). tally p x.ptr + held p es) (sym is_first))
  | inr other ↦ rw (other) (omega (arith, held-delete_key p key es e (rw (other) at found)))
]

pub held-write_text :
    (p key : ℕ) (text : Text) (es : List Entry) → held p (write_text key text es) ≡ held p es
unfolding write_text
held-write_text p key text [] = refl
held-write_text p key text (e ∷ es) = ground (arith, held-write_text p key text es)

pub held-write_key :
    (p : ℕ) (text : Text) (key : ℕ) (es : List Entry) → held p (write_key text key es) ≡ held p es
unfolding write_key
held-write_key p text key [] = refl
held-write_key p text key (e ∷ es) = ground (arith, held-write_key p text key es)

pub held-find_key :
    (key : ℕ) (es : List Entry) (e : Entry) → find_key key es ≡ some e → held e.ptr es ≢ 0
held-find_key key es e found = ground (arith, held-delete_key e.ptr key es e found)

-- mm_free of the pointer that an entry holds.
free_entry :
    (e : Entry) (mm : Mm)
    → IsArena mm
    → handed_out e.ptr mm.chunks ≢ 0
    → IsArena (mm_free e.ptr mm)
      × ((mm_free e.ptr mm).lock ≡ mm.lock)
      × ((p : ℕ) → tally p e.ptr + handed_out p (mm_free e.ptr mm).chunks ≡ handed_out p mm.chunks)
free_entry e mm ok live =
    let high : (e.ptr - chunk_size) + chunk_size ≡ e.ptr =
      ground (arith, small-handed_out e.ptr mm.chunks) in
    let freed =
      mm_free_lem e.ptr mm (ok.0, ok.1) (omega (arith, small-handed_out e.ptr mm.chunks)) in
    (
      mm_free-IsArena e.ptr mm ok,
      ap (λ (m : Mm). m.lock) freed,
      λ p.
          rw (freed) (
            rw (high) at (handed_out-drop_chunk p (e.ptr - chunk_size) mm.chunks (rw (high) live))),
    )

pub remove_entry-Conserves :
    (key : ℕ) (mm : Mm) (es : List Entry)
    → IsArena mm
    → ((p : ℕ) → held p es ≢ 0 → handed_out p mm.chunks ≢ 0)
    → Conserves (mm, es) (remove_entry key (mm, es)).1
unfolding remove_entry
remove_entry-Conserves key mm es ok live = elim (Option-cases (find_key key es)) [
  | inl nowhere ↦ rw (remove_entry, nowhere) (Conserves-refl (mm, es) ok)
  | inr (e, found) ↦
      let (arena, lock, count) = free_entry e mm ok (live e.ptr (held-find_key key es e found)) in
      rw (remove_entry, found)
        (arena, lock, λ p. omega (arith, count p, held-delete_key p key es e found))
]

pub add_entry-Conserves :
    (ftruncate : ℕ → Bool) (size room : ℕ) (refusal : Status) (key : ℕ) (text : Text) (mm : Mm)
    (es : List Entry)
    → IsArena mm
    → size ≢ 0
    → size < 4294967296
    → ((n : ℕ) → ftruncate n ≡ true → n < 4294967296)
    → Conserves (mm, es) (add_entry ftruncate size room refusal key text (mm, es)).1
unfolding add_entry
add_entry-Conserves ftruncate size room refusal key text mm es ok pos small limit =
    elim (mm_alloc_outcome ftruncate size mm ok pos small limit) [
      | inl handed ↦
          let live : ((mm_alloc ftruncate size mm).0 == mm_null) ≡ false =
            ground (arith, handed.pointer) in
          rw (live) (
            handed.arena,
            handed.same_lock,
            λ p. rw (handed.pointer) (
                omega (
                  arith,
                  handed_out-Inserts p (record { start = handed.start; size = chunk_size + size })
                      handed.inserted,
                )),
          )
      | inr refused ↦ rw (refused.null, refused.same) (Conserves-refl (mm, es) ok)
    ]

module _ (ftruncate : ℕ → Bool) (limit : (n : ℕ) → ftruncate n ≡ true → n < 4294967296) (mm : Mm)
    (es : List Entry) (ok : IsArena mm) where
  pub put_entry-Conserves :
      (size room key : ℕ) (text : Text)
      → size ≢ 0
      → size < 4294967296
      → Conserves (mm, es) (put_entry ftruncate size room key text (mm, es)).1
  unfolding put_entry
  put_entry-Conserves size room key text pos small = elim (Option-cases (find_key key es)) [
    | inl nowhere ↦
        rw (put_entry, nowhere)
          (add_entry-Conserves ftruncate size room (failed enomem) key text mm es ok pos small
            limit)
    | inr (e, found) ↦
        rw (put_entry, found)
          (ok, refl, λ p. omega (arith, held-write_text p key (copy_text room text) es))
  ]

  pub reset_entry-Conserves :
      (room key : ℕ) (text : Text) → Conserves (mm, es) (reset_entry room key text (mm, es)).1
  unfolding reset_entry
  reset_entry-Conserves room key text = elim (Option-cases (find_key key es)) [
    | inl nowhere ↦ rw (reset_entry, nowhere) (Conserves-refl (mm, es) ok)
    | inr (e, found) ↦
        rw (reset_entry, found)
          (ok, refl, λ p. omega (arith, held-write_text p key (copy_text room text) es))
  ]
