-- ===== src/Mm/Realloc.antt =====
-- mm_realloc: what becomes of the area and of the bytes of the chunk.
use lisa_user.Base.{
  ℕ, ◌+◌, ◌-◌, ◌≤◌, ◌<◌, ◌≡◌, ◌≢◌, refl, ap, ◌∙◌, List, [], ◌∷◌, true, false, arith, ◌==◌,
  if◌then◌else◌, inl, inr, Bool-cases, Bool, leb, u64, if-keep, if-split, Option, none, some, ◌⊎◌,
  sym, ◌&&◌, ◌||◌,
}
use lisa_user.Mm.{
  Chunk, Mm, mm_lock, mm_unlock, size_at, has_header, can_copy, resize_at, copy_bytes, mm_alloc,
  mm_free, mm_realloc, shared_size, chunk_size, mm_null,
}
use mathlib.Core.Path.{subst}
use lisa_user.Mm.Arena.{Fits, Fits-le, IsArena, mm_lock_lem}
use lisa_user.Mm.Alloc.{Inserts, Handed, mm_alloc_outcome}
use lisa_user.Mm.Free.{Fits-weaken, mm_free-IsArena}

resize_at-Fits :
    (start size last : ℕ) (cs : List Chunk) (area_end : ℕ)
    → chunk_size < size
    → size ≤ size_at start cs
    → Fits last cs area_end
    → Fits last (resize_at start size cs) area_end
unfolding size_at resize_at
resize_at-Fits start size last [] e big le h = h
resize_at-Fits start size last (c ∷ cs) e big le h = ground (
  arith,
  resize_at-Fits start size (c.start + c.size) cs e,
  Fits-weaken (c.start + size) (c.start + c.size) cs e,
)

mm_alloc-none :
    (ftruncate : ℕ → Bool) (size : ℕ) (mm : Mm)
    → (size == 0) ≡ true
    → mm_alloc ftruncate size mm ≡ (mm_null, mm)
unfolding mm_alloc
mm_alloc-none ftruncate size mm nothing = rw (nothing) refl

pub mm_alloc-IsArena :
    (ftruncate : ℕ → Bool) (size : ℕ) (mm : Mm)
    → IsArena mm
    → size < 4294967296
    → ((n : ℕ) → ftruncate n ≡ true → n < 4294967296)
    → IsArena (mm_alloc ftruncate size mm).1
mm_alloc-IsArena ftruncate size mm ok small limit = elim (Bool-cases (size == 0)) [
  | inl nothing ↦ rw (mm_alloc-none ftruncate size mm nothing) ok
  | inr something ↦ elim (mm_alloc_outcome ftruncate size mm ok (ground arith) small limit) [
    | inl handed ↦ handed.arena
    | inr refused ↦ rw (refused.same) ok
  ]
]

unlocked : (mm : Mm) → IsArena mm → IsArena (mm_unlock mm)
unfolding mm_unlock
unlocked mm ok = ok

-- what holds of a result that is defined
abbrev pub IfDefined : (ℕ × Mm → Type 0) → Option (ℕ × Mm) → Type 0
IfDefined P none = Unit
IfDefined P (some r) = P r

-- mm_realloc, where it does nothing undefined, leaves an area that is in order in order, on every
-- branch, where the area cannot grow to 4 GB or more.
pub mm_realloc-IsArena :
    (ftruncate : ℕ → Bool) (stays : Bool) (ptr size : ℕ) (mm : Mm)
    → IsArena mm
    → size < 4294967296
    → ((n : ℕ) → ftruncate n ≡ true → n < 4294967296)
    → IfDefined (λ r. IsArena r.1) (mm_realloc ftruncate stays ptr size mm)
unfolding mm_realloc
mm_realloc-IsArena ftruncate stays ptr size mm ok small limit =
    let start = ptr - chunk_size in
    let locked = record mm { lock = mm.lock + 1 } in
    let moved = mm_alloc ftruncate size locked in
    let copied = record (moved.1) {
      bytes = copy_bytes moved.0 ptr (size_at start moved.1.chunks) moved.1.bytes;
    } in
    let allocated = mm_alloc-IsArena ftruncate size locked ok small limit in
    let real : u64 (size + chunk_size) ≡ size + chunk_size = omega arith in
    let Q : Option (ℕ × Mm) → Type 0 = IfDefined (λ r. IsArena r.1) in
    rw (mm_lock_lem mm (ok.0, ok.1), real)
      (if-keep Q (ptr == mm_null) _ _ (mm_alloc-IsArena ftruncate size mm ok small limit) (
        if-split Q (size == 0) _ _ (λ nothing. mm_free-IsArena ptr mm ok)
          (λ something.
            if-split Q (leb (size + chunk_size) (size_at start mm.chunks)) _ _
              (λ shorter. unlocked _ (
                ok.0,
                ok.1,
                resize_at-Fits start (size + chunk_size) (shared_size + mm.static_size) mm.chunks
                    mm.mapped_size (ground arith) (ground arith) ok.2,
              ))
              (λ longer.
                if-keep Q ((mm_alloc ftruncate size locked).0 == mm_null) _ _
                  (unlocked (mm_alloc ftruncate size locked).1 allocated)
                  (if-keep Q
                    ((stays || (moved.1.mapped_size == mm.mapped_size))
                      && can_copy moved.0 ptr (size_at start moved.1.chunks) moved.1)
                    (some (moved.0, mm_unlock (mm_free ptr copied))) none
                    (unlocked (mm_free ptr copied) (mm_free-IsArena ptr copied allocated)) tt)))))

size_at-below :
    (start last : ℕ) (cs : List Chunk) (area_end : ℕ)
    → start < last
    → Fits last cs area_end
    → size_at start cs ≡ 0
unfolding size_at
size_at-below start last [] e below h = refl
size_at-below start last (c ∷ cs) e below h =
    ground (arith, size_at-below start (c.start + c.size) cs e)

size_at-Inserts :
    (start : ℕ) (c : Chunk) (last : ℕ) {cs ds : List Chunk} (area_end : ℕ)
    → size_at start cs ≢ 0
    → Inserts c cs ds
    → Fits last ds area_end
    → size_at start ds ≡ size_at start cs
unfolding size_at
size_at-Inserts start c last {ds = []} e live i h = elim i [ ]
size_at-Inserts start c last {ds = d ∷ ds} e live Inserts.here h =
    ground (arith, size_at-below start (d.start + d.size) ds e)
size_at-Inserts start c last {ds = d ∷ ds} e live (Inserts.there i) h =
    ground
      (arith, λ (l : size_at start _ ≢ 0). size_at-Inserts start c (d.start + d.size) e l i h.2)

-- A chunk that has to move: all of its real size is copied.
moved_bytes :
    {size : ℕ} {mm : Mm} {r : ℕ × Mm} (ptr i : ℕ)
    → Handed size mm r
    → i < size_at (ptr - chunk_size) mm.chunks
    → copy_bytes r.0 ptr (size_at (ptr - chunk_size) r.1.chunks) r.1.bytes (r.0 + i)
      ≡ mm.bytes (ptr + i)
unfolding copy_bytes
moved_bytes {size} {mm} {r} ptr i h within =
    let same =
      size_at-Inserts (ptr - chunk_size) (record { start = h.start; size = chunk_size + size })
        (shared_size + r.1.static_size) r.1.mapped_size (omega arith) h.inserted h.arena.2 in
    rw (same, h.same_bytes) (ground arith)

freed_bytes : (ptr : ℕ) (mm : Mm) → (mm_unlock (mm_free ptr mm)).bytes ≡ mm.bytes
unfolding mm_unlock mm_free mm_lock
freed_bytes ptr mm = ground arith

has_header-above :
    (from to last : ℕ) (cs : List Chunk) (area_end : ℕ)
    → to ≤ last
    → Fits last cs area_end
    → has_header from to cs ≡ false
unfolding has_header
has_header-above from to last [] e above h = refl
has_header-above from to last (c ∷ cs) e above h =
    ground (arith, has_header-above from to (c.start + c.size) cs e (omega arith) h.2)

Inserts-above :
    (c : Chunk) (last : ℕ) {cs ds : List Chunk} (area_end : ℕ)
    → Inserts c cs ds
    → Fits last ds area_end
    → last ≤ c.start
Inserts-above c last {ds = []} e i h = elim i [ ]
Inserts-above c last {ds = d ∷ ds} e Inserts.here h = h.0
Inserts-above c last {ds = d ∷ ds} e (Inserts.there i) h =
    omega (arith, Inserts-above c (d.start + d.size) e i h.2)

-- No header begins inside of a chunk, behind its own.
has_header-inside :
    (c : Chunk) (to last : ℕ) {cs ds : List Chunk} (area_end : ℕ)
    → to ≤ c.start + c.size
    → Inserts c cs ds
    → Fits last ds area_end
    → has_header (c.start + chunk_size) to ds ≡ false
unfolding has_header
has_header-inside c to last {ds = []} e within i h = elim i [ ]
has_header-inside c to last {ds = d ∷ ds} e within Inserts.here h =
    ground (arith, has_header-above (c.start + chunk_size) to (c.start + c.size) ds e within h.2)
has_header-inside c to last {ds = d ∷ ds} e within (Inserts.there i) h = ground (
  arith,
  Inserts-above c (d.start + d.size) e i h.2,
  has_header-inside c to (d.start + d.size) e within i h.2,
)

Inserts-end :
    (c : Chunk) (last : ℕ) {cs ds : List Chunk} (area_end : ℕ)
    → Inserts c cs ds
    → Fits last ds area_end
    → c.start + c.size ≤ area_end
Inserts-end c last {ds = []} e i h = elim i [ ]
Inserts-end c last {ds = d ∷ ds} e Inserts.here h = Fits-le (c.start + c.size) ds e h.2
Inserts-end c last {ds = d ∷ ds} e (Inserts.there i) h = Inserts-end c (d.start + d.size) e i h.2

-- What mm_alloc gives has room for a chunk that is not larger.
can_copy-Handed :
    {size : ℕ} {mm : Mm} {r : ℕ × Mm} (ptr n : ℕ)
    → Handed size mm r
    → n ≤ size
    → ptr + n ≤ r.1.mapped_size
    → can_copy r.0 ptr n r.1 ≡ true
unfolding can_copy
can_copy-Handed {size} {mm} {r} ptr n h fits readable =
    let c : Chunk = record { start = h.start; size = chunk_size + size } in
    let last = shared_size + r.1.static_size in
    let area_end = r.1.mapped_size in
    let ends = Inserts-end c last area_end h.inserted h.arena.2 in
    let off =
      has_header-inside c (r.0 + n) last area_end (omega (arith, h.pointer)) h.inserted h.arena.2 in
    let at : r.0 ≡ h.start + chunk_size = omega (arith, h.pointer) in
    let clear : has_header r.0 (r.0 + n) r.1.chunks ≡ false =
      subst (λ x. has_header x (r.0 + n) r.1.chunks ≡ false) (sym at) off in
    let within : leb (r.0 + n) area_end ≡ true = ground arith in
    let behind : leb (ptr + n) area_end ≡ true = ground arith in rw (within, behind, clear) refl

-- A result, which keeps the bytes of the chunk if it is not NULL.
abbrev pub Keeps : ℕ → ℕ → Mm → Option (ℕ × Mm) → Type 0
Keeps ptr size mm none = ⊥
Keeps ptr size mm (some r) =
    r.0 ≢ mm_null
    → (i : ℕ) → i + chunk_size < size_at (ptr - chunk_size) mm.chunks
    → i < size
    → r.1.bytes (r.0 + i) ≡ mm.bytes (ptr + i)

module _ (ftruncate : ℕ → Bool) (ptr size : ℕ) (mm : Mm) (given : ptr ≢ mm_null)
    (some_size : size ≢ 0) (small : size < 4294967296) where
  -- mm_realloc without its shortcuts, where the area stays.
  realloc_lem :
      let start = ptr - chunk_size in
      let allocated = mm_alloc ftruncate size (mm_lock mm) in
      let old_size = size_at start allocated.1.chunks in
      mm_realloc ftruncate true ptr size mm ≡ (
        if leb (size + chunk_size) (size_at start mm.chunks)
        then some (
          ptr,
          mm_unlock
              (record (mm_lock mm) { chunks = resize_at start (size + chunk_size) mm.chunks }),
        )
        else if allocated.0 == mm_null
        then some (mm_null, mm_unlock allocated.1)
        else if can_copy allocated.0 ptr old_size allocated.1
        then some (
          allocated.0,
          mm_unlock (
              mm_free ptr (record (allocated.1) {
                bytes = copy_bytes allocated.0 ptr old_size allocated.1.bytes;
              })),
        )
        else none)
  unfolding mm_realloc
  realloc_lem =
      let not_null : (ptr == mm_null) ≡ false = ground arith in
      let not_zero : (size == 0) ≡ false = ground arith in
      let real : u64 (size + chunk_size) ≡ size + chunk_size = omega arith in
      rw (not_null, not_zero, real) refl

  realloc_stays :
      leb (size + chunk_size) (size_at (ptr - chunk_size) mm.chunks) ≡ true
      → Keeps ptr size mm (mm_realloc ftruncate true ptr size mm)
  unfolding mm_lock mm_unlock
  realloc_stays enough = rw (realloc_lem, enough) (λ live i within fits. refl)

  realloc_fails :
      leb (size + chunk_size) (size_at (ptr - chunk_size) mm.chunks) ≡ false
      → (mm_alloc ftruncate size (mm_lock mm)).0 ≡ mm_null
      → Keeps ptr size mm (mm_realloc ftruncate true ptr size mm)
  realloc_fails longer null = rw (realloc_lem, longer, null) (λ live. absurd (live refl))

  realloc_moves :
      (allocated : ℕ × Mm)
      → mm_alloc ftruncate size (mm_lock mm) ≡ allocated
      → leb (size + chunk_size) (size_at (ptr - chunk_size) mm.chunks) ≡ false
      → Handed size (record mm { lock = mm.lock + 1 }) allocated
      → size_at (ptr - chunk_size) mm.chunks ≡ size_at (ptr - chunk_size) allocated.1.chunks
      → size_at (ptr - chunk_size) mm.chunks ≤ size
      → ptr + size_at (ptr - chunk_size) mm.chunks ≤ allocated.1.mapped_size
      → Keeps ptr size mm (mm_realloc ftruncate true ptr size mm)
  realloc_moves allocated same longer handed old fits readable =
      let live : (allocated.0 == mm_null) ≡ false = ground (arith, handed.pointer) in
      let copy =
        can_copy-Handed ptr (size_at (ptr - chunk_size) allocated.1.chunks) handed
          (omega (arith, old)) (omega (arith, old)) in
      rw (realloc_lem, longer, same, live, copy)
        (λ not_null i within below.
          ap (λ b. b (allocated.0 + i)) (freed_bytes ptr _)
          ∙ moved_bytes ptr i handed (omega arith))

module _ (ftruncate : ℕ → Bool) (ptr size : ℕ) (mm : Mm) (ok : IsArena mm) (given : ptr ≢ mm_null)
    (some_size : size ≢ 0) (small : size < 4294967296)
    (limit : (n : ℕ) → ftruncate n ≡ true → n < 4294967296) where
  -- mm_realloc keeps what is stored in a chunk. Where the area stays where it is mapped, the area has
  -- the size of a header behind the chunk, and the chunk is not to grow by less than a header: it
  -- does nothing undefined, and if its result is not NULL, each byte of the old chunk that also lies
  -- in the new one has its value there, moved or not.
  pub mm_realloc-Keeps :
      size_at (ptr - chunk_size) mm.chunks ≢ 0
      → ptr + size_at (ptr - chunk_size) mm.chunks ≤ mm.mapped_size
      → (size + chunk_size ≤ size_at (ptr - chunk_size) mm.chunks)
        ⊎ (size_at (ptr - chunk_size) mm.chunks ≤ size)
      → Keeps ptr size mm (mm_realloc ftruncate true ptr size mm)
  mm_realloc-Keeps live readable (inl shorter) =
      realloc_stays ftruncate ptr size mm given some_size small (ground arith)
  mm_realloc-Keeps live readable (inr longer) =
      let m = record mm { lock = mm.lock + 1 } in
      let lock : mm_alloc ftruncate size (mm_lock mm) ≡ mm_alloc ftruncate size m =
        rw (mm_lock_lem mm (ok.0, ok.1)) refl in
      elim (mm_alloc_outcome ftruncate size m ok some_size small limit) [
        | inl handed ↦
            let r = mm_alloc ftruncate size m in
            let same =
              size_at-Inserts (ptr - chunk_size)
                (record { start = handed.start; size = chunk_size + size })
                (shared_size + r.1.static_size) r.1.mapped_size live handed.inserted
                handed.arena.2 in
            realloc_moves ftruncate ptr size mm given some_size small r lock (ground arith) handed
              (sym same) longer (omega (arith, handed.grown))
        | inr refused ↦
            realloc_fails ftruncate ptr size mm given some_size small (ground arith)
              (ap (λ (r : ℕ × Mm). r.0) lock ∙ refused.null)
      ]
