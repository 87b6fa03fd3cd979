-- ===== src/Mm/Alloc.antt =====
-- What mm_alloc hands out.
use lisa_user.Base.{
  ℕ, ◌+◌, ◌-◌, ◌≤◌, ◌<◌, ◌≡◌, ◌≢◌, refl, List, [], ◌∷◌, ◌++◌, Option, none, some, Bool, true, false,
  arith, u32, u64, ltb, ◌==◌, leb, if◌then◌else◌, Bool-cases, Option-cases, inl, inr, ◌⊎◌,
}
use lisa_user.Mm.{
  Chunk, Mm, mm_unlock, find_gap, find_end, mm_extend, alloc_last, mm_alloc, behind, shared_size,
  chunk_size, mm_null,
}
use lisa_user.Mm.Arena.{
  Agrees, mm_lock_lem, mm_unlock-lock, Fits, IsArena, Fits-le, end_of, end_of-le, le-end_of,
}

-- A list with one chunk more, anywhere.
pub data Inserts (c : Chunk) : List Chunk → List Chunk → Type 0 where
  here : {cs : List Chunk} → Inserts c cs (c ∷ cs)
  there : {d : Chunk} {cs ds : List Chunk} → Inserts c cs ds → Inserts c (d ∷ cs) (d ∷ ds)

abbrev GapFound : ℕ → ℕ → ℕ → List Chunk → Option (ℕ × List Chunk) → Type 0
GapFound real_size last area_end cs none = Unit
GapFound real_size last area_end cs (some (at, ds)) =
    Fits last ds area_end × Inserts (record { start = at; size = real_size }) cs ds

GapFound-behind :
    (real_size last : ℕ) (c : Chunk) (cs : List Chunk) (area_end : ℕ) (o : Option (ℕ × List Chunk))
    → last ≤ c.start
    → chunk_size < c.size
    → GapFound real_size (c.start + c.size) area_end cs o
    → GapFound real_size last area_end (c ∷ cs) (behind c o)
GapFound-behind r last c cs e none le big h = tt
GapFound-behind r last c cs e (some (at, ds)) le big h = ((le, big, h.0), Inserts.there h.1)

find_gap-Fits :
    (real_size last : ℕ) (cs : List Chunk) (area_end : ℕ)
    → chunk_size < real_size
    → area_end < 4294967296
    → Fits last cs area_end
    → GapFound real_size last area_end cs (find_gap real_size last cs)
unfolding find_gap
find_gap-Fits r last [] e big small h = tt
find_gap-Fits r last (c ∷ cs) e big small h =
    let le = Fits-le (c.start + c.size) cs e h.2 in
    let same : u32 (c.start + c.size) ≡ c.start + c.size = omega arith in
    elim (Bool-cases (ltb (u32 (c.start + 4294967296 - last)) r)) [
      | inl narrow ↦
          rw (narrow, same)
            (GapFound-behind r last c cs e (find_gap r (c.start + c.size) cs) h.0 h.1
              (find_gap-Fits r (c.start + c.size) cs e big small h.2))
      | inr wide ↦ rw (wide) ((omega arith, big, (ground arith, h.1, h.2)), Inserts.here)
    ]

find_end-end_of :
    (last : ℕ) (cs : List Chunk) (area_end : ℕ)
    → area_end < 4294967296
    → Fits last cs area_end
    → find_end last cs ≡ end_of last cs
unfolding find_end
find_end-end_of last [] e small h = refl
find_end-end_of last (c ∷ cs) e small h =
    let le = Fits-le (c.start + c.size) cs e h.2 in
    let same : u32 (c.start + c.size) ≡ c.start + c.size = omega arith in
    rw (same) (find_end-end_of (c.start + c.size) cs e small h.2)

Fits-append :
    (last : ℕ) (cs : List Chunk) (area_end : ℕ) (size new_end : ℕ)
    → Fits last cs area_end
    → chunk_size < size
    → end_of last cs + size ≤ new_end
    → Fits last (cs ++ (record { start = end_of last cs; size = size } ∷ [])) new_end
Fits-append last [] e size new_end h big fits = omega arith
Fits-append last (c ∷ cs) e size new_end h big fits =
    (h.0, h.1, Fits-append (c.start + c.size) cs e size new_end h.2 big fits)

pub Inserts-le :
    (c : Chunk) {cs ds : List Chunk} (last area_end : ℕ)
    → Inserts c cs ds
    → Fits last ds area_end
    → (last ≤ c.start) × (c.start + c.size ≤ area_end)
Inserts-le c {ds = []} last e i h = elim i [ ]
Inserts-le c {ds = d ∷ ds} last e Inserts.here h =
    omega (arith, Fits-le (d.start + d.size) ds e h.2)
Inserts-le c {ds = d ∷ ds} last e (Inserts.there i) h =
    omega (arith, Inserts-le c (d.start + d.size) e i h.2)

Inserts-append : (c : Chunk) (cs : List Chunk) → Inserts c cs (cs ++ (c ∷ []))
Inserts-append c [] = Inserts.here
Inserts-append c (d ∷ cs) = Inserts.there (Inserts-append c cs)

mm_extend_lem :
    (ftruncate : ℕ → Bool) (size : ℕ) (mm : Mm)
    → Agrees mm
    → size ≢ 0
    → size < 9223372036854775808
    → mm_extend ftruncate size mm ≡ (
        if ftruncate (mm.mapped_size + size)
        then (
          false,
          record mm { mapped_size = mm.mapped_size + size; dynamic_size = mm.dynamic_size + size },
        )
        else (true, mm))
unfolding mm_extend
mm_extend_lem ftruncate size mm h pos small = ground arith

-- A chunk behind the last one, and the area with it extended if it has to be.
abbrev last_chunk : ℕ → Mm → Chunk
last_chunk real_size mm = record {
  start = end_of (shared_size + mm.static_size) mm.chunks;
  size = real_size;
}

abbrev with_last : ℕ → Mm → Mm
with_last real_size mm = record mm { chunks = mm.chunks ++ (last_chunk real_size mm ∷ []) }

abbrev extended_to : ℕ → Mm → Mm
extended_to area_end mm = record mm {
  mapped_size = area_end;
  dynamic_size = area_end - (shared_size + mm.static_size);
}

alloc_last_lem :
    (ftruncate : ℕ → Bool) (real_size : ℕ) (mm : Mm)
    → Agrees mm
    → Fits (shared_size + mm.static_size) mm.chunks mm.mapped_size
    → real_size < 9223372036854775808
    → let chunk_end = end_of (shared_size + mm.static_size) mm.chunks + real_size in
      alloc_last ftruncate real_size mm ≡ (
        if leb chunk_end mm.mapped_size
        then (
          u32 ((last_chunk real_size mm).start + chunk_size),
          mm_unlock (with_last real_size mm),
        )
        else if ftruncate chunk_end
        then (
          u32 ((last_chunk real_size mm).start + chunk_size),
          mm_unlock (extended_to chunk_end (with_last real_size mm)),
        )
        else (mm_null, mm_unlock mm))
unfolding alloc_last
alloc_last_lem ftruncate r mm ok h small =
    let base = shared_size + mm.static_size in
    let same_base : u32 base ≡ base = omega arith in
    let same_end : find_end base mm.chunks ≡ end_of base mm.chunks =
      find_end-end_of base mm.chunks mm.mapped_size ok.1 h in
    let within = end_of-le base mm.chunks mm.mapped_size h in
    rw (same_base, same_end) (ground arith)

-- What a successful allocation of `size` bytes makes of the area: a new chunk at the place of the
-- pointer, all others where they were, and the area in order.
pub record Handed (size : ℕ) (mm : Mm) (r : ℕ × Mm) : Type 0 where
  pub start : ℕ
  pub pointer : r.0 ≡ start + chunk_size
  pub inserted : Inserts (record { start = start; size = chunk_size + size }) mm.chunks r.1.chunks
  pub arena : IsArena (r.1)
  pub same_lock : r.1.lock ≡ mm.lock
  pub same_static : r.1.static_size ≡ mm.static_size
  pub same_bytes : r.1.bytes ≡ mm.bytes
  pub grown : mm.mapped_size ≤ r.1.mapped_size

-- A refusal: the area is as it was, and could not be given some larger size.
pub record Refused (ftruncate : ℕ → Bool) (mm : Mm) (r : ℕ × Mm) : Type 0 where
  pub null : r.0 ≡ mm_null
  pub same : r.1 ≡ mm
  pub wanted : ℕ
  pub larger : mm.mapped_size < wanted
  pub cannot : ftruncate wanted ≡ false

abbrev AllocOutcome : (ℕ → Bool) → ℕ → Mm → ℕ × Mm → Type 0
AllocOutcome ftruncate size mm r = Handed size mm r ⊎ Refused ftruncate mm r

alloc_in_gap :
    (size last : ℕ) (ds : List Chunk) (mm : Mm)
    → Agrees mm
    → size ≢ 0
    → Fits (shared_size + mm.static_size) ds mm.mapped_size
    → Inserts (record { start = last; size = chunk_size + size }) mm.chunks ds
    → last + chunk_size < 4294967296
    → Handed size mm
        (u32 (last + chunk_size), mm_unlock (record mm { lock = mm.lock + 1; chunks = ds }))
unfolding mm_unlock
alloc_in_gap size last ds mm ok pos h ins small = record {
  start = last;
  pointer = omega arith;
  inserted = ins;
  arena = (ok.0, ok.1, h);
  same_lock = omega arith;
  same_static = refl;
  grown = omega arith;
  same_bytes = refl;
}

alloc_at_end :
    (size : ℕ) (mm : Mm)
    → IsArena mm
    → size ≢ 0
    → end_of (shared_size + mm.static_size) mm.chunks + (chunk_size + size) ≤ mm.mapped_size
    → let m = record mm { lock = mm.lock + 1 } in
      Handed size mm (
        u32 ((last_chunk (chunk_size + size) m).start + chunk_size),
        mm_unlock (with_last (chunk_size + size) m),
      )
unfolding mm_unlock
alloc_at_end size mm ok pos within = record {
  start = end_of (shared_size + mm.static_size) mm.chunks;
  pointer = omega arith;
  inserted = Inserts-append _ mm.chunks;
  arena = (
    ok.0,
    ok.1,
    Fits-append (shared_size + mm.static_size) mm.chunks mm.mapped_size (chunk_size + size)
        mm.mapped_size ok.2 (omega arith) within,
  );
  same_lock = omega arith;
  same_static = refl;
  grown = omega arith;
  same_bytes = refl;
}

alloc_extended :
    (size : ℕ) (mm : Mm)
    → IsArena mm
    → size ≢ 0
    → let chunk_end = end_of (shared_size + mm.static_size) mm.chunks + (chunk_size + size) in
      let m = record mm { lock = mm.lock + 1 } in
      chunk_end < 4294967296
      → mm.mapped_size < chunk_end
      → Handed size mm (
        u32 ((last_chunk (chunk_size + size) m).start + chunk_size),
        mm_unlock (extended_to chunk_end (with_last (chunk_size + size) m)),
      )
unfolding mm_unlock
alloc_extended size mm ok pos small beyond =
    let above = le-end_of (shared_size + mm.static_size) mm.chunks mm.mapped_size ok.2 in
    record {
      start = end_of (shared_size + mm.static_size) mm.chunks;
      pointer = omega arith;
      inserted = Inserts-append _ mm.chunks;
      arena = (
        omega arith,
        small,
        Fits-append (shared_size + mm.static_size) mm.chunks mm.mapped_size (chunk_size + size)
            (end_of (shared_size + mm.static_size) mm.chunks + (chunk_size + size)) ok.2
            (omega arith) (omega arith),
      );
      same_lock = omega arith;
      same_static = refl;
      grown = omega arith;
      same_bytes = refl;
    }

alloc_last_outcome :
    (ftruncate : ℕ → Bool) (size : ℕ) (mm : Mm)
    → IsArena mm
    → size ≢ 0
    → size < 4294967296
    → ((n : ℕ) → ftruncate n ≡ true → n < 4294967296)
    → AllocOutcome ftruncate size mm
        (alloc_last ftruncate (chunk_size + size) (record mm { lock = mm.lock + 1 }))
alloc_last_outcome ftruncate size mm ok pos small limit =
    let chunk_end = end_of (shared_size + mm.static_size) mm.chunks + (chunk_size + size) in
    let m = record mm { lock = mm.lock + 1 } in
    rw (alloc_last_lem ftruncate (chunk_size + size) m (ok.0, ok.1) ok.2 (omega arith))
      (elim (Bool-cases (leb chunk_end mm.mapped_size)) [
        | inl within ↦ rw (within) (inl (alloc_at_end size mm ok pos (ground arith)))
        | inr beyond ↦ rw (beyond) (elim (Bool-cases (ftruncate chunk_end)) [
          | inl can ↦
              rw (can) (inl (alloc_extended size mm ok pos (limit chunk_end can) (ground arith)))
          | inr cannot ↦ rw (cannot) (
              inr (record {
                null = refl;
                same = mm_unlock-lock mm;
                wanted = chunk_end;
                larger = ground arith;
                cannot = cannot;
              }))
        ])
      ])

-- mm_alloc in an area that is in order, of a size that is not 0, where the area cannot grow to 4 GB
-- or more: either it hands out a pointer behind the header of a new chunk, the other chunks stay
-- where they are, and the area is in order again; or it answers MM_NULL, nothing has changed, and
-- the area could not be extended.
pub mm_alloc_outcome :
    (ftruncate : ℕ → Bool) (size : ℕ) (mm : Mm)
    → IsArena mm
    → size ≢ 0
    → size < 4294967296
    → ((n : ℕ) → ftruncate n ≡ true → n < 4294967296)
    → Handed size mm (mm_alloc ftruncate size mm)
      ⊎ Refused ftruncate mm (mm_alloc ftruncate size mm)
unfolding mm_alloc
mm_alloc_outcome ftruncate size mm ok pos small limit =
    let base = shared_size + mm.static_size in
    let same_base : u32 base ≡ base = omega (arith, Fits-le base mm.chunks mm.mapped_size ok.2) in
    let same_size : u64 (chunk_size + size) ≡ chunk_size + size = omega arith in
    let some_size : (size == 0) ≡ false = ground arith in
    rw (mm_lock_lem mm (ok.0, ok.1), same_base, same_size, some_size)
      (elim (Option-cases (find_gap (chunk_size + size) base mm.chunks)) [
        | inl nowhere ↦ rw (nowhere) (alloc_last_outcome ftruncate size mm ok pos small limit)
        | inr ((last, ds), found) ↦
            let (h, i) = rw (found) at (
              find_gap-Fits (chunk_size + size) base mm.chunks mm.mapped_size (omega arith) ok.1
                ok.2) in
            let (below, above) =
              Inserts-le (record { start = last; size = chunk_size + size }) base mm.mapped_size i
                h in
            rw (found) (inl (alloc_in_gap size last ds mm (ok.0, ok.1) pos h i (omega arith)))
      ])
