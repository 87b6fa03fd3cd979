-- ===== src/Mm/Free.antt =====
-- mm_free, alone and after mm_alloc.
use lisa_user.Base.{
  ℕ, ◌+◌, ◌-◌, ◌≤◌, ◌<◌, ◌≡◌, ◌≢◌, List, [], ◌∷◌, true, false, arith, ◌==◌, inl, inr, Bool-cases,
  Bool,
}
use lisa_user.Mm.{Chunk, Mm, drop_chunk, mm_alloc, mm_free, shared_size, chunk_size, mm_null}
use lisa_user.Mm.Arena.{Fits, IsArena, Agrees, mm_lock_lem, mm_unlock-lock}
use lisa_user.Mm.Alloc.{Inserts, Inserts-le, Handed, mm_alloc_outcome}

pub Fits-weaken :
    (low last : ℕ) (cs : List Chunk) (area_end : ℕ)
    → low ≤ last
    → Fits last cs area_end
    → Fits low cs area_end
Fits-weaken low last [] e le h = omega arith
Fits-weaken low last (c ∷ cs) e le h = (omega arith, h.1, h.2)

drop_chunk-Fits :
    (start last : ℕ) (cs : List Chunk) (area_end : ℕ)
    → Fits last cs area_end
    → Fits last (drop_chunk start cs) area_end
unfolding drop_chunk
drop_chunk-Fits start last [] e h = h
drop_chunk-Fits start last (c ∷ cs) e h =
    ground (
      arith,
      Fits-weaken last (c.start + c.size) cs e,
      drop_chunk-Fits start (c.start + c.size) cs e,
    )

drop_chunk-Inserts :
    (c : Chunk) (last : ℕ) {cs ds : List Chunk} (area_end : ℕ)
    → Inserts c cs ds
    → Fits last ds area_end
    → drop_chunk c.start ds ≡ cs
unfolding drop_chunk
drop_chunk-Inserts c last {ds = []} e i h = elim i [ ]
drop_chunk-Inserts c last {ds = d ∷ ds} e Inserts.here h = ground arith
drop_chunk-Inserts c last {ds = d ∷ ds} e (Inserts.there i) h =
    let (below, above) = Inserts-le c (d.start + d.size) e i h.2 in
    ground (arith, drop_chunk-Inserts c (d.start + d.size) e i h.2)

pub mm_free_lem :
    (ptr : ℕ) (mm : Mm)
    → Agrees mm
    → ptr ≢ mm_null
    → mm_free ptr mm ≡ record mm { chunks = drop_chunk (ptr - chunk_size) mm.chunks }
unfolding mm_free
mm_free_lem ptr mm ok live =
    let not_null : (ptr == mm_null) ≡ false = ground arith in
    rw (not_null, mm_lock_lem mm ok)
      (mm_unlock-lock (record mm { chunks = drop_chunk (ptr - chunk_size) mm.chunks }))

-- mm_free leaves an area that is in order in order.
pub mm_free-IsArena : (ptr : ℕ) (mm : Mm) → IsArena mm → IsArena (mm_free ptr mm)
unfolding mm_free
mm_free-IsArena ptr mm ok = elim (Bool-cases (ptr == mm_null)) [
  | inl null ↦ rw (null) ok
  | inr live ↦
      rw
        (
          live,
          mm_lock_lem mm (ok.0, ok.1),
          mm_unlock-lock (record mm { chunks = drop_chunk (ptr - chunk_size) mm.chunks }),
        )
        (
          ok.0,
          ok.1,
          drop_chunk-Fits (ptr - chunk_size) (shared_size + mm.static_size) mm.chunks mm.mapped_size
              ok.2,
        )
]

freed_again :
    {size : ℕ} {mm : Mm} {r : ℕ × Mm}
    → Handed size mm r
    → ((mm_free r.0 r.1).chunks ≡ mm.chunks) × ((mm_free r.0 r.1).lock ≡ mm.lock)
freed_again {size} {mm} {r} h =
    let offset : r.0 - chunk_size ≡ h.start = omega (arith, h.pointer) in
    rw (mm_free_lem r.0 r.1 (h.arena.0, h.arena.1) (omega (arith, h.pointer)), offset)
      (
        drop_chunk-Inserts (record { start = h.start; size = chunk_size + size })
            (shared_size + r.1.static_size) r.1.mapped_size h.inserted h.arena.2,
        h.same_lock,
      )

-- A chunk that mm_alloc has handed out, freed again: the list of chunks is what it was before, and
-- so is the count of the lock, though the area may have grown.
pub mm_free-mm_alloc :
    (ftruncate : ℕ → Bool) (size : ℕ) (mm : Mm)
    → IsArena mm
    → size ≢ 0
    → size < 4294967296
    → ((n : ℕ) → ftruncate n ≡ true → n < 4294967296)
    → (mm_alloc ftruncate size mm).0 ≢ mm_null
    → let freed = mm_free (mm_alloc ftruncate size mm).0 (mm_alloc ftruncate size mm).1 in
      (freed.chunks ≡ mm.chunks) × (freed.lock ≡ mm.lock)
mm_free-mm_alloc ftruncate size mm ok pos small limit live =
    elim (mm_alloc_outcome ftruncate size mm ok pos small limit) [
      | inl handed ↦ freed_again handed
      | inr refused ↦ absurd (live refused.null)
    ]
