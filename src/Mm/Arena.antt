-- ===== src/Mm/Arena.antt =====
-- When the area is in order: its sizes agree, and the chunks lie in it one behind the other.
use lisa_user.Base.{ℕ, ◌+◌, ◌≤◌, ◌<◌, ◌≡◌, List, [], ◌∷◌, arith}
use lisa_user.Mm.{Chunk, Mm, mm_lock, mm_unlock, shared_size, chunk_size}

-- The chunks lie between two offsets, in the order of the list, and each has more than its header.
abbrev pub Fits : ℕ → List Chunk → ℕ → Type 0
Fits last [] area_end = last ≤ area_end
Fits last (c ∷ cs) area_end =
    (last ≤ c.start) × (chunk_size < c.size) × Fits (c.start + c.size) cs area_end

abbrev pub IsArena : Mm → Type 0
IsArena mm =
    (shared_size + mm.static_size + mm.dynamic_size ≡ mm.mapped_size)
    × (mm.mapped_size < 4294967296)
    × Fits (shared_size + mm.static_size) mm.chunks mm.mapped_size

pub Fits-le : (last : ℕ) (cs : List Chunk) (area_end : ℕ) → Fits last cs area_end → last ≤ area_end
Fits-le last [] e h = h
Fits-le last (c ∷ cs) e h = omega (arith, Fits-le (c.start + c.size) cs e h.2)

-- where the last chunk ends
abbrev pub end_of : ℕ → List Chunk → ℕ
end_of last [] = last
end_of last (c ∷ cs) = end_of (c.start + c.size) cs

pub end_of-le :
    (last : ℕ) (cs : List Chunk) (area_end : ℕ) → Fits last cs area_end → end_of last cs ≤ area_end
end_of-le last [] e h = h
end_of-le last (c ∷ cs) e h = end_of-le (c.start + c.size) cs e h.2

pub le-end_of :
    (last : ℕ) (cs : List Chunk) (area_end : ℕ) → Fits last cs area_end → last ≤ end_of last cs
le-end_of last [] e h = omega arith
le-end_of last (c ∷ cs) e h = omega (arith, le-end_of (c.start + c.size) cs e h.2)

-- The sizes agree, as IsArena has it.
abbrev pub Agrees : Mm → Type 0
Agrees mm =
    (shared_size + mm.static_size + mm.dynamic_size ≡ mm.mapped_size)
    × (mm.mapped_size < 4294967296)

pub mm_lock_lem : (mm : Mm) → Agrees mm → mm_lock mm ≡ record mm { lock = mm.lock + 1 }
unfolding mm_lock
mm_lock_lem mm h = ground arith

pub mm_unlock-lock : (mm : Mm) → mm_unlock (record mm { lock = mm.lock + 1 }) ≡ mm
unfolding mm_unlock
mm_unlock-lock mm = ground arith
