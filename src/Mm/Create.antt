-- ===== src/Mm/Create.antt =====
-- mm_create: the area that a process starts with.
use lisa_user.Base.{ℕ, ◌+◌, ◌-◌, ◌%◌, ◌≤◌, ◌<◌, ◌≡◌, arith}
use native.Mathlib.Nat.{mul-div-le, lt-mul-div-succ}
use lisa_user.Mm.{Mm, Opening, Created, page_size, mm_create, shared_size}
use lisa_user.Mm.Arena.{IsArena}

page_size_bounds :
    (p size : ℕ)
    → 0 < p
    → size + p < 4294967296
    → (size ≤ page_size p size) × (page_size p size < size + p)
unfolding page_size
page_size_bounds p size pos small =
    let upper = mul-div-le (size + p - 1) p in
    let lower = lt-mul-div-succ (size + p - 1) pos in
    let same : (size + p - 1) % 18446744073709551616 ≡ size + p - 1 = omega arith in
    rw (same) (grind (arith, upper, lower))

abbrev pub Opens : (Mm → Type 0) → Created → Type 0
Opens P Created.refused = Unit
Opens P Created.crashed = Unit
Opens P (Created.opened mm) = P mm

-- Whenever mm_create opens an area, it is in order, and the lock is free: the one that it creates,
-- if the sizes asked for and a page stay below 4 GB, and the one that it finds, if that one was.
pub mm_create-IsArena :
    (a : Opening) (static_size dynamic_size : ℕ)
    → 0 < a.page
    → shared_size + static_size + dynamic_size + a.page < 4294967296
    → IsArena (a.found)
    → Opens (λ mm. IsArena mm × (mm.lock ≡ 0)) (mm_create a static_size dynamic_size)
unfolding mm_create
mm_create-IsArena a static_size dynamic_size pos small found =
    ground (arith, page_size_bounds a.page (static_size + dynamic_size + shared_size))
