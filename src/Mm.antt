-- ===== src/Mm.antt =====
-- userspace/lib/mm.c and userspace/include/mm.h: the allocator of the shared memory area. A pointer
-- is an offset into the area, 0 for MM_NULL. The list of chunks that the headers hold is a List, in
-- its order. The handle (struct mm_private) and what it maps (struct mm_shared) are one record, as
-- one process sees them; the semaphore is left out, and `lock` counts the nested calls of mm_lock.
-- On the machines the program is built for, a size has 64 bits and a pointer 32, struct mm_shared
-- takes 24 bytes and struct mm_chunk 16.
pub mod Arena
pub mod Alloc
pub mod Free
pub mod Realloc
pub mod Create
use lisa_user.Base.{
  ℕ, ◌+◌, ◌-◌, ◌*◌, ◌/◌, Bool, true, false, ◌&&◌, ◌||◌, not, List, [], ◌∷◌, ◌++◌, Option, none,
  some, if◌then◌else◌, ◌==◌, ◌!=◌, ltb, leb, u32, u64,
}

pub record Chunk : Type 0 where
  pub start : ℕ  -- the pointer to the header
  pub size : ℕ  -- with the header

pub record Mm : Type 0 where
  pub static_size : ℕ
  pub dynamic_size : ℕ
  pub chunks : List Chunk
  pub bytes : ℕ → ℕ  -- what callers store in the area
  pub lock : ℕ
  pub mapped_size : ℕ
  pub init : Bool

abbrev pub shared_size : ℕ
shared_size = 24

abbrev pub chunk_size : ℕ
chunk_size = 16

abbrev pub mm_null : ℕ
mm_null = 0

-- The area is mapped anew if another process has extended it.
unfoldable pub mm_lock : Mm → Mm
mm_lock mm =
    let mm_size = u64 (shared_size + mm.static_size + mm.dynamic_size) in
    record mm {
      lock = mm.lock + 1;
      mapped_size =
          if (mm.lock != 0) || leb mm_size mm.mapped_size then mm.mapped_size else mm_size;
    }

unfoldable pub mm_unlock : Mm → Mm
mm_unlock mm = record mm { lock = mm.lock - 1 }

-- `ftruncate` says whether the area can be given a size. The result is true for an error.
unfoldable pub mm_extend : (ℕ → Bool) → ℕ → Mm → Bool × Mm
unfolding mm_lock mm_unlock
mm_extend ftruncate size mm =
    let locked = mm_lock mm in
    let mm_size = u64 (locked.mapped_size + size) in
    if size == 0
    then (false, mm)
    else if not (ftruncate mm_size)
    then (true, mm_unlock locked)
    else (
      false,
      mm_unlock (record locked {
        mapped_size = mm_size;
        dynamic_size = u64 (mm_size + 18446744073709551616 - (shared_size + mm.static_size));
      }),
    )

abbrev pub behind : Chunk → Option (ℕ × List Chunk) → Option (ℕ × List Chunk)
behind c none = none
behind c (some (at, cs)) = some (at, c ∷ cs)

-- The search for a gap before a chunk: where the new chunk starts, and the list with it.
unfoldable pub find_gap : ℕ → ℕ → List Chunk → Option (ℕ × List Chunk)
find_gap real_size last [] = none
find_gap real_size last (c ∷ cs) =
    let rest = find_gap real_size (u32 (c.start + c.size)) cs in
    if ltb (u32 (c.start + 4294967296 - last)) real_size
    then behind c rest
    else some (last, record { start = last; size = real_size } ∷ c ∷ cs)

-- `last` after the search, if it finds no gap
unfoldable pub find_end : ℕ → List Chunk → ℕ
find_end last [] = last
find_end last (c ∷ cs) = find_end (u32 (c.start + c.size)) cs

-- The allocation behind the last chunk.
unfoldable pub alloc_last : (ℕ → Bool) → ℕ → Mm → ℕ × Mm
unfolding find_end mm_extend mm_unlock
alloc_last ftruncate real_size mm =
    let base = u32 (shared_size + mm.static_size) in
    let last = find_end base mm.chunks in
    let area_end = u64 (base + mm.dynamic_size) in
    let chunk_end = u64 (last + real_size) in
    let extended =
      if ltb area_end chunk_end
      then mm_extend ftruncate (chunk_end - area_end) mm
      else (false, mm) in
    if extended.0 then (mm_null, mm_unlock extended.1) else (
      u32 (last + chunk_size),
      mm_unlock (record (extended.1) {
        chunks = mm.chunks ++ (record { start = last; size = real_size } ∷ []);
      }),
    )

-- The new chunk, in the gap that the search found or behind the last chunk.
abbrev pub place_chunk : (ℕ → Bool) → ℕ → Mm → Option (ℕ × List Chunk) → ℕ × Mm
place_chunk ftruncate real_size mm none = alloc_last ftruncate real_size mm
place_chunk ftruncate real_size mm (some (last, chunks)) =
    (u32 (last + chunk_size), mm_unlock (record mm { chunks = chunks }))

unfoldable pub mm_alloc : (ℕ → Bool) → ℕ → Mm → ℕ × Mm
mm_alloc ftruncate size mm =
    let base = u32 (shared_size + mm.static_size) in
    let real_size = u64 (chunk_size + size) in
    if size == 0
    then (mm_null, mm)
    else place_chunk ftruncate real_size (mm_lock mm) (find_gap real_size base mm.chunks)

-- mm_list_del on the chunk that starts at `start`. On any other address mm_free is undefined; here
-- it changes nothing, and no result relies on that.
unfoldable pub drop_chunk : ℕ → List Chunk → List Chunk
drop_chunk start [] = []
drop_chunk start (c ∷ cs) =
    let rest = drop_chunk start cs in if start == c.start then cs else c ∷ rest

unfoldable pub mm_free : ℕ → Mm → Mm
mm_free ptr mm =
    let locked = mm_lock mm in
    if ptr == mm_null
    then mm
    else mm_unlock (record locked { chunks = drop_chunk (ptr - chunk_size) mm.chunks })

-- The header of a chunk, found and written by its address.
unfoldable pub size_at : ℕ → List Chunk → ℕ
size_at start [] = 0
size_at start (c ∷ cs) = if start == c.start then c.size else size_at start cs

unfoldable pub resize_at : ℕ → ℕ → List Chunk → List Chunk
resize_at start size [] = []
resize_at start size (c ∷ cs) =
    if start == c.start
    then record { start = c.start; size = size } ∷ cs
    else c ∷ resize_at start size cs

-- memcpy
unfoldable pub copy_bytes : ℕ → ℕ → ℕ → (ℕ → ℕ) → ℕ → ℕ
copy_bytes to from n bytes x =
    if leb to x && ltb x (to + n) then bytes (from + (x - to)) else bytes x

-- Whether the header of a chunk begins between two offsets.
unfoldable pub has_header : ℕ → ℕ → List Chunk → Bool
has_header from to [] = false
has_header from to (c ∷ cs) = (leb from c.start && ltb c.start to) || has_header from to cs

-- Whether memcpy of n bytes stays in the area, at both ends, and off every header.
unfoldable pub can_copy : ℕ → ℕ → ℕ → Mm → Bool
can_copy to from n mm =
    leb (to + n) mm.mapped_size
    && leb (from + n) mm.mapped_size
    && not (has_header to (to + n) mm.chunks)

-- The address of the chunk is computed before mm_alloc and used behind it. `stays` is whether mmap, if
-- the area is extended, maps it where it was. The result is none where an access is undefined:
-- through that address after the area has moved, or by memcpy outside of the area or on a header.
unfoldable pub mm_realloc : (ℕ → Bool) → Bool → ℕ → ℕ → Mm → Option (ℕ × Mm)
mm_realloc ftruncate stays ptr size mm =
    let locked = mm_lock mm in
    let start = ptr - chunk_size in
    let real_size = u64 (size + chunk_size) in
    let allocated = mm_alloc ftruncate size locked in
    let old_size = size_at start allocated.1.chunks in
    let copied = record (allocated.1) {
      bytes = copy_bytes allocated.0 ptr old_size allocated.1.bytes;
    } in
    if ptr == mm_null
    then some (mm_alloc ftruncate size mm)
    else if size == 0
    then some (mm_null, mm_free ptr mm)
    else if leb real_size (size_at start mm.chunks)
    then some (ptr, mm_unlock (record locked { chunks = resize_at start real_size mm.chunks }))
    else if allocated.0 == mm_null
    then some (mm_null, mm_unlock allocated.1)
    else if (stays || (allocated.1.mapped_size == locked.mapped_size))
        && can_copy allocated.0 ptr old_size allocated.1
    then some (allocated.0, mm_unlock (mm_free ptr copied))
    else none

-- What the system calls of mm_create answer, and the area that it finds if there is one. `mmap` is
-- documented to answer MAP_FAILED and not NULL for an error: the code tests for NULL, takes the
-- error for an address, and crashes where it reads there.
pub record Opening : Type 0 where
  pub allocated : Bool  -- malloc
  pub sem_opened : Bool
  pub created : Bool  -- shm_open with O_EXCL
  pub exists_already : Bool  -- errno is EEXIST
  pub reopened : Bool  -- shm_open without O_EXCL
  pub truncated : Bool
  pub mapped : Bool  -- mmap
  pub mapped_again : Bool
  pub page : ℕ  -- _SC_PAGE_SIZE
  pub found : Mm

pub data Created : Type 0 where
  refused : Created
  crashed : Created
  opened : Mm → Created

unfoldable pub page_size : ℕ → ℕ → ℕ
page_size p_size size = u64 (p_size * (u64 (size + p_size - 1) / p_size))

unfoldable pub mm_create : Opening → ℕ → ℕ → Created
mm_create a static_size dynamic_size =
    let size = page_size a.page (u64 (static_size + dynamic_size + shared_size)) in
    if not a.allocated || not a.sem_opened
    then refused
    else if a.created
    then (if not a.truncated
        then refused
        else if not a.mapped
        then crashed
        else opened (record {
          static_size = static_size;
          dynamic_size = u64 (size + 18446744073709551616 - (shared_size + static_size));
          chunks = [];
          bytes = λ x. 0;
          lock = 0;
          mapped_size = size;
          init = true;
        }))
    else if not a.exists_already || not a.reopened
    then refused
    else if not a.mapped || not a.mapped_again
    then crashed
    else opened (record (a.found) {
      lock = 0;
      mapped_size = u64 (shared_size + a.found.static_size + a.found.dynamic_size);
      init = false;
    })
