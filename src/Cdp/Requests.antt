-- ===== src/Cdp/Requests.antt =====
-- userspace/cdpd/cdp_configuration.c: the neighbours and interfaces that a request is answered with.
-- The response is the list of what is copied into it behind its first int, the count.
use lisa_user.Base.{
  ℕ, zero, suc, ◌+◌, ◌-◌, ◌*◌, ◌%◌, ◌≤◌, ◌≡◌, refl, sym, ap, ◌∙◌, Bool, true, false, not, ◌&&◌,
  List, [], ◌∷◌, ◌++◌, Option, none, some, Text, take, take_all, length, if◌then◌else◌, ◌==◌, ◌!=◌,
  leb, ltb, Bool-cases, inl, inr, arith,
}
use lisa_user.Cdp.Registry.{CdpInterface}

-- the parts of struct cdp_neighbor that the loops read: info.device_id, and the time stamp of hnode
pub record CdpNeighbor : Type 0 where
  pub device_id : Text
  pub tstamp : ℕ

-- struct cdp_neighbor_info as it is sent: the neighbour's own, with the index and the time to live
pub record NeighborInfo : Type 0 where
  pub neighbor : CdpNeighbor
  pub if_index : ℕ
  pub ttl : ℕ

abbrev pub cdp_max_response_size : ℕ
cdp_max_response_size = 4096

-- sizeof(struct cdp_neighbor_info), and sizeof(int)
abbrev pub neighbor_info_size : ℕ
neighbor_info_size = 492

abbrev pub int_size : ℕ
int_size = 4

-- an unsigned char of tstamp - now
unfoldable pub cdp_ipc_add_neighbor : ℕ → ℕ → CdpNeighbor → NeighborInfo
cdp_ipc_add_neighbor now if_index n = record {
  neighbor = n;
  if_index = if_index;
  ttl = if leb now n.tstamp then (n.tstamp - now) % 256 else (256 - (now - n.tstamp) % 256) % 256;
}

-- !strncmp(text, prefix, strlen(prefix))
unfoldable pub begins_with : Text → Text → Bool
begins_with [] text = true
begins_with (c ∷ prefix) [] = false
begins_with (c ∷ prefix) (d ∷ text) = (c == d) && begins_with prefix text

unfoldable pub is_wanted : Option Text → CdpNeighbor → Bool
is_wanted none n = true
is_wanted (some device_id) n = begins_with device_id n.device_id

-- No further neighbour fits behind so many.
unfoldable pub is_full : ℕ → Bool
is_full count = ltb (cdp_max_response_size - int_size) (suc count * neighbor_info_size)

-- The loop over the neighbours of an interface: what is added, and whether the response is full.
unfoldable pub get_neighbors : ℕ → Option Text → ℕ → List CdpNeighbor → ℕ → List NeighborInfo × Bool
get_neighbors now device_id if_index [] count = ([], false)
get_neighbors now device_id if_index (n ∷ ns) count =
    let wanted = is_wanted device_id n in
    let rest = get_neighbors now device_id if_index ns (if wanted then suc count else count) in
    let info = cdp_ipc_add_neighbor now if_index n in
    if not wanted
    then rest
    else if is_full (suc count)
    then (info ∷ [], true)
    else (info ∷ rest.0, rest.1)

unfoldable pub get_all_neighbors :
    ℕ → ℕ → Option Text → List (CdpInterface CdpNeighbor) → ℕ → List NeighborInfo
get_all_neighbors now if_index device_id [] count = []
get_all_neighbors now if_index device_id (e ∷ es) count =
    let skipped = (if_index != 0) && (if_index != e.if_index) in
    let here = get_neighbors now device_id e.if_index e.neighbors count in
    let rest =
      get_all_neighbors now if_index device_id es
        (if skipped then count else count + length here.0) in
    if skipped then rest else if here.1 then here.0 else here.0 ++ rest

unfoldable pub cdp_ipc_get_neighbors :
    ℕ → ℕ → Option Text → List (CdpInterface CdpNeighbor) → List NeighborInfo
cdp_ipc_get_neighbors now if_index device_id registered =
    get_all_neighbors now if_index device_id registered 0

-- The interfaces with the index, of which the first is enough, or all of them for 0.
unfoldable pub cdp_ipc_get_interfaces : ℕ → List (CdpInterface CdpNeighbor) → List ℕ
cdp_ipc_get_interfaces if_index [] = []
cdp_ipc_get_interfaces if_index (e ∷ es) =
    let rest = cdp_ipc_get_interfaces if_index es in
    if (if_index != 0) && (if_index != e.if_index)
    then rest
    else if if_index != 0
    then e.if_index ∷ []
    else e.if_index ∷ rest

-- The neighbours of an interface, and of all that the request is about, that are wanted.
abbrev pub wanted_of : ℕ → Option Text → ℕ → List CdpNeighbor → List NeighborInfo
wanted_of now device_id if_index [] = []
wanted_of now device_id if_index (n ∷ ns) =
    if is_wanted device_id n
    then cdp_ipc_add_neighbor now if_index n ∷ wanted_of now device_id if_index ns
    else wanted_of now device_id if_index ns

abbrev pub all_wanted : ℕ → ℕ → Option Text → List (CdpInterface CdpNeighbor) → List NeighborInfo
all_wanted now if_index device_id [] = []
all_wanted now if_index device_id (e ∷ es) =
    if (if_index != 0) && (if_index != e.if_index)
    then all_wanted now if_index device_id es
    else wanted_of now device_id e.if_index e.neighbors ++ all_wanted now if_index device_id es

is_full-at : (count : ℕ) → is_full count ≡ leb 8 count
unfolding is_full
is_full-at count = ground arith

get_neighbors-lem :
    (now : ℕ) (device_id : Option Text) (if_index : ℕ) (ns : List CdpNeighbor) (count room : ℕ)
    → count + suc room ≡ 8
    → let here = get_neighbors now device_id if_index ns count in
      let all = wanted_of now device_id if_index ns in
      (here.0 ≡ take (suc room) all) × (here.1 ≡ leb (suc room) (length all))
unfolding get_neighbors
get_neighbors-lem now device_id if_index [] count room e = (refl, ground arith)
get_neighbors-lem now device_id if_index (n ∷ ns) count zero e =
    let full : is_full (suc count) ≡ true = is_full-at (suc count) ∙ ground arith in
    elim (Bool-cases (is_wanted device_id n)) [
      | inl w ↦ rw (w, full) (refl, ground arith)
      | inr w ↦ rw (w) (get_neighbors-lem now device_id if_index ns count zero e)
    ]
get_neighbors-lem now device_id if_index (n ∷ ns) count (suc room) e =
    let full : is_full (suc count) ≡ false = is_full-at (suc count) ∙ ground arith in
    elim (Bool-cases (is_wanted device_id n)) [
      | inl w ↦
          let (added, ends) =
            get_neighbors-lem now device_id if_index ns (suc count) room (omega arith) in
          rw (w, full)
            (ap (λ l. cdp_ipc_add_neighbor now if_index n ∷ l) added, ends ∙ ground arith)
      | inr w ↦ rw (w) (get_neighbors-lem now device_id if_index ns count (suc room) e)
    ]

module _ {ℓ} {A : Type ℓ} where
  take-front : (k : ℕ) (xs ys : List A) → k ≤ length xs → take k xs ≡ take k (xs ++ ys)
  take-front zero xs ys h = refl
  take-front (suc k) [] ys h = absurd (omega arith)
  take-front (suc k) (x ∷ xs) ys h = ap (λ l. x ∷ l) (take-front k xs ys (omega arith))

  take-rest : (k m : ℕ) (xs ys : List A) → m ≡ length xs + k → take m (xs ++ ys) ≡ xs ++ take k ys
  take-rest k m [] ys e = let same : m ≡ k = omega arith in ap (λ n. take n ys) same
  take-rest k zero (x ∷ xs) ys e = absurd (omega arith)
  take-rest k (suc m) (x ∷ xs) ys e = ap (λ l. x ∷ l) (take-rest k m xs ys (omega arith))

  take-length : (k : ℕ) (xs : List A) → length (take k xs) ≤ k
  take-length zero xs = omega arith
  take-length (suc k) [] = omega arith
  take-length (suc k) (x ∷ xs) = omega (arith, take-length k xs)

get_all_neighbors-lem :
    (now if_index : ℕ) (device_id : Option Text) (es : List (CdpInterface CdpNeighbor))
    (count room : ℕ)
    → count + suc room ≡ 8
    → get_all_neighbors now if_index device_id es count
      ≡ take (suc room) (all_wanted now if_index device_id es)
unfolding get_all_neighbors
get_all_neighbors-lem now if_index device_id [] count room e = refl
get_all_neighbors-lem now if_index device_id (i ∷ es) count room e =
    let here = get_neighbors now device_id i.if_index i.neighbors count in
    let W = wanted_of now device_id i.if_index i.neighbors in
    let R = all_wanted now if_index device_id es in
    let (added, ends) = get_neighbors-lem now device_id i.if_index i.neighbors count room e in
    elim (Bool-cases ((if_index != 0) && (if_index != i.if_index))) [
      | inl skipped ↦ rw (skipped) (get_all_neighbors-lem now if_index device_id es count room e)
      | inr taken ↦ elim (Bool-cases here.1) [
        | inl full ↦
            let many : suc room ≤ length W = ground (arith, full, ends) in
            rw (taken, full) (added ∙ take-front (suc room) W R many)
        | inr more ↦
            let few : length W ≤ room = ground (arith, more, ends) in
            let whole : here.0 ≡ W = added ∙ take_all (suc room) W (omega arith) in
            let left = room - length W in
            let size : count + length here.0 ≡ count + length W =
              ap (λ l. count + length l) whole in
            let rest =
              get_all_neighbors-lem now if_index device_id es (count + length here.0) left
                (omega (arith, size)) in
            rw (taken, more)
              (ap (λ l. here.0 ++ l) rest
                ∙ ap (λ l. l ++ take (suc left) R) whole
                ∙ sym (take-rest (suc left) (suc room) W R (omega arith)))
      ]
    ]

-- The neighbours that cdp_ipc_get_neighbors answers with are the first eight of those that are
-- wanted, of the interface that is named or of all, in the order of the lists; with the count before
-- them they fit the response of 4096 bytes.
pub cdp_ipc_get_neighbors-take :
    (now if_index : ℕ) (device_id : Option Text) (registered : List (CdpInterface CdpNeighbor))
    → let answer = cdp_ipc_get_neighbors now if_index device_id registered in
      (answer ≡ take 8 (all_wanted now if_index device_id registered))
      × (int_size + length answer * neighbor_info_size ≤ cdp_max_response_size)
unfolding cdp_ipc_get_neighbors
cdp_ipc_get_neighbors-take now if_index device_id registered =
    let all = all_wanted now if_index device_id registered in
    let same = get_all_neighbors-lem now if_index device_id registered 0 7 (omega arith) in
    let short = take-length 8 all in
    let size : length (get_all_neighbors now if_index device_id registered 0) ≤ 8 =
      rw (same) short in
    (same, omega (arith, size))
