-- ===== src/Cdp/Dissection.antt =====
-- What dissect_packet finds in a frame.
use lisa_user.Base.{
  ℕ, zero, suc, ◌+◌, ◌-◌, ◌*◌, ◌≤◌, ◌<◌, ◌≡◌, refl, sym, ap, ◌∙◌, List, [], ◌∷◌, ◌++◌, length,
  length-append, All, arith, none, some, ltb, u32, true, false,
}
use lisa_user.Cdp.{Field, fields_bytes, hdr_size, frame_header_size}
use lisa_user.Cdp.Send.{Sender, cdp_fields, cdp_frame, cdp_packet}
use lisa_user.Cdp.Receive.{drop, ntohs_at, Seen, dissect_fields, dissect_packet, with_header}

-- A field's length is 0 and the loop is not over: it never is.
pub zero_length_field_loops :
    (fuel packet_length consumed : ℕ) (field : List ℕ)
    → consumed < packet_length
    → packet_length < 4294967296
    → ntohs_at 2 field ≡ 0
    → dissect_fields fuel packet_length consumed field ≡ none
unfolding dissect_fields
zero_length_field_loops zero len consumed field more small none_long = refl
zero_length_field_loops (suc fuel) len consumed field more small none_long =
    let again = zero_length_field_loops fuel len consumed field more small none_long in
    let same : u32 (consumed + 0) ≡ consumed = omega arith in
    let going : ltb consumed len ≡ true = ground arith in rw (none_long, same, again, going) refl

-- The fields that stand in the memory, each with all that follows it.
abbrev pub seen_of : List Field → List ℕ → List Seen
seen_of [] behind = []
seen_of (f ∷ fs) behind =
    record {
      field_type = f.field_type;
      field_len = length f.value + 4;
      field = f.value ++ (fields_bytes fs ++ behind);
    }
    ∷ seen_of fs behind

abbrev pub IsShort : Field → Type 0
IsShort f = (f.field_type < 65536) × (length f.value < 65532)

drop-append : (xs ys : List ℕ) → drop (length xs) (xs ++ ys) ≡ ys
drop-append [] ys = refl
drop-append (x ∷ xs) ys = drop-append xs ys

append_assoc : (xs ys zs : List ℕ) → (xs ++ ys) ++ zs ≡ xs ++ (ys ++ zs)
append_assoc [] ys zs = refl
append_assoc (x ∷ xs) ys zs = ap (λ l. x ∷ l) (append_assoc xs ys zs)

dissect_one :
    (fuel packet_length consumed : ℕ) (field : List ℕ) (t l : ℕ) (rest : List Seen)
    → consumed < packet_length
    → ntohs_at 0 field ≡ t
    → ntohs_at 2 field ≡ l
    → dissect_fields fuel packet_length (u32 (consumed + l)) (drop l field) ≡ some rest
    → dissect_fields (suc fuel) packet_length consumed field
      ≡ some (record { field_type = t; field_len = l; field = drop 4 field } ∷ rest)
unfolding dissect_fields
dissect_one fuel len consumed field t l rest more type_is len_is found =
    let going : ltb consumed len ≡ true = ground arith in rw (going, type_is, len_is, found) refl

abbrev seen : Field → ℕ → List ℕ → Seen
seen f field_len field = record { field_type = f.field_type; field_len = field_len; field = field }

dissect_fields_lem :
    (fs : List Field) (behind : List ℕ) (fuel consumed : ℕ)
    → All IsShort fs
    → consumed + length (fields_bytes fs) < 4294967296
    → length fs < fuel
    → dissect_fields fuel (consumed + length (fields_bytes fs)) consumed (fields_bytes fs ++ behind)
      ≡ some (seen_of fs behind)
unfolding dissect_fields
dissect_fields_lem fs behind zero consumed h small enough = absurd (omega arith)
dissect_fields_lem [] behind (suc fuel) consumed h small enough =
    let over : ltb consumed (consumed + 0) ≡ false = ground arith in rw (over) refl
dissect_fields_lem (f ∷ fs) behind (suc fuel) consumed h small enough =
    let v = f.value in
    let l = suc (suc (suc (suc (length v)))) in
    let four : length v + 4 ≡ l = omega arith in
    let sizes = length-append v (fields_bytes fs) in
    let total : consumed + length (fields_bytes (f ∷ fs))
        ≡ (consumed + l) + length (fields_bytes fs) =
      omega (arith, sizes) in
    let wrap : u32 (consumed + l) ≡ consumed + l = omega (arith, sizes) in
    let tail = append_assoc v (fields_bytes fs) behind in
    let dropped : drop l (fields_bytes (f ∷ fs) ++ behind) ≡ fields_bytes fs ++ behind =
      ap (drop (length v)) tail ∙ drop-append v (fields_bytes fs ++ behind) in
    let rest =
      dissect_fields_lem fs behind fuel (consumed + l) h.1 (omega (arith, sizes)) (omega arith) in
    let bytes = fields_bytes (f ∷ fs) ++ behind in
    let there = (consumed + l) + length (fields_bytes fs) in
    let found =
      ap (λ n. dissect_fields fuel there n (drop l bytes)) wrap
      ∙ ap (λ b. dissect_fields fuel there (consumed + l) b) dropped
      ∙ rest in
    ap (λ n. dissect_fields (suc fuel) n consumed bytes) total
    ∙ dissect_one fuel there consumed bytes f.field_type l (seen_of fs behind) (omega arith)
        (omega arith) (omega arith) found
    ∙ ap (λ n. some (seen f n (drop 4 bytes) ∷ seen_of fs behind)) (sym four)
    ∙ ap (λ b. some (seen f (length v + 4) b ∷ seen_of fs behind)) tail

fields_bytes-length :
    (fs : List Field)
    → All (λ f. length f.value < 256) fs
    → length (fields_bytes fs) ≤ 260 * length fs
fields_bytes-length [] h = omega arith
fields_bytes-length (f ∷ fs) h =
    omega (arith, length-append f.value (fields_bytes fs), fields_bytes-length fs h.1)

-- The texts fit the arrays that they come from.
abbrev pub HasRoom : Sender → Type 0
HasRoom s =
    (length s.hostname < 64)
    × (length s.port < 16)
    × (length s.cdp.software_version < 255)
    × (length s.cdp.platform < 16)

cdp_fields-lengths : (s : Sender) → HasRoom s → All (λ f. length f.value < 256) (cdp_fields s)
cdp_fields-lengths s room = (
  omega arith,
  (omega arith, (omega arith, (omega arith, (omega arith, (omega arith, (omega arith, tt)))))),
)

cdp_fields-IsShort : (s : Sender) → HasRoom s → All IsShort (cdp_fields s)
cdp_fields-IsShort s room = (
  (omega arith, omega arith),
  (
    (omega arith, omega arith),
    (
      (omega arith, omega arith),
      (
        (omega arith, omega arith),
        (
          (omega arith, omega arith),
          ((omega arith, omega arith), ((omega arith, omega arith), tt)),
        ),
      ),
    ),
  ),
)

-- A frame that cdp_send_loop builds, with any bytes behind it in memory: dissect_packet reads the
-- version and the time to live, and hands the seven fields to decode_field, in their order, with
-- their types and lengths and at their values, and then ends. Eight rounds of fuel are enough.
pub cdp_frame_dissected :
    (s : Sender) (behind : List ℕ)
    → HasRoom s
    → dissect_packet 8 (cdp_frame s ++ behind)
      ≡ some (record {
        cdp_version = s.cdp.version;
        ttl = s.cdp.holdtime;
        fields = seen_of (cdp_fields s) behind;
      })
unfolding dissect_packet cdp_frame cdp_packet
cdp_frame_dissected s behind room =
    let fs = cdp_fields s in
    let small = fields_bytes-length fs (cdp_fields-lengths s room) in
    let packet = cdp_frame s ++ behind in
    let hdr = drop frame_header_size packet in
    let told : u32 (ntohs_at 12 packet + 4294967296 - 8 - hdr_size) ≡ 0 + length (fields_bytes fs) =
      omega (arith, small) in
    let found =
      dissect_fields_lem fs behind 8 0 (cdp_fields-IsShort s room) (omega (arith, small))
        (omega arith) in
    ap (λ n. with_header hdr (dissect_fields 8 n 0 (drop hdr_size hdr))) told
    ∙ ap (with_header hdr) found
