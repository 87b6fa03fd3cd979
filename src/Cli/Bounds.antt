-- ===== src/Cli/Bounds.antt =====
-- Every tokenizer stays inside the line, and so does the marker of an invalid command.
pub mod Tokenizers
pub mod Marker
use lisa_user.Base.{
  ℕ, zero, suc, ◌+◌, ◌-◌, ◌≤◌, ◌<◌, ◌≡◌, refl, Bool, true, false, not, ◌&&◌, List, [], ◌∷◌, Option,
  none, some, Text, take, length, if◌then◌else◌, ◌==◌, if-split, if-keep, Bool-cases, inl, inr,
  arith, ◌≢◌,
}
use lisa_user.Cli.{Context, Menu, TokenizeOut}
use lisa_user.Cli.Tokens.{span, skip, whitespace, cli_next_token, cli_init_tok_out}

span-le : (p : ℕ → Bool) (s : Text) → span p s ≤ length s
unfolding span
span-le p [] = omega arith
span-le p (c ∷ s) =
    let rest = span-le p s in
    if-keep (λ n. n ≤ suc (length s)) (p c) (suc (span p s)) 0 (omega arith) (omega arith)

pub skip-length : (n : ℕ) (s : Text) → length (skip n s) ≡ length s - n
unfolding skip
skip-length zero s = omega arith
skip-length (suc n) [] = omega arith
skip-length (suc n) (c ∷ s) = omega (arith, skip-length n s)

span_again :
    (p : ℕ → Bool) (s : Text) → span p s < length s → 1 ≤ span (λ c. not (p c)) (skip (span p s) s)
unfolding span skip
span_again p [] h = absurd (omega arith)
span_again p (c ∷ s) h = elim (Bool-cases (p c)) [
  | inl e ↦ let shorter : span p s < length s = ground arith in rw (e) (span_again p s shorter)
  | inr e ↦ rw (e) (ground arith)
]

-- What holds of `out` behind cli_next_token.
abbrev pub IsNext : Text → Bool × TokenizeOut → Type 0
IsNext buf r =
    (r.1.offset + r.1.len ≤ length buf)
    × (r.1.ok_len ≡ 0)
    × (r.1.exact_match ≡ none)
    × (r.0 ≡ true → 1 ≤ r.1.len)
    × (r.0 ≡ false → (r.1.len ≡ 0) × (r.1.matches ≡ []))

pub cli_next_token-IsNext : (buf : Text) (out : TokenizeOut) → IsNext buf (cli_next_token buf out)
unfolding cli_next_token cli_init_tok_out
cli_next_token-IsNext buf out =
    let offset = span whitespace buf in
    let inside = span-le whitespace buf in
    let rest = skip offset buf in
    let fits = span-le (λ c. not (whitespace c)) rest in
    let left = skip-length offset buf in
    if-split (IsNext buf) (offset == length buf) _ _
      (λ e. (omega arith, refl, refl, λ t. cc, λ t. (refl, refl)))
      (λ e.
        let more : offset < length buf = ground arith in
        (omega arith, refl, refl, λ t. span_again whitespace buf more, λ t. cc))

-- What holds of `out` behind every tokenizer: the token stays inside the line, ok_len inside the
-- token, and only a token that is not empty has matches.
abbrev pub Fits : ℕ → ℕ → ℕ → ℕ → List ℕ → Option ℕ → Type 0
Fits size offset len ok_len matches exact =
    (offset + len ≤ size) × (ok_len ≤ len) × (len ≡ 0 → (matches ≡ []) × (exact ≡ none))

abbrev pub IsWithin : Text → TokenizeOut → Type 0
IsWithin buf out = Fits (length buf) out.offset out.len out.ok_len out.matches out.exact_match

pub next-IsWithin :
    (buf : Text) (r : Bool × TokenizeOut) → IsNext buf r → r.0 ≡ false → IsWithin buf r.1
next-IsWithin buf r h e = let empty = h.4 e in (h.0, omega (arith, h.1), λ z. (empty.1, h.2))

-- The result of a tokenizer that has found a token and keeps its place.
pub found-Fits :
    (buf : Text) (r : Bool × TokenizeOut) (ok len : ℕ) (ms : List ℕ) (exact : Option ℕ)
    → IsNext buf r
    → r.0 ≡ true
    → r.1.offset + len ≤ length buf
    → r.1.len ≤ len
    → ok ≤ len
    → Fits (length buf) r.1.offset len ok ms exact
found-Fits buf r ok len ms exact h e fits longer ok_fits =
    let some_token = h.3 e in (fits, ok_fits, λ z. absurd (omega arith))
