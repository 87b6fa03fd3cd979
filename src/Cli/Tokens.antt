-- ===== src/Cli/Tokens.antt =====
-- cli/cli.c and cli/cli.h: the next token of a line, and the masks that filter nodes. strspn,
-- strcspn and strncasecmp are written out on texts.
use lisa_user.Base.{
  ℕ, zero, suc, ◌+◌, Bool, true, false, not, ◌&&◌, ◌||◌, List, [], ◌∷◌, Option, none, some, Text,
  take, length, get_or, bit_and, if◌then◌else◌, ◌==◌, leb,
}
use lisa_user.Cli.{TokenizeOut}

unfoldable pub whitespace : ℕ → Bool
whitespace c = (c == 32) || (c == 9)

-- how many bytes at the start pass a test: strspn, and strcspn with the test turned round
unfoldable pub span : (ℕ → Bool) → Text → ℕ
span p [] = 0
span p (c ∷ s) = if p c then suc (span p s) else 0

unfoldable pub skip : ℕ → Text → Text
skip zero s = s
skip (suc n) [] = []
skip (suc n) (c ∷ s) = skip n s

unfoldable pub to_lower : ℕ → ℕ
to_lower c = if leb 65 c && leb c 90 then c + 32 else c

-- !strncasecmp
unfoldable pub same_start : ℕ → Text → Text → Bool
same_start zero s t = true
same_start (suc n) [] [] = true
same_start (suc n) [] (y ∷ t) = false
same_start (suc n) (x ∷ s) [] = false
same_start (suc n) (x ∷ s) (y ∷ t) = (to_lower x == to_lower y) && same_start n s t

unfoldable pub masks_pass : List ℕ → ℕ → Bool
masks_pass [] filter = true
masks_pass (m ∷ mask) filter = if bit_and m filter == 0 then false else masks_pass mask filter

unfoldable pub cli_mask_apply : Option (List ℕ) → ℕ → Bool
cli_mask_apply none filter = true
cli_mask_apply (some mask) filter = masks_pass mask filter

unfoldable pub cli_init_tok_out : TokenizeOut → TokenizeOut
cli_init_tok_out out = record out { ok_len = 0; exact_match = none; partial_match = none; len = 0 }

-- `false` is the answer -1, of a line that is all whitespace.
unfoldable pub cli_next_token : Text → TokenizeOut → Bool × TokenizeOut
cli_next_token buf out =
    let offset = span whitespace buf in
    if offset == length buf
    then (false, record (cli_init_tok_out out) { offset = offset; matches = [] })
    else (
      true,
      record (cli_init_tok_out out) {
        offset = offset;
        len = span (λ c. not (whitespace c)) (skip offset buf);
      },
    )

-- the byte behind the token, and the token itself
abbrev pub behind : Text → TokenizeOut → ℕ
behind buf out = get_or buf (out.offset + out.len) 0

abbrev pub token_of : Text → TokenizeOut → Text
token_of buf out = take out.len (skip out.offset buf)
