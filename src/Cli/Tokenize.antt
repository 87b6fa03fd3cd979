-- ===== src/Cli/Tokenize.antt =====
-- cli_tokenize of cli/cli.c.
use lisa_user.Base.{
  ℕ, zero, suc, Bool, false, not, ◌&&◌, List, [], ◌∷◌, Option, none, some, Text, take, length,
  if◌then◌else◌, ◌==◌, leb,
}
use lisa_user.Cli.{Context, Menu, TokenizeOut, tokenize_max_matches}
use lisa_user.Cli.Tokens.{cli_mask_apply, cli_next_token, same_start, whitespace, behind, token_of}

-- The node is not filtered, and its name begins with the token.
unfoldable pub is_match : Menu → ℕ → Text → ℕ → Bool
is_match menu filter token i =
    cli_mask_apply (menu i).mask filter && same_start (length token) token (menu i).name

-- One more match is registered, and is the exact one if the lengths agree.
abbrev pub exact_or : Menu → Text → ℕ → Option ℕ → Option ℕ
exact_or menu token i exact = if length token == length (menu i).name then some i else exact

-- The first loop of cli_tokenize from the node i on, with j matches already: what it adds to the
-- matches, and the exact match at its end.
unfoldable pub lookup_token : Menu → ℕ → Text → List ℕ → ℕ → Option ℕ → List ℕ × Option ℕ
lookup_token menu filter token [] j exact = ([], exact)
lookup_token menu filter token (i ∷ tree) j exact =
    let hit = is_match menu filter token i in
    let rest =
      lookup_token menu filter token tree (if hit then suc j else j)
        (if hit then exact_or menu token i exact else exact) in
    if leb tokenize_max_matches j then ([], exact) else if hit then (i ∷ rest.0, rest.1) else rest

-- the first node whose name begins with the text, whatever its mask
unfoldable pub first_with : Menu → Text → List ℕ → Option ℕ
first_with menu token [] = none
first_with menu token (i ∷ tree) =
    let rest = first_with menu token tree in
    if same_start (length token) token (menu i).name then some i else rest

-- The second loop, from ok_len on: ok_len and partial_match at its end.
unfoldable pub shorten : Menu → Text → List ℕ → ℕ → ℕ × Option ℕ
shorten menu token tree zero = (0, none)
shorten menu token tree (suc zero) = (0, none)
shorten menu token tree (suc (suc k)) = elim (first_with menu (take (suc k) token) tree) [
  | none ↦ shorten menu token tree (suc k)
  | some i ↦ (suc k, some i)
]

-- `out` behind the two loops, from the matches of the first and the result of the second
unfoldable pub registered : TokenizeOut → List ℕ → Option ℕ → ℕ × Option ℕ → TokenizeOut
registered out [] exact shortened = record out {
  matches = [];
  exact_match = exact;
  ok_len = shortened.0;
  partial_match = shortened.1;
}
registered out (i ∷ is) exact shortened = record out {
  matches = i ∷ is;
  exact_match = exact;
  ok_len = out.len;
}

unfoldable pub tokenize_word : Context → Menu → Text → List ℕ → TokenizeOut → TokenizeOut
tokenize_word ctx menu token tree out =
    let found = lookup_token menu ctx.node_filter token tree 0 out.exact_match in
    registered out found.0 found.1 (shorten menu token tree out.len)

-- The answer tells whether whitespace follows the token.
unfoldable pub cli_tokenize :
    Context → Menu → Text → Option (List ℕ) → TokenizeOut → Bool × TokenizeOut
cli_tokenize ctx menu buf tree before =
    let next = cli_next_token buf before in
    let out = next.1 in
    let ws = whitespace (behind buf out) in
    if not next.0 then (false, out) else elim tree [
      | none ↦ (ws, record out { matches = [] })
      | some nodes ↦ (ws, tokenize_word ctx menu (token_of buf out) nodes out)
    ]
