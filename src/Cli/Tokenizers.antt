-- ===== src/Cli/Tokenizers.antt =====
-- cli/lib/tokenizers.c: the tokenizers that a node may name in place of cli_tokenize. They read
-- tree[0], so the subtree of such a node is no NULL; an empty one counts as a tree[0] that is NULL.
use lisa_user.Base.{
  ℕ, zero, suc, ◌-◌, Bool, true, false, not, ◌&&◌, ◌||◌, List, [], ◌∷◌, Option, none, some, Text,
  text_eq, take, length, if◌then◌else◌, leb, ltb,
}
use lisa_user.Cli.{
  Context, Menu, TokenizeOut, tokenize_max_matches, ShellState, completion, inline_help, executing,
  Tokenizer, line, word, word_mixed, line_mixed, number, mac, ip, Valid,
}
use lisa_user.Cli.Tokens.{
  cli_mask_apply, cli_next_token, same_start, skip, whitespace, behind, token_of,
}
use lisa_user.Cli.Tokenize.{cli_tokenize, exact_or}
use lisa_user.Cli.Addresses.{swcli_valid_number, valid_mac, valid_ip}

unfoldable pub is_completion : ShellState → Bool
is_completion completion = true
is_completion inline_help = false
is_completion executing = false

unfoldable pub is_exec : ShellState → Bool
is_exec completion = false
is_exec inline_help = false
is_exec executing = true

-- tree[0], as the only match
abbrev pub first_node : List ℕ → List ℕ
first_node [] = []
first_node (i ∷ tree) = i ∷ []

abbrev pub head_node : List ℕ → Option ℕ
head_node [] = none
head_node (i ∷ tree) = some i

unfoldable pub swcli_tokenize_line : Context → Text → List ℕ → TokenizeOut → Bool × TokenizeOut
swcli_tokenize_line ctx buf tree before =
    let next = cli_next_token buf before in
    let out = next.1 in
    if not next.0 then (false, out) else (
      false,
      record out {
        len = length buf - out.offset;
        matches = if is_completion ctx.state then [] else first_node tree;
      },
    )

unfoldable pub swcli_tokenize_word : Context → Text → List ℕ → TokenizeOut → Bool × TokenizeOut
swcli_tokenize_word ctx buf tree before =
    let next = cli_next_token buf before in
    let out = next.1 in
    let ws = whitespace (behind buf out) in
    if not next.0 then (false, out) else (
      ws,
      record out { matches = if is_completion ctx.state && not ws then [] else first_node tree },
    )

-- The loop of swcli_tokenize_mixed, with `shown` for the test that registers the node called `special`.
unfoldable pub lookup_mixed :
    Menu → ℕ → Text → Text → Bool → List ℕ → ℕ → Option ℕ → List ℕ × Option ℕ
lookup_mixed menu filter token special shown [] j exact = ([], exact)
lookup_mixed menu filter token special shown (i ∷ tree) j exact =
    let visible = cli_mask_apply (menu i).mask filter in
    let is_word = text_eq (menu i).name special in
    let starts = same_start (length token) token (menu i).name in
    let hit = visible && (if is_word then shown else starts) in
    let rest =
      lookup_mixed menu filter token special shown tree (if hit then suc j else j)
        (if hit && not is_word then exact_or menu token i exact else exact) in
    if leb tokenize_max_matches j then ([], exact) else if hit then (i ∷ rest.0, rest.1) else rest

abbrev pub is_some {ℓ} : {A : Type ℓ} → Option A → Bool
is_some none = false
is_some (some a) = true

unfoldable pub swcli_tokenize_mixed :
    Context → Menu → Text → List ℕ → TokenizeOut → Text → Bool → Bool × TokenizeOut
swcli_tokenize_mixed ctx menu buf tree before special enable_ws =
    let next = cli_next_token buf before in
    let out = next.1 in
    let ws = whitespace (behind buf out) in
    let shown = not (is_completion ctx.state) || (ws && enable_ws) in
    let found =
      lookup_mixed menu ctx.node_filter (token_of buf out) special shown tree 0 out.exact_match in
    if not next.0 then (false, out) else (
      if enable_ws then ws else is_some found.1 && ws,
      record out { matches = found.0; exact_match = found.1; ok_len = out.len },
    )

abbrev pub word_name : Text
word_name = 87 ∷ 79 ∷ 82 ∷ 68 ∷ []

abbrev pub line_name : Text
line_name = 76 ∷ 73 ∷ 78 ∷ 69 ∷ []

unfoldable pub swcli_tokenize_word_mixed :
    Context → Menu → Text → List ℕ → TokenizeOut → Bool × TokenizeOut
swcli_tokenize_word_mixed ctx menu buf tree before =
    swcli_tokenize_mixed ctx menu buf tree before word_name true

-- MATCHES(out) is 1, and the match is called LINE.
unfoldable pub is_line : Menu → List ℕ → Bool
is_line menu [] = false
is_line menu (i ∷ []) = text_eq (menu i).name line_name
is_line menu (i ∷ j ∷ is) = false

unfoldable pub swcli_tokenize_line_mixed :
    Context → Menu → Text → List ℕ → TokenizeOut → Bool × TokenizeOut
swcli_tokenize_line_mixed ctx menu buf tree before =
    let mixed = swcli_tokenize_mixed ctx menu buf tree before line_name false in
    let out = mixed.1 in
    if is_line menu out.matches
    then (mixed.0, record out { len = length buf - out.offset })
    else mixed

-- The loop of swcli_tokenize_validator: the length at its end.
unfoldable pub valid_prefix : (Text → Bool → Bool) → Text → ℕ → Bool → ℕ
valid_prefix valid token zero part = 0
valid_prefix valid token (suc k) part =
    let shorter = valid_prefix valid token k true in
    if valid (take (suc k) token) part then suc k else shorter

unfoldable pub validated :
    Context → (Text → Bool → Bool) → Text → Bool → List ℕ → TokenizeOut → TokenizeOut
validated ctx valid token ws tree out =
    let part = not ws && not (is_exec ctx.state) in
    let ok = valid_prefix valid token out.len part in
    if ltb ok out.len
    then record out { ok_len = ok; matches = []; partial_match = head_node tree }
    else record out { ok_len = ok; matches = first_node tree }

unfoldable pub swcli_tokenize_validator :
    Context → Text → List ℕ → TokenizeOut → (Text → Bool → Bool) → Bool × TokenizeOut
swcli_tokenize_validator ctx buf tree before valid =
    let next = cli_next_token buf before in
    let out = next.1 in
    let ws = whitespace (behind buf out) in
    if not next.0
    then (false, out)
    else if is_completion ctx.state && not ws
    then (ws, record out { matches = [] })
    else (ws, validated ctx valid (skip out.offset buf) ws tree out)

-- tree[0]->priv
unfoldable pub limits_of : Menu → List ℕ → Option Valid
limits_of menu [] = none
limits_of menu (i ∷ tree) = (menu i).priv

unfoldable pub swcli_tokenize_number :
    Context → Menu → Text → List ℕ → TokenizeOut → Bool × TokenizeOut
swcli_tokenize_number ctx menu buf tree before =
    swcli_tokenize_validator ctx buf tree before
      (λ token part. swcli_valid_number token part (limits_of menu tree))

unfoldable pub swcli_tokenize_mac : Context → Text → List ℕ → TokenizeOut → Bool × TokenizeOut
swcli_tokenize_mac ctx buf tree before = swcli_tokenize_validator ctx buf tree before valid_mac

unfoldable pub swcli_tokenize_ip : Context → Text → List ℕ → TokenizeOut → Bool × TokenizeOut
swcli_tokenize_ip ctx buf tree before = swcli_tokenize_validator ctx buf tree before valid_ip

-- a call through the pointer `tokenize`
unfoldable pub call_tokenizer :
    Tokenizer → Context → Menu → Text → List ℕ → TokenizeOut → Bool × TokenizeOut
call_tokenizer line ctx menu buf tree out = swcli_tokenize_line ctx buf tree out
call_tokenizer word ctx menu buf tree out = swcli_tokenize_word ctx buf tree out
call_tokenizer word_mixed ctx menu buf tree out = swcli_tokenize_word_mixed ctx menu buf tree out
call_tokenizer line_mixed ctx menu buf tree out = swcli_tokenize_line_mixed ctx menu buf tree out
call_tokenizer number ctx menu buf tree out = swcli_tokenize_number ctx menu buf tree out
call_tokenizer mac ctx menu buf tree out = swcli_tokenize_mac ctx buf tree out
call_tokenizer ip ctx menu buf tree out = swcli_tokenize_ip ctx buf tree out

abbrev pub nodes_of : Option (List ℕ) → List ℕ
nodes_of none = []
nodes_of (some nodes) = nodes

-- the call through the pointer, or of cli_tokenize where it is NULL
unfoldable pub tokenize_by :
    Option Tokenizer → Context → Menu → Text → Option (List ℕ) → TokenizeOut → Bool × TokenizeOut
tokenize_by none ctx menu buf tree out = cli_tokenize ctx menu buf tree out
tokenize_by (some f) ctx menu buf tree out = call_tokenizer f ctx menu buf (nodes_of tree) out

-- The tokenizer of the node, on what is below the node.
abbrev pub tokenize_at : Context → Menu → ℕ → Text → TokenizeOut → Bool × TokenizeOut
tokenize_at ctx menu node cmd out =
    tokenize_by (menu node).tokenize ctx menu cmd (menu node).subtree out
