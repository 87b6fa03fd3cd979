-- ===== src/Cli/Reach/Tokenizers.antt =====
-- Each tokenizer finds nodes of its tree only, and cli_tokenize and the mixed tokenizers only those
-- that pass the filter.
use mathlib.Core.Path.{subst}
use lisa_user.Base.{
  sym, ◌∙◌, ℕ, ◌≡◌, refl, Bool, true, false, not, ◌&&◌, List, [], ◌∷◌, Option, none, some, Text,
  All, if◌then◌else◌, ltb, if-split, if-keep, arith, ◌⊎◌, inl, inr, Bool-cases,
}
use lisa_user.Cli.{
  Context, Menu, TokenizeOut, Tokenizer, line, word, word_mixed, line_mixed, number, mac, ip,
}
use lisa_user.Cli.Tokens.{cli_next_token, whitespace, behind, token_of, skip}
use lisa_user.Cli.Tokenize.{registered, tokenize_word, cli_tokenize}
use lisa_user.Cli.Tokenizers.{
  is_completion, is_exec, first_node, swcli_tokenize_mixed, swcli_tokenize_line,
  swcli_tokenize_word, swcli_tokenize_word_mixed, is_line, line_name, swcli_tokenize_line_mixed,
  validated, valid_prefix, swcli_tokenize_validator, swcli_tokenize_number, swcli_tokenize_mac,
  swcli_tokenize_ip, call_tokenizer, nodes_of, tokenize_by, tokenize_at,
}
use lisa_user.Cli.Bounds.{IsNext, cli_next_token-IsNext}
use lisa_user.Cli.Reach.{IsOpen, FromLoop, lookup_token-FromLoop, lookup_mixed-FromLoop}

-- What holds of the matches and of the exact match behind a tokenizer.
abbrev pub AreFound : (ℕ → Type 0) → TokenizeOut → Type 0
AreFound P out = All P out.matches × ((b : ℕ) → out.exact_match ≡ some b → P b)

-- The early return on whitespace, for which nothing is found.
early-AreFound :
    (P : ℕ → Type 0) (buf : Text) (next r : Bool × TokenizeOut)
    → IsNext buf next
    → AreFound P r.1
    → AreFound P (if not next.0 then (false, next.1) else r).1
early-AreFound P buf next r h found =
    if-split (λ (q : Bool × TokenizeOut). AreFound P q.1) (not next.0) _ _
      (λ e.
        let empty = (h.4 (ground arith)).1 in
        (subst (All P) (sym empty) tt, λ b x. absurd (cc (sym h.2 ∙ x))))
      (λ e. found)

from_none :
    (filter : ℕ) (menu : Menu) (tree : List ℕ) (exact : Option ℕ) (found : List ℕ × Option ℕ)
    → exact ≡ none
    → FromLoop filter menu tree exact found
    → All (IsOpen filter menu true tree) found.0
      × ((b : ℕ) → found.1 ≡ some b → IsOpen filter menu true tree b)
from_none filter menu tree exact found nothing h =
    (h.0, λ b e. elim (h.1 b e) [ inl same ↦ absurd (cc (sym nothing ∙ same)) | inr o ↦ o ])

registered-AreFound :
    (P : ℕ → Type 0) (out : TokenizeOut) (ms : List ℕ) (exact : Option ℕ) (shortened : ℕ × Option ℕ)
    → All P ms
    → ((b : ℕ) → exact ≡ some b → P b)
    → AreFound P (registered out ms exact shortened)
unfolding registered
registered-AreFound P out [] exact shortened h e = (tt, e)
registered-AreFound P out (i ∷ is) exact shortened h e = (h, e)

cli_tokenize-AreFound :
    (ctx : Context) (menu : Menu) (buf : Text) (tree : Option (List ℕ)) (before : TokenizeOut)
    → AreFound
        (IsOpen ctx.node_filter menu true (nodes_of tree))
        (cli_tokenize ctx menu buf tree before).1
unfolding cli_tokenize tokenize_word
cli_tokenize-AreFound ctx menu buf none before =
    let h = cli_next_token-IsNext buf before in
    early-AreFound _ buf (cli_next_token buf before) _ h (tt, λ b x. absurd (cc (sym h.2 ∙ x)))
cli_tokenize-AreFound ctx menu buf (some tree) before =
    let h = cli_next_token-IsNext buf before in
    let next = cli_next_token buf before in
    let found =
      from_none ctx.node_filter menu tree next.1.exact_match _ h.2
        (lookup_token-FromLoop ctx.node_filter menu (token_of buf next.1) tree 0 _) in
    early-AreFound _ buf next _ h (registered-AreFound _ next.1 _ _ _ found.0 found.1)

swcli_tokenize_mixed-AreFound :
    (ctx : Context) (menu : Menu) (buf : Text) (tree : List ℕ) (before : TokenizeOut)
    (special : Text) (enable_ws : Bool)
    → AreFound
        (IsOpen ctx.node_filter menu true tree)
        (swcli_tokenize_mixed ctx menu buf tree before special enable_ws).1
unfolding swcli_tokenize_mixed
swcli_tokenize_mixed-AreFound ctx menu buf tree before special enable_ws =
    let h = cli_next_token-IsNext buf before in
    let next = cli_next_token buf before in
    early-AreFound _ buf next _ h (
      from_none ctx.node_filter menu tree next.1.exact_match _ h.2
        (lookup_mixed-FromLoop ctx.node_filter menu (token_of buf next.1) special _ tree 0 _))

first_node-IsOpen :
    (filter : ℕ) (menu : Menu) (tree : List ℕ)
    → All (IsOpen filter menu false tree) (first_node tree)
first_node-IsOpen filter menu [] = tt
first_node-IsOpen filter menu (i ∷ tree) = ((inl refl, λ t. absurd cc), tt)

-- A tokenizer that takes the first node, whatever its mask, or none.
first-AreFound :
    (filter : ℕ) (menu : Menu) (buf : Text) (tree : List ℕ) (before : TokenizeOut)
    (r : Bool × TokenizeOut)
    → ((r.1.matches ≡ []) ⊎ (r.1.matches ≡ first_node tree))
    → r.1.exact_match ≡ (cli_next_token buf before).1.exact_match
    → AreFound
        (IsOpen filter menu false tree)
        (if not (cli_next_token buf before).0 then (false, (cli_next_token buf before).1) else r).1
first-AreFound filter menu buf tree before r ms same =
    let h = cli_next_token-IsNext buf before in
    let P = IsOpen filter menu false tree in
    early-AreFound P buf (cli_next_token buf before) r h (
      elim ms [
        | inl e ↦ subst (All P) (sym e) tt
        | inr e ↦ subst (All P) (sym e) (first_node-IsOpen filter menu tree)
      ],
      λ b x. absurd (cc (sym h.2 ∙ sym same ∙ x)),
    )

swcli_tokenize_validator-AreFound :
    (filter : ℕ) (menu : Menu) (ctx : Context) (buf : Text) (tree : List ℕ) (before : TokenizeOut)
    (valid : Text → Bool → Bool)
    → AreFound
        (IsOpen filter menu false tree)
        (swcli_tokenize_validator ctx buf tree before valid).1
unfolding swcli_tokenize_validator validated
swcli_tokenize_validator-AreFound filter menu ctx buf tree before valid =
    let out = (cli_next_token buf before).1 in
    let ws = whitespace (behind buf out) in
    let ok = valid_prefix valid (skip out.offset buf) out.len (not ws && not (is_exec ctx.state)) in
    elim (Bool-cases (is_completion ctx.state && not ws)) [
      | inl e ↦ rw (e) (first-AreFound filter menu buf tree before _ (inl refl) refl)
      | inr e ↦ rw (e) (elim (Bool-cases (ltb ok out.len)) [
        | inl short ↦ rw (short) (first-AreFound filter menu buf tree before _ (inl refl) refl)
        | inr whole ↦ rw (whole) (first-AreFound filter menu buf tree before _ (inr refl) refl)
      ])
    ]

first_or_none :
    (b : Bool) (tree : List ℕ)
    → ((if b then [] else first_node tree) ≡ [])
      ⊎ ((if b then [] else first_node tree) ≡ first_node tree)
first_or_none true tree = inl refl
first_or_none false tree = inr refl

-- the tokenizers that apply the filter
unfoldable pub is_filtering : Option Tokenizer → Bool
is_filtering none = true
is_filtering (some line) = false
is_filtering (some word) = false
is_filtering (some word_mixed) = true
is_filtering (some line_mixed) = true
is_filtering (some number) = false
is_filtering (some mac) = false
is_filtering (some ip) = false

call_tokenizer-AreFound :
    (f : Tokenizer) (ctx : Context) (menu : Menu) (buf : Text) (tree : List ℕ)
    (before : TokenizeOut)
    → AreFound
        (IsOpen ctx.node_filter menu (is_filtering (some f)) tree)
        (call_tokenizer f ctx menu buf tree before).1
unfolding call_tokenizer is_filtering swcli_tokenize_line swcli_tokenize_word
    swcli_tokenize_word_mixed swcli_tokenize_line_mixed swcli_tokenize_number swcli_tokenize_mac
    swcli_tokenize_ip
call_tokenizer-AreFound line ctx menu buf tree before =
    first-AreFound ctx.node_filter menu buf tree before _ (first_or_none _ tree) refl
call_tokenizer-AreFound word ctx menu buf tree before =
    first-AreFound ctx.node_filter menu buf tree before _ (first_or_none _ tree) refl
call_tokenizer-AreFound word_mixed ctx menu buf tree before =
    swcli_tokenize_mixed-AreFound ctx menu buf tree before _ true
call_tokenizer-AreFound line_mixed ctx menu buf tree before =
    let mixed = swcli_tokenize_mixed ctx menu buf tree before line_name false in
    let h = swcli_tokenize_mixed-AreFound ctx menu buf tree before line_name false in
    if-keep (λ (q : Bool × TokenizeOut). AreFound (IsOpen ctx.node_filter menu true tree) q.1)
      (is_line menu mixed.1.matches) _ _ h h
call_tokenizer-AreFound number ctx menu buf tree before =
    swcli_tokenize_validator-AreFound ctx.node_filter menu ctx buf tree before _
call_tokenizer-AreFound mac ctx menu buf tree before =
    swcli_tokenize_validator-AreFound ctx.node_filter menu ctx buf tree before _
call_tokenizer-AreFound ip ctx menu buf tree before =
    swcli_tokenize_validator-AreFound ctx.node_filter menu ctx buf tree before _

-- The nodes that cli_exec may go to from a node.
abbrev pub IsChild : ℕ → Menu → ℕ → ℕ → Type 0
IsChild filter menu a b =
    IsOpen filter menu (is_filtering (menu a).tokenize) (nodes_of (menu a).subtree) b

tokenize_by-AreFound :
    (f : Option Tokenizer) (ctx : Context) (menu : Menu) (buf : Text) (tree : Option (List ℕ))
    (before : TokenizeOut)
    → AreFound
        (IsOpen ctx.node_filter menu (is_filtering f) (nodes_of tree))
        (tokenize_by f ctx menu buf tree before).1
unfolding tokenize_by is_filtering
tokenize_by-AreFound none ctx menu buf tree before = cli_tokenize-AreFound ctx menu buf tree before
tokenize_by-AreFound (some f) ctx menu buf tree before =
    call_tokenizer-AreFound f ctx menu buf (nodes_of tree) before

pub tokenize_at-AreFound :
    (ctx : Context) (menu : Menu) (node : ℕ) (cmd : Text) (before : TokenizeOut)
    → AreFound (IsChild ctx.node_filter menu node) (tokenize_at ctx menu node cmd before).1
tokenize_at-AreFound ctx menu node cmd before =
    tokenize_by-AreFound (menu node).tokenize ctx menu cmd (menu node).subtree before
