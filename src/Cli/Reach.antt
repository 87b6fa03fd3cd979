-- ===== src/Cli/Reach.antt =====
-- The nodes that a tokenizer finds stand in the tree, and those of cli_tokenize and of the mixed
-- tokenizers pass the filter of the context.
pub mod Tokenizers
pub mod Path
use mathlib.Core.Path.{subst}
use lisa_user.Base.{
  sym, ◌∙◌, ℕ, zero, suc, ◌≡◌, refl, Bool, true, false, not, ◌&&◌, ◌||◌, List, [], ◌∷◌, Option,
  none, some, Text, text_eq, take, length, All, if◌then◌else◌, ◌==◌, leb, ltb, if-split, if-keep,
  arith, ◌⊎◌, inl, inr, Option-cases,
}
use lisa_user.Cli.{
  Context, Menu, TokenizeOut, Tokenizer, line, word, word_mixed, line_mixed, number, mac, ip,
  tokenize_max_matches,
}
use lisa_user.Cli.Tokens.{
  cli_mask_apply, cli_next_token, cli_init_tok_out, whitespace, behind, token_of, same_start, skip,
}
use lisa_user.Cli.Tokenize.{
  is_match, exact_or, lookup_token, shorten, registered, tokenize_word, cli_tokenize,
}
use lisa_user.Cli.Tokenizers.{
  is_completion, is_exec, first_node, lookup_mixed, swcli_tokenize_mixed, swcli_tokenize_line,
  swcli_tokenize_word, swcli_tokenize_word_mixed, is_line, line_name, swcli_tokenize_line_mixed,
  validated, valid_prefix, swcli_tokenize_validator, swcli_tokenize_number, swcli_tokenize_mac,
  swcli_tokenize_ip, call_tokenizer, nodes_of, tokenize_at,
}
use lisa_user.Cli.Bounds.{IsNext, cli_next_token-IsNext}

abbrev pub IsAmong : ℕ → List ℕ → Type 0
IsAmong b [] = ◌≡◌ {A = ℕ} 0 1
IsAmong b (x ∷ xs) = (b ≡ x) ⊎ IsAmong b xs

-- A node of the tree, which passes the filter if the tokenizer applies it.
abbrev pub IsOpen : ℕ → Menu → Bool → List ℕ → ℕ → Type 0
IsOpen filter menu filtering tree b =
    IsAmong b tree × (filtering ≡ true → cli_mask_apply (menu b).mask filter ≡ true)

All-wider :
    (filter : ℕ) (menu : Menu) (x : ℕ) (tree matches : List ℕ)
    → All (IsOpen filter menu true tree) matches
    → All (IsOpen filter menu true (x ∷ tree)) matches
All-wider filter menu x tree [] h = tt
All-wider filter menu x tree (b ∷ matches) h =
    ((inr h.0.0, h.0.1), All-wider filter menu x tree matches h.1)

-- what a loop over the tree gives, with the exact match that it began with
abbrev pub FromLoop : ℕ → Menu → List ℕ → Option ℕ → List ℕ × Option ℕ → Type 0
FromLoop filter menu tree exact found =
    All (IsOpen filter menu true tree) found.0
    × ((b : ℕ) → found.1 ≡ some b → (exact ≡ some b) ⊎ IsOpen filter menu true tree b)

-- One more node at the front, which is visible if it is registered; `next` is the exact match then.
FromLoop-step :
    (filter : ℕ) (menu : Menu) (i : ℕ) (tree : List ℕ) (full hit : Bool) (exact next : Option ℕ)
    (rest : List ℕ × Option ℕ)
    → (hit ≡ true → cli_mask_apply (menu i).mask filter ≡ true)
    → ((b : ℕ) → next ≡ some b → (exact ≡ some b) ⊎ ((b ≡ i) × (hit ≡ true)))
    → FromLoop filter menu tree next rest
    → FromLoop filter menu
        (i ∷ tree)
        exact
        (if full then ([], exact) else if hit then (i ∷ rest.0, rest.1) else rest)
FromLoop-step filter menu i tree full hit exact next rest visible new h =
    let exact_one : (b : ℕ)
        → rest.1 ≡ some b
        → (exact ≡ some b) ⊎ IsOpen filter menu true (i ∷ tree) b =
      λ b e. elim (h.1 b e) [
        | inr found ↦ inr (inr found.0, found.1)
        | inl same ↦ elim (new b same) [
          | inl old ↦ inl old
          | inr (this, hits) ↦ inr (inl this, λ t. rw (this) (visible hits))
        ]
      ] in
    let wider = All-wider filter menu i tree rest.0 h.0 in
    if-keep (FromLoop filter menu (i ∷ tree) exact) full _ _ (tt, λ b e. inl e)
      (if-split (FromLoop filter menu (i ∷ tree) exact) hit _ _
        (λ hits. (((inl refl, λ t. visible hits), wider), exact_one))
        (λ misses. (wider, exact_one)))

exact_or-new :
    (menu : Menu) (token : Text) (i b : ℕ) (hit : Bool) (exact : Option ℕ)
    → (if hit then exact_or menu token i exact else exact) ≡ some b
    → (exact ≡ some b) ⊎ ((b ≡ i) × (hit ≡ true))
exact_or-new menu token i b false exact e = inl e
exact_or-new menu token i b true exact e = ground arith

pub lookup_token-FromLoop :
    (filter : ℕ) (menu : Menu) (token : Text) (tree : List ℕ) (j : ℕ) (exact : Option ℕ)
    → FromLoop filter menu tree exact (lookup_token menu filter token tree j exact)
unfolding lookup_token is_match
lookup_token-FromLoop filter menu token [] j exact = (tt, λ b e. inl e)
lookup_token-FromLoop filter menu token (i ∷ tree) j exact =
    FromLoop-step filter menu i tree (leb tokenize_max_matches j) (is_match menu filter token i)
      exact _ _ (λ t. ground arith) (λ b e. exact_or-new menu token i b _ exact e)
      (lookup_token-FromLoop filter menu token tree _ _)

mixed-new :
    (menu : Menu) (token : Text) (i b : ℕ) (hit is_word : Bool) (exact : Option ℕ)
    → (if hit && not is_word then exact_or menu token i exact else exact) ≡ some b
    → (exact ≡ some b) ⊎ ((b ≡ i) × (hit ≡ true))
mixed-new menu token i b false is_word exact e = inl e
mixed-new menu token i b true true exact e = inl e
mixed-new menu token i b true false exact e = exact_or-new menu token i b true exact e

pub lookup_mixed-FromLoop :
    (filter : ℕ) (menu : Menu) (token special : Text) (shown : Bool) (tree : List ℕ) (j : ℕ)
    (exact : Option ℕ)
    → FromLoop filter menu tree exact (lookup_mixed menu filter token special shown tree j exact)
unfolding lookup_mixed
lookup_mixed-FromLoop filter menu token special shown [] j exact = (tt, λ b e. inl e)
lookup_mixed-FromLoop filter menu token special shown (i ∷ tree) j exact =
    FromLoop-step filter menu i tree (leb tokenize_max_matches j) _ exact _ _ (λ t. ground arith)
      (λ b e. mixed-new menu token i b _ (text_eq (menu i).name special) exact e)
      (lookup_mixed-FromLoop filter menu token special shown tree _ _)
