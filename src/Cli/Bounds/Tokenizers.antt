-- ===== src/Cli/Bounds/Tokenizers.antt =====
-- cli_tokenize and the tokenizers of cli/lib/tokenizers.c stay inside the line.
use lisa_user.Base.{
  ℕ, zero, suc, ◌≤◌, ◌≡◌, Bool, true, false, not, ◌&&◌, List, [], ◌∷◌, Option, none, some, Text,
  take, if◌then◌else◌, ltb, if-split, if-keep, arith, Option-cases, inl, inr,
}
use lisa_user.Cli.{
  Context, Menu, TokenizeOut, line, word, word_mixed, line_mixed, number, mac, ip, Tokenizer,
}
use lisa_user.Cli.Tokens.{whitespace, cli_next_token, skip, behind, token_of}
use lisa_user.Cli.Tokenize.{first_with, shorten, registered, tokenize_word, cli_tokenize}
use lisa_user.Cli.Tokenizers.{
  is_completion, is_exec, swcli_tokenize_line, swcli_tokenize_word, swcli_tokenize_mixed,
  swcli_tokenize_word_mixed, is_line, line_name, swcli_tokenize_line_mixed, valid_prefix, validated,
  swcli_tokenize_validator, swcli_tokenize_number, swcli_tokenize_mac, swcli_tokenize_ip,
  call_tokenizer, nodes_of, tokenize_by, tokenize_at,
}
use lisa_user.Cli.Bounds.{IsNext, IsWithin, cli_next_token-IsNext, next-IsWithin, found-Fits}

pub shorten-le :
    (menu : Menu) (token : Text) (tree : List ℕ) (k : ℕ) → (shorten menu token tree k).0 ≤ k
unfolding shorten
shorten-le menu token tree zero = omega arith
shorten-le menu token tree (suc zero) = omega arith
shorten-le menu token tree (suc (suc k)) =
    let shorter = shorten-le menu token tree (suc k) in
    elim (Option-cases (first_with menu (take (suc k) token) tree)) [
      | inl e ↦ rw (shorten, e) (omega (arith, shorter))
      | inr (i, e) ↦ rw (shorten, e) (omega arith)
    ]

registered-IsWithin :
    (buf : Text) (r : Bool × TokenizeOut) (ms : List ℕ) (exact : Option ℕ)
    (shortened : ℕ × Option ℕ)
    → IsNext buf r
    → r.0 ≡ true
    → shortened.0 ≤ r.1.len
    → IsWithin buf (registered r.1 ms exact shortened)
unfolding registered
registered-IsWithin buf r [] exact shortened h e le =
    found-Fits buf r _ _ _ _ h e h.0 (omega arith) le
registered-IsWithin buf r (i ∷ is) exact shortened h e le =
    found-Fits buf r _ _ _ _ h e h.0 (omega arith) (omega arith)

tokenize_word-IsWithin :
    (ctx : Context) (menu : Menu) (buf token : Text) (tree : List ℕ) (r : Bool × TokenizeOut)
    → IsNext buf r
    → r.0 ≡ true
    → IsWithin buf (tokenize_word ctx menu token tree r.1)
unfolding tokenize_word
tokenize_word-IsWithin ctx menu buf token tree r h e =
    registered-IsWithin buf r _ _ _ h e (shorten-le menu token tree r.1.len)

-- A tokenizer that returns early on a line of whitespace.
early-IsWithin :
    (buf : Text) (next : Bool × TokenizeOut) (r : Bool × TokenizeOut)
    → IsNext buf next
    → (next.0 ≡ true → IsWithin buf r.1)
    → IsWithin buf (if not next.0 then (false, next.1) else r).1
early-IsWithin buf next r h found =
    if-split (λ (q : Bool × TokenizeOut). IsWithin buf q.1) (not next.0) _ _
      (λ e. next-IsWithin buf next h (ground arith)) (λ e. found (ground arith))

cli_tokenize-IsWithin :
    (ctx : Context) (menu : Menu) (buf : Text) (tree : Option (List ℕ)) (before : TokenizeOut)
    → IsWithin buf (cli_tokenize ctx menu buf tree before).1
unfolding cli_tokenize
cli_tokenize-IsWithin ctx menu buf none before =
    let next = cli_next_token buf before in
    let h = cli_next_token-IsNext buf before in
    early-IsWithin buf next _ h
      (λ e. found-Fits buf next _ _ _ _ h e h.0 (omega arith) (omega (arith, h.1)))
cli_tokenize-IsWithin ctx menu buf (some nodes) before =
    let next = cli_next_token buf before in
    let h = cli_next_token-IsNext buf before in
    early-IsWithin buf next _ h
      (λ e. tokenize_word-IsWithin ctx menu buf (token_of buf next.1) nodes next h e)

valid_prefix-le :
    (valid : Text → Bool → Bool) (token : Text) (k : ℕ) (part : Bool)
    → valid_prefix valid token k part ≤ k
unfolding valid_prefix
valid_prefix-le valid token zero part = omega arith
valid_prefix-le valid token (suc k) part =
    let le = valid_prefix-le valid token k true in
    if-keep (λ n. n ≤ suc k) (valid (take (suc k) token) part) (suc k) _ (omega arith)
      (omega (arith, le))

swcli_tokenize_validator-IsWithin :
    (ctx : Context) (buf : Text) (tree : List ℕ) (before : TokenizeOut) (valid : Text → Bool → Bool)
    → IsWithin buf (swcli_tokenize_validator ctx buf tree before valid).1
unfolding swcli_tokenize_validator validated
swcli_tokenize_validator-IsWithin ctx buf tree before valid =
    let next = cli_next_token buf before in
    let out = next.1 in
    let h = cli_next_token-IsNext buf before in
    let ws = whitespace (behind buf out) in
    let part = not ws && not (is_exec ctx.state) in
    let le = valid_prefix-le valid (skip out.offset buf) out.len part in
    early-IsWithin buf next _ h (λ e.
      if-keep (λ (q : Bool × TokenizeOut). IsWithin buf q.1) (is_completion ctx.state && not ws) _ _
        (found-Fits buf next _ _ _ _ h e h.0 (omega arith) (omega (arith, h.1)))
        (if-keep (λ q. IsWithin buf q)
          (ltb (valid_prefix valid (skip out.offset buf) out.len part) out.len) _ _
          (found-Fits buf next _ _ _ _ h e h.0 (omega arith) le)
          (found-Fits buf next _ _ _ _ h e h.0 (omega arith) le)))

swcli_tokenize_mixed-IsWithin :
    (ctx : Context) (menu : Menu) (buf : Text) (tree : List ℕ) (before : TokenizeOut)
    (special : Text) (enable_ws : Bool)
    → IsWithin buf (swcli_tokenize_mixed ctx menu buf tree before special enable_ws).1
unfolding swcli_tokenize_mixed
swcli_tokenize_mixed-IsWithin ctx menu buf tree before special enable_ws =
    let next = cli_next_token buf before in
    let h = cli_next_token-IsNext buf before in
    early-IsWithin buf next _ h
      (λ e. found-Fits buf next _ _ _ _ h e h.0 (omega arith) (omega arith))

swcli_tokenize_line-IsWithin :
    (ctx : Context) (buf : Text) (tree : List ℕ) (before : TokenizeOut)
    → IsWithin buf (swcli_tokenize_line ctx buf tree before).1
unfolding swcli_tokenize_line
swcli_tokenize_line-IsWithin ctx buf tree before =
    let next = cli_next_token buf before in
    let h = cli_next_token-IsNext buf before in
    early-IsWithin buf next _ h (λ e.
      found-Fits buf next _ _ _ _ h e (omega (arith, h.0)) (omega (arith, h.0))
        (omega (arith, h.1)))

swcli_tokenize_word-IsWithin :
    (ctx : Context) (buf : Text) (tree : List ℕ) (before : TokenizeOut)
    → IsWithin buf (swcli_tokenize_word ctx buf tree before).1
unfolding swcli_tokenize_word
swcli_tokenize_word-IsWithin ctx buf tree before =
    let next = cli_next_token buf before in
    let h = cli_next_token-IsNext buf before in
    early-IsWithin buf next _ h
      (λ e. found-Fits buf next _ _ _ _ h e h.0 (omega arith) (omega (arith, h.1)))

-- A single match called LINE takes the rest of the line, so the token was not empty.
swcli_tokenize_line_mixed-IsWithin :
    (ctx : Context) (menu : Menu) (buf : Text) (tree : List ℕ) (before : TokenizeOut)
    → IsWithin buf (swcli_tokenize_line_mixed ctx menu buf tree before).1
unfolding swcli_tokenize_line_mixed
swcli_tokenize_line_mixed-IsWithin ctx menu buf tree before =
    let mixed = swcli_tokenize_mixed ctx menu buf tree before line_name false in
    let h = swcli_tokenize_mixed-IsWithin ctx menu buf tree before line_name false in
    if-keep (λ (q : Bool × TokenizeOut). IsWithin buf q.1) (is_line menu mixed.1.matches) _ _
      (omega arith, omega arith, λ z. h.2 (omega arith)) h

call_tokenizer-IsWithin :
    (f : Tokenizer) (ctx : Context) (menu : Menu) (buf : Text) (tree : List ℕ)
    (before : TokenizeOut)
    → IsWithin buf (call_tokenizer f ctx menu buf tree before).1
unfolding call_tokenizer swcli_tokenize_word_mixed swcli_tokenize_number swcli_tokenize_mac
    swcli_tokenize_ip
call_tokenizer-IsWithin line ctx menu buf tree before =
    swcli_tokenize_line-IsWithin ctx buf tree before
call_tokenizer-IsWithin word ctx menu buf tree before =
    swcli_tokenize_word-IsWithin ctx buf tree before
call_tokenizer-IsWithin word_mixed ctx menu buf tree before =
    swcli_tokenize_mixed-IsWithin ctx menu buf tree before _ true
call_tokenizer-IsWithin line_mixed ctx menu buf tree before =
    swcli_tokenize_line_mixed-IsWithin ctx menu buf tree before
call_tokenizer-IsWithin number ctx menu buf tree before =
    swcli_tokenize_validator-IsWithin ctx buf tree before _
call_tokenizer-IsWithin mac ctx menu buf tree before =
    swcli_tokenize_validator-IsWithin ctx buf tree before _
call_tokenizer-IsWithin ip ctx menu buf tree before =
    swcli_tokenize_validator-IsWithin ctx buf tree before _

tokenize_by-IsWithin :
    (f : Option Tokenizer) (ctx : Context) (menu : Menu) (buf : Text) (tree : Option (List ℕ))
    (before : TokenizeOut)
    → IsWithin buf (tokenize_by f ctx menu buf tree before).1
unfolding tokenize_by
tokenize_by-IsWithin none ctx menu buf tree before = cli_tokenize-IsWithin ctx menu buf tree before
tokenize_by-IsWithin (some f) ctx menu buf tree before =
    call_tokenizer-IsWithin f ctx menu buf (nodes_of tree) before

pub tokenize_at-IsWithin :
    (ctx : Context) (menu : Menu) (node : ℕ) (cmd : Text) (before : TokenizeOut)
    → IsWithin cmd (tokenize_at ctx menu node cmd before).1
tokenize_at-IsWithin ctx menu node cmd before =
    tokenize_by-IsWithin (menu node).tokenize ctx menu cmd (menu node).subtree before
