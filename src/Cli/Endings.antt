-- ===== src/Cli/Endings.antt =====
-- The loops of completion and inline help end: each round uses up a token.
use lisa_user.Base.{
  ℕ, zero, suc, ◌+◌, ◌≤◌, ◌<◌, ◌≡◌, refl, Bool, true, false, List, [], ◌∷◌, Option, none, some,
  Text, length, Bool-cases, inl, inr, arith,
}
use lisa_user.Cli.{Context, Menu, TokenizeOut}
use lisa_user.Cli.Tokens.{skip}
use lisa_user.Cli.Tokenizers.{tokenize_at}
use lisa_user.Cli.Exec.{blank_out}
use lisa_user.Cli.Shell.{
  prefer_exact_before, completion_loop, rlshell_completion, Help, help_loop, rlshell_help,
}
use lisa_user.Cli.Bounds.{IsWithin, skip-length}
use lisa_user.Cli.Bounds.Tokenizers.{tokenize_at-IsWithin}
use lisa_user.Cli.Bounds.Marker.{prefer_exact-IsWithin, list-cases, matched-len}

prefer_exact_before-IsWithin :
    (buf : Text) (ws : Bool) (out : TokenizeOut)
    → IsWithin buf out
    → IsWithin buf (prefer_exact_before ws out)
unfolding prefer_exact_before
prefer_exact_before-IsWithin buf true out h = prefer_exact-IsWithin buf out h
prefer_exact_before-IsWithin buf false out h = h

abbrev IsSome {ℓ} : {A : Type ℓ} → Option A → Type 0
IsSome none = ◌≡◌ {A = ℕ} 0 1
IsSome (some a) = Unit

IsSome-value {ℓ} : {A : Type ℓ} (o : Option A) → IsSome o → (a : A) × (o ≡ some a)
IsSome-value none h = absurd (omega arith)
IsSome-value (some a) h = (a, refl)

-- What a round leaves of the line is shorter.
rest_shorter :
    (ctx : Context) (menu : Menu) (node : ℕ) (cmd : Text) (before : TokenizeOut) (i : ℕ)
    (is : List ℕ)
    → let tokenized = tokenize_at ctx menu node cmd before in
      let out = prefer_exact_before tokenized.0 tokenized.1 in
      out.matches ≡ i ∷ is → suc (length (skip (out.offset + out.len) cmd)) ≤ length cmd
rest_shorter ctx menu node cmd before i is e =
    let tokenized = tokenize_at ctx menu node cmd before in
    let out = prefer_exact_before tokenized.0 tokenized.1 in
    let within =
      prefer_exact_before-IsWithin cmd tokenized.0 tokenized.1
        (tokenize_at-IsWithin ctx menu node cmd before) in
    let some_token = matched-len cmd out i is e within in
    omega (arith, skip-length (out.offset + out.len) cmd, within.0)

completion_loop-ends :
    (ctx : Context) (menu : Menu) (fuel node : ℕ) (cmd : Text) (before : TokenizeOut)
    → length cmd < fuel
    → IsSome (completion_loop ctx menu fuel node cmd before)
unfolding completion_loop
completion_loop-ends ctx menu zero node cmd before enough = absurd (omega arith)
completion_loop-ends ctx menu (suc fuel) node cmd before enough =
    let tokenized = tokenize_at ctx menu node cmd before in
    let out = prefer_exact_before tokenized.0 tokenized.1 in
    elim (list-cases out.matches) [
      | inl e ↦ rw (completion_loop, e) tt
      | inr (inl (i, e)) ↦ elim (Bool-cases tokenized.0) [
        | inl ws ↦
            let shorter = rest_shorter ctx menu node cmd before i [] e in
            let ends =
              completion_loop-ends ctx menu fuel i (skip (out.offset + out.len) cmd) out
                (omega (arith, shorter)) in
            rw (completion_loop, e, ws) ends
        | inr no_ws ↦ rw (completion_loop, e, no_ws) tt
      ]
      | inr (inr (i, j, is, e)) ↦ rw (completion_loop, e) tt
    ]

help_loop-ends :
    (ctx : Context) (menu : Menu) (fuel node : ℕ) (cmd : Text) (before : TokenizeOut)
    → length cmd < fuel
    → IsSome (help_loop ctx menu fuel node cmd before)
unfolding help_loop
help_loop-ends ctx menu zero node cmd before enough = absurd (omega arith)
help_loop-ends ctx menu (suc fuel) node cmd before enough =
    let tokenized = tokenize_at ctx menu node cmd before in
    let out = prefer_exact_before tokenized.0 tokenized.1 in
    elim (list-cases out.matches) [
      | inl e ↦ rw (help_loop, e) tt
      | inr (inl (i, e)) ↦ elim (Bool-cases tokenized.0) [
        | inl ws ↦
            let shorter = rest_shorter ctx menu node cmd before i [] e in
            let ends =
              help_loop-ends ctx menu fuel i (skip (out.offset + out.len) cmd) out
                (omega (arith, shorter)) in
            rw (help_loop, e, ws) ends
        | inr no_ws ↦ rw (help_loop, e, no_ws) tt
      ]
      | inr (inr (i, j, is, e)) ↦ elim (Bool-cases tokenized.0) [
        | inl ws ↦ rw (help_loop, e, ws) tt
        | inr no_ws ↦ rw (help_loop, e, no_ws) tt
      ]
    ]

-- Completion and inline help end on every line and every menu: one round more than the line has
-- bytes is enough for their loops.
pub shell_loops_end :
    (ctx : Context) (menu : Menu) (buf : Text)
    → ((answer : Option Text) × (rlshell_completion ctx menu buf ≡ some answer))
      × ((answer : Help) × (rlshell_help ctx menu buf ≡ some answer))
unfolding rlshell_completion rlshell_help
shell_loops_end ctx menu buf = (
  IsSome-value _
      (completion_loop-ends _ menu (suc (length buf)) ctx.root buf blank_out (omega arith)),
  IsSome-value _ (help_loop-ends _ menu (suc (length buf)) ctx.root buf blank_out (omega arith)),
)
