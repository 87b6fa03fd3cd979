-- ===== src/Cli/Bounds/Marker.antt =====
-- cli_exec puts the marker of an invalid command inside the line, and its assert does not fail on a
-- line of fewer than 64 bytes.
use lisa_user.Base.{
  ℕ, zero, suc, ◌+◌, ◌≤◌, ◌<◌, ◌≡◌, refl, List, [], ◌∷◌, ◌++◌, Option, none, some, Text, length,
  ◌==◌, Bool-cases, inl, inr, arith, ◌≢◌, ◌⊎◌, sym, ◌∙◌, if-keep,
}
use mathlib.Core.Path.{subst}
use lisa_user.Cli.{Context, Menu, TokenizeOut, max_menu_depth}
use lisa_user.Cli.Tokens.{skip, token_of}
use lisa_user.Cli.Tokenizers.{tokenize_at}
use lisa_user.Cli.Exec.{
  ExecOutcome, aborted, ambiguous, incomplete, invalid, run_command, prefer, prefer_exact, run_or,
  exec_loop, blank_out, cli_exec,
}
use lisa_user.Cli.Bounds.{IsWithin, skip-length}
use lisa_user.Cli.Bounds.Tokenizers.{tokenize_at-IsWithin}

prefer-IsWithin :
    (buf : Text) (exact : Option ℕ) (out : TokenizeOut)
    → out.exact_match ≡ exact
    → IsWithin buf out
    → IsWithin buf (prefer exact out)
unfolding prefer
prefer-IsWithin buf none out e h = h
prefer-IsWithin buf (some i) out e h = (h.0, h.1, λ z. absurd (cc (sym (h.2 z).1 ∙ e)))

pub prefer_exact-IsWithin :
    (buf : Text) (out : TokenizeOut) → IsWithin buf out → IsWithin buf (prefer_exact out)
prefer_exact-IsWithin buf out h = prefer-IsWithin buf out.exact_match out refl h

-- The marker stands inside a line of `size` bytes, and if the assert has failed then no more tokens
-- had room than there were bytes left.
abbrev IsGood : ℕ → ℕ → ℕ → ExecOutcome → Type 0
IsGood size left room aborted = room ≤ left
IsGood size left room ambiguous = Unit
IsGood size left room incomplete = Unit
IsGood size left room (invalid offset) = offset ≤ size
IsGood size left room (run_command handler tokv nodev) = Unit

run_or-IsGood :
    (size left room : ℕ) (run : Option ℕ) (tokv : List Text) (nodev : List ℕ)
    → IsGood size left room (run_or run tokv nodev)
unfolding run_or
run_or-IsGood size left room none tokv nodev = tt
run_or-IsGood size left room (some handler) tokv nodev = tt

next-IsGood :
    (size size' left shorter room : ℕ) (o : ExecOutcome)
    → size' ≡ size
    → suc shorter ≤ left
    → IsGood size' shorter room o
    → IsGood size left (suc room) o
next-IsGood size size' left shorter room aborted same less h = omega arith
next-IsGood size size' left shorter room ambiguous same less h = tt
next-IsGood size size' left shorter room incomplete same less h = tt
next-IsGood size size' left shorter room (invalid offset) same less h = omega arith
next-IsGood size size' left shorter room (run_command handler tokv nodev) same less h = tt

-- The three ways that a round goes on, by the matches that it has found.
pub list-cases {ℓ} :
    {A : Type ℓ} (xs : List A)
    → (xs ≡ [])
      ⊎ ((x : A) × (xs ≡ x ∷ []))
      ⊎ ((x : A) × (y : A) × (ys : List A) × (xs ≡ x ∷ y ∷ ys))
list-cases [] = inl refl
list-cases (x ∷ []) = inr (inl (x, refl))
list-cases (x ∷ y ∷ ys) = inr (inr (x, y, ys, refl))

-- A token that has a match is not empty.
pub matched-len :
    (cmd : Text) (out : TokenizeOut) (i : ℕ) (is : List ℕ)
    → out.matches ≡ i ∷ is
    → IsWithin cmd out
    → 1 ≤ out.len
matched-len cmd out i is e h = elim (Bool-cases (out.len == 0)) [
  | inl z ↦ absurd (cc (e, (h.2 (ground arith)).0))
  | inr n ↦ ground arith
]

exec_loop-IsGood :
    (ctx : Context) (menu : Menu) (room node : ℕ) (cmd : Text) (at : ℕ) (before : TokenizeOut)
    (tokv : List Text) (nodev : List ℕ)
    → IsGood
        (at + length cmd)
        (length cmd)
        room
        (exec_loop ctx menu room node cmd at before tokv nodev)
unfolding exec_loop
exec_loop-IsGood ctx menu zero node cmd at before tokv nodev = omega arith
exec_loop-IsGood ctx menu (suc room) node cmd at before tokv nodev =
    let tokenized = tokenize_at ctx menu node cmd before in
    let out = prefer_exact tokenized.1 in
    let within =
      prefer_exact-IsWithin cmd tokenized.1 (tokenize_at-IsWithin ctx menu node cmd before) in
    elim (list-cases out.matches) [
      | inl e ↦
          rw (exec_loop, e)
            (if-keep (IsGood (at + length cmd) (length cmd) (suc room)) (out.len == 0) _ _
              (run_or-IsGood _ _ _ (menu node).run tokv nodev) (omega (arith, within.0, within.1)))
      | inr (inl (i, e)) ↦ elim (Bool-cases tokenized.0) [
        | inl ws ↦
            let used = out.offset + out.len in
            let later =
              exec_loop-IsGood ctx menu room i (skip used cmd) (at + used) out
                (tokv ++ (token_of cmd out ∷ [])) (nodev ++ (i ∷ [])) in
            let left = skip-length used cmd in
            let some_token = matched-len cmd out i [] e within in
            let same : (at + used) + length (skip used cmd) ≡ at + length cmd =
              omega (arith, left, within.0) in
            rw (exec_loop, e, ws)
              (next-IsGood _ _ _ (length (skip used cmd)) room _ same (omega (arith, left)) later)
        | inr no_ws ↦ rw (exec_loop, e, no_ws) (run_or-IsGood _ _ _ (menu i).run _ _)
      ]
      | inr (inr (i, j, is, e)) ↦ rw (exec_loop, e) tt
    ]

-- On an invalid command, ex_status.offset is no more than the length of the line.
pub cli_exec-marker_inside :
    (ctx : Context) (menu : Menu) (buf : Text) (offset : ℕ)
    → cli_exec ctx menu buf ≡ invalid offset
    → offset ≤ length buf
unfolding cli_exec
cli_exec-marker_inside ctx menu buf offset e =
    let good =
      subst (IsGood (0 + length buf) (length buf) max_menu_depth) e
        (exec_loop-IsGood ctx menu max_menu_depth ctx.root buf 0 blank_out [] []) in
    omega (arith, good)

-- The assert that argc is below MAX_MENU_DEPTH does not fail on a line of fewer than 64 bytes.
pub cli_exec-no_abort :
    (ctx : Context) (menu : Menu) (buf : Text) → length buf < 64 → cli_exec ctx menu buf ≢ aborted
unfolding cli_exec
cli_exec-no_abort ctx menu buf short e =
    let good =
      subst (IsGood (0 + length buf) (length buf) max_menu_depth) e
        (exec_loop-IsGood ctx menu max_menu_depth ctx.root buf 0 blank_out [] []) in
    absurd (omega (arith, good))
