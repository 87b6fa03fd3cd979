-- ===== src/Cli/Reach/Path.antt =====
-- A command that cli_exec runs lies at the end of a path of the menu, and a handler behind a mask is
-- not called where a tokenizer that filters leads to it.
use mathlib.Core.Path.{subst}
use lisa_user.Base.{
  ℕ, zero, suc, ◌≡◌, refl, sym, List, [], ◌∷◌, ◌++◌, ◌+◌, Option, none, some, Text, All, ◌==◌,
  if-keep, Bool-cases, inl, inr, arith,
}
use lisa_user.Cli.{Context, Menu, TokenizeOut, max_menu_depth}
use lisa_user.Cli.Tokens.{skip, token_of}
use lisa_user.Cli.Tokenizers.{tokenize_at}
use lisa_user.Cli.Exec.{
  ExecOutcome, aborted, ambiguous, incomplete, invalid, run_command, prefer, prefer_exact, run_or,
  exec_loop, blank_out, cli_exec,
}
use lisa_user.Cli.Bounds.Marker.{list-cases}
use lisa_user.Cli.Reach.Tokenizers.{IsChild, AreFound, tokenize_at-AreFound}

-- Each node is a child of the one before, and has a token.
abbrev pub IsPath : (ℕ → ℕ → Type 0) → ℕ → List Text → List ℕ → Type 0
IsPath R a [] [] = Unit
IsPath R a [] (b ∷ bs) = ◌≡◌ {A = ℕ} 0 1
IsPath R a (t ∷ ts) [] = ◌≡◌ {A = ℕ} 0 1
IsPath R a (t ∷ ts) (b ∷ bs) = R a b × IsPath R b ts bs

abbrev pub end_of : ℕ → List ℕ → ℕ
end_of a [] = a
end_of a (b ∷ bs) = end_of b bs

IsPath-append :
    (R : ℕ → ℕ → Type 0) (a : ℕ) (ts : List Text) (bs : List ℕ) (t : Text) (b : ℕ)
    → IsPath R a ts bs
    → R (end_of a bs) b
    → IsPath R a (ts ++ (t ∷ [])) (bs ++ (b ∷ []))
IsPath-append R a [] [] t b h r = (r, tt)
IsPath-append R a [] (c ∷ bs) t b h r = absurd (omega arith)
IsPath-append R a (u ∷ ts) [] t b h r = absurd (omega arith)
IsPath-append R a (u ∷ ts) (c ∷ bs) t b h r = (h.0, IsPath-append R c ts bs t b h.1 r)

end_of-append : (a : ℕ) (bs : List ℕ) (b : ℕ) → end_of a (bs ++ (b ∷ [])) ≡ b
end_of-append a [] b = refl
end_of-append a (c ∷ bs) b = end_of-append c bs b

prefer-AreFound :
    (P : ℕ → Type 0) (exact : Option ℕ) (out : TokenizeOut)
    → out.exact_match ≡ exact
    → AreFound P out
    → AreFound P (prefer exact out)
unfolding prefer
prefer-AreFound P none out e h = h
prefer-AreFound P (some i) out e h = ((h.1 i e, tt), h.1)

-- A command that is run: its nodes are a path from the root, and the handler is that of the last.
abbrev pub IsReached : ℕ → Menu → ℕ → ExecOutcome → Type 0
IsReached filter menu root aborted = Unit
IsReached filter menu root ambiguous = Unit
IsReached filter menu root incomplete = Unit
IsReached filter menu root (invalid offset) = Unit
IsReached filter menu root (run_command handler tokv nodev) =
    IsPath (IsChild filter menu) root tokv nodev × ((menu (end_of root nodev)).run ≡ some handler)

run_or-IsReached :
    (filter : ℕ) (menu : Menu) (root node : ℕ) (run : Option ℕ) (tokv : List Text) (nodev : List ℕ)
    → (menu node).run ≡ run
    → IsPath (IsChild filter menu) root tokv nodev
    → end_of root nodev ≡ node
    → IsReached filter menu root (run_or run tokv nodev)
unfolding run_or
run_or-IsReached filter menu root node none tokv nodev e path ends = tt
run_or-IsReached filter menu root node (some handler) tokv nodev e path ends = (path, rw (ends) e)

exec_loop-IsReached :
    (ctx : Context) (menu : Menu) (root room node : ℕ) (cmd : Text) (at : ℕ) (before : TokenizeOut)
    (tokv : List Text) (nodev : List ℕ)
    → IsPath (IsChild ctx.node_filter menu) root tokv nodev
    → end_of root nodev ≡ node
    → IsReached ctx.node_filter menu root (exec_loop ctx menu room node cmd at before tokv nodev)
unfolding exec_loop
exec_loop-IsReached ctx menu root zero node cmd at before tokv nodev path ends = tt
exec_loop-IsReached ctx menu root (suc room) node cmd at before tokv nodev path ends =
    let filter = ctx.node_filter in
    let tokenized = tokenize_at ctx menu node cmd before in
    let out = prefer_exact tokenized.1 in
    let found =
      prefer-AreFound (IsChild filter menu node) tokenized.1.exact_match tokenized.1 refl
        (tokenize_at-AreFound ctx menu node cmd before) in
    let token = token_of cmd out in
    elim (list-cases out.matches) [
      | inl e ↦
          rw (exec_loop, e)
            (if-keep (IsReached filter menu root) (out.len == 0) _ _
              (run_or-IsReached filter menu root node (menu node).run tokv nodev refl path ends) tt)
      | inr (inl (i, e)) ↦
          let all : All (IsChild filter menu node) (i ∷ []) =
            subst (All (IsChild filter menu node)) e found.0 in
          let child : IsChild filter menu (end_of root nodev) i =
            subst (λ n. IsChild filter menu n i) (sym ends) all.0 in
          let longer = IsPath-append (IsChild filter menu) root tokv nodev token i path child in
          let there = end_of-append root nodev i in
          elim (Bool-cases tokenized.0) [
            | inl ws ↦
                rw (exec_loop, e, ws)
                  (exec_loop-IsReached ctx menu root room i (skip (out.offset + out.len) cmd) _ out
                    _ _ longer there)
            | inr no_ws ↦
                rw (exec_loop, e, no_ws)
                  (run_or-IsReached filter menu root i (menu i).run _ _ refl longer there)
          ]
      | inr (inr (i, j, is, e)) ↦ rw (exec_loop, e) tt
    ]

-- A handler that cli_exec calls is that of the last node of a path from the root: each node stands
-- in the subtree of the one before, with one token of the line for it, and below a node whose
-- tokenizer is cli_tokenize or a mixed one its mask passes the filter of the context.
pub cli_exec-reached :
    (ctx : Context) (menu : Menu) (buf : Text) (handler : ℕ) (tokv : List Text) (nodev : List ℕ)
    → cli_exec ctx menu buf ≡ run_command handler tokv nodev
    → IsPath (IsChild ctx.node_filter menu) ctx.root tokv nodev
      × ((menu (end_of ctx.root nodev)).run ≡ some handler)
unfolding cli_exec
cli_exec-reached ctx menu buf handler tokv nodev e =
    subst (IsReached ctx.node_filter menu ctx.root) e
      (exec_loop-IsReached ctx menu ctx.root max_menu_depth ctx.root buf 0 blank_out [] [] tt refl)
