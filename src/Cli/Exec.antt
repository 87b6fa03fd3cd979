-- ===== src/Cli/Exec.antt =====
-- cli_exec of cli/cli.c.
use lisa_user.Base.{
  ℕ, zero, suc, ◌+◌, true, false, List, [], ◌∷◌, ◌++◌, Option, none, some, Text, if◌then◌else◌,
  ◌==◌,
}
use lisa_user.Cli.{Context, Menu, TokenizeOut, max_menu_depth}
use lisa_user.Cli.Tokens.{skip, token_of}
use lisa_user.Cli.Tokenizers.{tokenize_at}

-- What cli_exec ends with: the assert that fails, one of its codes (with ex_status.offset), or the
-- call of a handler with its tokens and its nodes, whose status is then the answer.
pub data ExecOutcome : Type 0 where
  aborted : ExecOutcome
  ambiguous : ExecOutcome
  incomplete : ExecOutcome
  invalid : ℕ → ExecOutcome
  run_command : ℕ → List Text → List ℕ → ExecOutcome

-- An exact match has priority over the other matches.
unfoldable pub prefer : Option ℕ → TokenizeOut → TokenizeOut
prefer none out = out
prefer (some i) out = record out { matches = i ∷ [] }

abbrev pub prefer_exact : TokenizeOut → TokenizeOut
prefer_exact out = prefer out.exact_match out

-- The call of the pointer `run`, or CLI_EX_INCOMPLETE without one.
unfoldable pub run_or : Option ℕ → List Text → List ℕ → ExecOutcome
run_or none tokv nodev = incomplete
run_or (some handler) tokv nodev = run_command handler tokv nodev

abbrev pub run_node : Menu → ℕ → List Text → List ℕ → ExecOutcome
run_node menu node tokv nodev = run_or (menu node).run tokv nodev

-- The loop, with room for so many more tokens before the assert fails; `at` is cmd - buf.
unfoldable pub exec_loop :
    Context → Menu → ℕ → ℕ → Text → ℕ → TokenizeOut → List Text → List ℕ → ExecOutcome
exec_loop ctx menu zero node cmd at before tokv nodev = aborted
exec_loop ctx menu (suc room) node cmd at before tokv nodev =
    let tokenized = tokenize_at ctx menu node cmd before in
    let out = prefer_exact tokenized.1 in
    elim out.matches [
      | [] ↦
          if out.len == 0
          then run_node menu node tokv nodev
          else invalid (at + out.offset + out.ok_len)
      | i ∷ is ↦ elim is [
        | [] ↦ elim tokenized.0 [
          | true ↦
              exec_loop ctx menu room i (skip (out.offset + out.len) cmd)
                (at + (out.offset + out.len)) out (tokv ++ (token_of cmd out ∷ []))
                (nodev ++ (i ∷ []))
          | false ↦ run_node menu i (tokv ++ (token_of cmd out ∷ [])) (nodev ++ (i ∷ []))
        ]
        | j ∷ js ↦ ambiguous
      ]
    ]

-- `out` before the first call, whose content is not read
abbrev pub blank_out : TokenizeOut
blank_out = record {
  offset = 0;
  len = 0;
  ok_len = 0;
  matches = [];
  exact_match = none;
  partial_match = none;
}

unfoldable pub cli_exec : Context → Menu → Text → ExecOutcome
cli_exec ctx menu buf = exec_loop ctx menu max_menu_depth ctx.root buf 0 blank_out [] []
