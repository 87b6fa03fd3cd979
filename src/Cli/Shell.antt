-- ===== src/Cli/Shell.antt =====
-- cli/rlshell.c: completion, inline help and execution of a line. What they print or insert is
-- their result; the loops run on fuel, a round for each token.
use lisa_user.Base.{
  ℕ, zero, suc, ◌+◌, Bool, true, false, List, [], ◌∷◌, ◌++◌, map, Option, none, some, Text,
  if◌then◌else◌, ◌==◌, length,
}
use lisa_user.Cli.{Context, Menu, TokenizeOut, completion, inline_help, executing}
use lisa_user.Cli.Tokens.{skip, cli_mask_apply}
use lisa_user.Cli.Tokenizers.{tokenize_at, is_some}
use lisa_user.Cli.Exec.{
  prefer_exact, blank_out, cli_exec, aborted, ambiguous, incomplete, invalid, run_command,
}

-- An exact match counts where whitespace follows it.
unfoldable pub prefer_exact_before : Bool → TokenizeOut → TokenizeOut
prefer_exact_before true out = prefer_exact out
prefer_exact_before false out = out

-- The text that completion inserts at the end of the line, or none for the bell; the outer option
-- is none where the fuel is out.
unfoldable pub completion_loop : Context → Menu → ℕ → ℕ → Text → TokenizeOut → Option (Option Text)
completion_loop ctx menu zero node cmd before = none
completion_loop ctx menu (suc fuel) node cmd before =
    let tokenized = tokenize_at ctx menu node cmd before in
    let out = prefer_exact_before tokenized.0 tokenized.1 in
    elim out.matches [
      | [] ↦ some none
      | i ∷ is ↦ elim is [
        | [] ↦ elim tokenized.0 [
          | true ↦ completion_loop ctx menu fuel i (skip (out.offset + out.len) cmd) out
          | false ↦ some (some (skip out.len (menu i).name ++ (32 ∷ [])))
        ]
        | j ∷ js ↦ some none
      ]
    ]

unfoldable pub rlshell_completion : Context → Menu → Text → Option (Option Text)
rlshell_completion ctx menu buf =
    completion_loop (record ctx { state = completion }) menu (suc (length buf)) ctx.root buf
      blank_out

-- What inline help prints: a message, the names that match, or the nodes below with their help, and
-- whether <cr> is listed.
pub data Help : Type 0 where
  ambiguous_cmd : Help
  invalid_cmd : Help
  matches_brief : List Text → Help
  subtree_list : List (Text × Text) → Bool → Help

unfoldable pub visible_nodes : Menu → ℕ → List ℕ → List (Text × Text)
visible_nodes menu filter [] = []
visible_nodes menu filter (i ∷ tree) =
    let rest = visible_nodes menu filter tree in
    if cli_mask_apply (menu i).mask filter then ((menu i).name, (menu i).help) ∷ rest else rest

unfoldable pub rlshell_list_subtree : Context → Menu → ℕ → Help
rlshell_list_subtree ctx menu node = elim (menu node).subtree [
  | none ↦ subtree_list [] true
  | some tree ↦ subtree_list (visible_nodes menu ctx.node_filter tree) (is_some (menu node).run)
]

unfoldable pub help_loop : Context → Menu → ℕ → ℕ → Text → TokenizeOut → Option Help
help_loop ctx menu zero node cmd before = none
help_loop ctx menu (suc fuel) node cmd before =
    let tokenized = tokenize_at ctx menu node cmd before in
    let out = prefer_exact_before tokenized.0 tokenized.1 in
    elim out.matches [
      | [] ↦ some (if out.len == 0 then rlshell_list_subtree ctx menu node else invalid_cmd)
      | i ∷ is ↦ elim tokenized.0 [
        | false ↦ some (matches_brief (map (λ k. (menu k).name) out.matches))
        | true ↦ elim is [
          | [] ↦ help_loop ctx menu fuel i (skip (out.offset + out.len) cmd) out
          | j ∷ js ↦ some ambiguous_cmd
        ]
      ]
    ]

unfoldable pub rlshell_help : Context → Menu → Text → Option Help
rlshell_help ctx menu buf =
    help_loop (record ctx { state = inline_help }) menu (suc (length buf)) ctx.root buf blank_out

-- What rlshell_exec reports before it returns the status: a message, the column of the marker, or
-- nothing of its own. `plen` is the length of the prompt, and a handler answers with its status.
pub data Report : Type 0 where
  no_report : Report
  report_ambiguous : Text → Report
  report_incomplete : Report
  marker_at : ℕ → Report
  report_rejected : Report
  report_warning : Report

pub record Answer : Type 0 where
  pub status : ℕ
  pub report : Report

-- the switch on the status, with ex_status.offset
unfoldable pub report_of : ℕ → Text → ℕ → ℕ → Report
report_of plen buf offset status =
    if status == 1
    then report_ambiguous buf
    else if status == 2
    then report_incomplete
    else if status == 3
    then marker_at (plen + offset)
    else if status == 4
    then report_rejected
    else if status == 5
    then report_warning
    else no_report

abbrev answered : ℕ → Text → ℕ → ℕ → Answer
answered plen buf status offset = record {
  status = status;
  report = report_of plen buf offset status;
}

-- A handler is a function of its tokens and nodes to its status and to what it leaves in ex_status;
-- the result is none where the assert of cli_exec fails.
unfoldable pub rlshell_exec :
    (ℕ → List Text → List ℕ → ℕ × ℕ) → ℕ → Context → Menu → Text → Option Answer
rlshell_exec handle plen ctx menu buf =
    elim (cli_exec (record ctx { state = executing }) menu buf) [
      | aborted ↦ none
      | ambiguous ↦ some (answered plen buf 1 0)
      | incomplete ↦ some (answered plen buf 2 0)
      | invalid offset ↦ some (answered plen buf 3 offset)
      | run_command handler tokv nodev ↦
          let left = handle handler tokv nodev in some (answered plen buf left.0 left.1)
    ]
