-- ===== src/Cli.antt =====
-- userspace/cli: the command line interface. The structs of cli/cli.h and cli/rlshell.h. A menu node
-- is named by a number, which stands for its address, and a menu gives the node at each; `run` is
-- the number of a command's handler. The handlers themselves are not part of the model.
pub mod Tokens
pub mod Tokenize
pub mod Tokenizers
pub mod Exec
pub mod Bounds
pub mod Endings
pub mod Reach
pub mod Lookup
pub mod Shell
pub mod Addresses
pub mod Vlans
pub mod Trunk
use lisa_user.Base.{ℕ, List, Option, Text}

abbrev pub max_menu_depth : ℕ
max_menu_depth = 64

abbrev pub tokenize_max_matches : ℕ
tokenize_max_matches = 128

-- The array that `priv` points to at a node for a number: its limits, or the list of its values.
pub data Valid : Type 0 where
  valid_limits : ℕ → ℕ → Valid
  valid_list : List ℕ → Valid

-- The functions of cli/lib/tokenizers.c that `tokenize` points to.
pub data Tokenizer : Type 0 where
  line : Tokenizer
  word : Tokenizer
  word_mixed : Tokenizer
  line_mixed : Tokenizer
  number : Tokenizer
  mac : Tokenizer
  ip : Tokenizer

pub record MenuNode : Type 0 where
  pub name : Text
  pub help : Text
  pub mask : Option (List ℕ)
  pub tokenize : Option Tokenizer
  pub run : Option ℕ
  pub priv : Option Valid
  pub subtree : Option (List ℕ)

abbrev pub Menu : Type 0
Menu = ℕ → MenuNode

pub data ShellState : Type 0 where
  completion : ShellState
  inline_help : ShellState
  executing : ShellState

-- `root` and `node_filter` of the context, and the state of the shell around it.
pub record Context : Type 0 where
  pub node_filter : ℕ
  pub root : ℕ
  pub state : ShellState

-- struct tokenize_out: `matches` without the NULL at its end
pub record TokenizeOut : Type 0 where
  pub offset : ℕ
  pub len : ℕ
  pub ok_len : ℕ
  pub matches : List ℕ
  pub exact_match : Option ℕ
  pub partial_match : Option ℕ
