-- ===== src/Rstp/Fsm/Tree.antt =====
-- The globals of the daemon (userspace/rstp/rstpd.c, and prs_func and prs_exec of fsm/prs.c), and
-- `registered_interfaces` as a loop over it sees it: the entries before the current one, the
-- current one, and those after it.
use lisa_user.Base.{Bool, List, ◌∷◌, ◌++◌, map}
use lisa_user.Rstp.Port.{Port, RstpBridge}

pub data PrsState : Type 0 where
  init_bridge : PrsState
  role_selection : PrsState

pub record Daemon : Type 0 where
  pub bridge : RstpBridge
  pub ports : List Port
  pub prs_func : PrsState
  pub prs_exec : Bool

pub record Cursor : Type 0 where
  pub before : List Port
  pub entry : Port
  pub after : List Port

-- the whole list
abbrev pub join : Cursor → List Port
join c = c.before ++ (c.entry ∷ c.after)

-- an update of the current entry
abbrev pub on_entry : (Port → Port) → Cursor → Cursor
on_entry f c = record c { entry = f c.entry }

-- a loop over the whole list that updates each entry
abbrev pub on_all : (Port → Port) → Cursor → Cursor
on_all f c = record { before = map f c.before; entry = f c.entry; after = map f c.after }
