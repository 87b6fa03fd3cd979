-- ===== src/Rstp/Fsm/Prt/Sweep.antt =====
-- userspace/rstp/fsm/prt.c: the two loops that set a flag on every port.
use lisa_user.Base.{true}
use lisa_user.Rstp.Port.{Port}
use lisa_user.Rstp.Fsm.Tree.{Cursor, on_all}

abbrev pub set_sync : Port → Port
set_sync entry = record entry { sync = true }

unfoldable pub set_sync_tree : Cursor → Cursor
set_sync_tree c = on_all set_sync c

abbrev pub set_re_root : Port → Port
set_re_root entry = record entry { re_root = true }

unfoldable pub set_re_root_tree : Cursor → Cursor
set_re_root_tree c = on_all set_re_root c
