-- ===== src/Scenarios/Commands.antt =====
-- A small menu, lists of VLANs and a port, and the results on the command line interface at them.
use lisa_user.Base.{
  take, length, ◌*◌, ◌≤◌, ◌+◌, leb, ltb, ◌&&◌, ℕ, zero, suc, ◌<◌, ◌≡◌, refl, arith, true, false,
  not, List, [], ◌∷◌, Option, none, some, Text, All, ◌==◌,
}
use lisa_user.Cdp.Registry.{CdpInterface}
use lisa_user.Cdp.Requests.{
  CdpNeighbor, cdp_ipc_get_neighbors, all_wanted, int_size, neighbor_info_size,
  cdp_max_response_size, cdp_ipc_get_neighbors-take,
}
use lisa_user.Cli.{Context, Menu, MenuNode, executing}
use lisa_user.Cli.Tokens.{
  whitespace, span, skip, to_lower, same_start, masks_pass, cli_mask_apply, cli_init_tok_out,
  cli_next_token, token_of,
}
use lisa_user.Cli.Tokenize.{
  is_match, lookup_token, first_with, shorten, registered, tokenize_word, cli_tokenize,
}
use lisa_user.Cli.Tokenizers.{tokenize_by}
use lisa_user.Cli.Exec.{run_command, prefer, run_or, exec_loop, cli_exec, blank_out}
use lisa_user.Cli.Shell.{Help, rlshell_completion, rlshell_help}
use lisa_user.Cli.Endings.{shell_loops_end}
use lisa_user.Cli.Reach.Path.{IsPath, cli_exec-reached}
use lisa_user.Cli.Reach.Tokenizers.{IsChild}
use lisa_user.Cli.Lookup.{filter, IsLongest, cli_tokenize-lookup}
use lisa_user.Cli.Addresses.{valid_ip, valid_mac}
use lisa_user.Cli.Addresses.Grammar.{
  groups, no_gap, every, is_octet, is_hex_group, enough_groups, valid_address_grammar,
}
use lisa_user.Cli.Vlans.{
  Bitmap, parse_vlan_list, swctl_parse_vlan_list, list_vlans, list_lines, list_vlans_token,
  decimal_digits, skip_vlans, vlan_token,
}
use lisa_user.Cli.Vlans.Listed.{Item, one, range, items_text, IsItem}
use lisa_user.Cli.Vlans.Selected.{
  AreOpposite, any_covers, up_to_range, range_is_last, parse_vlan_lists_agree,
}
use lisa_user.Cli.Vlans.Printed.Lines.{texts}
use lisa_user.Cli.Vlans.Printed.Read.{joined, list_vlans-parse}
use lisa_user.Cli.Trunk.{
  vlan_set, cmd_trunk_vlan, linux_operations, cli_ex_ok, cli_ex_rejected, cmd_trunk_vlan-intended,
  cmd_trunk_vlan-rejected,
}
use lisa_user.Linux.{Kernel, SwitchPort, switched, access}
use lisa_user.Linux.Synced.{listed, Works, IsListed, IsSynced}
use lisa_user.Linux.Vlans.{Middleware, Host, vlan_add, vlan_del, set_global_igmp}
use lisa_user.Linux.Vlans.Consistent.{IsConsistent, vlans-IsConsistent, set_global_igmp-reaches}
use lisa_user.Linux.Kept.{to_trunk, call, call-IsSynced}

abbrev plain : Text → Option (List ℕ) → Option ℕ → Option (List ℕ) → MenuNode
plain name mask run subtree = record {
  name = name;
  help = [];
  mask = mask;
  tokenize = none;
  run = run;
  priv = none;
  subtree = subtree;
}

-- a root with "show", and "shut" behind the mask 2
abbrev menu : Menu
menu zero = plain [] none none (some (1 ∷ 2 ∷ []))
menu (suc zero) = plain (115 ∷ 104 ∷ 111 ∷ 119 ∷ []) none (some 7) none
menu (suc (suc n)) = plain (115 ∷ 104 ∷ 117 ∷ 116 ∷ []) (some (2 ∷ [])) (some 8) none

abbrev user : Context
user = record { node_filter = 1; root = 0; state = executing }

-- " sh"
abbrev sh : Text
sh = 32 ∷ 115 ∷ 104 ∷ []

sh_runs : cli_exec user menu sh ≡ run_command 7 ((115 ∷ 104 ∷ []) ∷ []) (1 ∷ [])
unfolding cli_exec exec_loop prefer run_or tokenize_by cli_tokenize tokenize_word registered shorten
    first_with lookup_token is_match cli_next_token cli_init_tok_out cli_mask_apply masks_pass
    same_start to_lower skip span whitespace
sh_runs = refl

cli_exec-reached_example :
    IsPath (IsChild 1 menu) 0 ((115 ∷ 104 ∷ []) ∷ []) (1 ∷ []) × ((menu 1).run ≡ some 7)
cli_exec-reached_example = cli_exec-reached user menu sh 7 ((115 ∷ 104 ∷ []) ∷ []) (1 ∷ []) sh_runs

-- "sx": its first byte begins a name
abbrev sx : Text
sx = 115 ∷ 120 ∷ []

shell_loops_end_example :
    ((answer : Option Text) × (rlshell_completion user menu sh ≡ some answer))
    × ((answer : Help) × (rlshell_help user menu sh ≡ some answer))
shell_loops_end_example = shell_loops_end user menu sh

sx_token : (cli_next_token sx blank_out).0 ≡ true
unfolding cli_next_token span whitespace
sx_token = refl

cli_tokenize-lookup_example :
    let next = (cli_next_token sx blank_out).1 in
    let token = token_of sx next in
    let out = (cli_tokenize user menu sx (some (1 ∷ 2 ∷ [])) blank_out).1 in
    (out.matches ≡ filter (is_match menu 1 token) (1 ∷ 2 ∷ []))
    × (filter (is_match menu 1 token) (1 ∷ 2 ∷ []) ≡ []
        → IsLongest menu token (1 ∷ 2 ∷ []) next.len out.ok_len out.partial_match)
cli_tokenize-lookup_example =
    cli_tokenize-lookup user menu sx (1 ∷ 2 ∷ []) blank_out (omega arith) sx_token

-- "1.2.3."
abbrev short_ip : Text
short_ip = 49 ∷ 46 ∷ 50 ∷ 46 ∷ 51 ∷ 46 ∷ []

valid_address_grammar_example :
    let gs = groups short_ip in
    (valid_ip short_ip false ≡ (
      (is_octet 0 gs.0 && no_gap 0 gs.0 gs.1 && every (is_octet 0) gs.1)
      && enough_groups 4 false gs.1))
    × (valid_mac short_ip false ≡ (
        (is_hex_group 0 gs.0 && no_gap 0 gs.0 gs.1 && every (is_hex_group 0) gs.1)
        && enough_groups 3 false gs.1))
valid_address_grammar_example = valid_address_grammar short_ip false

-- "1-5,7"
abbrev range_first : Text
range_first = items_text (range 1 5) (one 7 ∷ [])

parse_vlan_lists_agree_example :
    AreOpposite (parse_vlan_list range_first) (swctl_parse_vlan_list range_first)
parse_vlan_lists_agree_example = parse_vlan_lists_agree range_first

abbrev kernel : Kernel
kernel = record {
  create_vif = λ v. true;
  remove_vif = λ v. true;
  br_remove_vif = λ v. true;
  br_add_if = λ v. true;
  br_remove_if = λ v. true;
  has_room = λ v. true;
  area_stays = λ v. true;
}

kernel-Works : Works kernel
kernel-Works = record {
  creates = λ v. refl;
  removes = λ v. refl;
  unbridges = λ v. refl;
  enters = λ v. refl;
  leaves = λ v. refl;
  rooms = λ v. refl;
  stays = λ v. refl;
}

-- an access port of VLAN 1 that allows the VLANs up to 9
abbrev port : SwitchPort
port = record {
  device_type = switched;
  mode = access;
  access_vlan = 1;
  allowed_vlans = λ v. ltb v 10;
  vifs = record { devices = λ v. false; entries = λ v. false; undefined = false };
  bridges = λ v. v == 1;
}

port-IsListed : IsListed port.vifs
port-IsListed = (refl, λ v. refl)

port-IsSynced : IsSynced (1 ∷ 5 ∷ []) port
port-IsSynced = record {
  has_vifs = λ v. ground arith;
  has_entries = port-IsListed;
  in_bridge = refl;
}

call-IsSynced_example : IsSynced (1 ∷ 5 ∷ []) (call kernel (1 ∷ 5 ∷ []) to_trunk port)
call-IsSynced_example =
    call-IsSynced kernel (1 ∷ 5 ∷ []) to_trunk port kernel-Works tt refl port-IsSynced

single_then_range : All IsItem (one 5 ∷ range 7 9 ∷ [])
single_then_range =
    ((omega arith, omega arith), (((omega arith, omega arith), (omega arith, omega arith)), tt))

range_then_single : All IsItem (range 1 5 ∷ one 7 ∷ [])
range_then_single =
    (((omega arith, omega arith), (omega arith, omega arith)), ((omega arith, omega arith), tt))

cmd_trunk_vlan-intended_example :
    let r =
      cmd_trunk_vlan
        (linux_operations kernel (1 ∷ []))
        vlan_set
        (items_text (one 5) (range 7 9 ∷ []))
        port in
    (r.0 ≡ cli_ex_ok)
    × IsListed r.1.vifs
    × ((v : ℕ) → r.1.allowed_vlans v ≡ any_covers (one 5) (range 7 9 ∷ []) v)
cmd_trunk_vlan-intended_example =
    cmd_trunk_vlan-intended kernel (1 ∷ []) vlan_set (one 5) (range 7 9 ∷ []) port
      (λ v. (refl, refl)) port-IsListed single_then_range refl

cmd_trunk_vlan-rejected_example :
    let r = cmd_trunk_vlan (linux_operations kernel (1 ∷ [])) vlan_set range_first port in
    (r.0 ≡ cli_ex_rejected)
    × IsListed r.1.vifs
    × ((v : ℕ) → r.1.allowed_vlans v ≡ up_to_range (range 1 5) (one 7 ∷ []) v)
cmd_trunk_vlan-rejected_example =
    cmd_trunk_vlan-rejected kernel (1 ∷ []) (range 1 5) (one 7 ∷ []) port (λ v. (refl, refl))
      port-IsListed range_then_single refl

-- only VLAN 1 is allowed
abbrev only_one : Bitmap
only_one = λ v. not (v == 1)

only_one_line : list_vlans only_one ≡ ((false, (49 ∷ []) ∷ []) ∷ [])
unfolding list_vlans list_lines list_vlans_token skip_vlans vlan_token decimal_digits
only_one_line = refl

list_vlans-parse_example :
    let line : List Text = (49 ∷ []) ∷ [] in
    let r = parse_vlan_list (joined line) in
    (i : Item) × (is : List Item) × (line ≡ texts (i ∷ is))
    × (range_is_last i is ≡ true
        → (r.0 ≡ 0) × ((v : ℕ) → 1 ≤ v → v < 4095 → r.1 v ≡ not (only_one v)))
    × (range_is_last i is ≡ false → r.0 ≡ 2)
list_vlans-parse_example = list_vlans-parse only_one ((49 ∷ []) ∷ []) only_one_line (λ e. absurd cc)

-- a switch with VLAN 1 and that port
abbrev middleware : Middleware
middleware = record {
  vlans = 1 ∷ [];
  ports = port ∷ [];
  bridges = λ v. v == 1;
  vlan_ifs = λ v. false;
}

abbrev host : Host
host = record { kernel = kernel; br_add = λ v. true; br_remove = λ v. true; has_room = true }

middleware-IsConsistent : IsConsistent middleware
middleware-IsConsistent = ((refl, tt), (((λ v. ground arith), port-IsListed), tt))

vlans-IsConsistent_example :
    IsConsistent (vlan_add host 5 middleware).1 × IsConsistent (vlan_del host 5 middleware).1
vlans-IsConsistent_example =
    vlans-IsConsistent host 5 middleware kernel-Works refl middleware-IsConsistent

set_global_igmp-reaches_example :
    listed 1 (set_global_igmp middleware) ≡ ((leb 1 1 && ltb 1 4094) && listed 1 (1 ∷ []))
set_global_igmp-reaches_example = set_global_igmp-reaches middleware 1

-- one interface with two neighbours
abbrev cdp_ports : List (CdpInterface CdpNeighbor)
cdp_ports =
    record {
      if_index = 3;
      sw_sock_fd = 5;
      neighbors =
          record { device_id = 97 ∷ []; tstamp = 180 }
          ∷ record { device_id = 98 ∷ []; tstamp = 90 }
          ∷ [];
    }
    ∷ []

cdp_ipc_get_neighbors-take_example :
    let answer = cdp_ipc_get_neighbors 60 3 (some (97 ∷ [])) cdp_ports in
    (answer ≡ take 8 (all_wanted 60 3 (some (97 ∷ [])) cdp_ports))
    × (int_size + length answer * neighbor_info_size ≤ cdp_max_response_size)
cdp_ipc_get_neighbors-take_example = cdp_ipc_get_neighbors-take 60 3 (some (97 ∷ [])) cdp_ports
