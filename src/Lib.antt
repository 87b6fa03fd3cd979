-- ===== src/Lib.antt =====
-- The LISA switch's user space: the rapid spanning tree daemon (userspace/rstp), the allocator of
-- the shared memory area (userspace/lib/mm.c), the switch's configuration in that area
-- (userspace/switch/switch.c), the frames and interfaces of the discovery daemon (userspace/cdpd),
-- the ports of the middleware over Linux (userspace/switch/linux), and the core of the command line
-- interface (userspace/cli), checked as they are written.
--
-- The spanning tree daemon keeps a bridge record and a list of ports (rstp_interface, 802.1w). Its
-- main loop visits the ports under a lock and calls one handler for each of seven state machines on
-- each, and then the role selection for the whole bridge. Beside it a timer signal counts the
-- timers down each second, a receiver thread puts frames into the ports' buffers and posts a
-- semaphore, and a management thread registers and unregisters interfaces.
--
-- Base            shared names, Boolean tests, lists measured by native numbers, machine words
-- Vector          userspace/include/vector.h, userspace/lib/vector.c: priority vectors and times
--   Order         the order of memcmp and of vec_compare4
-- Rstp.Bpdu       userspace/rstp/rstp_bpdu.h: constants and the bytes of a frame
-- Rstp.Port       userspace/include/rstp_client.h: struct rstp_interface, struct rstp_bridge
-- Rstp.Fsm        userspace/rstp/fsm: a module for each machine, Prx (prx.c) to Prs (prs.c), with
--                 a function for each handler of its table, named as in C with underscores
--   Tree          the daemon's globals, and the list of interfaces as a loop sees it
--   Pim.Laws      the classification of messages and the ageing of information
--   Prs.Best      which root the role selection takes; Prs.Roles: the roles it gives; Prs.Cost: how
--                 costs compare
-- Rstp.Daemon     userspace/rstp/rstpd.c: pti_loop (tick), fsm_run, init_bridge
--   Registry      rstpd_register_interface, rstpd_unregister_interface
--   Registration  how registering and unregistering undo each other
--   Receiver      userspace/rstp/rstp_receiver.c: rstp_recv_loop on one port
-- Rstp.Steps      the daemon as a step relation, invariants over it, and the main loop as steps
-- Rstp.Safety     invariants of every reachable state, one to a module
-- Rstp.Wire       what a port that receives an RSTP BPDU reads of the sender
-- Rstp.Handover   the buffer between the receiver thread and the port receive machine
-- Mm              userspace/lib/mm.c, userspace/include/mm.h: the allocator, function by function
--   Arena         when an area is in order; Alloc, Free, Realloc, Create: what each operation does
-- Switch          userspace/switch/switch.c, userspace/switch/switch.h
--   Store         the structs in the area; Keyed: the lists of tags and descriptions
--   Tags, Descs, Passwords, Init     the functions of switch.c, named as in C
--   Owned, Keeps  the lists and the allocator as one state: who owns which chunk
--   View, Refines what the lists tell, and the rules for descriptions; Unique: tags; Access:
--                 passwords; Defaults: what switch_init leaves
-- Cdp             userspace/cdpd/cdpd.h: field types and the bytes of a field
--   Send          userspace/cdpd/cdp_send.c: the frame and its checksum; Checksum: what it sums to
--   Receive       userspace/cdpd/cdpd.c: dissect_packet; Dissection: what it finds in a frame
--   Registry      cdpd_register_interface, cdpd_unregister_interface; Membership: who is enabled
--   Requests      userspace/cdpd/cdp_configuration.c: what is answered about neighbours
--   Aging         userspace/cdpd/cdp_aging.c: the heap of neighbours; Order, SiftUp, SiftDown,
--                 Insert: how its order is restored
-- Linux           userspace/switch/linux/linux.c, util_linux.c: the allowed VLANs of a port, with the
--                 bitmap macros of userspace/switch/switch.h; Modes: the changes of mode
--   Ports         ports added, removed and moved; Vlans: VLANs made and deleted, and their ports
--   Synced, Kept  virtual interfaces and bridges in agreement with the mode; Allowed: what each
--                 operation does to the VLANs; Vlans.Added, Vlans.Consistent: the whole switch
-- Cli             userspace/cli/cli.h, userspace/cli/rlshell.h: menus, contexts, tokenizer output
--   Tokens, Tokenize, Exec     userspace/cli/cli.c: cli_next_token, cli_tokenize, cli_exec
--   Tokenizers    userspace/cli/lib/tokenizers.c; Addresses: its tests of a token, with their Grammar
--   Shell         userspace/cli/rlshell.c: completion, inline help, execution; Endings: they end
--   Bounds        tokens and the marker of an error inside the line; Lookup: what a token matches;
--                 Reach: which handlers are called
--   Vlans         userspace/cli/command/config_if.c, userspace/tools/swctl.c: parse_vlan_list;
--                 userspace/cli/cfgbuild/cfgbuild.c: list_vlans
--     Listed, Selected         what is read from a list; Printed: what is printed, and read again
--   Trunk         cmd_trunk_vlan, over an interface that Linux fills
-- Scenarios       concrete values, and each result at one of them
--
-- A handler is a function from a port to a port, or, where it walks the whole list, from a cursor in
-- the list to a cursor. The pair state[M][FUNC] and state[M][EXEC] of machine M is the two fields
-- m_func and m_exec. Flags are Booleans, timers and counters natural numbers that stop at 0, as the
-- code's tests make them. Bytes are numbers; priority vectors are compared by the bytes of the packed
-- structs, and shorts and the path cost are stored with the lowest byte first, as on the x86 machines
-- the program is built for. The cost is added to through an unsigned long of 8 bytes.
--
-- System calls are parameters: what the registration asks of the kernel, the memory that malloc hands
-- out, and what recv returns. The memory is a port of any content, of which no result on
-- the reachable states asks anything (AnyMemory). Threads
-- interleave between handler calls; a handler is taken to be atomic, and so is a registration, a
-- signal and the receipt of a frame. The loop over the interfaces of one round counts the entries to
-- visit, and begins with their number, so that it visits each.
--
-- The allocator hands out offsets into the area. The list of chunks that lies in their headers is a
-- list, in its order; sizes wrap around at 64 bits and pointers at 32, as written. ftruncate is a
-- parameter that says which sizes the area may have, and results on allocation ask that it refuses 4
-- GB and more. The switch's lists keep in each entry the pointer that mm_alloc gave, so that a result
-- on the store is one on the allocator as well. mm_addr gives NULL for MM_NULL alone, so the tests of
-- a NULL address are tests of the pointer. The functions that differ only in the list they work on
-- (__switch_del_if_tag, __switch_del_if_desc, __switch_del_vlan_desc; __switch_add_vlan_desc and the
-- end of switch_set_if_desc) are one function here. The semaphore of the lock is left out: the
-- processes that share the area take turns by it, and one call is atomic.
--
-- A frame of the discovery daemon is the list of its bytes, from the start of the buffer on. The
-- functions that write a field give the field, and the sender's offset is the length of what is
-- written. dissect_packet is the list of the calls of decode_field that it makes, on fuel of one for
-- each field and one more. The heap is an unbounded array, and its loops have fuel of one for each
-- node. The registry is that of the build without pcap.
--
-- A menu is a function from the address of a node, a number, to the node, so that nodes may be shared;
-- a handler is a number, and a call of it the last result of cli_exec, with its tokens and nodes. The
-- loop of cli_exec counts down from MAX_MENU_DEPTH, where the assert stands. Completion and help have
-- fuel of one round for each byte of the line and one more. A bitmap of VLANs is the function that
-- gives its bits, since the code works on all bytes alike or on one bit. parse_vlan_list keeps the text
-- from the start of the number for the pointer `last`, and atoi reads numbers of any size, where an int
-- overflows. list_vlans gives its lines as their tokens, and has a round for each VLAN. The kernel's
-- answers to a port's requests are a parameter, one for each request and VLAN. The shared area may move
-- when mm_alloc extends it, and addresses from before are then stale: mm_realloc has no result where
-- it uses one, and a port's virtual interfaces are marked undefined; whether the area stays is a
-- parameter. Other processes that extend it between two calls of mm_lock are left out there.
--
-- Not modelled: the message queue of the management thread (rstp_configuration.c), printing
-- (rstp_utils.c), start-up and signals in main, the discovery daemon's neighbours (the rest of
-- decode_field, cdp_clean_loop) and its message queue, the menus and most handlers of the
-- command line, the terminal, its pager and filters, the tools but for one function, the middleware of
-- the kernel module (lisa, swconfig), the rest of that of Linux (VLAN interfaces, IGMP files, MAC
-- tables), and what switch.c keeps for it: the data of VLANs and interfaces, where structs are copied
-- with the list heads in them.
pub mod Base
pub mod Vector
pub mod Rstp
pub mod Mm
pub mod Switch
pub mod Cdp
pub mod Linux
pub mod Cli
pub mod Scenarios
