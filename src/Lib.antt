-- ===== src/Lib.antt =====
-- The ReKernel-X kernel module (LKM-Source) and its user-space library (Develop): the module tells
-- user space what reaches a frozen Android app, so that the app can be thawed in time, and drops
-- superseded asynchronous binder transactions from the queue of a frozen process.
--
-- Parts, and how they interact. rkx_init registers a generic netlink family, tracepoint hooks on
-- binder and signals, netfilter hooks, and a kprobe on binder_proc_transaction. Commands of user space
-- change two tables, the monitored uids and the free-async rules. The hooks look at a frozen target
-- (rkx_is_frozen) and hand an event to rkx_send_message; the one on inbound packets asks the
-- table of uids, the kprobe asks the rules which strategy applies to a transaction. The library
-- (rkx_jni.cpp) joins the multicast group of the family, turns the messages that come in into calls of a
-- Java callback, and turns calls of Java into commands; both directions are bytes in the netlink format.
--
--   Abi, Abi/*             the numbers of LKM-Source/rkx.h and of
--                          Develop/rekernel_x/src/main/cpp/rkx_uapi.h, each from its own header
--   Base, Base/*           shared names: native numbers, lists over them, 32-bit integers, C strings
--   Hashtable, Hashtable/* the kernel's hash tables as 64 chains: placement, view as a map, freeing
--   FreeAsync, FreeAsync/* LKM-Source/rkx_free_async.c: rkx_add_free_async is `add`, rkx_del_free_async
--                          `del`, rkx_free_async_lookup_rcu `lookup`, rkx_destroy_free_async `destroy`
--   NetUid, NetUid/*       LKM-Source/rkx_netuid.c, likewise
--   Genl, Genl/*           LKM-Source/rkx_genl.c: the four command handlers (`doit`), and their
--                          specification on a set of uids and a map of rules (Genl/Spec); rkx_genl_policy
--                          and rkx_genl_ops (Genl/Policy)
--   Message, Message/*     LKM-Source/rkx_genl.c: rkx_send_message (`send`), over the kernel's functions
--                          that build a message
--   Event                  the events and numbers of LKM-Source/rkx.h
--   Frozen, Frozen/*       LKM-Source/rkx_frozen.c: rkx_is_frozen on every kernel version
--   Signal, Signal/*       LKM-Source/rkx_signal.c: the hook on do_send_sig_info
--   Netfilter, Netfilter/* LKM-Source/rkx_netfilter.c: rkx_nf_local_in and its parsers, byte by byte,
--                          and the table rkx_nf_ops
--   Binder, Binder/*       LKM-Source/rkx_binder.c: the three tracepoint hooks, and the reading of an
--                          interface name out of a parcel
--   BinderKp, BinderKp/*   LKM-Source/rkx_binder_kp.c: the kprobe (`probe`), the comparison of
--                          transactions, and the worker (`free_txn`), with a step relation over them,
--                          and the calls of the two spin locks (BinderKp/Locks)
--   BinderAlloc, ...       LKM-Source/rkx_binder_alloc.c: the copy out of a buffer on old kernels; it
--                          fills the interface CopiesBytes that BinderKp takes (BinderAlloc/Client)
--   Lifecycle, Lifecycle/* LKM-Source/rkx.c: rkx_init (`init`) and rkx_exit (`exit`), with every
--                          register and unregister function of the other files
--   Nla, Nla/*             Develop/rekernel_x/src/main/cpp/rkx_nla.h: the reader of attributes and
--                          NlaBuilder (Nla/Builder), against the netlink format (Nla/Wire)
--   Client, Client/*       Develop/rekernel_x/src/main/cpp/rkx_jni.cpp: handle_event (Client/Events), the
--                          messages of a datagram (Client/Messages), the methods that send commands
--                          (Client/Commands), setCallback, connect, pollEvent and disconnect
--                          (Client/Connection), resolve_family_group (Client/Resolve), JNI_OnLoad and
--                          JNI_OnUnload (Client/Loading); Client/Decodes has the messages that the
--                          kernel module sends, as bytes
--   System, System/*       both ends together, with the generic netlink core of the kernel between them, a
--                          parameter (System/Core): calls of the Java methods that change the tables of
--                          the module (System/Turns, against System/Replay) and so the decisions of its
--                          hooks (System/Governs), and events from the hooks (System/Hooks) to the
--                          callback (System/Arrives, and System/Polls for the loop of pollEvent)
--   Tests, Tests/*         runs on concrete inputs
--
-- State is passed explicitly: an operation takes the state and returns it. A function under a mutex
-- or a spin lock is one step, and so is a read under rcu_read_lock; Steps of BinderKp/History and the
-- calls of FreeAsync/Reach order such steps freely. The outcome of kmalloc is an argument. A read out
-- of bounds is `none`, so a theorem that a model gives `some` says that the code stays in bounds. A
-- hook gives the event that it hands over.
--
-- Machine integers: the counter of rules wraps at 2 ^ 32, a length of a packet is computed as the code
-- computes it and converted to 32 bits with sign, the addresses and sizes of BinderAlloc wrap at
-- 2 ^ 64; the lengths of an attribute are 16 bits, as in rkx_nla.h, and the rest of a datagram is the 32
-- bits of an int. The loops over attributes and messages take at least 4 and 16 bytes a round, so as
-- many rounds as there are bytes, and one more, are enough. A loop with a counter runs on fuel where it
-- does not recurse on a list: the comparison of two buffers and the copy across pages take at least one
-- byte a round, so one round more than there are bytes is enough; the reading of a name has the size of
-- its output as its bound.
--
-- Parameters, since their code is not part of the repository: the hash functions (jhash and hash_min,
-- below 64), the kernel version and its masks, what the kernel answers to a registration, the
-- functions that build and send a message, the check of a message against the policy, what binder.c keeps in its buffers, and the exported
-- binder_proc_dec_tmpref. Bytes of a packet come with pskb_may_pull and ipv6_find_hdr as parameters; of the
-- latter only that thoff is below 2 ^ 30 is taken, so an error and a fragment are covered. Of
-- the library, what the Java virtual machine answers, what socket, eventfd, bind, sendto, poll and
-- recvfrom give, and what is on the stack before, are arguments of the methods, and what
-- resolve_family_group gives is an argument of connect. CTRL_ATTR_MAX comes with the kernel's headers.
--
-- Not modelled: the log macros; the declarations in Java, the build and the installer scripts.
-- RCU grace periods are not: a freed node is in the list that the operation returns. The locks of the
-- library make setCallback, connect, disconnect and the end of pollEvent one step each.
pub mod Abi
pub mod Base
pub mod Binder
pub mod BinderAlloc
pub mod BinderKp
pub mod Client
pub mod Event
pub mod FreeAsync
pub mod Frozen
pub mod Genl
pub mod Hashtable
pub mod Lifecycle
pub mod Message
pub mod NetUid
pub mod Netfilter
pub mod Nla
pub mod Signal
pub mod System
pub mod Tests
