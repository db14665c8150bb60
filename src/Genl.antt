-- ===== src/Genl.antt =====
-- LKM-Source/rkx_genl.c: the commands that user space sends. The generic netlink core has checked the
-- attributes against rkx_genl_policy before it calls a handler, so an attribute is its value, or
-- `none` if it is missing. (Registration is Lifecycle's.)
pub mod Spec
pub mod Refines
pub mod Policy
use re_kernel_x.Base.{
  ℕ, Bool, List, [], ◌∷◌, Option, none, some, ℤ, pos, CString, einval, eq_ℤ, not, if◌then◌else◌,
}
use re_kernel_x.Hashtable.{Table}
use re_kernel_x.FreeAsync.{Hash, add, del}
use re_kernel_x.FreeAsync.{State as Rules}
use re_kernel_x.NetUid.{UidInfo, add as add_net_uid, del as del_net_uid}

-- info->attrs
pub record Attrs : Type 0 where
  pub uid : Option ℕ
  pub rpc_name : Option CString
  pub code : Option ℤ
  pub strategy : Option ℕ

-- The two tables that the handlers change.
pub record Tables : Type 0 where
  pub uids : Table UidInfo
  pub rules : Rules

module _ (h : Hash) where
  -- rkx_genl_monitor_net; `alloc` is the outcome of kmalloc, here and below.
  unfoldable pub monitor_net : Tables → Attrs → Bool → ℤ × Tables
  monitor_net t attrs alloc = elim attrs.uid [
    | none ↦ (einval, t)
    | some muid ↦ (pos 0, record t { uids = add_net_uid h.min_hash t.uids muid alloc })
  ]

  -- rkx_genl_del_monitor_net
  unfoldable pub del_monitor_net : Tables → Attrs → ℤ × Tables
  del_monitor_net t attrs = elim attrs.uid [
    | none ↦ (einval, t)
    | some muid ↦ (pos 0, record t { uids = (del_net_uid h.min_hash t.uids muid).0 })
  ]

  -- rkx_genl_add_free_async
  unfoldable pub add_free_async : Tables → Attrs → Bool → ℤ × Tables
  add_free_async t attrs alloc = elim attrs.rpc_name [
    | none ↦ (einval, t)
    | some rpc_name ↦ elim attrs.code [
      | none ↦ (einval, t)
      | some code ↦ elim attrs.strategy [
        | none ↦ (einval, t)
        | some strategy ↦
            let (rc, rules) = add h t.rules (some rpc_name) code strategy alloc in
            (rc, record t { rules = rules })
      ]
    ]
  ]

  -- rkx_genl_del_free_async
  unfoldable pub del_free_async : Tables → Attrs → ℤ × Tables
  del_free_async t attrs = elim attrs.rpc_name [
    | none ↦ (einval, t)
    | some rpc_name ↦ elim attrs.code [
      | none ↦ (einval, t)
      | some code ↦
          let (rc, rules, freed) = del h t.rules (some rpc_name) code in
          (rc, record t { rules = rules })
    ]
  ]

-- The commands of rkx_genl_ops.
pub data Command : Type 0 where
  add_monitor_net : Command
  del_monitor : Command
  add_rule : Command
  del_rule : Command

-- A message with its command, and kmalloc's outcome for it.
pub record Request : Type 0 where
  pub command : Command
  pub attrs : Attrs
  pub alloc : Bool

-- rkx_genl_ops: the `doit` of a command
unfoldable pub doit : Hash → Tables → Command → Attrs → Bool → ℤ × Tables
unfolding monitor_net del_monitor_net add_free_async del_free_async
doit h t add_monitor_net attrs alloc = monitor_net h t attrs alloc
doit h t del_monitor attrs alloc = del_monitor_net h t attrs
doit h t add_rule attrs alloc = add_free_async h t attrs alloc
doit h t del_rule attrs alloc = del_free_async h t attrs

-- The answers to a sequence of requests, and the tables after it.
unfoldable pub serve : Hash → Tables → List Request → List ℤ × Tables
unfolding doit
serve h t [] = ([], t)
serve h t (r ∷ rs) =
    let (rc, t') = doit h t r.command r.attrs r.alloc in
    let (rcs, t'') = serve h t' rs in (rc ∷ rcs, t'')
