-- ===== src/Tests/MessageTests.antt =====
-- The message of a reply, on message buffers that are their room and what was put into them.
use re_kernel_x.Base.{
  ℕ, ◌+◌, ◌-◌, ◌≤◌, ◌≡◌, refl, sym, inl, inr, [], ◌∷◌, ◌++◌, Option, none, some, arith, pos, codes,
  List, ltb, if◌then◌else◌, Bool-cases,
}
use mathlib.Core.List.{append-nil}
use re_kernel_x.Event.{BinderEvent, binder}
use re_kernel_x.Message.{
  Item, opens, s32, text, closes, Netlink, send, send_message, build, puts, Outcome, not_allocated,
  multicasted, payload_of, binder_items,
}
use re_kernel_x.Message.Sends.{Builds, cost}

pub record Skb : Type 0 where
  pub room : ℕ
  pub items : List Item

abbrev pub append : Item → Skb → Option Skb
append x s =
    if ltb s.room (cost x)
    then none
    else some (record { room = s.room - cost x; items = s.items ++ x ∷ [] })

abbrev pub append_end : Skb → Skb
append_end s = record { room = s.room; items = s.items ++ closes ∷ [] }

abbrev pub netlink : Netlink Skb
netlink = record {
  new = λ n. some (record { room = n + 20; items = [] });
  put_header = λ s cmd.
      if ltb s.room 20 then none else some (record { room = s.room - 20; items = s.items });
  nest_start = λ s type. append (opens type) s;
  put_s32 = λ s type v. append (s32 type v) s;
  put_string = λ s type v. append (text type v) s;
  nest_end = append_end;
  message_end = λ s. s;
  multicast = λ s. pos 0;
}

appends :
    (x : Item) (s : Skb)
    → cost x ≤ s.room
    → (s' : Skb) × (append x s ≡ some s')
      × (s'.items ≡ s.items ++ x ∷ [])
      × (s.room ≤ s'.room + cost x)
appends x s h = elim (Bool-cases (ltb s.room (cost x))) [
  | inl less ↦ absurd (ground arith)
  | inr enough ↦ (
    record { room = s.room - cost x; items = s.items ++ x ∷ [] },
    rw enough refl,
    refl,
    omega arith,
  )
]

put_item :
    (x : Item) (s : Skb)
    → cost x ≤ s.room
    → (s' : Skb) × (re_kernel_x.Message.put netlink s x ≡ some s')
      × (s'.items ≡ s.items ++ x ∷ [])
      × (s.room ≤ s'.room + cost x)
put_item (opens type) s h = appends (opens type) s h
put_item (s32 type v) s h = appends (s32 type v) s h
put_item (text type v) s h = appends (text type v) s h
put_item closes s h = (append_end s, refl, refl, omega arith)

put_head :
    (s : Skb)
    → 20 ≤ s.room
    → (s' : Skb) × (netlink.put_header s 1 ≡ some s')
      × (s'.items ≡ s.items ++ [])
      × (s.room ≤ s'.room + 20)
put_head s h = elim (Bool-cases (ltb s.room 20)) [
  | inl less ↦ absurd (ground arith)
  | inr enough ↦ (
    record { room = s.room - 20; items = s.items },
    rw enough refl,
    sym (append-nil s.items),
    omega arith,
  )
]

fresh : (n : ℕ) (s : Skb) → netlink.new n ≡ some s → (s.items ≡ []) × (n + 20 ≤ s.room)
fresh n s e =
    let same : record { room = n + 20; items = [] } ≡ s = cc in rw (← same) (refl, omega arith)

pub builds : Builds netlink (λ s. s.room) (λ s. s.items)
builds = record {
  fresh = fresh;
  header = λ cmd s h. put_head s h;
  item = put_item;
  ended = λ s. refl;
}

abbrev reply : BinderEvent
reply = record {
  binder_type = 2;
  oneway = 0;
  from_pid = pos 100;
  from_uid = 1000;
  target_pid = pos 200;
  target_uid = 10100;
  code = pos 3;
  rpc_name = codes "SYNC_BINDER";
}

is_sent : send_message netlink (binder reply) ≡ pos 0
unfolding send_message send build puts
is_sent = refl
