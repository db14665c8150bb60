-- ===== src/Client/Decodes/Kinds.antt =====
-- The handlers of the three kinds of events give the fields that were put into the nest.
use re_kernel_x.Base.{
  length, ℕ, ◌^◌, ◌≤◌, ◌<◌, ◌≡◌, refl, List, [], ◌∷◌, ◌++◌, some, arith, length-append, All, ℤ,
  signed32, IsInt32, minus_one, map,
}
use mathlib.Core.Path.{subst}
use re_kernel_x.Event.{BinderEvent, SignalEvent, NetworkEvent, binder, signal, network}
use re_kernel_x.Message.{binder_items, signal_items, network_items}
use re_kernel_x.Nla.{Table, get_s32}
use re_kernel_x.Nla.Wire.{Attr, attr, Fits, attr_of, wire, At}
use re_kernel_x.Nla.Parses.{Points, Holds, parse_nested-wire}
use re_kernel_x.Client.Events.{
  attr_max, handle_binder_event, handle_signal_event, handle_network_event,
}
use re_kernel_x.Client.Decodes.{item_attr, binder_call, signal_call, network_call, InRange}
use re_kernel_x.Client.Decodes.Reads.{
  int_attr, get_s32-At, copy_name-At, signed32-IsInt32, bind_some,
}

-- An integer of a nest.
int-At :
    (buf : List ℕ) (tb : Table) (attrs : List Attr) (k : ℕ) (v : ℤ)
    → Holds buf attr_max tb (λ k. attr_of k attrs)
    → attr_of k attrs ≡ some (int_attr k v)
    → 0 < k
    → k ≤ attr_max
    → IsInt32 v
    → get_s32 buf (tb k) minus_one ≡ some v
int-At buf tb attrs k v holds e low high int =
    get_s32-At buf (tb k) k v minus_one (subst (Points buf (tb k)) e (holds k low high))
      (omega arith) int

-- The same, of a number of 32 bits without sign.
word-At :
    (buf : List ℕ) (tb : Table) (attrs : List Attr) (k w : ℕ)
    → Holds buf attr_max tb (λ k. attr_of k attrs)
    → attr_of k attrs ≡ some (int_attr k (signed32 w))
    → 0 < k
    → k ≤ attr_max
    → w < 2 ^ 32
    → get_s32 buf (tb k) minus_one ≡ some (signed32 w)
word-At buf tb attrs k w holds e low high word =
    int-At buf tb attrs k (signed32 w) holds e low high (signed32-IsInt32 w word)

int-Fits : (k : ℕ) (v : ℤ) → k ≤ 49 → Fits (int_attr k v)
int-Fits k v small = (omega arith, omega arith)

items-Fits : (b : BinderEvent) → length b.rpc_name < 140 → All Fits (map item_attr (binder_items b))
items-Fits b short =
    let name_fits : Fits (attr 18 (b.rpc_name ++ 0 ∷ [])) =
      (omega (arith, short, length-append b.rpc_name (0 ∷ [])), omega arith) in
    (
      int-Fits 11 (signed32 b.binder_type) (omega arith),
      (
        int-Fits 12 (signed32 b.oneway) (omega arith),
        (
          int-Fits 13 b.from_pid (omega arith),
          (
            int-Fits 14 (signed32 b.from_uid) (omega arith),
            (
              int-Fits 15 b.target_pid (omega arith),
              (
                int-Fits 16 (signed32 b.target_uid) (omega arith),
                (int-Fits 17 b.code (omega arith), (name_fits, tt)),
              ),
            ),
          ),
        ),
      ),
    )

module _ (buf : List ℕ) (nla : ℕ) (a : Attr) (at : At buf nla a) (fits : Fits a) where
  pub network_event-At :
      (n : NetworkEvent)
      → InRange (network n)
      → a.payload ≡ wire (map item_attr (network_items n))
      → handle_network_event buf nla ≡ some (network_call n)
  unfolding handle_network_event
  network_event-At n (proto, uid, len) inner =
      let attrs = map item_attr (network_items n) in
      let all : All Fits attrs = (
        int-Fits 31 (signed32 n.proto) (omega arith),
        (
          int-Fits 32 (signed32 n.target_uid) (omega arith),
          (int-Fits 33 n.data_len (omega arith), tt),
        ),
      ) in
      let (tb, e, holds) = parse_nested-wire attrs buf attr_max nla a at fits inner all in
      bind_some _ _ _ _ e (
        bind_some _ _ _ _
          (word-At buf tb attrs 31 n.proto holds refl (omega arith) (omega arith) proto)
          (bind_some _ _ _ _
            (word-At buf tb attrs 32 n.target_uid holds refl (omega arith) (omega arith) uid)
            (bind_some _ _ _ _
              (int-At buf tb attrs 33 n.data_len holds refl (omega arith) (omega arith) len) refl)))

  pub signal_event-At :
      (s : SignalEvent)
      → InRange (signal s)
      → a.payload ≡ wire (map item_attr (signal_items s))
      → handle_signal_event buf nla ≡ some (signal_call s)
  unfolding handle_signal_event
  signal_event-At s (sig, killer_pid, killer_uid, dst_pid, dst_uid) inner =
      let attrs = map item_attr (signal_items s) in
      let all : All Fits attrs = (
        int-Fits 21 s.signal (omega arith),
        (
          int-Fits 22 s.killer_pid (omega arith),
          (
            int-Fits 23 (signed32 s.killer_uid) (omega arith),
            (
              int-Fits 24 s.dst_pid (omega arith),
              (int-Fits 25 (signed32 s.dst_uid) (omega arith), tt),
            ),
          ),
        ),
      ) in
      let (tb, e, holds) = parse_nested-wire attrs buf attr_max nla a at fits inner all in
      bind_some _ _ _ _ e (
        bind_some _ _ _ _
          (int-At buf tb attrs 21 s.signal holds refl (omega arith) (omega arith) sig)
          (bind_some _ _ _ _
            (word-At buf tb attrs 23 s.killer_uid holds refl (omega arith) (omega arith) killer_uid)
            (bind_some _ _ _ _
              (int-At buf tb attrs 22 s.killer_pid holds refl (omega arith) (omega arith)
                killer_pid)
              (bind_some _ _ _ _
                (word-At buf tb attrs 25 s.dst_uid holds refl (omega arith) (omega arith) dst_uid)
                (bind_some _ _ _ _
                  (int-At buf tb attrs 24 s.dst_pid holds refl (omega arith) (omega arith) dst_pid)
                  refl)))))

  pub binder_event-At :
      (b : BinderEvent)
      → InRange (binder b)
      → a.payload ≡ wire (map item_attr (binder_items b))
      → handle_binder_event buf nla ≡ some (binder_call b)
  unfolding handle_binder_event
  binder_event-At b
        (binder_type, oneway, from_pid, from_uid, target_pid, target_uid, code, short, clean)
        inner =
      let attrs = map item_attr (binder_items b) in
      let (tb, e, holds) =
        parse_nested-wire attrs buf attr_max nla a at fits inner (items-Fits b short) in
      let named =
        copy_name-At buf (tb 18) 18 b.rpc_name (holds 18 (omega arith) (omega arith)) (omega arith)
          short clean in
      bind_some _ _ _ _ e (
        bind_some _ _ _ _
          (word-At buf tb attrs 11 b.binder_type holds refl (omega arith) (omega arith) binder_type)
          (bind_some _ _ _ _
            (word-At buf tb attrs 12 b.oneway holds refl (omega arith) (omega arith) oneway)
            (bind_some _ _ _ _
              (int-At buf tb attrs 13 b.from_pid holds refl (omega arith) (omega arith) from_pid)
              (bind_some _ _ _ _
                (word-At buf tb attrs 14 b.from_uid holds refl (omega arith) (omega arith) from_uid)
                (bind_some _ _ _ _
                  (int-At buf tb attrs 15 b.target_pid holds refl (omega arith) (omega arith)
                    target_pid)
                  (bind_some _ _ _ _
                    (word-At buf tb attrs 16 b.target_uid holds refl (omega arith) (omega arith)
                      target_uid)
                    (bind_some _ _ _ _
                      (int-At buf tb attrs 17 b.code holds refl (omega arith) (omega arith) code)
                      (bind_some _ _ _ _ named refl))))))))
