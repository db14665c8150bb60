-- ===== src/Client/Decodes/Trips.antt =====
-- From an event of the kernel module to the call of the callback: nothing is lost on the way.
use re_kernel_x.Base.{
  ℕ, ◌+◌, ◌-◌, ◌^◌, ◌≤◌, ◌<◌, ◌≡◌, ◌≢◌, refl, sym, ◌∙◌, ap, Bool, true, false, not, ◌||◌, List, [],
  ◌∷◌, ◌++◌, Option, none, some, arith, length, length-append, ◌==◌, ltb, get_elem?,
  get_elem?-append_right, map,
}
use mathlib.Core.List.{append_assoc}
use re_kernel_x.Event.{
  Event, BinderEvent, SignalEvent, NetworkEvent, binder, signal, network, other,
}
use re_kernel_x.Message.{binder_items, signal_items, network_items}
use re_kernel_x.Nla.Wire.{
  attr, bytes16, bytes32, wire, wire_of, length-wire_of, At, le16-bytes16, le32-bytes32,
}
use re_kernel_x.Nla.Parses.{parse-wire}
use re_kernel_x.Client.Events.{
  Call, attr_max, headers_len, attrs_len, nlmsg_error, nlmsg_done, when_there, handle_binder_event,
  handle_signal_event, handle_network_event, handle_evt, handle_attrs, handle_event,
}
use re_kernel_x.Client.Decodes.{
  item_attr, nest, kind_nest, event_message, binder_call, signal_call, network_call, calls_of,
  InRange,
}
use re_kernel_x.Client.Decodes.Reads.{bind_some}
use re_kernel_x.Client.Decodes.Kinds.{network_event-At, signal_event-At, binder_event-At}
use re_kernel_x.Client.Decodes.Nests.{
  inner-Fits, inner_size_lem, outer, opened_nest, found, nest-Fits,
}

when_some :
    (o : Option ℕ) (handler : ℕ → Option Call) (nla : ℕ) (call : Call)
    → o ≡ some nla
    → handler nla ≡ some call
    → when_there o handler ≡ some (call ∷ [])
when_some o handler nla call e h = rw (e, h) refl

when_none : (o : Option ℕ) (handler : ℕ → Option Call) → o ≡ none → when_there o handler ≡ some []
when_none o handler e = rw e refl

module _ (buf : List ℕ) (flagged : Bool) (evt : ℕ) where
  binder-nest :
      (b : BinderEvent)
      → InRange (binder b)
      → (short : length (wire (map item_attr (binder_items b))) < 1000)
      → At buf evt (outer flagged 10 (map item_attr (binder_items b)))
      → handle_evt buf (some evt) ≡ some (binder_call b ∷ [])
  unfolding handle_evt
  binder-nest b range short at =
      let attrs = map item_attr (binder_items b) in
      let (tb, e, (nla, p, here), missing) =
        opened_nest buf flagged 10 attrs (omega arith) (omega arith) short evt at in
      let fits = inner-Fits buf flagged 10 attrs (omega arith) (omega arith) short in
      bind_some _ _ _ _ e (
        bind_some _ _ _ _
          (when_some (tb 10) (handle_binder_event buf) nla (binder_call b) p
            (binder_event-At buf nla (nest flagged 10 attrs) here fits b range refl))
          (bind_some _ _ _ _
            (when_none (tb 20) (handle_signal_event buf)
              (missing 20 (omega arith) (omega arith) (omega arith)))
            (bind_some _ _ _ _
              (when_none (tb 30) (handle_network_event buf)
                (missing 30 (omega arith) (omega arith) (omega arith)))
              refl)))

  signal-nest :
      (s : SignalEvent)
      → InRange (signal s)
      → (short : length (wire (map item_attr (signal_items s))) < 1000)
      → At buf evt (outer flagged 20 (map item_attr (signal_items s)))
      → handle_evt buf (some evt) ≡ some (signal_call s ∷ [])
  unfolding handle_evt
  signal-nest s range short at =
      let attrs = map item_attr (signal_items s) in
      let (tb, e, (nla, p, here), missing) =
        opened_nest buf flagged 20 attrs (omega arith) (omega arith) short evt at in
      let fits = inner-Fits buf flagged 20 attrs (omega arith) (omega arith) short in
      bind_some _ _ _ _ e (
        bind_some _ _ _ _
          (when_none (tb 10) (handle_binder_event buf)
            (missing 10 (omega arith) (omega arith) (omega arith)))
          (bind_some _ _ _ _
            (when_some (tb 20) (handle_signal_event buf) nla (signal_call s) p
              (signal_event-At buf nla (nest flagged 20 attrs) here fits s range refl))
            (bind_some _ _ _ _
              (when_none (tb 30) (handle_network_event buf)
                (missing 30 (omega arith) (omega arith) (omega arith)))
              refl)))

  network-nest :
      (n : NetworkEvent)
      → InRange (network n)
      → (short : length (wire (map item_attr (network_items n))) < 1000)
      → At buf evt (outer flagged 30 (map item_attr (network_items n)))
      → handle_evt buf (some evt) ≡ some (network_call n ∷ [])
  unfolding handle_evt
  network-nest n range short at =
      let attrs = map item_attr (network_items n) in
      let (tb, e, (nla, p, here), missing) =
        opened_nest buf flagged 30 attrs (omega arith) (omega arith) short evt at in
      let fits = inner-Fits buf flagged 30 attrs (omega arith) (omega arith) short in
      bind_some _ _ _ _ e (
        bind_some _ _ _ _
          (when_none (tb 10) (handle_binder_event buf)
            (missing 10 (omega arith) (omega arith) (omega arith)))
          (bind_some _ _ _ _
            (when_none (tb 20) (handle_signal_event buf)
              (missing 20 (omega arith) (omega arith) (omega arith)))
            (bind_some _ _ _ _
              (when_some (tb 30) (handle_network_event buf) nla (network_call n) p
                (network_event-At buf nla (nest flagged 30 attrs) here fits n range refl))
              refl)))

  name_size :
      (b : BinderEvent) → InRange (binder b) → length (wire (map item_attr (binder_items b))) < 1000
  name_size b (t, o, fp, fu, tp, tu, c, short, clean) =
      let a = attr 18 (b.rpc_name ++ 0 ∷ []) in
      omega (
        arith,
        short,
        length-append (wire_of a) [],
        length-wire_of a,
        length-append b.rpc_name (0 ∷ []),
      )

  -- The handlers, on the nest of an event.
  event-nest :
      (e : Event)
      → InRange e
      → At buf evt (nest flagged 1 (kind_nest flagged e))
      → handle_evt buf (some evt) ≡ some (calls_of e)
  event-nest (binder b) range at = binder-nest b range (name_size b range) at
  event-nest (signal s) range at = signal-nest s range (omega arith) at
  event-nest (network n) range at = network-nest n range (omega arith) at
  event-nest (other t) range at = absurd range

-- The size of an event's nest.
pub nest_size :
    (flagged : Bool) (e : Event) → InRange e → length (wire (kind_nest flagged e)) < 1010
nest_size flagged (binder b) range =
    inner_size_lem [] flagged 10 (map item_attr (binder_items b)) (omega arith) (omega arith)
      (name_size [] flagged 0 b range)
nest_size flagged (signal s) range =
    inner_size_lem [] flagged 20 (map item_attr (signal_items s)) (omega arith) (omega arith)
      (omega arith)
nest_size flagged (network n) range =
    inner_size_lem [] flagged 30 (map item_attr (network_items n)) (omega arith) (omega arith)
      (omega arith)
nest_size flagged (other t) range = absurd range

-- A message that starts with its headers is handed to the reader of its attributes.
module _ (buf before rest : List ℕ) (nlh family flags seq pid len : ℕ) where
  abbrev first16 : List ℕ
  first16 = bytes32 len ++ (bytes16 family ++ (bytes16 flags ++ (bytes32 seq ++ bytes32 pid)))

  headers-At :
      buf ≡ before ++ (first16 ++ 1 ∷ 1 ∷ 0 ∷ 0 ∷ rest)
      → length before ≡ nlh
      → len < 2 ^ 31
      → 20 ≤ len
      → family ≢ nlmsg_error
      → family ≢ nlmsg_done
      → handle_event family buf nlh ≡ handle_attrs buf (nlh + headers_len) (len - headers_len)
  unfolding handle_event
  headers-At split here small long no_error no_done =
      let behind : List ℕ =
        bytes16 flags ++ (bytes32 seq ++ (bytes32 pid ++ 1 ∷ 1 ∷ 0 ∷ 0 ∷ rest)) in
      let t =
        le16-bytes16 buf (before ++ bytes32 len) behind (nlh + 4) family
          (split ∙ sym (append_assoc before (bytes32 len) (bytes16 family ++ behind)))
          (omega (arith, here, length-append before (bytes32 len))) in
      let l = le32-bytes32 buf before (bytes16 family ++ behind) nlh len split here in
      let ours : (family == nlmsg_error || family == nlmsg_done || not (family == family)) ≡ false =
        ground arith in
      let whole : ltb len headers_len ≡ false = ground arith in
      let word : ltb len (2 ^ 31) ≡ true = ground arith in
      let all : attrs_len len ≡ len - headers_len = rw word refl in
      bind_some _ _ _ _ t (
        rw ours (
          bind_some _ _ _ _ l (
            rw whole (
              bind_some _ _ _ _ (command split here)
                (ap (handle_attrs buf (nlh + headers_len)) all)))))
    where
      command :
          buf ≡ before ++ (first16 ++ 1 ∷ 1 ∷ 0 ∷ 0 ∷ rest)
          → length before ≡ nlh
          → get_elem? buf (nlh + 16) ≡ some 1
      command split here =
          let place : nlh + 16 ≡ length (before ++ first16) + 0 =
            omega (arith, here, length-append before first16) in
          rw (place, split, ← append_assoc before first16 (1 ∷ 1 ∷ 0 ∷ 0 ∷ rest))
            (get_elem?-append_right (before ++ first16) (1 ∷ 1 ∷ 0 ∷ 0 ∷ rest) 0)

-- The message of an event of which the fields are in their ranges, anywhere in a buffer, makes the
-- client call the callback exactly once, with the fields of the event, whether the kernel flags its
-- nests or not; of a family whose number is none of a netlink control message.
pub event_message-calls :
    (buf before after : List ℕ) (family flags seq pid : ℕ) (flagged : Bool) (e : Event)
    → buf ≡ before ++ (event_message family flags seq pid flagged e ++ after)
    → InRange e
    → family ≢ nlmsg_error
    → family ≢ nlmsg_done
    → handle_event family buf (length before) ≡ some (calls_of e)
unfolding handle_attrs
event_message-calls buf before after family flags seq pid flagged e split range no_error no_done =
    let a = nest flagged 1 (kind_nest flagged e) in
    let attrs = wire (a ∷ []) in
    let fits =
      nest-Fits flagged 1 (kind_nest flagged e) (omega arith)
        (omega (arith, nest_size flagged e range)) in
    let size : length attrs < 2000 =
      omega (arith, length-append (wire_of a) [], length-wire_of a, nest_size flagged e range) in
    let len : ℕ = length attrs + 20 in
    let first20 =
      bytes32 len
      ++ (bytes16 family
          ++ (bytes16 flags ++ (bytes32 seq ++ (bytes32 pid ++ 1 ∷ 1 ∷ 0 ∷ 0 ∷ [])))) in
    let split2 : buf ≡ (before ++ first20) ++ (attrs ++ after) =
      split ∙ sym (append_assoc before first20 (attrs ++ after)) in
    let (tb, p, holds) =
      parse-wire (a ∷ []) buf attr_max (length before + 20) (len - 20) (before ++ first20) after
        split2 (length-append before first20) (omega arith) (fits, tt) in
    let (evt, q, at) =
      found buf tb flagged 1 (kind_nest flagged e) holds (omega arith) (omega arith) in
    headers-At buf before (attrs ++ after) (length before) family flags seq pid len split refl
      (omega arith) (omega arith) no_error no_done
    ∙ bind_some _ _ _ _ p (rw q (event-nest buf flagged evt e range at))
