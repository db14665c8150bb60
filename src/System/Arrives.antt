-- ===== src/System/Arrives.antt =====
-- From a hook of the kernel module to the Java callback.
use re_kernel_x.Base.{
  ℕ, arith, ◌≤◌, ◌^◌, ◌<◌, ◌≡◌, ◌≢◌, refl, sym, ap, ◌∙◌, ◌⊎◌, inl, inr, Bool, List, [], ◌∷◌, ◌++◌,
  Option, none, some, length, map,
}
use mathlib.Core.Path.{subst}
use mathlib.Core.List.{append-nil}
use re_kernel_x.Event.{Event, binder, signal, network, other}
use re_kernel_x.Message.{Item, Netlink, payload_of, not_allocated, multicasted, send}
use re_kernel_x.Message.Sends.{Builds, encoded, IsEvent, send_outcome}
use re_kernel_x.Frozen.{Kernel}
use re_kernel_x.Netfilter.{Setting}
use re_kernel_x.Nla.Wire.{wire, genl_message}
use re_kernel_x.Client.Events.{nlmsg_error, nlmsg_done}
use re_kernel_x.Client.Decodes.{item_attr, nest, kind_nest, event_message, calls_of, InRange}
use re_kernel_x.Client.Messages.{dispatch}
use re_kernel_x.Client.Messages.Batch.{Sent, datagram, datagram-calls}
use re_kernel_x.System.Hooks.{Occasion, observe, IsClean, IsOccasion}
use re_kernel_x.System.Hooks.Clean.{observe-IsClean}

-- The bytes that stand for what was put into a message, headers from genlmsg_put with port, number and
-- flags 0: nests within nests, flagged as such or not (since Linux 5.2 they are).
abbrev pub bytes_for : (id : ℕ) → Bool → ℕ → List Item → List ℕ
bytes_for id flagged type items =
    genl_message id 0 0 0 1 1
      (wire (nest flagged 1 (nest flagged type (map item_attr items) ∷ []) ∷ []))

module _ {Skb : Type 0} (nl : Netlink Skb) (room : Skb → ℕ) (contents : Skb → List Item)
    (bytes : Skb → List ℕ) (id : ℕ) (flagged : Bool) where
  -- What the kernel documents of the functions that build a message, and of its bytes.
  pub record Transports : Type 0 where
    pub builds : Builds nl room contents
    pub writes :
        (s : Skb) (e : Event) (type : ℕ) (items : List Item)
        → payload_of e ≡ some (type, items)
        → contents s ≡ encoded type items
        → bytes s ≡ bytes_for id flagged type items
    pub no_error : id ≢ nlmsg_error
    pub no_done : id ≢ nlmsg_done

  -- No message could be allocated, or it was multicast, and whoever receives its bytes calls the
  -- callback as the event says, whatever stands behind them in the buffer.
  abbrev pub Arrives : Event → Type 0
  Arrives e =
      ((nl.new 260 ≡ none) × (send nl e ≡ not_allocated))
      ⊎ ((whole : Skb) × (send nl e ≡ multicasted whole (nl.multicast whole))
          × (20 ≤ length (bytes whole))
          × ((buf behind : List ℕ)
              → buf ≡ bytes whole ++ behind
              → length buf < 2 ^ 31
              → dispatch id buf (length (bytes whole)) ≡ some (calls_of e)))

range-IsEvent :
    {Skb : Type 0} (nl : Netlink Skb) (room : Skb → ℕ) (contents : Skb → List Item)
    (builds : Builds nl room contents) (e : Event)
    → InRange e
    → IsEvent nl room contents builds e
range-IsEvent nl room contents builds (binder b) (t, o, fp, fu, tp, tu, c, short, clean) = short
range-IsEvent nl room contents builds (signal s) range = tt
range-IsEvent nl room contents builds (network n) range = tt
range-IsEvent nl room contents builds (other t) range = range

-- The bytes of the message of an event.
event_bytes :
    (id : ℕ) (flagged : Bool) (e : Event) (type : ℕ) (items : List Item)
    → payload_of e ≡ some (type, items)
    → bytes_for id flagged type items ≡ event_message id 0 0 0 flagged e
event_bytes id flagged e type items kind =
    ap (λ attrs. genl_message id 0 0 0 1 1 (wire (nest flagged 1 attrs ∷ []))) (sym inside)
  where
    inside : kind_nest flagged e ≡ nest flagged type (map item_attr items) ∷ []
    inside = rw (kind_nest, kind) refl

event_message-long :
    (id : ℕ) (flagged : Bool) (e : Event) → 20 ≤ length (event_message id 0 0 0 flagged e)
event_message-long id flagged e = omega arith

-- A datagram of one message.
received :
    (id : ℕ) (flagged : Bool) (e : Event) (message buf behind : List ℕ)
    → message ≡ event_message id 0 0 0 flagged e
    → buf ≡ message ++ behind
    → length buf < 2 ^ 31
    → InRange e
    → id ≢ nlmsg_error
    → id ≢ nlmsg_done
    → dispatch id buf (length message) ≡ some (calls_of e)
received id flagged e message buf behind same split small range no_error no_done =
    let m : Sent = record { flags = 0; seq = 0; pid = 0; flagged = flagged; event = e } in
    let one : datagram id (m ∷ []) ≡ message =
      append-nil (event_message id 0 0 0 flagged e) ∙ sym same in
    ap (λ l. dispatch id buf (length l)) (sym one)
    ∙ datagram-calls (m ∷ []) id buf behind (split ∙ ap (λ l. l ++ behind) (sym one)) small
        (range, tt) no_error no_done
    ∙ ap some (append-nil (calls_of e))

module _ {Skb : Type 0} (nl : Netlink Skb) (room : Skb → ℕ) (contents : Skb → List Item)
    (bytes : Skb → List ℕ) (id : ℕ) (flagged : Bool)
    (transports : Transports nl room contents bytes id flagged) where
  pub event-Arrives : (e : Event) → InRange e → Arrives nl room contents bytes id flagged e
  event-Arrives e range =
      elim (send_outcome nl room contents transports.builds e
        (range-IsEvent nl room contents transports.builds e range)) [
          | inl out ↦ inl out
          | inr (whole, type, items, kind, sent, holds) ↦
              let same : bytes whole ≡ event_message id 0 0 0 flagged e =
                transports.writes whole e type items kind holds
                ∙ event_bytes id flagged e type items kind in
              inr (
                whole,
                sent,
                subst (λ l. 20 ≤ length l) (sym same) (event_message-long id flagged e),
                λ buf behind split small.
                    received id flagged e (bytes whole) buf behind same split small range
                      transports.no_error transports.no_done,
              )
        ]

  abbrev pub HookArrives : Option (Option Event) → Type 0
  HookArrives none = ⊥
  HookArrives (some none) = Unit {0}
  HookArrives (some (some e)) = Arrives nl room contents bytes id flagged e

  arrives_lem : (r : Option (Option Event)) → IsClean r → HookArrives r
  arrives_lem none is = is
  arrives_lem (some none) is = tt
  arrives_lem (some (some e)) is = event-Arrives e is

  -- If the functions of the kernel that build a message do what they document: on every call with
  -- values of the kernel's types (the buffer of a transaction having as many bytes as are copied, and a
  -- packet, malformed or a fragment as well, the bytes that pskb_may_pull answers for, with what
  -- ipv6_find_hdr leaves in thoff below 2 ^ 30), a hook on binder, signals or packets reads nothing out
  -- of bounds, and if it hands over an event, then genlmsg_new fails, or the message is multicast, and a client
  -- that receives it, at the start of a buffer of fewer than 2 ^ 31 bytes, calls the Java callback
  -- exactly once, with the fields of that event; of a family whose number is none of a control message.
  pub hook-arrives :
      (k : Kernel) (c : Setting) (o : Occasion) → IsOccasion o → HookArrives (observe k c o)
  hook-arrives k c o is = arrives_lem (observe k c o) (observe-IsClean k c o is)
