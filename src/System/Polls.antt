-- ===== src/System/Polls.antt =====
-- From hooks of the kernel module to the calls that pollEvent makes, event by event.
use re_kernel_x.Base.{
  ℕ, ◌^◌, ◌<◌, ◌≤◌, ◌≡◌, refl, sym, ap, ◌∙◌, inl, inr, Bool, false, true, List, [], ◌∷◌, ◌++◌, some,
  arith, length, All, ℤ, pos, ◌==◌,
}
use mathlib.Core.Path.{subst}
use re_kernel_x.Event.{Event}
use re_kernel_x.Message.{Item, Netlink, Outcome, not_allocated, multicasted, send}
use re_kernel_x.Frozen.{Kernel}
use re_kernel_x.Netfilter.{Setting}
use re_kernel_x.Client.State.{Client}
use re_kernel_x.Client.Events.{Call}
use re_kernel_x.Client.Decodes.{calls_of, InRange}
use re_kernel_x.Client.Decodes.Reads.{bind_some}
use re_kernel_x.Client.Messages.{dispatch}
use re_kernel_x.Client.Connection.{Poll, ready, is_off, receive, round, poll_event}
use re_kernel_x.System.Hooks.{Occasion, observe, IsClean, IsOccasion}
use re_kernel_x.System.Hooks.Clean.{observe-IsClean}
use re_kernel_x.System.Arrives.{Transports, event-Arrives}

-- A call of a hook, the event that it handed over and the message that it became, and what stood behind
-- the message in the receive buffer of the client.
pub record Receipt (Skb : Type 0) : Type 0 where
  pub occasion : Occasion
  pub event : Event
  pub message : Skb
  pub behind : List ℕ

multicasted_inj : {Skb : Type 0} (a b : Skb) (x y : ℤ) → multicasted a x ≡ multicasted b y → a ≡ b
multicasted_inj a b x y e = cc

unsent :
    {Skb : Type 0} (o : Outcome Skb) (a : Skb) (x : ℤ) → o ≡ not_allocated → o ≡ multicasted a x → ⊥
unsent o a x f e = ground arith

module _ {Skb : Type 0} (nl : Netlink Skb) (room : Skb → ℕ) (contents : Skb → List Item)
    (bytes : Skb → List ℕ) (id : ℕ) (flagged : Bool) (k : Kernel) (c : Setting) where
  -- The hook handed the event over, its message was multicast, and it fits the buffer.
  pub record IsReceipt (r : Receipt Skb) : Type 0 where
    pub occurs : IsOccasion r.occasion
    pub hands_over : observe k c r.occasion ≡ some (some r.event)
    pub sent : send nl r.event ≡ multicasted r.message (nl.multicast r.message)
    pub short : length (bytes r.message ++ r.behind) < 2 ^ 31

  -- poll says that the socket can be read, and recvfrom gives the message.
  abbrev pub poll_of : Receipt Skb → Poll
  poll_of r = ready false true (pos (length (bytes r.message))) (bytes r.message ++ r.behind)

  abbrev pub calls_for : List (Receipt Skb) → List Call
  calls_for [] = []
  calls_for (r ∷ rs) = calls_of r.event ++ calls_for rs

  abbrev pub polls_for : List (Receipt Skb) → List Poll
  polls_for [] = []
  polls_for (r ∷ rs) = poll_of r ∷ polls_for rs

-- A client that is connected to the family and has a callback.
pub record Listens (id : ℕ) (s : Client) : Type 0 where
  pub connected : is_off s ≡ false
  pub of_family : s.family ≡ id
  pub ref : ℕ
  pub has_callback : s.callback ≡ some ref

receive_lem :
    (s : Client) (id ref n : ℕ) (buf : List ℕ) (calls : List Call)
    → s.family ≡ id
    → 1 ≤ n
    → dispatch id buf n ≡ some calls
    → receive s (pos n) buf (some ref) ≡ some calls
receive_lem s id ref n buf calls same full e =
    let more : n == 0 ≡ false = ground arith in rw more (ap (λ f. dispatch f buf n) same ∙ e)

round_lem :
    (s : Client) (id n : ℕ) (buf : List ℕ) (calls : List Call)
    → Listens id s
    → 1 ≤ n
    → dispatch id buf n ≡ some calls
    → round s (ready false true (pos n) buf) ≡ some (calls, true, s)
unfolding round
round_lem s id n buf calls l full e = rw l.connected (
    bind_some _ _ _ _
      (ap (receive s (pos n) buf) l.has_callback
        ∙ receive_lem s id l.ref n buf calls l.of_family full e)
      refl)

module _ {Skb : Type 0} (nl : Netlink Skb) (room : Skb → ℕ) (contents : Skb → List Item)
    (bytes : Skb → List ℕ) (id : ℕ) (flagged : Bool)
    (transports : Transports nl room contents bytes id flagged) (k : Kernel) (c : Setting) where
  range_lem :
      (r : Receipt Skb) → IsReceipt nl room contents bytes id flagged k c r → InRange r.event
  range_lem r is = subst IsClean is.hands_over (observe-IsClean k c r.occasion is.occurs)

  dispatch_lem :
      (r : Receipt Skb)
      → IsReceipt nl room contents bytes id flagged k c r
      → (1 ≤ length (bytes r.message))
        × (dispatch id (bytes r.message ++ r.behind) (length (bytes r.message))
            ≡ some (calls_of r.event))
  dispatch_lem r is =
      elim (event-Arrives nl room contents bytes id flagged transports r.event (range_lem r is)) [
        | inl (out, e) ↦ absurd (unsent (send nl r.event) r.message _ e is.sent)
        | inr (whole, e, long, arrives) ↦
            let same : whole ≡ r.message = multicasted_inj whole r.message _ _ (sym e ∙ is.sent) in
            (
              subst (λ m. 1 ≤ length (bytes m)) same (omega arith),
              subst
                  (λ m.
                    dispatch id (bytes r.message ++ r.behind) (length (bytes m))
                    ≡ some (calls_of r.event))
                  same
                  (arrives (bytes r.message ++ r.behind) r.behind
                    (ap (λ m. bytes m ++ r.behind) (sym same)) is.short),
            )
      ]

  -- If the functions of the kernel do what they document: a client that is connected to the family and
  -- has a callback, and for which poll says again and again that the socket can be read, each time with
  -- the message of an event that a hook handed over on a call with values of the kernel's types, makes
  -- exactly the calls for these events, one after the other in their order, stays in its loop and changes
  -- nothing of its state; whatever stands behind a message in the receive buffer, where both together
  -- have fewer than 2 ^ 31 bytes.
  pub polls-calls :
      (rs : List (Receipt Skb)) (s : Client)
      → Listens id s
      → All (IsReceipt nl room contents bytes id flagged k c) rs
      → poll_event s (polls_for nl room contents bytes id flagged k c rs)
        ≡ some (calls_for nl room contents bytes id flagged k c rs, false, s)
  unfolding poll_event
  polls-calls [] s l is = rw l.connected refl
  polls-calls (r ∷ rs) s l is =
      bind_some _ _ _ _
        (round_lem s id (length (bytes r.message)) (bytes r.message ++ r.behind) (calls_of r.event)
          l (dispatch_lem r is.0).0 (dispatch_lem r is.0).1)
        (bind_some _ _ _ _ (polls-calls rs s l is.1) refl)
