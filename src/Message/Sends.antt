-- ===== src/Message/Sends.antt =====
-- Every event of the module fits into its message, and the message holds the event.
use re_kernel_x.Base.{
  ℕ, ◌+◌, ◌≤◌, ◌<◌, ◌≡◌, refl, sym, ap, ◌∙◌, ◌⊎◌, inl, inr, List, [], ◌∷◌, ◌++◌, Option, none, some,
  arith, length, Option-cases,
}
use mathlib.Core.List.{append_assoc, append-nil}
use re_kernel_x.Event.{Event, binder, signal, network, other}
use re_kernel_x.Message.{
  Item, opens, s32, text, closes, Netlink, nla_total_size, binder_items, signal_items,
  network_items, payload_of, not_allocated, multicasted, put, puts, build, send,
}

-- What an item takes of the room of a message.
abbrev pub cost : Item → ℕ
cost (opens type) = 4
cost (s32 type v) = 8
cost (text type v) = nla_total_size (length v + 1)
cost closes = 0

abbrev pub costs : List Item → ℕ
costs [] = 0
costs (x ∷ xs) = cost x + costs xs

module _ {Skb : Type 0} (nl : Netlink Skb) (room : Skb → ℕ) (contents : Skb → List Item) where
  -- A step that appends an item if there is room for it, and takes no more than that.
  abbrev pub Appends : (Skb → Option Skb) → ℕ → List Item → Type 0
  Appends f n items =
      (s : Skb)
      → n ≤ room s
      → (s' : Skb) × (f s ≡ some s') × (contents s' ≡ contents s ++ items) × (room s ≤ room s' + n)

  -- What the functions of the kernel document: a new message has room for the headers, of 20 bytes,
  -- and the payload asked for; an attribute is put if there is room for it.
  pub record Builds : Type 0 where
    pub fresh : (n : ℕ) (s : Skb) → nl.new n ≡ some s → (contents s ≡ []) × (n + 20 ≤ room s)
    pub header : (cmd : ℕ) → Appends (λ s. nl.put_header s cmd) 20 []
    pub item : (x : Item) → Appends (λ s. put nl s x) (cost x) (x ∷ [])
    pub ended : (s : Skb) → contents (nl.message_end s) ≡ contents s

some_inj : {A : Type 0} (x y : A) → some x ≡ some y → x ≡ y
some_inj x y e = cc

-- The message of an event: the event's nest, and in it that of its kind.
abbrev pub encoded : ℕ → List Item → List Item
encoded type items = opens 1 ∷ opens type ∷ (items ++ closes ∷ closes ∷ [])

module _ {Skb : Type 0} (nl : Netlink Skb) (room : Skb → ℕ) (contents : Skb → List Item)
    (builds : Builds nl room contents) where
  puts-Appends :
      (items : List Item) → Appends nl room contents (λ s. puts nl s items) (costs items) items
  unfolding puts
  puts-Appends [] s h = (s, refl, sym (append-nil (contents s)), omega arith)
  puts-Appends (x ∷ xs) s h =
      let (s1, e1, c1, r1) = builds.item x s (omega arith) in
      let (s2, e2, c2, r2) = puts-Appends xs s1 (omega arith) in
      (s2, rw e1 e2, c2 ∙ ap (λ l. l ++ xs) c1 ∙ append_assoc (contents s) (x ∷ []) xs, omega arith)

  closed : (s : Skb) → contents (nl.nest_end s) ≡ contents s ++ closes ∷ []
  closed s =
      let (s1, e1, c1, r1) = builds.item closes s (omega arith) in
      ap contents (some_inj (nl.nest_end s) s1 e1) ∙ c1

  build_lem :
      (s : Skb) (e : Event) (type : ℕ) (items : List Item)
      → payload_of e ≡ some (type, items)
      → contents s ≡ []
      → costs items + 8 ≤ room s
      → (whole : Skb) × (build nl s e ≡ some whole) × (contents whole ≡ encoded type items)
  unfolding build
  build_lem s e type items kind empty fits =
      let (s1, e1, c1, r1) = builds.item (opens 1) s (omega arith) in
      let (s2, e2, c2, r2) = builds.item (opens type) s1 (omega arith) in
      let (s3, e3, c3, r3) = puts-Appends items s2 (omega arith) in
      let opened : contents s2 ≡ opens 1 ∷ opens type ∷ [] =
        c2 ∙ ap (λ l. l ++ opens type ∷ []) (c1 ∙ ap (λ l. l ++ opens 1 ∷ []) empty) in
      let filled : contents s3 ≡ opens 1 ∷ opens type ∷ items = c3 ∙ ap (λ l. l ++ items) opened in
      (
        nl.message_end (nl.nest_end (nl.nest_end s3)),
        rw (e1, kind, e2, e3) refl,
        builds.ended (nl.nest_end (nl.nest_end s3))
            ∙ closed (nl.nest_end s3)
            ∙ ap (λ l. l ++ closes ∷ []) (closed s3 ∙ ap (λ l. l ++ closes ∷ []) filled)
            ∙ append_assoc (opens 1 ∷ opens type ∷ items) (closes ∷ []) (closes ∷ []),
      )

  send_lem :
      (e : Event) (type : ℕ) (items : List Item)
      → payload_of e ≡ some (type, items)
      → costs items ≤ 252
      → ((nl.new 260 ≡ none) × (send nl e ≡ not_allocated))
        ⊎ ((whole : Skb) × (send nl e ≡ multicasted whole (nl.multicast whole))
            × (contents whole ≡ encoded type items))
  unfolding send
  send_lem e type items kind fits = elim (Option-cases (nl.new 260)) [
    | inl out ↦ inl (out, rw (out, send) refl)
    | inr (s, got) ↦
        let (empty, free) = builds.fresh 260 s got in
        let (s1, e1, c1, r1) = builds.header 1 s (omega arith) in
        let (whole, e2, c2) =
          build_lem s1 e type items kind (c1 ∙ ap (λ l. l ++ []) empty) (omega arith) in
        inr (whole, rw (got, send, e1, e2) refl, c2)
  ]

  with_items :
      (e : Event) (type : ℕ) (items : List Item)
      → payload_of e ≡ some (type, items)
      → costs items ≤ 252
      → ((nl.new 260 ≡ none) × (send nl e ≡ not_allocated))
        ⊎ ((whole : Skb) × (type : ℕ) × (items : List Item) × (payload_of e ≡ some (type, items))
            × (send nl e ≡ multicasted whole (nl.multicast whole))
            × (contents whole ≡ encoded type items))
  with_items e type items kind fits = elim (send_lem e type items kind fits) [
    | inl out ↦ inl out
    | inr (whole, sent, holds) ↦ inr (whole, type, items, kind, sent, holds)
  ]

  -- The kinds of events that there are, with names that end within the array of the event.
  abbrev pub IsEvent : Event → Type 0
  IsEvent (binder b) = length b.rpc_name < 140
  IsEvent (signal s) = Unit {0}
  IsEvent (network n) = Unit {0}
  IsEvent (other type) = ⊥

  -- If the functions of the kernel put an attribute whenever there is room for it, every event,
  -- its name shorter than the array that it stands in, fits into the message that is allocated
  -- for it: unless genlmsg_new fails, the message is multicast and holds the nest of the event,
  -- in it that of its kind, and in that the fields of the event in their order.
  pub send_outcome :
      (e : Event)
      → IsEvent e
      → ((nl.new 260 ≡ none) × (send nl e ≡ not_allocated))
        ⊎ ((whole : Skb) × (type : ℕ) × (items : List Item) × (payload_of e ≡ some (type, items))
            × (send nl e ≡ multicasted whole (nl.multicast whole))
            × (contents whole ≡ encoded type items))
  send_outcome (binder b) short = with_items (binder b) 10 (binder_items b) refl (omega arith)
  send_outcome (signal s) u = with_items (signal s) 20 (signal_items s) refl (omega arith)
  send_outcome (network n) u = with_items (network n) 30 (network_items n) refl (omega arith)
  send_outcome (other type) u = absurd u
