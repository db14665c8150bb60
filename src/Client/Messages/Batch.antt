-- ===== src/Client/Messages/Batch.antt =====
-- A datagram of whole messages.
use re_kernel_x.Base.{
  ℕ, zero, suc, ◌+◌, ◌^◌, ◌≤◌, ◌<◌, ◌≡◌, ◌≢◌, refl, sym, ap, ◌∙◌, Bool, true, false, ◌&&◌, List, [],
  ◌∷◌, ◌++◌, some, ◌>>=◌, arith, ltb, leb, length, length-append, All,
}
use mathlib.Core.List.{append_assoc}
use re_kernel_x.Event.{Event}
use re_kernel_x.Nla.{le32, nla_align}
use re_kernel_x.Nla.Wire.{bytes16, bytes32, wire, wire_of, length-wire_of, le32-bytes32}
use re_kernel_x.Client.Events.{Call, nlmsg_error, nlmsg_done, handle_event}
use re_kernel_x.Client.Decodes.{nest, kind_nest, event_message, calls_of, InRange}
use re_kernel_x.Client.Decodes.Reads.{bind_some}
use re_kernel_x.Client.Decodes.Trips.{event_message-calls, nest_size}
use re_kernel_x.Client.Messages.{as_size, nlmsg_ok, nlmsg_align, rlen_next, messages, dispatch}

-- A message is taken, and what is behind it.
pub messages_step :
    (fuel family : ℕ) (buf : List ℕ) (nlh rlen n : ℕ) (calls : List Call)
    → 16 ≤ as_size rlen
    → le32 buf nlh ≡ some n
    → 16 ≤ n
    → n ≤ as_size rlen
    → handle_event family buf nlh ≡ some calls
    → messages (suc fuel) family buf nlh rlen ≡ (
        messages fuel family buf (nlh + nlmsg_align n) (rlen_next rlen n) >>= λ more.
        some (calls ++ more))
unfolding messages
messages_step fuel family buf nlh rlen n calls room e low high h =
    let some_left : ltb (as_size rlen) 16 ≡ false = ground arith in
    let whole : leb 16 n && leb n (as_size rlen) ≡ true = ground arith in
    let ok : nlmsg_ok buf nlh rlen ≡ some true = rw (some_left, e, whole) refl in
    bind_some _ _ _ _ ok (bind_some _ _ _ _ h (bind_some _ _ _ _ e refl))

pub messages_stop :
    (fuel family : ℕ) (buf : List ℕ) (nlh rlen : ℕ)
    → as_size rlen < 16
    → messages (suc fuel) family buf nlh rlen ≡ some []
unfolding messages
messages_stop fuel family buf nlh rlen short =
    let out : ltb (as_size rlen) 16 ≡ true = ground arith in rw out refl

-- What the kernel chose for a message, and the event in it.
pub record Sent : Type 0 where
  pub flags : ℕ
  pub seq : ℕ
  pub pid : ℕ
  pub flagged : Bool
  pub event : Event

abbrev pub bytes_of : ℕ → Sent → List ℕ
bytes_of family m = event_message family m.flags m.seq m.pid m.flagged m.event

abbrev pub datagram : ℕ → List Sent → List ℕ
datagram family [] = []
datagram family (m ∷ ms) = bytes_of family m ++ datagram family ms

abbrev pub all_calls : List Sent → List Call
all_calls [] = []
all_calls (m ∷ ms) = calls_of m.event ++ all_calls ms

-- The length that an event's message has and says to have.
pub message_size :
    (family : ℕ) (m : Sent)
    → InRange m.event
    → (n : ℕ) × (length (bytes_of family m) ≡ n)
      × (n < 2100)
      × (20 ≤ n)
      × (nlmsg_align n ≡ n)
      × ((buf before after : List ℕ)
          → buf ≡ before ++ (bytes_of family m ++ after)
          → le32 buf (length before) ≡ some n)
message_size family m range =
    let a = nest m.flagged 1 (kind_nest m.flagged m.event) in
    let n : ℕ = length (wire (a ∷ [])) + 20 in
    let size : n ≡ nla_align (length (wire (kind_nest m.flagged m.event)) + 4) + 20 =
      omega (arith, length-append (wire_of a) [], length-wire_of a) in
    let small = nest_size m.flagged m.event range in
    (
      n,
      omega arith,
      omega arith,
      omega arith,
      omega arith,
      λ buf before after split.
          le32-bytes32 buf before
            (bytes16 family
              ++ (bytes16 m.flags
                  ++ (bytes32 m.seq
                      ++ (bytes32 m.pid ++ 1 ∷ 1 ∷ 0 ∷ 0 ∷ (wire (a ∷ []) ++ after)))))
            (length before) n split refl,
    )

batch_lem :
    (ms : List Sent) (fuel family : ℕ) (buf before after : List ℕ) (rlen : ℕ)
    → buf ≡ before ++ (datagram family ms ++ after)
    → length (datagram family ms) ≡ rlen
    → rlen < 2 ^ 31
    → length ms < fuel
    → All (λ m. InRange m.event) ms
    → family ≢ nlmsg_error
    → family ≢ nlmsg_done
    → messages fuel family buf (length before) rlen ≡ some (all_calls ms)
batch_lem ms zero family buf before after rlen e l small f range no_error no_done = elim f [ ]
batch_lem [] (suc fuel) family buf before after rlen e l small f range no_error no_done =
    let low : ltb rlen (2 ^ 31) ≡ true = ground arith in
    messages_stop fuel family buf (length before) rlen (rw low (omega arith))
batch_lem (m ∷ ms) (suc fuel) family buf before after rlen e l small f range no_error no_done =
    let (n, size, above, below, aligned, reads) = message_size family m range.0 in
    let here : buf ≡ before ++ (bytes_of family m ++ (datagram family ms ++ after)) =
      e ∙ ap (λ t. before ++ t) (append_assoc (bytes_of family m) (datagram family ms) after) in
    let split : length (datagram family (m ∷ ms)) ≡ n + length (datagram family ms) =
      length-append (bytes_of family m) (datagram family ms)
      ∙ ap (λ k. k + length (datagram family ms)) size in
    let low : ltb rlen (2 ^ 31) ≡ true = ground arith in
    let all : as_size rlen ≡ rlen = rw low refl in
    let left : rlen_next rlen n ≡ length (datagram family ms) = rw aligned (omega arith) in
    let next : length before + nlmsg_align n ≡ length (before ++ bytes_of family m) =
      omega (arith, length-append before (bytes_of family m)) in
    messages_step fuel family buf (length before) rlen n (calls_of m.event) (omega arith)
      (reads buf before (datagram family ms ++ after) here) (omega arith) (omega arith)
      (event_message-calls buf before (datagram family ms ++ after) family m.flags m.seq m.pid
        m.flagged m.event here range.0 no_error no_done)
    ∙ rw (next, left)
        (bind_some _ _ _ _
          (batch_lem ms fuel family buf (before ++ bytes_of family m) after
            (length (datagram family ms))
            (here ∙ sym (append_assoc before (bytes_of family m) (datagram family ms ++ after)))
            refl (omega arith) (omega arith) range.1 no_error no_done)
          refl)

count_lem :
    (family : ℕ) (ms : List Sent)
    → All (λ m. InRange m.event) ms
    → length ms ≤ length (datagram family ms)
count_lem family [] range = omega arith
count_lem family (m ∷ ms) range =
    let (n, size, above, below, aligned, reads) = message_size family m range.0 in
    omega (
      arith,
      count_lem family ms range.1,
      length-append (bytes_of family m) (datagram family ms),
      size,
    )

-- A datagram that holds whole messages of events, of which the fields are in their ranges, makes the
-- client call the callback once for each, in their order, and nothing that stands behind it in the
-- buffer matters; of fewer than 2 ^ 31 bytes, and a family whose number is none of a control message.
pub datagram-calls :
    (ms : List Sent) (family : ℕ) (buf behind : List ℕ)
    → buf ≡ datagram family ms ++ behind
    → length buf < 2 ^ 31
    → All (λ m. InRange m.event) ms
    → family ≢ nlmsg_error
    → family ≢ nlmsg_done
    → dispatch family buf (length (datagram family ms)) ≡ some (all_calls ms)
unfolding dispatch
datagram-calls ms family buf behind e small range no_error no_done =
    let all = length-append (datagram family ms) behind in
    let whole : length buf ≡ length (datagram family ms ++ behind) = ap length e in
    batch_lem ms (suc (length buf)) family buf [] behind (length (datagram family ms)) e refl
      (omega arith) (omega (arith, count_lem family ms range)) range no_error no_done
