-- ===== src/Client/Messages/Stale.antt =====
-- A datagram whose last message does not end at a multiple of four bytes.
use re_kernel_x.Base.{
  ℕ, suc, ◌+◌, ◌-◌, ◌%◌, ◌^◌, ◌≤◌, ◌<◌, ◌≡◌, ◌≢◌, refl, sym, ap, ◌∙◌, true, false, List, [], ◌∷◌,
  ◌++◌, some, arith, ltb, length, length-append,
}
use mathlib.Core.List.{append_assoc, append-nil}
use re_kernel_x.Nla.{le32}
use re_kernel_x.Nla.Wire.{le32-split}
use re_kernel_x.Client.Events.{Call, nlmsg_error, nlmsg_done, handle_event}
use re_kernel_x.Client.Decodes.{calls_of, InRange}
use re_kernel_x.Client.Decodes.Reads.{bind_some}
use re_kernel_x.Client.Decodes.Trips.{event_message-calls}
use re_kernel_x.Client.Messages.{as_size, nlmsg_ok, nlmsg_align, rlen_next, messages, dispatch}
use re_kernel_x.Client.Messages.Batch.{Sent, bytes_of, message_size, messages_step}

-- A message that says to have no bytes ends the loop.
empty_stop :
    (fuel family : ℕ) (buf : List ℕ) (nlh rlen : ℕ)
    → 16 ≤ as_size rlen
    → le32 buf nlh ≡ some 0
    → messages (suc fuel) family buf nlh rlen ≡ some []
unfolding messages
empty_stop fuel family buf nlh rlen room e =
    let some_left : ltb (as_size rlen) 16 ≡ false = ground arith in
    let ok : nlmsg_ok buf nlh rlen ≡ some false = rw (some_left, e) refl in
    bind_some _ _ _ _ ok refl

-- A negative int as a size.
negative_size : (rlen : ℕ) → 2 ^ 31 ≤ rlen → as_size rlen ≡ rlen + (2 ^ 64 - 2 ^ 32)
negative_size rlen high =
    let negative : ltb rlen (2 ^ 31) ≡ false = ground arith in rw negative refl

small_size : (rlen : ℕ) → rlen < 2 ^ 31 → as_size rlen ≡ rlen
small_size rlen low = let fits : ltb rlen (2 ^ 31) ≡ true = ground arith in rw fits refl

-- Four zeros where the next message would begin stop the loop, if rlen is negative as an int.
zeros_stop :
    (fuel family rlen : ℕ) (buf front bytes after : List ℕ)
    → buf ≡ front ++ (bytes ++ 0 ∷ 0 ∷ 0 ∷ 0 ∷ after)
    → 2 ^ 31 ≤ rlen
    → messages (suc fuel) family buf (length (front ++ bytes)) rlen ≡ some []
zeros_stop fuel family rlen buf front bytes after split high =
    empty_stop fuel family buf (length (front ++ bytes)) rlen
      (omega (arith, negative_size rlen high))
      (le32-split buf (front ++ bytes) after (length (front ++ bytes)) 0 0 0 0
        (split ∙ sym (append_assoc front bytes (0 ∷ 0 ∷ 0 ∷ 0 ∷ after))) refl)

-- What is left of an earlier datagram, a message of an event and four zeros, with rlen one to three
-- less than 0 as an int.
leftover_calls :
    (fuel family rlen : ℕ) (buf front after : List ℕ) (m : Sent)
    → buf ≡ front ++ (bytes_of family m ++ 0 ∷ 0 ∷ 0 ∷ 0 ∷ after)
    → 2 ^ 32 - 4 < rlen
    → rlen < 2 ^ 32
    → InRange m.event
    → family ≢ nlmsg_error
    → family ≢ nlmsg_done
    → messages (suc (suc fuel)) family buf (length front) rlen ≡ some (calls_of m.event)
leftover_calls fuel family rlen buf front after m split low high range no_error no_done =
    let (k, size, above, below, aligned, reads) = message_size family m range in
    let zeros : List ℕ = 0 ∷ 0 ∷ 0 ∷ 0 ∷ after in
    let rlen' : ℕ = rlen_next rlen k in
    let place : length front + nlmsg_align k ≡ length (front ++ bytes_of family m) =
      omega (arith, length-append front (bytes_of family m)) in
    let stops : messages (suc fuel) family buf (length front + nlmsg_align k) rlen' ≡ some [] =
      ap (λ p. messages (suc fuel) family buf p rlen') place
      ∙ zeros_stop fuel family rlen' buf front (bytes_of family m) after split (omega arith) in
    messages_step (suc fuel) family buf (length front) rlen k (calls_of m.event)
      (omega (arith, negative_size rlen (omega arith))) (reads buf front zeros split) (omega arith)
      (omega (arith, negative_size rlen (omega arith)))
      (event_message-calls buf front zeros family m.flags m.seq m.pid m.flagged m.event split range
        no_error no_done)
    ∙ bind_some _ _ _ _ stops (ap some (append-nil (calls_of m.event)))

-- If the only message of a datagram has a length that is no multiple of four, the loop does not end
-- with it: rlen is negative then, and huge as a size. A message of an event that still lies behind the
-- datagram, from an earlier one, is handled as well, if its fields are in their ranges; four zeros
-- behind that stop the loop. The first message has between 16 and 8191 bytes and is handled without a
-- fault, and the number of the family is none of a control message.
pub stale_calls :
    (family n : ℕ) (buf front after : List ℕ) (m : Sent) (calls : List Call)
    → le32 buf 0 ≡ some n
    → 16 ≤ n
    → n < 8192
    → n % 4 ≢ 0
    → handle_event family buf 0 ≡ some calls
    → buf ≡ front ++ (bytes_of family m ++ 0 ∷ 0 ∷ 0 ∷ 0 ∷ after)
    → length front ≡ nlmsg_align n
    → InRange m.event
    → family ≢ nlmsg_error
    → family ≢ nlmsg_done
    → dispatch family buf n ≡ some (calls ++ calls_of m.event)
unfolding dispatch
stale_calls family n buf front after m calls e low high odd first split front_size range no_error
      no_done =
    let zeros : List ℕ = 0 ∷ 0 ∷ 0 ∷ 0 ∷ after in
    let whole : length buf ≡ length front + length (bytes_of family m ++ zeros) =
      ap length split ∙ length-append front (bytes_of family m ++ zeros) in
    let fuel : ℕ = length buf - 2 in
    let rounds : suc (length buf) ≡ suc (suc (suc fuel)) = omega arith in
    let rlen' : ℕ = rlen_next n n in
    let place : 0 + nlmsg_align n ≡ length front = omega arith in
    let second : messages (suc (suc fuel)) family buf (0 + nlmsg_align n) rlen'
        ≡ some (calls_of m.event) =
      ap (λ p. messages (suc (suc fuel)) family buf p rlen') place
      ∙ leftover_calls fuel family rlen' buf front after m split (omega arith) (omega arith) range
          no_error no_done in
    ap (λ f. messages f family buf 0 n) rounds
    ∙ messages_step (suc (suc fuel)) family buf 0 n n calls
        (omega (arith, small_size n (omega arith))) e low
        (omega (arith, small_size n (omega arith))) first
    ∙ bind_some _ _ _ _ second refl
