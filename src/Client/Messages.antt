-- ===== src/Client/Messages.antt =====
-- rkx_jni.cpp, pollEvent: the loop over the messages of a datagram, which is at the start of the receive
-- buffer. rlen is an int, here its 32 bits.
pub mod Batch
pub mod Stale
use re_kernel_x.Base.{
  ℕ, zero, suc, ◌+◌, ◌-◌, ◌*◌, ◌/◌, ◌%◌, ◌^◌, Bool, true, false, ◌&&◌, List, [], ◌++◌, Option, none,
  some, ◌>>=◌, if◌then◌else◌, ltb, leb, length,
}
use re_kernel_x.Nla.{le32}
use re_kernel_x.Client.Events.{Call, handle_event}

-- static_cast<size_t>(rlen), which extends the sign to 64 bits
abbrev pub as_size : ℕ → ℕ
as_size rlen = if ltb rlen (2 ^ 31) then rlen else rlen + (2 ^ 64 - 2 ^ 32)

-- NLMSG_OK; NLMSG_HDRLEN is 16.
abbrev pub nlmsg_ok : List ℕ → ℕ → ℕ → Option Bool
nlmsg_ok buf nlh rlen =
    if ltb (as_size rlen) 16
    then some false
    else (le32 buf nlh >>= λ n. some (leb 16 n && leb n (as_size rlen)))

-- NLMSG_ALIGN, at __u32
abbrev pub nlmsg_align : ℕ → ℕ
nlmsg_align n = (n + 3) % 2 ^ 32 / 4 * 4

-- What NLMSG_NEXT leaves of rlen.
abbrev pub rlen_next : ℕ → ℕ → ℕ
rlen_next rlen n = (rlen + 2 ^ 32 - nlmsg_align n) % 2 ^ 32

unfoldable pub messages : ℕ → ℕ → List ℕ → ℕ → ℕ → Option (List Call)
unfolding handle_event
messages zero family buf nlh rlen = none
messages (suc fuel) family buf nlh rlen = nlmsg_ok buf nlh rlen >>= λ ok. elim ok [
  | false ↦ some []
  | true ↦ handle_event family buf nlh >>= λ calls. le32 buf nlh >>= λ n.
      messages fuel family buf (nlh + nlmsg_align n) (rlen_next rlen n) >>= λ more.
      some (calls ++ more)
]

-- The loop over a datagram of `rlen` bytes. A round takes at least 16 bytes of the buffer, so as many
-- rounds as it has bytes, and one more, are enough.
unfoldable pub dispatch : ℕ → List ℕ → ℕ → Option (List Call)
unfolding messages
dispatch family buf rlen = messages (suc (length buf)) family buf 0 rlen
