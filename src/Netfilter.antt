-- ===== src/Netfilter.antt =====
-- LKM-Source/rkx_netfilter.c, the hook on inbound packets: the parsers of the two IP versions and
-- rkx_nf_local_in. (Registration is Lifecycle's.)
-- A packet is its bytes from the network header on. Each byte is read with a bounds check: `none`
-- is a read outside of the packet. pskb_may_pull and ipv6_find_hdr are the kernel's and come with
-- the packet.
pub mod Bounds
pub mod Lengths
pub mod Hook
pub mod Ops
use re_kernel_x.Base.{
  ℕ, ◌+◌, ◌-◌, ◌*◌, ◌/◌, ◌%◌, ◌^◌, ◌≤◌, ◌≡◌, Bool, true, false, ◌&&◌, ◌||◌, not, List, Option, none,
  some, ◌>>=◌, if◌then◌else◌, ◌==◌, ltb, ltb_ℤ, get_elem?, length, ℤ, pos, negsuc, eq_ℤ, signed32,
}
use re_kernel_x.Event.{Event, network, proto_ipv4, proto_ipv6, min_app_uid}

pub record Packet : Type 0 where
  pub bytes : List ℕ
  -- pskb_may_pull: whether so many bytes from the network header on can be read
  pub may_pull : ℕ → Bool
  -- ipv6_find_hdr(skb, &thoff, -1, &frag_off, NULL): the protocol or the error that it returns, and
  -- what is then in thoff and in frag_off
  pub find_hdr : ℤ × ℕ × ℕ

abbrev pub byte : Packet → ℕ → Option ℕ
byte p i = get_elem? p.bytes i

-- ntohs of the two bytes at `i`
abbrev pub be16 : Packet → ℕ → Option ℕ
be16 p i = do hi ← byte p i; lo ← byte p (i + 1); some (hi * 256 + lo)

abbrev pub ipproto_tcp : ℕ
ipproto_tcp = 6

-- sizeof(struct iphdr), sizeof(struct ipv6hdr), sizeof(struct tcphdr)
abbrev pub iphdr_size : ℕ
iphdr_size = 20

abbrev pub ipv6hdr_size : ℕ
ipv6hdr_size = 40

abbrev pub tcphdr_size : ℕ
tcphdr_size = 20

-- Bit `k` of a byte.
abbrev pub bit : ℕ → ℕ → Bool
bit b k = b / 2 ^ k % 2 == 1

-- th->doff << 2, and the flags th->syn, th->fin, th->rst of the header at `off`
abbrev pub doff_bytes : ℕ → ℕ
doff_bytes b = b / 16 * 4

abbrev pub syn : ℕ → Bool
syn flags = bit flags 1

abbrev pub fin : ℕ → Bool
fin flags = bit flags 0

abbrev pub rst : ℕ → Bool
rst flags = bit flags 2

-- `*data_len <= 0 && !th->syn && !th->fin && !th->rst`
abbrev pub uninteresting : ℤ → ℕ → Bool
uninteresting data_len flags =
    not (ltb_ℤ (pos 0) data_len) && not (syn flags) && not (fin flags) && not (rst flags)

-- ntohs(iph->tot_len) - ip_hdr_len - (th->doff << 2), unsigned, then stored in an int
abbrev pub data_len_ipv4 : ℕ → ℕ → ℕ → ℤ
data_len_ipv4 tot_len ip_hdr_len doff =
    signed32 ((tot_len + (2 ^ 32 - ip_hdr_len) + (2 ^ 32 - doff)) % 2 ^ 32)

-- The three reads of the TCP header at `off`, and the test that ends both parsers.
unfoldable pub finish_tcp : Packet → ℕ → ℕ → (ℕ → ℤ) → Option (Option (ℕ × ℤ))
finish_tcp p proto off len_of = do
  offset ← byte p (off + 12)
  flags ← byte p (off + 13)
  let data_len = len_of (doff_bytes offset)
  some (if uninteresting data_len flags then none else some (proto, data_len))

-- The outer `none` is a read out of bounds; the inner one is the return value -1, and a value is
-- what the code stores in *proto and *data_len.
unfoldable pub parse_tcp_ipv4 : Packet → Option (Option (ℕ × ℤ))
unfolding finish_tcp
parse_tcp_ipv4 p =
    if not (p.may_pull iphdr_size)
    then some none
    else byte p 9 >>= λ protocol.
        if not (protocol == ipproto_tcp)
        then some none
        else byte p 0 >>= λ first.
            let ip_hdr_len = first % 16 * 4 in
            if not (p.may_pull (ip_hdr_len + tcphdr_size))
            then some none
            else be16 p 2 >>= λ tot_len.
                finish_tcp p proto_ipv4 ip_hdr_len (data_len_ipv4 tot_len ip_hdr_len)

-- ntohs(iph6->payload_len) - (thoff - sizeof(struct ipv6hdr)) - (th->doff << 2), in size_t, then
-- stored in an int
abbrev pub data_len_ipv6 : ℕ → ℕ → ℕ → ℤ
data_len_ipv6 payload_len thoff doff =
    let ext = (thoff + 2 ^ 64 - ipv6hdr_size) % 2 ^ 64 in
    signed32 ((payload_len + (2 ^ 64 - ext) + (2 ^ 64 - doff)) % 2 ^ 64 % 2 ^ 32)

-- The code does not look at frag_off. The length to pull is an unsigned int.
unfoldable pub parse_tcp_ipv6 : Packet → Option (Option (ℕ × ℤ))
unfolding finish_tcp
parse_tcp_ipv6 p =
    let (protocol, thoff, frag_off) = p.find_hdr in
    if not (p.may_pull ipv6hdr_size)
    then some none
    else if not (eq_ℤ protocol (pos ipproto_tcp))
    then some none
    else if not (p.may_pull ((thoff + tcphdr_size) % 2 ^ 32))
    then some none
    else be16 p 4 >>= λ payload_len. finish_tcp p proto_ipv6 thoff (data_len_ipv6 payload_len thoff)

-- What rkx_nf_local_in reads of nf_hook_state: whether the hook is NF_INET_LOCAL_IN, and `in`.
pub record HookState : Type 0 where
  pub is_local_in : Bool
  pub has_in : Bool

-- What skb_to_full_sk returns: sk_fullsock, and the uid of sk_socket's inode, if there is a socket.
pub record Sock : Type 0 where
  pub is_full : Bool
  pub socket_uid : Option ℕ

unfoldable pub sock_to_uid : Option Sock → ℕ
sock_to_uid none = 0
sock_to_uid (some sk) = elim sk.socket_uid [ none ↦ 0 | some uid ↦ uid ]

-- The build's CONFIG_IPV6, the answer of rkx_net_uid_monitored_rcu, and rkx_netlink_ready.
pub record Setting : Type 0 where
  pub ipv6 : Bool
  pub is_monitored : ℕ → Bool
  pub ready : Bool

module _ (c : Setting) where
  -- The parsers by the version in the first byte; an inner `none` accepts the packet at once.
  unfoldable pub parse_tcp : Packet → Option (Option (ℕ × ℤ))
  parse_tcp p = byte p 0 >>= λ first.
      if first / 16 == 4
      then parse_tcp_ipv4 p
      else if c.ipv6 && first / 16 == 6
      then parse_tcp_ipv6 p
      else some none

  -- What follows the parser: the event that is handed to rkx_send_message.
  abbrev pub report : ℕ → Option (ℕ × ℤ) → Option Event
  report uid none = none
  report uid (some (proto, data_len)) =
      if c.ready
      then some (network (record { proto = proto; target_uid = uid; data_len = data_len }))
      else none

  -- After the checks of the socket and its uid.
  unfoldable pub inspect : Packet → ℕ → Option (Option Event)
  inspect p uid = do parsed ← parse_tcp p; some (report uid parsed)

  -- The hook returns NF_ACCEPT on every path; the model returns the event that it hands over, if it
  -- hands over one. The outer `none` is a read out of bounds.
  unfoldable pub local_in_hook :
      Option Packet → Option HookState → Option Sock → Option (Option Event)
  local_in_hook none state sk = some none
  local_in_hook (some p) none sk = some none
  local_in_hook (some p) (some state) none = some none
  local_in_hook (some p) (some state) (some sk) =
      if length p.bytes == 0
      then some none
      else if not state.is_local_in || not state.has_in
      then some none
      else if not sk.is_full
      then some none
      else (let uid = sock_to_uid (some sk) in
          if ltb uid min_app_uid
          then some none
          else if not (c.is_monitored uid)
          then some none
          else inspect p uid)
