-- ===== src/Netfilter/Hook.antt =====
-- rkx_nf_local_in as a whole.
use re_kernel_x.Base.{
  ℕ, zero, suc, ◌%◌, List, [], ◌∷◌, sub_ℕ, eq_ℤ, pos, ◌+◌, ◌*◌, ◌/◌, ◌≤◌, ◌<◌, ◌^◌, ◌≡◌, refl, inl,
  inr, Bool, ◌&&◌, ◌||◌, not, Option, none, some, ◌>>=◌, arith, leb, ltb, if◌then◌else◌, length,
  All, Bool-cases, Option-cases, ◌==◌, ℤ, get_or,
}
use mathlib.Core.Option
use re_kernel_x.Event.{Event, network, proto_ipv4, proto_ipv6}
use re_kernel_x.Netfilter.{
  doff_bytes, Packet, HookState, Sock, Setting, parse_tcp, parse_tcp_ipv4, parse_tcp_ipv6,
  uninteresting, report, inspect, local_in_hook, sock_to_uid,
}
use re_kernel_x.Netfilter.Bounds.{
  PullsBytes, at, word, get_elem?_inside, parse_tcp_ipv4_lem, parse_tcp_ipv6_lem, verdict,
}
use re_kernel_x.Netfilter.Lengths.{data_len_ipv4_lem, data_len_ipv6_lem}

-- What the kernel documents of the packets that it hands to a hook: they are not empty, bytes are
-- bytes, a pull that succeeds makes its bytes readable, and what ipv6_find_hdr leaves in thoff, 0 or
-- the offset that it came to, on an error or in a fragment as well, is less than 1 GiB.
pub record IsPacket (p : Packet) : Type 0 where
  pub nonempty : 1 ≤ length p.bytes
  pub octets : All (λ b. b < 256) p.bytes
  pub pulls : PullsBytes p
  pub header_near : p.find_hdr.1 < 2 ^ 30

at-lt : (xs : List ℕ) (i : ℕ) → All (λ b. b < 256) xs → get_or xs i 0 < 256
at-lt [] i h = omega arith
at-lt (x ∷ xs) zero h = h.0
at-lt (x ∷ xs) (suc i) h = at-lt xs i h.1

-- A packet of `total` bytes by its IP header, with a TCP header at `off`: what is to be reported of it,
-- the IP version and the number of bytes behind the TCP header. Something is if there are such bytes or
-- one of FIN, SYN and RST is set, the three low bits of the flags; the number may be negative.
abbrev pub carried : Packet → ℕ → ℕ → ℕ → Option (ℕ × ℤ)
carried p version off total =
    let headers = off + at p (off + 12) / 16 * 4 in
    if ltb headers total || not (at p (off + 13) % 8 == 0)
    then some (version, sub_ℕ total headers)
    else none

verdict-carried :
    (p : Packet) (version off total : ℕ)
    → verdict p version off (sub_ℕ total (off + doff_bytes (at p (off + 12))))
      ≡ carried p version off total
verdict-carried p version off total =
    let headers : ℕ = off + doff_bytes (at p (off + 12)) in
    let flags : ℕ = at p (off + 13) in
    let same : uninteresting (sub_ℕ total headers) flags
        ≡ not (ltb headers total || not (flags % 8 == 0)) =
      ground arith in
    rw same (ground arith)

-- The segment in a packet, of protocol 6, TCP: by the header of an IPv4 packet, or as ipv6_find_hdr
-- answers.
abbrev pub segment : Bool → Packet → Option (ℕ × ℤ)
segment ipv6 p =
    let ihl = at p 0 % 16 * 4 in
    let thoff = p.find_hdr.1 in
    if at p 0 / 16 == 4
    then (if p.may_pull 20 && at p 9 == 6 && p.may_pull (ihl + 20)
        then carried p 4 ihl (word p 2)
        else none)
    else if ipv6 && at p 0 / 16 == 6
    then (if p.may_pull 40 && eq_ℤ p.find_hdr.0 (pos 6) && p.may_pull (thoff + 20)
        then carried p 6 thoff (word p 4 + 40)
        else none)
    else none

-- The packet comes in at NF_INET_LOCAL_IN on a device, for a full socket, of a monitored uid that is
-- 10000 or more.
abbrev pub passes : Setting → HookState → Sock → ℕ → Bool
passes c state sk uid =
    state.is_local_in && state.has_in && sk.is_full && leb 10000 uid && c.is_monitored uid

abbrev pub event_of : ℕ → ℕ × ℤ → Event
event_of uid (version, payload) =
    network (record { proto = version; target_uid = uid; data_len = payload })

-- What is to be reported of a packet for a socket, once the netlink family is registered.
abbrev pub expected : Setting → Packet → HookState → Sock → Option Event
expected c p state sk = sk.socket_uid >>= λ uid.
    if passes c state sk uid && c.ready then Option.map (event_of uid) (segment c.ipv6 p) else none

module _ (p : Packet) (ok : IsPacket p) where
  pub octet : (i : ℕ) → at p i < 256
  octet i = at-lt p.bytes i ok.octets

  parse_tcp_ipv4-carried :
      parse_tcp_ipv4 p
      ≡ some (
          if p.may_pull 20 && at p 9 == 6 && p.may_pull (at p 0 % 16 * 4 + 20)
          then carried p 4 (at p 0 % 16 * 4) (word p 2)
          else none)
  parse_tcp_ipv4-carried =
      let ihl : ℕ = at p 0 % 16 * 4 in
      rw
        (
          parse_tcp_ipv4_lem p ok.pulls,
          data_len_ipv4_lem (word p 2) ihl (doff_bytes (at p (ihl + 12)))
              (omega (arith, octet 2, octet 3)) (omega arith) (omega (arith, octet (ihl + 12))),
          verdict-carried p proto_ipv4 ihl (word p 2),
        )
        refl

  parse_tcp_ipv6-carried :
      parse_tcp_ipv6 p
      ≡ some (
          if p.may_pull 40 && eq_ℤ p.find_hdr.0 (pos 6) && p.may_pull (p.find_hdr.1 + 20)
          then carried p 6 p.find_hdr.1 (word p 4 + 40)
          else none)
  parse_tcp_ipv6-carried =
      let off : ℕ = p.find_hdr.1 in
      rw
        (
          parse_tcp_ipv6_lem p ok.pulls ok.header_near,
          data_len_ipv6_lem (word p 4) off (doff_bytes (at p (off + 12)))
              (omega (arith, octet 4, octet 5)) ok.header_near (omega (arith, octet (off + 12))),
          verdict-carried p proto_ipv6 off (word p 4 + 40),
        )
        refl

  parse_tcp-segment : (c : Setting) → parse_tcp c p ≡ some (segment c.ipv6 p)
  unfolding parse_tcp
  parse_tcp-segment c =
      rw (get_elem?_inside p.bytes 0 0 ok.nonempty)
        (ground (arith, parse_tcp_ipv4-carried, parse_tcp_ipv6-carried))

  report-map :
      (c : Setting) (uid : ℕ) (x : Option (ℕ × ℤ))
      → report c uid x ≡ (if c.ready then Option.map (event_of uid) x else none)
  report-map c uid none = ground arith
  report-map c uid (some x) = refl

  -- On every packet that the kernel can hand over, malformed or a fragment, no byte outside of it is
  -- read, and an event is sent exactly if the packet comes in at NF_INET_LOCAL_IN on a device for a full
  -- socket of a monitored uid of at least 10000, the family is registered, the IP version is 4, or is 6
  -- and built in, the header of the one or ipv6_find_hdr for the other says TCP, the headers can be
  -- pulled, and by its lengths there is payload or one of SYN, FIN and RST is set. The event has the
  -- version, the uid and the true difference of the lengths, which may be negative.
  pub local_in_hook_lem :
      (c : Setting) (state : HookState) (sk : Sock)
      → local_in_hook c (some p) (some state) (some sk) ≡ some (expected c p state sk)
  unfolding local_in_hook inspect sock_to_uid
  local_in_hook_lem c state sk = elim (Option-cases sk.socket_uid) [
    | inl e ↦ rw e (ground arith)
    | inr (uid, e) ↦ rw e (elim (Bool-cases (passes c state sk uid)) [
      | inr stops ↦ ground arith
      | inl goes ↦
          ground (arith, ok.nonempty, parse_tcp-segment c, report-map c uid (segment c.ipv6 p))
    ])
  ]
