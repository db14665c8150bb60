-- ===== src/Tests/NetfilterTests.antt =====
-- The hook on inbound packets, on an IPv4 segment with five bytes of payload.
use re_kernel_x.Base.{
  ℕ, ◌≡◌, refl, true, List, ◌∷◌, ◌++◌, none, some, arith, replicate, leb, pos, negsuc,
}
use re_kernel_x.Event.{network}
use re_kernel_x.Netfilter.{
  Packet, HookState, Sock, Setting, local_in_hook, sock_to_uid, inspect, parse_tcp, parse_tcp_ipv4,
  parse_tcp_ipv6, finish_tcp,
}
use re_kernel_x.Netfilter.Hook.{IsPacket, local_in_hook_lem, expected}

-- 20 bytes of IPv4 header (45 total, protocol 6), 20 of TCP header (no flag set), 5 of payload.
abbrev bytes : List ℕ
bytes =
    0x45 ∷ 0 ∷ 0 ∷ 45 ∷ 0 ∷ 0 ∷ 0 ∷ 0 ∷ 64 ∷ 6 ∷ replicate 22 0 ++ (0x50 ∷ 0x10 ∷ replicate 11 0)

abbrev pub packet : Packet
packet = record { bytes = bytes; may_pull = λ n. leb n 45; find_hdr = (pos 6, 40, 0) }

pub packet-IsPacket : IsPacket packet
packet-IsPacket = record {
  nonempty = omega arith;
  octets = omega arith;
  pulls = λ n h. ground arith;
  header_near = omega arith;
}

abbrev setting : Setting
setting = record { ipv6 = true; is_monitored = λ uid. true; ready = true }

abbrev pub hook_state : HookState
hook_state = record { is_local_in = true; has_in = true }

abbrev pub sock : Sock
sock = record { is_full = true; socket_uid = some 10100 }

sends :
    local_in_hook setting (some packet) (some hook_state) (some sock)
    ≡ some (some (network (record { proto = 4; target_uid = 10100; data_len = pos 5 })))
unfolding local_in_hook inspect parse_tcp parse_tcp_ipv4 sock_to_uid
sends = refl

-- A later fragment of an IPv6 packet, with a one wherever a TCP header would have its flags.
abbrev fragment : Packet
fragment = record {
  bytes = 0x60 ∷ replicate 79 1;
  may_pull = λ n. leb n 80;
  find_hdr = (pos 6, 48, 100);
}

fragment_sends :
    local_in_hook setting (some fragment) (some hook_state) (some sock)
    ≡ some (some (network (record { proto = 6; target_uid = 10100; data_len = pos 249 })))
unfolding local_in_hook inspect parse_tcp parse_tcp_ipv6 finish_tcp sock_to_uid
fragment_sends = refl

-- ipv6_find_hdr fails and leaves 0.
malformed_passes :
    local_in_hook setting
      (some (record fragment { find_hdr = (negsuc 73, 0, 0) }))
      (some hook_state)
      (some sock)
    ≡ some none
unfolding local_in_hook inspect parse_tcp parse_tcp_ipv6 finish_tcp sock_to_uid
malformed_passes = refl

local_in_hook_lem_example :
    local_in_hook setting (some packet) (some hook_state) (some sock)
    ≡ some (expected setting packet hook_state sock)
local_in_hook_lem_example = local_in_hook_lem packet packet-IsPacket setting hook_state sock
