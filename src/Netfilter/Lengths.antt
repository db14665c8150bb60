-- ===== src/Netfilter/Lengths.antt =====
-- The payload length of rkx_netfilter.c: the unsigned differences that are stored in an int stand
-- for the true difference, which may be negative.
use re_kernel_x.Base.{ℕ, ◌+◌, ◌≤◌, ◌<◌, ◌≡◌, ◌^◌, arith, sub_ℕ}
use re_kernel_x.Netfilter.{data_len_ipv4, data_len_ipv6}

pub data_len_ipv4_lem :
    (tot_len ihl doff : ℕ)
    → tot_len < 2 ^ 16
    → ihl ≤ 60
    → doff ≤ 60
    → data_len_ipv4 tot_len ihl doff ≡ sub_ℕ tot_len (ihl + doff)
data_len_ipv4_lem tot_len ihl doff a b c = ground arith

pub data_len_ipv6_lem :
    (payload_len thoff doff : ℕ)
    → payload_len < 2 ^ 16
    → thoff < 2 ^ 30
    → doff ≤ 60
    → data_len_ipv6 payload_len thoff doff ≡ sub_ℕ (payload_len + 40) (thoff + doff)
data_len_ipv6_lem payload_len thoff doff a b c = ground arith
