-- ===== src/Netfilter/Ops.antt =====
-- rkx_nf_ops of LKM-Source/rkx_netfilter.c: where in the network stack the hook stands. The numbers
-- of the kernel's headers come with the model.
use re_kernel_x.Base.{
  ℕ, ◌+◌, ◌/◌, ◌≤◌, ◌≡◌, ◌≢◌, refl, Bool, true, false, ◌&&◌, List, [], ◌∷◌, some, none, arith,
  if◌then◌else◌, ◌==◌, get_elem?,
}
use re_kernel_x.Netfilter.{Packet, Setting, parse_tcp}

-- NFPROTO_IPV4, NFPROTO_IPV6, NF_INET_LOCAL_IN, NF_IP_PRI_SELINUX_LAST, NF_IP6_PRI_SELINUX_LAST
pub record Numbers : Type 0 where
  pub nfproto_ipv4 : ℕ
  pub nfproto_ipv6 : ℕ
  pub local_in : ℕ
  pub pri_last : ℕ
  pub pri6_last : ℕ

-- nf_hook_ops, the hook being rkx_nf_local_in each time
pub record HookOps : Type 0 where
  pub pf : ℕ
  pub hooknum : ℕ
  pub priority : ℕ

-- rkx_nf_ops, by the build's CONFIG_IPV6
unfoldable pub nf_ops : Numbers → Bool → List HookOps
nf_ops n ipv6 =
    record { pf = n.nfproto_ipv4; hooknum = n.local_in; priority = n.pri_last + 1 }
    ∷ (if ipv6
        then record { pf = n.nfproto_ipv6; hooknum = n.local_in; priority = n.pri6_last + 1 } ∷ []
        else [])

-- How many of the entries are for a family of packets at a place.
unfoldable entries : List HookOps → ℕ → ℕ → ℕ
entries [] pf hooknum = 0
entries (o ∷ ops) pf hooknum =
    (if o.pf == pf && o.hooknum == hooknum then 1 else 0) + entries ops pf hooknum

-- A packet meets one entry at most at a place, since the two families differ.
entries-once :
    (n : Numbers) (ipv6 : Bool) (pf hooknum : ℕ)
    → n.nfproto_ipv4 ≢ n.nfproto_ipv6
    → entries (nf_ops n ipv6) pf hooknum ≤ 1
unfolding entries nf_ops
entries-once n true pf hooknum distinct = ground arith
entries-once n false pf hooknum distinct = ground arith

-- The family of a packet by the version in its first byte.
abbrev family : Numbers → ℕ → ℕ → ℕ
family n other first =
    if first / 16 == 4 then n.nfproto_ipv4 else if first / 16 == 6 then n.nfproto_ipv6 else other

-- The table misses nothing that the parsers would read: a packet whose family has no entry at
-- NF_INET_LOCAL_IN is one that they pass through unread.
unplaced-parse_tcp :
    (c : Setting) (p : Packet) (n : Numbers) (other first : ℕ) (rest : List ℕ)
    → p.bytes ≡ first ∷ rest
    → entries (nf_ops n c.ipv6) (family n other first) n.local_in ≡ 0
    → parse_tcp c p ≡ some none
unfolding entries nf_ops parse_tcp
unplaced-parse_tcp c p n other first rest split nowhere =
    let read : get_elem? p.bytes 0 ≡ some first = rw split refl in rw read (ground arith)
