-- ===== src/Netfilter/Bounds.antt =====
-- The hook of rkx_netfilter.c reads no byte outside of the packet: after a pskb_may_pull that
-- succeeds it reads only what was pulled.
use re_kernel_x.Base.{
  ℕ, zero, suc, ◌+◌, ◌*◌, ◌%◌, ◌^◌, ◌≤◌, ◌<◌, ◌≡◌, refl, inl, inr, true, List, [], ◌∷◌, Option,
  none, some, arith, get_elem?, get_or, length, ◌&&◌, Bool-cases, ◌==◌, if◌then◌else◌, ℤ, pos, eq_ℤ,
}
use re_kernel_x.Event.{proto_ipv4, proto_ipv6}
use re_kernel_x.Netfilter.{
  Packet, byte, be16, parse_tcp_ipv4, parse_tcp_ipv6, finish_tcp, uninteresting, doff_bytes,
  data_len_ipv4, data_len_ipv6, tcphdr_size, ipproto_tcp, iphdr_size, ipv6hdr_size,
}

pub get_elem?_inside :
    {A : Type 0} (xs : List A) (i : ℕ) (d : A)
    → i < length xs
    → get_elem? xs i ≡ some (get_or xs i d)
get_elem?_inside [] i d h = elim h [ ]
get_elem?_inside (x ∷ xs) zero d h = refl
get_elem?_inside (x ∷ xs) (suc i) d h = get_elem?_inside xs i d (omega arith)

-- What the kernel documents of a pull that succeeds.
abbrev pub PullsBytes : Packet → Type 0
PullsBytes p = (n : ℕ) → p.may_pull n ≡ true → n ≤ length p.bytes

-- The byte at `i`, the 16-bit number at `i`, of a packet that is long enough.
abbrev pub at : Packet → ℕ → ℕ
at p i = get_or p.bytes i 0

abbrev pub word : Packet → ℕ → ℕ
word p i = at p i * 256 + at p (i + 1)

-- The answer of a parser whose TCP header stands at `off` and whose payload length is `len`.
abbrev pub verdict : Packet → ℕ → ℕ → ℤ → Option (ℕ × ℤ)
verdict p proto off len = if uninteresting len (at p (off + 13)) then none else some (proto, len)

module _ (p : Packet) (pulls : PullsBytes p) where
  byte-at : (i n : ℕ) → p.may_pull n ≡ true → i < n → byte p i ≡ some (at p i)
  byte-at i n h lt = get_elem?_inside p.bytes i 0 (omega (arith, pulls n h))

  be16-word : (i n : ℕ) → p.may_pull n ≡ true → i + 1 < n → be16 p i ≡ some (word p i)
  be16-word i n h lt = rw (byte-at i n h (omega arith), byte-at (i + 1) n h (omega arith))

  pub finish_tcp_lem :
      (proto off : ℕ) (len_of : ℕ → ℤ)
      → p.may_pull (off + tcphdr_size) ≡ true
      → finish_tcp p proto off len_of
        ≡ some (verdict p proto off (len_of (doff_bytes (at p (off + 12)))))
  unfolding finish_tcp
  finish_tcp_lem proto off len_of h =
      rw (byte-at (off + 12) _ h (omega arith), byte-at (off + 13) _ h (omega arith))

  abbrev pub ihl_bytes : ℕ
  ihl_bytes = at p 0 % 16 * 4

  -- The parser for IPv4 reads no byte out of bounds, and gives up exactly when a header cannot be
  -- pulled or the protocol is not TCP, or when the segment has no payload and no SYN, FIN or RST.
  pub parse_tcp_ipv4_lem :
      parse_tcp_ipv4 p
      ≡ some (
          if p.may_pull iphdr_size && at p 9 == ipproto_tcp && p.may_pull (ihl_bytes + tcphdr_size)
          then verdict p proto_ipv4 ihl_bytes
              (data_len_ipv4 (word p 2) ihl_bytes (doff_bytes (at p (ihl_bytes + 12))))
          else none)
  unfolding parse_tcp_ipv4
  parse_tcp_ipv4_lem = elim (Bool-cases (p.may_pull iphdr_size)) [
    | inr no_header ↦ rw no_header
    | inl header ↦
        rw (header, byte-at 9 iphdr_size header (omega arith))
          (elim (Bool-cases (at p 9 == ipproto_tcp)) [
            | inr no_tcp ↦ rw no_tcp
            | inl tcp ↦
                rw (tcp, byte-at 0 iphdr_size header (omega arith))
                  (elim (Bool-cases (p.may_pull (ihl_bytes + tcphdr_size))) [
                    | inr short ↦ rw short
                    | inl whole ↦
                        rw (whole, be16-word 2 iphdr_size header (omega arith))
                          (finish_tcp_lem proto_ipv4 ihl_bytes (data_len_ipv4 (word p 2) ihl_bytes)
                            whole)
                  ])
          ])
  ]

  abbrev pub thoff : ℕ
  thoff = p.find_hdr.1

  -- The parser for IPv6 reads no byte out of bounds, and gives up exactly when a header cannot be
  -- pulled or ipv6_find_hdr answers another protocol than TCP, or when the segment has no payload
  -- and no SYN, FIN or RST.
  pub parse_tcp_ipv6_lem :
      thoff < 2 ^ 30
      → parse_tcp_ipv6 p
        ≡ some (
            if p.may_pull ipv6hdr_size
              && eq_ℤ p.find_hdr.0 (pos ipproto_tcp)
              && p.may_pull (thoff + tcphdr_size)
            then verdict p proto_ipv6 thoff
                (data_len_ipv6 (word p 4) thoff (doff_bytes (at p (thoff + 12))))
            else none)
  unfolding parse_tcp_ipv6
  parse_tcp_ipv6_lem near =
      let fits : (thoff + tcphdr_size) % 2 ^ 32 ≡ thoff + tcphdr_size = omega arith in
      rw fits (elim (Bool-cases (p.may_pull ipv6hdr_size)) [
        | inr no_header ↦ rw no_header
        | inl header ↦ elim (Bool-cases (eq_ℤ p.find_hdr.0 (pos ipproto_tcp))) [
          | inr no_tcp ↦ rw (header, no_tcp)
          | inl tcp ↦ elim (Bool-cases (p.may_pull (thoff + tcphdr_size))) [
            | inr short ↦ rw (header, tcp, short)
            | inl whole ↦
                rw (header, tcp, whole, be16-word 4 ipv6hdr_size header (omega arith))
                  (finish_tcp_lem proto_ipv6 thoff (data_len_ipv6 (word p 4) thoff) whole)
          ]
        ]
      ])
