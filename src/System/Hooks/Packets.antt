-- ===== src/System/Hooks/Packets.antt =====
-- The events of the hooks on signals and on inbound packets.
use re_kernel_x.Base.{
  ℕ, ◌+◌, ◌*◌, ◌/◌, ◌-◌, ◌%◌, ◌^◌, ◌<◌, sym, Bool, true, false, ◌&&◌, ◌||◌, not, Option, none, some,
  arith, if◌then◌else◌, ◌==◌, leb, ltb, Bool-cases, Option-cases, inl, inr, ℤ, sub_ℕ, IsInt32,
}
use mathlib.Core.Option
use mathlib.Core.Path.{subst}
use re_kernel_x.Frozen.{Kernel, Task, is_frozen}
use re_kernel_x.Signal.{is_fatal, send_sig_info_hook, signal_event}
use re_kernel_x.Netfilter.{Packet, HookState, Sock, Setting, sock_to_uid, local_in_hook}
use re_kernel_x.Netfilter.Bounds.{at, word}
use re_kernel_x.Netfilter.Hook.{
  IsPacket, octet, segment, carried, event_of, expected, local_in_hook_lem, passes,
}
use re_kernel_x.System.Hooks.{IsClean, IsTask?}

module _ (k : Kernel) (ready : Bool) where
  pub kill-IsClean :
      (sig : ℤ) (killer dst : Option Task)
      → IsInt32 sig
      → IsTask? killer
      → IsTask? dst
      → IsClean (some (send_sig_info_hook k ready sig killer dst))
  unfolding send_sig_info_hook signal_event
  kill-IsClean sig none dst i a b = tt
  kill-IsClean sig (some killer) none i a b = tt
  kill-IsClean sig (some killer) (some dst) i a b =
      elim (Bool-cases (is_frozen k dst && is_fatal sig)) [
        | inr quiet ↦ rw quiet tt
        | inl fatal ↦ elim (Bool-cases ready) [
          | inr down ↦ rw (fatal, down) tt
          | inl up ↦ rw (fatal, up) (i, a.0, a.1, b.0, b.1)
        ]
      ]

sub_ℕ-IsInt32 : (a b : ℕ) → a < 2 ^ 31 → b < 2 ^ 31 → IsInt32 (sub_ℕ a b)
sub_ℕ-IsInt32 a b h i = elim (Bool-cases (leb b a)) [
  | inl up ↦ let h2 : a - b < 2 ^ 31 = omega arith in rw up h2
  | inr down ↦ let h2 : b - a - 1 < 2 ^ 31 = omega arith in rw down h2
]

abbrev IsSegment? : Option (ℕ × ℤ) → Type 0
IsSegment? none = Unit {0}
IsSegment? (some x) = (x.0 < 256) × IsInt32 x.1

carried-IsSegment? :
    (p : Packet) (version off total : ℕ)
    → IsPacket p
    → version < 256
    → off < 2 ^ 30
    → total < 2 ^ 20
    → IsSegment? (carried p version off total)
carried-IsSegment? p version off total ok small near short =
    let headers : ℕ = off + at p (off + 12) / 16 * 4 in
    elim (Bool-cases (ltb headers total || not (at p (off + 13) % 8 == 0))) [
      | inr quiet ↦ rw quiet tt
      | inl other ↦
          rw other (
            small,
            sub_ℕ-IsInt32 total headers (omega arith) (omega (arith, octet p ok (off + 12))),
          )
    ]

if-IsSegment? :
    (go : Bool) (x : Option (ℕ × ℤ)) → IsSegment? x → IsSegment? (if go then x else none)
if-IsSegment? true x is = is
if-IsSegment? false x is = tt

module _ (p : Packet) (ok : IsPacket p) where
  segment-IsSegment? : (ipv6 : Bool) → IsSegment? (segment ipv6 p)
  segment-IsSegment? ipv6 =
      let ihl : ℕ = at p 0 % 16 * 4 in
      let is4 : IsSegment? (carried p 4 ihl (word p 2)) =
        carried-IsSegment? p 4 ihl (word p 2) ok (omega arith) (omega arith)
          (omega (arith, octet p ok 2, octet p ok 3)) in
      let is6 : IsSegment? (carried p 6 p.find_hdr.1 (word p 4 + 40)) =
        carried-IsSegment? p 6 p.find_hdr.1 (word p 4 + 40) ok (omega arith) ok.header_near
          (omega (arith, octet p ok 4, octet p ok 5)) in
      elim (Bool-cases (at p 0 / 16 == 4)) [
        | inl four ↦ rw four (if-IsSegment? _ _ is4)
        | inr other ↦ elim (Bool-cases (ipv6 && at p 0 / 16 == 6)) [
          | inl six ↦ rw (other, six) (if-IsSegment? _ _ is6)
          | inr neither ↦ rw (other, neither) tt
        ]
      ]

  event-IsClean :
      (go : Bool) (uid : ℕ) (x : Option (ℕ × ℤ))
      → uid < 2 ^ 32
      → IsSegment? x
      → IsClean (some (if go then Option.map (event_of uid) x else none))
  event-IsClean false uid x small is = tt
  event-IsClean true uid none small is = tt
  event-IsClean true uid (some x) small is = (omega (arith, is.0), small, is.1)

  expected-IsClean :
      (c : Setting) (state : HookState) (sk : Sock)
      → sock_to_uid (some sk) < 2 ^ 32
      → IsClean (some (expected c p state sk))
  unfolding sock_to_uid
  expected-IsClean c state sk small = elim (Option-cases sk.socket_uid) [
    | inl e ↦ rw e tt
    | inr (uid, e) ↦
        let small_uid : uid < 2 ^ 32 = ground (arith, small) in
        rw e (
          event-IsClean (passes c state sk uid && c.ready) uid (segment c.ipv6 p) small_uid
            (segment-IsSegment? c.ipv6))
  ]

  pub packet-IsClean :
      (c : Setting) (state : HookState) (sk : Sock)
      → sock_to_uid (some sk) < 2 ^ 32
      → IsClean (local_in_hook c (some p) (some state) (some sk))
  packet-IsClean c state sk small =
      subst IsClean (sym (local_in_hook_lem p ok c state sk)) (expected-IsClean c state sk small)
