-- ===== src/Client/Commands/Outcome.antt =====
-- How the native methods that send a command end, on every path.
use re_kernel_x.Base.{
  ℕ, suc, ◌+◌, ◌-◌, ◌^◌, ◌≤◌, ◌<◌, ◌≡◌, refl, sym, ◌⊎◌, inl, inr, true, false, ◌||◌, not, List, ◌∷◌,
  ◌++◌, some, arith, ◌==◌, length, Bool-cases, ℤ, pos, ltb_ℤ, eq_ℤ, eq_ℤ_iff, minus_one, unsigned32,
  CString,
}
use re_kernel_x.Nla.Wire.{Attr, bytes32, wire, genl_message}
use re_kernel_x.Nla.Builder.{Builder, put_u32, headers}
use re_kernel_x.Nla.Builder.Puts.{Built}
use re_kernel_x.Nla.Builder.Whole.{begin_lem, finish_lem}
use re_kernel_x.Client.State.{Client, next_seq, disconnected}
use re_kernel_x.Client.Commands.{Answers, begin, end_message, monitor_net, Put, chain, free_async}
use re_kernel_x.Client.Commands.Format.{uid_attrs, request, refuses_uid, refuses_rule}
use re_kernel_x.Client.Commands.Chains.{Result, put-Appends, Chains, chain-Built}

end_message_lem :
    (b : Builder) (s : Client) (cmd : ℕ) (attrs : List ℕ)
    → Built b (headers 0 s.family s.seq cmd 1 ++ attrs)
    → b.cap < 2 ^ 32
    → end_message b ≡ some (genl_message s.family 1 s.seq 0 cmd 1 attrs)
unfolding end_message
end_message_lem b s cmd attrs built small =
    let (b', e, message) = finish_lem b s.family s.seq cmd 1 attrs built small in rw e message

-- A message is built: all of it, or there was no room for it.
abbrev Composed : Client → Answers → ℕ → ℕ → Put → List Attr → Type 0
Composed s sys cap cmd f attrs =
    (b b' : Builder) × (begin s sys cap cmd ≡ some b)
    × (((f b ≡ some (true, b'))
          × (end_message b' ≡ some (request s cmd attrs))
          × (length (wire attrs) + 20 ≤ cap))
        ⊎ ((message : List ℕ) × (f b ≡ some (false, b'))
            × (end_message b' ≡ some message)
            × (cap < length (wire attrs) + 20)))

composed :
    (s : Client) (sys : Answers) (cap cmd : ℕ) (f : Put) (attrs : List Attr)
    → length sys.stack ≡ cap
    → 20 ≤ cap
    → cap < 2 ^ 32
    → ((b : Builder) (whole : List ℕ) → Built b whole → Result f b whole (wire attrs))
    → Composed s sys cap cmd f attrs
unfolding begin
composed s sys cap cmd f attrs sized low high law =
    let (b0, b, e0, e, built, cap0) = begin_lem sys.stack cap s.family s.seq cmd 1 sized low in
    let twenty : b.len ≡ 20 = sym built.ends in
    let (b', r) = law b (headers 0 s.family s.seq cmd 1) built in
    (
      b,
      b',
      rw e0 e,
      elim r [
        | inl (put, built', cap', room) ↦
            inl (put, end_message_lem b' s cmd (wire attrs) built' (omega arith), omega arith)
        | inr (tail, put, built', cap', full) ↦ inr (
          genl_message s.family 1 s.seq 0 cmd 1 tail,
          put,
          end_message_lem b' s cmd tail built' (omega arith),
          omega arith,
        )
      ],
    )

-- The state once a message went out: only the number of the next one and what was sent changed.
abbrev pub after : Client → List ℕ → Client
after s message = record (next_seq s) { sent = message ∷ s.sent }

same_fd : (fd : ℤ) → eq_ℤ fd fd ≡ true
same_fd fd = (eq_ℤ_iff fd fd).1 refl

uid-Appends :
    (uid : ℤ) (b : Builder) (whole : List ℕ)
    → Built b whole
    → Result (λ b. put_u32 b 40 (unsigned32 uid)) b whole (wire (uid_attrs uid))
uid-Appends uid = put-Appends 40 (bytes32 (unsigned32 uid)) 4 refl (omega arith)

-- addMonitorNet and delMonitorNet, by their command, with 128 bytes on the stack: without a connection
-- or a socket they answer false and change nothing; otherwise exactly the documented request is sent,
-- the answer is whether all of it went out, and nothing is left open.
pub monitor_net_outcome :
    (cmd : ℕ) (s : Client) (sys : Answers) (uid : ℤ)
    → length sys.stack ≡ 128
    → let message = request s cmd (uid_attrs uid) in
      ((refuses_uid s sys ≡ true) × (monitor_net cmd s sys uid ≡ some (false, s)))
      ⊎ ((refuses_uid s sys ≡ false)
          × (monitor_net cmd s sys uid
              ≡ some (eq_ℤ (sys.sendto message) (pos (length message)), after s message)))
unfolding monitor_net
monitor_net_outcome cmd s sys uid sized = elim (Bool-cases (disconnected s)) [
  | inl off ↦ inl (ground arith, rw off refl)
  | inr on ↦ elim (Bool-cases (ltb_ℤ sys.socket (pos 0))) [
    | inl failed ↦ inl (ground arith, rw (on, failed) refl)
    | inr valid ↦
        let (b, b', e, r) =
          composed s sys 128 cmd (λ b. put_u32 b 40 (unsigned32 uid)) (uid_attrs uid) sized
            (omega arith) (omega arith) (uid-Appends uid) in
        elim r [
          | inl (put, message, room) ↦
              inr (ground arith, rw (on, valid, e, put, message, same_fd sys.socket) refl)
          | inr (message, put, ended, full) ↦ absurd (omega arith)
        ]
  ]
]

-- addFreeAsync and delFreeAsync, by their command and their puts.
pub free_async_lem :
    (cmd : ℕ) (puts : CString → List Put) (s : Client) (sys : Answers) (rpc_name : CString)
    (code : ℤ) (attrs : List Attr)
    → length sys.stack ≡ 256
    → Chains (puts rpc_name) attrs
    → let message = request s cmd attrs in
      let r = free_async cmd puts s sys (some rpc_name) code in
      ((refuses_rule s sys rpc_name code ≡ true) × (r ≡ some (false, s)))
      ⊎ ((refuses_rule s sys rpc_name code ≡ false)
          × ((256 < length (wire attrs) + 20) × (r ≡ some (false, next_seq s))
              ⊎ (length (wire attrs) + 20 ≤ 256)
                × (r ≡ some (eq_ℤ (sys.sendto message) (pos (length message)), after s message))))
unfolding free_async
free_async_lem cmd puts s sys rpc_name code attrs sized chains =
    let back : suc s.strings - 1 ≡ s.strings = omega arith in
    elim (Bool-cases (disconnected s || ltb_ℤ code minus_one || not sys.has_chars)) [
      | inl off ↦ inl (ground arith, rw off refl)
      | inr on ↦ elim (Bool-cases (length rpc_name == 0)) [
        | inl empty ↦ inl (ground arith, rw (on, empty, back) refl)
        | inr named ↦ elim (Bool-cases (ltb_ℤ sys.socket (pos 0))) [
          | inl failed ↦ inl (ground arith, rw (on, named, failed, back) refl)
          | inr valid ↦
              let (b, b', e, r) =
                composed s sys 256 cmd (chain (puts rpc_name)) attrs sized (omega arith)
                  (omega arith) (chain-Built (puts rpc_name) attrs chains) in
              inr (
                ground arith,
                elim r [
                  | inl (put, message, room) ↦
                      inr (
                        room,
                        rw (on, named, valid, e, put, message, same_fd sys.socket, back) refl,
                      )
                  | inr (message, put, ended, full) ↦
                      inl
                        (full, rw (on, named, valid, e, put, ended, same_fd sys.socket, back) refl)
                ],
              )
        ]
      ]
    ]
