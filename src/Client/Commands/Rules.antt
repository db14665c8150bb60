-- ===== src/Client/Commands/Rules.antt =====
-- The native methods that add and delete a free-async rule, on every path.
use re_kernel_x.Base.{
  ℕ, ◌+◌, ◌%◌, ◌^◌, ◌≤◌, ◌<◌, ◌≡◌, refl, ap, ◌∙◌, ◌⊎◌, inl, inr, true, false, ◌||◌, not, List, [],
  ◌∷◌, ◌++◌, none, some, arith, ◌==◌, length, length-append, ℤ, pos, ltb_ℤ, eq_ℤ, minus_one,
  unsigned32, CString,
}
use re_kernel_x.Nla.{nla_align}
use re_kernel_x.Nla.Wire.{Attr, attr, attr_len, bytes32, wire_of, wire, length-wire_of}
use re_kernel_x.Nla.Builder.{put_s32, put_u8, put_string, headers}
use re_kernel_x.Nla.Builder.Whole.{begin_lem}
use re_kernel_x.Nla.Builder.Overflow.{put_overflow}
use re_kernel_x.Client.State.{Client, next_seq, disconnected}
use re_kernel_x.Client.Commands.{
  Answers, begin, chain, add_puts, del_puts, free_async, add_free_async, del_free_async,
}
use re_kernel_x.Client.Commands.Format.{del_attrs, add_attrs, request, refuses_rule}
use re_kernel_x.Client.Commands.Chains.{Appends, put-Appends, Chains}
use re_kernel_x.Client.Commands.Outcome.{after, free_async_lem}

string-Appends :
    (rpc_name : CString)
    → length rpc_name < 65528
    → Appends (λ b. put_string b 42 rpc_name) (attr 42 (rpc_name ++ 0 ∷ []))
string-Appends rpc_name short =
    let n : ℕ = length rpc_name + 1 in
    let whole : length (rpc_name ++ 0 ∷ []) ≡ n = omega (arith, length-append rpc_name (0 ∷ [])) in
    let word : n % 2 ^ 16 ≡ n = omega arith in
    rw word (put-Appends 42 (rpc_name ++ 0 ∷ []) n whole (omega arith))

code-Appends : (code : ℤ) → Appends (λ b. put_s32 b 43 code) (attr 43 (bytes32 (unsigned32 code)))
code-Appends code = put-Appends 43 (bytes32 (unsigned32 code)) 4 refl (omega arith)

strategy-Appends :
    (strategy : ℤ)
    → Appends
        (λ b. put_u8 b 41 (unsigned32 strategy % 256))
        (attr 41 (unsigned32 strategy % 256 ∷ []))
strategy-Appends strategy = put-Appends 41 (unsigned32 strategy % 256 ∷ []) 1 refl (omega arith)

-- The size of a message for a name.
name_size :
    (rpc_name : CString)
    → length (wire_of (attr 42 (rpc_name ++ 0 ∷ []))) ≡ nla_align (length rpc_name + 5)
name_size rpc_name =
    let a = attr 42 (rpc_name ++ 0 ∷ []) in
    let total : attr_len a ≡ length rpc_name + 5 = omega (arith, length-append rpc_name (0 ∷ [])) in
    length-wire_of a ∙ ap nla_align total

add_size :
    (rpc_name : CString) (code strategy : ℤ)
    → length (wire (add_attrs rpc_name code strategy)) ≡ nla_align (length rpc_name + 5) + 16
add_size rpc_name code strategy =
    let a = attr 42 (rpc_name ++ 0 ∷ []) in
    let rest : List Attr =
      attr 43 (bytes32 (unsigned32 code)) ∷ attr 41 (unsigned32 strategy % 256 ∷ []) ∷ [] in
    length-append (wire_of a) (wire rest) ∙ ap (λ k. k + 16) (name_size rpc_name)

del_size :
    (rpc_name : CString) (code : ℤ)
    → length (wire (del_attrs rpc_name code)) ≡ nla_align (length rpc_name + 5) + 8
del_size rpc_name code =
    let a = attr 42 (rpc_name ++ 0 ∷ []) in
    let rest : List Attr = attr 43 (bytes32 (unsigned32 code)) ∷ [] in
    length-append (wire_of a) (wire rest) ∙ ap (λ k. k + 8) (name_size rpc_name)

-- With 256 bytes on the stack and a name of less than 65528 bytes, addFreeAsync sends nothing and
-- changes nothing for the name null, and where the connection, the code, the characters, an empty name
-- or the socket make it refuse. Otherwise it sends exactly the documented request if the name has at
-- most 215 bytes, and answers whether all of it went out; a longer name is answered with false. On no
-- path is a write outside of the buffer, nor is the socket left open or the string held.
pub add_free_async_outcome :
    (s : Client) (sys : Answers) (rpc_name : CString) (code strategy : ℤ)
    → length sys.stack ≡ 256
    → length rpc_name < 65528
    → let message = request s 4 (add_attrs rpc_name code strategy) in
      let r = add_free_async s sys (some rpc_name) code strategy in
      (add_free_async s sys none code strategy ≡ some (false, s))
      × (((refuses_rule s sys rpc_name code ≡ true) × (r ≡ some (false, s)))
          ⊎ ((refuses_rule s sys rpc_name code ≡ false)
              × ((215 < length rpc_name) × (r ≡ some (false, next_seq s))
                  ⊎ (length rpc_name ≤ 215)
                    × (r
                        ≡ some
                            (eq_ℤ (sys.sendto message) (pos (length message)), after s message)))))
unfolding add_free_async free_async
add_free_async_outcome s sys rpc_name code strategy sized short =
    let chains : Chains (add_puts code strategy rpc_name) (add_attrs rpc_name code strategy) =
      (string-Appends rpc_name short, (code-Appends code, (strategy-Appends strategy, tt))) in
    (
      refl,
      elim (free_async_lem 4 (add_puts code strategy) s sys rpc_name code
          (add_attrs rpc_name code strategy) sized chains) [
            | inl refused ↦ inl refused
            | inr (accepted, inl (full, r)) ↦
                inr (accepted, inl (omega (arith, full, add_size rpc_name code strategy), r))
            | inr (accepted, inr (room, r)) ↦
                inr (accepted, inr (omega (arith, room, add_size rpc_name code strategy), r))
          ],
    )

-- As for addFreeAsync: delFreeAsync sends exactly the documented request for a name of at most 223
-- bytes, and on every path, for a name of less than 65528 bytes, it stays inside of its buffer and
-- leaves nothing open.
pub del_free_async_outcome :
    (s : Client) (sys : Answers) (rpc_name : CString) (code : ℤ)
    → length sys.stack ≡ 256
    → length rpc_name < 65528
    → let message = request s 5 (del_attrs rpc_name code) in
      let r = del_free_async s sys (some rpc_name) code in
      (del_free_async s sys none code ≡ some (false, s))
      × (((refuses_rule s sys rpc_name code ≡ true) × (r ≡ some (false, s)))
          ⊎ ((refuses_rule s sys rpc_name code ≡ false)
              × ((223 < length rpc_name) × (r ≡ some (false, next_seq s))
                  ⊎ (length rpc_name ≤ 223)
                    × (r
                        ≡ some
                            (eq_ℤ (sys.sendto message) (pos (length message)), after s message)))))
unfolding del_free_async free_async
del_free_async_outcome s sys rpc_name code sized short =
    let chains : Chains (del_puts code rpc_name) (del_attrs rpc_name code) =
      (string-Appends rpc_name short, (code-Appends code, tt)) in
    (
      refl,
      elim (free_async_lem 5 (del_puts code) s sys rpc_name code (del_attrs rpc_name code) sized
          chains) [
            | inl refused ↦ inl refused
            | inr (accepted, inl (full, r)) ↦
                inr (accepted, inl (omega (arith, full, del_size rpc_name code), r))
            | inr (accepted, inr (room, r)) ↦
                inr (accepted, inr (omega (arith, room, del_size rpc_name code), r))
          ],
    )

-- A name of 65528 to 65534 bytes, which addFreeAsync does not refuse, is written past the end of the
-- 256 bytes on the stack.
pub add_free_async_overflow :
    (s : Client) (sys : Answers) (rpc_name : CString) (code strategy : ℤ)
    → length sys.stack ≡ 256
    → 65528 ≤ length rpc_name
    → length rpc_name < 65535
    → refuses_rule s sys rpc_name code ≡ false
    → add_free_async s sys (some rpc_name) code strategy ≡ none
unfolding add_free_async free_async begin chain
add_free_async_overflow s sys rpc_name code strategy sized long word accepted =
    let (b0, b, e0, e, built, cap) =
      begin_lem sys.stack 256 s.family s.seq 4 1 sized (omega arith) in
    let n : ℕ = length rpc_name + 1 in
    let whole : length (rpc_name ++ 0 ∷ []) ≡ n = omega (arith, length-append rpc_name (0 ∷ [])) in
    let small : n % 2 ^ 16 ≡ n = omega arith in
    let faults =
      put_overflow b (headers 0 s.family s.seq 4 1) 42 (rpc_name ++ 0 ∷ []) n built whole
        (omega arith) (omega arith) (omega (arith, built.ends)) (omega arith) in
    let on : disconnected s || ltb_ℤ code minus_one || not sys.has_chars ≡ false = ground arith in
    let named : length rpc_name == 0 ≡ false = ground arith in
    let valid : ltb_ℤ sys.socket (pos 0) ≡ false = ground arith in
    rw (on, named, valid, e0, e, small, faults) refl
