-- ===== src/Client/Commands/Format.antt =====
-- What the native methods promise to send: the messages of the commands, independently of the builder,
-- and when a command is refused before anything is sent.
use re_kernel_x.Base.{
  ℕ, ◌%◌, Bool, ◌||◌, not, List, [], ◌∷◌, ◌++◌, length, ◌==◌, ℤ, pos, ltb_ℤ, minus_one, unsigned32,
  CString,
}
use re_kernel_x.Nla.Wire.{Attr, attr, bytes32, wire, genl_message}
use re_kernel_x.Client.State.{Client, disconnected}
use re_kernel_x.Client.Commands.{Answers}

abbrev pub uid_attrs : ℤ → List Attr
uid_attrs uid = attr 40 (bytes32 (unsigned32 uid)) ∷ []

abbrev pub del_attrs : CString → ℤ → List Attr
del_attrs rpc_name code = attr 42 (rpc_name ++ 0 ∷ []) ∷ attr 43 (bytes32 (unsigned32 code)) ∷ []

abbrev pub add_attrs : CString → ℤ → ℤ → List Attr
add_attrs rpc_name code strategy =
    attr 42 (rpc_name ++ 0 ∷ [])
    ∷ attr 43 (bytes32 (unsigned32 code))
    ∷ attr 41 (unsigned32 strategy % 256 ∷ [])
    ∷ []

-- A request of the client with the number that is next.
abbrev pub request : Client → ℕ → List Attr → List ℕ
request s cmd attrs = genl_message s.family 1 s.seq 0 cmd 1 (wire attrs)

abbrev pub refuses_uid : Client → Answers → Bool
refuses_uid s sys = disconnected s || ltb_ℤ sys.socket (pos 0)

abbrev pub refuses_rule : Client → Answers → CString → ℤ → Bool
refuses_rule s sys rpc_name code =
    ((disconnected s || ltb_ℤ code minus_one) || not sys.has_chars)
    || ((length rpc_name == 0) || ltb_ℤ sys.socket (pos 0))
