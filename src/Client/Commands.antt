-- ===== src/Client/Commands.antt =====
-- rkx_jni.cpp: the native methods that send a command to the kernel. Each gives its result with the
-- state after it; `none` is a write outside of the buffer on the stack.
pub mod Format
pub mod Chains
pub mod Outcome
pub mod Rules
use re_kernel_x.Base.{
  ℕ, ◌+◌, ◌%◌, ◌==◌, Bool, true, false, ◌||◌, not, List, [], ◌∷◌, Option, none, some, ◌>>=◌,
  if◌then◌else◌, length, ℤ, pos, ltb_ℤ, eq_ℤ, minus_one, unsigned32, CString,
}
use re_kernel_x.Abi.Library.{genl_version, attribute_number, cmd_number}
use re_kernel_x.Abi.{
  a_free_async_code, a_free_async_rpc_name, a_free_async_strategy, a_uid, c_add_free_async,
  c_add_monitor_net, c_del_free_async, c_del_monitor_net,
}
use re_kernel_x.Nla.{read_bytes}
use re_kernel_x.Nla.Builder.{
  Builder, new, put_genl_header, put_u32, put_s32, put_u8, put_string, finish,
}
use re_kernel_x.Client.State.{Client, opened, close, next_seq, held, release, disconnected}

-- What the system answers while a method runs: socket, the bytes that are on the stack, whether
-- GetStringUTFChars gives the string out, and sendto.
pub record Answers : Type 0 where
  pub socket : ℤ
  pub stack : List ℕ
  pub has_chars : Bool
  pub sendto : List ℕ → ℤ

-- From finish on: the message is sent, the socket closed.
abbrev pub transmit : Client → Answers → List ℕ → Bool × Client
transmit s sys message = (
  eq_ℤ (sys.sendto message) (pos (length message)),
  close (record s { sent = message ∷ s.sent }) sys.socket,
)

-- A builder with its headers, and the message that it holds in the end.
unfoldable pub begin : Client → Answers → ℕ → ℕ → Option Builder
unfolding new put_genl_header
begin s sys cap cmd = new sys.stack cap >>= λ b. put_genl_header b s.family s.seq cmd genl_version

unfoldable pub end_message : Builder → Option (List ℕ)
unfolding finish
end_message b = finish b >>= λ done. read_bytes done.1.buf 0 done.0

-- addMonitorNet and delMonitorNet, which differ in the command.
unfoldable pub monitor_net : ℕ → Client → Answers → ℤ → Option (Bool × Client)
unfolding begin end_message
monitor_net cmd s sys uid =
    if disconnected s
    then some (false, s)
    else if ltb_ℤ sys.socket (pos 0)
    then some (false, s)
    else (begin s sys 128 cmd >>= λ b.
        put_u32 b (attribute_number a_uid) (unsigned32 uid) >>= λ put.
        end_message put.1 >>= λ message.
        some (transmit (next_seq (opened s sys.socket)) sys message))

abbrev pub add_monitor_net : Client → Answers → ℤ → Option (Bool × Client)
add_monitor_net = monitor_net (cmd_number c_add_monitor_net)

abbrev pub del_monitor_net : Client → Answers → ℤ → Option (Bool × Client)
del_monitor_net = monitor_net (cmd_number c_del_monitor_net)

abbrev pub Put : Type 0
Put = Builder → Option (Bool × Builder)

-- Puts under `&&`: the first that fails ends the chain.
abbrev pub and_then : Bool × Builder → Put → Option (Bool × Builder)
and_then (true, b) put = put b
and_then (false, b) put = some (false, b)

unfoldable pub chain : List Put → Put
chain [] b = some (true, b)
chain (put ∷ puts) b = put b >>= λ done. and_then done (chain puts)

-- The attributes of addFreeAsync and of delFreeAsync
abbrev pub add_puts : ℤ → ℤ → CString → List Put
add_puts code strategy rpc_name =
    (λ b. put_string b (attribute_number a_free_async_rpc_name) rpc_name)
    ∷ (λ b. put_s32 b (attribute_number a_free_async_code) code)
    ∷ (λ b. put_u8 b (attribute_number a_free_async_strategy) (unsigned32 strategy % 256))
    ∷ []

abbrev pub del_puts : ℤ → CString → List Put
del_puts code rpc_name =
    (λ b. put_string b (attribute_number a_free_async_rpc_name) rpc_name)
    ∷ (λ b. put_s32 b (attribute_number a_free_async_code) code)
    ∷ []

-- `if (!ok)`, and what is behind it
abbrev pub send_if : Bool → Client → Answers → List ℕ → Bool × Client
send_if true s sys message = transmit s sys message
send_if false s sys message = (false, close s sys.socket)

-- addFreeAsync and delFreeAsync, which differ in the command and the attributes. A string of Java is
-- its characters in modified UTF-8, `none` is null.
unfoldable pub free_async :
    ℕ → (CString → List Put) → Client → Answers → Option CString → ℤ → Option (Bool × Client)
unfolding begin chain end_message
free_async cmd puts s sys none code = some (false, s)
free_async cmd puts s sys (some rpc_name) code =
    if disconnected s || ltb_ℤ code minus_one || not sys.has_chars
    then some (false, s)
    else if length rpc_name == 0
    then some (false, release (held s))
    else if ltb_ℤ sys.socket (pos 0)
    then some (false, release (held s))
    else (begin s sys 256 cmd >>= λ b. chain (puts rpc_name) b >>= λ put.
        end_message put.1 >>= λ message.
        some (send_if put.0 (release (next_seq (opened (held s) sys.socket))) sys message))

unfoldable pub add_free_async : Client → Answers → Option CString → ℤ → ℤ → Option (Bool × Client)
unfolding free_async
add_free_async s sys rpc_name code strategy =
    free_async (cmd_number c_add_free_async) (add_puts code strategy) s sys rpc_name code

unfoldable pub del_free_async : Client → Answers → Option CString → ℤ → Option (Bool × Client)
unfolding free_async
del_free_async s sys rpc_name code =
    free_async (cmd_number c_del_free_async) (del_puts code) s sys rpc_name code
