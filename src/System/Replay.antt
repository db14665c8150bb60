-- ===== src/System/Replay.antt =====
-- What calls of the native methods promise, on the abstract state of Genl/Spec: a call that returns
-- true did what its command promises; one that returns false did nothing.
use re_kernel_x.Base.{
  ℕ, ◌%◌, ◌<◌, ◌≡◌, ◌≢◌, Bool, true, false, ◌&&◌, ◌||◌, not, List, [], ◌∷◌, none, some, length, All,
  if◌then◌else◌, ◌==◌, leb, ℤ, unsigned32, IsInt32, CString,
}
use re_kernel_x.FreeAsync.Rules.{RuleKey}
use re_kernel_x.Genl.Spec.{Spec}
use re_kernel_x.Genl.Spec.{set_rule as put_rule, clear_rule as drop_rule}
use re_kernel_x.System.{NativeCall, monitor, unmonitor, set_rule, clear_rule, Turn}

abbrev pub key : CString → ℤ → RuleKey
key rpc_name code = record { name = rpc_name; code = code }

-- The policy lets names of at most 139 bytes through; of a strategy, the low byte is sent.
abbrev pub effect : NativeCall → Bool → Spec → Spec
effect (monitor uid) alloc p = record p {
  monitors = λ v. p.monitors v || (v == unsigned32 uid && alloc);
}
effect (unmonitor uid) alloc p = record p {
  monitors = λ v. p.monitors v && not (v == unsigned32 uid);
}
effect (set_rule none code strategy) alloc p = p
effect (set_rule (some rpc_name) code strategy) alloc p =
    (put_rule p (key rpc_name code) (unsigned32 strategy % 256) alloc).1
effect (clear_rule none code) alloc p = p
effect (clear_rule (some rpc_name) code) alloc p =
    if leb (length rpc_name) 139 then (drop_rule p (key rpc_name code)).1 else p

-- The effect of a call, by what it returned.
abbrev pub effect_if : Bool → NativeCall → Bool → Spec → Spec
effect_if true call alloc p = effect call alloc p
effect_if false call alloc p = p

abbrev pub replay : Spec → List Turn → List Bool → Spec
replay p [] answers = p
replay p (x ∷ xs) [] = p
replay p (x ∷ xs) (answer ∷ answers) = replay (effect_if answer x.call x.alloc p) xs answers

-- A call with arguments of its types: the arrays on the stack have their sizes, a string has no zero
-- and is shorter than 65528 bytes, and a code is a jint.
abbrev pub IsCall : NativeCall → ℕ → Type 0
IsCall (monitor uid) stack = stack ≡ 128
IsCall (unmonitor uid) stack = stack ≡ 128
IsCall (set_rule none code strategy) stack = Unit {0}
IsCall (set_rule (some rpc_name) code strategy) stack =
    (stack ≡ 256) × (length rpc_name < 65528) × All (λ c. c ≢ 0) rpc_name × IsInt32 code
IsCall (clear_rule none code) stack = Unit {0}
IsCall (clear_rule (some rpc_name) code) stack =
    (stack ≡ 256) × (length rpc_name < 65528) × All (λ c. c ≢ 0) rpc_name × IsInt32 code

abbrev pub IsTurn : Turn → Type 0
IsTurn x = IsCall x.call (length x.sys.stack)
