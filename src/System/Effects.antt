-- ===== src/System/Effects.antt =====
-- What the kernel's end does with each request that the client sends.
use re_kernel_x.Base.{
  ℕ, ◌+◌, ◌%◌, ◌<◌, ◌≡◌, ◌≢◌, refl, sym, ap, ◌∙◌, Bool, true, false, List, [], ◌∷◌, ◌++◌, none,
  some, ◌>>=◌, arith, length, length-append, All, leb, Bool-cases, inl, inr, ℤ, signed32,
  unsigned32, IsInt32, signed32-unsigned32, CString,
}
use mathlib.Core.Path.{subst}
use re_kernel_x.FreeAsync.{Hash}
use re_kernel_x.Genl.{
  Attrs, Tables, Command, add_monitor_net, del_monitor, add_rule, del_rule, doit,
}
use re_kernel_x.Genl.Spec.{Spec, acceptable, answer}
use re_kernel_x.Genl.Spec.{set_rule as put_rule}
use re_kernel_x.Genl.Refines.{Holds, doit-Agree}
use re_kernel_x.Genl.Policy.{nul_string, op_of, attrs_of}
use re_kernel_x.Nla.{le32, s32_at}
use re_kernel_x.Nla.Wire.{Attr, attr, Fits, bytes32, le32-bytes32}
use re_kernel_x.Client.Decodes.Reads.{c_string-zero}
use re_kernel_x.Client.Commands.Format.{uid_attrs, add_attrs, del_attrs}
use re_kernel_x.System.{GenlCore, monitor, unmonitor, set_rule, clear_rule, process}
use re_kernel_x.System.Core.{
  Documented, sound, too_long, all_sound, any_too_long, payloads_of, to_family,
}
use re_kernel_x.System.Processes.{process_sound, process_too_long}
use re_kernel_x.System.Replay.{key, effect}

le32_lem : (w : ℕ) → le32 (bytes32 w) 0 ≡ some w
le32_lem w = le32-bytes32 (bytes32 w) [] [] 0 w refl refl

uid_lem :
    (uid : ℤ)
    → attrs_of (payloads_of (uid_attrs uid))
      ≡ record { uid = some (unsigned32 uid); rpc_name = none; code = none; strategy = none }
uid_lem uid = rw (le32_lem (unsigned32 uid)) refl

code_lem : (code : ℤ) → IsInt32 code → s32_at (bytes32 (unsigned32 code)) 0 ≡ some code
code_lem code int =
    ap (λ r. r >>= λ w. some (signed32 w)) (le32_lem (unsigned32 code))
    ∙ ap some (signed32-unsigned32 code int)

add_lem :
    (rpc_name : CString) (code strategy : ℤ)
    → All (λ c. c ≢ 0) rpc_name
    → IsInt32 code
    → attrs_of (payloads_of (add_attrs rpc_name code strategy)) ≡ record {
      uid = none;
      rpc_name = some rpc_name;
      code = some code;
      strategy = some (unsigned32 strategy % 256);
    }
add_lem rpc_name code strategy clean int =
    rw (c_string-zero rpc_name [] clean, code_lem code int) refl

del_lem :
    (rpc_name : CString) (code : ℤ)
    → All (λ c. c ≢ 0) rpc_name
    → IsInt32 code
    → attrs_of (payloads_of (del_attrs rpc_name code))
      ≡ record { uid = none; rpc_name = some rpc_name; code = some code; strategy = none }
del_lem rpc_name code clean int = rw (c_string-zero rpc_name [] clean, code_lem code int) refl

-- A name in its attribute, which ends with a zero.
text_size : (rpc_name : CString) → length (rpc_name ++ 0 ∷ []) ≡ length rpc_name + 1
text_size rpc_name = length-append rpc_name (0 ∷ [])

name-Fits : (rpc_name : CString) → length rpc_name < 65528 → Fits (attr 42 (rpc_name ++ 0 ∷ []))
name-Fits rpc_name short = (omega (arith, short, text_size rpc_name), omega arith)

name_sound :
    (rpc_name : CString)
    → All (λ c. c ≢ 0) rpc_name
    → leb (length rpc_name) 139 ≡ true
    → sound (some (nul_string 139)) (rpc_name ++ 0 ∷ []) ≡ true
name_sound rpc_name clean short =
    rw (c_string-zero rpc_name [] clean) (ground (arith, short, text_size rpc_name))

name_too_long :
    (rpc_name : CString)
    → All (λ c. c ≢ 0) rpc_name
    → leb (length rpc_name) 139 ≡ false
    → too_long (some (nul_string 139)) (rpc_name ++ 0 ∷ []) ≡ true
name_too_long rpc_name clean long = rw (c_string-zero rpc_name [] clean) (ground (arith, long))

-- The module's own limit on the names of rules is the policy's.
long_name :
    (p : Spec) (rpc_name : CString) (code : ℤ) (strategy : ℕ) (alloc : Bool)
    → leb (length rpc_name) 139 ≡ false
    → (put_rule p (key rpc_name code) strategy alloc).1 ≡ p
unfolding put_rule
long_name p rpc_name code strategy alloc long =
    let refuses : acceptable (key rpc_name code) strategy ≡ false = ground (arith, long) in
    rw refuses refl

module _ (core : GenlCore) (documented : Documented core) (h : Hash) where
  -- A request that is sound ends as the specification says of its command and its attributes.
  served :
      (t : Tables) (p : Spec) (seq cmd : ℕ) (attrs : List Attr) (command : Command) (a : Attrs)
      (alloc : Bool)
      → Holds h t p
      → op_of cmd ≡ some command
      → All Fits attrs
      → all_sound attrs ≡ true
      → attrs_of (payloads_of attrs) ≡ a
      → Holds h
          (process core h t (to_family core seq cmd attrs) alloc).1
          (answer p command a alloc).1
  served t p seq cmd attrs command a alloc holds op fits good e =
      subst (λ t'. Holds h t' (answer p command a alloc).1)
        (sym (
          process_sound core documented h t seq cmd attrs command alloc op fits good
          ∙ ap (λ b. (doit h t command b alloc).1) e))
        (doit-Agree h t p command a alloc holds).1

  refused :
      (t : Tables) (p : Spec) (seq cmd : ℕ) (attrs : List Attr) (alloc : Bool)
      → Holds h t p
      → All Fits attrs
      → any_too_long attrs ≡ true
      → Holds h (process core h t (to_family core seq cmd attrs) alloc).1 p
  refused t p seq cmd attrs alloc holds fits bad =
      subst (λ r. Holds h r.1 p)
        (sym (process_too_long core documented h t seq cmd attrs alloc fits bad)) holds

  pub monitor-Holds :
      (t : Tables) (p : Spec) (seq : ℕ) (uid : ℤ) (alloc : Bool)
      → Holds h t p
      → Holds h
          (process core h t (to_family core seq 2 (uid_attrs uid)) alloc).1
          (effect (monitor uid) alloc p)
  unfolding answer
  monitor-Holds t p seq uid alloc holds =
      served t p seq 2 (uid_attrs uid) add_monitor_net _ alloc holds refl
        ((omega arith, omega arith), tt) refl (uid_lem uid)

  pub unmonitor-Holds :
      (t : Tables) (p : Spec) (seq : ℕ) (uid : ℤ) (alloc : Bool)
      → Holds h t p
      → Holds h
          (process core h t (to_family core seq 3 (uid_attrs uid)) alloc).1
          (effect (unmonitor uid) alloc p)
  unfolding answer
  unmonitor-Holds t p seq uid alloc holds =
      served t p seq 3 (uid_attrs uid) del_monitor _ alloc holds refl
        ((omega arith, omega arith), tt) refl (uid_lem uid)

  pub set_rule-Holds :
      (t : Tables) (p : Spec) (seq : ℕ) (rpc_name : CString) (code strategy : ℤ) (alloc : Bool)
      → Holds h t p
      → length rpc_name < 65528
      → All (λ c. c ≢ 0) rpc_name
      → IsInt32 code
      → Holds h
          (process core h t (to_family core seq 4 (add_attrs rpc_name code strategy)) alloc).1
          (effect (set_rule (some rpc_name) code strategy) alloc p)
  unfolding answer
  set_rule-Holds t p seq rpc_name code strategy alloc holds short clean int =
      let attrs = add_attrs rpc_name code strategy in
      let fits : All Fits attrs = (
        name-Fits rpc_name short,
        ((omega arith, omega arith), ((omega arith, omega arith), tt)),
      ) in
      elim (Bool-cases (leb (length rpc_name) 139)) [
        | inl low ↦
            served t p seq 4 attrs add_rule _ alloc holds refl fits
              (rw (name_sound rpc_name clean low) refl) (add_lem rpc_name code strategy clean int)
        | inr long ↦
            subst (Holds h (process core h t (to_family core seq 4 attrs) alloc).1)
              (sym (long_name p rpc_name code (unsigned32 strategy % 256) alloc long))
              (refused t p seq 4 attrs alloc holds fits
                (rw (name_too_long rpc_name clean long) refl))
      ]

  pub clear_rule-Holds :
      (t : Tables) (p : Spec) (seq : ℕ) (rpc_name : CString) (code : ℤ) (alloc : Bool)
      → Holds h t p
      → length rpc_name < 65528
      → All (λ c. c ≢ 0) rpc_name
      → IsInt32 code
      → Holds h
          (process core h t (to_family core seq 5 (del_attrs rpc_name code)) alloc).1
          (effect (clear_rule (some rpc_name) code) alloc p)
  unfolding answer
  clear_rule-Holds t p seq rpc_name code alloc holds short clean int =
      let attrs = del_attrs rpc_name code in
      let fits : All Fits attrs = (name-Fits rpc_name short, ((omega arith, omega arith), tt)) in
      elim (Bool-cases (leb (length rpc_name) 139)) [
        | inl low ↦ rw low (
            served t p seq 5 attrs del_rule _ alloc holds refl fits
              (rw (name_sound rpc_name clean low) refl) (del_lem rpc_name code clean int))
        | inr long ↦
            rw long (
              refused t p seq 5 attrs alloc holds fits
                (rw (name_too_long rpc_name clean long) refl))
      ]
