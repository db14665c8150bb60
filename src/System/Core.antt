-- ===== src/System/Core.antt =====
-- What the generic netlink core documents: it checks the attributes of a message against the policy of
-- the family, and hands out the last attribute of each type.
use re_kernel_x.Base.{
  ℕ, ◌+◌, ◌≤◌, ◌<◌, ◌≡◌, Bool, true, false, ◌&&◌, ◌||◌, List, [], ◌∷◌, Option, none, some, ◌>>=◌,
  ◌==◌, ltb, leb, length, All,
}
use re_kernel_x.Genl.Policy.{Check, nested, u32, u8, nul_string, s32, policy, Payloads}
use re_kernel_x.Nla.Wire.{Attr, Fits, kind, wire, genl_message, attr_of}
use re_kernel_x.Client.Events.{c_string}
use re_kernel_x.System.{GenlCore}

-- A payload that every version of the kernel accepts: of the size of its number, or a string that ends
-- with its only zero and is not longer than the policy says. (Nothing is said of nests, of which no
-- command has one.)
abbrev pub sound : Option Check → List ℕ → Bool
sound none p = false
sound (some nested) p = false
sound (some u32) p = length p == 4
sound (some u8) p = length p == 1
sound (some s32) p = length p == 4
sound (some (nul_string n)) p = length (c_string p) + 1 == length p && leb (length (c_string p)) n

-- A string that is longer than the policy says, which every version refuses.
abbrev pub too_long : Option Check → List ℕ → Bool
too_long (some (nul_string n)) p = ltb n (length (c_string p))
too_long none p = false
too_long (some nested) p = false
too_long (some u32) p = false
too_long (some u8) p = false
too_long (some s32) p = false

abbrev pub all_sound : List Attr → Bool
all_sound [] = true
all_sound (a ∷ as') = sound (policy (kind a)) a.payload && all_sound as'

abbrev pub any_too_long : List Attr → Bool
any_too_long [] = false
any_too_long (a ∷ as') = too_long (policy (kind a)) a.payload || any_too_long as'

abbrev pub payloads_of : List Attr → Payloads
payloads_of attrs k = attr_of k attrs >>= λ a. some a.payload

-- A request for the family: no flag but NLM_F_REQUEST, from the port 0, which the kernel fills in.
abbrev pub to_family : GenlCore → ℕ → ℕ → List Attr → List ℕ
to_family core seq cmd attrs = genl_message core.id 1 seq 0 cmd 1 (wire attrs)

pub record Documented (core : GenlCore) : Type 0 where
  pub admits :
      (seq cmd : ℕ) (attrs : List Attr)
      → All Fits attrs
      → all_sound attrs ≡ true
      → (payloads : Payloads) × (core.admit (to_family core seq cmd attrs) ≡ some (cmd, payloads))
        × ((k : ℕ) → 0 < k → k ≤ 49 → payloads k ≡ payloads_of attrs k)
  pub refuses :
      (seq cmd : ℕ) (attrs : List Attr)
      → All Fits attrs
      → any_too_long attrs ≡ true
      → core.admit (to_family core seq cmd attrs) ≡ none
