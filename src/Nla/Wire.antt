-- ===== src/Nla/Wire.antt =====
-- Netlink attributes as bytes, as the format is documented: the length with its header, the type, the
-- payload, and zeros up to a multiple of four. Independent of the code; reads at a place whose bytes
-- are known.
use re_kernel_x.Base.{
  ℕ, ◌+◌, ◌-◌, ◌*◌, ◌/◌, ◌%◌, ◌^◌, ◌<◌, ◌≡◌, refl, sym, ap, ◌∙◌, List, [], ◌∷◌, ◌++◌, Option, none,
  some, arith, if◌then◌else◌, get_elem?, length, replicate, length-append, length-replicate,
  get_elem?-append_right, or_else, ◌==◌,
}
use mathlib.Core.List.{append_assoc}
use re_kernel_x.Nla.{le16, le32, nla_align, nla_len, nla_type}

abbrev pub bytes16 : ℕ → List ℕ
bytes16 n = n % 256 ∷ n / 256 ∷ []

abbrev pub bytes32 : ℕ → List ℕ
bytes32 n = n % 256 ∷ n / 256 % 256 ∷ n / 65536 % 256 ∷ n / 16777216 ∷ []

pub record Attr : Type 0 where
  pub type : ℕ
  pub payload : List ℕ

abbrev pub attr : ℕ → List ℕ → Attr
attr type payload = record { type = type; payload = payload }

-- An attribute whose length and type fit their fields.
abbrev pub Fits : Attr → Type 0
Fits a = (length a.payload + 4 < 2 ^ 16) × (a.type < 2 ^ 16)

-- The type without the flags, NLA_F_NESTED and NLA_F_NET_BYTEORDER, in its upper two bits.
abbrev pub kind : Attr → ℕ
kind a = a.type % 2 ^ 14

abbrev pub attr_len : Attr → ℕ
attr_len a = length a.payload + 4

abbrev pub padding : Attr → List ℕ
padding a = replicate (nla_align (attr_len a) - attr_len a) 0

abbrev pub header : Attr → List ℕ
header a = attr_len a % 256 ∷ attr_len a / 256 ∷ a.type % 256 ∷ a.type / 256 ∷ []

abbrev pub wire_of : Attr → List ℕ
wire_of a = header a ++ (a.payload ++ padding a)

abbrev pub wire : List Attr → List ℕ
wire [] = []
wire (a ∷ as') = wire_of a ++ wire as'

-- A generic netlink message: nlmsg_len, nlmsg_type, nlmsg_flags, nlmsg_seq and nlmsg_pid; cmd, version
-- and two bytes that are reserved; the attributes.
abbrev pub genl_message : (type flags seq pid cmd version : ℕ) → List ℕ → List ℕ
genl_message type flags seq pid cmd version attrs =
    bytes32 (length attrs + 20)
    ++ (bytes16 type
        ++ (bytes16 flags ++ (bytes32 seq ++ (bytes32 pid ++ cmd ∷ version ∷ 0 ∷ 0 ∷ attrs))))

pub length-wire_of : (a : Attr) → length (wire_of a) ≡ nla_align (attr_len a)
length-wire_of a = omega (
  arith,
  length-append a.payload (padding a),
  length-replicate {A = ℕ} (nla_align (attr_len a) - attr_len a) 0,
)

-- The last attribute of a type.
abbrev pub attr_of : ℕ → List Attr → Option Attr
attr_of k [] = none
attr_of k (a ∷ as') = or_else (attr_of k as') (if k == kind a then some a else none)

pub le16-split :
    (buf xs ys : List ℕ) (i b0 b1 : ℕ)
    → buf ≡ xs ++ b0 ∷ b1 ∷ ys
    → length xs ≡ i
    → le16 buf i ≡ some (b0 + 256 * b1)
le16-split buf xs ys i b0 b1 e l =
    rw (e, ← l) (rw (first, get_elem?-append_right xs (b0 ∷ b1 ∷ ys) 1) refl)
  where
    zero_more : length xs + 0 ≡ length xs
    zero_more = omega arith

    first : get_elem? (xs ++ b0 ∷ b1 ∷ ys) (length xs) ≡ some b0
    first =
        ap (get_elem? (xs ++ b0 ∷ b1 ∷ ys)) (sym zero_more)
        ∙ get_elem?-append_right xs (b0 ∷ b1 ∷ ys) 0

pub le32-split :
    (buf xs ys : List ℕ) (i b0 b1 b2 b3 : ℕ)
    → buf ≡ xs ++ b0 ∷ b1 ∷ b2 ∷ b3 ∷ ys
    → length xs ≡ i
    → le32 buf i ≡ some (b0 + 256 * b1 + 65536 * (b2 + 256 * b3))
le32-split buf xs ys i b0 b1 b2 b3 e l =
    rw
      (
        le16-split buf xs (b2 ∷ b3 ∷ ys) i b0 b1 e l,
        le16-split buf (xs ++ b0 ∷ b1 ∷ []) ys (i + 2) b2 b3
            (e ∙ sym (append_assoc xs (b0 ∷ b1 ∷ []) (b2 ∷ b3 ∷ ys)))
            (omega (arith, length-append xs (b0 ∷ b1 ∷ []))),
      )
      refl

-- A word, where its bytes stand.
pub le16-bytes16 :
    (buf xs ys : List ℕ) (i w : ℕ)
    → buf ≡ xs ++ (bytes16 w ++ ys)
    → length xs ≡ i
    → le16 buf i ≡ some w
le16-bytes16 buf xs ys i w e l =
    le16-split buf xs ys i (w % 256) (w / 256) e l ∙ ap some (omega arith)

pub le32-bytes32 :
    (buf xs ys : List ℕ) (i w : ℕ)
    → buf ≡ xs ++ (bytes32 w ++ ys)
    → length xs ≡ i
    → le32 buf i ≡ some w
le32-bytes32 buf xs ys i w e l =
    le32-split buf xs ys i (w % 256) (w / 256 % 256) (w / 65536 % 256) (w / 16777216) e l
    ∙ ap some (omega arith)

-- A place in a buffer where an attribute stands.
pub record At (buf : List ℕ) (nla : ℕ) (a : Attr) : Type 0 where
  pub before : List ℕ
  pub after : List ℕ
  pub split : buf ≡ before ++ (wire_of a ++ after)
  pub here : length before ≡ nla

module _ (buf : List ℕ) (nla : ℕ) (a : Attr) (at : At buf nla a) (fits : Fits a) where
  pub le16-At : le16 buf nla ≡ some (attr_len a)
  le16-At =
      le16-split buf at.before
        (a.type % 256 ∷ a.type / 256 ∷ ((a.payload ++ padding a) ++ at.after)) nla
        (attr_len a % 256) (attr_len a / 256) at.split at.here
      ∙ ap some (omega arith)

  pub nla_type-At : nla_type buf nla ≡ some (kind a)
  nla_type-At =
      rw
        (le16-split buf (at.before ++ attr_len a % 256 ∷ attr_len a / 256 ∷ [])
          ((a.payload ++ padding a) ++ at.after) (nla + 2) (a.type % 256) (a.type / 256)
          (at.split
            ∙ sym (
                append_assoc at.before (attr_len a % 256 ∷ attr_len a / 256 ∷ [])
                  (a.type % 256 ∷ a.type / 256 ∷ ((a.payload ++ padding a) ++ at.after))))
          (omega
            (arith, at.here, length-append at.before (attr_len a % 256 ∷ attr_len a / 256 ∷ []))))
        (ap some (omega (arith, fits.1)))

  pub nla_len-At : nla_len buf nla ≡ some (length a.payload)
  nla_len-At = rw le16-At (ap some (omega (arith, fits.0)))

  -- The payload, and what is behind it.
  pub payload_at :
      (buf ≡ (at.before ++ header a) ++ (a.payload ++ (padding a ++ at.after)))
      × (length (at.before ++ header a) ≡ nla + 4)
  payload_at = (
    at.split
        ∙ ap (λ l. at.before ++ (header a ++ l)) (append_assoc a.payload (padding a) at.after)
        ∙ sym (append_assoc at.before (header a) (a.payload ++ (padding a ++ at.after))),
    omega (arith, at.here, length-append at.before (header a)),
  )
