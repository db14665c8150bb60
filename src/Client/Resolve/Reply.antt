-- ===== src/Client/Resolve/Reply.antt =====
-- The reply of the controller, from its headers to the numbers that connect takes.
use re_kernel_x.Base.{
  Option, ltb_ℤ, minus_one, ℕ, suc, ◌+◌, ◌^◌, ◌≤◌, ◌<◌, ◌≡◌, ◌≢◌, refl, sym, ap, ◌∙◌, true, false,
  ◌||◌, List, [], ◌∷◌, ◌++◌, none, some, arith, if◌then◌else◌, ◌==◌, ltb, length, All, ℤ, pos, eq_ℤ,
  map, Option-cases, Bool-cases, inl, inr, or_else,
}
use mathlib.Core.Path.{subst}
use re_kernel_x.Nla.{Table, nla_data, parse, get_u16}
use re_kernel_x.Nla.Wire.{
  Attr, attr, Fits, kind, attr_of, bytes16, bytes32, header, padding, wire, genl_message, At,
  le16-bytes16, le32-bytes32, nla_len-At, payload_at,
}
use re_kernel_x.Nla.Parses.{Points, Holds, parse-wire}
use re_kernel_x.Client.Decodes.Reads.{Points-some, bind_some}
use re_kernel_x.Client.Resolve.{
  nl_sendto, find_group, payload_len, read_reply, resolve_family_group, id_ctrl, cmd_get_family,
  attr_family_name, family_name, attr_family_id, attr_mcast_groups,
}
use re_kernel_x.Client.Resolve.Asks.{request_lem}
use re_kernel_x.Client.Resolve.Groups.{Group, group_attr, group_id, IsGroup, group_loop-wire}

-- The number of the family, in its attribute.
fid-At :
    (buf : List ℕ) (nla type fid : ℕ)
    → At buf nla (attr type (bytes16 fid))
    → Fits (attr type (bytes16 fid))
    → get_u16 buf (some nla) 0 ≡ some fid
fid-At buf nla type fid at fits =
    let a = attr type (bytes16 fid) in
    let (split, here) = payload_at buf nla a at fits in
    let read =
      le16-bytes16 buf (at.before ++ header a) (padding a ++ at.after) (nla_data nla) fid split
        here in
    rw (nla_len-At buf nla a at fits, read) refl

-- The group, in the nest of the groups.
groups-At :
    (buf : List ℕ) (nla type : ℕ) (gs : List Group)
    → At buf nla (attr type (wire (map group_attr gs)))
    → Fits (attr type (wire (map group_attr gs)))
    → All IsGroup gs
    → find_group buf (some nla) ≡ some (group_id gs)
unfolding find_group
groups-At buf nla type gs at fits are =
    let a = attr type (wire (map group_attr gs)) in
    let (split, here) = payload_at buf nla a at fits in
    bind_some _ _ _ _ (nla_len-At buf nla a at fits) (
      group_loop-wire gs (suc (length a.payload)) buf (nla_data nla) (length a.payload)
        (at.before ++ header a) (padding a ++ at.after) split here refl (omega arith) are)

some_inj : (x y : Attr) → some x ≡ some y → x ≡ y
some_inj x y e = cc

no_error_test : (type : ℕ) → type ≢ 2 → type == 2 ≡ false
no_error_test type no_error = ground arith

whole_test : (n : ℕ) → 16 ≤ n → ltb n 16 ≡ false
whole_test n long = ground arith

-- An attribute that is in the list fits, if all of them do.
attr_of-Fits :
    (k : ℕ) (attrs : List Attr) (a : Attr) → attr_of k attrs ≡ some a → All Fits attrs → Fits a
attr_of-Fits k [] a e fits = cc
attr_of-Fits k (b ∷ bs) a e fits = elim (Option-cases (attr_of k bs)) [
  | inr (c, later) ↦
      let same : c ≡ a =
        some_inj c a (sym (ap (λ o. or_else o (if k == kind b then some b else none)) later) ∙ e) in
      attr_of-Fits k bs a (later ∙ ap some same) fits.1
  | inl nowhere ↦
      let here : (if k == kind b then some b else none) ≡ some a =
        sym (ap (λ o. or_else o (if k == kind b then some b else none)) nowhere) ∙ e in
      elim (Bool-cases (k == kind b)) [
        | inl hit ↦
            let same : b ≡ a =
              some_inj b a (sym (ap (λ t. if t then some b else none) hit) ∙ here) in
            subst Fits same fits.0
        | inr miss ↦
            let empty : none ≡ some a = sym (ap (λ t. if t then some b else none) miss) ∙ here in
            absurd (ground arith)
      ]
]

-- What the parsed reply says of the family and of the group.
module _ (buf : List ℕ) (attr_max : ℕ) (tb : Table) (attrs : List Attr) (big : 7 ≤ attr_max)
    (fits : All Fits attrs) (holds : Holds buf attr_max tb (λ k. attr_of k attrs)) where
  family_lem :
      (type fid : ℕ)
      → attr_of attr_family_id attrs ≡ some (attr type (bytes16 fid))
      → get_u16 buf (tb attr_family_id) 0 ≡ some fid
  family_lem type fid has =
      let a = attr type (bytes16 fid) in
      let (nla, e, at) =
        Points-some buf (tb 1) a
          (subst (Points buf (tb 1)) has (holds 1 (omega arith) (omega arith))) in
      ap (λ o. get_u16 buf o 0) e ∙ fid-At buf nla type fid at (attr_of-Fits 1 attrs a has fits)

  group_lem :
      (type : ℕ) (gs : List Group)
      → attr_of attr_mcast_groups attrs ≡ some (attr type (wire (map group_attr gs)))
      → All IsGroup gs
      → find_group buf (tb attr_mcast_groups) ≡ some (group_id gs)
  group_lem type gs has are =
      let a = attr type (wire (map group_attr gs)) in
      let (nla, e, at) =
        Points-some buf (tb 7) a
          (subst (Points buf (tb 7)) has (holds 7 (omega arith) (omega arith))) in
      ap (find_group buf) e ∙ groups-At buf nla type gs at (attr_of-Fits 7 attrs a has fits) are

-- The reply, from its headers on.
read_reply_lem :
    (attr_max type flags seq pid cmd version fid t1 t7 : ℕ) (attrs : List Attr) (gs : List Group)
    (buf behind : List ℕ)
    → 7 ≤ attr_max
    → type ≢ 2
    → All Fits attrs
    → attr_of attr_family_id attrs ≡ some (attr t1 (bytes16 fid))
    → attr_of attr_mcast_groups attrs ≡ some (attr t7 (wire (map group_attr gs)))
    → All IsGroup gs
    → length (wire attrs) + 20 < 2 ^ 31
    → let message = genl_message type flags seq pid cmd version (wire attrs) in
      buf ≡ message ++ behind
      → read_reply attr_max buf (pos (length message))
        ≡ some (if fid == 0 || group_id gs == 0 then none else some (fid, group_id gs))
unfolding read_reply
read_reply_lem attr_max type flags seq pid cmd version fid t1 t7 attrs gs buf behind types no_error
      fits has_fid has_groups are small split =
    let len : ℕ = length (wire attrs) + 20 in
    let message = genl_message type flags seq pid cmd version (wire attrs) in
    let first20 =
      bytes32 len
      ++ (bytes16 type
          ++ (bytes16 flags ++ (bytes32 seq ++ (bytes32 pid ++ cmd ∷ version ∷ 0 ∷ 0 ∷ [])))) in
    let tail : List ℕ =
      bytes16 flags
      ++ (bytes32 seq ++ (bytes32 pid ++ cmd ∷ version ∷ 0 ∷ 0 ∷ (wire attrs ++ behind))) in
    let size : length message ≡ len = omega arith in
    let t = le16-bytes16 buf (bytes32 len) tail 4 type split refl in
    let l = le32-bytes32 buf [] (bytes16 type ++ tail) 0 len split refl in
    let word : ltb len (2 ^ 31) ≡ true = ground arith in
    let fully : payload_len len (length message) ≡ length (wire attrs) = rw word (omega arith) in
    let (tb, p, holds) =
      parse-wire attrs buf attr_max 20 (length (wire attrs)) first20 behind split refl refl fits in
    let long = whole_test (length message) (omega arith) in
    let fine = no_error_test type no_error in
    rw (long, t, fine, l)
      (bind_some _ _ _ _ (ap (parse buf attr_max 20) fully ∙ p) (
        bind_some _ _ _ _ (family_lem buf attr_max tb attrs types fits holds t1 fid has_fid) (
          bind_some _ _ _ _ (group_lem buf attr_max tb attrs types fits holds t7 gs has_groups are)
            refl)))

-- If the request, which asks the controller for the family by its name, is sent, a reply that carries
-- the number of the family and its groups, next to any other attributes and in any order, gives the
-- number of the family and the id of the first group called "events", or a failure if one of these is
-- 0; whatever stands behind the reply. The reply is no error message and shorter than 2 ^ 31, its
-- attributes fit their lengths, the parser notes the types up to 7 at least, and a group has an index
-- below 2 ^ 14, an id below 2 ^ 32 and a name shorter than 16 bytes, with no zero in it.
pub resolve_family_group_lem :
    (attr_max number type flags seq pid cmd version fid t1 t7 : ℕ) (sendto : List ℕ → ℤ)
    (attrs : List Attr) (gs : List Group) (buf behind : List ℕ)
    → let asked =
        genl_message id_ctrl 1 number 0 cmd_get_family 1
          (wire (attr attr_family_name (family_name ++ 0 ∷ []) ∷ [])) in
      eq_ℤ (sendto asked) (pos (length asked)) ≡ true
      → 7 ≤ attr_max
      → type ≢ 2
      → All Fits attrs
      → attr_of attr_family_id attrs ≡ some (attr t1 (bytes16 fid))
      → attr_of attr_mcast_groups attrs ≡ some (attr t7 (wire (map group_attr gs)))
      → All IsGroup gs
      → length (wire attrs) + 20 < 2 ^ 31
      → let message = genl_message type flags seq pid cmd version (wire attrs) in
        buf ≡ message ++ behind
        → resolve_family_group attr_max number sendto (pos (length message)) buf
          ≡ some (if fid == 0 || group_id gs == 0 then none else some (fid, group_id gs))
unfolding resolve_family_group
resolve_family_group_lem attr_max number type flags seq pid cmd version fid t1 t7 sendto attrs gs
      buf behind sent types no_error fits has_fid has_groups are small split =
    let asked =
      genl_message id_ctrl 1 number 0 cmd_get_family 1
        (wire (attr attr_family_name (family_name ++ 0 ∷ []) ∷ [])) in
    let rlen : ℤ = pos (length (genl_message type flags seq pid cmd version (wire attrs))) in
    let reads : Option (Option (ℕ × ℕ)) = read_reply attr_max buf rlen in
    let goes_on : (if ltb_ℤ (nl_sendto sendto asked) (pos 0) then some none else reads) ≡ reads =
      ap (λ b. if ltb_ℤ (if b then pos 0 else minus_one) (pos 0) then some none else reads) sent in
    bind_some _
      (λ m. if ltb_ℤ (nl_sendto sendto m) (pos 0) then some none else read_reply attr_max buf rlen)
      _ _ (request_lem number)
      (goes_on
        ∙ read_reply_lem attr_max type flags seq pid cmd version fid t1 t7 attrs gs buf behind types
            no_error fits has_fid has_groups are small split)
