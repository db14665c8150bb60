-- ===== src/Tests/ResolveTests.antt =====
-- The reply of the controller on a concrete family.
use re_kernel_x.Base.{
  ℕ, ◌≡◌, ◌||◌, refl, List, [], ◌∷◌, ◌++◌, some, none, arith, All, if◌then◌else◌, ◌==◌, length, pos,
  map, codes,
}
use re_kernel_x.Nla.Wire.{Attr, attr, bytes16, bytes32, wire, Fits, genl_message}
use re_kernel_x.Client.Resolve.{resolve_family_group, group_name, family_name}
use re_kernel_x.Client.Resolve.Groups.{Group, group_attr, group_id, IsGroup}
use re_kernel_x.Client.Resolve.Reply.{resolve_family_group_lem}

abbrev groups : List Group
groups =
    record { index = 1; id = 5; name = codes "other" }
    ∷ record { index = 2; id = 6; name = group_name }
    ∷ []

abbrev reply_attrs : List Attr
reply_attrs =
    attr 2 (family_name ++ 0 ∷ [])
    ∷ attr 1 (bytes16 27)
    ∷ attr 3 (bytes32 1)
    ∷ attr 7 (wire (map group_attr groups))
    ∷ []

abbrev reply : List ℕ
reply = genl_message 16 0 1 0 1 2 (wire reply_attrs)

groups-IsGroup : All IsGroup groups
groups-IsGroup = ground arith

reply-Fits : All Fits reply_attrs
reply-Fits = ground arith

resolve_family_group_lem_example :
    resolve_family_group 10 1
      (λ message. pos (length message))
      (pos (length reply))
      (reply ++ 170 ∷ [])
    ≡ some (if 27 == 0 || group_id groups == 0 then none else some (27, group_id groups))
resolve_family_group_lem_example =
    resolve_family_group_lem 10 1 16 0 1 0 1 2 27 1 7 (λ message. pos (length message)) reply_attrs
      groups (reply ++ 170 ∷ []) (170 ∷ []) refl (omega arith) (λ e. absurd (omega arith))
      reply-Fits refl refl groups-IsGroup (omega arith) refl
