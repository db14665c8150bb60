-- ===== src/Client/Resolve/Groups.antt =====
-- The multicast groups in the reply of the controller.
use re_kernel_x.Base.{
  ℕ, zero, suc, ◌+◌, ◌-◌, ◌^◌, ◌<◌, ◌≡◌, ◌≢◌, refl, sym, ap, ◌∙◌, true, false, ◌&&◌, List, [], ◌∷◌,
  ◌++◌, some, arith, if◌then◌else◌, ◌==◌, ltb, leb, get_elem?, get_elem?-append_right, length,
  length-append, All, Bool-cases, inl, inr, CString, str_eq, map,
}
use mathlib.Core.List.{append_assoc}
use re_kernel_x.Nla.{nla_align, nla_data, nla_ok, Table, parse, get_u32}
use re_kernel_x.Nla.Wire.{
  Attr, attr, attr_len, Fits, bytes32, wire_of, wire, length-wire_of, header, padding, At, le16-At,
  nla_len-At, payload_at, le32-bytes32,
}
use re_kernel_x.Nla.Parses.{parse-wire}
use re_kernel_x.Client.Decodes.Reads.{Points-some, bind_some}
use re_kernel_x.Client.Resolve.{
  str_matches, group_name, is_group, group_loop, grp_name, grp_id, grp_max,
}

abbrev pub Clean : CString → Type 0
Clean = All (λ c. c ≢ 0)

get_elem?-split :
    (buf before rest : List ℕ) (i c : ℕ)
    → buf ≡ before ++ c ∷ rest
    → length before ≡ i
    → get_elem? buf i ≡ some c
get_elem?-split buf before rest i c e l =
    let here : i ≡ length before + 0 = omega arith in
    rw (here, e) (get_elem?-append_right before (c ∷ rest) 0)

-- strcmp at a C string compares the strings.
pub str_matches-At :
    (target name : CString) (buf before rest : List ℕ) (i : ℕ)
    → buf ≡ before ++ (name ++ 0 ∷ rest)
    → length before ≡ i
    → Clean name
    → Clean target
    → str_matches buf i target ≡ some (str_eq name target)
unfolding str_matches str_eq
str_matches-At [] [] buf before rest i e l clean clean2 =
    rw (get_elem?-split buf before rest i 0 e l) refl
str_matches-At [] (c ∷ name) buf before rest i e l clean clean2 =
    let differs : c == 0 ≡ false = ground (arith, clean.0) in
    rw (get_elem?-split buf before (name ++ 0 ∷ rest) i c e l, differs) refl
str_matches-At (t ∷ ts) [] buf before rest i e l clean clean2 =
    let differs : 0 == t ≡ false = ground (arith, clean2.0) in
    rw (get_elem?-split buf before rest i 0 e l, differs) refl
str_matches-At (t ∷ ts) (c ∷ name) buf before rest i e l clean clean2 =
    let here = get_elem?-split buf before (name ++ 0 ∷ rest) i c e l in
    let more =
      str_matches-At ts name buf (before ++ c ∷ []) rest (i + 1)
        (e ∙ sym (append_assoc before (c ∷ []) (name ++ 0 ∷ rest)))
        (omega (arith, length-append before (c ∷ []))) clean.1 clean2.1 in
    elim (Bool-cases (c == t)) [
      | inl same ↦ rw (here, more, same) refl
      | inr differ ↦ rw (here, differ) refl
    ]

-- A group as the controller puts it into the reply: its id, and its name.
pub record Group : Type 0 where
  pub index : ℕ
  pub id : ℕ
  pub name : CString

abbrev pub group_attrs : Group → List Attr
group_attrs g = attr grp_id (bytes32 g.id) ∷ attr grp_name (g.name ++ 0 ∷ []) ∷ []

abbrev pub group_attr : Group → Attr
group_attr g = attr g.index (wire (group_attrs g))

-- The controller numbers the groups; a name has at most 15 bytes (GENL_NAMSIZ).
abbrev pub IsGroup : Group → Type 0
IsGroup g = (g.index < 2 ^ 14) × (g.id < 2 ^ 32) × (length g.name < 16) × Clean g.name

-- The id of the group that is looked for, 0 if there is none.
abbrev pub group_id : List Group → ℕ
group_id [] = 0
group_id (g ∷ gs) = if str_eq g.name group_name then g.id else group_id gs

group_size : (g : Group) → IsGroup g → length (wire (group_attrs g)) < 40
group_size g (index, id, short, clean) =
    let name = attr grp_name (g.name ++ 0 ∷ []) in
    omega (
      arith,
      short,
      length-append (wire_of name) [],
      length-wire_of name,
      length-append g.name (0 ∷ []),
    )

group-Fits : (g : Group) → IsGroup g → Fits (group_attr g)
group-Fits g is = (omega (arith, group_size g is), omega (arith, is.0))

attrs-Fits : (g : Group) → IsGroup g → All Fits (group_attrs g)
attrs-Fits g (index, id, short, clean) = (
  (omega arith, omega arith),
  ((omega (arith, short, length-append g.name (0 ∷ [])), omega arith), tt),
)

group_name-Clean : Clean group_name
group_name-Clean = ground arith

name-At :
    (buf : List ℕ) (n : ℕ) (g : Group)
    → IsGroup g
    → At buf n (attr grp_name (g.name ++ 0 ∷ []))
    → str_matches buf (nla_data n) group_name ≡ some (str_eq g.name group_name)
name-At buf n g is at =
    let a = attr grp_name (g.name ++ 0 ∷ []) in
    let (split, here) = payload_at buf n a at (attrs-Fits g is).1.0 in
    let front = at.before ++ header a in
    let rest = padding a ++ at.after in
    str_matches-At group_name g.name buf front rest (nla_data n)
      (split ∙ ap (λ l. front ++ l) (append_assoc g.name (0 ∷ []) rest)) here is.3 group_name-Clean

id-At :
    (buf : List ℕ) (i : ℕ) (g : Group)
    → IsGroup g
    → At buf i (attr grp_id (bytes32 g.id))
    → get_u32 buf (some i) 0 ≡ some g.id
id-At buf i g is at =
    let a = attr grp_id (bytes32 g.id) in
    let fits = (attrs-Fits g is).0 in
    let (split, here) = payload_at buf i a at fits in
    let read =
      le32-bytes32 buf (at.before ++ header a) (padding a ++ at.after) (nla_data i) g.id split
        here in
    rw (nla_len-At buf i a at fits, read) refl

-- What the client finds at a group.
found-At :
    (buf : List ℕ) (mcgrp : ℕ) (g : Group)
    → At buf mcgrp (group_attr g)
    → IsGroup g
    → (tb : Table) × (parse buf grp_max (nla_data mcgrp) (length (wire (group_attrs g))) ≡ some tb)
      × (is_group buf (tb grp_name) (tb grp_id) ≡ some (str_eq g.name group_name))
      × (get_u32 buf (tb grp_id) 0 ≡ some g.id)
found-At buf mcgrp g at is =
    let a = group_attr g in
    let fits = group-Fits g is in
    let (split, here) = payload_at buf mcgrp a at fits in
    let (tb, p, holds) =
      parse-wire (group_attrs g) buf grp_max (nla_data mcgrp) (length (wire (group_attrs g)))
        (at.before ++ header a) (padding a ++ at.after) split here refl (attrs-Fits g is) in
    let all = attrs-Fits g is in
    let name = attr grp_name (g.name ++ 0 ∷ []) in
    let id = attr grp_id (bytes32 g.id) in
    let (n, e, nat) = Points-some buf (tb 1) name (holds 1 (omega arith) (omega arith)) in
    let (i, e2, iat) = Points-some buf (tb 2) id (holds 2 (omega arith) (omega arith)) in
    (tb, p, rw (e, e2) (name-At buf n g is nat), rw e2 (id-At buf i g is iat))

pub group_loop-wire :
    (gs : List Group) (fuel : ℕ) (buf : List ℕ) (pos rem : ℕ) (before after : List ℕ)
    → buf ≡ before ++ (wire (map group_attr gs) ++ after)
    → length before ≡ pos
    → length (wire (map group_attr gs)) ≡ rem
    → rem < fuel
    → All IsGroup gs
    → group_loop fuel buf pos rem ≡ some (group_id gs)
unfolding group_loop
group_loop-wire gs zero buf pos rem before after e l r f is = elim f [ ]
group_loop-wire [] (suc fuel) buf pos rem before after e l r f is =
    let ends : nla_ok buf pos rem ≡ some false = ground arith in bind_some _ _ _ _ ends refl
group_loop-wire (g ∷ gs) (suc fuel) buf pos rem before after e l r f is =
    let a = group_attr g in
    let fits = group-Fits g is.0 in
    let rest = wire (map group_attr gs) in
    let at : At buf pos a = record {
      before = before;
      after = rest ++ after;
      split = e ∙ ap (λ t. before ++ t) (append_assoc (wire_of a) rest after);
      here = l;
    } in
    let n : ℕ = nla_align (attr_len a) in
    let whole : n + length rest ≡ rem =
      omega (arith, length-append (wire_of a) rest, length-wire_of a) in
    let long : ltb rem 4 ≡ false = ground arith in
    let good : leb 4 (attr_len a) && leb (attr_len a) rem ≡ true = ground arith in
    let ok : nla_ok buf pos rem ≡ some true = rw (long, le16-At buf pos a at fits, good) refl in
    let go : ltb rem n ≡ false = ground arith in
    let (tb, p, m, id) = found-At buf pos g at is.0 in
    let next =
      group_loop-wire gs fuel buf (pos + n) (rem - n) (before ++ wire_of a) after
        (at.split ∙ sym (append_assoc before (wire_of a) (rest ++ after)))
        (omega (arith, length-append before (wire_of a), length-wire_of a)) (omega arith)
        (omega arith) is.1 in
    bind_some _ _ _ _ ok (
      bind_some _ _ _ _ (le16-At buf pos a at fits) (
        bind_some _ _ _ _ (nla_len-At buf pos a at fits) (
          bind_some _ _ _ _ p (
            bind_some _ _ _ _ m (elim (Bool-cases (str_eq g.name group_name)) [
              | inl same ↦ rw same id
              | inr differ ↦ rw (differ, go) next
            ])))))
