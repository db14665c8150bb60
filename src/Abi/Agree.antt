-- ===== src/Abi/Agree.antt =====
-- The two headers give every enumerator the same number, and no number to two of them.
use re_kernel_x.Base.{ℕ, ◌≤◌, ◌≡◌, ◌↔◌, refl, sym, ap, ◌∙◌, List, some}
use re_kernel_x.Abi.{Attribute}
use re_kernel_x.Abi.Module
use re_kernel_x.Abi.Library
use re_kernel_x.Abi.Numbers.{
  named, attribute_max, all_cmd_number, same_cmd_number, named_cmd_number, all_attribute_number,
  same_attribute_number, named_attribute_number, all_strategy_number, same_strategy_number,
  named_strategy_number, all_event_type_number, same_event_type_number, named_event_type_number,
  all_binder_type_number, same_binder_type_number, named_binder_type_number, all_net_proto_number,
  same_net_proto_number, named_net_proto_number,
}

-- The numbers of one header stand for the same enumerators as those of the other.
abbrev pub SameNumbers : {A : Type 0} → (A → ℕ) → (A → ℕ) → Type 0
SameNumbers {A = A} f g = (a b : A) → (f a ≡ g b) ↔ (a ≡ b)

some_inj : {A : Type 0} (x y : A) → some x ≡ some y → x ≡ y
some_inj x y e = cc

agree_lem :
    {A : Type 0} (f g : A → ℕ) (all : List A)
    → ((a : A) → f a ≡ g a)
    → ((a : A) → named f all (f a) ≡ some a)
    → SameNumbers f g
agree_lem f g all same back a b = (
  λ e. some_inj a b (sym (back a) ∙ ap (named f all) (e ∙ sym (same b)) ∙ back b),
  λ e. ap f e ∙ same b,
)

-- In the headers of the module and of the library, a command of the one has the number of a command of
-- the other exactly if they are the same command, and likewise for attributes, strategies, types of
-- events, types of binder events and protocols; the names of the family and of its group and the version
-- are the same, and the library's table of attributes has room for every attribute of the module.
pub headers_agree :
    SameNumbers Module.cmd_number Library.cmd_number
    × SameNumbers Module.attribute_number Library.attribute_number
    × SameNumbers Module.strategy_number Library.strategy_number
    × SameNumbers Module.event_type_number Library.event_type_number
    × SameNumbers Module.binder_type_number Library.binder_type_number
    × SameNumbers Module.net_proto_number Library.net_proto_number
    × (Module.genl_family_name ≡ Library.genl_family_name)
    × (Module.genl_version ≡ Library.genl_version)
    × (Module.genl_mcgrp_name ≡ Library.genl_mcgrp_name)
    × ((a : Attribute) → Module.attribute_number a ≤ Library.a_max)
headers_agree = (
  agree_lem Module.cmd_number Library.cmd_number all_cmd_number same_cmd_number named_cmd_number,
  agree_lem Module.attribute_number Library.attribute_number all_attribute_number
      same_attribute_number named_attribute_number,
  agree_lem Module.strategy_number Library.strategy_number all_strategy_number same_strategy_number
      named_strategy_number,
  agree_lem Module.event_type_number Library.event_type_number all_event_type_number
      same_event_type_number named_event_type_number,
  agree_lem Module.binder_type_number Library.binder_type_number all_binder_type_number
      same_binder_type_number named_binder_type_number,
  agree_lem Module.net_proto_number Library.net_proto_number all_net_proto_number
      same_net_proto_number named_net_proto_number,
  refl,
  refl,
  refl,
  attribute_max,
)
