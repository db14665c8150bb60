-- ===== src/Client/Resolve/Asks.antt =====
-- The request for the family.
use re_kernel_x.Base.{ℕ, ◌≡◌, refl, [], ◌∷◌, ◌++◌, some}
use re_kernel_x.Nla.Wire.{attr, wire, genl_message}
use re_kernel_x.Client.Resolve.{request, family_name, id_ctrl, cmd_get_family, attr_family_name}

-- The request that is put together by hand is the message, in the netlink format, that asks the
-- controller for the family by its name, and stays inside of its 256 bytes.
pub request_lem :
    (seq : ℕ)
    → request seq
      ≡ some (
          genl_message id_ctrl 1 seq 0 cmd_get_family 1
            (wire (attr attr_family_name (family_name ++ 0 ∷ []) ∷ [])))
unfolding request
request_lem seq = refl
