-- ===== src/Tests/NetUidTests.antt =====
-- The set of rkx_netuid.c on two uids of one chain.
use re_kernel_x.Base.{◌≡◌, refl, true, false}
use re_kernel_x.Hashtable.{Table, hash_init, hash_add, find, remove}
use re_kernel_x.NetUid.{UidInfo, monitored, add, del, init}
use re_kernel_x.Tests.Values.{low_bits}

abbrev start : Table UidInfo
start = init

abbrev both : Table UidInfo
both = add low_bits (add low_bits start 10100 true) 10164 true

finds_both : (monitored low_bits both 10100 ≡ true) × (monitored low_bits both 10164 ≡ true)
unfolding add monitored init hash_init hash_add find
finds_both = (refl, refl)

keeps_the_other :
    let left = (del low_bits both 10100).0 in
    (monitored low_bits left 10100 ≡ false) × (monitored low_bits left 10164 ≡ true)
unfolding add del monitored init hash_init hash_add find remove
keeps_the_other = (refl, refl)
