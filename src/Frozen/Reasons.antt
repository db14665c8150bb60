-- ===== src/Frozen/Reasons.antt =====
-- Why rkx_is_frozen of LKM-Source/rkx_frozen.c takes a task for frozen, by kernel version.
use re_kernel_x.Base.{
  ◌≤◌, ◌<◌, ◌≡◌, ◌≢◌, ◌↔◌, ◌⊎◌, inl, inr, true, ◌||◌, some, arith, leb, ltb, Bool-cases,
  Option-cases,
}
use Prim.Native.Nat.{bit_and}
use re_kernel_x.Frozen.{
  Kernel, Task, Leader, kernel_version, is_frozen, frozen_state_compatible,
  jobctl_frozen_compatible,
}

module _ (k : Kernel) (t : Task) where
  -- The freezer of cgroup v2: frozen, or asked to freeze, which kernels before 5.15 note in the cgroup
  -- and later ones in jobctl.
  pub data CgroupReason : Type 0 where
    frozen : t.cgroup_frozen ≡ true → CgroupReason
    asked : k.version < kernel_version 5 15 → t.cgroup_freeze ≡ true → CgroupReason
    trapped :
        kernel_version 5 15 ≤ k.version → bit_and t.jobctl k.jobctl_trap_freeze ≢ 0 → CgroupReason

  -- The freezer of cgroup v1 and of suspend, on the group leader: freezing, or frozen, which is in the
  -- state of a task since 6.1 and in a flag before.
  pub data LeaderReason (l : Leader) : Type 0 where
    freezing : l.is_freezing ≡ true → LeaderReason l
    in_state : kernel_version 6 1 ≤ k.version → bit_and l.state k.task_frozen ≢ 0 → LeaderReason l
    flagged : k.version < kernel_version 6 1 → l.is_frozen ≡ true → LeaderReason l

  abbrev pub Reason : Type 0
  Reason = CgroupReason ⊎ ((l : Leader) × (t.group_leader ≡ some l) × LeaderReason l)

  cgroup_reason : t.cgroup_frozen || jobctl_frozen_compatible k t ≡ true → CgroupReason
  cgroup_reason e = elim (Bool-cases t.cgroup_frozen) [
    | inl y ↦ frozen y
    | inr n ↦ elim (Bool-cases (ltb k.version (kernel_version 5 15))) [
      | inl old ↦ asked (ground arith) (ground arith)
      | inr new ↦ trapped (ground arith) (ground arith)
    ]
  ]

  cgroup_holds : CgroupReason → t.cgroup_frozen || jobctl_frozen_compatible k t ≡ true
  cgroup_holds (frozen y) = ground arith
  cgroup_holds (asked old y) = ground arith
  cgroup_holds (trapped new y) = ground arith

  leader_reason :
      (l : Leader) → frozen_state_compatible k l || l.is_freezing ≡ true → LeaderReason l
  leader_reason l e = elim (Bool-cases l.is_freezing) [
    | inl y ↦ freezing y
    | inr n ↦ elim (Bool-cases (leb (kernel_version 6 1) k.version)) [
      | inl new ↦ in_state (ground arith) (ground arith)
      | inr old ↦ flagged (ground arith) (ground arith)
    ]
  ]

  leader_holds : (l : Leader) → LeaderReason l → frozen_state_compatible k l || l.is_freezing ≡ true
  leader_holds l (freezing y) = ground arith
  leader_holds l (in_state new y) = ground arith
  leader_holds l (flagged old y) = ground arith

  -- A task is taken for frozen exactly if its cgroup is frozen, or it is asked to freeze (in the cgroup
  -- before 5.15, in jobctl since), or its group leader is freezing or frozen (in its state since 6.1,
  -- in a flag before).
  pub is_frozen_iff : (is_frozen k t ≡ true) ↔ Reason
  unfolding is_frozen
  is_frozen_iff = (there, back)
    where
      there : is_frozen k t ≡ true → Reason
      there e = elim (Bool-cases (t.cgroup_frozen || jobctl_frozen_compatible k t)) [
        | inl y ↦ inl (cgroup_reason y)
        | inr n ↦ elim (Option-cases t.group_leader) [
          | inl alone ↦ absurd (ground arith)
          | inr (l, p) ↦ inr (l, p, leader_reason l (ground arith))
        ]
      ]

      back : Reason → is_frozen k t ≡ true
      back (inl r) = ground (arith, cgroup_holds r)
      back (inr (l, p, r)) = ground (arith, leader_holds l r)
