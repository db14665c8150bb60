-- ===== src/Signal/Reports.antt =====
-- When the hook of LKM-Source/rkx_signal.c reports a signal.
use re_kernel_x.Base.{
  ◌≡◌, ◌↔◌, ◌⊎◌, inl, inr, refl, Bool, true, ◌&&◌, Option, none, some, arith, ℤ, pos, eq_ℤ,
  eq_ℤ_iff, Bool-cases,
}
use re_kernel_x.Event.{Event, signal}
use re_kernel_x.Frozen.{Kernel, Task, is_frozen}
use re_kernel_x.Frozen.Reasons.{Reason, is_frozen_iff}
use re_kernel_x.Signal.{
  sigkill, sigterm, sigabrt, sigquit, is_fatal, signal_event, send_sig_info_hook,
}

-- A signal to a frozen task that ends it.
pub record Reported (k : Kernel) (ready : Bool) (sig : ℤ) (killer dst : Option Task) (e : Event)
    : Type 0 where
  pub sender : Task
  pub target : Task
  pub sent : killer ≡ some sender
  pub received : dst ≡ some target
  pub why : Reason k target
  pub fatal : (sig ≡ pos 9) ⊎ (sig ≡ pos 15) ⊎ (sig ≡ pos 6) ⊎ (sig ≡ pos 3)
  pub connected : ready ≡ true
  pub event :
      e
      ≡ signal (record {
        signal = sig;
        killer_pid = sender.tgid;
        killer_uid = sender.uid;
        dst_pid = target.tgid;
        dst_uid = target.uid;
      })

fatal_cases :
    (sig : ℤ)
    → is_fatal sig ≡ true
    → (sig ≡ sigkill) ⊎ (sig ≡ sigterm) ⊎ (sig ≡ sigabrt) ⊎ (sig ≡ sigquit)
fatal_cases sig e = elim (Bool-cases (eq_ℤ sig sigkill)) [
  | inl y ↦ inl ((eq_ℤ_iff sig sigkill).0 y)
  | inr n1 ↦ elim (Bool-cases (eq_ℤ sig sigterm)) [
    | inl y ↦ inr (inl ((eq_ℤ_iff sig sigterm).0 y))
    | inr n2 ↦ elim (Bool-cases (eq_ℤ sig sigabrt)) [
      | inl y ↦ inr (inr (inl ((eq_ℤ_iff sig sigabrt).0 y)))
      | inr n3 ↦ inr (inr (inr ((eq_ℤ_iff sig sigquit).0 (ground arith))))
    ]
  ]
]

fatal_holds :
    (sig : ℤ)
    → (sig ≡ sigkill) ⊎ (sig ≡ sigterm) ⊎ (sig ≡ sigabrt) ⊎ (sig ≡ sigquit)
    → is_fatal sig ≡ true
fatal_holds sig (inl e) = rw e refl
fatal_holds sig (inr (inl e)) = rw e refl
fatal_holds sig (inr (inr (inl e))) = rw e refl
fatal_holds sig (inr (inr (inr e))) = rw e refl

some_inj : {A : Type 0} (x y : A) → some x ≡ some y → x ≡ y
some_inj x y e = cc

module _ (k : Kernel) (ready : Bool) (sig : ℤ) where
  there :
      (killer dst : Option Task) (e : Event)
      → send_sig_info_hook k ready sig killer dst ≡ some e
      → Reported k ready sig killer dst e
  unfolding send_sig_info_hook signal_event
  there none dst e h = absurd (ground arith)
  there (some killer) none e h = absurd (ground arith)
  there (some killer) (some dst) e h = elim (Bool-cases (is_frozen k dst && is_fatal sig)) [
    | inr no_way ↦ absurd (ground arith)
    | inl both ↦ elim (Bool-cases ready) [
      | inr unready ↦ absurd (ground arith)
      | inl go ↦ record {
        sender = killer;
        target = dst;
        sent = refl;
        received = refl;
        why = (is_frozen_iff k dst).0 (ground arith);
        fatal = fatal_cases sig (ground arith);
        connected = go;
        event = some_inj e _ (ground arith);
      }
    ]
  ]

  back :
      (killer dst : Option Task) (e : Event)
      → Reported k ready sig killer dst e
      → send_sig_info_hook k ready sig killer dst ≡ some e
  unfolding send_sig_info_hook signal_event
  back killer dst e r =
      let frozen = (is_frozen_iff k r.target).1 r.why in
      let fatal = fatal_holds sig r.fatal in
      rw (r.sent, r.received, r.connected, r.event) (ground arith)

  -- The hook reports a signal exactly if both tasks are there, the target is frozen, for one of the
  -- reasons of rkx_is_frozen, the signal is SIGKILL, SIGTERM, SIGABRT or SIGQUIT, and the netlink
  -- family is registered; the event then has the signal's number, the killer's pid and uid and the
  -- target's pid and uid, each in its own field.
  pub send_sig_info_hook_iff :
      (killer dst : Option Task) (e : Event)
      → (send_sig_info_hook k ready sig killer dst ≡ some e) ↔ Reported k ready sig killer dst e
  send_sig_info_hook_iff killer dst e = (there killer dst e, back killer dst e)
