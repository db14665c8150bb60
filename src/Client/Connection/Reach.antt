-- ===== src/Client/Connection/Reach.antt =====
-- What the client holds, over any sequence of calls of its methods and rounds of its poller.
use re_kernel_x.Base.{
  ℕ, ◌<◌, ◌≡◌, refl, sym, ap, ◌∙◌, inl, inr, Bool, true, false, List, Option, none, some, length, ℤ,
  CString,
}
use re_kernel_x.Client.State.{Client, next_seq}
use re_kernel_x.Client.Events.{Call}
use re_kernel_x.Client.Commands
use re_kernel_x.Client.Commands.{monitor_net, add_free_async, del_free_async}
use re_kernel_x.Client.Commands.Outcome.{after, monitor_net_outcome}
use re_kernel_x.Client.Commands.Rules.{add_free_async_outcome, del_free_async_outcome}
use re_kernel_x.Client.Connection.{
  set_callback, Answers, connect, disconnect, Poll, round, tear_down,
}
use re_kernel_x.Client.Connection.Held.{
  IsHeld, keeps, connect-IsHeld, tear_down-IsHeld, disconnect-IsHeld, set_callback-IsHeld,
  round-IsHeld,
}

-- Where the thread is that calls pollEvent: outside of it, in its loop, or behind the loop.
pub data Phase : Type 0 where
  idle : Phase
  looping : Phase
  leaving : Phase

-- A step of the process: a method of any thread, or of the one that is in pollEvent a round of its loop,
-- or what stands behind the loop. The stack of a method has the bytes that it declares, and a name fewer
-- than the 65528 from which the builder overflows.
pub data Step : Client → Phase → Client → Phase → Type 0 where
  connects : {s : Client} {p : Phase} (sys : Answers) → Step s p (connect s sys).1 p
  disconnects : {s : Client} {p : Phase} → Step s p (disconnect s) p
  sets : {s : Client} {p : Phase} (cb : Option (Bool × ℕ)) → Step s p (set_callback s cb) p
  monitors :
      {s s' : Client} {p : Phase} (cmd : ℕ) (sys : Commands.Answers) (uid : ℤ) (r : Bool)
      → length sys.stack ≡ 128
      → monitor_net cmd s sys uid ≡ some (r, s')
      → Step s p s' p
  adds :
      {s s' : Client} {p : Phase} (sys : Commands.Answers) (rpc_name : CString) (code strategy : ℤ)
      (r : Bool)
      → length sys.stack ≡ 256
      → length rpc_name < 65528
      → add_free_async s sys (some rpc_name) code strategy ≡ some (r, s')
      → Step s p s' p
  deletes :
      {s s' : Client} {p : Phase} (sys : Commands.Answers) (rpc_name : CString) (code : ℤ)
      (r : Bool)
      → length sys.stack ≡ 256
      → length rpc_name < 65528
      → del_free_async s sys (some rpc_name) code ≡ some (r, s')
      → Step s p s' p
  enters : {s : Client} → Step s idle s looping
  goes_on :
      {s s' : Client} (poll : Poll) (calls : List Call)
      → round s poll ≡ some (calls, true, s')
      → Step s looping s' looping
  breaks :
      {s s' : Client} (poll : Poll) (calls : List Call)
      → round s poll ≡ some (calls, false, s')
      → Step s looping s' leaving
  leaves : {s : Client} → Step s leaving (tear_down s) idle

pub data Steps : Client → Phase → Client → Phase → Type 0 where
  stop : {s : Client} {p : Phase} → Steps s p s p
  followed :
      {s s' s'' : Client} {p p' p'' : Phase}
      → Step s p s' p'
      → Steps s' p' s'' p''
      → Steps s p s'' p''

abbrev result_of : Client → Option (Bool × Client) → Client
result_of s none = s
result_of s (some r) = r.1

-- A command leaves the state, or takes a number, or sends a message.
sends-IsHeld :
    (s s' : Client) (r : Bool) (m : Option (Bool × Client)) (b : Bool) (t : Client)
    → m ≡ some (r, s')
    → m ≡ some (b, t)
    → IsHeld t
    → IsHeld s'
sends-IsHeld s s' r m b t e e2 held =
    let same : t ≡ s' = ap (result_of s) (sym e2 ∙ e) in rw (← same) held

counted-IsHeld : (s : Client) → IsHeld s → IsHeld (next_seq s)
counted-IsHeld s held = keeps s (next_seq s) refl refl refl refl refl refl held

after-IsHeld : (s : Client) (message : List ℕ) → IsHeld s → IsHeld (after s message)
after-IsHeld s message held = keeps s (after s message) refl refl refl refl refl refl held

Step-IsHeld : {s s' : Client} {p p' : Phase} → Step s p s' p' → IsHeld s → IsHeld s'
Step-IsHeld {s} (connects sys) held = connect-IsHeld s sys held
Step-IsHeld {s} disconnects held = disconnect-IsHeld s held
Step-IsHeld {s} (sets cb) held = set_callback-IsHeld s cb held
Step-IsHeld {s} {s'} (monitors cmd sys uid r sized e) held =
    elim (monitor_net_outcome cmd s sys uid sized) [
      | inl (refused, e2) ↦ sends-IsHeld s s' r (monitor_net cmd s sys uid) _ s e e2 held
      | inr (accepted, e2) ↦
          sends-IsHeld s s' r (monitor_net cmd s sys uid) _ _ e e2 (after-IsHeld s _ held)
    ]
Step-IsHeld {s} {s'} (adds sys rpc_name code strategy r sized short e) held =
    elim ((add_free_async_outcome s sys rpc_name code strategy sized short).1) [
      | inl (refused, e2) ↦ sends-IsHeld s s' r _ _ s e e2 held
      | inr (accepted, inl (full, e2)) ↦ sends-IsHeld s s' r _ _ _ e e2 (counted-IsHeld s held)
      | inr (accepted, inr (room, e2)) ↦ sends-IsHeld s s' r _ _ _ e e2 (after-IsHeld s _ held)
    ]
Step-IsHeld {s} {s'} (deletes sys rpc_name code r sized short e) held =
    elim ((del_free_async_outcome s sys rpc_name code sized short).1) [
      | inl (refused, e2) ↦ sends-IsHeld s s' r _ _ s e e2 held
      | inr (accepted, inl (full, e2)) ↦ sends-IsHeld s s' r _ _ _ e e2 (counted-IsHeld s held)
      | inr (accepted, inr (room, e2)) ↦ sends-IsHeld s s' r _ _ _ e e2 (after-IsHeld s _ held)
    ]
Step-IsHeld enters held = held
Step-IsHeld {s} {s'} (goes_on poll calls e) held = round-IsHeld s s' poll calls true e held
Step-IsHeld {s} {s'} (breaks poll calls e) held = round-IsHeld s s' poll calls false e held
Step-IsHeld {s} leaves held = tear_down-IsHeld s held

-- If it was so before, then after any sequence of calls of the methods, of rounds of the poller and of
-- its end, in any order and with any answers of the system, for names shorter than 65528 bytes and with
-- the bytes on the stack that the methods declare, the descriptors that are open are exactly the two of the globals, or
-- none if there is no connection; the only global reference is the callback; and no string is held.
pub Steps-IsHeld : {s s' : Client} {p p' : Phase} → Steps s p s' p' → IsHeld s → IsHeld s'
Steps-IsHeld stop held = held
Steps-IsHeld (followed step steps) held = Steps-IsHeld steps (Step-IsHeld step held)
