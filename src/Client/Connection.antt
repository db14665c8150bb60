-- ===== src/Client/Connection.antt =====
-- rkx_jni.cpp: setCallback, connect, pollEvent and disconnect. What the system and the Java virtual
-- machine answer is an argument.
pub mod Connects
pub mod Held
pub mod Reach
pub mod Ends
use re_kernel_x.Base.{
  ℕ, suc, ◌+◌, Bool, true, false, ◌&&◌, ◌||◌, not, List, [], ◌∷◌, ◌++◌, Option, none, some, ◌>>=◌,
  if◌then◌else◌, ◌==◌, ltb, ℤ, pos, negsuc, ltb_ℤ, minus_one,
}
use re_kernel_x.Client.State.{Client, opened, close, next_seq}
use re_kernel_x.Client.Events.{Call}
use re_kernel_x.Client.Messages.{dispatch}

-- DeleteGlobalRef
abbrev pub remove_ref : ℕ → List ℕ → List ℕ
remove_ref ref [] = []
remove_ref ref (x ∷ xs) = if ref == x then xs else x ∷ remove_ref ref xs

abbrev pub delete_ref : Client → Option ℕ → Client
delete_ref s none = s
delete_ref s (some ref) = record s { global_refs = remove_ref ref s.global_refs }

-- setCallback, of null or of an object, for which IsInstanceOf answers and NewGlobalRef gives `ref`.
unfoldable pub set_callback : Client → Option (Bool × ℕ) → Client
set_callback s none = delete_ref (record s { callback = none }) s.callback
set_callback s (some (is_instance, ref)) =
    if not is_instance
    then s
    else delete_ref (record s { callback = some ref; global_refs = ref ∷ s.global_refs }) s.callback

-- socket, eventfd, bind, resolve_family_group with its results, and the setsockopt that joins the group
pub record Answers : Type 0 where
  pub socket : ℤ
  pub eventfd : ℤ
  pub bind : ℤ
  pub group : Option (ℕ × ℕ)
  pub membership : ℤ

abbrev pub close_both : Client → Answers → Client
close_both s sys = close (close s sys.socket) sys.eventfd

-- connect, from resolve_family_group on; it takes a number for its request.
abbrev pub join : Client → Answers → Option (ℕ × ℕ) → Bool × Client
join s sys none = (false, close_both s sys)
join s sys (some (fid, gid)) =
    if ltb 0 gid && ltb_ℤ sys.membership (pos 0) then (false, close_both s sys) else (
      true,
      record s { family = fid; disconnect_fd = sys.eventfd; fd = sys.socket; wakeups = 0 },
    )

unfoldable pub connect : Client → Answers → Bool × Client
connect s sys =
    if not (ltb_ℤ s.fd (pos 0))
    then (true, s)
    else if ltb_ℤ sys.socket (pos 0)
    then (false, s)
    else if ltb_ℤ sys.eventfd (pos 0)
    then (false, close (opened s sys.socket) sys.socket)
    else if ltb_ℤ sys.bind (pos 0)
    then (false, close_both (opened (opened s sys.socket) sys.eventfd) sys)
    else join (next_seq (opened (opened s sys.socket) sys.eventfd)) sys sys.group

-- disconnect: a write to the eventfd, which adds 1 to its counter
unfoldable pub disconnect : Client → Client
disconnect s = if ltb_ℤ s.disconnect_fd (pos 0) then s else record s { wakeups = suc s.wakeups }

-- What poll gives: an error, or which of the two descriptors are ready; and what recvfrom then gives,
-- with the receive buffer after it.
pub data Poll : Type 0 where
  failed : Poll
  ready : (woken readable : Bool) (rlen : ℤ) (rbuf : List ℕ) → Poll

-- nl_recv and the dispatch of what came in; with no callback nothing is done.
abbrev pub receive : Client → ℤ → List ℕ → Option ℕ → Option (List Call)
receive s (negsuc n) rbuf cb = some []
receive s (pos n) rbuf none = some []
receive s (pos n) rbuf (some ref) = if n == 0 then some [] else dispatch s.family rbuf n

-- fd < 0 || disconnect_fd < 0
abbrev pub is_off : Client → Bool
is_off s = ltb_ℤ s.fd (pos 0) || ltb_ℤ s.disconnect_fd (pos 0)

-- A round of pollEvent: the calls that it makes, whether the loop goes on, and the state.
abbrev pub polled : Client → Poll → Option (List Call × Bool × Client)
polled s failed = some ([], true, s)
polled s (ready true readable rlen rbuf) = some ([], false, record s { wakeups = 0 })
polled s (ready false true rlen rbuf) =
    receive s rlen rbuf s.callback >>= λ calls. some (calls, true, s)
polled s (ready false false rlen rbuf) = some ([], true, s)

unfoldable pub round : Client → Poll → Option (List Call × Bool × Client)
round s poll = if is_off s then some ([], false, s) else polled s poll

-- What pollEvent does behind its loop: both descriptors are taken out of the globals and closed.
abbrev pub close_valid : Client → ℤ → Client
close_valid s fd = if not (ltb_ℤ fd (pos 0)) then close s fd else s

unfoldable pub tear_down : Client → Client
tear_down s =
    close_valid
      (close_valid (record s { fd = minus_one; disconnect_fd = minus_one; family = 0 }) s.fd)
      s.disconnect_fd

-- pollEvent, while poll gives what is in the list; `false` says that it is still in its loop.
unfoldable pub poll_event : Client → List Poll → Option (List Call × Bool × Client)
unfolding round tear_down
poll_event s [] = if is_off s then some ([], true, tear_down s) else some ([], false, s)
poll_event s (p ∷ ps) = round s p >>= λ r. elim r.1 [
  | false ↦ some (r.0, true, tear_down r.2)
  | true ↦ poll_event r.2 ps >>= λ rest. some (r.0 ++ rest.0, rest.1, rest.2)
]
