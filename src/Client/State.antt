-- ===== src/Client/State.antt =====
-- The state of rkx_jni.cpp: its globals, and what the process holds while its functions run.
use re_kernel_x.Base.{
  Option, none, ℕ, suc, ◌+◌, ◌-◌, ◌%◌, ◌^◌, Bool, ◌||◌, List, [], ◌∷◌, if◌then◌else◌, ◌==◌, ℤ, pos,
  ltb_ℤ, eq_ℤ, minus_one,
}

-- g_fd, g_disconnect_fd, g_family_id, g_seq and g_callback, a global reference; the counter of the
-- eventfd, the descriptors that are open and the global references that there are, the count of strings
-- that GetStringUTFChars gave out, and the messages that were sent, the last one first.
pub record Client : Type 0 where
  pub fd : ℤ
  pub disconnect_fd : ℤ
  pub family : ℕ
  pub seq : ℕ
  pub callback : Option ℕ
  pub wakeups : ℕ
  pub open_fds : List ℤ
  pub global_refs : List ℕ
  pub strings : ℕ
  pub sent : List (List ℕ)

-- The globals before the first call.
abbrev pub initial : Client
initial = record {
  fd = minus_one;
  disconnect_fd = minus_one;
  family = 0;
  seq = 1;
  callback = none;
  wakeups = 0;
  open_fds = [];
  global_refs = [];
  strings = 0;
  sent = [];
}

-- A descriptor that a function of the system opened; a negative one is an error.
abbrev pub opened : Client → ℤ → Client
opened s fd = if ltb_ℤ fd (pos 0) then s else record s { open_fds = fd ∷ s.open_fds }

abbrev pub remove_fd : ℤ → List ℤ → List ℤ
remove_fd fd [] = []
remove_fd fd (x ∷ xs) = if eq_ℤ fd x then xs else x ∷ remove_fd fd xs

abbrev pub close : Client → ℤ → Client
close s fd = record s { open_fds = remove_fd fd s.open_fds }

-- g_seq.fetch_add(1), whose result is `seq` before
abbrev pub next_seq : Client → Client
next_seq s = record s { seq = (s.seq + 1) % 2 ^ 32 }

-- GetStringUTFChars gave out a string, ReleaseStringUTFChars took it back.
abbrev pub held : Client → Client
held s = record s { strings = suc s.strings }

abbrev pub release : Client → Client
release s = record s { strings = s.strings - 1 }

-- family == 0 || g_fd.load() < 0
abbrev pub disconnected : Client → Bool
disconnected s = s.family == 0 || ltb_ℤ s.fd (pos 0)
