-- ===== src/Client/Connection/Connects.antt =====
-- What connect does, on every path.
use re_kernel_x.Base.{
  ℕ, ◌≡◌, refl, ◌⊎◌, inl, inr, Bool, true, false, ◌&&◌, ◌||◌, List, ◌∷◌, none, some, arith, ltb,
  Bool-cases, Option-cases, ℤ, pos, ltb_ℤ, eq_ℤ, eq_ℤ_iff,
}
use re_kernel_x.Client.State.{Client, remove_fd, next_seq}
use re_kernel_x.Client.Connection.{Answers, join, connect}

pub same_fd : (fd : ℤ) → eq_ℤ fd fd ≡ true
same_fd fd = (eq_ℤ_iff fd fd).1 refl

-- Two descriptors closed in the order in which they were opened; they may be the same number.
pub remove_both : (a b : ℤ) (rest : List ℤ) → remove_fd b (remove_fd a (b ∷ a ∷ rest)) ≡ rest
remove_both a b rest = elim (Bool-cases (eq_ℤ a b)) [
  | inl same ↦ rw ((eq_ℤ_iff a b).0 same, same_fd b, same_fd b) refl
  | inr differ ↦ rw (differ, same_fd a, same_fd b) refl
]

-- The client with a connection to the family `fid`.
abbrev pub joined : Client → Answers → ℕ → Client
joined s sys fid = record (next_seq s) {
  family = fid;
  disconnect_fd = sys.eventfd;
  fd = sys.socket;
  wakeups = 0;
  open_fds = sys.eventfd ∷ sys.socket ∷ s.open_fds;
}

-- The system refuses the socket, the eventfd or the address; later, it does not know the family or does
-- not let the client into the group.
abbrev pub refuses_early : Answers → Bool
refuses_early sys =
    ltb_ℤ sys.socket (pos 0) || (ltb_ℤ sys.eventfd (pos 0) || ltb_ℤ sys.bind (pos 0))

abbrev pub Accepts : Answers → ℕ → Type 0
Accepts sys fid =
    (refuses_early sys ≡ false)
    × (gid : ℕ) × (sys.group ≡ some (fid, gid))
    × ((ltb 0 gid && ltb_ℤ sys.membership (pos 0)) ≡ false)

abbrev pub Refuses : Answers → Type 0
Refuses sys =
    (sys.group ≡ none)
    ⊎ ((fid gid : ℕ) × (sys.group ≡ some (fid, gid))
        × ((ltb 0 gid && ltb_ℤ sys.membership (pos 0)) ≡ true))

-- connect, from resolve_family_group on, with both descriptors open.
join_outcome :
    (s : Client) (sys : Answers)
    → refuses_early sys ≡ false
    → let r =
        join
          (record (next_seq s) { open_fds = sys.eventfd ∷ sys.socket ∷ s.open_fds })
          sys
          sys.group in
      (Refuses sys × (r ≡ (false, next_seq s)))
      ⊎ ((fid : ℕ) × Accepts sys fid × (r ≡ (true, joined s sys fid)))
join_outcome s sys early = elim (Option-cases sys.group) [
  | inl unknown ↦
      inl (inl unknown, rw (unknown, remove_both sys.socket sys.eventfd s.open_fds) refl)
  | inr ((fid, gid), e) ↦ elim (Bool-cases (ltb 0 gid && ltb_ℤ sys.membership (pos 0))) [
    | inl refused ↦ inl (
      inr (fid, gid, e, refused),
      rw (e, refused, remove_both sys.socket sys.eventfd s.open_fds) refl,
    )
    | inr accepted ↦ inr (fid, (early, gid, e, accepted), rw (e, accepted) refl)
  ]
]

-- A client that is connected stays as it is. Otherwise connect answers true only if nothing was
-- refused, with both descriptors in the globals; on each other path it answers false, and every
-- descriptor that it opened is closed again.
pub connect_outcome :
    (s : Client) (sys : Answers)
    → ((ltb_ℤ s.fd (pos 0) ≡ false) × (connect s sys ≡ (true, s)))
      ⊎ ((ltb_ℤ s.fd (pos 0) ≡ true)
          × (((refuses_early sys ≡ true) × (connect s sys ≡ (false, s)))
              ⊎ (Refuses sys × (connect s sys ≡ (false, next_seq s)))
              ⊎ ((fid : ℕ) × Accepts sys fid × (connect s sys ≡ (true, joined s sys fid)))))
unfolding connect
connect_outcome s sys = elim (Bool-cases (ltb_ℤ s.fd (pos 0))) [
  | inr on ↦ inl (on, rw on refl)
  | inl off ↦ inr (
    off,
    elim (Bool-cases (ltb_ℤ sys.socket (pos 0))) [
      | inl no_socket ↦ inl (ground arith, rw (off, no_socket) refl)
      | inr socket ↦ elim (Bool-cases (ltb_ℤ sys.eventfd (pos 0))) [
        | inl no_eventfd ↦ inl (ground arith, rw (off, socket, no_eventfd, same_fd sys.socket) refl)
        | inr eventfd ↦ elim (Bool-cases (ltb_ℤ sys.bind (pos 0))) [
          | inl no_bind ↦ inl (
            ground arith,
            rw (off, socket, eventfd, no_bind, remove_both sys.socket sys.eventfd s.open_fds) refl,
          )
          | inr bound ↦
              let early : refuses_early sys ≡ false = ground arith in
              elim (join_outcome s sys early) [
                | inl (refused, e) ↦ inr (inl (refused, rw (off, socket, eventfd, bound) e))
                | inr (fid, accepted, e) ↦
                    inr (inr (fid, accepted, rw (off, socket, eventfd, bound) e))
              ]
        ]
      ]
    ],
  )
]
