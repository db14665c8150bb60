-- ===== src/Client/Safe.antt =====
-- The handlers of rkx_jni.cpp read nothing outside of the message, whatever is in it.
use re_kernel_x.Base.{
  ℕ, ◌+◌, ◌-◌, ◌≤◌, ◌≡◌, refl, inl, inr, min, true, ◌||◌, not, List, [], ◌∷◌, ◌++◌, Option, some,
  ◌>>=◌, arith, ◌==◌, ltb, leb, take, drop, length, Bool-cases, Option-cases, ℤ, minus_one,
}
use re_kernel_x.Nla.{le32, nla_data, Table, get_s32}
use re_kernel_x.Nla.Bounds.{
  IsBytes, Within, AllWithin, get_elem?-in, le16-in, parse-AllWithin, parse_nested-AllWithin,
  get_s32-Within, nla_len-Within,
}
use re_kernel_x.Client.Events.{
  Call, c_string, copy_name, handle_binder_event, handle_signal_event, handle_network_event,
  when_there, handle_evt, handle_attrs, attr_max, rpc_name_len, headers_len, attrs_len, nlmsg_error,
  nlmsg_done, handle_event, binder, signal, network,
}

-- A computation that gives a value: no fault.
abbrev pub Ends {ℓ} : {A : Type ℓ} → Option A → Type ℓ
Ends {A = A} m = (a : A) × (m ≡ some a)

bind-Ends :
    {A B : Type 0} (m : Option A) (f : A → Option B)
    → Ends m
    → ((a : A) → Ends (f a))
    → Ends (m >>= f)
bind-Ends m f (a, e) k = let (b, r) = k a in (b, rw e r)

module _ (buf : List ℕ) (bytes : IsBytes buf) (lo hi : ℕ) (inside : hi ≤ length buf) where
  copy_name-Ends : (tb : Table) (k : ℕ) → AllWithin buf bytes lo hi tb → Ends (copy_name buf (tb k))
  unfolding copy_name
  copy_name-Ends tb k all = elim (Option-cases (tb k)) [
    | inl missing ↦ ([], rw missing refl)
    | inr (nla, e) ↦
        let w = all k nla e in
        let n : ℕ = min (w.size - 4) rpc_name_len in
        let fits : leb (nla_data nla + n) (length buf) ≡ true = ground (arith, w.below, w.header) in
        (
          c_string (take n (drop (nla_data nla) buf)),
          rw (e, nla_len-Within buf bytes lo hi inside nla w, fits) refl,
        )
  ]

  get :
      (tb : Table)
      → AllWithin buf bytes lo hi tb
      → (k : ℕ) (out : ℤ) → Ends (get_s32 buf (tb k) out)
  get tb all k out = get_s32-Within buf bytes lo hi inside tb k out all

  binder-Ends : (nla : ℕ) → Within buf bytes lo hi nla → Ends (handle_binder_event buf nla)
  unfolding handle_binder_event
  binder-Ends nla w =
      let (tb, e, all) = parse_nested-AllWithin buf bytes lo hi inside attr_max nla w in
      rw e (
        bind-Ends _ _ (get tb all 11 minus_one) λ a1. bind-Ends _ _ (get tb all 12 minus_one) λ a2.
          bind-Ends _ _ (get tb all 13 minus_one) λ a3.
            bind-Ends _ _ (get tb all 14 minus_one) λ a4.
              bind-Ends _ _ (get tb all 15 minus_one) λ a5.
                bind-Ends _ _ (get tb all 16 minus_one) λ a6.
                  bind-Ends _ _ (get tb all 17 minus_one) λ a7.
                    bind-Ends _ _ (copy_name-Ends tb 18 all)
                      λ name. (binder a1 a2 a4 a3 a6 a5 name a7, refl))

  signal-Ends : (nla : ℕ) → Within buf bytes lo hi nla → Ends (handle_signal_event buf nla)
  unfolding handle_signal_event
  signal-Ends nla w =
      let (tb, e, all) = parse_nested-AllWithin buf bytes lo hi inside attr_max nla w in
      rw e (
        bind-Ends _ _ (get tb all 21 minus_one) λ a1. bind-Ends _ _ (get tb all 23 minus_one) λ a2.
          bind-Ends _ _ (get tb all 22 minus_one) λ a3.
            bind-Ends _ _ (get tb all 25 minus_one)
              λ a4. bind-Ends _ _ (get tb all 24 minus_one) λ a5. (signal a1 a2 a3 a4 a5, refl))

  network-Ends : (nla : ℕ) → Within buf bytes lo hi nla → Ends (handle_network_event buf nla)
  unfolding handle_network_event
  network-Ends nla w =
      let (tb, e, all) = parse_nested-AllWithin buf bytes lo hi inside attr_max nla w in
      rw e (
        bind-Ends _ _ (get tb all 31 minus_one) λ a1.
          bind-Ends _ _ (get tb all 32 minus_one)
            λ a2. bind-Ends _ _ (get tb all 33 minus_one) λ a3. (network a1 a2 a3, refl))

  when_there-Ends :
      (tb : Table) (k : ℕ) (handler : ℕ → Option Call)
      → AllWithin buf bytes lo hi tb
      → ((nla : ℕ) → Within buf bytes lo hi nla → Ends (handler nla))
      → Ends (when_there (tb k) handler)
  when_there-Ends tb k handler all ends = elim (Option-cases (tb k)) [
    | inl missing ↦ ([], rw missing refl)
    | inr (nla, e) ↦ let (call, r) = ends nla (all k nla e) in (call ∷ [], rw (e, r) refl)
  ]

  handle_evt-Ends : (tb : Table) → AllWithin buf bytes lo hi tb → Ends (handle_evt buf (tb 1))
  unfolding handle_evt
  handle_evt-Ends tb all = elim (Option-cases (tb 1)) [
    | inl missing ↦ ([], rw missing refl)
    | inr (evt, p) ↦
        let (evt_tb, e, in_evt) =
          parse_nested-AllWithin buf bytes lo hi inside attr_max evt (all 1 evt p) in
        rw (p, e)
          (bind-Ends _ _ (when_there-Ends evt_tb 10 (handle_binder_event buf) in_evt binder-Ends)
            λ b.
              bind-Ends _ _ (when_there-Ends evt_tb 20 (handle_signal_event buf) in_evt signal-Ends)
                λ s.
                  bind-Ends _ _
                    (when_there-Ends evt_tb 30 (handle_network_event buf) in_evt network-Ends)
                    λ n. (b ++ (s ++ n), refl))
  ]

module _ (buf : List ℕ) (bytes : IsBytes buf) where
  handle_attrs-Ends : (head len : ℕ) → head + len ≤ length buf → Ends (handle_attrs buf head len)
  unfolding handle_attrs
  handle_attrs-Ends head len inside =
      let (tb, e, all) = parse-AllWithin buf bytes attr_max head len inside in
      rw e (handle_evt-Ends buf bytes head (head + len) inside tb all)

  -- Of a message that lies in a buffer of bytes with at least its header, as NLMSG_OK has it, the
  -- handler reads nothing outside of the buffer, whatever its type, its lengths and its attributes
  -- are, and however they are nested.
  pub handle_event-Ends :
      (family nlh len : ℕ)
      → le32 buf nlh ≡ some len
      → 16 ≤ len
      → nlh + len ≤ length buf
      → Ends (handle_event family buf nlh)
  unfolding handle_event
  handle_event-Ends family nlh len at header fits =
      let (type, t, bt) = le16-in buf bytes (nlh + 4) (omega arith) in
      elim (Bool-cases (type == nlmsg_error || type == nlmsg_done || not (type == family))) [
        | inl other_type ↦ ([], rw (t, other_type) refl)
        | inr ours ↦ elim (Bool-cases (ltb len headers_len)) [
          | inl short ↦ ([], rw (t, ours, at, short) refl)
          | inr long ↦
              let (cmd, c, bc) = get_elem?-in buf (nlh + 16) bytes (ground arith) in
              elim (Bool-cases (not (cmd == 1))) [
                | inl other_cmd ↦ ([], rw (t, ours, at, long, c, other_cmd) refl)
                | inr event ↦
                    let (calls, e) =
                      handle_attrs-Ends (nlh + headers_len) (attrs_len len) (ground arith) in
                    (calls, rw (t, ours, at, long, c, event) e)
              ]
        ]
      ]
