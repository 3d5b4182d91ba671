-- ===== src/Srtp/Once.antt =====
-- srtp.rs: over any sequence of datagrams, no index of a source is accepted twice.
use macvnc.Base.{
  ℕ, ◌-◌, ◌^◌, ◌≤◌, ◌≡◌, refl, sym, ap, subst, ◌∙◌, List, [], ◌∷◌, inl, inr, true, false, arith,
  Option, none, some, ltb, Bool-cases, Option-cases, length, take, drop,
}
use macvnc.Srtp.{
  Crypto, Keys, ReceiveState, SrtpReceiver, RtpPacket, get, replayed, track, guess_roc, tag, opened,
  is_media, ssrc_of, seq_of, index_of, packet_of, accept, unprotect,
}
use macvnc.Srtp.Window.{member, member-nil, refused, replayed-refused}
use macvnc.Srtp.Replay.{History, of_source, Shows, track-Shows, Shows-nil}

-- The roll-over counter and the index that the receiver gives to a datagram.
abbrev pub guess_of : SrtpReceiver → List ℕ → ℕ
guess_of r p = guess_roc (get (ssrc_of p) r.states) (seq_of p)

abbrev pub received_index : SrtpReceiver → List ℕ → ℕ
received_index r p = index_of (guess_of r p) p

-- The pairs of a history are different from each other.
pub IsDistinct : History → Type 0
IsDistinct [] = Unit
IsDistinct ((ssrc, i) ∷ h) = (member i (of_source ssrc h) ≡ false) × IsDistinct h

-- An index that the window does not refuse has not been accepted.
fresh_index :
    (states : List (ℕ × ReceiveState)) (h : History) (ssrc i : ℕ)
    → Shows states h
    → replayed (get ssrc states) i ≡ false
    → member i (of_source ssrc h) ≡ false
fresh_index states h ssrc i v e = elim (Option-cases (get ssrc states)) [
  | inl q ↦ rw (v.unknown ssrc q) (member-nil i)
  | inr (s, q) ↦
      let past = of_source ssrc h in
      let t = v.known ssrc s q in
      let open_window : refused s past i ≡ false =
        sym (replayed-refused s past i t) ∙ sym (ap (λ x. replayed x i) q) ∙ e in
      elim (Bool-cases (member i past)) [
        | inr new ↦ new
        | inl old ↦ ground (arith, open_window, t.below i old, old)
      ]
]

module _ (c : Crypto) where
  -- What `unprotect` may do: ignore the datagram, or accept it. It accepts only a datagram of the
  -- right form whose tag is right, and enters an index that is not in the history.
  pub data Step (r : SrtpReceiver) (p : List ℕ) (h : History)
      : Option RtpPacket × SrtpReceiver → Type 0 where
    ignored : Step r p h (none, r)
    taken :
        (payload : List ℕ) (states : List (ℕ × ReceiveState))
        → is_media p ≡ true
        → opened c r.keys p (guess_of r p) ≡ some payload
        → member (received_index r p) (of_source (ssrc_of p) h) ≡ false
        → Shows states ((ssrc_of p, received_index r p) ∷ h)
        → Step r p h (some (packet_of p payload), record r { states = states })

  reached :
      {r : SrtpReceiver} {p : List ℕ} {h : History} {a b : Option RtpPacket × SrtpReceiver}
      → a ≡ b
      → Step r p h b
      → Step r p h a
  reached {r} {p} {h} e s = subst (Step r p h) (sym e) s

  accept-Step :
      (r : SrtpReceiver) (p : List ℕ) (h : History)
      → Shows r.states h
      → is_media p ≡ true
      → Step r p h (accept c r p (guess_of r p))
  unfolding accept
  accept-Step r p h v m =
      let guess = guess_of r p in
      let i = received_index r p in
      elim (Bool-cases (ltb (2 ^ 32 - 1) guess)) [
        | inl far ↦ reached (rw far refl) ignored
        | inr near ↦ elim (Bool-cases (replayed (get (ssrc_of p) r.states) i)) [
          | inl again ↦ reached (rw (near, again) refl) ignored
          | inr fresh ↦ elim (Option-cases (opened c r.keys p guess)) [
            | inl bad ↦ reached (rw (near, fresh, bad) refl) ignored
            | inr (payload, good) ↦ elim (Option-cases (track r.states (ssrc_of p) i)) [
              | inl full ↦ reached (rw (near, fresh, good, full) refl) ignored
              | inr (states, room) ↦ reached (rw (near, fresh, good, room) refl) (
                  taken payload states m good (fresh_index r.states h (ssrc_of p) i v fresh)
                    (track-Shows r.states states h (ssrc_of p) i v room))
            ]
          ]
        ]
      ]

  pub unprotect-Step :
      (r : SrtpReceiver) (p : List ℕ) (h : History)
      → Shows r.states h
      → Step r p h (unprotect c r p)
  unfolding unprotect
  unprotect-Step r p h v = elim (Bool-cases (is_media p)) [
    | inr other ↦ reached (rw other refl) ignored
    | inl m ↦ reached (rw m refl) (accept-Step r p h v m)
  ]

  -- The datagrams given to the receiver one after the other; the history has what it accepts.
  pub run : SrtpReceiver → History → List (List ℕ) → SrtpReceiver × History
  run r h [] = (r, h)
  run r h (p ∷ packets) =
      let (result, r') = unprotect c r p in
      elim result [
        | none ↦ run r' h packets
        | some packet ↦ run r' ((ssrc_of p, received_index r p) ∷ h) packets
      ]

  run-ignored :
      (r r' : SrtpReceiver) (h : History) (p : List ℕ) (packets : List (List ℕ))
      → unprotect c r p ≡ (none, r')
      → run r h (p ∷ packets) ≡ run r' h packets
  unfolding run
  run-ignored r r' h p packets e = ground (arith, e)

  run-taken :
      (r r' : SrtpReceiver) (h : History) (p : List ℕ) (packets : List (List ℕ))
      (packet : RtpPacket)
      → unprotect c r p ≡ (some packet, r')
      → run r h (p ∷ packets) ≡ run r' ((ssrc_of p, received_index r p) ∷ h) packets
  unfolding run
  run-taken r r' h p packets packet e = ground (arith, e)

  run-IsDistinct :
      (r : SrtpReceiver) (h : History) (packets : List (List ℕ))
      → Shows r.states h
      → IsDistinct h
      → let (r', h') = run r h packets in Shows r'.states h' × IsDistinct h'
  unfolding run
  run-IsDistinct r h [] v d = (v, d)
  run-IsDistinct r h (p ∷ packets) v d =
      onward (unprotect c r p) refl (unprotect-Step r p h v)
        (λ r' h' v' d'. run-IsDistinct r' h' packets v' d')
    where
      Kept : SrtpReceiver × History → Type 0
      Kept out = Shows out.0.states out.1 × IsDistinct out.1

      onward :
          (out : Option RtpPacket × SrtpReceiver)
          → unprotect c r p ≡ out
          → Step r p h out
          → ((r' : SrtpReceiver) (h' : History)
              → Shows r'.states h'
              → IsDistinct h'
              → Kept (run r' h' packets))
          → Kept (run r h (p ∷ packets))
      onward _ e ignored k = rw (run-ignored r r h p packets e) (k r h v d)
      onward _ e (taken payload states m good new shown) k =
          let r' : SrtpReceiver = record r { states = states } in
          rw (run-taken r r' h p packets (packet_of p payload) e)
            (k r' ((ssrc_of p, received_index r p) ∷ h) shown (unfold IsDistinct in (new, d)))

  -- From a new receiver, after any sequence of datagrams: no two accepted ones have the same source
  -- and the same index, the entries of the table show exactly the accepted indexes of each source,
  -- and there are at most 32 entries.
  pub unprotect_once :
      (keys : Keys) (packets : List (List ℕ))
      → let (r', h') = run (record { keys = keys; states = [] }) [] packets in
        IsDistinct h' × Shows r'.states h' × (length r'.states ≤ 32)
  unprotect_once keys packets =
      let (v, d) =
        run-IsDistinct (record { keys = keys; states = [] }) [] packets Shows-nil
          (unfold IsDistinct in tt) in
      (d, v, v.bounded)

  opened-tag :
      (keys : Keys) (p : List ℕ) (guess : ℕ) {payload : List ℕ}
      → opened c keys p guess ≡ some payload
      → c.ct_eq (tag c keys (take (length p - 10) p) guess) (drop (length p - 10) p) ≡ true
  unfolding opened
  opened-tag keys p guess e = ground (arith, e)

  -- A receiver whose table shows its history and that accepts a datagram has found its tag right under
  -- the receiver's keys and the guessed roll-over counter, and its index not among the accepted ones
  -- of its source; it keeps its keys, and its table then shows the history with that index.
  pub unprotect_accepted :
      (r r' : SrtpReceiver) (p : List ℕ) (h : History) (packet : RtpPacket)
      → Shows r.states h
      → unprotect c r p ≡ (some packet, r')
      → (c.ct_eq (tag c r.keys (take (length p - 10) p) (guess_of r p)) (drop (length p - 10) p)
          ≡ true)
        × (member (received_index r p) (of_source (ssrc_of p) h) ≡ false)
        × (r'.keys ≡ r.keys)
        × Shows r'.states ((ssrc_of p, received_index r p) ∷ h)
  unprotect_accepted r r' p h packet v e = conclude (unprotect c r p) e (unprotect-Step r p h v)
    where
      conclude :
          (result : Option RtpPacket × SrtpReceiver)
          → result ≡ (some packet, r')
          → Step r p h result
          → (c.ct_eq (tag c r.keys (take (length p - 10) p) (guess_of r p)) (drop (length p - 10) p)
              ≡ true)
            × (member (received_index r p) (of_source (ssrc_of p) h) ≡ false)
            × (r'.keys ≡ r.keys)
            × Shows r'.states ((ssrc_of p, received_index r p) ∷ h)
      conclude _ q ignored = cc q
      conclude _ q (taken payload states m good new shown) =
          let next : r' ≡ record r { states = states } = cc q in
          (
            opened-tag r.keys p (guess_of r p) good,
            new,
            ap (λ (x : SrtpReceiver). x.keys) next,
            subst (λ (x : SrtpReceiver). Shows x.states ((ssrc_of p, received_index r p) ∷ h))
                (sym next) shown,
          )
