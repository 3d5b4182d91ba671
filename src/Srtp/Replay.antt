-- ===== src/Srtp/Replay.antt =====
-- srtp.rs: what a receiver accepts over any sequence of datagrams.
use macvnc.Base.{
  ℕ, ◌<◌, ◌≤◌, ◌≡◌, ◌≢◌, refl, sym, ap, ◌∙◌, List, [], ◌∷◌, inl, inr, arith, none, some, ◌==◌,
  if◌then◌else◌, Bool-cases, Option-cases, length,
}
use macvnc.Srtp.{ReceiveState, get, put, mark, track}
use macvnc.Srtp.Window.{Tracks, mark-Tracks, first-Tracks}

-- The accepted pairs of a source and an index, the last one first.
abbrev pub History : Type 0
History = List (ℕ × ℕ)

pub of_source : ℕ → History → List ℕ
of_source ssrc [] = []
of_source ssrc ((key, i) ∷ h) = if key == ssrc then i ∷ of_source ssrc h else of_source ssrc h

-- Each entry of the table shows the accepted indexes of its source, and a source without an entry
-- has none.
pub record Shows (states : List (ℕ × ReceiveState)) (h : History) : Type 0 where
  pub known : (ssrc : ℕ) (s : ReceiveState) → get ssrc states ≡ some s → Tracks s (of_source ssrc h)
  pub unknown : (ssrc : ℕ) → get ssrc states ≡ none → of_source ssrc h ≡ []
  pub bounded : length states ≤ 32

of_source-same :
    (key ssrc i : ℕ) (h : History)
    → key ≡ ssrc
    → of_source ssrc ((key, i) ∷ h) ≡ i ∷ of_source ssrc h
unfolding of_source
of_source-same key ssrc i h e = ground arith

of_source-other :
    (key ssrc i : ℕ) (h : History) → key ≢ ssrc → of_source ssrc ((key, i) ∷ h) ≡ of_source ssrc h
unfolding of_source
of_source-other key ssrc i h n = ground (arith, n)

length-put :
    (k : ℕ) (s : ReceiveState) (states : List (ℕ × ReceiveState))
    → length (put k s states) ≡ length states
unfolding put
length-put k s [] = refl
length-put k s ((key, old) ∷ states) = ground (arith, length-put k s states)

pub get-put_self :
    (k : ℕ) (s old : ReceiveState) (states : List (ℕ × ReceiveState))
    → get k states ≡ some old
    → get k (put k s states) ≡ some s
unfolding get put
get-put_self k s old [] e = cc
get-put_self k s old ((key, x) ∷ states) e = elim (Bool-cases (key == k)) [
  | inl same ↦ rw (same, same) refl
  | inr other ↦ rw (other, other) (get-put_self k s old states (sym (rw other refl) ∙ e))
]

get-put_other :
    (k ssrc : ℕ) (s : ReceiveState) (states : List (ℕ × ReceiveState))
    → k ≢ ssrc
    → get ssrc (put k s states) ≡ get ssrc states
unfolding get put
get-put_other k ssrc s [] n = refl
get-put_other k ssrc s ((key, x) ∷ states) n = ground (arith, n, get-put_other k ssrc s states n)

pub get-first :
    (k : ℕ) (s : ReceiveState) (states : List (ℕ × ReceiveState)) → get k ((k, s) ∷ states) ≡ some s
unfolding get
get-first k s states = ground arith

get-behind :
    (k ssrc : ℕ) (s : ReceiveState) (states : List (ℕ × ReceiveState))
    → k ≢ ssrc
    → get ssrc ((k, s) ∷ states) ≡ get ssrc states
unfolding get
get-behind k ssrc s states n = ground (arith, n)

-- A table in which only the entry of `k` has changed, by the index `i`.
update-Shows :
    (states states' : List (ℕ × ReceiveState)) (h : History) (k i : ℕ) (s : ReceiveState)
    → Shows states h
    → get k states' ≡ some s
    → Tracks s (i ∷ of_source k h)
    → ((ssrc : ℕ) → k ≢ ssrc → get ssrc states' ≡ get ssrc states)
    → length states' ≤ 32
    → Shows states' ((k, i) ∷ h)
update-Shows states states' h k i s v e t same room = record {
  known = λ ssrc u q. elim (Bool-cases (k == ssrc)) [
    | inl eq ↦
        let k_is : k ≡ ssrc = ground arith in
        let u_is : some u ≡ some s = sym q ∙ sym (ap (λ x. get x states') k_is) ∙ e in
        let u_same : u ≡ s = cc u_is in rw (of_source-same k ssrc i h k_is, u_same, ← k_is) t
    | inr ne ↦
        let differ : k ≢ ssrc = λ z. ground arith in
        rw (of_source-other k ssrc i h differ) (v.known ssrc u (sym (same ssrc differ) ∙ q))
  ];
  unknown = λ ssrc q. elim (Bool-cases (k == ssrc)) [
    | inl eq ↦
        let k_is : k ≡ ssrc = ground arith in
        let clash : none ≡ some s = sym q ∙ sym (ap (λ x. get x states') k_is) ∙ e in cc clash
    | inr ne ↦
        let differ : k ≢ ssrc = λ z. ground arith in
        of_source-other k ssrc i h differ ∙ v.unknown ssrc (sym (same ssrc differ) ∙ q)
  ];
  bounded = room;
}

pub track-Shows :
    (states states' : List (ℕ × ReceiveState)) (h : History) (k i : ℕ)
    → Shows states h
    → track states k i ≡ some states'
    → Shows states' ((k, i) ∷ h)
unfolding track
track-Shows states states' h k i v e = elim (Option-cases (get k states)) [
  | inr (s, q) ↦
      let s' = mark s i in
      let is : states' ≡ put k s' states = ground (arith, q, e) in
      rw is (
        update-Shows states (put k s' states) h k i s' v (get-put_self k s' s states q)
          (mark-Tracks s (of_source k h) i (v.known k s q))
          (λ ssrc n. get-put_other k ssrc s' states n) (rw (length-put k s' states) v.bounded))
  | inl q ↦
      let s' = mark (record { highest = i; seen = 0 }) i in
      let is : states' ≡ (k, s') ∷ states = ground (arith, q, e) in
      let room : length states < 32 = ground (arith, q, e) in
      rw is (
        update-Shows states ((k, s') ∷ states) h k i s' v (get-first k s' states)
          (rw (v.unknown k q) (first-Tracks i)) (λ ssrc n. get-behind k ssrc s' states n)
          (omega (arith, room)))
]

pub Shows-nil : Shows [] []
Shows-nil = record {
  known = λ ssrc s e. unfold get in cc;
  unknown = λ ssrc e. unfold of_source in refl;
  bounded = omega arith;
}
