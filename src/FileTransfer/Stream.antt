-- ===== src/FileTransfer/Stream.antt =====
-- file_transfer.rs: the loop of `Decoder::feed` against a relation that says which messages stand
-- in a buffer.
use macvnc.Base.{
  ℕ, zero, suc, ◌+◌, ◌-◌, ◌<◌, ◌≤◌, ◌≡◌, ◌≢◌, refl, sym, ap, subst, ◌∙◌, List, [], ◌∷◌, ◌⊎◌, inl,
  inr, ◌++◌, append_assoc, append-nil, Bool, true, false, arith, length, drop, length-drop, get_or,
  u16_at, u32_at, Option, none, some, ok, is_ok, Bool-cases, ltb, leb, ◌==◌, ◌&&◌, ◌||◌,
}
use macvnc.FileTransfer.{Message, message_at, max_message_bytes, is_empty, Fed, feed_loop}

-- A buffer that begins with a whole message.
pub record HasMessage (rest : List ℕ) : Type 0 where
  pub tag : get_or rest 0 0 ≡ 0x22
  pub subtype : (get_or rest 1 0 ≡ 0) ⊎ (get_or rest 1 0 ≡ 2)
  pub at_least : 12 ≤ u32_at rest 2
  pub at_most : u32_at rest 2 ≤ max_message_bytes - 6
  pub whole : 6 + u32_at rest 2 ≤ length rest
  pub version : u16_at rest 6 ≡ 1

-- A buffer that begins with a part of a message: its first bytes, or an acceptable header with too
-- few bytes behind it.
pub record IsPart (rest : List ℕ) : Type 0 where
  pub tag : get_or rest 0 0 ≡ 0x22
  pub part :
      (length rest < 6)
      ⊎ (((get_or rest 1 0 ≡ 0) ⊎ (get_or rest 1 0 ≡ 2))
          × (12 ≤ u32_at rest 2)
          × (u32_at rest 2 ≤ max_message_bytes - 6)
          × (length rest < 6 + u32_at rest 2))

-- `Parsed rest messages other left`: from the front of `rest` come the messages, in order; then the
-- buffer is at its end, or other control data follow, or a part of a message, which is left.
pub data Parsed : List ℕ → List Message → Option (List ℕ) → List ℕ → Type 0 where
  at_end : Parsed [] [] none []
  control :
      {rest : List ℕ}
      → is_empty rest ≡ false
      → get_or rest 0 0 ≢ 0x22
      → Parsed rest [] (some rest) []
  partial : {rest : List ℕ} → IsPart rest → Parsed rest [] none rest
  next :
      {rest left : List ℕ} {messages : List Message} {other : Option (List ℕ)}
      → HasMessage rest
      → Parsed (drop (6 + u32_at rest 2) rest) messages other left
      → Parsed rest (message_at rest (u32_at rest 2) ∷ messages) other left

tag_present : (rest : List ℕ) → get_or rest 0 0 ≡ 0x22 → is_empty rest ≡ false
unfolding is_empty
tag_present [] e = absurd (omega arith)
tag_present (x ∷ rest) e = refl

module _ (fuel : ℕ) (rest : List ℕ) (acc : List Message) where
  round-nil : rest ≡ [] → feed_loop (suc fuel) rest acc ≡ ok (acc, none, [])
  unfolding feed_loop is_empty
  round-nil e = rw (e, feed_loop)

  round-control :
      is_empty rest ≡ false
      → get_or rest 0 0 ≢ 0x22
      → feed_loop (suc fuel) rest acc ≡ ok (acc, some rest, [])
  unfolding feed_loop
  round-control e h = ground arith

  round-part : IsPart rest → feed_loop (suc fuel) rest acc ≡ ok (acc, none, rest)
  unfolding feed_loop
  round-part p = ground (arith, tag_present rest p.tag)

  round-next :
      HasMessage rest
      → feed_loop (suc fuel) rest acc
        ≡ feed_loop fuel
            (drop (6 + u32_at rest 2) rest)
            (acc ++ (message_at rest (u32_at rest 2) ∷ []))
  unfolding feed_loop
  round-next m = ground (arith, tag_present rest m.tag)

-- A buffer on which the loop stops with an error.
abbrev IsBad : List ℕ → Type 0
IsBad rest = (fuel : ℕ) (acc : List Message) → is_ok (feed_loop (suc fuel) rest acc) ≡ false

abbrev Shape : List ℕ → Type 0
Shape rest =
    (rest ≡ [])
    ⊎ (((is_empty rest ≡ false) × (get_or rest 0 0 ≢ 0x22))
        ⊎ (IsPart rest ⊎ (HasMessage rest ⊎ IsBad rest)))

pub empty_lem : (rest : List ℕ) → is_empty rest ≡ true → rest ≡ []
unfolding is_empty
empty_lem [] e = refl
empty_lem (x ∷ rest) e = cc

subtype_ok : List ℕ → Bool
subtype_ok rest = get_or rest 1 0 == 0 || get_or rest 1 0 == 2

length_ok : List ℕ → Bool
length_ok rest = leb 12 (u32_at rest 2) && leb (u32_at rest 2) (max_message_bytes - 6)

-- The shape of a buffer that begins with the tag and has its length field.
tagged_shape :
    (rest : List ℕ)
    → get_or rest 0 0 ≡ 0x22
    → 6 ≤ length rest
    → IsPart rest ⊎ (HasMessage rest ⊎ IsBad rest)
unfolding subtype_ok length_ok feed_loop
tagged_shape rest t six = elim (Bool-cases (subtype_ok rest)) [
  | inr bad ↦ inr (inr (λ fuel acc. ground (arith, tag_present rest t)))
  | inl sub ↦ elim (Bool-cases (length_ok rest)) [
    | inr bad ↦ inr (inr (λ fuel acc. ground (arith, tag_present rest t)))
    | inl len ↦ elim (Bool-cases (ltb (length rest) (6 + u32_at rest 2))) [
      | inl short ↦ inl (record { tag = t; part = ground arith })
      | inr whole ↦ elim (Bool-cases (u16_at rest 6 == 1)) [
        | inr bad ↦ inr (inr (λ fuel acc. ground (arith, tag_present rest t)))
        | inl v ↦ inr (
            inl (record {
              tag = t;
              subtype = ground arith;
              at_least = ground arith;
              at_most = ground arith;
              whole = ground arith;
              version = ground arith;
            }))
      ]
    ]
  ]
]

shape : (rest : List ℕ) → Shape rest
shape rest = elim (Bool-cases (is_empty rest)) [
  | inl e ↦ inl (empty_lem rest e)
  | inr e ↦ elim (Bool-cases (get_or rest 0 0 == 0x22)) [
    | inr other ↦ inr (inl (e, ground arith))
    | inl tag ↦ elim (Bool-cases (ltb (length rest) 6)) [
      | inl short ↦ inr (inr (inl (record { tag = ground arith; part = ground arith })))
      | inr six ↦ inr (inr (tagged_shape rest (ground arith) (ground arith)))
    ]
  ]
]

-- The loop finds what the relation finds.
pub feed_loop_complete :
    (fuel : ℕ) {rest left : List ℕ} {messages : List Message} {other : Option (List ℕ)}
    → (acc : List Message) → length rest ≤ fuel
    → Parsed rest messages other left
    → feed_loop fuel rest acc ≡ ok (acc ++ messages, other, left)
unfolding feed_loop is_empty
feed_loop_complete zero acc h at_end = rw append-nil
feed_loop_complete zero {rest = []} acc h (control n t) = cc
feed_loop_complete zero {rest = x ∷ rest} acc h (control n t) = absurd (omega arith)
feed_loop_complete zero {rest = []} acc h (partial p) = absurd (omega (arith, p.tag))
feed_loop_complete zero {rest = x ∷ rest} acc h (partial p) = absurd (omega arith)
feed_loop_complete zero acc h (next m more) = absurd (omega (arith, m.whole))
feed_loop_complete (suc fuel) acc h at_end = rw append-nil
feed_loop_complete (suc fuel) {rest = rest} acc h (control n t) =
    round-control fuel rest acc n t ∙ rw append-nil
feed_loop_complete (suc fuel) {rest = rest} acc h (partial p) =
    round-part fuel rest acc p ∙ rw append-nil
feed_loop_complete (suc fuel) {rest = rest} acc h (next {messages = messages} m more) =
    let first = message_at rest (u32_at rest 2) in
    round-next fuel rest acc m
    ∙ feed_loop_complete fuel (acc ++ (first ∷ []))
        (omega (arith, length-drop (6 + u32_at rest 2) rest, m.whole)) more
    ∙ rw (append_assoc acc (first ∷ []) messages)

-- What a run that succeeds has found, from the accumulator `acc` on.
abbrev pub Found : List ℕ → List Message → Fed → Type 0
Found rest acc (all, other, left) =
    (messages : List Message) × (all ≡ acc ++ messages) × Parsed rest messages other left

Found-here :
    {rest : List ℕ} {acc : List Message} {other : Option (List ℕ)} {left : List ℕ} {fed : Fed}
    → Parsed rest [] other left
    → (acc, other, left) ≡ fed
    → Found rest acc fed
Found-here {rest} {acc} p e = subst (λ x. Found rest acc x) e ([], sym (append-nil acc), p)

Found-nil :
    {rest : List ℕ} {acc : List Message} {fed : Fed}
    → rest ≡ []
    → ok (acc, none, []) ≡ ok fed
    → Found rest acc fed
Found-nil {acc = acc} {fed} z e = rw z (Found-here at_end (cc))

pub feed_loop_sound :
    (fuel : ℕ) (rest : List ℕ) (acc : List Message) (fed : Fed)
    → length rest ≤ fuel
    → feed_loop fuel rest acc ≡ ok fed
    → Found rest acc fed
feed_loop_sound zero [] acc fed h e = unfold feed_loop in Found-here at_end (cc)
feed_loop_sound zero (x ∷ rest) acc fed h e = absurd (omega arith)
feed_loop_sound (suc fuel) rest acc fed h e = elim (shape rest) [
  | inl z ↦ Found-nil z (sym (round-nil fuel rest acc z) ∙ e)
  | inr (inl (n, t)) ↦ Found-here (control n t) (cc (round-control fuel rest acc n t, e))
  | inr (inr (inl p)) ↦ Found-here (partial p) (cc (round-part fuel rest acc p, e))
  | inr (inr (inr (inr bad))) ↦ cc (bad fuel acc, ap is_ok e)
  | inr (inr (inr (inl m))) ↦
      let first = message_at rest (u32_at rest 2) in
      let (messages, all, p) =
        feed_loop_sound fuel (drop (6 + u32_at rest 2) rest) (acc ++ (first ∷ [])) fed
          (omega (arith, length-drop (6 + u32_at rest 2) rest, m.whole))
          (sym (round-next fuel rest acc m) ∙ e) in
      (first ∷ messages, all ∙ append_assoc acc (first ∷ []) messages, next m p)
]
