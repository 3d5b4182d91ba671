-- ===== src/Srtp/Window.antt =====
-- srtp.rs: the replay window of one source against the set of the indexes that it has accepted.
use macvnc.Base.{
  ℕ, zero, suc, ◌+◌, ◌-◌, ◌*◌, ◌^◌, ◌<◌, ◌≤◌, ◌≡◌, ◌≢◌, refl, sym, ap, ◌∙◌, List, [], ◌∷◌, inl, inr,
  Bool, true, false, not, ◌&&◌, ◌||◌, arith, some, ltb, leb, ◌==◌, if◌then◌else◌, Bool-cases,
}
use macvnc.Base.Bits.{
  test_bit, bit_and-two_pow, test_bit-bit_or_self, test_bit-bit_or_ne, test_bit-shl,
  test_bit-shl_low, test_bit-mod, test_bit-zero,
}
use Prim.Native.Nat.{bit_and}
use macvnc.Srtp.{ReceiveState, replayed, move, mark}

pub member : ℕ → List ℕ → Bool
member i [] = false
member i (x ∷ xs) = i == x || member i xs

pub member-nil : (i : ℕ) → member i [] ≡ false
unfolding member
member-nil i = refl

abbrev pub digit : Bool → ℕ
digit b = if b then 1 else 0

-- The window shows the indexes of `h`: none is above `highest`, and bit `a` of `seen` says whether
-- `highest - a` is among them.
pub record Tracks (s : ReceiveState) (h : List ℕ) : Type 0 where
  pub below : (i : ℕ) → member i h ≡ true → i ≤ s.highest
  pub bits : (i a : ℕ) → i + a ≡ s.highest → a < 128 → test_bit a s.seen ≡ digit (member i h)

-- What an ideal receiver refuses: an index that it has accepted, or one 128 or more behind the
-- highest.
abbrev pub refused : ReceiveState → List ℕ → ℕ → Bool
refused s h i = leb i s.highest && (leb 128 (s.highest - i) || member i h)

two-pow-pos : (k : ℕ) → 0 < 2 ^ k
two-pow-pos zero = omega arith
two-pow-pos (suc k) = omega (arith, two-pow-pos k)

mask_test : (x k : ℕ) (b : Bool) → test_bit k x ≡ digit b → not (bit_and x (2 ^ k) == 0) ≡ b
mask_test x k b e =
    let same : bit_and x (2 ^ k) ≡ digit b * 2 ^ k =
      bit_and-two_pow k x ∙ ap (λ (t : ℕ). t * 2 ^ k) e in
    rw same (bit b)
  where
    bit : (b : Bool) → not (digit b * 2 ^ k == 0) ≡ b
    bit true = ground (arith, two-pow-pos k)
    bit false = ground arith

-- In every state that shows the accepted indexes, the test on the 128-bit window is the ideal one.
pub replayed-refused :
    (s : ReceiveState) (h : List ℕ) (i : ℕ) → Tracks s h → replayed (some s) i ≡ refused s h i
unfolding replayed
replayed-refused s h i t = elim (Bool-cases (leb i s.highest && not (leb 128 (s.highest - i)))) [
  | inl e ↦
      let same =
        mask_test s.seen (s.highest - i) (member i h)
          (t.bits i (s.highest - i) (ground arith) (ground arith)) in
      rw same refl
  | inr e ↦ ground arith
]

fresh-Tracks : (i : ℕ) → Tracks (record { highest = i; seen = 0 }) []
unfolding member
fresh-Tracks i = record { below = λ j e. ground arith; bits = λ j a e k. test_bit-zero a }

-- A move of the window keeps what it shows.
move-Tracks : (s : ReceiveState) (h : List ℕ) (i : ℕ) → Tracks s h → Tracks (move s i) h
unfolding move
move-Tracks s h i t = elim (Bool-cases (ltb s.highest i)) [
  | inr old ↦ rw old t
  | inl new ↦ rw new (record {
    below = λ j e. omega (arith, t.below j e, later new);
    bits = λ j a e k. elim (Bool-cases (leb 128 (i - s.highest))) [
      | inl far ↦ rw far (test_bit-zero a ∙ sym (none_above j (ground arith)))
      | inr near ↦ rw near (test_bit-mod a 128 _ k ∙ shifted j a e k (later new))
    ];
  })
]
  where
    later : ltb s.highest i ≡ true → s.highest < i
    later e = ground arith

    none_above : (j : ℕ) → s.highest < j → digit (member j h) ≡ 0
    none_above j k = elim (Bool-cases (member j h)) [
      | inr e ↦ rw e refl
      | inl e ↦ omega (arith, t.below j e)
    ]

    shifted :
        (j a : ℕ)
        → j + a ≡ i
        → a < 128
        → s.highest < i
        → test_bit a (s.seen * 2 ^ (i - s.highest)) ≡ digit (member j h)
    shifted j a e k n = elim (Bool-cases (leb j s.highest)) [
      | inl l ↦
          test_bit-shl (i - s.highest) a (s.highest - j) s.seen (ground arith)
          ∙ t.bits j (s.highest - j) (ground arith) (ground arith)
      | inr l ↦
          test_bit-shl_low a (i - s.highest) s.seen (ground arith)
          ∙ sym (none_above j (ground arith))
    ]

move-le : (s : ReceiveState) (i : ℕ) → i ≤ (move s i).highest
unfolding move
move-le s i = ground arith

member-ne : (j i : ℕ) (h : List ℕ) → j ≢ i → member j (i ∷ h) ≡ member j h
unfolding member
member-ne j i h n = ground (arith, n)

member_self : (j i : ℕ) (h : List ℕ) → j ≡ i → member j (i ∷ h) ≡ true
unfolding member
member_self j i h e = ground arith

-- After an index is entered, the window shows that index and the earlier ones.
pub mark-Tracks : (s : ReceiveState) (h : List ℕ) (i : ℕ) → Tracks s h → Tracks (mark s i) (i ∷ h)
unfolding mark
mark-Tracks s h i t =
    let m = move s i in
    let u = move-Tracks s h i t in
    record {
      below = λ j e. elim (Bool-cases (j == i)) [
        | inl same ↦ ground (arith, move-le s i)
        | inr other ↦ u.below j (sym (member-ne j i h (λ q. ground arith)) ∙ e)
      ];
      bits = λ j a e k. elim (Bool-cases (j == i)) [
        | inl same ↦
            let at : m.highest - i ≡ a = ground arith in
            rw (at, member_self j i h (ground arith)) (test_bit-bit_or_self a m.seen)
        | inr other ↦ rw (member-ne j i h (λ q. ground arith)) (
            test_bit-bit_or_ne a (m.highest - i) m.seen (λ q. ground (arith, move-le s i))
            ∙ u.bits j a e k)
      ];
    }

pub first-Tracks : (i : ℕ) → Tracks (mark (record { highest = i; seen = 0 }) i) (i ∷ [])
first-Tracks i = mark-Tracks (record { highest = i; seen = 0 }) [] i (fresh-Tracks i)
