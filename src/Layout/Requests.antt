-- ===== src/Layout/Requests.antt =====
-- lib.rs: the requests that `LayoutRecovery` lets through over any sequence of calls.
use macvnc.Base.{
  ℕ, ◌+◌, ◌≤◌, ◌≡◌, refl, ap, subst, ◌∙◌, inl, inr, ◌⊎◌, List, [], ◌∷◌, true, false, not, arith,
  Option, none, some, if◌then◌else◌, Bool-cases, Option-cases,
}
use macvnc.Layout.{Dimensions, LayoutRecovery, same_dimensions, observe, too_soon, take_due}

-- What the connection does with the recovery: the layout that the Mac announces, the layout that the
-- media stream is configured with (`recovery.current = Some(..)`), and the question whether to send.
pub data Call : Type 0 where
  announced : Dimensions → Call
  configured : Dimensions → Call
  asked : ℕ → Call

-- The times of the requests that are sent.
pub sent : LayoutRecovery → List Call → List ℕ
sent l [] = []
sent l (asked now ∷ calls) =
    let (due, l') = take_due l now in
    let later = sent l' calls in if due then now ∷ later else later
sent l (announced d ∷ calls) = sent (observe l d) calls
sent l (configured d ∷ calls) = sent (record l { current = some d }) calls

-- Each time is two seconds or more behind the one before it.
pub IsSpaced : Option ℕ → List ℕ → Type 0
IsSpaced last [] = Unit
IsSpaced none (t ∷ times) = IsSpaced (some t) times
IsSpaced (some last) (t ∷ times) = (last + 2000 ≤ t) × IsSpaced (some t) times

IsSpaced-cons :
    (last : Option ℕ) (t : ℕ) (times : List ℕ)
    → too_soon last t ≡ false
    → IsSpaced (some t) times
    → IsSpaced last (t ∷ times)
unfolding too_soon IsSpaced
IsSpaced-cons none t times e v = v
IsSpaced-cons (some last) t times e v = (ground arith, v)

observe-last : (l : LayoutRecovery) (d : Dimensions) → (observe l d).last_sent ≡ l.last_sent
unfolding observe
observe-last l d = elim (Option-cases l.current) [ inl e ↦ rw e refl | inr (c, e) ↦ rw e refl ]

-- A question is answered by no and changes nothing, or the answer is yes, after a layout that is not
-- yet asked for, which becomes the current one.
take_due_cases :
    (l : LayoutRecovery) (now : ℕ)
    → (take_due l now ≡ (false, l))
      ⊎ ((d : Dimensions) × (l.pending ≡ some d)
          × (too_soon l.last_sent now ≡ false)
          × (take_due l now
              ≡ (true, record { current = some d; pending = none; last_sent = some now })))
unfolding take_due
take_due_cases l now = elim (Option-cases l.pending) [
  | inl e ↦ inl (ground (arith, e))
  | inr (d, e) ↦ elim (Bool-cases (too_soon l.last_sent now)) [
    | inl soon ↦ inl (ground (arith, e, soon))
    | inr late ↦ inr (d, e, late, ground (arith, e, late))
  ]
]

sent-no :
    (l : LayoutRecovery) (now : ℕ) (calls : List Call)
    → take_due l now ≡ (false, l)
    → sent l (asked now ∷ calls) ≡ sent l calls
unfolding sent
sent-no l now calls e = ground (arith, e)

sent-yes :
    (l l' : LayoutRecovery) (now : ℕ) (calls : List Call)
    → take_due l now ≡ (true, l')
    → sent l (asked now ∷ calls) ≡ now ∷ sent l' calls
unfolding sent
sent-yes l l' now calls e = ground (arith, e)

-- Over any sequence of calls, at any times, the first request follows the last one before the
-- sequence, and every further request the one before it, by two seconds or more.
pub sent-IsSpaced : (calls : List Call) (l : LayoutRecovery) → IsSpaced l.last_sent (sent l calls)
unfolding IsSpaced sent
sent-IsSpaced [] l = tt
sent-IsSpaced (announced d ∷ calls) l =
    subst (λ t. IsSpaced t (sent (observe l d) calls)) (observe-last l d)
      (sent-IsSpaced calls (observe l d))
sent-IsSpaced (configured d ∷ calls) l = sent-IsSpaced calls (record l { current = some d })
sent-IsSpaced (asked now ∷ calls) l = elim (take_due_cases l now) [
  | inl kept ↦ rw (sent-no l now calls kept) (sent-IsSpaced calls l)
  | inr (d, e, late, due) ↦
      let l' : LayoutRecovery = record { current = some d; pending = none; last_sent = some now } in
      rw (sent-yes l l' now calls due)
        (IsSpaced-cons l.last_sent now (sent l' calls) late (sent-IsSpaced calls l'))
]

-- Announcements, and questions.
abbrev pub announcements : List Dimensions → List Call → List Call
announcements [] calls = calls
announcements (d ∷ ds) calls = announced d ∷ announcements ds calls

abbrev pub questions : List ℕ → List Call
questions [] = []
questions (t ∷ times) = asked t ∷ questions times

take_due-none : (l : LayoutRecovery) (now : ℕ) → l.pending ≡ none → take_due l now ≡ (false, l)
unfolding take_due
take_due-none l now e = rw e refl

sent-questions :
    (l : LayoutRecovery) (times : List ℕ) → l.pending ≡ none → sent l (questions times) ≡ []
unfolding sent
sent-questions l [] e = refl
sent-questions l (t ∷ times) e =
    sent-no l t (questions times) (take_due-none l t e) ∙ sent-questions l times e

observe-current : (l : LayoutRecovery) (d : Dimensions) → (observe l d).current ≡ l.current
unfolding observe
observe-current l d = elim (Option-cases l.current) [ inl e ↦ rw e refl | inr (c, e) ↦ rw e refl ]

observe-pending :
    (l : LayoutRecovery) (c d : Dimensions)
    → l.current ≡ some c
    → (observe l d).pending ≡ (if not (same_dimensions c d) then some d else none)
unfolding observe
observe-pending l c d e = rw e refl

take_due-late :
    (l : LayoutRecovery) (now : ℕ) (d : Dimensions)
    → l.pending ≡ some d
    → too_soon l.last_sent now ≡ false
    → take_due l now ≡ (true, record { current = some d; pending = none; last_sent = some now })
unfolding take_due
take_due-late l now d e f = rw (e, f) refl

-- However many layouts are announced in a row, the last one alone counts: where it is the current
-- one, no request is sent, and otherwise one request is, at the first question, which is not too soon
-- after the request before; the further questions send nothing until another layout is announced.
pub sent-coalesced :
    (ds : List Dimensions) (l : LayoutRecovery) (c d : Dimensions) (now : ℕ) (times : List ℕ)
    → l.current ≡ some c
    → too_soon l.last_sent now ≡ false
    → sent l (announcements ds (announced d ∷ questions (now ∷ times)))
      ≡ (if same_dimensions c d then [] else now ∷ [])
unfolding sent
sent-coalesced (first ∷ ds) l c d now times e f =
    sent-coalesced ds (observe l first) c d now times (observe-current l first ∙ e)
      (ap (λ x. too_soon x now) (observe-last l first) ∙ f)
sent-coalesced [] l c d now times e f =
    let o = observe l d in
    let wanted = observe-pending l c d e in
    elim (Bool-cases (same_dimensions c d)) [
      | inl same ↦
          let nothing : o.pending ≡ none = wanted ∙ rw same refl in
          rw same (sent-questions o (now ∷ times) nothing)
      | inr other ↦
          let open_one : o.pending ≡ some d = wanted ∙ rw other refl in
          let soon = ap (λ x. too_soon x now) (observe-last l d) ∙ f in
          let l' : LayoutRecovery = record {
            current = some d;
            pending = none;
            last_sent = some now;
          } in
          rw other (
            sent-yes o l' now (questions times) (take_due-late o now d open_one soon)
            ∙ ap (λ x. now ∷ x) (sent-questions l' times refl))
    ]
