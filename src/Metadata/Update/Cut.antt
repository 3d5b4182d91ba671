-- ===== src/Metadata/Update/Cut.antt =====
-- metadata.rs: `scan_update` on updates of which the end is missing.
use macvnc.Base.{
  ℕ, ◌∙◌, zero, suc, ◌+◌, ◌-◌, ◌^◌, ◌<◌, ◌≡◌, refl, ap, inl, inr, ◌⊎◌, List, [], ◌∷◌, true, false,
  arith, Option, none, some, Bool-cases, ltb, leb, ◌==◌, length, take, drop, All, length-append,
  length-take, take-append_le, take-append_ge, u32_at, be32, ◌++◌, from_be16-be16, from_be32-be32,
}
use macvnc.Metadata.{last_rect, rect_size, scan_rects, scan_update, complete_update, display_layout}
use macvnc.Metadata.Update.{
  Content, sized, tall, cursor, resize, Rect, encoding, body_of, put_rect, IsContent,
  content-header, sized_lem, tall_size, scan-put_rect, layout_after, put_rects, put_update, IsRect,
  End, by_count, by_last, more, put_end, scan-put_rects, final_layout,
}

-- A round that ends on a header, or on a payload, that is cut short.
scan-short :
    (n : ℕ) (rest : List ℕ) (layout : Option (ℕ × ℕ))
    → ltb (length rest) 12 ≡ true
    → (scan_rects (suc n) rest layout).0 ≡ false
unfolding scan_rects
scan-short n rest layout e = ground (arith, e)

scan-part :
    (n enc size : ℕ) (rest : List ℕ) (layout : Option (ℕ × ℕ))
    → u32_at rest 8 ≡ enc
    → (enc == last_rect) ≡ false
    → (rect_size enc (drop 12 rest) ≡ none)
      ⊎ ((rect_size enc (drop 12 rest) ≡ some size) × (ltb (length (drop 12 rest)) size ≡ true))
    → (scan_rects (suc n) rest layout).0 ≡ false
unfolding scan_rects
scan-part n enc size rest layout b c d = ground (arith, b, c, d)

-- Without its first eight bytes, the size of a rectangle of encoding 0x450 is not known.
tall_short :
    (front : ℕ) (payload : List ℕ) (j : ℕ)
    → j < 8
    → rect_size 0x450 (take j (be32 front ++ (be32 (length payload) ++ payload))) ≡ none
unfolding rect_size
tall_short front payload j h =
    let body = be32 front ++ (be32 (length payload) ++ payload) in
    let few : leb 8 (length (take j body)) ≡ false = ground (arith, length-take j body) in
    rw few refl

abbrev eight : ℕ → ℕ
eight n = suc (suc (suc (suc (suc (suc (suc (suc n)))))))

content-part :
    (content : Content) (j : ℕ)
    → IsContent content
    → j < length (body_of content)
    → (rect_size (encoding content) (take j (body_of content)) ≡ none)
      ⊎ ((rect_size (encoding content) (take j (body_of content)) ≡ some (length (body_of content)))
          × (ltb (length (take j (body_of content))) (length (body_of content)) ≡ true))
unfolding rect_size
content-part (sized enc payload) zero (s, l, k) h = inl (ground (arith, sized_lem enc s))
content-part (sized enc payload) (suc zero) (s, l, k) h = inl (ground (arith, sized_lem enc s))
content-part (sized enc payload) (suc (suc j)) (known, l, k) h =
    let s = sized_lem enc known in
    let size = from_be16-be16 (length payload) l in
    let not_cursor : (enc == 1103) ≡ false = ground (arith, s) in
    let not_tall : (enc == 0x450) ≡ false = ground (arith, s) in
    let room : leb 2 (suc (suc (length (take j payload)))) ≡ true = ground arith in
    let sum : 2 + length payload ≡ suc (suc (length payload)) = omega arith in
    inr (rw (not_cursor, not_tall, s, room, size, sum) refl, ground (arith, length-take j payload))
content-part (tall front payload) j v h = elim (Bool-cases (ltb j 8)) [
  | inl short ↦ inl (tall_short front payload j (ground arith))
  | inr long ↦
      let at : j ≡ eight (j - 8) = ground arith in
      inr (
        rw at (
            tall_size (take (eight (j - 8)) (body_of (tall front payload))) (length payload)
              (omega arith) (from_be32-be32 (length payload) v)
            ∙ ap some (omega arith)),
        ground (arith, length-take j (be32 front ++ (be32 (length payload) ++ payload))),
      )
]
content-part (cursor bytes) j v h =
    inr (ap some (omega (arith, v)), ground (arith, length-take j bytes))
content-part resize j v h = absurd (omega arith)

abbrev twelve : ℕ → ℕ
twelve n = suc (suc (suc (suc (suc (suc (suc (suc (suc (suc (suc (suc n)))))))))))

cut-encoding :
    (r : Rect) (j : ℕ)
    → IsContent r.content
    → u32_at (take (twelve j) (put_rect r)) 8 ≡ encoding r.content
unfolding put_rect
cut-encoding r j v = from_be32-be32 (encoding r.content) (content-header r.content v).0

cut-body : (r : Rect) (j : ℕ) → drop 12 (take (twelve j) (put_rect r)) ≡ take j (body_of r.content)
unfolding put_rect
cut-body r j = refl

length-put_rect : (r : Rect) → length (put_rect r) ≡ twelve (length (body_of r.content))
unfolding put_rect
length-put_rect r = refl

cut_lem :
    (n j : ℕ) (r : Rect) (layout : Option (ℕ × ℕ))
    → IsContent r.content
    → j < length (body_of r.content)
    → (scan_rects (suc n) (take (twelve j) (put_rect r)) layout).0 ≡ false
cut_lem n j r layout v h =
    scan-part n (encoding r.content) (length (body_of r.content)) (take (twelve j) (put_rect r))
      layout (cut-encoding r j v) (content-header r.content v).1
      (rw (cut-body r j) (content-part r.content j v h))

-- A rectangle that is cut short ends the scan without success.
cut_rect :
    (n k : ℕ) (r : Rect) (layout : Option (ℕ × ℕ))
    → IsContent r.content
    → k < length (put_rect r)
    → (scan_rects (suc n) (take k (put_rect r)) layout).0 ≡ false
cut_rect n k r layout v h = elim (Bool-cases (ltb k 12)) [
  | inl short ↦
      scan-short n (take k (put_rect r)) layout (ground (arith, length-take k (put_rect r)))
  | inr long ↦
      let at : k ≡ twelve (k - 12) = ground arith in
      rw at (cut_lem n (k - 12) r layout v (ground (arith, length-put_rect r)))
]

cut_rects :
    (rs : List Rect) (n k : ℕ) (layout : Option (ℕ × ℕ))
    → All IsRect rs
    → k < length (put_rects rs)
    → (scan_rects (length rs + n) (take k (put_rects rs)) layout).0 ≡ false
unfolding put_rects
cut_rects [] n k layout v h = absurd (omega arith)
cut_rects (r ∷ rs) n k layout (v, vs) h =
    let first = put_rect r in
    let rest = put_rects rs in
    let at : suc (length rs) + n ≡ suc (length rs + n) = omega arith in
    elim (Bool-cases (ltb k (length first))) [
      | inl inside ↦
          rw (at, take-append_le k first rest (ground arith))
            (cut_rect (length rs + n) k r layout v (ground arith))
      | inr behind ↦
          let past = take-append_ge k first rest (ground arith) in
          let less : k - length first < length rest = ground (arith, length-append first rest) in
          rw (at, past, scan-put_rect (length rs + n) r (take (k - length first) rest) layout v)
            (cut_rects rs n (k - length first) (layout_after r.content layout) vs less)
    ]

-- How many bytes behind the rectangles are needed.
abbrev pub needed : End → ℕ
needed by_count = 0
needed (by_last skipped x y w h behind) = 12

cut_end :
    (ending : End) (j : ℕ) (layout : Option (ℕ × ℕ))
    → j < needed ending
    → (scan_rects (more ending) (take j (put_end ending)) layout).0 ≡ false
cut_end by_count j layout h = absurd (omega arith)
cut_end (by_last skipped x y w s behind) j layout h =
    let e = put_end (by_last skipped x y w s behind) in
    scan-short skipped (take j e) layout (ground (arith, length-take j e))

cut_behind :
    (rs : List Rect) (ending : End) (k : ℕ) (layout : Option (ℕ × ℕ))
    → All IsRect rs
    → k < length (put_rects rs) + needed ending
    → (scan_rects (length rs + more ending) (take k (put_rects rs ++ put_end ending)) layout).0
      ≡ false
cut_behind rs ending k layout v h = elim (Bool-cases (ltb k (length (put_rects rs)))) [
  | inl inside ↦
      rw (take-append_le k (put_rects rs) (put_end ending) (ground arith))
        (cut_rects rs (more ending) k layout v (ground arith))
  | inr behind ↦
      let j = k - length (put_rects rs) in
      rw
        (
          take-append_ge k (put_rects rs) (put_end ending) (ground arith),
          scan-put_rects rs (more ending) (take j (put_end ending)) layout v,
        )
        (cut_end ending j (final_layout rs layout) (ground arith))
]

-- An update that is cut short is not complete, and shows no layout: one that ends by its count, where
-- any bytes at its end are missing; one that ends by a LastRect, where it is cut before the end of the
-- LastRect's header, whatever stands behind that.
pub scan_update-cut :
    (rs : List Rect) (ending : End) (k : ℕ)
    → All IsRect rs
    → length rs + more ending < 2 ^ 16
    → k < 4 + length (put_rects rs) + needed ending
    → (complete_update (take k (put_update rs ending)) ≡ false)
      × (display_layout (take k (put_update rs ending)) ≡ none)
unfolding complete_update display_layout
scan_update-cut rs ending k v h less = let e = cut k less in (e, rw e refl)
  where
    cut :
        (k : ℕ)
        → k < 4 + length (put_rects rs) + needed ending
        → (scan_update (take k (put_update rs ending))).0 ≡ false
    cut zero l = unfold scan_update in refl
    cut (suc zero) l = unfold scan_update in refl
    cut (suc (suc zero)) l = unfold scan_update in refl
    cut (suc (suc (suc zero))) l = unfold scan_update in refl
    cut (suc (suc (suc (suc k)))) l =
        let kept = take k (put_rects rs ++ put_end ending) in
        let room : ltb (suc (suc (suc (suc (length kept))))) 4 ≡ false = ground arith in
        let count = from_be16-be16 (length rs + more ending) h in
        unfold scan_update in rw (room, count) (cut_behind rs ending k none v (omega arith))
