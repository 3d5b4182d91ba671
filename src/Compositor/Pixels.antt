-- ===== src/Compositor/Pixels.antt =====
-- compositor.rs: the bytes of the frame after the rows of a band are copied.
use macvnc.Base.{
  ℕ, zero, suc, ◌+◌, ◌-◌, ◌*◌, ◌<◌, ◌≤◌, ◌≡◌, refl, ap, ◌∙◌, inl, inr, Bool-cases, List, [], ◌∷◌,
  ◌++◌, Bool, true, false, ◌&&◌, arith, ltb, leb, ◌==◌, if◌then◌else◌, length, take, drop, get_or,
  length-take, length-drop, length-append,
}
use macvnc.Compositor.{copy_row, copy_rows}

get_or-append_ge :
    (xs ys : List ℕ) (i : ℕ)
    → get_or (xs ++ ys) i 0
      ≡ (if ltb i (length xs) then get_or xs i 0 else get_or ys (i - length xs) 0)
get_or-append_ge [] ys i = ground arith
get_or-append_ge (x ∷ xs) ys zero = ground arith
get_or-append_ge (x ∷ xs) ys (suc i) = ground (arith, get_or-append_ge xs ys i)

get_or-take : (n i : ℕ) (xs : List ℕ) → i < n → get_or (take n xs) i 0 ≡ get_or xs i 0
get_or-take zero i xs h = absurd (omega arith)
get_or-take (suc n) i [] h = refl
get_or-take (suc n) zero (x ∷ xs) h = refl
get_or-take (suc n) (suc i) (x ∷ xs) h = get_or-take n i xs (omega arith)

get_or-drop : (n i : ℕ) (xs : List ℕ) → get_or (drop n xs) i 0 ≡ get_or xs (n + i) 0
get_or-drop zero i xs = ap (λ k. get_or xs k 0) (omega arith)
get_or-drop (suc n) i [] = ground arith
get_or-drop (suc n) i (x ∷ xs) =
    let e : suc n + i ≡ suc (n + i) = omega arith in rw e (get_or-drop n i xs)

-- A copied range, byte by byte.
copy_row-get :
    (dst src n : ℕ) (source pixels : List ℕ) (i : ℕ)
    → dst + n ≤ length pixels
    → src + n ≤ length source
    → get_or (copy_row dst src n source pixels) i 0 ≡ (
        if leb dst i && ltb i (dst + n)
        then get_or source (src + (i - dst)) 0
        else get_or pixels i 0)
unfolding copy_row
copy_row-get dst src n source pixels i h k =
    let a = take dst pixels in
    let b = take n (drop src source) in
    let z = drop (dst + n) pixels in
    let la : length a ≡ dst = omega (arith, length-take dst pixels) in
    let lb : length b ≡ n =
      omega (arith, length-take n (drop src source), length-drop src source) in
    rw (get_or-append_ge a (b ++ z) i, get_or-append_ge b z (i - length a), la, lb)
      (elim (Bool-cases (ltb i dst)) [
        | inl e ↦ ground (arith, get_or-take dst i pixels (ground arith))
        | inr e ↦ elim (Bool-cases (ltb (i - dst) n)) [
          | inl f ↦ ground (
            arith,
            get_or-take n (i - dst) (drop src source) (ground arith),
            get_or-drop src (i - dst) source,
          )
          | inr f ↦
              let at : dst + n + (i - dst - n) ≡ i = ground arith in
              let last =
                get_or-drop (dst + n) (i - dst - n) pixels ∙ ap (λ j. get_or pixels j 0) at in
              ground (arith, last)
        ]
      ])

length-copy_row :
    (dst src n : ℕ) (source pixels : List ℕ)
    → dst + n ≤ length pixels
    → src + n ≤ length source
    → length (copy_row dst src n source pixels) ≡ length pixels
unfolding copy_row
length-copy_row dst src n source pixels h k = omega (
  arith,
  length-append (take dst pixels) (take n (drop src source) ++ drop (dst + n) pixels),
  length-append (take n (drop src source)) (drop (dst + n) pixels),
  length-take dst pixels,
  length-take n (drop src source),
  length-drop src source,
  length-drop (dst + n) pixels,
)

-- A row ends before the next one begins.
pub row_end : (a b width : ℕ) → a < b → a * width + width ≤ b * width
row_end a zero width h = absurd (omega arith)
row_end a (suc b) width h = elim (Bool-cases (ltb a b)) [
  | inl e ↦ omega (arith, row_end a b width (ground arith))
  | inr e ↦ let same : a ≡ b = ground arith in rw same (omega arith)
]

-- The place of byte `b` of the pixel in column `x` of row `r`.
abbrev pub place_of : ℕ → ℕ → ℕ → ℕ → ℕ
place_of width r x b = (r * width + x) * 4 + b

module _ (y cols from_width to_width : ℕ) (source : List ℕ) where
  abbrev copy_one : ℕ → List ℕ → List ℕ
  copy_one row pixels =
      copy_row ((y + row) * to_width * 4) (row * from_width * 4) (cols * 4) source pixels

  -- What the byte is after row `row` of the band is copied.
  one_row :
      (row r x b : ℕ) (pixels : List ℕ)
      → cols ≤ to_width
      → x < to_width
      → b < 4
      → (y + row) * to_width * 4 + cols * 4 ≤ length pixels
      → row * from_width * 4 + cols * 4 ≤ length source
      → get_or (copy_one row pixels) (place_of to_width r x b) 0 ≡ (
          if (r == y + row) && ltb x cols
          then get_or source (place_of from_width row x b) 0
          else get_or pixels (place_of to_width r x b) 0)
  one_row row r x b pixels k hx hb fit from_fit =
      let dst = (y + row) * to_width * 4 in
      let src = row * from_width * 4 in
      let i = place_of to_width r x b in
      let copied = copy_row-get dst src (cols * 4) source pixels i fit from_fit in
      elim (Bool-cases (r == y + row)) [
        | inl e ↦
            let at : r ≡ y + row = ground arith in
            elim (Bool-cases (ltb x cols)) [
              | inl c ↦
                  let inside : (leb dst i && ltb i (dst + cols * 4)) ≡ true =
                    rw at (ground arith) in
                  let from : src + (i - dst) ≡ place_of from_width row x b = rw at (omega arith) in
                  copied ∙ (rw (inside, from, e, c) refl)
              | inr c ↦
                  let outside : (leb dst i && ltb i (dst + cols * 4)) ≡ false =
                    rw at (ground arith) in
                  copied ∙ (rw (outside, e, c) refl)
            ]
        | inr e ↦ elim (Bool-cases (ltb r (y + row))) [
          | inl l ↦
              let before = row_end r (y + row) to_width (ground arith) in
              let outside : (leb dst i && ltb i (dst + cols * 4)) ≡ false =
                ground (arith, before) in
              copied ∙ (rw (outside, e) refl)
          | inr l ↦
              let behind = row_end (y + row) r to_width (ground arith) in
              let outside : (leb dst i && ltb i (dst + cols * 4)) ≡ false =
                ground (arith, behind) in
              copied ∙ (rw (outside, e) refl)
        ]
      ]

  -- Whether the pixel lies in the rows `row` to `row + n` of the band.
  abbrev in_rows : ℕ → ℕ → ℕ → ℕ → Bool
  in_rows n row r x = leb (y + row) r && ltb r (y + row + n) && ltb x cols

  pub copy_rows-get :
      (n row r x b height from_height : ℕ) (pixels : List ℕ)
      → cols ≤ to_width
      → cols ≤ from_width
      → x < to_width
      → b < 4
      → y + row + n ≤ height
      → row + n ≤ from_height
      → length pixels ≡ height * to_width * 4
      → length source ≡ from_height * from_width * 4
      → (length (copy_rows n row y cols from_width to_width source pixels) ≡ length pixels)
        × (get_or
              (copy_rows n row y cols from_width to_width source pixels)
              (place_of to_width r x b)
              0
            ≡ (if in_rows n row r x
                then get_or source (place_of from_width (r - y) x b) 0
                else get_or pixels (place_of to_width r x b) 0))
  unfolding copy_rows
  copy_rows-get zero row r x b height from_height pixels k k' hx hb top from_top size from_size =
      let none_left : in_rows 0 row r x ≡ false = ground arith in (refl, rw none_left refl)
  copy_rows-get (suc n) row r x b height from_height pixels k k' hx hb top from_top size from_size =
      let to_fit = row_end (y + row) height to_width (omega arith) in
      let from_fit = row_end row from_height from_width (omega arith) in
      let fit : (y + row) * to_width * 4 + cols * 4 ≤ length pixels = omega (arith, to_fit) in
      let source_fit : row * from_width * 4 + cols * 4 ≤ length source = omega (arith, from_fit) in
      let same =
        length-copy_row ((y + row) * to_width * 4) (row * from_width * 4) (cols * 4) source pixels
          fit source_fit in
      let (kept, rest) =
        copy_rows-get n (suc row) r x b height from_height (copy_one row pixels) k k' hx hb
          (omega arith) (omega arith) (same ∙ size) from_size in
      let first = one_row row r x b pixels k hx hb fit source_fit in
      (kept ∙ same, rest ∙ combine first)
    where
      combine :
          get_or (copy_one row pixels) (place_of to_width r x b) 0 ≡ (
            if (r == y + row) && ltb x cols
            then get_or source (place_of from_width row x b) 0
            else get_or pixels (place_of to_width r x b) 0)
          → (if in_rows n (suc row) r x
              then get_or source (place_of from_width (r - y) x b) 0
              else get_or (copy_one row pixels) (place_of to_width r x b) 0)
            ≡ (if in_rows (suc n) row r x
                then get_or source (place_of from_width (r - y) x b) 0
                else get_or pixels (place_of to_width r x b) 0)
      combine first = elim (Bool-cases (r == y + row)) [
        | inl e ↦
            let at : row ≡ r - y = ground arith in
            let later : in_rows n (suc row) r x ≡ false = ground arith in
            let now : in_rows (suc n) row r x ≡ ltb x cols = ground arith in
            rw (later, now, first, e, at) refl
        | inr e ↦
            let same : in_rows n (suc row) r x ≡ in_rows (suc n) row r x = ground arith in
            rw (same, first, e) refl
      ]
