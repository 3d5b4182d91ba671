-- ===== src/Transfer/Upload/Chunks.antt =====
-- transfer.rs: the loop of `upload` sends the file in pieces.
use macvnc.Base.{
  ℕ, zero, suc, ◌+◌, ◌-◌, ◌≤◌, ◌<◌, ◌≡◌, ◌≢◌, inl, inr, sym, ap, ◌∙◌, false, not, List, [], ◌∷◌,
  ◌++◌, append-nil, append_assoc, some, ok, arith, ◌==◌, ltb, length, take, drop, min, All,
  Bool-cases, take-append-drop, drop-drop, drop_of_length-le,
}
use macvnc.Base.Utf8.{IsScalar}
use macvnc.Connection.Monad.{bind-ok, ensure-ok, pure-ok}
use macvnc.FileTransfer.{chunk, chunk_bytes}
use macvnc.Transfer.{World}
use macvnc.Transfer.Worker.{check, send, progress, lift-ok}
use macvnc.Transfer.Effects.{send_sent, check_sent, progress_sent}
use macvnc.Transfer.Files.{Metadata, FileSystem}
use macvnc.Transfer.Upload.{send_chunk, send_chunks}

-- The file at `path` holds `content`: its length is that of the metadata, a read at an offset finds
-- the next bytes, as many as fit or fewer, and its name is a text.
pub record Holds (fs : FileSystem) (path content : List ℕ) : Type 0 where
  pub size : (m : Metadata) → fs.file_metadata path ≡ ok m → m.len ≡ length content
  pub reads :
      (offset limit : ℕ) (bytes : List ℕ)
      → fs.read path offset limit ≡ ok bytes
      → (bytes ≡ take (length bytes) (drop offset content)) × (length bytes ≤ limit)
  pub is_text : (name : List ℕ) → fs.file_name path ≡ some name → All IsScalar name

-- The pieces of a file and the bodies that carry them.
abbrev pub Carries : ℕ → List (List ℕ) → List (List ℕ) → Type 0
Carries id [] [] = Unit {0}
Carries id [] (body ∷ bodies) = ⊥
Carries id (piece ∷ pieces) [] = ⊥
Carries id (piece ∷ pieces) (body ∷ bodies) =
    (length piece ≤ chunk_bytes) × (chunk id piece ≡ ok body) × Carries id pieces bodies

unfoldable pub concat : List (List ℕ) → List ℕ
concat [] = []
concat (piece ∷ pieces) = piece ++ concat pieces

module _ (fs : FileSystem) (generation id : ℕ) (path content : List ℕ)
    (h : Holds fs path content) where
  pub record IsSent (bytes : ℕ) (u v : World) : Type 0 where
    pub pieces : List (List ℕ)
    pub bodies : List (List ℕ)
    pub carries : Carries id pieces bodies
    pub rest : concat pieces ≡ drop bytes content
    pub sent : v.sent ≡ u.sent ++ bodies

  send_chunk-ok :
      (bytes size n : ℕ) (u v : World)
      → bytes < size
      → send_chunk fs generation id path bytes size u ≡ (ok n, v)
      → (piece : List ℕ) × (body : List ℕ) × (piece ≡ take (length piece) (drop bytes content))
        × (length piece ≢ 0)
        × (length piece ≤ chunk_bytes)
        × (length piece ≤ size - bytes)
        × (chunk id piece ≡ ok body)
        × (n ≡ bytes + length piece)
        × (v.sent ≡ u.sent ++ (body ∷ []))
  unfolding send_chunk
  send_chunk-ok bytes size n u v less e =
      let (_, a, s₁, e₁) = bind-ok check _ e in
      let (piece, f, e₂) = lift-ok (fs.read path bytes (min chunk_bytes (size - bytes))) _ e₁ in
      let (g, e₃) = ensure-ok (not (length piece == 0)) _ _ e₂ in
      let (body, made, e₄) = lift-ok (chunk id piece) _ e₃ in
      let (_, b, s₅, e₅) = bind-ok (send body) _ e₄ in
      let (_, c, s₆, e₆) = bind-ok (progress generation (bytes + length piece) (some size)) _ e₅ in
      let (count, kept) = pure-ok e₆ in
      let (here, small) = h.reads bytes (min chunk_bytes (size - bytes)) piece f in
      (
        piece,
        body,
        here,
        ground (arith, g),
        omega (arith, small),
        omega (arith, small),
        made,
        count,
        ap (λ w. w.sent) kept
            ∙ progress_sent generation _ _ b c s₆
            ∙ send_sent body a b s₅
            ∙ ap (λ l. l ++ (body ∷ [])) (check_sent u a s₁),
      )

  piece_rest :
      (bytes : ℕ) (piece : List ℕ)
      → piece ≡ take (length piece) (drop bytes content)
      → piece ++ drop (bytes + length piece) content ≡ drop bytes content
  piece_rest bytes piece e =
      ap (λ l. l ++ drop (bytes + length piece) content) e
      ∙ ap (λ l. take (length piece) (drop bytes content) ++ l)
          (sym (drop-drop bytes (length piece) content))
      ∙ take-append-drop (length piece) (drop bytes content)

  -- A chunk, and those behind it.
  then-IsSent :
      (bytes n : ℕ) (piece body : List ℕ) (u a v : World)
      → piece ≡ take (length piece) (drop bytes content)
      → length piece ≤ chunk_bytes
      → chunk id piece ≡ ok body
      → n ≡ bytes + length piece
      → a.sent ≡ u.sent ++ (body ∷ [])
      → IsSent n a v
      → IsSent bytes u v
  unfolding concat
  then-IsSent bytes n piece body u a v here small made count sent c = record {
    pieces = piece ∷ c.pieces;
    bodies = body ∷ c.bodies;
    carries = (small, made, c.carries);
    rest =
        ap (λ l. piece ++ l) (c.rest ∙ ap (λ k. drop k content) count)
        ∙ piece_rest bytes piece here;
    sent = c.sent ∙ ap (λ l. l ++ c.bodies) sent ∙ append_assoc u.sent (body ∷ []) c.bodies;
  }

  not_less :
      (bytes size : ℕ) → ltb bytes size ≡ false → length content ≡ size → length content ≤ bytes
  not_less bytes size f whole = ground (arith, f, whole)

  pub send_chunks-IsSent :
      (fuel bytes size : ℕ) (u v : World)
      → length content ≡ size
      → bytes ≤ size
      → size ≤ bytes + fuel
      → send_chunks fs generation id fuel path bytes size u ≡ (ok tt, v)
      → IsSent bytes u v
  unfolding send_chunks concat
  send_chunks-IsSent zero bytes size u v whole low high e = record {
    pieces = [];
    bodies = [];
    carries = tt;
    rest = sym (drop_of_length-le bytes content (omega (arith, whole)));
    sent = ap (λ r. (r.1).sent) (sym e) ∙ sym (append-nil u.sent);
  }
  send_chunks-IsSent (suc fuel) bytes size u v whole low high e =
      elim (Bool-cases (ltb bytes size)) [
        | inr f ↦
            let kept : u ≡ v = ap (λ r. r.1) (rw f at e) in
            record {
              pieces = [];
              bodies = [];
              carries = tt;
              rest = sym (drop_of_length-le bytes content (not_less bytes size f whole));
              sent = ap (λ w. w.sent) (sym kept) ∙ sym (append-nil u.sent);
            }
        | inl f ↦
            let less : bytes < size = ground (arith, f) in
            let (n, a, s, e₁) =
              bind-ok (send_chunk fs generation id path bytes size) _ (rw f at e) in
            let (piece, body, here, nonzero, small, within, made, count, sent) =
              send_chunk-ok bytes size n u a less s in
            let c =
              send_chunks-IsSent fuel n size a v whole (omega (arith, count, within))
                (omega (arith, count, nonzero)) e₁ in
            then-IsSent bytes n piece body u a v here small made count sent c
      ]
