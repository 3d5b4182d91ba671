-- ===== src/Transfer/Upload/Sent.antt =====
-- transfer.rs: what an upload has sent when it succeeds.
use macvnc.Base.{
  ℕ, ◌≤◌, ◌≡◌, refl, sym, ap, subst, ◌∙◌, Bool, true, ◌&&◌, List, [], ◌∷◌, ◌++◌, append_assoc, some,
  Result, ok, err, arith, ◌==◌, leb, leb→le, length,
}
use macvnc.Connection.Monad.{bind-ok, ensure-ok, ensure_last, pure-ok}
use macvnc.FileTransfer.{end, end_kind, max_file_bytes, is_empty}
use macvnc.FileTransfer.Names.{request, upload_metadata}
use macvnc.Transfer.{text, World}
use macvnc.Transfer.Worker.{check, send, receive, show, lift-ok}
use macvnc.Transfer.Effects.{send_sent, check_sent, show_sent, receive_sent}
use macvnc.Transfer.Files.{Metadata, FileSystem, context, context_ok, open_regular}
use macvnc.Transfer.Upload.{
  send_chunks, same_time, upload_started, prepare_upload, upload, go_upload, sending_view,
}
use macvnc.Transfer.Upload.Chunks.{Holds, Carries, concat, send_chunks-IsSent}

module _ (fs : FileSystem) (generation id : ℕ) (path content : List ℕ)
    (h : Holds fs path content) where
  -- What a successful upload has sent, in order: the request, the two announcements, the pieces of the
  -- file, and the end.
  pub record IsUploaded (remote : List ℕ) (w w' : World) : Type 0 where
    pub name : List ℕ
    pub named : fs.file_name path ≡ some name
    pub request_bytes : List ℕ
    pub requested : request id remote true ≡ ok request_bytes
    pub info : List ℕ
    pub item : List ℕ
    pub announced : upload_metadata id name (length content) ≡ ok (info, item)
    pub pieces : List (List ℕ)
    pub bodies : List (List ℕ)
    pub carries : Carries id pieces bodies
    pub whole : concat pieces ≡ content
    pub last : List ℕ
    pub ended : end id ≡ ok last
    pub sent : w'.sent ≡ w.sent ++ (request_bytes ∷ info ∷ item ∷ bodies ++ (last ∷ []))

  upload_started-sent :
      (metadata : Metadata) (request_bytes info item : List ℕ) (w w' : World)
      → length content ≡ metadata.len
      → upload_started fs generation id path metadata request_bytes info item w ≡ (ok tt, w')
      → (pieces : List (List ℕ)) × (bodies : List (List ℕ)) × (last : List ℕ) × Carries id pieces
          bodies
        × (concat pieces ≡ content)
        × (end id ≡ ok last)
        × (w'.sent ≡ w.sent ++ (request_bytes ∷ info ∷ item ∷ bodies ++ (last ∷ [])))
  unfolding upload_started
  upload_started-sent metadata request_bytes info item w w' size e =
      let (_, a, s₁, e₁) = bind-ok (send request_bytes) _ e in
      let (_, b, s₂, e₂) = bind-ok (send info) _ e₁ in
      let (_, c, s₃, e₃) = bind-ok (send item) _ e₂ in
      let (_, d, s₄, e₄) =
        bind-ok (send_chunks fs generation id metadata.len path 0 metadata.len) _ e₃ in
      let chunks =
        send_chunks-IsSent fs generation id path content h metadata.len 0 metadata.len c d size
          (omega arith) (omega arith) s₄ in
      let (after, _, e₅) = lift-ok (fs.metadata_after path) _ e₄ in
      let (_, e₆) =
        ensure-ok (after.len == metadata.len && same_time after.modified metadata.modified) _ _
          e₅ in
      let (last, ended, e₇) = lift-ok (end id) _ e₆ in
      let (_, f, s₈, e₈) = bind-ok (send last) _ e₇ in
      let (_, g, s₉, e₉) =
        bind-ok
          (show generation
            (λ view. record view { status = text "File sent · waiting for the Mac to confirm…" }))
          _ e₈ in
      let (reply, k, t, e₁₀) = bind-ok receive _ e₉ in
      let (_, kept) =
        ensure_last (reply.kind == end_kind && (reply.argument == 0 && is_empty reply.payload)) _
          e₁₀ in
      (
        chunks.pieces,
        chunks.bodies,
        last,
        chunks.carries,
        chunks.rest,
        ended,
        ap (λ x. x.sent) kept
            ∙ receive_sent g k t
            ∙ show_sent generation _ f g s₉
            ∙ send_sent last d f s₈
            ∙ ap (λ l. l ++ (last ∷ []))
                (chunks.sent
                  ∙ ap (λ l. l ++ chunks.bodies)
                      (send_sent item b c s₃
                        ∙ ap (λ l. l ++ (item ∷ []))
                            (send_sent info a b s₂
                              ∙ ap (λ l. l ++ (info ∷ [])) (send_sent request_bytes w a s₁))))
            ∙ in_order w.sent chunks.bodies last,
      )
    where
      in_order :
          (old : List (List ℕ)) (bodies : List (List ℕ)) (last : List ℕ)
          → ((((old ++ (request_bytes ∷ [])) ++ (info ∷ [])) ++ (item ∷ [])) ++ bodies)
              ++ (last ∷ [])
            ≡ old ++ (request_bytes ∷ info ∷ item ∷ bodies ++ (last ∷ []))
      in_order old bodies last = simp append_assoc refl

  prepare_upload-ok :
      (remote : List ℕ) (allow_replace : Bool) (w u : World)
      (made : Metadata × List ℕ × List ℕ × List ℕ)
      → prepare_upload fs generation id path remote allow_replace w ≡ (ok made, u)
      → (name : List ℕ) × (fs.file_name path ≡ some name)
        × (request id remote true ≡ ok made.1)
        × (upload_metadata id name (length content) ≡ ok (made.2, made.3))
        × (made.0.len ≡ length content)
        × (length content ≤ max_file_bytes)
        × (u.sent ≡ w.sent)
  unfolding prepare_upload
  prepare_upload-ok remote allow_replace w u made e =
      let (_, e₁) = ensure-ok allow_replace _ _ e in
      let (_, _, e₁') = lift-ok (open_regular fs path) _ e₁ in
      let (metadata, found_size, e₂) = lift-ok (fs.file_metadata path) _ e₁' in
      let (small, e₃) = ensure-ok (leb metadata.len max_file_bytes) _ _ e₂ in
      let (name, found, e₄) =
        lift-ok (context "file name is not valid UTF-8" (fs.file_name path)) _ e₃ in
      let (request_bytes, asked, e₅) = lift-ok (request id remote true) _ e₄ in
      let (messages, announced, e₆) = lift-ok (upload_metadata id name metadata.len) _ e₅ in
      let (_, a, s₇, e₇) = bind-ok check _ e₆ in
      let (_, b, s₈, e₈) =
        bind-ok (show generation (sending_view fs generation id metadata.len)) _ e₇ in
      let (all, kept) = pure-ok e₈ in
      let size : metadata.len ≡ length content = h.size metadata found_size in
      (
        name,
        context_ok _ (fs.file_name path) found,
        asked ∙ ap (λ x. ok x.1) (sym all),
        subst (λ n. upload_metadata id name n ≡ ok messages) size announced
            ∙ ap (λ x. ok (x.2, x.3)) (sym all),
        ap (λ x. x.0.len) all ∙ size,
        omega (arith, size, leb→le _ _ small),
        ap (λ x. x.sent) kept ∙ show_sent generation _ a b s₈ ∙ check_sent w a s₇,
      )

  pub upload-IsUploaded :
      (remote : List ℕ) (allow_replace : Bool) (w w' : World) (started : Bool)
      → upload fs generation id path remote allow_replace w ≡ (started, ok tt, w')
      → (length content ≤ max_file_bytes) × IsUploaded remote w w'
  unfolding upload
  upload-IsUploaded remote allow_replace w w' started e =
      prepared (prepare_upload fs generation id path remote allow_replace w) refl e
    where
      prepared :
          (r : Result (Metadata × List ℕ × List ℕ × List ℕ) × World)
          → prepare_upload fs generation id path remote allow_replace w ≡ r
          → go_upload fs generation id path r ≡ (started, ok tt, w')
          → (length content ≤ max_file_bytes) × IsUploaded remote w w'
      prepared (err x, u) f g = absurd (cc)
      prepared (ok (metadata, request_bytes, info, item), u) f g =
          let (name, named, requested, announced, size, small, start) =
            prepare_upload-ok remote allow_replace w u (metadata, request_bytes, info, item) f in
          let (pieces, bodies, last, carries, whole, ended, sent) =
            upload_started-sent metadata request_bytes info item u w' (sym size)
              (ap (λ x. (x.1, x.2)) g) in
          (
            small,
            record {
              name = name;
              named = named;
              request_bytes = request_bytes;
              requested = requested;
              info = info;
              item = item;
              announced = announced;
              pieces = pieces;
              bodies = bodies;
              carries = carries;
              whole = whole;
              last = last;
              ended = ended;
              sent =
                  sent ∙ ap (λ l. l ++ (request_bytes ∷ info ∷ item ∷ bodies ++ (last ∷ []))) start;
            },
          )
