-- ===== src/Transfer/Download/Published.antt =====
-- transfer.rs: what a download has received when it publishes a file.
use macvnc.Base.{
  ℕ, suc, ◌≤◌, ◌≡◌, refl, sym, ap, subst, ◌∙◌, Bool, true, false, List, [], ◌∷◌, ◌++◌, some, Result,
  ok, err, arith, length, All,
}
use macvnc.Connection.Monad.{bind-ok, pure-ok}
use macvnc.FileTransfer.{Message, max_file_bytes}
use macvnc.FileTransfer.Names.{request}
use macvnc.Transfer.{World}
use macvnc.Transfer.Worker.{check, send, show, lift, lift-ok}
use macvnc.Transfer.Files.{FileSystem, download_destination}
use macvnc.Transfer.Download.{
  last_kind, kind_of, receive_file, publish, persisted, nothing_received, download_started,
  prepare_download, begin_download, download, go_download,
}
use macvnc.Transfer.Effects.{delivered, progress-Keeps, send-Keeps, check-Keeps}
use macvnc.Transfer.Download.Messages.{joined, items, IsPart}
use macvnc.Transfer.Download.Failed.{download-failed}
use macvnc.Transfer.Download.Received.{receive_file-IsReceived}

-- `parts` and the message that ends them stand first in the script, fit together as one regular
-- file, and its content is what is published.
pub record IsPublished (w w' : World) : Type 0 where
  pub parts : List Message
  pub last : Message
  pub later : List Message
  pub script : delivered w.rounds ≡ parts ++ (last ∷ later)
  pub ends : (kind_of last.kind ≡ last_kind) × (last.argument ≡ 0) × (last.payload ≡ [])
  pub fits : All (IsPart (length (joined parts))) parts
  pub one_item : items parts ≡ 1
  pub bound : length (joined parts) ≤ max_file_bytes
  pub content : w'.published ≡ some (joined parts)

abbrev pub Outcome : World → Bool × Result (Unit {0}) × World → Type 0
Outcome w (started, ok _, w') = IsPublished w w'
Outcome w (started, err e, w') = w'.published ≡ w.published

module _ (fs : FileSystem) (generation id : ℕ) where
  persisted-ok :
      (w u : World) (b : Bool) {a : Unit {0}}
      → persisted fs generation id w b ≡ (ok a, u)
      → u.published ≡ some w.staged
  persisted-ok w u true e = ap (λ r. (r.1).published) (sym e)
  persisted-ok w u false e = absurd (cc)

  download_started-IsPublished :
      (bytes destination : List ℕ) (w w' : World)
      → w.staged ≡ []
      → download_started fs generation id bytes destination w ≡ (ok tt, w')
      → IsPublished w w'
  unfolding download_started
  download_started-IsPublished bytes destination w w' fresh e =
      let (_, a, s₁, e₁) = bind-ok (send bytes) _ e in
      let (r₁, f₁, _) = send-Keeps bytes w a s₁ in
      let (p, b, s₂, e₂) =
        bind-ok (λ v. receive_file fs generation id (suc (length v.rounds)) nothing_received v) _
          e₁ in
      let c =
        receive_file-IsReceived fs generation id (suc (length a.rounds)) nothing_received p a b
          s₂ in
      let (_, d, s₃, e₃) = bind-ok check _ e₂ in
      let (_, f₃, _) = check-Keeps b d s₃ in
      let (_, g, s₄, e₄) = bind-ok (λ v. lift (fs.sync v.staged) v) _ e₃ in
      let synced : d.staged ≡ g.staged = ap (λ r. (r.1).staged) s₄ in
      let (_, h, s₅, e₅) = bind-ok check _ e₄ in
      let (_, f₅, _) = check-Keeps g h s₅ in
      let (_, i, s₆, e₆) = bind-ok (publish fs generation id destination) _ e₅ in
      let done = persisted-ok h i (fs.persist_noclobber destination h.staged) s₆ in
      let (_, _, kept) = progress-Keeps generation p.bytes p.total i w' e₆ in
      let content : h.staged ≡ joined c.parts =
        f₅ ∙ sym synced ∙ f₃ ∙ c.staged ∙ ap (λ l. l ++ joined c.parts) (f₁ ∙ fresh) in
      let size : p.bytes ≡ length (joined c.parts) = omega (arith, c.bytes) in
      record {
        parts = c.parts;
        last = c.last;
        later = c.later;
        script = ap delivered (sym r₁) ∙ c.script;
        ends = c.ends;
        fits = subst (λ n. All (IsPart n) c.parts) size c.fits;
        one_item = omega (arith, c.counted);
        bound = omega (arith, size, c.bound (omega arith));
        content = kept ∙ done ∙ ap some content;
      }

  prepare_download-ok :
      (remote local : List ℕ) (w u : World) (made : List ℕ × List ℕ)
      → prepare_download fs generation id remote local w ≡ (ok made, u)
      → (u.staged ≡ []) × (u.rounds ≡ w.rounds) × (u.published ≡ w.published)
  unfolding prepare_download begin_download show
  prepare_download-ok remote local w u made e =
      let (bytes, _, e₁) = lift-ok (request id remote false) _ e in
      let (destination, _, e₂) = lift-ok (download_destination fs local) _ e₁ in
      let (_, _, e₃) = lift-ok (fs.new_temporary destination.0) _ e₂ in
      let (_, v, s₄, e₄) = bind-ok check _ e₃ in
      let (r, s, q) = check-Keeps (record w { staged = [] }) v s₄ in
      let (_, kept) = pure-ok e₄ in
      (ap (λ x. x.staged) kept ∙ s, ap (λ x. x.rounds) kept ∙ r, ap (λ x. x.published) kept ∙ q)

  download-IsPublished :
      (remote local : List ℕ) (w w' : World) (started : Bool)
      → download fs generation id remote local w ≡ (started, ok tt, w')
      → IsPublished w w'
  unfolding download
  download-IsPublished remote local w w' started e =
      prepared (prepare_download fs generation id remote local w) refl e
    where
      prepared :
          (r : Result (List ℕ × List ℕ) × World)
          → prepare_download fs generation id remote local w ≡ r
          → go_download fs generation id r ≡ (started, ok tt, w')
          → IsPublished w w'
      prepared (err x, u) f h = absurd (cc)
      prepared (ok (bytes, destination), u) f h =
          let (s, r, _) = prepare_download-ok remote local w u (bytes, destination) f in
          let c = download_started-IsPublished bytes destination u w' s (ap (λ x. (x.1, x.2)) h) in
          record {
            parts = c.parts;
            last = c.last;
            later = c.later;
            script = ap delivered (sym r) ∙ c.script;
            ends = c.ends;
            fits = c.fits;
            one_item = c.one_item;
            bound = c.bound;
            content = c.content;
          }

  -- However a download ends: when it succeeds, the script of received messages begins with the parts
  -- of one file and the message that ends them; each announcement among them names the number of
  -- bytes in the data messages, which is at most the limit, one is of a new item, each chunk has
  -- the length that it names, and what is published is exactly the chunks in order. When it fails,
  -- nothing is published.
  pub download-Outcome :
      (remote local : List ℕ) (w : World) → Outcome w (download fs generation id remote local w)
  download-Outcome remote local w = outcome (download fs generation id remote local w) refl
    where
      outcome :
          (r : Bool × Result (Unit {0}) × World)
          → download fs generation id remote local w ≡ r
          → Outcome w r
      outcome (started, ok _, w') e = download-IsPublished remote local w w' started e
      outcome (started, err x, w') e =
          ap (λ r. r.2.published) (sym e)
          ∙ download-failed w.published fs generation id remote local w refl x (ap (λ r. r.1) e)
