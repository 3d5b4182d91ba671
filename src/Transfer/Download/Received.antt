-- ===== src/Transfer/Download/Received.antt =====
-- transfer.rs: what the loop of `download` has received when it ends.
use macvnc.Base.{
  ℕ, zero, suc, ◌+◌, ◌≤◌, ◌≡◌, inl, refl, sym, ap, ◌∙◌, true, List, [], ◌∷◌, ◌++◌, append-nil,
  append_assoc, Option, none, some, ok, arith, ◌==◌, length, length-append, All, ◌&&◌,
}
use macvnc.Connection.Monad.{◌>>◌, pure, bind-ok, ensure-ok, ensure_last, pure-ok}
use macvnc.FileTransfer.{Message, max_file_bytes, is_empty}
use macvnc.Transfer.{World}
use macvnc.Transfer.Worker.{Work, receive, progress}
use macvnc.Transfer.Files.{FileSystem}
use macvnc.Transfer.Download.{
  Receipt, some_and, announce, take_item, take_data, take_end, Kind, info_kind, item_kind,
  content_kind, last_kind, other_kind, kind_of, go_on, take_message, receive_file,
}
use macvnc.Transfer.Effects.{delivered, Takes, Keeps, receive-Takes, progress-Keeps}
use macvnc.Transfer.Download.Messages.{content_of, joined, item_count, items, IsPart, flag, Agrees}
use macvnc.Transfer.Download.Rounds.{
  IsRound, announce-IsRound, take_data-IsRound, take_item-IsRound,
}

module _ (fs : FileSystem) (generation id : ℕ) where
  -- What the loop has received when it ends: the last message ends the transfer, those before are
  -- parts of a file of as many bytes as the last receipt counts.
  pub record IsReceived (p p' : Receipt) (w w' : World) : Type 0 where
    pub parts : List Message
    pub last : Message
    pub later : List Message
    pub script : delivered w.rounds ≡ parts ++ (last ∷ later)
    pub ends : (kind_of last.kind ≡ last_kind) × (last.argument ≡ 0) × (last.payload ≡ [])
    pub staged : w'.staged ≡ w.staged ++ joined parts
    pub bytes : p'.bytes ≡ p.bytes + length (joined parts)
    pub bound : p.bytes ≤ max_file_bytes → p'.bytes ≤ max_file_bytes
    pub fits : All (IsPart p'.bytes) parts
    pub agrees : Agrees p.total p'.bytes
    pub counted : flag p.saw_item + items parts ≡ 1
    pub published : w'.published ≡ w.published

  take_end-IsReceived :
      (m : Message) (p p' : Receipt) (w u w' : World)
      → kind_of m.kind ≡ last_kind
      → Takes m w u
      → (take_end fs generation id m p >> pure p) u ≡ (ok p', w')
      → IsReceived p p' w w'
  unfolding take_end is_empty joined items
  take_end-IsReceived m p p' w u w' k (script, su, pu) e =
      let (_, v, e₁, e₂) = bind-ok (take_end fs generation id m p) _ e in
      let (h, e₃) = ensure-ok (m.argument == 0 && is_empty m.payload) _ _ e₁ in
      let (g, same) = ensure_last (some_and (λ size. p.bytes == size) p.total && p.saw_item) _ e₃ in
      let (made, kept) = pure-ok e₂ in
      let world : w' ≡ u = kept ∙ same in
      let seen : p.saw_item ≡ true = ground (arith, g) in
      record {
        parts = [];
        last = m;
        later = delivered u.rounds;
        script = script;
        ends = (k, ground (arith, h), empty m.payload (ground (arith, h)));
        staged = rw (world, su) (sym (append-nil w.staged));
        bytes = rw made (omega arith);
        bound = λ b. rw made b;
        fits = tt;
        agrees = rw made (exact p.total (ground (arith, g)));
        counted = rw seen (omega arith);
        published = rw (world, pu) refl;
      }
    where
      empty : (bytes : List ℕ) → is_empty bytes ≡ true → bytes ≡ []
      empty [] e = refl
      empty (b ∷ bytes) e = absurd (cc)

      exact :
          (total : Option ℕ)
          → some_and (λ size. p.bytes == size) total ≡ true
          → Agrees total p.bytes
      exact none e = absurd (cc)
      exact (some a) e = ground (arith, e)

  -- A round, and what is received after it.
  round-IsReceived :
      (k : Kind) (m : Message) (p q p' : Receipt) (w u v v' w' : World)
      → kind_of m.kind ≡ k
      → Takes m w u
      → IsRound k m p q u v
      → Keeps v v'
      → IsReceived q p' v' w'
      → IsReceived p p' w w'
  unfolding joined items
  round-IsReceived k m p q p' w u v v' w' kind (script, su, pu) r (rs, ss, ps) c =
      let (fit, agreed) = r.fits p'.bytes c.agrees in
      let more : delivered u.rounds ≡ delivered v'.rounds = ap delivered (sym (rs ∙ r.rounds)) in
      let counted : flag p.saw_item + item_count k + items c.parts ≡ 1 =
        omega (arith, r.counted, c.counted) in
      record {
        parts = m ∷ c.parts;
        last = c.last;
        later = c.later;
        script = script ∙ ap (λ l. m ∷ l) (more ∙ c.script);
        ends = c.ends;
        staged =
            rw (c.staged, ss, r.staged, su, kind)
              (append_assoc w.staged (content_of k m) (joined c.parts));
        bytes =
            rw (c.bytes, r.bytes, kind, length-append (content_of k m) (joined c.parts))
              (omega arith);
        bound = λ h. c.bound (r.bound h);
        fits = (rw kind fit, c.fits);
        agrees = agreed;
        counted = rw kind (omega (arith, counted));
        published = c.published ∙ ps ∙ r.published ∙ pu;
      }

  module _ (p p' : Receipt) (w w' : World) (m : Message) (rest : Receipt → Work Receipt) where
    go_on-IsReceived :
        (k : Kind) (u : World) (round : Work Receipt)
        → kind_of m.kind ≡ k
        → Takes m w u
        → ((q : Receipt) (v : World) → round u ≡ (ok q, v) → IsRound k m p q u v)
        → ((q : Receipt) (v : World) → rest q v ≡ (ok p', w') → IsReceived q p' v w')
        → go_on fs generation id round rest u ≡ (ok p', w')
        → IsReceived p p' w w'
    go_on-IsReceived k u round kind script one ih e =
        let (q, v, e₁, e₂) = bind-ok round _ e in
        let (_, v', e₃, e₄) = bind-ok (progress generation q.bytes q.total) _ e₂ in
        round-IsReceived k m p q p' w u v v' w' kind script (one q v e₁)
          (progress-Keeps generation q.bytes q.total v v' e₃) (ih q v' e₄)

    take_message-IsReceived :
        (k : Kind) (u : World)
        → kind_of m.kind ≡ k
        → Takes m w u
        → ((q : Receipt) (v : World) → rest q v ≡ (ok p', w') → IsReceived q p' v w')
        → take_message fs generation id k m p rest u ≡ (ok p', w')
        → IsReceived p p' w w'
    unfolding take_message
    take_message-IsReceived info_kind u kind t ih e =
        go_on-IsReceived info_kind u (announce fs generation id m p p.saw_item) kind t
          (λ q v.
            announce-IsRound fs generation id info_kind m p p.saw_item (inl refl) (omega arith))
          ih e
    take_message-IsReceived item_kind u kind t ih e =
        go_on-IsReceived item_kind u (take_item fs generation id m p) kind t
          (λ q v. take_item-IsRound fs generation id m p) ih e
    take_message-IsReceived content_kind u kind t ih e =
        go_on-IsReceived content_kind u (take_data fs generation id m p) kind t
          (λ q v. take_data-IsRound fs generation id m p) ih e
    take_message-IsReceived last_kind u kind t ih e = take_end-IsReceived m p p' w u w' kind t e
    take_message-IsReceived other_kind u kind t ih e = absurd (cc)

  pub receive_file-IsReceived :
      (fuel : ℕ) (p p' : Receipt) (w w' : World)
      → receive_file fs generation id fuel p w ≡ (ok p', w')
      → IsReceived p p' w w'
  unfolding receive_file
  receive_file-IsReceived zero p p' w w' e = absurd (cc)
  receive_file-IsReceived (suc fuel) p p' w w' e =
      let (m, u, e₁, e₂) = bind-ok receive _ e in
      take_message-IsReceived p p' w w' m (receive_file fs generation id fuel) (kind_of m.kind) u
        refl (receive-Takes w u m e₁) (λ q v. receive_file-IsReceived fuel q p' v w') e₂
