-- ===== src/Transfer/Download/Rounds.antt =====
-- transfer.rs: what each round of the loop of `download` does.
use macvnc.Base.{
  ℕ, ◌+◌, ◌≤◌, ◌≡◌, ◌⊎◌, inl, inr, refl, sym, ap, subst, ◌∙◌, Bool, true, false, List, [], ◌++◌,
  append-nil, Option, none, some, Result, ok, err, arith, ◌==◌, ltb, leb, ◌^◌, length, not, ◌&&◌,
}
use macvnc.Connection.Monad.{bind-ok, ensure-ok, pure-ok}
use macvnc.FileTransfer.{Message, max_file_bytes}
use macvnc.FileTransfer.Names.{announced_size}
use macvnc.Transfer.{World}
use macvnc.Transfer.Worker.{lift-ok}
use macvnc.Transfer.Files.{FileSystem, context}
use macvnc.Transfer.Download.{
  Receipt, none_or, announce, take_item, written, write, take_data, Kind, info_kind, item_kind,
  content_kind,
}
use macvnc.Transfer.Download.Messages.{content_of, item_count, Fits, flag, Agrees}

-- What a round that goes on does.
pub record IsRound (k : Kind) (m : Message) (p p' : Receipt) (w w' : World) : Type 0 where
  pub staged : w'.staged ≡ w.staged ++ content_of k m
  pub bytes : p'.bytes ≡ p.bytes + length (content_of k m)
  pub bound : p.bytes ≤ max_file_bytes → p'.bytes ≤ max_file_bytes
  pub fits : (n : ℕ) → Agrees p'.total n → Fits n k m × Agrees p.total n
  pub counted : flag p'.saw_item ≡ flag p.saw_item + item_count k
  pub rounds : w'.rounds ≡ w.rounds
  pub published : w'.published ≡ w.published

none_or-Agrees :
    (total : Option ℕ) (n : ℕ) → none_or (λ old. old == n) total ≡ true → Agrees total n
none_or-Agrees none n e = tt
none_or-Agrees (some a) n e = ground (arith, e)

module _ (fs : FileSystem) (generation id : ℕ) where
  announce-ok :
      (m : Message) (p : Receipt) (saw : Bool) {p' : Receipt} {w w' : World}
      → announce fs generation id m p saw w ≡ (ok p', w')
      → (n : ℕ) × (announced_size m ≡ ok (some n))
        × Agrees p.total n
        × (p' ≡ record { bytes = p.bytes; total = some n; saw_item = saw })
        × (w' ≡ w)
  unfolding announce
  announce-ok m p saw e =
      let (found, f, e₁) = lift-ok (announced_size m) _ e in
      let (n, g, e₂) = lift-ok (context "missing file size" found) _ e₁ in
      let (h, e₃) = ensure-ok (none_or (λ old. old == n) p.total && leb p.bytes n) _ _ e₂ in
      let (made, same) = pure-ok e₃ in
      let size : found ≡ some n = context-some found g in
      (n, f ∙ ap ok size, none_or-Agrees p.total n (ground (arith, h)), made, same)
    where
      context-some : (o : Option ℕ) {n : ℕ} → context "missing file size" o ≡ ok n → o ≡ some n
      context-some none g = absurd (cc)
      context-some (some a) g = cc

  pub announce-IsRound :
      (k : Kind) (m : Message) (p : Receipt) (saw : Bool) {p' : Receipt} {w w' : World}
      → (k ≡ info_kind) ⊎ (k ≡ item_kind)
      → flag saw ≡ flag p.saw_item + item_count k
      → announce fs generation id m p saw w ≡ (ok p', w')
      → IsRound k m p p' w w'
  announce-IsRound k m p saw {p'} {w} {w'} which counted e =
      let (announced, size, agrees, made, same) = announce-ok m p saw e in
      let empty : content_of k m ≡ [] = elim which [ inl f ↦ rw f refl | inr f ↦ rw f refl ] in
      record {
        staged = rw (same, empty) (sym (append-nil w.staged));
        bytes = rw (made, empty) (omega arith);
        bound = λ h. rw made h;
        fits = λ n h.
            let here : n ≡ announced = sym (subst (λ r. Agrees r.total n) made h) in
            let fit : announced_size m ≡ ok (some n) = rw here size in
            (elim which [ inl f ↦ rw f fit | inr f ↦ rw f fit ], rw here agrees);
        counted = rw made counted;
        rounds = rw same refl;
        published = rw same refl;
      }

  written-ok :
      (payload : List ℕ) (w : World) (r : Result (Unit {0})) {a : Unit {0}} {u : World}
      → written fs generation id payload w r ≡ (ok a, u)
      → u ≡ record w { staged = w.staged ++ payload }
  written-ok payload w (err x) e = absurd (cc)
  written-ok payload w (ok x) e = cc

  pub take_data-IsRound :
      (m : Message) (p : Receipt) {p' : Receipt} {w w' : World}
      → take_data fs generation id m p w ≡ (ok p', w')
      → IsRound content_kind m p p' w w'
  unfolding take_data
  take_data-IsRound m p {p'} {w} {w'} e =
      let (h, e₁) = ensure-ok (m.argument == length m.payload) _ _ e in
      let (_, e₂) = ensure-ok (ltb (p.bytes + length m.payload) (2 ^ 64)) _ _ e₁ in
      let (limits, e₃) =
        ensure-ok
          (leb (p.bytes + length m.payload) max_file_bytes
            && none_or (λ size. leb (p.bytes + length m.payload) size) p.total)
          _ _ e₂ in
      let (_, u, e₄, e₅) = bind-ok (write fs generation id m.payload) _ e₃ in
      let (made, same) = pure-ok e₅ in
      let stored = written-ok m.payload w (fs.write_all w.staged m.payload) e₄ in
      record {
        staged = rw (same, stored) refl;
        bytes = rw made refl;
        bound = λ _. rw made (ground (arith, limits));
        fits = λ n f. (ground (arith, h), subst (λ r. Agrees r.total n) made f);
        counted = rw made (omega arith);
        rounds = rw (same, stored) refl;
        published = rw (same, stored) refl;
      }

  pub take_item-IsRound :
      (m : Message) (p : Receipt) {p' : Receipt} {w w' : World}
      → take_item fs generation id m p w ≡ (ok p', w')
      → IsRound item_kind m p p' w w'
  unfolding take_item
  take_item-IsRound m p e =
      let (h, e₁) = ensure-ok (not p.saw_item && p.bytes == 0) _ _ e in
      let fresh : p.saw_item ≡ false = ground (arith, h) in
      announce-IsRound item_kind m p true (inr refl) (rw fresh (omega arith)) e₁
