-- ===== src/Metadata/Fields/Loop.antt =====
-- metadata.rs: the loop of `fields` as it is written, without fuel.
use macvnc.Base.{
  ℕ, zero, suc, ◌*◌, ◌<◌, ◌≤◌, ◌≡◌, inl, inr, List, [], ◌∷◌, true, arith, ok, err, Result,
  Result-cases, Bool-cases, ltb, leb, length, subst,
}
use Prim.Native.String.{String}
use macvnc.Metadata.{ProtoField, field_at, fields_loop, fields}
use macvnc.Metadata.Fields.{field_at-lt}

-- `Runs count b r`: with `count` fields before, the loop on `b` ends with the result `r`. It ends at the
-- end of the input, at the limit, or at a field that is wrong; else it goes on behind the field.
pub data Runs : ℕ → List ℕ → Result (List ProtoField) → Type 0 where
  at_end : (count : ℕ) → Runs count [] (ok [])
  at_limit :
      (count c : ℕ) (b : List ℕ)
      → 4096 ≤ count
      → Runs count (c ∷ b) (err "protobuf field count exceeds limit")
  at_wrong :
      (count c : ℕ) (b : List ℕ) (e : String)
      → count < 4096
      → field_at (c ∷ b) ≡ err e
      → Runs count (c ∷ b) (err e)
  goes_on :
      (count c : ℕ) (b rest : List ℕ) (f : ProtoField) (fs : List ProtoField)
      → count < 4096
      → field_at (c ∷ b) ≡ ok (f, rest)
      → Runs (suc count) rest (ok fs)
      → Runs count (c ∷ b) (ok (f ∷ fs))
  fails_later :
      (count c : ℕ) (b rest : List ℕ) (f : ProtoField) (e : String)
      → count < 4096
      → field_at (c ∷ b) ≡ ok (f, rest)
      → Runs (suc count) rest (err e)
      → Runs count (c ∷ b) (err e)

fields_loop-Runs :
    (fuel count : ℕ) (b : List ℕ) → length b ≤ fuel → Runs count b (fields_loop fuel count b)
unfolding fields_loop
fields_loop-Runs fuel count [] h = at_end count
fields_loop-Runs zero count (c ∷ b) h = absurd (omega arith)
fields_loop-Runs (suc fuel) count (c ∷ b) h = elim (Bool-cases (ltb count 4096)) [
  | inr full ↦ rw full (at_limit count c b (ground arith))
  | inl room ↦ elim (Result-cases (field_at (c ∷ b))) [
    | inl (e, wrong) ↦ rw (room, wrong) (at_wrong count c b e (ground arith) wrong)
    | inr ((f, rest), found) ↦
        let run =
          fields_loop-Runs fuel (suc count) rest (omega (arith, field_at-lt (c ∷ b) found)) in
        elim (Result-cases (fields_loop fuel (suc count) rest)) [
          | inl (e, failed) ↦
              rw (room, found, failed)
                (fails_later count c b rest f e (ground arith) found
                  (subst (Runs (suc count) rest) failed run))
          | inr (fs, read) ↦
              rw (room, found, read)
                (goes_on count c b rest f fs (ground arith) found
                  (subst (Runs (suc count) rest) read run))
        ]
  ]
]

-- On every input of at most 1 MiB the loop of `fields`, run as it is written, ends, and with the result of
-- `fields`: each field takes a byte at least.
pub fields-Runs : (b : List ℕ) → length b ≤ 1024 * 1024 → Runs 0 b (fields b)
unfolding fields
fields-Runs b h =
    let small : leb (length b) (1024 * 1024) ≡ true = ground (arith, h) in
    rw small (fields_loop-Runs (length b) 0 b (omega arith))
