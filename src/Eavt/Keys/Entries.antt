-- ===== src/Eavt/Keys/Entries.antt =====
-- `BuildEavtEntries` fills its buffers with the keys that the four builders make.
use eavt_sql.Prelude.{
  ℕ, zero, suc, ◌+◌, ◌-◌, ◌≤◌, ◌≡◌, refl, ap, ap₂, ◌∙◌, Bool, true, false, List, [], ◌∷◌, ◌++◌,
  arith, length, take, drop, replicate, append-nil, append_assoc, length-append, take_of_length,
  length-replicate,
}
use eavt_sql.Bytes.Order.{Bytes}
use eavt_sql.Bytes.Int.{ℤ, u64, flip_top, be_bytes, length-be_bytes}
use eavt_sql.Eavt.Keys.{
  EncodeMode, ref, variable, blob, fixed, EavtEntry, encode_suffix, encode_eid, suffix_bytes,
  copy_at, build_eavt_key, build_aevt_key, build_avet_key, build_vaet_key, eavt_entry, aevt_entry,
  avet_entry, vaet_entry, index_entries, build_eavt_entries,
}

take_of_long : (n : ℕ) (bs : Bytes) → length bs ≤ n → take n bs ≡ bs
take_of_long zero [] h = refl
take_of_long zero (b ∷ bs) h = absurd (omega arith)
take_of_long (suc n) [] h = refl
take_of_long (suc n) (b ∷ bs) h = ap (◌∷◌ b) (take_of_long n bs (omega arith))

drop-replicate : (n m b : ℕ) → drop n (replicate (n + m) b) ≡ replicate m b
drop-replicate zero m b = ap (λ k. replicate k b) (omega arith)
drop-replicate (suc n) m b =
    let e : suc n + m ≡ suc (n + m) = omega arith in rw e (drop-replicate n m b)

drop_past : (a rest : Bytes) (n : ℕ) → drop (length a + n) (a ++ rest) ≡ drop n rest
drop_past [] rest n = ap (λ k. drop k rest) (omega arith)
drop_past (x ∷ a) rest n =
    let e : suc (length a) + n ≡ suc (length a + n) = omega arith in rw e (drop_past a rest n)

-- A store right after what is written extends it into the zeros.
copy_at-fresh :
    (off total : ℕ) (a bs : Bytes) (m : ℕ)
    → off ≡ length a
    → total ≡ length bs + m
    → copy_at off bs (a ++ replicate total 0) ≡ (a ++ bs) ++ replicate m 0
unfolding copy_at
copy_at-fresh off total a bs m e f =
    let room : length bs ≤ length (a ++ replicate total 0) - off =
      omega (arith, length-append a (replicate total 0), length-replicate {A = ℕ} total 0) in
    rw
      (take_of_long _ bs room, e, f, take_of_length (length a) a (replicate (length bs + m) 0) refl)
      (ap (λ l. (a ++ bs) ++ l)
        (drop_past a (replicate (length bs + m) 0) (length bs) ∙ drop-replicate (length bs) m 0))

-- Four stores, one after another, fill the buffer.
fill4 :
    (o2 o3 o4 total : ℕ) (a b c d : Bytes)
    → o2 ≡ length a
    → o3 ≡ length a + length b
    → o4 ≡ length a + length b + length c
    → total ≡ length a + (length b + (length c + length d))
    → copy_at o4 d (copy_at o3 c (copy_at o2 b (copy_at 0 a (replicate total 0))))
      ≡ a ++ (b ++ (c ++ d))
fill4 o2 o3 o4 total a b c d e2 e3 e4 t =
    rw
      (
        copy_at-fresh 0 total [] a (length b + (length c + length d)) refl t,
        copy_at-fresh o2 (length b + (length c + length d)) a b (length c + length d) e2 refl,
        copy_at-fresh o3 (length c + length d) (a ++ b) c (length d)
            (omega (arith, length-append a b)) refl,
        copy_at-fresh o4 (length d) ((a ++ b) ++ c) d 0
            (omega (arith, length-append (a ++ b) c, length-append a b)) (omega arith),
      )
      (append-nil (((a ++ b) ++ c) ++ d) ∙ append_assoc (a ++ b) c d ∙ append_assoc a b (c ++ d))

abbrev pub entry : ℕ → Bytes → EavtEntry
entry cf key = record { cf = cf; key = key }

module _ (eid : ℤ) (attr : ℕ) (value : Bytes) (t : ℤ) (retracted : Bool) where
  abbrev e8 : Bytes
  e8 = be_bytes 8 (flip_top (u64 eid))

  abbrev a4 : Bytes
  a4 = be_bytes 4 attr

  abbrev s8 : Bytes
  s8 = be_bytes 8 (encode_suffix t retracted)

  -- The keys that the builders make for the other two indexes: VAET for a reference, AVET for an
  -- indexed attribute.
  unfoldable pub expected_index : EncodeMode → Bool → List EavtEntry
  expected_index ref true =
      entry 3 (build_vaet_key value attr eid t retracted)
      ∷ entry 2 (build_avet_key attr value eid t retracted)
      ∷ []
  expected_index ref false = entry 3 (build_vaet_key value attr eid t retracted) ∷ []
  expected_index _ true = entry 2 (build_avet_key attr value eid t retracted) ∷ []
  expected_index _ false = []

  sizes : (length e8 ≡ 8) × (length a4 ≡ 4) × (length s8 ≡ 8)
  sizes = (length-be_bytes 8 _, length-be_bytes 4 attr, length-be_bytes 8 _)

  eavt_entry-key :
      eavt_entry (flip_top (u64 eid)) attr value (encode_suffix t retracted)
      ≡ entry 0 (build_eavt_key eid attr value t retracted)
  unfolding eavt_entry build_eavt_key encode_eid suffix_bytes
  eavt_entry-key = ap (entry 0) (
      fill4 8 12 (12 + length value) (8 + 4 + length value + 8) e8 a4 value s8
        (omega (arith, sizes)) (omega (arith, sizes)) (omega (arith, sizes)) (omega (arith, sizes)))

  aevt_entry-key :
      aevt_entry (flip_top (u64 eid)) attr value (encode_suffix t retracted)
      ≡ entry 1 (build_aevt_key attr eid value t retracted)
  unfolding aevt_entry build_aevt_key encode_eid suffix_bytes
  aevt_entry-key = ap (entry 1) (
      fill4 4 12 (12 + length value) (8 + 4 + length value + 8) a4 e8 value s8
        (omega (arith, sizes)) (omega (arith, sizes)) (omega (arith, sizes)) (omega (arith, sizes)))

  avet_entry-key :
      avet_entry (flip_top (u64 eid)) attr value (encode_suffix t retracted)
      ≡ entry 2 (build_avet_key attr value eid t retracted)
  unfolding avet_entry build_avet_key encode_eid suffix_bytes
  avet_entry-key = ap (entry 2) (
      fill4 4 (4 + length value) (12 + length value) (8 + 4 + length value + 8) a4 value e8 s8
        (omega (arith, sizes)) (omega (arith, sizes)) (omega (arith, sizes)) (omega (arith, sizes)))

  vaet_entry-key :
      vaet_entry (flip_top (u64 eid)) attr value (encode_suffix t retracted)
      ≡ entry 3 (build_vaet_key value attr eid t retracted)
  unfolding vaet_entry build_vaet_key encode_eid suffix_bytes
  vaet_entry-key = ap (entry 3) (
      fill4 (length value) (length value + 4) (length value + 12) (8 + 4 + length value + 8) value
        a4 e8 s8 (omega (arith, sizes)) (omega (arith, sizes)) (omega (arith, sizes))
        (omega (arith, sizes)))

  -- The entries of a datom are the EAVT and the AEVT key, then for a reference its VAET key, and
  -- for an indexed attribute its AVET key: the ones that the four builders make.
  pub build_eavt_entries-keys :
      (mode : EncodeMode) (indexed : Bool)
      → build_eavt_entries eid attr value t retracted mode indexed
        ≡ entry 0 (build_eavt_key eid attr value t retracted)
          ∷ entry 1 (build_aevt_key attr eid value t retracted)
          ∷ expected_index mode indexed
  build_eavt_entries-keys mode indexed =
      opened mode indexed
      ∙ ap₂ (λ x l. x ∷ l) eavt_entry-key (ap₂ ◌∷◌ aevt_entry-key (indexes mode indexed))
    where
      opened :
          (mode : EncodeMode) (indexed : Bool)
          → build_eavt_entries eid attr value t retracted mode indexed
            ≡ eavt_entry (flip_top (u64 eid)) attr value (encode_suffix t retracted)
              ∷ aevt_entry (flip_top (u64 eid)) attr value (encode_suffix t retracted)
              ∷ index_entries
                  (flip_top (u64 eid))
                  attr
                  value
                  (encode_suffix t retracted)
                  mode
                  indexed
      opened mode indexed = unfold build_eavt_entries in refl

      indexes :
          (mode : EncodeMode) (indexed : Bool)
          → index_entries (flip_top (u64 eid)) attr value (encode_suffix t retracted) mode indexed
            ≡ expected_index mode indexed
      indexes ref true =
          unfold index_entries expected_index in
          ap₂ (λ x y. x ∷ y ∷ []) vaet_entry-key avet_entry-key
      indexes ref false = unfold index_entries expected_index in ap (λ x. x ∷ []) vaet_entry-key
      indexes variable true = unfold index_entries expected_index in ap (λ x. x ∷ []) avet_entry-key
      indexes variable false = unfold index_entries expected_index in refl
      indexes blob true = unfold index_entries expected_index in ap (λ x. x ∷ []) avet_entry-key
      indexes blob false = unfold index_entries expected_index in refl
      indexes fixed true = unfold index_entries expected_index in ap (λ x. x ∷ []) avet_entry-key
      indexes fixed false = unfold index_entries expected_index in refl
