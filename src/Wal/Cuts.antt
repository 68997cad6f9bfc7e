-- ===== src/Wal/Cuts.antt =====
-- Positions of the stream at which a record ends (wal.go, `Sink` and `Seal`).
use eavt_sql.Prelude.{
  ℕ, zero, suc, ◌+◌, ◌-◌, ◌≤◌, ◌≡◌, inl, inr, refl, ap, sym, subst, ◌∙◌, List, [], ◌∷◌, ◌++◌,
  length, take, drop, arith, length-append, append_assoc, append-nil, take-append-drop,
  take-length-append, take_of_length, drop_of_length, leb, Bool-cases,
}
use eavt_sql.Bytes.Order.{Bytes}
use eavt_sql.Memtable.Ladder.{CfKey}
use eavt_sql.Wal.{sink_record, sink_records}

pub sink_records-append :
    (es more : List CfKey) → sink_records (es ++ more) ≡ sink_records es ++ sink_records more
sink_records-append [] more = refl
sink_records-append (e ∷ es) more =
    ap (λ z. sink_record e ++ z) (sink_records-append es more)
    ∙ sym (append_assoc (sink_record e) (sink_records es) (sink_records more))

-- The records of so many first entries end at the position.
abbrev pub IsCut : List CfKey → ℕ → Type 0
IsCut es b = (n : ℕ) × (b ≡ length (sink_records (take n es)))

take_append_front :
    (n : ℕ) (es more : List CfKey) → take (length (take n es)) (es ++ more) ≡ take n es
take_append_front n es more =
    let front = take n es in
    subst (λ z. take (length front) (z ++ more) ≡ front) (take-append-drop n es)
      (subst (λ z. take (length front) z ≡ front) (sym (append_assoc front (drop n es) more))
        (take-length-append front (drop n es ++ more)))

pub IsCut-append : (es more : List CfKey) (b : ℕ) → IsCut es b → IsCut (es ++ more) b
IsCut-append es more b (n, e) =
    (length (take n es), e ∙ ap (λ z. length (sink_records z)) (sym (take_append_front n es more)))

pub IsCut-end : (es : List CfKey) → IsCut es (length (sink_records es))
IsCut-end es = (
  length es,
  ap (λ z. length (sink_records z))
      (sym (ap (λ z. take (length es) z) (sym (append-nil es)) ∙ take-length-append es [])),
)

take_nil : (n : ℕ) → take {A = CfKey} n [] ≡ []
take_nil zero = refl
take_nil (suc n) = refl

take_further : (m n : ℕ) (es : List CfKey) → take (m + n) es ≡ take m es ++ take n (drop m es)
take_further zero n es = ap (λ k. take k es) (omega arith)
take_further (suc m) n [] = take_nil (suc m + n) ∙ sym (take_nil n)
take_further (suc m) n (e ∷ es) =
    let same : suc m + n ≡ suc (m + n) = omega arith in
    ap (λ k. take k (e ∷ es)) same ∙ ap (λ z. e ∷ z) (take_further m n es)

length_further :
    (m n : ℕ) (es : List CfKey)
    → m ≤ n
    → length (sink_records (take n es))
      ≡ length (sink_records (take m es)) + length (sink_records (take (n - m) (drop m es)))
length_further m n es h =
    let same : n ≡ m + (n - m) = omega (arith, h) in
    let front = sink_records (take m es) in
    let back = sink_records (take (n - m) (drop m es)) in
    ap (λ k. length (sink_records (take k es))) same
    ∙ ap (λ z. length (sink_records z)) (take_further m (n - m) es)
    ∙ ap length (sink_records-append (take m es) (take (n - m) (drop m es)))
    ∙ length-append front back

-- A cut behind another one is a cut of what follows that one.
pub IsCut-drop :
    (es : List CfKey) (m start b : ℕ)
    → start ≡ length (sink_records (take m es))
    → start ≤ b
    → IsCut es b
    → IsCut (drop m es) (b - start)
IsCut-drop es m start b e le (n, e') = elim (Bool-cases (leb m n)) [
  | inr below ↦ (0, omega (arith, e, e', length_further n m es (ground (arith, below))))
  | inl above ↦ (n - m, omega (arith, e, e', length_further m n es (ground (arith, above))))
]

-- The stream splits where its records do.
pub split_stream :
    (es : List CfKey) (n : ℕ) (xs ys : Bytes)
    → sink_records es ≡ xs ++ ys
    → length xs ≡ length (sink_records (take n es))
    → (xs ≡ sink_records (take n es)) × (ys ≡ sink_records (drop n es))
split_stream es n xs ys e len =
    let front = sink_records (take n es) in
    let back = sink_records (drop n es) in
    let whole : front ++ back ≡ xs ++ ys =
      sym (sink_records-append (take n es) (drop n es))
      ∙ ap sink_records (take-append-drop n es)
      ∙ e in
    (
      sym (take-length-append xs ys)
          ∙ ap (λ z. take (length xs) z) (sym whole)
          ∙ take_of_length (length xs) front back (sym len),
      sym (drop_of_length (length xs) xs ys refl)
          ∙ ap (λ z. drop (length xs) z) (sym whole)
          ∙ drop_of_length (length xs) front back (sym len),
    )
