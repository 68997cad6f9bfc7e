-- ===== src/Kvstore/Replay.antt =====
-- The loop of `replayJournals` over the journal files, go/internal/kvstore/kvstore.go. A file that
-- cannot be read is an empty list of bytes, which the loop skips too. The state is the memtable and
-- the size that the store keeps.
use eavt_sql.Prelude.{
  ℕ, ◌≡◌, refl, ap, sym, ◌∙◌, Bool-cases, inl, inr, false, List, [], ◌∷◌, ◌++◌, length, ◌==◌,
  if◌then◌else◌, arith, subst, drop_of_short, leb,
}
use eavt_sql.Bytes.Order.{Bytes}
use eavt_sql.Memtable.Ladder.{MemTable, CfKey, append_batch, append_rec_locked, batch}
use eavt_sql.Kvstore.Journal.{parse_journal_records}

abbrev pub replay_file : Bytes → MemTable × ℕ → MemTable × ℕ
replay_file bytes s =
    let recs = parse_journal_records bytes in
    if length bytes == 0 then s else if length recs == 0 then s else batch recs s.0

unfoldable pub replay_files : List Bytes → MemTable × ℕ → MemTable × ℕ
replay_files [] s = s
replay_files (bytes ∷ files) s = replay_files files (replay_file bytes s)

-- The entries of all files, in order.
abbrev pub parse_files : List Bytes → List CfKey
parse_files [] = []
parse_files (bytes ∷ files) = parse_journal_records bytes ++ parse_files files

append_batch-append :
    (es more : List CfKey) (mt : MemTable)
    → append_batch (es ++ more) mt ≡ append_batch more (append_batch es mt)
unfolding append_batch
append_batch-append [] more mt = refl
append_batch-append (e ∷ es) more mt =
    append_batch-append es more
      (if leb mt.num_cf e.cf then mt else append_rec_locked e.cf false e.key [] mt)

parse_nothing : parse_journal_records [] ≡ []
unfolding parse_journal_records
parse_nothing = refl

replay_file-append_batch :
    (bytes : Bytes) (s : MemTable × ℕ)
    → (replay_file bytes s).0 ≡ append_batch (parse_journal_records bytes) s.0
unfolding batch append_batch
replay_file-append_batch bytes s =
    let recs = parse_journal_records bytes in
    let goal = λ (s' : MemTable × ℕ). s'.0 ≡ append_batch recs s.0 in
    let by_records : goal (if length recs == 0 then s else batch recs s.0) =
      elim (Bool-cases (length recs == 0)) [
        | inl t ↦
            subst (λ z. goal (if z then s else batch recs s.0)) (sym t)
              (ap (λ es. append_batch es s.0) (sym (drop_of_short 0 recs (ground (arith, t)))))
        | inr f ↦ subst (λ z. goal (if z then s else batch recs s.0)) (sym f) refl
      ] in
    elim (Bool-cases (length bytes == 0)) [
      | inl t ↦
          subst (λ z. goal (if z then s else if length recs == 0 then s else batch recs s.0))
            (sym t)
            (ap (λ es. append_batch es s.0)
              (sym (
                ap parse_journal_records (drop_of_short 0 bytes (ground (arith, t)))
                ∙ parse_nothing)))
      | inr f ↦
          subst (λ z. goal (if z then s else if length recs == 0 then s else batch recs s.0))
            (sym f) by_records
    ]

-- Replaying the files one by one fills the memtable as one batch of all their entries does.
pub replay_files-append_batch :
    (files : List Bytes) (s : MemTable × ℕ)
    → (replay_files files s).0 ≡ append_batch (parse_files files) s.0
unfolding replay_files append_batch
replay_files-append_batch [] s = refl
replay_files-append_batch (bytes ∷ files) s =
    replay_files-append_batch files (replay_file bytes s)
    ∙ ap (append_batch (parse_files files)) (replay_file-append_batch bytes s)
    ∙ sym (append_batch-append (parse_journal_records bytes) (parse_files files) s.0)
