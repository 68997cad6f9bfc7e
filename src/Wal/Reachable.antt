-- ===== src/Wal/Reachable.antt =====
-- The states of the log that its operations reach (wal.go).
use eavt_sql.Prelude.{
  ℕ, zero, suc, ◌≤◌, ◌<◌, ◌≡◌, ◌⊎◌, inl, inr, refl, ap, sym, subst, false, Option, none, some, List,
  [], ◌∷◌, ◌++◌, ltb, if◌then◌else◌, length, arith, append-nil,
}
use eavt_sql.Bytes.Order.{Bytes}
use eavt_sql.Memtable.Ladder.{CfKey}
use eavt_sql.Wal.{
  FileOutcome, done, fails, Files, Writer, succeeded, next_outcome, open_outcome, sink_records,
  sink, seal, stop, after_drain,
}
use eavt_sql.Wal.Segments.{max_index, next_index, fresh_writer, complete, attach, delete_durable}
use eavt_sql.Wal.Log.{IsLog, Holds}
use eavt_sql.Wal.Rotate.{Keeps-open_outcome}
use eavt_sql.Wal.Drain.{OnSuccess}
use eavt_sql.Wal.Marks.{
  Marks, Marks-weaken, Marks-sink, Marks-after_drain, Marks-stop, Marks-delete_durable,
}
use eavt_sql.Wal.Cuts.{IsCut, IsCut-append, IsCut-end, sink_records-append}
use eavt_sql.Wal.Steps.{stream_end, after_drain-Holds, seal-Holds, stop-Holds, sink-Holds}
use eavt_sql.Wal.Delete.{delete_durable-RemovesDurable}

-- The number is that of one of the names.
abbrev pub IsListed : ℕ → List (Option ℕ) → Type 0
IsListed i [] = ⊥
IsListed i (none ∷ names) = IsListed i names
IsListed i (some j ∷ names) = (i ≡ j) ⊎ IsListed i names

-- The names are those of all files in the directory.
abbrev pub ListsFiles : List (Option ℕ) → Files → Type 0
ListsFiles names fs = (i : ℕ) → (fs i ≡ none) ⊎ IsListed i names

listed_below :
    (i : ℕ) (names : List (Option ℕ)) → IsListed i names → i < next_index (max_index names)
listed_below i [] h = elim h [ ]
listed_below i (none ∷ names) h = listed_below i names h
listed_below i (some j ∷ names) h =
    below (max_index names) (elim h [ inl e ↦ inl e | inr k ↦ inr (listed_below i names k) ])
  where
    below :
        (m : Option ℕ)
        → (i ≡ j) ⊎ (i < next_index m)
        → i < next_index (elim m [ some k ↦ some (if ltb j k then k else j) | none ↦ some j ])
    below none h = ground arith
    below (some k) h = ground arith

IsLog-fresh_writer :
    (n : ℕ) (fs : Files) (os : List FileOutcome)
    → ((i : ℕ) → n ≤ i → fs i ≡ none)
    → IsLog [] [] [] [] (fresh_writer n fs os)
IsLog-fresh_writer n fs os unused = record {
  chain = omega arith;
  whole = refl;
  live_file = ap (λ z. elim z [ some bs ↦ bs | none ↦ [] ]) (unused n (omega arith));
  position = refl;
  ending = refl;
  room = omega arith;
  handle = λ h. refl;
  fresh = λ i h. unused i (omega (arith, h));
}

attach-Holds :
    (names : List (Option ℕ)) (fs : Files) (os : List FileOutcome)
    → ListsFiles names fs
    → OnSuccess (λ w. Marks (IsCut []) w × Holds [] [] w) (attach (complete names) fs os)
unfolding attach
attach-Holds names fs os h =
    let n = next_index (max_index names) in
    let unused : (i : ℕ) → n ≤ i → fs i ≡ none =
      λ i le. elim (h i) [ inl e ↦ e | inr k ↦ ground (arith, le, listed_below i names k) ] in
    let l = IsLog-fresh_writer n fs os unused in
    let os' = (next_outcome os).1 in
    elim (next_outcome os).0
      as (λ o.
        OnSuccess (λ w. Marks (IsCut []) w × Holds [] [] w)
          (open_outcome o (fresh_writer n fs os'))) [
            | done ↦ ((tt, tt), Keeps-open_outcome [] [] (fresh_writer n fs os) l os' done)
            | fails k ↦
                elim k
                  as (λ k.
                    OnSuccess (λ w. Marks (IsCut []) w × Holds [] [] w)
                      (open_outcome (fails k) (fresh_writer n fs os'))) [ zero ↦ tt | suc k ↦ tt ]
          ]

-- A state of the log after these entries, from an attach that listed all files, with the durable
-- position that segments were last removed by.
pub data IsReachable : List CfKey → ℕ → Writer → Type 0 where
  attached :
      (names : List (Option ℕ)) (fs : Files) (os : List FileOutcome) (w : Writer)
      → ListsFiles names fs
      → attach (complete names) fs os ≡ succeeded w
      → IsReachable [] 0 w
  sunk :
      (es : List CfKey) (durable : ℕ) (w : Writer) (more : List CfKey)
      → w.stopped ≡ false
      → IsReachable es durable w
      → IsReachable (es ++ more) durable (sink more w)
  sealed :
      (es : List CfKey) (durable : ℕ) (w : Writer)
      → IsReachable es durable w
      → IsReachable es durable (seal w).1
  drained :
      (es : List CfKey) (durable : ℕ) (w : Writer)
      → IsReachable es durable w
      → IsReachable es durable (after_drain w)
  deleted :
      (es : List CfKey) (durable later : ℕ) (w : Writer)
      → durable ≤ later
      → IsReachable es durable w
      → IsReachable es later (delete_durable (some later) w)
  stopped :
      (es : List CfKey) (durable : ℕ) (w : Writer)
      → IsReachable es durable w
      → IsReachable es durable (stop w)

-- Removed bytes at or before the durable position, and boundaries between records only.
abbrev pub Kept : List CfKey → ℕ → Writer → Type 0
Kept es durable w =
    (removed : Bytes) × (length removed ≤ durable)
    × IsCut es (length removed)
    × Marks (IsCut es) w
    × Holds (sink_records es) removed w

module _ (es : List CfKey) (durable : ℕ) (w : Writer) where
  Kept-sink :
      (more : List CfKey)
      → w.stopped ≡ false
      → Kept es durable w
      → Kept (es ++ more) durable (sink more w)
  Kept-sink more live (removed, before, cut, marks, h) =
      let longer = λ (b : ℕ). IsCut-append es more b in
      (
        removed,
        before,
        longer (length removed) cut,
        Marks-sink (IsCut (es ++ more)) more w
            (Marks-weaken (IsCut es) (IsCut (es ++ more)) longer w marks),
        subst (λ z. Holds z removed (sink more w)) (sym (sink_records-append es more))
            (sink-Holds (sink_records es) removed more w live h),
      )

  Kept-seal : Kept es durable w → Kept es durable (seal w).1
  unfolding seal
  Kept-seal (removed, before, cut, marks, h) = (
    removed,
    before,
    cut,
    (marks.0, subst (IsCut es) (stream_end (sink_records es) removed w h) (IsCut-end es)),
    seal-Holds (sink_records es) removed w h,
  )

  Kept-delete :
      (later : ℕ)
      → durable ≤ later
      → Kept es durable w
      → Kept es later (delete_durable (some later) w)
  Kept-delete later le (removed, before, cut, marks, h) =
      let (more, small, cut', marks', h') =
        delete_durable-RemovesDurable (IsCut es) (sink_records es) later removed w cut marks.0 h in
      let here : length (removed ++ []) ≤ later =
        subst (λ z. length z ≤ later) (sym (append-nil removed)) (omega (arith, before, le)) in
      (
        removed ++ more,
        elim small [ inl e ↦ subst (λ z. length (removed ++ z) ≤ later) (sym e) here | inr k ↦ k ],
        cut',
        Marks-delete_durable (IsCut es) later w marks' marks.1,
        h',
      )

-- In every state that the log reaches from an attach that listed all files of its directory,
-- whatever writes, openings and removals of files failed, the stream of records is what the sealed
-- segments, the live segment and the buffer hold, after removed bytes that all lie before the
-- durable position; each boundary is the end of a record.
pub IsReachable-Kept :
    (es : List CfKey) (durable : ℕ) (w : Writer) → IsReachable es durable w → Kept es durable w
IsReachable-Kept _ _ _ (attached names fs os w h e) =
    let l =
      subst (OnSuccess (λ w. Marks (IsCut []) w × Holds [] [] w)) e (attach-Holds names fs os h) in
    ([], omega arith, (0, refl), l.0, l.1)
IsReachable-Kept _ _ _ (sunk es durable w more live r) =
    Kept-sink es durable w more live (IsReachable-Kept es durable w r)
IsReachable-Kept _ _ _ (sealed es durable w r) =
    Kept-seal es durable w (IsReachable-Kept es durable w r)
IsReachable-Kept _ _ _ (drained es durable w r) =
    let (removed, before, cut, marks, h) = IsReachable-Kept es durable w r in
    (
      removed,
      before,
      cut,
      Marks-after_drain (IsCut es) w marks,
      after_drain-Holds (sink_records es) removed w h,
    )
IsReachable-Kept _ _ _ (deleted es durable later w le r) =
    Kept-delete es durable w later le (IsReachable-Kept es durable w r)
IsReachable-Kept _ _ _ (stopped es durable w r) =
    let (removed, before, cut, marks, h) = IsReachable-Kept es durable w r in
    (removed, before, cut, Marks-stop (IsCut es) w marks, stop-Holds (sink_records es) removed w h)
