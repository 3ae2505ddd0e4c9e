-- ===== src/Diff/Written.antt =====
-- What files hold after `apply_file_edits`, plugins/diff/src/provider/state.rs.
use Prim.Native.String.{String}
use mathlib.Core.Logic.{ite, if_pos, if_neg}
use nyne.Prelude.{
  ℕ, ◌≡◌, ◌≢◌, refl, ap, sym, ◌∙◌, Option, none, some, List, [], ◌∷◌, inl, inr, ite_cases,
}
use nyne.Diff.{
  Filesystem, FileEditResult, modify, apply_single_edit, apply_outcome, apply_file_edits,
  then_affect,
}
use nyne.Diff.Ending.{Applied, none_left, one_more, Ending, all_applied, apply_file_edits-Ending}
use nyne.Diff.Ending.{Applied, none_left, one_more, Ending, all_applied, apply_file_edits-Ending}

-- A file system whose files can be read back.
pub record IsReadable {W FilePath : Type 0} (fs : Filesystem W FilePath)
    (read : W → FilePath → List ℕ) : Type 0 where
  pub reads_back :
      (w : W) (p : FilePath) (text : List ℕ) (w' : W)
      → fs.write_file w p text ≡ (w', none)
      → read w' p ≡ text
  pub keeps_others :
      (w : W) (p : FilePath) (text : List ℕ) (w' : W)
      → fs.write_file w p text ≡ (w', none)
      → (q : FilePath) → q ≢ p
      → read w' q ≡ read w q

module _ {W FilePath : Type 0} (eq_text : Discrete (List ℕ)) (eq_path : Discrete FilePath)
    (fs : Filesystem W FilePath) (read : W → FilePath → List ℕ) where
  -- What a file holds after the edits.
  unfoldable pub expected : List (FileEditResult FilePath) → W → FilePath → List ℕ
  expected [] w q = read w q
  expected (e ∷ es) w q = ite (eq_path e.source_file q) e.modified (expected es w q)

  abbrev pub NotAmong : FilePath → List (FileEditResult FilePath) → Type 0
  NotAmong p [] = Unit {0}
  NotAmong p (e ∷ es) = (p ≢ e.source_file) × NotAmong p es

  -- Modifications of distinct files, each made from what its file holds.
  abbrev pub AllCurrent : W → List (FileEditResult FilePath) → Type 0
  AllCurrent w [] = Unit {0}
  AllCurrent w (e ∷ es) =
      (e.outcome ≡ modify)
      × (read w e.source_file ≡ e.original)
      × NotAmong e.source_file es
      × AllCurrent w es

  AllCurrent-keep :
      (w w' : W) (p : FilePath) (es : List (FileEditResult FilePath))
      → ((q : FilePath) → q ≢ p → read w' q ≡ read w q)
      → NotAmong p es
      → AllCurrent w es
      → AllCurrent w' es
  AllCurrent-keep w w' p [] same away h = tt
  AllCurrent-keep w w' p (e ∷ es) same away h = (
    h.0,
    same e.source_file (λ x. away.0 (sym x)) ∙ h.1,
    h.2,
    AllCurrent-keep w w' p es same away.1 h.3,
  )

  expected-away :
      (w : W) (q : FilePath) (es : List (FileEditResult FilePath))
      → NotAmong q es
      → expected es w q ≡ read w q
  unfolding expected
  expected-away w q [] away = refl
  expected-away w q (e ∷ es) away =
      rw (if_neg (eq_path e.source_file q) (λ x. away.0 (sym x))) (expected-away w q es away.1)

  expected-keep :
      (w w' : W) (q : FilePath) (es : List (FileEditResult FilePath))
      → read w' q ≡ read w q
      → expected es w' q ≡ expected es w q
  unfolding expected
  expected-keep w w' q [] same = same
  expected-keep w w' q (e ∷ es) same =
      ap (ite (eq_path e.source_file q) e.modified) (expected-keep w w' q es same)

  then_affect-none :
      (before more after : List FilePath) (r : W × Option String) (w' : W)
      → then_affect eq_text fs before more r ≡ (w', after, none)
      → r ≡ (w', none)
  then_affect-none before more after (w, none) w' h = ap (λ t. (t.0, none)) h
  then_affect-none before more after (w, some e) w' h =
      let refused : some e ≡ none = ap (λ t. t.2) h in cc

  -- One modification that succeeds.
  single_current :
      IsReadable fs read
      → (e : FileEditResult FilePath) (w w' : W) (before after : List FilePath) → e.outcome ≡ modify
      → read w e.source_file ≡ e.original
      → apply_single_edit eq_text fs e w before ≡ (w', after, none)
      → (read w' e.source_file ≡ e.modified)
        × ((q : FilePath) → q ≢ e.source_file → read w' q ≡ read w q)
  unfolding apply_single_edit
  single_current laws e w w' before after kind current h =
      let it : apply_outcome eq_text fs modify e w before ≡ (w', after, none) =
        ap (λ k. apply_outcome eq_text fs k e w before) (sym kind) ∙ h in
      elim (ite_cases (eq_text e.original e.modified) (w, before, none)
        (then_affect eq_text fs before (e.source_file ∷ [])
          (fs.write_file w e.source_file e.modified))
        it) [
          | inl (same, kept) ↦
              let world : w ≡ w' = ap (λ t. t.0) kept in
              (
                ap (λ v. read v e.source_file) (sym world) ∙ current ∙ same,
                λ q other. ap (λ v. read v q) (sym world),
              )
          | inr (changed, written) ↦
              let done : fs.write_file w e.source_file e.modified ≡ (w', none) =
                then_affect-none before (e.source_file ∷ []) after
                  (fs.write_file w e.source_file e.modified) w' written in
              (
                laws.reads_back w e.source_file e.modified w' done,
                laws.keeps_others w e.source_file e.modified w' done,
              )
        ]

  -- Modifications of distinct files that are all applied leave in each file what its edit says, and the
  -- other files as they were.
  pub Applied-expected :
      IsReadable fs read
      → {edits : List (FileEditResult FilePath)} {w w' : W} → Applied eq_text fs edits w w'
      → AllCurrent w edits
      → (q : FilePath) → read w' q ≡ expected edits w q
  unfolding expected
  Applied-expected laws none_left h q = refl
  Applied-expected laws
        (one_more {edit = edit} {edits = edits} {w = w} {w' = w1} {w'' = w'} before after done rest)
        h q =
      let (own, others) = single_current laws edit w w1 before after h.0 h.1 done in
      let later : read w' q ≡ expected edits w1 q =
        Applied-expected laws rest (AllCurrent-keep w w1 edit.source_file edits others h.2 h.3) q in
      elim (eq_path edit.source_file q) [
        | yes same ↦ rw (if_pos (eq_path edit.source_file q) same) (
            ap (read w') (sym same)
            ∙ Applied-expected laws rest
                (AllCurrent-keep w w1 edit.source_file edits others h.2 h.3) edit.source_file
            ∙ expected-away w1 edit.source_file edits h.2
            ∙ own)
        | no away ↦
            rw (if_neg (eq_path edit.source_file q) away)
              (later ∙ expected-keep w w1 q edits (others q (λ x. away (sym x))))
      ]

  -- Diffs of distinct files: when the application reports success, each file holds its modified text
  -- and the others are as they were.
  pub apply_file_edits-expected :
      IsReadable fs read
      → (edits : List (FileEditResult FilePath)) (w : W) → AllCurrent w edits
      → (apply_file_edits eq_text fs edits w []).2 ≡ none
      → (q : FilePath) → read (apply_file_edits eq_text fs edits w []).0 q ≡ expected edits w q
  apply_file_edits-expected laws edits w h success q =
      go (apply_file_edits eq_text fs edits w []) (apply_file_edits-Ending eq_text fs edits w [])
        success
    where
      go :
          (r : W × List FilePath × Option String)
          → Ending eq_text fs edits w r.0 r.2
          → r.2 ≡ none
          → read r.0 q ≡ expected edits w q
      go (w', a, none) (all_applied done) ok = Applied-expected laws done h q
      go (w', a, some e) ending ok = cc
