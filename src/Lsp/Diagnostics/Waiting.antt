-- ===== src/Lsp/Diagnostics/Waiting.antt =====
-- When a reader of plugins/lsp/src/session/diagnostic_store/mod.rs waits, and for what.
use mathlib.Core.Logic.{if_pos, if_neg}
use nyne.Prelude.{
  ◌≡◌, ◌≢◌, refl, sym, ap, ◌∙◌, Bool, true, false, some, List, [], ◌∷◌, ◌++◌, if◌then◌else◌,
}
use nyne.Prelude.Maps.{lookup, lookup-insert, lookup-remove}
use nyne.Lsp.Diagnostics.{
  FileEntry, Files, soiled, mark_dirty, publish, forget, signal_refresh, entry_dirty,
  entry_diagnostics, is_dirty, stored, Event, marked, published, removed, refreshed, notified,
  locked, apply, wait, get_or_wait,
}

abbrev pub dirty_entry : {Diagnostic : Type 0} → List Diagnostic → FileEntry Diagnostic
dirty_entry diagnostics = record { diagnostics = diagnostics; dirty = true }

abbrev clean_entry : {Diagnostic : Type 0} → List Diagnostic → FileEntry Diagnostic
clean_entry diagnostics = record { diagnostics = diagnostics; dirty = false }

module _ {File Diagnostic : Type 0} (path : File) where
  -- Events that leave the entry of the path dirty as it is: all on other files, marks, notifications and
  -- attempts of the reader.
  abbrev pub Keeps : Event File Diagnostic → Type 0
  Keeps (marked other) = Unit {0}
  Keeps (published other diagnostics) = other ≢ path
  Keeps (removed other) = other ≢ path
  Keeps refreshed = ⊥
  Keeps notified = Unit {0}
  Keeps locked = Unit {0}

  abbrev pub AllKeep : List (Event File Diagnostic) → Type 0
  AllKeep [] = Unit {0}
  AllKeep (event ∷ events) = Keeps event × AllKeep events

  -- Events in which the reader gets the lock after a notification, and the file is not touched before.
  abbrev pub Reaches : Bool → List (Event File Diagnostic) → Type 0
  Reaches woken [] = ⊥
  Reaches woken (marked other ∷ events) = (other ≢ path) × Reaches woken events
  Reaches woken (published other diagnostics ∷ events) = (other ≢ path) × Reaches woken events
  Reaches woken (removed other ∷ events) = (other ≢ path) × Reaches woken events
  Reaches woken (refreshed ∷ events) = Reaches woken events
  Reaches woken (notified ∷ events) = Reaches true events
  Reaches woken (locked ∷ events) = if woken then Unit {0} else Reaches false events

  Reaches-woken :
      (events : List (Event File Diagnostic)) → Reaches false events → Reaches true events
  Reaches-woken [] h = h
  Reaches-woken (marked other ∷ events) (first, h) = (first, Reaches-woken events h)
  Reaches-woken (published other diagnostics ∷ events) (first, h) = (first, Reaches-woken events h)
  Reaches-woken (removed other ∷ events) (first, h) = (first, Reaches-woken events h)
  Reaches-woken (refreshed ∷ events) h = Reaches-woken events h
  Reaches-woken (notified ∷ events) h = h
  Reaches-woken (locked ∷ events) h = tt

module _ {File Diagnostic : Type 0} (eq : Discrete File) (path : File) where
  lookup-mark_other :
      (other : File) (files : Files File Diagnostic)
      → other ≢ path
      → lookup eq path (apply eq (marked other) files) ≡ lookup eq path files
  unfolding apply mark_dirty
  lookup-mark_other other files differs =
      lookup-insert eq path other _ files ∙ if_neg (eq other path) differs _ _

  lookup-publish_other :
      (other : File) (diagnostics : List Diagnostic) (files : Files File Diagnostic)
      → other ≢ path
      → lookup eq path (apply eq (published other diagnostics) files) ≡ lookup eq path files
  unfolding apply publish
  lookup-publish_other other diagnostics files differs =
      lookup-insert eq path other _ files ∙ if_neg (eq other path) differs _ _

  lookup-remove_other :
      (other : File) (files : Files File Diagnostic)
      → other ≢ path
      → lookup eq path (apply eq (removed other) files) ≡ lookup eq path files
  unfolding apply forget
  lookup-remove_other other files differs =
      lookup-remove eq path other files ∙ if_neg (eq other path) differs _ _

  lookup-mark :
      (other : File) (files : Files File Diagnostic) (old : List Diagnostic)
      → lookup eq path files ≡ some (dirty_entry old)
      → lookup eq path (apply eq (marked other) files) ≡ some (dirty_entry old)
  unfolding apply mark_dirty
  lookup-mark other files old found = lookup-insert eq path other _ files ∙ elim (eq other path) [
    | yes same ↦
        if_pos (eq other path) same _ _
        ∙ ap some (ap soiled (ap (λ q. lookup eq q files) same ∙ found))
    | no differs ↦ if_neg (eq other path) differs _ _ ∙ found
  ]

  lookup-refresh :
      (files : Files File Diagnostic) (new : List Diagnostic)
      → lookup eq path files ≡ some (clean_entry new)
      → lookup eq path (apply eq refreshed files) ≡ some (clean_entry new)
  unfolding apply signal_refresh lookup
  lookup-refresh [] new found = found
  lookup-refresh ((other, e) ∷ files) new found = elim (eq other path) [
    | yes same ↦
        let here : some e ≡ some (clean_entry new) =
          sym (if_pos (eq other path) same _ _) ∙ found in
        let w : e ≡ clean_entry new = cc in
        if_pos (eq other path) same _ _
        ∙ ap
            (λ (q : FileEntry Diagnostic).
              some (record { diagnostics = q.diagnostics; dirty = false }))
            w
    | no differs ↦
        if_neg (eq other path) differs _ _
        ∙ lookup-refresh files new (sym (if_neg (eq other path) differs _ _) ∙ found)
  ]

  found-dirty :
      (files : Files File Diagnostic) (old : List Diagnostic)
      → lookup eq path files ≡ some (dirty_entry old)
      → is_dirty eq files path ≡ true
  unfolding is_dirty
  found-dirty files old found = ap entry_dirty found

  found-clean :
      (files : Files File Diagnostic) (new : List Diagnostic)
      → lookup eq path files ≡ some (clean_entry new)
      → (is_dirty eq files path ≡ false) × (stored eq files path ≡ new)
  unfolding is_dirty stored
  found-clean files new found = (ap entry_dirty found, ap entry_diagnostics found)

  Skipped :
      List (Event File Diagnostic)
      → List (Event File Diagnostic)
      → List Diagnostic
      → Bool
      → Files File Diagnostic
      → Type 0
  Skipped events rest old woken files =
      (woken' : Bool) × (files' : Files File Diagnostic) × (lookup eq path files'
        ≡ some (dirty_entry old))
      × (wait eq path woken files (events ++ rest) ≡ wait eq path woken' files' rest)

  -- A reader that waits sleeps through what leaves the file dirty.
  wait-skip :
      (events rest : List (Event File Diagnostic)) (old : List Diagnostic) (woken : Bool)
      (files : Files File Diagnostic)
      → AllKeep path events
      → lookup eq path files ≡ some (dirty_entry old)
      → Skipped events rest old woken files
  unfolding wait Skipped
  wait-skip [] rest old woken files keep found = (woken, files, found, refl)
  wait-skip (marked other ∷ events) rest old woken files (first, keep) found =
      wait-skip events rest old woken _ keep (lookup-mark other files old found)
  wait-skip (published other diagnostics ∷ events) rest old woken files (first, keep) found =
      wait-skip events rest old woken _ keep
        (lookup-publish_other other diagnostics files first ∙ found)
  wait-skip (removed other ∷ events) rest old woken files (first, keep) found =
      wait-skip events rest old woken _ keep (lookup-remove_other other files first ∙ found)
  wait-skip (refreshed ∷ events) rest old woken files (first, keep) found = absurd first
  wait-skip (notified ∷ events) rest old woken files (first, keep) found =
      wait-skip events rest old true files keep found
  wait-skip (locked ∷ events) rest old true files (first, keep) found =
      rw (found-dirty files old found) (wait-skip events rest old false files keep found)
  wait-skip (locked ∷ events) rest old false files (first, keep) found =
      wait-skip events rest old false files keep found

  -- Once the file is clean, a reader that gets the lock after a notification answers what is there.
  wait-Reaches :
      (events : List (Event File Diagnostic)) (new : List Diagnostic) (woken : Bool)
      (files : Files File Diagnostic)
      → Reaches path woken events
      → lookup eq path files ≡ some (clean_entry new)
      → stored eq (wait eq path woken files events).0 path ≡ new
  unfolding wait
  wait-Reaches [] new woken files h found = absurd h
  wait-Reaches (marked other ∷ events) new woken files (first, h) found =
      wait-Reaches events new woken _ h (lookup-mark_other other files first ∙ found)
  wait-Reaches (published other diagnostics ∷ events) new woken files (first, h) found =
      wait-Reaches events new woken _ h (lookup-publish_other other diagnostics files first ∙ found)
  wait-Reaches (removed other ∷ events) new woken files (first, h) found =
      wait-Reaches events new woken _ h (lookup-remove_other other files first ∙ found)
  wait-Reaches (refreshed ∷ events) new woken files h found =
      wait-Reaches events new woken _ h (lookup-refresh files new found)
  wait-Reaches (notified ∷ events) new woken files h found =
      wait-Reaches events new true files h found
  wait-Reaches (locked ∷ events) new true files h found =
      let (still, here) = found-clean files new found in rw still here
  wait-Reaches (locked ∷ events) new false files h found =
      wait-Reaches events new false files h found

  published_lem :
      (files : Files File Diagnostic) (new : List Diagnostic)
      → lookup eq path (apply eq (published path new) files) ≡ some (clean_entry new)
  unfolding apply publish
  published_lem files new = lookup-insert eq path path _ files ∙ if_pos (eq path path) refl _ _

  either_woken :
      (woken : Bool) (events : List (Event File Diagnostic))
      → Reaches path false events
      → Reaches path woken events
  either_woken true events h = Reaches-woken path events h
  either_woken false events h = h

  -- A reader of a dirty file sleeps through marks and through what happens to other files, except
  -- refreshes. If then diagnostics of the file are published, and the reader gets the lock after a
  -- notification that follows, before the file is marked, published or removed again, it answers those.
  pub get_or_wait-published :
      (events rest : List (Event File Diagnostic)) (files : Files File Diagnostic)
      (old new : List Diagnostic)
      → lookup eq path files ≡ some (dirty_entry old)
      → AllKeep path events
      → Reaches path false rest
      → (get_or_wait eq path files (events ++ published path new ∷ rest)).0 ≡ new
  unfolding get_or_wait Skipped
  get_or_wait-published events rest files old new found keep reaches =
      let (woken, files', still, same) =
        wait-skip events (published path new ∷ rest) old false files keep found in
      rw (found-dirty files old found, same)
        (unfold wait in
          wait-Reaches rest new woken _ (either_woken woken rest reaches)
            (published_lem files' new))
