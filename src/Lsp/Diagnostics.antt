-- ===== src/Lsp/Diagnostics.antt =====
-- `DiagnosticStore` of plugins/lsp/src/session/diagnostic_store/mod.rs. Each operation holds the lock
-- throughout, so the threads are a sequence of operations; `publish` and `signal_refresh` notify after they
-- have released it. A reader that waits sees the operations of the other threads up to its timeout; once
-- notified it has to get the lock again, at which it tests the file anew.
pub mod Waiting
pub mod Tests
use nyne.Prelude.{
  ℕ, ◌≡◌, Bool, true, false, not, ◌&&◌, Option, none, some, List, [], ◌∷◌, ◌++◌, if◌then◌else◌, map,
}
use nyne.Prelude.Maps.{lookup, insert, remove}

pub record FileEntry (Diagnostic : Type 0) : Type 0 where
  pub diagnostics : List Diagnostic
  pub dirty : Bool

abbrev pub Files : Type 0 → Type 0 → Type 0
Files File Diagnostic = List (File × FileEntry Diagnostic)

module _ {Diagnostic : Type 0} where
  abbrev pub soiled : Option (FileEntry Diagnostic) → FileEntry Diagnostic
  soiled none = record { diagnostics = []; dirty = true }
  soiled (some e) = record e { dirty = true }

  abbrev pub entry_dirty : Option (FileEntry Diagnostic) → Bool
  entry_dirty none = false
  entry_dirty (some e) = e.dirty

  abbrev pub entry_diagnostics : Option (FileEntry Diagnostic) → List Diagnostic
  entry_diagnostics none = []
  entry_diagnostics (some e) = e.diagnostics

module _ {File Diagnostic : Type 0} where
  abbrev pub clean : File × FileEntry Diagnostic → File × FileEntry Diagnostic
  clean (path, e) = (path, record e { dirty = false })

  unfoldable pub signal_refresh : Files File Diagnostic → Files File Diagnostic
  signal_refresh files = map clean files

module _ {File Diagnostic : Type 0} (eq : Discrete File) where
  unfoldable pub mark_dirty : Files File Diagnostic → File → Files File Diagnostic
  mark_dirty files path = insert eq path (soiled (lookup eq path files)) files

  unfoldable pub publish : Files File Diagnostic → File → List Diagnostic → Files File Diagnostic
  publish files path diagnostics =
      insert eq path (record { diagnostics = diagnostics; dirty = false }) files

  unfoldable pub forget : Files File Diagnostic → File → Files File Diagnostic
  forget files path = remove eq path files

  unfoldable pub is_dirty : Files File Diagnostic → File → Bool
  is_dirty files path = entry_dirty (lookup eq path files)

  unfoldable pub stored : Files File Diagnostic → File → List Diagnostic
  stored files path = entry_diagnostics (lookup eq path files)

-- What other threads do under the lock, their notifications, and the reader's getting the lock again.
pub data Event (File Diagnostic : Type 0) : Type 0 where
  marked : File → Event File Diagnostic
  published : File → List Diagnostic → Event File Diagnostic
  removed : File → Event File Diagnostic
  refreshed : Event File Diagnostic
  notified : Event File Diagnostic
  locked : Event File Diagnostic

module _ {File Diagnostic : Type 0} (eq : Discrete File) where
  unfoldable pub apply : Event File Diagnostic → Files File Diagnostic → Files File Diagnostic
  apply (marked path) files = mark_dirty eq files path
  apply (published path diagnostics) files = publish eq files path diagnostics
  apply (removed path) files = forget eq files path
  apply refreshed files = signal_refresh files
  apply notified files = files
  apply locked files = files

  -- `wait_while_for`. The flag tells whether the reader was notified since it last went to sleep: then it
  -- can get the lock, and goes on if the file is clean, or to sleep again. The end of the events is the
  -- timeout, with the lock taken. The second answer is what happens after the reader has left.
  unfoldable pub wait :
      File
      → Bool
      → Files File Diagnostic
      → List (Event File Diagnostic)
      → Files File Diagnostic × List (Event File Diagnostic)
  wait path woken files [] = (files, [])
  wait path woken files (notified ∷ events) = wait path true files events
  wait path woken files (locked ∷ events) =
      let later = wait path false files events in
      let asleep = wait path woken files events in
      if woken then (if is_dirty eq files path then later else (files, events)) else asleep
  wait path woken files (event ∷ events) = wait path woken (apply event files) events

  unfoldable pub get_or_wait :
      File
      → Files File Diagnostic
      → List (Event File Diagnostic)
      → List Diagnostic × List (Event File Diagnostic)
  get_or_wait path files events =
      if is_dirty eq files path
      then (let (files', rest) = wait path false files events in (stored eq files' path, rest))
      else (stored eq files path, events)
