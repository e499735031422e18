-- ===== src/Journal/Writer/Closing.antt =====
-- Closing a journal: what a replay of the closed one finds.
use load_forge.Common.{ℕ, ◌≡◌, List, true}
use load_forge.Journal.Writer.{Storage, IsStorage, Writer, Answer}

module _ {S : Type 0} (disk : Storage S) (laws : IsStorage disk) where
  open laws use {contents, append_done, sync_keeps, read_all_contents}

  IsClosedWith : List ℕ → Answer × Writer S → Type 0
  IsClosedWith bytes closing = (closing.1.is_closed ≡ true) × (contents closing.1.stored ≡ bytes)
