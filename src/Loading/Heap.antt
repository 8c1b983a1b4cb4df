-- ===== src/Loading/Heap.antt =====
-- The heap and the open files as src/server/hzl_ServerNew.c and the functions like it use them, and
-- HZL_SECURE_FREE of src/common/hzl_CommonInternal.h.
use hazelnet.Base.{
  ℕ, ◌+◌, ◌-◌, ◌*◌, ◌≡◌, Bool, List, [], ◌∷◌, Option, some, none, if◌then◌else◌, ◌==◌,
}

-- A block of the heap: which call of `calloc` gave it, and its size in bytes.
pub record Block : Type 0 where
  pub id : ℕ
  pub size : ℕ

-- A block that was freed, and how many of its bytes were cleared before.
pub record Freed : Type 0 where
  pub block : Block
  pub cleared : ℕ

pub record Heap : Type 0 where
  pub calls : ℕ
  pub live : List Block
  pub freed : List Freed
  pub open_files : ℕ

-- The whole block was cleared before it was freed.
abbrev pub IsCleared : Freed → Type 0
IsCleared f = f.cleared ≡ f.block.size

-- `calloc (amount, size)`; `works` says of each call whether there is memory.
unfoldable pub calloc : (ℕ → Bool) → ℕ → ℕ → Heap → Option Block × Heap
calloc works amount size heap =
    let block : Block = record { id = heap.calls; size = amount * size } in
    if works heap.calls
    then (some block, record heap { calls = heap.calls + 1; live = block ∷ heap.live })
    else (none, record heap { calls = heap.calls + 1 })

-- `free`
unfoldable pub release : ℕ → List Block → List Block
release id [] = []
release id (b ∷ bs) = let rest = release id bs in if b.id == id then bs else b ∷ rest

-- `HZL_SECURE_FREE`
unfoldable pub secure_free : Option Block → ℕ → Heap → Heap
secure_free none len heap = heap
secure_free (some block) len heap = record heap {
  live = release block.id heap.live;
  freed = record { block = block; cleared = len } ∷ heap.freed;
}

-- `fopen` of a file that can be read, and `fclose`
abbrev pub open_file : Heap → Heap
open_file heap = record heap { open_files = heap.open_files + 1 }

abbrev pub close_file : Heap → Heap
close_file heap = record heap { open_files = heap.open_files - 1 }

-- The blocks that a pointer owns.
abbrev pub owned : List (Option Block) → List Block
owned [] = []
owned (none ∷ ps) = owned ps
owned (some b ∷ ps) = b ∷ owned ps
