-- ===== src/Os/Messages.antt =====
-- src/common/hzl_CommonOsNewMsg.c, and src/server/hzl_ServerNewMsg.c and src/client/hzl_ClientNewMsg.c,
-- which call it.
use hazelnet.Base.{ℕ, ◌≡◌, ◌≢◌, ◌↔◌, Bool, arith, Option, some, none}
use hazelnet.Base.All.{All}
use hazelnet.Err.{Err, ok, null_pdu, malloc_failed}
use hazelnet.Loading.Heap.{Block, Heap, IsCleared, calloc, secure_free, release}
use hazelnet.Base.{if◌then◌else◌}

module _ (works : ℕ → Bool) (size : ℕ) where
  -- `hzl_CommonNewMsg` with the `sizeof` of a message: the error, what `*pMsg` is set to, and the heap.
  unfoldable pub common_new_msg : Bool → Heap → Err × Option Block × Heap
  common_new_msg null_out heap =
      let (block, heap') = calloc works 1 size heap in
      let err : Err = elim block as (λ _. Err) [ none ↦ malloc_failed | some _ ↦ ok ] in
      if null_out then (null_pdu, none, heap) else (err, block, heap')

  -- `hzl_CommonFreeMsg` of a pointer that is not NULL.
  unfoldable pub common_free_msg : Option Block → Heap → Option Block × Heap
  common_free_msg block heap = (none, secure_free block size heap)

  unfoldable pub server_new_msg : Bool → Heap → Err × Option Block × Heap
  server_new_msg null_out heap = common_new_msg null_out heap

  unfoldable pub server_free_msg : Option Block → Heap → Option Block × Heap
  server_free_msg block heap = common_free_msg block heap

  unfoldable pub client_new_msg : Bool → Heap → Err × Option Block × Heap
  client_new_msg null_out heap = common_new_msg null_out heap

  unfoldable pub client_free_msg : Option Block → Heap → Option Block × Heap
  client_free_msg block heap = common_free_msg block heap

  -- A message that was allocated and freed again, by the functions of the Server or of the Client,
  -- leaves the heap with the blocks that it had, and everything freed was cleared as a whole, if
  -- what was freed earlier was. There is a message exactly on HZL_OK.
  pub free_msg-new_msg :
      (null_out : Bool) (heap : Heap)
      → All IsCleared heap.freed
      → let (err, msg, heap') = server_new_msg null_out heap in
        let heap'' = (server_free_msg msg heap').1 in
        (heap''.live ≡ heap.live)
        × All IsCleared heap''.freed
        × ((err ≡ ok) ↔ (msg ≢ none))
        × (client_new_msg null_out heap ≡ (err, msg, heap'))
        × ((client_free_msg msg heap').1 ≡ heap'')
  unfolding server_new_msg server_free_msg client_new_msg client_free_msg common_new_msg
      common_free_msg calloc secure_free release
  free_msg-new_msg null_out heap h = ground (arith, h)
