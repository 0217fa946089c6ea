-- ===== src/Streaming/Buffers.antt =====
-- The read buffers of `StreamingScheduler` of src/swlp/core/streaming.py in direct I/O mode, for shards
-- that are not compressed: the free-list `_buf_pool`, the tasks that have taken a buffer from it, each
-- in `_read_and_deserialize` or between it and `_upload_to_device`, and what has been copied to the
-- device. Every step of a task is an event, so that a list of events is an interleaving of the tasks
-- of the two thread pools. A buffer is a number, its contents are in `memory`.
use swlp.Prelude.{
  ℕ, suc, ◌+◌, Option, none, some, List, [], ◌∷◌, ◌++◌, ◌==◌, ltb, if◌then◌else◌, length, put,
}
use swlp.ShardIo.{Parser, TensorInfo, splice, read_header, views_at}
use swlp.ExpertBank.Ranges.{range_of}

pub data Task : Type 0 where
  idle : Task
  -- the layer, the buffer that was taken from the free-list, the buffer that is read into and the
  -- number of bytes that it has got
  reading : ℕ → Option ℕ → ℕ → ℕ → Task
  -- the layer, the buffer and the header of the tensors that are views of it
  parsed : ℕ → ℕ → Option (ℕ × List TensorInfo) → Task

pub data Event : Type 0 where
  begin_read : ℕ → ℕ → Event
  deliver : ℕ → ℕ → Event
  end_read : ℕ → Event
  fail_read : ℕ → Event
  upload : ℕ → Event
  fail_upload : ℕ → Event

module _ (parser : Parser) where
  pub record Buffers : Type 0 where
    pub memory : ℕ → List ℕ
    -- the number of the next buffer that is allocated
    pub next : ℕ
    pub pool : List ℕ
    pub tasks : ℕ → Task
    pub device : ℕ → Option (List (ℕ × parser.Tensor))

  abbrev pub no_buffers : Buffers
  no_buffers = record {
    memory = λ b. [];
    next = 0;
    pool = [];
    tasks = λ t. idle;
    device = λ i. none;
  }

  -- The task `t` gives back a buffer and ends.
  abbrev pub given_back : ℕ → Option ℕ → Buffers → Buffers
  given_back t none s = record s { tasks = put s.tasks t idle }
  given_back t (some b) s = record s { tasks = put s.tasks t idle; pool = s.pool ++ b ∷ [] }

  module _ (fresh : ℕ → List ℕ) (files : ℕ → List ℕ) where
    -- `read_into_tensor` allocates a buffer if it has none or one that is too small.
    abbrev pub allocated : ℕ → ℕ → Option ℕ → Buffers → Buffers
    allocated t layer taken s = record s {
      memory = put s.memory s.next (fresh (length (files layer)));
      next = suc s.next;
      tasks = put s.tasks t (reading layer taken s.next 0);
    }

    abbrev pub begun : ℕ → ℕ → List ℕ → Buffers → Buffers
    begun t layer [] s = allocated t layer none s
    begun t layer (b ∷ bs) s =
        if ltb (length (s.memory b)) (length (files layer))
        then allocated t layer (some b) (record s { pool = bs })
        else record s { pool = bs; tasks = put s.tasks t (reading layer (some b) b 0) }

    abbrev pub begin_idle : ℕ → ℕ → Task → Buffers → Buffers
    begin_idle t layer idle s = begun t layer s.pool s
    begin_idle t layer (reading l taken b got) s = s
    begin_idle t layer (parsed l b header) s = s

    -- A `readinto` of `n` bytes, or of fewer at the end of the file.
    abbrev pub delivered : ℕ → ℕ → Task → Buffers → Buffers
    delivered t n idle s = s
    delivered t n (parsed l b header) s = s
    delivered t n (reading layer taken b got) s =
        let bytes = range_of (files layer) got n in
        record s {
          memory = put s.memory b (splice (s.memory b) got bytes);
          tasks = put s.tasks t (reading layer taken b (got + length bytes));
        }

    -- The parse of the buffer, which may raise.
    abbrev pub parsed_as :
        ℕ
        → ℕ
        → ℕ
        → Option (ℕ × List TensorInfo)
        → Option (List (ℕ × parser.Tensor))
        → Buffers
        → Buffers
    parsed_as t layer b header none s = given_back t (some b) s
    parsed_as t layer b header (some views) s = record s {
      tasks = put s.tasks t (parsed layer b header);
    }

    abbrev pub read_ended : ℕ → Task → Buffers → Buffers
    read_ended t idle s = s
    read_ended t (parsed l b header) s = s
    read_ended t (reading layer taken b got) s =
        let header = read_header parser (s.memory b) (length (files layer)) in
        if got == length (files layer)
        then parsed_as t layer b header (views_at parser (s.memory b) header) s
        else s

    -- An exception of the read: the buffer from the free-list returns to it.
    abbrev pub read_failed : ℕ → Task → Buffers → Buffers
    read_failed t idle s = s
    read_failed t (parsed l b header) s = s
    read_failed t (reading layer taken b got) s = given_back t taken s

    -- The copy to the device reads the views, so it sees what the buffer holds now.
    abbrev pub upload_done : ℕ → Task → Buffers → Buffers
    upload_done t idle s = s
    upload_done t (reading layer taken b got) s = s
    upload_done t (parsed layer b header) s =
        given_back t (some b)
          (record s { device = put s.device layer (views_at parser (s.memory b) header) })

    abbrev pub upload_failed : ℕ → Task → Buffers → Buffers
    upload_failed t idle s = s
    upload_failed t (reading layer taken b got) s = s
    upload_failed t (parsed layer b header) s = given_back t (some b) s

    unfoldable pub take_step : Event → Buffers → Buffers
    take_step (begin_read t layer) s = begin_idle t layer (s.tasks t) s
    take_step (deliver t n) s = delivered t n (s.tasks t) s
    take_step (end_read t) s = read_ended t (s.tasks t) s
    take_step (fail_read t) s = read_failed t (s.tasks t) s
    take_step (upload t) s = upload_done t (s.tasks t) s
    take_step (fail_upload t) s = upload_failed t (s.tasks t) s

    -- The events in their order.
    unfoldable pub interleaved : List Event → Buffers → Buffers
    interleaved [] s = s
    interleaved (e ∷ es) s = interleaved es (take_step e s)
