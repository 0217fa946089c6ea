-- ===== src/Streaming/Interleaved.antt =====
-- Any interleaving of the tasks of src/swlp/core/streaming.py over their read buffers, and what it copies
-- to the device.
use swlp.Prelude.{
  ℕ, Option, none, some, List, [], ◌∷◌, ◌≡◌, refl, sym, ap, subst, ◌∙◌, ◌==◌, length, take, arith,
  put, put-all, if-all, take_of_length-le,
}
use swlp.ShardIo.{Parser, TensorInfo, read_header, views_at, parse_safetensors_views}
use swlp.ShardIo.Views.{IsSafetensors, views_at-take, read_header-take}
use swlp.Streaming.Buffers.{
  Task, idle, reading, parsed, Event, begin_read, deliver, end_read, fail_read, upload, fail_upload,
  Buffers, no_buffers, begin_idle, delivered, parsed_as, read_ended, read_failed, upload_done,
  upload_failed, take_step, interleaved,
}
use swlp.Streaming.Owned.{Held, Inv, Exact, given_back-Inv}
use swlp.Streaming.Untouched.{begun-Inv, delivered-Inv}

module _ (parser : Parser) (files : ℕ → List ℕ) (fresh : ℕ → List ℕ)
    (empty : (n : ℕ) → length (fresh n) ≡ n)
    (inside : (i : ℕ) → IsSafetensors parser (files i)) where
  begin_idle-Inv :
      (t layer : ℕ) (task : Task) (s : Buffers parser)
      → Inv parser files s
      → Inv parser files (begin_idle parser fresh files t layer task s)
  begin_idle-Inv t layer idle s inv = begun-Inv parser files fresh empty t layer s.pool s refl inv
  begin_idle-Inv t layer (reading l taken b got) s inv = inv
  begin_idle-Inv t layer (parsed l b header) s inv = inv

  step_deliver-Inv :
      (t n : ℕ) (task : Task) (s : Buffers parser) (inv : Inv parser files s)
      → Held parser files inv.owner s.memory t task
      → Inv parser files (delivered parser fresh files t n task s)
  step_deliver-Inv t n idle s inv h = inv
  step_deliver-Inv t n (parsed l b header) s inv h = inv
  step_deliver-Inv t n (reading layer taken b got) s inv h =
      delivered-Inv parser files fresh empty t n layer taken b got s inv h

  parsed_as-Inv :
      (t layer b : ℕ) (header : Option (ℕ × List TensorInfo))
      (views : Option (List (ℕ × parser.Tensor))) (s : Buffers parser) (inv : Inv parser files s)
      → Held parser files inv.owner s.memory t (parsed layer b header)
      → Inv parser files (parsed_as parser fresh files t layer b header views s)
  parsed_as-Inv t layer b header none s inv h = given_back-Inv parser files t (some b) s inv h.0
  parsed_as-Inv t layer b header (some views) s inv h = record {
    owner = inv.owner;
    unused = inv.unused;
    free = inv.free;
    held =
        put-all (λ u task. Held parser files inv.owner s.memory u task) s.tasks t
          (parsed layer b header) h inv.held;
    exact = inv.exact;
  }

  read_ended-Inv :
      (t : ℕ) (task : Task) (s : Buffers parser) (inv : Inv parser files s)
      → Held parser files inv.owner s.memory t task
      → Inv parser files (read_ended parser fresh files t task s)
  read_ended-Inv t idle s inv h = inv
  read_ended-Inv t (parsed l b header) s inv h = inv
  read_ended-Inv t (reading layer taken b got) s inv (own, tb, low, fits, same) =
      let file = files layer in
      let buffer = s.memory b in
      let header = read_header parser buffer (length file) in
      if-all (Inv parser files) (got == length file)
        (parsed_as parser fresh files t layer b header (views_at parser buffer header) s) s
        (λ all.
          let e : got ≡ length file = ground arith in
          let holds : take (length file) buffer ≡ file =
            subst (λ k. take k buffer ≡ take k file) e same
            ∙ take_of_length-le (length file) file (omega arith) in
          parsed_as-Inv t layer b header (views_at parser buffer header) s inv (
            own,
            holds,
            read_header-take parser (length file) buffer
                ∙ ap (λ f. read_header parser f (length file)) holds,
          ))
        (λ more. inv)

  read_failed-Inv :
      (t : ℕ) (task : Task) (s : Buffers parser) (inv : Inv parser files s)
      → Held parser files inv.owner s.memory t task
      → Inv parser files (read_failed parser fresh files t task s)
  read_failed-Inv t idle s inv h = inv
  read_failed-Inv t (parsed l b header) s inv h = inv
  read_failed-Inv t (reading layer taken b got) s inv h =
      given_back-Inv parser files t taken s inv h.1

  -- The views of a parsed task show the file, so the copy of them is that of the file.
  views_at-Exact :
      (layer : ℕ) (buffer : List ℕ) (header : Option (ℕ × List TensorInfo))
      → take (length (files layer)) buffer ≡ files layer
      → header ≡ read_header parser (files layer) (length (files layer))
      → Exact parser files layer (views_at parser buffer header)
  unfolding parse_safetensors_views
  views_at-Exact layer buffer header holds same =
      let n = length (files layer) in
      let h = read_header parser (files layer) n in
      let shown : views_at parser buffer header ≡ views_at parser (files layer) h =
        ap (views_at parser buffer) same
        ∙ (sym (views_at-take parser n buffer h (inside layer))
            ∙ ap (λ f. views_at parser f h) holds) in
      of_views (views_at parser buffer header) (sym shown)
    where
      of_views :
          (o : Option (List (ℕ × parser.Tensor)))
          → parse_safetensors_views parser (files layer) (length (files layer)) ≡ o
          → Exact parser files layer o
      of_views none e = tt
      of_views (some views) e = e

  upload_done-Inv :
      (t : ℕ) (task : Task) (s : Buffers parser) (inv : Inv parser files s)
      → Held parser files inv.owner s.memory t task
      → Inv parser files (upload_done parser fresh files t task s)
  upload_done-Inv t idle s inv h = inv
  upload_done-Inv t (reading layer taken b got) s inv h = inv
  upload_done-Inv t (parsed layer b header) s inv (own, holds, same) =
      let copied = put s.device layer (views_at parser (s.memory b) header) in
      given_back-Inv parser files t (some b) (record s { device = copied })
        (record {
          owner = inv.owner;
          unused = inv.unused;
          free = inv.free;
          held = inv.held;
          exact =
              put-all (Exact parser files) s.device layer (views_at parser (s.memory b) header)
                (views_at-Exact layer (s.memory b) header holds same) inv.exact;
        })
        own

  upload_failed-Inv :
      (t : ℕ) (task : Task) (s : Buffers parser) (inv : Inv parser files s)
      → Held parser files inv.owner s.memory t task
      → Inv parser files (upload_failed parser fresh files t task s)
  upload_failed-Inv t idle s inv h = inv
  upload_failed-Inv t (reading layer taken b got) s inv h = inv
  upload_failed-Inv t (parsed layer b header) s inv h =
      given_back-Inv parser files t (some b) s inv h.0

  take_step-Inv :
      (e : Event) (s : Buffers parser)
      → Inv parser files s
      → Inv parser files (take_step parser fresh files e s)
  unfolding take_step
  take_step-Inv (begin_read t layer) s inv = begin_idle-Inv t layer (s.tasks t) s inv
  take_step-Inv (deliver t n) s inv = step_deliver-Inv t n (s.tasks t) s inv (inv.held t)
  take_step-Inv (end_read t) s inv = read_ended-Inv t (s.tasks t) s inv (inv.held t)
  take_step-Inv (fail_read t) s inv = read_failed-Inv t (s.tasks t) s inv (inv.held t)
  take_step-Inv (upload t) s inv = upload_done-Inv t (s.tasks t) s inv (inv.held t)
  take_step-Inv (fail_upload t) s inv = upload_failed-Inv t (s.tasks t) s inv (inv.held t)

  interleaved-Inv :
      (es : List Event) (s : Buffers parser)
      → Inv parser files s
      → Inv parser files (interleaved parser fresh files es s)
  unfolding interleaved
  interleaved-Inv [] s inv = inv
  interleaved-Inv (e ∷ es) s inv =
      interleaved-Inv es (take_step parser fresh files e s) (take_step-Inv e s inv)

  -- If the tensors of every layer's file lie inside it, and a new buffer has the size that it is asked
  -- for: after any interleaving, from no buffers on, of reads in parts, of reads and uploads that fail
  -- and of uploads, by any number of tasks for any layers, whatever the device has for a layer are the
  -- tensors of the layer's own file, whoever used the buffers before.
  pub interleaved-Exact :
      (es : List Event) (layer : ℕ)
      → Exact parser files layer
          ((interleaved parser fresh files es (no_buffers parser)).device layer)
  interleaved-Exact es layer =
      (interleaved-Inv es (no_buffers parser) (record {
        owner = λ x. 0;
        unused = λ x new. refl;
        free = tt;
        held = λ t. tt;
        exact = λ i. tt;
      })).exact
        layer
