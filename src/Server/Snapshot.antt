-- ===== src/Server/Snapshot.antt =====
-- The bucket that a server thread writes into a shared memory segment is the one that the client
-- reads out of it (server.cpp, the case `READ_BUCKET`; client.cpp, the loop that copies the cells).
use shared_memory_hashtable.Common.{
  ℕ, ◌≤◌, ◌<◌, ◌≡◌, refl, ap₂, true, false, some, List, [], ◌∷◌, length, leb, ltb, ◌-◌, ◌*◌, ◌+◌,
  ◌==◌, arith, ok, ◌>>=◌, Returns, ap, ◌∙◌,
}
use shared_memory_hashtable.HashTable.{HashTable}
use shared_memory_hashtable.HashTable
use shared_memory_hashtable.HashTable.Keys.{Key, equal_refl}
use shared_memory_hashtable.Message.{
  Bytes, Mode, Message, new_message, uint8_to_string, max_length_key, max_length_val,
}
use shared_memory_hashtable.Message.Text.{
  copied, copy_bytes-uint8_to_string, payload-copied, first_byte_nonzero,
}
use shared_memory_hashtable.Client.{cell_size, zero_prefix, read_cells, shown_cells}
use shared_memory_hashtable.Server.{
  Os, Server, Outcome, Segment, store_cells, to_cells, total_length, write_segment, read_bucket,
  respond, set_segment, serve,
}
use shared_memory_hashtable.Server.Exchange.{Fits}

-- Every key fits the array of a message and is not empty, and every value fits.
abbrev pub EntriesFit : List (Bytes × Bytes) → Type 0
EntriesFit [] = Unit {0}
EntriesFit ((k, v) ∷ es) =
    Fits max_length_key k × (1 ≤ length k) × Fits max_length_val v × EntriesFit es

nonzero_prefix :
    (a : Bytes) {x : ℕ} {s : Bytes} → uint8_to_string a ≡ x ∷ s → zero_prefix 8 a ≡ false
unfolding zero_prefix
nonzero_prefix a h =
    let (y, b, e, ne) = first_byte_nonzero a h in
    let other : (y == 0) ≡ false = ground (arith, ne) in rw (e, other)

starts : (a k : Bytes) → 1 ≤ length k → uint8_to_string a ≡ k → zero_prefix 8 a ≡ false
starts a [] lo h = absurd (omega arith)
starts a (x ∷ k) lo h = nonzero_prefix a h

module _ (os : Os) (wide_key : length os.stale_key ≡ max_length_key)
    (wide_val : length os.stale_val ≡ max_length_val) where
  -- Whatever the uninitialised arrays hold, the client shows the entries of the bucket.
  to_cells-shown_cells :
      (entries : List (Bytes × Bytes))
      → EntriesFit entries
      → (left : ℕ) → left ≡ cell_size * length entries + 24
      → Returns (to_cells os entries) λ cells.
        (length cells ≡ length entries)
        × Returns (read_cells left cells) (λ r. shown_cells r ≡ entries)
  unfolding to_cells read_cells shown_cells
  to_cells-shown_cells [] fit left all =
      let wide : ltb left 8 ≡ false = ground arith in ([], refl, (refl, ([], rw wide, refl)))
  to_cells-shown_cells ((k, v) ∷ es) (fk, lo, fv, fit) left all =
      let (a, run, (same, _)) = copied os.stale_key k fk.0 (omega (arith, fk.1, wide_key)) in
      let (b, run', (same', _)) = copied os.stale_val v fv.0 (omega (arith, fv.1, wide_val)) in
      let (cells, run'', (many, (r, read, rest))) =
        to_cells-shown_cells es fit (left - cell_size) (omega arith) in
      let some_left : ltb left 8 ≡ false = ground arith in
      let pair_left : ltb left cell_size ≡ false = ground arith in
      (
        (a, b) ∷ cells,
        rw (run, ◌>>=◌, run', ◌>>=◌, run''),
        (
          omega (arith, many),
          (
            (a, b) ∷ r,
            rw (some_left, starts a k lo same, pair_left, read, ◌>>=◌),
            ap₂ (λ c l. c ∷ l) (ap₂ (λ x y. (x, y)) same same') rest,
          ),
        ),
      )

-- the name of the segment for a process
abbrev pub segment_name : Os → ℕ → Bytes
segment_name os id = 47 ∷ os.to_string id

module _ (os : Os) ⦃key : Key Bytes⦄ where
  -- the calls of the operating system succeed, and the numerals fit the arrays of a message
  pub record Works (id : ℕ) (entries : List (Bytes × Bytes)) : Type 0 where
    pub wide_key : length os.stale_key ≡ max_length_key
    pub wide_val : length os.stale_val ≡ max_length_val
    pub opened : os.shm_open (segment_name os id) ≡ true
    pub sized : os.ftruncate (segment_name os id) (total_length os entries) ≡ true
    pub mapped : os.mmap (segment_name os id) (total_length os entries) ≡ true
    pub name_text : Fits max_length_key (segment_name os id)
    pub size_text : Fits max_length_val (os.to_string (total_length os entries))

  -- What a `READ_BUCKET` leaves: a response with the segment's name and length, and a segment in which
  -- the client finds the entries.
  pub record Snapshot (s : Server) (id : ℕ) (entries : List (Bytes × Bytes)) (o : Outcome)
      : Type 0 where
    pub reply : Message
    pub sent : o.0 ≡ some reply
    pub succeeded : reply.success ≡ true
    pub process : reply.client_id ≡ id
    pub name : uint8_to_string reply.key ≡ segment_name os id
    pub size : uint8_to_string reply.payload ≡ os.to_string (total_length os entries)
    pub segment : Segment
    pub written : o.1.segments (segment_name os id) ≡ some segment
    pub mapped : segment.bytes ≡ total_length os entries
    pub shown : Returns (read_cells segment.bytes segment.cells) (λ r. shown_cells r ≡ entries)
    pub unchanged : o.1.table ≡ s.table

  -- A request `READ_BUCKET` for an index below the capacity, when the calls of the operating system
  -- succeed, the numerals fit the arrays of a message, the keys of the bucket fit them and are not
  -- empty and its values fit them: the server does not fault, leaves the table as it is, and writes a
  -- segment, named in the response, in which the client finds the entries of the bucket in order.
  pub respond-Snapshot :
      (s : Server) (msg : Message) (idx : ℕ) (entries : List (Bytes × Bytes))
      → msg.mode ≡ Mode.read_bucket
      → length msg.key ≡ max_length_key
      → os.stoul (uint8_to_string msg.key) ≡ some idx
      → idx < s.table.capacity
      → HashTable.get_bucket s.table idx ≡ ok entries
      → EntriesFit entries
      → Works msg.client_id entries
      → Returns (respond os s msg) (Snapshot s msg.client_id entries)
  unfolding respond serve read_bucket write_segment store_cells total_length
  respond-Snapshot s msg idx entries mode wide parsed below bucket fit w =
      let name = segment_name os msg.client_id in
      let inside : leb s.table.capacity idx ≡ false = ground arith in
      let size = total_length os entries in
      let (cells, run, (many, shown)) =
        to_cells-shown_cells os w.wide_key w.wide_val entries fit size refl in
      let room : ltb size (cell_size * length cells) ≡ false = ground (arith, many) in
      let segment : Segment = record { bytes = size; cells = cells } in
      let (k, run', (same, _)) =
        copy_bytes-uint8_to_string msg.key name w.name_text.0
          (omega (arith, w.name_text.1, wide)) in
      let (d, run'', same') =
        payload-copied (os.to_string (total_length os entries)) w.size_text.0
          (omega (arith, w.size_text.1)) in
      let reply : Message = record new_message {
        mode = Mode.response;
        client_id = msg.client_id;
        key = k;
        payload = d;
        success = true;
      } in
      (
        (some reply, set_segment os s name (some segment)),
        ap (serve os s msg) mode
            ∙ rw (
              parsed, serve, read_bucket, inside, bucket, ◌>>=◌, w.opened, w.sized, w.mapped, run,
              room, ◌>>=◌, run', ◌>>=◌, run'',
            ),
        record {
          reply = reply;
          sent = refl;
          succeeded = refl;
          process = refl;
          name = same;
          size = same';
          segment = segment;
          written = rw (equal_refl name);
          mapped = refl;
          shown = shown;
          unchanged = refl;
        },
      )
