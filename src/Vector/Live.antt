-- ===== src/Vector/Live.antt =====
-- `LiveEmbedder` of backend/app/routes/vector.py, and the writes of `_run_indexing` beside it. What
-- Cassandra and the embedding endpoint answer is given to each pass. The embeddings of one pass run
-- side by side, each for another asset; here they stand in the order of the batch.
use open_htap_stack.Prelude.{
  ℕ, suc, ◌+◌, ◌-◌, ◌/◌, ◌%◌, String, Bool, true, false, not, ◌&&◌, Option, none, some, List, [],
  ◌∷◌, ◌++◌, ltb, ◌==◌, ◌=s=◌, if◌then◌else◌, length, take, lookup, insert,
}
use open_htap_stack.Geometry.Floats.{Floats}
use open_htap_stack.Prelude.Chars.{codes, is_space}
use open_htap_stack.Vector.Embedding.{Reply, get_embedding}

-- The bytes of a code point in UTF-8.
unfoldable pub utf8_char : ℕ → List ℕ
utf8_char c =
    if ltb c 128
    then c ∷ []
    else if ltb c 2048
    then (192 + c / 64) ∷ (128 + c % 64) ∷ []
    else if ltb c 65536
    then (224 + c / 4096) ∷ (128 + c / 64 % 64) ∷ (128 + c % 64) ∷ []
    else (240 + c / 262144) ∷ (128 + c / 4096 % 64) ∷ (128 + c / 64 % 64) ∷ (128 + c % 64) ∷ []

unfoldable pub utf8 : List ℕ → List ℕ
unfolding utf8_char
utf8 [] = []
utf8 (c ∷ cs) = utf8_char c ++ utf8 cs

-- `not text.strip()`
unfoldable pub all_space : List ℕ → Bool
unfolding is_space
all_space [] = true
all_space (c ∷ cs) = is_space c && all_space cs

unfoldable pub same_digest : List ℕ → List ℕ → Bool
same_digest [] [] = true
same_digest [] (y ∷ ys) = false
same_digest (x ∷ xs) [] = false
same_digest (x ∷ xs) (y ∷ ys) = x == y && same_digest xs ys

-- What a pass that raises tells.
pub data PassError : Type 0 where
  cassandra_unavailable read_failed : PassError

-- A write that Cassandra acknowledges, one that does nothing, and one that is applied though the client
-- is told that it failed.
pub data Write : Type 0 where
  acknowledged refused lost : Write

module _ (fl : Floats) (blake2b : List ℕ → List ℕ) (max_per_cycle : ℕ) where
  open fl use {Float}

  -- A row of drone_text_embeddings, under its asset.
  pub record Stored : Type 0 where
    pub text_payload : String
    pub payload_vector : List Float

  -- `LiveEmbedder`, its clock readings left out, with the table that it writes.
  pub record Embedder : Type 0 where
    pub enabled : Bool
    pub seen : List (String × List ℕ)
    pub primed : Bool
    pub embedded : ℕ
    pub failed : ℕ
    pub passes : ℕ
    pub last_embedded : ℕ
    pub pending : ℕ
    pub error : Option PassError
    pub table : List (String × Stored)

  -- What a pass meets: whether Cassandra is connected, whether the table of the embeddings can be read,
  -- the assets with their snippets unless reading them raises, the endpoint, and what becomes of the
  -- write for each asset.
  pub record Moment : Type 0 where
    pub connected : Bool
    pub table_reads : Bool
    pub rows : Option (List (String × Option String))
    pub endpoint : Option (List ℕ → Reply Float)
    pub writes : String → Write

  -- `_snippet_key`, before it is written in hexadecimal.
  unfoldable pub snippet_key : String → List ℕ
  unfolding utf8
  snippet_key text = blake2b (utf8 (codes text))

  -- The loop of `_prime`.
  unfoldable pub prime_rows :
      List (String × Stored) → List (String × List ℕ) → List (String × List ℕ)
  unfolding snippet_key insert
  prime_rows [] seen = seen
  prime_rows ((entity_id, row) ∷ rows) seen = prime_rows rows (
      if row.text_payload =s= ""
      then seen
      else insert entity_id (snippet_key row.text_payload) seen)

  -- `_prime`, where its read succeeds.
  unfoldable pub prime : Embedder → Embedder
  unfolding prime_rows
  prime e = record e { seen = prime_rows e.table e.seen; primed = true }

  -- `self._seen.get(entity_id) != _snippet_key(text)`
  unfoldable pub is_unseen : Option (List ℕ) → List ℕ → Bool
  unfolding same_digest
  is_unseen none key = true
  is_unseen (some digest) key = not (same_digest digest key)

  unfoldable pub is_changed : String → String → List (String × List ℕ) → Bool
  unfolding all_space is_unseen snippet_key lookup
  is_changed entity_id text seen =
      not (all_space (codes text)) && is_unseen (lookup entity_id seen) (snippet_key text)

  -- `changed`
  unfoldable pub changed :
      List (String × List ℕ) → List (String × Option String) → List (String × String)
  unfolding is_changed
  changed seen [] = []
  changed seen ((entity_id, none) ∷ rows) = changed seen rows
  changed seen ((entity_id, some text) ∷ rows) =
      if is_changed entity_id text seen
      then (entity_id, text) ∷ changed seen rows
      else changed seen rows

  -- The INSERT of a text with its vector.
  unfoldable pub write_embedding :
      String → String → List Float → List (String × Stored) → List (String × Stored)
  unfolding insert
  write_embedding entity_id text vector table =
      insert entity_id (record { text_payload = text; payload_vector = vector }) table

  unfoldable pub count_failure : Embedder → Embedder
  count_failure e = record e { failed = e.failed + 1 }

  -- `embed_one` once there is a vector; whether the asset counts as embedded.
  unfoldable pub finish_write : Write → String → String → List Float → Embedder → Bool × Embedder
  unfolding write_embedding count_failure snippet_key insert
  finish_write acknowledged entity_id text vector e = (
    true,
    record e {
      table = write_embedding entity_id text vector e.table;
      seen = insert entity_id (snippet_key text) e.seen;
    },
  )
  finish_write refused entity_id text vector e = (false, count_failure e)
  finish_write lost entity_id text vector e =
      (false, count_failure (record e { table = write_embedding entity_id text vector e.table }))

  unfoldable pub write_vector :
      Option (List Float) → Write → String → String → Embedder → Bool × Embedder
  unfolding finish_write count_failure
  write_vector none write entity_id text e = (false, count_failure e)
  write_vector (some vector) write entity_id text e = finish_write write entity_id text vector e

  unfoldable pub embed_one : Moment → String → String → Embedder → Bool × Embedder
  unfolding write_vector get_embedding
  embed_one m entity_id text e =
      write_vector (get_embedding fl blake2b m.endpoint (codes text)) (m.writes entity_id) entity_id
        text e

  -- The batch, and how many of it were embedded.
  unfoldable pub embed_all : Moment → List (String × String) → Embedder → ℕ × Embedder
  unfolding embed_one
  embed_all m [] e = (0, e)
  embed_all m ((entity_id, text) ∷ batch) e =
      let (done, after) = embed_one m entity_id text e in
      let (count, last) = embed_all m batch after in (if done then suc count else count, last)

  -- The end of `_pass`.
  unfoldable pub count_pass : ℕ → Embedder → Embedder
  count_pass embedded e = record e {
    embedded = e.embedded + embedded;
    last_embedded = embedded;
    passes = e.passes + 1;
  }

  -- `_pass` from the reading of the snippets on; the error is the exception's.
  unfoldable pub pass_rows :
      Moment → Option (List (String × Option String)) → Embedder → Option PassError × Embedder
  unfolding changed embed_all count_pass
  pass_rows m none e = (some read_failed, e)
  pass_rows m (some rows) e =
      let todo = changed e.seen rows in
      let batch = take max_per_cycle todo in
      let (embedded, after) =
        embed_all m batch (record e { pending = length todo - length batch }) in
      (none, count_pass embedded after)

  unfoldable pub primed_pass : Moment → Bool → Embedder → Option PassError × Embedder
  unfolding prime pass_rows
  primed_pass m true e = pass_rows m m.rows e
  primed_pass m false e =
      if m.table_reads then pass_rows m m.rows (prime e) else (some read_failed, e)

  -- `_pass`
  unfoldable pub pass : Moment → Embedder → Option PassError × Embedder
  unfolding primed_pass
  pass m e = if m.connected then primed_pass m e.primed e else (some cassandra_unavailable, e)

  -- One round of the loop of `run`.
  unfoldable pub tick : Moment → Embedder → Embedder
  unfolding pass
  tick m e =
      if e.enabled then (let (raised, after) = pass m e in record after { error = raised }) else e

  -- `set_enabled`
  unfoldable pub set_enabled : Bool → Embedder → Embedder
  set_enabled on e = record e { enabled = on; error = if on then e.error else none }

  -- The `try` of `index_one`, by what the embedding and the write come to.
  unfoldable pub index_write : Option (List Float) → Write → String → String → Embedder → Embedder
  unfolding write_embedding
  index_write none write entity_id text e = e
  index_write (some vector) refused entity_id text e = e
  index_write (some vector) acknowledged entity_id text e = record e {
    table = write_embedding entity_id text vector e.table;
  }
  index_write (some vector) lost entity_id text e = record e {
    table = write_embedding entity_id text vector e.table;
  }

  -- `index_one` of `_run_indexing`, for an asset with the text that it has read of it.
  unfoldable pub index_one : Moment → String → String → Embedder → Embedder
  unfolding get_embedding index_write
  index_one m entity_id text e =
      index_write (get_embedding fl blake2b m.endpoint (codes text)) (m.writes entity_id) entity_id
        text e

  pub data Event : Type 0 where
    round : Moment → Event
    toggle : Bool → Event

  unfoldable pub happen : Event → Embedder → Embedder
  unfolding tick set_enabled
  happen (round m) e = tick m e
  happen (toggle on) e = set_enabled on e

  unfoldable pub run : List Event → Embedder → Embedder
  unfolding happen
  run [] e = e
  run (ev ∷ events) e = run events (happen ev e)

  -- `LiveEmbedder.__init__`, beside a table from before.
  unfoldable pub started : Bool → List (String × Stored) → Embedder
  started enabled table = record {
    enabled = enabled;
    seen = [];
    primed = false;
    embedded = 0;
    failed = 0;
    passes = 0;
    last_embedded = 0;
    pending = 0;
    error = none;
    table = table;
  }
