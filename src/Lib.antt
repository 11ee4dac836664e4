-- ===== src/Lib.antt =====
-- A model of the core of the drone demonstration stack, and what is proved of it. The stack: a producer
-- sends drone events to Kafka; a sink (ingress/consumer/consumer.py) reads them in batches, derives
-- speed, heading and zone alerts, writes three Cassandra rows an event and commits the offsets; a
-- backend (backend/app) answers a dashboard, among others with two demonstrations of Accord
-- transactions, with the comparison of its query engines, and with the window of time they are asked
-- about.
--
-- Which file models what:
-- - Prelude: lists, texts as keys, association lists and sorting that the components share.
-- - Clearance: the airspace clearances of backend/app/routes/transactions.py. Ledger has the three
--   tables and the transactions of `_grant_cql` and `_release_cql`, each one atomic step; Step has
--   `_grant_reason`, `_release_reason`, `_clearance_step`, `_run_grant` and `_run_release`, where a
--   reply may be an answer, one without a row, a refusal, or lost after the transaction ran; State has
--   `_clearance_state`; Routes has `_clearance_reset`, `clearance_contend`, `clearance_demo` and
--   `_repeat_clearance`. Sound is the invariant: capacity = remaining + holders, and both indexes
--   agree. Outcome is about one step, Reads about the state that is shown, Released and Reset about the
--   reset, Asks and Contend about the contention, Scene and Demo about the script. The asks that `clearance_contend` makes from threads are a list in the order in which they
--   are serialised, which is any.
-- - Session: the session timeline of the same file. Store has the tables and `_apply_cql`, Step has
--   `_reason` and `_run_step`, Timeline serves any sequence of requests, Demo and Repeat have
--   `session_demo` and `_repeat_applied`, Latency `_percentile` and `_reference_ms`, and Median what
--   the p50 is.
-- - Window: backend/app/routes/query.py, `_bucket_start`, `_holds_events`, `_sink_consumed_past` and
--   `get_window`, with the sink's own `event_bucket`. What Kafka and Cassandra answer are parameters.
-- - Geometry: containment, distance and bearing, which consumer.py and backend/app/utils/geometry.py
--   have alike, over an abstract type of floats of which only the order has laws, where a theorem asks
--   for them. Wkt is `parse_wkt_polygon`, and Printed what it makes of a polygon in WKT.
-- - Sink: consumer.py. Tracker is `DroneTracker.update`, Zones is `load_zones`, Alerts is
--   `AlertGenerator.check_proximity`, with its results in Verdicts and its cooldown in Cooldown; Rows is
--   what one event writes; Batch is the loop of `main`, one turn a step, with the Kafka consumer as a
--   record of calls; Stored and Delivery are what a turn keeps, Restart and Failure what the loop
--   promises. Times are whole microseconds there, and whole seconds in Window.
-- - Compare: the comparison of engines in backend/app/routes/query.py. Engines is
--   `_requested_engines`, with its laws in Chosen; Runs is `_begin_run`, `_end_run`, `_run_sequence`
--   and the generator of `stream_benchmark`, one step for each line; Requests serves any sequence of
--   requests, steps and departures, with their laws in Exclusive, Stream, Leaving and Abandoned.
--   Each request is served in one step.
--   Answers is `_run` and `_reported_figures`, what one engine answers, and Shape the table it makes.
-- - Snapshot: the bulk reader's snapshots, `SparkBulkClient` of backend/app/db/spark_client.py: Bulk
--   has `_reusable`, `_register_bulk_view` and the loop of `execute_query`, Life how long a snapshot
--   lasts and Backed what Cassandra was told of it, Reuse which one is read, and Numbers how the snapshots are named.
-- - Cdc: the live tail of the change stream, `CdcTail` of backend/app/routes/streaming.py. Values has
--   `_json_safe`, Record and Tail what `_decode` and `_ingest` do to the tail's state, Loop has
--   `_attach`, `run`, `status` and `records`. Journal compares the bounded buffer with all that was
--   decoded, Follow, Honest, Attach, Going and Shown hold what the page can rely on.
-- - Vector: backend/app/routes/vector.py. Embedding is `local_embedding` and `get_embedding`, Live the
--   `LiveEmbedder` with its passes and the writes of `_run_indexing` beside it. Remembered and
--   Current are what it remembers against the table, Marked, CatchUp and Complete how it gets through the
--   changed snippets, Held and Overwritten what a late write does, Dimensions the size of the vectors.
-- - Cqlite: `CqliteClient` of backend/app/db/cqlite_client.py. Message is `readable_error`, with its
--   loop in Stripped; Client registers the tables and runs a statement, Loops and Registered are
--   what the retries promise; Figures is `_collect_measured`, and Named which scans it counts.
-- - Console: backend/app/routes/sql_console.py. Accord is `AccordSqlClient` of
--   backend/app/db/accord_sql_client.py, Routes the reports and the lock that the routes share, with
--   what a request runs one statement a step, and Reported what is answered.
-- - Producer: ingress/producer/producer.py, how many events a turn of the loop sends and of which
--   assets: Pacing has `LiveSettings.apply` and the loop of `main`, with its laws in Rate and Rounds.
--
-- Loops run over a list or a given number of steps (a run of the sink is a list of turns, and the
-- search for a window has the eight steps of the code). Fuel is needed twice, in Cqlite: the loop of
-- `readable_error` has one more than the length of its text, which shrinks at each round, and a number
-- is written in decimal with one more than itself.
--
-- Not modelled: connections and their retries, schema statements, the texts of CQL and of the messages
-- (a reason is a constructor with what the text names), the dialects and guards of SQL, the clients of
-- Presto, Cassandra and the Spark connector, the other pages of the dashboard, and what the producer's
-- events hold.
pub mod Prelude
pub mod Clearance
pub mod Session
pub mod Window
pub mod Geometry
pub mod Sink
pub mod Compare
pub mod Snapshot
pub mod Producer
pub mod Cdc
pub mod Vector
pub mod Cqlite
pub mod Console
