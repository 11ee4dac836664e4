-- ===== src/Vector/Tests.antt =====
-- Runs of the live embedder on small inputs, and the theorems at inputs that meet their hypotheses.
use open_htap_stack.Prelude.{
  ℕ, ◌≡◌, refl, String, true, Option, none, some, List, [], ◌∷◌, map, length, lookup, Distinct,
  arith,
}
use open_htap_stack.Geometry.Floats.{Floats}
use open_htap_stack.Geometry.Grid.{grid}
use open_htap_stack.Prelude.Chars.{codes, lower}
use open_htap_stack.Vector.Embedding.{embedding_dims, findall, get_embedding, local_embedding}
use open_htap_stack.Vector.Live.{
  all_space, acknowledged, refused, Stored, Embedder, Moment, snippet_key, changed, round, toggle,
  run, started, tick, index_one,
}
use open_htap_stack.Vector.Dimensions.{length-get_embedding}
use open_htap_stack.Vector.Remembered.{IsCurrent}
use open_htap_stack.Vector.Current.{run-IsCurrent}
use open_htap_stack.Vector.CatchUp.{Works}
use open_htap_stack.Vector.Complete.{run-remembers_each}
use open_htap_stack.Vector.Overwritten.{index_one-overwrites}

abbrev fl : Floats
fl = record grid { lit = λ m k. m }

-- A hash that keeps a text as it is.
abbrev hash : List ℕ → List ℕ
hash bytes = bytes

tokens : findall [] (lower (codes "No-fly A1")) ≡ codes "no" ∷ codes "fly" ∷ codes "a1" ∷ []
unfolding findall lower
tokens = refl

abbrev Row : Type 0
Row = Stored fl hash 1

abbrev LiveState : Type 0
LiveState = Embedder fl hash 1

abbrev rows : List (String × Option String)
rows = ("d1", some "calm") ∷ ("d2", none) ∷ ("d3", some "gusty") ∷ ("d4", some " ") ∷ []

abbrev moment : Moment fl hash 1
moment = record {
  connected = true;
  table_reads = true;
  rows = some rows;
  endpoint = none;
  writes = λ k. acknowledged;
}

abbrev failing : Moment fl hash 1
failing = record moment { writes = λ k. refused }

abbrev primed : LiveState
primed = record (started fl hash 1 true []) { primed = true }

-- One of the two snippets that are no blanks is left for the next round.
one_left : (tick fl hash 1 moment primed).pending ≡ 1
unfolding tick started
one_left = refl

retried : (tick fl hash 1 failing primed).failed ≡ 1
unfolding tick started
retried = refl

length-get_embedding_example : length (local_embedding fl hash (codes "gusty")) ≡ embedding_dims
unfolding get_embedding
length-get_embedding_example =
    length-get_embedding fl hash none (codes "gusty") (local_embedding fl hash (codes "gusty")) refl

run-IsCurrent_example :
    IsCurrent fl hash 1
      (run fl hash 1 (round moment ∷ toggle true ∷ round failing ∷ []) (started fl hash 1 true []))
run-IsCurrent_example =
    run-IsCurrent fl hash 1 (round moment ∷ toggle true ∷ round failing ∷ []) true [] tt
      ((λ k. ground arith), (tt, ((λ k. ground arith), tt)))

works : Works fl hash 1 rows moment
unfolding get_embedding
works = record {
  up = refl;
  reads = refl;
  embeds = λ text. (local_embedding fl hash text, refl);
  writes = λ k. refl;
}

distinct : Distinct rows
unfolding lookup
distinct = (refl, (refl, (refl, (refl, tt))))

run-remembers_each_example :
    lookup "d3" (run fl hash 1 (map round (moment ∷ moment ∷ [])) primed).seen
    ≡ some (snippet_key fl hash 1 "gusty")
unfolding started lookup changed all_space
run-remembers_each_example =
    run-remembers_each fl hash 1 rows (moment ∷ moment ∷ []) primed "d3" "gusty" distinct
      (works, (works, tt)) (refl, refl) (omega arith) refl refl

-- The asset d3 was indexed with an older text after its new one was embedded.
abbrev embedded : LiveState
embedded = record primed { seen = ("d3", snippet_key fl hash 1 "gusty") ∷ [] }

index_one-overwrites_example :
    lookup "d3"
      (run fl hash 1
        (map round (moment ∷ failing ∷ []))
        (index_one fl hash 1 moment "d3" "calm" embedded)).table
    ≡ some
        (record { text_payload = "calm"; payload_vector = local_embedding fl hash (codes "calm") })
unfolding started lookup get_embedding
index_one-overwrites_example =
    index_one-overwrites fl hash 1 "d3" "calm" "gusty" moment (moment ∷ failing ∷ [])
      (local_embedding fl hash (codes "calm")) embedded refl refl refl refl
      ((distinct, refl), ((distinct, refl), tt))
