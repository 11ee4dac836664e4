-- ===== src/Sink/Stored.antt =====
-- The three rows of an event, among the writes of a batch.
use open_htap_stack.Prelude.{
  ℕ, ◌≡◌, refl, ap, ◌∙◌, String, Bool, true, false, ◌||◌, some, List, [], ◌∷◌, ◌++◌, ◌=s=◌, eq_iff,
  arith,
}
use open_htap_stack.Geometry.Floats.{Floats}
use open_htap_stack.Sink.Rows.{
  Settings, Event, Write, insert_raw, insert_history, upsert_latest, Derivations, identify,
  write_event,
}

module _ (fl : Floats) (metres : fl.Float → String) (cfg : Settings) where
  abbrev pub is_raw : String → Write fl metres cfg → Bool
  is_raw id (insert_raw r) = r.event_id =s= id
  is_raw id (insert_history r) = false
  is_raw id (upsert_latest r) = false

  abbrev pub is_history : String → Write fl metres cfg → Bool
  is_history id (insert_raw r) = false
  is_history id (insert_history r) = r.event_id =s= id
  is_history id (upsert_latest r) = false

  abbrev pub is_latest : String → Write fl metres cfg → Bool
  is_latest id (insert_raw r) = false
  is_latest id (insert_history r) = false
  is_latest id (upsert_latest r) = r.event_id =s= id

  abbrev pub any_write : (Write fl metres cfg → Bool) → List (Write fl metres cfg) → Bool
  any_write f [] = false
  any_write f (w ∷ ws) = f w || any_write f ws

  any_write-append :
      (f : Write fl metres cfg → Bool) (xs ys : List (Write fl metres cfg))
      → any_write f (xs ++ ys) ≡ (any_write f xs || any_write f ys)
  any_write-append f [] ys = refl
  any_write-append f (x ∷ xs) ys = ground (arith, any_write-append f xs ys)

  -- The three writes of an event are among these.
  pub record IsStored (id : String) (ws : List (Write fl metres cfg)) : Type 0 where
    pub raw : any_write (is_raw id) ws ≡ true
    pub history : any_write (is_history id) ws ≡ true
    pub latest : any_write (is_latest id) ws ≡ true

  pub IsStored-left :
      (id : String) (xs ys : List (Write fl metres cfg)) → IsStored id xs → IsStored id (xs ++ ys)
  IsStored-left id xs ys h = record {
    raw = any_write-append (is_raw id) xs ys ∙ rw h.raw refl;
    history = any_write-append (is_history id) xs ys ∙ rw h.history refl;
    latest = any_write-append (is_latest id) xs ys ∙ rw h.latest refl;
  }

  pub IsStored-right :
      (id : String) (xs ys : List (Write fl metres cfg)) → IsStored id ys → IsStored id (xs ++ ys)
  IsStored-right id xs ys h = record {
    raw = any_write-append (is_raw id) xs ys ∙ ground (arith, h.raw);
    history = any_write-append (is_history id) xs ys ∙ ground (arith, h.history);
    latest = any_write-append (is_latest id) xs ys ∙ ground (arith, h.latest);
  }

  identify-own :
      (e : Event fl metres cfg) (n : ℕ) (id : String) (at : ℕ)
      → e.event_id ≡ some (id, at)
      → identify fl metres cfg e n ≡ ((id, at), n)
  unfolding identify
  identify-own e n id at h = rw h refl

  pub write_event-IsStored :
      (clock : ℕ → ℕ) (zones : List _) (now : ℕ) (e : Event fl metres cfg)
      (d : Derivations fl metres cfg) (id : String) (at : ℕ)
      → e.event_id ≡ some (id, at)
      → IsStored id (write_event fl metres cfg clock zones now e d).0
  unfolding write_event
  write_event-IsStored clock zones now e d id at h =
      let own : (identify fl metres cfg e d.fresh_ids).0.0 ≡ id =
        ap (λ r. r.0.0) (identify-own e d.fresh_ids id at h) in
      record {
        raw = ground (arith, eq_iff id id, own);
        history = ground (arith, eq_iff id id, own);
        latest = ground (arith, eq_iff id id, own);
      }
