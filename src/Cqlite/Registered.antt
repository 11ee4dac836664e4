-- ===== src/Cqlite/Registered.antt =====
-- Which tables `CqliteClient` of backend/app/db/cqlite_client.py has registered over its retries.
use open_htap_stack.Prelude.{
  ℕ, ◌-◌, ◌≤◌, ◌<◌, ◌≡◌, String, true, false, ◌&&◌, Bool-cases, inl, inr, none, some, ltb, ◌==◌,
  length, contains, lookup, arith,
}
use open_htap_stack.Cqlite.Client.{
  cqlite_tables, retry_after_s, Directory, done, Site, Client, try_register, is_empty, no_tables,
  connect, register_missing, ensure_registered,
}
use open_htap_stack.Cqlite.Loops.{
  register_missing_all-registers, both_true, all_true, register_all-registers,
}

-- A client that has registered nothing has no session, or one with nothing in it.
abbrev pub HasSession : Client → Type 0
HasSession c = is_empty c.providers ≡ false → c.ctx ≡ true

connect-registers :
    (s : Site) (now : ℕ) (c : Client) (asked : String) (d : Directory)
    → (s.imports && s.cassandra) ≡ true
    → try_register s asked ≡ done d
    → contains asked cqlite_tables ≡ true
    → lookup asked (connect s now c).providers ≡ some d
unfolding connect
connect-registers s now c asked d e opens h =
    rw e (register_all-registers s cqlite_tables asked d no_tables opens h)

register_missing-registers :
    (s : Site) (now : ℕ) (c : Client) (asked : String) (d : Directory)
    → (c.ctx && s.imports && s.cassandra) ≡ true
    → try_register s asked ≡ done d
    → contains asked cqlite_tables ≡ true
    → lookup asked c.providers ≡ none
    → lookup asked (register_missing s now c).providers ≡ some d
unfolding register_missing
register_missing-registers s now c asked d e opens h n = rw e (
    register_missing_all-registers s cqlite_tables asked d
      (record { providers = c.providers; declined = c.declined }) opens h n)

-- A table that came late is taken up: at the first retry 30 seconds or more after the last attempt, with
-- the modules there and Cassandra connected, a table that is not registered and whose directory can be
-- found and opened by then is registered with that directory, whatever becomes of the other tables.
pub ensure_registered-recovers :
    (s : Site) (now : ℕ) (c : Client) (asked : String) (d : Directory)
    → HasSession c
    → length c.providers < length cqlite_tables
    → retry_after_s ≤ now - c.attempted_at
    → s.imports ≡ true
    → s.cassandra ≡ true
    → contains asked cqlite_tables ≡ true
    → try_register s asked ≡ done d
    → lookup asked c.providers ≡ none
    → lookup asked (ensure_registered s now c).providers ≡ some d
unfolding ensure_registered
ensure_registered-recovers s now c asked d session some_missing late i k h opens n =
    rw
      (
        let e : (length c.providers == length cqlite_tables) ≡ false = ground arith in e,
        let f : ltb (now - c.attempted_at) retry_after_s ≡ false = ground arith in f,
      )
      (elim (Bool-cases (is_empty c.providers)) [
        | inl g ↦
            rw g (connect-registers s now c asked d (both_true s.imports s.cassandra i k) opens h)
        | inr g ↦ rw g (
            register_missing-registers s now c asked d
              (all_true c.ctx s.imports s.cassandra (session g) i k) opens h n)
      ])
