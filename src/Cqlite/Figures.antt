-- ===== src/Cqlite/Figures.antt =====
-- `_collect_measured` of backend/app/db/cqlite_client.py: what is reported of the scans of a statement.
use open_htap_stack.Prelude.{ℕ, ◌+◌, max, String, Option, none, some, List, [], ◌∷◌, if◌then◌else◌}
use open_htap_stack.Prelude.Chars.{codes, lower}
use open_htap_stack.Cqlite.Client.{Directory, is_in}

-- `provider.last_scan`; the time is in tenths of a millisecond.
pub record Scan : Type 0 where
  pub files : ℕ
  pub bytes : ℕ
  pub reader_open : ℕ
  pub data_age_s : Option ℕ

-- `scans`, for a statement in lower case.
unfoldable pub scans_of : (String → Scan) → List ℕ → List (String × Directory) → List Scan
unfolding is_in
scans_of last_scan lowered [] = []
scans_of last_scan lowered ((table, provider) ∷ providers) =
    if is_in (codes table) lowered
    then last_scan table ∷ scans_of last_scan lowered providers
    else scans_of last_scan lowered providers

unfoldable pub sum_of : (Scan → ℕ) → List Scan → ℕ
sum_of figure [] = 0
sum_of figure (s ∷ ss) = figure s + sum_of figure ss

abbrev pub older : Option ℕ → Option ℕ → Option ℕ
older none b = b
older (some a) none = some a
older (some a) (some b) = some (max a b)

-- `max(ages) if ages else None`
unfoldable pub oldest : List Scan → Option ℕ
oldest [] = none
oldest (s ∷ ss) = older s.data_age_s (oldest ss)

pub record Measured : Type 0 where
  pub files : Option ℕ
  pub bytes : Option ℕ
  pub reader_open : Option ℕ
  pub data_age_s : Option ℕ

abbrev pub not_measured : Measured
not_measured = record { files = none; bytes = none; reader_open = none; data_age_s = none }

unfoldable pub measured : List Scan → Measured
unfolding sum_of oldest
measured [] = not_measured
measured (s ∷ ss) = record {
  files = some (sum_of (λ x. x.files) (s ∷ ss));
  bytes = some (sum_of (λ x. x.bytes) (s ∷ ss));
  reader_open = some (sum_of (λ x. x.reader_open) (s ∷ ss));
  data_age_s = oldest (s ∷ ss);
}

-- `_collect_measured`, after `_reset_measured`.
unfoldable pub collect_measured : (String → Scan) → List ℕ → List (String × Directory) → Measured
unfolding scans_of measured
collect_measured last_scan sql providers = measured (scans_of last_scan (lower sql) providers)
