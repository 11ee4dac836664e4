-- ===== src/Compare/Engines.antt =====
-- `ENGINES` and `_requested_engines` of backend/app/routes/query.py.
use open_htap_stack.Prelude.{
  String, Bool, true, false, Option, none, some, List, [], ◌∷◌, contains, if◌then◌else◌,
}

-- The keys of `ENGINES`, in their order.
abbrev pub engines : List String
engines = "cassandra" ∷ "presto" ∷ "spark" ∷ "spark_bulk" ∷ "cqlite" ∷ []

-- The engines chosen, or one of the two answers with status 400.
pub data Choice : Type 0 where
  chosen : List String → Choice
  unknown_engines : List String → Choice
  no_engine : Choice

-- `[name for name in names if name not in ENGINES]`
unfoldable pub unknown_of : List String → List String
unknown_of [] = []
unknown_of (n ∷ ns) = let rest = unknown_of ns in if contains n engines then rest else n ∷ rest

-- The keys of `seen` after the loop, where `seen` has the names before it.
unfoldable pub unseen_of : List String → List String → List String
unseen_of seen [] = []
unseen_of seen (n ∷ ns) =
    let skipped = unseen_of seen ns in
    let taken = unseen_of (n ∷ seen) ns in if contains n seen then skipped else n ∷ taken

-- `[name for name in ENGINES if name in set(names)]`
unfoldable pub in_display_order : List String → List String → List String
in_display_order names [] = []
in_display_order names (e ∷ es) =
    let rest = in_display_order names es in if contains e names then e ∷ rest else rest

unfoldable pub choice_of : List String → Choice
choice_of [] = no_engine
choice_of (n ∷ ns) = chosen (n ∷ ns)

-- The request's names, none of which is unknown.
unfoldable pub order_names : Bool → List String → Choice
unfolding choice_of unseen_of in_display_order
order_names true names = choice_of (unseen_of [] names)
order_names false names = choice_of (in_display_order names engines)

unfoldable pub check_unknown : List String → Choice → Choice
check_unknown [] choice = choice
check_unknown (n ∷ ns) choice = unknown_engines (n ∷ ns)

-- `_requested_engines(names, keep_order)`; no names is `None`.
unfoldable pub requested_engines : Option (List String) → Bool → Choice
unfolding unknown_of check_unknown order_names
requested_engines none keep_order = chosen engines
requested_engines (some names) keep_order =
    check_unknown (unknown_of names) (order_names keep_order names)
