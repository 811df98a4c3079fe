-- ===== src/Graphutil/Erase.antt =====
-- Property values that differ only in what they hold: `erase` keeps whether a value is null and
-- whether it is a list. A build function whose statement is the same on erased values puts no value
-- into the text of a query: the text depends on names, operators and options alone.
pub mod Sim
pub mod Refs
use neo4j_mcp_canary.Prelude.{true, List, [], ◌∷◌, Option, none, some, map}
use neo4j_mcp_canary.Graphutil.Value.{Value, null, bool, arr, nil, Params}
use neo4j_mcp_canary.Graphutil.Filters.{Filter}
use neo4j_mcp_canary.Graphutil.NodeRef.{NodeRef}

abbrev pub erase : Value → Value
erase null = null
erase (arr xs) = arr nil
erase v = bool true

abbrev pub erase_params : Params → Params
erase_params [] = []
erase_params ((k, v) ∷ m) = (k, erase v) ∷ erase_params m

abbrev pub erase_filter : Filter → Filter
erase_filter f = record f { value = erase f.value }

abbrev pub erase_filters : List Filter → List Filter
erase_filters [] = []
erase_filters (f ∷ fs) = erase_filter f ∷ erase_filters fs

-- The id stays: only whether it is empty shows in the text, but an id is a name and no value.
abbrev pub erase_ref : NodeRef → NodeRef
erase_ref r = record r { match = erase_params r.match; filters = erase_filters r.filters }

abbrev pub erase_optional : Option NodeRef → Option NodeRef
erase_optional none = none
erase_optional (some r) = some (erase_ref r)
