-- ===== src/Cypher/SchemaDrop.antt =====
-- cypher/drop_constraint_handler.go and cypher/drop_index_handler.go: the tools that drop a constraint or
-- an index. The handlers differ in two texts. The database service and the packages that encode the
-- reply are parameters; a run gives the calls that it makes, in order, and its reply.
pub mod Dropped
use neo4j_mcp_canary.Prelude.{
  Bool, true, false, List, [], ◌∷◌, ◌++◌, ◌⊎◌, inl, inr, Option, none, some, if◌then◌else◌,
}
use neo4j_mcp_canary.Text.{Str, codes, ◌==s◌}
use neo4j_mcp_canary.Graphutil.Value.{Params, str}
use neo4j_mcp_canary.Graphutil.Quote.{quote_identifier}

-- The methods of the database service, json.Marshal of the name and of whether it existed, and
-- `tools.EncodeOutput`.
pub record DropService : Type 0 where
  pub execute_read : Str → Params → Str ⊎ List Params
  pub execute_write : Str → Option Str
  pub marshal : Str → Bool → Str ⊎ Str
  pub encode_output : Str → Str ⊎ Str

pub data DropCall : Type 0 where
  looked_up : Str → Params → DropCall
  dropped : Str → DropCall

-- The result of the tool: an error message, by where it comes from, or the encoded result.
pub data DropReply : Type 0 where
  no_service : DropReply
  no_arguments : Str → DropReply
  name_required : DropReply
  lookup_failed : Str → DropReply
  drop_failed : Str → DropReply
  marshal_failed : Str → DropReply
  encoding_failed : Str → DropReply
  drop_done : Str → Str → DropReply

abbrev pub DropRun : Type 0
DropRun = List DropCall × DropReply

-- What the two handlers differ in: the query that looks a name up, and the command.
pub record DropKind : Type 0 where
  pub exists_query : Str
  pub command : Str

abbrev pub drop_constraint_kind : DropKind
drop_constraint_kind = record {
  exists_query = codes "SHOW CONSTRAINTS YIELD name WHERE name = $name";
  command = codes "DROP CONSTRAINT ";
}

abbrev pub drop_index_kind : DropKind
drop_index_kind = record {
  exists_query = codes "SHOW INDEXES YIELD name WHERE name = $name";
  command = codes "DROP INDEX ";
}

abbrev pub name_params : Str → Params
name_params name = (codes "name", str name) ∷ []

abbrev pub has_records : List Params → Bool
has_records [] = false
has_records (r ∷ rs) = true

unfoldable pub drop_statement : DropKind → Str → Str
drop_statement kind name = kind.command ++ (quote_identifier name ++ codes " IF EXISTS")

module _ (kind : DropKind) (service : DropService) where
  abbrev pub encoded_drop : Str → Str ⊎ Str → DropReply
  encoded_drop json (inl e) = encoding_failed e
  encoded_drop json (inr response) = drop_done response json

  abbrev pub marshalled : Str ⊎ Str → DropReply
  marshalled (inl e) = marshal_failed e
  marshalled (inr json) = encoded_drop json (service.encode_output json)

  abbrev pub after_drop : Str → Bool → Option Str → DropReply
  after_drop name existed (some e) = drop_failed e
  after_drop name existed none = marshalled (service.marshal name existed)

  abbrev pub after_lookup : Str → Str ⊎ List Params → DropRun
  after_lookup name (inl e) = (looked_up kind.exists_query (name_params name) ∷ [], lookup_failed e)
  after_lookup name (inr records) = (
    looked_up kind.exists_query (name_params name) ∷ dropped (drop_statement kind name) ∷ [],
    after_drop name (has_records records) (service.execute_write (drop_statement kind name)),
  )

  abbrev pub named_drop : Str ⊎ Str → DropRun
  named_drop (inl e) = ([], no_arguments e)
  named_drop (inr name) =
      if name ==s []
      then ([], name_required)
      else after_lookup name (service.execute_read kind.exists_query (name_params name))

abbrev pub handle_drop : DropKind → Unit {0} ⊎ DropService → Str ⊎ Str → DropRun
handle_drop kind (inl none_set) request = ([], no_service)
handle_drop kind (inr service) request = named_drop kind service request

-- handleDropConstraint, for the database service, if there is one, and the decoded name
unfoldable pub handle_drop_constraint : Unit {0} ⊎ DropService → Str ⊎ Str → DropRun
unfolding drop_statement
handle_drop_constraint service request = handle_drop drop_constraint_kind service request

-- handleDropIndex
unfoldable pub handle_drop_index : Unit {0} ⊎ DropService → Str ⊎ Str → DropRun
unfolding drop_statement
handle_drop_index service request = handle_drop drop_index_kind service request
